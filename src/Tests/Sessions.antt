-- ===== src/Tests/Sessions.antt =====
-- A connection with its reader and its writer task, run from its start to its end.
use socket_manager.Prelude.{
  ℕ, ◌≡◌, refl, true, false, List, [], ◌∷◌, ◌++◌, Option, none, some, arith,
}
use socket_manager.Std.{ok, Run, done, Ends}
use socket_manager.Config.{ConnConfig, msg_buf_size}
use socket_manager.BufReadWrite.{new, fresh}
use socket_manager.OnMsgWrite.{on_msg_write}
use socket_manager.Link.{make_sender}
use socket_manager.MsgSender.{send_nonblock, burst_write, burst_loop, drop_msg_sender}
use socket_manager.Writer.{writer_step, writer_run, writer_at, receive}
use socket_manager.Reader.{Reading, filling, handle_reader}
use socket_manager.Conn.{start_connection}
use socket_manager.Conn.Calls.{starts}
use socket_manager.ConnHandle.{handle_connection, conn_step, poll_at, answer_at}
use socket_manager.Session.{
  Session, session_new, Act, task_polls, reader_polls, writer_polls, answers, calls, sends, drops,
  awaits, nonblock, writer, reader, session_step, session_run, spawn_tasks,
}
use socket_manager.Session.Truth.{IsTrue, session_tells_truth}
use socket_manager.Session.Turns.{Turn, reads, writes, polls_of}
use socket_manager.Session.Awaits.{awaits_of}
use socket_manager.Session.Life.{HasEnded, session_ends}
use socket_manager.Session.Start.{IsStarted, first_acts, session_starts}
use socket_manager.Tests.Traits.{test_write, test_read, test_on_msg}
use socket_manager.Tests.Rings.{test_ring, test_mpsc}
use socket_manager.Tests.Runtimes.{test_runtime}
use socket_manager.Tests.Reads.{quiet, incoming, value_or, test_finite, test_takes}
use socket_manager.Tests.Sends.{message, test_eager}
use socket_manager.Tests.Lives.{shared}

-- A callback of the tests has taken nothing at first.
abbrev into : ℕ → List ℕ
into f = []

abbrev TestSession : Type 0
TestSession = Session test_runtime test_ring test_mpsc test_write test_read test_on_msg into

abbrev run : List (Act test_runtime) → TestSession → Run TestSession
run acts s =
    session_run test_runtime test_ring test_mpsc test_write test_read test_on_msg into acts s

abbrev opened : TestSession
opened =
    session_new test_runtime test_ring test_mpsc test_write test_read test_on_msg into 1 2 shared []
      incoming

-- The user starts the connection in its callback, and sends three bytes; the writer has taken its
-- ring by then.
abbrev begins : List (Act test_runtime)
begins =
    task_polls
    ∷ calls (starts 7 quiet)
    ∷ answers (ok tt)
    ∷ task_polls
    ∷ writer_polls false
    ∷ sends (nonblock message) (λ now. [])
    ∷ []

-- Both tasks come to their ends, and are joined.
abbrev goes_on : List (Act test_runtime)
goes_on =
    drops
    ∷ writer_polls false
    ∷ writer_polls false
    ∷ writer_polls false
    ∷ reader_polls false
    ∷ reader_polls false
    ∷ awaits reader
    ∷ writer_polls false
    ∷ reader_polls false
    ∷ reader_polls false
    ∷ writer_polls false
    ∷ awaits writer
    ∷ awaits reader
    ∷ []

session_tells_truth_example :
    Ends
      (IsTrue test_runtime test_ring test_mpsc test_write test_read test_on_msg into)
      (run (begins ++ goes_on) opened)
session_tells_truth_example =
    session_tells_truth test_runtime test_ring test_mpsc test_write test_read test_on_msg into 1 2
      shared [] incoming (begins ++ goes_on) (λ f. refl) refl

abbrev begun : TestSession
begun = value_or opened (run begins opened)

begins_well : run begins opened ≡ done begun
unfolding session_run session_step session_new handle_connection make_sender spawn_tasks conn_step
    poll_at answer_at start_connection handle_reader new msg_buf_size writer_step writer_at receive
    send_nonblock burst_write burst_loop writer_run
begins_well = refl

-- The tasks of a session.
abbrev Tasks : Type 0
Tasks = ConnConfig × Reading test_read (on_msg_write test_on_msg)

abbrev none_yet : Tasks
none_yet = (
  quiet,
  record {
    stage = filling fresh;
    has_data = false;
    read_write = record { reader = incoming; writer = []; buf = []; r_offset = 0; w_offset = 0 };
  },
)

abbrev tasks_of : Option Tasks → Tasks
tasks_of (some t) = t
tasks_of none = none_yet

-- The polls fall one after the other.
abbrev turns : List Turn
turns =
    writes false
    ∷ reads false
    ∷ reads false
    ∷ writes false
    ∷ writes false
    ∷ reads true
    ∷ reads false
    ∷ reads false
    ∷ reads false
    ∷ writes true
    ∷ writes true
    ∷ writes true
    ∷ writes true
    ∷ writes true
    ∷ []

session_ends_example :
    Ends
      (HasEnded test_runtime test_ring test_mpsc test_write test_read test_on_msg into test_eager
        test_finite test_takes begun)
      (run (drops ∷ polls_of test_runtime turns ++ awaits_of test_runtime false) begun)
unfolding session_run session_step session_new handle_connection make_sender spawn_tasks conn_step
    poll_at answer_at start_connection handle_reader new msg_buf_size writer_step writer_at receive
    send_nonblock burst_write burst_loop writer_run drop_msg_sender
session_ends_example =
    session_ends test_runtime test_ring test_mpsc test_write test_read test_on_msg into test_eager
      test_finite test_takes 1 2 shared [] incoming begins turns false quiet
      (tasks_of begun.tasks).1 begun (λ f. refl) refl begins_well refl tt refl refl refl refl refl
      (omega arith) (omega arith)

session_starts_example :
    Ends
      (IsStarted test_runtime test_ring test_mpsc test_write test_read test_on_msg into
        (1, 2)
        7
        quiet
        []
        incoming)
      (run
        (first_acts test_runtime test_ring test_mpsc test_write test_read test_on_msg into true 7
            quiet
          ++ task_polls ∷ [])
        opened)
session_starts_example =
    session_starts test_runtime test_ring test_mpsc test_write test_read test_on_msg into 7 quiet 1
      2 shared [] incoming true
