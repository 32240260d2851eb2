-- ===== src/Tests/Reads.antt =====
-- The theorems on `BufReadWrite` and the reader task at concrete inputs, and runs of both.
use socket_manager.Prelude.{
  ℕ, ◌+◌, ◌<◌, ◌⊎◌, length, length-take, length-drop, take, min, ◌≡◌, refl, Bool, true, false, List,
  [], ◌∷◌, ◌++◌, arith,
}
use socket_manager.Std.{Byte, ready, ok, Run, done, Ends, pending}
use socket_manager.Io.{AsyncWrite, TakesSome, HasFinite}
use socket_manager.Config.{ConnConfig, msg_buf_size}
use socket_manager.OnMsgWrite.{on_msg_write}
use socket_manager.BufReadWrite.{
  new, Buffered, fresh, reading, write_all, write_all_loop, flush, fill_flush, poll_reading,
  poll_flushing, after_flush,
}
use socket_manager.BufReadWrite.Stream.{IsValid, buffered}
use socket_manager.BufReadWrite.Restart.{fill_flush_restart}
use socket_manager.Reader.{
  Reading, filling, returned, handle_reader, reader_run, reader_step, no_auto_flush_at,
}
use socket_manager.Reader.Delivery.{reader_task, reader_in_order}
use socket_manager.Reader.Returns.{reader_returns}
use socket_manager.Reader.Ticks.{timer_off_empty}
use socket_manager.Tests.Traits.{test_write, test_read, silent_read, test_on_msg, some_of}

abbrev pub quiet : ConnConfig
quiet = record { write_flush_interval = 0; read_msg_flush_interval = 0; msg_buffer_size = 0 }

abbrev timed : ConnConfig
timed = record quiet { read_msg_flush_interval = 5 }

-- The writer of the tests is the callback.
abbrev callback : AsyncWrite
callback = on_msg_write test_on_msg

abbrev pub incoming : test_read.Reader
incoming = (1 ∷ 2 ∷ 3 ∷ 4 ∷ [], [])

-- Where a run stands, if it has not gone wrong.
abbrev pub value_or : {A : Type 0} → A → Run A → A
value_or d (done a) = a
value_or d _ = d

abbrev nowhere : Reading test_read callback
nowhere = record {
  stage = filling fresh;
  has_data = false;
  read_write = record { reader = incoming; writer = []; buf = []; r_offset = 0; w_offset = 0 };
}

-- Four polls of a task that reads four bytes.
abbrev pub polls : List Bool
polls = false ∷ false ∷ false ∷ false ∷ []

abbrev whole_run : Run (Reading test_read callback)
whole_run = reader_task test_read callback quiet polls incoming []

abbrev last_state : Reading test_read callback
last_state = value_or nowhere whole_run

whole_run_ends : (whole_run ≡ done last_state) × (last_state.stage ≡ returned (ok tt))
unfolding handle_reader reader_run reader_step no_auto_flush_at fill_flush flush write_all
    write_all_loop poll_reading poll_flushing after_flush new msg_buf_size
whole_run_ends = (refl, refl)

-- A full buffer of four bytes, one of them written.
abbrev full : Buffered test_read test_write
full = record {
  reader = (7 ∷ 8 ∷ [], 1 ∷ 2 ∷ 3 ∷ 4 ∷ []);
  writer = 1 ∷ [];
  buf = 1 ∷ 2 ∷ 3 ∷ 4 ∷ [];
  r_offset = 1;
  w_offset = 4;
}

abbrev full-IsValid : IsValid test_read test_write full
full-IsValid = record {
  ordered = omega arith;
  fits = omega arith;
  has_room = omega arith;
  stream = refl;
}

reader_in_order_example :
    Ends
      (λ t.
        callback.written t.read_write.writer ++ buffered test_read callback t.read_write
        ≡ test_read.received t.read_write.reader)
      (reader_task test_read callback timed (true ∷ true ∷ []) incoming [])
reader_in_order_example =
    reader_in_order test_read callback timed (true ∷ true ∷ []) incoming [] refl

-- The task with a timer, before its first poll.
abbrev timed_run : Run (Reading test_read callback)
timed_run = reader_task test_read callback timed [] incoming []

abbrev timed_state : Reading test_read callback
timed_state = value_or nowhere timed_run

timed_run_ends :
    (timed_run ≡ done timed_state)
    × (timed_state.stage ≡ filling fresh)
    × (timed_state.has_data ≡ false)
unfolding handle_reader reader_run new msg_buf_size
timed_run_ends = (refl, refl, refl)

timer_off_empty_example :
    callback.written timed_state.read_write.writer
    ≡ test_read.received timed_state.read_write.reader
timer_off_empty_example =
    timer_off_empty test_read callback timed [] incoming [] timed_state fresh refl refl
      timed_run_ends.0 timed_run_ends.1 timed_run_ends.2

-- The full buffer, with a socket that has nothing to give, before and after a poll.
abbrev full_silent : Buffered silent_read test_write
full_silent = record {
  reader = full.reader;
  writer = full.writer;
  buf = full.buf;
  r_offset = full.r_offset;
  w_offset = full.w_offset;
}

abbrev silent-IsValid : IsValid silent_read test_write full_silent
silent-IsValid = record {
  ordered = omega arith;
  fits = omega arith;
  has_room = omega arith;
  stream = refl;
}

abbrev emptied : Buffered silent_read test_write
emptied = record full_silent { writer = 1 ∷ 2 ∷ 3 ∷ 4 ∷ []; r_offset = 0; w_offset = 0 }

full_poll : fill_flush silent_read test_write fresh full_silent ≡ done (pending, reading, emptied)
unfolding fill_flush flush write_all write_all_loop poll_reading poll_flushing after_flush
full_poll = refl

fill_flush_restart_example :
    fill_flush silent_read test_write fresh emptied
    ≡ fill_flush silent_read test_write reading emptied
fill_flush_restart_example =
    fill_flush_restart silent_read test_write fresh reading full_silent emptied silent-IsValid tt
      full_poll

pub some_given :
    (room : ℕ) (r : List Byte × List Byte)
    → 0 < room
    → (bs : List Byte) × ((test_read.poll_read room r).0 ≡ ready (ok bs))
      × (length (test_read.poll_read room r).1.0 + length bs ≡ length r.0)
      × ((0 < length bs) ⊎ (length r.0 ≡ 0))
some_given room r pos =
    let n = length-take (min room 3) r.0 in
    let m = length-drop (min room 3) r.0 in
    (take (min room 3) r.0, refl, omega (arith, n, m), grind (arith, n))

abbrev pub test_finite : HasFinite test_read
test_finite = record { left = λ r. length r.0; gives = some_given }

pub test_takes : TakesSome callback
test_takes [] w e = absurd (e refl)
test_takes (b ∷ bs) w e = (some_of (b ∷ bs), omega arith, refl)

reader_returns_example :
    Ends
      (λ t.
        (t.stage ≡ returned (ok tt))
        × (length t.read_write.reader.0 ≡ 0)
        × (t.read_write.writer ≡ t.read_write.reader.1))
      (reader_task test_read callback timed
        (true ∷ true ∷ false ∷ true ∷ true ∷ true ∷ [])
        incoming
        [])
reader_returns_example =
    reader_returns test_read callback test_finite test_takes timed
      (true ∷ true ∷ false ∷ true ∷ true ∷ true ∷ []) incoming [] refl (omega arith)
