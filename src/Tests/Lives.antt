-- ===== src/Tests/Lives.antt =====
-- The theorems on connections, their tasks and the manager at concrete inputs.
use socket_manager.Prelude.{
  ℕ, ◌≤◌, ◌≡◌, ◌≢◌, refl, ap, inl, none, some, true, false, List, [], ◌∷◌, arith,
}
use socket_manager.Std.{ready, pending, ok, err, IoError, other, text, new_error, Run, done, Ends}
use socket_manager.Config.{ConnConfig}
use socket_manager.ConnState.{ConnState, ConnectionState, new, stop_all}
use socket_manager.ConnState.Registry.{Change, ends, listens, cancels, change, changes}
use socket_manager.ConnState.Isolated.{others_leave_open}
use socket_manager.Conn.{Held, conn_new, start_connection, close}
use socket_manager.Conn.Calls.{starts, closes, calls, calls_once}
use socket_manager.JoinTasks.{
  stop_closed, Branch, writer_joined, reader_joined, joining, select_round, on_writer, on_reader,
  join_reader_writer,
}
use socket_manager.JoinTasks.Leaves.{join_reader_writer_ends}
use socket_manager.ConnHandle.{
  Stage, waiting, in_join, closed, Connection, handle_connection, Action, polls, answers, joins,
  others, branch_at, poll_at, answer_at, conn_step, conn_run,
}
use socket_manager.ConnHandle as ConnHandle
use socket_manager.ConnHandle.Events.{Lawful, Finished, connection_tells, connection_closes_once}
use socket_manager.ConnHandle.Abort.{with_state, Aborted}
use socket_manager.ConnHandle.Ending.{EndsBy, failure_closes, close_ends}
use socket_manager.ConnHandle.Waits.{WaitsOn, run-WaitsOn, GivesUp, drop_ends_wait}
use socket_manager.MainLoop.{Command, listen, connect, cancel_listen, abort, Loop, main_run}
use socket_manager.MainLoop.Order.{Executes, main-Executes}
use socket_manager.Manager.{init}
use socket_manager.Manager.JoinOnce as JoinOnce
use socket_manager.Manager.JoinOnce.{IsFenced, manager_run, manager_joins_once}
use socket_manager.ConnectTask as ConnectTask
use socket_manager.ConnectTask.{timer_fires}
use socket_manager.ConnectTask.Exclusive.{IsExclusive, connect-IsExclusive}
use socket_manager.ListenTask.{Listening, accepting, accepts, listen_run}
use socket_manager.ListenTask.Accept.{accept_error_deafens, listen_handles}
use socket_manager.Tests.Rings.{test_channel}
use socket_manager.Tests.Runtimes.{test_runtime}

abbrev config : ConnConfig
config = record { write_flush_interval = 1; read_msg_flush_interval = 1; msg_buffer_size = 100 }

-- A listener on address 5 and a connection from 1 to 2, with their stop channels.
abbrev pub shared : ConnectionState test_runtime
shared = record {
  listeners = (5, 0) ∷ [];
  connections = ((1, 2), 1) ∷ [];
  stops = λ _. test_runtime.stop.channel;
  count = 2;
}

calls_once_example :
    Ends
      (λ out. out.0 ≤ 1)
      (calls test_runtime (starts 7 config ∷ closes ∷ starts 8 config ∷ []) (record {
        conn = conn_new test_runtime 1 2;
        config = test_runtime.config.channel;
        state = shared;
      }))
calls_once_example =
    calls_once test_runtime (starts 7 config ∷ closes ∷ starts 8 config ∷ []) 1 2
      test_runtime.config.channel shared

abbrev pub held : Held test_runtime
held = record {
  conn = conn_new test_runtime 1 2;
  config = test_runtime.config.channel;
  state = shared;
}

-- The writer stops first, then the reader.
abbrev both_stop : List (Branch test_runtime)
both_stop = writer_joined (ok (ok tt)) ∷ reader_joined (ok (ok tt)) ∷ []

both_stopped :
    (join_reader_writer test_runtime (1, 2) both_stop (joining test_runtime [])).finished ≡ true
unfolding join_reader_writer select_round on_writer on_reader
both_stopped = refl

join_reader_writer_ends_example :
    (join_reader_writer test_runtime (1, 2) both_stop (joining test_runtime [])).finished ≡ true
unfolding select_round on_writer
join_reader_writer_ends_example =
    join_reader_writer_ends test_runtime (1, 2) [] (writer_joined (ok (ok tt)))
      (reader_joined (ok (ok tt))) [] refl

-- The user starts the connection in its callback; the reader stops first.
abbrev pub life : List (Action test_runtime)
life =
    polls
    ∷ ConnHandle.calls (starts 7 config)
    ∷ answers (ok tt)
    ∷ polls
    ∷ joins (reader_joined (ok (ok tt)))
    ∷ joins (writer_joined (ok (ok tt)))
    ∷ []

abbrev pub opened : Connection test_runtime
opened = handle_connection test_runtime 1 2 shared

connection_tells_example :
    Ends (λ c. Lawful test_runtime c.stage (1, 2) c.join.events) (conn_run test_runtime life opened)
connection_tells_example = connection_tells test_runtime 1 2 shared life

abbrev pub end_of : Run (Connection test_runtime) → Connection test_runtime
end_of (done c) = c
end_of _ = opened

abbrev pub last : Connection test_runtime
last = end_of (conn_run test_runtime life opened)

pub life_ends : (conn_run test_runtime life opened ≡ done last) × (last.stage ≡ closed)
unfolding handle_connection conn_run conn_step poll_at answer_at branch_at start_connection
    select_round on_reader on_writer
life_ends = (refl, refl)

connection_closes_once_example : Finished test_runtime (1, 2) last.join
connection_closes_once_example =
    connection_closes_once test_runtime 1 2 shared life last life_ends.0 life_ends.1

-- A connection whose task waits for the reader and the writer.
abbrev pub in_use : Connection test_runtime
in_use = record {
  stage = in_join;
  addrs = (1, 2);
  held = held;
  join = joining test_runtime [];
  stop = 1;
}

abbrev refused : IoError
refused = new_error other (text "refused")

-- The socket refuses a write.
failure_closes_example :
    EndsBy test_runtime in_use
      (branch_at test_runtime in_use.stage (writer_joined (ok (err refused))) in_use)
failure_closes_example =
    failure_closes test_runtime (writer_joined (ok (err refused))) in_use refl tt refl

-- The `Conn` of an earlier connection from 1 to 2 is closed.
close_ends_example :
    Ends
      (λ out.
        (out.0 ≡ ok tt)
        × Aborted test_runtime (
            branch_at test_runtime in_use.stage stop_closed
              (with_state test_runtime out.1.state in_use)))
      (close test_runtime
        (record held { conn = record held.conn { consumed = true; inner = none } }))
close_ends_example =
    close_ends test_runtime
      (record held { conn = record held.conn { consumed = true; inner = none } }) in_use (inl refl)
      refl refl refl refl

abbrev pub main_loop : Loop test_runtime (test_channel (Command ℕ))
main_loop = record {
  cmd_recv = record {
    queue = listen 6 ∷ cancel_listen 5 ∷ abort ∷ connect 9 0 ∷ [];
    tx_gone = false;
    rx_gone = false;
  };
  connection_state = shared;
  jobs = [];
  is_running = true;
}

main-Executes_example :
    Executes test_runtime
      (test_channel (Command ℕ))
      main_loop.cmd_recv.queue
      main_loop
      (main_run test_runtime (test_channel (Command ℕ)) 4 main_loop)
main-Executes_example =
    main-Executes test_runtime (test_channel (Command ℕ)) 4 main_loop.cmd_recv.queue main_loop
      (omega arith) refl refl

abbrev manager_calls : List (JoinOnce.Call ℕ (test_channel (Command ℕ)))
manager_calls =
    JoinOnce.listens 5
    ∷ JoinOnce.aborts true (ok tt)
    ∷ JoinOnce.joins (ok tt)
    ∷ JoinOnce.drops (ok tt)
    ∷ []

manager_joins_once_example :
    Ends
      (IsFenced ℕ (test_channel (Command ℕ)))
      (manager_run ℕ (test_channel (Command ℕ)) manager_calls (init ℕ (test_channel (Command ℕ))))
manager_joins_once_example = manager_joins_once ℕ (test_channel (Command ℕ)) manager_calls

connect-IsExclusive_example : IsExclusive ℕ 9 (
    ConnectTask.connect_run ℕ
      (timer_fires ∷ ConnectTask.answers (ready (err refused)) ∷ [])
      (ConnectTask.connect_to_addr ℕ 9 100))
connect-IsExclusive_example =
    connect-IsExclusive ℕ 9 100 (timer_fires ∷ ConnectTask.answers (ready (err refused)) ∷ [])

abbrev listener : Listening test_runtime
listener = record {
  addr = 5;
  stage = accepting true;
  canceled = 0;
  state = shared;
  handled = [];
  events = [];
}

accept_error_deafens_example :
    (listen_run test_runtime
      (accepts (ready (err refused)) ∷ accepts (ready (ok (ok (5, 3)))) ∷ [])
      listener).handled
    ≡ listener.handled
accept_error_deafens_example =
    accept_error_deafens test_runtime refused (accepts (ready (ok (ok (5, 3)))) ∷ []) listener refl

listen_handles_example :
    (listen_run test_runtime
      (accepts (ready (ok (ok (5, 3)))) ∷ accepts pending ∷ accepts (ready (ok (ok (5, 4)))) ∷ [])
      listener).handled
    ≡ (5, 3) ∷ (5, 4) ∷ []
listen_handles_example =
    listen_handles test_runtime
      (accepts (ready (ok (ok (5, 3)))) ∷ accepts pending ∷ accepts (ready (ok (ok (5, 4)))) ∷ [])
      listener refl refl

-- The user has the connection in hand, and the manager aborts.
abbrev unstarted : Connection test_runtime
unstarted = record {
  stage = waiting;
  addrs = (1, 2);
  held = held;
  join = record (joining test_runtime []) { events = ConnState.on_connect 1 2 ∷ [] };
  stop = 0;
}

abbrev aborted : List (Action test_runtime)
aborted = polls ∷ others (stop_all test_runtime) ∷ joins stop_closed ∷ polls ∷ []

run-WaitsOn_example :
    Ends (WaitsOn test_runtime unstarted) (conn_run test_runtime aborted unstarted)
run-WaitsOn_example =
    run-WaitsOn test_runtime aborted unstarted (tt, (tt, (tt, (tt, tt))))
      (record { at_wait = refl; unsent = refl; unused = refl })

drop_ends_wait_example :
    Ends
      (GivesUp test_runtime unstarted)
      (conn_run test_runtime (Action.drops_conn ∷ polls ∷ []) unstarted)
drop_ends_wait_example =
    drop_ends_wait test_runtime unstarted (record { at_wait = refl; unsent = refl; unused = refl })
      refl

-- Two listeners and a second connection come and go.
abbrev by_others : List (Change test_runtime)
by_others = Change.starts (1, 2) ∷ cancels 5 ∷ ends (1, 2) ∷ listens 6 ∷ []

others_leave_open_example :
    let s = changes test_runtime (listens 5 ∷ []) (new test_runtime) in
    let s' = changes test_runtime by_others (change test_runtime (Change.starts (3, 4)) s) in
    (test_runtime.connections.find (3, 4) s'.connections ≡ some s.count)
    × (test_runtime.stop.is_closed (s'.stops s.count) ≡ false)
others_leave_open_example =
    others_leave_open test_runtime (listens 5 ∷ []) by_others (3, 4)
      (other, (tt, (other, (tt, tt))))
  where
    other : ◌≢◌ {A = ℕ × ℕ} (1, 2) (3, 4)
    other e = let f : ◌≡◌ {A = ℕ} 1 3 = ap (λ p. p.0) e in omega (arith, f)
