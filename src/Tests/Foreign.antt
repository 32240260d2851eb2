-- ===== src/Tests/Foreign.antt =====
-- The theorems on the C functions at concrete inputs, and runs of them.
use socket_manager.Prelude.{
  ℕ, ◌≡◌, refl, ◌≤◌, inr, List, [], ◌∷◌, ◌++◌, arith, length, take, some, min, ltb, if◌then◌else◌,
}
use socket_manager.Prelude.Int.{ℤ, pos, negsuc}
use socket_manager.Std.{Byte, ok, err, other, text, new_error, Ends}
use socket_manager.Config.{ConnConfig}
use socket_manager.Channel.{Mpsc}
use socket_manager.MainLoop.{Command, listen, connect, cancel_listen}
use socket_manager.ConnState.{ConnState, new}
use socket_manager.Conn.{Held, conn_new, start_connection}
use socket_manager.Manager.{SocketManager, init}
use socket_manager.MsgSender.{send_nonblock, flush}
use socket_manager.MsgSender.Sends.{Sent, HasFlushed}
use socket_manager.CApi.Utils.{CState, socket_addr, parse_c_err_str, write_display_c_str}
use socket_manager.CApi.Utils.RoundTrip.{parse-write}
use socket_manager.CApi.Utils.Answers.{Answers, all_clean}
use socket_manager.CApi.MsgSender.{
  socket_manager_msg_sender_send_nonblock, socket_manager_msg_sender_send_async,
  socket_manager_msg_sender_flush,
}
use socket_manager.CApi.MsgSender.Contract.{
  send_nonblock-Answers, flush-Answers, AnswersAsync, send_async-AnswersAsync,
}
use socket_manager.CApi.Connection.{socket_manager_connection_start}
use socket_manager.CApi.Connection.Calls.{Started, connection_start-Answers}
use socket_manager.CApi.SocketManager.{
  socket_manager_listen_on_addr, socket_manager_connect_to_addr,
  socket_manager_cancel_listen_on_addr,
}
use socket_manager.CApi.SocketManager.Commands.{Queued, commands-Answers}
use socket_manager.CApi.OnMsg.{count_of, ExternOnMsg, on_msg_call_inner}
use socket_manager.CApi.OnMsg.Takes.{Took, on_msg_call_inner-Took}
use socket_manager.CApi.OnConn.{conn_states}
use socket_manager.CApi.OnConn.Events.{seen, read_states, conn_states_read}
use socket_manager.Tests.Traits.{test_write}
use socket_manager.Tests.Rings.{test_ring, test_mpsc, test_channel}
use socket_manager.Tests.Runtimes.{test_runtime}
use socket_manager.Tests.Sends.{start, start-IsReady, writer, writer-IsWriter}
use socket_manager.Tests.Texts.{test_texts, test_texts_clean}
use socket_manager.Tests.Blocks.{test_libc}

-- A block of three bytes, which C sends, and a block with the address 2.
abbrev pub c_state : CState test_libc test_texts
c_state = record { memory = (4, 97 ∷ 97 ∷ 97 ∷ []) ∷ (3, 10 ∷ 20 ∷ 30 ∷ []) ∷ []; err = 7 }

parse-write_example :
    Ends
      (λ s'.
        ((parse_c_err_str test_libc test_texts s'.err s'.memory).0 ≡ err "refused")
        × (test_libc.block s'.err (parse_c_err_str test_libc test_texts s'.err s'.memory).1 ≡ 0))
      (write_display_c_str test_libc test_texts "refused" c_state)
parse-write_example = parse-write test_libc test_texts "refused" c_state refl

send_nonblock-Answers_example :
    Ends
      (Answers test_libc test_texts
        (Sent test_ring test_mpsc test_write start (10 ∷ 20 ∷ 30 ∷ []))
        c_state)
      (socket_manager_msg_sender_send_nonblock test_libc test_texts test_ring test_mpsc test_write
        writer 1 3 start c_state)
send_nonblock-Answers_example =
    send_nonblock-Answers test_libc test_texts test_ring test_mpsc test_write writer writer-IsWriter
      1 3 start c_state start-IsReady
      (all_clean test_libc test_texts test_texts_clean
        (send_nonblock test_ring test_mpsc test_write writer (10 ∷ 20 ∷ 30 ∷ []) start))

flush-Answers_example :
    Ends
      (Answers test_libc test_texts
        (HasFlushed test_ring test_mpsc test_write writer writer-IsWriter start)
        c_state)
      (socket_manager_msg_sender_flush test_libc test_texts test_ring test_mpsc test_write writer
        start c_state)
flush-Answers_example =
    flush-Answers test_libc test_texts test_ring test_mpsc test_write writer writer-IsWriter start
      c_state start-IsReady
      (all_clean test_libc test_texts test_texts_clean
        (flush test_ring test_mpsc test_write writer start))

send_async-AnswersAsync_example :
    Ends
      (AnswersAsync test_libc test_texts test_ring test_mpsc test_write writer writer-IsWriter start
        (10 ∷ 20 ∷ 30 ∷ [])
        c_state)
      (socket_manager_msg_sender_send_async test_libc test_texts test_ring test_mpsc test_write
        writer 1 3 9 start c_state)
send_async-AnswersAsync_example =
    send_async-AnswersAsync test_libc test_texts test_ring test_mpsc test_write writer
      writer-IsWriter 1 3 9 start c_state (omega arith) (omega arith) (omega arith) start-IsReady
      refl

abbrev held : Held test_runtime
held = record {
  conn = conn_new test_runtime 3 5;
  config = test_runtime.config.channel;
  state = new test_runtime;
}

abbrev c_config : ConnConfig
c_config = record { write_flush_interval = 2; read_msg_flush_interval = 1; msg_buffer_size = 4096 }

connection_start-Answers_example :
    Ends
      (Answers test_libc test_texts
        (Started test_libc test_runtime test_texts 8 c_config held)
        c_state)
      (socket_manager_connection_start test_libc test_runtime test_texts 8 4096 1 2 held c_state)
connection_start-Answers_example =
    connection_start-Answers test_libc test_runtime test_texts 8 4096 1 2 held c_state
      (all_clean test_libc test_texts test_texts_clean
        (start_connection test_runtime 8 c_config held))
      (inr (refl, refl))

abbrev test_commands : Mpsc (Command ℕ)
test_commands = test_channel (Command ℕ)

abbrev manager : SocketManager ℕ test_commands
manager = init ℕ test_commands

-- The string at address 2 is the address 2.
commands-Answers_example :
    Ends
      (Answers test_libc test_texts
        (Queued test_libc test_texts test_commands listen (ok 2) manager)
        c_state)
      (socket_manager_listen_on_addr test_libc test_texts test_commands manager 2 c_state)
    × Ends
        (Answers test_libc test_texts
          (Queued test_libc test_texts test_commands (λ a. connect a 50) (ok 2) manager)
          c_state)
        (socket_manager_connect_to_addr test_libc test_texts test_commands manager 2 50 c_state)
    × Ends
        (Answers test_libc test_texts
          (Queued test_libc test_texts test_commands cancel_listen (ok 2) manager)
          c_state)
        (socket_manager_cancel_listen_on_addr test_libc test_texts test_commands manager 2 c_state)
unfolding socket_addr
commands-Answers_example =
    commands-Answers test_libc test_texts test_commands manager 2 50 c_state refl tt

-- A C side that takes two bytes at most, and that says -1 where it took none.
abbrev code_for : ℕ → ℤ
code_for n = if ltb 0 n then pos n else negsuc 0

pub count_of-code_for : (n k : ℕ) → n ≤ k → count_of (code_for n) 0 ≤ k
count_of-code_for n k h = ground arith

abbrev pub test_on_msg : ExternOnMsg test_libc
test_on_msg = record {
  State = List Byte;
  on_msg = λ bs s m. (
    code_for (min 2 (length bs)),
    0,
    m,
    s ++ take (count_of (code_for (min 2 (length bs))) 0) bs,
  );
  taken = λ s. s;
  takes_le = λ bs s m. count_of-code_for (min 2 (length bs)) (length bs) (omega arith);
  takes = λ bs s m. refl;
}

on_msg_call_inner-Took_example :
    Ends
      (Took test_libc test_texts test_on_msg (4 ∷ 5 ∷ 6 ∷ []) (1 ∷ []))
      (on_msg_call_inner test_libc test_texts test_on_msg (4 ∷ 5 ∷ 6 ∷ []) (1 ∷ []) c_state.memory)
on_msg_call_inner-Took_example =
    on_msg_call_inner-Took test_libc test_texts test_on_msg (4 ∷ 5 ∷ 6 ∷ []) (1 ∷ []) c_state.memory
      (omega arith)

abbrev failed : ConnState ℕ
failed = ConnState.on_connect_error 4 (new_error other (text "refused"))

conn_states_read_example :
    Ends
      (λ c. read_states test_libc test_texts c ≡ some (seen test_libc test_texts failed))
      (conn_states test_texts failed)
conn_states_read_example = conn_states_read test_libc test_texts failed refl
