-- ===== src/Tests/Sends.antt =====
-- The theorems on `MsgSender` and the writer task at concrete inputs, and runs of both.
use socket_manager.Prelude.{ℕ, ◌<◌, ◌≢◌, ◌≡◌, refl, ◌∙◌, Bool, true, false, List, [], ◌∷◌, arith}
use socket_manager.Std.{Byte, ready, ok, out_of_fuel, Ends}
use socket_manager.Config.{ConnConfig}
use socket_manager.Link.{Link, make_sender, stream, returned}
use socket_manager.Link.Invariant.{IsReady, make_sender-IsReady}
use socket_manager.MsgSender.{send_nonblock, send_async, send_block, push, drop_msg_sender}
use socket_manager.MsgSender.Bursts.{IsWriter}
use socket_manager.MsgSender.Sends.{Sent, send_nonblock-Sent}
use socket_manager.MsgSender.Async.{SentAsync, send_async-SentAsync}
use socket_manager.MsgSender.Block.{SentBlock, NeverWrong, send_block-SentBlock}
use socket_manager.MsgSender.Spins.{AnswersZero, send_block_spins}
use socket_manager.Writer.{
  writer_run, writer_step, writer_at, receive, shut, flush_at, select_at, wait_at, flushed, wrote,
}
use socket_manager.Writer.Keeps.{Keeps}
use socket_manager.Writer.Guarantee.{writer_run-Keeps, writer_run-IsWriter}
use socket_manager.Writer.Progress.{IsEager}
use socket_manager.Writer.Returns.{drop_delivers}
use socket_manager.Tests.Traits.{test_write, some_of}
use socket_manager.Tests.Rings.{test_ring, test_mpsc, fits, test_poll_keeps}

abbrev pub TestLink : Type 0
TestLink = Link test_ring test_mpsc test_write

abbrev config : ConnConfig
config = record { write_flush_interval = 1; read_msg_flush_interval = 1; msg_buffer_size = 100 }

abbrev pub start : TestLink
start = make_sender test_ring test_mpsc test_write []

abbrev pub start-IsReady : IsReady test_ring test_mpsc test_write start
start-IsReady = (make_sender-IsReady test_ring test_mpsc test_write []).0

abbrev pub message : List Byte
message = 10 ∷ 20 ∷ 30 ∷ []

-- The writer task makes three steps in each of its turns, the last with a tick.
abbrev ticks : ℕ → List Bool
ticks now = false ∷ false ∷ true ∷ []

abbrev pub writer : ℕ → TestLink → TestLink
writer now l = writer_run test_ring test_mpsc test_write config (ticks now) l

abbrev pub writer-IsWriter : IsWriter test_ring test_mpsc test_write writer
writer-IsWriter = writer_run-IsWriter test_ring test_mpsc test_write config ticks

send_nonblock-Sent_example :
    Ends
      (Sent test_ring test_mpsc test_write start message)
      (send_nonblock test_ring test_mpsc test_write writer message start)
send_nonblock-Sent_example =
    send_nonblock-Sent test_ring test_mpsc test_write writer writer-IsWriter message start
      start-IsReady

send_async-SentAsync_example :
    Ends
      (SentAsync test_ring test_mpsc test_write start message)
      (send_async test_ring test_mpsc test_write writer message start)
send_async-SentAsync_example =
    send_async-SentAsync test_ring test_mpsc test_write writer writer-IsWriter message start
      (λ e. cc) start-IsReady

send_block-SentBlock_example :
    NeverWrong test_ring test_mpsc test_write false
      (SentBlock test_ring test_mpsc test_write
        (stream test_ring test_mpsc test_write start)
        message)
      (send_block test_ring test_mpsc test_write writer false 5 message start)
send_block-SentBlock_example =
    send_block-SentBlock test_ring test_mpsc test_write writer writer-IsWriter false 5 message start
      start-IsReady

-- Another writer task has returned, and has left a ring for one byte that holds one.
abbrev left_full : TestLink
left_full = record start {
  rings = λ i. record { content = 5 ∷ []; size = 1; prod_gone = false; cons_gone = true };
  stage = returned (ok tt) [];
}

zero_at_closed : AnswersZero test_ring test_mpsc test_write
zero_at_closed = record {
  writes_none = λ bs r h. rw h refl;
  stays_closed = λ bs r h. (test_poll_keeps r.cons_gone (fits bs r) bs r).1 ∙ h;
}

send_block_spins_example :
    send_block test_ring test_mpsc test_write writer false 1000 message left_full ≡ out_of_fuel
unfolding make_sender
send_block_spins_example =
    send_block_spins test_ring test_mpsc test_write config ticks 1000 message left_full
      zero_at_closed ((ok tt, [], refl), refl) (omega arith) (λ e. cc)

writer_run-Keeps_example :
    Keeps test_ring test_mpsc test_write
      (0 ∷ [])
      start
      (writer_run test_ring test_mpsc test_write config (true ∷ true ∷ []) start)
unfolding make_sender
writer_run-Keeps_example =
    writer_run-Keeps test_ring test_mpsc test_write (0 ∷ []) config (true ∷ true ∷ []) start
      start-IsReady

writer_run-IsWriter_example : IsWriter test_ring test_mpsc test_write writer
writer_run-IsWriter_example = writer_run-IsWriter test_ring test_mpsc test_write config ticks

-- The sender is dropped with three bytes in its ring.
abbrev ended : TestLink
ended =
    drop_msg_sender test_ring test_mpsc test_write
      (push test_ring test_mpsc test_write message start)

-- Eight steps of the writer task.
abbrev steps : List Bool
steps = false ∷ false ∷ false ∷ false ∷ false ∷ false ∷ false ∷ false ∷ []

ended_run :
    (writer_run test_ring test_mpsc test_write config steps ended).stage ≡ returned (ok tt) []
unfolding make_sender drop_msg_sender writer_run writer_step writer_at receive shut flush_at
    select_at wait_at flushed wrote
ended_run = refl

-- A sender with three bytes in its ring.
abbrev in_ring : TestLink
in_ring = push test_ring test_mpsc test_write message start

in_ring-IsReady : IsReady test_ring test_mpsc test_write in_ring
unfolding make_sender
in_ring-IsReady = record {
  chained = record { increasing = (tt, tt); below = (omega arith, tt); draining = tt };
  older = [];
  newest = refl;
  older_closed = tt;
  are_open = ((λ e. cc), tt);
}

pub test_eager : IsEager test_ring test_mpsc test_write
test_eager = record { takes = some_taken; ends = λ w. refl }
  where
    some_taken :
        (bs : List Byte) (w : List Byte)
        → bs ≢ []
        → (n : ℕ) × (0 < n) × ((test_write.poll_write bs w).0 ≡ ready (ok n))
    some_taken [] w e = absurd (e refl)
    some_taken (b ∷ bs) w e = (some_of (b ∷ bs), omega arith, refl)

drop_delivers_example :
    ((left : List ℕ) × ((writer_run test_ring test_mpsc test_write config steps
          (drop_msg_sender test_ring test_mpsc test_write in_ring)).stage
        ≡ returned (ok tt) left))
    × ((writer_run test_ring test_mpsc test_write config steps
          (drop_msg_sender test_ring test_mpsc test_write in_ring)).socket
        ≡ stream test_ring test_mpsc test_write in_ring)
unfolding make_sender drop_msg_sender
drop_delivers_example =
    drop_delivers test_ring test_mpsc test_write test_eager config steps in_ring in_ring-IsReady tt
      (omega arith)
