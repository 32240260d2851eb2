-- ===== src/Tests/Fills.antt =====
-- `send_block` of a message that does not fit into the ring, with a writer task that is polled now and then.
use socket_manager.Prelude.{
  ℕ, zero, suc, ◌+◌, ◌*◌, ◌<◌, ◌≡◌, ◌≢◌, refl, Bool, true, false, List, [], ◌∷◌, arith, length,
  if◌then◌else◌, ap, ◌∙◌,
}
use socket_manager.Std.{Byte, ready, ok, err, IoError, Ends}
use socket_manager.Config.{ConnConfig}
use socket_manager.Link.{make_sender, stream}
use socket_manager.MsgSender.{send_block}
use socket_manager.MsgSender.Fed.{TakesWhatFits, IsFair, writer}
use socket_manager.MsgSender.Completes.{SentAll, send_block-SentAll}
use socket_manager.Writer.Drains.{IsServed, room_need}
use socket_manager.Tests.Traits.{test_write}
use socket_manager.Tests.Rings.{TestRing, test_ring, test_mpsc, fits, test_poll, test_poll_keeps}
use socket_manager.Tests.Sends.{TestLink, start, start-IsReady, test_eager}

abbrev config : ConnConfig
config = record { write_flush_interval = 0; read_msg_flush_interval = 0; msg_buffer_size = 0 }

abbrev repeated : {A : Type 0} → ℕ → A → List A
repeated zero x = []
repeated (suc n) x = x ∷ repeated n x

length-repeated : {A : Type 0} (n : ℕ) (x : A) → length (repeated n x) ≡ n
length-repeated zero x = refl
length-repeated (suc n) x = ap suc (length-repeated n x)

-- Longer than the ring of 256 KiB.
abbrev message : List Byte
message = repeated 300000 7

-- The writer task is polled at every third moment.
abbrev third : ℕ → Bool
third zero = false
third (suc zero) = false
third (suc (suc zero)) = true
third (suc (suc (suc n))) = third n

next_third : (n : ℕ) → (j : ℕ) × (j < 3) × (third (n + j) ≡ true)
next_third zero = (2, omega arith, refl)
next_third (suc zero) = (1, omega arith, refl)
next_third (suc (suc zero)) = (0, omega arith, refl)
next_third (suc (suc (suc n))) =
    let (j, lt, e) = next_third n in
    let moved : suc (suc (suc n)) + j ≡ suc (suc (suc (n + j))) = omega arith in
    (j, lt, ap third moved ∙ e)

abbrev ticks : ℕ → TestLink → List Bool
ticks n l = if third n then repeated (room_need test_ring test_mpsc test_write l) true else []

ticks-IsFair : IsFair test_ring test_mpsc test_write config ticks 3
ticks-IsFair n =
    let (j, lt, e) = next_third n in
    (
      j,
      lt,
      λ l. rw e (
          let same = length-repeated (room_need test_ring test_mpsc test_write l) true in
          omega (arith, same)),
    )

takes_some :
    (gone : Bool) (k : ℕ) (bs : List Byte) (r : TestRing)
    → gone ≡ false
    → 0 < k
    → (n : ℕ) × (0 < n) × ((test_poll gone k bs r).0 ≡ ready (ok n))
takes_some true k bs r o h = cc
takes_some false zero bs r o h = absurd (omega (arith, h))
takes_some false (suc k) bs r o h = (suc k, omega arith, refl)

fails_never :
    (gone : Bool) (k : ℕ) (bs : List Byte) (r : TestRing) (e : IoError)
    → gone ≡ false
    → (test_poll gone k bs r).0 ≢ ready (err e)
fails_never true k bs r e o p = cc
fails_never false zero bs r e o p = cc
fails_never false (suc k) bs r e o p = cc

some_length : (bs : List Byte) → bs ≢ [] → 0 < length bs
some_length [] n = absurd (n refl)
some_length (b ∷ bs) n = omega arith

test_takes : TakesWhatFits test_ring test_mpsc test_write
test_takes = record {
  takes =
      λ bs r o h n. takes_some r.cons_gone (fits bs r) bs r o (omega (arith, h, some_length bs n));
  never_fails = λ bs r e o. fails_never r.cons_gone (fits bs r) bs r e o;
  keeps = λ bs r. let (p, c, s) = test_poll_keeps r.cons_gone (fits bs r) bs r in (s, c);
}

start-IsServed : IsServed test_ring test_mpsc test_write start
unfolding make_sender
start-IsServed = record { linked = start-IsReady; working = tt; is_read = refl; wide = omega arith }

send_block-SentAll_example :
    Ends
      (SentAll test_ring test_mpsc test_write config ticks
        (stream test_ring test_mpsc test_write start)
        message)
      (send_block test_ring test_mpsc test_write
        (writer test_ring test_mpsc test_write config ticks)
        false
        (3 * length message + 3)
        message
        start)
send_block-SentAll_example =
    send_block-SentAll test_ring test_mpsc test_write config ticks test_eager (λ n r. (refl, refl))
      test_takes 3 ticks-IsFair message start start-IsServed
