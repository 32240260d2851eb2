-- ===== src/OnMsgWrite.antt =====
-- `OnMsgWrite` of src/read.rs: the `on_msg` callback as a writer.
use socket_manager.Prelude.{ℕ, ◌≤◌, ◌≡◌, refl, String, List, ◌++◌, length, take}
use socket_manager.Std.{
  Byte, Poll, ready, pending, Result, ok, err, IoError, IoResult, other, text, prefixed, new_error,
}
use socket_manager.Io.{AsyncWrite}

-- The `on_msg` callback: the application's, so a parameter. It answers how many bytes of the
-- message it took, or that it cannot take any now, or an error; `taken` is what it took so far.
pub record OnMsg : Type 1 where
  pub State : Type 0
  pub on_msg : List Byte → State → Poll (Result ℕ String) × State
  pub taken : State → List Byte
  pub takes_le :
      (bs : List Byte) (s : State) (n : ℕ) → (on_msg bs s).0 ≡ ready (ok n) → n ≤ length bs
  pub takes :
      (bs : List Byte) (s : State) (n : ℕ)
      → (on_msg bs s).0 ≡ ready (ok n)
      → taken (on_msg bs s).1 ≡ taken s ++ take n bs
  pub fails :
      (bs : List Byte) (s : State) (e : String)
      → (on_msg bs s).0 ≡ ready (err e)
      → taken (on_msg bs s).1 ≡ taken s
  pub waits :
      (bs : List Byte) (s : State) → (on_msg bs s).0 ≡ pending → taken (on_msg bs s).1 ≡ taken s

-- `ready!(…)` and `map_err` of `OnMsgWrite::poll_write`
abbrev pub write_answer : Poll (Result ℕ String) → Poll (IoResult ℕ)
write_answer pending = pending
write_answer (ready (ok n)) = ready (ok n)
write_answer (ready (err e)) =
    ready (err (new_error other (prefixed "error writing message: " (text e))))

module _ (cb : OnMsg) where
  open cb use {State, on_msg}

  -- `OnMsgWrite::poll_write`
  abbrev pub on_msg_poll_write : List Byte → State → Poll (IoResult ℕ) × State
  on_msg_poll_write bytes s = (write_answer (on_msg bytes s).0, (on_msg bytes s).1)

pub write_answer_ok :
    (p : Poll (Result ℕ String)) (n : ℕ) → write_answer p ≡ ready (ok n) → p ≡ ready (ok n)
write_answer_ok pending n h = cc
write_answer_ok (ready (ok m)) n h = cc
write_answer_ok (ready (err e)) n h = cc

pub write_answer_pending : (p : Poll (Result ℕ String)) → write_answer p ≡ pending → p ≡ pending
write_answer_pending pending h = refl
write_answer_pending (ready (ok m)) h = cc
write_answer_pending (ready (err e)) h = cc

pub write_answer_err :
    (p : Poll (Result ℕ String)) (x : IoError)
    → write_answer p ≡ ready (err x)
    → (e : String) × (p ≡ ready (err e))
write_answer_err pending x h = cc
write_answer_err (ready (ok m)) x h = cc
write_answer_err (ready (err e)) x h = (e, refl)

-- `OnMsgWrite` as a writer: it keeps what the trait promises because the callback does.
abbrev pub on_msg_write : OnMsg → AsyncWrite
on_msg_write cb = record {
  Writer = cb.State;
  poll_write = on_msg_poll_write cb;
  poll_shutdown = λ w. (ready (ok tt), w);
  written = cb.taken;
  accepts_le = λ bs w n p. cb.takes_le bs w n (write_answer_ok _ n p);
  accepts = λ bs w n p. cb.takes bs w n (write_answer_ok _ n p);
  fails = λ bs w e p. let (x, q) = write_answer_err _ e p in cb.fails bs w x q;
  waits = λ bs w p. cb.waits bs w (write_answer_pending _ p);
  shuts = λ w. refl;
}
