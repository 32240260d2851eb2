-- ===== src/CApi/OnMsg/Reads.antt =====
-- The C callback in the place of `on_msg`: it keeps what the reader task relies on.
use socket_manager.Prelude.{
  ℕ, ◌^◌, ◌≤◌, ◌≡◌, subst, String, Bool, List, ◌++◌, length, take, ltb, ltb→lt, inl, inr, refl,
  Bool-cases, if◌then◌else◌,
}
use socket_manager.Std.{
  Byte, Poll, ready, pending, Result, ok, err, Run, done, panics, out_of_fuel, Ends,
}
use socket_manager.Io.{AsyncRead}
use socket_manager.Config.{ConnConfig}
use socket_manager.OnMsgWrite.{OnMsg, on_msg_write}
use socket_manager.Reader.{Reading, returned}
use socket_manager.Reader.Delivery.{reader_task, reader_delivers}
use socket_manager.CApi.Memory.{Libc, Texts}
use socket_manager.CApi.OnMsg
use socket_manager.CApi.OnMsg.{ExternOnMsg, Polled, on_msg_call_inner}
use socket_manager.CApi.OnMsg.Takes.{Took, on_msg_call_inner-Took}

module _ (libc : Libc) {SocketAddr : Type 0} (texts : Texts SocketAddr) (f : ExternOnMsg libc) where
  open libc use {Memory}

  -- The memory and the state of the C side.
  abbrev pub Foreign : Type 0
  Foreign = Memory × f.State

  abbrev pub answer_of : Foreign → Run (Polled libc texts f) → Poll (Result ℕ String) × Foreign
  answer_of before (done (p, m, s)) = (p, (m, s))
  answer_of before panics = (pending, before)
  answer_of before out_of_fuel = (pending, before)

  -- `OnMsgObj` as the `on_msg` of a connection. A slice has fewer than 2^63 bytes.
  abbrev pub c_call : List Byte → Foreign → Poll (Result ℕ String) × Foreign
  c_call bs s =
      if ltb (length bs) (2 ^ 63)
      then answer_of s (OnMsg.call libc texts f bs s.1 s.0)
      else (pending, s)

  -- What the answer says of the bytes that were taken.
  abbrev pub Says : List Byte → f.State → Poll (Result ℕ String) × Foreign → Type 0
  Says bs s (ready (ok n), s') = (n ≤ length bs) × (f.taken s'.1 ≡ f.taken s ++ take n bs)
  Says bs s (ready (err e), s') = f.taken s'.1 ≡ f.taken s
  Says bs s (pending, s') = f.taken s'.1 ≡ f.taken s

  Says-Took :
      (bs : List Byte) (s : f.State) (out : Polled libc texts f)
      → Took libc texts f bs s out
      → Says bs s (out.0, (out.1, out.2))
  Says-Took bs s (ready (ok n), m, s') t = (t.1, t.2)
  Says-Took bs s (ready (err e), m, s') t = t
  Says-Took bs s (pending, m, s') t = t

  Says-run :
      (bs : List Byte) (s : Foreign) (run : Run (Polled libc texts f))
      → Ends (Took libc texts f bs s.1) run
      → Says bs s.1 (answer_of s run)
  Says-run bs s (done (p, m, s')) t = Says-Took bs s.1 (p, m, s') t
  Says-run bs s panics t = absurd t
  Says-run bs s out_of_fuel t = absurd t

  pub c_call-Says : (bs : List Byte) (s : Foreign) → Says bs s.1 (c_call bs s)
  c_call-Says bs s = elim (Bool-cases (ltb (length bs) (2 ^ 63))) [
    | inl short ↦ rw short (
        Says-run bs s (on_msg_call_inner libc texts f bs s.1 s.0)
          (on_msg_call_inner-Took libc texts f bs s.1 s.0 (ltb→lt (length bs) (2 ^ 63) short)))
    | inr long ↦ rw long refl
  ]

  pub Says-ok :
      (bs : List Byte) (s : f.State) (out : Poll (Result ℕ String) × Foreign) (n : ℕ)
      → Says bs s out
      → out.0 ≡ ready (ok n)
      → (n ≤ length bs) × (f.taken out.1.1 ≡ f.taken s ++ take n bs)
  Says-ok bs s out n h e = subst (λ q. Says bs s (q, out.1)) e h

  abbrev pub c_on_msg : OnMsg
  c_on_msg = record {
    State = Foreign;
    on_msg = c_call;
    taken = λ s. f.taken s.1;
    takes_le = λ bs s n e. (Says-ok bs s.1 (c_call bs s) n (c_call-Says bs s) e).0;
    takes = λ bs s n e. (Says-ok bs s.1 (c_call bs s) n (c_call-Says bs s) e).1;
    fails = λ bs s x e. subst (λ q. Says bs s.1 (q, (c_call bs s).1)) e (c_call-Says bs s);
    waits = λ bs s e. subst (λ q. Says bs s.1 (q, (c_call bs s).1)) e (c_call-Says bs s);
  }

  -- If a reader task that hands its bytes to a C callback, which had taken all that was read before, returns with success, then
  -- the C side has taken every byte that was read from the socket, in order.
  pub c_reader_delivers :
      (ar : AsyncRead) (c : ConnConfig) (ticks : List Bool) (r : ar.Reader) (w : Foreign)
      (t : Reading ar (on_msg_write c_on_msg))
      → f.taken w.1 ≡ ar.received r
      → reader_task ar (on_msg_write c_on_msg) c ticks r w ≡ done t
      → t.stage ≡ returned (ok tt)
      → f.taken t.read_write.writer.1 ≡ ar.received t.read_write.reader
  c_reader_delivers ar c ticks r w t = reader_delivers ar (on_msg_write c_on_msg) c ticks r w t
