-- ===== src/BufReadWrite/Empty.antt =====
-- `BufReadWrite::fill_flush` of src/buf_read_write.rs: an empty buffer stays empty while a poll of
-- it is pending.
use socket_manager.Prelude.{ℕ, ◌-◌, ◌≡◌, refl, inl, inr, true, false, arith, length, ◌==◌}
use socket_manager.Std.{Poll, ready, pending, ok, err, IoResult, Ends, >>=-Ends, Poll-cases}
use socket_manager.Io.{AsyncRead, AsyncWrite}
use socket_manager.BufReadWrite.{
  Buffered, flush, Await, fresh, flushing, reading, in_range, poll_reading, poll_flushing,
  after_flush, fill_flush,
}
use socket_manager.BufReadWrite.Stream.{IsValid, FlushKeeps, flush-IsValid}

module _ (ar : AsyncRead) (aw : AsyncWrite) where
  open ar use {poll_read}

  abbrev FillOut : Type 0
  FillOut = Poll (IoResult ℕ) × Await × Buffered ar aw

  abbrev FlushOut : Type 0
  FlushOut = Poll (IoResult (Unit {0})) × Buffered ar aw

  poll_reading_empty :
      (b : Buffered ar aw)
      → IsValid ar aw b
      → b.w_offset ≡ 0
      → Ends (λ (out : FillOut). out.0 ≡ pending → out.2.w_offset ≡ 0) (poll_reading ar aw b)
  unfolding poll_reading
  poll_reading_empty b v h =
      let inside : in_range b.buf b.w_offset ≡ true = ground (arith, v.fits) in
      elim (Poll-cases (poll_read (length b.buf - b.w_offset) b.reader).0) [
        | inl p ↦ rw (inside, poll_reading, p) (λ _. h)
        | inr (inl (e, p)) ↦ rw (inside, poll_reading, p) (λ q. cc)
        | inr (inr (bs, p)) ↦ rw (inside, poll_reading, p) (λ q. cc)
      ]

  after_flush_empty :
      (b : Buffered ar aw)
      → b.w_offset ≡ 0
      → (out : FlushOut) → FlushKeeps ar aw b out
      → Ends (λ (out : FillOut). out.0 ≡ pending → out.2.w_offset ≡ 0) (after_flush ar aw out)
  unfolding after_flush
  after_flush_empty b z (ready (ok u), b') f =
      poll_reading_empty b' f.valid (elim f.finished [ inl d ↦ d.2 | inr d ↦ absurd (d.0 refl) ])
  after_flush_empty b z (ready (err e), b') f = λ q. cc
  after_flush_empty b z (pending, b') f = λ q. omega (arith, f.finished)

  pub fill_flush_empty :
      (a : Await) (b : Buffered ar aw)
      → IsValid ar aw b
      → b.w_offset ≡ 0
      → Ends (λ (out : FillOut). out.0 ≡ pending → out.2.w_offset ≡ 0) (fill_flush ar aw a b)
  unfolding fill_flush poll_flushing
  fill_flush_empty fresh b v z =
      let room : (b.w_offset == length b.buf) ≡ false = ground (arith, v.has_room) in
      rw room (poll_reading_empty b v z)
  fill_flush_empty flushing b v z =
      >>=-Ends (FlushKeeps ar aw b) (λ (out : FillOut). out.0 ≡ pending → out.2.w_offset ≡ 0)
        (flush ar aw b) (after_flush ar aw) (flush-IsValid ar aw b v) (after_flush_empty b z)
  fill_flush_empty reading b v z = poll_reading_empty b v z
