-- ===== src/BufReadWrite/Restart.antt =====
-- `BufReadWrite::fill_flush` of src/buf_read_write.rs may be dropped between two polls: nothing is
-- lost, since a new future goes on where the dropped one stood.
use socket_manager.Prelude.{
  ℕ, ◌-◌, ◌∙◌, sym, ap, ◌≡◌, refl, ◌≢◌, inl, inr, true, arith, length, Bool-cases, ◌==◌, subst,
}
use socket_manager.Std.{Poll, ready, pending, ok, err, IoResult, done, Ends, >>=-Ends, Poll-cases}
use socket_manager.Io.{AsyncRead, AsyncWrite}
use socket_manager.BufReadWrite.{
  in_range, Buffered, flush, Await, fresh, flushing, reading, poll_reading, after_flush,
  poll_flushing, fill_flush,
}
use socket_manager.BufReadWrite.Stream.{IsValid, FlushKeeps, flush-IsValid}

module _ (ar : AsyncRead) (aw : AsyncWrite) where
  open ar use {poll_read}

  abbrev FillOut : Type 0
  FillOut = Poll (IoResult ℕ) × Await × Buffered ar aw

  -- Where a future of `fill_flush` can stand: it flushes only a full buffer, and reads only into
  -- one with room.
  abbrev pub Stands : Await → Buffered ar aw → Type 0
  Stands fresh b = Unit
  Stands flushing b = b.w_offset ≡ length b.buf
  Stands reading b = b.w_offset ≢ length b.buf

  abbrev PendingStands : FillOut → Type 0
  PendingStands out = out.0 ≡ pending → Stands out.1 out.2

  poll_reading-Stands :
      (b : Buffered ar aw)
      → IsValid ar aw b
      → b.w_offset ≢ length b.buf
      → Ends PendingStands (poll_reading ar aw b)
  unfolding poll_reading
  poll_reading-Stands b v h =
      let inside : in_range b.buf b.w_offset ≡ true = ground (arith, v.fits) in
      elim (Poll-cases (poll_read (length b.buf - b.w_offset) b.reader).0) [
        | inl p ↦ rw (inside, poll_reading, p) (λ _. h)
        | inr (inl (e, p)) ↦ rw (inside, poll_reading, p) (λ q. cc)
        | inr (inr (bs, p)) ↦ rw (inside, poll_reading, p) (λ q. cc)
      ]

  after_flush-Stands :
      (b : Buffered ar aw)
      → b.w_offset ≡ length b.buf
      → (out : Poll (IoResult (Unit {0})) × Buffered ar aw) → FlushKeeps ar aw b out
      → Ends PendingStands (after_flush ar aw out)
  unfolding after_flush
  after_flush-Stands b full (ready (ok u), b') f =
      poll_reading-Stands b' f.valid
        (elim f.finished [ inl d ↦ omega (arith, d, f.valid.has_room) | inr d ↦ absurd (d.0 refl) ])
  after_flush-Stands b full (ready (err e), b') f = λ q. cc
  after_flush-Stands b full (pending, b') f =
      λ _. elim f.finished [ inl d ↦ cc (d.0) | inr d ↦ d.1 ∙ full ∙ ap length (sym f.same_buf) ]

  poll_flushing-Stands :
      (b : Buffered ar aw)
      → IsValid ar aw b
      → b.w_offset ≡ length b.buf
      → Ends PendingStands (poll_flushing ar aw b)
  unfolding poll_flushing
  poll_flushing-Stands b v full =
      >>=-Ends (FlushKeeps ar aw b) PendingStands (flush ar aw b) (after_flush ar aw)
        (flush-IsValid ar aw b v) (after_flush-Stands b full)

  fill_flush-Stands :
      (a : Await) (b : Buffered ar aw)
      → IsValid ar aw b
      → Stands a b
      → Ends PendingStands (fill_flush ar aw a b)
  unfolding fill_flush
  fill_flush-Stands fresh b v s = elim (Bool-cases (b.w_offset == length b.buf)) [
    | inl full ↦ rw full (poll_flushing-Stands b v (ground arith))
    | inr room ↦ rw room (poll_reading-Stands b v (ground arith))
  ]
  fill_flush-Stands flushing b v s = poll_flushing-Stands b v s
  fill_flush-Stands reading b v s = poll_reading-Stands b v s

  -- A future goes on as a new one would.
  fill_flush-fresh :
      (a : Await) (b : Buffered ar aw)
      → Stands a b
      → fill_flush ar aw a b ≡ fill_flush ar aw fresh b
  unfolding fill_flush
  fill_flush-fresh fresh b s = refl
  fill_flush-fresh flushing b s = ground arith
  fill_flush-fresh reading b s = ground arith

  -- From a valid buffer, a future of `fill_flush` that is dropped after a poll that was pending and
  -- started anew does what it would have done if it had been polled again.
  pub fill_flush_restart :
      (a a' : Await) (b b' : Buffered ar aw)
      → IsValid ar aw b
      → Stands a b
      → fill_flush ar aw a b ≡ done (pending, a', b')
      → fill_flush ar aw fresh b' ≡ fill_flush ar aw a' b'
  fill_flush_restart a a' b b' v s e =
      sym (fill_flush-fresh a' b' (subst (Ends PendingStands) e (fill_flush-Stands a b v s) refl))
