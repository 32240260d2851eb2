-- ===== src/Reader/Delivery.antt =====
-- What a reader task of src/read.rs hands out: every byte it reads, in order, however its polls
-- and its ticks fall.
use socket_manager.Prelude.{
  ℕ, ◌≡◌, sym, ◌∙◌, ap, subst, inl, inr, Bool, false, List, [], ◌∷◌, ◌++◌, append-nil, arith,
  Bool-cases, ◌==◌, lt→ltb, refl,
}
use socket_manager.Std.{
  Poll, ready, pending, ok, err, IoResult, Run, done, Ends, Ends-map, >>=-Ends, ◌>>=◌, is_zero,
}
use socket_manager.Io.{AsyncRead, AsyncWrite}
use socket_manager.Config.{ConnConfig, msg_buf_size, msg_buf_size_bounds}
use socket_manager.BufReadWrite.{new, Buffered, flush, Await, fresh, fill_flush}
use socket_manager.BufReadWrite.WriteAll.{slice_empty}
use socket_manager.BufReadWrite.Stream.{
  IsValid, FlushKeeps, flush-IsValid, fill_flush-IsValid, new-IsValid, buffered,
}
use socket_manager.Reader.{
  Stage, filling, tick_flushing, last_flushing, returned, Reading, after_last, after_fill,
  after_select, after_tick, no_auto_flush_at, auto_flush_at, reader_step, reader_run, handle_reader,
}

module _ (ar : AsyncRead) (aw : AsyncWrite) where
  open ar use {Reader, received}
  open aw use {Writer, written}

  abbrev FillOut : Type 0
  FillOut = Poll (IoResult ℕ) × Await × Buffered ar aw

  abbrev FlushOut : Type 0
  FlushOut = Poll (IoResult (Unit {0})) × Buffered ar aw

  -- Nothing is left in the buffer.
  abbrev IsEmpty : Buffered ar aw → Type 0
  IsEmpty b = (b.r_offset ≡ 0) × (b.w_offset ≡ 0)

  -- The buffer is valid, and empty where the task has returned with success.
  pub record IsFaithful (t : Reading ar aw) : Type 0 where
    pub valid : IsValid ar aw t.read_write
    pub drained : (t.stage ≡ returned (ok tt)) → IsEmpty t.read_write

  after_last-IsFaithful :
      (t : Reading ar aw) (b : Buffered ar aw) (out : FlushOut)
      → FlushKeeps ar aw b out
      → Ends IsFaithful (after_last ar aw t out)
  after_last-IsFaithful t b (ready r, b') f = record {
    valid = f.valid;
    drained = λ e. ground (arith, f.finished);
  }
  after_last-IsFaithful t b (pending, b') f = record { valid = f.valid; drained = λ e. cc }

  after_fill-IsFaithful :
      (t : Reading ar aw) (out : FillOut)
      → IsValid ar aw out.2
      → Ends IsFaithful (after_fill ar aw t out)
  after_fill-IsFaithful t (ready (ok n), a, b) v = record { valid = v; drained = λ e. ground arith }
  after_fill-IsFaithful t (ready (err x), a, b) v = record { valid = v; drained = λ e. cc }
  after_fill-IsFaithful t (pending, a, b) v = record { valid = v; drained = λ e. cc }

  after_select-IsFaithful :
      (tick : Bool) (t : Reading ar aw) (out : FillOut)
      → IsValid ar aw out.2
      → Ends IsFaithful (after_select ar aw tick t out)
  after_select-IsFaithful tick t (ready (ok n), a, b) v = elim (Bool-cases (n == 0)) [
    | inl h ↦ rw h (record { valid = v; drained = λ e. cc })
    | inr h ↦ rw h (record { valid = v; drained = λ e. cc })
  ]
  after_select-IsFaithful tick t (ready (err x), a, b) v = record { valid = v; drained = λ e. cc }
  after_select-IsFaithful tick t (pending, a, b) v = record {
    valid = v;
    drained = λ e. ground arith;
  }

  after_tick-IsFaithful :
      (t : Reading ar aw) (b : Buffered ar aw) (out : FlushOut)
      → FlushKeeps ar aw b out
      → Ends IsFaithful (after_tick ar aw t out)
  after_tick-IsFaithful t b (ready (ok u), b') f = record { valid = f.valid; drained = λ e. cc }
  after_tick-IsFaithful t b (ready (err x), b') f = record { valid = f.valid; drained = λ e. cc }
  after_tick-IsFaithful t b (pending, b') f = record { valid = f.valid; drained = λ e. cc }

  flush_then :
      (t : Reading ar aw) (f : FlushOut → Run (Reading ar aw))
      → IsValid ar aw t.read_write
      → ((out : FlushOut) → FlushKeeps ar aw t.read_write out → Ends IsFaithful (f out))
      → Ends IsFaithful (flush ar aw t.read_write >>= f)
  flush_then t f v k =
      >>=-Ends (FlushKeeps ar aw t.read_write) IsFaithful (flush ar aw t.read_write) f
        (flush-IsValid ar aw t.read_write v) k

  fill_then :
      (t : Reading ar aw) (a : Await) (f : FillOut → Run (Reading ar aw))
      → IsValid ar aw t.read_write
      → ((out : FillOut) → IsValid ar aw out.2 → Ends IsFaithful (f out))
      → Ends IsFaithful (fill_flush ar aw a t.read_write >>= f)
  fill_then t a f v k =
      >>=-Ends (λ (out : FillOut). IsValid ar aw out.2) IsFaithful (fill_flush ar aw a t.read_write)
        f (fill_flush-IsValid ar aw a t.read_write v) k

  no_auto_flush_at-IsFaithful :
      (s : Stage) (t : Reading ar aw) → IsFaithful t → Ends IsFaithful (no_auto_flush_at ar aw s t)
  unfolding no_auto_flush_at
  no_auto_flush_at-IsFaithful (filling a) t h =
      fill_then t a (after_fill ar aw t) h.valid (after_fill-IsFaithful t)
  no_auto_flush_at-IsFaithful last_flushing t h =
      flush_then t (after_last ar aw t) h.valid (after_last-IsFaithful t t.read_write)
  no_auto_flush_at-IsFaithful tick_flushing t h = h
  no_auto_flush_at-IsFaithful (returned r) t h = h

  auto_flush_at-IsFaithful :
      (tick : Bool) (s : Stage) (t : Reading ar aw)
      → IsFaithful t
      → Ends IsFaithful (auto_flush_at ar aw tick s t)
  unfolding auto_flush_at
  auto_flush_at-IsFaithful tick (filling a) t h =
      fill_then t a (after_select ar aw tick t) h.valid (after_select-IsFaithful tick t)
  auto_flush_at-IsFaithful tick tick_flushing t h =
      flush_then t (after_tick ar aw t) h.valid (after_tick-IsFaithful t t.read_write)
  auto_flush_at-IsFaithful tick last_flushing t h =
      flush_then t (after_last ar aw t) h.valid (after_last-IsFaithful t t.read_write)
  auto_flush_at-IsFaithful tick (returned r) t h = h

  pub reader_step-IsFaithful :
      (c : ConnConfig) (tick : Bool) (t : Reading ar aw)
      → IsFaithful t
      → Ends IsFaithful (reader_step ar aw c tick t)
  unfolding reader_step
  reader_step-IsFaithful c tick t h = elim (Bool-cases (is_zero c.read_msg_flush_interval)) [
    | inl z ↦ rw z (no_auto_flush_at-IsFaithful t.stage t h)
    | inr nz ↦ rw nz (auto_flush_at-IsFaithful tick t.stage t h)
  ]

  -- A task that has returned stays as it is.
  pub reader_step-returned :
      (P : Reading ar aw → Type 0) (c : ConnConfig) (tick : Bool) (t : Reading ar aw)
      (r : IoResult (Unit {0}))
      → t.stage ≡ returned r
      → P t
      → Ends P (reader_step ar aw c tick t)
  unfolding reader_step no_auto_flush_at auto_flush_at
  reader_step-returned P c tick t r e h = elim (Bool-cases (is_zero c.read_msg_flush_interval)) [
    | inl z ↦ rw z (subst (λ s. Ends P (no_auto_flush_at ar aw s t)) (sym e) h)
    | inr nz ↦ rw nz (subst (λ s. Ends P (auto_flush_at ar aw tick s t)) (sym e) h)
  ]

  pub reader_run-IsFaithful :
      (c : ConnConfig) (ticks : List Bool) (t : Reading ar aw)
      → IsFaithful t
      → Ends IsFaithful (reader_run ar aw c ticks t)
  unfolding reader_run
  reader_run-IsFaithful c [] t h = h
  reader_run-IsFaithful c (tick ∷ ticks) t h =
      >>=-Ends IsFaithful IsFaithful (reader_step ar aw c tick t) (reader_run ar aw c ticks)
        (reader_step-IsFaithful c tick t h) (reader_run-IsFaithful c ticks)

  -- A task that has just started is faithful.
  pub handle_reader-IsFaithful :
      (c : ConnConfig) (r : Reader) (w : Writer)
      → written w ≡ received r
      → Ends IsFaithful (handle_reader ar aw c r w)
  unfolding handle_reader
  handle_reader-IsFaithful c r w e =
      >>=-Ends (λ b. IsValid ar aw b × (b.w_offset ≡ 0)) IsFaithful (new r w (msg_buf_size c))
        (λ b. done (record { stage = filling fresh; has_data = false; read_write = b }))
        (new-IsValid ar aw r w (msg_buf_size c) (omega (arith, msg_buf_size_bounds c)) e)
        (λ b v. record { valid = v.0; drained = λ e'. cc })

  -- It is at the loop, with everything still to be read.
  pub handle_reader-start :
      (c : ConnConfig) (r : Reader) (w : Writer)
      → Ends
          (λ t. (t.stage ≡ filling fresh) × (t.read_write.reader ≡ r) × (t.read_write.writer ≡ w))
          (handle_reader ar aw c r w)
  unfolding handle_reader new
  handle_reader-start c r w =
      rw (lt→ltb 0 (msg_buf_size c) (omega (arith, msg_buf_size_bounds c))) (refl, refl, refl)

  abbrev pub reader_task : ConnConfig → List Bool → Reader → Writer → Run (Reading ar aw)
  reader_task c ticks r w = handle_reader ar aw c r w >>= reader_run ar aw c ticks

  pub reader_task-IsFaithful :
      (c : ConnConfig) (ticks : List Bool) (r : Reader) (w : Writer)
      → written w ≡ received r
      → Ends IsFaithful (reader_task c ticks r w)
  reader_task-IsFaithful c ticks r w e =
      >>=-Ends IsFaithful IsFaithful (handle_reader ar aw c r w) (reader_run ar aw c ticks)
        (handle_reader-IsFaithful c r w e) (reader_run-IsFaithful c ticks)

  -- From any configuration, and after any number of polls with any ticks between them, a reader
  -- task that started with nothing handed out has not panicked, and what the callback took
  -- followed by what is still buffered is exactly what was read from the socket.
  pub reader_in_order :
      (c : ConnConfig) (ticks : List Bool) (r : Reader) (w : Writer)
      → written w ≡ received r
      → Ends
          (λ t.
            written t.read_write.writer ++ buffered ar aw t.read_write
            ≡ received t.read_write.reader)
          (reader_task c ticks r w)
  reader_in_order c ticks r w e =
      Ends-map (λ t h. h.valid.stream) (reader_task c ticks r w)
        (reader_task-IsFaithful c ticks r w e)

  pub returned-IsFaithful :
      (t : Reading ar aw)
      → IsFaithful t
      → t.stage ≡ returned (ok tt)
      → written t.read_write.writer ≡ received t.read_write.reader
  returned-IsFaithful t h stage =
      let b = t.read_write in
      sym (append-nil (written b.writer))
      ∙ ap (◌++◌ (written b.writer))
          (sym (slice_empty b.buf b.r_offset b.w_offset (omega (arith, h.drained stage))))
      ∙ h.valid.stream

  -- If a reader task that started with nothing handed out returns with success, the callback took
  -- every byte that was read from the socket, in order.
  pub reader_delivers :
      (c : ConnConfig) (ticks : List Bool) (r : Reader) (w : Writer) (t : Reading ar aw)
      → written w ≡ received r
      → reader_task c ticks r w ≡ done t
      → t.stage ≡ returned (ok tt)
      → written t.read_write.writer ≡ received t.read_write.reader
  reader_delivers c ticks r w t e run stage =
      returned-IsFaithful t (subst (Ends IsFaithful) run (reader_task-IsFaithful c ticks r w e))
        stage
