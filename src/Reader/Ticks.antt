-- ===== src/Reader/Ticks.antt =====
-- `has_data` of `handle_reader_auto_flush` in src/read.rs: the timer is off only while the buffer
-- is empty, so no message is stuck in it.
use socket_manager.Prelude.{
  ℕ, ◌≡◌, refl, sym, ◌∙◌, subst, inl, inr, Bool, true, false, List, [], ◌∷◌, arith, ap, ◌++◌,
  append-nil, Bool-cases, ◌==◌, ◌&&◌,
}
use socket_manager.Std.{
  Poll, ready, pending, ok, err, IoResult, Run, done, Ends, Ends-both, Ends-map, >>=-Ends, is_zero,
  ◌>>=◌,
}
use socket_manager.Io.{AsyncRead, AsyncWrite}
use socket_manager.Config.{ConnConfig, msg_buf_size, msg_buf_size_bounds}
use socket_manager.BufReadWrite.{new, Buffered, flush, Await, fresh, fill_flush}
use socket_manager.BufReadWrite.Empty.{fill_flush_empty}
use socket_manager.BufReadWrite.WriteAll.{slice_empty}
use socket_manager.BufReadWrite.Stream.{
  IsValid, FlushKeeps, flush-IsValid, fill_flush-IsValid, new-IsValid,
}
use socket_manager.Reader.{
  Stage, filling, tick_flushing, last_flushing, returned, Reading, after_last, after_select,
  after_tick, auto_flush_at, reader_step, reader_run, handle_reader,
}
use socket_manager.Reader.Delivery.{reader_task}

module _ (ar : AsyncRead) (aw : AsyncWrite) where
  open ar use {Reader, received, poll_read}
  open aw use {Writer, written}

  abbrev FillOut : Type 0
  FillOut = Poll (IoResult ℕ) × Await × Buffered ar aw

  abbrev FlushOut : Type 0
  FlushOut = Poll (IoResult (Unit {0})) × Buffered ar aw

  -- While the loop awaits the read, the timer is off only if nothing is buffered.
  abbrev TickOk : Stage → Bool → ℕ → Type 0
  TickOk (filling a) false w = w ≡ 0
  TickOk _ _ w = Unit

  record IsTimed (t : Reading ar aw) : Type 0 where
    valid : IsValid ar aw t.read_write
    timed : TickOk t.stage t.has_data t.read_write.w_offset

  flush_then :
      (t : Reading ar aw) (f : FlushOut → Run (Reading ar aw))
      → IsValid ar aw t.read_write
      → ((out : FlushOut) → FlushKeeps ar aw t.read_write out → Ends IsTimed (f out))
      → Ends IsTimed (flush ar aw t.read_write >>= f)
  flush_then t f v k =
      >>=-Ends (FlushKeeps ar aw t.read_write) IsTimed (flush ar aw t.read_write) f
        (flush-IsValid ar aw t.read_write v) k

  after_last-IsTimed :
      (t : Reading ar aw) (b : Buffered ar aw) (out : FlushOut)
      → FlushKeeps ar aw b out
      → Ends IsTimed (after_last ar aw t out)
  after_last-IsTimed t b (ready r, b') f = record { valid = f.valid; timed = tt }
  after_last-IsTimed t b (pending, b') f = record { valid = f.valid; timed = tt }

  after_tick-IsTimed :
      (t : Reading ar aw) (b : Buffered ar aw) (out : FlushOut)
      → FlushKeeps ar aw b out
      → Ends IsTimed (after_tick ar aw t out)
  after_tick-IsTimed t b (ready (ok u), b') f = record {
    valid = f.valid;
    timed = elim f.finished [ inl d ↦ d.2 | inr d ↦ absurd (d.0 refl) ];
  }
  after_tick-IsTimed t b (ready (err x), b') f = record { valid = f.valid; timed = tt }
  after_tick-IsTimed t b (pending, b') f = record { valid = f.valid; timed = tt }

  -- The case of a pending read where no tick fires.
  parked_TickOk : (a : Await) (h : Bool) (w : ℕ) → (h ≡ false → w ≡ 0) → TickOk (filling a) h w
  parked_TickOk a true w k = tt
  parked_TickOk a false w k = k refl

  TickOk-zero : (a : Await) (h : Bool) (w : ℕ) → TickOk (filling a) h w → h ≡ false → w ≡ 0
  TickOk-zero a true w k e = cc
  TickOk-zero a false w k e = k

  after_select-IsTimed :
      (tick : Bool) (t : Reading ar aw) (out : FillOut)
      → IsValid ar aw out.2
      → (t.has_data ≡ false → out.0 ≡ pending → out.2.w_offset ≡ 0)
      → Ends IsTimed (after_select ar aw tick t out)
  after_select-IsTimed tick t (ready (ok n), a, b) v z = elim (Bool-cases (n == 0)) [
    | inl h ↦ rw h (record { valid = v; timed = tt })
    | inr h ↦ rw h (record { valid = v; timed = tt })
  ]
  after_select-IsTimed tick t (ready (err x), a, b) v z = record { valid = v; timed = tt }
  after_select-IsTimed tick t (pending, a, b) v z = elim (Bool-cases (t.has_data && tick)) [
    | inl h ↦ rw h (record { valid = v; timed = tt })
    | inr h ↦
        rw h (record { valid = v; timed = parked_TickOk a t.has_data b.w_offset (λ e. z e refl) })
  ]

  abbrev FillKeeps : Bool → FillOut → Type 0
  FillKeeps h out = IsValid ar aw out.2 × (h ≡ false → out.0 ≡ pending → out.2.w_offset ≡ 0)

  fill_flush-FillKeeps :
      (h : Bool) (a : Await) (b : Buffered ar aw)
      → IsValid ar aw b
      → TickOk (filling a) h b.w_offset
      → Ends (FillKeeps h) (fill_flush ar aw a b)
  fill_flush-FillKeeps true a b v k =
      Ends-map (λ out x. (x, λ e. cc)) (fill_flush ar aw a b) (fill_flush-IsValid ar aw a b v)
  fill_flush-FillKeeps false a b v k =
      Ends-map (λ out x. (x.0, λ e. x.1)) (fill_flush ar aw a b)
        (Ends-both (λ (out : FillOut). IsValid ar aw out.2)
          (λ (out : FillOut). out.0 ≡ pending → out.2.w_offset ≡ 0) (fill_flush ar aw a b)
          (fill_flush-IsValid ar aw a b v) (fill_flush_empty ar aw a b v k))

  auto_flush_at-IsTimed :
      (tick : Bool) (s : Stage) (t : Reading ar aw)
      → IsValid ar aw t.read_write
      → t.stage ≡ s
      → TickOk s t.has_data t.read_write.w_offset
      → Ends IsTimed (auto_flush_at ar aw tick s t)
  unfolding auto_flush_at
  auto_flush_at-IsTimed tick (filling a) t v e k =
      >>=-Ends (FillKeeps t.has_data) IsTimed (fill_flush ar aw a t.read_write)
        (after_select ar aw tick t) (fill_flush-FillKeeps t.has_data a t.read_write v k)
        (λ out x. after_select-IsTimed tick t out x.0 x.1)
  auto_flush_at-IsTimed tick tick_flushing t v e k =
      flush_then t (after_tick ar aw t) v (after_tick-IsTimed t t.read_write)
  auto_flush_at-IsTimed tick last_flushing t v e k =
      flush_then t (after_last ar aw t) v (after_last-IsTimed t t.read_write)
  auto_flush_at-IsTimed tick (returned r) t v e k = record { valid = v; timed = rw e tt }

  module _ (c : ConnConfig) (timer : is_zero c.read_msg_flush_interval ≡ false) where
    reader_run-IsTimed :
        (ticks : List Bool) (t : Reading ar aw)
        → IsTimed t
        → Ends IsTimed (reader_run ar aw c ticks t)
    unfolding reader_run reader_step
    reader_run-IsTimed [] t h = h
    reader_run-IsTimed (tick ∷ ticks) t h =
        >>=-Ends IsTimed IsTimed (reader_step ar aw c tick t) (reader_run ar aw c ticks)
          (rw timer (auto_flush_at-IsTimed tick t.stage t h.valid refl h.timed))
          (reader_run-IsTimed ticks)

    reader_task-IsTimed :
        (ticks : List Bool) (r : Reader) (w : Writer)
        → written w ≡ received r
        → Ends IsTimed (reader_task ar aw c ticks r w)
    unfolding handle_reader
    reader_task-IsTimed ticks r w e =
        >>=-Ends IsTimed IsTimed (handle_reader ar aw c r w) (reader_run ar aw c ticks)
          (>>=-Ends (λ b. IsValid ar aw b × (b.w_offset ≡ 0)) IsTimed (new r w (msg_buf_size c))
            (λ b. done (record { stage = filling fresh; has_data = false; read_write = b }))
            (new-IsValid ar aw r w (msg_buf_size c) (omega (arith, msg_buf_size_bounds c)) e)
            (λ b v. record { valid = v.0; timed = v.1 }))
          (reader_run-IsTimed ticks)

  -- With a flush interval, a reader task that started with nothing handed out turns its timer off
  -- only while its buffer is empty: whenever it awaits the read with `has_data` unset, no byte
  -- that was read is still to be handed out.
  pub timer_off_empty :
      (c : ConnConfig) (ticks : List Bool) (r : Reader) (w : Writer) (t : Reading ar aw) (a : Await)
      → is_zero c.read_msg_flush_interval ≡ false
      → written w ≡ received r
      → reader_task ar aw c ticks r w ≡ done t
      → t.stage ≡ filling a
      → t.has_data ≡ false
      → written t.read_write.writer ≡ received t.read_write.reader
  timer_off_empty c ticks r w t a timer e run stage off =
      let h = subst (Ends IsTimed) run (reader_task-IsTimed c timer ticks r w e) in
      let b = t.read_write in
      let empty : b.w_offset ≡ 0 =
        TickOk-zero a t.has_data b.w_offset
          (subst (λ s. TickOk s t.has_data b.w_offset) stage h.timed) off in
      sym (append-nil (written b.writer))
      ∙ ap (◌++◌ (written b.writer))
          (sym (slice_empty b.buf b.r_offset b.w_offset (omega (arith, empty))))
      ∙ h.valid.stream
