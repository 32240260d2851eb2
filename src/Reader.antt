-- ===== src/Reader.antt =====
-- src/read.rs: the task that reads a socket and hands the bytes to the `on_msg` callback. The
-- callback and the socket's half are parameters; a step is one poll of the future that the task
-- awaits, and says by the task's stage what the task awaits next.
pub mod Delivery
pub mod Ticks
pub mod Returns
use socket_manager.Prelude.{
  ℕ, ◌≤◌, ◌≡◌, String, Bool, true, false, List, [], ◌∷◌, ◌++◌, length, take, ◌==◌, ◌&&◌,
  if◌then◌else◌,
}
use socket_manager.Std.{
  Byte, Poll, ready, pending, Result, ok, err, IoError, IoResult, other, text, prefixed, new_error,
  Run, done, ◌>>=◌, is_zero,
}
use socket_manager.Io.{AsyncRead, AsyncWrite}
use socket_manager.Config.{ConnConfig, msg_buf_size}
use socket_manager.BufReadWrite.{new, Buffered, flush, Await, fresh, fill_flush}

-- What the task awaits: the loop's `fill_flush`, the `flush` of a tick, the last `flush`; or what
-- it has returned.
pub data Stage : Type 0 where
  filling : Await → Stage
  tick_flushing last_flushing : Stage
  returned : IoResult (Unit {0}) → Stage

module _ (ar : AsyncRead) (aw : AsyncWrite) where
  pub record Reading : Type 0 where
    pub stage : Stage
    pub has_data : Bool
    pub read_write : Buffered ar aw

  abbrev moved : Reading → Stage → Buffered ar aw → Reading
  moved t s b = record t { stage = s; read_write = b }

  -- `read_write.flush().await?; Ok(())`
  abbrev after_last : Reading → Poll (IoResult (Unit {0})) × Buffered ar aw → Run Reading
  after_last t (ready r, b) = done (moved t (returned r) b)
  after_last t (pending, b) = done (moved t last_flushing b)

  -- A poll of `while read_write.fill_flush().await? != 0 {}`.
  abbrev after_fill : Reading → Poll (IoResult ℕ) × Await × Buffered ar aw → Run Reading
  after_fill t (ready (ok n), a, b) =
      done (moved t (if n == 0 then last_flushing else filling fresh) b)
  after_fill t (ready (err e), a, b) = done (moved t (returned (err e)) b)
  after_fill t (pending, a, b) = done (moved t (filling a) b)

  -- A step of `handle_reader_no_auto_flush`. It has no tick.
  unfoldable pub no_auto_flush_at : Stage → Reading → Run Reading
  no_auto_flush_at (filling a) t = fill_flush ar aw a t.read_write >>= after_fill t
  no_auto_flush_at last_flushing t = flush ar aw t.read_write >>= after_last t
  no_auto_flush_at tick_flushing t = done t
  no_auto_flush_at (returned r) t = done t

  -- A poll of the `select!`: the tick is looked at only where the read is pending, and only with
  -- `has_data`. Where it fires, the future of `fill_flush` is dropped.
  abbrev after_select : Bool → Reading → Poll (IoResult ℕ) × Await × Buffered ar aw → Run Reading
  after_select tick t (ready (ok n), a, b) = done (
      if n == 0
      then moved t last_flushing b
      else record t { stage = filling fresh; has_data = true; read_write = b })
  after_select tick t (ready (err e), a, b) = done (moved t (returned (err e)) b)
  after_select tick t (pending, a, b) =
      done (moved t (if t.has_data && tick then tick_flushing else filling a) b)

  abbrev after_tick : Reading → Poll (IoResult (Unit {0})) × Buffered ar aw → Run Reading
  after_tick t (ready (ok u), b) =
      done (record t { stage = filling fresh; has_data = false; read_write = b })
  after_tick t (ready (err e), b) = done (moved t (returned (err e)) b)
  after_tick t (pending, b) = done (moved t tick_flushing b)

  -- A step of `handle_reader_auto_flush`; `tick` says whether `flush_tick` has a tick to give.
  unfoldable pub auto_flush_at : Bool → Stage → Reading → Run Reading
  auto_flush_at tick (filling a) t = fill_flush ar aw a t.read_write >>= after_select tick t
  auto_flush_at tick tick_flushing t = flush ar aw t.read_write >>= after_tick t
  auto_flush_at tick last_flushing t = flush ar aw t.read_write >>= after_last t
  auto_flush_at tick (returned r) t = done t

  -- `handle_reader` picks the loop by `read_msg_flush_interval`.
  unfoldable pub reader_step : ConnConfig → Bool → Reading → Run Reading
  unfolding no_auto_flush_at auto_flush_at
  reader_step config tick t =
      if is_zero config.read_msg_flush_interval
      then no_auto_flush_at t.stage t
      else auto_flush_at tick t.stage t

  -- The steps of the task, each with what the timer says then.
  unfoldable pub reader_run : ConnConfig → List Bool → Reading → Run Reading
  reader_run config [] t = done t
  reader_run config (tick ∷ ticks) t = reader_step config tick t >>= reader_run config ticks

  -- The task as `handle_reader` starts it.
  unfoldable pub handle_reader : ConnConfig → ar.Reader → aw.Writer → Run Reading
  handle_reader config read writer = new read writer (msg_buf_size config) >>= λ b.
      done (record { stage = filling fresh; has_data = false; read_write = b })
