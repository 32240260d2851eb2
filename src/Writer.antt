-- ===== src/Writer.antt =====
-- src/write.rs: the task that takes the bytes out of the rings and writes them to the socket. A step
-- is one poll of the future that the task awaits, and says by the task's stage what the task
-- awaits next.
pub mod Keeps
pub mod Flush
pub mod Guarantee
pub mod Completion
pub mod Progress
pub mod Ending
pub mod Returns
pub mod Serves
pub mod Room
pub mod Drains
use socket_manager.Prelude.{
  ℕ, ◌+◌, ◌*◌, Bool, true, false, List, [], ◌∷◌, Option, none, some, not, ◌&&◌, ltb, if◌then◌else◌,
}
use socket_manager.Std.{Byte, Poll, ready, pending, ok, err, IoResult, is_zero}
use socket_manager.Io.{AsyncWrite}
use socket_manager.Ring.{RingBuf}
use socket_manager.Channel.{Mpsc}
use socket_manager.Config.{ConnConfig, min_msg_buffer_size}
use socket_manager.Link.{
  Link, update, Stage, receiving, shutting, waiting, flushing, returned, After, to_wait, to_recv,
}
use socket_manager.MsgSender.{is_empty}

-- `b as usize`
abbrev pub as_usize : Bool → ℕ
as_usize true = 1
as_usize false = 0

module _ (rb : RingBuf) (mp : Mpsc ℕ) (aw : AsyncWrite) where
  open rb use {
    Ring, wait_occupied, occupied_len, as_slices, advance_read_index, cons_is_closed, drop_cons,
  }
  open mp use {Chan, poll_recv, drop_receiver, queued}
  open aw use {Writer, poll_write, poll_shutdown}

  abbrev pub Shared : Type 0
  Shared = Link rb mp aw

  abbrev pub staged : Shared → Stage → Shared
  staged l s = record l { stage = s }

  -- The consumer halves of some rings are dropped.
  abbrev pub drop_all : List ℕ → (ℕ → Ring) → ℕ → Ring
  drop_all [] f = f
  drop_all (i ∷ is) f = update (drop_all is f) i (drop_cons (drop_all is f i))

  -- The task returns: the rings that it holds and the receiver with what waits in it are dropped.
  abbrev pub return_with : IoResult (Unit {0}) → List ℕ → Shared → Shared
  return_with r left l = record l {
    rings = drop_all left l.rings;
    chan = drop_receiver l.chan;
    stage = returned r left;
  }

  -- `recv.rings.recv().await`
  unfoldable pub receive : Poll (Option ℕ) → Chan → Shared → Shared
  receive (ready (some i)) c l = record l { chan = c; stage = waiting i true }
  receive (ready none) c l = record l { chan = c; stage = shutting }
  receive pending c l = record l { chan = c; stage = receiving }

  -- `write.shutdown().await?; Ok(())`
  unfoldable pub shut : Poll (IoResult (Unit {0})) → Writer → Shared → Shared
  shut (ready r) w l = return_with r (queued l.chan) (record l { socket = w })
  shut pending w l = record l { socket = w; stage = shutting }

  -- What follows a `flush`: the loop goes on, or the ring is dropped at the end of the
  -- `while let` body.
  unfoldable pub flushed : After → ℕ → Shared → Shared
  flushed to_wait i l = staged l (waiting i false)
  flushed to_recv i l = record l {
    rings = update l.rings i (drop_cons (l.rings i));
    stage = receiving;
  }

  -- `let count = write.write(left).await?` and `ring_buf.advance_read_index(count)`
  unfoldable pub wrote : Poll (IoResult ℕ) → Writer → After → ℕ → Shared → Shared
  wrote (ready (ok count)) w after i l = record l {
    rings = update l.rings i (advance_read_index count (l.rings i));
    socket = w;
    stage = flushing i after;
  }
  wrote (ready (err e)) w after i l =
      return_with (err e) (i ∷ queued l.chan) (record l { socket = w })
  wrote pending w after i l = record l { socket = w; stage = flushing i after }

  -- A round of the `loop` of `flush`.
  unfoldable pub flush_at : After → ℕ → Shared → Shared
  unfolding flushed wrote
  flush_at after i l =
      let left = (as_slices (l.rings i)).0 in
      if is_empty left
      then flushed after i l
      else wrote (poll_write left l.socket).0 (poll_write left l.socket).1 after i l

  -- A poll of the `select!` of `handle_writer_auto_flush`; `tick` says whether `flush_tick` has a tick
  -- to give. It waits for a first byte, or, with `tick_flush`, for as many as make a write
  -- worth while or the tick.
  unfoldable pub select_at : Bool → ℕ → Bool → Shared → Shared
  select_at tick i tick_flush l =
      if wait_occupied (as_usize tick_flush * min_msg_buffer_size + as_usize (not tick_flush))
        (l.rings i)
      then (if cons_is_closed (l.rings i)
          then staged l (flushing i to_recv)
          else (if ltb (occupied_len (l.rings i)) min_msg_buffer_size
              then staged l (waiting i true)
              else staged l (flushing i to_wait)))
      else (if tick_flush && tick
          then staged l (flushing i to_wait)
          else staged l (waiting i tick_flush))

  -- A poll of the wait of `handle_writer_no_auto_flush`, which has no tick.
  unfoldable pub wait_at : ℕ → Bool → Shared → Shared
  wait_at i tick_flush l =
      if wait_occupied min_msg_buffer_size (l.rings i)
      then (if cons_is_closed (l.rings i)
          then staged l (flushing i to_recv)
          else staged l (flushing i to_wait))
      else staged l (waiting i tick_flush)

  -- `handle_writer` picks the loop by `write_flush_interval`.
  unfoldable pub writer_at : ConnConfig → Bool → Stage → Shared → Shared
  unfolding receive shut flush_at select_at wait_at
  writer_at config tick receiving l = receive (poll_recv l.chan).0 (poll_recv l.chan).1 l
  writer_at config tick shutting l = shut (poll_shutdown l.socket).0 (poll_shutdown l.socket).1 l
  writer_at config tick (waiting i tick_flush) l =
      if is_zero config.write_flush_interval
      then wait_at i tick_flush l
      else select_at tick i tick_flush l
  writer_at config tick (flushing i after) l = flush_at after i l
  writer_at config tick (returned r left) l = staged l (returned r left)

  -- A step of the task.
  unfoldable pub writer_step : ConnConfig → Bool → Shared → Shared
  unfolding writer_at
  writer_step config tick l = writer_at config tick l.stage l

  -- The steps of the task, each with what the timer says then.
  unfoldable pub writer_run : ConnConfig → List Bool → Shared → Shared
  writer_run config [] l = l
  writer_run config (tick ∷ ticks) l = writer_run config ticks (writer_step config tick l)
