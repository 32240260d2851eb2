-- ===== src/Session/Joins.antt =====
-- The joins of the reader and the writer task of a connection of src/conn_handle.rs: a task is joined
-- with what it has returned.
use socket_manager.Prelude.{ℕ, ◌≡◌, refl, sym, subst, Option, none, some}
use socket_manager.Std.{ok, err, Ends}
use socket_manager.Io.{AsyncRead, AsyncWrite}
use socket_manager.OnMsgWrite
use socket_manager.OnMsgWrite.{on_msg_write}
use socket_manager.Ring.{RingBuf}
use socket_manager.Channel.{Mpsc}
use socket_manager.Config.{ConnConfig}
use socket_manager.Link
use socket_manager.Link.{returned, stream}
use socket_manager.Reader
use socket_manager.ConnState.{Runtime}
use socket_manager.JoinTasks.{stop_closed, writer_joined, reader_joined}
use socket_manager.ConnHandle.{Action}
use socket_manager.ConnHandle.Grows.{ClosesBy, StopsBy}
use socket_manager.Session.{
  Reads, Session, conn_at, Awaited, stop, writer, reader, join_writer, join_reader, join_returned,
  await_at,
}
use socket_manager.Session.Whole.{IsWhole, HasRead, conn_at-IsWhole}

module _ (rt : Runtime) (rb : RingBuf) (mp : Mpsc ℕ) (aw : AsyncWrite) (ar : AsyncRead)
    (cb : OnMsgWrite.OnMsg) (into : rt.OnMsg → cb.State) where
  open rt use {SocketAddr}

  abbrev This : Type 0
  This = Session rt rb mp aw ar cb into

  abbrev Whole : SocketAddr × SocketAddr → This → Type 0
  Whole k s = IsWhole rt rb mp aw ar cb into k s

  -- A step that joins no task.
  pub conn-IsWhole :
      (k : SocketAddr × SocketAddr) (a : Action rt) (s : This)
      → Whole k s
      → (ClosesBy rt a → ⊥)
      → (StopsBy rt a → ⊥)
      → Ends (Whole k) (conn_at rt rb mp aw ar cb into a s)
  conn-IsWhole k a s h closes stops =
      conn_at-IsWhole rt rb mp aw ar cb into k a s h (λ f. absurd (closes f))
        (λ f. absurd (stops f))

  join_writer-IsWhole :
      (k : SocketAddr × SocketAddr) (st : Link.Stage) (s : This)
      → s.link.stage ≡ st
      → Whole k s
      → Ends (Whole k) (join_writer rt rb mp aw ar cb into st s)
  join_writer-IsWhole k (returned (ok u) left) s e h =
      conn_at-IsWhole rt rb mp aw ar cb into k (Action.joins (writer_joined (ok (ok u)))) s h
        (λ f. absurd f) (λ _. (left, e))
  join_writer-IsWhole k (returned (err x) left) s e h =
      conn_at-IsWhole rt rb mp aw ar cb into k (Action.joins (writer_joined (ok (err x)))) s h
        (λ f. absurd f) (λ f. absurd f)
  join_writer-IsWhole k Link.receiving s e h = h
  join_writer-IsWhole k Link.shutting s e h = h
  join_writer-IsWhole k (Link.waiting i b) s e h = h
  join_writer-IsWhole k (Link.flushing i a) s e h = h

  join_returned-IsWhole :
      (k : SocketAddr × SocketAddr) (st : Reader.Stage) (s : This)
      → (st ≡ Reader.returned (ok tt) → HasRead rt rb mp aw ar cb into s.tasks)
      → Whole k s
      → Ends (Whole k) (join_returned rt rb mp aw ar cb into st s)
  join_returned-IsWhole k (Reader.returned (ok u)) s e h =
      conn_at-IsWhole rt rb mp aw ar cb into k (Action.joins (reader_joined (ok (ok u)))) s h
        (λ _. e refl) (λ f. absurd f)
  join_returned-IsWhole k (Reader.returned (err x)) s e h =
      conn_at-IsWhole rt rb mp aw ar cb into k (Action.joins (reader_joined (ok (err x)))) s h
        (λ f. absurd f) (λ f. absurd f)
  join_returned-IsWhole k (Reader.filling a) s e h = h
  join_returned-IsWhole k Reader.tick_flushing s e h = h
  join_returned-IsWhole k Reader.last_flushing s e h = h

  join_reader-IsWhole :
      (k : SocketAddr × SocketAddr) (tasks : Option (ConnConfig × Reads rt rb mp aw ar cb into))
      (s : This)
      → s.tasks ≡ tasks
      → Whole k s
      → Ends (Whole k) (join_reader rt rb mp aw ar cb into tasks s)
  join_reader-IsWhole k none s e h = h
  join_reader-IsWhole k (some (c, t)) s e h =
      join_returned-IsWhole k t.stage s (λ r. subst (HasRead rt rb mp aw ar cb into) (sym e) r) h

  pub await_at-IsWhole :
      (k : SocketAddr × SocketAddr) (b : Awaited) (s : This)
      → Whole k s
      → Ends (Whole k) (await_at rt rb mp aw ar cb into b s)
  await_at-IsWhole k stop s h =
      conn_at-IsWhole rt rb mp aw ar cb into k (Action.joins stop_closed) s h (λ f. absurd f)
        (λ f. absurd f)
  await_at-IsWhole k writer s h = join_writer-IsWhole k s.link.stage s refl h
  await_at-IsWhole k reader s h = join_reader-IsWhole k s.tasks s refl h
