-- ===== src/Session/Awaits.antt =====
-- `join_reader_writer` of src/conn_handle.rs sees the reader and the writer end, one after the other.
use socket_manager.Prelude.{
  ℕ, ◌≡◌, refl, Bool, true, false, List, [], ◌∷◌, ◌++◌, some, append_assoc,
}
use socket_manager.Std.{ok, Run, done, ◌>>=◌, Ends}
use socket_manager.Io.{AsyncRead, AsyncWrite}
use socket_manager.OnMsgWrite
use socket_manager.OnMsgWrite.{on_msg_write}
use socket_manager.Ring.{RingBuf}
use socket_manager.Channel.{Mpsc}
use socket_manager.Config.{ConnConfig}
use socket_manager.Link.{returned}
use socket_manager.Reader
use socket_manager.Reader.{reader_run}
use socket_manager.ConnState.{Runtime, on_remote_close, on_connection_close}
use socket_manager.JoinTasks.{writer_joined, reader_joined, select_round, on_writer, on_reader}
use socket_manager.ConnHandle.{Connection, Action, in_join, closed, conn_step, conn_run, branch_at}
use socket_manager.Session.{Reads, Session, Act, awaits, writer, reader, session_step, session_run}

module _ (rt : Runtime) where
  -- Both tasks are joined with success, in one order or the other.
  abbrev pub both : Bool → List (Action rt)
  both true =
      Action.joins (writer_joined (ok (ok tt))) ∷ Action.joins (reader_joined (ok (ok tt))) ∷ []
  both false =
      Action.joins (reader_joined (ok (ok tt))) ∷ Action.joins (writer_joined (ok (ok tt))) ∷ []

  -- The connection is closed, and the user was told of both ends.
  abbrev pub ClosedFrom : Connection rt → Connection rt → Type 0
  ClosedFrom c c' =
      (c'.stage ≡ closed)
      × (c'.join.events
          ≡ c.join.events
            ++ on_remote_close c.addrs.0 c.addrs.1 ∷ on_connection_close c.addrs.0 c.addrs.1 ∷ [])

  pub both_joined :
      (order : Bool) (c : Connection rt)
      → c.stage ≡ in_join
      → c.join.writer_stopped ≡ false
      → c.join.reader_stopped ≡ false
      → Ends (ClosedFrom c) (conn_run rt (both order) c)
  unfolding conn_run conn_step branch_at select_round on_writer on_reader
  both_joined true c e w r =
      rw (e, w, r) (refl, append_assoc c.join.events (on_remote_close c.addrs.0 c.addrs.1 ∷ []) _)
  both_joined false c e w r =
      rw (e, r, w) (refl, append_assoc c.join.events (on_remote_close c.addrs.0 c.addrs.1 ∷ []) _)

-- `join_reader_writer` sees the one task's end and then the other's.
abbrev pub awaits_of : (rt : Runtime) → Bool → List (Act rt)
awaits_of rt true = awaits writer ∷ awaits reader ∷ []
awaits_of rt false = awaits reader ∷ awaits writer ∷ []

module _ (rt : Runtime) (rb : RingBuf) (mp : Mpsc ℕ) (aw : AsyncWrite) (ar : AsyncRead)
    (cb : OnMsgWrite.OnMsg) (into : rt.OnMsg → cb.State) where
  abbrev This : Type 0
  This = Session rt rb mp aw ar cb into

  abbrev run : List (Act rt) → This → Run This
  run acts s = session_run rt rb mp aw ar cb into acts s

  pub awaits_are_joins :
      (order : Bool) (s : This) (c : ConnConfig) (t : Reads rt rb mp aw ar cb into) (left : List ℕ)
      → s.link.stage ≡ returned (ok tt) left
      → s.tasks ≡ some (c, t)
      → t.stage ≡ Reader.returned (ok tt)
      → run (awaits_of rt order) s
        ≡ (conn_run rt (both rt order) s.conn >>= λ c'. done (record s { conn = c' }))
  unfolding session_run session_step conn_run conn_step
  awaits_are_joins true s c t left w e r = rw (w, e, r) refl
  awaits_are_joins false s c t left w e r = rw (e, r, w) refl
