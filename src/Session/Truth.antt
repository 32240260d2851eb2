-- ===== src/Session/Truth.antt =====
-- What a connection of src/conn_handle.rs tells its user is true of its reader and its writer task.
use socket_manager.Prelude.{ℕ, ◌≡◌, refl, Bool, true, false, List, [], ◌∷◌, Option, none, some, ◌∙◌}
use socket_manager.Std.{ok, Ends, Ends-map, >>=-Ends}
use socket_manager.Io.{AsyncRead, AsyncWrite}
use socket_manager.OnMsgWrite
use socket_manager.OnMsgWrite.{on_msg_write}
use socket_manager.Ring.{RingBuf}
use socket_manager.Channel.{Mpsc}
use socket_manager.Config.{ConnConfig}
use socket_manager.Link.{stream}
use socket_manager.Link.Invariant.{make_sender-IsReady}
use socket_manager.Writer.{Shared}
use socket_manager.Writer.Completion.{EndsEmpty-written}
use socket_manager.Writer.Serves.{make_sender-Serves}
use socket_manager.Reader
use socket_manager.Reader.Delivery.{returned-IsFaithful}
use socket_manager.ConnState.{Runtime, ConnectionState}
use socket_manager.ConnHandle.{Action, handle_connection}
use socket_manager.ConnHandle.Events.{opened-IsLegal}
use socket_manager.ConnHandle.Grows.{told_remote_close}
use socket_manager.Session.{
  Reads, Session, session_new, conn_at, spawn_tasks, Act, task_polls, reader_polls, writer_polls,
  answers, calls, drops_conn, others, sends, drops, awaits, session_step, session_run,
}
use socket_manager.Session.Whole.{
  IsWhole, Owned, AreFaithful, HasRead, HasWritten, spawn_tasks-IsWhole, writer_polled-Owned,
  writer_polled-HasWritten, writer_polled-stream, reader_at-IsWhole,
}
use socket_manager.Session.Joins.{conn-IsWhole, await_at-IsWhole}
use socket_manager.Session.Senders.{unwritten, send_at-IsWhole, drop_at-IsWhole}

module _ (rt : Runtime) (rb : RingBuf) (mp : Mpsc ℕ) (aw : AsyncWrite) (ar : AsyncRead)
    (cb : OnMsgWrite.OnMsg) (into : rt.OnMsg → cb.State) where
  open rt use {SocketAddr}

  abbrev This : Type 0
  This = Session rt rb mp aw ar cb into

  abbrev Whole : SocketAddr × SocketAddr → This → Type 0
  Whole k s = IsWhole rt rb mp aw ar cb into k s

  module _ (fresh : (f : rt.OnMsg) → cb.taken (into f) ≡ []) where
    session_step-IsWhole :
        (k : SocketAddr × SocketAddr) (act : Act rt) (s : This)
        → Whole k s
        → Ends (Whole k) (session_step rt rb mp aw ar cb into act s)
    unfolding session_step
    session_step-IsWhole k task_polls s h =
        >>=-Ends (Whole k) (Whole k)
          (spawn_tasks rt rb mp aw ar cb into s.conn.stage
            (rt.config.poll_recv s.conn.held.config).0 s)
          (conn_at rt rb mp aw ar cb into Action.polls)
          (spawn_tasks-IsWhole rt rb mp aw ar cb into k s.conn.stage
            (rt.config.poll_recv s.conn.held.config).0 s fresh refl h)
          (λ s' h'. conn-IsWhole rt rb mp aw ar cb into k Action.polls s' h' (λ f. f) (λ f. f))
    session_step-IsWhole k (reader_polls tick) s h =
        reader_at-IsWhole rt rb mp aw ar cb into k tick s.tasks s refl h
    session_step-IsWhole k (writer_polls tick) s h = record {
      legal = h.legal;
      owned = writer_polled-Owned rt rb mp aw ar cb into s.tasks tick s.is_sending s.link h.owned;
      unread = h.unread;
      faithful = h.faithful;
      remote = h.remote;
      stopped =
          λ w. writer_polled-HasWritten rt rb mp aw ar cb into s.tasks tick s.link (h.stopped w);
      exact = λ n.
          writer_polled-stream rt rb mp aw ar cb into s.tasks tick s.is_sending s.link h.owned
          ∙ h.exact n;
    }
    session_step-IsWhole k (answers r) s h =
        conn-IsWhole rt rb mp aw ar cb into k (Action.answers r) s h (λ f. f) (λ f. f)
    session_step-IsWhole k (calls u) s h =
        conn-IsWhole rt rb mp aw ar cb into k (Action.calls u) s h (λ f. f) (λ f. f)
    session_step-IsWhole k drops_conn s h =
        conn-IsWhole rt rb mp aw ar cb into k Action.drops_conn s h (λ f. f) (λ f. f)
    session_step-IsWhole k (others g) s h =
        conn-IsWhole rt rb mp aw ar cb into k (Action.others g) s h (λ f. f) (λ f. f)
    session_step-IsWhole k (sends call ticks) s h =
        send_at-IsWhole rt rb mp aw ar cb into k s.is_sending call ticks s refl h
    session_step-IsWhole k drops s h =
        drop_at-IsWhole rt rb mp aw ar cb into k s.is_sending s refl h
    session_step-IsWhole k (awaits b) s h = await_at-IsWhole rt rb mp aw ar cb into k b s h

    session_run-IsWhole :
        (k : SocketAddr × SocketAddr) (acts : List (Act rt)) (s : This)
        → Whole k s
        → Ends (Whole k) (session_run rt rb mp aw ar cb into acts s)
    unfolding session_run
    session_run-IsWhole k [] s h = h
    session_run-IsWhole k (act ∷ acts) s h =
        >>=-Ends (Whole k) (Whole k) (session_step rt rb mp aw ar cb into act s)
          (session_run rt rb mp aw ar cb into acts) (session_step-IsWhole k act s h)
          (session_run-IsWhole k acts)

  session_new-IsWhole :
      (local_addr peer_addr : SocketAddr) (state : ConnectionState rt) (w : aw.Writer)
      (r : ar.Reader)
      → ar.received r ≡ []
      → Whole
          (local_addr, peer_addr)
          (session_new rt rb mp aw ar cb into local_addr peer_addr state w r)
  unfolding session_new handle_connection
  session_new-IsWhole local_addr peer_addr state w r e = record {
    legal = opened-IsLegal rt local_addr peer_addr state;
    owned = ((make_sender-IsReady rb mp aw w).0, make_sender-Serves rb mp aw w);
    unread = e;
    faithful = tt;
    remote = λ t. cc;
    stopped = λ t. cc;
    exact = λ n. (make_sender-IsReady rb mp aw w).1;
  }

  pub session-IsWhole :
      (local_addr peer_addr : SocketAddr) (state : ConnectionState rt) (w : aw.Writer)
      (r : ar.Reader) (acts : List (Act rt))
      → ((f : rt.OnMsg) → cb.taken (into f) ≡ [])
      → ar.received r ≡ []
      → Ends (Whole (local_addr, peer_addr)) (
          session_run rt rb mp aw ar cb into acts
            (session_new rt rb mp aw ar cb into local_addr peer_addr state w r))
  session-IsWhole local_addr peer_addr state w r acts fresh unread =
      session_run-IsWhole fresh (local_addr, peer_addr) acts
        (session_new rt rb mp aw ar cb into local_addr peer_addr state w r)
        (session_new-IsWhole local_addr peer_addr state w r unread)

  -- What the reader's callback took is what was read.
  abbrev pub HasDelivered : Option (ConnConfig × Reads rt rb mp aw ar cb into) → Type 0
  HasDelivered none = ⊥
  HasDelivered (some (c, t)) =
      (t.stage ≡ Reader.returned (ok tt))
      × (cb.taken t.read_write.writer ≡ ar.received t.read_write.reader)

  pub record IsTrue (s : This) : Type 0 where
    pub remote_closed : told_remote_close s.conn.join.events ≡ true → HasDelivered s.tasks
    pub writer_stopped :
        s.conn.join.writer_stopped ≡ true
        → (s.is_sending ≡ false) × (s.has_failed ≡ false → aw.written s.link.socket ≡ s.accepted)

  delivered :
      (tasks : Option (ConnConfig × Reads rt rb mp aw ar cb into))
      → AreFaithful rt rb mp aw ar cb into tasks
      → HasRead rt rb mp aw ar cb into tasks
      → HasDelivered tasks
  delivered none f r = r
  delivered (some (c, t)) f r = (r, returned-IsFaithful ar (on_msg_write cb) t f r)

  written_all :
      (b : Bool) (l : Shared rb mp aw)
      → Owned rt rb mp aw ar cb into b l
      → HasWritten rt rb mp aw ar cb into l
      → (b ≡ false) × (aw.written l.socket ≡ stream rb mp aw l)
  written_all true l o w = absurd (unwritten rt rb mp aw ar cb into l o w)
  written_all false l o (left, e) = (refl, EndsEmpty-written rb mp aw l left o.1 e)

  IsWhole-IsTrue : (k : SocketAddr × SocketAddr) (s : This) → Whole k s → IsTrue s
  IsWhole-IsTrue k s h = record {
    remote_closed = λ t. delivered s.tasks h.faithful (h.remote t);
    writer_stopped = λ t.
        let all = written_all s.is_sending s.link h.owned (h.stopped t) in
        (all.0, λ n. all.1 ∙ h.exact n);
  }

  -- Over a socket of which nothing was read and with callbacks that have taken nothing: however the steps of
  -- the connection's task, of its reader and of its writer, the calls of the sender that do not
  -- block and its drop, and the calls of the user and of others fall, nothing panics. Whenever
  -- `OnRemoteClose` was sent, the reader has returned with success and the callback has taken
  -- every byte that was read, in order. Whenever the writer was joined with success, the sender was
  -- dropped before; and if no call of `send_nonblock` has failed, then what the socket has been given, behind
  -- what it had, is exactly the bytes that the calls said they accepted, in order.
  pub session_tells_truth :
      (local_addr peer_addr : SocketAddr) (state : ConnectionState rt) (w : aw.Writer)
      (r : ar.Reader) (acts : List (Act rt))
      → ((f : rt.OnMsg) → cb.taken (into f) ≡ [])
      → ar.received r ≡ []
      → Ends IsTrue (
          session_run rt rb mp aw ar cb into acts
            (session_new rt rb mp aw ar cb into local_addr peer_addr state w r))
  session_tells_truth local_addr peer_addr state w r acts fresh unread =
      Ends-map (λ s h. IsWhole-IsTrue (local_addr, peer_addr) s h) _
        (session-IsWhole local_addr peer_addr state w r acts fresh unread)
