-- ===== src/Session/Whole.antt =====
-- What holds between any two steps of a connection of src/conn_handle.rs with its reader and its
-- writer task: what was told and what was joined is so.
use socket_manager.Prelude.{
  ℕ, ◌≡◌, refl, sym, subst, ◌∙◌, ◌⊎◌, inl, inr, Bool, true, false, List, [], ◌∷◌, Option, none,
  some,
}
use socket_manager.Std.{
  Poll, ready, pending, Result, ok, err, done, Ends, >>=-Ends, Ends-IfEnds, Ends-given,
}
use socket_manager.Io.{AsyncRead, AsyncWrite}
use socket_manager.OnMsgWrite
use socket_manager.OnMsgWrite.{on_msg_write}
use socket_manager.Ring.{RingBuf}
use socket_manager.Channel.{Mpsc}
use socket_manager.Config.{ConnConfig}
use socket_manager.Link.{returned, stream}
use socket_manager.Link.Invariant.{IsLinked, IsReady}
use socket_manager.Writer.{Shared, writer_at, writer_step}
use socket_manager.Writer.Guarantee.{writer_step-Keeps}
use socket_manager.Writer.Completion.{EndsEmpty, writer_at-EndsEmpty}
use socket_manager.Writer.Serves.{Serves, writer_step-Goes}
use socket_manager.Reader
use socket_manager.Reader.{reader_step, no_auto_flush_at, auto_flush_at}
use socket_manager.Reader.Delivery.{
  IsFaithful, reader_step-IsFaithful, reader_step-returned, handle_reader-IsFaithful,
}
use socket_manager.ConnState.{Runtime}
use socket_manager.ConnHandle.{Action, conn_step, Stage, spawned, calling, waiting, in_join, closed}
use socket_manager.ConnHandle.Events.{IsLegal, conn_step-IsLegal, Told, opening}
use socket_manager.ConnHandle.Grows.{told_remote_close, Grows, ClosesBy, StopsBy, conn_step-Grows}
use socket_manager.Session.{Reads, Session, conn_at, spawn_tasks, reader_at, writer_polled}

module _ (rt : Runtime) (rb : RingBuf) (mp : Mpsc ℕ) (aw : AsyncWrite) (ar : AsyncRead)
    (cb : OnMsgWrite.OnMsg) (into : rt.OnMsg → cb.State) where
  open rt use {SocketAddr, OnMsg}

  abbrev This : Type 0
  This = Session rt rb mp aw ar cb into

  abbrev Tasks : Type 0
  Tasks = Option (ConnConfig × Reads rt rb mp aw ar cb into)

  -- With the sender there, its ring is the last of the chain, and the writer does not end with success;
  -- without it, it does so only behind the last ring.
  abbrev pub Owned : Bool → Shared rb mp aw → Type 0
  Owned true l = IsReady rb mp aw l × Serves rb mp aw l.stage l.chan
  Owned false l = IsLinked rb mp aw [] l × EndsEmpty rb mp aw l.stage (mp.queued l.chan)

  abbrev pub AreFaithful : Tasks → Type 0
  AreFaithful none = Unit
  AreFaithful (some (c, t)) = IsFaithful ar (on_msg_write cb) t

  -- The reader, and the writer, have returned with success.
  abbrev pub HasRead : Tasks → Type 0
  HasRead none = ⊥
  HasRead (some (c, t)) = t.stage ≡ Reader.returned (ok tt)

  abbrev pub HasWritten : Shared rb mp aw → Type 0
  HasWritten l = (left : List ℕ) × (l.stage ≡ returned (ok tt) left)

  pub record IsWhole (k : SocketAddr × SocketAddr) (s : This) : Type 0 where
    pub legal : IsLegal rt k s.conn
    pub owned : Owned s.is_sending s.link
    pub unread : ar.received s.read ≡ []
    pub faithful : AreFaithful s.tasks
    pub remote : told_remote_close s.conn.join.events ≡ true → HasRead s.tasks
    pub stopped : s.conn.join.writer_stopped ≡ true → HasWritten s.link
    pub exact : s.has_failed ≡ false → stream rb mp aw s.link ≡ s.accepted

  either : {A B C : Type 0} → A ⊎ B → (A → C) → (B → C) → C
  either (inl a) f g = f a
  either (inr b) f g = g b

  pub conn_at-IsWhole :
      (k : SocketAddr × SocketAddr) (a : Action rt) (s : This)
      → IsWhole k s
      → (ClosesBy rt a → HasRead s.tasks)
      → (StopsBy rt a → HasWritten s.link)
      → Ends (IsWhole k) (conn_at rt rb mp aw ar cb into a s)
  conn_at-IsWhole k a s h close stop =
      >>=-Ends (λ c. IsLegal rt k c × Grows rt (ClosesBy rt a) (StopsBy rt a) s.conn.join c.join)
        (IsWhole k) (conn_step rt a s.conn) (λ c. done (record s { conn = c }))
        (Ends-IfEnds (IsLegal rt k) _ (conn_step rt a s.conn)
          (conn_step-IsLegal rt k a s.conn h.legal) (conn_step-Grows rt a s.conn))
        (λ c g. record {
          legal = g.0;
          owned = h.owned;
          unread = h.unread;
          faithful = h.faithful;
          remote = λ e. either (g.1.told e) h.remote close;
          stopped = λ e. either (g.1.stopped e) h.stopped stop;
          exact = h.exact;
        })

  -- Before the start signal no remote close was told.
  untold :
      (k : SocketAddr × SocketAddr) (s : This)
      → IsWhole k s
      → s.conn.stage ≡ waiting
      → told_remote_close s.conn.join.events ≡ true
      → ⊥
  untold k s h e t =
      let told : Told rt waiting s.conn.addrs s.conn.join =
        subst (λ x. Told rt x s.conn.addrs s.conn.join) e h.legal.told in
      let no : told_remote_close (opening rt s.conn.addrs) ≡ true =
        subst (λ x. told_remote_close x ≡ true) told.0 t in
      cc

  pub spawn_tasks-IsWhole :
      (k : SocketAddr × SocketAddr) (st : Stage) (p : Poll (Result (OnMsg × ConnConfig) (Unit {0})))
      (s : This)
      → ((f : OnMsg) → cb.taken (into f) ≡ [])
      → s.conn.stage ≡ st
      → IsWhole k s
      → Ends (IsWhole k) (spawn_tasks rt rb mp aw ar cb into st p s)
  unfolding spawn_tasks
  spawn_tasks-IsWhole k waiting (ready (ok (f, config))) s fresh e h =
      >>=-Ends (IsFaithful ar (on_msg_write cb)) (IsWhole k)
        (Reader.handle_reader ar (on_msg_write cb) config s.read (into f))
        (λ t. done (record s { tasks = some (config, t) }))
        (handle_reader-IsFaithful ar (on_msg_write cb) config s.read (into f)
          (fresh f ∙ sym h.unread))
        (λ t v. record {
          legal = h.legal;
          owned = h.owned;
          unread = h.unread;
          faithful = v;
          remote = λ t. absurd (untold k s h e t);
          stopped = h.stopped;
          exact = h.exact;
        })
  spawn_tasks-IsWhole k waiting (ready (err u)) s fresh e h = h
  spawn_tasks-IsWhole k waiting pending s fresh e h = h
  spawn_tasks-IsWhole k spawned p s fresh e h = h
  spawn_tasks-IsWhole k calling p s fresh e h = h
  spawn_tasks-IsWhole k in_join p s fresh e h = h
  spawn_tasks-IsWhole k closed p s fresh e h = h

  writer_step-stays :
      (c : ConnConfig) (tick : Bool) (l : Shared rb mp aw)
      → HasWritten l
      → HasWritten (writer_step rb mp aw c tick l)
  unfolding writer_step writer_at
  writer_step-stays c tick l (left, e) = (
    left,
    subst (λ s. (writer_at rb mp aw c tick s l).stage ≡ returned (ok tt) left) (sym e) refl,
  )

  pub writer_polled-Owned :
      (tasks : Tasks) (tick b : Bool) (l : Shared rb mp aw)
      → Owned b l
      → Owned b (writer_polled rt rb mp aw ar cb into tasks tick l)
  unfolding writer_step
  writer_polled-Owned none tick b l h = h
  writer_polled-Owned (some (c, t)) tick true l h =
      let k = writer_step-Keeps rb mp aw (l.ring_buf ∷ []) c tick l h.0 in
      (
        subst (λ i. IsLinked rb mp aw (i ∷ []) (writer_step rb mp aw c tick l)) (sym k.same_own)
            k.linked,
        writer_step-Goes rb mp aw c tick l h.1,
      )
  writer_polled-Owned (some (c, t)) tick false l h = (
    (writer_step-Keeps rb mp aw [] c tick l h.0).linked,
    writer_at-EndsEmpty rb mp aw c tick l.stage l h.1,
  )

  pub writer_polled-HasWritten :
      (tasks : Tasks) (tick : Bool) (l : Shared rb mp aw)
      → HasWritten l
      → HasWritten (writer_polled rt rb mp aw ar cb into tasks tick l)
  writer_polled-HasWritten none tick l h = h
  writer_polled-HasWritten (some (c, t)) tick l h = writer_step-stays c tick l h

  pub reader_at-IsWhole :
      (k : SocketAddr × SocketAddr) (tick : Bool) (tasks : Tasks) (s : This)
      → s.tasks ≡ tasks
      → IsWhole k s
      → Ends (IsWhole k) (reader_at rt rb mp aw ar cb into tick tasks s)
  reader_at-IsWhole k tick none s e h = h
  reader_at-IsWhole k tick (some (c, t)) s e h =
      let faithful : IsFaithful ar (on_msg_write cb) t = subst AreFaithful e h.faithful in
      >>=-Ends
        (λ t'.
          IsFaithful ar (on_msg_write cb) t' × (HasRead (some (c, t)) → HasRead (some (c, t'))))
        (IsWhole k) (reader_step ar (on_msg_write cb) c tick t)
        (λ t'. done (record s { tasks = some (c, t') }))
        (Ends-given (IsFaithful ar (on_msg_write cb)) (λ t'. HasRead (some (c, t'))) _
          (reader_step-IsFaithful ar (on_msg_write cb) c tick t faithful)
          (λ r.
            reader_step-returned ar (on_msg_write cb) (λ t'. HasRead (some (c, t'))) c tick t
              (ok tt) r r))
        (λ t' g. record {
          legal = h.legal;
          owned = h.owned;
          unread = h.unread;
          faithful = g.0;
          remote = λ r. g.1 (subst HasRead e (h.remote r));
          stopped = h.stopped;
          exact = h.exact;
        })

  pub writer_polled-stream :
      (tasks : Tasks) (tick b : Bool) (l : Shared rb mp aw)
      → Owned b l
      → stream rb mp aw (writer_polled rt rb mp aw ar cb into tasks tick l) ≡ stream rb mp aw l
  writer_polled-stream none tick b l h = refl
  writer_polled-stream (some (c, t)) tick true l h =
      (writer_step-Keeps rb mp aw (l.ring_buf ∷ []) c tick l h.0).same_stream
  writer_polled-stream (some (c, t)) tick false l h =
      (writer_step-Keeps rb mp aw [] c tick l h.0).same_stream
