-- ===== src/Session/Life.antt =====
-- A connection of src/conn_handle.rs comes to its end: its reader and its writer do, and its task sees it.
use socket_manager.Prelude.{
  ℕ, ◌+◌, ◌≤◌, ◌≡◌, refl, sym, subst, Bool, true, false, List, [], ◌∷◌, ◌++◌, Option, none, some,
  length, ◌∙◌,
}
use socket_manager.Std.{ok, Run, done, ◌>>=◌, Ends, >>=-Ends}
use socket_manager.Io.{AsyncRead, AsyncWrite, TakesSome, HasFinite}
use socket_manager.OnMsgWrite
use socket_manager.OnMsgWrite.{on_msg_write}
use socket_manager.Ring.{RingBuf}
use socket_manager.Channel.{Mpsc}
use socket_manager.Config.{ConnConfig}
use socket_manager.Link.{returned, stream}
use socket_manager.MsgSender.{drop_msg_sender}
use socket_manager.Writer.Progress.{IsEager}
use socket_manager.Writer.Ending.{IsWorking}
use socket_manager.Writer.Returns.{need, drop_delivers}
use socket_manager.Reader
use socket_manager.Reader.{reader_run}
use socket_manager.Reader.Delivery.{IsFaithful}
use socket_manager.Reader.Returns.{run-Delivers}
use socket_manager.BufReadWrite.{fresh}
use socket_manager.Link.Invariant.{IsReady}
use socket_manager.ConnState.{Runtime, ConnectionState}
use socket_manager.ConnHandle.{in_join, conn_run}
use socket_manager.Session.{Reads, Session, session_new, Act, drops, session_step, session_run}
use socket_manager.Session.Whole.{IsWhole, Owned, AreFaithful}
use socket_manager.Session.Truth.{HasDelivered, session-IsWhole}
use socket_manager.Session.Turns.{
  Turn, reader_ticks, writer_ticks, polls_of, polls_of-splits, session_run-append, ended,
}
use socket_manager.Session.Awaits.{both, ClosedFrom, both_joined, awaits_of, awaits_are_joins}

module _ (rt : Runtime) (rb : RingBuf) (mp : Mpsc ℕ) (aw : AsyncWrite) (ar : AsyncRead)
    (cb : OnMsgWrite.OnMsg) (into : rt.OnMsg → cb.State) where
  abbrev This : Type 0
  This = Session rt rb mp aw ar cb into

  abbrev run : List (Act rt) → This → Run This
  run acts s = session_run rt rb mp aw ar cb into acts s

  abbrev pub HasReadOn : HasFinite ar → Option (ConnConfig × Reads rt rb mp aw ar cb into) → Type 0
  HasReadOn finite none = ⊥
  HasReadOn finite (some (c, t)) = finite.left t.read_write.reader ≡ 0

  module _ (eager : IsEager rb mp aw) (finite : HasFinite ar)
      (takes : TakesSome (on_msg_write cb)) where
    -- Closed, with everything delivered: what was accepted until `s`, and what the socket had to give.
    pub record HasEnded (s s' : This) : Type 0 where
      pub closed_from : ClosedFrom rt s.conn s'.conn
      pub sent : s.has_failed ≡ false → aw.written s'.link.socket ≡ s.accepted
      pub taken : HasDelivered rt rb mp aw ar cb into s'.tasks
      pub read_on : HasReadOn finite s'.tasks

    abbrev Ended : Reads rt rb mp aw ar cb into → Type 0
    Ended t' =
        (t'.stage ≡ Reader.returned (ok tt))
        × (finite.left t'.read_write.reader ≡ 0)
        × (cb.taken t'.read_write.writer ≡ ar.received t'.read_write.reader)

    -- What the polls of both tasks leave.
    abbrev After : ConnConfig → List Bool → This → This → Type 0
    After c ticks s s' =
        (t' : Reads rt rb mp aw ar cb into) × Ended t'
        × (s' ≡ ended rt rb mp aw ar cb into c ticks s t')

    -- The last step: both tasks have returned, and are joined.
    awaits-HasEnded :
        (order : Bool) (s : This) (c : ConnConfig) (t : Reads rt rb mp aw ar cb into) (s' : This)
        (left : List ℕ)
        → s'.link.stage ≡ returned (ok tt) left
        → s'.tasks ≡ some (c, t)
        → Ended t
        → s'.conn ≡ s.conn
        → (s.has_failed ≡ false → aw.written s'.link.socket ≡ s.accepted)
        → s.conn.stage ≡ in_join
        → s.conn.join.writer_stopped ≡ false
        → s.conn.join.reader_stopped ≡ false
        → Ends (HasEnded s) (run (awaits_of rt order) s')
    awaits-HasEnded order s c t s' left st e h same sent i w r =
        subst (Ends (HasEnded s))
          (sym (awaits_are_joins rt rb mp aw ar cb into order s' c t left st e h.0))
          (>>=-Ends (ClosedFrom rt s.conn) (HasEnded s) (conn_run rt (both rt order) s'.conn)
            (λ c'. done (record s' { conn = c' }))
            (subst (λ x. Ends (ClosedFrom rt s.conn) (conn_run rt (both rt order) x)) (sym same)
              (both_joined rt order s.conn i w r))
            (λ c' k. record {
              closed_from = k;
              sent = sent;
              taken = subst (HasDelivered rt rb mp aw ar cb into) (sym e) (h.0, h.2);
              read_on = subst (HasReadOn finite) (sym e) h.1;
            }))

    session_ends_at :
        (turns : List Turn) (order : Bool) (c : ConnConfig) (t : Reads rt rb mp aw ar cb into)
        (s : This)
        → IsReady rb mp aw s.link
        → (s.has_failed ≡ false → stream rb mp aw s.link ≡ s.accepted)
        → IsWorking rb mp aw s.link.stage
        → s.conn.stage ≡ in_join
        → s.conn.join.writer_stopped ≡ false
        → s.conn.join.reader_stopped ≡ false
        → t.stage ≡ Reader.filling fresh
        → IsFaithful ar (on_msg_write cb) t
        → finite.left t.read_write.reader + 2 ≤ length (reader_ticks turns)
        → need rb mp aw (drop_msg_sender rb mp aw s.link) ≤ length (writer_ticks turns)
        → Ends (HasEnded s) (
            run
              (drops ∷ polls_of rt turns ++ awaits_of rt order)
              (record s { tasks = some (c, t); is_sending = true }))
    unfolding session_run session_step
    session_ends_at turns order c t s ready exact working e w r filling faithful reads writes =
        let s₁ = record s {
          tasks = some (c, t);
          is_sending = false;
          link = drop_msg_sender rb mp aw s.link;
        } in
        let out = drop_delivers rb mp aw eager c (writer_ticks turns) s.link ready working writes in
        subst (Ends (HasEnded s))
          (sym
            (session_run-append rt rb mp aw ar cb into (polls_of rt turns) (awaits_of rt order) s₁))
          (subst (λ m. Ends (HasEnded s) (m >>= run (awaits_of rt order)))
            (sym (polls_of-splits rt rb mp aw ar cb into turns c t s₁))
            (>>=-Ends (After c (writer_ticks turns) s₁) (HasEnded s) _ (run (awaits_of rt order))
              (>>=-Ends Ended (After c (writer_ticks turns) s₁)
                (reader_run ar (on_msg_write cb) c (reader_ticks turns) t) _
                (run-Delivers ar (on_msg_write cb) finite takes c (reader_ticks turns) t filling
                  faithful reads)
                (λ t' h. (t', h, refl)))
              (λ s₂ h.
                subst (λ x. Ends (HasEnded s) (run (awaits_of rt order) x)) (sym h.2)
                  (awaits-HasEnded order s c h.0
                    (ended rt rb mp aw ar cb into c (writer_ticks turns) s₁ h.0) out.0.0 out.0.1
                    refl h.1 refl (λ n. out.1 ∙ exact n) e w r))))

    -- A connection over a socket that takes some bytes at each poll and can be shut down, and that has
    -- finitely many bytes to read, with a callback that takes some bytes at each call. Whatever
    -- led to a state `s` in which it is started, neither task is joined, the writer is at work and the reader is
    -- about to read: the sender is dropped, and the reader and the writer are polled in any
    -- order, with whatever timers, the reader as often as there are bytes to read and twice more, the
    -- writer `need` times; then `join_reader_writer` sees the two ends in either order. Nothing
    -- panics, the connection is closed, and the last events are `OnRemoteClose` and
    -- `OnConnectionClose`. If no call of `send_nonblock` has failed, exactly what the sender's
    -- calls said they accepted is written to the socket; the socket is read to its end, and the
    -- callback has taken all of it, in order.
    pub session_ends :
        (local_addr peer_addr : rt.SocketAddr) (state : ConnectionState rt) (write : aw.Writer)
        (read : ar.Reader) (acts : List (Act rt)) (turns : List Turn) (order : Bool)
        (c : ConnConfig) (t : Reads rt rb mp aw ar cb into) (s : This)
        → ((f : rt.OnMsg) → cb.taken (into f) ≡ [])
        → ar.received read ≡ []
        → run acts (session_new rt rb mp aw ar cb into local_addr peer_addr state write read)
          ≡ done s
        → s.is_sending ≡ true
        → IsWorking rb mp aw s.link.stage
        → s.conn.stage ≡ in_join
        → s.conn.join.writer_stopped ≡ false
        → s.conn.join.reader_stopped ≡ false
        → s.tasks ≡ some (c, t)
        → t.stage ≡ Reader.filling fresh
        → finite.left t.read_write.reader + 2 ≤ length (reader_ticks turns)
        → need rb mp aw (drop_msg_sender rb mp aw s.link) ≤ length (writer_ticks turns)
        → Ends (HasEnded s) (run (drops ∷ polls_of rt turns ++ awaits_of rt order) s)
    session_ends local_addr peer_addr state write read acts turns order c t s untaken unread before
          sending working i w r e filling reads writes =
        let life : List (Act rt) = drops ∷ polls_of rt turns ++ awaits_of rt order in
        let h : IsWhole rt rb mp aw ar cb into (local_addr, peer_addr) s =
          subst (Ends (IsWhole rt rb mp aw ar cb into (local_addr, peer_addr))) before (
            session-IsWhole rt rb mp aw ar cb into local_addr peer_addr state write read acts
              untaken unread) in
        let ready = subst (λ b. Owned rt rb mp aw ar cb into b s.link) sending h.owned in
        let faithful = subst (AreFaithful rt rb mp aw ar cb into) e h.faithful in
        subst (λ b. Ends (HasEnded s) (run life (record s { is_sending = b }))) (sym sending)
          (subst (λ x. Ends (HasEnded s) (run life (record s { tasks = x; is_sending = true })))
            (sym e)
            (session_ends_at turns order c t s ready.0 h.exact working i w r filling faithful reads
              writes))
