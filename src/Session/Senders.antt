-- ===== src/Session/Senders.antt =====
-- The sender's calls and its drop in a connection of src/conn_handle.rs, while the writer task runs.
use socket_manager.Prelude.{
  ℕ, ◌≡◌, refl, sym, subst, Bool, true, false, List, Option, none, some, [], ◌++◌, ◌∙◌, append-nil,
  ap,
}
use socket_manager.Std
use socket_manager.Std.{
  Poll, Result, ok, err, IoResult, Run, done, ◌>>=◌, Ends, Ends-map, >>=-Ends, IfEnds, >>=-IfEnds,
  Ends-IfEnds,
}
use socket_manager.Io.{AsyncRead, AsyncWrite}
use socket_manager.OnMsgWrite
use socket_manager.Ring.{RingBuf}
use socket_manager.Channel.{Mpsc}
use socket_manager.Config.{ConnConfig}
use socket_manager.Link.Invariant.{IsReady}
use socket_manager.MsgSender.{send_nonblock, send_async, flush, drop_msg_sender}
use socket_manager.MsgSender.Bursts.{IsWriter}
use socket_manager.MsgSender.Served.{IsServed, send_nonblock-Holds, send_async-Holds, flush-Holds}
use socket_manager.MsgSender.Sends.{Sent, HasFlushed, send_nonblock-Sent, flush_lem}
use socket_manager.MsgSender.Async.{Takes, send_async-Takes}
use socket_manager.Link.{stream}
use socket_manager.Writer.{Shared}
use socket_manager.Writer.Guarantee.{writer_run-IsWriter}
use socket_manager.Writer.Serves.{Serves, Serves-send, Serves-EndsEmpty, writer_run-Goes}
use socket_manager.Writer.Ending.{drop-IsLinked, stream-drop}
use socket_manager.ConnState.{Runtime}
use socket_manager.Session.{
  Send, nonblock, async_poll, flushes, Reads, Session, meanwhile, nonblock_accepts, async_accepts,
  send_with, noted, send_at, drop_at,
}
use socket_manager.Session.Whole.{IsWhole, Owned, HasWritten}

module _ (rb : RingBuf) (mp : Mpsc ℕ) (aw : AsyncWrite) where
  -- The sender is ready, and the stream has what the call says that it accepted.
  abbrev Adds : Shared rb mp aw → Option (List Std.Byte) × Shared rb mp aw → Type 0
  Adds l (some bytes, l') = IsReady rb mp aw l' × (stream rb mp aw l' ≡ stream rb mp aw l ++ bytes)
  Adds l (none, l') = IsReady rb mp aw l'

module _ (rt : Runtime) (rb : RingBuf) (mp : Mpsc ℕ) (aw : AsyncWrite) (ar : AsyncRead)
    (cb : OnMsgWrite.OnMsg) (into : rt.OnMsg → cb.State) where
  abbrev Tasks : Type 0
  Tasks = Option (ConnConfig × Reads rt rb mp aw ar cb into)

  abbrev while_at : Tasks → (ℕ → List Bool) → ℕ → Shared rb mp aw → Shared rb mp aw
  while_at tasks ticks = meanwhile rt rb mp aw ar cb into tasks ticks

  while_at-IsWriter :
      (tasks : Tasks) (ticks : ℕ → List Bool) → IsWriter rb mp aw (while_at tasks ticks)
  while_at-IsWriter none ticks = record {
    keeps = λ n own l h. h;
    keeps_stream = λ n own l h. refl;
    keeps_own = λ n own l h. refl;
  }
  while_at-IsWriter (some (c, t)) ticks = writer_run-IsWriter rb mp aw c ticks

  while_at-IsServed :
      (tasks : Tasks) (ticks : ℕ → List Bool)
      → IsServed rb mp aw (Serves rb mp aw) (while_at tasks ticks)
  while_at-IsServed none ticks = record { sends = Serves-send rb mp aw; turns = λ n l h. h }
  while_at-IsServed (some (c, t)) ticks = record {
    sends = Serves-send rb mp aw;
    turns = λ n l h. writer_run-Goes rb mp aw c (ticks n) l h;
  }

  Adds-Sent :
      (l : Shared rb mp aw) (bytes : List Std.Byte) (out : IoResult (Unit {0}) × Shared rb mp aw)
      → Sent rb mp aw l bytes out
      → Adds rb mp aw l (nonblock_accepts rt rb mp aw ar cb into bytes out.0, out.1)
  Adds-Sent l bytes (ok u, l') h = h
  Adds-Sent l bytes (err e, l') h = h.0

  module _ (env : ℕ → Shared rb mp aw → Shared rb mp aw) (w : IsWriter rb mp aw env) where
    Adds-Takes :
        (l : Shared rb mp aw) (bytes : List Std.Byte) (out : Poll (IoResult ℕ) × Shared rb mp aw)
        → Takes rb mp aw env w l bytes out
        → Adds rb mp aw l (async_accepts rt rb mp aw ar cb into bytes out.0, out.1)
    Adds-Takes l bytes (Poll.ready (ok n), l') h = h
    Adds-Takes l bytes (Poll.ready (err e), l') h =
        (h.0, h.1 ∙ sym (append-nil (stream rb mp aw l)))
    Adds-Takes l bytes (Poll.pending, l') h = (h.0, h.1 ∙ sym (append-nil (stream rb mp aw l)))

    Adds-HasFlushed :
        (l : Shared rb mp aw) (out : IoResult (Unit {0}) × Shared rb mp aw)
        → HasFlushed rb mp aw env w l out
        → Adds rb mp aw l (some [], out.1)
    Adds-HasFlushed l out h = (h.0, h.1 ∙ sym (append-nil (stream rb mp aw l)))

  abbrev Goes : Shared rb mp aw → Option (List Std.Byte) × Shared rb mp aw → Type 0
  Goes l out = Adds rb mp aw l out × Serves rb mp aw out.1.stage out.1.chan

  -- A call and its answer: the sender stays ready, and the writer at work.
  answered :
      {A : Type 0} (l : Shared rb mp aw) (m : Run (A × Shared rb mp aw))
      (f : A → Option (List Std.Byte))
      → Ends (λ out. Adds rb mp aw l (f out.0, out.1)) m
      → IfEnds (λ out. Serves rb mp aw out.1.stage out.1.chan) m
      → Ends (Goes l) (m >>= λ out. done (f out.0, out.1))
  answered l (done out) f r s = (r, s)
  answered l Run.panics f r s = r
  answered l Run.out_of_fuel f r s = r

  send_with-Goes :
      (tasks : Tasks) (ticks : ℕ → List Bool) (call : Send) (l : Shared rb mp aw)
      → Owned rt rb mp aw ar cb into true l
      → Ends (Goes l) (send_with rt rb mp aw ar cb into (while_at tasks ticks) call l)
  send_with-Goes tasks ticks (nonblock bytes) l h =
      let env = while_at tasks ticks in
      answered l (send_nonblock rb mp aw env bytes l)
        (nonblock_accepts rt rb mp aw ar cb into bytes)
        (Ends-map (Adds-Sent l bytes) _
          (send_nonblock-Sent rb mp aw env (while_at-IsWriter tasks ticks) bytes l h.0))
        (send_nonblock-Holds rb mp aw (Serves rb mp aw) env (while_at-IsServed tasks ticks) bytes l
          h.1)
  send_with-Goes tasks ticks (async_poll bytes) l h =
      let env = while_at tasks ticks in
      let w = while_at-IsWriter tasks ticks in
      answered l (send_async rb mp aw env bytes l) (async_accepts rt rb mp aw ar cb into bytes)
        (Ends-map (Adds-Takes env w l bytes) _ (send_async-Takes rb mp aw env w bytes l h.0))
        (send_async-Holds rb mp aw (Serves rb mp aw) env (while_at-IsServed tasks ticks) bytes l
          h.1)
  send_with-Goes tasks ticks flushes l h =
      let env = while_at tasks ticks in
      let w = while_at-IsWriter tasks ticks in
      answered l (flush rb mp aw env l) (λ r. some [])
        (Ends-map (Adds-HasFlushed env w l) _ (flush_lem rb mp aw env w l h.0))
        (flush-Holds rb mp aw (Serves rb mp aw) env (while_at-IsServed tasks ticks) l h.1)

  -- The writer has not returned with success.
  pub unwritten :
      (l : Shared rb mp aw)
      → Owned rt rb mp aw ar cb into true l
      → HasWritten rt rb mp aw ar cb into l
      → ⊥
  unwritten l h (left, e) = subst (λ s. Serves rb mp aw s l.chan) e h.1

  sender-Owned :
      (k : rt.SocketAddr × rt.SocketAddr) (s : Session rt rb mp aw ar cb into)
      → s.is_sending ≡ true
      → IsWhole rt rb mp aw ar cb into k s
      → Owned rt rb mp aw ar cb into true s.link
  sender-Owned k s e h = subst (λ b. Owned rt rb mp aw ar cb into b s.link) e h.owned

  noted-IsWhole :
      (k : rt.SocketAddr × rt.SocketAddr) (s : Session rt rb mp aw ar cb into)
      (out : Option (List Std.Byte) × Shared rb mp aw)
      → s.is_sending ≡ true
      → IsWhole rt rb mp aw ar cb into k s
      → Goes s.link out
      → IsWhole rt rb mp aw ar cb into k (noted rt rb mp aw ar cb into s out)
  noted-IsWhole k s (some bytes, l) e h g = record {
    legal = h.legal;
    owned = subst (λ b. Owned rt rb mp aw ar cb into b l) (sym e) (g.0.0, g.1);
    unread = h.unread;
    faithful = h.faithful;
    remote = h.remote;
    stopped = λ w. absurd (unwritten s.link (sender-Owned k s e h) (h.stopped w));
    exact = λ n. g.0.1 ∙ ap (λ x. x ++ bytes) (h.exact n);
  }
  noted-IsWhole k s (none, l) e h g = record {
    legal = h.legal;
    owned = subst (λ b. Owned rt rb mp aw ar cb into b l) (sym e) (g.0, g.1);
    unread = h.unread;
    faithful = h.faithful;
    remote = h.remote;
    stopped = λ w. absurd (unwritten s.link (sender-Owned k s e h) (h.stopped w));
    exact = λ n. cc;
  }

  pub send_at-IsWhole :
      (k : rt.SocketAddr × rt.SocketAddr) (b : Bool) (call : Send) (ticks : ℕ → List Bool)
      (s : Session rt rb mp aw ar cb into)
      → s.is_sending ≡ b
      → IsWhole rt rb mp aw ar cb into k s
      → Ends (IsWhole rt rb mp aw ar cb into k) (send_at rt rb mp aw ar cb into b call ticks s)
  send_at-IsWhole k false call ticks s e h = h
  send_at-IsWhole k true call ticks s e h =
      let owned = sender-Owned k s e h in
      >>=-Ends (Goes s.link) (IsWhole rt rb mp aw ar cb into k)
        (send_with rt rb mp aw ar cb into (while_at s.tasks ticks) call s.link)
        (λ out. done (noted rt rb mp aw ar cb into s out))
        (send_with-Goes s.tasks ticks call s.link owned) (λ out g. noted-IsWhole k s out e h g)

  pub drop_at-IsWhole :
      (k : rt.SocketAddr × rt.SocketAddr) (b : Bool) (s : Session rt rb mp aw ar cb into)
      → s.is_sending ≡ b
      → IsWhole rt rb mp aw ar cb into k s
      → IsWhole rt rb mp aw ar cb into k (drop_at rt rb mp aw ar cb into b s)
  unfolding drop_msg_sender
  drop_at-IsWhole k false s e h = h
  drop_at-IsWhole k true s e h =
      let owned = sender-Owned k s e h in
      record {
        legal = h.legal;
        owned = (
          drop-IsLinked rb mp aw s.link owned.0,
          Serves-EndsEmpty rb mp aw s.link.stage s.link.chan _ owned.1,
        );
        unread = h.unread;
        faithful = h.faithful;
        remote = h.remote;
        stopped = λ w. absurd (unwritten s.link owned (h.stopped w));
        exact = λ n. stream-drop rb mp aw s.link ∙ h.exact n;
      }
