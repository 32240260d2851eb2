-- ===== src/Writer/Serves.antt =====
-- The writer task of src/write.rs as long as the sender is there: it does not come to its end, unless
-- the socket fails.
use socket_manager.Prelude.{
  ℕ, ◌≡◌, refl, ◌∙◌, inl, inr, Bool, false, ◌&&◌, List, [], ◌∷◌, Option, none, some, Bool-cases,
  if_both, ltb,
}
use socket_manager.Std.{Poll, ready, pending, ok, err, IoResult, is_zero}
use socket_manager.Io.{AsyncWrite}
use socket_manager.Ring.{RingBuf}
use socket_manager.Channel.{Mpsc}
use socket_manager.Config.{ConnConfig, min_msg_buffer_size}
use socket_manager.Link.{
  Stage, receiving, shutting, waiting, flushing, returned, After, to_wait, to_recv, make_sender,
}
use socket_manager.MsgSender.{is_empty}
use socket_manager.Writer.{
  Shared, receive, flushed, wrote, flush_at, select_at, wait_at, writer_at, writer_step, writer_run,
}
use socket_manager.Writer.Completion.{EndsEmpty, threshold}

module _ (rb : RingBuf) (mp : Mpsc ℕ) (aw : AsyncWrite) where
  open rb use {cons_is_closed, wait_occupied, occupied_len, as_slices}
  open mp use {Chan, poll_recv, queued, send, sender_gone, recv_sender, recv_over}
  open aw use {poll_write}

  -- The sender is there, and the task is at work, or has failed.
  abbrev pub Serves : Stage → Chan → Type 0
  Serves shutting c = ⊥
  Serves (returned (ok u) left) c = ⊥
  Serves (returned (err e) left) c = Unit
  Serves _ c = sender_gone c ≡ false

  abbrev Goes : Shared rb mp aw → Type 0
  Goes l = Serves l.stage l.chan

  wrote-Goes :
      (p : Poll (IoResult ℕ)) (w : aw.Writer) (after : After) (i : ℕ) (l : Shared rb mp aw)
      → sender_gone l.chan ≡ false
      → Goes (wrote rb mp aw p w after i l)
  unfolding wrote
  wrote-Goes (ready (ok n)) w after i l h = h
  wrote-Goes (ready (err e)) w after i l h = tt
  wrote-Goes pending w after i l h = h

  flushed-Goes :
      (after : After) (i : ℕ) (l : Shared rb mp aw)
      → sender_gone l.chan ≡ false
      → Goes (flushed rb mp aw after i l)
  unfolding flushed
  flushed-Goes to_wait i l h = h
  flushed-Goes to_recv i l h = h

  flush_at-Goes :
      (after : After) (i : ℕ) (l : Shared rb mp aw)
      → sender_gone l.chan ≡ false
      → Goes (flush_at rb mp aw after i l)
  unfolding flush_at
  flush_at-Goes after i l h =
      if_both Goes (is_empty (as_slices (l.rings i)).0) _ _ (flushed-Goes after i l h)
        (wrote-Goes _ _ after i l h)

  receive-Goes :
      (p : Poll (Option ℕ)) (l : Shared rb mp aw)
      → (poll_recv l.chan).0 ≡ p
      → sender_gone l.chan ≡ false
      → Goes (receive rb mp aw p (poll_recv l.chan).1 l)
  unfolding receive
  receive-Goes (ready (some i)) l e h = recv_sender l.chan ∙ h
  receive-Goes (ready none) l e h = let over = recv_over l.chan e in cc
  receive-Goes pending l e h = recv_sender l.chan ∙ h

  wait_at-Goes :
      (i : ℕ) (k : Bool) (l : Shared rb mp aw)
      → sender_gone l.chan ≡ false
      → Goes (wait_at rb mp aw i k l)
  unfolding wait_at
  wait_at-Goes i k l h =
      if_both Goes (wait_occupied min_msg_buffer_size (l.rings i)) _ _
        (if_both Goes (cons_is_closed (l.rings i)) _ _ h h) h

  select_at-Goes :
      (tick : Bool) (i : ℕ) (k : Bool) (l : Shared rb mp aw)
      → sender_gone l.chan ≡ false
      → Goes (select_at rb mp aw tick i k l)
  unfolding select_at
  select_at-Goes tick i k l h =
      if_both Goes (wait_occupied (threshold rb mp aw k) (l.rings i)) _ _
        (if_both Goes (cons_is_closed (l.rings i)) _ _ h
          (if_both Goes (ltb (occupied_len (l.rings i)) min_msg_buffer_size) _ _ h h))
        (if_both Goes (k && tick) _ _ h h)

  writer_at-Goes :
      (c : ConnConfig) (tick : Bool) (s : Stage) (l : Shared rb mp aw)
      → Serves s l.chan
      → Goes (writer_at rb mp aw c tick s l)
  unfolding writer_at
  writer_at-Goes c tick receiving l h = receive-Goes (poll_recv l.chan).0 l refl h
  writer_at-Goes c tick shutting l h = absurd h
  writer_at-Goes c tick (waiting i k) l h = elim (Bool-cases (is_zero c.write_flush_interval)) [
    | inl z ↦ rw z (wait_at-Goes i k l h)
    | inr n ↦ rw n (select_at-Goes tick i k l h)
  ]
  writer_at-Goes c tick (flushing i after) l h = flush_at-Goes after i l h
  writer_at-Goes c tick (returned r left) l h = h

  pub writer_step-Goes :
      (c : ConnConfig) (tick : Bool) (l : Shared rb mp aw)
      → Serves l.stage l.chan
      → Serves (writer_step rb mp aw c tick l).stage (writer_step rb mp aw c tick l).chan
  unfolding writer_step
  writer_step-Goes c tick l h = writer_at-Goes c tick l.stage l h

  pub writer_run-Goes :
      (c : ConnConfig) (ticks : List Bool) (l : Shared rb mp aw)
      → Serves l.stage l.chan
      → Serves (writer_run rb mp aw c ticks l).stage (writer_run rb mp aw c ticks l).chan
  unfolding writer_run
  writer_run-Goes c [] l h = h
  writer_run-Goes c (tick ∷ ticks) l h =
      writer_run-Goes c ticks (writer_step rb mp aw c tick l) (writer_step-Goes c tick l h)

  -- A message keeps the sender.
  pub Serves-send : (i : ℕ) (s : Stage) (c : Chan) → Serves s c → Serves s (send i c).1
  Serves-send i receiving c h = mp.send_sender i c ∙ h
  Serves-send i shutting c h = h
  Serves-send i (waiting j k) c h = mp.send_sender i c ∙ h
  Serves-send i (flushing j after) c h = mp.send_sender i c ∙ h
  Serves-send i (returned (ok u) left) c h = h
  Serves-send i (returned (err e) left) c h = h

  pub Serves-EndsEmpty : (s : Stage) (c : Chan) (q : List ℕ) → Serves s c → EndsEmpty rb mp aw s q
  Serves-EndsEmpty receiving c q h = tt
  Serves-EndsEmpty shutting c q h = absurd h
  Serves-EndsEmpty (waiting j k) c q h = tt
  Serves-EndsEmpty (flushing j after) c q h = tt
  Serves-EndsEmpty (returned (ok u) left) c q h = absurd h
  Serves-EndsEmpty (returned (err e) left) c q h = tt

  pub make_sender-Serves :
      (w : aw.Writer) → Serves (make_sender rb mp aw w).stage (make_sender rb mp aw w).chan
  unfolding make_sender
  make_sender-Serves w = mp.send_sender 0 mp.unbounded_channel ∙ mp.new_sender
