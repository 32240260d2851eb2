-- ===== src/Writer/Completion.antt =====
-- How the writer task of src/write.rs ends: with success only when every byte is written.
use socket_manager.Prelude.{
  ℕ, ◌+◌, ◌*◌, ◌≡◌, refl, sym, ap, ap₂, subst, ◌∙◌, inl, inr, Bool, not, ◌&&◌, List, [], ◌∷◌, ◌++◌,
  append-nil, Option, none, some, Bool-cases, if_both, ltb,
}
use socket_manager.Std.{Poll, ready, pending, ok, err, IoResult, is_zero}
use socket_manager.Io.{AsyncWrite}
use socket_manager.Ring.{RingBuf}
use socket_manager.Channel.{Mpsc}
use socket_manager.Config.{ConnConfig, min_msg_buffer_size}
use socket_manager.Link.{
  Stage, receiving, shutting, waiting, flushing, returned, After, to_wait, to_recv, held, chain,
  items_of, stream,
}
use socket_manager.Link.Invariant.{IsLinked}
use socket_manager.MsgSender.{is_empty}
use socket_manager.Writer.{
  as_usize, Shared, receive, shut, flushed, wrote, flush_at, select_at, wait_at, writer_at,
  writer_step, writer_run,
}
use socket_manager.Writer.Guarantee.{writer_run-Keeps}

module _ (rb : RingBuf) (mp : Mpsc ℕ) (aw : AsyncWrite) where
  open rb use {cons_is_closed, wait_occupied, occupied_len, as_slices}
  open mp use {poll_recv, queued, recv_none, drop_receiver_closes}
  open aw use {written, poll_shutdown, poll_write}

  -- The task shuts the socket down, and returns with success, only behind the last ring.
  abbrev pub EndsEmpty : Stage → List ℕ → Type 0
  EndsEmpty shutting q = q ≡ []
  EndsEmpty (returned (ok u) left) q = (left ≡ []) × (q ≡ [])
  EndsEmpty _ q = Unit

  abbrev Fine : Shared rb mp aw → Type 0
  Fine l = EndsEmpty l.stage (queued l.chan)

  wrote-EndsEmpty :
      (p : Poll (IoResult ℕ)) (w : aw.Writer) (after : After) (i : ℕ) (l : Shared rb mp aw)
      → Fine (wrote rb mp aw p w after i l)
  unfolding wrote
  wrote-EndsEmpty (ready (ok n)) w after i l = tt
  wrote-EndsEmpty (ready (err e)) w after i l = tt
  wrote-EndsEmpty pending w after i l = tt

  flushed-EndsEmpty :
      (after : After) (i : ℕ) (l : Shared rb mp aw) → Fine (flushed rb mp aw after i l)
  unfolding flushed
  flushed-EndsEmpty to_wait i l = tt
  flushed-EndsEmpty to_recv i l = tt

  flush_at-EndsEmpty :
      (after : After) (i : ℕ) (l : Shared rb mp aw) → Fine (flush_at rb mp aw after i l)
  unfolding flush_at
  flush_at-EndsEmpty after i l = elim (Bool-cases (is_empty (as_slices (l.rings i)).0)) [
    | inl e ↦ rw e (flushed-EndsEmpty after i l)
    | inr e ↦ rw e (wrote-EndsEmpty _ _ after i l)
  ]

  receive-EndsEmpty :
      (p : Poll (Option ℕ)) (l : Shared rb mp aw)
      → (poll_recv l.chan).0 ≡ p
      → Fine (receive rb mp aw p (poll_recv l.chan).1 l)
  unfolding receive
  receive-EndsEmpty (ready (some i)) l e = tt
  receive-EndsEmpty (ready none) l e = (recv_none l.chan e).1
  receive-EndsEmpty pending l e = tt

  shut-EndsEmpty :
      (p : Poll (IoResult (Unit {0}))) (w : aw.Writer) (l : Shared rb mp aw)
      → queued l.chan ≡ []
      → Fine (shut rb mp aw p w l)
  unfolding shut
  shut-EndsEmpty (ready (ok u)) w l e = (e, (drop_receiver_closes l.chan).0)
  shut-EndsEmpty (ready (err x)) w l e = tt
  shut-EndsEmpty pending w l e = e

  -- How many bytes the `select!` waits for.
  abbrev pub threshold : Bool → ℕ
  threshold k = as_usize k * min_msg_buffer_size + as_usize (not k)

  wait_at-EndsEmpty : (i : ℕ) (k : Bool) (l : Shared rb mp aw) → Fine (wait_at rb mp aw i k l)
  unfolding wait_at
  wait_at-EndsEmpty i k l =
      if_both Fine (wait_occupied min_msg_buffer_size (l.rings i)) _ _
        (if_both Fine (cons_is_closed (l.rings i)) _ _ tt tt) tt

  select_at-EndsEmpty :
      (tick : Bool) (i : ℕ) (k : Bool) (l : Shared rb mp aw) → Fine (select_at rb mp aw tick i k l)
  unfolding select_at
  select_at-EndsEmpty tick i k l =
      if_both Fine (wait_occupied (threshold k) (l.rings i)) _ _
        (if_both Fine (cons_is_closed (l.rings i)) _ _ tt
          (if_both Fine (ltb (occupied_len (l.rings i)) min_msg_buffer_size) _ _ tt tt))
        (if_both Fine (k && tick) _ _ tt tt)

  pub writer_at-EndsEmpty :
      (c : ConnConfig) (tick : Bool) (s : Stage) (l : Shared rb mp aw)
      → EndsEmpty s (queued l.chan)
      → Fine (writer_at rb mp aw c tick s l)
  unfolding writer_at
  writer_at-EndsEmpty c tick receiving l h = receive-EndsEmpty (poll_recv l.chan).0 l refl
  writer_at-EndsEmpty c tick shutting l h = shut-EndsEmpty _ _ l h
  writer_at-EndsEmpty c tick (waiting i k) l h =
      elim (Bool-cases (is_zero c.write_flush_interval)) [
        | inl z ↦ rw z (wait_at-EndsEmpty i k l)
        | inr n ↦ rw n (select_at-EndsEmpty tick i k l)
      ]
  writer_at-EndsEmpty c tick (flushing i after) l h = flush_at-EndsEmpty after i l
  writer_at-EndsEmpty c tick (returned r left) l h = h

  writer_run-EndsEmpty :
      (c : ConnConfig) (ticks : List Bool) (l : Shared rb mp aw)
      → Fine l
      → Fine (writer_run rb mp aw c ticks l)
  unfolding writer_run writer_step
  writer_run-EndsEmpty c [] l h = h
  writer_run-EndsEmpty c (tick ∷ ticks) l h =
      writer_run-EndsEmpty c ticks (writer_step rb mp aw c tick l)
        (writer_at-EndsEmpty c tick l.stage l h)

  -- A writer that has ended so has written the whole stream.
  pub EndsEmpty-written :
      (l : Shared rb mp aw) (left : List ℕ)
      → Fine l
      → l.stage ≡ returned (ok tt) left
      → written l.socket ≡ stream rb mp aw l
  EndsEmpty-written l left fine e =
      let end : EndsEmpty (returned (ok tt) left) (queued l.chan) =
        subst (λ s. EndsEmpty s (queued l.chan)) e fine in
      let empty : chain rb mp aw l ≡ [] =
        ap (λ s. held rb mp aw s ++ queued l.chan) e ∙ ap₂ ◌++◌ end.0 end.1 in
      sym (append-nil (written l.socket))
      ∙ ap (λ x. written l.socket ++ items_of rb mp aw l.rings x) (sym empty)

  -- If the writer task, left alone, returns with success, then every byte that the sender had put
  -- into rings has been written to the socket, in order.
  pub writer_completes :
      (own : List ℕ) (c : ConnConfig) (ticks : List Bool) (l : Shared rb mp aw) (left : List ℕ)
      → IsLinked rb mp aw own l
      → EndsEmpty l.stage (queued l.chan)
      → (writer_run rb mp aw c ticks l).stage ≡ returned (ok tt) left
      → written (writer_run rb mp aw c ticks l).socket ≡ stream rb mp aw l
  writer_completes own c ticks l left h fine e =
      EndsEmpty-written (writer_run rb mp aw c ticks l) left (writer_run-EndsEmpty c ticks l fine) e
      ∙ (writer_run-Keeps rb mp aw own c ticks l h).same_stream
