-- ===== src/Writer/Returns.antt =====
-- The writer task of src/write.rs comes to its end: once the sender is gone, it writes what is left
-- and returns.
use socket_manager.Prelude.{
  ℕ, ◌+◌, ◌≤◌, ◌<◌, ◌≡◌, refl, sym, ap, subst, ◌∙◌, ◌⊎◌, inl, inr, Bool, List, [], ◌∷◌, length,
  length-append, arith,
}
use socket_manager.Std.{ok}
use socket_manager.Io.{AsyncWrite}
use socket_manager.Ring.{RingBuf}
use socket_manager.Channel.{Mpsc}
use socket_manager.Config.{ConnConfig}
use socket_manager.Link.{
  Stage, receiving, shutting, waiting, flushing, returned, to_wait, to_recv, chain, items_of,
  stream,
}
use socket_manager.Link.Invariant.{IsReady}
use socket_manager.MsgSender.{drop_msg_sender}
use socket_manager.Writer.{Shared, writer_at, writer_step, writer_run}
use socket_manager.Writer.Progress.{IsEager, IsActive, weight, rounds, IsDone, writer_at-Outcome}
use socket_manager.Writer.Ending.{IsEnding, IsWorking, stream-drop, drop-IsEnding}
use socket_manager.Writer.Guarantee.{writer_step-Keeps}
use socket_manager.Writer.Completion.{writer_at-EndsEmpty, writer_completes}

module _ (rb : RingBuf) (mp : Mpsc ℕ) (aw : AsyncWrite) where
  open mp use {queued}
  open aw use {written}

  -- How many steps are needed: some for each stage and each ring that waits, and one for each byte.
  abbrev pub need : Shared rb mp aw → ℕ
  need l = rounds rb mp aw l + length (items_of rb mp aw l.rings (chain rb mp aw l))

  module _ (eager : IsEager rb mp aw) where
    -- A step ends the task, or brings it nearer to its end.
    writer_step-nearer :
        (c : ConnConfig) (tick : Bool) (l : Shared rb mp aw)
        → IsEnding rb mp aw l
        → let l' = writer_step rb mp aw c tick l in
          IsDone rb mp aw l' ⊎ (IsEnding rb mp aw l' × (need l' < need l))
    unfolding writer_step
    writer_step-nearer c tick l h =
        let l' = writer_step rb mp aw c tick l in
        let k = writer_step-Keeps rb mp aw [] c tick l h.linked in
        elim (writer_at-Outcome rb mp aw eager c tick l.stage l h.active h.closed h.gone) [
          | inl done ↦ inl done
          | inr go ↦
              let before = items_of rb mp aw l.rings (chain rb mp aw l) in
              let after = items_of rb mp aw l'.rings (chain rb mp aw l') in
              let same : length (written l'.socket) + length after
                  ≡ length (written l.socket) + length before =
                sym (length-append (written l'.socket) after)
                ∙ ap length k.same_stream
                ∙ length-append (written l.socket) before in
              inr (
                record {
                  linked = k.linked;
                  fine = writer_at-EndsEmpty rb mp aw c tick l.stage l h.fine;
                  active = go.active;
                  closed = go.closed;
                  gone = go.gone;
                },
                omega (arith, same, go.more, go.cheaper),
              )
        ]

    stays-IsDone :
        (c : ConnConfig) (ticks : List Bool) (l : Shared rb mp aw)
        → IsDone rb mp aw l
        → IsDone rb mp aw (writer_run rb mp aw c ticks l)
    unfolding writer_run writer_step writer_at
    stays-IsDone c [] l d = d
    stays-IsDone c (tick ∷ ticks) l d = stays-IsDone c ticks (writer_step rb mp aw c tick l) (
      d.0,
      subst (λ s. (writer_at rb mp aw c tick s l).stage ≡ returned (ok tt) d.0) (sym d.1) refl,
    )

    need_pos : (l : Shared rb mp aw) → IsActive rb mp aw l.stage → 0 < need l
    need_pos l a = omega (arith, weight_pos l.stage a)
      where
        weight_pos : (s : Stage) → IsActive rb mp aw s → 0 < weight rb mp aw s
        weight_pos receiving a = omega arith
        weight_pos shutting a = omega arith
        weight_pos (waiting i k) a = omega arith
        weight_pos (flushing i to_wait) a = omega arith
        weight_pos (flushing i to_recv) a = omega arith
        weight_pos (returned r left) a = absurd a

    writer_run-IsDone :
        (c : ConnConfig) (ticks : List Bool) (l : Shared rb mp aw)
        → IsEnding rb mp aw l
        → need l ≤ length ticks
        → IsDone rb mp aw (writer_run rb mp aw c ticks l)
    unfolding writer_run
    writer_run-IsDone c [] l h le = absurd (omega (arith, need_pos l h.active))
    writer_run-IsDone c (tick ∷ ticks) l h le = elim (writer_step-nearer c tick l h) [
      | inl done ↦ stays-IsDone c ticks (writer_step rb mp aw c tick l) done
      | inr next ↦
          writer_run-IsDone c ticks (writer_step rb mp aw c tick l) next.0 (omega (arith, next.1))
    ]

    writer_returns :
        (c : ConnConfig) (ticks : List Bool) (l : Shared rb mp aw)
        → IsEnding rb mp aw l
        → need l ≤ length ticks
        → let l' = writer_run rb mp aw c ticks l in
          ((left : List ℕ) × (l'.stage ≡ returned (ok tt) left))
          × (written l'.socket ≡ stream rb mp aw l)
    writer_returns c ticks l h le =
        let d = writer_run-IsDone c ticks l h le in
        (d, writer_completes rb mp aw [] c ticks l d.0 h.linked h.fine d.1)

    -- Whenever the sender is dropped, while the writer task is at work, and the socket takes some bytes at each
    -- poll: the task returns with success within `need` steps (a few for each ring that waits,
    -- and at most one for each byte), whatever the timer says, and every byte that was sent before
    -- has then been written to the socket, in order.
    pub drop_delivers :
        (c : ConnConfig) (ticks : List Bool) (l : Shared rb mp aw)
        → IsReady rb mp aw l
        → IsWorking rb mp aw l.stage
        → need (drop_msg_sender rb mp aw l) ≤ length ticks
        → let l' = writer_run rb mp aw c ticks (drop_msg_sender rb mp aw l) in
          ((left : List ℕ) × (l'.stage ≡ returned (ok tt) left))
          × (written l'.socket ≡ stream rb mp aw l)
    drop_delivers c ticks l h w le =
        let out =
          writer_returns c ticks (drop_msg_sender rb mp aw l) (drop-IsEnding rb mp aw l h w) le in
        (out.0, out.1 ∙ stream-drop rb mp aw l)
