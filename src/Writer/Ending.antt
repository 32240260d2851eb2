-- ===== src/Writer/Ending.antt =====
-- The sender of src/msg_sender.rs is dropped: no further ring will come to the writer task.
use socket_manager.Prelude.{
  ℕ, ◌<◌, ◌≡◌, sym, ap, subst, ◌∙◌, true, List, [], ◌∷◌, ◌++◌, append-nil, arith,
}
use socket_manager.Io.{AsyncWrite}
use socket_manager.Ring.{RingBuf}
use socket_manager.Channel.{Mpsc}
use socket_manager.Link.{
  update, Stage, receiving, shutting, waiting, flushing, returned, held, chain, items_of, stream,
}
use socket_manager.Link.Chain.{All, All-append, Increasing, items_of-update_same}
use socket_manager.Link.Invariant.{
  IsLinked, IsReady, AllClosed, AllClosed-update_closed, Draining-update_closed,
}
use socket_manager.MsgSender.{drop_msg_sender}
use socket_manager.Writer.{Shared}
use socket_manager.Writer.Progress.{IsActive}
use socket_manager.Writer.Completion.{EndsEmpty}

module _ (rb : RingBuf) (mp : Mpsc ℕ) (aw : AsyncWrite) where
  open rb use {Ring, drop_prod, drop_prod_keeps, drop_prod_closes}
  open mp use {queued, sender_gone}
  open aw use {written}

  -- The sender is gone: no ring that is still to be written has a producer, and no further ring will
  -- come.
  pub record IsEnding (l : Shared rb mp aw) : Type 0 where
    pub linked : IsLinked rb mp aw [] l
    pub fine : EndsEmpty rb mp aw l.stage (queued l.chan)
    pub active : IsActive rb mp aw l.stage
    pub closed : AllClosed rb mp aw l.rings (chain rb mp aw l)
    pub gone : sender_gone l.chan ≡ true

  -- The task has not begun to shut the socket down.
  abbrev pub IsWorking : Stage → Type 0
  IsWorking shutting = ⊥
  IsWorking (returned r left) = ⊥
  IsWorking _ = Unit

  IsWorking-IsActive : (s : Stage) → IsWorking s → IsActive rb mp aw s
  IsWorking-IsActive receiving w = tt
  IsWorking-IsActive shutting w = tt
  IsWorking-IsActive (waiting i k) w = tt
  IsWorking-IsActive (flushing i a) w = tt
  IsWorking-IsActive (returned r left) w = w

  IsWorking-fine : (s : Stage) (q : List ℕ) → IsWorking s → EndsEmpty rb mp aw s q
  IsWorking-fine receiving q w = tt
  IsWorking-fine shutting q w = absurd w
  IsWorking-fine (waiting i k) q w = tt
  IsWorking-fine (flushing i a) q w = tt
  IsWorking-fine (returned r left) q w = absurd w

  chain-drop :
      (l : Shared rb mp aw) → chain rb mp aw (drop_msg_sender rb mp aw l) ≡ chain rb mp aw l
  unfolding drop_msg_sender
  chain-drop l = ap (◌++◌ (held rb mp aw l.stage)) (mp.drop_sender_keeps l.chan).0

  pub stream-drop :
      (l : Shared rb mp aw) → stream rb mp aw (drop_msg_sender rb mp aw l) ≡ stream rb mp aw l
  unfolding drop_msg_sender
  stream-drop l =
      let r = drop_prod (l.rings l.ring_buf) in
      ap (◌++◌ (written l.socket)) (
        ap (items_of rb mp aw (update l.rings l.ring_buf r)) (chain-drop l)
        ∙ items_of-update_same rb mp aw l.rings l.ring_buf r (chain rb mp aw l)
            (drop_prod_keeps (l.rings l.ring_buf)))

  module _ (l : Shared rb mp aw) (h : IsReady rb mp aw l) where
    dropped : Ring
    dropped = drop_prod (l.rings l.ring_buf)

    all_closed : AllClosed rb mp aw (update l.rings l.ring_buf dropped) (h.older ++ l.ring_buf ∷ [])
    unfolding dropped
    all_closed =
        let c = drop_prod_closes (l.rings l.ring_buf) in
        All-append _ h.older (l.ring_buf ∷ [])
          (AllClosed-update_closed rb mp aw l.rings l.ring_buf dropped h.older c h.older_closed)
          (ground (arith, c), tt)

    pub drop-IsLinked : IsLinked rb mp aw [] (drop_msg_sender rb mp aw l)
    unfolding drop_msg_sender dropped
    drop-IsLinked =
        let same : chain rb mp aw (drop_msg_sender rb mp aw l) ≡ chain rb mp aw l = chain-drop l in
        record {
          chained = record {
            increasing = subst Increasing (sym same) h.chained.increasing;
            below = subst (All (λ i. i < l.count)) (sym same) h.chained.below;
            draining =
                Draining-update_closed rb mp aw l.rings l.ring_buf dropped l.stage
                  (drop_prod_closes (l.rings l.ring_buf)) h.chained.draining;
          };
          older = h.older ++ l.ring_buf ∷ [];
          newest = same ∙ h.newest ∙ sym (append-nil (h.older ++ l.ring_buf ∷ []));
          older_closed = all_closed;
          are_open = tt;
        }

    pub drop-IsEnding : IsWorking l.stage → IsEnding (drop_msg_sender rb mp aw l)
    unfolding drop_msg_sender dropped
    drop-IsEnding w = record {
      linked = drop-IsLinked;
      fine = IsWorking-fine l.stage _ w;
      active = IsWorking-IsActive l.stage w;
      closed =
          subst (AllClosed rb mp aw (update l.rings l.ring_buf dropped))
            (sym (chain-drop l ∙ h.newest)) all_closed;
      gone = mp.drop_sender_closes l.chan;
    }
