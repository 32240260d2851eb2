-- ===== src/MsgSender/Handover.antt =====
-- The hand-over of a new ring in `send_nonblock` and `flush` of src/msg_sender.rs: the ring is sent
-- before the old one is closed, so the writer task sees both, in order.
use socket_manager.Prelude.{
  ℕ, ◌+◌, ◌<◌, ◌≡◌, refl, sym, ap, subst, ◌∙◌, ◌≢◌, inl, inr, true, false, String, List, [], ◌∷◌,
  ◌++◌, append_assoc, arith, Bool-cases,
}
use socket_manager.Std.{Byte, ok, err, IoResult, Ends}
use socket_manager.Io.{AsyncWrite}
use socket_manager.Ring.{RingBuf}
use socket_manager.Channel.{Mpsc}
use socket_manager.Link.{update, held, chain, items_of, stream}
use socket_manager.Link.Chain.{
  All, All-map, All-append, All-left, All-right, Increasing, Increasing-append, Increasing-last,
  items_of-update_ne, items_of-update_last, items_of-update_same,
}
use socket_manager.Link.Invariant.{
  IsChained, IsLinked, IsReady, IsLinked-later, Draining-update_ne, Draining-update_closed,
  AllClosed, AllClosed-update_ne, AllClosed-update_closed,
}
use socket_manager.MsgSender.{
  Shared, closed_error, own_ring, new_ring, send_ring, replace_ring, turn, hand_over_at, hand_over,
}
use socket_manager.MsgSender.Bursts.{IsWriter}

module _ (rb : RingBuf) (mp : Mpsc ℕ) (aw : AsyncWrite) where
  open rb use {Ring, items, cons_is_closed, drop_prod, drop_prod_keeps, drop_prod_closes}
  open mp use {send, queued, receiver_gone, send_ok, send_refused}
  open aw use {written}

  -- A number that was not given out is not in the chain.
  unused : (l : Shared rb mp aw) → IsChained rb mp aw l → All (λ i. i ≢ l.count) (chain rb mp aw l)
  unused l h = All-map (chain rb mp aw l) (λ i k. omega arith) h.below

  module _ (l : Shared rb mp aw) (r : Ring) (h : IsReady rb mp aw l) where
    sent : Shared rb mp aw
    sent = send_ring rb mp aw l.count (new_ring rb mp aw r l)

    -- The ring of the sender has a number below the new one.
    own_below : l.ring_buf < l.count
    own_below =
        (All-right (λ i. i < l.count) h.older (l.ring_buf ∷ [])
          (subst (All (λ i. i < l.count)) h.newest h.chained.below)).0

    older_kept : AllClosed rb mp aw sent.rings h.older
    unfolding sent
    older_kept =
        AllClosed-update_ne rb mp aw l.rings l.count r h.older
          (All-left (λ i. i ≢ l.count) h.older (l.ring_buf ∷ [])
            (subst (All (λ i. i ≢ l.count)) h.newest (unused l h.chained)))
          h.older_closed

    module _ (q : queued (send l.count l.chan).1 ≡ queued l.chan ++ l.count ∷ []) where
      chain-sent : chain rb mp aw sent ≡ chain rb mp aw l ++ l.count ∷ []
      unfolding sent
      chain-sent =
          ap (◌++◌ (held rb mp aw l.stage)) q
          ∙ sym (append_assoc (held rb mp aw l.stage) (queued l.chan) (l.count ∷ []))

      stream-sent : stream rb mp aw sent ≡ stream rb mp aw l ++ items r
      unfolding sent
      stream-sent =
          ap (◌++◌ (written l.socket)) (
            ap (items_of rb mp aw (update l.rings l.count r)) chain-sent
            ∙ items_of-update_last rb mp aw l.rings l.count r (chain rb mp aw l)
                (Increasing-append (chain rb mp aw l) l.count h.chained.increasing h.chained.below))
          ∙ sym (
              append_assoc (written l.socket) (items_of rb mp aw l.rings (chain rb mp aw l))
                (items r))

      IsLinked-sent : cons_is_closed r ≢ true → IsLinked rb mp aw (l.ring_buf ∷ l.count ∷ []) sent
      unfolding sent
      IsLinked-sent open_ring = record {
        chained = record {
          increasing =
              subst Increasing (sym chain-sent)
                (Increasing-append (chain rb mp aw l) l.count h.chained.increasing h.chained.below);
          below = subst (All (λ i. i < l.count + 1)) (sym chain-sent) (
              All-append (λ i. i < l.count + 1) (chain rb mp aw l) (l.count ∷ [])
                (All-map (chain rb mp aw l) (λ i k. omega arith) h.chained.below)
                (omega arith, tt));
          draining =
              Draining-update_ne rb mp aw l.rings l.count r l.stage
                (All-left (λ i. i ≢ l.count) (held rb mp aw l.stage) (queued l.chan)
                  (unused l h.chained))
                h.chained.draining;
        };
        older = h.older;
        newest =
            chain-sent
            ∙ ap (λ x. x ++ l.count ∷ []) h.newest
            ∙ append_assoc h.older (l.ring_buf ∷ []) (l.count ∷ []);
        older_closed = older_kept;
        are_open = (ground (arith, own_below, h.are_open.0), (ground (arith, open_ring), tt));
      }

    -- The ring was refused: it is on the heap, and nobody reads it.
    module _ (q : queued (send l.count l.chan).1 ≡ queued l.chan) where
      chain-refused : chain rb mp aw sent ≡ chain rb mp aw l
      unfolding sent
      chain-refused = ap (◌++◌ (held rb mp aw l.stage)) q

      stream-refused : stream rb mp aw sent ≡ stream rb mp aw l
      unfolding sent
      stream-refused = ap (◌++◌ (written l.socket)) (
          ap (items_of rb mp aw (update l.rings l.count r)) chain-refused
          ∙ items_of-update_ne rb mp aw l.rings l.count r (chain rb mp aw l) (unused l h.chained))

      IsReady-refused : IsReady rb mp aw sent
      unfolding sent
      IsReady-refused = record {
        chained = record {
          increasing = subst Increasing (sym chain-refused) h.chained.increasing;
          below =
              subst (All (λ i. i < l.count + 1)) (sym chain-refused)
                (All-map (chain rb mp aw l) (λ i k. omega arith) h.chained.below);
          draining =
              Draining-update_ne rb mp aw l.rings l.count r l.stage
                (All-left (λ i. i ≢ l.count) (held rb mp aw l.stage) (queued l.chan)
                  (unused l h.chained))
                h.chained.draining;
        };
        older = h.older;
        newest = chain-refused ∙ h.newest;
        older_closed = older_kept;
        are_open = (ground (arith, own_below, h.are_open.0), tt);
      }

  -- The old ring's producer goes, and the new one is the sender's.
  IsReady-replace_ring :
      (l : Shared rb mp aw) (i : ℕ)
      → IsLinked rb mp aw (l.ring_buf ∷ i ∷ []) l
      → IsReady rb mp aw (replace_ring rb mp aw i l)
  IsReady-replace_ring l i h = record {
    chained = record {
      increasing = h.chained.increasing;
      below = h.chained.below;
      draining =
          Draining-update_closed rb mp aw l.rings l.ring_buf (drop_prod (own_ring rb mp aw l))
            l.stage (drop_prod_closes (own_ring rb mp aw l)) h.chained.draining;
    };
    older = h.older ++ l.ring_buf ∷ [];
    newest = h.newest ∙ sym (append_assoc h.older (l.ring_buf ∷ []) (i ∷ []));
    older_closed =
        All-append _ h.older (l.ring_buf ∷ [])
          (AllClosed-update_closed rb mp aw l.rings l.ring_buf (drop_prod (own_ring rb mp aw l))
            h.older (drop_prod_closes (own_ring rb mp aw l)) h.older_closed)
          (ground (arith, drop_prod_closes (own_ring rb mp aw l)), tt);
    are_open = (ground (arith, apart, h.are_open.1.0), tt);
  }
    where
      apart : l.ring_buf < i
      apart =
          (All-right (λ k. k < i) h.older (l.ring_buf ∷ [])
            (Increasing-last (h.older ++ l.ring_buf ∷ []) i (
              subst Increasing (h.newest ∙ sym (append_assoc h.older (l.ring_buf ∷ []) (i ∷ [])))
                h.chained.increasing))).0

  stream-replace_ring :
      (l : Shared rb mp aw) (i : ℕ)
      → stream rb mp aw (replace_ring rb mp aw i l) ≡ stream rb mp aw l
  stream-replace_ring l i = ap (◌++◌ (written l.socket)) (
      items_of-update_same rb mp aw l.rings l.ring_buf (drop_prod (own_ring rb mp aw l))
        (chain rb mp aw l) (drop_prod_keeps (own_ring rb mp aw l)))

  -- What a hand-over leaves: the sender has its new ring, whose bytes are the last of the stream; or
  -- the receiver is gone, the sender keeps its ring and the stream is as it was.
  abbrev pub HandedOver :
      Shared rb mp aw → List Byte → IoResult (Unit {0}) × Shared rb mp aw → Type 0
  HandedOver l bs (ok u, l') =
      IsReady rb mp aw l'
      × (stream rb mp aw l' ≡ stream rb mp aw l ++ bs)
      × (receiver_gone l.chan ≡ false)
  HandedOver l bs (err e, l') =
      IsReady rb mp aw l'
      × (stream rb mp aw l' ≡ stream rb mp aw l)
      × (receiver_gone l.chan ≡ true)
      × ((x : String) × (e ≡ closed_error x))

  module _ (env : ℕ → Shared rb mp aw → Shared rb mp aw) (w : IsWriter rb mp aw env) where
    replaced-HandedOver :
        (l : Shared rb mp aw) (r : Ring)
        → IsReady rb mp aw l
        → cons_is_closed r ≢ true
        → queued (send l.count l.chan).1 ≡ queued l.chan ++ l.count ∷ []
        → let l' =
            replace_ring rb mp aw l.count
              (turn rb mp aw env (send_ring rb mp aw l.count (new_ring rb mp aw r l))) in
          IsReady rb mp aw l' × (stream rb mp aw l' ≡ stream rb mp aw l ++ items r)
    unfolding sent
    replaced-HandedOver l r h open_ring q =
        let own = l.ring_buf ∷ l.count ∷ [] in
        let l₁ = send_ring rb mp aw l.count (new_ring rb mp aw r l) in
        let l₂ = turn rb mp aw env l₁ in
        let linked : IsLinked rb mp aw own l₁ = IsLinked-sent l r h q open_ring in
        let linked₂ : IsLinked rb mp aw (l₂.ring_buf ∷ l.count ∷ []) l₂ =
          IsLinked-later rb mp aw (l₂.ring_buf ∷ l.count ∷ []) (env l₁.now l₁) (l₁.now + 1) (
            subst (λ i. IsLinked rb mp aw (i ∷ l.count ∷ []) (env l₁.now l₁))
              (sym (w.keeps_own l₁.now own l₁ linked)) (w.keeps l₁.now own l₁ linked)) in
        (
          IsReady-replace_ring l₂ l.count linked₂,
          stream-replace_ring l₂ l.count
              ∙ w.keeps_stream l₁.now own l₁ linked
              ∙ stream-sent l r h q,
        )

    pub hand_over-HandedOver :
        (l : Shared rb mp aw) (r : Ring)
        → IsReady rb mp aw l
        → cons_is_closed r ≢ true
        → Ends (HandedOver l (items r)) (hand_over rb mp aw env l.count (new_ring rb mp aw r l))
    unfolding hand_over sent
    hand_over-HandedOver l r h open_ring = elim (Bool-cases (receiver_gone l.chan)) [
      | inl gone ↦
          let refused = send_refused l.count l.chan gone in
          rw (refused.0.1, hand_over_at)
            (
              IsReady-refused l r h refused.1,
              stream-refused l r h refused.1,
              gone,
              (refused.0.0, refl),
            )
      | inr there ↦
          let sent_ok = send_ok l.count l.chan there in
          let end = replaced-HandedOver l r h open_ring sent_ok.1 in
          rw (sent_ok.0, hand_over_at) (end.0, end.1, there)
    ]
