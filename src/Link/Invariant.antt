-- ===== src/Link/Invariant.antt =====
-- What holds of the state that the sender and the writer task share, between any two of their
-- steps.
use socket_manager.Prelude.{
  ℕ, ◌<◌, ◌≡◌, sym, ap, ◌∙◌, ◌≢◌, subst, true, List, [], ◌∷◌, ◌++◌, append_assoc, append-nil, arith,
}
use socket_manager.Std.{Byte}
use socket_manager.Io.{AsyncWrite}
use socket_manager.Ring.{RingBuf}
use socket_manager.Channel.{Mpsc}
use socket_manager.Link.{
  Link, update, Stage, receiving, shutting, waiting, flushing, returned, to_wait, to_recv, held,
  chain, items_of, stream, make_sender, ring_buffer_size,
}
use socket_manager.Link.Chain.{All, All-map, Increasing, items_of-update_last, items_of-append}

module _ (rb : RingBuf) (mp : Mpsc ℕ) (aw : AsyncWrite) where
  open rb use {Ring, create, items, cons_is_closed, items-create, create_open}
  open mp use {queued, send, unbounded_channel, send_ok, new_open, queued-new}
  open aw use {Writer, written}

  -- A ring that the task gives up after this flush has no producer any more.
  abbrev pub Draining : (ℕ → Ring) → Stage → Type 0
  Draining f (flushing i to_recv) = cons_is_closed (f i) ≡ true
  Draining f _ = Unit

  -- The chain names no ring twice and only rings that were made, and the ring that is given up
  -- takes no more bytes.
  pub record IsChained (l : Link rb mp aw) : Type 0 where
    pub increasing : Increasing (chain rb mp aw l)
    pub below : All (λ i. i < l.count) (chain rb mp aw l)
    pub draining : Draining l.rings l.stage

  abbrev pub AllClosed : (ℕ → Ring) → List ℕ → Type 0
  AllClosed f = All (λ i. cons_is_closed (f i) ≡ true)

  -- A write that leaves a ring open or closed as it was, one that closes it, and one to another ring.
  pub AllClosed-update :
      (f : ℕ → Ring) (i : ℕ) (r : Ring) (xs : List ℕ)
      → cons_is_closed r ≡ cons_is_closed (f i)
      → AllClosed f xs
      → AllClosed (update f i r) xs
  AllClosed-update f i r xs e h = All-map xs (λ x k. ground (arith, k)) h

  pub AllClosed-update_closed :
      (f : ℕ → Ring) (i : ℕ) (r : Ring) (xs : List ℕ)
      → cons_is_closed r ≡ true
      → AllClosed f xs
      → AllClosed (update f i r) xs
  AllClosed-update_closed f i r xs e h = All-map xs (λ x k. ground (arith, k)) h

  pub AllClosed-update_ne :
      (f : ℕ → Ring) (i : ℕ) (r : Ring) (xs : List ℕ)
      → All (λ j. j ≢ i) xs
      → AllClosed f xs
      → AllClosed (update f i r) xs
  AllClosed-update_ne f i r [] n h = tt
  AllClosed-update_ne f i r (x ∷ xs) n h =
      (ground (arith, n.0, h.0), AllClosed-update_ne f i r xs n.1 h.1)

  -- The rings `own`, those of which the sender holds a producer half, are the last of the chain, and
  -- open, and those before them are closed.
  pub record IsLinked (own : List ℕ) (l : Link rb mp aw) : Type 0 where
    pub chained : IsChained l
    pub older : List ℕ
    pub newest : chain rb mp aw l ≡ older ++ own
    pub older_closed : AllClosed l.rings older
    pub are_open : All (λ i. cons_is_closed (l.rings i) ≢ true) own

  -- Between two operations the sender holds one ring.
  abbrev pub IsReady : Link rb mp aw → Type 0
  IsReady l = IsLinked (l.ring_buf ∷ []) l

  -- The sender's ring is written to: what its items become, the stream becomes.
  pub stream-with_own :
      (l : Link rb mp aw) (r : Ring) (bs : List Byte)
      → IsReady l
      → items r ≡ items (l.rings l.ring_buf) ++ bs
      → stream rb mp aw (record l { rings = update l.rings l.ring_buf r }) ≡ stream rb mp aw l ++ bs
  stream-with_own l r bs h e =
      let before = items_of rb mp aw l.rings in
      let after = items_of rb mp aw (update l.rings l.ring_buf r) in
      let own = items (l.rings l.ring_buf) in
      ap (◌++◌ (written l.socket)) (
        ap after h.newest
        ∙ items_of-update_last rb mp aw l.rings l.ring_buf r h.older
            (subst Increasing h.newest h.chained.increasing)
        ∙ ap (◌++◌ (before h.older)) e
        ∙ sym (append_assoc (before h.older) own bs)
        ∙ ap (λ x. (before h.older ++ x) ++ bs) (sym (append-nil own))
        ∙ ap (λ x. x ++ bs) (sym (items_of-append rb mp aw l.rings h.older (l.ring_buf ∷ [])))
        ∙ ap (λ x. before x ++ bs) (sym h.newest))
      ∙ sym (append_assoc (written l.socket) (before (chain rb mp aw l)) bs)

  -- A write to a ring that leaves it open or closed as it was.
  pub Draining-update :
      (f : ℕ → Ring) (i : ℕ) (r : Ring) (s : Stage)
      → cons_is_closed r ≡ cons_is_closed (f i)
      → Draining f s
      → Draining (update f i r) s
  Draining-update f i r (flushing j to_recv) e d = ground arith
  Draining-update f i r (flushing j to_wait) e d = tt
  Draining-update f i r receiving e d = tt
  Draining-update f i r shutting e d = tt
  Draining-update f i r (waiting j k) e d = tt
  Draining-update f i r (returned j k) e d = tt

  pub IsReady-with_own :
      (l : Link rb mp aw) (r : Ring)
      → IsReady l
      → cons_is_closed r ≡ cons_is_closed (l.rings l.ring_buf)
      → IsReady (record l { rings = update l.rings l.ring_buf r })
  IsReady-with_own l r h e = record {
    chained = record {
      increasing = h.chained.increasing;
      below = h.chained.below;
      draining = Draining-update l.rings l.ring_buf r l.stage e h.chained.draining;
    };
    older = h.older;
    newest = h.newest;
    older_closed = AllClosed-update l.rings l.ring_buf r h.older e h.older_closed;
    are_open = (ground (arith, h.are_open), tt);
  }

  -- The clock is no part of the invariant.
  pub IsLinked-later :
      (own : List ℕ) (l : Link rb mp aw) (n : ℕ)
      → IsLinked own l
      → IsLinked own (record l { now = n })
  IsLinked-later own l n h = record {
    chained = record {
      increasing = h.chained.increasing;
      below = h.chained.below;
      draining = h.chained.draining;
    };
    older = h.older;
    newest = h.newest;
    older_closed = h.older_closed;
    are_open = h.are_open;
  }

  -- The ring that is given up is another one, or is closed.
  pub Draining-update_ne :
      (f : ℕ → Ring) (i : ℕ) (r : Ring) (s : Stage)
      → All (λ j. j ≢ i) (held rb mp aw s)
      → Draining f s
      → Draining (update f i r) s
  Draining-update_ne f i r (flushing j to_recv) h d = ground (arith, h.0)
  Draining-update_ne f i r (flushing j to_wait) h d = tt
  Draining-update_ne f i r receiving h d = tt
  Draining-update_ne f i r shutting h d = tt
  Draining-update_ne f i r (waiting j k) h d = tt
  Draining-update_ne f i r (returned j k) h d = tt

  pub Draining-update_closed :
      (f : ℕ → Ring) (i : ℕ) (r : Ring) (s : Stage)
      → cons_is_closed r ≡ true
      → Draining f s
      → Draining (update f i r) s
  Draining-update_closed f i r (flushing j to_recv) c d = ground arith
  Draining-update_closed f i r (flushing j to_wait) c d = tt
  Draining-update_closed f i r receiving c d = tt
  Draining-update_closed f i r shutting c d = tt
  Draining-update_closed f i r (waiting j k) c d = tt
  Draining-update_closed f i r (returned j k) c d = tt

  -- The sender that `make_sender` returns is ready, and has accepted nothing yet.
  pub make_sender-IsReady :
      (w : Writer)
      → IsReady (make_sender rb mp aw w) × (stream rb mp aw (make_sender rb mp aw w) ≡ written w)
  unfolding make_sender
  make_sender-IsReady w = (
    record {
      chained = record {
        increasing = subst Increasing (sym one) (tt, tt);
        below = subst (All (λ i. i < 1)) (sym one) (omega arith, tt);
        draining = tt;
      };
      older = [];
      newest = one;
      older_closed = tt;
      are_open = (create_open ring_buffer_size, tt);
    },
    ap (◌++◌ (written w)) (
          ap (items_of rb mp aw (λ _. create ring_buffer_size)) one
          ∙ append-nil (items (create ring_buffer_size))
          ∙ items-create ring_buffer_size)
        ∙ append-nil (written w),
  )
    where
      one : queued (send 0 unbounded_channel).1 ≡ 0 ∷ []
      one = (send_ok 0 unbounded_channel new_open).1 ∙ ap (λ x. x ++ 0 ∷ []) queued-new
