-- ===== src/Writer/Keeps.antt =====
-- What each step of the writer task of src/write.rs keeps: the shared state stays consistent, and
-- the stream, the bytes written with those still to be written, stays as it is.
use socket_manager.Prelude.{
  ℕ, ◌<◌, ◌≡◌, refl, sym, ap, ap₂, subst, ◌∙◌, ◌≢◌, inl, inr, true, List, [], ◌∷◌, ◌++◌, append-nil,
  Option, none, some, arith, ◌==◌, Bool-cases,
}
use socket_manager.Std.{Poll, ready, pending, IoResult}
use socket_manager.Io.{AsyncWrite}
use socket_manager.Ring.{RingBuf}
use socket_manager.Channel.{Mpsc}
use socket_manager.Link.{Stage, receiving, shutting, held, chain, items_of, stream}
use socket_manager.Link.Chain.{All, All-map, Increasing, items_of_congr}
use socket_manager.Link.Invariant.{Draining, IsLinked}
use socket_manager.Writer.{Shared, staged, drop_all, return_with, receive, shut}

-- A chain that ends in open rings, and whose first ring is closed, goes on behind that one.
pub tail_ends :
    (P Q : ℕ → Type 0) (i : ℕ) (q older own : List ℕ)
    → ¬ P i
    → All P own
    → i ∷ q ≡ older ++ own
    → All Q older
    → (older' : List ℕ) × (q ≡ older' ++ own) × All Q older'
tail_ends P Q i q [] own c h e k = absurd (c (subst (All P) (sym e) h).0)
tail_ends P Q i q (x ∷ xs) own c h e k = (xs, ap rest e, k.1)
  where
    rest : List ℕ → List ℕ
    rest [] = []
    rest (y ∷ ys) = ys

module _ (rb : RingBuf) (mp : Mpsc ℕ) (aw : AsyncWrite) where
  open rb use {
    Ring, items, cons_is_closed, as_slices, advance_read_index, drop_cons, drop_cons_keeps,
    items-advance, advance_keeps, slices, left_empty, wait_occupied,
  }
  open mp use {
    queued, poll_recv, recv_some, recv_none, recv_pending, drop_receiver, drop_receiver_closes,
  }
  open aw use {written, poll_write, poll_shutdown, accepts, accepts_le, fails, waits, shuts}

  -- The state after a step, against the state before it.
  pub record Keeps (own : List ℕ) (l l' : Shared rb mp aw) : Type 0 where
    pub linked : IsLinked rb mp aw own l'
    pub same_stream : stream rb mp aw l' ≡ stream rb mp aw l
    pub same_own : l'.ring_buf ≡ l.ring_buf

  -- The chain and the open rings are as they were.
  pub IsLinked-same :
      (own : List ℕ) (l l' : Shared rb mp aw)
      → chain rb mp aw l' ≡ chain rb mp aw l
      → ((i : ℕ) → cons_is_closed (l'.rings i) ≡ cons_is_closed (l.rings i))
      → l'.count ≡ l.count
      → Draining rb mp aw l'.rings l'.stage
      → IsLinked rb mp aw own l
      → IsLinked rb mp aw own l'
  IsLinked-same own l l' c cl ct d h = record {
    chained = record {
      increasing = subst Increasing (sym c) h.chained.increasing;
      below =
          subst (λ n. All (λ i. i < n) (chain rb mp aw l')) (sym ct)
            (subst (All (λ i. i < l.count)) (sym c) h.chained.below);
      draining = d;
    };
    older = h.older;
    newest = c ∙ h.newest;
    older_closed = All-map h.older (λ i k. cl i ∙ k) h.older_closed;
    are_open = still_open own h.are_open;
  }
    where
      still_open :
          (xs : List ℕ)
          → All (λ i. cons_is_closed (l.rings i) ≢ true) xs
          → All (λ i. cons_is_closed (l'.rings i) ≢ true) xs
      still_open [] k = tt
      still_open (x ∷ xs) k = ((λ e. k.0 (sym (cl x) ∙ e)), still_open xs k.1)

  -- A step that leaves the chain, what is written, and what each ring holds and tells its consumer.
  pub Keeps-same :
      (own : List ℕ) (l l' : Shared rb mp aw)
      → chain rb mp aw l' ≡ chain rb mp aw l
      → ((i : ℕ) → items (l'.rings i) ≡ items (l.rings i))
      → ((i : ℕ) → cons_is_closed (l'.rings i) ≡ cons_is_closed (l.rings i))
      → written l'.socket ≡ written l.socket
      → l'.count ≡ l.count
      → l'.ring_buf ≡ l.ring_buf
      → Draining rb mp aw l'.rings l'.stage
      → IsLinked rb mp aw own l
      → Keeps own l l'
  Keeps-same own l l' c it cl wr ct rg d h = record {
    linked = IsLinked-same own l l' c cl ct d h;
    same_stream = ap₂ ◌++◌ wr (
        ap (items_of rb mp aw l'.rings) c
        ∙ items_of_congr rb mp aw l'.rings l.rings (chain rb mp aw l) (each (chain rb mp aw l)));
    same_own = rg;
  }
    where
      each : (xs : List ℕ) → All (λ x. items (l'.rings x) ≡ items (l.rings x)) xs
      each [] = tt
      each (x ∷ xs) = (it x, each xs)

  drop_all_keeps :
      (left : List ℕ) (f : ℕ → Ring) (i : ℕ)
      → (items (drop_all rb mp aw left f i) ≡ items (f i))
        × (cons_is_closed (drop_all rb mp aw left f i) ≡ cons_is_closed (f i))
  drop_all_keeps [] f i = (refl, refl)
  drop_all_keeps (j ∷ js) f i = elim (Bool-cases (i == j)) [
    | inl here ↦
        let same : i ≡ j = ground arith in
        let k = drop_cons_keeps (drop_all rb mp aw js f j) in
        let ih = drop_all_keeps js f i in
        rw here (
          k.0 ∙ ap (λ x. items (drop_all rb mp aw js f x)) (sym same) ∙ ih.0,
          k.1 ∙ ap (λ x. cons_is_closed (drop_all rb mp aw js f x)) (sym same) ∙ ih.1,
        )
    | inr there ↦ rw there (drop_all_keeps js f i)
  ]

  pub return_with-Keeps :
      (own left : List ℕ) (s : Stage) (r : IoResult (Unit {0})) (w : aw.Writer)
      (l : Shared rb mp aw)
      → left ≡ held rb mp aw s ++ queued l.chan
      → written w ≡ written l.socket
      → IsLinked rb mp aw own (staged rb mp aw l s)
      → Keeps own (staged rb mp aw l s) (return_with rb mp aw r left (record l { socket = w }))
  return_with-Keeps own left s r w l e wr h =
      Keeps-same own (staged rb mp aw l s) (return_with rb mp aw r left (record l { socket = w }))
        (ap (◌++◌ left) (drop_receiver_closes l.chan).0 ∙ append-nil left ∙ e)
        (λ i. (drop_all_keeps left l.rings i).0) (λ i. (drop_all_keeps left l.rings i).1) wr refl
        refl tt h

  pub receive-Keeps :
      (own : List ℕ) (l : Shared rb mp aw) (p : Poll (Option ℕ))
      → (poll_recv l.chan).0 ≡ p
      → IsLinked rb mp aw own (staged rb mp aw l receiving)
      → Keeps own (staged rb mp aw l receiving) (receive rb mp aw p (poll_recv l.chan).1 l)
  unfolding receive
  receive-Keeps own l (ready (some i)) p h =
      Keeps-same own (staged rb mp aw l receiving) _ (sym (recv_some l.chan i p)) (λ _. refl)
        (λ _. refl) refl refl refl tt h
  receive-Keeps own l (ready none) p h =
      Keeps-same own (staged rb mp aw l receiving) _
        ((recv_none l.chan p).1 ∙ sym (recv_none l.chan p).0) (λ _. refl) (λ _. refl) refl refl refl
        tt h
  receive-Keeps own l pending p h =
      Keeps-same own (staged rb mp aw l receiving) _
        ((recv_pending l.chan p).1 ∙ sym (recv_pending l.chan p).0) (λ _. refl) (λ _. refl) refl
        refl refl tt h

  pub shut-Keeps :
      (own : List ℕ) (l : Shared rb mp aw) (p : Poll (IoResult (Unit {0})))
      → IsLinked rb mp aw own (staged rb mp aw l shutting)
      → Keeps own (staged rb mp aw l shutting) (shut rb mp aw p (poll_shutdown l.socket).1 l)
  unfolding shut
  shut-Keeps own l (ready r) h =
      return_with-Keeps own (queued l.chan) shutting r (poll_shutdown l.socket).1 l refl
        (shuts l.socket) h
  shut-Keeps own l pending h =
      Keeps-same own (staged rb mp aw l shutting) _ refl (λ _. refl) (λ _. refl) (shuts l.socket)
        refl refl tt h
