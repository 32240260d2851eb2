-- ===== src/Writer/Flush.antt =====
-- `flush` of src/write.rs: the bytes that leave a ring are those that reach the socket.
use socket_manager.Prelude.{
  ℕ, ◌≡◌, refl, sym, ap, ap₂, ◌∙◌, ◌≢◌, inl, inr, Bool, true, List, [], ◌∷◌, ◌++◌, append_assoc,
  arith, take, drop, take-append_le, take-append-drop, Bool-cases,
}
use socket_manager.Std.{Byte, ready, ok, err, Poll-cases}
use socket_manager.Io.{AsyncWrite}
use socket_manager.Ring.{RingBuf}
use socket_manager.Channel.{Mpsc}
use socket_manager.Link.{update, Stage, waiting, flushing, After, to_wait, to_recv, held, items_of}
use socket_manager.Link.Chain.{All, items_of-update_first, items_of-update_same}
use socket_manager.Link.Invariant.{AllClosed-update, Draining, IsLinked, Draining-update}
use socket_manager.MsgSender.{is_empty}
use socket_manager.Writer.{Shared, staged, flushed, wrote, flush_at}
use socket_manager.Writer.Keeps.{tail_ends, Keeps, IsLinked-same, Keeps-same, return_with-Keeps}

module _ (rb : RingBuf) (mp : Mpsc ℕ) (aw : AsyncWrite) where
  open rb use {
    Ring, items, cons_is_closed, as_slices, advance_read_index, drop_cons, drop_cons_keeps,
    items-advance, advance_keeps, slices, left_empty, wait_occupied, occupied_len,
  }
  open mp use {queued, poll_recv}
  open aw use {written, poll_write, poll_shutdown, accepts, accepts_le, fails, waits}

  -- The flushed ring is given up: it is empty and closed.
  give_up-Keeps :
      (own : List ℕ) (i : ℕ) (l : Shared rb mp aw)
      → items (l.rings i) ≡ []
      → IsLinked rb mp aw own (staged rb mp aw l (flushing i to_recv))
      → Keeps rb mp aw own (staged rb mp aw l (flushing i to_recv)) (flushed rb mp aw to_recv i l)
  unfolding flushed
  give_up-Keeps own i l e h =
      let closed : ¬ (cons_is_closed (l.rings i) ≢ true) = λ n. n h.chained.draining in
      let split =
        tail_ends (λ j. cons_is_closed (l.rings j) ≢ true) (λ j. cons_is_closed (l.rings j) ≡ true)
          i (queued l.chan) h.older own closed h.are_open h.newest h.older_closed in
      let r = drop_cons (l.rings i) in
      let k = drop_cons_keeps (l.rings i) in
      record {
        linked = record {
          chained = record {
            increasing = h.chained.increasing.1;
            below = h.chained.below.1;
            draining = tt;
          };
          older = split.0;
          newest = split.1;
          older_closed = AllClosed-update rb mp aw l.rings i r split.0 k.1 split.2;
          are_open = open_after own h.are_open;
        };
        same_stream = ap (◌++◌ (written l.socket)) (
            items_of-update_same rb mp aw l.rings i r (queued l.chan) k.0
            ∙ ap (λ x. x ++ items_of rb mp aw l.rings (queued l.chan)) (sym e));
        same_own = refl;
      }
    where
      open_after :
          (xs : List ℕ)
          → All (λ j. cons_is_closed (l.rings j) ≢ true) xs
          → All (λ j. cons_is_closed (update l.rings i (drop_cons (l.rings i)) j) ≢ true) xs
      open_after [] a = tt
      open_after (x ∷ xs) a =
          (ground (arith, a.0, (drop_cons_keeps (l.rings i)).1), open_after xs a.1)

  flushed-Keeps :
      (own : List ℕ) (after : After) (i : ℕ) (l : Shared rb mp aw)
      → items (l.rings i) ≡ []
      → IsLinked rb mp aw own (staged rb mp aw l (flushing i after))
      → Keeps rb mp aw own (staged rb mp aw l (flushing i after)) (flushed rb mp aw after i l)
  unfolding flushed
  flushed-Keeps own to_wait i l e h =
      Keeps-same rb mp aw own (staged rb mp aw l (flushing i to_wait)) _ refl (λ _. refl)
        (λ _. refl) refl refl refl tt h
  flushed-Keeps own to_recv i l e h = give_up-Keeps own i l e h

  -- The first `n` bytes of the ring go to the socket.
  moved-Keeps :
      (own : List ℕ) (after : After) (i n : ℕ) (l : Shared rb mp aw)
      → (poll_write (as_slices (l.rings i)).0 l.socket).0 ≡ ready (ok n)
      → IsLinked rb mp aw own (staged rb mp aw l (flushing i after))
      → Keeps rb mp aw own (staged rb mp aw l (flushing i after)) (
          wrote rb mp aw (ready (ok n)) (poll_write (as_slices (l.rings i)).0 l.socket).1 after i l)
  unfolding wrote
  moved-Keeps own after i n l p h =
      let left = (as_slices (l.rings i)).0 in
      let right = (as_slices (l.rings i)).1 in
      let r = advance_read_index n (l.rings i) in
      let rest = items_of rb mp aw l.rings (queued l.chan) in
      let old = items (l.rings i) in
      let front : take n left ≡ take n old =
        sym (take-append_le n left right (accepts_le left l.socket n p))
        ∙ ap (take n) (slices (l.rings i)) in
      record {
        linked =
            IsLinked-same rb mp aw own (staged rb mp aw l (flushing i after)) _ refl
              closed_as_before refl
              (Draining-update rb mp aw l.rings i r (flushing i after) (advance_keeps n (l.rings i))
                h.chained.draining)
              h;
        same_stream =
            ap₂ ◌++◌ (accepts left l.socket n p ∙ ap (◌++◌ (written l.socket)) front) (
              items_of-update_first rb mp aw l.rings i r (queued l.chan) h.chained.increasing
              ∙ ap (λ x. x ++ rest) (items-advance n (l.rings i)))
            ∙ append_assoc (written l.socket) (take n old) (drop n old ++ rest)
            ∙ ap (◌++◌ (written l.socket)) (
                sym (append_assoc (take n old) (drop n old) rest)
                ∙ ap (λ x. x ++ rest) (take-append-drop n old));
        same_own = refl;
      }
    where
      closed_as_before :
          (j : ℕ)
          → cons_is_closed (update l.rings i (advance_read_index n (l.rings i)) j)
            ≡ cons_is_closed (l.rings j)
      closed_as_before j = ground (arith, advance_keeps n (l.rings i))

  wrote-Keeps :
      (own : List ℕ) (after : After) (i : ℕ) (l : Shared rb mp aw)
      → let p = poll_write (as_slices (l.rings i)).0 l.socket in
        IsLinked rb mp aw own (staged rb mp aw l (flushing i after))
        → Keeps rb mp aw own
            (staged rb mp aw l (flushing i after))
            (wrote rb mp aw p.0 p.1 after i l)
  unfolding wrote
  wrote-Keeps own after i l h =
      let left = (as_slices (l.rings i)).0 in
      elim (Poll-cases (poll_write left l.socket).0) [
        | inl p ↦
            rw (p, wrote)
              (Keeps-same rb mp aw own (staged rb mp aw l (flushing i after)) _ refl (λ _. refl)
                (λ _. refl) (waits left l.socket p) refl refl h.chained.draining h)
        | inr (inl (e, p)) ↦
            rw (p, wrote)
              (return_with-Keeps rb mp aw own (i ∷ queued l.chan) (flushing i after) (err e)
                (poll_write left l.socket).1 l refl (fails left l.socket e p) h)
        | inr (inr (n, p)) ↦ rw p (moved-Keeps own after i n l p h)
      ]

  pub flush_at-Keeps :
      (own : List ℕ) (after : After) (i : ℕ) (l : Shared rb mp aw)
      → IsLinked rb mp aw own (staged rb mp aw l (flushing i after))
      → Keeps rb mp aw own (staged rb mp aw l (flushing i after)) (flush_at rb mp aw after i l)
  unfolding flush_at
  flush_at-Keeps own after i l h = elim (Bool-cases (is_empty (as_slices (l.rings i)).0)) [
    | inl e ↦ rw e (flushed-Keeps own after i l (left_empty (l.rings i) (nil_of_empty _ e)) h)
    | inr e ↦ rw e (wrote-Keeps own after i l h)
  ]
    where
      nil_of_empty : (bs : List Byte) → is_empty bs ≡ true → bs ≡ []
      nil_of_empty [] e = refl
      nil_of_empty (b ∷ bs) e = cc

  -- A step from the wait for bytes to another stage over the same ring.
  pub rewait-Keeps :
      (own : List ℕ) (i : ℕ) (tick_flush : Bool) (s : Stage) (l : Shared rb mp aw)
      → held rb mp aw s ≡ i ∷ []
      → Draining rb mp aw l.rings s
      → IsLinked rb mp aw own (staged rb mp aw l (waiting i tick_flush))
      → Keeps rb mp aw own (staged rb mp aw l (waiting i tick_flush)) (staged rb mp aw l s)
  rewait-Keeps own i tick_flush s l e d h =
      Keeps-same rb mp aw own (staged rb mp aw l (waiting i tick_flush)) _
        (ap (λ x. x ++ queued l.chan) e) (λ _. refl) (λ _. refl) refl refl refl d h
