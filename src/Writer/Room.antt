-- ===== src/Writer/Room.antt =====
-- The writer task of src/write.rs makes room: while the sender's ring is full, each step of the task brings
-- it nearer to a write out of that ring.
use socket_manager.Prelude.{
  ℕ, ◌+◌, ◌*◌, ◌≤◌, ◌<◌, ◌≡◌, refl, sym, ap, subst, ◌∙◌, ◌≢◌, inl, inr, Bool, true, false, not,
  List, [], ◌∷◌, ◌++◌, Option, none, some, Bool-cases, length, take, length-append, length-take,
  length-drop, if◌then◌else◌, if_cases, ltb, ◌==◌, ◌&&◌, arith,
}
use socket_manager.Std.{Poll, ready, pending}
use socket_manager.Io.{AsyncWrite}
use socket_manager.Ring.{RingBuf}
use socket_manager.Channel.{Mpsc}
use socket_manager.Config.{min_msg_buffer_size}
use socket_manager.Link.{
  update, Stage, receiving, shutting, waiting, flushing, returned, After, to_wait, to_recv,
}
use socket_manager.Link.Invariant.{AllClosed}
use socket_manager.MsgSender.{is_empty}
use socket_manager.MsgSender.Spins.{IsFull}
use socket_manager.Writer.{
  as_usize, Shared, staged, receive, flushed, wrote, flush_at, select_at, wait_at,
}
use socket_manager.Writer.Progress.{IsEager}
use socket_manager.Writer.Ending.{IsWorking}

module _ (rb : RingBuf) (mp : Mpsc ℕ) (aw : AsyncWrite) where
  open rb use {
    Ring, items, capacity, prod_is_closed, cons_is_closed, wait_occupied, wait_occupied_iff,
    occupied_len, occupied, as_slices, slices, left_empty, drop_cons, advance_read_index,
    advance_keeps, items-advance,
  }
  open mp use {poll_recv, queued, recv_some, recv_none, recv_pending}
  open aw use {written, poll_write, accepts, accepts_le}

  -- How many steps each stage and each ring that waits may take, apart from those that write. An open
  -- ring that is flushed is not empty while the sender's ring is full.
  abbrev pub weight : (ℕ → Ring) → Stage → ℕ
  weight f receiving = 2
  weight f shutting = 1
  weight f (waiting i k) = 4
  weight f (flushing i to_wait) = if cons_is_closed (f i) then 5 else 3
  weight f (flushing i to_recv) = 3
  weight f (returned r left) = 0

  abbrev pub rounds : Shared rb mp aw → ℕ
  rounds l = weight l.rings l.stage + 3 * length (queued l.chan)

  -- A step that keeps the task at work and the sender's ring in its hands, takes bytes out of rings
  -- only, and pays while the sender's ring is full.
  pub record Steps (l l' : Shared rb mp aw) : Type 0 where
    pub working : IsWorking rb mp aw l'.stage
    pub same_size : capacity (l'.rings l.ring_buf) ≡ capacity (l.rings l.ring_buf)
    pub same_end : prod_is_closed (l'.rings l.ring_buf) ≡ prod_is_closed (l.rings l.ring_buf)
    pub shrinks : length (items (l'.rings l.ring_buf)) ≤ length (items (l.rings l.ring_buf))
    pub gain : ℕ
    pub more : length (written l'.socket) ≡ length (written l.socket) + gain
    pub cheaper : IsFull rb mp aw l → rounds l' < rounds l + gain

  -- Moving the read index changes neither the size of a ring nor whether it is in the task's hands.
  abbrev pub AdvanceKeeps : Type 0
  AdvanceKeeps =
      (n : ℕ) (r : Ring)
      → (capacity (advance_read_index n r) ≡ capacity r)
        × (prod_is_closed (advance_read_index n r) ≡ prod_is_closed r)

  -- A step to another stage.
  staged-Steps :
      (l : Shared rb mp aw) (s t : Stage)
      → IsWorking rb mp aw t
      → (IsFull rb mp aw l → weight l.rings t < weight l.rings s)
      → Steps (staged rb mp aw l s) (staged rb mp aw l t)
  staged-Steps l s t w h = record {
    working = w;
    same_size = refl;
    same_end = refl;
    shrinks = omega arith;
    gain = 0;
    more = omega arith;
    cheaper = λ f. omega (arith, h f);
  }

  -- Where a ring is written to, another one is as it was.
  update_at :
      (P : Ring → Type 0) (f : ℕ → Ring) (i j : ℕ) (r : Ring)
      → (j ≡ i → P r)
      → P (f j)
      → P (update f i r j)
  update_at P f i j r h k = if_cases P (j == i) r (f j) (λ t. h (ground arith)) (λ e. k)

  -- The open ring in the task's hands is the sender's.
  open_is_own :
      (f : ℕ → Ring) (i own : ℕ) (q older : List ℕ)
      → i ∷ q ≡ older ++ own ∷ []
      → AllClosed rb mp aw f older
      → cons_is_closed (f i) ≡ false
      → i ≡ own
  open_is_own f i own q [] e a c = cc
  open_is_own f i own q (x ∷ xs) e a c =
      let same : i ≡ x = cc in
      let b : cons_is_closed (f i) ≡ true = ap (λ k. cons_is_closed (f k)) same ∙ a.0 in cc

  last_there : (xs : List ℕ) (x : ℕ) → [] ≢ xs ++ x ∷ []
  last_there [] x e = cc
  last_there (y ∷ xs) x e = cc

  pub receive-Steps :
      (p : Poll (Option ℕ)) (l : Shared rb mp aw) (older : List ℕ)
      → (poll_recv l.chan).0 ≡ p
      → queued l.chan ≡ older ++ l.ring_buf ∷ []
      → Steps (staged rb mp aw l receiving) (receive rb mp aw p (poll_recv l.chan).1 l)
  unfolding receive
  receive-Steps (ready (some i)) l older e q =
      let k = recv_some l.chan i e in
      record {
        working = tt;
        same_size = refl;
        same_end = refl;
        shrinks = omega arith;
        gain = 0;
        more = omega arith;
        cheaper = λ f. omega (arith, ap length k);
      }
  receive-Steps (ready none) l older e q =
      absurd (last_there older l.ring_buf (sym (recv_none l.chan e).0 ∙ q))
  receive-Steps pending l older e q =
      absurd (last_there older l.ring_buf (sym (recv_pending l.chan e).0 ∙ q))

  module _ (l : Shared rb mp aw) (i : ℕ) (older : List ℕ)
      (chained : i ∷ queued l.chan ≡ older ++ l.ring_buf ∷ [])
      (closed : AllClosed rb mp aw l.rings older)
      (is_open : cons_is_closed (l.rings l.ring_buf) ≢ true)
      (wide : min_msg_buffer_size ≤ capacity (l.rings l.ring_buf)) where
    -- A full ring has enough for the wait to be over.
    full_items :
        IsFull rb mp aw l
        → cons_is_closed (l.rings i) ≡ false
        → min_msg_buffer_size ≤ length (items (l.rings i))
    full_items f o =
        let same = open_is_own l.rings i l.ring_buf (queued l.chan) older chained closed o in
        subst (λ j. min_msg_buffer_size ≤ length (items (l.rings j))) (sym same)
          (omega (arith, f, wide))

    wait_over :
        (n : ℕ) → n ≤ min_msg_buffer_size → IsFull rb mp aw l → wait_occupied n (l.rings i) ≡ true
    wait_over n le f =
        (wait_occupied_iff n (l.rings i)).1 (elim (Bool-cases (cons_is_closed (l.rings i))) [
          | inl c ↦ inr c
          | inr o ↦ inl (omega (arith, full_items f o, le))
        ])

    abbrev IsOpenFor : After → Type 0
    IsOpenFor to_wait = cons_is_closed (l.rings i) ≡ false
    IsOpenFor to_recv = Unit

    to_flush :
        (k : Bool) (t : After)
        → IsOpenFor t
        → Steps (staged rb mp aw l (waiting i k)) (staged rb mp aw l (flushing i t))
    to_flush k to_wait c =
        staged-Steps l (waiting i k) (flushing i to_wait) tt (λ f. rw c (omega arith))
    to_flush k to_recv c = staged-Steps l (waiting i k) (flushing i to_recv) tt (λ f. omega arith)

    -- A wait that is not over shows that there is room.
    waits_on :
        (n : ℕ) (k : Bool) (t : Stage)
        → IsWorking rb mp aw t
        → n ≤ min_msg_buffer_size
        → wait_occupied n (l.rings i) ≡ false
        → Steps (staged rb mp aw l (waiting i k)) (staged rb mp aw l t)
    waits_on n k t w le e =
        staged-Steps l (waiting i k) t w (λ f. let over = wait_over n le f in cc)

    pub wait_at-Steps :
        (k : Bool) → Steps (staged rb mp aw l (waiting i k)) (wait_at rb mp aw i k l)
    unfolding wait_at
    wait_at-Steps k = elim (Bool-cases (wait_occupied min_msg_buffer_size (l.rings i))) [
      | inr e ↦ rw e (waits_on min_msg_buffer_size k (waiting i k) tt (omega arith) e)
      | inl e ↦ elim (Bool-cases (cons_is_closed (l.rings i))) [
        | inl c ↦ rw (e, c) (to_flush k to_recv tt)
        | inr o ↦ rw (e, o) (to_flush k to_wait o)
      ]
    ]

    threshold_le :
        (k : Bool) → as_usize k * min_msg_buffer_size + as_usize (not k) ≤ min_msg_buffer_size
    threshold_le true = omega arith
    threshold_le false = omega arith

    pub select_at-Steps :
        (tick k : Bool) → Steps (staged rb mp aw l (waiting i k)) (select_at rb mp aw tick i k l)
    unfolding select_at
    select_at-Steps tick k =
        let n = as_usize k * min_msg_buffer_size + as_usize (not k) in
        elim (Bool-cases (wait_occupied n (l.rings i))) [
          | inr e ↦ elim (Bool-cases (k && tick)) [
            | inl t ↦ rw (e, t) (waits_on n k (flushing i to_wait) tt (threshold_le k) e)
            | inr t ↦ rw (e, t) (waits_on n k (waiting i k) tt (threshold_le k) e)
          ]
          | inl e ↦ elim (Bool-cases (cons_is_closed (l.rings i))) [
            | inl c ↦ rw (e, c) (to_flush k to_recv tt)
            | inr o ↦ elim (Bool-cases (ltb (occupied_len (l.rings i)) min_msg_buffer_size)) [
              | inl few ↦
                  rw (e, o, few)
                    (staged-Steps l (waiting i k) (waiting i true) tt
                      (λ f. ground (arith, full_items f o, occupied (l.rings i), few)))
              | inr many ↦ rw (e, o, many) (to_flush k to_wait o)
            ]
          ]
        ]

    -- The ring in the task's hands is not the sender's where it is given up.
    not_own : cons_is_closed (l.rings i) ≡ true → l.ring_buf ≢ i
    not_own c e = is_open (ap (λ j. cons_is_closed (l.rings j)) e ∙ c)

    flushed-Steps :
        (after : After)
        → items (l.rings i) ≡ []
        → (after ≡ to_recv → cons_is_closed (l.rings i) ≡ true)
        → Steps (staged rb mp aw l (flushing i after)) (flushed rb mp aw after i l)
    unfolding flushed
    flushed-Steps to_wait e d = staged-Steps l (flushing i to_wait) (waiting i false) tt (λ f.
        elim (Bool-cases (cons_is_closed (l.rings i))) [
          | inl c ↦ rw c (omega arith)
          | inr o ↦ absurd (omega (arith, full_items f o, ap length e))
        ])
    flushed-Steps to_recv e d =
        let r = drop_cons (l.rings i) in
        let at : (P : Ring → Type 0) → P (l.rings l.ring_buf) → P (update l.rings i r l.ring_buf) =
          λ P k. update_at P l.rings i l.ring_buf r (λ same. absurd (not_own (d refl) same)) k in
        record {
          working = tt;
          same_size = at (λ x. capacity x ≡ capacity (l.rings l.ring_buf)) refl;
          same_end = at (λ x. prod_is_closed x ≡ prod_is_closed (l.rings l.ring_buf)) refl;
          shrinks = at (λ x. length (items x) ≤ length (items (l.rings l.ring_buf))) (omega arith);
          gain = 0;
          more = omega arith;
          cheaper = λ f. omega arith;
        }

    module _ (eager : IsEager rb mp aw) (keeps : AdvanceKeeps) where
      wrote-Steps :
          (after : After)
          → let p = poll_write (as_slices (l.rings i)).0 l.socket in
            is_empty (as_slices (l.rings i)).0 ≡ false
            → Steps (staged rb mp aw l (flushing i after)) (wrote rb mp aw p.0 p.1 after i l)
      unfolding wrote
      wrote-Steps after some_left =
          let left = (as_slices (l.rings i)).0 in
          let (n, pos, p) = eager.takes left l.socket (λ e. let b = ap is_empty e in cc) in
          let r = advance_read_index n (l.rings i) in
          let own = l.ring_buf in
          let same : own ≡ i → l.rings i ≡ l.rings own = λ e. ap l.rings (sym e) in
          rw p (record {
            working = tt;
            same_size =
                update_at (λ x. capacity x ≡ capacity (l.rings own)) l.rings i own r
                  (λ e. (keeps n (l.rings i)).0 ∙ ap capacity (same e)) refl;
            same_end =
                update_at (λ x. prod_is_closed x ≡ prod_is_closed (l.rings own)) l.rings i own r
                  (λ e. (keeps n (l.rings i)).1 ∙ ap prod_is_closed (same e)) refl;
            shrinks =
                update_at (λ x. length (items x) ≤ length (items (l.rings own))) l.rings i own r
                  (λ e. omega (
                    arith,
                    ap length (items-advance n (l.rings i)),
                    length-drop n (items (l.rings i)),
                    ap (λ x. length (items x)) (same e),
                  ))
                  (omega arith);
            gain = n;
            more =
                ap length (accepts left l.socket n p)
                ∙ length-append (written l.socket) (take n left)
                ∙ omega (arith, length-take n left, accepts_le left l.socket n p);
            cheaper = λ f. omega (arith, pos, same_weight after n);
          })
        where
          same_weight :
              (t : After) (n : ℕ)
              → weight (update l.rings i (advance_read_index n (l.rings i))) (flushing i t)
                ≡ weight l.rings (flushing i t)
          same_weight to_wait n =
              ap (λ b. if b then 5 else 3)
                (update_at (λ x. cons_is_closed x ≡ cons_is_closed (l.rings i)) l.rings i i
                  (advance_read_index n (l.rings i)) (λ e. advance_keeps n (l.rings i)) refl)
          same_weight to_recv n = refl

      pub flush_at-Steps :
          (after : After)
          → (after ≡ to_recv → cons_is_closed (l.rings i) ≡ true)
          → Steps (staged rb mp aw l (flushing i after)) (flush_at rb mp aw after i l)
      unfolding flush_at
      flush_at-Steps after d = elim (Bool-cases (is_empty (as_slices (l.rings i)).0)) [
        | inl e ↦ rw e (flushed-Steps after (left_empty (l.rings i) (no_bytes _ e)) d)
        | inr e ↦ rw e (wrote-Steps after e)
      ]
        where
          no_bytes : (bs : List ℕ) → is_empty bs ≡ true → bs ≡ []
          no_bytes [] e = refl
          no_bytes (b ∷ bs) e = cc
