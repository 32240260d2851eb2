-- ===== src/Writer/Progress.antt =====
-- One step of the writer task, once no further ring will come: it ends the task, or it goes on and pays.
use socket_manager.Prelude.{
  ℕ, ◌+◌, ◌*◌, ◌<◌, ◌≡◌, refl, sym, ap, subst, ◌∙◌, ◌⊎◌, inl, inr, Bool, true, false, not, List,
  ◌∷◌, ◌++◌, Option, none, some, Bool-cases, length, take, length-append, length-take, arith,
}
use socket_manager.Std.{Poll, ready, pending, ok, is_zero}
use socket_manager.Io.{AsyncWrite, TakesSome}
use socket_manager.Ring.{RingBuf}
use socket_manager.Channel.{Mpsc}
use socket_manager.Config.{ConnConfig, min_msg_buffer_size}
use socket_manager.Link.{
  Stage, receiving, shutting, waiting, flushing, returned, After, to_wait, to_recv, held, chain,
}
use socket_manager.Link.Invariant.{AllClosed, AllClosed-update}
use socket_manager.MsgSender.{is_empty}
use socket_manager.Writer.{
  as_usize, Shared, staged, receive, shut, flushed, wrote, flush_at, select_at, wait_at, writer_at,
}

module _ (rb : RingBuf) (mp : Mpsc ℕ) (aw : AsyncWrite) where
  open rb use {
    Ring, drop_prod, drop_prod_keeps, drop_prod_closes, cons_is_closed, wait_occupied,
    wait_occupied_iff, occupied_len, as_slices, drop_cons, drop_cons_keeps, advance_read_index,
    advance_keeps,
  }
  open mp use {poll_recv, queued, recv_some, recv_none, sender_gone, recv_sender, recv_ends}
  open aw use {written, poll_shutdown, poll_write, accepts, accepts_le}

  -- A socket that takes some bytes at each poll, and can be shut down.
  pub record IsEager : Type 0 where
    pub takes : TakesSome aw
    pub ends : (w : aw.Writer) → (poll_shutdown w).0 ≡ ready (ok tt)

  abbrev pub IsActive : Stage → Type 0
  IsActive (returned r left) = ⊥
  IsActive _ = Unit

  -- How many steps each stage and each ring that waits may take, apart from those that write.
  abbrev pub weight : Stage → ℕ
  weight receiving = 2
  weight shutting = 1
  weight (waiting i k) = 4
  weight (flushing i to_wait) = 5
  weight (flushing i to_recv) = 3
  weight (returned r left) = 0

  abbrev pub rounds : Shared rb mp aw → ℕ
  rounds l = weight l.stage + 3 * length (queued l.chan)

  -- A step that goes on: it writes `gain` bytes, and pays for the others.
  pub record GoesOn (l l' : Shared rb mp aw) : Type 0 where
    pub active : IsActive l'.stage
    pub closed : AllClosed rb mp aw l'.rings (chain rb mp aw l')
    pub gone : sender_gone l'.chan ≡ true
    pub gain : ℕ
    pub more : length (written l'.socket) ≡ length (written l.socket) + gain
    pub cheaper : rounds l' < rounds l + gain

  abbrev pub IsDone : Shared rb mp aw → Type 0
  IsDone l = (left : List ℕ) × (l.stage ≡ returned (ok tt) left)

  abbrev pub Outcome : Shared rb mp aw → Shared rb mp aw → Type 0
  Outcome l l' = IsDone l' ⊎ GoesOn l l'

  receive-Outcome :
      (p : Poll (Option ℕ)) (l : Shared rb mp aw)
      → (poll_recv l.chan).0 ≡ p
      → AllClosed rb mp aw l.rings (queued l.chan)
      → sender_gone l.chan ≡ true
      → Outcome (staged rb mp aw l receiving) (receive rb mp aw p (poll_recv l.chan).1 l)
  unfolding receive
  receive-Outcome (ready (some i)) l e c g =
      let q = recv_some l.chan i e in
      inr (record {
        active = tt;
        closed = subst (AllClosed rb mp aw l.rings) q c;
        gone = recv_sender l.chan ∙ g;
        gain = 0;
        more = omega arith;
        cheaper = omega (arith, ap length q);
      })
  receive-Outcome (ready none) l e c g =
      let q = recv_none l.chan e in
      inr (record {
        active = tt;
        closed = subst (AllClosed rb mp aw l.rings) (sym q.1) tt;
        gone = recv_sender l.chan ∙ g;
        gain = 0;
        more = omega arith;
        cheaper = omega (arith, ap length q.0, ap length q.1);
      })
  receive-Outcome pending l e c g = absurd (recv_ends l.chan g e)

  -- A closed ring is not waited for.
  closed_at :
      (i n : ℕ) (l : Shared rb mp aw)
      → cons_is_closed (l.rings i) ≡ true
      → wait_occupied n (l.rings i) ≡ true
  closed_at i n l c = (wait_occupied_iff n (l.rings i)).1 (inr c)

  waiting-Outcome :
      (config : ConnConfig) (tick : Bool) (i : ℕ) (k : Bool) (l : Shared rb mp aw)
      → AllClosed rb mp aw l.rings (i ∷ queued l.chan)
      → sender_gone l.chan ≡ true
      → Outcome (staged rb mp aw l (waiting i k)) (writer_at rb mp aw config tick (waiting i k) l)
  unfolding writer_at wait_at select_at
  waiting-Outcome config tick i k l c g =
      let next : Outcome (staged rb mp aw l (waiting i k))
          (staged rb mp aw l (flushing i to_recv)) =
        inr (record {
          active = tt;
          closed = c;
          gone = g;
          gain = 0;
          more = omega arith;
          cheaper = omega arith;
        }) in
      elim (Bool-cases (is_zero config.write_flush_interval)) [
        | inl z ↦ rw (z, closed_at i min_msg_buffer_size l c.0, c.0) next
        | inr n ↦
            rw (n, closed_at i (as_usize k * min_msg_buffer_size + as_usize (not k)) l c.0, c.0)
              next
      ]

  flushed-Outcome :
      (after : After) (i : ℕ) (l : Shared rb mp aw)
      → AllClosed rb mp aw l.rings (i ∷ queued l.chan)
      → sender_gone l.chan ≡ true
      → Outcome (staged rb mp aw l (flushing i after)) (flushed rb mp aw after i l)
  unfolding flushed
  flushed-Outcome to_wait i l c g = inr (record {
    active = tt;
    closed = c;
    gone = g;
    gain = 0;
    more = omega arith;
    cheaper = omega arith;
  })
  flushed-Outcome to_recv i l c g = inr (record {
    active = tt;
    closed =
        AllClosed-update rb mp aw l.rings i (drop_cons (l.rings i)) (queued l.chan)
          (drop_cons_keeps (l.rings i)).1 c.1;
    gone = g;
    gain = 0;
    more = omega arith;
    cheaper = omega arith;
  })

  module _ (eager : IsEager) where
    wrote-Outcome :
        (after : After) (i : ℕ) (l : Shared rb mp aw)
        → let p = poll_write (as_slices (l.rings i)).0 l.socket in
          is_empty (as_slices (l.rings i)).0 ≡ false
          → AllClosed rb mp aw l.rings (i ∷ queued l.chan)
          → sender_gone l.chan ≡ true
          → Outcome (staged rb mp aw l (flushing i after)) (wrote rb mp aw p.0 p.1 after i l)
    unfolding wrote
    wrote-Outcome after i l some_left c g =
        let left = (as_slices (l.rings i)).0 in
        let (n, pos, p) = eager.takes left l.socket (λ e. let b = ap is_empty e in cc) in
        rw p (
          inr (record {
            active = tt;
            closed =
                AllClosed-update rb mp aw l.rings i (advance_read_index n (l.rings i))
                  (i ∷ queued l.chan) (advance_keeps n (l.rings i)) c;
            gone = g;
            gain = n;
            more =
                ap length (accepts left l.socket n p)
                ∙ length-append (written l.socket) (take n left)
                ∙ omega (arith, length-take n left, accepts_le left l.socket n p);
            cheaper = omega (arith, pos);
          }))

    flush_at-Outcome :
        (after : After) (i : ℕ) (l : Shared rb mp aw)
        → AllClosed rb mp aw l.rings (i ∷ queued l.chan)
        → sender_gone l.chan ≡ true
        → Outcome (staged rb mp aw l (flushing i after)) (flush_at rb mp aw after i l)
    unfolding flush_at
    flush_at-Outcome after i l c g = elim (Bool-cases (is_empty (as_slices (l.rings i)).0)) [
      | inl e ↦ rw e (flushed-Outcome after i l c g)
      | inr e ↦ rw e (wrote-Outcome after i l e c g)
    ]

    shut-Outcome :
        (l : Shared rb mp aw)
        → let p = poll_shutdown l.socket in
          Outcome (staged rb mp aw l shutting) (shut rb mp aw p.0 p.1 l)
    unfolding shut
    shut-Outcome l = rw (eager.ends l.socket) (inl (queued l.chan, refl))

    pub writer_at-Outcome :
        (c : ConnConfig) (tick : Bool) (s : Stage) (l : Shared rb mp aw)
        → IsActive s
        → AllClosed rb mp aw l.rings (held rb mp aw s ++ queued l.chan)
        → sender_gone l.chan ≡ true
        → Outcome (staged rb mp aw l s) (writer_at rb mp aw c tick s l)
    unfolding writer_at
    writer_at-Outcome c tick receiving l a h g = receive-Outcome (poll_recv l.chan).0 l refl h g
    writer_at-Outcome c tick shutting l a h g = shut-Outcome l
    writer_at-Outcome c tick (waiting i k) l a h g = waiting-Outcome c tick i k l h g
    writer_at-Outcome c tick (flushing i after) l a h g = flush_at-Outcome after i l h g
    writer_at-Outcome c tick (returned r left) l a h g = absurd a
