-- ===== src/Writer/Drains.antt =====
-- Enough steps of the writer task of src/write.rs leave room in the sender's ring.
use socket_manager.Prelude.{
  ℕ, ◌+◌, ◌≤◌, ◌<◌, ◌≡◌, refl, sym, ap, subst, ◌∙◌, ◌⊎◌, inl, inr, Bool, true, false, List, [], ◌∷◌,
  Bool-cases, length, length-append, ltb, arith,
}
use socket_manager.Std.{is_zero}
use socket_manager.Io.{AsyncWrite}
use socket_manager.Ring.{RingBuf}
use socket_manager.Channel.{Mpsc}
use socket_manager.Config.{ConnConfig, min_msg_buffer_size}
use socket_manager.Link.{
  Stage, receiving, shutting, waiting, flushing, returned, to_wait, to_recv, chain, items_of,
}
use socket_manager.Link.Invariant.{IsLinked, IsReady}
use socket_manager.MsgSender.{own_ring}
use socket_manager.MsgSender.Spins.{IsFull}
use socket_manager.Writer.{Shared, staged, writer_at, writer_step, writer_run}
use socket_manager.Writer.Progress.{IsEager}
use socket_manager.Writer.Ending.{IsWorking}
use socket_manager.Writer.Guarantee.{writer_step-Keeps}
use socket_manager.Writer.Room.{
  rounds, Steps, AdvanceKeeps, receive-Steps, wait_at-Steps, select_at-Steps, flush_at-Steps,
}

module _ (rb : RingBuf) (mp : Mpsc ℕ) (aw : AsyncWrite) where
  open rb use {items, capacity, prod_is_closed}
  open aw use {written}

  -- The writer task is at work, and will read the sender's ring, which is as large as the rings that
  -- the sender makes, or at least as large as a part that is worth a write.
  pub record IsServed (l : Shared rb mp aw) : Type 0 where
    pub linked : IsReady rb mp aw l
    pub working : IsWorking rb mp aw l.stage
    pub is_read : prod_is_closed (own_ring rb mp aw l) ≡ false
    pub wide : min_msg_buffer_size ≤ capacity (own_ring rb mp aw l)

  abbrev pub HasRoom : Shared rb mp aw → Type 0
  HasRoom l = length (items (own_ring rb mp aw l)) < capacity (own_ring rb mp aw l)

  -- How many steps are enough: some for each stage and each ring that waits, and one for each byte.
  abbrev pub room_need : Shared rb mp aw → ℕ
  room_need l = rounds rb mp aw l + length (items_of rb mp aw l.rings (chain rb mp aw l))

  module _ (eager : IsEager rb mp aw) (keeps : AdvanceKeeps rb mp aw) (c : ConnConfig) where
    writer_at-Steps :
        (tick : Bool) (s : Stage) (l : Shared rb mp aw)
        → IsWorking rb mp aw s
        → IsReady rb mp aw (staged rb mp aw l s)
        → min_msg_buffer_size ≤ capacity (own_ring rb mp aw l)
        → Steps rb mp aw (staged rb mp aw l s) (writer_at rb mp aw c tick s l)
    unfolding writer_at
    writer_at-Steps tick receiving l w h wide = receive-Steps rb mp aw _ l h.older refl h.newest
    writer_at-Steps tick shutting l w h wide = absurd w
    writer_at-Steps tick (waiting i k) l w h wide =
        elim (Bool-cases (is_zero c.write_flush_interval)) [
          | inl z ↦
              rw z (wait_at-Steps rb mp aw l i h.older h.newest h.older_closed h.are_open.0 wide k)
          | inr n ↦ rw n (
              select_at-Steps rb mp aw l i h.older h.newest h.older_closed h.are_open.0 wide tick k)
        ]
    writer_at-Steps tick (flushing i to_wait) l w h wide =
        flush_at-Steps rb mp aw l i h.older h.newest h.older_closed h.are_open.0 wide eager keeps
          to_wait (λ e. cc)
    writer_at-Steps tick (flushing i to_recv) l w h wide =
        flush_at-Steps rb mp aw l i h.older h.newest h.older_closed h.are_open.0 wide eager keeps
          to_recv (λ e. h.chained.draining)
    writer_at-Steps tick (returned r left) l w h wide = absurd w

    -- A step serves on, keeps the room that there is, and is one of those that are needed
    -- where there is none.
    pub record Nears (l l' : Shared rb mp aw) : Type 0 where
      pub served : IsServed l'
      pub room_stays : HasRoom l → HasRoom l'
      pub nearer : IsFull rb mp aw l → room_need l' < room_need l

    writer_step-Nears :
        (tick : Bool) (l : Shared rb mp aw) → IsServed l → Nears l (writer_step rb mp aw c tick l)
    unfolding writer_step
    writer_step-Nears tick l h =
        let l' = writer_step rb mp aw c tick l in
        let k = writer_step-Keeps rb mp aw (l.ring_buf ∷ []) c tick l h.linked in
        let s = writer_at-Steps tick l.stage l h.working h.linked h.wide in
        let own : own_ring rb mp aw l' ≡ l'.rings l.ring_buf = ap l'.rings k.same_own in
        let before = items_of rb mp aw l.rings (chain rb mp aw l) in
        let after = items_of rb mp aw l'.rings (chain rb mp aw l') in
        let same : length (written l'.socket) + length after
            ≡ length (written l.socket) + length before =
          sym (length-append (written l'.socket) after)
          ∙ ap length k.same_stream
          ∙ length-append (written l.socket) before in
        let size : capacity (own_ring rb mp aw l') ≡ capacity (own_ring rb mp aw l) =
          ap capacity own ∙ s.same_size in
        record {
          served = record {
            linked = subst (λ i. IsLinked rb mp aw (i ∷ []) l') (sym k.same_own) k.linked;
            working = s.working;
            is_read = ap prod_is_closed own ∙ s.same_end ∙ h.is_read;
            wide = omega (arith, size, h.wide);
          };
          room_stays = λ r. omega (arith, r, size, s.shrinks, ap (λ x. length (items x)) own);
          nearer = λ f. omega (arith, same, s.more, s.cheaper f);
        }

    pub writer_run-Nears :
        (ticks : List Bool) (l : Shared rb mp aw)
        → IsServed l
        → IsServed (writer_run rb mp aw c ticks l)
          × (HasRoom l → HasRoom (writer_run rb mp aw c ticks l))
    unfolding writer_run
    writer_run-Nears [] l h = (h, λ r. r)
    writer_run-Nears (tick ∷ ticks) l h =
        let s = writer_step-Nears tick l h in
        let (served, stays) = writer_run-Nears ticks (writer_step rb mp aw c tick l) s.served in
        (served, λ r. stays (s.room_stays r))

    room_or_not : (l : Shared rb mp aw) → HasRoom l ⊎ IsFull rb mp aw l
    room_or_not l =
        let own = own_ring rb mp aw l in
        elim (Bool-cases (ltb (length (items own)) (capacity own))) [
          | inl room ↦ inl (ground (arith, room))
          | inr full ↦ inr (ground (arith, full))
        ]

    -- With as many steps as are needed, whatever the timer says, the sender's ring has room.
    pub writer_run-HasRoom :
        (ticks : List Bool) (l : Shared rb mp aw)
        → IsServed l
        → room_need l ≤ length ticks
        → IsServed (writer_run rb mp aw c ticks l) × HasRoom (writer_run rb mp aw c ticks l)
    unfolding writer_run
    writer_run-HasRoom [] l h le = elim (room_or_not l) [
      | inl room ↦ (h, room)
      | inr full ↦ absurd (omega (arith, (writer_step-Nears true l h).nearer full))
    ]
    writer_run-HasRoom (tick ∷ ticks) l h le =
        let s = writer_step-Nears tick l h in
        let l' = writer_step rb mp aw c tick l in
        elim (room_or_not l) [
          | inl room ↦
              let (served, stays) = writer_run-Nears ticks l' s.served in
              (served, stays (s.room_stays room))
          | inr full ↦ writer_run-HasRoom ticks l' s.served (omega (arith, s.nearer full))
        ]
