-- ===== src/MsgSender/Spins.antt =====
-- `send_block` of src/msg_sender.rs on a ring that its consumer has left.
use socket_manager.Prelude.{
  ℕ, zero, suc, ◌+◌, ◌≤◌, ◌<◌, ◌≡◌, refl, sym, ap, subst, ◌∙◌, ◌≢◌, Bool, true, false, List, [],
  ◌∷◌, arith, length, drop, ltb, lt→ltb,
}
use socket_manager.Std.{Byte, Poll, ok, done, out_of_fuel, ◌>>=◌}
use socket_manager.Io.{AsyncWrite}
use socket_manager.Ring.{RingBuf}
use socket_manager.Channel.{Mpsc}
use socket_manager.Config.{ConnConfig}
use socket_manager.Link.{returned}
use socket_manager.Link.Chain.{items-update_self}
use socket_manager.MsgSender.{
  BurstWriteState, Shared, own_ring, with_own, push, polled, turn, burst_loop, burst_write,
  write_rest, after_burst_block, block_on, send_block,
}
use socket_manager.Writer.{writer_at, writer_step, writer_run}

module _ (rb : RingBuf) (mp : Mpsc ℕ) (aw : AsyncWrite) where
  open rb use {items, capacity, prod_is_closed, push_slice, push_count, push_keeps, poll_write}

  -- A poll of a ring whose consumer is gone writes nothing and says so; a closed ring stays closed.
  pub record AnswersZero : Type 0 where
    pub writes_none :
        (bs : List Byte) (r : rb.Ring)
        → prod_is_closed r ≡ true
        → (poll_write bs r).0 ≡ Poll.ready (ok 0)
    pub stays_closed :
        (bs : List Byte) (r : rb.Ring)
        → prod_is_closed r ≡ true
        → prod_is_closed (poll_write bs r).1 ≡ true

  -- The writer task has returned, and has left the ring that the sender writes to.
  abbrev pub IsLeft : Shared rb mp aw → Type 0
  IsLeft l =
      ((r : _) × (left : List ℕ) × (l.stage ≡ returned r left))
      × (prod_is_closed (own_ring rb mp aw l) ≡ true)

  -- No byte fits into the sender's ring.
  abbrev pub IsFull : Shared rb mp aw → Type 0
  IsFull l = capacity (own_ring rb mp aw l) ≤ length (items (own_ring rb mp aw l))

  module _ (config : ConnConfig) (ticks : ℕ → List Bool) where
    -- The writer task has its turn while the sender's call is under way.
    abbrev pub writer : ℕ → Shared rb mp aw → Shared rb mp aw
    writer now l = writer_run rb mp aw config (ticks now) l

    writer_run-IsLeft :
        (ts : List Bool) (l : Shared rb mp aw) → IsLeft l → writer_run rb mp aw config ts l ≡ l
    unfolding writer_run writer_step writer_at
    writer_run-IsLeft [] l h = refl
    writer_run-IsLeft (tick ∷ ts) l ((r, left, e), c) =
        let same : writer_step rb mp aw config tick l ≡ l =
          subst (λ s. writer_at rb mp aw config tick s l ≡ record l { stage = s }) (sym e) refl in
        ap (writer_run rb mp aw config ts) same ∙ writer_run-IsLeft ts l ((r, left, e), c)

    turn-IsLeft : (l : Shared rb mp aw) → IsLeft l → IsLeft (turn rb mp aw writer l)
    turn-IsLeft l h =
        subst (λ (l' : Shared rb mp aw). IsLeft (record l' { now = l.now + 1 }))
          (sym (writer_run-IsLeft (ticks l.now) l h)) h

    here :
        (l : Shared rb mp aw) (r : rb.Ring)
        → prod_is_closed r ≡ true
        → prod_is_closed (own_ring rb mp aw (with_own rb mp aw l r)) ≡ true
    here l r c = ap prod_is_closed (items-update_self rb mp aw l.rings l.ring_buf r) ∙ c

    polled-IsLeft :
        (bs : List Byte) (l : Shared rb mp aw)
        → AnswersZero
        → IsLeft l
        → IsLeft (polled rb mp aw bs l)
    polled-IsLeft bs l z h =
        let own = own_ring rb mp aw l in
        (h.0, here l (poll_write bs own).1 (z.stays_closed bs own h.1))

    -- A round of the future accepts nothing, and leaves all as it was.
    write_rest-spins :
        (fuel offset : ℕ) (bytes : List Byte) (l : Shared rb mp aw)
        → AnswersZero
        → IsLeft l
        → offset < length bytes
        → write_rest rb mp aw writer fuel offset bytes l ≡ out_of_fuel
    unfolding write_rest
    write_rest-spins zero offset bytes l z h lt = refl
    write_rest-spins (suc fuel) offset bytes l z h lt =
        let l₁ = turn rb mp aw writer l in
        let h₁ = turn-IsLeft l h in
        let p = z.writes_none (drop offset bytes) (own_ring rb mp aw l₁) h₁.1 in
        rw (lt→ltb _ _ lt, write_rest, p)
          (write_rest-spins fuel (offset + 0) bytes (polled rb mp aw (drop offset bytes) l₁) z
            (polled-IsLeft (drop offset bytes) l₁ z h₁) (omega arith))

    turn-IsFull : (l : Shared rb mp aw) → IsLeft l → IsFull l → IsFull (turn rb mp aw writer l)
    turn-IsFull l h f =
        subst (λ (l' : Shared rb mp aw). IsFull (record l' { now = l.now + 1 }))
          (sym (writer_run-IsLeft (ticks l.now) l h)) f

    -- A burst at a full ring writes nothing.
    burst_write-full :
        (bytes : List Byte) (l : Shared rb mp aw)
        → IsLeft l
        → IsFull l
        → (l' : Shared rb mp aw) × IsLeft l'
          × (burst_write rb mp aw writer 0 bytes l ≡ done (BurstWriteState.pending, 0, l'))
    unfolding burst_write burst_loop
    burst_write-full bytes l h f =
        let l₁ = turn rb mp aw writer l in
        let h₁ = turn-IsLeft l h in
        let own = own_ring rb mp aw l₁ in
        let fits_none : (push_slice bytes own).0 ≡ 0 =
          push_count bytes own ∙ grind (arith, turn-IsFull l h f) in
        let (keeps_capacity, keeps_cons, keeps_prod) = push_keeps bytes own in
        (
          push rb mp aw bytes l₁,
          (h₁.0, here l₁ (push_slice bytes own).1 (keeps_prod ∙ h₁.1)),
          rw (let e : ltb (length bytes) 0 ≡ false = ground arith in e, burst_loop, fits_none) refl,
        )

    -- Where a poll of a ring that its consumer has left answers `Ok(0)`, the writer task has returned and
    -- left the ring of the sender, and the ring is full: `send_block` of a non-empty message never
    -- returns outside an async context, however often it polls.
    pub send_block_spins :
        (fuel : ℕ) (bytes : List Byte) (l : Shared rb mp aw)
        → AnswersZero
        → IsLeft l
        → IsFull l
        → bytes ≢ []
        → send_block rb mp aw writer false fuel bytes l ≡ out_of_fuel
    unfolding send_block after_burst_block block_on
    send_block_spins fuel [] l z h f n = absurd (n refl)
    send_block_spins fuel (b ∷ bs) l z h f n =
        let (l', h', e) = burst_write-full (b ∷ bs) l h f in
        ap (λ m. m >>= after_burst_block rb mp aw writer false fuel (b ∷ bs)) e
        ∙ write_rest-spins fuel 0 (b ∷ bs) l' z h' (omega arith)
