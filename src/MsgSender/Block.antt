-- ===== src/MsgSender/Block.antt =====
-- `send_block` of src/msg_sender.rs: what it accepts.
use socket_manager.Prelude.{
  ℕ, zero, suc, ◌+◌, ◌≤◌, ◌≡◌, refl, sym, ap, subst, ◌∙◌, inl, inr, Bool, true, false, List, [],
  ◌∷◌, ◌++◌, append-nil, arith, length, take, drop, length-drop, take_of_length-le, ltb, Bool-cases,
  not-ltb→le,
}
use socket_manager.Std.{
  Byte, Poll, ok, err, IoResult, Run, done, panics, out_of_fuel, Ends, ◌>>=◌, Poll-cases,
}
use socket_manager.Io.{AsyncWrite}
use socket_manager.Ring.{RingBuf}
use socket_manager.Channel.{Mpsc}
use socket_manager.Link.{stream}
use socket_manager.Link.Invariant.{IsReady}
use socket_manager.MsgSender.{
  BurstWriteState, finished, Shared, own_ring, polled, turn, burst_write, write_rest,
  after_burst_block, block_on, send_block,
}
use socket_manager.MsgSender.Bursts.{
  IsWriter, Accepted, Accepted-with_own, Accepted-turn, Accepted-start, Bursts, burst_write-Bursts,
}

module _ (rb : RingBuf) (mp : Mpsc ℕ) (aw : AsyncWrite) where
  open rb use {
    poll_write, poll_write_le, poll_write_ok, poll_write_err, poll_write_pending, poll_write_keeps,
  }

  abbrev Out : Type 0
  Out = IoResult (Unit {0}) × Shared rb mp aw

  -- With success the whole message has gone to the end of the stream, with an error a part from its
  -- front.
  abbrev pub SentBlock : List Byte → List Byte → Out → Type 0
  SentBlock base bytes (ok u, l') = IsReady rb mp aw l' × (stream rb mp aw l' ≡ base ++ bytes)
  SentBlock base bytes (err e, l') =
      IsReady rb mp aw l'
      × ((n : ℕ) × (n ≤ length bytes) × (stream rb mp aw l' ≡ base ++ take n bytes))

  -- What the run answers satisfies `P`. It panics only in an async context, and still waits only
  -- outside of one.
  abbrev pub NeverWrong : Bool → (Out → Type 0) → Run Out → Type 0
  NeverWrong in_async P (done a) = P a
  NeverWrong in_async P panics = in_async ≡ true
  NeverWrong in_async P out_of_fuel = in_async ≡ false

  >>=-NeverWrong :
      {A : Type 0} (b : Bool) (P : A → Type 0) (Q : Out → Type 0) (m : Run A) (f : A → Run Out)
      → Ends P m
      → ((a : A) → P a → NeverWrong b Q (f a))
      → NeverWrong b Q (m >>= f)
  >>=-NeverWrong b P Q (done a) f h k = k a h
  >>=-NeverWrong b P Q panics f h k = absurd h
  >>=-NeverWrong b P Q out_of_fuel f h k = absurd h

  module _ (env : ℕ → Shared rb mp aw → Shared rb mp aw) (w : IsWriter rb mp aw env) where
    pub Accepted-polled :
        (base bytes : List Byte) (offset : ℕ) (l : Shared rb mp aw) (n : ℕ)
        → Accepted rb mp aw base bytes offset l
        → (poll_write (drop offset bytes) (own_ring rb mp aw l)).0 ≡ Poll.ready (ok n)
        → Accepted rb mp aw base bytes (offset + n) (polled rb mp aw (drop offset bytes) l)
    Accepted-polled base bytes offset l n a p =
        let rest = drop offset bytes in
        let own = own_ring rb mp aw l in
        Accepted-with_own rb mp aw base bytes offset n l (poll_write rest own).1 a
          (omega (arith, poll_write_le rest own n p, length-drop offset bytes))
          (poll_write_ok rest own n p) (poll_write_keeps rest own)

    -- A poll that accepts nothing.
    pub Accepted-unpolled :
        (base bytes : List Byte) (offset : ℕ) (l : Shared rb mp aw)
        → Accepted rb mp aw base bytes offset l
        → rb.items (poll_write (drop offset bytes) (own_ring rb mp aw l)).1
          ≡ rb.items (own_ring rb mp aw l)
        → Accepted rb mp aw base bytes offset (polled rb mp aw (drop offset bytes) l)
    Accepted-unpolled base bytes offset l a p =
        let rest = drop offset bytes in
        let own = own_ring rb mp aw l in
        subst (λ k. Accepted rb mp aw base bytes k (polled rb mp aw rest l))
          (let z : offset + 0 ≡ offset = omega arith in z)
          (Accepted-with_own rb mp aw base bytes offset 0 l (poll_write rest own).1 a (omega arith)
            (p ∙ sym (append-nil (rb.items own))) (poll_write_keeps rest own))

    write_rest-SentBlock :
        (fuel offset : ℕ) (base bytes : List Byte) (l : Shared rb mp aw)
        → Accepted rb mp aw base bytes offset l
        → NeverWrong false (SentBlock base bytes) (write_rest rb mp aw env fuel offset bytes l)
    unfolding write_rest
    write_rest-SentBlock zero offset base bytes l a = refl
    write_rest-SentBlock (suc fuel) offset base bytes l a =
        let l₁ = turn rb mp aw env l in
        let rest = drop offset bytes in
        let a₁ : Accepted rb mp aw base bytes offset l₁ =
          Accepted-turn rb mp aw env w base bytes offset l a in
        elim (Bool-cases (ltb offset (length bytes))) [
          | inr all ↦
              rw (all, write_rest)
                (
                  a.ready,
                  a.appended
                      ∙ ap (◌++◌ base)
                          (take_of_length-le offset bytes (not-ltb→le offset (length bytes) all)),
                )
          | inl more ↦ elim (Poll-cases (poll_write rest (own_ring rb mp aw l₁)).0) [
            | inl p ↦
                rw (more, write_rest, p)
                  (write_rest-SentBlock fuel offset base bytes (polled rb mp aw rest l₁)
                    (Accepted-unpolled base bytes offset l₁ a₁ (poll_write_pending _ _ p)))
            | inr (inl (e, p)) ↦
                let a₂ = Accepted-unpolled base bytes offset l₁ a₁ (poll_write_err _ _ e p) in
                rw (more, write_rest, p) (a₂.ready, (offset, a₂.inside, a₂.appended))
            | inr (inr (n, p)) ↦
                rw (more, write_rest, p)
                  (write_rest-SentBlock fuel (offset + n) base bytes (polled rb mp aw rest l₁)
                    (Accepted-polled base bytes offset l₁ n a₁ p))
          ]
        ]

    after_burst_block-SentBlock :
        (in_async : Bool) (fuel : ℕ) (base bytes : List Byte)
        (out : BurstWriteState × ℕ × Shared rb mp aw)
        → Bursts rb mp aw base bytes out
        → NeverWrong in_async
            (SentBlock base bytes)
            (after_burst_block rb mp aw env in_async fuel bytes out)
    unfolding after_burst_block block_on
    after_burst_block-SentBlock in_async fuel base bytes (finished, offset, l) (a, all) =
        (a.ready, a.appended ∙ ap (◌++◌ base) (take_of_length-le offset bytes (omega (arith, all))))
    after_burst_block-SentBlock true fuel base bytes (BurstWriteState.pending, offset, l) a = refl
    after_burst_block-SentBlock false fuel base bytes (BurstWriteState.pending, offset, l) a =
        write_rest-SentBlock fuel offset base bytes l a

    -- Outside an async context `send_block` does not panic, whatever the writer task does meanwhile
    -- and however many polls it needs; in an async context it may panic, but it never waits. In both,
    -- if it returns with success, the whole message has gone to the end of the stream; if it
    -- returns an error, a part from its front has.
    pub send_block-SentBlock :
        (in_async : Bool) (fuel : ℕ) (bytes : List Byte) (l : Shared rb mp aw)
        → IsReady rb mp aw l
        → NeverWrong in_async
            (SentBlock (stream rb mp aw l) bytes)
            (send_block rb mp aw env in_async fuel bytes l)
    unfolding send_block
    send_block-SentBlock in_async fuel [] l h = (h, sym (append-nil (stream rb mp aw l)))
    send_block-SentBlock in_async fuel (b ∷ bs) l h =
        >>=-NeverWrong in_async (Bursts rb mp aw (stream rb mp aw l) (b ∷ bs))
          (SentBlock (stream rb mp aw l) (b ∷ bs)) (burst_write rb mp aw env 0 (b ∷ bs) l)
          (after_burst_block rb mp aw env in_async fuel (b ∷ bs))
          (burst_write-Bursts rb mp aw env w 0 (stream rb mp aw l) (b ∷ bs) l
            (Accepted-start rb mp aw (b ∷ bs) l h))
          (after_burst_block-SentBlock in_async fuel (stream rb mp aw l) (b ∷ bs))
