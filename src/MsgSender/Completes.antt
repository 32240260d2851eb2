-- ===== src/MsgSender/Completes.antt =====
-- `send_block` of src/msg_sender.rs comes to its end while the writer task of src/write.rs is at work.
use native.Mathlib.Nat.{mul-suc, mul-le-mul_left}
use socket_manager.Prelude.{
  ℕ, zero, suc, ◌+◌, ◌*◌, ◌-◌, ◌≤◌, ◌<◌, ◌≡◌, refl, sym, ap, subst, ◌∙◌, ◌≢◌, inl, inr, Bool, false,
  List, [], ◌∷◌, ◌++◌, append-nil, arith, length, drop, length-drop, take_of_length-le, ltb,
  Bool-cases, not-ltb→le, ltb→lt,
}
use socket_manager.Std.{Byte, Poll-cases, ok, IoResult, Ends, Ends-IfEnds, >>=-Ends}
use socket_manager.Io.{AsyncWrite}
use socket_manager.Ring.{RingBuf}
use socket_manager.Channel.{Mpsc}
use socket_manager.Config.{ConnConfig}
use socket_manager.Link.{stream}
use socket_manager.Link.Invariant.{IsReady}
use socket_manager.MsgSender.{
  BurstWriteState, finished, Shared, own_ring, polled, turn, burst_write, write_rest,
  after_burst_block, block_on, send_block,
}
use socket_manager.MsgSender.Bursts.{
  IsWriter, Accepted, Accepted-turn, Accepted-start, Bursts, burst_write-Bursts,
}
use socket_manager.MsgSender.Block.{Accepted-polled, Accepted-unpolled}
use socket_manager.MsgSender.Fed.{
  TakesWhatFits, writer, writer-IsWriter, IsEnough, IsFair, turn-IsServed, turn-HasRoom,
  polled-IsServed, burst_loop-IsServed,
}
use socket_manager.Writer.Progress.{IsEager}
use socket_manager.Writer.Room.{AdvanceKeeps}
use socket_manager.Writer.Drains.{IsServed}

module _ (rb : RingBuf) (mp : Mpsc ℕ) (aw : AsyncWrite) where
  open rb use {poll_write, poll_write_pending}

  module _ (config : ConnConfig) (ticks : ℕ → Shared rb mp aw → List Bool) where
    abbrev env : ℕ → Shared rb mp aw → Shared rb mp aw
    env = writer rb mp aw config ticks

    abbrev env-IsWriter : IsWriter rb mp aw env
    env-IsWriter = writer-IsWriter rb mp aw config ticks

    abbrev Enough : ℕ → Type 0
    Enough = IsEnough rb mp aw config ticks

    abbrev Served : Shared rb mp aw → Type 0
    Served = IsServed rb mp aw

    -- The whole message has gone to the end of the stream.
    abbrev pub SentAll : List Byte → List Byte → IoResult (Unit {0}) × Shared rb mp aw → Type 0
    SentAll base bytes out =
        (out.0 ≡ ok tt) × IsReady rb mp aw out.1 × (stream rb mp aw out.1 ≡ base ++ bytes)

    module _ (eager : IsEager rb mp aw) (moves : AdvanceKeeps rb mp aw)
        (fits : TakesWhatFits rb mp aw) where
      module _ (k : ℕ) (fair : IsFair rb mp aw config ticks k) where
        -- How many polls may be needed, where the `j`-th moment from now on is one at which the
        -- writer task is polled as often as it needs.
        abbrev Budget : ℕ → ℕ → ℕ → Type 0
        Budget left j fuel = k * left + j < fuel

        -- A poll later, with no more left, and with less left.
        Budget-later :
            (left left' j fuel : ℕ)
            → left' ≤ left
            → Budget left (suc j) (suc fuel)
            → Budget left' j fuel
        Budget-later left left' j fuel le b = omega (arith, mul-le-mul_left k le, b)

        Budget-less :
            (left left' j fuel : ℕ)
            → left' < left
            → j < k
            → Budget left 0 (suc fuel)
            → Budget left' j fuel
        Budget-less left left' j fuel lt le b = omega (
          arith,
          mul-le-mul_left {m = suc left'} {n = left} k (omega (arith, lt)),
          mul-suc k left',
          le,
          b,
        )

        -- Nothing is left.
        all_sent :
            (offset : ℕ) (base bytes : List Byte) (l : Shared rb mp aw)
            → ltb offset (length bytes) ≡ false
            → Accepted rb mp aw base bytes offset l
            → SentAll base bytes (ok tt, l)
        all_sent offset base bytes l all a = (
          refl,
          a.ready,
          a.appended
              ∙ ap (◌++◌ base)
                  (take_of_length-le offset bytes (not-ltb→le offset (length bytes) all)),
        )

        write_rest-SentAll :
            (fuel offset j : ℕ) (base bytes : List Byte) (l : Shared rb mp aw)
            → Budget (length bytes - offset) j fuel
            → Enough (l.now + j)
            → Accepted rb mp aw base bytes offset l
            → Served l
            → Ends (SentAll base bytes) (write_rest rb mp aw env fuel offset bytes l)
        unfolding write_rest
        write_rest-SentAll zero offset j base bytes l b e a s = absurd (omega (arith, b))
        write_rest-SentAll (suc fuel) offset zero base bytes l b e a s =
            let l₁ = turn rb mp aw env l in
            let rest = drop offset bytes in
            let s₁ = turn-IsServed rb mp aw config ticks eager moves fits l s in
            let a₁ : Accepted rb mp aw base bytes offset l₁ =
              Accepted-turn rb mp aw env env-IsWriter base bytes offset l a in
            elim (Bool-cases (ltb offset (length bytes))) [
              | inr all ↦ rw (all, write_rest) (all_sent offset base bytes l all a)
              | inl more ↦
                  let left : rest ≢ [] =
                    λ x. omega (arith, ap length x, length-drop offset bytes, ltb→lt _ _ more) in
                  let now : l.now + 0 ≡ l.now = omega arith in
                  let room =
                    turn-HasRoom rb mp aw config ticks eager moves fits l (subst Enough now e) s in
                  let (n, some, p) = fits.takes rest (own_ring rb mp aw l₁) s₁.is_read room left in
                  let (j, lt, e') = fair (l.now + 1) in
                  rw (more, write_rest, p)
                    (write_rest-SentAll fuel (offset + n) j base bytes (polled rb mp aw rest l₁)
                      (Budget-less (length bytes - offset) (length bytes - (offset + n)) j fuel
                        (omega (arith, some, ltb→lt _ _ more)) lt b)
                      e' (Accepted-polled rb mp aw env env-IsWriter base bytes offset l₁ n a₁ p)
                      (polled-IsServed rb mp aw config ticks eager moves fits rest l₁ s₁))
            ]
        write_rest-SentAll (suc fuel) offset (suc j) base bytes l b e a s =
            let l₁ = turn rb mp aw env l in
            let rest = drop offset bytes in
            let s₁ = turn-IsServed rb mp aw config ticks eager moves fits l s in
            let a₁ : Accepted rb mp aw base bytes offset l₁ =
              Accepted-turn rb mp aw env env-IsWriter base bytes offset l a in
            let now : l.now + suc j ≡ l.now + 1 + j = omega arith in
            let e' : Enough (l.now + 1 + j) = subst Enough now e in
            elim (Bool-cases (ltb offset (length bytes))) [
              | inr all ↦ rw (all, write_rest) (all_sent offset base bytes l all a)
              | inl more ↦ elim (Poll-cases (poll_write rest (own_ring rb mp aw l₁)).0) [
                | inl p ↦
                    rw (more, write_rest, p)
                      (write_rest-SentAll fuel offset j base bytes (polled rb mp aw rest l₁)
                        (Budget-later (length bytes - offset) (length bytes - offset) j fuel
                          (omega arith) b)
                        e'
                        (Accepted-unpolled rb mp aw env env-IsWriter base bytes offset l₁ a₁
                          (poll_write_pending _ _ p))
                        (polled-IsServed rb mp aw config ticks eager moves fits rest l₁ s₁))
                | inr (inl (x, p)) ↦
                    absurd (fits.never_fails rest (own_ring rb mp aw l₁) x s₁.is_read p)
                | inr (inr (n, p)) ↦
                    rw (more, write_rest, p)
                      (write_rest-SentAll fuel (offset + n) j base bytes (polled rb mp aw rest l₁)
                        (Budget-later (length bytes - offset) (length bytes - (offset + n)) j fuel
                          (omega arith) b)
                        e' (Accepted-polled rb mp aw env env-IsWriter base bytes offset l₁ n a₁ p)
                        (polled-IsServed rb mp aw config ticks eager moves fits rest l₁ s₁))
              ]
            ]

        -- How many polls are enough for a message.
        abbrev pub polls_for : List Byte → ℕ
        polls_for bytes = k * length bytes + k

        after_burst_block-SentAll :
            (base bytes : List Byte) (out : BurstWriteState × ℕ × Shared rb mp aw)
            → Bursts rb mp aw base bytes out
            → Served out.2
            → Ends
                (SentAll base bytes)
                (after_burst_block rb mp aw env false (polls_for bytes) bytes out)
        unfolding after_burst_block block_on
        after_burst_block-SentAll base bytes (finished, offset, l) (a, all) s = (
          refl,
          a.ready,
          a.appended ∙ ap (◌++◌ base) (take_of_length-le offset bytes (omega (arith, all))),
        )
        after_burst_block-SentAll base bytes (BurstWriteState.pending, offset, l) a s =
            let (j, lt, e) = fair l.now in
            write_rest-SentAll (polls_for bytes) offset j base bytes l
              (omega (
                arith,
                lt,
                mul-le-mul_left {m = length bytes - offset} {n = length bytes} k (omega arith),
              ))
              e a s

        -- Over rings of which a poll takes what fits, and a socket that takes bytes: if the writer task
        -- is at work, the sender's ring is open at both ends and holds 8 KiB or more, and of any `k`
        -- moments in a row that the call leaves to the writer task there is one at which it is polled as
        -- often as it needs to make room, then `send_block` outside an async context returns with
        -- success after at most `k` polls for each byte and `k` more, and the whole message has
        -- gone to the end of the stream.
        pub send_block-SentAll :
            (bytes : List Byte) (l : Shared rb mp aw)
            → IsServed rb mp aw l
            → Ends
                (SentAll (stream rb mp aw l) bytes)
                (send_block rb mp aw env false (polls_for bytes) bytes l)
        unfolding send_block burst_write
        send_block-SentAll [] l h = (refl, h.linked, sym (append-nil (stream rb mp aw l)))
        send_block-SentAll (b ∷ bs) l h =
            let base = stream rb mp aw l in
            let P = Bursts rb mp aw base (b ∷ bs) in
            >>=-Ends (λ out. P out × Served out.2) (SentAll base (b ∷ bs))
              (burst_write rb mp aw env 0 (b ∷ bs) l)
              (after_burst_block rb mp aw env false (polls_for (b ∷ bs)) (b ∷ bs))
              (Ends-IfEnds P (λ out. Served out.2) (burst_write rb mp aw env 0 (b ∷ bs) l)
                (burst_write-Bursts rb mp aw env env-IsWriter 0 base (b ∷ bs) l
                  (Accepted-start rb mp aw (b ∷ bs) l h.linked))
                (burst_loop-IsServed rb mp aw config ticks eager moves fits
                  (suc (length (b ∷ bs) - 0)) 0 (b ∷ bs) l h))
              (λ out a. after_burst_block-SentAll base (b ∷ bs) out a.0 a.1)
