-- ===== src/MsgSender/Served.antt =====
-- What a call of the sender of src/msg_sender.rs leaves as it is: the calls see the writer task's
-- stage and the channel of the rings only by what they send.
use socket_manager.Prelude.{
  ℕ, zero, suc, ◌+◌, inl, inr, true, false, String, Bool, List, [], ◌∷◌, length, drop, ltb, ◌==◌,
  Bool-cases,
}
use socket_manager.Std.{Byte, Poll, Result, ok, err, IoResult, Run, IfEnds, >>=-IfEnds}
use socket_manager.Io.{AsyncWrite}
use socket_manager.Ring.{RingBuf}
use socket_manager.Channel.{Mpsc}
use socket_manager.Link.{Stage}
use socket_manager.MsgSender.{
  BurstWriteState, finished, Shared, own_ring, push, register, new_ring, turn, burst_loop,
  burst_write, hand_over_at, hand_over, after_burst_nonblock, send_nonblock, flush,
  after_burst_async, async_loop, send_async,
}

module _ (rb : RingBuf) (mp : Mpsc ℕ) (aw : AsyncWrite) where
  open rb use {push_slice, prod_is_closed}
  open mp use {Chan, send}

  -- A property of the writer's stage and the channel that a message and the writer's turns keep.
  pub record IsServed (Q : Stage → Chan → Type 0) (env : ℕ → Shared rb mp aw → Shared rb mp aw)
      : Type 0 where
    pub sends : (i : ℕ) (s : Stage) (c : Chan) → Q s c → Q s (send i c).1
    pub turns : (n : ℕ) (l : Shared rb mp aw) → Q l.stage l.chan → Q (env n l).stage (env n l).chan

  module _ (Q : Stage → Chan → Type 0) (env : ℕ → Shared rb mp aw → Shared rb mp aw)
      (k : IsServed Q env) where
    abbrev pub Holds : Shared rb mp aw → Type 0
    Holds l = Q l.stage l.chan

    abbrev pub HoldsAfter : {A : Type 0} → A × Shared rb mp aw → Type 0
    HoldsAfter out = Holds out.1

    abbrev Burst : BurstWriteState × ℕ × Shared rb mp aw → Type 0
    Burst out = Holds out.2

    turn-Holds : (l : Shared rb mp aw) → Holds l → Holds (turn rb mp aw env l)
    turn-Holds l h = k.turns l.now l h

    burst_loop-Burst :
        (fuel offset : ℕ) (bytes : List Byte) (l : Shared rb mp aw)
        → Holds l
        → IfEnds Burst (burst_loop rb mp aw env fuel offset bytes l)
    unfolding burst_loop
    burst_loop-Burst zero offset bytes l h = tt
    burst_loop-Burst (suc fuel) offset bytes l h =
        let n = (push_slice (drop offset bytes) (own_ring rb mp aw (turn rb mp aw env l))).0 in
        let l' = push rb mp aw (drop offset bytes) (turn rb mp aw env l) in
        elim (Bool-cases (ltb (length bytes) offset)) [
          | inl out ↦ rw (out, burst_loop) tt
          | inr inside ↦ elim (Bool-cases (n == 0)) [
            | inl stuck ↦ rw (inside, burst_loop, stuck) (turn-Holds l h)
            | inr some ↦ elim (Bool-cases (offset + n == length bytes)) [
              | inl all ↦ rw (inside, burst_loop, some, all) (turn-Holds l h)
              | inr rest ↦
                  rw (inside, burst_loop, some, rest)
                    (burst_loop-Burst fuel (offset + n) bytes l' (turn-Holds l h))
            ]
          ]
        ]

    burst_write-Burst :
        (offset : ℕ) (bytes : List Byte) (l : Shared rb mp aw)
        → Holds l
        → IfEnds Burst (burst_write rb mp aw env offset bytes l)
    unfolding burst_write
    burst_write-Burst offset bytes l h = burst_loop-Burst _ offset bytes l h

    hand_over_at-Holds :
        (r : Result (Unit {0}) String) (i : ℕ) (l : Shared rb mp aw)
        → Holds l
        → IfEnds HoldsAfter (hand_over_at rb mp aw env r i l)
    unfolding hand_over_at
    hand_over_at-Holds (ok u) i l h = turn-Holds _ (k.sends i l.stage l.chan h)
    hand_over_at-Holds (err e) i l h = k.sends i l.stage l.chan h

    hand_over-Holds :
        (i : ℕ) (l : Shared rb mp aw) → Holds l → IfEnds HoldsAfter (hand_over rb mp aw env i l)
    unfolding hand_over
    hand_over-Holds i l h = hand_over_at-Holds _ i l h

    after_burst_nonblock-Holds :
        (bytes : List Byte) (out : BurstWriteState × ℕ × Shared rb mp aw)
        → Burst out
        → IfEnds HoldsAfter (after_burst_nonblock rb mp aw env bytes out)
    unfolding after_burst_nonblock
    after_burst_nonblock-Holds bytes (finished, offset, l) h = h
    after_burst_nonblock-Holds bytes (BurstWriteState.pending, offset, l) h =
        hand_over-Holds _ (new_ring rb mp aw _ (turn rb mp aw env l)) (turn-Holds l h)

    pub send_nonblock-Holds :
        (bytes : List Byte) (l : Shared rb mp aw)
        → Holds l
        → IfEnds HoldsAfter (send_nonblock rb mp aw env bytes l)
    unfolding send_nonblock
    send_nonblock-Holds [] l h = h
    send_nonblock-Holds (b ∷ bs) l h =
        >>=-IfEnds Burst HoldsAfter (burst_write rb mp aw env 0 (b ∷ bs) l)
          (after_burst_nonblock rb mp aw env (b ∷ bs)) (burst_write-Burst 0 (b ∷ bs) l h)
          (after_burst_nonblock-Holds (b ∷ bs))

    pub flush-Holds : (l : Shared rb mp aw) → Holds l → IfEnds HoldsAfter (flush rb mp aw env l)
    unfolding flush
    flush-Holds l h = hand_over-Holds _ (new_ring rb mp aw _ (turn rb mp aw env l)) (turn-Holds l h)

    after_burst_async-Holds :
        (again : Shared rb mp aw → Run (Poll (IoResult ℕ) × Shared rb mp aw)) (registered : Bool)
        (out : BurstWriteState × ℕ × Shared rb mp aw)
        → ((l : Shared rb mp aw) → Holds l → IfEnds HoldsAfter (again l))
        → Burst out
        → IfEnds HoldsAfter (after_burst_async rb mp aw env again registered out)
    unfolding after_burst_async
    after_burst_async-Holds again registered (state, offset, l) f h =
        elim (Bool-cases (ltb 0 offset)) [
          | inl some ↦ rw (some, after_burst_async) h
          | inr none ↦ elim (Bool-cases registered) [
            | inl twice ↦ rw (none, after_burst_async, twice) h
            | inr once ↦
                rw (none, after_burst_async, once)
                  (f (register rb mp aw (turn rb mp aw env l)) (turn-Holds l h))
          ]
        ]

    async_loop-Holds :
        (fuel : ℕ) (registered : Bool) (bytes : List Byte) (l : Shared rb mp aw)
        → Holds l
        → IfEnds HoldsAfter (async_loop rb mp aw env fuel registered bytes l)
    unfolding async_loop
    async_loop-Holds zero registered bytes l h = tt
    async_loop-Holds (suc fuel) registered bytes l h =
        elim (Bool-cases (prod_is_closed (own_ring rb mp aw (turn rb mp aw env l)))) [
          | inl gone ↦ rw (gone, async_loop) (turn-Holds l h)
          | inr here ↦
              rw (here, async_loop)
                (>>=-IfEnds Burst HoldsAfter
                  (burst_write rb mp aw env 0 bytes (turn rb mp aw env l))
                  (after_burst_async rb mp aw env (async_loop rb mp aw env fuel true bytes)
                    registered)
                  (burst_write-Burst 0 bytes (turn rb mp aw env l) (turn-Holds l h))
                  (λ out b.
                    after_burst_async-Holds (async_loop rb mp aw env fuel true bytes) registered out
                      (async_loop-Holds fuel true bytes) b))
        ]

    pub send_async-Holds :
        (bytes : List Byte) (l : Shared rb mp aw)
        → Holds l
        → IfEnds HoldsAfter (send_async rb mp aw env bytes l)
    unfolding send_async
    send_async-Holds [] l h = h
    send_async-Holds (b ∷ bs) l h = async_loop-Holds 2 false (b ∷ bs) l h
