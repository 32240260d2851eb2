-- ===== src/MsgSender/Bursts.antt =====
-- `burst_write` and the operations of src/msg_sender.rs that are built on it: what the sender
-- accepts goes to the end of the stream, whatever the writer task does meanwhile.
use socket_manager.Prelude.{
  ℕ, zero, suc, ◌+◌, ◌-◌, ◌≤◌, ◌<◌, ◌≡◌, sym, ap, subst, ◌∙◌, inl, inr, false, List, [], ◌∷◌, ◌++◌,
  append_assoc, append-nil, arith, length, take, drop, length-drop, take-add, ltb, ◌==◌, Bool-cases,
}
use socket_manager.Std.{Byte, Ends}
use socket_manager.Io.{AsyncWrite}
use socket_manager.Ring.{RingBuf}
use socket_manager.Channel.{Mpsc}
use socket_manager.Link.{stream}
use socket_manager.Link.Invariant.{
  IsLinked, IsReady, IsLinked-later, IsReady-with_own, stream-with_own,
}
use socket_manager.MsgSender.{
  BurstWriteState, finished, Shared, own_ring, with_own, push, turn, burst_loop, burst_write,
}

module _ (rb : RingBuf) (mp : Mpsc ℕ) (aw : AsyncWrite) where
  open rb use {push_slice, push_count, items-push, push_keeps}

  abbrev bytes_of : Shared rb mp aw → List Byte
  bytes_of = stream rb mp aw

  -- What the writer task may do in its turn: it keeps the shared state consistent and the stream as
  -- it is (`Writer.Guarantee` shows that it does).
  pub record IsWriter (env : ℕ → Shared rb mp aw → Shared rb mp aw) : Type 0 where
    pub keeps :
        (n : ℕ) (own : List ℕ) (l : Shared rb mp aw)
        → IsLinked rb mp aw own l
        → IsLinked rb mp aw own (env n l)
    pub keeps_stream :
        (n : ℕ) (own : List ℕ) (l : Shared rb mp aw)
        → IsLinked rb mp aw own l
        → stream rb mp aw (env n l) ≡ stream rb mp aw l
    pub keeps_own :
        (n : ℕ) (own : List ℕ) (l : Shared rb mp aw)
        → IsLinked rb mp aw own l
        → (env n l).ring_buf ≡ l.ring_buf

  -- Of `bytes`, the first `offset` have been put behind the stream `base`, and no others.
  pub record Accepted (base bytes : List Byte) (offset : ℕ) (l : Shared rb mp aw) : Type 0 where
    pub ready : IsReady rb mp aw l
    pub inside : offset ≤ length bytes
    pub appended : stream rb mp aw l ≡ base ++ take offset bytes

  -- A write of the next `n` bytes to the sender's ring.
  pub Accepted-with_own :
      (base bytes : List Byte) (offset n : ℕ) (l : Shared rb mp aw) (r : rb.Ring)
      → Accepted base bytes offset l
      → n ≤ length bytes - offset
      → rb.items r ≡ rb.items (own_ring rb mp aw l) ++ take n (drop offset bytes)
      → rb.cons_is_closed r ≡ rb.cons_is_closed (own_ring rb mp aw l)
      → Accepted base bytes (offset + n) (with_own rb mp aw l r)
  Accepted-with_own base bytes offset n l r a le e c = record {
    ready = IsReady-with_own rb mp aw l r a.ready c;
    inside = omega (arith, a.inside);
    appended =
        stream-with_own rb mp aw l r (take n (drop offset bytes)) a.ready e
        ∙ ap (λ x. x ++ take n (drop offset bytes)) a.appended
        ∙ append_assoc base (take offset bytes) (take n (drop offset bytes))
        ∙ ap (◌++◌ base) (take-add offset n bytes);
  }

  -- What `burst_write` leaves.
  abbrev pub Bursts : List Byte → List Byte → BurstWriteState × ℕ × Shared rb mp aw → Type 0
  Bursts base bytes (finished, offset, l) = Accepted base bytes offset l × (offset ≡ length bytes)
  Bursts base bytes (BurstWriteState.pending, offset, l) = Accepted base bytes offset l

  module _ (env : ℕ → Shared rb mp aw → Shared rb mp aw) (w : IsWriter env) where
    pub IsReady-turn :
        (l : Shared rb mp aw) → IsReady rb mp aw l → IsReady rb mp aw (turn rb mp aw env l)
    IsReady-turn l h =
        IsLinked-later rb mp aw ((env l.now l).ring_buf ∷ []) (env l.now l) (l.now + 1) (
          subst (λ i. IsLinked rb mp aw (i ∷ []) (env l.now l))
            (sym (w.keeps_own l.now (l.ring_buf ∷ []) l h)) (w.keeps l.now (l.ring_buf ∷ []) l h))

    pub Accepted-turn :
        (base bytes : List Byte) (offset : ℕ) (l : Shared rb mp aw)
        → Accepted base bytes offset l
        → Accepted base bytes offset (turn rb mp aw env l)
    Accepted-turn base bytes offset l a = record {
      ready = IsReady-turn l a.ready;
      inside = a.inside;
      appended = w.keeps_stream l.now (l.ring_buf ∷ []) l a.ready ∙ a.appended;
    }

    pub Accepted-push :
        (base bytes : List Byte) (offset : ℕ) (l : Shared rb mp aw)
        → Accepted base bytes offset l
        → Accepted base bytes
            (offset + (push_slice (drop offset bytes) (own_ring rb mp aw l)).0)
            (push rb mp aw (drop offset bytes) l)
    Accepted-push base bytes offset l a =
        let p = push_slice (drop offset bytes) (own_ring rb mp aw l) in
        Accepted-with_own base bytes offset p.0 l p.1 a
          (omega
            (arith, push_count (drop offset bytes) (own_ring rb mp aw l), length-drop offset bytes))
          (items-push (drop offset bytes) (own_ring rb mp aw l))
          (push_keeps (drop offset bytes) (own_ring rb mp aw l)).1

    burst_loop-Bursts :
        (fuel offset : ℕ) (base bytes : List Byte) (l : Shared rb mp aw)
        → length bytes - offset < fuel
        → Accepted base bytes offset l
        → Ends (Bursts base bytes) (burst_loop rb mp aw env fuel offset bytes l)
    unfolding burst_loop
    burst_loop-Bursts zero offset base bytes l h a = absurd (omega arith)
    burst_loop-Bursts (suc fuel) offset base bytes l h a =
        let inside : ltb (length bytes) offset ≡ false = ground (arith, a.inside) in
        let n = (push_slice (drop offset bytes) (own_ring rb mp aw (turn rb mp aw env l))).0 in
        let l' = push rb mp aw (drop offset bytes) (turn rb mp aw env l) in
        let more : Accepted base bytes (offset + n) l' =
          Accepted-push base bytes offset (turn rb mp aw env l)
            (Accepted-turn base bytes offset l a) in
        elim (Bool-cases (n == 0)) [
          | inl stuck ↦
              rw (inside, burst_loop, stuck)
                (subst (λ k. Accepted base bytes k l') (ground arith) more)
          | inr some ↦ elim (Bool-cases (offset + n == length bytes)) [
            | inl all ↦ rw (inside, burst_loop, some, all) (more, ground arith)
            | inr rest ↦
                rw (inside, burst_loop, some, rest)
                  (burst_loop-Bursts fuel (offset + n) base bytes l' (ground (arith, more.inside))
                    more)
          ]
        ]

    pub burst_write-Bursts :
        (offset : ℕ) (base bytes : List Byte) (l : Shared rb mp aw)
        → Accepted base bytes offset l
        → Ends (Bursts base bytes) (burst_write rb mp aw env offset bytes l)
    unfolding burst_write
    burst_write-Bursts offset base bytes l a =
        burst_loop-Bursts (suc (length bytes - offset)) offset base bytes l (omega arith) a

  pub Accepted-start :
      (bytes : List Byte) (l : Shared rb mp aw)
      → IsReady rb mp aw l
      → Accepted (stream rb mp aw l) bytes 0 l
  Accepted-start bytes l h = record {
    ready = h;
    inside = omega arith;
    appended = sym (append-nil (stream rb mp aw l));
  }
