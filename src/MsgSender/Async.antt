-- ===== src/MsgSender/Async.antt =====
-- What `send_async` of src/msg_sender.rs does to the stream, on every branch.
use socket_manager.Prelude.{
  ℕ, suc, ◌≤◌, ◌<◌, ◌≡◌, refl, sym, ap, ◌∙◌, ◌≢◌, inl, inr, Bool, true, false, List, [], ◌∷◌, ◌++◌,
  append-nil, arith, length, take, ltb, Bool-cases, not-ltb→le, ltb→lt,
}
use socket_manager.Std.{Byte, Poll, ok, err, IoResult, Run, Ends, Ends-map, >>=-Ends}
use socket_manager.Io.{AsyncWrite}
use socket_manager.Ring.{RingBuf}
use socket_manager.Channel.{Mpsc}
use socket_manager.Link.{stream}
use socket_manager.Link.Invariant.{IsReady, IsReady-with_own, stream-with_own}
use socket_manager.MsgSender.{
  BurstWriteState, finished, Shared, own_ring, turn, register, burst_write, connection_closed,
  after_burst_async, async_loop, send_async,
}
use socket_manager.MsgSender.Bursts.{
  IsWriter, Accepted, Accepted-start, IsReady-turn, Bursts, burst_write-Bursts,
}

module _ (rb : RingBuf) (mp : Mpsc ℕ) (aw : AsyncWrite) where
  open rb use {prod_is_closed, register_keeps, register_waker, items}

  abbrev Out : Type 0
  Out = Poll (IoResult ℕ) × Shared rb mp aw

  -- Some bytes from the front have gone to the end of the stream, at least one; or, with no room or
  -- a closed connection, none.
  abbrev pub SentAsync : Shared rb mp aw → List Byte → Out → Type 0
  SentAsync l bytes (Poll.ready (ok n), l') =
      IsReady rb mp aw l'
      × (0 < n)
      × (n ≤ length bytes)
      × (stream rb mp aw l' ≡ stream rb mp aw l ++ take n bytes)
  SentAsync l bytes (Poll.ready (err e), l') =
      IsReady rb mp aw l' × (stream rb mp aw l' ≡ stream rb mp aw l) × (e ≡ connection_closed)
  SentAsync l bytes (Poll.pending, l') =
      IsReady rb mp aw l' × (stream rb mp aw l' ≡ stream rb mp aw l)

  -- An answer for a stream that is the same.
  SentAsync-from :
      (l l₁ : Shared rb mp aw) (bytes : List Byte) (out : Out)
      → stream rb mp aw l₁ ≡ stream rb mp aw l
      → SentAsync l₁ bytes out
      → SentAsync l bytes out
  SentAsync-from l l₁ bytes (Poll.ready (ok n), l') e h =
      (h.0, h.1, h.2, h.3 ∙ ap (λ x. x ++ take n bytes) e)
  SentAsync-from l l₁ bytes (Poll.ready (err x), l') e h = (h.0, h.1 ∙ e, h.2)
  SentAsync-from l l₁ bytes (Poll.pending, l') e h = (h.0, h.1 ∙ e)

  IsReady-register :
      (l : Shared rb mp aw) → IsReady rb mp aw l → IsReady rb mp aw (register rb mp aw l)
  IsReady-register l h =
      IsReady-with_own rb mp aw l (register_waker (own_ring rb mp aw l)) h
        (register_keeps (own_ring rb mp aw l)).2

  stream-register :
      (l : Shared rb mp aw)
      → IsReady rb mp aw l
      → stream rb mp aw (register rb mp aw l) ≡ stream rb mp aw l
  stream-register l h =
      stream-with_own rb mp aw l (register_waker (own_ring rb mp aw l)) [] h
        ((register_keeps (own_ring rb mp aw l)).0 ∙ sym (append-nil (items (own_ring rb mp aw l))))
      ∙ append-nil (stream rb mp aw l)

  module _ (env : ℕ → Shared rb mp aw → Shared rb mp aw) (w : IsWriter rb mp aw env) where
    stream-turn :
        (l : Shared rb mp aw)
        → IsReady rb mp aw l
        → stream rb mp aw (turn rb mp aw env l) ≡ stream rb mp aw l
    stream-turn l h = w.keeps_stream l.now (l.ring_buf ∷ []) l h

    -- What follows a burst of `send_async`.
    AfterBurst : Shared rb mp aw → List Byte → BurstWriteState × ℕ × Shared rb mp aw → Type 0
    AfterBurst l bytes out = Accepted rb mp aw (stream rb mp aw l) bytes out.1 out.2

    burst-AfterBurst :
        (l : Shared rb mp aw) (bytes : List Byte) (out : BurstWriteState × ℕ × Shared rb mp aw)
        → Bursts rb mp aw (stream rb mp aw l) bytes out
        → AfterBurst l bytes out
    unfolding AfterBurst
    burst-AfterBurst l bytes (finished, offset, l') h = h.0
    burst-AfterBurst l bytes (BurstWriteState.pending, offset, l') h = h

    after_burst_async-SentAsync :
        (again : Shared rb mp aw → Run Out) (waker_registered : Bool) (bytes : List Byte)
        (l : Shared rb mp aw)
        → (waker_registered ≡ false
            → (l' : Shared rb mp aw) → IsReady rb mp aw l'
            → Ends (SentAsync l' bytes) (again l'))
        → (out : BurstWriteState × ℕ × Shared rb mp aw) → AfterBurst l bytes out
        → Ends (SentAsync l bytes) (after_burst_async rb mp aw env again waker_registered out)
    unfolding after_burst_async AfterBurst
    after_burst_async-SentAsync again true bytes l k (state, offset, l') a =
        elim (Bool-cases (ltb 0 offset)) [
          | inl some ↦
              rw (some, after_burst_async) (a.ready, ltb→lt 0 offset some, a.inside, a.appended)
          | inr none ↦ rw (none, after_burst_async) (a.ready, unchanged none)
        ]
      where
        unchanged : ltb 0 offset ≡ false → stream rb mp aw l' ≡ stream rb mp aw l
        unchanged none =
            a.appended
            ∙ ap (λ n. stream rb mp aw l ++ take n bytes)
                (let z : offset ≡ 0 = omega (arith, not-ltb→le 0 offset none) in z)
            ∙ append-nil (stream rb mp aw l)
    after_burst_async-SentAsync again false bytes l k (state, offset, l') a =
        elim (Bool-cases (ltb 0 offset)) [
          | inl some ↦
              rw (some, after_burst_async) (a.ready, ltb→lt 0 offset some, a.inside, a.appended)
          | inr none ↦
              rw (none, after_burst_async)
                (Ends-map (λ out h. SentAsync-from l l₂ bytes out (unchanged none) h) (again l₂)
                  (k refl l₂ ready₂))
        ]
      where
        l₁ : Shared rb mp aw
        l₁ = turn rb mp aw env l'

        l₂ : Shared rb mp aw
        l₂ = register rb mp aw l₁

        ready₁ : IsReady rb mp aw l₁
        ready₁ = IsReady-turn rb mp aw env w l' a.ready

        ready₂ : IsReady rb mp aw l₂
        ready₂ = IsReady-register l₁ ready₁

        unchanged : ltb 0 offset ≡ false → stream rb mp aw l₂ ≡ stream rb mp aw l
        unchanged none =
            stream-register l₁ ready₁
            ∙ stream-turn l' a.ready
            ∙ a.appended
            ∙ ap (λ n. stream rb mp aw l ++ take n bytes)
                (let z : offset ≡ 0 = omega (arith, not-ltb→le 0 offset none) in z)
            ∙ append-nil (stream rb mp aw l)

    -- A round, given that a next one is right.
    round-SentAsync :
        (fuel : ℕ) (waker_registered : Bool) (bytes : List Byte) (l : Shared rb mp aw)
        → (waker_registered ≡ false
            → (l' : Shared rb mp aw) → IsReady rb mp aw l'
            → Ends (SentAsync l' bytes) (async_loop rb mp aw env fuel true bytes l'))
        → IsReady rb mp aw l
        → Ends (SentAsync l bytes) (async_loop rb mp aw env (suc fuel) waker_registered bytes l)
    unfolding async_loop
    round-SentAsync fuel waker_registered bytes l k h =
        let l₁ = turn rb mp aw env l in
        let ready₁ : IsReady rb mp aw l₁ = IsReady-turn rb mp aw env w l h in
        elim (Bool-cases (prod_is_closed (own_ring rb mp aw l₁))) [
          | inl closed ↦ rw (closed, async_loop) (ready₁, stream-turn l h, refl)
          | inr opened ↦
              rw (opened, async_loop)
                (Ends-map (λ out x. SentAsync-from l l₁ bytes out (stream-turn l h) x) _
                  (>>=-Ends (AfterBurst l₁ bytes) (SentAsync l₁ bytes)
                    (burst_write rb mp aw env 0 bytes l₁)
                    (after_burst_async rb mp aw env (async_loop rb mp aw env fuel true bytes)
                      waker_registered)
                    (Ends-map (burst-AfterBurst l₁ bytes) _ (
                      burst_write-Bursts rb mp aw env w 0 (stream rb mp aw l₁) bytes l₁
                        (Accepted-start rb mp aw bytes l₁ ready₁)))
                    (after_burst_async-SentAsync _ waker_registered bytes l₁ k)))
        ]

    -- `send_async` of a message that is not empty comes to an end without a panic, whatever the writer
    -- task does meanwhile. An answer `n` says that exactly the first `n` bytes have gone to the end of the
    -- stream, and `n` is not 0; pending or an error says that none have.
    pub send_async-SentAsync :
        (bytes : List Byte) (l : Shared rb mp aw)
        → bytes ≢ []
        → IsReady rb mp aw l
        → Ends (SentAsync l bytes) (send_async rb mp aw env bytes l)
    unfolding send_async
    send_async-SentAsync [] l n h = absurd (n refl)
    send_async-SentAsync (b ∷ bs) l n h =
        round-SentAsync 1 false (b ∷ bs) l
          (λ _ l' h'. round-SentAsync 0 true (b ∷ bs) l' (λ e. cc) h') h

    -- What was accepted, of any message.
    abbrev pub Takes : Shared rb mp aw → List Byte → Out → Type 0
    Takes l bytes (Poll.ready (ok n), l') =
        IsReady rb mp aw l' × (stream rb mp aw l' ≡ stream rb mp aw l ++ take n bytes)
    Takes l bytes (Poll.ready (err e), l') =
        IsReady rb mp aw l' × (stream rb mp aw l' ≡ stream rb mp aw l)
    Takes l bytes (Poll.pending, l') =
        IsReady rb mp aw l' × (stream rb mp aw l' ≡ stream rb mp aw l)

    Takes-SentAsync :
        (l : Shared rb mp aw) (bytes : List Byte) (out : Out)
        → SentAsync l bytes out
        → Takes l bytes out
    Takes-SentAsync l bytes (Poll.ready (ok n), l') h = (h.0, h.3)
    Takes-SentAsync l bytes (Poll.ready (err e), l') h = (h.0, h.1)
    Takes-SentAsync l bytes (Poll.pending, l') h = h

    pub send_async-Takes :
        (bytes : List Byte) (l : Shared rb mp aw)
        → IsReady rb mp aw l
        → Ends (Takes l bytes) (send_async rb mp aw env bytes l)
    unfolding send_async
    send_async-Takes [] l h = (h, sym (append-nil (stream rb mp aw l)))
    send_async-Takes (b ∷ bs) l h =
        Ends-map (Takes-SentAsync l (b ∷ bs)) _ (send_async-SentAsync (b ∷ bs) l (λ e. cc) h)
