-- ===== src/MsgSender/Sends.antt =====
-- What `send_nonblock`, `flush` and `send_async` of src/msg_sender.rs do to the stream, on every
-- branch.
use socket_manager.Prelude.{
  ℕ, ◌-◌, ◌≤◌, ◌≡◌, refl, sym, ap, subst, ◌∙◌, ◌≢◌, ◌⊎◌, inl, inr, true, false, String, List, [],
  ◌∷◌, ◌++◌, append_assoc, append-nil, arith, length, take, drop, length-drop, take-append-drop,
  take_of_length-le, max,
}
use socket_manager.Std.{Byte, ok, err, IoResult, Ends, Ends-map, >>=-Ends}
use socket_manager.Io.{AsyncWrite}
use socket_manager.Ring.{RingBuf}
use socket_manager.Channel.{Mpsc}
use socket_manager.Link.{stream, ring_buffer_size}
use socket_manager.Link.Invariant.{IsReady}
use socket_manager.MsgSender.{
  BurstWriteState, finished, closed_error, Shared, turn, new_ring, burst_write, hand_over,
  after_burst_nonblock, send_nonblock, flush,
}
use socket_manager.MsgSender.Bursts.{
  IsWriter, Accepted, Accepted-turn, Accepted-start, IsReady-turn, Bursts, burst_write-Bursts,
}
use socket_manager.MsgSender.Handover.{HandedOver, hand_over-HandedOver}

module _ (rb : RingBuf) (mp : Mpsc ℕ) (aw : AsyncWrite) where
  open rb use {
    Ring, create, items, push_slice, push_count, items-push, push_keeps, items-create,
    capacity-create, create_open, register_keeps, register_waker,
  }
  open mp use {receiver_gone}

  abbrev Out : Type 0
  Out = IoResult (Unit {0}) × Shared rb mp aw

  -- A new ring that is large enough takes the whole message.
  items-push_create :
      (size : ℕ) (bs : List Byte) → length bs ≤ size → items (push_slice bs (create size)).1 ≡ bs
  items-push_create size bs h =
      items-push bs (create size)
      ∙ ap (λ x. x ++ take (push_slice bs (create size)).0 bs) (items-create size)
      ∙ take_of_length-le (push_slice bs (create size)).0 bs (
          omega (
            arith,
            push_count bs (create size),
            capacity-create size,
            ap length (items-create size),
          ))

  -- With success the whole message is the last of the stream; otherwise a part from its front is,
  -- and the error is of kind `WriteZero`.
  abbrev pub Sent : Shared rb mp aw → List Byte → Out → Type 0
  Sent l bytes (ok u, l') = IsReady rb mp aw l' × (stream rb mp aw l' ≡ stream rb mp aw l ++ bytes)
  Sent l bytes (err e, l') =
      IsReady rb mp aw l'
      × ((n : ℕ) × (n ≤ length bytes) × (stream rb mp aw l' ≡ stream rb mp aw l ++ take n bytes))
      × ((x : String) × (e ≡ closed_error x))

  module _ (env : ℕ → Shared rb mp aw → Shared rb mp aw) (w : IsWriter rb mp aw env) where
    Sent-hand_over :
        (l l₁ : Shared rb mp aw) (bytes : List Byte) (offset : ℕ) (out : Out)
        → Accepted rb mp aw (stream rb mp aw l) bytes offset l₁
        → HandedOver rb mp aw l₁ (drop offset bytes) out
        → Sent l bytes out
    Sent-hand_over l l₁ bytes offset (ok u, l') a h = (
      h.0,
      h.1
          ∙ ap (λ x. x ++ drop offset bytes) a.appended
          ∙ append_assoc (stream rb mp aw l) (take offset bytes) (drop offset bytes)
          ∙ ap (◌++◌ (stream rb mp aw l)) (take-append-drop offset bytes),
    )
    Sent-hand_over l l₁ bytes offset (err e, l') a h =
        (h.0, (offset, a.inside, h.1 ∙ a.appended), h.3)

    after_burst_nonblock-Sent :
        (l : Shared rb mp aw) (bytes : List Byte) (out : BurstWriteState × ℕ × Shared rb mp aw)
        → Bursts rb mp aw (stream rb mp aw l) bytes out
        → Ends (Sent l bytes) (after_burst_nonblock rb mp aw env bytes out)
    unfolding after_burst_nonblock
    after_burst_nonblock-Sent l bytes (finished, offset, l') (a, all) = (
      a.ready,
      a.appended
          ∙ ap (◌++◌ (stream rb mp aw l)) (take_of_length-le offset bytes (omega (arith, all))),
    )
    after_burst_nonblock-Sent l bytes (BurstWriteState.pending, offset, l') a =
        let l₁ = turn rb mp aw env l' in
        let rest = drop offset bytes in
        let size = max ring_buffer_size (length bytes - offset) in
        let r = (push_slice rest (create size)).1 in
        let a₁ : Accepted rb mp aw (stream rb mp aw l) bytes offset l₁ =
          Accepted-turn rb mp aw env w (stream rb mp aw l) bytes offset l' a in
        let holds : items r ≡ rest =
          items-push_create size rest (omega (arith, length-drop offset bytes)) in
        let opened : rb.cons_is_closed r ≢ true =
          λ e. create_open size (sym (push_keeps rest (create size)).1 ∙ e) in
        Ends-map (λ out h. Sent-hand_over l l₁ bytes offset out a₁ h) _
          (subst
            (λ bs.
              Ends (HandedOver rb mp aw l₁ bs)
                (hand_over rb mp aw env l₁.count (new_ring rb mp aw r l₁)))
            holds (hand_over-HandedOver rb mp aw env w l₁ r a₁.ready opened))

    -- `send_nonblock` comes to an end without a panic, whatever the writer task does meanwhile.
    -- With success the whole message has gone to the end of the stream; with an error, which
    -- is of kind `WriteZero`, only a part from its front has. The sender stays usable.
    pub send_nonblock-Sent :
        (bytes : List Byte) (l : Shared rb mp aw)
        → IsReady rb mp aw l
        → Ends (Sent l bytes) (send_nonblock rb mp aw env bytes l)
    unfolding send_nonblock
    send_nonblock-Sent [] l h = (h, sym (append-nil (stream rb mp aw l)))
    send_nonblock-Sent (b ∷ bs) l h =
        >>=-Ends (Bursts rb mp aw (stream rb mp aw l) (b ∷ bs)) (Sent l (b ∷ bs))
          (burst_write rb mp aw env 0 (b ∷ bs) l) (after_burst_nonblock rb mp aw env (b ∷ bs))
          (burst_write-Bursts rb mp aw env w 0 (stream rb mp aw l) (b ∷ bs) l
            (Accepted-start rb mp aw (b ∷ bs) l h))
          (after_burst_nonblock-Sent l (b ∷ bs))

    -- Ready as before, with the same stream; success exactly when the receiver of rings was there.
    abbrev pub HasFlushed : Shared rb mp aw → Out → Type 0
    HasFlushed l out =
        IsReady rb mp aw out.1
        × (stream rb mp aw out.1 ≡ stream rb mp aw l)
        × (((out.0 ≡ ok tt) × (receiver_gone (turn rb mp aw env l).chan ≡ false))
            ⊎ (((x : String) × (out.0 ≡ err (closed_error x)))
                × (receiver_gone (turn rb mp aw env l).chan ≡ true)))

    pub flush_lem :
        (l : Shared rb mp aw) → IsReady rb mp aw l → Ends (HasFlushed l) (flush rb mp aw env l)
    unfolding flush
    flush_lem l h =
        let l₁ = turn rb mp aw env l in
        let r = create ring_buffer_size in
        Ends-map (λ out k. flushed out k) _
          (hand_over-HandedOver rb mp aw env w l₁ r (IsReady-turn rb mp aw env w l h)
            (create_open ring_buffer_size))
      where
        same : stream rb mp aw (turn rb mp aw env l) ≡ stream rb mp aw l
        same = w.keeps_stream l.now (l.ring_buf ∷ []) l h

        flushed :
            (out : Out)
            → HandedOver rb mp aw (turn rb mp aw env l) (items (create ring_buffer_size)) out
            → HasFlushed l out
        flushed (ok u, l') k = (
          k.0,
          k.1
              ∙ ap (◌++◌ (stream rb mp aw (turn rb mp aw env l))) (items-create ring_buffer_size)
              ∙ append-nil (stream rb mp aw (turn rb mp aw env l))
              ∙ same,
          inl (refl, k.2),
        )
        flushed (err e, l') k = (k.0, k.1 ∙ same, inr ((k.3.0, ap err k.3.1), k.2))
