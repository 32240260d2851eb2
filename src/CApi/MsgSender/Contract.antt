-- ===== src/CApi/MsgSender/Contract.antt =====
-- What a C caller of the sender learns from the return code and the error pointer.
use socket_manager.Prelude.{
  ℕ, ◌^◌, ◌≤◌, ◌<◌, ◌≡◌, refl, ap, ◌≢◌, ◌⊎◌, inl, inr, List, ◌++◌, length, take, ◌==◌, arith,
  if_cases,
}
use socket_manager.Prelude.Int.{ℤ, pos, as_c_long_small}
use socket_manager.Std.{Byte, Poll, ready, pending, ok, err, IoResult, done, Ends, >>=-Ends}
use socket_manager.Io.{AsyncWrite}
use socket_manager.Ring.{RingBuf}
use socket_manager.Channel.{Mpsc}
use socket_manager.Link.{stream}
use socket_manager.Link.Invariant.{IsReady}
use socket_manager.MsgSender.{Shared, send_async, send_nonblock, flush, connection_closed}
use socket_manager.MsgSender.Bursts.{IsWriter}
use socket_manager.MsgSender.Sends.{Sent, HasFlushed, send_nonblock-Sent, flush_lem}
use socket_manager.MsgSender.Async.{SentAsync, send_async-SentAsync}
use socket_manager.CApi.Memory.{Libc, Texts}
use socket_manager.CApi.Utils.{null_mut, CState, write_display_c_str}
use socket_manager.CApi.Utils.RoundTrip.{IsClean, IsWritten, write-IsWritten}
use socket_manager.CApi.Utils.Answers.{HasCleanErrors, Answers, respond-Answers}
use socket_manager.CApi.MsgSender.{
  pending_code, async_code, socket_manager_msg_sender_send_nonblock,
  socket_manager_msg_sender_send_async, socket_manager_msg_sender_flush,
}

module _ (libc : Libc) {SocketAddr : Type 0} (texts : Texts SocketAddr) (rb : RingBuf) (mp : Mpsc ℕ)
    (aw : AsyncWrite) (env : ℕ → Shared rb mp aw → Shared rb mp aw)
    (w : IsWriter rb mp aw env) where
  open libc use {raw_parts}
  open texts use {error_text}

  -- If the text of the error has no byte 0, a C call of `send_nonblock` comes to an end without a panic: either it
  -- returns 0 with a null pointer, and the whole message has gone to the end of the stream, or it
  -- returns 1 with a new C string that holds the text of the `WriteZero` error, and only a
  -- part from the front of the message has.
  pub send_nonblock-Answers :
      (msg len : ℕ) (l : Shared rb mp aw) (s : CState libc texts)
      → IsReady rb mp aw l
      → HasCleanErrors libc texts (send_nonblock rb mp aw env (raw_parts msg len s.memory) l)
      → Ends
          (Answers libc texts (Sent rb mp aw l (raw_parts msg len s.memory)) s)
          (socket_manager_msg_sender_send_nonblock libc texts rb mp aw env msg len l s)
  unfolding socket_manager_msg_sender_send_nonblock
  send_nonblock-Answers msg len l s h clean =
      respond-Answers libc texts (Sent rb mp aw l (raw_parts msg len s.memory)) s
        (send_nonblock rb mp aw env (raw_parts msg len s.memory) l) clean
        (send_nonblock-Sent rb mp aw env w (raw_parts msg len s.memory) l h)

  -- If the text of the error has no byte 0, a C call of `flush` comes to an end without a panic and changes
  -- nothing in the stream: it returns 0 with a null pointer when the receiver of rings is there after
  -- the writer task's turn, else 1 with a new C string that holds the text of the `WriteZero` error.
  pub flush-Answers :
      (l : Shared rb mp aw) (s : CState libc texts)
      → IsReady rb mp aw l
      → HasCleanErrors libc texts (flush rb mp aw env l)
      → Ends
          (Answers libc texts (HasFlushed rb mp aw env w l) s)
          (socket_manager_msg_sender_flush libc texts rb mp aw env l s)
  unfolding socket_manager_msg_sender_flush
  flush-Answers l s h clean =
      respond-Answers libc texts (HasFlushed rb mp aw env w l) s (flush rb mp aw env l) clean
        (flush_lem rb mp aw env w l h)

  -- The three answers, told apart by the code and the error pointer.
  abbrev pub AnswersAsync :
      Shared rb mp aw
      → List Byte
      → CState libc texts
      → ℤ × Shared rb mp aw × CState libc texts
      → Type 0
  AnswersAsync l bytes s (code, l', s') =
      ((n : ℕ) × (code ≡ pos n)
        × (0 < n)
        × (n ≤ length bytes)
        × (s'.err ≡ null_mut)
        × (stream rb mp aw l' ≡ stream rb mp aw l ++ take n bytes))
      ⊎ ((code ≡ pos 0)
          × IsWritten libc texts (error_text connection_closed) s s'
          × (stream rb mp aw l' ≡ stream rb mp aw l))
      ⊎ ((code ≡ pending_code) × (s' ≡ s) × (stream rb mp aw l' ≡ stream rb mp aw l))

  async_code-AnswersAsync :
      (l : Shared rb mp aw) (bytes : List Byte) (s : CState libc texts)
      (out : Poll (IoResult ℕ) × Shared rb mp aw)
      → length bytes < 2 ^ 63
      → IsClean libc texts {A = ℕ} (err connection_closed)
      → SentAsync rb mp aw l bytes out
      → Ends (AnswersAsync l bytes s) (async_code libc texts rb mp aw env s out)
  unfolding async_code
  async_code-AnswersAsync l bytes s (ready (ok n), l') short clean h =
      inl (n, as_c_long_small n (omega (arith, h.2)), h.1, h.2, refl, h.3)
  async_code-AnswersAsync l bytes s (ready (err e), l') short clean h =
      >>=-Ends (IsWritten libc texts (error_text e) s) (AnswersAsync l bytes s)
        (write_display_c_str libc texts (error_text e) s) (λ s'. done (pos 0, l', s'))
        (write-IsWritten libc texts (error_text e) s (rw h.2 clean))
        (λ s' v. inr (inl (refl, rw⁻¹ h.2 v, h.1)))
  async_code-AnswersAsync l bytes s (pending, l') short clean h = inr (inr (refl, refl, h.1))

  -- If the text of the error "connection closed" has no byte 0, a C call of `send_async` with a message that is neither empty nor 2^63 bytes long or longer comes to an
  -- end without a panic, and its answer can be told from the code and the pointer: a positive
  -- number, with a null pointer, is how many bytes from the front have gone to the end of the
  -- stream; 0 with the text of the error, or -1 with the pointer as it was, say that none have.
  pub send_async-AnswersAsync :
      (msg len notifier : ℕ) (l : Shared rb mp aw) (s : CState libc texts)
      → notifier ≢ null_mut
      → 0 < len
      → len < 2 ^ 63
      → IsReady rb mp aw l
      → IsClean libc texts {A = ℕ} (err connection_closed)
      → Ends
          (AnswersAsync l (raw_parts msg len s.memory) s)
          (socket_manager_msg_sender_send_async libc texts rb mp aw env msg len notifier l s)
  unfolding socket_manager_msg_sender_send_async
  send_async-AnswersAsync msg len notifier l s ne some_bytes short h clean =
      let bytes = raw_parts msg len s.memory in
      let n = libc.length-raw_parts msg len s.memory in
      if_cases (Ends (AnswersAsync l bytes s)) (notifier == null_mut) _ _
        (λ z. absurd (ground (arith, ne)))
        (λ _.
          >>=-Ends (SentAsync rb mp aw l bytes) (AnswersAsync l bytes s)
            (send_async rb mp aw env bytes l) (async_code libc texts rb mp aw env s)
            (send_async-SentAsync rb mp aw env w bytes l (λ e. omega (arith, n, ap length e)) h)
            (λ out t. async_code-AnswersAsync l bytes s out (omega (arith, n)) clean t))
