-- ===== src/CApi/MsgSender.antt =====
-- src/c_api/msg_sender.rs: the sender for C. A message is a pointer and a length.
pub mod Contract
use socket_manager.Prelude.{ℕ, Bool, List, ◌==◌, if◌then◌else◌}
use socket_manager.Prelude.Int.{ℤ, pos, negsuc, as_c_long}
use socket_manager.Std.{Byte, Poll, ready, pending, ok, err, IoResult, Run, done, panics, ◌>>=◌}
use socket_manager.Io.{AsyncWrite}
use socket_manager.Ring.{RingBuf}
use socket_manager.Channel.{Mpsc}
use socket_manager.MsgSender.{Shared, send_block, send_nonblock, send_async, flush, drop_msg_sender}
use socket_manager.CApi.Memory.{Libc, Texts}
use socket_manager.CApi.Utils.{null_mut, CState, write_display_c_str, respond}

-- `PENDING`
abbrev pub pending_code : ℤ
pending_code = negsuc 0

module _ (libc : Libc) {SocketAddr : Type 0} (texts : Texts SocketAddr) (rb : RingBuf) (mp : Mpsc ℕ)
    (aw : AsyncWrite) where
  open libc use {raw_parts}
  open texts use {error_text}

  -- The sender is dropped.
  abbrev pub socket_manager_msg_sender_free : Shared rb mp aw → Shared rb mp aw
  socket_manager_msg_sender_free l = drop_msg_sender rb mp aw l

  abbrev pub Out : Type 0
  Out = Run (ℕ × Shared rb mp aw × CState libc texts)

  module _ (env : ℕ → Shared rb mp aw → Shared rb mp aw) where
    unfoldable pub socket_manager_msg_sender_send_block :
        Bool → ℕ → ℕ → ℕ → Shared rb mp aw → CState libc texts → Out
    socket_manager_msg_sender_send_block in_async fuel msg len l s =
        send_block rb mp aw env in_async fuel (raw_parts msg len s.memory) l
        >>= respond libc texts s

    unfoldable pub socket_manager_msg_sender_send_nonblock :
        ℕ → ℕ → Shared rb mp aw → CState libc texts → Out
    socket_manager_msg_sender_send_nonblock msg len l s =
        send_nonblock rb mp aw env (raw_parts msg len s.memory) l >>= respond libc texts s

    -- The match on the answer of `send_async`. Where it is pending, `err` is not written.
    unfoldable pub async_code :
        CState libc texts
        → Poll (IoResult ℕ) × Shared rb mp aw
        → Run (ℤ × Shared rb mp aw × CState libc texts)
    async_code s (ready (ok n), l) = done (as_c_long n, l, record s { err = null_mut })
    async_code s (ready (err e), l) =
        write_display_c_str libc texts (error_text e) s >>= λ s'. done (pos 0, l, s')
    async_code s (pending, l) = done (pending_code, l, s)

    -- `notifier` is the pointer in the `Notifier`, which must not be null.
    unfoldable pub socket_manager_msg_sender_send_async :
        ℕ
        → ℕ
        → ℕ
        → Shared rb mp aw
        → CState libc texts
        → Run (ℤ × Shared rb mp aw × CState libc texts)
    socket_manager_msg_sender_send_async msg len notifier l s =
        if notifier == null_mut
        then panics
        else send_async rb mp aw env (raw_parts msg len s.memory) l >>= async_code s

    unfoldable pub socket_manager_msg_sender_flush : Shared rb mp aw → CState libc texts → Out
    socket_manager_msg_sender_flush l s = flush rb mp aw env l >>= respond libc texts s
