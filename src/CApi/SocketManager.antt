-- ===== src/CApi/SocketManager.antt =====
-- src/c_api/socket_manager.rs: the manager for C. Addresses come as C strings, delays in
-- milliseconds. `thread` is how the thread of the main loop ends, if the call waits for it.
pub mod Commands
pub mod Reach
use socket_manager.Prelude.{ℕ, Bool, true, String, Option, none, some}
use socket_manager.Std.{Result, ok, err, IoResult, Duration, Run, done, ◌>>=◌}
use socket_manager.Channel.{Mpsc}
use socket_manager.MainLoop.{Command}
use socket_manager.Threads.{Builder}
use socket_manager.Manager.{
  SocketManager, init_manager, listen_on_addr, connect_to_addr, cancel_listen_on_addr, join,
  abort_manager, drop_manager,
}
use socket_manager.CApi.Memory.{Libc, Texts}
use socket_manager.CApi.Utils.{null_mut, CState, socket_addr, write_display_c_str, respond}

module _ (libc : Libc) {SocketAddr : Type 0} (texts : Texts SocketAddr)
    (mp : Mpsc (Command SocketAddr)) where
  open texts use {error_text}

  abbrev pub Managed : Type 0
  Managed = SocketManager SocketAddr mp

  abbrev pub Out : Type 0
  Out = Run (ℕ × Managed × CState libc texts)

  -- A pointer to the manager, null if there is none.
  abbrev pub boxed : IoResult Managed → CState libc texts → Run (Option Managed × CState libc texts)
  boxed (ok m) s = done (some m, record s { err = null_mut })
  boxed (err e) s = write_display_c_str libc texts (error_text e) s >>= λ s'. done (none, s')

  -- `build` is tokio's, and `available` what `available_parallelism` says.
  unfoldable pub socket_manager_init :
      {R : Type 0}
      → (Builder → IoResult R)
      → ℕ
      → Option ℕ
      → CState libc texts
      → Run (Option Managed × CState libc texts)
  socket_manager_init build n_threads available s =
      boxed (init_manager SocketAddr mp build n_threads available) s

  -- `match socket_addr(addr)`, with the call for an address that could be parsed.
  abbrev pub with_addr :
      IoResult SocketAddr
      → (SocketAddr → Managed → IoResult (Unit {0}) × Managed)
      → Managed
      → CState libc texts
      → Out
  with_addr (ok a) f m s = respond libc texts s (f a m)
  with_addr (err e) f m s = respond libc texts s (err e, m)

  unfoldable pub socket_manager_listen_on_addr : Managed → ℕ → CState libc texts → Out
  socket_manager_listen_on_addr m addr s =
      with_addr (socket_addr libc texts addr s.memory) (listen_on_addr SocketAddr mp) m s

  unfoldable pub socket_manager_connect_to_addr : Managed → ℕ → Duration → CState libc texts → Out
  socket_manager_connect_to_addr m addr delay s =
      with_addr (socket_addr libc texts addr s.memory) (λ a. connect_to_addr SocketAddr mp a delay)
        m s

  unfoldable pub socket_manager_cancel_listen_on_addr : Managed → ℕ → CState libc texts → Out
  socket_manager_cancel_listen_on_addr m addr s =
      with_addr (socket_addr libc texts addr s.memory) (cancel_listen_on_addr SocketAddr mp) m s

  unfoldable pub socket_manager_abort :
      Bool → Result (Unit {0}) String → Managed → CState libc texts → Out
  socket_manager_abort wait thread m s =
      abort_manager SocketAddr mp wait thread m >>= respond libc texts s

  unfoldable pub socket_manager_join : Result (Unit {0}) String → Managed → CState libc texts → Out
  socket_manager_join thread m s = join SocketAddr mp thread m >>= respond libc texts s

  unfoldable pub socket_manager_free : Result (Unit {0}) String → Managed → Run Managed
  socket_manager_free thread m = drop_manager SocketAddr mp thread m
