-- ===== src/Manager.antt =====
-- src/lib.rs: `SocketManager`, the handle that the user holds, with the channel to the main loop.
pub mod JoinOnce
use socket_manager.Prelude.{
  ℕ, Bool, true, false, String, List, [], ◌∷◌, Option, none, some, if◌then◌else◌,
}
use socket_manager.Std.{
  Result, ok, err, IoError, IoResult, other, text, prefixed, new_error, Duration, Run, done, panics,
  ◌>>=◌,
}
use socket_manager.Channel.{Mpsc}
use socket_manager.Threads.{Builder, start_runtime}
use socket_manager.MainLoop.{Command, listen, connect, cancel_listen, abort}

abbrev pub stopped_error : IoError
stopped_error = new_error other (text "socket manager has stopped")

-- The handle of the thread of the main loop.
pub data JoinHandle : Type 0 where
  join_handle : JoinHandle

-- `join_error` is the error of a thread that panicked.
abbrev pub join_error : String → IoError
join_error e = new_error other (prefixed "socket manager join returned error: " (text e))

module _ (SocketAddr : Type 0) (mp : Mpsc (Command SocketAddr)) where
  pub record SocketManager : Type 0 where
    pub cmd_send : mp.Chan
    pub has_joined : Bool
    pub handle : Option JoinHandle

  -- The new manager: its channel is new, and the thread was started.
  abbrev pub init : SocketManager
  init = record { cmd_send = mp.unbounded_channel; has_joined = false; handle = some join_handle }

  -- `SocketManager::init`: without a runtime there is no manager.
  abbrev pub init_with : {R : Type 0} → IoResult R → IoResult SocketManager
  init_with (ok runtime) = ok init
  init_with (err e) = err e

  abbrev pub init_manager :
      {R : Type 0} → (Builder → IoResult R) → ℕ → Option ℕ → IoResult SocketManager
  init_manager build n_threads available = init_with (start_runtime build n_threads available)

  -- `.map_err(…)` of a command that was sent
  abbrev pub sent : Result (Unit {0}) String → IoResult (Unit {0})
  sent (ok u) = ok tt
  sent (err e) = err stopped_error

  abbrev pub send_command : Command SocketAddr → SocketManager → IoResult (Unit {0}) × SocketManager
  send_command c m =
      (sent (mp.send c m.cmd_send).0, record m { cmd_send = (mp.send c m.cmd_send).1 })

  abbrev pub listen_on_addr : SocketAddr → SocketManager → IoResult (Unit {0}) × SocketManager
  listen_on_addr addr m = send_command (listen addr) m

  abbrev pub connect_to_addr :
      SocketAddr → Duration → SocketManager → IoResult (Unit {0}) × SocketManager
  connect_to_addr addr delay m = send_command (connect addr delay) m

  abbrev pub cancel_listen_on_addr :
      SocketAddr → SocketManager → IoResult (Unit {0}) × SocketManager
  cancel_listen_on_addr addr m = send_command (cancel_listen addr) m

  -- What the thread's `join` gives, for the caller.
  abbrev pub join_answer : Result (Unit {0}) String → IoResult (Unit {0})
  join_answer (ok u) = ok tt
  join_answer (err e) = err (join_error e)

  -- `self.join_handle.take().unwrap().join()`
  abbrev pub join_thread :
      Option JoinHandle
      → Result (Unit {0}) String
      → SocketManager
      → Run (IoResult (Unit {0}) × SocketManager)
  join_thread none thread m = panics
  join_thread (some join_handle) thread m =
      done (join_answer thread, record m { has_joined = true; handle = none })

  -- `thread` is how the thread of the main loop ends.
  unfoldable pub join :
      Result (Unit {0}) String → SocketManager → Run (IoResult (Unit {0}) × SocketManager)
  join thread m = if m.has_joined then done (ok tt, m) else join_thread m.handle thread m

  unfoldable pub abort_manager :
      Bool → Result (Unit {0}) String → SocketManager → Run (IoResult (Unit {0}) × SocketManager)
  abort_manager wait thread m =
      let m' = (send_command abort m).1 in if wait then join thread m' else done (ok tt, m')

  -- `drop` aborts and waits; the answer is dropped.
  unfoldable pub drop_manager : Result (Unit {0}) String → SocketManager → Run SocketManager
  drop_manager thread m = abort_manager true thread m >>= λ out. done out.1
