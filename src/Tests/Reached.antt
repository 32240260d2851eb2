-- ===== src/Tests/Reached.antt =====
-- An abort that C asks for, with other commands before it.
use socket_manager.Prelude.{ℕ, ◌≡◌, refl, false, [], ◌∷◌, arith}
use socket_manager.Std.{ok, Ends}
use socket_manager.JoinTasks.{stop_closed}
use socket_manager.ConnHandle.{in_join, branch_at}
use socket_manager.ConnHandle.Abort.{with_state, Aborted}
use socket_manager.MainLoop.{Command, listen, cancel_listen}
use socket_manager.Manager.{SocketManager, init}
use socket_manager.CApi.Utils.{CState}
use socket_manager.CApi.SocketManager.{socket_manager_abort}
use socket_manager.CApi.SocketManager.Reach.{later, abort_reaches}
use socket_manager.Tests.Rings.{test_channel}
use socket_manager.Tests.Runtimes.{test_runtime}
use socket_manager.Tests.Lives.{main_loop, in_use}
use socket_manager.Tests.Texts.{test_texts}
use socket_manager.Tests.Blocks.{test_libc}

abbrev busy : SocketManager ℕ (test_channel (Command ℕ))
busy = record (init ℕ (test_channel (Command ℕ))) {
  cmd_send = record { queue = listen 6 ∷ cancel_listen 5 ∷ []; tx_gone = false; rx_gone = false };
}

abbrev c_state : CState test_libc test_texts
c_state = record { memory = []; err = 7 }

abort_reaches_example :
    Ends
      (λ out.
        (out.0 ≡ 0)
        × (out.2.err ≡ 0)
        × Aborted test_runtime (
            branch_at test_runtime in_join stop_closed (
              with_state test_runtime
                (later test_libc test_runtime test_texts
                  (test_channel (Command ℕ))
                  3
                  main_loop
                  out.1)
                in_use)))
      (socket_manager_abort test_libc test_texts
        (test_channel (Command ℕ))
        false
        (ok tt)
        busy
        c_state)
abort_reaches_example =
    abort_reaches test_libc test_runtime test_texts (test_channel (Command ℕ)) busy main_loop in_use
      3 (ok tt) c_state refl refl (omega arith) refl refl
