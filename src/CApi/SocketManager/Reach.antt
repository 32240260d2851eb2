-- ===== src/CApi/SocketManager/Reach.antt =====
-- What an abort that C asks for does: from the command over the main loop to the tasks of connections.
use socket_manager.Prelude.{
  ℕ, ◌+◌, ◌≤◌, ◌≡◌, refl, ap, ◌∙◌, true, false, String, List, [], ◌∷◌, ◌++◌, length, length-append,
  arith, some,
}
use socket_manager.Std.{Result, Ends}
use socket_manager.Channel.{Mpsc}
use socket_manager.ConnState.{Runtime, ConnectionState}
use socket_manager.ConnState.StopAll.{stopped_connection}
use socket_manager.JoinTasks.{stop_closed}
use socket_manager.ConnHandle.{in_join, Connection, branch_at}
use socket_manager.ConnHandle.Abort.{with_state, Aborted, stopped-Aborted}
use socket_manager.MainLoop.{
  Command, listen, connect, cancel_listen, abort, Loop, remove_listener, main_run,
}
use socket_manager.MainLoop.Order.{state_of, main-Executes}
use socket_manager.Manager.{send_command, abort_manager}
use socket_manager.CApi.Memory.{Libc, Texts}
use socket_manager.CApi.Utils.{null_mut, CState, report}
use socket_manager.CApi.SocketManager.{Managed, socket_manager_abort}

module _ (libc : Libc) (rt : Runtime) (texts : Texts rt.SocketAddr)
    (mp : Mpsc (Command rt.SocketAddr)) where
  open rt use {SocketAddr}
  open mp use {queued, receiver_gone}

  -- Behind commands of which the last is `Abort`, the stop channel of a registered connection is
  -- closed.
  state_of_closed :
      (cs : List (Command SocketAddr)) (s : ConnectionState rt) (k : SocketAddr × SocketAddr)
      (i : ℕ)
      → rt.connections.find k s.connections ≡ some i
      → rt.stop.is_closed ((state_of rt mp (cs ++ abort ∷ []) s).stops i) ≡ true
  state_of_closed [] s k i e = stopped_connection rt s k i e
  state_of_closed (listen a ∷ cs) s k i e = state_of_closed cs s k i e
  state_of_closed (connect a d ∷ cs) s k i e = state_of_closed cs s k i e
  state_of_closed (cancel_listen a ∷ cs) s k i e =
      state_of_closed cs (remove_listener rt mp a s) k i e
  state_of_closed (abort ∷ cs) s k i e = stopped_connection rt s k i e

  -- The main loop has gone on with the channel that the manager's calls have left.
  abbrev pub later : ℕ → Loop rt mp → Managed libc texts mp → ConnectionState rt
  later n l m = (main_run rt mp n (record l { cmd_recv = m.cmd_send })).connection_state

  later_closed :
      (n : ℕ) (l : Loop rt mp) (m : Managed libc texts mp) (k : SocketAddr × SocketAddr) (i : ℕ)
      → l.is_running ≡ true
      → receiver_gone m.cmd_send ≡ false
      → length (queued m.cmd_send) + 1 ≤ n
      → rt.connections.find k l.connection_state.connections ≡ some i
      → rt.stop.is_closed ((later n l (send_command SocketAddr mp abort m).1).stops i) ≡ true
  later_closed n l m k i runs here le e =
      let q = (mp.send_ok abort m.cmd_send here).1 in
      let cs = queued m.cmd_send ++ abort ∷ [] in
      let m' : Managed libc texts mp = (send_command SocketAddr mp abort m).1 in
      let done_all =
        main-Executes rt mp n cs (record l { cmd_recv = m'.cmd_send })
          (omega (arith, length-append (queued m.cmd_send) (abort ∷ []))) runs q in
      ap (λ (s : ConnectionState rt). rt.stop.is_closed (s.stops i)) done_all.1
      ∙ state_of_closed (queued m.cmd_send) l.connection_state k i e

  -- A C call of abort that does not wait returns 0 with a null pointer. Once the main loop, if it runs, has
  -- been polled as often as there are commands in the queue, the `Abort` among them, the task of
  -- each connection that was registered then can take the branch of the stop signal, and doing
  -- so ends the connection, with both of its tasks told to abort or ended.
  pub abort_reaches :
      (m : Managed libc texts mp) (l : Loop rt mp) (c : Connection rt) (n : ℕ)
      (thread : Result (Unit {0}) String) (s : CState libc texts)
      → l.is_running ≡ true
      → receiver_gone m.cmd_send ≡ false
      → length (queued m.cmd_send) + 1 ≤ n
      → rt.connections.find c.addrs l.connection_state.connections ≡ some c.stop
      → c.stage ≡ in_join
      → Ends
          (λ out.
            (out.0 ≡ 0)
            × (out.2.err ≡ null_mut)
            × Aborted rt (branch_at rt c.stage stop_closed (with_state rt (later n l out.1) c)))
          (socket_manager_abort libc texts mp false thread m s)
  unfolding socket_manager_abort abort_manager report
  abort_reaches m l c n thread s runs here le e stage = (
    refl,
    refl,
    stopped-Aborted rt c (later n l (send_command SocketAddr mp abort m).1) stage
        (later_closed n l m c.addrs c.stop runs here le e),
  )
