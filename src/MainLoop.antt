-- ===== src/MainLoop.antt =====
-- src/lib.rs: the commands of the manager and the main loop in the background, which executes them.
-- What a command spawns is a job: ListenTask and ConnectTask model the two kinds.
pub mod Order
use socket_manager.Prelude.{
  ℕ, zero, suc, Bool, true, false, List, [], ◌∷◌, ◌++◌, Option, none, some,
}
use socket_manager.Std.{Poll, ready, pending, Duration}
use socket_manager.Channel.{Mpsc}
use socket_manager.ConnState.{Runtime, ConnectionState, drop_found, stop_all}

pub data Command (A : Type 0) : Type 0 where
  listen : A → Command A
  connect : A → Duration → Command A
  cancel_listen : A → Command A
  abort : Command A

-- A spawned task.
pub data Job (A : Type 0) : Type 0 where
  listen_on_addr : A → Job A
  connect_to_addr : A → Duration → Job A

module _ (rt : Runtime) (mp : Mpsc (Command rt.SocketAddr)) where
  open rt use {SocketAddr}
  open mp use {Chan, poll_recv}

  -- `is_running` says that the loop was not left; `jobs` are the tasks spawned so far.
  pub record Loop : Type 0 where
    pub cmd_recv : Chan
    pub connection_state : ConnectionState rt
    pub jobs : List (Job SocketAddr)
    pub is_running : Bool

  -- `connection_state.listeners.remove(&addr)`, whose answer is dropped
  abbrev pub remove_listener : SocketAddr → ConnectionState rt → ConnectionState rt
  remove_listener a s = record s {
    listeners = (rt.listeners.remove a s.listeners).1;
    stops = drop_found rt (rt.listeners.remove a s.listeners).0 s.stops;
  }

  abbrev pub spawn : Job SocketAddr → Loop → Loop
  spawn j l = record l { jobs = l.jobs ++ j ∷ [] }

  -- The loop is left, and `main` returns, which drops the receiver of the commands.
  abbrev pub leave : Loop → Loop
  leave l = record l { cmd_recv = mp.drop_receiver l.cmd_recv; is_running = false }

  -- The arms of `match cmd`.
  unfoldable pub execute : Command SocketAddr → Loop → Loop
  execute (listen a) l = spawn (listen_on_addr a) l
  execute (connect a delay) l = spawn (connect_to_addr a delay) l
  execute (cancel_listen a) l = record l { connection_state = remove_listener a l.connection_state }
  execute abort l = leave (record l { connection_state = stop_all rt l.connection_state })

  abbrev pub received : Poll (Option (Command SocketAddr)) → Loop → Loop
  received (ready (some c)) l = execute c l
  received (ready none) l = leave l
  received pending l = l

  -- A poll of `cmd_recv.recv()`, and what follows it.
  abbrev pub recv_step : Loop → Loop
  recv_step l = received (poll_recv l.cmd_recv).0 (record l { cmd_recv = (poll_recv l.cmd_recv).1 })

  abbrev pub step_at : Bool → Loop → Loop
  step_at true l = recv_step l
  step_at false l = l

  -- So many polls of `main`.
  unfoldable pub main_run : ℕ → Loop → Loop
  main_run zero l = l
  main_run (suc n) l = main_run n (step_at l.is_running l)
