-- ===== src/ConnHandle.antt =====
-- src/conn_handle.rs: the task that `handle_connection` spawns, from the call of `on_conn` on. A step is
-- one poll of what the task awaits; between two of them the user may call or drop the `Conn`, and
-- other connections and the manager may change the shared state.
pub mod Events
pub mod Abort
pub mod Waits
pub mod Grows
pub mod Ending
use socket_manager.Prelude.{
  ℕ, ◌+◌, Bool, true, false, String, List, [], ◌∷◌, ◌++◌, Option, none, some, if◌then◌else◌,
}
use socket_manager.Std.{Poll, ready, pending, Result, ok, err, Run, done, ◌>>=◌}
use socket_manager.Config.{ConnConfig}
use socket_manager.Link.{update}
use socket_manager.ConnState.{
  Runtime, ConnState, on_connect, on_connection_close, ConnectionState, insert_connection,
  remove_connection,
}
use socket_manager.Conn.{Conn, Held, conn_new, drop_conn}
use socket_manager.Conn.Calls.{Call, call}
use socket_manager.JoinTasks.{
  Task, absent, Branch, stop_closed, writer_joined, reader_joined, Join, joining, select_round,
}

-- What the task does: it was spawned, `on_conn` runs with `OnConnect`, it awaits the start signal, it is
-- in `join_reader_writer`, or it is done.
pub data Stage : Type 0 where
  spawned calling waiting in_join closed : Stage

module _ (rt : Runtime) where
  open rt use {SocketAddr, OnMsg}

  -- `addrs` are the task's `local_addr` and `peer_addr`; `stop` is the number of the stop channel, once there is one. `join.events` are all calls of
  -- `on_conn`.
  pub record Connection : Type 0 where
    pub stage : Stage
    pub addrs : SocketAddr × SocketAddr
    pub held : Held rt
    pub join : Join rt
    pub stop : ℕ

  -- `handle_connection` makes the channel of the start signal and spawns the task.
  unfoldable pub handle_connection : SocketAddr → SocketAddr → ConnectionState rt → Connection
  handle_connection local_addr peer_addr state = record {
    stage = spawned;
    addrs = (local_addr, peer_addr);
    held = record {
      conn = conn_new rt local_addr peer_addr;
      config = rt.config.channel;
      state = state;
    };
    join = record {
      writer = absent;
      reader = absent;
      writer_stopped = false;
      reader_stopped = false;
      finished = false;
      events = [];
    };
    stop = 0;
  }

  abbrev pub tell : ConnState SocketAddr → Connection → Connection
  tell e c = record c { join = record c.join { events = c.join.events ++ e ∷ [] } }

  -- `on_conn(ConnState::OnConnectionClose {…})`, the task's end. The receiver of the start
  -- signal is gone by then.
  abbrev pub close_up : Connection → Connection
  close_up c = record (tell (on_connection_close c.addrs.0 c.addrs.1) c) {
    stage = closed;
    held = record c.held { config = rt.config.drop_receiver c.held.config };
  }

  -- `on_connect_on_conn(ConnState::OnConnect {…}).map_err(…)?`
  abbrev pub answered : Result (Unit {0}) String → Connection → Connection
  answered (ok u) c = record c { stage = waiting }
  answered (err e) c = close_up c

  -- Both tasks are spawned, and the stopper is put into `connection_state`.
  abbrev pub start_tasks : Connection → Connection
  start_tasks c = record c {
    stage = in_join;
    held = record c.held {
      state = insert_connection rt c.addrs c.held.state.count (record c.held.state {
        stops = update c.held.state.stops c.held.state.count rt.stop.channel;
        count = c.held.state.count + 1;
      });
    };
    join = joining rt c.join.events;
    stop = c.held.state.count;
  }

  -- `conn_config.await`
  abbrev pub started :
      Poll (Result (OnMsg × ConnConfig) (Unit {0})) → rt.config.Chan → Connection → Connection
  started (ready (ok m)) ch c = start_tasks (record c { held = record c.held { config = ch } })
  started (ready (err e)) ch c = close_up (record c { held = record c.held { config = ch } })
  started pending ch c = record c { held = record c.held { config = ch } }

  -- The loop of `join_reader_writer` is left: the connection is removed.
  abbrev pub joined : Connection → Connection
  joined c =
      if c.join.finished
      then close_up
          (record c { held = record c.held { state = remove_connection rt c.addrs c.held.state } })
      else c

  -- The branch of the stop channel is ready once its receiver is dropped.
  abbrev pub is_ready : Branch rt → Connection → Bool
  is_ready stop_closed c = rt.stop.is_closed (c.held.state.stops c.stop)
  is_ready (writer_joined r) c = true
  is_ready (reader_joined r) c = true

  abbrev pub join_at : Branch rt → Connection → Connection
  join_at b c =
      if is_ready b c then joined (record c { join = select_round rt c.addrs b c.join }) else c

  -- A step of the task, the answer of `on_conn`, a ready branch, a call of the user, the user's drop of
  -- the `Conn`, or a change of the shared state by others.
  pub data Action : Type 0 where
    polls : Action
    answers : Result (Unit {0}) String → Action
    joins : Branch rt → Action
    calls : Call rt → Action
    drops_conn : Action
    others : (ConnectionState rt → ConnectionState rt) → Action

  unfoldable pub poll_at : Stage → Connection → Connection
  poll_at spawned c = record (tell (on_connect c.addrs.0 c.addrs.1) c) { stage = calling }
  poll_at waiting c =
      started (rt.config.poll_recv c.held.config).0 (rt.config.poll_recv c.held.config).1 c
  poll_at calling c = c
  poll_at in_join c = c
  poll_at closed c = c

  unfoldable pub answer_at : Stage → Result (Unit {0}) String → Connection → Connection
  answer_at calling r c = answered r c
  answer_at spawned r c = c
  answer_at waiting r c = c
  answer_at in_join r c = c
  answer_at closed r c = c

  unfoldable pub branch_at : Stage → Branch rt → Connection → Connection
  branch_at in_join b c = join_at b c
  branch_at spawned b c = c
  branch_at calling b c = c
  branch_at waiting b c = c
  branch_at closed b c = c

  -- What does not fit the stage changes nothing.
  unfoldable pub conn_step : Action → Connection → Run Connection
  unfolding poll_at answer_at branch_at
  conn_step polls c = done (poll_at c.stage c)
  conn_step (answers r) c = done (answer_at c.stage r c)
  conn_step (joins b) c = done (branch_at c.stage b c)
  conn_step (calls u) c = call rt u c.held >>= λ out. done (record c { held = out.1 })
  conn_step drops_conn c = done (record c { held = drop_conn rt c.held })
  conn_step (others f) c = done (record c { held = record c.held { state = f c.held.state } })

  unfoldable pub conn_run : List Action → Connection → Run Connection
  conn_run [] c = done c
  conn_run (action ∷ actions) c = conn_step action c >>= conn_run actions
