-- ===== src/ConnState.antt =====
-- src/lib.rs: the state that the manager and its connections share, and the events that the `on_conn`
-- callback is given. A stop channel lives on the heap under a number; its receiver is in one of the
-- maps, and dropping the receiver is the signal to stop.
pub mod StopAll
pub mod Registry
pub mod Isolated
use socket_manager.Prelude.{ℕ, ◌+◌, List, [], ◌∷◌, Option, none, some}
use socket_manager.Std.{IoError}
use socket_manager.Config.{ConnConfig}
use socket_manager.Link.{update}
use socket_manager.Oneshot.{Oneshot, DashMap}

-- What is not the repository's code: addresses, the user's callback, tokio and dashmap.
pub record Runtime : Type 1 where
  pub SocketAddr : Type 0
  pub OnMsg : Type 0
  pub JoinError : Type 0
  pub config : Oneshot (OnMsg × ConnConfig)
  pub stop : Oneshot (Unit {0})
  pub listeners : DashMap SocketAddr ℕ
  pub connections : DashMap (SocketAddr × SocketAddr) ℕ

-- Connection state changes for the `on_conn` callback.
pub data ConnState (A : Type 0) : Type 0 where
  on_connect on_remote_close on_connection_close : A → A → ConnState A
  on_listen_error on_connect_error : A → IoError → ConnState A

module _ (rt : Runtime) where
  open rt use {SocketAddr}

  -- `count` stop channels were made so far.
  pub record ConnectionState : Type 0 where
    pub listeners : rt.listeners.Map
    pub connections : rt.connections.Map
    pub stops : ℕ → rt.stop.Chan
    pub count : ℕ

  abbrev pub new : ConnectionState
  new = record {
    listeners = rt.listeners.new;
    connections = rt.connections.new;
    stops = λ _. rt.stop.channel;
    count = 0;
  }

  -- A receiver that came out of a map is dropped.
  abbrev pub drop_found : Option ℕ → (ℕ → rt.stop.Chan) → ℕ → rt.stop.Chan
  drop_found none f = f
  drop_found (some i) f = update f i (rt.stop.drop_receiver (f i))

  abbrev pub drop_each : List ℕ → (ℕ → rt.stop.Chan) → ℕ → rt.stop.Chan
  drop_each [] f = f
  drop_each (i ∷ is) f = drop_each is (drop_found (some i) f)

  -- `connections.insert(key, stopper)`, with the stopper of the channel `i`
  abbrev pub insert_connection : SocketAddr × SocketAddr → ℕ → ConnectionState → ConnectionState
  insert_connection k i s = record s {
    connections = (rt.connections.insert k i s.connections).1;
    stops = drop_found (rt.connections.insert k i s.connections).0 s.stops;
  }

  -- `drop(connections.remove(key))`
  abbrev pub remove_connection : SocketAddr × SocketAddr → ConnectionState → ConnectionState
  remove_connection k s = record s {
    connections = (rt.connections.remove k s.connections).1;
    stops = drop_found (rt.connections.remove k s.connections).0 s.stops;
  }

  -- First all listeners are dropped, then all connections.
  unfoldable pub stop_all : ConnectionState → ConnectionState
  stop_all s = record s {
    listeners = rt.listeners.clear s.listeners;
    connections = rt.connections.clear s.connections;
    stops =
        drop_each (rt.connections.values s.connections)
          (drop_each (rt.listeners.values s.listeners) s.stops);
  }
