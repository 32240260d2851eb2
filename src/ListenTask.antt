-- ===== src/ListenTask.antt =====
-- src/lib.rs: the task that `listen_on_addr` spawns, with `accept_connections`. A step is one poll of
-- what it awaits.
pub mod Accept
use socket_manager.Prelude.{ℕ, ◌+◌, Bool, true, false, List, [], ◌∷◌, ◌++◌, if◌then◌else◌}
use socket_manager.Std.{Poll, ready, pending, ok, err, IoError, IoResult}
use socket_manager.Link.{update}
use socket_manager.ConnState.{Runtime, ConnState, on_listen_error, ConnectionState, drop_found}

-- The task binds, is in the `select!` of `accept_connections`, or is done. A `select!` in which
-- `accept` gave an error goes on without that branch, since its pattern did not match.
pub data Stage : Type 0 where
  binding : Stage
  accepting : Bool → Stage
  stopped : Stage

module _ (rt : Runtime) where
  open rt use {SocketAddr}

  -- An answer of `TcpListener::bind`, or one of `listener.accept()`, which on success is what
  -- `get_address_from_stream` says of the stream.
  pub data Input : Type 0 where
    binds : Poll (IoResult (Unit {0})) → Input
    accepts : Poll (IoResult (IoResult (SocketAddr × SocketAddr))) → Input

  -- `handled` are the connections for which `handle_connection` was called; `canceled` is the
  -- number of the stop channel.
  pub record Listening : Type 0 where
    pub addr : SocketAddr
    pub stage : Stage
    pub canceled : ℕ
    pub state : ConnectionState rt
    pub handled : List (SocketAddr × SocketAddr)
    pub events : List (ConnState SocketAddr)

  unfoldable pub listen_on_addr : SocketAddr → ConnectionState rt → Listening
  listen_on_addr addr state = record {
    addr = addr;
    stage = binding;
    canceled = 0;
    state = state;
    handled = [];
    events = [];
  }

  -- `connection_state.listeners.insert(addr, cancel)` with the stop channel `i`
  abbrev pub insert_listener : SocketAddr → ℕ → ConnectionState rt → ConnectionState rt
  insert_listener a i s = record s {
    listeners = (rt.listeners.insert a i s.listeners).1;
    stops = drop_found rt (rt.listeners.insert a i s.listeners).0 s.stops;
  }

  -- `match TcpListener::bind(addr).await`, and what follows it
  unfoldable pub bound : Poll (IoResult (Unit {0})) → Listening → Listening
  bound pending l = l
  bound (ready (err e)) l = record l {
    stage = stopped;
    events = l.events ++ on_listen_error l.addr e ∷ [];
  }
  bound (ready (ok u)) l = record l {
    stage = accepting true;
    canceled = l.state.count;
    state = insert_listener l.addr l.state.count (record l.state {
      stops = update l.state.stops l.state.count rt.stop.channel;
      count = l.state.count + 1;
    });
  }

  -- The branch `canceled.closed()`, looked at behind that of `accept`; `enabled` says whether the
  -- latter is still part of this `select!`.
  abbrev pub cancel_or : Bool → Listening → Listening
  cancel_or enabled l =
      if rt.stop.is_closed (l.state.stops l.canceled)
      then record l { stage = stopped }
      else record l { stage = accepting enabled }

  unfoldable pub accept_at :
      Bool → Poll (IoResult (IoResult (SocketAddr × SocketAddr))) → Listening → Listening
  accept_at false p l = cancel_or false l
  accept_at true pending l = cancel_or true l
  accept_at true (ready (err e)) l = cancel_or false l
  accept_at true (ready (ok (err e))) l = record l { stage = accepting true }
  accept_at true (ready (ok (ok k))) l = record l {
    stage = accepting true;
    handled = l.handled ++ k ∷ [];
  }

  unfoldable pub listen_at : Stage → Input → Listening → Listening
  unfolding bound accept_at
  listen_at binding (binds p) l = bound p l
  listen_at binding (accepts p) l = l
  listen_at (accepting enabled) (accepts p) l = accept_at enabled p l
  listen_at (accepting enabled) (binds p) l = l
  listen_at stopped i l = l

  unfoldable pub listen_run : List Input → Listening → Listening
  listen_run [] l = l
  listen_run (i ∷ is) l = listen_run is (listen_at l.stage i l)
