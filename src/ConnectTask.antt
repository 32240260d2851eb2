-- ===== src/ConnectTask.antt =====
-- src/lib.rs: the task that `connect_to_addr` spawns. A step is one poll of what it awaits.
pub mod Exclusive
use socket_manager.Prelude.{
  Bool, true, false, List, [], ◌∷◌, ◌++◌, Option, none, some, if◌then◌else◌,
}
use socket_manager.Std.{Poll, ready, pending, ok, err, IoError, IoResult, Duration, is_zero}
use socket_manager.ConnState.{ConnState, on_connect_error}

-- The task sleeps, awaits the stream, or is done.
pub data Stage : Type 0 where
  sleeping connecting resolved : Stage

-- What a poll finds: the timer has fired, or an answer of `TcpStream::connect(addr)`, which on
-- success is what `get_address_from_stream` says of the stream.
pub data Input (A : Type 0) : Type 0 where
  timer_fires : Input A
  answers : Poll (IoResult (IoResult (A × A))) → Input A

module _ (SocketAddr : Type 0) where
  -- `handled` is the connection for which `handle_connection` was called.
  pub record Connecting : Type 0 where
    pub addr : SocketAddr
    pub stage : Stage
    pub handled : Option (SocketAddr × SocketAddr)
    pub events : List (ConnState SocketAddr)

  unfoldable pub connect_to_addr : SocketAddr → Duration → Connecting
  connect_to_addr addr delay = record {
    addr = addr;
    stage = if is_zero delay then connecting else sleeping;
    handled = none;
    events = [];
  }

  -- The arms of `match connect_result.await`
  abbrev pub resolve : IoResult (SocketAddr × SocketAddr) → Connecting → Connecting
  resolve (ok k) c = record c { stage = resolved; handled = some k }
  resolve (err e) c = record c {
    stage = resolved;
    events = c.events ++ on_connect_error c.addr e ∷ [];
  }

  -- `let stream = TcpStream::connect(addr).await?; let (local, peer) = …?;`
  abbrev pub connected :
      Poll (IoResult (IoResult (SocketAddr × SocketAddr))) → Connecting → Connecting
  connected pending c = c
  connected (ready (err e)) c = resolve (err e) c
  connected (ready (ok r)) c = resolve r c

  unfoldable pub connect_at : Stage → Input SocketAddr → Connecting → Connecting
  connect_at sleeping timer_fires c = record c { stage = connecting }
  connect_at sleeping (answers p) c = c
  connect_at connecting timer_fires c = c
  connect_at connecting (answers p) c = connected p c
  connect_at resolved i c = c

  unfoldable pub connect_run : List (Input SocketAddr) → Connecting → Connecting
  connect_run [] c = c
  connect_run (i ∷ is) c = connect_run is (connect_at c.stage i c)
