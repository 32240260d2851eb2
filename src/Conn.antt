-- ===== src/Conn.antt =====
-- src/conn.rs: the connection object that the `on_conn` callback is given. Its setter is the sender
-- half of the one-shot channel on which the connection's task waits for the start signal.
pub mod Calls
use socket_manager.Prelude.{ℕ, Bool, true, false, Option, none, some, if◌then◌else◌}
use socket_manager.Std.{
  Result, ok, err, IoError, IoResult, other, text, new_error, Run, done, panics,
}
use socket_manager.Config.{ConnConfig}
use socket_manager.ConnState.{Runtime, ConnectionState, remove_connection}

pub data ConnInner : Type 0 where
  conn_config_setter : ConnInner

abbrev pub consumed_error : IoError
consumed_error = new_error other (text "calling `start_connection` after connection consumed")

abbrev pub send_failed_error : IoError
send_failed_error = new_error other (text "callback config setter send failed")

module _ (rt : Runtime) where
  open rt use {SocketAddr, OnMsg}

  pub record Conn : Type 0 where
    pub consumed : Bool
    pub inner : Option ConnInner
    pub local_addr : SocketAddr
    pub peer_addr : SocketAddr

  -- A `Conn` with what it shares: the channel of the start signal and `conn_state`.
  pub record Held : Type 0 where
    pub conn : Conn
    pub config : rt.config.Chan
    pub state : ConnectionState rt

  -- `Conn::new`
  abbrev pub conn_new : SocketAddr → SocketAddr → Conn
  conn_new local_addr peer_addr = record {
    consumed = false;
    inner = some conn_config_setter;
    local_addr = local_addr;
    peer_addr = peer_addr;
  }

  -- The exchange of `consumed` and `self.inner.take()`
  abbrev pub taken : Held → Held
  taken h = record h { conn = record h.conn { consumed = true; inner = none } }

  -- What follows `conn_config_setter.send((on_msg, config))`
  abbrev pub config_sent :
      Result (Unit {0}) (OnMsg × ConnConfig) → Held → IoResult (Unit {0}) × Held
  config_sent (ok u) h = (ok tt, h)
  config_sent (err m) h = (err send_failed_error, h)

  abbrev pub start_with :
      Option ConnInner → OnMsg → ConnConfig → Held → Run (IoResult (Unit {0}) × Held)
  start_with none on_msg config h = panics
  start_with (some conn_config_setter) on_msg config h = done (
      config_sent (rt.config.send (on_msg, config) h.config).0
        (record (taken h) { config = (rt.config.send (on_msg, config) h.config).1 }))

  -- `compare_exchange` lets one caller through, so that a call is one step.
  unfoldable pub start_connection : OnMsg → ConnConfig → Held → Run (IoResult (Unit {0}) × Held)
  start_connection on_msg config h =
      if h.conn.consumed
      then done (err consumed_error, h)
      else start_with h.conn.inner on_msg config h

  abbrev pub unregister : Held → IoResult (Unit {0}) × Held
  unregister h = (
    ok tt,
    record h { state = remove_connection rt (h.conn.local_addr, h.conn.peer_addr) h.state },
  )

  abbrev pub close_with : Option ConnInner → Held → Run (IoResult (Unit {0}) × Held)
  close_with none h = panics
  close_with (some conn_config_setter) h =
      done (unregister (record (taken h) { config = rt.config.drop_sender h.config }))

  unfoldable pub close : Held → Run (IoResult (Unit {0}) × Held)
  close h = if h.conn.consumed then done (unregister h) else close_with h.conn.inner h

  -- The drop of the `inner` of a `Conn`.
  abbrev pub drop_inner : Option ConnInner → rt.config.Chan → rt.config.Chan
  drop_inner none c = c
  drop_inner (some conn_config_setter) c = rt.config.drop_sender c

  -- The drop of a `Conn` drops its setter, if it is still there. No call follows a drop;
  -- `consumed` says so of the dropped `Conn`.
  unfoldable pub drop_conn : Held → Held
  drop_conn h = record (taken h) { config = drop_inner h.conn.inner h.config }
