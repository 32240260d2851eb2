-- ===== src/CApi/OnConn.antt =====
-- src/c_api/on_conn.rs: the C callback that is told of connections.
pub mod Events
pub mod Life
use socket_manager.Prelude.{ℕ, String, Bool, true, false, List, if◌then◌else◌}
use socket_manager.Std.{Byte, Result, ok, err, IoError, Run, done, panics, ◌>>=◌}
use socket_manager.ConnState.{ConnState}
use socket_manager.CApi.Memory.{has_nul, Libc, Texts}
use socket_manager.CApi.Utils.{parse_c_err_str}
use socket_manager.CApi.ConnEvents.{
  ConnStateCode, connect, connection_close, listen_error, connect_error, remote_close,
  ConnStateData, ConnStates,
}

module _ {SocketAddr : Type 0} (texts : Texts SocketAddr) where
  open texts use {bytes, addr_text, error_text}

  -- `CString::new(text).unwrap()`
  abbrev pub c_string : String → Run (List Byte)
  c_string t = if has_nul (bytes t) then panics else done (bytes t)

  -- Two strings are made, one after the other, and the union's member is filled with them.
  abbrev pub with_strings :
      ConnStateCode
      → (List Byte → List Byte → ConnStateData SocketAddr)
      → String
      → String
      → Run (ConnStates SocketAddr)
  with_strings code member a b =
      c_string a >>= λ x. c_string b >>= λ y. done (record { code = code; state_data = member x y })

  -- The match on the event.
  unfoldable pub conn_states : ConnState SocketAddr → Run (ConnStates SocketAddr)
  conn_states (ConnState.on_connect local_addr peer_addr) =
      done (record { code = connect; state_data = ConnStateData.on_connect local_addr peer_addr })
  conn_states (ConnState.on_connection_close local_addr peer_addr) =
      with_strings connection_close ConnStateData.on_connection_close (addr_text local_addr)
        (addr_text peer_addr)
  conn_states (ConnState.on_listen_error addr error) =
      with_strings listen_error ConnStateData.on_listen_error (addr_text addr) (error_text error)
  conn_states (ConnState.on_connect_error addr error) =
      with_strings connect_error ConnStateData.on_connect_error (addr_text addr) (error_text error)
  conn_states (ConnState.on_remote_close local_addr peer_addr) =
      with_strings remote_close ConnStateData.on_remote_close (addr_text local_addr)
        (addr_text peer_addr)

  module _ (libc : Libc) where
    open libc use {Memory}

    -- `socket_manager_extern_on_conn`, which the C side provides, leaves the pointer to an error text.
    pub record ExternOnConn : Type 1 where
      pub State : Type 0
      pub on_conn : ConnStates SocketAddr → State → Memory → ℕ × Memory × State

    module _ (f : ExternOnConn) where
      abbrev pub Told : Type 0
      Told = Result (Unit {0}) String × Memory × f.State

      -- The closure `on_conn`.
      abbrev pub tell : ConnStates SocketAddr → f.State → Memory → Run Told
      tell states s m =
          let (p, m', s') = f.on_conn states s m in
          let parsed = parse_c_err_str libc texts p m' in done (parsed.0, parsed.1, s')

      -- `OnConnObj::call_inner`
      unfoldable pub on_conn_call_inner : ConnState SocketAddr → f.State → Memory → Run Told
      on_conn_call_inner event s m = conn_states event >>= λ states. tell states s m

      -- `Fn::call`, `FnMut::call_mut` and `FnOnce::call_once` of `OnConnObj`
      abbrev pub call : ConnState SocketAddr → f.State → Memory → Run Told
      call event s m = on_conn_call_inner event s m

      abbrev pub call_mut : ConnState SocketAddr → f.State → Memory → Run Told
      call_mut event s m = on_conn_call_inner event s m

      abbrev pub call_once : ConnState SocketAddr → f.State → Memory → Run Told
      call_once event s m = on_conn_call_inner event s m
