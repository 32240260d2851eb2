-- ===== src/CApi/OnConn/Life.antt =====
-- The C callback of src/c_api/on_conn.rs in the place of `on_conn`, over the life of a connection of
-- src/conn_handle.rs.
use socket_manager.Prelude.{
  ◌≡◌, refl, sym, ap₂, subst, Bool, true, false, List, [], ◌∷◌, ◌++◌, map, some,
}
use socket_manager.Std
use socket_manager.Std.{Run, done, ◌>>=◌, Ends, Ends-map, >>=-Ends}
use socket_manager.ConnState.{Runtime, ConnState, ConnectionState}
use socket_manager.ConnHandle.{Connection, closed, handle_connection, Action, conn_run}
use socket_manager.ConnHandle.Events.{opening, closing, connection_closes_once}
use socket_manager.JoinTasks.Leaves.{told_once}
use socket_manager.CApi.Memory.{Libc, Texts}
use socket_manager.CApi.Utils.{parse_c_err_str}
use socket_manager.CApi.ConnEvents.{ConnStates}
use socket_manager.CApi.OnConn.{ExternOnConn, conn_states, tell, on_conn_call_inner}
use socket_manager.CApi.OnConn
use socket_manager.CApi.OnConn.Events.{
  Seen, seen_connect, seen_close, seen_remote_close, seen, read_states, IsCleanEvent,
  conn_states_read,
}

module _ (libc : Libc) {SocketAddr : Type 0} (texts : Texts SocketAddr)
    (f : ExternOnConn texts libc) where
  open libc use {Memory}

  -- The calls for some events, one after the other; what they answer is not looked at.
  unfoldable pub call_each : List (ConnState SocketAddr) → f.State → Memory → Run (f.State × Memory)
  call_each [] s m = done (s, m)
  call_each (e ∷ es) s m = OnConn.call texts libc f e s m >>= λ out. call_each es out.2 out.1

  -- What the C side and the memory become by calls of the C function itself.
  abbrev pub fed : List (ConnStates SocketAddr) → f.State → Memory → f.State × Memory
  fed [] s m = (s, m)
  fed (c ∷ cs) s m =
      let (p, m', s') = f.on_conn c s m in fed cs s' (parse_c_err_str libc texts p m').1

  -- The C function was called with states that it reads as `seens`.
  abbrev pub HasHeard : List (Seen libc texts) → f.State → Memory → f.State × Memory → Type 0
  HasHeard seens s m out =
      (states : List (ConnStates SocketAddr)) × (map (read_states libc texts) states
        ≡ map some seens)
      × (out ≡ fed states s m)

  abbrev pub AllClean : List (ConnState SocketAddr) → Type 0
  AllClean [] = Unit
  AllClean (e ∷ es) = IsCleanEvent libc texts e × AllClean es

  pub call_each-HasHeard :
      (es : List (ConnState SocketAddr)) (s : f.State) (m : Memory)
      → AllClean es
      → Ends (HasHeard (map (seen libc texts) es) s m) (call_each es s m)
  unfolding call_each on_conn_call_inner
  call_each-HasHeard [] s m h = ([], refl, refl)
  call_each-HasHeard (e ∷ es) s m h =
      go (conn_states texts e) (conn_states_read libc texts e h.0)
        (λ s' m'. call_each-HasHeard es s' m' h.1)
    where
      go :
          (r : Run (ConnStates SocketAddr))
          → Ends (λ c. read_states libc texts c ≡ some (seen libc texts e)) r
          → ((s' : f.State) (m' : Memory)
              → Ends (HasHeard (map (seen libc texts) es) s' m') (call_each es s' m'))
          → Ends
              (HasHeard (map (seen libc texts) (e ∷ es)) s m)
              ((r >>= λ c. tell texts libc f c s m) >>= λ out. call_each es out.2 out.1)
      go (done c) v rest =
          let (p, m', s') = f.on_conn c s m in
          Ends-map {Q = HasHeard (map (seen libc texts) (e ∷ es)) s m}
            (λ out k. (c ∷ k.0, ap₂ ◌∷◌ v k.1, k.2)) _ (rest s' (parse_c_err_str libc texts p m').1)
      go Std.panics v rest = v
      go Std.out_of_fuel v rest = v

module _ (libc : Libc) (rt : Runtime) (texts : Texts rt.SocketAddr)
    (f : ExternOnConn texts libc) where
  open rt use {SocketAddr}
  open libc use {Memory}

  -- What a callback hears of a connection, with the remote's close or without.
  abbrev pub seen_life : SocketAddr → SocketAddr → Bool → List (Seen libc texts)
  seen_life local_addr peer_addr true =
      seen_connect local_addr peer_addr
      ∷ seen_remote_close local_addr peer_addr
      ∷ seen_close local_addr peer_addr
      ∷ []
  seen_life local_addr peer_addr false =
      seen_connect local_addr peer_addr ∷ seen_close local_addr peer_addr ∷ []

  life-HasHeard :
      (local_addr peer_addr : SocketAddr) (es : List (ConnState SocketAddr)) (s : f.State)
      (m : Memory) (remote_closed : Bool)
      → es
        ≡ (opening rt (local_addr, peer_addr) ++ told_once rt (local_addr, peer_addr) remote_closed)
          ++ closing rt (local_addr, peer_addr)
      → Ends
          (HasHeard libc texts f (seen_life local_addr peer_addr remote_closed) s m)
          (call_each libc texts f es s m)
  life-HasHeard local_addr peer_addr es s m true e =
      subst
        (λ x.
          Ends (HasHeard libc texts f (seen_life local_addr peer_addr true) s m)
            (call_each libc texts f x s m))
        (sym e) (call_each-HasHeard libc texts f _ s m (tt, (tt, (tt, tt))))
  life-HasHeard local_addr peer_addr es s m false e =
      subst
        (λ x.
          Ends (HasHeard libc texts f (seen_life local_addr peer_addr false) s m)
            (call_each libc texts f x s m))
        (sym e) (call_each-HasHeard libc texts f _ s m (tt, (tt, tt)))

  -- When the task of a connection is done, then passing its events to the C callback, one call for each, does not
  -- panic: the C function was called with a connect, at most one remote close, and a
  -- close, in that order, each read by its code with the connection's two addresses.
  pub c_hears_life :
      (local_addr peer_addr : SocketAddr) (state : ConnectionState rt) (actions : List (Action rt))
      (c : Connection rt) (s : f.State) (m : Memory)
      → conn_run rt actions (handle_connection rt local_addr peer_addr state) ≡ done c
      → c.stage ≡ closed
      → Ends
          (λ out.
            (remote_closed : Bool) × HasHeard libc texts f
              (seen_life local_addr peer_addr remote_closed)
              s
              m
              out)
          (call_each libc texts f c.join.events s m)
  c_hears_life local_addr peer_addr state actions c s m run stage =
      let (remote_closed, e) =
        (connection_closes_once rt local_addr peer_addr state actions c run stage).0 in
      Ends-map (λ out h. (remote_closed, h)) (call_each libc texts f c.join.events s m)
        (life-HasHeard local_addr peer_addr c.join.events s m remote_closed e)
