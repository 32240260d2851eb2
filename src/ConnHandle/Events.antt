-- ===== src/ConnHandle/Events.antt =====
-- What the user is told of a connection, and in which order.
use socket_manager.Prelude.{
  ◌≡◌, refl, sym, ap, ◌∙◌, subst, ◌≢◌, inl, inr, Bool, false, String, List, [], ◌∷◌, ◌++◌, if_both,
  if_cases,
}
use socket_manager.Std.{Poll, ready, pending, Result, ok, err, done, Ends, Ends-map, >>=-Ends}
use socket_manager.Config.{ConnConfig}
use socket_manager.ConnState.{Runtime, ConnState, on_connect, on_connection_close, ConnectionState}
use socket_manager.Conn.{drop_conn}
use socket_manager.Conn.Calls.{call, HasSetter, Bounded, chances, call-Bounded}
use socket_manager.JoinTasks.{running, Branch, Join, joining, select_round}
use socket_manager.JoinTasks.Leaves.{IsSound, told_once, joining-IsSound, select_round-IsSound}
use socket_manager.ConnHandle.{
  Stage, spawned, calling, waiting, in_join, closed, Connection, handle_connection, close_up,
  answered, started, joined, is_ready, Action, polls, answers, joins, calls, drops_conn, others,
  poll_at, answer_at, branch_at, conn_step, conn_run,
}

module _ (rt : Runtime) where
  open rt use {SocketAddr, OnMsg}

  abbrev pub opening : SocketAddr × SocketAddr → List (ConnState SocketAddr)
  opening (local_addr, peer_addr) = on_connect local_addr peer_addr ∷ []

  abbrev pub closing : SocketAddr × SocketAddr → List (ConnState SocketAddr)
  closing (local_addr, peer_addr) = on_connection_close local_addr peer_addr ∷ []

  -- No task is left to itself: each was not spawned, was joined, or was told to abort, which takes
  -- effect at its next await point.
  abbrev pub NoneLeft : Join rt → Type 0
  NoneLeft j = (j.writer ≢ running) × (j.reader ≢ running)

  -- The end: `OnConnect`, at most one `OnRemoteClose`, one `OnConnectionClose`, and no task that was not
  -- joined or told to abort.
  abbrev pub Finished : SocketAddr × SocketAddr → Join rt → Type 0
  Finished k j =
      ((remote_closed : Bool) × (j.events
          ≡ (opening k ++ told_once rt k remote_closed) ++ closing k))
      × NoneLeft j

  -- What was told by each stage.
  abbrev pub Told : Stage → SocketAddr × SocketAddr → Join rt → Type 0
  Told spawned k j = (j.events ≡ []) × NoneLeft j
  Told calling k j = (j.events ≡ opening k) × NoneLeft j
  Told waiting k j = (j.events ≡ opening k) × NoneLeft j
  Told in_join k j = IsSound rt k (opening k) j
  Told closed k j = Finished k j

  pub record IsLegal (k : SocketAddr × SocketAddr) (c : Connection rt) : Type 0 where
    pub same_addrs : c.addrs ≡ k
    pub setter : HasSetter rt c.held
    pub told : Told c.stage c.addrs c.join

  -- The steps change the join and the stage, never the `Conn`.
  abbrev Goes : Connection rt → Connection rt → Type 0
  Goes c c' = (c'.addrs ≡ c.addrs) × (c'.held.conn ≡ c.held.conn) × Told c'.stage c.addrs c'.join

  stays : (s : Stage) (c : Connection rt) → c.stage ≡ s → Told s c.addrs c.join → Goes c c
  stays s c e t = (refl, refl, subst (λ x. Told x c.addrs c.join) (sym e) t)

  close_early :
      (c : Connection rt)
      → (c.join.events ≡ opening c.addrs) × NoneLeft c.join
      → Goes c (close_up rt c)
  close_early c (e, n) = (refl, refl, ((false, ap (λ x. x ++ closing c.addrs) e), n))

  started-Goes :
      (p : Poll (Result (OnMsg × ConnConfig) (Unit {0}))) (ch : rt.config.Chan) (c : Connection rt)
      → c.stage ≡ waiting
      → (c.join.events ≡ opening c.addrs) × NoneLeft c.join
      → Goes c (started rt p ch c)
  started-Goes (ready (ok m)) ch c s (e, n) = (
    refl,
    refl,
    subst (λ x. IsSound rt c.addrs (opening c.addrs) (joining rt x)) (sym e)
        (joining-IsSound rt c.addrs (opening c.addrs)),
  )
  started-Goes (ready (err u)) ch c s t =
      close_early (record c { held = record c.held { config = ch } }) t
  started-Goes pending ch c s t =
      stays waiting (record c { held = record c.held { config = ch } }) s t

  poll_at-Goes :
      (s : Stage) (c : Connection rt)
      → c.stage ≡ s
      → Told s c.addrs c.join
      → Goes c (poll_at rt s c)
  unfolding poll_at
  poll_at-Goes spawned c s (e, n) = (refl, refl, (ap (λ x. x ++ opening c.addrs) e, n))
  poll_at-Goes waiting c s t =
      started-Goes (rt.config.poll_recv c.held.config).0 (rt.config.poll_recv c.held.config).1 c s t
  poll_at-Goes calling c s t = stays _ c s t
  poll_at-Goes in_join c s t = stays _ c s t
  poll_at-Goes closed c s t = stays _ c s t

  answered-Goes :
      (r : Result (Unit {0}) String) (c : Connection rt)
      → (c.join.events ≡ opening c.addrs) × NoneLeft c.join
      → Goes c (answered rt r c)
  answered-Goes (ok u) c t = (refl, refl, t)
  answered-Goes (err e) c t = close_early c t

  answer_at-Goes :
      (s : Stage) (r : Result (Unit {0}) String) (c : Connection rt)
      → c.stage ≡ s
      → Told s c.addrs c.join
      → Goes c (answer_at rt s r c)
  unfolding answer_at
  answer_at-Goes calling r c s t = answered-Goes r c t
  answer_at-Goes spawned r c s t = stays _ c s t
  answer_at-Goes waiting r c s t = stays _ c s t
  answer_at-Goes in_join r c s t = stays _ c s t
  answer_at-Goes closed r c s t = stays _ c s t

  joined-Goes :
      (c : Connection rt)
      → c.stage ≡ in_join
      → IsSound rt c.addrs (opening c.addrs) c.join
      → Goes c (joined rt c)
  joined-Goes c s t =
      if_cases (Goes c) c.join.finished _ c
        (λ e. (
          refl,
          refl,
          ((c.join.reader_stopped, ap (λ x. x ++ closing c.addrs) t.told), t.leaves_none e),
        ))
        (λ _. (stays _ c s t))

  branch_at-Goes :
      (s : Stage) (b : Branch rt) (c : Connection rt)
      → c.stage ≡ s
      → Told s c.addrs c.join
      → Goes c (branch_at rt s b c)
  unfolding branch_at
  branch_at-Goes in_join b c s t =
      if_both (Goes c) (is_ready rt b c) _ c
        (joined-Goes (record c { join = select_round rt c.addrs b c.join }) s
          (select_round-IsSound rt c.addrs (opening c.addrs) b c.join t))
        (stays in_join c s t)
  branch_at-Goes spawned b c s t = stays _ c s t
  branch_at-Goes calling b c s t = stays _ c s t
  branch_at-Goes waiting b c s t = stays _ c s t
  branch_at-Goes closed b c s t = stays _ c s t

  Goes-IsLegal :
      (k : SocketAddr × SocketAddr) (c c' : Connection rt) → IsLegal k c → Goes c c' → IsLegal k c'
  Goes-IsLegal k c c' h (a, s, t) = record {
    same_addrs = a ∙ h.same_addrs;
    setter = subst (λ x. HasSetter rt (record c'.held { conn = x })) (sym s) h.setter;
    told = subst (λ x. Told c'.stage x c'.join) (sym a) t;
  }

  pub conn_step-IsLegal :
      (k : SocketAddr × SocketAddr) (action : Action rt) (c : Connection rt)
      → IsLegal k c
      → Ends (IsLegal k) (conn_step rt action c)
  unfolding conn_step drop_conn
  conn_step-IsLegal k polls c h =
      Goes-IsLegal k c (poll_at rt c.stage c) h (poll_at-Goes c.stage c refl h.told)
  conn_step-IsLegal k (answers r) c h =
      Goes-IsLegal k c (answer_at rt c.stage r c) h (answer_at-Goes c.stage r c refl h.told)
  conn_step-IsLegal k (joins b) c h =
      Goes-IsLegal k c (branch_at rt c.stage b c) h (branch_at-Goes c.stage b c refl h.told)
  conn_step-IsLegal k (calls u) c h =
      >>=-Ends (Bounded rt (chances rt c.held.conn.consumed)) (IsLegal k) (call rt u c.held)
        (λ out. done (record c { held = out.1 })) (call-Bounded rt u c.held h.setter)
        (λ out b. record { same_addrs = h.same_addrs; setter = b.0; told = h.told })
  conn_step-IsLegal k drops_conn c h = record {
    same_addrs = h.same_addrs;
    setter = inl refl;
    told = h.told;
  }
  conn_step-IsLegal k (others f) c h = record {
    same_addrs = h.same_addrs;
    setter = h.setter;
    told = h.told;
  }

  conn_run-IsLegal :
      (k : SocketAddr × SocketAddr) (actions : List (Action rt)) (c : Connection rt)
      → IsLegal k c
      → Ends (IsLegal k) (conn_run rt actions c)
  unfolding conn_run
  conn_run-IsLegal k [] c h = h
  conn_run-IsLegal k (a ∷ actions) c h =
      >>=-Ends (IsLegal k) (IsLegal k) (conn_step rt a c) (conn_run rt actions)
        (conn_step-IsLegal k a c h) (conn_run-IsLegal k actions)

  pub opened-IsLegal :
      (local_addr peer_addr : SocketAddr) (state : ConnectionState rt)
      → IsLegal (local_addr, peer_addr) (handle_connection rt local_addr peer_addr state)
  unfolding handle_connection
  opened-IsLegal local_addr peer_addr state = record {
    same_addrs = refl;
    setter = inr (refl, refl);
    told = (refl, (λ e. cc, λ e. cc));
  }

  connection_in_order :
      (local_addr peer_addr : SocketAddr) (state : ConnectionState rt) (actions : List (Action rt))
      → Ends
          (IsLegal (local_addr, peer_addr))
          (conn_run rt actions (handle_connection rt local_addr peer_addr state))
  connection_in_order local_addr peer_addr state actions =
      conn_run-IsLegal (local_addr, peer_addr) actions
        (handle_connection rt local_addr peer_addr state)
        (opened-IsLegal local_addr peer_addr state)

  -- The events that belong to a stage.
  abbrev pub Lawful : Stage → SocketAddr × SocketAddr → List (ConnState SocketAddr) → Type 0
  Lawful spawned k es = es ≡ []
  Lawful calling k es = es ≡ opening k
  Lawful waiting k es = es ≡ opening k
  Lawful in_join k es = (remote_closed : Bool) × (es ≡ opening k ++ told_once rt k remote_closed)
  Lawful closed k es =
      (remote_closed : Bool) × (es ≡ (opening k ++ told_once rt k remote_closed) ++ closing k)

  Told-Lawful :
      (s : Stage) (k : SocketAddr × SocketAddr) (j : Join rt) → Told s k j → Lawful s k j.events
  Told-Lawful spawned k j t = t.0
  Told-Lawful calling k j t = t.0
  Told-Lawful waiting k j t = t.0
  Told-Lawful in_join k j t = (j.reader_stopped, t.told)
  Told-Lawful closed k j t = t.0

  -- Whatever the task, the user, other connections and the manager do, in whatever order: nothing
  -- panics, and at each stage of the connection the user was sent what belongs to it: nothing
  -- before the call of `on_conn`, then `OnConnect`, in the join at most one `OnRemoteClose`,
  -- and one `OnConnectionClose` at the end.
  pub connection_tells :
      (local_addr peer_addr : SocketAddr) (state : ConnectionState rt) (actions : List (Action rt))
      → Ends
          (λ c. Lawful c.stage (local_addr, peer_addr) c.join.events)
          (conn_run rt actions (handle_connection rt local_addr peer_addr state))
  connection_tells local_addr peer_addr state actions =
      let k : SocketAddr × SocketAddr = (local_addr, peer_addr) in
      Ends-map
        (λ c h.
          Told-Lawful c.stage k c.join (subst (λ x. Told c.stage x c.join) h.same_addrs h.told))
        (conn_run rt actions (handle_connection rt local_addr peer_addr state))
        (connection_in_order local_addr peer_addr state actions)

  -- When the task of a connection is done, the user was sent `OnConnect`, then at most one
  -- `OnRemoteClose`, then one `OnConnectionClose`; the reader task and the writer task were each
  -- never spawned, or joined, or told to abort.
  pub connection_closes_once :
      (local_addr peer_addr : SocketAddr) (state : ConnectionState rt) (actions : List (Action rt))
      (c : Connection rt)
      → conn_run rt actions (handle_connection rt local_addr peer_addr state) ≡ done c
      → c.stage ≡ closed
      → Finished (local_addr, peer_addr) c.join
  connection_closes_once local_addr peer_addr state actions c run stage =
      let h =
        subst (Ends (IsLegal (local_addr, peer_addr))) run
          (connection_in_order local_addr peer_addr state actions) in
      subst (λ s. Told s (local_addr, peer_addr) c.join) stage
        (subst (λ k. Told c.stage k c.join) h.same_addrs h.told)
