-- ===== src/ConnHandle/Waits.antt =====
-- Before its start a connection's task waits for its user alone.
use socket_manager.Prelude.{
  ◌≡◌, refl, sym, ap, ap₂, subst, ◌∙◌, true, List, [], ◌∷◌, ◌++◌, none, some,
}
use socket_manager.Std.{ready, err, Ends, Ends-map, >>=-Ends}
use socket_manager.ConnState.{Runtime}
use socket_manager.Conn.{conn_config_setter, drop_conn}
use socket_manager.JoinTasks.{Join}
use socket_manager.ConnHandle.Events.{closing}
use socket_manager.ConnHandle.{
  waiting, closed, Connection, started, Action, polls, answers, joins, calls, drops_conn, others,
  poll_at, answer_at, branch_at, conn_step, conn_run,
}

module _ (rt : Runtime) where
  open rt.config use {sent, has_sender, poll_recv, recv_waits, recv_keeps, recv_sender}

  -- The task awaits the start signal, and the user holds the connection and has not used it.
  pub record IsWaiting (c : Connection rt) : Type 0 where
    pub at_wait : c.stage ≡ waiting
    pub unsent : sent c.held.config ≡ none
    pub unused : has_sender c.held.config ≡ true

  -- Everything but a call of the user on this connection, or a drop of it.
  abbrev pub IsByOthers : Action rt → Type 0
  IsByOthers (calls u) = ⊥
  IsByOthers drops_conn = ⊥
  IsByOthers _ = Unit

  abbrev pub AllByOthers : List (Action rt) → Type 0
  AllByOthers [] = Unit
  AllByOthers (a ∷ rest) = IsByOthers a × AllByOthers rest

  -- The task waits as before, and nothing was sent to the user.
  abbrev pub WaitsOn : Connection rt → Connection rt → Type 0
  WaitsOn c c' = IsWaiting c' × (c'.join.events ≡ c.join.events)

  poll_at-WaitsOn : (c : Connection rt) → IsWaiting c → WaitsOn c (poll_at rt c.stage c)
  unfolding poll_at
  poll_at-WaitsOn c h =
      let ch = (poll_recv c.held.config).1 in
      subst (λ s. WaitsOn c (poll_at rt s c)) (sym h.at_wait)
        (subst (λ p. WaitsOn c (started rt p ch c))
          (sym (recv_waits c.held.config h.unsent h.unused))
          (
            record {
              at_wait = h.at_wait;
              unsent = recv_keeps c.held.config ∙ h.unsent;
              unused = recv_sender c.held.config ∙ h.unused;
            },
            refl,
          ))

  step-WaitsOn :
      (a : Action rt) (c : Connection rt)
      → IsByOthers a
      → IsWaiting c
      → Ends (WaitsOn c) (conn_step rt a c)
  unfolding conn_step answer_at branch_at
  step-WaitsOn polls c b h = poll_at-WaitsOn c h
  step-WaitsOn (answers r) c b h =
      subst (λ s. WaitsOn c (answer_at rt s r c)) (sym h.at_wait) (h, refl)
  step-WaitsOn (joins j) c b h =
      subst (λ s. WaitsOn c (branch_at rt s j c)) (sym h.at_wait) (h, refl)
  step-WaitsOn (calls u) c b h = absurd b
  step-WaitsOn drops_conn c b h = absurd b
  step-WaitsOn (others f) c b h =
      (record { at_wait = h.at_wait; unsent = h.unsent; unused = h.unused }, refl)

  -- A connection whose `Conn` its user holds, and neither starts, closes nor drops, waits on,
  -- whatever steps its task makes and whatever others do to the shared state, the `stop_all` of an
  -- `Abort` included: its task does not end, and no further event is sent, so no `OnConnectionClose`.
  pub run-WaitsOn :
      (actions : List (Action rt)) (c : Connection rt)
      → AllByOthers actions
      → IsWaiting c
      → Ends (WaitsOn c) (conn_run rt actions c)
  unfolding conn_run
  run-WaitsOn [] c b h = (h, refl)
  run-WaitsOn (a ∷ rest) c b h =
      >>=-Ends (WaitsOn c) (WaitsOn c) (conn_step rt a c) (conn_run rt rest)
        (step-WaitsOn a c b.0 h)
        (λ c' w.
          Ends-map (λ c'' v. (v.0, v.1 ∙ w.1)) (conn_run rt rest c') (run-WaitsOn rest c' b.1 w.0))

  -- The wait is over, and the user was sent `OnConnectionClose` and nothing else.
  pub record GivesUp (c c' : Connection rt) : Type 0 where
    pub at_end : c'.stage ≡ closed
    pub told : c'.join.events ≡ c.join.events ++ closing rt c.addrs
    pub not_registered : c'.held.state ≡ c.held.state
    pub spawned_none : (c'.join.writer ≡ c.join.writer) × (c'.join.reader ≡ c.join.reader)

  -- The first poll behind the drop ends the wait.
  dropped-GivesUp :
      (c c' : Connection rt)
      → c'.stage ≡ waiting
      → (rt.config.poll_recv c'.held.config).0 ≡ ready (err tt)
      → c'.join ≡ c.join
      → c'.addrs ≡ c.addrs
      → c'.held.state ≡ c.held.state
      → GivesUp c (poll_at rt c'.stage c')
  unfolding poll_at
  dropped-GivesUp c c' s p j a h =
      subst (λ x. GivesUp c (poll_at rt x c')) (sym s)
        (subst (λ q. GivesUp c (started rt q (rt.config.poll_recv c'.held.config).1 c')) (sym p)
          (record {
            at_end = refl;
            told = ap₂ (λ (x : Join rt) k. x.events ++ closing rt k) j a;
            not_registered = h;
            spawned_none = (ap (λ (x : Join rt). x.writer) j, ap (λ (x : Join rt). x.reader) j);
          }))

  -- When the user drops a `Conn` that was neither started nor closed, the next poll ends the task of
  -- the connection: the user is sent `OnConnectionClose` and nothing else, no task is spawned, and
  -- the shared state is as before.
  pub drop_ends_wait :
      (c : Connection rt)
      → IsWaiting c
      → c.held.conn.inner ≡ some conn_config_setter
      → Ends (GivesUp c) (conn_run rt (drops_conn ∷ polls ∷ []) c)
  unfolding conn_run conn_step drop_conn
  drop_ends_wait c h i =
      let c' = record c { held = drop_conn rt c.held } in
      dropped-GivesUp c c' h.at_wait (rw i (rt.config.recv_dropped c.held.config h.unsent)) refl
        refl refl
