-- ===== src/ConnectTask/Exclusive.antt =====
-- A connecting task ends in a connection or in an error event, never in both.
use socket_manager.Prelude.{
  ◌≡◌, refl, sym, subst, ◌⊎◌, inl, inr, List, [], ◌∷◌, none, some, if_both,
}
use socket_manager.Std.{Poll, ready, pending, ok, err, IoError, IoResult, Duration, is_zero}
use socket_manager.ConnState.{on_connect_error}
use socket_manager.ConnectTask.{
  Stage, sleeping, connecting, resolved, Input, timer_fires, answers, Connecting, connect_to_addr,
  resolve, connected, connect_at, connect_run,
}

module _ (SocketAddr : Type 0) where
  -- Before its end the task has done neither; at its end it has handed a connection over and sent no
  -- event, or has sent one `OnConnectError` and handed over none.
  abbrev pub Outcome : SocketAddr → Stage → Connecting SocketAddr → Type 0
  Outcome a resolved c =
      (((k : SocketAddr × SocketAddr) × (c.handled ≡ some k)) × (c.events ≡ []))
      ⊎ ((c.handled ≡ none) × ((e : IoError) × (c.events ≡ on_connect_error a e ∷ [])))
  Outcome a _ c = (c.handled ≡ none) × (c.events ≡ [])

  pub record IsExclusive (a : SocketAddr) (c : Connecting SocketAddr) : Type 0 where
    pub same_addr : c.addr ≡ a
    pub outcome : Outcome a c.stage c

  resolve-IsExclusive :
      (a : SocketAddr) (r : IoResult (SocketAddr × SocketAddr)) (c : Connecting SocketAddr)
      → c.addr ≡ a
      → (c.handled ≡ none) × (c.events ≡ [])
      → IsExclusive a (resolve SocketAddr r c)
  resolve-IsExclusive a (ok k) c s (h, e) = record { same_addr = s; outcome = inl ((k, refl), e) }
  resolve-IsExclusive a (err x) c s (h, e) = record {
    same_addr = s;
    outcome = inr (h, (x, rw (e, s) refl));
  }

  connected-IsExclusive :
      (a : SocketAddr) (p : Poll (IoResult (IoResult (SocketAddr × SocketAddr))))
      (c : Connecting SocketAddr)
      → c.stage ≡ connecting
      → c.addr ≡ a
      → (c.handled ≡ none) × (c.events ≡ [])
      → IsExclusive a (connected SocketAddr p c)
  connected-IsExclusive a pending c g s h = record {
    same_addr = s;
    outcome = subst (λ x. Outcome a x c) (sym g) h;
  }
  connected-IsExclusive a (ready (err e)) c g s h = resolve-IsExclusive a (err e) c s h
  connected-IsExclusive a (ready (ok r)) c g s h = resolve-IsExclusive a r c s h

  connect_at-IsExclusive :
      (a : SocketAddr) (s : Stage) (i : Input SocketAddr) (c : Connecting SocketAddr)
      → c.stage ≡ s
      → IsExclusive a c
      → Outcome a s c
      → IsExclusive a (connect_at SocketAddr s i c)
  unfolding connect_at
  connect_at-IsExclusive a sleeping timer_fires c g h o = record {
    same_addr = h.same_addr;
    outcome = o;
  }
  connect_at-IsExclusive a sleeping (answers p) c g h o = h
  connect_at-IsExclusive a connecting timer_fires c g h o = h
  connect_at-IsExclusive a connecting (answers p) c g h o =
      connected-IsExclusive a p c g h.same_addr o
  connect_at-IsExclusive a resolved i c g h o = h

  run-IsExclusive :
      (a : SocketAddr) (is : List (Input SocketAddr)) (c : Connecting SocketAddr)
      → IsExclusive a c
      → IsExclusive a (connect_run SocketAddr is c)
  unfolding connect_run
  run-IsExclusive a [] c h = h
  run-IsExclusive a (i ∷ is) c h =
      run-IsExclusive a is (connect_at SocketAddr c.stage i c)
        (connect_at-IsExclusive a c.stage i c refl h h.outcome)

  -- Whatever the timer and the network answer, in whatever order: a connecting task never both hands a
  -- connection over and sends `OnConnectError`. At its end it has done exactly one of the two,
  -- once; before its end neither.
  pub connect-IsExclusive :
      (a : SocketAddr) (delay : Duration) (is : List (Input SocketAddr))
      → IsExclusive a (connect_run SocketAddr is (connect_to_addr SocketAddr a delay))
  unfolding connect_to_addr
  connect-IsExclusive a delay is =
      run-IsExclusive a is (connect_to_addr SocketAddr a delay) (record {
        same_addr = refl;
        outcome =
            if_both (λ s. Outcome a s (connect_to_addr SocketAddr a delay)) (is_zero delay) _ _
              (refl, refl) (refl, refl);
      })
