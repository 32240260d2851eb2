-- ===== src/ConnHandle/Grows.antt =====
-- What a step of a connection's task of src/conn_handle.rs may add: only a reader that was joined with
-- success brings `OnRemoteClose`, and only a writer so joined sets `writer_stopped`.
use socket_manager.Prelude.{
  ◌≡◌, refl, subst, ◌⊎◌, inl, inr, Bool, true, false, ◌||◌, String, List, [], ◌∷◌, ◌++◌, if_both,
}
use socket_manager.Std
use socket_manager.Std.{Poll, ready, pending, Result, ok, err, Ends, IfEnds, >>=-IfEnds, done}
use socket_manager.Config.{ConnConfig}
use socket_manager.ConnState
use socket_manager.ConnState.{
  Runtime, ConnState, on_connect, on_remote_close, on_connection_close, on_listen_error,
  on_connect_error,
}
use socket_manager.Conn.Calls.{call}
use socket_manager.JoinTasks
use socket_manager.JoinTasks.{
  Branch, stop_closed, writer_joined, reader_joined, Join, joining, select_round, on_writer,
  on_reader, is_enabled,
}
use socket_manager.ConnHandle.{
  Stage, spawned, calling, waiting, in_join, closed, Connection, close_up, answered, started,
  joined, is_ready, Action, polls, answers, joins, calls, drops_conn, others, poll_at, answer_at,
  branch_at, conn_step,
}

-- `OnRemoteClose` is among the events.
abbrev pub is_remote_close : {A : Type 0} → ConnState A → Bool
is_remote_close (on_remote_close a b) = true
is_remote_close _ = false

abbrev pub told_remote_close : {A : Type 0} → List (ConnState A) → Bool
told_remote_close [] = false
told_remote_close (e ∷ es) = is_remote_close e || told_remote_close es

or_cases : (a b c : Bool) → (a || b) ≡ true → (b ≡ true → c ≡ true) → (a || c) ≡ true
or_cases true b c h f = refl
or_cases false b c h f = f h

told_append :
    {A : Type 0} (es : List (ConnState A)) (e : ConnState A)
    → is_remote_close e ≡ false
    → told_remote_close (es ++ e ∷ []) ≡ true
    → told_remote_close es ≡ true
told_append [] e n h = subst (λ b. (b || false) ≡ true) n h
told_append (x ∷ es) e n h =
    or_cases (is_remote_close x) (told_remote_close (es ++ e ∷ [])) (told_remote_close es) h
      (told_append es e n)

module _ (rt : Runtime) where
  open rt use {OnMsg}

  -- What a branch brings.
  abbrev pub BringsClose : Branch rt → Type 0
  BringsClose (reader_joined (ok (ok u))) = Unit
  BringsClose _ = ⊥

  abbrev pub StopsWriter : Branch rt → Type 0
  StopsWriter (writer_joined (ok (ok u))) = Unit
  StopsWriter _ = ⊥

  pub record Grows (close stop : Type 0) (j j' : Join rt) : Type 0 where
    pub told : told_remote_close j'.events ≡ true → (told_remote_close j.events ≡ true) ⊎ close
    pub stopped : j'.writer_stopped ≡ true → (j.writer_stopped ≡ true) ⊎ stop

  abbrev GrowsTo : Type 0 → Type 0 → Connection rt → Connection rt → Type 0
  GrowsTo close stop c c' = Grows close stop c.join c'.join

  same : {close stop : Type 0} (j : Join rt) → Grows close stop j j
  same j = record { told = inl; stopped = inl }

  -- An event that is no `OnRemoteClose` is added.
  one_more :
      {close stop : Type 0} (j j' : Join rt) (e : ConnState rt.SocketAddr)
      → is_remote_close e ≡ false
      → Grows close stop j j'
      → Grows close stop j (record j' { events = j'.events ++ e ∷ [] })
  one_more j j' e n g = record {
    told = λ h. g.told (told_append j'.events e n h);
    stopped = g.stopped;
  }

  closes_up :
      {close stop : Type 0} (j : Join rt) (c : Connection rt)
      → Grows close stop j c.join
      → Grows close stop j (close_up rt c).join
  closes_up j c g = one_more j c.join (on_connection_close c.addrs.0 c.addrs.1) refl g

  started-Grows :
      (p : Poll (Result (OnMsg × ConnConfig) (Unit {0}))) (ch : rt.config.Chan) (c : Connection rt)
      → GrowsTo ⊥ ⊥ c (started rt p ch c)
  started-Grows (ready (ok m)) ch c = record { told = inl; stopped = λ e. cc }
  started-Grows (ready (err u)) ch c =
      closes_up c.join (record c { held = record c.held { config = ch } }) (same c.join)
  started-Grows pending ch c = same c.join

  pub poll_at-Grows : (s : Stage) (c : Connection rt) → GrowsTo ⊥ ⊥ c (poll_at rt s c)
  unfolding poll_at
  poll_at-Grows spawned c =
      one_more c.join c.join (on_connect c.addrs.0 c.addrs.1) refl (same c.join)
  poll_at-Grows waiting c =
      started-Grows (rt.config.poll_recv c.held.config).0 (rt.config.poll_recv c.held.config).1 c
  poll_at-Grows calling c = same c.join
  poll_at-Grows in_join c = same c.join
  poll_at-Grows closed c = same c.join

  answered-Grows :
      (r : Result (Unit {0}) String) (c : Connection rt) → GrowsTo ⊥ ⊥ c (answered rt r c)
  answered-Grows (ok u) c = same c.join
  answered-Grows (err e) c = closes_up c.join c (same c.join)

  answer_at-Grows :
      (s : Stage) (r : Result (Unit {0}) String) (c : Connection rt)
      → GrowsTo ⊥ ⊥ c (answer_at rt s r c)
  unfolding answer_at
  answer_at-Grows calling r c = answered-Grows r c
  answer_at-Grows spawned r c = same c.join
  answer_at-Grows waiting r c = same c.join
  answer_at-Grows in_join r c = same c.join
  answer_at-Grows closed r c = same c.join

  on_writer-Grows :
      (r : JoinTasks.Joined rt) (j : Join rt)
      → Grows ⊥ (StopsWriter (writer_joined r)) j (on_writer rt r j)
  unfolding on_writer
  on_writer-Grows (ok (ok u)) j = record { told = inl; stopped = λ e. inr tt }
  on_writer-Grows (ok (err e)) j = record { told = inl; stopped = inl }
  on_writer-Grows (err e) j = record { told = inl; stopped = inl }

  on_reader-Grows :
      (k : rt.SocketAddr × rt.SocketAddr) (r : JoinTasks.Joined rt) (j : Join rt)
      → Grows (BringsClose (reader_joined r)) ⊥ j (on_reader rt k r j)
  unfolding on_reader
  on_reader-Grows k (ok (ok u)) j = record { told = λ e. inr tt; stopped = inl }
  on_reader-Grows k (ok (err e)) j = record { told = inl; stopped = inl }
  on_reader-Grows k (err e) j = record { told = inl; stopped = inl }

  select_round-Grows :
      (k : rt.SocketAddr × rt.SocketAddr) (b : Branch rt) (j : Join rt)
      → Grows (BringsClose b) (StopsWriter b) j (select_round rt k b j)
  unfolding select_round
  select_round-Grows k stop_closed j = record { told = inl; stopped = inl }
  select_round-Grows k (writer_joined r) j =
      if_both (Grows ⊥ (StopsWriter (writer_joined r)) j) (is_enabled rt (writer_joined r) j) _ _
        (on_writer-Grows r j) (same j)
  select_round-Grows k (reader_joined r) j =
      if_both (Grows (BringsClose (reader_joined r)) ⊥ j) (is_enabled rt (reader_joined r) j) _ _
        (on_reader-Grows k r j) (same j)

  joined-Grows :
      {close stop : Type 0} (j : Join rt) (c : Connection rt)
      → Grows close stop j c.join
      → Grows close stop j (joined rt c).join
  joined-Grows {close} {stop} j c g =
      if_both (λ (c' : Connection rt). Grows close stop j c'.join) c.join.finished _ c
        (closes_up j
          (record c {
            held = record c.held { state = ConnState.remove_connection rt c.addrs c.held.state };
          })
          g)
        g

  branch_at-Grows :
      (s : Stage) (b : Branch rt) (c : Connection rt)
      → GrowsTo (BringsClose b) (StopsWriter b) c (branch_at rt s b c)
  unfolding branch_at
  branch_at-Grows in_join b c =
      if_both (GrowsTo (BringsClose b) (StopsWriter b) c) (is_ready rt b c) _ c
        (joined-Grows c.join (record c { join = select_round rt c.addrs b c.join })
          (select_round-Grows c.addrs b c.join))
        (same c.join)
  branch_at-Grows spawned b c = same c.join
  branch_at-Grows calling b c = same c.join
  branch_at-Grows waiting b c = same c.join
  branch_at-Grows closed b c = same c.join

  abbrev pub ClosesBy : Action rt → Type 0
  ClosesBy (joins b) = BringsClose b
  ClosesBy _ = ⊥

  abbrev pub StopsBy : Action rt → Type 0
  StopsBy (joins b) = StopsWriter b
  StopsBy _ = ⊥

  pub conn_step-Grows :
      (a : Action rt) (c : Connection rt)
      → IfEnds (GrowsTo (ClosesBy a) (StopsBy a) c) (conn_step rt a c)
  unfolding conn_step
  conn_step-Grows polls c = poll_at-Grows c.stage c
  conn_step-Grows (answers r) c = answer_at-Grows c.stage r c
  conn_step-Grows (joins b) c = branch_at-Grows c.stage b c
  conn_step-Grows (calls u) c =
      >>=-IfEnds (λ out. Unit) (GrowsTo ⊥ ⊥ c) (call rt u c.held)
        (λ out. done (record c { held = out.1 })) (all_end (call rt u c.held))
        (λ out h. same c.join)
    where
      all_end : {A : Type 0} (m : Std.Run A) → IfEnds (λ a. Unit) m
      all_end (done a) = tt
      all_end Std.panics = tt
      all_end Std.out_of_fuel = tt
  conn_step-Grows drops_conn c = same c.join
  conn_step-Grows (others f) c = same c.join
