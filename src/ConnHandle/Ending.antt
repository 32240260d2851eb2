-- ===== src/ConnHandle/Ending.antt =====
-- How a started connection of src/conn_handle.rs ends early: a task of it fails, or the user calls
-- `close` of src/conn.rs.
use socket_manager.Prelude.{
  ◌≡◌, refl, sym, ap, ap₂, subst, ◌∙◌, ◌≢◌, true, ◌++◌, none, some, if_cases,
}
use socket_manager.Std.{ok, err, Ends, Ends-map}
use socket_manager.ConnState.{Runtime}
use socket_manager.Conn.{Held, close}
use socket_manager.Conn.Calls.{HasSetter, close_stops}
use socket_manager.JoinTasks.{
  running, Branch, stop_closed, writer_joined, reader_joined, Join, select_round, on_writer,
  on_reader, is_enabled,
}
use socket_manager.ConnHandle.{in_join, Connection, joined, is_ready, branch_at}
use socket_manager.ConnHandle.Events.{closing}
use socket_manager.ConnHandle.Abort.{with_state, Aborted, abort_not_running, stopped-Aborted}

module _ (rt : Runtime) where
  -- A task has returned an error, or was aborted, or has panicked.
  abbrev pub IsFailure : Branch rt → Type 0
  IsFailure stop_closed = ⊥
  IsFailure (writer_joined (ok (ok u))) = ⊥
  IsFailure (reader_joined (ok (ok u))) = ⊥
  IsFailure _ = Unit

  -- The loop is left, the other task does not run, and the user was told nothing.
  abbrev Fails : Join rt → Join rt → Type 0
  Fails j j' =
      (j'.finished ≡ true) × (j'.writer ≢ running) × (j'.reader ≢ running) × (j'.events ≡ j.events)

  round-Fails :
      (k : rt.SocketAddr × rt.SocketAddr) (b : Branch rt) (j : Join rt)
      → IsFailure b
      → is_enabled rt b j ≡ true
      → Fails j (select_round rt k b j)
  unfolding select_round on_writer on_reader
  round-Fails k stop_closed j f e = absurd f
  round-Fails k (writer_joined (ok (ok u))) j f e = absurd f
  round-Fails k (writer_joined (ok (err x))) j f e =
      rw e (refl, (λ e'. cc), abort_not_running rt j.reader, refl)
  round-Fails k (writer_joined (err x)) j f e =
      rw e (refl, (λ e'. cc), abort_not_running rt j.reader, refl)
  round-Fails k (reader_joined (ok (ok u))) j f e = absurd f
  round-Fails k (reader_joined (ok (err x))) j f e =
      rw e (refl, abort_not_running rt j.writer, (λ e'. cc), refl)
  round-Fails k (reader_joined (err x)) j f e =
      rw e (refl, abort_not_running rt j.writer, (λ e'. cc), refl)

  IsFailure-is_ready : (b : Branch rt) (c : Connection rt) → IsFailure b → is_ready rt b c ≡ true
  IsFailure-is_ready stop_closed c f = absurd f
  IsFailure-is_ready (writer_joined r) c f = refl
  IsFailure-is_ready (reader_joined r) c f = refl

  -- The connection is done and told so, no task of it runs, and it is not registered any more.
  abbrev pub EndsBy : Connection rt → Connection rt → Type 0
  EndsBy c c' =
      Aborted rt c'
      × (c'.join.events ≡ c.join.events ++ closing rt c.addrs)
      × (rt.connections.find c.addrs c'.held.state.connections ≡ none)

  -- When the reader or the writer of a started connection ends with an error or a panic, and is joined, the
  -- connection ends: the other task is aborted if it still runs, the user is sent
  -- `OnConnectionClose` and nothing else, and the connection is not registered any more.
  pub failure_closes :
      (b : Branch rt) (c : Connection rt)
      → c.stage ≡ in_join
      → IsFailure b
      → is_enabled rt b c.join ≡ true
      → EndsBy c (branch_at rt c.stage b c)
  unfolding branch_at
  failure_closes b c e f on =
      let j = select_round rt c.addrs b c.join in
      let fails = round-Fails c.addrs b c.join f on in
      subst (λ st. EndsBy c (branch_at rt st b c)) (sym e)
        (if_cases (EndsBy c) (is_ready rt b c) (joined rt (record c { join = j })) c
          (λ _.
            if_cases (EndsBy c) j.finished _ _
              (λ _. (
                (refl, fails.1, fails.2),
                ap (λ es. es ++ closing rt c.addrs) fails.3,
                rt.connections.find-remove c.addrs c.held.state.connections,
              ))
              (λ n. let y = fails.0 in cc))
          (λ n. let y = IsFailure-is_ready b c f in cc))

  -- `close` on any `Conn` with the addresses of a started and registered connection succeeds and ends that
  -- connection at the next round of its `select!`, whether it is that connection's own `Conn` or
  -- one left from an earlier connection with the same addresses.
  pub close_ends :
      (h : Held rt) (c : Connection rt)
      → HasSetter rt h
      → (h.conn.local_addr, h.conn.peer_addr) ≡ c.addrs
      → h.state ≡ c.held.state
      → c.stage ≡ in_join
      → rt.connections.find c.addrs c.held.state.connections ≡ some c.stop
      → Ends
          (λ out.
            (out.0 ≡ ok tt)
            × Aborted rt (branch_at rt c.stage stop_closed (with_state rt out.1.state c)))
          (close rt h)
  close_ends h c setter same shared e found =
      let registered : rt.connections.find (h.conn.local_addr, h.conn.peer_addr) h.state.connections
          ≡ some c.stop =
        ap₂ (λ k s. rt.connections.find k s.connections) same shared ∙ found in
      Ends-map (λ out stopped. (stopped.0, stopped-Aborted rt c out.1.state e stopped.2))
        (close rt h) (close_stops rt h c.stop setter registered)
