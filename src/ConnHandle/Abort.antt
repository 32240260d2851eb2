-- ===== src/ConnHandle/Abort.antt =====
-- The stop signal reaches a connection whose task waits in `join_reader_writer`.
use socket_manager.Prelude.{true, ◌≡◌, refl, sym, subst, ◌≢◌, if_cases}
use socket_manager.ConnState.{Runtime, ConnectionState}
use socket_manager.JoinTasks.{
  Task, absent, running, ended, aborting, abort, stop_closed, select_round,
}
use socket_manager.ConnHandle.{in_join, closed, Connection, is_ready, branch_at}

module _ (rt : Runtime) where
  -- The shared state is replaced by another.
  abbrev pub with_state : ConnectionState rt → Connection rt → Connection rt
  with_state s c = record c { held = record c.held { state = s } }

  -- The connection's task is done, and neither the reader nor the writer runs.
  abbrev pub Aborted : Connection rt → Type 0
  Aborted c = (c.stage ≡ closed) × (c.join.writer ≢ running) × (c.join.reader ≢ running)

  pub abort_not_running : (t : Task) → abort t ≢ running
  abort_not_running absent e = cc
  abort_not_running running e = cc
  abort_not_running ended e = cc
  abort_not_running aborting e = cc

  -- If the stop channel of a connection is closed, then the next round of its `select!` can take the branch
  -- of the stop signal, and doing so ends the connection.
  pub stopped-Aborted :
      (c : Connection rt) (s : ConnectionState rt)
      → c.stage ≡ in_join
      → rt.stop.is_closed (s.stops c.stop) ≡ true
      → Aborted (branch_at rt c.stage stop_closed (with_state s c))
  unfolding branch_at select_round
  stopped-Aborted c s e is_set =
      let c' = with_state s c in
      subst (λ x. Aborted (branch_at rt x stop_closed c')) (sym e)
        (if_cases Aborted (is_ready rt stop_closed c') _ _
          (λ _. (refl, abort_not_running c.join.writer, abort_not_running c.join.reader)) (λ n. cc))
