-- ===== src/MainLoop/Order.antt =====
-- The main loop executes the commands in their order, up to the first `Abort`.
use socket_manager.Prelude.{
  ℕ, zero, suc, ◌≤◌, ◌≡◌, refl, sym, ap, ◌∙◌, subst, true, false, List, [], ◌∷◌, ◌++◌, append-nil,
  append_assoc, Option, none, some, arith, length,
}
use socket_manager.Std.{Poll, ready, pending}
use socket_manager.Channel.{Mpsc}
use socket_manager.ConnState.{Runtime, ConnectionState, stop_all}
use socket_manager.MainLoop.{
  Command, listen, connect, cancel_listen, abort, Job, listen_on_addr, connect_to_addr, Loop,
  remove_listener, spawn, leave, execute, received, step_at, main_run,
}

module _ (rt : Runtime) (mp : Mpsc (Command rt.SocketAddr)) where
  open rt use {SocketAddr}
  open mp use {Chan, poll_recv, queued, recv_some, recv_none, recv_pending}

  -- What a list of commands asks for: the jobs, the shared state behind them, and whether the
  -- loop goes on.
  abbrev pub jobs_of : List (Command SocketAddr) → List (Job SocketAddr)
  jobs_of [] = []
  jobs_of (listen a ∷ cs) = listen_on_addr a ∷ jobs_of cs
  jobs_of (connect a d ∷ cs) = connect_to_addr a d ∷ jobs_of cs
  jobs_of (cancel_listen a ∷ cs) = jobs_of cs
  jobs_of (abort ∷ cs) = []

  abbrev pub state_of : List (Command SocketAddr) → ConnectionState rt → ConnectionState rt
  state_of [] s = s
  state_of (listen a ∷ cs) s = state_of cs s
  state_of (connect a d ∷ cs) s = state_of cs s
  state_of (cancel_listen a ∷ cs) s = state_of cs (remove_listener rt mp a s)
  state_of (abort ∷ cs) s = stop_all rt s

  -- The loop did what the commands `cs` ask for.
  abbrev pub Executes : List (Command SocketAddr) → Loop rt mp → Loop rt mp → Type 0
  Executes cs l l' =
      (l'.jobs ≡ l.jobs ++ jobs_of cs) × (l'.connection_state ≡ state_of cs l.connection_state)

  stopped_stays : (n : ℕ) (l : Loop rt mp) → l.is_running ≡ false → main_run rt mp n l ≡ l
  unfolding main_run
  stopped_stays zero l e = refl
  stopped_stays (suc n) l e = ap (λ b. main_run rt mp n (step_at rt mp b l)) e ∙ stopped_stays n l e

  -- What the polls of a loop that goes on do, if `cs` wait in its channel.
  abbrev Continues : ℕ → List (Command SocketAddr) → Type 0
  Continues n cs =
      (l : Loop rt mp)
      → l.is_running ≡ true
      → queued l.cmd_recv ≡ cs
      → Executes cs l (main_run rt mp n l)

  execute-Executes :
      (n : ℕ) (c : Command SocketAddr) (cs : List (Command SocketAddr)) (l : Loop rt mp)
      → Continues n cs
      → l.is_running ≡ true
      → queued l.cmd_recv ≡ cs
      → Executes (c ∷ cs) l (main_run rt mp n (execute rt mp c l))
  unfolding execute
  execute-Executes n (listen a) cs l ih r q =
      let (j, s) = ih (spawn rt mp (listen_on_addr a) l) r q in
      (j ∙ append_assoc l.jobs (listen_on_addr a ∷ []) (jobs_of cs), s)
  execute-Executes n (connect a d) cs l ih r q =
      let (j, s) = ih (spawn rt mp (connect_to_addr a d) l) r q in
      (j ∙ append_assoc l.jobs (connect_to_addr a d ∷ []) (jobs_of cs), s)
  execute-Executes n (cancel_listen a) cs l ih r q =
      ih (record l { connection_state = remove_listener rt mp a l.connection_state }) r q
  execute-Executes n abort cs l ih r q =
      let l' = leave rt mp (record l { connection_state = stop_all rt l.connection_state }) in
      let e = stopped_stays n l' refl in
      (
        ap (λ (x : Loop rt mp). x.jobs) e ∙ sym (append-nil l.jobs),
        ap (λ (x : Loop rt mp). x.connection_state) e,
      )

  -- Nothing waits, so that nothing is received.
  idle-Executes :
      (n : ℕ) (p : Poll (Option (Command SocketAddr))) (l : Loop rt mp)
      → Continues n []
      → l.is_running ≡ true
      → queued l.cmd_recv ≡ []
      → (poll_recv l.cmd_recv).0 ≡ p
      → Executes [] l
          (main_run rt mp n (received rt mp p (record l { cmd_recv = (poll_recv l.cmd_recv).1 })))
  idle-Executes n (ready (some c)) l ih r q e = let f = recv_some l.cmd_recv c e in cc
  idle-Executes n (ready none) l ih r q e =
      let l' = leave rt mp (record l { cmd_recv = (poll_recv l.cmd_recv).1 }) in
      let f = stopped_stays n l' refl in
      (
        ap (λ (x : Loop rt mp). x.jobs) f ∙ sym (append-nil l.jobs),
        ap (λ (x : Loop rt mp). x.connection_state) f,
      )
  idle-Executes n pending l ih r q e =
      ih (record l { cmd_recv = (poll_recv l.cmd_recv).1 }) r (recv_pending l.cmd_recv e).1

  busy-Executes :
      (n : ℕ) (c : Command SocketAddr) (cs : List (Command SocketAddr))
      (p : Poll (Option (Command SocketAddr))) (l : Loop rt mp)
      → Continues n cs
      → l.is_running ≡ true
      → queued l.cmd_recv ≡ c ∷ cs
      → (poll_recv l.cmd_recv).0 ≡ p
      → Executes
          (c ∷ cs)
          l
          (main_run rt mp n (received rt mp p (record l { cmd_recv = (poll_recv l.cmd_recv).1 })))
  busy-Executes n c cs (ready (some c')) l ih r q e =
      let f = recv_some l.cmd_recv c' e in
      let l' : Loop rt mp = record l { cmd_recv = (poll_recv l.cmd_recv).1 } in
      let same : c ≡ c' = cc in
      let rest : queued l'.cmd_recv ≡ cs = cc in
      subst (λ x. Executes (c ∷ cs) l (main_run rt mp n (execute rt mp x l'))) same
        (execute-Executes n c cs l' ih r rest)
  busy-Executes n c cs (ready none) l ih r q e = let f = (recv_none l.cmd_recv e).0 in cc
  busy-Executes n c cs pending l ih r q e = let f = (recv_pending l.cmd_recv e).0 in cc

  main_run-Continues : (n : ℕ) (cs : List (Command SocketAddr)) → length cs ≤ n → Continues n cs
  unfolding main_run
  main_run-Continues zero [] h l r q = (sym (append-nil l.jobs), refl)
  main_run-Continues zero (c ∷ cs) h l r q = absurd (omega arith)
  main_run-Continues (suc n) [] h l r q =
      subst (λ b. Executes [] l (main_run rt mp n (step_at rt mp b l))) (sym r)
        (idle-Executes n (poll_recv l.cmd_recv).0 l (main_run-Continues n [] (omega arith)) r q
          refl)
  main_run-Continues (suc n) (c ∷ cs) h l r q =
      subst (λ b. Executes (c ∷ cs) l (main_run rt mp n (step_at rt mp b l))) (sym r)
        (busy-Executes n c cs (poll_recv l.cmd_recv).0 l (main_run-Continues n cs (omega arith)) r q
          refl)

  -- As many polls of `main` as commands wait, or more, execute all of them in their order up to
  -- the first `Abort`, and none behind it: the tasks spawned and the shared state are what
  -- exactly those commands ask for.
  pub main-Executes :
      (n : ℕ) (cs : List (Command SocketAddr)) (l : Loop rt mp)
      → length cs ≤ n
      → l.is_running ≡ true
      → queued l.cmd_recv ≡ cs
      → Executes cs l (main_run rt mp n l)
  main-Executes n cs l h r q = main_run-Continues n cs h l r q
