-- ===== src/Manager/JoinOnce.antt =====
-- Any calls on a `SocketManager`, in any order.
use socket_manager.Prelude.{
  ◌≡◌, refl, ◌⊎◌, inl, inr, Bool, true, false, String, List, [], ◌∷◌, none, some,
}
use socket_manager.Std.{Result, IoResult, Duration, Run, done, ◌>>=◌, Ends, Ends-map, >>=-Ends}
use socket_manager.Channel.{Mpsc}
use socket_manager.MainLoop.{Command, abort}
use socket_manager.Manager.{
  join_handle, SocketManager, init, send_command, listen_on_addr, connect_to_addr,
  cancel_listen_on_addr, join, abort_manager, drop_manager,
}

module _ (SocketAddr : Type 0) (mp : Mpsc (Command SocketAddr)) where
  -- What a user may call; `thread` is how the thread ends if the call waits for it.
  pub data Call : Type 0 where
    listens cancels : SocketAddr → Call
    connects : SocketAddr → Duration → Call
    aborts : Bool → Result (Unit {0}) String → Call
    joins drops : Result (Unit {0}) String → Call

  abbrev pub call : Call → SocketManager SocketAddr mp → Run (SocketManager SocketAddr mp)
  call (listens a) m = done (listen_on_addr SocketAddr mp a m).1
  call (cancels a) m = done (cancel_listen_on_addr SocketAddr mp a m).1
  call (connects a d) m = done (connect_to_addr SocketAddr mp a d m).1
  call (aborts wait t) m = abort_manager SocketAddr mp wait t m >>= λ out. done out.1
  call (joins t) m = join SocketAddr mp t m >>= λ out. done out.1
  call (drops t) m = drop_manager SocketAddr mp t m

  unfoldable pub manager_run :
      List Call → SocketManager SocketAddr mp → Run (SocketManager SocketAddr mp)
  manager_run [] m = done m
  manager_run (c ∷ cs) m = call c m >>= manager_run cs

  -- The handle of the thread is there exactly until the manager was joined.
  abbrev pub IsFenced : SocketManager SocketAddr mp → Type 0
  IsFenced m =
      ((m.has_joined ≡ true) × (m.handle ≡ none))
      ⊎ ((m.has_joined ≡ false) × (m.handle ≡ some join_handle))

  -- A manager that was joined.
  abbrev pub IsJoined : IoResult (Unit {0}) × SocketManager SocketAddr mp → Type 0
  IsJoined out = (out.1.has_joined ≡ true) × (out.1.handle ≡ none)

  join-IsJoined :
      (t : Result (Unit {0}) String) (m : SocketManager SocketAddr mp)
      → IsFenced m
      → Ends IsJoined (join SocketAddr mp t m)
  unfolding join
  join-IsJoined t m (inl (j, h)) = rw (j, h) (refl, refl)
  join-IsJoined t m (inr (j, h)) = rw (j, h) (refl, refl)

  abort-IsFenced :
      (wait : Bool) (t : Result (Unit {0}) String) (m : SocketManager SocketAddr mp)
      → IsFenced m
      → Ends (λ out. IsFenced out.1) (abort_manager SocketAddr mp wait t m)
  unfolding abort_manager
  abort-IsFenced false t m h = h
  abort-IsFenced true t m h =
      Ends-map (λ out j. inl j) (join SocketAddr mp t (send_command SocketAddr mp abort m).1)
        (join-IsJoined t (send_command SocketAddr mp abort m).1 h)

  call-IsFenced :
      (c : Call) (m : SocketManager SocketAddr mp) → IsFenced m → Ends IsFenced (call c m)
  unfolding drop_manager
  call-IsFenced (listens a) m h = h
  call-IsFenced (cancels a) m h = h
  call-IsFenced (connects a d) m h = h
  call-IsFenced (aborts wait t) m h =
      >>=-Ends (λ out. IsFenced out.1) IsFenced (abort_manager SocketAddr mp wait t m)
        (λ out. done out.1) (abort-IsFenced wait t m h) (λ out f. f)
  call-IsFenced (joins t) m h =
      >>=-Ends IsJoined IsFenced (join SocketAddr mp t m) (λ out. done out.1) (join-IsJoined t m h)
        (λ out j. inl j)
  call-IsFenced (drops t) m h =
      >>=-Ends (λ out. IsFenced out.1) IsFenced (abort_manager SocketAddr mp true t m)
        (λ out. done out.1) (abort-IsFenced true t m h) (λ out f. f)

  run-IsFenced :
      (cs : List Call) (m : SocketManager SocketAddr mp)
      → IsFenced m
      → Ends IsFenced (manager_run cs m)
  unfolding manager_run
  run-IsFenced [] m h = h
  run-IsFenced (c ∷ cs) m h =
      >>=-Ends IsFenced IsFenced (call c m) (manager_run cs) (call-IsFenced c m h) (run-IsFenced cs)

  -- However a new manager is called, in whatever order, `abort`, `join` and `drop` among the calls: no
  -- call panics, so that the thread's handle is taken once at most, and it is gone exactly
  -- when the manager was joined.
  pub manager_joins_once : (cs : List Call) → Ends IsFenced (manager_run cs (init SocketAddr mp))
  manager_joins_once cs = run-IsFenced cs (init SocketAddr mp) (inr (refl, refl))
