-- ===== src/ConnState/StopAll.antt =====
-- `ConnectionState::stop_all` and the removal of one connection.
use socket_manager.Prelude.{
  Among, ℕ, ◌≡◌, sym, ◌∙◌, subst, inl, inr, true, List, [], ◌∷◌, none, some, ◌==◌, arith,
  Bool-cases,
}
use socket_manager.ConnState.{
  Runtime, ConnectionState, drop_found, drop_each, remove_connection, stop_all,
}

module _ (rt : Runtime) where
  open rt use {SocketAddr}
  open rt.stop use {Chan, is_closed, drop_receiver, drop_receiver_closes}

  -- A closed channel stays closed.
  drop_found_closed :
      (i j : ℕ) (f : ℕ → Chan)
      → is_closed (f j) ≡ true
      → is_closed (drop_found rt (some i) f j) ≡ true
  drop_found_closed i j f h = elim (Bool-cases (j == i)) [
    | inl e ↦ rw e (drop_receiver_closes (f i))
    | inr n ↦ rw n h
  ]

  drop_each_closed :
      (is : List ℕ) (j : ℕ) (f : ℕ → Chan)
      → is_closed (f j) ≡ true
      → is_closed (drop_each rt is f j) ≡ true
  drop_each_closed [] j f h = h
  drop_each_closed (i ∷ is) j f h =
      drop_each_closed is j (drop_found rt (some i) f) (drop_found_closed i j f h)

  found_closed : (j : ℕ) (f : ℕ → Chan) → is_closed (drop_found rt (some j) f j) ≡ true
  found_closed j f = let e : (j == j) ≡ true = ground arith in rw e (drop_receiver_closes (f j))

  drop_each_closes :
      (is : List ℕ) (j : ℕ) (f : ℕ → Chan) → Among j is → is_closed (drop_each rt is f j) ≡ true
  drop_each_closes [] j f m = absurd m
  drop_each_closes (i ∷ is) j f (inl e) =
      drop_each_closed is j (drop_found rt (some i) f)
        (subst (λ k. is_closed (drop_found rt (some k) f j) ≡ true) e (found_closed j f))
  drop_each_closes (i ∷ is) j f (inr m) = drop_each_closes is j (drop_found rt (some i) f) m

  pub stopped_connection :
      (s : ConnectionState rt) (k : SocketAddr × SocketAddr) (i : ℕ)
      → rt.connections.find k s.connections ≡ some i
      → is_closed ((stop_all rt s).stops i) ≡ true
  unfolding stop_all
  stopped_connection s k i e =
      drop_each_closes (rt.connections.values s.connections) i
        (drop_each rt (rt.listeners.values s.listeners) s.stops)
        (rt.connections.values_found k i s.connections e)

  -- Behind `stop_all`, a listener and a connection that were registered are not registered any more,
  -- and the stop channels of both are closed.
  pub stop_all_stops :
      (s : ConnectionState rt) (a : SocketAddr) (i : ℕ) (k : SocketAddr × SocketAddr) (j : ℕ)
      → rt.listeners.find a s.listeners ≡ some i
      → rt.connections.find k s.connections ≡ some j
      → (rt.listeners.find a (stop_all rt s).listeners ≡ none)
        × (rt.connections.find k (stop_all rt s).connections ≡ none)
        × (is_closed ((stop_all rt s).stops i) ≡ true)
        × (is_closed ((stop_all rt s).stops j) ≡ true)
  unfolding stop_all
  stop_all_stops s a i k j e e' =
      let ls = rt.listeners.values s.listeners in
      let cs = rt.connections.values s.connections in
      (
        rt.listeners.find-clear a s.listeners,
        rt.connections.find-clear k s.connections,
        drop_each_closed cs i (drop_each rt ls s.stops)
            (drop_each_closes ls i s.stops (rt.listeners.values_found a i s.listeners e)),
        stopped_connection s k j e',
      )

  -- A connection that is removed is not registered any more, and its stop channel is closed.
  pub remove_connection_stops :
      (k : SocketAddr × SocketAddr) (i : ℕ) (s : ConnectionState rt)
      → rt.connections.find k s.connections ≡ some i
      → (rt.connections.find k (remove_connection rt k s).connections ≡ none)
        × (is_closed ((remove_connection rt k s).stops i) ≡ true)
  remove_connection_stops k i s e =
      let a : (rt.connections.remove k s.connections).0 ≡ some i =
        rt.connections.remove_answer k s.connections ∙ e in
      (
        rt.connections.find-remove k s.connections,
        subst (λ o. is_closed (drop_found rt o s.stops i) ≡ true) (sym a) (found_closed i s.stops),
      )
