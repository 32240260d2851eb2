-- ===== src/ConnState/Isolated.antt =====
-- A started connection stays registered in `ConnectionState` of src/lib.rs, and its stop channel open,
-- whatever the others do.
use socket_manager.Prelude.{
  ℕ, ◌<◌, ◌≡◌, refl, sym, ap, ◌∙◌, ◌≢◌, inl, inr, true, false, List, [], ◌∷◌, Option, none, some,
  ◌==◌, Bool-cases, arith,
}
use socket_manager.ConnState.{Runtime, ConnectionState, new, drop_found}
use socket_manager.Std.{ready, ok}
use socket_manager.Channel.{Mpsc}
use socket_manager.ConnHandle.{Connection, start_tasks, joined}
use socket_manager.ListenTask.{Listening, bound}
use socket_manager.MainLoop.{Command, cancel_listen, abort, Loop, execute}
use socket_manager.ConnState.Registry.{
  Change, starts, ends, listens, cancels, aborts, with_channel, change, changes, insert_keeps_out,
  remove_keeps_out, IsNumbered, changes-IsNumbered, new-IsNumbered,
}

module _ (rt : Runtime) where
  open rt use {SocketAddr}
  open rt.stop use {Chan, channel, channel_empty, is_closed}

  -- A stopper with another number is dropped.
  drop_found_other :
      (o : Option ℕ) (i : ℕ) (f : ℕ → Chan)
      → o ≢ some i
      → is_closed (drop_found rt o f i) ≡ is_closed (f i)
  drop_found_other none i f n = refl
  drop_found_other (some j) i f n = elim (Bool-cases (i == j)) [
    | inl e ↦ absurd (n (let same : ◌≡◌ {A = ℕ} j i = ground arith in ap some same))
    | inr e ↦ rw e refl
  ]

  with_channel_other :
      (i : ℕ) (s : ConnectionState rt)
      → i < s.count
      → is_closed ((with_channel rt s).stops i) ≡ is_closed (s.stops i)
  with_channel_other i s less = let e : (i == s.count) ≡ false = ground (arith, less) in rw e refl

  -- The connection `k` is registered with the stop channel `i`, which is open and no one else's.
  pub record IsOpen (k : SocketAddr × SocketAddr) (i : ℕ) (s : ConnectionState rt) : Type 0 where
    pub found : rt.connections.find k s.connections ≡ some i
    pub is_open : is_closed (s.stops i) ≡ false
    pub below : i < s.count
    pub alone :
        (k' : SocketAddr × SocketAddr) → k' ≢ k → rt.connections.find k' s.connections ≢ some i
    pub unlisted : (a : SocketAddr) → rt.listeners.find a s.listeners ≢ some i

  -- A change that others make: not under these addresses, and not the end of everything.
  abbrev pub IsByOthers : SocketAddr × SocketAddr → Change rt → Type 0
  IsByOthers k (starts k') = k' ≢ k
  IsByOthers k (ends k') = k' ≢ k
  IsByOthers k (listens a) = Unit
  IsByOthers k (cancels a) = Unit
  IsByOthers k aborts = ⊥

  abbrev pub AllByOthers : SocketAddr × SocketAddr → List (Change rt) → Type 0
  AllByOthers k [] = Unit
  AllByOthers k (c ∷ cs) = IsByOthers k c × AllByOthers k cs

  change-IsOpen :
      (k : SocketAddr × SocketAddr) (i : ℕ) (c : Change rt) (s : ConnectionState rt)
      → IsByOthers k c
      → IsOpen k i s
      → IsOpen k i (change rt c s)
  unfolding change
  change-IsOpen k i (starts k') s n h =
      let answer = rt.connections.insert_answer k' s.count s.connections in
      record {
        found = rt.connections.insert_other k' k s.count s.connections n ∙ h.found;
        is_open =
            drop_found_other _ i (with_channel rt s).stops (λ e. h.alone k' n (sym answer ∙ e))
            ∙ with_channel_other i s h.below
            ∙ h.is_open;
        below = let less = h.below in omega (arith, less);
        alone = λ k'' m.
            insert_keeps_out rt rt.connections s.count i k' k'' s.connections h.below
              (h.alone k'' m);
        unlisted = h.unlisted;
      }
  change-IsOpen k i (ends k') s n h =
      let answer = rt.connections.remove_answer k' s.connections in
      record {
        found = rt.connections.remove_other k' k s.connections n ∙ h.found;
        is_open = drop_found_other _ i s.stops (λ e. h.alone k' n (sym answer ∙ e)) ∙ h.is_open;
        below = h.below;
        alone = λ k'' m. remove_keeps_out rt rt.connections i k' k'' s.connections (h.alone k'' m);
        unlisted = h.unlisted;
      }
  change-IsOpen k i (listens a) s n h =
      let answer = rt.listeners.insert_answer a s.count s.listeners in
      record {
        found = h.found;
        is_open =
            drop_found_other _ i (with_channel rt s).stops (λ e. h.unlisted a (sym answer ∙ e))
            ∙ with_channel_other i s h.below
            ∙ h.is_open;
        below = let less = h.below in omega (arith, less);
        alone = h.alone;
        unlisted =
            λ b. insert_keeps_out rt rt.listeners s.count i a b s.listeners h.below (h.unlisted b);
      }
  change-IsOpen k i (cancels a) s n h =
      let answer = rt.listeners.remove_answer a s.listeners in
      record {
        found = h.found;
        is_open = drop_found_other _ i s.stops (λ e. h.unlisted a (sym answer ∙ e)) ∙ h.is_open;
        below = h.below;
        alone = h.alone;
        unlisted = λ b. remove_keeps_out rt rt.listeners i a b s.listeners (h.unlisted b);
      }
  change-IsOpen k i aborts s n h = absurd n

  changes-IsOpen :
      (k : SocketAddr × SocketAddr) (i : ℕ) (cs : List (Change rt)) (s : ConnectionState rt)
      → AllByOthers k cs
      → IsOpen k i s
      → IsOpen k i (changes rt cs s)
  unfolding changes
  changes-IsOpen k i [] s n h = h
  changes-IsOpen k i (c ∷ cs) s n h =
      changes-IsOpen k i cs (change rt c s) n.1 (change-IsOpen k i c s n.0 h)

  starts-IsOpen :
      (k : SocketAddr × SocketAddr) (s : ConnectionState rt)
      → IsNumbered rt s
      → IsOpen k s.count (change rt (starts k) s)
  unfolding change
  starts-IsOpen k s h =
      let answer = rt.connections.insert_answer k s.count s.connections in
      let new_channel : is_closed ((with_channel rt s).stops s.count) ≡ false =
        let e : (s.count == s.count) ≡ true = ground arith in rw e (channel_empty.0) in
      record {
        found = rt.connections.find-insert k s.count s.connections;
        is_open =
            drop_found_other _ s.count (with_channel rt s).stops
              (λ e. let less = h.connected k s.count (sym answer ∙ e) in omega (arith, less))
            ∙ new_channel;
        below = omega arith;
        alone = λ k' n e.
            let old =
              rt.connections.insert_other k k' s.count s.connections (λ same. n (sym same)) in
            let less = h.connected k' s.count (sym old ∙ e) in omega (arith, less);
        unlisted = λ a e. let less = h.listening a s.count e in omega (arith, less);
      }

  -- Whatever happened before, a connection that is started and registered stays so, and its stop channel
  -- stays open, while connections with other addresses start, are closed and end, and
  -- listeners are bound, are canceled and end: none of them stops it.
  pub others_leave_open :
      (before after : List (Change rt)) (k : SocketAddr × SocketAddr)
      → AllByOthers k after
      → let s = changes rt before (new rt) in
        let s' = changes rt after (change rt (starts k) s) in
        (rt.connections.find k s'.connections ≡ some s.count)
        × (is_closed (s'.stops s.count) ≡ false)
  others_leave_open before after k n =
      let s = changes rt before (new rt) in
      let h =
        changes-IsOpen k s.count after (change rt (starts k) s) n
          (starts-IsOpen k s (changes-IsNumbered rt before (new rt) (new-IsNumbered rt))) in
      (h.found, h.is_open)

  -- The changes are what the tasks do: a connection's task when it spawns its own and when it is done, the main
  -- loop on a command, and a listener's task once it is bound.
  starts_by_task :
      (c : Connection rt) → (start_tasks rt c).held.state ≡ change rt (starts c.addrs) c.held.state
  unfolding change
  starts_by_task c = refl

  ends_by_task :
      (c : Connection rt)
      → c.join.finished ≡ true
      → (joined rt c).held.state ≡ change rt (ends c.addrs) c.held.state
  unfolding change
  ends_by_task c e = rw e refl

  listens_by_task :
      (l : Listening rt) → (bound rt (ready (ok tt)) l).state ≡ change rt (listens l.addr) l.state
  unfolding change bound
  listens_by_task l = refl

  cancels_by_loop :
      (mp : Mpsc (Command SocketAddr)) (a : SocketAddr) (l : Loop rt mp)
      → (execute rt mp (cancel_listen a) l).connection_state
        ≡ change rt (cancels a) l.connection_state
  unfolding change execute
  cancels_by_loop mp a l = refl

  aborts_by_loop :
      (mp : Mpsc (Command SocketAddr)) (l : Loop rt mp)
      → (execute rt mp abort l).connection_state ≡ change rt aborts l.connection_state
  unfolding change execute
  aborts_by_loop mp l = refl
