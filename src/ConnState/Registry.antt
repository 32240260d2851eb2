-- ===== src/ConnState/Registry.antt =====
-- `ConnectionState` of src/lib.rs, which all listeners and connections share: what one of them does
-- to it leaves the others alone.
use socket_manager.Prelude.{ℕ, ◌+◌, ◌<◌, ◌≡◌, sym, ◌∙◌, ◌≢◌, inl, inr, List, [], ◌∷◌, some, arith}
use socket_manager.Oneshot.{DashMap}
use socket_manager.Link.{update}
use socket_manager.ConnState.{
  Runtime, ConnectionState, new, drop_found, insert_connection, remove_connection, stop_all,
}
use socket_manager.ListenTask.{insert_listener}

module _ (rt : Runtime) where
  open rt use {SocketAddr}
  open rt.stop use {Chan, channel, channel_empty, is_closed}

  -- What is done to the shared state: a connection is started, is closed or ends; a listener is bound,
  -- or is canceled or ends; all is stopped.
  pub data Change : Type 0 where
    starts ends : SocketAddr × SocketAddr → Change
    listens cancels : SocketAddr → Change
    aborts : Change

  -- A stop channel is made under a new number.
  abbrev pub with_channel : ConnectionState rt → ConnectionState rt
  with_channel s = record s { stops = update s.stops s.count channel; count = s.count + 1 }

  unfoldable pub change : Change → ConnectionState rt → ConnectionState rt
  change (starts k) s = insert_connection rt k s.count (with_channel s)
  change (ends k) s = remove_connection rt k s
  change (listens a) s = insert_listener rt a s.count (with_channel s)
  change (cancels a) s = record s {
    listeners = (rt.listeners.remove a s.listeners).1;
    stops = drop_found rt (rt.listeners.remove a s.listeners).0 s.stops;
  }
  change aborts s = stop_all rt s

  unfoldable pub changes : List Change → ConnectionState rt → ConnectionState rt
  changes [] s = s
  changes (c ∷ cs) s = changes cs (change c s)

  module _ {K : Type 0} (d : DashMap K ℕ) where
    -- All numbers in a map are below a bound.
    abbrev pub AllBelow : ℕ → d.Map → Type 0
    AllBelow n m = (k : K) (i : ℕ) → d.find k m ≡ some i → i < n

    AllBelow-insert :
        (n : ℕ) (k : K) (m : d.Map) → AllBelow n m → AllBelow (n + 1) (d.insert k n m).1
    AllBelow-insert n k m h k' i e = elim (d.insert_finds k k' n m) [
      | inl same ↦ let at : ◌≡◌ {A = ℕ} n i = cc in omega (arith, at)
      | inr old ↦ let below = h k' i (sym old ∙ e) in omega (arith, below)
    ]

    AllBelow-remove : (n : ℕ) (k : K) (m : d.Map) → AllBelow n m → AllBelow n (d.remove k m).1
    AllBelow-remove n k m h k' i e = elim (d.remove_finds k k' m) [
      | inl gone ↦ cc
      | inr old ↦ h k' i (sym old ∙ e)
    ]

    AllBelow-clear : (n : ℕ) (m : d.Map) → AllBelow n (d.clear m)
    AllBelow-clear n m k i e = let gone = d.find-clear k m in cc

    AllBelow-more : (n : ℕ) (m : d.Map) → AllBelow n m → AllBelow (n + 1) m
    AllBelow-more n m h k i e = let below = h k i e in omega (arith, below)

    -- A number that no key of the map, or no other one, has.
    pub insert_keeps_out :
        (n i : ℕ) (k k' : K) (m : d.Map)
        → i < n
        → d.find k' m ≢ some i
        → d.find k' (d.insert k n m).1 ≢ some i
    insert_keeps_out n i k k' m less out e = elim (d.insert_finds k k' n m) [
      | inl same ↦ let at : ◌≡◌ {A = ℕ} n i = cc in omega (arith, at, less)
      | inr old ↦ out (sym old ∙ e)
    ]

    pub remove_keeps_out :
        (i : ℕ) (k k' : K) (m : d.Map) → d.find k' m ≢ some i → d.find k' (d.remove k m).1 ≢ some i
    remove_keeps_out i k k' m out e = elim (d.remove_finds k k' m) [
      | inl gone ↦ cc
      | inr old ↦ out (sym old ∙ e)
    ]

  -- Each number that a map holds was given out.
  pub record IsNumbered (s : ConnectionState rt) : Type 0 where
    pub connected : AllBelow rt.connections s.count s.connections
    pub listening : AllBelow rt.listeners s.count s.listeners

  change-IsNumbered : (c : Change) (s : ConnectionState rt) → IsNumbered s → IsNumbered (change c s)
  unfolding change stop_all
  change-IsNumbered (starts k) s h = record {
    connected = AllBelow-insert rt.connections s.count k s.connections h.connected;
    listening = AllBelow-more rt.listeners s.count s.listeners h.listening;
  }
  change-IsNumbered (ends k) s h = record {
    connected = AllBelow-remove rt.connections s.count k s.connections h.connected;
    listening = h.listening;
  }
  change-IsNumbered (listens a) s h = record {
    connected = AllBelow-more rt.connections s.count s.connections h.connected;
    listening = AllBelow-insert rt.listeners s.count a s.listeners h.listening;
  }
  change-IsNumbered (cancels a) s h = record {
    connected = h.connected;
    listening = AllBelow-remove rt.listeners s.count a s.listeners h.listening;
  }
  change-IsNumbered aborts s h = record {
    connected = AllBelow-clear rt.connections s.count s.connections;
    listening = AllBelow-clear rt.listeners s.count s.listeners;
  }

  pub changes-IsNumbered :
      (cs : List Change) (s : ConnectionState rt) → IsNumbered s → IsNumbered (changes cs s)
  unfolding changes
  changes-IsNumbered [] s h = h
  changes-IsNumbered (c ∷ cs) s h = changes-IsNumbered cs (change c s) (change-IsNumbered c s h)

  pub new-IsNumbered : IsNumbered (new rt)
  new-IsNumbered = record {
    connected = λ k i e. let gone = rt.connections.find-new k in cc;
    listening = λ a i e. let gone = rt.listeners.find-new a in cc;
  }
