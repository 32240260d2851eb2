-- ===== src/Oneshot.antt =====
-- The one-shot channel of tokio and the map of the crate dashmap, as src/conn.rs,
-- src/conn_handle.rs and src/lib.rs use them: operations and the documented behaviour that the code
-- relies on.
use socket_manager.Prelude.{Among, ◌≡◌, ◌≢◌, ◌⊎◌, Bool, true, false, List, Option, none, some}
use socket_manager.Std.{Poll, ready, pending, Result, ok, err}

-- `is_closed` says whether `Sender::closed` is ready, which it is once the receiver is dropped.
-- `sent` is the value that the channel was given; `has_sender` says that the sender half is still
-- there, unused.
pub record Oneshot (A : Type 0) : Type 1 where
  pub Chan : Type 0
  pub channel : Chan
  pub send : A → Chan → Result (Unit {0}) A × Chan
  pub poll_recv : Chan → Poll (Result A (Unit {0})) × Chan
  pub drop_sender : Chan → Chan
  pub drop_receiver : Chan → Chan
  pub is_closed : Chan → Bool
  pub sent : Chan → Option A
  pub has_sender : Chan → Bool
  pub channel_empty : (is_closed channel ≡ false) × (sent channel ≡ none)
  pub send_ok :
      (a : A) (c : Chan)
      → is_closed c ≡ false
      → ((send a c).0 ≡ ok tt) × (sent (send a c).1 ≡ some a)
  pub send_refused :
      (a : A) (c : Chan)
      → is_closed c ≡ true
      → ((send a c).0 ≡ err a) × (sent (send a c).1 ≡ sent c)
  pub recv_sent : (c : Chan) (a : A) → (poll_recv c).0 ≡ ready (ok a) → sent c ≡ some a
  pub recv_keeps : (c : Chan) → sent (poll_recv c).1 ≡ sent c
  -- With nothing sent and the sender there, the receiver waits.
  pub channel_has_sender : has_sender channel ≡ true
  pub recv_waits : (c : Chan) → sent c ≡ none → has_sender c ≡ true → (poll_recv c).0 ≡ pending
  pub recv_sender : (c : Chan) → has_sender (poll_recv c).1 ≡ has_sender c
  -- The one value is received by the first poll behind it.
  pub recv_first :
      (a : A) (c : Chan)
      → is_closed c ≡ false
      → sent c ≡ none
      → (poll_recv (send a c).1).0 ≡ ready (ok a)
  -- With nothing sent and the sender gone, the receiver is told so.
  pub recv_dropped : (c : Chan) → sent c ≡ none → (poll_recv (drop_sender c)).0 ≡ ready (err tt)
  pub drop_sender_keeps : (c : Chan) → sent (drop_sender c) ≡ sent c
  pub drop_receiver_keeps : (c : Chan) → sent (drop_receiver c) ≡ sent c
  pub drop_receiver_closes : (c : Chan) → is_closed (drop_receiver c) ≡ true

-- `find` is what a look-up gives; `values` are the values held.
pub record DashMap (K V : Type 0) : Type 1 where
  pub Map : Type 0
  pub new : Map
  pub insert : K → V → Map → Option V × Map
  pub remove : K → Map → Option V × Map
  pub clear : Map → Map
  pub find : K → Map → Option V
  pub values : Map → List V
  pub find-new : (k : K) → find k new ≡ none
  pub insert_answer : (k : K) (v : V) (m : Map) → (insert k v m).0 ≡ find k m
  pub find-insert : (k : K) (v : V) (m : Map) → find k (insert k v m).1 ≡ some v
  pub insert_other : (k k' : K) (v : V) (m : Map) → k ≢ k' → find k' (insert k v m).1 ≡ find k' m
  pub remove_answer : (k : K) (m : Map) → (remove k m).0 ≡ find k m
  pub find-remove : (k : K) (m : Map) → find k (remove k m).1 ≡ none
  pub remove_other : (k k' : K) (m : Map) → k ≢ k' → find k' (remove k m).1 ≡ find k' m
  -- What a look-up gives behind an insertion or a removal is the new entry, or what it gave before.
  pub insert_finds :
      (k k' : K) (v : V) (m : Map)
      → (find k' (insert k v m).1 ≡ some v) ⊎ (find k' (insert k v m).1 ≡ find k' m)
  pub remove_finds :
      (k k' : K) (m : Map) → (find k' (remove k m).1 ≡ none) ⊎ (find k' (remove k m).1 ≡ find k' m)
  pub find-clear : (k : K) (m : Map) → find k (clear m) ≡ none
  pub values_found : (k : K) (v : V) (m : Map) → find k m ≡ some v → Among v (values m)
