-- ===== src/Tests/Runtimes.antt =====
-- A one-shot channel and a map that can be run: they show that the assumptions of `Oneshot` can be
-- met. An address is a number.
use socket_manager.Prelude.{
  ℕ, ◌≡◌, refl, sym, ap, ap₂, subst, ◌∙◌, ◌≢◌, ◌⊎◌, inl, inr, Bool, true, false, String, List, [],
  ◌∷◌, Option, none, some, arith, ◌==◌, ◌&&◌, if◌then◌else◌, Bool-cases, if_both, if_cases, Among,
}
use socket_manager.Std.{Poll, ready, pending, Result, ok, err}
use socket_manager.Config.{ConnConfig}
use socket_manager.Oneshot.{Oneshot, DashMap}
use socket_manager.ConnState.{Runtime}

pub record TestOneshot (A : Type 0) : Type 0 where
  pub value : Option A
  pub tx_here : Bool
  pub is_gone : Bool

abbrev pub test_recv : {A : Type 0} → Option A → Bool → Poll (Result A (Unit {0}))
test_recv none true = pending
test_recv none false = ready (err tt)
test_recv (some a) here = ready (ok a)

pub test_recv_sent :
    {A : Type 0} (v : Option A) (here : Bool) (a : A) → test_recv v here ≡ ready (ok a) → v ≡ some a
test_recv_sent none true a e = cc
test_recv_sent none false a e = cc
test_recv_sent (some b) here a e = cc

pub test_recv_waits :
    {A : Type 0} (v : Option A) (here : Bool) → v ≡ none → here ≡ true → test_recv v here ≡ pending
test_recv_waits none true e h = refl
test_recv_waits none false e h = cc
test_recv_waits (some b) here e h = cc

abbrev pub test_oneshot : (A : Type 0) → Oneshot A
test_oneshot A = record {
  Chan = TestOneshot A;
  channel = record { value = none; tx_here = true; is_gone = false };
  send = λ a c.
      if c.is_gone
      then (err a, record c { tx_here = false })
      else (ok tt, record c { value = some a; tx_here = false });
  poll_recv = λ c. (test_recv c.value c.tx_here, c);
  drop_sender = λ c. record c { tx_here = false };
  drop_receiver = λ c. record c { is_gone = true };
  is_closed = λ c. c.is_gone;
  sent = λ c. c.value;
  has_sender = λ c. c.tx_here;
  channel_empty = (refl, refl);
  send_ok = λ a c h. rw h (refl, refl);
  send_refused = λ a c h. rw h (refl, refl);
  recv_sent = λ c a h. test_recv_sent c.value c.tx_here a h;
  recv_keeps = λ c. refl;
  channel_has_sender = refl;
  recv_waits = λ c e h. test_recv_waits c.value c.tx_here e h;
  recv_sender = λ c. refl;
  recv_first = λ a c h n. rw h refl;
  recv_dropped = λ c e. rw e refl;
  drop_sender_keeps = λ c. refl;
  drop_receiver_keeps = λ c. refl;
  drop_receiver_closes = λ c. refl;
}

-- A map is a list of entries; the first one of a key counts.
module _ (K : Type 0) (eq : K → K → Bool) where
  abbrev pub found : K → List (K × ℕ) → Option ℕ
  found k [] = none
  found k (e ∷ m) = if eq k e.0 then some e.1 else found k m

  abbrev pub without : K → List (K × ℕ) → List (K × ℕ)
  without k [] = []
  without k (e ∷ m) = if eq k e.0 then without k m else e ∷ without k m

  abbrev pub values_of : List (K × ℕ) → List ℕ
  values_of [] = []
  values_of (e ∷ m) = e.1 ∷ values_of m

  pub values_of-found :
      (k : K) (v : ℕ) (m : List (K × ℕ)) → found k m ≡ some v → Among v (values_of m)
  values_of-found k v [] h = cc
  values_of-found k v (e ∷ m) h = elim (Bool-cases (eq k e.0)) [
    | inl t ↦ inl (
        let h' : some e.1 ≡ some v =
          subst (λ b. (if b then some e.1 else found k m) ≡ some v) t h in
        cc)
    | inr f ↦
        inr (values_of-found k v m (subst (λ b. (if b then some e.1 else found k m) ≡ some v) f h))
  ]

  pub found-without : (k : K) (m : List (K × ℕ)) → found k (without k m) ≡ none
  found-without k [] = refl
  found-without k (e ∷ m) =
      if_cases (λ x. found k x ≡ none) (eq k e.0) _ _ (λ _. found-without k m)
        (λ f. rw f (found-without k m))

  module _ (eq_refl : (k : K) → eq k k ≡ true) (ne : (k k' : K) → k ≢ k' → eq k k' ≡ false)
      (sound : (k k' : K) → eq k k' ≡ true → k ≡ k') where
    pub found_other : (k k' : K) (m : List (K × ℕ)) → k ≢ k' → found k' (without k m) ≡ found k' m
    found_other k k' [] n = refl
    found_other k k' (e ∷ m) n =
        if_cases (λ x. found k' x ≡ found k' (e ∷ m)) (eq k e.0) _ _
          (λ t.
            let other : eq k' e.0 ≡ false = ne k' e.0 (λ h. n (sound k e.0 t ∙ sym h)) in
            rw other (found_other k k' m n))
          (λ f. ap (λ x. if eq k' e.0 then some e.1 else x) (found_other k k' m n))

    pub found_either :
        (k k' : K) (m : List (K × ℕ))
        → (found k' (without k m) ≡ none) ⊎ (found k' (without k m) ≡ found k' m)
    found_either k k' m = elim (Bool-cases (eq k k')) [
      | inl t ↦ inl (subst (λ x. found x (without k m) ≡ none) (sound k k' t) (found-without k m))
      | inr f ↦
          inr (found_other k k' m (λ e. let same = subst (λ x. eq k x ≡ true) e (eq_refl k) in cc))
    ]

    abbrev pub test_map : DashMap K ℕ
    test_map = record {
      Map = List (K × ℕ);
      new = [];
      insert = λ k v m. (found k m, (k, v) ∷ m);
      remove = λ k m. (found k m, without k m);
      clear = λ m. [];
      find = found;
      values = values_of;
      find-new = λ k. refl;
      insert_answer = λ k v m. refl;
      find-insert = λ k v m. rw (eq_refl k) refl;
      insert_other = λ k k' v m n. rw (ne k' k (λ h. n (sym h))) refl;
      remove_answer = λ k m. refl;
      find-remove = found-without;
      remove_other = found_other;
      insert_finds = λ k k' v m.
          if_both (λ x. (x ≡ some v) ⊎ (x ≡ found k' m)) (eq k' k) _ _ (inl refl) (inr refl);
      remove_finds = found_either;
      find-clear = λ k m. refl;
      values_found = values_of-found;
    }

abbrev pub pair_eq : ℕ × ℕ → ℕ × ℕ → Bool
pair_eq k k' = (k.0 == k'.0) && (k.1 == k'.1)

pub pair_eq_sound : (k k' : ℕ × ℕ) → pair_eq k k' ≡ true → k ≡ k'
pair_eq_sound (a, b) (a', b') h =
    let e : a ≡ a' = ground arith in let e' : b ≡ b' = ground arith in ap₂ (λ x y. (x, y)) e e'

pub pair_eq_ne : (k k' : ℕ × ℕ) → k ≢ k' → pair_eq k k' ≡ false
pair_eq_ne k k' n = elim (Bool-cases (pair_eq k k')) [
  | inl t ↦ absurd (n (pair_eq_sound k k' t))
  | inr f ↦ f
]

abbrev pub addr_eq : ℕ → ℕ → Bool
addr_eq a b = a == b

abbrev pub test_runtime : Runtime
test_runtime = record {
  SocketAddr = ℕ;
  OnMsg = ℕ;
  JoinError = String;
  config = test_oneshot (ℕ × ConnConfig);
  stop = test_oneshot (Unit {0});
  listeners =
      test_map ℕ addr_eq (λ k. ground arith) (λ k k' n. ground arith) (λ k k' e. ground arith);
  connections = test_map (ℕ × ℕ) pair_eq (λ k. ground arith) pair_eq_ne pair_eq_sound;
}
