-- ===== src/Link/Chain.antt =====
-- Lists of rings and the bytes in them: what a write to one ring, a new ring or a ring less does.
use socket_manager.Prelude.{
  ℕ, ◌<◌, ◌≡◌, refl, sym, ap, ap₂, ◌∙◌, ◌≢◌, inl, inr, List, [], ◌∷◌, ◌++◌, append_assoc,
  append-nil, arith, ◌==◌, Bool-cases,
}
use socket_manager.Std.{Byte}
use socket_manager.Io.{AsyncWrite}
use socket_manager.Ring.{RingBuf}
use socket_manager.Channel.{Mpsc}
use socket_manager.Link.{update, items_of}

abbrev pub All {ℓ} : {A : Type 0} → (A → Type ℓ) → List A → Type ℓ
All P [] = Unit
All P (x ∷ xs) = P x × All P xs

-- Each number is above those before it, so that no ring stands twice in a chain.
abbrev pub Increasing : List ℕ → Type 0
Increasing [] = Unit
Increasing (x ∷ xs) = All (λ y. x < y) xs × Increasing xs

pub All-map : {P Q : ℕ → Type 0} (xs : List ℕ) → ((x : ℕ) → P x → Q x) → All P xs → All Q xs
All-map [] f h = tt
All-map (x ∷ xs) f h = (f x h.0, All-map xs f h.1)

pub All-append : (P : ℕ → Type 0) (xs ys : List ℕ) → All P xs → All P ys → All P (xs ++ ys)
All-append P [] ys h k = k
All-append P (x ∷ xs) ys h k = (h.0, All-append P xs ys h.1 k)

pub All-left : (P : ℕ → Type 0) (xs ys : List ℕ) → All P (xs ++ ys) → All P xs
All-left P [] ys h = tt
All-left P (x ∷ xs) ys h = (h.0, All-left P xs ys h.1)

pub All-right : (P : ℕ → Type 0) (xs ys : List ℕ) → All P (xs ++ ys) → All P ys
All-right P [] ys h = h
All-right P (x ∷ xs) ys h = All-right P xs ys h.1

pub Increasing-append :
    (xs : List ℕ) (n : ℕ) → Increasing xs → All (λ x. x < n) xs → Increasing (xs ++ n ∷ [])
Increasing-append [] n h k = (tt, tt)
Increasing-append (x ∷ xs) n h k =
    (All-append (λ y. x < y) xs (n ∷ []) h.0 (k.0, tt), Increasing-append xs n h.1 k.1)

pub Increasing-last : (xs : List ℕ) (n : ℕ) → Increasing (xs ++ n ∷ []) → All (λ x. x < n) xs
Increasing-last [] n h = tt
Increasing-last (x ∷ xs) n h =
    ((All-right (λ y. x < y) xs (n ∷ []) h.0).0, Increasing-last xs n h.1)

module _ (rb : RingBuf) (mp : Mpsc ℕ) (aw : AsyncWrite) where
  open rb use {Ring, items}

  abbrev bytes : (ℕ → Ring) → List ℕ → List Byte
  bytes = items_of rb mp aw

  pub items_of-append :
      (f : ℕ → Ring) (xs ys : List ℕ) → bytes f (xs ++ ys) ≡ bytes f xs ++ bytes f ys
  items_of-append f [] ys = refl
  items_of-append f (x ∷ xs) ys =
      ap (◌++◌ (items (f x))) (items_of-append f xs ys)
      ∙ sym (append_assoc (items (f x)) (bytes f xs) (bytes f ys))

  -- A change that keeps the items of each ring keeps those of the chain.
  pub items_of_congr :
      (f g : ℕ → Ring) (xs : List ℕ)
      → All (λ x. items (f x) ≡ items (g x)) xs
      → bytes f xs ≡ bytes g xs
  items_of_congr f g [] h = refl
  items_of_congr f g (x ∷ xs) h = ap₂ ◌++◌ h.0 (items_of_congr f g xs h.1)

  pub items-update_ne :
      (f : ℕ → Ring) (i : ℕ) (r : Ring) (j : ℕ) → j ≢ i → items (update f i r j) ≡ items (f j)
  items-update_ne f i r j h = ground arith

  pub items-update_self : (f : ℕ → Ring) (i : ℕ) (r : Ring) → update f i r i ≡ r
  items-update_self f i r = ground arith

  -- A write to a ring outside the chain.
  pub items_of-update_ne :
      (f : ℕ → Ring) (i : ℕ) (r : Ring) (xs : List ℕ)
      → All (λ x. x ≢ i) xs
      → bytes (update f i r) xs ≡ bytes f xs
  items_of-update_ne f i r xs h =
      items_of_congr (update f i r) f xs (All-map xs (λ x k. items-update_ne f i r x k) h)

  -- A write to the last ring of the chain.
  pub items_of-update_last :
      (f : ℕ → Ring) (i : ℕ) (r : Ring) (xs : List ℕ)
      → Increasing (xs ++ i ∷ [])
      → bytes (update f i r) (xs ++ i ∷ []) ≡ bytes f xs ++ items r
  items_of-update_last f i r xs h =
      items_of-append (update f i r) xs (i ∷ [])
      ∙ ap₂ ◌++◌
          (items_of-update_ne f i r xs (All-map xs (λ x k. omega arith) (Increasing-last xs i h)))
          (append-nil _ ∙ ap items (items-update_self f i r))

  -- A write to the first ring of the chain.
  pub items_of-update_first :
      (f : ℕ → Ring) (i : ℕ) (r : Ring) (xs : List ℕ)
      → Increasing (i ∷ xs)
      → bytes (update f i r) (i ∷ xs) ≡ items r ++ bytes f xs
  items_of-update_first f i r xs h =
      ap₂ ◌++◌ (ap items (items-update_self f i r))
        (items_of-update_ne f i r xs (All-map xs (λ x k. omega arith) h.0))

  -- A write that keeps the items of the ring.
  pub items_of-update_same :
      (f : ℕ → Ring) (i : ℕ) (r : Ring) (xs : List ℕ)
      → items r ≡ items (f i)
      → bytes (update f i r) xs ≡ bytes f xs
  items_of-update_same f i r [] e = refl
  items_of-update_same f i r (x ∷ xs) e =
      ap₂ ◌++◌
        (elim (Bool-cases (x == i)) [
          | inl here ↦
              let same : x ≡ i = ground arith in rw here (e ∙ ap (λ k. items (f k)) (sym same))
          | inr there ↦ rw there
        ])
        (items_of-update_same f i r xs e)
