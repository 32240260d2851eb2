-- ===== src/Tests/Blocks.antt =====
-- A memory that can be run: it shows that the assumptions of `Memory` can be met. It is the list of the
-- blocks, the newest first, each with its size and its text; a block's number is its address.
use Prim.Native.Nat.{zero}
use socket_manager.Prelude.{
  inl, inr, Bool-cases, ℕ, suc, ◌<◌, ◌≡◌, refl, sym, ap, subst, ◌≢◌, true, false, List, [], ◌∷◌,
  arith, length, ◌==◌, if◌then◌else◌, if_cases,
}
use socket_manager.Std.{Byte}
use socket_manager.CApi.Memory.{Libc}

abbrev Block : Type 0
Block = ℕ × List Byte

abbrev at : ℕ → List Block → Block
at p [] = (0, [])
at p (b ∷ m) = if p == suc (length m) then b else at p m

abbrev update : ℕ → (Block → Block) → List Block → List Block
update p f [] = []
update p f (b ∷ m) = if p == suc (length m) then f b ∷ m else b ∷ update p f m

abbrev first_bytes : ℕ → List Byte → List Byte
first_bytes zero bs = []
first_bytes (suc n) [] = 0 ∷ first_bytes n []
first_bytes (suc n) (b ∷ bs) = b ∷ first_bytes n bs

pub length-first_bytes : (n : ℕ) (bs : List Byte) → length (first_bytes n bs) ≡ n
length-first_bytes zero bs = refl
length-first_bytes (suc n) [] = ap suc (length-first_bytes n [])
length-first_bytes (suc n) (b ∷ bs) = ap suc (length-first_bytes n bs)

pub at-fresh : (p : ℕ) (m : List Block) → length m < p → at p m ≡ (0, [])
at-fresh p [] h = refl
at-fresh p (b ∷ m) h =
    let other : (p == suc (length m)) ≡ false = ground arith in
    rw other (at-fresh p m (omega arith))

length-update : (p : ℕ) (f : Block → Block) (m : List Block) → length (update p f m) ≡ length m
length-update p f [] = refl
length-update p f (b ∷ m) =
    if_cases (λ x. length x ≡ suc (length m)) (p == suc (length m)) _ _ (λ t. refl)
      (λ n. ap suc (length-update p f m))

-- Another block is as it was, and the block itself is changed, if there is one.
pub at_other : (p q : ℕ) (f : Block → Block) (m : List Block) → q ≢ p → at q (update p f m) ≡ at q m
at_other p q f [] n = refl
at_other p q f (b ∷ m) n =
    if_cases (λ x. at q x ≡ at q (b ∷ m)) (p == suc (length m)) _ _
      (λ t. let other : (q == suc (length m)) ≡ false = ground arith in rw other refl)
      (λ e.
        rw (length-update p f m)
          (ap (λ x. if q == suc (length m) then b else x) (at_other p q f m n)))

pub at-update :
    (P : Block → Block → Type 0) (p : ℕ) (f : Block → Block) (m : List Block)
    → P (0, []) (0, [])
    → ((b : Block) → P b (f b))
    → P (at p m) (at p (update p f m))
at-update P p f [] z h = z
at-update P p f (b ∷ m) z h = elim (Bool-cases (p == suc (length m))) [
  | inl t ↦ rw t (rw t (h b))
  | inr e ↦ rw e (rw (length-update p f m) (rw e (at-update P p f m z h)))
]

abbrev copied : List Byte → Block → Block
copied bs b = (b.0, bs)

pub block-copied :
    (p q : ℕ) (bs : List Byte) (m : List Block) → (at q (update p (copied bs) m)).0 ≡ (at q m).0
block-copied p q bs m = elim (Bool-cases (q == p)) [
  | inl t ↦
      let same : q ≡ p = ground arith in
      subst (λ x. (at x (update p (copied bs) m)).0 ≡ (at x m).0) (sym same)
        (at-update (λ b b'. b'.0 ≡ b.0) p (copied bs) m refl (λ b. refl))
  | inr e ↦ ap (λ b. b.0) (at_other p q (copied bs) m (ground arith))
]

abbrev released : Block → Block
released b = (0, b.1)

abbrev pub test_libc : Libc
test_libc = record {
  Memory = List Block;
  malloc = λ n m. (suc (length m), (n, []) ∷ m);
  strcpy = λ p bs m. update p (copied bs) m;
  free = λ p m. update p released m;
  c_str = λ p m. (at p m).1;
  raw_parts = λ p n m. first_bytes n (at p m).1;
  block = λ p m. (at p m).0;
  length-raw_parts = λ p n m. length-first_bytes n (at p m).1;
  malloc-ne = λ n m. ground arith;
  malloc_fresh = λ n m. ap (λ b. b.0) (at-fresh (suc (length m)) m (omega arith));
  block-malloc =
      λ n m. let same : (suc (length m) == suc (length m)) ≡ true = ground arith in rw same refl;
  malloc_other =
      λ n p m e. let other : (p == suc (length m)) ≡ false = ground arith in rw other (refl, refl);
  block-strcpy = block-copied;
  c_str-strcpy = λ p bs m h e.
      at-update (λ b b'. length bs < b.0 → b'.1 ≡ bs) p (copied bs) m (λ h. absurd (omega arith))
        (λ b h. refl) h;
  strcpy_other = λ p q bs m h n. ap (λ b. b.1) (at_other p q (copied bs) m n);
  block-free = λ p m. at-update (λ b b'. b'.0 ≡ 0) p released m refl (λ b. refl);
  free_other = λ p q m n.
      (ap (λ b. b.0) (at_other p q released m n), ap (λ b. b.1) (at_other p q released m n));
}
