-- ===== src/Std.antt =====
-- What the code uses of the Rust standard library: `std::task::Poll`, `Result`, `std::io::Error`
-- with its kind and its message, `Duration::is_zero`, and a run that may panic.
use socket_manager.Prelude.{ℕ, String, Bool, ◌==◌, ◌≡◌, refl, ◌⊎◌, inl, inr}

-- `u8`. Bytes are only moved, never computed with, so a byte is any number.
abbrev pub Byte : Type 0
Byte = ℕ

pub data Poll (A : Type 0) : Type 0 where
  ready : A → Poll A
  pending : Poll A

pub data Result (A E : Type 0) : Type 0 where
  ok : A → Result A E
  err : E → Result A E

-- `std::io::ErrorKind`, the kinds that the code makes itself; `os` is any other.
pub data ErrorKind : Type 0 where
  other write_zero invalid_input : ErrorKind
  os : ℕ → ErrorKind

-- A message: a text, or a text in front of another message (`format!("text: {e}")`).
pub data Message : Type 0 where
  text : String → Message
  prefixed : String → Message → Message

pub record IoError : Type 0 where
  pub kind : ErrorKind
  pub message : Message

abbrev pub IoResult : Type 0 → Type 0
IoResult A = Result A IoError

-- `std::io::Error::new`
abbrev pub new_error : ErrorKind → Message → IoError
new_error k m = record { kind = k; message = m }

-- A `Duration`, in milliseconds.
abbrev pub Duration : Type 0
Duration = ℕ

abbrev pub is_zero : Duration → Bool
is_zero d = d == 0

-- A run of a piece of code: it comes to its end, it panics, or the fuel of a loop ran out.
pub data Run (A : Type 0) : Type 0 where
  done : A → Run A
  panics : Run A
  out_of_fuel : Run A

infixl 5 ◌>>=◌
abbrev pub ◌>>=◌ : {A B : Type 0} → Run A → (A → Run B) → Run B
done a >>= f = f a
panics >>= f = panics
out_of_fuel >>= f = out_of_fuel

-- The run comes to its end, with a value of which `P` holds.
abbrev pub Ends : {A : Type 0} → (A → Type 0) → Run A → Type 0
Ends P (done a) = P a
Ends P panics = ⊥
Ends P out_of_fuel = ⊥

-- To split on the answer of a poll and keep the equation.
pub Poll-cases :
    {A : Type 0} (p : Poll (IoResult A))
    → (p ≡ pending) ⊎ ((e : IoError) × (p ≡ ready (err e))) ⊎ ((a : A) × (p ≡ ready (ok a)))
Poll-cases pending = inl refl
Poll-cases (ready (err e)) = inr (inl (e, refl))
Poll-cases (ready (ok a)) = inr (inr (a, refl))

pub Ends-map :
    {A : Type 0} {P Q : A → Type 0} → ((a : A) → P a → Q a) → (m : Run A) → Ends P m → Ends Q m
Ends-map f (done a) h = f a h
Ends-map f panics h = h
Ends-map f out_of_fuel h = h

pub >>=-Ends :
    {A B : Type 0} (P : A → Type 0) (Q : B → Type 0) (m : Run A) (f : A → Run B)
    → Ends P m
    → ((a : A) → P a → Ends Q (f a))
    → Ends Q (m >>= f)
>>=-Ends P Q (done a) f h k = k a h
>>=-Ends P Q panics f h k = h
>>=-Ends P Q out_of_fuel f h k = h

pub Ends-both :
    {A : Type 0} (P Q : A → Type 0) (m : Run A) → Ends P m → Ends Q m → Ends (λ a. P a × Q a) m
Ends-both P Q (done a) p q = (p, q)
Ends-both P Q panics p q = p
Ends-both P Q out_of_fuel p q = p

-- If the run comes to its end, then with a value of which `P` holds.
abbrev pub IfEnds : {A : Type 0} → (A → Type 0) → Run A → Type 0
IfEnds P (done a) = P a
IfEnds P panics = Unit
IfEnds P out_of_fuel = Unit

pub >>=-IfEnds :
    {A B : Type 0} (P : A → Type 0) (Q : B → Type 0) (m : Run A) (f : A → Run B)
    → IfEnds P m
    → ((a : A) → P a → IfEnds Q (f a))
    → IfEnds Q (m >>= f)
>>=-IfEnds P Q (done a) f h k = k a h
>>=-IfEnds P Q panics f h k = tt
>>=-IfEnds P Q out_of_fuel f h k = tt

pub Ends-IfEnds :
    {A : Type 0} (P Q : A → Type 0) (m : Run A) → Ends P m → IfEnds Q m → Ends (λ a. P a × Q a) m
Ends-IfEnds P Q (done a) p q = (p, q)
Ends-IfEnds P Q panics p q = p
Ends-IfEnds P Q out_of_fuel p q = p

-- The run ends so, and under a condition also with `Q`.
pub Ends-given :
    {A C : Type 0} (P Q : A → Type 0) (m : Run A)
    → Ends P m
    → (C → Ends Q m)
    → Ends (λ a. P a × (C → Q a)) m
Ends-given P Q (done a) p q = (p, q)
Ends-given P Q panics p q = p
Ends-given P Q out_of_fuel p q = p
