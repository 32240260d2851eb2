-- ===== src/Tests/Texts.antt =====
-- Texts that can be run: a byte is the number of a character, and an address is a number, written
-- with one `a` more than the number says.
use Prim.Native.Nat.{Ordering, compare, zero}
use Prim.Native.Char.{Char, char, code, nul, IsLt}
use Prim.Native.String.{String, [], ◌∷◌}
use socket_manager.Prelude.{
  ℕ, suc, ◌≡◌, refl, ap, ap₂, false, List, [] as nil, ◌∷◌ as cons, Option, none, some,
}
use socket_manager.Std.{
  Byte, Result, ok, err, IoError, ErrorKind, other, write_zero, invalid_input, os,
}
use socket_manager.CApi.Memory.{has_nul, Texts}

-- `IsScalar` of a number, by the three comparisons that it makes.
abbrev Both : Ordering → Ordering → Type 0
Both Ordering.lt o = IsLt o
Both Ordering.eq o = ⊥
Both Ordering.gt o = ⊥

abbrev Scalar : Ordering → Ordering → Ordering → Type 0
Scalar Ordering.lt o p = Unit
Scalar Ordering.eq o p = Both o p
Scalar Ordering.gt o p = Both o p

abbrev lt_of : (o : Ordering) → Option (IsLt o)
lt_of Ordering.lt = some tt
lt_of Ordering.eq = none
lt_of Ordering.gt = none

abbrev both_of : (o p : Ordering) → Option (Both o p)
both_of Ordering.lt p = lt_of p
both_of Ordering.eq p = none
both_of Ordering.gt p = none

abbrev scalar_of : (o p q : Ordering) → Option (Scalar o p q)
scalar_of Ordering.lt p q = some tt
scalar_of Ordering.eq p q = both_of p q
scalar_of Ordering.gt p q = both_of p q

lt_of-some : (o : Ordering) (h : IsLt o) → lt_of o ≡ some h
lt_of-some Ordering.lt h = refl
lt_of-some Ordering.eq h = absurd h
lt_of-some Ordering.gt h = absurd h

both_of-some : (o p : Ordering) (h : Both o p) → both_of o p ≡ some h
both_of-some Ordering.lt p h = lt_of-some p h
both_of-some Ordering.eq p h = absurd h
both_of-some Ordering.gt p h = absurd h

scalar_of-some : (o p q : Ordering) (h : Scalar o p q) → scalar_of o p q ≡ some h
scalar_of-some Ordering.lt p q h = refl
scalar_of-some Ordering.eq p q h = both_of-some p q h
scalar_of-some Ordering.gt p q h = both_of-some p q h

abbrev char_with :
    (n : ℕ) → Option (Scalar (compare n 55296) (compare 57343 n) (compare n 1114112)) → Char
char_with n (some h) = char n h
char_with n none = nul

abbrev char_of : ℕ → Char
char_of n = char_with n (scalar_of (compare n 55296) (compare 57343 n) (compare n 1114112))

char_of-code : (c : Char) → char_of (code c) ≡ c
char_of-code (char n h) =
    ap (char_with n) (scalar_of-some (compare n 55296) (compare 57343 n) (compare n 1114112) h)

abbrev to_bytes : String → List Byte
to_bytes [] = nil
to_bytes (c ∷ s) = cons (code c) (to_bytes s)

abbrev of_bytes : List Byte → String
of_bytes nil = []
of_bytes (cons b bs) = char_of b ∷ of_bytes bs

pub of_bytes-to_bytes : (s : String) → of_bytes (to_bytes s) ≡ s
of_bytes-to_bytes [] = refl
of_bytes-to_bytes (c ∷ s) = ap₂ (λ x y. x ∷ y) (char_of-code c) (of_bytes-to_bytes s)

abbrev marks : ℕ → String
marks zero = []
marks (suc n) = char 97 tt ∷ marks n

abbrev count : String → ℕ
count [] = 0
count (c ∷ s) = suc (count s)

pub count-marks : (n : ℕ) → count (marks n) ≡ n
count-marks zero = refl
count-marks (suc n) = ap suc (count-marks n)

abbrev test_parse : String → Result ℕ String
test_parse [] = err "no address"
test_parse (c ∷ s) = ok (count s)

pub marks-has_nul : (n : ℕ) → has_nul (to_bytes (marks n)) ≡ false
marks-has_nul zero = refl
marks-has_nul (suc n) = marks-has_nul n

abbrev kind_text : ErrorKind → String
kind_text other = "other"
kind_text write_zero = "write zero"
kind_text invalid_input = "invalid input"
kind_text (os n) = "os"

abbrev pub test_texts : Texts ℕ
test_texts = record {
  bytes = to_bytes;
  to_str = λ bs. ok (of_bytes bs);
  to_string_lossy = of_bytes;
  parse = test_parse;
  addr_text = λ n. marks (suc n);
  error_text = λ e. kind_text e.kind;
  to_str-bytes = λ s. ap ok (of_bytes-to_bytes s);
  lossy-bytes = of_bytes-to_bytes;
  parse-addr_text = λ n. ap ok (count-marks n);
  addr_has_no_nul = λ n. marks-has_nul (suc n);
}

kind_text-has_nul : (k : ErrorKind) → has_nul (to_bytes (kind_text k)) ≡ false
kind_text-has_nul other = refl
kind_text-has_nul write_zero = refl
kind_text-has_nul invalid_input = refl
kind_text-has_nul (os n) = refl

pub test_texts_clean : (e : IoError) → has_nul (test_texts.bytes (test_texts.error_text e)) ≡ false
test_texts_clean e = kind_text-has_nul e.kind
