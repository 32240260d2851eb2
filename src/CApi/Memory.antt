-- ===== src/CApi/Memory.antt =====
-- What the functions of src/c_api use of the C and the Rust standard libraries: the memory with
-- `malloc`, `strcpy` and `free`, and texts as bytes. A pointer is a number, 0 is the null pointer.
use socket_manager.Prelude.{
  ℕ, ◌<◌, ◌≡◌, ◌≢◌, Bool, true, false, String, List, [], ◌∷◌, length, ◌==◌, if◌then◌else◌,
}
use socket_manager.Std.{Byte, Result, ok, IoError}

-- A C string cannot hold the byte 0.
abbrev pub has_nul : List Byte → Bool
has_nul [] = false
has_nul (b ∷ bs) = if b == 0 then true else has_nul bs

-- `block p m` is the size of the block that was allocated at `p`, 0 if there is none. `c_str` reads
-- the bytes at a pointer up to the first 0, `raw_parts` so many bytes. The program does not look
-- whether `malloc` fails, and a model of it that does not fail is what it relies on.
pub record Libc : Type 1 where
  pub Memory : Type 0
  pub malloc : ℕ → Memory → ℕ × Memory
  pub strcpy : ℕ → List Byte → Memory → Memory
  pub free : ℕ → Memory → Memory
  pub c_str : ℕ → Memory → List Byte
  pub raw_parts : ℕ → ℕ → Memory → List Byte
  pub block : ℕ → Memory → ℕ
  pub length-raw_parts : (p n : ℕ) (m : Memory) → length (raw_parts p n m) ≡ n
  -- A new block has the size that was asked for, and was not allocated before.
  pub malloc-ne : (n : ℕ) (m : Memory) → (malloc n m).0 ≢ 0
  pub malloc_fresh : (n : ℕ) (m : Memory) → block (malloc n m).0 m ≡ 0
  pub block-malloc : (n : ℕ) (m : Memory) → block (malloc n m).0 (malloc n m).1 ≡ n
  pub malloc_other :
      (n p : ℕ) (m : Memory)
      → p ≢ (malloc n m).0
      → (block p (malloc n m).1 ≡ block p m) × (c_str p (malloc n m).1 ≡ c_str p m)
  -- A copy with its closing 0 fits into a larger block, and touches no other.
  pub block-strcpy : (p q : ℕ) (bs : List Byte) (m : Memory) → block q (strcpy p bs m) ≡ block q m
  pub c_str-strcpy :
      (p : ℕ) (bs : List Byte) (m : Memory)
      → length bs < block p m
      → has_nul bs ≡ false
      → c_str p (strcpy p bs m) ≡ bs
  pub strcpy_other :
      (p q : ℕ) (bs : List Byte) (m : Memory)
      → length bs < block p m
      → q ≢ p
      → c_str q (strcpy p bs m) ≡ c_str q m
  pub block-free : (p : ℕ) (m : Memory) → block p (free p m) ≡ 0
  pub free_other :
      (p q : ℕ) (m : Memory)
      → q ≢ p
      → (block q (free p m) ≡ block q m) × (c_str q (free p m) ≡ c_str q m)

-- Texts, and addresses and errors as texts: `Display`, `FromStr`, `CStr::to_str` and
-- `CStr::to_string_lossy`.
pub record Texts (SocketAddr : Type 0) : Type 0 where
  pub bytes : String → List Byte
  pub to_str : List Byte → Result String String
  pub to_string_lossy : List Byte → String
  pub parse : String → Result SocketAddr String
  pub addr_text : SocketAddr → String
  pub error_text : IoError → String
  pub to_str-bytes : (s : String) → to_str (bytes s) ≡ ok s
  pub lossy-bytes : (s : String) → to_string_lossy (bytes s) ≡ s
  pub parse-addr_text : (a : SocketAddr) → parse (addr_text a) ≡ ok a
  pub addr_has_no_nul : (a : SocketAddr) → has_nul (bytes (addr_text a)) ≡ false
