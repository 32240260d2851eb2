-- ===== src/Ring.antt =====
-- The crate `async_ringbuf`: a ring buffer of bytes that a producer and a consumer share. The
-- program does not implement it, so it is a parameter: a state, the calls that the program makes,
-- what a ring holds, and what the crate's documentation says of the calls.
use socket_manager.Prelude.{
  ℕ, ◌-◌, ◌≤◌, ◌≡◌, ◌≢◌, Bool, true, List, [], ◌++◌, ◌↔◌, ◌⊎◌, length, take, drop, min,
}
use socket_manager.Std.{Byte, Poll, ready, pending, ok, err, IoError, IoResult}

pub record RingBuf : Type 1 where
  pub Ring : Type 0
  -- `AsyncHeapRb::new(capacity).split()`
  pub create : ℕ → Ring
  -- The producer's calls. `prod_is_closed` says that the consumer is gone.
  pub push_slice : List Byte → Ring → ℕ × Ring
  pub poll_write : List Byte → Ring → Poll (IoResult ℕ) × Ring
  pub register_waker : Ring → Ring
  pub prod_is_closed : Ring → Bool
  pub drop_prod : Ring → Ring
  -- The consumer's calls. `cons_is_closed` says that the producer is gone.
  pub wait_occupied : ℕ → Ring → Bool
  pub occupied_len : Ring → ℕ
  pub as_slices : Ring → List Byte × List Byte
  pub advance_read_index : ℕ → Ring → Ring
  pub cons_is_closed : Ring → Bool
  pub drop_cons : Ring → Ring
  -- What a ring holds, oldest first, and how much it can hold.
  pub items : Ring → List Byte
  pub capacity : Ring → ℕ
  -- A new ring is empty and open.
  pub items-create : (n : ℕ) → items (create n) ≡ []
  pub capacity-create : (n : ℕ) → capacity (create n) ≡ n
  pub create_open : (n : ℕ) → cons_is_closed (create n) ≢ true
  -- `push_slice` appends as much as fits, and says how much that is.
  pub push_count :
      (bs : List Byte) (r : Ring)
      → (push_slice bs r).0 ≡ min (length bs) (capacity r - length (items r))
  pub items-push :
      (bs : List Byte) (r : Ring)
      → items (push_slice bs r).1 ≡ items r ++ take (push_slice bs r).0 bs
  pub push_keeps :
      (bs : List Byte) (r : Ring)
      → (capacity (push_slice bs r).1 ≡ capacity r)
        × (cons_is_closed (push_slice bs r).1 ≡ cons_is_closed r)
        × (prod_is_closed (push_slice bs r).1 ≡ prod_is_closed r)
  -- `poll_write` appends a part from the front and says how long it is, or appends nothing.
  pub poll_write_le :
      (bs : List Byte) (r : Ring) (n : ℕ) → (poll_write bs r).0 ≡ ready (ok n) → n ≤ length bs
  pub poll_write_ok :
      (bs : List Byte) (r : Ring) (n : ℕ)
      → (poll_write bs r).0 ≡ ready (ok n)
      → items (poll_write bs r).1 ≡ items r ++ take n bs
  pub poll_write_err :
      (bs : List Byte) (r : Ring) (e : IoError)
      → (poll_write bs r).0 ≡ ready (err e)
      → items (poll_write bs r).1 ≡ items r
  pub poll_write_pending :
      (bs : List Byte) (r : Ring)
      → (poll_write bs r).0 ≡ pending
      → items (poll_write bs r).1 ≡ items r
  pub poll_write_keeps :
      (bs : List Byte) (r : Ring) → cons_is_closed (poll_write bs r).1 ≡ cons_is_closed r
  -- Registering a waker changes nothing of what a ring holds.
  pub register_keeps :
      (r : Ring)
      → (items (register_waker r) ≡ items r)
        × (capacity (register_waker r) ≡ capacity r)
        × (cons_is_closed (register_waker r) ≡ cons_is_closed r)
        × (prod_is_closed (register_waker r) ≡ prod_is_closed r)
  -- The wait is over when there is as much to read, or the producer is gone.
  pub wait_occupied_iff :
      (n : ℕ) (r : Ring)
      → (wait_occupied n r ≡ true) ↔ ((n ≤ length (items r)) ⊎ (cons_is_closed r ≡ true))
  pub occupied : (r : Ring) → occupied_len r ≡ length (items r)
  -- The slices are the items, and the left one is empty only if both are.
  pub slices : (r : Ring) → (as_slices r).0 ++ (as_slices r).1 ≡ items r
  pub left_empty : (r : Ring) → (as_slices r).0 ≡ [] → items r ≡ []
  -- Moving the read index drops items from the front.
  pub items-advance : (n : ℕ) (r : Ring) → items (advance_read_index n r) ≡ drop n (items r)
  pub advance_keeps :
      (n : ℕ) (r : Ring) → cons_is_closed (advance_read_index n r) ≡ cons_is_closed r
  -- Dropping a half tells the other one, and leaves the items.
  pub drop_prod_keeps : (r : Ring) → items (drop_prod r) ≡ items r
  pub drop_prod_closes : (r : Ring) → cons_is_closed (drop_prod r) ≡ true
  pub drop_cons_keeps :
      (r : Ring)
      → (items (drop_cons r) ≡ items r) × (cons_is_closed (drop_cons r) ≡ cons_is_closed r)
  pub drop_cons_closes : (r : Ring) → prod_is_closed (drop_cons r) ≡ true
