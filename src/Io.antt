-- ===== src/Io.antt =====
-- `tokio::io::{AsyncRead, AsyncWrite}`, the traits behind which the code meets a socket's halves.
-- The code does not implement the socket, so a reader and a writer are parameters: a state, the
-- poll function, and what the traits' documentation says of it.
use socket_manager.Prelude.{ℕ, ◌+◌, ◌≤◌, ◌<◌, ◌≡◌, ◌≢◌, ◌⊎◌, List, [], ◌++◌, length, take}
use socket_manager.Std.{Byte, Poll, ready, pending, ok, err, IoError, IoResult}

-- `written` is the bytes that the writer has accepted so far. `poll_write` accepts a part from the
-- front and says how long it is; when it is pending or fails, it has accepted nothing. A shutdown
-- accepts nothing either.
pub record AsyncWrite : Type 1 where
  pub Writer : Type 0
  pub poll_write : List Byte → Writer → Poll (IoResult ℕ) × Writer
  pub poll_shutdown : Writer → Poll (IoResult (Unit {0})) × Writer
  pub written : Writer → List Byte
  pub accepts_le :
      (bs : List Byte) (w : Writer) (n : ℕ) → (poll_write bs w).0 ≡ ready (ok n) → n ≤ length bs
  pub accepts :
      (bs : List Byte) (w : Writer) (n : ℕ)
      → (poll_write bs w).0 ≡ ready (ok n)
      → written (poll_write bs w).1 ≡ written w ++ take n bs
  pub fails :
      (bs : List Byte) (w : Writer) (e : IoError)
      → (poll_write bs w).0 ≡ ready (err e)
      → written (poll_write bs w).1 ≡ written w
  pub waits :
      (bs : List Byte) (w : Writer)
      → (poll_write bs w).0 ≡ pending
      → written (poll_write bs w).1 ≡ written w
  pub shuts : (w : Writer) → written (poll_shutdown w).1 ≡ written w

-- A writer that takes some bytes at each poll.
abbrev pub TakesSome : AsyncWrite → Type 0
TakesSome aw =
    (bs : List Byte) (w : aw.Writer)
    → bs ≢ []
    → (n : ℕ) × (0 < n) × ((aw.poll_write bs w).0 ≡ ready (ok n))

-- `received` is the bytes that the reader has handed out so far. `poll_read` is given the room
-- that is left in the buffer, and hands out at most so many bytes.
pub record AsyncRead : Type 1 where
  pub Reader : Type 0
  pub poll_read : ℕ → Reader → Poll (IoResult (List Byte)) × Reader
  pub received : Reader → List Byte
  pub reads_le :
      (room : ℕ) (r : Reader) (bs : List Byte)
      → (poll_read room r).0 ≡ ready (ok bs)
      → length bs ≤ room
  pub reads :
      (room : ℕ) (r : Reader) (bs : List Byte)
      → (poll_read room r).0 ≡ ready (ok bs)
      → received (poll_read room r).1 ≡ received r ++ bs
  pub fails :
      (room : ℕ) (r : Reader) (e : IoError)
      → (poll_read room r).0 ≡ ready (err e)
      → received (poll_read room r).1 ≡ received r
  pub waits :
      (room : ℕ) (r : Reader)
      → (poll_read room r).0 ≡ pending
      → received (poll_read room r).1 ≡ received r

-- A reader that always has an answer, and `left` bytes to hand out: given room, it hands out some of
-- them, until none is left.
pub record HasFinite (ar : AsyncRead) : Type 0 where
  pub left : ar.Reader → ℕ
  pub gives :
      (room : ℕ) (r : ar.Reader)
      → 0 < room
      → (bs : List Byte) × ((ar.poll_read room r).0 ≡ ready (ok bs))
        × (left (ar.poll_read room r).1 + length bs ≡ left r)
        × ((0 < length bs) ⊎ (left r ≡ 0))
