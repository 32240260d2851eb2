-- ===== src/BufReadWrite.antt =====
-- src/buf_read_write.rs: a buffer between an `AsyncRead` and an `AsyncWrite`, with a flush that
-- can be cancelled between two polls.

pub mod WriteAll
pub mod Stream
pub mod Restart
pub mod Answers
pub mod Empty
use socket_manager.Prelude.{
  ℕ, zero, suc, ◌+◌, ◌-◌, Bool, true, false, List, ◌++◌, length, take, drop, replicate, ltb, ◌==◌,
  if◌then◌else◌,
}
use socket_manager.Std.{
  Byte, Poll, ready, pending, ok, err, IoError, IoResult, write_zero, text, new_error, Run, done,
  panics, out_of_fuel, ◌>>=◌,
}
use socket_manager.Io.{AsyncRead, AsyncWrite}

pub record BufReadWrite (R W : Type 0) : Type 0 where
  pub reader : R
  pub writer : W
  pub buf : List Byte
  pub r_offset : ℕ
  pub w_offset : ℕ

-- `assert!(write_buffer_size > 0)` comes first.
unfoldable pub new : {R W : Type 0} → R → W → ℕ → Run (BufReadWrite R W)
new reader writer write_buffer_size =
    if ltb 0 write_buffer_size
    then done (record {
      reader = reader;
      writer = writer;
      buf = replicate write_buffer_size 0;
      r_offset = 0;
      w_offset = 0;
    })
    else panics

-- `&xs[i..j]` where it does not panic; `in_range` is its check.
abbrev pub slice : List Byte → ℕ → ℕ → List Byte
slice xs i j = drop i (take j xs)

abbrev pub in_range : List Byte → ℕ → Bool
in_range xs j = if ltb (length xs) j then false else true

-- The bytes `bs` written over `xs` from `i` on.
abbrev pub overwrite : List Byte → ℕ → List Byte → List Byte
overwrite xs i bs = take i xs ++ (bs ++ drop (i + length bs) xs)

-- `ErrorKind::WriteZero.into()`
abbrev pub write_zero_error : IoError
write_zero_error = new_error write_zero (text "write zero")

-- What a poll of `WriteAll` leaves behind: its answer, the two offsets, the writer.
abbrev pub WriteAllOut : Type 0 → Type 0
WriteAllOut W = Poll (IoResult (Unit {0})) × ℕ × ℕ × W

module _ (aw : AsyncWrite) where
  open aw use {Writer, poll_write}

  -- The `while pos < end` loop of `WriteAll::poll` and what follows it. Each round that goes on
  -- has written at least a byte, so `end - pos` rounds and one more test are enough fuel.
  unfoldable pub write_all_loop : ℕ → Writer → List Byte → ℕ → ℕ → Run (WriteAllOut Writer)
  write_all_loop zero w buf pos end = out_of_fuel
  write_all_loop (suc fuel) w buf pos end = elim (ltb pos end) [
    | false ↦ if pos == end then done (ready (ok tt), 0, 0, w) else panics
    | true ↦ elim (in_range buf end) [
      | false ↦ panics
      | true ↦
          let w' = (poll_write (slice buf pos end) w).1 in
          elim (poll_write (slice buf pos end) w).0 [
            | ready (ok n) ↦ elim (n == 0) [
              | true ↦ done (ready (err write_zero_error), pos + n, end, w')
              | false ↦ write_all_loop fuel w' buf (pos + n) end
            ]
            | ready (err e) ↦ done (ready (err e), pos, end, w')
            | pending ↦ done (pending, pos, end, w')
          ]
    ]
  ]

  -- `WriteAll::poll`
  unfoldable pub write_all : Writer → List Byte → ℕ → ℕ → Run (WriteAllOut Writer)
  write_all w buf r_offset w_offset =
      write_all_loop (suc (w_offset - r_offset)) w buf r_offset w_offset

-- Where the future of `fill_flush` stands between two polls.
pub data Await : Type 0 where
  fresh flushing reading : Await

module _ (ar : AsyncRead) (aw : AsyncWrite) where
  open ar use {Reader, poll_read}
  open aw use {Writer}

  abbrev pub Buffered : Type 0
  Buffered = BufReadWrite Reader Writer

  -- `WriteAll` updates the offsets in place, and its writer.
  abbrev put_back : Buffered → WriteAllOut Writer → Run (Poll (IoResult (Unit {0})) × Buffered)
  put_back b (res, r, w, wr) = done (res, record b { writer = wr; r_offset = r; w_offset = w })

  -- A poll of `flush`: its future holds no state of its own.
  unfoldable pub flush : Buffered → Run (Poll (IoResult (Unit {0})) × Buffered)
  flush b = write_all aw b.writer b.buf b.r_offset b.w_offset >>= put_back b

  -- `self.reader.read(&mut self.buf[self.w_offset..]).await?` and the lines that follow it.
  unfoldable pub poll_reading : Buffered → Run (Poll (IoResult ℕ) × Await × Buffered)
  poll_reading b =
      let rd = (poll_read (length b.buf - b.w_offset) b.reader).1 in
      elim (in_range b.buf b.w_offset) [
        | false ↦ panics
        | true ↦ elim (poll_read (length b.buf - b.w_offset) b.reader).0 [
          | ready (ok bs) ↦ done (
            ready (ok (length bs)),
            reading,
            record b {
              reader = rd;
              buf = overwrite b.buf b.w_offset bs;
              w_offset = b.w_offset + length bs;
            },
          )
          | ready (err e) ↦ done (ready (err e), reading, record b { reader = rd })
          | pending ↦ done (pending, reading, record b { reader = rd })
        ]
      ]

  -- `self.flush().await?`, then the read.
  unfoldable pub after_flush :
      Poll (IoResult (Unit {0})) × Buffered → Run (Poll (IoResult ℕ) × Await × Buffered)
  after_flush (ready (ok u), b) = poll_reading b
  after_flush (ready (err e), b) = done (ready (err e), flushing, b)
  after_flush (pending, b) = done (pending, flushing, b)

  unfoldable pub poll_flushing : Buffered → Run (Poll (IoResult ℕ) × Await × Buffered)
  unfolding after_flush
  poll_flushing b = flush b >>= after_flush

  -- A poll of the future of `fill_flush`, from where it stands.
  unfoldable pub fill_flush : Await → Buffered → Run (Poll (IoResult ℕ) × Await × Buffered)
  fill_flush fresh b = if b.w_offset == length b.buf then poll_flushing b else poll_reading b
  fill_flush flushing b = poll_flushing b
  fill_flush reading b = poll_reading b
