-- ===== src/BufReadWrite/Stream.antt =====
-- `BufReadWrite::{fill_flush, flush}` of src/buf_read_write.rs move every byte once and in order,
-- wherever a poll stops.
use socket_manager.Prelude.{
  ℕ, ◌+◌, ◌-◌, ◌≤◌, ◌<◌, ◌≡◌, refl, sym, ap, ◌∙◌, ◌≢◌, ◌⊎◌, inl, inr, true, List, ◌++◌,
  append_assoc, append-nil, arith, length, take, drop, length-take, length-drop, length-append,
  length-replicate, take-append, drop-take-append, Bool-cases, ◌==◌, lt→ltb,
}
use socket_manager.Std.{Byte, Poll, ready, pending, ok, err, Ends, >>=-Ends, Poll-cases, IoResult}
use socket_manager.Io.{AsyncRead, AsyncWrite}
use socket_manager.BufReadWrite.{
  new, slice, in_range, overwrite, Buffered, put_back, flush, Await, fresh, flushing, reading,
  poll_reading, after_flush, poll_flushing, fill_flush,
}
use socket_manager.BufReadWrite.WriteAll.{Flushed, write_all-Flushed}

length-overwrite :
    (xs : List Byte) (i : ℕ) (bs : List Byte)
    → i + length bs ≤ length xs
    → length (overwrite xs i bs) ≡ length xs
length-overwrite xs i bs h = omega (
  arith,
  length-append (take i xs) (bs ++ drop (i + length bs) xs),
  length-append bs (drop (i + length bs) xs),
  length-take i xs,
  length-drop (i + length bs) xs,
)

-- The slice that ends behind the bytes written over is the old slice with those bytes.
slice-overwrite :
    (xs : List Byte) (r i : ℕ) (bs : List Byte)
    → r ≤ i
    → i ≤ length xs
    → slice (overwrite xs i bs) r (i + length bs) ≡ slice xs r i ++ bs
slice-overwrite xs r i bs le fits =
    ap (drop r) (
      ap (take (i + length bs)) (sym (append_assoc (take i xs) bs (drop (i + length bs) xs)))
      ∙ take-append (i + length bs) (take i xs ++ bs) (drop (i + length bs) xs)
          (omega (arith, length-append (take i xs) bs, length-take i xs)))
    ∙ drop-take-append r i xs bs le fits

module _ (ar : AsyncRead) (aw : AsyncWrite) where
  open ar use {Reader, poll_read, received, reads_le, reads, fails, waits}
  open aw use {Writer, written}

  -- The bytes read from the socket and not yet written.
  abbrev pub buffered : Buffered ar aw → List Byte
  buffered b = slice b.buf b.r_offset b.w_offset

  -- The offsets are in order and inside a buffer that is not empty, and what was written is, with
  -- what is buffered behind it, what was read.
  pub record IsValid (b : Buffered ar aw) : Type 0 where
    pub ordered : b.r_offset ≤ b.w_offset
    pub fits : b.w_offset ≤ length b.buf
    pub has_room : 0 < length b.buf
    pub stream : written b.writer ++ buffered b ≡ received b.reader

  pub new-IsValid :
      (r : Reader) (w : Writer) (size : ℕ)
      → 0 < size
      → written w ≡ received r
      → Ends (λ b. IsValid b × (b.w_offset ≡ 0)) (new r w size)
  unfolding new
  new-IsValid r w size h e = rw (lt→ltb _ _ h) (
    record {
      ordered = omega arith;
      fits = omega arith;
      has_room = omega (arith, length-replicate size (let z : Byte = 0 in z));
      stream = append-nil (written w) ∙ e;
    },
    refl,
  )

  -- What a poll of `flush` on `b` leaves.
  pub record FlushKeeps (b : Buffered ar aw) (out : Poll (IoResult (Unit {0})) × Buffered ar aw)
      : Type 0 where
    pub valid : IsValid out.1
    pub same_reader : out.1.reader ≡ b.reader
    pub same_buf : out.1.buf ≡ b.buf
    pub finished :
        ((out.0 ≡ ready (ok tt)) × (out.1.r_offset ≡ 0) × (out.1.w_offset ≡ 0))
        ⊎ ((out.0 ≢ ready (ok tt)) × (out.1.w_offset ≡ b.w_offset))

  -- A poll of `flush` keeps the buffer valid, reads nothing, leaves the bytes in the buffer, and
  -- succeeds exactly when nothing is left to write.
  pub flush-IsValid : (b : Buffered ar aw) → IsValid b → Ends (FlushKeeps b) (flush ar aw b)
  unfolding flush
  flush-IsValid b v =
      >>=-Ends (Flushed aw b.writer b.buf b.r_offset b.w_offset) (FlushKeeps b) _ (put_back ar aw b)
        (write_all-Flushed aw b.writer b.buf b.r_offset b.w_offset v.ordered v.fits)
        λ out f. record {
          valid = record {
            ordered = f.ordered;
            fits = grind (arith, f.finished, v.fits);
            has_room = v.has_room;
            stream = f.conserved ∙ v.stream;
          };
          same_reader = refl;
          same_buf = refl;
          finished = ground (arith, f.finished);
        }

  abbrev FillOut : Type 0
  FillOut = Poll (IoResult ℕ) × Await × Buffered ar aw

  poll_read-IsValid :
      (b : Buffered ar aw)
      → IsValid b
      → (bs : List Byte) → (poll_read (length b.buf - b.w_offset) b.reader).0 ≡ ready (ok bs)
      → IsValid (record b {
        reader = (poll_read (length b.buf - b.w_offset) b.reader).1;
        buf = overwrite b.buf b.w_offset bs;
        w_offset = b.w_offset + length bs;
      })
  poll_read-IsValid b v bs p = record {
    ordered = omega (arith, v.ordered);
    fits = omega (arith, fill, length-overwrite b.buf b.w_offset bs fill);
    has_room = omega (arith, v.has_room, length-overwrite b.buf b.w_offset bs fill);
    stream =
        ap (◌++◌ (written b.writer))
          (slice-overwrite b.buf b.r_offset b.w_offset bs v.ordered v.fits)
        ∙ sym (append_assoc (written b.writer) (buffered b) bs)
        ∙ ap (λ x. x ++ bs) v.stream
        ∙ sym (reads _ _ bs p);
  }
    where
      fill : b.w_offset + length bs ≤ length b.buf
      fill = omega (arith, v.fits, reads_le _ _ bs p)

  -- A poll of the read keeps the buffer valid.
  poll_reading-IsValid :
      (b : Buffered ar aw)
      → IsValid b
      → Ends (λ (out : FillOut). IsValid out.2) (poll_reading ar aw b)
  unfolding poll_reading
  poll_reading-IsValid b v =
      let inside : in_range b.buf b.w_offset ≡ true = ground (arith, v.fits) in
      elim (Poll-cases (poll_read (length b.buf - b.w_offset) b.reader).0) [
        | inl p ↦
            rw (inside, poll_reading, p)
              (record {
                ordered = v.ordered;
                fits = v.fits;
                has_room = v.has_room;
                stream = v.stream ∙ sym (waits _ _ p);
              })
        | inr (inl (e, p)) ↦
            rw (inside, poll_reading, p)
              (record {
                ordered = v.ordered;
                fits = v.fits;
                has_room = v.has_room;
                stream = v.stream ∙ sym (fails _ _ e p);
              })
        | inr (inr (bs, p)) ↦ rw (inside, poll_reading, p) (poll_read-IsValid b v bs p)
      ]

  after_flush-IsValid :
      (b : Buffered ar aw) (out : Poll (IoResult (Unit {0})) × Buffered ar aw)
      → FlushKeeps b out
      → Ends (λ (out : FillOut). IsValid out.2) (after_flush ar aw out)
  unfolding after_flush
  after_flush-IsValid b (ready (ok u), b') f = poll_reading-IsValid b' f.valid
  after_flush-IsValid b (ready (err e), b') f = f.valid
  after_flush-IsValid b (pending, b') f = f.valid

  poll_flushing-IsValid :
      (b : Buffered ar aw)
      → IsValid b
      → Ends (λ (out : FillOut). IsValid out.2) (poll_flushing ar aw b)
  unfolding poll_flushing
  poll_flushing-IsValid b v =
      >>=-Ends (FlushKeeps b) (λ (out : FillOut). IsValid out.2) (flush ar aw b) (after_flush ar aw)
        (flush-IsValid b v) (after_flush-IsValid b)

  -- A poll of `fill_flush`, wherever its future stands, ends without a panic and keeps the buffer
  -- valid: the offsets stay inside the buffer, and every byte read is either written or buffered,
  -- in the order of its arrival.
  pub fill_flush-IsValid :
      (a : Await) (b : Buffered ar aw)
      → IsValid b
      → Ends (λ (out : FillOut). IsValid out.2) (fill_flush ar aw a b)
  unfolding fill_flush
  fill_flush-IsValid fresh b v = elim (Bool-cases (b.w_offset == length b.buf)) [
    | inl full ↦ rw full (poll_flushing-IsValid b v)
    | inr room ↦ rw room (poll_reading-IsValid b v)
  ]
  fill_flush-IsValid flushing b v = poll_flushing-IsValid b v
  fill_flush-IsValid reading b v = poll_reading-IsValid b v
