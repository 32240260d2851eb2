-- ===== src/BufReadWrite/Answers.antt =====
-- `fill_flush` and `flush` of src/buf_read_write.rs over a socket and a writer that always answer: a poll
-- comes to an end with success.
use socket_manager.Prelude.{
  ℕ, zero, suc, ◌+◌, ◌-◌, ◌≤◌, ◌<◌, ◌≡◌, refl, sym, ap, subst, ◌∙◌, ◌⊎◌, inl, inr, Bool, true, List,
  arith, length, Bool-cases, ltb, ◌==◌,
}
use socket_manager.Std.{Byte, Poll, ready, ok, IoResult, Ends, Ends-map, Ends-both, >>=-Ends}
use socket_manager.Io.{AsyncRead, AsyncWrite, TakesSome, HasFinite}
use socket_manager.BufReadWrite.{
  slice, in_range, WriteAllOut, write_all_loop, write_all, Buffered, put_back, flush, poll_reading,
  after_flush, poll_flushing, Await, fresh, fill_flush,
}
use socket_manager.BufReadWrite.WriteAll.{length-slice}
use socket_manager.BufReadWrite.Stream.{IsValid, FlushKeeps, flush-IsValid}

module _ (aw : AsyncWrite) (takes : TakesSome aw) where
  open aw use {Writer, poll_write, accepts_le}

  -- A poll of `WriteAll` is not left pending.
  write_all_loop-ready :
      (fuel : ℕ) (w : Writer) (buf : List Byte) (r e : ℕ)
      → e - r < fuel
      → r ≤ e
      → e ≤ length buf
      → Ends (λ out. out.0 ≡ ready (ok tt)) (write_all_loop aw fuel w buf r e)
  unfolding write_all_loop
  write_all_loop-ready zero w buf r e h le fits = absurd (omega arith)
  write_all_loop-ready (suc fuel) w buf r e h le fits = elim (Bool-cases (ltb r e)) [
    | inl more ↦
        let inside : in_range buf e ≡ true = ground arith in
        let size = length-slice buf r e fits in
        let (n, pos, p) =
          takes (slice buf r e) w (λ z. absurd (ground (arith, size, ap length z))) in
        let some_written : (n == 0) ≡ Bool.false = ground arith in
        rw (more, write_all_loop, inside, p, some_written)
          (write_all_loop-ready fuel _ buf (r + n) e (ground arith)
            (omega (arith, accepts_le _ _ _ p, size)) fits)
    | inr last ↦ let e' : (r == e) ≡ true = ground arith in rw (last, write_all_loop, e') refl
  ]

module _ (ar : AsyncRead) (aw : AsyncWrite) (finite : HasFinite ar) (takes : TakesSome aw) where
  open ar use {Reader, received}
  open aw use {Writer, written}
  open finite use {left, gives}

  -- A poll of `flush` empties the buffer.
  pub record Empties (b : Buffered ar aw) (out : Poll (IoResult (Unit {0})) × Buffered ar aw)
      : Type 0 where
    pub is_ready : out.0 ≡ ready (ok tt)
    pub keeps : FlushKeeps ar aw b out
    pub at_start : out.1.w_offset ≡ 0

  pub flush-Empties : (b : Buffered ar aw) → IsValid ar aw b → Ends (Empties b) (flush ar aw b)
  unfolding flush write_all
  flush-Empties b v =
      let is_ready : Ends (λ out. out.0 ≡ ready (ok tt)) (flush ar aw b) =
        >>=-Ends (λ (out : WriteAllOut Writer). out.0 ≡ ready (ok tt))
          (λ out. out.0 ≡ ready (ok tt)) (write_all aw b.writer b.buf b.r_offset b.w_offset)
          (put_back ar aw b)
          (write_all_loop-ready aw takes _ b.writer b.buf b.r_offset b.w_offset (omega arith)
            v.ordered v.fits)
          (λ out h. h) in
      Ends-map
        (λ out h. record {
          is_ready = h.0;
          keeps = h.1;
          at_start = elim h.1.finished [ inl f ↦ f.2 | inr f ↦ absurd (f.0 h.0) ];
        })
        (flush ar aw b)
        (Ends-both (λ out. out.0 ≡ ready (ok tt)) (FlushKeeps ar aw b) (flush ar aw b) is_ready
          (flush-IsValid ar aw b v))

  -- A poll that has read `n` bytes; it reads none only where none is left.
  abbrev pub FillOut : Type 0
  FillOut = Poll (IoResult ℕ) × Await × Buffered ar aw

  pub record HasRead (b : Buffered ar aw) (out : FillOut) : Type 0 where
    pub count : ℕ
    pub is_ready : out.0 ≡ ready (ok count)
    pub fewer : left out.2.reader + count ≡ left b.reader
    pub some_read : (0 < count) ⊎ (left b.reader ≡ 0)

  poll_reading-HasRead :
      (b : Buffered ar aw) → b.w_offset < length b.buf → Ends (HasRead b) (poll_reading ar aw b)
  unfolding poll_reading
  poll_reading-HasRead b room =
      let inside : in_range b.buf b.w_offset ≡ true = ground arith in
      let (bs, p, fewer, some_read) = gives (length b.buf - b.w_offset) b.reader (omega arith) in
      rw (inside, poll_reading, p)
        (record { count = length bs; is_ready = refl; fewer = fewer; some_read = some_read })

  after_flush-HasRead :
      (b : Buffered ar aw) (out : Poll (IoResult (Unit {0})) × Buffered ar aw)
      → Empties b out
      → Ends (HasRead b) (after_flush ar aw out)
  unfolding after_flush
  after_flush-HasRead b out h =
      let b' = out.1 in
      let room : b'.w_offset < length b'.buf = omega (arith, h.at_start, h.keeps.valid.has_room) in
      let same = ap left h.keeps.same_reader in
      subst (λ r. Ends (HasRead b) (after_flush ar aw (r, b'))) (sym h.is_ready)
        (Ends-map
          (λ read k. record {
            count = k.count;
            is_ready = k.is_ready;
            fewer = k.fewer ∙ same;
            some_read = grind (arith, k.some_read, same);
          })
          (poll_reading ar aw b') (poll_reading-HasRead b' room))

  pub fill_flush-HasRead :
      (b : Buffered ar aw) → IsValid ar aw b → Ends (HasRead b) (fill_flush ar aw fresh b)
  unfolding fill_flush poll_flushing
  fill_flush-HasRead b v = elim (Bool-cases (b.w_offset == length b.buf)) [
    | inl full ↦ rw full (
        >>=-Ends (Empties b) (HasRead b) (flush ar aw b) (after_flush ar aw) (flush-Empties b v)
          (λ out h. after_flush-HasRead b out h))
    | inr space ↦ rw space (poll_reading-HasRead b (ground (arith, v.fits)))
  ]
