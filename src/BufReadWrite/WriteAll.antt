-- ===== src/BufReadWrite/WriteAll.antt =====
-- `WriteAll::poll` of src/buf_read_write.rs: it comes to an end without a panic, and loses nothing.
use socket_manager.Prelude.{
  ℕ, zero, suc, ◌+◌, ◌-◌, ◌≤◌, ◌<◌, ◌≡◌, refl, sym, ap, ◌∙◌, ◌≢◌, ◌⊎◌, inl, inr, true, List, [],
  ◌++◌, append_assoc, arith, length, take, length-take, length-drop, take-append-drop, drop-drop,
  drop_of_length-le, Bool-cases, ltb, ◌==◌,
}
use socket_manager.Std.{Byte, ready, ok, Ends, Ends-map, Poll-cases}
use socket_manager.Io.{AsyncWrite}
use socket_manager.BufReadWrite.{slice, in_range, WriteAllOut, write_all_loop, write_all}

pub length-slice : (xs : List Byte) (i j : ℕ) → j ≤ length xs → length (slice xs i j) ≡ j - i
length-slice xs i j h = omega (arith, length-drop i (take j xs), length-take j xs)

-- Nothing lies between `j` and `i` where `i` is not below `j`.
pub slice_empty : (xs : List Byte) (i j : ℕ) → j ≤ i → slice xs i j ≡ []
slice_empty xs i j h = drop_of_length-le i (take j xs) (omega (arith, length-take j xs))

pub take-slice-append :
    (n : ℕ) (xs : List Byte) (i j : ℕ) → take n (slice xs i j) ++ slice xs (i + n) j ≡ slice xs i j
take-slice-append n xs i j =
    ap (◌++◌ (take n (slice xs i j))) (sym (drop-drop i n (take j xs)))
    ∙ take-append-drop n (slice xs i j)

module _ (aw : AsyncWrite) where
  open aw use {Writer, poll_write, written, accepts_le, accepts, fails, waits}

  -- What a poll that started with the offsets `r` and `e` leaves: the written bytes and those still
  -- buffered are together what they were; the offsets are in order; and either all is flushed
  -- and both are 0, or the end is where it was and the start has not gone back.
  pub record Flushed (w : Writer) (buf : List Byte) (r e : ℕ) (out : WriteAllOut Writer)
      : Type 0 where
    pub conserved : written out.3 ++ slice buf out.1 out.2 ≡ written w ++ slice buf r e
    pub ordered : out.1 ≤ out.2
    pub finished :
        ((out.0 ≡ ready (ok tt)) × (out.1 ≡ 0) × (out.2 ≡ 0))
        ⊎ ((out.0 ≢ ready (ok tt)) × (r ≤ out.1) × (out.2 ≡ e))

  -- A round of the loop that has written `n` bytes and goes on.
  Flushed-next :
      (w : Writer) (buf : List Byte) (r e n : ℕ)
      → (poll_write (slice buf r e) w).0 ≡ ready (ok n)
      → (out : WriteAllOut Writer) → Flushed (poll_write (slice buf r e) w).1 buf (r + n) e out
      → Flushed w buf r e out
  Flushed-next w buf r e n p out f = record {
    conserved =
        f.conserved
        ∙ ap (λ x. x ++ slice buf (r + n) e) (accepts (slice buf r e) w n p)
        ∙ append_assoc (written w) (take n (slice buf r e)) (slice buf (r + n) e)
        ∙ ap (◌++◌ (written w)) (take-slice-append n buf r e);
    ordered = f.ordered;
    finished = ground (arith, f.finished);
  }

  write_all_loop-Flushed :
      (fuel : ℕ) (w : Writer) (buf : List Byte) (r e : ℕ)
      → e - r < fuel
      → r ≤ e
      → e ≤ length buf
      → Ends (Flushed w buf r e) (write_all_loop aw fuel w buf r e)
  unfolding write_all_loop
  write_all_loop-Flushed zero w buf r e h _ _ = absurd (omega arith)
  write_all_loop-Flushed (suc fuel) w buf r e h le fits = elim (Bool-cases (ltb r e)) [
    | inl more ↦
        let inside : in_range buf e ≡ true = ground arith in
        elim (Poll-cases (poll_write (slice buf r e) w).0) [
          | inl p ↦
              rw (more, write_all_loop, inside, p)
                (record {
                  conserved = ap (λ x. x ++ slice buf r e) (waits (slice buf r e) w p);
                  ordered = le;
                  finished = inr (ground arith, omega arith, refl);
                })
          | inr (inl (x, p)) ↦
              rw (more, write_all_loop, inside, p)
                (record {
                  conserved = ap (λ x. x ++ slice buf r e) (fails (slice buf r e) w x p);
                  ordered = le;
                  finished = inr (ground arith, omega arith, refl);
                })
          | inr (inr (n, p)) ↦ elim (Bool-cases (n == 0)) [
            | inl none_written ↦
                rw (more, write_all_loop, inside, p, none_written)
                  (Flushed-next w buf r e n p _ (record {
                    conserved = refl;
                    ordered = ground arith;
                    finished = inr (ground arith, omega arith, refl);
                  }))
            | inr some_written ↦
                rw (more, write_all_loop, inside, p, some_written)
                  (Ends-map (Flushed-next w buf r e n p) _ (
                    write_all_loop-Flushed fuel _ buf (r + n) e (ground arith)
                      (omega (arith, accepts_le _ _ _ p, length-slice buf r e fits)) fits))
          ]
        ]
    | inr last ↦
        let e' : (r == e) ≡ true = ground arith in
        rw (last, write_all_loop, e')
          (record {
            conserved = ap (◌++◌ (written w)) (sym (slice_empty buf r e (ground arith)));
            ordered = omega arith;
            finished = inl (refl, refl, refl);
          })
  ]

  -- A poll of `WriteAll` with its offsets in order and inside the buffer comes to an end: it does
  -- not panic, and its loop stops. What was written and what is still buffered are together
  -- what they were; either everything is flushed and both offsets are 0, or the end is where it
  -- was and the start has not gone back.
  pub write_all-Flushed :
      (w : Writer) (buf : List Byte) (r e : ℕ)
      → r ≤ e
      → e ≤ length buf
      → Ends (Flushed w buf r e) (write_all aw w buf r e)
  unfolding write_all
  write_all-Flushed w buf r e le fits =
      write_all_loop-Flushed (suc (e - r)) w buf r e (omega arith) le fits
