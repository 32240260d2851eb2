-- ===== src/Reader/Returns.antt =====
-- The reader task of src/read.rs comes to its end: over a socket that ends, and a callback that takes
-- bytes, it hands everything out and returns.
use socket_manager.Prelude.{
  ℕ, ◌+◌, ◌≤◌, ◌<◌, ◌≡◌, refl, sym, ap, subst, ◌∙◌, ◌⊎◌, inl, inr, Bool, List, [], ◌∷◌, arith,
  length, Bool-cases, ◌==◌,
}
use socket_manager.Std.{Poll, ok, IoResult, Ends, Ends-map, Ends-both, >>=-Ends, ◌>>=◌, is_zero}
use socket_manager.Io.{AsyncRead, AsyncWrite, TakesSome, HasFinite}
use socket_manager.Config.{ConnConfig}
use socket_manager.BufReadWrite.{Buffered, flush, fresh, fill_flush}
use socket_manager.BufReadWrite.Stream.{IsValid}
use socket_manager.BufReadWrite.Answers.{
  Empties, flush-Empties, FillOut, HasRead, fill_flush-HasRead,
}
use socket_manager.Reader.{
  Stage, filling, last_flushing, returned, Reading, after_last, after_fill, after_select,
  no_auto_flush_at, auto_flush_at, reader_step, reader_run, handle_reader,
}
use socket_manager.Reader.Delivery.{
  IsFaithful, reader_step-IsFaithful, handle_reader-IsFaithful, handle_reader-start, reader_task,
  reader_run-IsFaithful, returned-IsFaithful,
}

module _ (ar : AsyncRead) (aw : AsyncWrite) (finite : HasFinite ar) (takes : TakesSome aw) where
  open ar use {Reader, received}
  open aw use {Writer, written}
  open finite use {left}

  abbrev remaining : Reading ar aw → ℕ
  remaining t = left t.read_write.reader

  -- A step of the loop: it reads on, or it has seen the end.
  abbrev Nearer : Reading ar aw → Reading ar aw → Type 0
  Nearer t t' =
      ((t'.stage ≡ filling fresh) × (remaining t' < remaining t))
      ⊎ ((t'.stage ≡ last_flushing) × (remaining t' ≡ 0))

  after_fill-Nearer :
      (t : Reading ar aw) (out : FillOut ar aw finite takes)
      → HasRead ar aw finite takes t.read_write out
      → Ends (Nearer t) (after_fill ar aw t out)
  after_fill-Nearer t (p, a, b) h =
      subst (λ q. Ends (Nearer t) (after_fill ar aw t (q, a, b))) (sym h.is_ready)
        (elim (Bool-cases (h.count == 0)) [
          | inl z ↦ rw z (inr (refl, grind (arith, h.fewer, h.some_read)))
          | inr n ↦ rw n (inl (refl, ground (arith, h.fewer)))
        ])

  after_select-Nearer :
      (tick : Bool) (t : Reading ar aw) (out : FillOut ar aw finite takes)
      → HasRead ar aw finite takes t.read_write out
      → Ends (Nearer t) (after_select ar aw tick t out)
  after_select-Nearer tick t (p, a, b) h =
      subst (λ q. Ends (Nearer t) (after_select ar aw tick t (q, a, b))) (sym h.is_ready)
        (elim (Bool-cases (h.count == 0)) [
          | inl z ↦ rw z (inr (refl, grind (arith, h.fewer, h.some_read)))
          | inr n ↦ rw n (inl (refl, ground (arith, h.fewer)))
        ])

  -- The last flush: the task returns.
  abbrev Returns : Reading ar aw → Type 0
  Returns t = (t.stage ≡ returned (ok tt)) × (remaining t ≡ 0)

  after_last-Returns :
      (t : Reading ar aw) (out : Poll (IoResult (Unit {0})) × Buffered ar aw)
      → remaining t ≡ 0
      → Empties ar aw finite takes t.read_write out
      → Ends Returns (after_last ar aw t out)
  after_last-Returns t (p, b) z h =
      subst (λ q. Ends Returns (after_last ar aw t (q, b))) (sym h.is_ready)
        (refl, ap left h.keeps.same_reader ∙ z)

  -- A step from a known stage, in both loops.
  reader_step-at :
      (P : Reading ar aw → Type 0) (c : ConnConfig) (tick : Bool) (s : Stage) (t : Reading ar aw)
      → t.stage ≡ s
      → Ends P (no_auto_flush_at ar aw s t)
      → Ends P (auto_flush_at ar aw tick s t)
      → Ends P (reader_step ar aw c tick t)
  unfolding reader_step
  reader_step-at P c tick s t e h k = elim (Bool-cases (is_zero c.read_msg_flush_interval)) [
    | inl z ↦ rw z (subst (λ s. Ends P (no_auto_flush_at ar aw s t)) (sym e) h)
    | inr n ↦ rw n (subst (λ s. Ends P (auto_flush_at ar aw tick s t)) (sym e) k)
  ]

  filling-Nearer :
      (c : ConnConfig) (tick : Bool) (t : Reading ar aw)
      → t.stage ≡ filling fresh
      → IsValid ar aw t.read_write
      → Ends (Nearer t) (reader_step ar aw c tick t)
  unfolding no_auto_flush_at auto_flush_at
  filling-Nearer c tick t e v =
      let read = fill_flush-HasRead ar aw finite takes t.read_write v in
      reader_step-at (Nearer t) c tick (filling fresh) t e
        (>>=-Ends (HasRead ar aw finite takes t.read_write) (Nearer t)
          (fill_flush ar aw fresh t.read_write) (after_fill ar aw t) read (after_fill-Nearer t))
        (>>=-Ends (HasRead ar aw finite takes t.read_write) (Nearer t)
          (fill_flush ar aw fresh t.read_write) (after_select ar aw tick t) read
          (after_select-Nearer tick t))

  last-Returns :
      (c : ConnConfig) (tick : Bool) (t : Reading ar aw)
      → t.stage ≡ last_flushing
      → remaining t ≡ 0
      → IsValid ar aw t.read_write
      → Ends Returns (reader_step ar aw c tick t)
  unfolding no_auto_flush_at auto_flush_at
  last-Returns c tick t e z v =
      let all : Ends Returns (flush ar aw t.read_write >>= after_last ar aw t) =
        >>=-Ends (Empties ar aw finite takes t.read_write) Returns (flush ar aw t.read_write)
          (after_last ar aw t) (flush-Empties ar aw finite takes t.read_write v)
          (λ out h. after_last-Returns t out z h) in
      reader_step-at Returns c tick last_flushing t e all all

  -- What has returned stays so.
  stays-Returns :
      (c : ConnConfig) (ticks : List Bool) (t : Reading ar aw)
      → Returns t
      → Ends Returns (reader_run ar aw c ticks t)
  unfolding reader_run no_auto_flush_at auto_flush_at
  stays-Returns c [] t h = h
  stays-Returns c (tick ∷ ticks) t h =
      >>=-Ends Returns Returns (reader_step ar aw c tick t) (reader_run ar aw c ticks)
        (reader_step-at Returns c tick (returned (ok tt)) t h.0 h h)
        (λ t' k. stays-Returns c ticks t' k)

  last_run-Returns :
      (c : ConnConfig) (ticks : List Bool) (t : Reading ar aw)
      → t.stage ≡ last_flushing
      → remaining t ≡ 0
      → IsValid ar aw t.read_write
      → 1 ≤ length ticks
      → Ends Returns (reader_run ar aw c ticks t)
  unfolding reader_run
  last_run-Returns c [] t e z v le = absurd (omega arith)
  last_run-Returns c (tick ∷ ticks) t e z v le =
      >>=-Ends Returns Returns (reader_step ar aw c tick t) (reader_run ar aw c ticks)
        (last-Returns c tick t e z v) (λ t' k. stays-Returns c ticks t' k)

  run-Returns :
      (c : ConnConfig) (ticks : List Bool) (t : Reading ar aw)
      → t.stage ≡ filling fresh
      → IsFaithful ar aw t
      → remaining t + 2 ≤ length ticks
      → Ends Returns (reader_run ar aw c ticks t)
  unfolding reader_run
  run-Returns c [] t e h le = absurd (omega arith)
  run-Returns c (tick ∷ ticks) t e h le =
      >>=-Ends (λ t'. Nearer t t' × IsFaithful ar aw t') Returns (reader_step ar aw c tick t)
        (reader_run ar aw c ticks)
        (Ends-both (Nearer t) (IsFaithful ar aw) (reader_step ar aw c tick t)
          (filling-Nearer c tick t e h.valid) (reader_step-IsFaithful ar aw c tick t h))
        (λ t' k. elim k.0 [
          | inl more ↦ run-Returns c ticks t' more.0 k.1 (omega (arith, more.1))
          | inr last ↦ last_run-Returns c ticks t' last.0 last.1 k.1.valid (omega arith)
        ])

  -- From the loop's head a task returns, and has then handed everything out.
  pub run-Delivers :
      (c : ConnConfig) (ticks : List Bool) (t : Reading ar aw)
      → t.stage ≡ filling fresh
      → IsFaithful ar aw t
      → remaining t + 2 ≤ length ticks
      → Ends
          (λ t'.
            (t'.stage ≡ returned (ok tt))
            × (left t'.read_write.reader ≡ 0)
            × (written t'.read_write.writer ≡ received t'.read_write.reader))
          (reader_run ar aw c ticks t)
  run-Delivers c ticks t e h le =
      Ends-map (λ t' k. (k.0.0, k.0.1, returned-IsFaithful ar aw t' k.1 k.0.0))
        (reader_run ar aw c ticks t)
        (Ends-both Returns (IsFaithful ar aw) (reader_run ar aw c ticks t)
          (run-Returns c ticks t e h le) (reader_run-IsFaithful ar aw c ticks t h))

  -- Over a socket with finitely many bytes to read, and a callback that takes some bytes at each call, the
  -- reader task does not panic and returns with success within as many polls as there are bytes
  -- and two more, whatever the timer says; the socket has then been read to its end, and the
  -- callback has taken everything, in order.
  pub reader_returns :
      (c : ConnConfig) (ticks : List Bool) (r : Reader) (w : Writer)
      → written w ≡ received r
      → left r + 2 ≤ length ticks
      → Ends
          (λ t.
            (t.stage ≡ returned (ok tt))
            × (left t.read_write.reader ≡ 0)
            × (written t.read_write.writer ≡ received t.read_write.reader))
          (reader_task ar aw c ticks r w)
  reader_returns c ticks r w e le =
      >>=-Ends
        (λ t.
          ((t.stage ≡ filling fresh) × (t.read_write.reader ≡ r) × (t.read_write.writer ≡ w))
          × IsFaithful ar aw t)
        _ (handle_reader ar aw c r w) (reader_run ar aw c ticks)
        (Ends-both _ (IsFaithful ar aw) (handle_reader ar aw c r w)
          (handle_reader-start ar aw c r w) (handle_reader-IsFaithful ar aw c r w e))
        (λ t h. run-Delivers c ticks t h.0.0 h.1 (omega (arith, ap left h.0.1)))
