-- ===== src/Writer/Guarantee.antt =====
-- The writer task of src/write.rs: every step of it keeps the shared state consistent and the stream
-- as it is, so it is the writer that the sender relies on.
use socket_manager.Prelude.{
  ℕ, ◌+◌, ◌*◌, refl, ◌∙◌, inl, inr, Bool, true, not, ◌&&◌, List, [], ◌∷◌, Bool-cases, ltb,
}
use socket_manager.Std.{is_zero}
use socket_manager.Io.{AsyncWrite}
use socket_manager.Ring.{RingBuf}
use socket_manager.Channel.{Mpsc}
use socket_manager.Config.{ConnConfig, min_msg_buffer_size}
use socket_manager.Link.{Stage, receiving, shutting, waiting, flushing, returned, to_wait, to_recv}
use socket_manager.Link.Invariant.{IsLinked}
use socket_manager.Writer.{
  as_usize, Shared, staged, select_at, wait_at, writer_at, writer_step, writer_run,
}
use socket_manager.Writer.Keeps.{Keeps, receive-Keeps, shut-Keeps}
use socket_manager.Writer.Flush.{flush_at-Keeps, rewait-Keeps}
use socket_manager.MsgSender.Bursts.{IsWriter}

module _ (rb : RingBuf) (mp : Mpsc ℕ) (aw : AsyncWrite) where
  open rb use {cons_is_closed, wait_occupied, occupied_len}
  open mp use {poll_recv}
  open aw use {written, poll_shutdown}

  wait_at-Keeps :
      (own : List ℕ) (i : ℕ) (k : Bool) (l : Shared rb mp aw)
      → IsLinked rb mp aw own (staged rb mp aw l (waiting i k))
      → Keeps rb mp aw own (staged rb mp aw l (waiting i k)) (wait_at rb mp aw i k l)
  unfolding wait_at
  wait_at-Keeps own i k l h = elim (Bool-cases (wait_occupied min_msg_buffer_size (l.rings i))) [
    | inr wait ↦ rw wait (rewait-Keeps rb mp aw own i k (waiting i k) l refl tt h)
    | inl go ↦ elim (Bool-cases (cons_is_closed (l.rings i))) [
      | inl c ↦ rw (go, c) (rewait-Keeps rb mp aw own i k (flushing i to_recv) l refl c h)
      | inr o ↦ rw (go, o) (rewait-Keeps rb mp aw own i k (flushing i to_wait) l refl tt h)
    ]
  ]

  -- How many bytes the `select!` waits for.
  abbrev threshold : Bool → ℕ
  threshold k = as_usize k * min_msg_buffer_size + as_usize (not k)

  select_at-Keeps :
      (own : List ℕ) (tick : Bool) (i : ℕ) (k : Bool) (l : Shared rb mp aw)
      → IsLinked rb mp aw own (staged rb mp aw l (waiting i k))
      → Keeps rb mp aw own (staged rb mp aw l (waiting i k)) (select_at rb mp aw tick i k l)
  unfolding select_at
  select_at-Keeps own tick i k l h = elim (Bool-cases (wait_occupied (threshold k) (l.rings i))) [
    | inr wait ↦ elim (Bool-cases (k && tick)) [
      | inl t ↦ rw (wait, t) (rewait-Keeps rb mp aw own i k (flushing i to_wait) l refl tt h)
      | inr n ↦ rw (wait, n) (rewait-Keeps rb mp aw own i k (waiting i k) l refl tt h)
    ]
    | inl go ↦ elim (Bool-cases (cons_is_closed (l.rings i))) [
      | inl c ↦ rw (go, c) (rewait-Keeps rb mp aw own i k (flushing i to_recv) l refl c h)
      | inr o ↦ elim (Bool-cases (ltb (occupied_len (l.rings i)) min_msg_buffer_size)) [
        | inl few ↦ rw (go, o, few) (rewait-Keeps rb mp aw own i k (waiting i true) l refl tt h)
        | inr many ↦
            rw (go, o, many) (rewait-Keeps rb mp aw own i k (flushing i to_wait) l refl tt h)
      ]
    ]
  ]

  writer_at-Keeps :
      (own : List ℕ) (c : ConnConfig) (tick : Bool) (s : Stage) (l : Shared rb mp aw)
      → IsLinked rb mp aw own (staged rb mp aw l s)
      → Keeps rb mp aw own (staged rb mp aw l s) (writer_at rb mp aw c tick s l)
  unfolding writer_at
  writer_at-Keeps own c tick receiving l h =
      receive-Keeps rb mp aw own l (poll_recv l.chan).0 refl h
  writer_at-Keeps own c tick shutting l h = shut-Keeps rb mp aw own l (poll_shutdown l.socket).0 h
  writer_at-Keeps own c tick (waiting i k) l h =
      elim (Bool-cases (is_zero c.write_flush_interval)) [
        | inl z ↦ rw z (wait_at-Keeps own i k l h)
        | inr n ↦ rw n (select_at-Keeps own tick i k l h)
      ]
  writer_at-Keeps own c tick (flushing i after) l h = flush_at-Keeps rb mp aw own after i l h
  writer_at-Keeps own c tick (returned r left) l h = record {
    linked = h;
    same_stream = refl;
    same_own = refl;
  }

  pub writer_step-Keeps :
      (own : List ℕ) (c : ConnConfig) (tick : Bool) (l : Shared rb mp aw)
      → IsLinked rb mp aw own l
      → Keeps rb mp aw own l (writer_step rb mp aw c tick l)
  unfolding writer_step
  writer_step-Keeps own c tick l h = writer_at-Keeps own c tick l.stage l h

  -- However many steps the writer task makes, with whatever ticks, and whether or not the sender is
  -- still there: the shared state stays consistent, the rings of the sender stay its rings, and
  -- the bytes written, with those still in rings behind them, stay the same bytes in the same
  -- order.
  pub writer_run-Keeps :
      (own : List ℕ) (c : ConnConfig) (ticks : List Bool) (l : Shared rb mp aw)
      → IsLinked rb mp aw own l
      → Keeps rb mp aw own l (writer_run rb mp aw c ticks l)
  unfolding writer_run
  writer_run-Keeps own c [] l h = record { linked = h; same_stream = refl; same_own = refl }
  writer_run-Keeps own c (tick ∷ ticks) l h =
      let first = writer_step-Keeps own c tick l h in
      let rest = writer_run-Keeps own c ticks (writer_step rb mp aw c tick l) first.linked in
      record {
        linked = rest.linked;
        same_stream = rest.same_stream ∙ first.same_stream;
        same_own = rest.same_own ∙ first.same_own;
      }

  -- The writer task, running for a while at each moment that the sender leaves it, is a writer as the
  -- sender's operations rely on.
  pub writer_run-IsWriter :
      (c : ConnConfig) (ticks : ℕ → List Bool)
      → IsWriter rb mp aw (λ now l. writer_run rb mp aw c (ticks now) l)
  writer_run-IsWriter c ticks = record {
    keeps = λ n own l h. (writer_run-Keeps own c (ticks n) l h).linked;
    keeps_stream = λ n own l h. (writer_run-Keeps own c (ticks n) l h).same_stream;
    keeps_own = λ n own l h. (writer_run-Keeps own c (ticks n) l h).same_own;
  }
