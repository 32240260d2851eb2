-- ===== src/MsgSender/Fed.antt =====
-- The sender of src/msg_sender.rs while the writer task of src/write.rs is at work and polled now and then.
use socket_manager.Prelude.{
  ℕ, zero, suc, ◌+◌, ◌≤◌, ◌<◌, ◌≡◌, ap, ◌∙◌, ◌≢◌, inl, inr, Bool, false, List, [], ◌∷◌, arith,
  length, drop, ltb, ◌==◌, Bool-cases,
}
use socket_manager.Std.{Byte, Poll, ok, err, IoError, IfEnds}
use socket_manager.Io.{AsyncWrite}
use socket_manager.Ring.{RingBuf}
use socket_manager.Channel.{Mpsc}
use socket_manager.Config.{ConnConfig}
use socket_manager.Link.Chain.{items-update_self}
use socket_manager.Link.Invariant.{IsLinked-later, IsReady-with_own}
use socket_manager.MsgSender.{Shared, own_ring, with_own, push, polled, turn, burst_loop}
use socket_manager.MsgSender.Bursts.{IsWriter}
use socket_manager.Writer.{writer_run}
use socket_manager.Writer.Guarantee.{writer_run-Keeps}
use socket_manager.Writer.Progress.{IsEager}
use socket_manager.Writer.Room.{AdvanceKeeps}
use socket_manager.Writer.Drains.{
  IsServed, HasRoom, room_need, writer_run-Nears, writer_run-HasRoom,
}

module _ (rb : RingBuf) (mp : Mpsc ℕ) (aw : AsyncWrite) where
  open rb use {
    Ring, items, capacity, prod_is_closed, push_slice, push_keeps, poll_write, poll_write_keeps,
    poll_write_pending,
  }

  -- A poll of a ring whose consumer is there does not fail, and takes some bytes where one fits. It
  -- changes neither the ring's size nor whether the consumer is there.
  pub record TakesWhatFits : Type 0 where
    pub takes :
        (bs : List Byte) (r : Ring)
        → prod_is_closed r ≡ false
        → length (items r) < capacity r
        → bs ≢ []
        → (n : ℕ) × (0 < n) × ((poll_write bs r).0 ≡ Poll.ready (ok n))
    pub never_fails :
        (bs : List Byte) (r : Ring) (e : IoError)
        → prod_is_closed r ≡ false
        → (poll_write bs r).0 ≢ Poll.ready (err e)
    pub keeps :
        (bs : List Byte) (r : Ring)
        → (capacity (poll_write bs r).1 ≡ capacity r)
          × (prod_is_closed (poll_write bs r).1 ≡ prod_is_closed r)

  -- `ticks` says how often the writer task is polled at a moment that the call of the sender leaves
  -- it, and what the timer says then.
  module _ (config : ConnConfig) (ticks : ℕ → Shared rb mp aw → List Bool) where
    abbrev pub writer : ℕ → Shared rb mp aw → Shared rb mp aw
    writer now l = writer_run rb mp aw config (ticks now l) l

    pub writer-IsWriter : IsWriter rb mp aw writer
    writer-IsWriter = record {
      keeps = λ n own l h. (writer_run-Keeps rb mp aw own config (ticks n l) l h).linked;
      keeps_stream =
          λ n own l h. (writer_run-Keeps rb mp aw own config (ticks n l) l h).same_stream;
      keeps_own = λ n own l h. (writer_run-Keeps rb mp aw own config (ticks n l) l h).same_own;
    }

    -- The task is polled as often as it needs to make room.
    abbrev pub IsEnough : ℕ → Type 0
    IsEnough n = (l : Shared rb mp aw) → room_need rb mp aw l ≤ length (ticks n l)

    -- Of any `k` moments in a row, there is one at which it is.
    abbrev pub IsFair : ℕ → Type 0
    IsFair k = (n : ℕ) → (j : ℕ) × (j < k) × IsEnough (n + j)

    module _ (eager : IsEager rb mp aw) (moves : AdvanceKeeps rb mp aw) (fits : TakesWhatFits) where
      abbrev Served : Shared rb mp aw → Type 0
      Served l = IsServed rb mp aw l

      pub later-IsServed : (l : Shared rb mp aw) (n : ℕ) → Served l → Served (record l { now = n })
      later-IsServed l n s = record {
        linked = IsLinked-later rb mp aw (l.ring_buf ∷ []) l n s.linked;
        working = s.working;
        is_read = s.is_read;
        wide = s.wide;
      }

      pub turn-IsServed : (l : Shared rb mp aw) → Served l → Served (turn rb mp aw writer l)
      turn-IsServed l h =
          later-IsServed (writer l.now l) (l.now + 1)
            (writer_run-Nears rb mp aw eager moves config (ticks l.now l) l h).0

      pub turn-HasRoom :
          (l : Shared rb mp aw)
          → IsEnough l.now
          → Served l
          → HasRoom rb mp aw (turn rb mp aw writer l)
      turn-HasRoom l enough h =
          (writer_run-HasRoom rb mp aw eager moves config (ticks l.now l) l h (enough l)).1

      -- A write to the sender's ring.
      with_own-IsServed :
          (l : Shared rb mp aw) (r : Ring)
          → Served l
          → rb.cons_is_closed r ≡ rb.cons_is_closed (own_ring rb mp aw l)
          → capacity r ≡ capacity (own_ring rb mp aw l)
          → prod_is_closed r ≡ prod_is_closed (own_ring rb mp aw l)
          → Served (with_own rb mp aw l r)
      with_own-IsServed l r h c s p =
          let own = items-update_self rb mp aw l.rings l.ring_buf r in
          record {
            linked = IsReady-with_own rb mp aw l r h.linked c;
            working = h.working;
            is_read = ap prod_is_closed own ∙ p ∙ h.is_read;
            wide = omega (arith, h.wide, s, ap capacity own);
          }

      push-IsServed :
          (bs : List Byte) (l : Shared rb mp aw) → Served l → Served (push rb mp aw bs l)
      push-IsServed bs l h =
          let (s, c, p) = push_keeps bs (own_ring rb mp aw l) in
          with_own-IsServed l (push_slice bs (own_ring rb mp aw l)).1 h c s p

      pub polled-IsServed :
          (bs : List Byte) (l : Shared rb mp aw) → Served l → Served (polled rb mp aw bs l)
      polled-IsServed bs l h =
          let (s, p) = fits.keeps bs (own_ring rb mp aw l) in
          with_own-IsServed l (poll_write bs (own_ring rb mp aw l)).1 h
            (poll_write_keeps bs (own_ring rb mp aw l)) s p

      pub burst_loop-IsServed :
          (fuel offset : ℕ) (bytes : List Byte) (l : Shared rb mp aw)
          → Served l
          → IfEnds (λ out. Served out.2) (burst_loop rb mp aw writer fuel offset bytes l)
      unfolding burst_loop
      burst_loop-IsServed zero offset bytes l h = tt
      burst_loop-IsServed (suc fuel) offset bytes l h =
          let n = (push_slice (drop offset bytes) (own_ring rb mp aw (turn rb mp aw writer l))).0 in
          let l' = push rb mp aw (drop offset bytes) (turn rb mp aw writer l) in
          let h' : Served l' = push-IsServed (drop offset bytes) _ (turn-IsServed l h) in
          elim (Bool-cases (ltb (length bytes) offset)) [
            | inl out ↦ rw (out, burst_loop) tt
            | inr inside ↦ elim (Bool-cases (n == 0)) [
              | inl stuck ↦ rw (inside, burst_loop, stuck) h'
              | inr some ↦ elim (Bool-cases (offset + n == length bytes)) [
                | inl all ↦ rw (inside, burst_loop, some, all) h'
                | inr rest ↦
                    rw (inside, burst_loop, some, rest)
                      (burst_loop-IsServed fuel (offset + n) bytes l' h')
              ]
            ]
          ]
