-- ===== src/MsgSender.antt =====
-- `MsgSender` of src/msg_sender.rs. An operation is one task's code; between two of its calls of the
-- shared ring or of the channel the writer task may run, and `env` says what it does then.
pub mod Bursts
pub mod Handover
pub mod Sends
pub mod Async
pub mod Block
pub mod Spins
pub mod Fed
pub mod Completes
pub mod Served
use socket_manager.Prelude.{
  ℕ, zero, suc, ◌+◌, ◌-◌, String, Bool, true, false, List, [], ◌∷◌, length, drop, ltb, ◌==◌,
  if◌then◌else◌, max,
}
use socket_manager.Std.{
  Byte, Poll, Result, ok, err, IoError, IoResult, other, write_zero, text, prefixed, new_error, Run,
  done, panics, out_of_fuel, ◌>>=◌,
}
use socket_manager.Io.{AsyncWrite}
use socket_manager.Ring.{RingBuf}
use socket_manager.Channel.{Mpsc}
use socket_manager.Link.{Link, update, ring_buffer_size}

pub data BurstWriteState : Type 0 where
  pending finished : BurstWriteState

-- `bytes.is_empty()`
abbrev pub is_empty : List Byte → Bool
is_empty [] = true
is_empty (b ∷ bs) = false

-- The error of a channel whose receiver is gone.
abbrev pub closed_error : String → IoError
closed_error e = new_error write_zero (prefixed "connection closed: " (text e))

-- The error of a ring whose consumer is gone.
abbrev pub connection_closed : IoError
connection_closed = new_error other (text "connection closed")

-- `Handle::block_on` runs the future to its end. In an async context it panics, as
-- include/socket_manager/msg_sender.h says.
unfoldable pub block_on : {A : Type 0} → Bool → Run A → Run A
block_on true future = panics
block_on false future = future

module _ (rb : RingBuf) (mp : Mpsc ℕ) (aw : AsyncWrite) where
  open rb use {Ring, create, push_slice, poll_write, register_waker, prod_is_closed, drop_prod}
  open mp use {send}

  abbrev pub Shared : Type 0
  Shared = Link rb mp aw

  -- The ring of the sender, and the state with that ring replaced.
  abbrev pub own_ring : Shared → Ring
  own_ring l = l.rings l.ring_buf

  abbrev pub with_own : Shared → Ring → Shared
  with_own l r = record l { rings = update l.rings l.ring_buf r }

  -- What the calls of the ring and the channel do to the shared state.
  abbrev pub push : List Byte → Shared → Shared
  push bs l = with_own l (push_slice bs (own_ring l)).1

  abbrev pub polled : List Byte → Shared → Shared
  polled bs l = with_own l (poll_write bs (own_ring l)).1

  abbrev pub register : Shared → Shared
  register l = with_own l (register_waker (own_ring l))

  -- A ring that was just made is put on the heap under a new number.
  abbrev pub new_ring : Ring → Shared → Shared
  new_ring r l = record l { rings = update l.rings l.count r; count = l.count + 1 }

  -- `self.rings_prd.send(ring)`, of the ring with the number `i`
  abbrev pub send_ring : ℕ → Shared → Shared
  send_ring i l = record l { chan = (send i l.chan).1 }

  -- `self.ring_buf = ring_buf`, which drops the old producer half
  abbrev pub replace_ring : ℕ → Shared → Shared
  replace_ring i l = record l {
    rings = update l.rings l.ring_buf (drop_prod (own_ring l));
    ring_buf = i;
  }

  -- The drop of a `MsgSender`: its producer half and its sender of rings.
  unfoldable pub drop_msg_sender : Shared → Shared
  drop_msg_sender l = record l {
    rings = update l.rings l.ring_buf (drop_prod (own_ring l));
    chan = mp.drop_sender l.chan;
  }

  module _ (env : ℕ → Shared → Shared) where
    -- The writer task has its turn.
    abbrev pub turn : Shared → Shared
    turn l = let l' = env l.now l in record l' { now = l.now + 1 }

    -- The loop of `burst_write`. A round that goes on has pushed at least a byte, so one round more
    -- than there are bytes left is enough fuel.
    unfoldable pub burst_loop : ℕ → ℕ → List Byte → Shared → Run (BurstWriteState × ℕ × Shared)
    burst_loop zero offset bytes l = out_of_fuel
    burst_loop (suc fuel) offset bytes l = elim (ltb (length bytes) offset) [
      | true ↦ panics
      | false ↦
          let n = (push_slice (drop offset bytes) (own_ring (turn l))).0 in
          let l' = push (drop offset bytes) (turn l) in
          elim (n == 0) [
            | true ↦ done (pending, offset, l')
            | false ↦ elim (offset + n == length bytes) [
              | true ↦ done (finished, offset + n, l')
              | false ↦ burst_loop fuel (offset + n) bytes l'
            ]
          ]
    ]

    -- `burst_write(&mut offset, &mut self.ring_buf, bytes)`
    unfoldable pub burst_write : ℕ → List Byte → Shared → Run (BurstWriteState × ℕ × Shared)
    burst_write offset bytes l = burst_loop (suc (length bytes - offset)) offset bytes l

    -- The future `write_all` of `send_block`, run by `block_on`: a poll of the ring in each round. The
    -- fuel is the number of polls.
    pub write_rest : ℕ → ℕ → List Byte → Shared → Run (IoResult (Unit {0}) × Shared)
    write_rest zero offset bytes l = out_of_fuel
    write_rest (suc fuel) offset bytes l = elim (ltb offset (length bytes)) [
      | false ↦ done (ok tt, l)
      | true ↦
          let l' = polled (drop offset bytes) (turn l) in
          elim (poll_write (drop offset bytes) (own_ring (turn l))).0 [
            | Poll.ready (ok n) ↦ write_rest fuel (offset + n) bytes l'
            | Poll.ready (err e) ↦ done (err e, l')
            | Poll.pending ↦ write_rest fuel offset bytes l'
          ]
    ]

    after_burst_block :
        Bool → ℕ → List Byte → BurstWriteState × ℕ × Shared → Run (IoResult (Unit {0}) × Shared)
    unfolding block_on
    after_burst_block in_async fuel bytes (finished, offset, l) = done (ok tt, l)
    after_burst_block in_async fuel bytes (pending, offset, l) =
        block_on in_async (write_rest fuel offset bytes l)

    -- `in_async` says that the caller runs in an async context, as the callbacks do.
    pub send_block : Bool → ℕ → List Byte → Shared → Run (IoResult (Unit {0}) × Shared)
    unfolding after_burst_block
    send_block in_async fuel bytes l =
        if is_empty bytes
        then done (ok tt, l)
        else burst_write 0 bytes l >>= after_burst_block in_async fuel bytes

    -- `self.rings_prd.send(ring).map_err(…)?; self.ring_buf = ring_buf; Ok(())` with the ring `i`
    hand_over_at : Result (Unit {0}) String → ℕ → Shared → Run (IoResult (Unit {0}) × Shared)
    hand_over_at (ok u) i l = done (ok tt, replace_ring i (turn (send_ring i l)))
    hand_over_at (err e) i l = done (err (closed_error e), send_ring i l)

    pub hand_over : ℕ → Shared → Run (IoResult (Unit {0}) × Shared)
    unfolding hand_over_at
    hand_over i l = hand_over_at (send i l.chan).0 i l

    after_burst_nonblock :
        List Byte → BurstWriteState × ℕ × Shared → Run (IoResult (Unit {0}) × Shared)
    after_burst_nonblock bytes (finished, offset, l) = done (ok tt, l)
    after_burst_nonblock bytes (pending, offset, l) =
        let l' = turn l in
        hand_over l'.count (
          new_ring
            (push_slice (drop offset bytes)
              (create (max ring_buffer_size (length bytes - offset)))).1
            l')

    unfoldable pub send_nonblock : List Byte → Shared → Run (IoResult (Unit {0}) × Shared)
    unfolding after_burst_nonblock
    send_nonblock bytes l =
        if is_empty bytes
        then done (ok tt, l)
        else burst_write 0 bytes l >>= after_burst_nonblock bytes

    -- A new ring of the usual size, handed over.
    pub flush : Shared → Run (IoResult (Unit {0}) × Shared)
    flush l = let l' = turn l in hand_over l'.count (new_ring (create ring_buffer_size) l')

    -- The end of a round of the `loop` of `send_async`, with `again` for the next round.
    after_burst_async :
        (Shared → Run (Poll (IoResult ℕ) × Shared))
        → Bool
        → BurstWriteState × ℕ × Shared
        → Run (Poll (IoResult ℕ) × Shared)
    after_burst_async again waker_registered (state, offset, l) = elim (ltb 0 offset) [
      | true ↦ done (Poll.ready (ok offset), l)
      | false ↦ elim waker_registered [
        | true ↦ done (Poll.pending, l)
        | false ↦ again (register (turn l))
      ]
    ]

    -- The `loop`, which runs twice at most: once before and once after the waker is registered.
    -- `offset` is 0 at its head.
    async_loop : ℕ → Bool → List Byte → Shared → Run (Poll (IoResult ℕ) × Shared)
    unfolding after_burst_async
    async_loop zero waker_registered bytes l = out_of_fuel
    async_loop (suc fuel) waker_registered bytes l = elim (prod_is_closed (own_ring (turn l))) [
      | true ↦ done (Poll.ready (err connection_closed), turn l)
      | false ↦
          burst_write 0 bytes (turn l)
          >>= after_burst_async (async_loop fuel true bytes) waker_registered
    ]

    pub send_async : List Byte → Shared → Run (Poll (IoResult ℕ) × Shared)
    unfolding async_loop
    send_async bytes l =
        if is_empty bytes then done (Poll.ready (ok 0), l) else async_loop 2 false bytes l
