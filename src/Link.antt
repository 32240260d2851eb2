-- ===== src/Link.antt =====
-- What `MsgSender` of src/msg_sender.rs and the writer task of src/write.rs share: ring buffers
-- on the heap, each with a producer and a consumer half, and a channel by which the consumer
-- halves go from the one to the other. A ring is named by its number, so that both sides see the
-- same ring. `written`, what is buffered and what was accepted are read off this state.
pub mod Chain
pub mod Invariant
use socket_manager.Prelude.{ℕ, suc, ◌+◌, ◌*◌, Bool, List, [], ◌∷◌, ◌++◌, ◌==◌, if◌then◌else◌}
use socket_manager.Std.{Byte, IoResult, ok, err}
use socket_manager.Io.{AsyncWrite}
use socket_manager.Ring.{RingBuf}
use socket_manager.Channel.{Mpsc}

-- 256KB ring buffer.
abbrev pub ring_buffer_size : ℕ
ring_buffer_size = 256 * 1024

-- A store written at one place.
abbrev pub update : {A : Type 0} → (ℕ → A) → ℕ → A → ℕ → A
update f i a j = if j == i then a else f j

-- What the writer task does when its `flush` is done: it waits for more of the same ring, or it
-- takes the next ring.
pub data After : Type 0 where
  to_wait to_recv : After

-- What the writer task awaits, with the ring in its hands: the next ring, more bytes (with the local
-- `tick_flush`), the socket's `write` in `flush`, the socket's `shutdown`; or what it has
-- returned, with the rings that it held or that waited for it.
pub data Stage : Type 0 where
  receiving shutting : Stage
  waiting : ℕ → Bool → Stage
  flushing : ℕ → After → Stage
  returned : IoResult (Unit {0}) → List ℕ → Stage

module _ (rb : RingBuf) (mp : Mpsc ℕ) (aw : AsyncWrite) where
  open rb use {Ring, create, items}
  open mp use {Chan, unbounded_channel, send, queued}
  open aw use {Writer, written}

  -- `ring_buf` is the ring whose producer half `MsgSender` holds; `count` rings were made so far.
  -- `now` counts the moments at which the other task may have run.
  pub record Link : Type 0 where
    pub rings : ℕ → Ring
    pub count : ℕ
    pub chan : Chan
    pub ring_buf : ℕ
    pub stage : Stage
    pub socket : Writer
    pub now : ℕ

  -- `make_sender`, with the state of the task that gets its `MsgRcv`. The `unwrap` is of a send on a
  -- channel whose receiver is there.
  unfoldable pub make_sender : Writer → Link
  make_sender w = record {
    rings = λ _. create ring_buffer_size;
    count = 1;
    chan = (send 0 unbounded_channel).1;
    ring_buf = 0;
    stage = receiving;
    socket = w;
    now = 0;
  }

  -- The rings in the writer's hands.
  abbrev pub held : Stage → List ℕ
  held receiving = []
  held shutting = []
  held (waiting i tick_flush) = i ∷ []
  held (flushing i after) = i ∷ []
  held (returned r left) = left

  -- The rings whose bytes are still to be written, the oldest first.
  abbrev pub chain : Link → List ℕ
  chain l = held l.stage ++ queued l.chan

  -- The items of some rings, one ring after the other.
  abbrev pub items_of : (ℕ → Ring) → List ℕ → List Byte
  items_of rings [] = []
  items_of rings (i ∷ is) = items (rings i) ++ items_of rings is

  -- The bytes that the sender has accepted: those written to the socket, and behind them those that
  -- are still in rings.
  abbrev pub stream : Link → List Byte
  stream l = written l.socket ++ items_of l.rings (chain l)
