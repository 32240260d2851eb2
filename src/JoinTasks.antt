-- ===== src/JoinTasks.antt =====
-- src/conn_handle.rs: `join_reader_writer`, which waits for the reader and the writer task of a
-- connection, or for the signal to stop both.
pub mod Leaves
use socket_manager.Prelude.{ℕ, zero, suc, Bool, true, false, List, [], ◌∷◌, ◌++◌, if◌then◌else◌}
use socket_manager.Std.{Result, ok, err, IoResult, Run, done, out_of_fuel}
use socket_manager.ConnState.{Runtime, ConnState, on_remote_close}

-- A task: not spawned yet, running, come to its end, or told to abort.
pub data Task : Type 0 where
  absent running ended aborting : Task

-- `AbortHandle::abort`, which does nothing to a task that has ended.
abbrev pub abort : Task → Task
abort running = aborting
abort t = t

module _ (rt : Runtime) where
  open rt use {SocketAddr, JoinError}

  -- What a `JoinHandle` gives.
  abbrev pub Joined : Type 0
  Joined = Result (IoResult (Unit {0})) JoinError

  -- The branch of the `select!` that is ready.
  pub data Branch : Type 0 where
    stop_closed : Branch
    writer_joined reader_joined : Joined → Branch

  -- `finished` says that the loop was left; `events` are the calls of `on_conn`
  -- up to now.
  pub record Join : Type 0 where
    pub writer : Task
    pub reader : Task
    pub writer_stopped : Bool
    pub reader_stopped : Bool
    pub finished : Bool
    pub events : List (ConnState SocketAddr)

  -- Both tasks were just spawned, and `events` sent before.
  abbrev pub joining : List (ConnState SocketAddr) → Join
  joining events = record {
    writer = running;
    reader = running;
    writer_stopped = false;
    reader_stopped = false;
    finished = false;
    events = events;
  }

  abbrev pub on_stop : Join → Join
  on_stop j = record j { writer = abort j.writer; reader = abort j.reader; finished = true }

  -- The arms of `match w`. A task that was joined has ended.
  unfoldable pub on_writer : Joined → Join → Join
  on_writer (ok (ok u)) j = record j {
    writer = ended;
    writer_stopped = true;
    finished = j.reader_stopped;
  }
  on_writer (ok (err e)) j = record j { writer = ended; reader = abort j.reader; finished = true }
  on_writer (err e) j = record j { writer = ended; reader = abort j.reader; finished = true }

  -- The arms of `match r`.
  unfoldable pub on_reader : SocketAddr × SocketAddr → Joined → Join → Join
  on_reader (local_addr, peer_addr) (ok (ok u)) j = record j {
    reader = ended;
    reader_stopped = true;
    events = j.events ++ on_remote_close local_addr peer_addr ∷ [];
    finished = j.writer_stopped;
  }
  on_reader k (ok (err e)) j = record j { reader = ended; writer = abort j.writer; finished = true }
  on_reader k (err e) j = record j { reader = ended; writer = abort j.writer; finished = true }

  -- A branch that its `if` disables is not taken.
  abbrev pub is_enabled : Branch → Join → Bool
  is_enabled stop_closed j = true
  is_enabled (writer_joined r) j = if j.writer_stopped then false else true
  is_enabled (reader_joined r) j = if j.reader_stopped then false else true

  abbrev pub taken : SocketAddr × SocketAddr → Branch → Join → Join
  taken k stop_closed j = on_stop j
  taken k (writer_joined r) j = on_writer r j
  taken k (reader_joined r) j = on_reader k r j

  -- A round of the `loop`.
  unfoldable pub select_round : SocketAddr × SocketAddr → Branch → Join → Join
  select_round k b j = if is_enabled b j then taken k b j else j

  -- The loop, for the branches that are ready one after the other.
  unfoldable pub join_reader_writer : SocketAddr × SocketAddr → List Branch → Join → Join
  join_reader_writer k [] j = j
  join_reader_writer k (b ∷ bs) j =
      if j.finished then j else join_reader_writer k bs (select_round k b j)
