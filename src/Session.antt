-- ===== src/Session.antt =====
-- src/conn_handle.rs with src/msg_sender.rs, src/read.rs and src/write.rs: a connection as a whole.
-- `handle_connection` makes the channel of rings, spawns the connection's task and, from it, the
-- reader and the writer task, which `join_reader_writer` awaits. Here the four run together: each
-- act is a step of one of them, a call of the sender, or a call of the user or of others.
pub mod Whole
pub mod Senders
pub mod Joins
pub mod Truth
pub mod Turns
pub mod Awaits
pub mod Life
pub mod Start
use socket_manager.Prelude.{
  ℕ, Bool, true, false, String, List, [], ◌∷◌, ◌++◌, Option, none, some, take, if◌then◌else◌,
}
use socket_manager.Std.{Byte, Poll, ready, pending, Result, ok, err, IoResult, Run, done, ◌>>=◌}
use socket_manager.Io.{AsyncRead, AsyncWrite}
use socket_manager.OnMsgWrite
use socket_manager.OnMsgWrite.{on_msg_write}
use socket_manager.Ring.{RingBuf}
use socket_manager.Channel.{Mpsc}
use socket_manager.Config.{ConnConfig}
use socket_manager.Link
use socket_manager.Link.{make_sender}
use socket_manager.MsgSender.{send_nonblock, send_async, flush, drop_msg_sender}
use socket_manager.Writer.{Shared, writer_step, writer_run}
use socket_manager.Reader
use socket_manager.Reader.{Reading, handle_reader, reader_step}
use socket_manager.ConnState.{Runtime, ConnectionState}
use socket_manager.Conn.Calls.{Call}
use socket_manager.JoinTasks.{stop_closed, writer_joined, reader_joined}
use socket_manager.ConnHandle.{
  Stage, spawned, calling, waiting, in_join, closed, Connection, handle_connection, Action,
  conn_step,
}

-- The calls of the sender that do not block.
pub data Send : Type 0 where
  nonblock async_poll : List Byte → Send
  flushes : Send

-- The branches of the `select!` of `join_reader_writer`.
pub data Awaited : Type 0 where
  stop writer reader : Awaited

module _ (rt : Runtime) where
  pub data Act : Type 0 where
    task_polls : Act
    reader_polls writer_polls : Bool → Act
    answers : Result (Unit {0}) String → Act
    calls : Call rt → Act
    drops_conn : Act
    others : (ConnectionState rt → ConnectionState rt) → Act
    sends : Send → (ℕ → List Bool) → Act
    drops : Act
    awaits : Awaited → Act

-- `read` is the socket's read half, and `into` makes a callback's state of an `OnMsg`.
module _ (rt : Runtime) (rb : RingBuf) (mp : Mpsc ℕ) (aw : AsyncWrite) (ar : AsyncRead)
    (cb : OnMsgWrite.OnMsg) (into : rt.OnMsg → cb.State) where
  open rt use {SocketAddr, OnMsg}

  abbrev pub Reads : Type 0
  Reads = Reading ar (on_msg_write cb)

  -- `tasks` is the reader task with the configuration that it and the writer task were given, once they
  -- are spawned; `is_sending` says that the sender is not dropped;
  -- `accepted` is what the socket was given before, and behind it what the sender's calls have said
  -- that they accepted, and `has_failed` that a call of `send_nonblock` has failed.
  pub record Session : Type 0 where
    pub conn : Connection rt
    pub link : Shared rb mp aw
    pub read : ar.Reader
    pub tasks : Option (ConnConfig × Reads)
    pub is_sending : Bool
    pub accepted : List Byte
    pub has_failed : Bool

  -- `handle_connection` with the two halves of the stream.
  unfoldable pub session_new :
      SocketAddr → SocketAddr → ConnectionState rt → aw.Writer → ar.Reader → Session
  session_new local_addr peer_addr state write read = record {
    conn = handle_connection rt local_addr peer_addr state;
    link = make_sender rb mp aw write;
    read = read;
    tasks = none;
    is_sending = true;
    accepted = aw.written write;
    has_failed = false;
  }

  -- A step of the connection's task, or a call that it sees.
  abbrev pub conn_at : Action rt → Session → Run Session
  conn_at a s = conn_step rt a s.conn >>= λ c. done (record s { conn = c })

  -- `handle.spawn(read::handle_reader(read, on_msg, config))`, where the start signal has come
  unfoldable pub spawn_tasks :
      Stage → Poll (Result (OnMsg × ConnConfig) (Unit {0})) → Session → Run Session
  spawn_tasks waiting (ready (ok (on_msg, config))) s =
      handle_reader ar (on_msg_write cb) config s.read (into on_msg) >>= λ t.
      done (record s { tasks = some (config, t) })
  spawn_tasks _ _ s = done s

  -- A poll of the connection's task.
  abbrev pub task_at : Session → Run Session
  task_at s =
      spawn_tasks s.conn.stage (rt.config.poll_recv s.conn.held.config).0 s >>= conn_at Action.polls

  abbrev pub reader_at : Bool → Option (ConnConfig × Reads) → Session → Run Session
  reader_at tick none s = done s
  reader_at tick (some (config, t)) s = reader_step ar (on_msg_write cb) config tick t >>= λ t'.
      done (record s { tasks = some (config, t') })

  abbrev pub writer_polled : Option (ConnConfig × Reads) → Bool → Shared rb mp aw → Shared rb mp aw
  writer_polled none tick l = l
  writer_polled (some (config, t)) tick l = writer_step rb mp aw config tick l

  -- What the writer task does at the moments that a call of the sender leaves it.
  abbrev pub meanwhile :
      Option (ConnConfig × Reads) → (ℕ → List Bool) → ℕ → Shared rb mp aw → Shared rb mp aw
  meanwhile none ticks now l = l
  meanwhile (some (config, t)) ticks now l = writer_run rb mp aw config (ticks now) l

  -- What a call says that it has accepted; nothing is said by a `send_nonblock` that fails.
  abbrev pub nonblock_accepts : List Byte → IoResult (Unit {0}) → Option (List Byte)
  nonblock_accepts bytes (ok u) = some bytes
  nonblock_accepts bytes (err e) = none

  abbrev pub async_accepts : List Byte → Poll (IoResult ℕ) → Option (List Byte)
  async_accepts bytes (ready (ok n)) = some (take n bytes)
  async_accepts bytes (ready (err e)) = some []
  async_accepts bytes pending = some []

  abbrev pub send_with :
      (ℕ → Shared rb mp aw → Shared rb mp aw)
      → Send
      → Shared rb mp aw
      → Run (Option (List Byte) × Shared rb mp aw)
  send_with env (nonblock bytes) l =
      send_nonblock rb mp aw env bytes l >>= λ out. done (nonblock_accepts bytes out.0, out.1)
  send_with env (async_poll bytes) l =
      send_async rb mp aw env bytes l >>= λ out. done (async_accepts bytes out.0, out.1)
  send_with env flushes l = flush rb mp aw env l >>= λ out. done (some [], out.1)

  abbrev pub noted : Session → Option (List Byte) × Shared rb mp aw → Session
  noted s (some bytes, l) = record s { link = l; accepted = s.accepted ++ bytes }
  noted s (none, l) = record s { link = l; has_failed = true }

  abbrev pub send_at : Bool → Send → (ℕ → List Bool) → Session → Run Session
  send_at true call ticks s =
      send_with (meanwhile s.tasks ticks) call s.link >>= λ out. done (noted s out)
  send_at false call ticks s = done s

  -- The sender is dropped once.
  abbrev pub drop_at : Bool → Session → Session
  drop_at true s = record s { link = drop_msg_sender rb mp aw s.link; is_sending = false }
  drop_at false s = s

  -- A task that has returned is joined, with what it has returned.
  abbrev pub join_writer : Link.Stage → Session → Run Session
  join_writer (Link.returned r left) s = conn_at (Action.joins (writer_joined (ok r))) s
  join_writer _ s = done s

  abbrev pub join_returned : Reader.Stage → Session → Run Session
  join_returned (Reader.returned r) s = conn_at (Action.joins (reader_joined (ok r))) s
  join_returned _ s = done s

  abbrev pub join_reader : Option (ConnConfig × Reads) → Session → Run Session
  join_reader none s = done s
  join_reader (some (config, t)) s = join_returned t.stage s

  abbrev pub await_at : Awaited → Session → Run Session
  await_at stop s = conn_at (Action.joins stop_closed) s
  await_at writer s = join_writer s.link.stage s
  await_at reader s = join_reader s.tasks s

  unfoldable pub session_step : Act rt → Session → Run Session
  unfolding spawn_tasks
  session_step task_polls s = task_at s
  session_step (reader_polls tick) s = reader_at tick s.tasks s
  session_step (writer_polls tick) s = done (record s { link = writer_polled s.tasks tick s.link })
  session_step (answers r) s = conn_at (Action.answers r) s
  session_step (calls u) s = conn_at (Action.calls u) s
  session_step drops_conn s = conn_at Action.drops_conn s
  session_step (others f) s = conn_at (Action.others f) s
  session_step (sends call ticks) s = send_at s.is_sending call ticks s
  session_step drops s = done (drop_at s.is_sending s)
  session_step (awaits b) s = await_at b s

  unfoldable pub session_run : List (Act rt) → Session → Run Session
  session_run [] s = done s
  session_run (act ∷ acts) s = session_step act s >>= session_run acts
