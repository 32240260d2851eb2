-- ===== src/Lib.antt =====
-- A model of socket_manager, a library that runs TCP connections on a tokio runtime and talks to
-- its user by callbacks, with the theorems that make it correct.
--
-- The program's parts. The user's `SocketManager` sends commands to a main loop, which spawns a
-- task for each listener and each connection attempt (src/lib.rs); a connection that was made gets
-- a task of its own (src/conn_handle.rs), which calls the user's `on_conn` callback, waits until
-- the user starts the connection through its `Conn` (src/conn.rs), and then waits for two further
-- tasks, or for the signal to stop. The reader task (src/read.rs) reads the socket into a buffer
-- (src/buf_read_write.rs) and hands the bytes to the user's `on_msg` callback. The writer task
-- (src/write.rs) takes bytes out of a chain of ring buffers and writes them to the socket; the
-- user fills the rings through `MsgSender` (src/msg_sender.rs). C and C++ do the same through the
-- functions of src/c_api, which turn results into return codes and error strings, and are called
-- back through functions that the C side provides.
--
-- The files, by what they model:
-- - Prelude: Boolean tests on numbers, `take`, `drop` and `length` with their lemmas; Prelude.Int
--   has the casts between `usize` and the integers of C.
-- - Std: `Poll`, `Result`, `std::io::Error`, `Duration`, and `Run`, the result of code that may
--   panic or loop: `panics` is a failed assertion or a slice out of range, `out_of_fuel` a loop
--   that did not end within its fuel.
-- - Io, Ring, Channel: the traits `AsyncRead` and `AsyncWrite` of tokio, the ring buffer of the
--   crate async_ringbuf, and the unbounded channel of tokio. They are not the repository's code:
--   they are records of operations with the laws that the code relies on, and the theorems hold
--   for every such record. Tests.Traits and Tests.Rings fill them with concrete ones.
-- - BufReadWrite: src/buf_read_write.rs. `new`, `fill_flush`, `flush` and `write_all` have the
--   names of the source; `write_all_loop` is the loop of `WriteAll::poll`, `Await` says where a
--   pending future of `fill_flush` stands.
-- - Config, OnMsgWrite, Reader: src/conn.rs (`ConnConfig`) and src/read.rs. `handle_reader` starts
--   the task, `reader_step` is one poll of what the task awaits, with what the timer says then,
--   and `reader_run` is any sequence of polls.
-- - Link: what the sender and the writer task share, the rings on the heap and the channel;
--   `make_sender` of src/msg_sender.rs makes it, `stream` is the abstract view: all accepted bytes
--   in their order.
-- - MsgSender: `burst_write`, `send_block`, `send_nonblock`, `send_async` and `flush` of
--   src/msg_sender.rs, with the other task's turn before each access to shared state.
-- - Writer: src/write.rs. `writer_step` is one poll of what `handle_writer` awaits.
-- - Oneshot: the one-shot channel of tokio and the map of the crate dashmap, again as records of
--   operations with laws; Tests.Runtimes fills them.
-- - ConnState: `ConnState`, `ConnectionState` and `stop_all` of src/lib.rs, with `Runtime`, the
--   record of all parameters that the files below share. Stop channels are numbered; a map holds the
--   number of the channel whose receiver the program's map holds.
--   ConnState.Registry has the changes that the tasks make to the shared state, as a sequence.
-- - Conn: src/conn.rs. `conn_new`, `start_connection` and `close`; `Held` is a `Conn` with the
--   channel and the state that it shares; `drop_conn` is its drop.
-- - JoinTasks, ConnHandle: src/conn_handle.rs. `join_reader_writer` takes the branches of its
--   `select!` as they become ready; `conn_step` is a step of the task of `handle_connection`, a call of
--   the user, a drop of the `Conn`, or a change of the shared state by others.
-- - Session: src/conn_handle.rs with the tasks that it spawns. A `Session` is a connection with its
--   sender, its reader and its writer task; an act is a poll of one of the three tasks, a call of the
--   sender with the writer's polls in between, its drop, or what ConnHandle has. A task is joined
--   only when it has returned, and with what it has returned.
-- - Manager, MainLoop, ConnectTask, ListenTask: `SocketManager` (`abort_manager` is `abort`,
--   `drop_manager` is `drop`), `main`, and the tasks that `connect_to_addr` and `listen_on_addr`
--   with `accept_connections` spawn, of src/lib.rs. In an `Input`, what the network answers and what
--   `get_address_from_stream` of src/utils.rs says are one value.
-- - Threads: src/utils.rs, what the runtime is built with; `SocketManager::init` is `init_manager`
--   of Manager.
-- - CApi: src/c_api. CApi.Memory has the C memory and texts as parameters, CApi.Utils is utils.rs,
--   and CApi.MsgSender, CApi.Connection, CApi.SocketManager, CApi.OnMsg, CApi.OnConn,
--   CApi.ConnEvents and CApi.Tracer are the files of those names, their functions under their own
--   names; `report` is the match on a result in which each function with a return code ends.
--   CApi.Waker is async_ffi/waker.rs and async_ffi/notifier.rs. A pointer is a number, a pointer
--   with a length the bytes there; a C `long` has 64 bits and an `int` 32. Tests.Texts and
--   Tests.Blocks fill the parameters.
--
-- Fuel. `write_all_loop` runs on `end - pos` rounds and one more, `burst_loop` on as many rounds as
-- there are bytes and one more, since each round that goes on moves at least a byte; the theorems
-- show that the fuel is enough. The loop of `send_async` is passed twice at most.
-- The future of `send_block` waits for the other task, so that its fuel is a parameter. Its flag says
-- whether the caller runs in an async context.
-- Tasks are runs over lists of inputs, one for each poll.
--
-- Not modelled: when the tasks are woken (a poll may come at any time instead), the size of the
-- machine's words inside the library (the offsets never pass the length of a slice), a `malloc`
-- that fails, that an aborted task runs on to its next await point and is dropped there (the model
-- stops at the call of `abort`), that the receiver of rings is dropped where a connection ends without a
-- start, the log lines, and the C++ and Lua bindings above the C functions.
pub mod Prelude
pub mod Std
pub mod Io
pub mod BufReadWrite
pub mod Config
pub mod OnMsgWrite
pub mod Reader
pub mod Ring
pub mod Session
pub mod Channel
pub mod Oneshot
pub mod ConnState
pub mod Conn
pub mod JoinTasks
pub mod ConnHandle
pub mod MainLoop
pub mod Manager
pub mod ConnectTask
pub mod ListenTask
pub mod Threads
pub mod CApi
pub mod Link
pub mod MsgSender
pub mod Writer
pub mod Tests
