-- ===== src/CApi.antt =====
-- src/c_api: the functions that C and C++ call, and the callbacks that the program calls there.
pub mod Memory
pub mod Utils
pub mod MsgSender
pub mod Connection
pub mod SocketManager
pub mod OnMsg
pub mod ConnEvents
pub mod OnConn
pub mod Tracer
pub mod Waker
