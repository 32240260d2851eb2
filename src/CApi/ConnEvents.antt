-- ===== src/CApi/ConnEvents.antt =====
-- src/c_api/conn_events.rs: the events of connections as C gets them, a code and a union. A pointer
-- to a C string that lives as long as the call is the string's bytes; the pointers to the sender
-- and to the connection stand as the addresses of that connection.
use socket_manager.Prelude.{ℕ, List}
use socket_manager.Std.{Byte}

pub data ConnStateCode : Type 0 where
  connect connection_close listen_error connect_error remote_close : ConnStateCode

-- The number of a code in C.
abbrev pub code_number : ConnStateCode → ℕ
code_number connect = 0
code_number connection_close = 1
code_number listen_error = 2
code_number connect_error = 3
code_number remote_close = 4

-- The union, with the member that was written.
pub data ConnStateData (A : Type 0) : Type 0 where
  on_connect : A → A → ConnStateData A
  on_connection_close on_listen_error on_connect_error on_remote_close :
      List Byte → List Byte → ConnStateData A

pub record ConnStates (A : Type 0) : Type 0 where
  pub code : ConnStateCode
  pub state_data : ConnStateData A
