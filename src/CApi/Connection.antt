-- ===== src/CApi/Connection.antt =====
-- src/c_api/connection.rs: the connection object for C. Times are in milliseconds.
pub mod Calls
use socket_manager.Prelude.{ℕ, Option, none, some}
use socket_manager.Std.{IoResult, Run, done, ◌>>=◌}
use socket_manager.Config.{ConnConfig}
use socket_manager.ConnState.{Runtime}
use socket_manager.Conn.{ConnInner, conn_config_setter, Held, taken, start_connection, close}
use socket_manager.CApi.Memory.{Libc, Texts}
use socket_manager.CApi.Utils.{null_mut, CState, write_display_c_str, respond}

module _ (libc : Libc) (rt : Runtime) (texts : Texts rt.SocketAddr) where
  open rt use {SocketAddr, OnMsg}
  open texts use {addr_text}

  unfoldable pub socket_manager_connection_start :
      OnMsg → ℕ → ℕ → ℕ → Held rt → CState libc texts → Run (ℕ × Held rt × CState libc texts)
  socket_manager_connection_start on_msg msg_buffer_size read_msg_flush_interval
        write_flush_interval h s =
      start_connection rt on_msg
        (record {
          write_flush_interval = write_flush_interval;
          read_msg_flush_interval = read_msg_flush_interval;
          msg_buffer_size = msg_buffer_size;
        })
        h
      >>= respond libc texts s

  -- A pointer variable that starts as null is written; the pointer is returned.
  abbrev pub addr_string : SocketAddr → CState libc texts → Run (ℕ × CState libc texts)
  addr_string a s =
      write_display_c_str libc texts (addr_text a) (record s { err = null_mut }) >>= λ s'.
      done (s'.err, record s' { err = s.err })

  unfoldable pub socket_manager_connection_local_addr :
      Held rt → CState libc texts → Run (ℕ × CState libc texts)
  socket_manager_connection_local_addr h s = addr_string h.conn.local_addr s

  unfoldable pub socket_manager_connection_peer_addr :
      Held rt → CState libc texts → Run (ℕ × CState libc texts)
  socket_manager_connection_peer_addr h s = addr_string h.conn.peer_addr s

  unfoldable pub socket_manager_connection_close :
      Held rt → CState libc texts → Run (ℕ × Held rt × CState libc texts)
  socket_manager_connection_close h s = close rt h >>= respond libc texts s

  abbrev pub drop_inner : Option ConnInner → Held rt → Held rt
  drop_inner none h = h
  drop_inner (some conn_config_setter) h = record (taken rt h) {
    config = rt.config.drop_sender h.config;
  }

  -- The connection object is dropped, and with it the setter, if it is still there.
  unfoldable pub socket_manager_connection_free : Held rt → Held rt
  socket_manager_connection_free h = drop_inner h.conn.inner h
