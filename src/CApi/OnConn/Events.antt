-- ===== src/CApi/OnConn/Events.antt =====
-- A C callback that reads the code and the member of the union that belongs to it gets the event back.
use socket_manager.Prelude.{
  ℕ, ◌≡◌, refl, String, false, List, Option, none, some, ◌==◌, if◌then◌else◌,
}
use socket_manager.Std.{Byte, ok, err, IoResult, Ends}
use socket_manager.ConnState.{ConnState}
use socket_manager.CApi.Memory.{has_nul, Libc, Texts}
use socket_manager.CApi.Utils.{invalid, parse_addr}
use socket_manager.CApi.Utils.RoundTrip.{IsClean}
use socket_manager.CApi.ConnEvents.{
  ConnStateCode, connection_close, listen_error, connect_error, remote_close, code_number,
  ConnStateData, ConnStates,
}
use socket_manager.CApi.OnConn.{with_strings, conn_states}

module _ (libc : Libc) {SocketAddr : Type 0} (texts : Texts SocketAddr) where
  open texts use {bytes, to_str, to_string_lossy, addr_text, error_text}

  -- What a callback can know of an event: the addresses, and an error's text.
  pub data Seen : Type 0 where
    seen_connect seen_close seen_remote_close : SocketAddr → SocketAddr → Seen
    seen_listen_error seen_connect_error : SocketAddr → String → Seen

  abbrev pub seen : ConnState SocketAddr → Seen
  seen (ConnState.on_connect a b) = seen_connect a b
  seen (ConnState.on_connection_close a b) = seen_close a b
  seen (ConnState.on_remote_close a b) = seen_remote_close a b
  seen (ConnState.on_listen_error a e) = seen_listen_error a (error_text e)
  seen (ConnState.on_connect_error a e) = seen_connect_error a (error_text e)

  -- An address, and two of them, read from C strings.
  abbrev pub read_addr : List Byte → IoResult SocketAddr
  read_addr x = parse_addr libc texts (invalid (to_str x))

  abbrev pub two_addrs :
      (SocketAddr → SocketAddr → Seen) → IoResult SocketAddr → IoResult SocketAddr → Option Seen
  two_addrs f (ok a) (ok b) = some (f a b)
  two_addrs f (ok a) (err e) = none
  two_addrs f (err e) b = none

  abbrev pub addr_and_text :
      (SocketAddr → String → Seen) → IoResult SocketAddr → String → Option Seen
  addr_and_text f (ok a) t = some (f a t)
  addr_and_text f (err e) t = none

  -- A callback that switches on the code's number and reads the member of that code. Where another
  -- member was written, there is nothing that it could read.
  abbrev pub read_member : ℕ → ConnStateData SocketAddr → Option Seen
  read_member n (ConnStateData.on_connect a b) = if n == 0 then some (seen_connect a b) else none
  read_member n (ConnStateData.on_connection_close x y) =
      if n == 1 then two_addrs seen_close (read_addr x) (read_addr y) else none
  read_member n (ConnStateData.on_listen_error x y) =
      if n == 2 then addr_and_text seen_listen_error (read_addr x) (to_string_lossy y) else none
  read_member n (ConnStateData.on_connect_error x y) =
      if n == 3 then addr_and_text seen_connect_error (read_addr x) (to_string_lossy y) else none
  read_member n (ConnStateData.on_remote_close x y) =
      if n == 4 then two_addrs seen_remote_close (read_addr x) (read_addr y) else none

  abbrev pub read_states : ConnStates SocketAddr → Option Seen
  read_states c = read_member (code_number c.code) c.state_data

  addr_reads : (a : SocketAddr) → read_addr (bytes (addr_text a)) ≡ ok a
  addr_reads a = rw (texts.to_str-bytes (addr_text a), texts.parse-addr_text a)

  two_addrs_read :
      (f : SocketAddr → SocketAddr → Seen) (a b : SocketAddr)
      → two_addrs f (read_addr (bytes (addr_text a))) (read_addr (bytes (addr_text b)))
        ≡ some (f a b)
  two_addrs_read f a b = rw (addr_reads a, addr_reads b)

  addr_and_text_read :
      (f : SocketAddr → String → Seen) (a : SocketAddr) (t : String)
      → addr_and_text f (read_addr (bytes (addr_text a))) (to_string_lossy (bytes t)) ≡ some (f a t)
  addr_and_text_read f a t = rw (addr_reads a, texts.lossy-bytes t)

  -- The two strings have no byte 0, and what the member holds then is read as `v`.
  with_strings-Ends :
      (code : ConnStateCode) (member : List Byte → List Byte → ConnStateData SocketAddr)
      (a b : String) (v : Seen)
      → has_nul (bytes a) ≡ false
      → has_nul (bytes b) ≡ false
      → read_member (code_number code) (member (bytes a) (bytes b)) ≡ some v
      → Ends (λ c. read_states c ≡ some v) (with_strings texts code member a b)
  with_strings-Ends code member a b v ha hb e = rw (ha, hb) e

  abbrev pub IsCleanEvent : ConnState SocketAddr → Type 0
  IsCleanEvent (ConnState.on_connect a b) = Unit
  IsCleanEvent (ConnState.on_connection_close a b) = Unit
  IsCleanEvent (ConnState.on_remote_close a b) = Unit
  IsCleanEvent (ConnState.on_listen_error a e) = IsClean libc texts {A = Unit {0}} (err e)
  IsCleanEvent (ConnState.on_connect_error a e) = IsClean libc texts {A = Unit {0}} (err e)

  -- If the error text of an event, where it has one, has no byte 0, the event reaches the C side: the code belongs to the member of the union
  -- that was written, and a callback that reads it gets the addresses and the error text
  -- of the event.
  pub conn_states_read :
      (event : ConnState SocketAddr)
      → IsCleanEvent event
      → Ends (λ c. read_states c ≡ some (seen event)) (conn_states texts event)
  unfolding conn_states
  conn_states_read (ConnState.on_connect a b) clean = refl
  conn_states_read (ConnState.on_connection_close a b) clean =
      with_strings-Ends connection_close ConnStateData.on_connection_close (addr_text a)
        (addr_text b) (seen_close a b) (texts.addr_has_no_nul a) (texts.addr_has_no_nul b)
        (two_addrs_read seen_close a b)
  conn_states_read (ConnState.on_remote_close a b) clean =
      with_strings-Ends remote_close ConnStateData.on_remote_close (addr_text a) (addr_text b)
        (seen_remote_close a b) (texts.addr_has_no_nul a) (texts.addr_has_no_nul b)
        (two_addrs_read seen_remote_close a b)
  conn_states_read (ConnState.on_listen_error a e) clean =
      with_strings-Ends listen_error ConnStateData.on_listen_error (addr_text a) (error_text e)
        (seen_listen_error a (error_text e)) (texts.addr_has_no_nul a) clean
        (addr_and_text_read seen_listen_error a (error_text e))
  conn_states_read (ConnState.on_connect_error a e) clean =
      with_strings-Ends connect_error ConnStateData.on_connect_error (addr_text a) (error_text e)
        (seen_connect_error a (error_text e)) (texts.addr_has_no_nul a) clean
        (addr_and_text_read seen_connect_error a (error_text e))
