-- ===== src/CApi/Connection/Calls.antt =====
-- What C learns of a connection and does with it.
use socket_manager.Prelude.{
  ℕ, ◌≡◌, refl, sym, Bool-cases, subst, ◌⊎◌, inl, inr, true, false, some, if_cases,
}
use socket_manager.Std.{ok, err, IoResult, done, Ends, >>=-Ends}
use socket_manager.Config.{ConnConfig}
use socket_manager.ConnState.{Runtime}
use socket_manager.Conn.{
  Held, taken, config_sent, start_connection, start_with, send_failed_error, consumed_error,
}
use socket_manager.Conn.Calls.{HasSetter}
use socket_manager.CApi.Memory.{Libc, Texts}
use socket_manager.CApi.Utils.{null_mut, CState, socket_addr, write_display_c_str}
use socket_manager.CApi.Utils.RoundTrip.{socket_addr-write}
use socket_manager.CApi.Utils.Answers.{HasCleanErrors, Answers, respond-Answers}
use socket_manager.CApi.Connection.{
  socket_manager_connection_start, addr_string, socket_manager_connection_local_addr,
  socket_manager_connection_peer_addr,
}

module _ (libc : Libc) (rt : Runtime) (texts : Texts rt.SocketAddr) where
  open rt use {SocketAddr, OnMsg}

  -- The string at the pointer is parsed back as the address.
  abbrev pub ReadsBack : SocketAddr → ℕ × CState libc texts → Type 0
  ReadsBack a (p, s) = socket_addr libc texts p s.memory ≡ ok a

  addr_string-ReadsBack :
      (a : SocketAddr) (s : CState libc texts) → Ends (ReadsBack a) (addr_string libc rt texts a s)
  addr_string-ReadsBack a s =
      >>=-Ends (λ s'. socket_addr libc texts s'.err s'.memory ≡ ok a) (ReadsBack a)
        (write_display_c_str libc texts (texts.addr_text a) (record s { err = null_mut }))
        (λ s'. done (s'.err, record s' { err = s.err }))
        (socket_addr-write libc texts a (record s { err = null_mut })) (λ s' e. e)

  -- The two address strings that C gets of a connection are parsed back, by the calls that take an
  -- address from C, as the addresses of that connection.
  pub connection_addrs_read_back :
      (h : Held rt) (s : CState libc texts)
      → Ends (ReadsBack h.conn.local_addr) (socket_manager_connection_local_addr libc rt texts h s)
        × Ends (ReadsBack h.conn.peer_addr) (socket_manager_connection_peer_addr libc rt texts h s)
  unfolding socket_manager_connection_local_addr socket_manager_connection_peer_addr
  connection_addrs_read_back h s =
      (addr_string-ReadsBack h.conn.local_addr s, addr_string-ReadsBack h.conn.peer_addr s)

  -- What `start_connection` does: with success the task's channel holds the callback and the
  -- configuration; otherwise the connection was consumed before or the task is gone.
  abbrev pub Started : OnMsg → ConnConfig → Held rt → IoResult (Unit {0}) × Held rt → Type 0
  Started on_msg config h (ok u, h') =
      (h.conn.consumed ≡ false)
      × (rt.config.sent h'.config ≡ some (on_msg, config))
      × (h'.conn.consumed ≡ true)
  Started on_msg config h (err e, h') =
      (h'.conn.consumed ≡ true)
      × (((e ≡ consumed_error) × (h.conn.consumed ≡ true))
          ⊎ ((e ≡ send_failed_error) × (rt.config.is_closed h.config ≡ true)))

  sent-Started :
      (on_msg : OnMsg) (config : ConnConfig) (h : Held rt)
      → h.conn.consumed ≡ false
      → Started on_msg config h (
          config_sent rt
            (rt.config.send (on_msg, config) h.config).0
            (record (taken rt h) { config = (rt.config.send (on_msg, config) h.config).1 }))
  sent-Started on_msg config h n =
      let h' : Held rt = record (taken rt h) {
        config = (rt.config.send (on_msg, config) h.config).1;
      } in
      elim (Bool-cases (rt.config.is_closed h.config)) [
        | inl gone ↦
            let k = rt.config.send_refused (on_msg, config) h.config gone in
            subst (λ r. Started on_msg config h (config_sent rt r h')) (sym k.0)
              (refl, inr (refl, gone))
        | inr here ↦
            let k = rt.config.send_ok (on_msg, config) h.config here in
            subst (λ r. Started on_msg config h (config_sent rt r h')) (sym k.0) (n, k.1, refl)
      ]

  start-Started :
      (on_msg : OnMsg) (config : ConnConfig) (h : Held rt)
      → HasSetter rt h
      → Ends (Started on_msg config h) (start_connection rt on_msg config h)
  unfolding start_connection
  start-Started on_msg config h v =
      if_cases (Ends (Started on_msg config h)) h.conn.consumed _ _ (λ c. (c, inl (refl, c)))
        (λ n. elim v [
          | inl t ↦ cc
          | inr f ↦
              subst (λ x. Ends (Started on_msg config h) (start_with rt x on_msg config h))
                (sym f.1) (sent-Started on_msg config h n)
        ])

  -- If the text of the error has no byte 0, a C call that starts a connection returns 0 with a null pointer and the
  -- connection's task then gets exactly the callback and the configuration of the call, or it
  -- returns 1 with the text of the error, since the connection was consumed before or its task
  -- is gone.
  pub connection_start-Answers :
      (on_msg : OnMsg) (size read_ms write_ms : ℕ) (h : Held rt) (s : CState libc texts)
      → HasCleanErrors libc texts (
          start_connection rt on_msg
            (record {
              write_flush_interval = write_ms;
              read_msg_flush_interval = read_ms;
              msg_buffer_size = size;
            })
            h)
      → HasSetter rt h
      → Ends
          (Answers libc texts
            (Started on_msg
              (record {
                write_flush_interval = write_ms;
                read_msg_flush_interval = read_ms;
                msg_buffer_size = size;
              })
              h)
            s)
          (socket_manager_connection_start libc rt texts on_msg size read_ms write_ms h s)
  unfolding socket_manager_connection_start
  connection_start-Answers on_msg size read_ms write_ms h s clean v =
      let config : ConnConfig = record {
        write_flush_interval = write_ms;
        read_msg_flush_interval = read_ms;
        msg_buffer_size = size;
      } in
      respond-Answers libc texts (Started on_msg config h) s (start_connection rt on_msg config h)
        clean (start-Started on_msg config h v)
