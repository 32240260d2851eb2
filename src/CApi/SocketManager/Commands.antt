-- ===== src/CApi/SocketManager/Commands.antt =====
-- A command of C reaches the queue of the main loop, or its caller learns why not.
use socket_manager.Prelude.{
  String, ℕ, ◌≡◌, refl, sym, subst, ◌⊎◌, inl, inr, true, false, [], ◌∷◌, ◌++◌, Bool-cases,
}
use socket_manager.Std.{Result, ok, err, IoResult, Duration, done, Ends}
use socket_manager.Channel.{Mpsc}
use socket_manager.MainLoop.{Command, listen, connect, cancel_listen}
use socket_manager.Manager.{send_command, sent, stopped_error}
use socket_manager.CApi.Memory.{Libc, Texts}
use socket_manager.CApi.Utils.{CState, socket_addr}
use socket_manager.CApi.Utils.RoundTrip.{IsClean}
use socket_manager.CApi.Utils.Answers.{HasCleanErrors, Answers, respond-Answers}
use socket_manager.CApi.SocketManager.{
  Managed, with_addr, socket_manager_listen_on_addr, socket_manager_connect_to_addr,
  socket_manager_cancel_listen_on_addr,
}

module _ (libc : Libc) {SocketAddr : Type 0} (texts : Texts SocketAddr)
    (mp : Mpsc (Command SocketAddr)) where
  open mp use {queued, receiver_gone}

  -- With success the command for the parsed address is the last in the queue; otherwise nothing was
  -- queued, since the string is no address or the main loop has ended.
  abbrev pub Queued :
      (SocketAddr → Command SocketAddr)
      → IoResult SocketAddr
      → Managed libc texts mp
      → IoResult (Unit {0}) × Managed libc texts mp
      → Type 0
  Queued c parsed m (ok u, m') =
      (a : SocketAddr) × (parsed ≡ ok a)
      × (queued m'.cmd_send ≡ queued m.cmd_send ++ c a ∷ [])
      × (receiver_gone m.cmd_send ≡ false)
  Queued c parsed m (err e, m') =
      (queued m'.cmd_send ≡ queued m.cmd_send)
      × ((parsed ≡ err e) ⊎ ((e ≡ stopped_error) × (receiver_gone m.cmd_send ≡ true)))

  send-Queued :
      (c : SocketAddr → Command SocketAddr) (a : SocketAddr) (m : Managed libc texts mp)
      → Queued c (ok a) m (send_command SocketAddr mp (c a) m)
  send-Queued c a m =
      let m' : Managed libc texts mp = record m { cmd_send = (mp.send (c a) m.cmd_send).1 } in
      elim (Bool-cases (receiver_gone m.cmd_send)) [
        | inr here ↦
            let k = mp.send_ok (c a) m.cmd_send here in
            subst (λ r. Queued c (ok a) m (sent SocketAddr mp r, m')) (sym k.0) (a, refl, k.1, here)
        | inl gone ↦
            let k = mp.send_refused (c a) m.cmd_send gone in
            subst (λ r. Queued c (ok a) m (sent SocketAddr mp r, m')) (sym k.0.1)
              (k.1, inr (refl, gone))
      ]

  sent-IsClean :
      (r : Result (Unit {0}) String)
      → IsClean libc texts {A = Unit {0}} (err stopped_error)
      → IsClean libc texts (sent SocketAddr mp r)
  sent-IsClean (ok u) stopped = tt
  sent-IsClean (err c) stopped = stopped

  send-IsClean :
      (c : SocketAddr → Command SocketAddr) (a : SocketAddr) (m : Managed libc texts mp)
      → IsClean libc texts {A = Unit {0}} (err stopped_error)
      → HasCleanErrors libc texts (done (send_command SocketAddr mp (c a) m))
  send-IsClean c a m stopped = sent-IsClean (mp.send (c a) m.cmd_send).0 stopped

  with_addr-Answers :
      (c : SocketAddr → Command SocketAddr) (parsed : IoResult SocketAddr)
      (m : Managed libc texts mp) (s : CState libc texts)
      → IsClean libc texts {A = Unit {0}} (err stopped_error)
      → IsClean libc texts parsed
      → Ends
          (Answers libc texts (Queued c parsed m) s)
          (with_addr libc texts mp parsed (λ a. send_command SocketAddr mp (c a)) m s)
  with_addr-Answers c (ok a) m s stopped clean =
      respond-Answers libc texts (Queued c (ok a) m) s (done (send_command SocketAddr mp (c a) m))
        (send-IsClean c a m stopped) (send-Queued c a m)
  with_addr-Answers c (err e) m s stopped clean =
      respond-Answers libc texts (Queued c (err e) m) s (done (err e, m)) clean (refl, inl refl)

  -- If the texts of the errors have no byte 0, each of the three C calls that take an address returns 0 exactly where
  -- the string at the pointer is an address and the main loop is there, and then its command for that
  -- address is the last in the queue; otherwise it returns 1 with the text of the error, and
  -- the queue is as it was.
  pub commands-Answers :
      (m : Managed libc texts mp) (addr : ℕ) (delay : Duration) (s : CState libc texts)
      → IsClean libc texts {A = Unit {0}} (err stopped_error)
      → IsClean libc texts (socket_addr libc texts addr s.memory)
      → Ends
          (Answers libc texts (Queued listen (socket_addr libc texts addr s.memory) m) s)
          (socket_manager_listen_on_addr libc texts mp m addr s)
        × Ends
            (Answers libc texts
              (Queued (λ a. connect a delay) (socket_addr libc texts addr s.memory) m)
              s)
            (socket_manager_connect_to_addr libc texts mp m addr delay s)
        × Ends
            (Answers libc texts (Queued cancel_listen (socket_addr libc texts addr s.memory) m) s)
            (socket_manager_cancel_listen_on_addr libc texts mp m addr s)
  unfolding socket_manager_listen_on_addr socket_manager_connect_to_addr
      socket_manager_cancel_listen_on_addr
  commands-Answers m addr delay s stopped clean =
      let parsed = socket_addr libc texts addr s.memory in
      (
        with_addr-Answers listen parsed m s stopped clean,
        with_addr-Answers (λ a. connect a delay) parsed m s stopped clean,
        with_addr-Answers cancel_listen parsed m s stopped clean,
      )
