-- ===== src/Conn/Calls.antt =====
-- Any calls of `start_connection` and `close`, in any order.
use socket_manager.Prelude.{
  ℕ, ◌+◌, ◌≤◌, ◌≡◌, refl, ◌⊎◌, inl, inr, Bool, true, false, List, [], ◌∷◌, none, some, arith, sym,
  subst, if_cases,
}
use socket_manager.Std.{Result, ok, err, IoResult, Run, done, ◌>>=◌, Ends, >>=-Ends, Ends-map}
use socket_manager.Config.{ConnConfig}
use socket_manager.ConnState.{Runtime, ConnectionState}
use socket_manager.ConnState.StopAll.{remove_connection_stops}
use socket_manager.Conn.{
  conn_config_setter, Held, conn_new, taken, config_sent, start_connection, close, close_with,
}

module _ (rt : Runtime) where
  open rt use {SocketAddr, OnMsg}

  -- What a user may call.
  pub data Call : Type 0 where
    starts : OnMsg → ConnConfig → Call
    closes : Call

  -- The start signals that were given: those of the calls that answered with success.
  abbrev pub signals : IoResult (Unit {0}) × Held rt → ℕ × Held rt
  signals (ok u, h) = (1, h)
  signals (err e, h) = (0, h)

  abbrev pub call : Call → Held rt → Run (ℕ × Held rt)
  call (starts on_msg config) h = start_connection rt on_msg config h >>= λ out. done (signals out)
  call closes h = close rt h >>= λ out. done (0, out.1)

  -- The calls one after the other, with the number of start signals given.
  unfoldable pub calls : List Call → Held rt → Run (ℕ × Held rt)
  calls [] h = done (0, h)
  calls (c ∷ cs) h = call c h >>= λ out. calls cs out.1 >>= λ out'. done (out.0 + out'.0, out'.1)

  -- The setter is there as long as the connection is not consumed.
  abbrev pub HasSetter : Held rt → Type 0
  HasSetter h =
      (h.conn.consumed ≡ true)
      ⊎ ((h.conn.consumed ≡ false) × (h.conn.inner ≡ some conn_config_setter))

  -- How many start signals there may still be.
  abbrev pub chances : Bool → ℕ
  chances true = 0
  chances false = 1

  -- The signals of some calls, and those that there may still be, are at most `n`.
  abbrev pub Bounded : ℕ → ℕ × Held rt → Type 0
  Bounded n out = HasSetter out.1 × (out.0 + chances out.1.conn.consumed ≤ n)

  signals-Bounded :
      (r : Result (Unit {0}) (OnMsg × ConnConfig)) (h : Held rt)
      → h.conn.consumed ≡ true
      → Bounded 1 (signals (config_sent rt r h))
  signals-Bounded (ok u) h e = (inl e, rw e (omega arith))
  signals-Bounded (err m) h e = (inl e, rw e (omega arith))

  pub call-Bounded :
      (c : Call) (h : Held rt) → HasSetter h → Ends (Bounded (chances h.conn.consumed)) (call c h)
  unfolding start_connection close
  call-Bounded (starts m c) h (inl t) = rw t (inl refl, omega arith)
  call-Bounded (starts m c) h (inr (f, i)) =
      rw (f, i)
        (signals-Bounded (rt.config.send (m, c) h.config).0
          (record (taken rt h) { config = (rt.config.send (m, c) h.config).1 }) refl)
  call-Bounded closes h (inl t) = rw t (inl refl, omega arith)
  call-Bounded closes h (inr (f, i)) = rw (f, i) (inl refl, omega arith)

  calls-Bounded :
      (cs : List Call) (h : Held rt)
      → HasSetter h
      → Ends (Bounded (chances h.conn.consumed)) (calls cs h)
  unfolding calls
  calls-Bounded [] h s = (s, omega arith)
  calls-Bounded (c ∷ cs) h s =
      >>=-Ends (Bounded (chances h.conn.consumed)) (Bounded (chances h.conn.consumed)) (call c h)
        (λ out. calls cs out.1 >>= λ out'. done (out.0 + out'.0, out'.1)) (call-Bounded c h s)
        (λ out b.
          >>=-Ends (Bounded (chances out.1.conn.consumed)) (Bounded (chances h.conn.consumed))
            (calls cs out.1) (λ out'. done (out.0 + out'.0, out'.1)) (calls-Bounded cs out.1 b.0)
            (λ out' b'. (b'.0, omega (arith, b.1, b'.1))))

  -- However often and in whatever order `start_connection` and `close` are called on a new
  -- connection, no call panics, and at most one start signal is given.
  pub calls_once :
      (cs : List Call) (local_addr peer_addr : SocketAddr) (config : rt.config.Chan)
      (state : ConnectionState rt)
      → Ends
          (λ out. out.0 ≤ 1)
          (calls cs
            (record { conn = conn_new rt local_addr peer_addr; config = config; state = state }))
  calls_once cs local_addr peer_addr config state =
      let h : Held rt = record {
        conn = conn_new rt local_addr peer_addr;
        config = config;
        state = state;
      } in
      Ends-map (λ out b. omega (arith, b.1)) (calls cs h) (calls-Bounded cs h (inr (refl, refl)))

  -- The answer is success, the connection is not registered, its stop channel is closed.
  abbrev pub Stopped : Held rt → ℕ → IoResult (Unit {0}) × Held rt → Type 0
  Stopped h i out =
      (out.0 ≡ ok tt)
      × (rt.connections.find (h.conn.local_addr, h.conn.peer_addr) out.1.state.connections ≡ none)
      × (rt.stop.is_closed (out.1.state.stops i) ≡ true)

  -- `close` on a registered connection whose setter is there or that is consumed succeeds: the connection
  -- is not registered any more, and its stop channel is closed, which stops both its tasks.
  pub close_stops :
      (h : Held rt) (i : ℕ)
      → HasSetter h
      → rt.connections.find (h.conn.local_addr, h.conn.peer_addr) h.state.connections ≡ some i
      → Ends (Stopped h i) (close rt h)
  unfolding close
  close_stops h i s e =
      let facts = remove_connection_stops rt (h.conn.local_addr, h.conn.peer_addr) i h.state e in
      if_cases (Ends (Stopped h i)) h.conn.consumed _ _ (λ _. (refl, facts.0, facts.1))
        (λ n. elim s [
          | inl t ↦ cc
          | inr f ↦
              subst (λ x. Ends (Stopped h i) (close_with rt x h)) (sym f.1) (refl, facts.0, facts.1)
        ])
