-- ===== src/CApi/OnMsg/Takes.antt =====
-- What a call of the C callback takes, by its answer.
use socket_manager.Prelude.{
  ℕ, ◌^◌, ◌≤◌, ◌<◌, ◌≡◌, refl, ap, ◌∙◌, subst, String, false, List, ◌++◌, append-nil, length, take,
  ◌==◌, ltb, arith, if_cases,
}
use socket_manager.Prelude.Int.{ℤ, pos, negsuc, as_c_long, as_usize, leb_ℤ}
use socket_manager.Std.{Byte, ready, pending, Result, ok, err, Ends}
use socket_manager.CApi.Memory.{Libc, Texts}
use socket_manager.CApi.Utils.{null_mut, parse_c_err_str}
use socket_manager.CApi.OnMsg.{count_of, ExternOnMsg, Polled, answered, on_msg_call_inner}

module _ (libc : Libc) {SocketAddr : Type 0} (texts : Texts SocketAddr) (f : ExternOnMsg libc) where
  open libc use {Memory}

  -- The callback took exactly the bytes that the answer says: a part from the front that is not empty,
  -- or none.
  abbrev pub Took : List Byte → f.State → Polled libc texts f → Type 0
  Took bytes s (ready (ok n), m, s') =
      (0 < n) × (n ≤ length bytes) × (f.taken s' ≡ f.taken s ++ take n bytes)
  Took bytes s (ready (err e), m, s') = f.taken s' ≡ f.taken s
  Took bytes s (pending, m, s') = f.taken s' ≡ f.taken s

  count_of_error : (code : ℤ) (p : ℕ) → (p == null_mut) ≡ false → count_of code p ≡ 0
  count_of_error (pos n) p e = rw e
  count_of_error (negsuc n) p e = refl

  -- No error was left: the code decides.
  no_error-Took :
      (bytes : List Byte) (s s' : f.State) (code : ℤ) (m : Memory)
      → length bytes < 2 ^ 63
      → count_of code null_mut ≤ length bytes
      → f.taken s' ≡ f.taken s ++ take (count_of code null_mut) bytes
      → Ends (Took bytes s) (answered libc texts f (ok tt) code (length bytes) m s')
  no_error-Took bytes s s' (negsuc n) m short le t = t ∙ append-nil (f.taken s)
  no_error-Took bytes s s' (pos n) m short le t =
      if_cases (Ends (Took bytes s)) (ltb 0 n) _ _
        (λ some_bytes.
          let small : as_usize (pos n) ≡ n = ground arith in
          if_cases (Ends (Took bytes s)) (leb_ℤ (pos n) (as_c_long (length bytes))) _ _
            (λ _. rw small (ground arith, le, t)) (λ large. absurd (ground arith)))
        (λ none.
          let zero_bytes : n ≡ 0 = ground arith in
          t ∙ ap (λ k. f.taken s ++ take k bytes) zero_bytes ∙ append-nil (f.taken s))

  -- A call of the C callback with fewer than 2^63 bytes does not panic, and the bytes that the callback
  -- has taken grow by exactly what the answer says: by the first `n` with `n` not 0, or by
  -- none if the callback left an error or can take none now.
  pub on_msg_call_inner-Took :
      (bytes : List Byte) (s : f.State) (m : Memory)
      → length bytes < 2 ^ 63
      → Ends (Took bytes s) (on_msg_call_inner libc texts f bytes s m)
  unfolding on_msg_call_inner parse_c_err_str
  on_msg_call_inner-Took bytes s m short =
      let code = (f.on_msg bytes s m).0 in
      let p = (f.on_msg bytes s m).1 in
      let m' = (f.on_msg bytes s m).2 in
      let s' = (f.on_msg bytes s m).3 in
      if_cases
        (λ (r : Result (Unit {0}) String × Memory).
          Ends (Took bytes s) (answered libc texts f r.0 code (length bytes) r.1 s'))
        (p == null_mut) _ _
        (λ e.
          let null : p ≡ null_mut = ground arith in
          no_error-Took bytes s s' code m' short
            (subst (λ q. count_of code q ≤ length bytes) null (f.takes_le bytes s m))
            (f.takes bytes s m ∙ ap (λ q. f.taken s ++ take (count_of code q) bytes) null))
        (λ e.
          f.takes bytes s m
          ∙ ap (λ k. f.taken s ++ take k bytes) (count_of_error code p e)
          ∙ append-nil (f.taken s))
