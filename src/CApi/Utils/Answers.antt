-- ===== src/CApi/Utils/Answers.antt =====
-- What the functions with a return code tell their caller of the call that they make.
use socket_manager.Prelude.{ℕ, ◌≡◌, false}
use socket_manager.Std.{
  IoError, IoResult, Run, done, panics, out_of_fuel, ok, err, ◌>>=◌, Ends, >>=-Ends,
}
use socket_manager.CApi.Memory.{has_nul, Libc, Texts}
use socket_manager.CApi.Utils.{CState, report, respond}
use socket_manager.CApi.Utils.RoundTrip.{IsClean, Reports, report-Reports}

module _ (libc : Libc) {SocketAddr : Type 0} (texts : Texts SocketAddr) where
  open texts use {bytes, error_text}

  -- If the call answers with an error, its text has no byte 0.
  abbrev pub HasCleanErrors : {S : Type 0} → Run (IoResult (Unit {0}) × S) → Type 0
  HasCleanErrors (done (r, x)) = IsClean libc texts r
  HasCleanErrors panics = Unit
  HasCleanErrors out_of_fuel = Unit

  pub all_clean :
      {S : Type 0}
      → ((e : IoError) → has_nul (bytes (error_text e)) ≡ false)
      → (m : Run (IoResult (Unit {0}) × S)) → HasCleanErrors m
  all_clean h (done (ok u, x)) = tt
  all_clean h (done (err e, x)) = h e
  all_clean h panics = tt
  all_clean h out_of_fuel = tt

  -- The call ended in an answer and a state of which `P` holds, and the caller was told the answer: by
  -- 0 and a null pointer, or by 1 and a new C string with the error's text.
  abbrev pub Answers :
      {S : Type 0}
      → (IoResult (Unit {0}) × S → Type 0)
      → CState libc texts
      → ℕ × S × CState libc texts
      → Type 0
  Answers P s (code, x, s') =
      (r : IoResult (Unit {0})) × P (r, x) × Reports libc texts r s (code, s')

  pub respond-Answers :
      {S : Type 0} (P : IoResult (Unit {0}) × S → Type 0) (s : CState libc texts)
      (m : Run (IoResult (Unit {0}) × S))
      → HasCleanErrors m
      → Ends P m
      → Ends (Answers P s) (m >>= respond libc texts s)
  respond-Answers P s (done (r, x)) clean p =
      >>=-Ends (Reports libc texts r s) (Answers P s) (report libc texts r s)
        (λ out. done (out.0, x, out.1)) (report-Reports libc texts r s clean) (λ out t. (r, p, t))
  respond-Answers P s panics clean h = absurd h
  respond-Answers P s out_of_fuel clean h = absurd h
