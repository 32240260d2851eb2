-- ===== src/CApi/Utils.antt =====
-- src/c_api/utils.rs: texts and addresses across the C boundary. `err` is the caller's variable for
-- the pointer to an error text.
pub mod RoundTrip
pub mod Answers
use socket_manager.Prelude.{ℕ, ◌+◌, String, Bool, true, false, length, ◌==◌, if◌then◌else◌}
use socket_manager.Std.{
  Byte, Result, ok, err, IoError, IoResult, ErrorKind, invalid_input, text, new_error, Run, done,
  panics, ◌>>=◌,
}
use socket_manager.CApi.Memory.{has_nul, Libc, Texts}

abbrev pub null_mut : ℕ
null_mut = 0

abbrev pub null_addr_error : IoError
null_addr_error = new_error invalid_input (text "addr is null")

-- `.map_err(|e| Error::new(ErrorKind::InvalidInput, format!("{e}")))`
abbrev pub invalid : {A : Type 0} → Result A String → IoResult A
invalid (ok a) = ok a
invalid (err e) = err (new_error invalid_input (text e))

module _ (libc : Libc) {SocketAddr : Type 0} (texts : Texts SocketAddr) where
  open libc use {Memory, malloc, strcpy, free, c_str}
  open texts use {bytes, to_str, to_string_lossy, parse, error_text}

  -- The memory, and the caller's variable behind `err: *mut *mut c_char`.
  pub record CState : Type 0 where
    pub memory : Memory
    pub err : ℕ

  abbrev pub parse_addr : IoResult String → IoResult SocketAddr
  parse_addr (ok s) = invalid (parse s)
  parse_addr (err e) = err e

  unfoldable pub socket_addr : ℕ → Memory → IoResult SocketAddr
  socket_addr addr m =
      if addr == null_mut then err null_addr_error else parse_addr (invalid (to_str (c_str addr m)))

  unfoldable pub parse_c_err_str : ℕ → Memory → Result (Unit {0}) String × Memory
  parse_c_err_str p m =
      if p == null_mut then (ok tt, m) else (err (to_string_lossy (c_str p m)), free p m)

  -- The text goes into a block of its own. `CString::new(…).unwrap()` panics at a byte 0.
  unfoldable pub write_display_c_str : String → CState → Run CState
  write_display_c_str d s =
      if has_nul (bytes d)
      then panics
      else (let block = malloc (length (bytes d) + 1) s.memory in
          done (record { memory = strcpy block.0 (bytes d) block.1; err = block.0 }))

  -- The two arms that the functions with a return code end in.
  unfoldable pub report : IoResult (Unit {0}) → CState → Run (ℕ × CState)
  report (ok u) s = done (0, record s { err = null_mut })
  report (err e) s = write_display_c_str (error_text e) s >>= λ s'. done (1, s')

  -- The end of a function whose call answered and left the state `x`.
  abbrev pub respond : {S : Type 0} → CState → IoResult (Unit {0}) × S → Run (ℕ × S × CState)
  respond s (r, x) = report r s >>= λ out. done (out.0, x, out.1)
