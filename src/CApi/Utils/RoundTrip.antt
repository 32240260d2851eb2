-- ===== src/CApi/Utils/RoundTrip.antt =====
-- A text that is written for C is read back as it was, and an address is parsed back.
use socket_manager.Prelude.{ℕ, ◌+◌, ◌≡◌, refl, ap, ◌∙◌, ◌≢◌, String, false, length, ◌==◌, arith}
use socket_manager.Std.{ok, err, IoResult, done, Ends, Ends-map, >>=-Ends}
use socket_manager.CApi.Memory.{has_nul, Libc, Texts}
use socket_manager.CApi.Utils.{
  null_mut, CState, socket_addr, parse_c_err_str, write_display_c_str, report,
}

module _ (libc : Libc) {SocketAddr : Type 0} (texts : Texts SocketAddr) where
  open libc use {Memory, malloc, strcpy, c_str, block}
  open texts use {bytes, addr_text, error_text, to_string_lossy}

  -- The text `d` stands in a new block that holds just it, and `err` points there.
  pub record IsWritten (d : String) (s s' : CState libc texts) : Type 0 where
    pub not_null : s'.err ≢ null_mut
    pub is_new : block s'.err s.memory ≡ 0
    pub fits : block s'.err s'.memory ≡ length (bytes d) + 1
    pub reads : c_str s'.err s'.memory ≡ bytes d

  pub write-IsWritten :
      (d : String) (s : CState libc texts)
      → has_nul (bytes d) ≡ false
      → Ends (IsWritten d s) (write_display_c_str libc texts d s)
  unfolding write_display_c_str
  write-IsWritten d s clean =
      let n : ℕ = length (bytes d) + 1 in
      let p = (malloc n s.memory).0 in
      let m = (malloc n s.memory).1 in
      rw clean (record {
        not_null = libc.malloc-ne n s.memory;
        is_new = libc.malloc_fresh n s.memory;
        fits = libc.block-strcpy p p (bytes d) m ∙ libc.block-malloc n s.memory;
        reads = libc.c_str-strcpy p (bytes d) m (omega (arith, libc.block-malloc n s.memory)) clean;
      })

  -- An error text without a byte 0 that `write_display_c_str` wrote is what `parse_c_err_str` reads,
  -- and behind it the block is free again.
  pub parse-write :
      (d : String) (s : CState libc texts)
      → has_nul (bytes d) ≡ false
      → Ends
          (λ s'.
            ((parse_c_err_str libc texts s'.err s'.memory).0 ≡ err d)
            × (block s'.err (parse_c_err_str libc texts s'.err s'.memory).1 ≡ 0))
          (write_display_c_str libc texts d s)
  unfolding parse_c_err_str
  parse-write d s clean =
      Ends-map
        (λ s' w.
          let some_block : (s'.err == null_mut) ≡ false = ground (arith, w.not_null) in
          rw some_block (
            ap (λ t. err (to_string_lossy t)) w.reads ∙ ap err (texts.lossy-bytes d),
            libc.block-free s'.err s'.memory,
          ))
        (write_display_c_str libc texts d s) (write-IsWritten d s clean)

  -- An address that was written as a C string is parsed back as the same address.
  pub socket_addr-write :
      (a : SocketAddr) (s : CState libc texts)
      → Ends
          (λ s'. socket_addr libc texts s'.err s'.memory ≡ ok a)
          (write_display_c_str libc texts (addr_text a) s)
  unfolding socket_addr
  socket_addr-write a s =
      Ends-map
        (λ s' w.
          let some_block : (s'.err == null_mut) ≡ false = ground (arith, w.not_null) in
          rw (some_block, w.reads, texts.to_str-bytes (addr_text a), texts.parse-addr_text a))
        (write_display_c_str libc texts (addr_text a) s)
        (write-IsWritten (addr_text a) s (texts.addr_has_no_nul a))

  -- The error's text, if there is one, has no byte 0, so that it can be a C string.
  abbrev pub IsClean : {A : Type 0} → IoResult A → Type 0
  IsClean (ok a) = Unit
  IsClean (err e) = has_nul (bytes (error_text e)) ≡ false

  -- What a function with a return code leaves behind: 0 and a null pointer, with the memory as it
  -- was, or 1 and the error's text.
  abbrev pub Reports : IoResult (Unit {0}) → CState libc texts → ℕ × CState libc texts → Type 0
  Reports (ok u) s (code, s') = (code ≡ 0) × (s'.err ≡ null_mut) × (s'.memory ≡ s.memory)
  Reports (err e) s (code, s') = (code ≡ 1) × IsWritten (error_text e) s s'

  pub report-Reports :
      (r : IoResult (Unit {0})) (s : CState libc texts)
      → IsClean r
      → Ends (Reports r s) (report libc texts r s)
  unfolding report
  report-Reports (ok u) s clean = (refl, refl, refl)
  report-Reports (err e) s clean =
      >>=-Ends (IsWritten (error_text e) s) (Reports (err e) s)
        (write_display_c_str libc texts (error_text e) s) (λ s'. done (1, s'))
        (write-IsWritten (error_text e) s clean) (λ s' w. (refl, w))
