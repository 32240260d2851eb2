-- ===== src/CApi/OnMsg.antt =====
-- src/c_api/on_msg.rs: the C callback that takes the bytes of a connection.
pub mod Takes
pub mod Reads
use socket_manager.Prelude.{
  ℕ, ◌≤◌, ◌≡◌, String, Bool, List, ◌++◌, length, take, ◌==◌, ltb, if◌then◌else◌,
}
use socket_manager.Prelude.Int.{ℤ, pos, negsuc, as_c_long, as_usize, is_positive, leb_ℤ}
use socket_manager.Std.{Byte, Poll, ready, pending, Result, ok, err, Run, done, panics}
use socket_manager.CApi.Memory.{Libc, Texts}
use socket_manager.CApi.Utils.{null_mut, parse_c_err_str}

-- How many bytes an answer stands for: none with an error text or a code that is not positive.
abbrev pub count_of : ℤ → ℕ → ℕ
count_of (pos n) err_ptr = if err_ptr == null_mut then n else 0
count_of (negsuc n) err_ptr = 0

module _ (libc : Libc) where
  open libc use {Memory}

  -- `socket_manager_extern_on_msg`, which the C side provides: it gets the bytes, and leaves a code, the
  -- pointer to an error text (null if there is no error), and the memory. It is documented to
  -- return the exact number of the bytes that it took, if it took some.
  pub record ExternOnMsg : Type 1 where
    pub State : Type 0
    pub on_msg : List Byte → State → Memory → ℤ × ℕ × Memory × State
    pub taken : State → List Byte
    pub takes_le :
        (bs : List Byte) (s : State) (m : Memory)
        → count_of (on_msg bs s m).0 (on_msg bs s m).1 ≤ length bs
    pub takes :
        (bs : List Byte) (s : State) (m : Memory)
        → taken (on_msg bs s m).3
          ≡ taken s ++ take (count_of (on_msg bs s m).0 (on_msg bs s m).1) bs

  module _ {SocketAddr : Type 0} (texts : Texts SocketAddr) (f : ExternOnMsg) where
    -- A poll's answer, the memory, and the state of the C side.
    abbrev pub Polled : Type 0
    Polled = Poll (Result ℕ String) × Memory × f.State

    -- What follows the call: the error first, then the code, with the assertion on it.
    abbrev pub answered : Result (Unit {0}) String → ℤ → ℕ → Memory → f.State → Run Polled
    answered (err e) cb_result len m s = done (ready (err e), m, s)
    answered (ok u) cb_result len m s =
        if is_positive cb_result
        then (if leb_ℤ cb_result (as_c_long len)
            then done (ready (ok (as_usize cb_result)), m, s)
            else panics)
        else done (pending, m, s)

    -- `OnMsgObj::call_inner`
    unfoldable pub on_msg_call_inner : List Byte → f.State → Memory → Run Polled
    on_msg_call_inner bytes s m =
        let (cb_result, err_ptr, m', s') = f.on_msg bytes s m in
        let parsed = parse_c_err_str libc texts err_ptr m' in
        answered parsed.0 cb_result (length bytes) parsed.1 s'

    -- `Fn::call`, `FnMut::call_mut` and `FnOnce::call_once` of `OnMsgObj`: the same call, by a shared
    -- reference, a mutable one, and a value.
    abbrev pub call : List Byte → f.State → Memory → Run Polled
    call bytes s m = on_msg_call_inner bytes s m

    abbrev pub call_mut : List Byte → f.State → Memory → Run Polled
    call_mut bytes s m = on_msg_call_inner bytes s m

    abbrev pub call_once : List Byte → f.State → Memory → Run Polled
    call_once bytes s m = on_msg_call_inner bytes s m
