-- ===== src/Tests/Traits.antt =====
-- A socket's halves and a callback that can be run: they show that the assumptions of `Io` and
-- `OnMsgWrite` can be met.
use socket_manager.Prelude.{
  ℕ, ◌≡◌, refl, ap, List, ◌++◌, arith, length, take, drop, length-take, min,
}
use socket_manager.Std.{Byte, ready, pending, ok}
use socket_manager.Io.{AsyncRead, AsyncWrite}
use socket_manager.OnMsgWrite.{OnMsg}

-- How many bytes a test writer takes at once.
abbrev pub some_of : List Byte → ℕ
some_of bs = min 2 (length bs)

-- It logs what it takes, two bytes at once at most.
abbrev pub test_write : AsyncWrite
test_write = record {
  Writer = List Byte;
  poll_write = λ bs w. (ready (ok (some_of bs)), w ++ take (some_of bs) bs);
  poll_shutdown = λ w. (ready (ok tt), w);
  written = λ w. w;
  accepts_le = λ bs w n p. let e : some_of bs ≡ n = cc in omega (arith, e);
  accepts = λ bs w n p. let e : some_of bs ≡ n = cc in ap (λ k. w ++ take k bs) e;
  fails = λ bs w e p. cc;
  waits = λ bs w p. cc;
  shuts = λ w. refl;
}

-- The bytes still to come, and those handed out; three at once at most.
abbrev pub test_read : AsyncRead
test_read = record {
  Reader = List Byte × List Byte;
  poll_read = λ room r.
      (ready (ok (take (min room 3) r.0)), (drop (min room 3) r.0, r.1 ++ take (min room 3) r.0));
  received = λ r. r.1;
  reads_le = λ room r bs p.
      let e : take (min room 3) r.0 ≡ bs = cc in
      omega (arith, ap length e, length-take (min room 3) r.0);
  reads = λ room r bs p. let e : take (min room 3) r.0 ≡ bs = cc in ap (◌++◌ r.1) e;
  fails = λ room r e p. cc;
  waits = λ room r p. cc;
}

-- The socket has nothing to give yet.
abbrev pub silent_read : AsyncRead
silent_read = record test_read {
  poll_read = λ room r. (pending, r);
  reads_le = λ room r bs p. cc;
  reads = λ room r bs p. cc;
  fails = λ room r e p. cc;
  waits = λ room r p. refl;
}

-- A callback that takes two bytes at once at most.
abbrev pub test_on_msg : OnMsg
test_on_msg = record {
  State = List Byte;
  on_msg = λ bs w. (ready (ok (some_of bs)), w ++ take (some_of bs) bs);
  taken = λ w. w;
  takes_le = λ bs w n p. let e : some_of bs ≡ n = cc in omega (arith, e);
  takes = λ bs w n p. let e : some_of bs ≡ n = cc in ap (λ k. w ++ take k bs) e;
  fails = λ bs w e p. cc;
  waits = λ bs w p. cc;
}
