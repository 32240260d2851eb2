-- ===== src/Threads.antt =====
-- src/utils.rs: how many threads the runtime gets, and the two addresses of a stream.
pub mod Bounds
use socket_manager.Prelude.{ℕ, min, Option, none, some, ◌==◌, if◌then◌else◌}
use socket_manager.Std.{Result, ok, err, IoResult}

abbrev pub max_worker_threads : ℕ
max_worker_threads = 256

-- What is asked of `tokio::runtime::Builder`.
pub data Builder : Type 0 where
  multi_thread : ℕ → Builder
  current_thread : Builder

-- `available_parallelism().unwrap_or(1)`; on success it is not zero.
abbrev pub cpu_count : Option ℕ → ℕ
cpu_count none = 1
cpu_count (some n) = n

-- The match on `n_thread`.
abbrev pub builder_for : ℕ → Option ℕ → Builder
builder_for n available =
    if n == 0
    then multi_thread (cpu_count available)
    else if n == 1
    then current_thread
    else multi_thread n

unfoldable pub runtime_builder : ℕ → Option ℕ → Builder
runtime_builder n_threads available = builder_for (min n_threads max_worker_threads) available

-- `build` is tokio's.
abbrev pub start_runtime : {R : Type 0} → (Builder → IoResult R) → ℕ → Option ℕ → IoResult R
start_runtime build n_threads available = build (runtime_builder n_threads available)

abbrev pub both_addrs : {A : Type 0} → IoResult A → IoResult A → IoResult (A × A)
both_addrs (ok local) (ok peer) = ok (local, peer)
both_addrs (ok local) (err e) = err e
both_addrs (err e) peer = err e

-- The stream says what its addresses are.
abbrev pub get_address_from_stream :
    {S A : Type 0} → (S → IoResult A) → (S → IoResult A) → S → IoResult (A × A)
get_address_from_stream local_addr peer_addr stream =
    both_addrs (local_addr stream) (peer_addr stream)
