-- ===== src/Threads/Bounds.antt =====
-- The number of threads of the runtime.
use socket_manager.Prelude.{ℕ, ◌≤◌, ◌<◌, ◌≡◌, ◌⊎◌, Option, arith}
use socket_manager.Threads.{
  max_worker_threads, Builder, multi_thread, current_thread, cpu_count, runtime_builder,
}

-- The threads that run tasks.
abbrev pub workers : Builder → ℕ
workers (multi_thread n) = n
workers current_thread = 1

abbrev pub Suits : ℕ → Option ℕ → Builder → Type 0
Suits n available b =
    ((n ≡ 0) × (b ≡ multi_thread (cpu_count available)))
    ⊎ ((n ≡ 1) × (b ≡ current_thread))
    ⊎ ((1 < n) × (n ≤ max_worker_threads) × (b ≡ multi_thread n))
    ⊎ ((max_worker_threads < n) × (b ≡ multi_thread max_worker_threads))

-- A runtime has as many threads as it was asked for, up to 256; with 0 as many as there are processors. It is
-- single-threaded exactly if 1 was asked for, and where there is a processor it never has no
-- thread.
pub runtime_builder_bounds :
    (n_threads : ℕ) (available : Option ℕ)
    → 0 < cpu_count available
    → Suits n_threads available (runtime_builder n_threads available)
      × (0 < workers (runtime_builder n_threads available))
unfolding runtime_builder
runtime_builder_bounds n_threads available h = ground arith
