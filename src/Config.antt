-- ===== src/Config.antt =====
-- `ConnConfig` of src/conn.rs, the buffer sizes of src/read.rs and the use of both.
use socket_manager.Prelude.{ℕ, ◌*◌, ◌≤◌, ◌≡◌, arith, min, max, ◌⊎◌}
use socket_manager.Std.{Duration}

pub record ConnConfig : Type 0 where
  pub write_flush_interval : Duration
  pub read_msg_flush_interval : Duration
  pub msg_buffer_size : ℕ

abbrev pub min_msg_buffer_size : ℕ
min_msg_buffer_size = 1024 * 8

abbrev pub max_msg_buffer_size : ℕ
max_msg_buffer_size = 1024 * 1024 * 8

-- `config.msg_buffer_size.min(MAX_MSG_BUFFER_SIZE).max(MIN_MSG_BUFFER_SIZE)`
unfoldable pub msg_buf_size : ConnConfig → ℕ
msg_buf_size config = max (min config.msg_buffer_size max_msg_buffer_size) min_msg_buffer_size

-- The buffer holds between 8 KiB and 8 MiB, and exactly as many bytes as the configuration asks
-- for where that is in the range.
pub msg_buf_size_bounds :
    (c : ConnConfig)
    → (min_msg_buffer_size ≤ msg_buf_size c)
      × (msg_buf_size c ≤ max_msg_buffer_size)
      × ((msg_buf_size c ≡ c.msg_buffer_size)
          ⊎ ((c.msg_buffer_size ≤ min_msg_buffer_size) × (msg_buf_size c ≡ min_msg_buffer_size))
          ⊎ ((max_msg_buffer_size ≤ c.msg_buffer_size) × (msg_buf_size c ≡ max_msg_buffer_size)))
unfolding msg_buf_size
msg_buf_size_bounds c = grind arith
