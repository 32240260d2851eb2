-- ===== src/Tests/Delivered.antt =====
-- A reader task over a C callback, run to its end.
use socket_manager.Prelude.{◌≡◌, refl, false, []}
use socket_manager.Std.{Run, done, ok}
use socket_manager.Config.{msg_buf_size}
use socket_manager.Io.{AsyncWrite}
use socket_manager.BufReadWrite.{
  new, fresh, fill_flush, flush, write_all, write_all_loop, poll_reading, poll_flushing,
  after_flush,
}
use socket_manager.OnMsgWrite.{on_msg_write}
use socket_manager.Reader.{
  Reading, filling, returned, handle_reader, reader_run, reader_step, no_auto_flush_at,
}
use socket_manager.Reader.Delivery.{reader_task}
use socket_manager.CApi.Utils.{parse_c_err_str}
use socket_manager.CApi.OnMsg.{on_msg_call_inner}
use socket_manager.CApi.OnMsg.Reads.{Foreign, c_on_msg, c_reader_delivers}
use socket_manager.Tests.Traits.{test_read}
use socket_manager.Tests.Reads.{quiet, polls, incoming, value_or}
use socket_manager.Tests.Texts.{test_texts}
use socket_manager.Tests.Blocks.{test_libc}
use socket_manager.Tests.Foreign.{test_on_msg}

abbrev c_writer : AsyncWrite
c_writer = on_msg_write (c_on_msg test_libc test_texts test_on_msg)

abbrev none_taken : Foreign test_libc test_texts test_on_msg
none_taken = ([], [])

abbrev nowhere : Reading test_read c_writer
nowhere = record {
  stage = filling fresh;
  has_data = false;
  read_write = record {
    reader = incoming;
    writer = none_taken;
    buf = [];
    r_offset = 0;
    w_offset = 0;
  };
}

-- The C side takes two bytes at once, and the task returns.
abbrev c_run : Run (Reading test_read c_writer)
c_run = reader_task test_read c_writer quiet polls incoming none_taken

abbrev last_state : Reading test_read c_writer
last_state = value_or nowhere c_run

c_run_ends : (c_run ≡ done last_state) × (last_state.stage ≡ returned (ok tt))
unfolding handle_reader reader_run reader_step no_auto_flush_at fill_flush flush write_all
    write_all_loop poll_reading poll_flushing after_flush new msg_buf_size on_msg_call_inner
    parse_c_err_str
c_run_ends = (refl, refl)

c_reader_delivers_example :
    test_on_msg.taken last_state.read_write.writer.1
    ≡ test_read.received last_state.read_write.reader
c_reader_delivers_example =
    c_reader_delivers test_libc test_texts test_on_msg test_read quiet polls incoming none_taken
      last_state refl c_run_ends.0 c_run_ends.1
