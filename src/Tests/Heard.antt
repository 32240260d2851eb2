-- ===== src/Tests/Heard.antt =====
-- A C callback that hears of a connection from its start to its end.
use socket_manager.Prelude.{ℕ, Bool, List, [], ◌∷◌, ◌++◌}
use socket_manager.Std.{Ends}
use socket_manager.CApi.Utils.{null_mut}
use socket_manager.CApi.ConnEvents.{ConnStates}
use socket_manager.CApi.OnConn.{ExternOnConn}
use socket_manager.CApi.OnConn.Life.{call_each, HasHeard, seen_life, c_hears_life}
use socket_manager.Tests.Texts.{test_texts}
use socket_manager.Tests.Blocks.{test_libc}
use socket_manager.Tests.Runtimes.{test_runtime}
use socket_manager.Tests.Lives.{shared, life, last, life_ends}
use socket_manager.Tests.Foreign.{c_state}

-- It notes what it is given, and has no error.
abbrev noting : ExternOnConn test_texts test_libc
noting = record { State = List (ConnStates ℕ); on_conn = λ c s m. (null_mut, m, s ++ c ∷ []) }

c_hears_life_example :
    Ends
      (λ out.
        (remote_closed : Bool) × HasHeard test_libc test_texts noting
          (seen_life test_libc test_runtime test_texts noting 1 2 remote_closed)
          []
          c_state.memory
          out)
      (call_each test_libc test_texts noting last.join.events [] c_state.memory)
c_hears_life_example =
    c_hears_life test_libc test_runtime test_texts noting 1 2 shared life last [] c_state.memory
      life_ends.0 life_ends.1
