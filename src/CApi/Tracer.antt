-- ===== src/CApi/Tracer.antt =====
-- src/c_api/tracer.rs, with `init_logger` of src/lib.rs: the log messages for C.
pub mod Filters
use text.Mathlib.Text.{◌==◌}
use socket_manager.Prelude.{
  ℕ, suc, ◌≡◌, String, Bool, List, [], ◌∷◌, Option, none, some, leb, if◌then◌else◌,
}
use socket_manager.Prelude.Int.{ℤ, negsuc, as_c_int}
use socket_manager.Std.{Byte, Result, ok, err, Run, done, ◌>>=◌}
use socket_manager.CApi.Memory.{Libc, Texts}
use socket_manager.CApi.Utils.{null_mut, CState, write_display_c_str}

-- `tracing::Level` and `tracing_subscriber::filter::LevelFilter`, by the constants that the code names.
pub data Level : Type 0 where
  level_trace level_debug level_info level_warn level_error : Level

pub data LevelFilter : Type 0 where
  filter_trace filter_debug filter_info filter_warn filter_error filter_off : LevelFilter

pub data TraceLevel : Type 0 where
  trace debug info warn error off : TraceLevel

-- The numbers that C knows the levels by.
abbrev pub level_number : TraceLevel → ℕ
level_number trace = 0
level_number debug = 1
level_number info = 2
level_number warn = 3
level_number error = 4
level_number off = 5

-- `impl Into<LevelFilter> for TraceLevel`
abbrev pub into_filter : TraceLevel → LevelFilter
into_filter trace = filter_trace
into_filter debug = filter_debug
into_filter info = filter_info
into_filter warn = filter_warn
into_filter error = filter_error
into_filter off = filter_off

-- `impl From<&Level> for TraceLevel`
abbrev pub from_level : Level → TraceLevel
from_level level_trace = trace
from_level level_debug = debug
from_level level_info = info
from_level level_warn = warn
from_level level_error = error

-- A field is its name and the `Debug` text of its value.
abbrev pub Field : Type 0
Field = String × String

-- `tracing::Event` with its metadata
pub record Event : Type 0 where
  pub level : Level
  pub target : String
  pub file : Option String
  pub line : Option ℕ
  pub fields : List Field

-- A pointer and a length stand for the bytes there.
pub record LogData : Type 0 where
  pub level : TraceLevel
  pub target : List Byte
  pub file : List Byte
  pub line : ℤ
  pub message : List Byte

abbrev pub message_name : String
message_name = "message"

abbrev pub empty : String
empty = ""

-- `GetMsgVisitor::record_debug`
abbrev pub record_debug : Field → Option String → Option String
record_debug field seen = if field.0 == message_name then some field.1 else seen

-- `event.record(&mut get_msg)` hands the fields over in their order.
abbrev pub record_fields : List Field → Option String → Option String
record_fields [] seen = seen
record_fields (field ∷ fields) seen = record_fields fields (record_debug field seen)

abbrev pub or_empty : Option String → String
or_empty none = empty
or_empty (some t) = t

abbrev pub line_code : Option ℕ → ℤ
line_code none = negsuc 0
line_code (some l) = as_c_int l

-- A layer behind a filter: what it does with an event to the state `C` of its receiver.
pub record Filtered (C : Type 0) : Type 0 where
  pub on_event : Event → C → C
  pub max_level : LevelFilter

pub record Layers (C : Type 0) : Type 0 where
  pub foreign_logger : Filtered C
  pub print_level : LevelFilter

-- How much a level or a filter lets through, in the order that `tracing` documents.
abbrev pub verbosity : Level → ℕ
verbosity level_error = 1
verbosity level_warn = 2
verbosity level_info = 3
verbosity level_debug = 4
verbosity level_trace = 5

abbrev pub filter_verbosity : LevelFilter → ℕ
filter_verbosity filter_off = 0
filter_verbosity filter_error = 1
filter_verbosity filter_warn = 2
filter_verbosity filter_info = 3
filter_verbosity filter_debug = 4
filter_verbosity filter_trace = 5

-- The crates `tracing` and `tracing_subscriber`: a global subscriber that can be set once, and what an
-- event does to the receiver of the foreign logger.
pub record Tracing (C : Type 0) : Type 1 where
  pub Global : Type 0
  pub try_init : Layers C → Global → Result (Unit {0}) String × Global
  pub emit : Event → Global → C → C
  pub enabled : LevelFilter → Level → Bool
  pub installed : Global → Option (Layers C)
  pub init_ok :
      (x : Layers C) (g : Global)
      → installed g ≡ none
      → ((try_init x g).0 ≡ ok tt) × (installed (try_init x g).1 ≡ some x)
  pub init_refused :
      (x y : Layers C) (g : Global)
      → installed g ≡ some y
      → (e : String) × (try_init x g ≡ (err e, g))
  pub enabled_as :
      (f : LevelFilter) (l : Level) → enabled f l ≡ leb (verbosity l) (filter_verbosity f)
  pub emit_filtered :
      (x : Layers C) (g : Global) (event : Event) (c : C)
      → installed g ≡ some x
      → emit event g c ≡ (
          if enabled x.foreign_logger.max_level event.level
          then x.foreign_logger.on_event event c
          else c)

module _ (libc : Libc) {SocketAddr : Type 0} (texts : Texts SocketAddr) where
  open texts use {bytes}

  unfoldable pub log_data : Event → LogData
  log_data event = record {
    level = from_level event.level;
    target = bytes event.target;
    file = bytes (or_empty event.file);
    line = line_code event.line;
    message = bytes (or_empty (record_fields event.fields none));
  }

  -- `tracer` is the C callback, over the state `C` of the C side.
  module _ {C : Type 0} (tracing : Tracing C) where
    open tracing use {Global, try_init}

    -- `ForeignLogger::on_event`
    abbrev pub on_event : (LogData → C → C) → Event → C → C
    on_event tracer event c = tracer (log_data event) c

    abbrev pub init_logger : LevelFilter → Filtered C → Global → Result (Unit {0}) String × Global
    init_logger log_print_level foreign_logger g =
        try_init (record { foreign_logger = foreign_logger; print_level = log_print_level }) g

    -- The match on the result
    abbrev pub init_reported :
        Result (Unit {0}) String × Global → CState libc texts → Run (Global × CState libc texts)
    init_reported (ok u, g) s = done (g, record s { err = null_mut })
    init_reported (err e, g) s = write_display_c_str libc texts e s >>= λ s'. done (g, s')

    unfoldable pub socket_manager_logger_init :
        (LogData → C → C)
        → TraceLevel
        → TraceLevel
        → Global
        → CState libc texts
        → Run (Global × CState libc texts)
    socket_manager_logger_init tracer tracer_max_level log_print_level g s =
        init_reported
          (init_logger (into_filter log_print_level)
            (record { on_event = on_event tracer; max_level = into_filter tracer_max_level }) g)
          s
