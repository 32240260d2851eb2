-- ===== src/Tests/Lent.antt =====
-- The theorems on wakers and the logger at concrete inputs.
use socket_manager.Prelude.{
  ℕ, ◌≡◌, refl, ap, Bool, String, List, [], ◌∷◌, Option, none, some, leb, if◌then◌else◌,
}
use socket_manager.Std.{Result, ok, err, Ends}
use socket_manager.CApi.Utils.{CState}
use socket_manager.CApi.Tracer.{
  Level, LevelFilter, info, error, Event, LogData, Layers, verbosity, filter_verbosity, Tracing,
  socket_manager_logger_init,
}
use socket_manager.CApi.Tracer.Filters.{SetUp, logger_init_filters}
use socket_manager.CApi.Waker.{RawWakerVTable, Notifier, make_vtable, to_waker, waker_clone}
use socket_manager.CApi.Waker.Uses.{Reaches, Wakes, to_waker-Wakes}
use socket_manager.Tests.Texts.{test_texts}
use socket_manager.Tests.Blocks.{test_libc}

-- A C side that notes whom it was asked to wake.
abbrev note : Notifier → List ℕ → List ℕ
note n woken = n.this ∷ woken

abbrev note_table : ℕ → RawWakerVTable (List ℕ)
note_table p = make_vtable note p

abbrev notifier : Notifier
notifier = record { this = 77 }

to_waker-Wakes_example :
    Wakes note note_table notifier (waker_clone note_table (to_waker 8 notifier)) []
to_waker-Wakes_example =
    to_waker-Wakes note note_table 8 notifier (waker_clone note_table (to_waker 8 notifier)) [] refl
      (Reaches.cloned Reaches.first)

-- A logger that can be set up once; the C side keeps what it is told.
abbrev allows : LevelFilter → Level → Bool
allows f l = leb (verbosity l) (filter_verbosity f)

abbrev test_try_init :
    {C : Type 0} → Layers C → Option (Layers C) → Result (Unit {0}) String × Option (Layers C)
test_try_init x none = (ok tt, some x)
test_try_init x (some y) = (err "already set", some y)

abbrev test_emit : {C : Type 0} → Event → Option (Layers C) → C → C
test_emit event none c = c
test_emit event (some x) c =
    if allows x.foreign_logger.max_level event.level then x.foreign_logger.on_event event c else c

pub test_init_ok :
    {C : Type 0} (x : Layers C) (g : Option (Layers C))
    → g ≡ none
    → ((test_try_init x g).0 ≡ ok tt) × ((test_try_init x g).1 ≡ some x)
test_init_ok x none h = (refl, refl)
test_init_ok x (some y) h = cc

pub test_init_refused :
    {C : Type 0} (x y : Layers C) (g : Option (Layers C))
    → g ≡ some y
    → (e : String) × (test_try_init x g ≡ (err e, g))
test_init_refused x y none h = cc
test_init_refused x y (some z) h = ("already set", refl)

pub test_emit_filtered :
    {C : Type 0} (x : Layers C) (g : Option (Layers C)) (event : Event) (c : C)
    → g ≡ some x
    → test_emit event g c ≡ test_emit event (some x) c
test_emit_filtered x g event c h = ap (λ v. test_emit event v c) h

abbrev test_tracing : (C : Type 0) → Tracing C
test_tracing C = record {
  Global = Option (Layers C);
  try_init = test_try_init;
  emit = test_emit;
  enabled = allows;
  installed = λ g. g;
  init_ok = test_init_ok;
  init_refused = test_init_refused;
  enabled_as = λ f l. refl;
  emit_filtered = test_emit_filtered;
}

abbrev keep : LogData → List LogData → List LogData
keep d told = d ∷ told

abbrev quiet : CState test_libc test_texts
quiet = record { memory = []; err = 7 }

logger_init_filters_example :
    Ends (SetUp test_libc test_texts (test_tracing (List LogData)) keep info none quiet) (
      socket_manager_logger_init test_libc test_texts
        (test_tracing (List LogData))
        keep
        info
        error
        none
        quiet)
logger_init_filters_example =
    logger_init_filters test_libc test_texts (test_tracing (List LogData)) keep info error none
      quiet (λ x e h. cc)
