-- ===== src/CApi/Tracer/Filters.antt =====
-- Which messages reach the C callback, by the numbers of the levels.
use socket_manager.Prelude.{
  ◌+◌, arith, ◌≡◌, refl, sym, ap, ◌∙◌, subst, String, false, ◌⊎◌, inl, inr, Option, none, some, leb,
  if◌then◌else◌,
}
use socket_manager.Std.{err, done, Ends, >>=-Ends}
use socket_manager.CApi.Memory.{has_nul, Libc, Texts}
use socket_manager.CApi.Utils.{null_mut, CState, write_display_c_str}
use socket_manager.CApi.Utils.RoundTrip.{IsWritten, write-IsWritten}
use socket_manager.CApi.Tracer.{
  Level, level_trace, level_debug, level_info, level_warn, level_error, LevelFilter, TraceLevel,
  trace, debug, info, warn, error, off, level_number, into_filter, from_level, Event, LogData,
  Layers, verbosity, filter_verbosity, Tracing, log_data, on_event, init_reported,
  socket_manager_logger_init,
}

set_up-cases : {A : Type 0} (v : Option A) → (v ≡ none) ⊎ ((a : A) × (v ≡ some a))
set_up-cases none = inl refl
set_up-cases (some a) = inr (a, refl)

filter_number : (t : TraceLevel) → filter_verbosity (into_filter t) + level_number t ≡ 5
filter_number trace = refl
filter_number debug = refl
filter_number info = refl
filter_number warn = refl
filter_number error = refl
filter_number off = refl

verbosity_number : (l : Level) → verbosity l + level_number (from_level l) ≡ 5
verbosity_number level_trace = refl
verbosity_number level_debug = refl
verbosity_number level_info = refl
verbosity_number level_warn = refl
verbosity_number level_error = refl

-- A filter lets a level through just where its number is not the larger one.
level_order :
    (t : TraceLevel) (l : Level)
    → leb (verbosity l) (filter_verbosity (into_filter t))
      ≡ leb (level_number t) (level_number (from_level l))
level_order t l = let a = filter_number t in let b = verbosity_number l in ground arith

module _ (libc : Libc) {SocketAddr : Type 0} (texts : Texts SocketAddr) {C : Type 0}
    (tracing : Tracing C) where
  open tracing use {Global, installed, emit}
  open texts use {bytes}

  -- What an event does to the C side: it is told of just those whose level has a number that is not below
  -- the one that it asked for.
  abbrev pub Filters : (LogData → C → C) → TraceLevel → Global → Type 0
  Filters tracer max g =
      (event : Event) (c : C)
      → emit event g c ≡ (
          if leb (level_number max) (level_number (from_level event.level))
          then tracer (log_data libc texts event) c
          else c)

  installed-Filters :
      (tracer : LogData → C → C) (max : TraceLevel) (print_level : LevelFilter) (g : Global)
      → installed g
        ≡ some (record {
          foreign_logger = record {
            on_event = on_event libc texts tracing tracer;
            max_level = into_filter max;
          };
          print_level = print_level;
        })
      → Filters tracer max g
  installed-Filters tracer max print_level g h event c =
      tracing.emit_filtered _ g event c h
      ∙ ap (λ b. if b then tracer (log_data libc texts event) c else c)
          (tracing.enabled_as (into_filter max) event.level ∙ level_order max event.level)

  -- The result of a call: the logger is set up as asked for, or the caller has the text of the error
  -- and the logger is as it was.
  abbrev pub SetUp :
      (LogData → C → C)
      → TraceLevel
      → Global
      → CState libc texts
      → Global × CState libc texts
      → Type 0
  SetUp tracer max g s (g', s') =
      ((installed g ≡ none) × (s'.err ≡ null_mut) × Filters tracer max g')
      ⊎ ((x : Layers C) × (e : String) × (installed g ≡ some x)
          × (g' ≡ g)
          × IsWritten libc texts e s s')

  -- If the text of the error has no byte 0, a call that sets up the logger either is the first one, leaves a null pointer,
  -- and from then on the C side is told of exactly those events whose level has a number that is
  -- not below the number of the level that it asked for (of none with `Off`); or the logger was set
  -- up before, stays as it was, and the caller has the text of an error.
  pub logger_init_filters :
      (tracer : LogData → C → C) (max print_level : TraceLevel) (g : Global) (s : CState libc texts)
      → ((x : Layers C) (e : String) → (tracing.try_init x g).0 ≡ err e → has_nul (bytes e) ≡ false)
      → Ends
          (SetUp tracer max g s)
          (socket_manager_logger_init libc texts tracing tracer max print_level g s)
  unfolding socket_manager_logger_init
  logger_init_filters tracer max print_level g s clean =
      let layers : Layers C = record {
        foreign_logger = record {
          on_event = on_event libc texts tracing tracer;
          max_level = into_filter max;
        };
        print_level = into_filter print_level;
      } in
      elim (set_up-cases (installed g)) [
        | inl h ↦
            let k = tracing.init_ok layers g h in
            subst
              (λ r.
                Ends (SetUp tracer max g s)
                  (init_reported libc texts tracing (r, (tracing.try_init layers g).1) s))
              (sym k.0)
              (inl (h, refl, installed-Filters tracer max (into_filter print_level) _ k.1))
        | inr (x, h) ↦
            let k = tracing.init_refused layers x g h in
            subst (λ r. Ends (SetUp tracer max g s) (init_reported libc texts tracing r s))
              (sym k.1)
              (>>=-Ends (IsWritten libc texts k.0 s) (SetUp tracer max g s)
                (write_display_c_str libc texts k.0 s) (λ s'. done (g, s'))
                (write-IsWritten libc texts k.0 s (clean layers k.0 (ap (λ r. r.0) k.1)))
                (λ s' w. inr (x, k.0, h, refl, w)))
      ]
