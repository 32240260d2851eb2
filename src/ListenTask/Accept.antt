-- ===== src/ListenTask/Accept.antt =====
-- What a listening task does for the streams and the errors of its listener.
use socket_manager.Prelude.{
  ◌≡◌, refl, sym, ◌∙◌, subst, true, false, List, [], ◌∷◌, ◌++◌, append-nil, append_assoc, if_both,
  if_cases,
}
use socket_manager.Std.{ready, pending, ok, err, IoError}
use socket_manager.ConnState.{Runtime}
use socket_manager.ListenTask.{
  Stage, binding, accepting, stopped, Input, binds, accepts, Listening, accept_at, listen_at,
  listen_run,
}

module _ (rt : Runtime) where
  open rt use {SocketAddr}

  -- A `select!` without its `accept` branch, or a task that is done.
  abbrev IsDeaf : Stage → Type 0
  IsDeaf (accepting true) = ⊥
  IsDeaf binding = ⊥
  IsDeaf (accepting false) = Unit
  IsDeaf stopped = Unit

  listen_at-IsDeaf :
      (s : Stage) (i : Input rt) (l : Listening rt)
      → l.stage ≡ s
      → IsDeaf s
      → IsDeaf (listen_at rt s i l).stage × ((listen_at rt s i l).handled ≡ l.handled)
  unfolding listen_at accept_at
  listen_at-IsDeaf binding i l e d = absurd d
  listen_at-IsDeaf (accepting true) i l e d = absurd d
  listen_at-IsDeaf (accepting false) (binds p) l e d = (subst IsDeaf (sym e) tt, refl)
  listen_at-IsDeaf (accepting false) (accepts p) l e d =
      if_both (λ (l' : Listening rt). IsDeaf l'.stage × (l'.handled ≡ l.handled))
        (rt.stop.is_closed (l.state.stops l.canceled)) _ _ (tt, refl) (tt, refl)
  listen_at-IsDeaf stopped i l e d = (subst IsDeaf (sym e) tt, refl)

  listen_run_deaf :
      (is : List (Input rt)) (l : Listening rt)
      → IsDeaf l.stage
      → (listen_run rt is l).handled ≡ l.handled
  unfolding listen_run
  listen_run_deaf [] l d = refl
  listen_run_deaf (i ∷ is) l d =
      let (d', e) = listen_at-IsDeaf l.stage i l refl d in
      listen_run_deaf is (listen_at rt l.stage i l) d' ∙ e

  -- After one error of `accept`, a listening task accepts no stream any more, whatever its listener
  -- gives: the `select!` waits for the cancellation alone.
  pub accept_error_deafens :
      (e : IoError) (is : List (Input rt)) (l : Listening rt)
      → l.stage ≡ accepting true
      → (listen_run rt (accepts (ready (err e)) ∷ is) l).handled ≡ l.handled
  unfolding listen_run listen_at accept_at
  accept_error_deafens e is l s =
      subst
        (λ x. (listen_run rt is (listen_at rt x (accepts (ready (err e))) l)).handled ≡ l.handled)
        (sym s)
        (if_both (λ (l' : Listening rt). (listen_run rt is l').handled ≡ l.handled)
          (rt.stop.is_closed (l.state.stops l.canceled)) _ _
          (listen_run_deaf is (record l { stage = stopped }) tt)
          (listen_run_deaf is (record l { stage = accepting false }) tt))

  -- The streams of which the addresses were read, as long as no `accept` fails.
  abbrev pub streams : List (Input rt) → List (SocketAddr × SocketAddr)
  streams [] = []
  streams (accepts (ready (ok (ok k))) ∷ is) = k ∷ streams is
  streams (accepts (ready (ok (err e))) ∷ is) = streams is
  streams (accepts (ready (err e)) ∷ is) = []
  streams (accepts pending ∷ is) = streams is
  streams (binds p ∷ is) = streams is

  -- What a listener that is not canceled handles.
  abbrev Handles : List (Input rt) → Type 0
  Handles is =
      (l : Listening rt)
      → l.stage ≡ accepting true
      → rt.stop.is_closed (l.state.stops l.canceled) ≡ false
      → (listen_run rt is l).handled ≡ l.handled ++ streams is

  step-Handles :
      (i : Input rt) (is : List (Input rt)) (l : Listening rt)
      → Handles is
      → l.stage ≡ accepting true
      → rt.stop.is_closed (l.state.stops l.canceled) ≡ false
      → (listen_run rt is (listen_at rt (accepting true) i l)).handled
        ≡ l.handled ++ streams (i ∷ is)
  unfolding listen_at accept_at
  step-Handles (binds p) is l ih s o = ih l s o
  step-Handles (accepts pending) is l ih s o =
      if_cases (λ (l' : Listening rt). (listen_run rt is l').handled ≡ l.handled ++ streams is)
        (rt.stop.is_closed (l.state.stops l.canceled)) _ _ (λ c. cc)
        (λ _. ih (record l { stage = accepting true }) refl o)
  step-Handles (accepts (ready (err e))) is l ih s o =
      if_both (λ (l' : Listening rt). (listen_run rt is l').handled ≡ l.handled ++ [])
        (rt.stop.is_closed (l.state.stops l.canceled)) _ _
        (listen_run_deaf is (record l { stage = stopped }) tt ∙ sym (append-nil l.handled))
        (listen_run_deaf is (record l { stage = accepting false }) tt ∙ sym (append-nil l.handled))
  step-Handles (accepts (ready (ok (err e)))) is l ih s o =
      ih (record l { stage = accepting true }) refl o
  step-Handles (accepts (ready (ok (ok k)))) is l ih s o =
      ih (record l { stage = accepting true; handled = l.handled ++ k ∷ [] }) refl o
      ∙ append_assoc l.handled (k ∷ []) (streams is)

  -- A listener that is not canceled handles each stream that it accepts, once and in order, up to the
  -- first error of `accept`.
  pub listen_handles :
      (is : List (Input rt)) (l : Listening rt)
      → l.stage ≡ accepting true
      → rt.stop.is_closed (l.state.stops l.canceled) ≡ false
      → (listen_run rt is l).handled ≡ l.handled ++ streams is
  unfolding listen_run
  listen_handles [] l s o = sym (append-nil l.handled)
  listen_handles (i ∷ is) l s o =
      subst (λ x. (listen_run rt is (listen_at rt x i l)).handled ≡ l.handled ++ streams (i ∷ is))
        (sym s) (step-Handles i is l (listen_handles is) s o)
