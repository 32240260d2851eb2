-- ===== src/CApi/Waker/Uses.antt =====
-- What becomes of wakes and of references across the boundary.
use socket_manager.Prelude.{zero, ◌-◌, arith, subst, ℕ, suc, ◌+◌, ◌≡◌, refl, sym, ap, ◌∙◌}
use socket_manager.CApi.Waker.{
  RawWaker, RawWakerVTable, CWaker, from_waker, into_waker, socket_manager_waker_wake,
  socket_manager_waker_free, Notifier, make_vtable, to_waker, waker_clone, waker_wake,
  waker_wake_by_ref, waker_drop,
}

-- C wakes `n` times, and then releases the waker.
abbrev pub c_wakes : {W : Type 0} → (ℕ → RawWakerVTable W) → ℕ → CWaker → W → W
c_wakes tables zero c s = s
c_wakes tables (suc n) c s = c_wakes tables n c (socket_manager_waker_wake tables c s)

-- What the functions of a waker's table count: the references to the task, and its wakes.
pub record Counts {W : Type 0} (tables : ℕ → RawWakerVTable W) (w : RawWaker) : Type 0 where
  pub refs : W → ℕ
  pub wakes : W → ℕ
  pub wake_refs : (s : W) → refs (waker_wake_by_ref tables w s) ≡ refs s
  pub wake_wakes : (s : W) → wakes (waker_wake_by_ref tables w s) ≡ wakes s + 1
  pub drop_refs : (s : W) → refs (waker_drop tables w s) ≡ refs s - 1
  pub drop_wakes : (s : W) → wakes (waker_drop tables w s) ≡ wakes s

c_wakes-Counts :
    {W : Type 0} (tables : ℕ → RawWakerVTable W) (w : RawWaker) (k : Counts tables w) (n : ℕ)
    (s : W)
    → (k.refs (c_wakes tables n (from_waker w) s) ≡ k.refs s)
      × (k.wakes (c_wakes tables n (from_waker w) s) ≡ k.wakes s + n)
unfolding from_waker into_waker socket_manager_waker_wake
c_wakes-Counts tables w k zero s = (refl, omega arith)
c_wakes-Counts tables w k (suc n) s =
    let h = c_wakes-Counts tables w k n (waker_wake_by_ref tables w s) in
    (h.0 ∙ k.wake_refs s, omega (arith, h.1, k.wake_wakes s))

-- Where C wakes `n` times and then releases the waker that it was handed, the task of just that Rust waker is
-- woken `n` times, and the one reference to it that the waker stood for is given back.
pub waker_is_lent :
    {W : Type 0} (tables : ℕ → RawWakerVTable W) (w : RawWaker) (k : Counts tables w) (n : ℕ)
    (s : W)
    → (k.refs (socket_manager_waker_free tables (from_waker w) (c_wakes tables n (from_waker w) s))
        ≡ k.refs s - 1)
      × (k.wakes
            (socket_manager_waker_free tables (from_waker w) (c_wakes tables n (from_waker w) s))
          ≡ k.wakes s + n)
unfolding from_waker into_waker socket_manager_waker_free
waker_is_lent tables w k n s =
    let s' = c_wakes tables n (from_waker w) s in
    let h = c_wakes-Counts tables w k n s in
    (omega (arith, k.drop_refs s', h.0), k.drop_wakes s' ∙ h.1)

-- The wakers that Rust can have of a notifier: the first one, and clones.
pub data Reaches {W : Type 0} (tables : ℕ → RawWakerVTable W) (own_vtable : ℕ) (n : Notifier)
    : RawWaker → Type 0 where
  first : Reaches tables own_vtable n (to_waker own_vtable n)
  cloned :
      {w : RawWaker}
      → Reaches tables own_vtable n w
      → Reaches tables own_vtable n (waker_clone tables w)

Reaches-same :
    {W : Type 0} (notifier_wake : Notifier → W → W) (tables : ℕ → RawWakerVTable W) (own_vtable : ℕ)
    (n : Notifier) {w : RawWaker}
    → tables own_vtable ≡ make_vtable notifier_wake own_vtable
    → Reaches tables own_vtable n w
    → w ≡ to_waker own_vtable n
unfolding make_vtable to_waker
Reaches-same f tables own n e first = refl
Reaches-same f tables own n e (cloned r) =
    ap (waker_clone tables) (Reaches-same f tables own n e r)
    ∙ ap (λ (t : RawWakerVTable _). t.clone n.this) e

-- The waker wakes the notifier, consumed or not, and to drop it changes nothing.
abbrev pub Wakes :
    {W : Type 0} → (Notifier → W → W) → (ℕ → RawWakerVTable W) → Notifier → RawWaker → W → Type 0
Wakes notifier_wake tables n w s =
    (waker_wake tables w s ≡ notifier_wake n s)
    × (waker_wake_by_ref tables w s ≡ notifier_wake n s)
    × (waker_drop tables w s ≡ s)

-- A waker of a notifier and every clone of it, of a clone, and so on, wakes that notifier, whether it is consumed
-- by the wake or not, and to drop one changes nothing.
pub to_waker-Wakes :
    {W : Type 0} (notifier_wake : Notifier → W → W) (tables : ℕ → RawWakerVTable W) (own_vtable : ℕ)
    (n : Notifier) (w : RawWaker) (s : W)
    → tables own_vtable ≡ make_vtable notifier_wake own_vtable
    → Reaches tables own_vtable n w
    → Wakes notifier_wake tables n w s
unfolding make_vtable to_waker
to_waker-Wakes f tables own n w s e r =
    subst (λ v. Wakes f tables n v s) (sym (Reaches-same f tables own n e r))
      (
        ap (λ (t : RawWakerVTable _). t.wake n.this s) e,
        ap (λ (t : RawWakerVTable _). t.wake_by_ref n.this s) e,
        ap (λ (t : RawWakerVTable _). t.drop n.this s) e,
      )
