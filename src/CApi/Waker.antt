-- ===== src/CApi/Waker.antt =====
-- src/c_api/async_ffi: Rust wakers in the hands of C (waker.rs), and a C object as a Rust waker
-- (notifier.rs). A `*const ()` is a number. The behaviour of a waker is that of the functions of its table.
pub mod Uses
use socket_manager.Prelude.{ℕ, List, [], ◌∷◌, ◌++◌}

-- `std::task::RawWaker`; `vtable` is the pointer to the table.
pub record RawWaker : Type 0 where
  pub dat : ℕ
  pub vtable : ℕ

-- `std::task::RawWakerVTable`, over the state `W` that the functions change.
pub record RawWakerVTable (W : Type 0) : Type 0 where
  pub clone : ℕ → RawWaker
  pub wake : ℕ → W → W
  pub wake_by_ref : ℕ → W → W
  pub drop : ℕ → W → W

pub record CWaker : Type 0 where
  pub dat : ℕ
  pub vtable : ℕ

-- `CWaker::from_waker`; the waker is forgotten, its `drop` does not run.
unfoldable pub from_waker : RawWaker → CWaker
from_waker waker = record { dat = waker.dat; vtable = waker.vtable }

-- `RawWaker::new(self.dat, self.vtable)`
unfoldable pub into_waker : CWaker → RawWaker
into_waker c = record { dat = c.dat; vtable = c.vtable }

-- `tables` are the tables behind their pointers.
module _ {W : Type 0} (tables : ℕ → RawWakerVTable W) where
  -- What `std::task::Waker` does with its table.
  abbrev pub waker_clone : RawWaker → RawWaker
  waker_clone w = (tables w.vtable).clone w.dat

  abbrev pub waker_wake : RawWaker → W → W
  waker_wake w = (tables w.vtable).wake w.dat

  abbrev pub waker_wake_by_ref : RawWaker → W → W
  waker_wake_by_ref w = (tables w.vtable).wake_by_ref w.dat

  abbrev pub waker_drop : RawWaker → W → W
  waker_drop w = (tables w.vtable).drop w.dat

  -- `CWaker::wake_by_ref`; the waker that is made for the call is forgotten.
  abbrev pub wake_by_ref : CWaker → W → W
  wake_by_ref c = waker_wake_by_ref (into_waker c)

  unfoldable pub socket_manager_waker_wake : CWaker → W → W
  socket_manager_waker_wake waker s = wake_by_ref waker s

  unfoldable pub socket_manager_waker_free : CWaker → W → W
  socket_manager_waker_free waker s = waker_drop (into_waker waker) s

pub record Notifier : Type 0 where
  pub this : ℕ

-- `make_vtable`: `notifier_wake` is `socket_manager_extern_notifier_wake`, which the C side provides, and
-- `own_vtable` the pointer to this table.
unfoldable pub make_vtable : {W : Type 0} → (Notifier → W → W) → ℕ → RawWakerVTable W
make_vtable notifier_wake own_vtable = record {
  clone = λ dat. record { dat = dat; vtable = own_vtable };
  wake = λ dat. notifier_wake (record { this = dat });
  wake_by_ref = λ dat. notifier_wake (record { this = dat });
  drop = λ dat s. s;
}

unfoldable pub to_waker : ℕ → Notifier → RawWaker
to_waker own_vtable n = record { dat = n.this; vtable = own_vtable }
