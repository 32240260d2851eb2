-- ===== src/Tests/Rings.antt =====
-- A ring and a channel that can be run: they show that the assumptions of `Ring` and `Channel` can be
-- met.
use socket_manager.Prelude.{
  ℕ, zero, suc, ◌-◌, ◌≤◌, ◌≡◌, ◌≢◌, refl, sym, ap, ◌∙◌, ◌↔◌, ◌⊎◌, Bool, true, false, String, List,
  [], ◌∷◌, ◌++◌, append-nil, Option, none, some, arith, length, take, drop, min, ltb, if◌then◌else◌,
  if_both,
}
use socket_manager.Std.{Byte, Poll, ready, pending, Result, ok, err, IoError, IoResult}
use socket_manager.Ring.{RingBuf}
use socket_manager.Channel.{Mpsc}

pub record TestRing : Type 0 where
  pub content : List Byte
  pub size : ℕ
  pub prod_gone : Bool
  pub cons_gone : Bool

abbrev pub fits : List Byte → TestRing → ℕ
fits bs r = min (length bs) (r.size - length r.content)

abbrev pub put : ℕ → List Byte → TestRing → TestRing
put n bs r = record r { content = r.content ++ take n bs }

abbrev pub enough : ℕ → TestRing → Bool
enough n r = if ltb (length r.content) n then r.prod_gone else true

pub enough_iff :
    (n : ℕ) (r : TestRing) → (enough n r ≡ true) ↔ ((n ≤ length r.content) ⊎ (r.prod_gone ≡ true))
enough_iff n r = (λ h. ground arith, λ h. ground arith)

-- A poll takes what fits. It answers 0 where the consumer is gone, and waits where nothing fits.
abbrev pub test_poll : Bool → ℕ → List Byte → TestRing → Poll (IoResult ℕ) × TestRing
test_poll true n bs r = (ready (ok 0), r)
test_poll false zero bs r = (pending, r)
test_poll false (suc n) bs r = (ready (ok (suc n)), put (suc n) bs r)

pub test_poll_le :
    (b : Bool) (k : ℕ) (bs : List Byte) (r : TestRing) (n : ℕ)
    → k ≤ length bs
    → (test_poll b k bs r).0 ≡ ready (ok n)
    → n ≤ length bs
test_poll_le true k bs r n h p = let e : ◌≡◌ {A = ℕ} 0 n = cc in omega (arith, e)
test_poll_le false zero bs r n h p = cc
test_poll_le false (suc k) bs r n h p = let e : suc k ≡ n = cc in omega (arith, e, h)

pub test_poll_ok :
    (b : Bool) (k : ℕ) (bs : List Byte) (r : TestRing) (n : ℕ)
    → (test_poll b k bs r).0 ≡ ready (ok n)
    → (test_poll b k bs r).1.content ≡ r.content ++ take n bs
test_poll_ok true k bs r n p =
    let e : ◌≡◌ {A = ℕ} 0 n = cc in sym (append-nil r.content) ∙ ap (λ m. r.content ++ take m bs) e
test_poll_ok false zero bs r n p = cc
test_poll_ok false (suc k) bs r n p = let e : suc k ≡ n = cc in ap (λ m. r.content ++ take m bs) e

pub test_poll_err :
    (b : Bool) (k : ℕ) (bs : List Byte) (r : TestRing) (e : IoError)
    → (test_poll b k bs r).0 ≡ ready (err e)
    → (test_poll b k bs r).1.content ≡ r.content
test_poll_err true k bs r e p = refl
test_poll_err false zero bs r e p = refl
test_poll_err false (suc k) bs r e p = cc

pub test_poll_pending :
    (b : Bool) (k : ℕ) (bs : List Byte) (r : TestRing)
    → (test_poll b k bs r).0 ≡ pending
    → (test_poll b k bs r).1.content ≡ r.content
test_poll_pending true k bs r p = refl
test_poll_pending false zero bs r p = refl
test_poll_pending false (suc k) bs r p = cc

pub test_poll_keeps :
    (b : Bool) (k : ℕ) (bs : List Byte) (r : TestRing)
    → ((test_poll b k bs r).1.prod_gone ≡ r.prod_gone)
      × ((test_poll b k bs r).1.cons_gone ≡ r.cons_gone)
      × ((test_poll b k bs r).1.size ≡ r.size)
test_poll_keeps true k bs r = (refl, refl, refl)
test_poll_keeps false zero bs r = (refl, refl, refl)
test_poll_keeps false (suc k) bs r = (refl, refl, refl)

abbrev pub test_ring : RingBuf
test_ring = record {
  Ring = TestRing;
  create = λ n. record { content = []; size = n; prod_gone = false; cons_gone = false };
  push_slice = λ bs r. (fits bs r, put (fits bs r) bs r);
  poll_write = λ bs r. test_poll r.cons_gone (fits bs r) bs r;
  register_waker = λ r. r;
  prod_is_closed = λ r. r.cons_gone;
  drop_prod = λ r. record r { prod_gone = true };
  wait_occupied = enough;
  occupied_len = λ r. length r.content;
  as_slices = λ r. (r.content, []);
  advance_read_index = λ n r. record r { content = drop n r.content };
  cons_is_closed = λ r. r.prod_gone;
  drop_cons = λ r. record r { cons_gone = true };
  items = λ r. r.content;
  capacity = λ r. r.size;
  items-create = λ n. refl;
  capacity-create = λ n. refl;
  create_open = λ n e. cc;
  push_count = λ bs r. refl;
  items-push = λ bs r. refl;
  push_keeps = λ bs r. (refl, refl, refl);
  poll_write_le = λ bs r n p. test_poll_le r.cons_gone (fits bs r) bs r n (omega arith) p;
  poll_write_ok = λ bs r n p. test_poll_ok r.cons_gone (fits bs r) bs r n p;
  poll_write_err = λ bs r e p. test_poll_err r.cons_gone (fits bs r) bs r e p;
  poll_write_pending = λ bs r p. test_poll_pending r.cons_gone (fits bs r) bs r p;
  poll_write_keeps = λ bs r. (test_poll_keeps r.cons_gone (fits bs r) bs r).0;
  register_keeps = λ r. (refl, refl, refl, refl);
  wait_occupied_iff = enough_iff;
  occupied = λ r. refl;
  slices = λ r. append-nil r.content;
  left_empty = λ r e. e;
  items-advance = λ n r. refl;
  advance_keeps = λ n r. refl;
  drop_prod_keeps = λ r. refl;
  drop_prod_closes = λ r. refl;
  drop_cons_keeps = λ r. (refl, refl);
  drop_cons_closes = λ r. refl;
}

pub record TestChan (A : Type 0) : Type 0 where
  pub queue : List A
  pub tx_gone : Bool
  pub rx_gone : Bool

abbrev pub test_send : {A : Type 0} → A → TestChan A → Result (Unit {0}) String × TestChan A
test_send a c =
    if c.rx_gone then (err "channel closed", c) else (ok tt, record c { queue = c.queue ++ a ∷ [] })

abbrev pub first : {A : Type 0} → List A → Bool → Poll (Option A)
first [] true = ready none
first [] false = pending
first (a ∷ q) gone = ready (some a)

abbrev pub rest : {A : Type 0} → List A → List A
rest [] = []
rest (a ∷ q) = q

pub first_item :
    {A : Type 0} (q : List A) (gone : Bool) (a : A) → first q gone ≡ ready (some a) → q ≡ a ∷ rest q
first_item [] true a p = cc
first_item [] false a p = cc
first_item (b ∷ q) gone a p = let e : b ≡ a = cc in ap (λ x. x ∷ q) e

pub first_ended :
    {A : Type 0} (q : List A) (gone : Bool) → first q gone ≡ ready none → (q ≡ []) × (rest q ≡ [])
first_ended [] gone p = (refl, refl)
first_ended (b ∷ q) gone p = cc

pub first_pending :
    {A : Type 0} (q : List A) (gone : Bool) → first q gone ≡ pending → (q ≡ []) × (rest q ≡ [])
first_pending [] gone p = (refl, refl)
first_pending (b ∷ q) gone p = cc

pub first_ends : {A : Type 0} (q : List A) (gone : Bool) → gone ≡ true → first q gone ≢ pending
first_ends [] true h e = cc
first_ends [] false h e = cc
first_ends (a ∷ q) gone h e = cc

pub first_over : {A : Type 0} (q : List A) (gone : Bool) → first q gone ≡ ready none → gone ≡ true
first_over [] true p = refl
first_over [] false p = cc
first_over (b ∷ q) gone p = cc

abbrev pub test_channel : (A : Type 0) → Mpsc A
test_channel A = record {
  Chan = TestChan A;
  unbounded_channel = record { queue = []; tx_gone = false; rx_gone = false };
  send = test_send;
  poll_recv = λ c. (first c.queue c.tx_gone, record c { queue = rest c.queue });
  drop_sender = λ c. record c { tx_gone = true };
  drop_receiver = λ c. record c { queue = []; rx_gone = true };
  queued = λ c. c.queue;
  receiver_gone = λ c. c.rx_gone;
  sender_gone = λ c. c.tx_gone;
  queued-new = refl;
  new_open = refl;
  send_ok = λ a c h. rw h (refl, refl, refl);
  send_refused = λ a c h. rw h (("channel closed", refl), refl, refl);
  recv_some = λ c a p. first_item c.queue c.tx_gone a p;
  recv_none = λ c p. first_ended c.queue c.tx_gone p;
  recv_pending = λ c p. first_pending c.queue c.tx_gone p;
  recv_keeps = λ c. refl;
  drop_sender_keeps = λ c. (refl, refl);
  drop_receiver_closes = λ c. (refl, refl);
  drop_sender_closes = λ c. refl;
  recv_sender = λ c. refl;
  recv_ends = λ c h. first_ends c.queue c.tx_gone h;
  new_sender = refl;
  send_sender = λ a c.
      if_both (λ (out : Result (Unit {0}) String × TestChan A). out.1.tx_gone ≡ c.tx_gone) c.rx_gone
        _ _ refl refl;
  recv_over = λ c p. first_over c.queue c.tx_gone p;
}

abbrev pub test_mpsc : Mpsc ℕ
test_mpsc = test_channel ℕ
