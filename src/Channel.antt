-- ===== src/Channel.antt =====
-- The unbounded channel `tokio::sync::mpsc` with one receiver, a parameter of the program as the
-- rings are: the calls, the messages that wait in it, and its documented behaviour.
use socket_manager.Prelude.{
  ◌≡◌, ◌≢◌, Bool, true, false, String, List, [], ◌∷◌, ◌++◌, Option, none, some,
}
use socket_manager.Std.{Poll, ready, pending, Result, ok, err}

pub record Mpsc (A : Type 0) : Type 1 where
  pub Chan : Type 0
  pub unbounded_channel : Chan
  -- A refused message comes back as an error, here as the error's text.
  pub send : A → Chan → Result (Unit {0}) String × Chan
  pub poll_recv : Chan → Poll (Option A) × Chan
  pub drop_sender : Chan → Chan
  pub drop_receiver : Chan → Chan
  pub queued : Chan → List A
  pub receiver_gone : Chan → Bool
  pub sender_gone : Chan → Bool
  -- A new channel is empty and has its receiver.
  pub queued-new : queued unbounded_channel ≡ []
  pub new_open : receiver_gone unbounded_channel ≡ false
  -- A message is put last, or refused where the receiver is gone.
  pub send_ok :
      (a : A) (c : Chan)
      → receiver_gone c ≡ false
      → ((send a c).0 ≡ ok tt)
        × (queued (send a c).1 ≡ queued c ++ a ∷ [])
        × (receiver_gone (send a c).1 ≡ false)
  pub send_refused :
      (a : A) (c : Chan)
      → receiver_gone c ≡ true
      → ((e : String) × ((send a c).0 ≡ err e))
        × (queued (send a c).1 ≡ queued c)
        × (receiver_gone (send a c).1 ≡ true)
  -- The first message is received first; there is none for ever only when none waits.
  pub recv_some :
      (c : Chan) (a : A) → (poll_recv c).0 ≡ ready (some a) → queued c ≡ a ∷ queued (poll_recv c).1
  pub recv_none :
      (c : Chan) → (poll_recv c).0 ≡ ready none → (queued c ≡ []) × (queued (poll_recv c).1 ≡ [])
  pub recv_pending :
      (c : Chan) → (poll_recv c).0 ≡ pending → (queued c ≡ []) × (queued (poll_recv c).1 ≡ [])
  pub recv_keeps : (c : Chan) → receiver_gone (poll_recv c).1 ≡ receiver_gone c
  -- With the senders gone the messages stay; with the receiver gone they are dropped.
  pub drop_sender_keeps :
      (c : Chan)
      → (queued (drop_sender c) ≡ queued c) × (receiver_gone (drop_sender c) ≡ receiver_gone c)
  pub drop_receiver_closes :
      (c : Chan) → (queued (drop_receiver c) ≡ []) × (receiver_gone (drop_receiver c) ≡ true)
  -- With the senders gone the receiver waits no more.
  pub drop_sender_closes : (c : Chan) → sender_gone (drop_sender c) ≡ true
  pub recv_sender : (c : Chan) → sender_gone (poll_recv c).1 ≡ sender_gone c
  pub recv_ends : (c : Chan) → sender_gone c ≡ true → (poll_recv c).0 ≢ pending
  -- There is a sender from the start on, a message changes nothing in that, and while there is one
  -- the receiver is not told that all is over.
  pub new_sender : sender_gone unbounded_channel ≡ false
  pub send_sender : (a : A) (c : Chan) → sender_gone (send a c).1 ≡ sender_gone c
  pub recv_over : (c : Chan) → (poll_recv c).0 ≡ ready none → sender_gone c ≡ true
