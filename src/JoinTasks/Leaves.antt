-- ===== src/JoinTasks/Leaves.antt =====
-- What `join_reader_writer` leaves behind when its loop ends, and that it ends.
use socket_manager.Prelude.{
  ◌≡◌, refl, sym, ap, append-nil, ◌≢◌, ◌⊎◌, inl, inr, Bool, true, false, List, [], ◌∷◌, ◌++◌, arith,
  Bool-cases, if_both, if_cases,
}
use socket_manager.Std.{ok, err}
use socket_manager.ConnState.{Runtime, ConnState, on_remote_close}
use socket_manager.JoinTasks.{
  Task, absent, running, ended, aborting, abort, Joined, Branch, stop_closed, writer_joined,
  reader_joined, Join, joining, on_stop, on_writer, on_reader, is_enabled, select_round,
  join_reader_writer,
}

module _ (rt : Runtime) where
  open rt use {SocketAddr}

  abbrev pub told_once : SocketAddr × SocketAddr → Bool → List (ConnState SocketAddr)
  told_once (local_addr, peer_addr) true = on_remote_close local_addr peer_addr ∷ []
  told_once k false = []

  -- Before its end the loop waits for a task that has not ended; behind it no task runs. The user
  -- was told of the remote's close exactly if the reader has stopped.
  pub record IsSound (k : SocketAddr × SocketAddr) (before : List (ConnState SocketAddr))
      (j : Join rt) : Type 0 where
    pub writer_ended : j.writer_stopped ≡ true → j.writer ≡ ended
    pub reader_ended : j.reader_stopped ≡ true → j.reader ≡ ended
    pub waits : (j.finished ≡ true) ⊎ ((j.writer_stopped ≡ false) ⊎ (j.reader_stopped ≡ false))
    pub leaves_none : j.finished ≡ true → (j.writer ≢ running) × (j.reader ≢ running)
    pub told : j.events ≡ before ++ told_once k j.reader_stopped

  abort-ne : (t : Task) → abort t ≢ running
  abort-ne absent e = cc
  abort-ne running e = cc
  abort-ne ended e = cc
  abort-ne aborting e = cc

  abort-ended : (t : Task) → t ≡ ended → abort t ≡ ended
  abort-ended absent e = cc
  abort-ended running e = cc
  abort-ended ended e = refl
  abort-ended aborting e = cc

  pub joining-IsSound :
      (k : SocketAddr × SocketAddr) (before : List (ConnState SocketAddr))
      → IsSound k before (joining rt before)
  joining-IsSound k before = record {
    writer_ended = λ e. cc;
    reader_ended = λ e. cc;
    waits = inr (inl refl);
    leaves_none = λ e. cc;
    told = sym (append-nil before);
  }

  on_stop-IsSound :
      (k : SocketAddr × SocketAddr) (before : List (ConnState SocketAddr)) (j : Join rt)
      → IsSound k before j
      → IsSound k before (on_stop rt j)
  on_stop-IsSound k before j s = record {
    writer_ended = λ e. abort-ended j.writer (s.writer_ended e);
    reader_ended = λ e. abort-ended j.reader (s.reader_ended e);
    waits = inl refl;
    leaves_none = λ e. (abort-ne j.writer, abort-ne j.reader);
    told = s.told;
  }

  on_writer_fails :
      (k : SocketAddr × SocketAddr) (before : List (ConnState SocketAddr)) (j : Join rt)
      → IsSound k before j
      → IsSound k before (record j { writer = ended; reader = abort j.reader; finished = true })
  on_writer_fails k before j s = record {
    writer_ended = λ e. refl;
    reader_ended = λ e. abort-ended j.reader (s.reader_ended e);
    waits = inl refl;
    leaves_none = λ e. (λ e'. cc, abort-ne j.reader);
    told = s.told;
  }

  on_reader_fails :
      (k : SocketAddr × SocketAddr) (before : List (ConnState SocketAddr)) (j : Join rt)
      → IsSound k before j
      → IsSound k before (record j { reader = ended; writer = abort j.writer; finished = true })
  on_reader_fails k before j s = record {
    writer_ended = λ e. abort-ended j.writer (s.writer_ended e);
    reader_ended = λ e. refl;
    waits = inl refl;
    leaves_none = λ e. (abort-ne j.writer, λ e'. cc);
    told = s.told;
  }

  on_writer-IsSound :
      (k : SocketAddr × SocketAddr) (before : List (ConnState SocketAddr)) (r : Joined rt)
      (j : Join rt)
      → IsSound k before j
      → IsSound k before (on_writer rt r j)
  unfolding on_writer
  on_writer-IsSound k before (ok (ok u)) j s = record {
    writer_ended = λ e. refl;
    reader_ended = s.reader_ended;
    waits = elim (Bool-cases j.reader_stopped) [ inl e ↦ inl e | inr e ↦ inr (inr e) ];
    leaves_none = λ e. (λ e'. cc, λ e'. let r = s.reader_ended e in cc);
    told = s.told;
  }
  on_writer-IsSound k before (ok (err e)) j s = on_writer_fails k before j s
  on_writer-IsSound k before (err e) j s = on_writer_fails k before j s

  on_reader-IsSound :
      (k : SocketAddr × SocketAddr) (before : List (ConnState SocketAddr)) (r : Joined rt)
      (j : Join rt)
      → j.reader_stopped ≡ false
      → IsSound k before j
      → IsSound k before (on_reader rt k r j)
  unfolding on_reader
  on_reader-IsSound (a, b) before (ok (ok u)) j n s = record {
    writer_ended = s.writer_ended;
    reader_ended = λ e. refl;
    waits = elim (Bool-cases j.writer_stopped) [ inl e ↦ inl e | inr e ↦ inr (inl e) ];
    leaves_none = λ e. (λ e'. let w = s.writer_ended e in cc, λ e'. cc);
    told = rw (s.told, n) (ap (λ x. x ++ on_remote_close a b ∷ []) (append-nil before));
  }
  on_reader-IsSound (a, b) before (ok (err e)) j n s = on_reader_fails (a, b) before j s
  on_reader-IsSound (a, b) before (err e) j n s = on_reader_fails (a, b) before j s

  pub select_round-IsSound :
      (k : SocketAddr × SocketAddr) (before : List (ConnState SocketAddr)) (b : Branch rt)
      (j : Join rt)
      → IsSound k before j
      → IsSound k before (select_round rt k b j)
  unfolding select_round
  select_round-IsSound k before stop_closed j s = on_stop-IsSound k before j s
  select_round-IsSound k before (writer_joined r) j s =
      if_both (IsSound k before) (is_enabled rt (writer_joined r) j) _ _
        (on_writer-IsSound k before r j s) s
  select_round-IsSound k before (reader_joined r) j s =
      if_cases (IsSound k before) (is_enabled rt (reader_joined r) j) _ _
        (λ e. on_reader-IsSound k before r j (ground arith) s) (λ _. s)

  join_reader_writer-IsSound :
      (k : SocketAddr × SocketAddr) (before : List (ConnState SocketAddr)) (bs : List (Branch rt))
      (j : Join rt)
      → IsSound k before j
      → IsSound k before (join_reader_writer rt k bs j)
  unfolding join_reader_writer
  join_reader_writer-IsSound k before [] j s = s
  join_reader_writer-IsSound k before (b ∷ bs) j s = if_both (IsSound k before) j.finished _ _ s (
      join_reader_writer-IsSound k before bs (select_round rt k b j)
        (select_round-IsSound k before b j s))

  -- Whatever branches become ready in whatever order: behind the loop neither the reader nor the writer
  -- task is left running, and `OnRemoteClose` was sent once if the reader has stopped with
  -- success, else not at all.
  pub join_leaves_none :
      (k : SocketAddr × SocketAddr) (before : List (ConnState SocketAddr)) (bs : List (Branch rt))
      → (join_reader_writer rt k bs (joining rt before)).finished ≡ true
      → ((join_reader_writer rt k bs (joining rt before)).writer ≢ running)
        × ((join_reader_writer rt k bs (joining rt before)).reader ≢ running)
        × ((join_reader_writer rt k bs (joining rt before)).events
            ≡ before ++ told_once k (join_reader_writer rt k bs (joining rt before)).reader_stopped)
  join_leaves_none k before bs e =
      let h =
        join_reader_writer-IsSound k before bs (joining rt before) (joining-IsSound k before) in
      ((h.leaves_none e).0, (h.leaves_none e).1, h.told)

  finished_stays :
      (k : SocketAddr × SocketAddr) (bs : List (Branch rt)) (j : Join rt)
      → j.finished ≡ true
      → (join_reader_writer rt k bs j).finished ≡ true
  unfolding join_reader_writer
  finished_stays k [] j e = e
  finished_stays k (b ∷ bs) j e =
      if_cases (λ (j' : Join rt). j'.finished ≡ true) j.finished _ _ (λ _. e) (λ n. cc)

  second_round :
      (k : SocketAddr × SocketAddr) (before : List (ConnState SocketAddr)) (b b' : Branch rt)
      → is_enabled rt b' (select_round rt k b (joining rt before)) ≡ true
      → (select_round rt k b (joining rt before)).finished ≡ false
      → (select_round rt k b' (select_round rt k b (joining rt before))).finished ≡ true
  unfolding select_round on_writer on_reader
  second_round k before stop_closed b' e n = cc
  second_round k before (writer_joined (err x)) b' e n = cc
  second_round k before (writer_joined (ok (err x))) b' e n = cc
  second_round k before (reader_joined (err x)) b' e n = cc
  second_round k before (reader_joined (ok (err x))) b' e n = cc
  second_round k before (writer_joined (ok (ok u))) stop_closed e n = refl
  second_round k before (writer_joined (ok (ok u))) (writer_joined r) e n = cc
  second_round k before (writer_joined (ok (ok u))) (reader_joined (ok (ok v))) e n = refl
  second_round k before (writer_joined (ok (ok u))) (reader_joined (ok (err x))) e n = refl
  second_round k before (writer_joined (ok (ok u))) (reader_joined (err x)) e n = refl
  second_round k before (reader_joined (ok (ok u))) stop_closed e n = refl
  second_round k before (reader_joined (ok (ok u))) (reader_joined r) e n = cc
  second_round k before (reader_joined (ok (ok u))) (writer_joined (ok (ok v))) e n = refl
  second_round k before (reader_joined (ok (ok u))) (writer_joined (ok (err x))) e n = refl
  second_round k before (reader_joined (ok (ok u))) (writer_joined (err x)) e n = refl

  -- The loop is left after two rounds at most: whichever branch is taken first, and whichever of
  -- those that are still enabled is taken next.
  pub join_reader_writer_ends :
      (k : SocketAddr × SocketAddr) (before : List (ConnState SocketAddr)) (b b' : Branch rt)
      (bs : List (Branch rt))
      → is_enabled rt b' (select_round rt k b (joining rt before)) ≡ true
      → (join_reader_writer rt k (b ∷ b' ∷ bs) (joining rt before)).finished ≡ true
  unfolding join_reader_writer
  join_reader_writer_ends k before b b' bs e =
      let j = select_round rt k b (joining rt before) in
      if_cases (λ (j' : Join rt). j'.finished ≡ true) j.finished j
        (join_reader_writer rt k bs (select_round rt k b' j)) (λ f. f)
        (λ n. finished_stays k bs (select_round rt k b' j) (second_round k before b b' e n))
