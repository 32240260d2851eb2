-- ===== src/Session/Turns.antt =====
-- The reader and the writer task of a connection of src/conn_handle.rs, polled in any order: each goes
-- its own way.
use socket_manager.Prelude.{ℕ, ◌≡◌, refl, Bool, List, [], ◌∷◌, ◌++◌, some}
use socket_manager.Std.{Run, done, panics, out_of_fuel, ◌>>=◌}
use socket_manager.Io.{AsyncRead, AsyncWrite}
use socket_manager.OnMsgWrite
use socket_manager.OnMsgWrite.{on_msg_write}
use socket_manager.Ring.{RingBuf}
use socket_manager.Channel.{Mpsc}
use socket_manager.Config.{ConnConfig}
use socket_manager.Writer.{writer_step, writer_run}
use socket_manager.Reader.{reader_step, reader_run}
use socket_manager.ConnState.{Runtime}
use socket_manager.Session.{
  Reads, Session, Act, reader_polls, writer_polls, session_step, session_run,
}

-- A run goes on as another one does.
bind_then :
    {A B C : Type 0} (m : Run A) (f : A → Run C) (g : A → Run B) (h : B → Run C)
    → ((a : A) → f a ≡ (g a >>= h))
    → (m >>= f) ≡ ((m >>= g) >>= h)
bind_then (done a) f g h e = e a
bind_then panics f g h e = refl
bind_then out_of_fuel f g h e = refl

-- A poll of the reader or of the writer, with what its timer says.
pub data Turn : Type 0 where
  reads writes : Bool → Turn

abbrev pub reader_ticks : List Turn → List Bool
reader_ticks [] = []
reader_ticks (reads tick ∷ turns) = tick ∷ reader_ticks turns
reader_ticks (writes tick ∷ turns) = reader_ticks turns

abbrev pub writer_ticks : List Turn → List Bool
writer_ticks [] = []
writer_ticks (reads tick ∷ turns) = writer_ticks turns
writer_ticks (writes tick ∷ turns) = tick ∷ writer_ticks turns

module _ (rt : Runtime) where
  abbrev pub polls_of : List Turn → List (Act rt)
  polls_of [] = []
  polls_of (reads tick ∷ turns) = reader_polls tick ∷ polls_of turns
  polls_of (writes tick ∷ turns) = writer_polls tick ∷ polls_of turns

module _ (rt : Runtime) (rb : RingBuf) (mp : Mpsc ℕ) (aw : AsyncWrite) (ar : AsyncRead)
    (cb : OnMsgWrite.OnMsg) (into : rt.OnMsg → cb.State) where
  abbrev This : Type 0
  This = Session rt rb mp aw ar cb into

  abbrev Reading : Type 0
  Reading = Reads rt rb mp aw ar cb into

  -- What follows the polls of the reader.
  abbrev pub ended : ConnConfig → List Bool → This → Reading → This
  ended c ticks s t = record s { tasks = some (c, t); link = writer_run rb mp aw c ticks s.link }

  after_read :
      (turns : List Turn) (c : ConnConfig) (s : This)
      → ((t' : Reading)
          → session_run rt rb mp aw ar cb into
              (polls_of rt turns)
              (record s { tasks = some (c, t') })
            ≡ (reader_run ar (on_msg_write cb) c (reader_ticks turns) t' >>= λ t''.
                done (ended c (writer_ticks turns) s t'')))
      → (m : Run Reading)
      → ((m >>= λ t'. done (record s { tasks = some (c, t') }))
          >>= session_run rt rb mp aw ar cb into (polls_of rt turns))
        ≡ ((m >>= reader_run ar (on_msg_write cb) c (reader_ticks turns)) >>= λ t'.
            done (ended c (writer_ticks turns) s t'))
  after_read turns c s h (done t') = h t'
  after_read turns c s h panics = refl
  after_read turns c s h out_of_fuel = refl

  -- Polls of both tasks in any order are the polls of the reader, and those of the writer.
  pub polls_of-splits :
      (turns : List Turn) (c : ConnConfig) (t : Reading) (s : This)
      → session_run rt rb mp aw ar cb into (polls_of rt turns) (record s { tasks = some (c, t) })
        ≡ (reader_run ar (on_msg_write cb) c (reader_ticks turns) t >>= λ t'.
            done (ended c (writer_ticks turns) s t'))
  unfolding session_run session_step reader_run writer_run
  polls_of-splits [] c t s = refl
  polls_of-splits (writes tick ∷ turns) c t s =
      polls_of-splits turns c t (record s { link = writer_step rb mp aw c tick s.link })
  polls_of-splits (reads tick ∷ turns) c t s =
      after_read turns c s (λ t'. polls_of-splits turns c t' s)
        (reader_step ar (on_msg_write cb) c tick t)

  pub session_run-append :
      (acts acts' : List (Act rt)) (s : This)
      → session_run rt rb mp aw ar cb into (acts ++ acts') s
        ≡ (session_run rt rb mp aw ar cb into acts s >>= session_run rt rb mp aw ar cb into acts')
  unfolding session_run
  session_run-append [] acts' s = refl
  session_run-append (act ∷ acts) acts' s =
      bind_then (session_step rt rb mp aw ar cb into act s)
        (session_run rt rb mp aw ar cb into (acts ++ acts'))
        (session_run rt rb mp aw ar cb into acts) (session_run rt rb mp aw ar cb into acts')
        (session_run-append acts acts')
