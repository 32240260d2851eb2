-- ===== src/Session/Start.antt =====
-- The start of a connection of src/conn_handle.rs: what the user gives to `start_connection` of
-- src/conn.rs is what its reader and its writer run with.
use socket_manager.Prelude.{
  ℕ, ◌≡◌, refl, sym, ap, subst, ◌∙◌, Bool, true, false, List, [], ◌∷◌, ◌++◌, some,
}
use socket_manager.Std.{ready, ok, done, ◌>>=◌, Ends, >>=-Ends}
use socket_manager.Io.{AsyncRead, AsyncWrite}
use socket_manager.OnMsgWrite
use socket_manager.OnMsgWrite.{on_msg_write}
use socket_manager.Ring.{RingBuf}
use socket_manager.Channel.{Mpsc}
use socket_manager.Config.{ConnConfig}
use socket_manager.BufReadWrite.{fresh}
use socket_manager.Link.{make_sender}
use socket_manager.Reader.{filling, handle_reader}
use socket_manager.Reader.Delivery.{handle_reader-start}
use socket_manager.ConnState.{Runtime, on_connect, ConnectionState}
use socket_manager.Conn.{taken, start_connection}
use socket_manager.Conn.Calls.{starts}
use socket_manager.JoinTasks.{joining}
use socket_manager.ConnHandle.{
  waiting, in_join, tell, started, start_tasks, Action, handle_connection, conn_step, poll_at,
  answer_at,
}
use socket_manager.Session.{
  Reads, Session, session_new, Act, task_polls, answers, calls, conn_at, spawn_tasks, session_step,
  session_run,
}
use socket_manager.Session.Turns.{session_run-append}

module _ (rt : Runtime) (rb : RingBuf) (mp : Mpsc ℕ) (aw : AsyncWrite) (ar : AsyncRead)
    (cb : OnMsgWrite.OnMsg) (into : rt.OnMsg → cb.State) where
  open rt use {SocketAddr, OnMsg}

  abbrev This : Type 0
  This = Session rt rb mp aw ar cb into

  -- The user starts the connection in its callback, or after it has returned.
  abbrev pub first_acts : Bool → OnMsg → ConnConfig → List (Act rt)
  first_acts true f config = task_polls ∷ calls (starts f config) ∷ answers (ok tt) ∷ []
  first_acts false f config = task_polls ∷ answers (ok tt) ∷ calls (starts f config) ∷ []

  -- Both tasks run, with what was given.
  pub record IsStarted (k : SocketAddr × SocketAddr) (f : OnMsg) (config : ConnConfig)
      (write : aw.Writer) (read : ar.Reader) (s : This) : Type 0 where
    pub at_join : s.conn.stage ≡ in_join
    pub runs : s.conn.join ≡ joining rt (on_connect k.0 k.1 ∷ [])
    pub sends_to : s.link ≡ make_sender rb mp aw write
    pub can_send : s.is_sending ≡ true
    pub task : Reads rt rb mp aw ar cb into
    pub has_task : s.tasks ≡ some (config, task)
    pub about_to_read : task.stage ≡ filling fresh
    pub reads_from : task.read_write.reader ≡ read
    pub hands_to : task.read_write.writer ≡ into f
    pub registered : rt.connections.find k s.conn.held.state.connections ≡ some s.conn.stop

  -- The reader task as it is spawned.
  abbrev Spawned : OnMsg → ar.Reader → Reads rt rb mp aw ar cb into → Type 0
  Spawned f read t =
      (t.stage ≡ filling fresh) × (t.read_write.reader ≡ read) × (t.read_write.writer ≡ into f)

  -- The reader task is spawned; and then the stopper is registered.
  abbrev HasTask : This → OnMsg → ConnConfig → This → Type 0
  HasTask s f config s' =
      (t : Reads rt rb mp aw ar cb into) × Spawned f s.read t
      × (s' ≡ record s { tasks = some (config, t) })

  abbrev StartsFrom : This → OnMsg → ConnConfig → This → Type 0
  StartsFrom s f config s' =
      (t : Reads rt rb mp aw ar cb into) × Spawned f s.read t
      × (s' ≡ record s {
        conn = start_tasks rt (record s.conn {
          held = record s.conn.held { config = (rt.config.poll_recv s.conn.held.config).1 };
        });
        tasks = some (config, t);
      })

  -- The poll that receives the start signal spawns both tasks.
  task_starts :
      (s : This) (f : OnMsg) (config : ConnConfig)
      → s.conn.stage ≡ waiting
      → (rt.config.poll_recv s.conn.held.config).0 ≡ ready (ok (f, config))
      → Ends (StartsFrom s f config) (session_step rt rb mp aw ar cb into task_polls s)
  unfolding session_step spawn_tasks conn_step poll_at
  task_starts s f config e p =
      let ch = (rt.config.poll_recv s.conn.held.config).1 in
      let next : poll_at rt s.conn.stage s.conn
          ≡ start_tasks rt (record s.conn { held = record s.conn.held { config = ch } }) =
        ap (λ st. poll_at rt st s.conn) e ∙ ap (λ q. started rt q ch s.conn) p in
      >>=-Ends (HasTask s f config) _
        (spawn_tasks rt rb mp aw ar cb into s.conn.stage (rt.config.poll_recv s.conn.held.config).0
          s)
        (conn_at rt rb mp aw ar cb into Action.polls)
        (subst
          (λ st.
            Ends (HasTask s f config)
              (spawn_tasks rt rb mp aw ar cb into st (rt.config.poll_recv s.conn.held.config).0 s))
          (sym e)
          (subst (λ q. Ends (HasTask s f config) (spawn_tasks rt rb mp aw ar cb into waiting q s))
            (sym p)
            (>>=-Ends (Spawned f s.read) (HasTask s f config)
              (handle_reader ar (on_msg_write cb) config s.read (into f)) _
              (handle_reader-start ar (on_msg_write cb) config s.read (into f))
              (λ t h. (t, h, refl)))))
        (λ s' h.
          subst (λ x. Ends (StartsFrom s f config) (conn_at rt rb mp aw ar cb into Action.polls x))
            (sym h.2) (h.0, h.1, ap (λ c. record s { conn = c; tasks = some (config, h.0) }) next))

  module _ (f : OnMsg) (config : ConnConfig) (local_addr peer_addr : SocketAddr)
      (state : ConnectionState rt) (write : aw.Writer) (read : ar.Reader) where
    abbrev opened : This
    opened = session_new rt rb mp aw ar cb into local_addr peer_addr state write read

    -- The start signal is given.
    begun : This
    unfolding session_new handle_connection
    begun = record opened {
      conn = record (tell rt (on_connect local_addr peer_addr) opened.conn) {
        stage = waiting;
        held = record (taken rt opened.conn.held) {
          config = (rt.config.send (f, config) rt.config.channel).1;
        };
      };
    }

    first_acts-begun :
        (in_callback : Bool)
        → session_run rt rb mp aw ar cb into (first_acts in_callback f config) opened ≡ done begun
    unfolding session_run session_step session_new handle_connection conn_step poll_at answer_at
        start_connection spawn_tasks begun
    first_acts-begun true =
        rw ((rt.config.send_ok (f, config) rt.config.channel rt.config.channel_empty.0).0) refl
    first_acts-begun false =
        rw ((rt.config.send_ok (f, config) rt.config.channel rt.config.channel_empty.0).0) refl

    begun-IsStarted :
        (s' : This)
        → StartsFrom begun f config s'
        → IsStarted (local_addr, peer_addr) f config write read s'
    unfolding begun session_new handle_connection
    begun-IsStarted s' (t, h, e) =
        subst (IsStarted (local_addr, peer_addr) f config write read) (sym e) (record {
          at_join = refl;
          runs = refl;
          sends_to = refl;
          can_send = refl;
          task = t;
          has_task = refl;
          about_to_read = h.0;
          reads_from = h.1;
          hands_to = h.2;
          registered =
              rt.connections.find-insert (local_addr, peer_addr) state.count state.connections;
        })

    begun-polls :
        Ends
          (IsStarted (local_addr, peer_addr) f config write read)
          (session_run rt rb mp aw ar cb into (task_polls ∷ []) begun)
    unfolding session_run begun session_new handle_connection
    begun-polls =
        >>=-Ends (StartsFrom begun f config) _
          (session_step rt rb mp aw ar cb into task_polls begun) _
          (task_starts begun f config refl (
            rt.config.recv_first (f, config) rt.config.channel rt.config.channel_empty.0
              rt.config.channel_empty.1))
          begun-IsStarted

    -- The user starts a new connection, in the callback or once it has returned with success. When the
    -- connection's task is polled next, nothing panics; it waits for both tasks, with its stopper
    -- registered under its addresses, and the user was sent `OnConnect` alone. The reader is about to
    -- read the socket, with the user's callback; it and the writer have the user's configuration,
    -- and the sender is as it was made.
    pub session_starts :
        (in_callback : Bool)
        → Ends (IsStarted (local_addr, peer_addr) f config write read) (
            session_run rt rb mp aw ar cb into
              (first_acts in_callback f config ++ task_polls ∷ [])
              opened)
    session_starts in_callback =
        subst (Ends (IsStarted (local_addr, peer_addr) f config write read))
          (sym (
            session_run-append rt rb mp aw ar cb into (first_acts in_callback f config)
              (task_polls ∷ []) opened
            ∙ ap (λ m. m >>= session_run rt rb mp aw ar cb into (task_polls ∷ []))
                (first_acts-begun in_callback)))
          begun-polls
