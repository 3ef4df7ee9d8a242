-- ===== src/Server/System/Events.antt =====
-- The process as the event loop drives it: a read is called back for a descriptor that is registered,
-- with the client data it was registered with.
pub mod Kept
pub mod Served
pub mod Driven
pub mod Stranded
use logcabin_redis_proxy.Base.{
  ℕ, ◌≡◌, ◌≢◌, List, ◌∷◌, ◌++◌, Bool, true, false, Option, none, some, get_elem?,
}
use logcabin_redis_proxy.Resp.Decoder.{DecodeContext}
use logcabin_redis_proxy.Server.State.{EventLoop, Environment, Task, Reply, Server, Ran, running}
use logcabin_redis_proxy.Server.System.{IsFree}
use logcabin_redis_proxy.Server.Workers.{
  ReadResult, processer_worker, sender_worker, read_from_client, accept_tcp_handler,
}
use logcabin_redis_proxy.Session.Manager.Holders.{Holds}

-- What `aeCreateFileEvent` and `aeDeleteFileEvent` promise of `registered`, the client data of a
-- descriptor's event for reading.
pub record Registers (ev : EventLoop) (registered : ev.Loop → ℕ → Option ℕ) : Type 0 where
  pub created :
      (l : ev.Loop) (fd data_ptr : ℕ)
      → (ev.create_file_event l fd data_ptr).0 ≡ true
      → registered (ev.create_file_event l fd data_ptr).1 fd ≡ some data_ptr
  pub refused :
      (l : ev.Loop) (fd data_ptr : ℕ)
      → (ev.create_file_event l fd data_ptr).0 ≡ false
      → registered (ev.create_file_event l fd data_ptr).1 fd ≡ registered l fd
  pub create_other :
      (l : ev.Loop) (fd data_ptr k : ℕ)
      → fd ≢ k
      → registered (ev.create_file_event l fd data_ptr).1 k ≡ registered l k
  pub deleted : (l : ev.Loop) (fd : ℕ) → registered (ev.delete_file_event l fd) fd ≡ none
  pub delete_other :
      (l : ev.Loop) (fd k : ℕ) → fd ≢ k → registered (ev.delete_file_event l fd) k ≡ registered l k

module _ (env : Environment) (registered : env.event_loop.Loop → ℕ → Option ℕ) where
  -- One step. Reads are called back for what is registered.
  pub data Event : Server env → Ran env → Type 0 where
    accepts :
        {s : Server env} (client_fd memory : ℕ)
        → IsFree client_fd s.manager
        → Event s (accept_tcp_handler env (some client_fd) memory s)
    reads :
        {s : Server env} (fd data_ptr : ℕ) (r : ReadResult)
        → registered s.loop fd ≡ some data_ptr
        → Event s (read_from_client env fd data_ptr r s)
    processes :
        {s : Server env} (t : Task) (before behind : List Task)
        → s.tasks ≡ before ++ (t ∷ behind)
        → Event s (processer_worker env t (record s { tasks = before ++ behind }))
    sends :
        {s : Server env} (r : Reply) (before behind : List Reply)
        → s.replies ≡ before ++ (r ∷ behind)
        → Event s (running (sender_worker env r (record s { replies = before ++ behind })))

  -- What the process may come to.
  pub data Drives (s : Server env) : Ran env → Type 0 where
    starts : Drives s (running s)
    continues : {t : Server env} {o : Ran env} → Drives s (running t) → Event t o → Drives s o

  -- A registered descriptor is that of an open session, whose decode context is the client data.
  pub record Serves (s : Server env) (fd data_ptr : ℕ) : Type 0 where
    pub context : DecodeContext
    pub at_data : get_elem? s.contexts data_ptr ≡ some context
    pub session : Holds s.manager context.session_id fd

  unfoldable pub AreServed : Server env → Type 0
  AreServed s = (fd data_ptr : ℕ) → registered s.loop fd ≡ some data_ptr → Serves s fd data_ptr

  -- A session whose descriptor no event is registered for.
  pub record IsStranded (id fd : ℕ) (s : Server env) : Type 0 where
    pub session : Holds s.manager id fd
    pub unheard : registered s.loop fd ≡ none
