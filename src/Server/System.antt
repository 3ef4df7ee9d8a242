-- ===== src/Server/System.antt =====
-- The process of src/proxy/main.cc as a system: the event loop's thread and the workers of both pools
-- take steps in any order. A pool runs what it holds in any order, as its threads may.
pub mod Safety
pub mod Dropped
pub mod Reuse
pub mod Isolation
mod Count
mod Numbering
pub mod Reads
pub mod Pools
pub mod Ids
pub mod Opening
pub mod Answers
pub mod Ledger
pub mod Alone
pub mod Line
pub mod Tracks
pub mod Delivery
pub mod Drain
pub mod Inputs
pub mod Conversation
pub mod Client
pub mod Events
use logcabin_redis_proxy.Base.{
  ℕ, ◌<◌, ◌≡◌, List, [], ◌∷◌, ◌++◌, Option, some, length, ◌≢◌, map, get_elem?,
}
use logcabin_redis_proxy.Handler.Monad.{HandlerState}
use logcabin_redis_proxy.Session.Manager.{SessionManager, new_session_manager, get_ctx}
use logcabin_redis_proxy.Server.State.{Environment, Task, Reply, Server, Ran, running}
use logcabin_redis_proxy.Server.Workers.{
  ReadResult, processer_worker, sender_worker, read_from_client, accept_tcp_handler,
}

-- The process before its first event: `memory` is what the counter of the sessions has.
unfoldable pub new_server :
    (env : Environment) → env.event_loop.Loop → ℕ → env.tree.World → env.socket.World → Server env
unfolding new_session_manager
new_server env loop memory cluster world = record {
  loop = loop;
  manager = new_session_manager memory;
  contexts = [];
  tasks = [];
  replies = [];
  handler = record { ptree_counter = 0; world = cluster };
  world = world;
}

-- No open session has the descriptor.
abbrev pub IsFree : ℕ → SessionManager → Type 0
IsFree fd m = (j p : ℕ) → get_ctx m j ≡ some p → get_elem? (map (λ c. c.fd) m.heap) p ≢ some fd

-- One step. Every `accept` succeeds, as the source uses the -1 of a failed one as a descriptor, which is
-- undefined; it gives a descriptor that is not open. The event loop calls back with the context that was registered, and a worker takes a task
-- out of its pool.
pub data Step (env : Environment) : Server env → Ran env → Type 0 where
  accepts :
      {s : Server env} (client_fd memory : ℕ)
      → IsFree client_fd s.manager
      → Step env s (accept_tcp_handler env (some client_fd) memory s)
  reads :
      {s : Server env} (fd data_ptr : ℕ) (r : ReadResult)
      → data_ptr < length s.contexts
      → Step env s (read_from_client env fd data_ptr r s)
  processes :
      {s : Server env} (t : Task) (before behind : List Task)
      → s.tasks ≡ before ++ (t ∷ behind)
      → Step env s (processer_worker env t (record s { tasks = before ++ behind }))
  sends :
      {s : Server env} (r : Reply) (before behind : List Reply)
      → s.replies ≡ before ++ (r ∷ behind)
      → Step env s (running (sender_worker env r (record s { replies = before ++ behind })))

-- What the process may come to.
pub data Reaches (env : Environment) (s : Server env) : Ran env → Type 0 where
  starts : Reaches env s (running s)
  continues :
      {t : Server env} {o : Ran env} → Reaches env s (running t) → Step env t o → Reaches env s o
