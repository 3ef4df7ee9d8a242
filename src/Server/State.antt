-- ===== src/Server/State.antt =====
-- The state that the callbacks and the two thread pools of src/proxy/main.cc share, and what of its
-- surroundings is a parameter: the event loop of src/ae, sockets and the cluster's client.
pub mod Contexts
use logcabin_redis_proxy.Base.{ℕ, zero, suc, Bool, List, [], ◌∷◌}
use logcabin_redis_proxy.Bytes.{Bytes}
use logcabin_redis_proxy.Handler.Calls.{Tree}
use logcabin_redis_proxy.Handler.Monad.{HandlerState}
use logcabin_redis_proxy.Resp.Decoder.{DecodeContext}
use logcabin_redis_proxy.Session.Manager.{SessionManager}
use logcabin_redis_proxy.Session.{Socket}

-- `aeCreateFileEvent` for reading, `true` for `AE_OK`, with the client data; `aeDeleteFileEvent`.
pub record EventLoop : Type 1 where
  pub Loop : Type 0
  pub create_file_event : Loop → ℕ → ℕ → Bool × Loop
  pub delete_file_event : Loop → ℕ → Loop

pub record Environment : Type 1 where
  pub event_loop : EventLoop
  pub socket : Socket
  pub tree : Tree

-- A call of `processer_worker` in `pThreadPool`.
pub record Task : Type 0 where
  pub command_id : ℕ
  pub request : List Bytes
  pub session_id : ℕ

-- A call of `sender_worker` in `pSenderThreadPool`.
pub record Reply : Type 0 where
  pub response : Bytes
  pub command_id : ℕ
  pub session_id : ℕ

-- The queues hold what was enqueued and has not run. `contexts` has the decode contexts; the client
-- data of a connection is an index into it.
pub record Server (env : Environment) : Type 0 where
  pub loop : env.event_loop.Loop
  pub manager : SessionManager
  pub contexts : List DecodeContext
  pub tasks : List Task
  pub replies : List Reply
  pub handler : HandlerState env.tree.World
  pub world : env.socket.World

-- An exception that leaves a callback or a worker ends the process.
pub data Ran (env : Environment) : Type 0 where
  running : Server env → Ran env
  terminated : Ran env
  undefined : Ran env

unfoldable pub store_context : List DecodeContext → ℕ → DecodeContext → List DecodeContext
store_context [] i ctx = []
store_context (c ∷ cs) zero ctx = ctx ∷ cs
store_context (c ∷ cs) (suc i) ctx = c ∷ store_context cs i ctx
