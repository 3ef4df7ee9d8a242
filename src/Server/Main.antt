-- ===== src/Server/Main.antt =====
-- `main` of src/proxy/main.cc and the class `proxy` of src/proxy/proxy.h and src/proxy/proxy.cc: what
-- happens before the event loop runs. Listening, the pools' threads and the connections to the cluster
-- are parameters.
pub mod Starts
use logcabin_redis_proxy.Base.{ℕ, Bool, true, false, List, [], Option, none, some, ℤ, to_size}
use logcabin_redis_proxy.Bytes.{Bytes}
use logcabin_redis_proxy.Handler.Monad.{HandlerState}
use logcabin_redis_proxy.Handler.Turns.{new_handler}
use logcabin_redis_proxy.Server.Options.{Options, Opt, Parsed, options, exits, option_parser}
use logcabin_redis_proxy.Server.State.{Environment, Server}
use logcabin_redis_proxy.Server.System.{new_server}

-- The callbacks of main.cc, of the type `aeFileProc`.
pub data FileProc : Type 0 where
  write_to_client_proc read_from_client_proc accept_tcp_handler_proc : FileProc

-- `anetTcpServer` with its port and address, `none` for `ANET_ERR`; `aeCreateEventLoop` that returns a loop;
-- `aeCreateFileEvent` of the descriptor that it listens on, `true` for `AE_OK`; the connection with the
-- given number of `handler`'s constructor, `none` for a `LogCabin::Client::Exception`; `ThreadPool`'s
-- constructor, `false` for an exception.
pub record Startup (env : Environment) : Type 0 where
  pub tcp_server : ℤ → Bytes → env.event_loop.Loop → Option ℕ × env.event_loop.Loop
  pub create_event_loop : ℤ → env.event_loop.Loop
  pub create_listen_event : env.event_loop.Loop → ℕ → FileProc → Bool × env.event_loop.Loop
  pub connect : Bytes → ℕ → env.tree.World → Option env.tree.World
  pub thread_pool : ℕ → Bool

-- How `main` goes on: it serves, with the descriptor that it listens on, the callback for it, and whether
-- the event for it was created; or the process exits, with a status and what it has printed; or an
-- exception that `main` does not catch ends it.
pub data Started (env : Environment) : Type 0 where
  serves : ℕ → FileProc → Bool → Server env → Started env
  exited : ℕ → Bytes → Started env
  crashed : Started env

-- The class `proxy`.
pub record Proxy (env : Environment) : Type 0 where
  pub service_port : ℤ
  pub set_size : ℤ
  pub bind_addr : Bytes
  pub loop : env.event_loop.Loop
  pub writeable_handler : FileProc
  pub readable_handler : FileProc
  pub accept_handler : FileProc

module _ (env : Environment) (startup : Startup env) where
  open env use {event_loop, socket, tree}
  open startup use {tcp_server, create_event_loop, create_listen_event, connect, thread_pool}

  unfoldable pub new_proxy : ℤ → ℤ → Bytes → FileProc → FileProc → FileProc → Proxy env
  new_proxy service_port set_size bind_addr writable_handler readable_handler accept_handler =
      record {
        service_port = service_port;
        set_size = set_size;
        bind_addr = bind_addr;
        loop = create_event_loop set_size;
        writeable_handler = writable_handler;
        readable_handler = readable_handler;
        accept_handler = accept_handler;
      }

  -- src/CMakeLists.txt defines NDEBUG, so that the `assert` behind `aeCreateFileEvent` is no code: the
  -- event loop runs whether or not the event was created.
  abbrev pub registered :
      ℕ → FileProc → Bool × event_loop.Loop → (event_loop.Loop → Server env) → Started env
  registered ipfd proc (created, loop) server = serves ipfd proc created (server loop)

  -- Where `run` returns false, `main` ends with status 0.
  abbrev pub listening :
      FileProc → Option ℕ × event_loop.Loop → (event_loop.Loop → Server env) → Started env
  listening proc (none, loop) server = exited 0 []
  listening proc (some ipfd, loop) server =
      registered ipfd proc (create_listen_event loop ipfd proc) server

  -- `proxy::run`, up to `aeMain`.
  unfoldable pub run : Proxy env → (event_loop.Loop → Server env) → Started env
  run p server = listening p.accept_handler (tcp_server p.service_port p.bind_addr p.loop) server

  -- Both pools, of as many threads.
  abbrev pub pooled : Bool → Bool → Started env → Started env
  pooled true true next = next
  pooled true false next = crashed
  pooled false b next = crashed

  -- A failed connection is caught, and the process exits with status 1.
  abbrev pub connected :
      Options → Proxy env → ℕ → socket.World → Option (HandlerState tree.World) → Started env
  connected o p memory world none = exited 1 []
  connected o p memory world (some h) =
      pooled (thread_pool (to_size o.thread_num)) (thread_pool (to_size o.thread_num))
        (run p (λ loop. record (new_server env loop memory h.world world) { handler = h }))

  abbrev pub parsed : Parsed → ℕ → tree.World → socket.World → Started env
  parsed (exits status text) memory cluster world = exited status text
  parsed (options o) memory cluster world =
      connected o
        (new_proxy o.service_port o.set_size o.bind_addr write_to_client_proc read_from_client_proc
          accept_tcp_handler_proc)
        memory world (new_handler connect o.cluster cluster)

  -- `cluster` and `world` are what the process finds.
  unfoldable pub main : Bytes → ℕ → List Opt → ℕ → tree.World → socket.World → Started env
  unfolding run new_proxy
  main name argc opts memory cluster world =
      parsed (option_parser name argc opts) memory cluster world
