-- ===== src/Tests/Process.antt =====
-- A run of the process, at which its theorems are applied.
use logcabin_redis_proxy.Base.{
  ℕ, zero, suc, ◌≡◌, ◌≢◌, get_elem?, refl, subst, List, [], ◌∷◌, ◌++◌, some, arith, pos,
}
use logcabin_redis_proxy.Bytes.{Bytes, codes, crlf}
use logcabin_redis_proxy.Handler.Monad.{returned}
use logcabin_redis_proxy.Server.Dispatch.{dispatch}
use logcabin_redis_proxy.Resp.Decoder.{DecodeContext, new_decode_context, finish_request}
use logcabin_redis_proxy.Num.{to_string, atoi, strtol, magnitude, digits_value}
use logcabin_redis_proxy.Resp.Decoder.RoundTrip.{IsIdle, decode-encode}
use logcabin_redis_proxy.Resp.Encoder.{encode, line, bulk, bulks}
use logcabin_redis_proxy.Resp.{arrays, ok, EncodeResult}
use logcabin_redis_proxy.Server.Options.Choice.{option_parser-last}
use logcabin_redis_proxy.Server.Options.{
  Opt, opt_port, opt_help, opt_unknown, usage, options, exits, option_parser,
}
use logcabin_redis_proxy.Server.State.{Task, Reply, Server, running, store_context}
use logcabin_redis_proxy.Server.System.Dropped.{sender_worker-drop_client}
use logcabin_redis_proxy.Server.System.Isolation.{Leaves, sender_worker-other}
use logcabin_redis_proxy.Server.System.Safety.{Keeps, Reaches-IsFit, Reaches-answers}
use logcabin_redis_proxy.Server.System.{
  IsFree, new_server, accepts, reads, Reaches, starts, continues,
}
use logcabin_redis_proxy.Server.Workers.{
  read_bytes, accept_tcp_handler, read_from_client, processer_worker, sender_worker, drop_client,
}
use logcabin_redis_proxy.Session.Manager.Laws.{
  IsSound, insert_new_staus_lem, new_session_manager-IsSound,
}
use logcabin_redis_proxy.Session.Manager.{new_session_manager, insert_new_staus, get_ctx}
use logcabin_redis_proxy.Session.{SessionCtx, new_session_ctx}
use logcabin_redis_proxy.Map.{map_insert, map_find}
use logcabin_redis_proxy.Tests.Fixtures.{empty, small_env, small_tree, nothing}

abbrev pub first : Server small_env
first = new_server small_env [] 0 empty nothing

-- A client connects on descriptor 4 and sends "*1\r\n$4\r\nping\r\n".
abbrev pub ping : Bytes
ping = codes "*1" ++ (crlf ++ (codes "$4" ++ (crlf ++ (codes "ping" ++ crlf))))

abbrev pub ping_context : DecodeContext
ping_context = new_decode_context 1 5

abbrev pub with_client : Server small_env
with_client = record {
  loop = 4 ∷ [];
  manager = (insert_new_staus (new_session_manager 0) 4).0;
  contexts = ping_context ∷ [];
  tasks = [];
  replies = [];
  handler = record { ptree_counter = 0; world = empty };
  world = nothing;
}

pub accepted : accept_tcp_handler small_env (some 4) 5 first ≡ running with_client
unfolding accept_tcp_handler new_server insert_new_staus new_session_manager
accepted = refl

pub first-IsFree : IsFree 4 first.manager
unfolding new_server new_session_manager get_ctx map_find
first-IsFree j p e = cc

Reaches-with_client : Reaches small_env first (running with_client)
Reaches-with_client =
    subst (Reaches small_env first) accepted (continues starts (accepts 4 5 first-IsFree))

Reaches-IsFit_example : Keeps small_env (running with_client)
Reaches-IsFit_example =
    Reaches-IsFit small_env [] 0 empty nothing (running with_client) Reaches-with_client

abbrev pub ping_task : Task
ping_task = record { command_id = 0; request = codes "ping" ∷ []; session_id = 1 }

abbrev pub with_task : Server small_env
with_task = record with_client {
  contexts =
      record ping_context { progress = finish_request ping_context.progress (codes "ping" ∷ []) }
      ∷ [];
  tasks = ping_task ∷ [];
}

abbrev ping_result : EncodeResult
ping_result = record { status = ok; response = ping }

ping_encoded : encode arrays (codes "ping" ∷ []) ≡ some ping_result
unfolding encode line bulk bulks to_string
ping_encoded = refl

ping_context-IsIdle : IsIdle ping_context
unfolding new_decode_context
ping_context-IsIdle = record { at_init = refl; no_elements = refl; no_bytes = refl }

pub reads_task : read_from_client small_env 4 0 (read_bytes ping) with_client ≡ running with_task
unfolding read_from_client store_context new_decode_context finish_request
reads_task =
    rw
      (decode-encode ping_context (codes "ping" ∷ []) ping_result ping_context-IsIdle
        (omega arith, (omega arith, omega arith)) ping_encoded)
      refl

pub Reaches-with_task : Reaches small_env first (running with_task)
Reaches-with_task =
    subst (Reaches small_env first) reads_task
      (continues Reaches-with_client (reads 4 0 (read_bytes ping) (omega arith)))

Reaches-answers_example :
    (e : EncodeResult) × ((dispatch small_tree (codes "ping" ∷ []) with_task.handler).0
      ≡ returned e)
    × (processer_worker small_env ping_task (record with_task { tasks = [] })
        ≡ running (record with_task {
          tasks = [];
          replies = record { response = e.response; command_id = 0; session_id = 1 } ∷ [];
          handler = (dispatch small_tree (codes "ping" ∷ []) with_task.handler).1;
        }))
Reaches-answers_example =
    Reaches-answers small_env [] 0 empty nothing with_task Reaches-with_task ping_task [] [] refl

abbrev late : Reply
late = record { response = codes "+OK"; command_id = 0; session_id = 1 }

sender_worker-drop_client_example :
    sender_worker small_env late (drop_client small_env 4 (new_decode_context 1 5) with_client)
    ≡ drop_client small_env 4 (new_decode_context 1 5) with_client
unfolding new_decode_context new_server
sender_worker-drop_client_example =
    sender_worker-drop_client small_env 4 (new_decode_context 1 5) with_client late
      (insert_new_staus_lem (new_session_manager 0) 4 (new_session_manager-IsSound 0)).0 refl

abbrev two_ports : List Opt
two_ports = opt_port (codes "1") ∷ opt_port (codes "2") ∷ []

option_parser-last_example :
    (option_parser (codes "proxy") 3 two_ports
      ≡ options (record {
        cluster = codes "127.0.0.1:5254";
        bind_addr = codes "0.0.0.0";
        service_port = pos 2;
        set_size = pos 1024;
        thread_num = pos 10;
      }))
    × (option_parser (codes "proxy") 3 (two_ports ++ (opt_help ∷ []))
        ≡ exits 0 (usage (codes "proxy")))
    × (option_parser (codes "proxy") 3 (two_ports ++ (opt_unknown ∷ []))
        ≡ exits 1 (usage (codes "proxy")))
unfolding atoi strtol magnitude digits_value
option_parser-last_example =
    option_parser-last (codes "proxy") 3 two_ports [] (omega arith) (tt, (tt, tt))

-- Two clients, and a reply for the first.
abbrev two_clients : Server small_env
two_clients = record first {
  manager = (insert_new_staus (insert_new_staus (new_session_manager 0) 4).0 5).0;
}

two_clients-IsSound : IsSound two_clients.manager
two_clients-IsSound =
    (insert_new_staus_lem (insert_new_staus (new_session_manager 0) 4).0 5
      (insert_new_staus_lem (new_session_manager 0) 4 (new_session_manager-IsSound 0)).0).0

first_fd :
    (p : ℕ) (ctx : SessionCtx)
    → get_ctx two_clients.manager 1 ≡ some p
    → get_elem? two_clients.manager.heap p ≡ some ctx
    → ctx.fd ≢ 5
unfolding get_ctx insert_new_staus new_session_manager new_session_ctx map_insert map_find
first_fd zero ctx e f g = cc
first_fd (suc p) ctx e f g = cc

second_pointer : get_ctx two_clients.manager 2 ≡ some 1
unfolding get_ctx insert_new_staus new_session_manager map_insert map_find
second_pointer = refl

sender_worker-other_example :
    Leaves small_env late two_clients 1 5 (sender_worker small_env late two_clients)
sender_worker-other_example =
    sender_worker-other small_env late two_clients 2 1 5 two_clients-IsSound (λ e. cc)
      second_pointer first_fd
