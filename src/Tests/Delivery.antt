-- ===== src/Tests/Delivery.antt =====
-- A client that sends "ping" and receives the answer, at which the theorems on delivery are applied.
use logcabin_redis_proxy.Num.{to_string}
use logcabin_redis_proxy.Server.Workers.{read_from_client}
use logcabin_redis_proxy.Base.{
  All, List, ap, ◌∙◌, ℕ, ◌<◌, ◌≡◌, get_elem?, refl, subst, [], ◌∷◌, ◌++◌, some, arith, length,
  false,
}
use logcabin_redis_proxy.Bytes.{Bytes, codes, crlf, equal}
use logcabin_redis_proxy.Resp.Decoder.{DecodeContext}
use logcabin_redis_proxy.Resp.Encoder.{encode, line, bulk, bulks}
use logcabin_redis_proxy.Server.Dispatch.Case.{in_capitals}
use logcabin_redis_proxy.Server.Dispatch.{dispatch, run_command, to_uppercase, upper}
use logcabin_redis_proxy.Server.State.{Server, running}
use logcabin_redis_proxy.Resp.Decoder.RoundTrip.{all_written}
use logcabin_redis_proxy.Handler.Types.{reply_type, find_type}
use logcabin_redis_proxy.Resp.Replies.{Answer, read_answers}
use logcabin_redis_proxy.Server.System.Client.{
  HasLines, IsAnswered, request_type, Reaches-read_answers,
}
use logcabin_redis_proxy.Server.System.Conversation.{Reaches-received_requests}
use logcabin_redis_proxy.Server.System.Inputs.{input, step_input, input-subst}
use logcabin_redis_proxy.Server.System.Delivery.{Reaches-received}
use logcabin_redis_proxy.Server.System.Drain.{Reaches-received_drained}
use logcabin_redis_proxy.Server.System.Answers.{Answered, IsAnswer}
use logcabin_redis_proxy.Map.{map_find, map_insert}
use logcabin_redis_proxy.Session.Manager.{get_ctx, store, insert_new_staus, new_session_manager}
use logcabin_redis_proxy.Session.Order.{AcceptsAll, responses}
use logcabin_redis_proxy.Session.{
  SessionCtx, new_session_ctx, insert_new_response, send_first_response, send_buffered, reply_next,
  reply, reply_loop,
}
use logcabin_redis_proxy.Server.System.{
  new_server, reads, processes, sends, Reaches, starts, continues,
}
use logcabin_redis_proxy.Server.Workers.{read_bytes, processer_worker, send_reply, sender_worker}
use logcabin_redis_proxy.Tests.Fixtures.{add, full_socket, empty, small_env, nothing}
use logcabin_redis_proxy.Tests.Process.{
  first, with_client, with_task, ping, ping_task, accepted, reads_task, first-IsFree,
}

abbrev answer : Bytes
answer = codes "-ERR unknown command" ++ crlf

abbrev with_reply : Server small_env
with_reply = record with_task {
  tasks = [];
  replies = record { response = answer; command_id = 0; session_id = 1 } ∷ [];
}

processes_task :
    processer_worker small_env ping_task (record with_task { tasks = [] }) ≡ running with_reply
unfolding processer_worker dispatch run_command to_uppercase upper equal encode line send_reply
processes_task = refl

-- The session, once the answer is sent.
abbrev sent_ctx : SessionCtx
sent_ctx = record { fd = 4; to_send_command_id = 1; buffered_responses = []; is_eof_reach = false }

abbrev with_sent : Server small_env
with_sent = record with_task {
  tasks = [];
  replies = [];
  manager = record { session_counter = 1; ctx_map = (1, 0) ∷ []; heap = sent_ctx ∷ [] };
  world = add 4 answer nothing;
}

sends_reply :
    sender_worker small_env
      (record { response = answer; command_id = 0; session_id = 1 })
      (record with_reply { replies = [] })
    ≡ with_sent
unfolding sender_worker get_ctx map_find map_insert insert_new_staus new_session_manager
    new_session_ctx store insert_new_response send_first_response send_buffered reply_next reply
    reply_loop
sends_reply = refl

abbrev reading :
    Reaches small_env with_client (read_from_client small_env 4 0 (read_bytes ping) with_client)
reading = continues starts (reads 4 0 (read_bytes ping) (omega arith))

abbrev reached_task : Reaches small_env with_client (running with_task)
reached_task = subst (Reaches small_env with_client) reads_task reading

abbrev processing :
    Reaches small_env with_client
      (processer_worker small_env ping_task (record with_task { tasks = [] }))
processing = continues reached_task (processes ping_task [] [] refl)

abbrev reached_reply : Reaches small_env with_client (running with_reply)
reached_reply = subst (Reaches small_env with_client) processes_task processing

abbrev sending : Reaches small_env with_client (
    running (
      sender_worker small_env
        (record { response = answer; command_id = 0; session_id = 1 })
        (record with_reply { replies = [] })))
sending = continues reached_reply (sends _ [] [] refl)

abbrev reached_sent : Reaches small_env with_client (running with_sent)
reached_sent = subst (Reaches small_env with_client) (ap running sends_reply) sending

takes_all : AcceptsAll full_socket
takes_all fd s w = refl

sent_pointer : get_ctx with_sent.manager 1 ≡ some 0
unfolding get_ctx map_find
sent_pointer = refl

ping_written : ([] ++ ping) ++ [] ++ [] ≡ all_written ((codes "ping" ∷ []) ∷ [])
unfolding line to_string bulks bulk
ping_written = refl

-- All that was read is the encoding of one request.
sent_ping : input small_env 0 reached_sent ≡ all_written ((codes "ping" ∷ []) ∷ [])
unfolding input step_input
sent_ping =
    input-subst small_env 0 (ap running sends_reply) sending
    ∙ ap (λ b. b ++ []) (input-subst small_env 0 processes_task processing)
    ∙ ap (λ b. (b ++ []) ++ []) (input-subst small_env 0 reads_task reading)
    ∙ ping_written

Reaches-received_requests_example :
    (f : ℕ → Bytes) × (add 4 answer nothing 4 ≡ [] ++ responses f 1)
    × ((k : ℕ) (request : List Bytes)
        → get_elem? ((codes "ping" ∷ []) ∷ []) k ≡ some request
        → IsAnswer small_env.tree request (f k))
unfolding new_server
Reaches-received_requests_example =
    Reaches-received_requests small_env takes_all [] 0 empty nothing first with_client with_sent 4 5
      starts first-IsFree accepted reached_sent ((codes "ping" ∷ []) ∷ []) 0 sent_ctx
      ((omega arith, (omega arith, omega arith)), tt) sent_ping sent_pointer refl tt tt

ping_lines : All (HasLines small_env.tree) ((codes "ping" ∷ []) ∷ [])
unfolding request_type reply_type find_type in_capitals equal
ping_lines = ((λ e. cc e), tt)

Reaches-read_answers_example :
    (bytes : Bytes) × (answers : List Answer) × (add 4 answer nothing 4 ≡ [] ++ bytes)
    × (read_answers 1 bytes ≡ some (answers, []))
    × (length answers ≡ 1)
    × ((k : ℕ) (request : List Bytes)
        → get_elem? ((codes "ping" ∷ []) ∷ []) k ≡ some request
        → (a : Answer) × (get_elem? answers k ≡ some a) × IsAnswered small_env.tree request a)
unfolding new_server
Reaches-read_answers_example =
    Reaches-read_answers small_env takes_all [] 0 empty nothing first with_client with_sent 4 5
      starts first-IsFree accepted reached_sent ((codes "ping" ∷ []) ∷ []) 0 sent_ctx
      ((omega arith, (omega arith, omega arith)), tt) ping_lines sent_ping sent_pointer refl tt tt

Reaches-received_example :
    (ctx : DecodeContext) × (f : ℕ → Bytes) × (get_elem? with_sent.contexts 0 ≡ some ctx)
    × (add 4 answer nothing 4 ≡ [] ++ responses f 1)
    × ((k : ℕ) → k < 1 → Answered small_env.tree ctx.handled k (f k))
unfolding new_server
Reaches-received_example =
    Reaches-received small_env takes_all [] 0 empty nothing first with_client with_sent 4 5 starts
      first-IsFree accepted reached_sent 0 sent_ctx sent_pointer refl

task_pointer : get_ctx with_task.manager 1 ≡ some 0
unfolding get_ctx map_find map_insert insert_new_staus new_session_manager
task_pointer = refl

Reaches-received_drained_example :
    (v : Server small_env) × (ctx : DecodeContext) × (f : ℕ → Bytes) × Reaches small_env with_task
      (running v)
    × (v.tasks ≡ [])
    × (v.replies ≡ [])
    × (get_elem? with_task.contexts 0 ≡ some ctx)
    × (v.world 4 ≡ [] ++ responses f (length ctx.handled))
    × ((k : ℕ) → k < length ctx.handled → Answered small_env.tree ctx.handled k (f k))
unfolding new_server
Reaches-received_drained_example =
    Reaches-received_drained small_env takes_all [] 0 empty nothing first with_client with_task 4 5
      0 starts first-IsFree accepted
      (subst (Reaches small_env with_client) reads_task
        (continues starts (reads 4 0 (read_bytes ping) (omega arith))))
      task_pointer
