-- ===== src/Tests/Reuse.antt =====
-- Descriptor 4 is closed and accepted again while a worker holds the context of its old session.
use logcabin_redis_proxy.Base.{false, ◌≡◌, refl, [], ◌∷◌, ◌++◌, some, get_elem?, true}
use logcabin_redis_proxy.Bytes.{codes, crlf}
use logcabin_redis_proxy.Map.{map_find, map_insert, map_erase}
use logcabin_redis_proxy.Resp.Decoder.{new_decode_context}
use logcabin_redis_proxy.Server.State.{Reply, Server, running}
use logcabin_redis_proxy.Server.System.Reuse.{sender_insert-reused}
use logcabin_redis_proxy.Server.Workers.Parts.{sender_find, sender_insert}
use logcabin_redis_proxy.Server.Workers.{accept_tcp_handler, drop_client}
use logcabin_redis_proxy.Session.Manager.Laws.{insert_new_staus_lem, new_session_manager-IsSound}
use logcabin_redis_proxy.Session.Manager.{
  new_session_manager, insert_new_staus, get_ctx, mark_eof, store, erase_session,
}
use logcabin_redis_proxy.Session.{new_session_ctx}
use logcabin_redis_proxy.Tests.Fixtures.{empty, small_env, nothing}
use logcabin_redis_proxy.Tests.Process.{with_client, ping_context}

abbrev pong : Reply
pong = record { response = codes "+PONG" ++ crlf; command_id = 0; session_id = 1 }

abbrev reused : Server small_env
reused = record {
  loop = 4 ∷ 4 ∷ [];
  manager = record {
    session_counter = 2;
    ctx_map = (2, 1) ∷ [];
    heap = record (new_session_ctx 4) { is_eof_reach = true } ∷ new_session_ctx 4 ∷ [];
  };
  contexts = ping_context ∷ new_decode_context 2 5 ∷ [];
  tasks = [];
  replies = [];
  handler = record { ptree_counter = 0; world = empty };
  world = nothing;
}

opened_again :
    accept_tcp_handler small_env (some 4) 5 (drop_client small_env 4 ping_context with_client)
    ≡ running reused
unfolding accept_tcp_handler drop_client insert_new_staus new_session_manager erase_session
    map_insert map_find map_erase mark_eof store new_session_ctx new_decode_context
opened_again = refl

found_pointer : get_ctx with_client.manager 1 ≡ some 0
unfolding get_ctx map_find map_insert insert_new_staus new_session_manager
found_pointer = refl

sender_insert-reused_example :
    (sender_find small_env 1 with_client ≡ some 0)
    × (get_ctx reused.manager 2 ≡ some 1)
    × (get_elem? reused.manager.heap 1
        ≡ some (record {
          fd = 4;
          to_send_command_id = 0;
          buffered_responses = [];
          is_eof_reach = false;
        }))
    × ((sender_insert small_env 0 pong reused).world 4 ≡ nothing 4 ++ (codes "+PONG" ++ crlf))
unfolding insert_new_staus new_session_manager new_session_ctx new_decode_context
sender_insert-reused_example =
    sender_insert-reused small_env (λ fd s w. refl) pong with_client reused 0 5 4
      (new_session_ctx 4) ping_context
      (insert_new_staus_lem (new_session_manager 0) 4 (new_session_manager-IsSound 0)).0
      found_pointer refl refl refl refl refl opened_again
