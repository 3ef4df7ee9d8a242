-- ===== src/Tests/Commands.antt =====
-- Commands on a small cluster, at which the theorems are applied.
use logcabin_redis_proxy.Base.{
  ◌+◌, ◌^◌, pos, arith, ◌≡◌, ◌≢◌, refl, [], ◌∷◌, ◌++◌, inl, none, some, if◌then◌else◌,
}
use logcabin_redis_proxy.Bytes.{Bytes, codes, crlf, equal}
use logcabin_redis_proxy.Handler.Monad.{returned, HandlerState, call, ◌>>=◌}
use logcabin_redis_proxy.Handler.Pushes.{IsPush, Serves, handle_rpush_request-Serves}
use logcabin_redis_proxy.Handler.Reads.{handle_get_request, handle_mget_request}
use logcabin_redis_proxy.Handler.Expire.{handle_expire_request-wraps}
use logcabin_redis_proxy.Num.{to_string}
use logcabin_redis_proxy.Handler.Calls.{try_catch, by_status}
use logcabin_redis_proxy.Handler.Lines.{handle_mget_request-cut, handle_mget_request-print_answer}
use logcabin_redis_proxy.Handler.Answers.{IsReplyOf}
use logcabin_redis_proxy.Handler.Safety.{Fetched}
use logcabin_redis_proxy.Handler.Types.{value, reply_type, find_type}
use logcabin_redis_proxy.Resp.Replies.{
  simple, null, bulk_string, one, many, read_answer, print_answer, no_cr,
}
use logcabin_redis_proxy.Handler.Values.{get_answer, handle_get_request-handle_set_request}
use logcabin_redis_proxy.Handler.Writes.{
  handle_set_request, handle_rpush_request, handle_expire_request,
}
use logcabin_redis_proxy.Resp.{ok, EncodeResult}
use logcabin_redis_proxy.Server.Dispatch.Answers.{dispatch-IsReplyOf}
use logcabin_redis_proxy.Server.Dispatch.Errors.{
  CommandName, spelled, WrongLength, named, dispatch-wrong_number,
}
use logcabin_redis_proxy.Server.Dispatch.Case.{in_capitals}
use logcabin_redis_proxy.Server.Dispatch.{dispatch}
use logcabin_redis_proxy.Tests.Fixtures.{
  Data, small_tree, small_tree-IsStore, fresh_state, equal_self, equal_other,
}

dispatch-IsReplyOf_example :
    (e : EncodeResult) × ((dispatch small_tree (codes "get" ∷ codes "k" ∷ []) fresh_state).0
      ≡ returned e)
    × IsReplyOf (Fetched small_tree) 2 value e
unfolding reply_type find_type in_capitals equal
dispatch-IsReplyOf_example =
    dispatch-IsReplyOf small_tree (codes "get") (codes "k" ∷ []) fresh_state

dispatch-wrong_number_example : dispatch small_tree (codes "gEt" ∷ []) fresh_state ≡ (
  returned (record {
    status = ok;
    response = codes "-ERR wrong number of arguments for 'read' command" ++ crlf;
  }),
  fresh_state,
)
unfolding in_capitals spelled WrongLength named
dispatch-wrong_number_example =
    dispatch-wrong_number small_tree CommandName.get (codes "gEt") [] fresh_state refl (λ e. cc)

handle_get_request-handle_set_request_example :
    ((handle_get_request small_tree
        (codes "GET" ∷ codes "k" ∷ [])
        (handle_set_request small_tree (codes "SET" ∷ codes "k" ∷ codes "v" ∷ []) fresh_state).1).0
      ≡ returned (get_answer (some (codes "v"))))
    × ((k : Bytes)
        → k ≢ codes "k"
        → (handle_get_request small_tree
            (codes "GET" ∷ k ∷ [])
            (handle_set_request small_tree
              (codes "SET" ∷ codes "k" ∷ codes "v" ∷ [])
              fresh_state).1).0
          ≡ (handle_get_request small_tree (codes "GET" ∷ k ∷ []) fresh_state).0)
handle_get_request-handle_set_request_example =
    handle_get_request-handle_set_request small_tree (λ d. d.values) small_tree-IsStore
      (codes "SET") (codes "GET") (codes "k") (codes "v") fresh_state

abbrev one_value_state : HandlerState Data
one_value_state = record {
  ptree_counter = 9;
  world = record {
    values = λ k. if equal k (codes "b") then some (codes "v") else none;
    lists = λ k. [];
  };
}

handle_mget_request-print_answer_example :
    (e : EncodeResult) × ((handle_mget_request small_tree
        (codes "MGET" ∷ codes "a" ∷ codes "b" ∷ [])
        one_value_state).0
      ≡ returned e)
    × (e.status ≡ ok)
    × (e.response ≡ print_answer (many (null ∷ simple (codes "v") ∷ [])))
    × ((handle_mget_request small_tree
          (codes "MGET" ∷ codes "a" ∷ codes "b" ∷ [])
          one_value_state).1.world
        ≡ one_value_state.world)
unfolding equal
handle_mget_request-print_answer_example =
    handle_mget_request-print_answer small_tree (λ d. d.values) small_tree-IsStore (codes "MGET")
      (codes "a") (codes "b" ∷ []) one_value_state

-- A cluster with a value of two lines.
abbrev two_lines : Data
two_lines = record { values = λ k. some (codes "a" ++ (crlf ++ codes "b")); lists = λ k. [] }

abbrev two_lines_state : HandlerState Data
two_lines_state = record { ptree_counter = 9; world = two_lines }

handle_mget_request-cut_example :
    ((e : EncodeResult) × ((handle_get_request small_tree
          (codes "GET" ∷ codes "k" ∷ [])
          two_lines_state).0
        ≡ returned e)
      × (read_answer (e.response ++ codes "+OK")
          ≡ some (one (bulk_string (codes "a" ++ (crlf ++ codes "b"))), codes "+OK")))
    × ((e : EncodeResult) × ((handle_mget_request small_tree
            (codes "MGET" ∷ codes "k" ∷ [])
            two_lines_state).0
          ≡ returned e)
        × (read_answer (e.response ++ codes "+OK")
            ≡ some (many (simple (codes "a") ∷ []), codes "b" ++ (crlf ++ codes "+OK"))))
unfolding no_cr
handle_mget_request-cut_example =
    handle_mget_request-cut small_tree (λ d. d.values) small_tree-IsStore (codes "GET")
      (codes "MGET") (codes "k") (codes "a") (codes "b") (codes "+OK") two_lines_state refl refl

rpush-IsPush : IsPush (λ d. d.lists) (λ l v. l ++ (v ∷ [])) small_tree.rpush_ex
unfolding IsPush
rpush-IsPush t key v w = inl (refl, rw (equal_self key) refl, λ k h. rw (equal_other key k h) refl)

handle_rpush_request-Serves_example :
    Serves small_tree
      (λ d. d.lists)
      (λ l done. l ++ done)
      (codes "k")
      (codes "a" ∷ codes "b" ∷ [])
      fresh_state.world
      (handle_rpush_request small_tree
        (codes "RPUSH" ∷ codes "k" ∷ codes "a" ∷ codes "b" ∷ [])
        fresh_state)
handle_rpush_request-Serves_example =
    handle_rpush_request-Serves small_tree (λ d. d.lists) rpush-IsPush (codes "RPUSH") (codes "k")
      (codes "a") (codes "b" ∷ []) fresh_state

handle_expire_request-wraps_example :
    (handle_expire_request small_tree
        (codes "EXPIRE" ∷ codes "k" ∷ to_string (2 ^ 32 + 1) ∷ [])
        fresh_state
      ≡ try_catch
          (do
            status ← call (small_tree.expire 0 (codes "k") (pos 1))
            by_status (codes "expire") status)
          (record fresh_state { ptree_counter = 1 }))
    × (handle_expire_request small_tree
          (codes "EXPIRE" ∷ codes "k" ∷ to_string (2 ^ 32 + 1) ∷ [])
          fresh_state
        ≡ handle_expire_request small_tree
            (codes "EXPIRE" ∷ codes "k" ∷ to_string 1 ∷ [])
            fresh_state)
handle_expire_request-wraps_example =
    handle_expire_request-wraps small_tree (codes "EXPIRE") (codes "k") (2 ^ 32 + 1) fresh_state
      (omega arith)
