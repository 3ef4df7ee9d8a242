-- ===== src/Tests/Sessions.antt =====
-- Runs of a session and of the table of sessions, at which the theorems are applied.
use mathlib.Core.List.{Nodup, Nodup-cons, Nodup-nil}
use mathlib.Core.List.Perm
use logcabin_redis_proxy.Base.{
  ℕ, ◌+◌, ◌≡◌, ◌≢◌, refl, true, false, List, [], ◌∷◌, ◌++◌, none, some, arith, length, get_elem?,
  take, ℤ, pos, ◌==◌, if◌then◌else◌,
}
use logcabin_redis_proxy.Bytes.{Bytes, codes}
use logcabin_redis_proxy.Session.Arrivals.{lt-Mem-below}
use logcabin_redis_proxy.Session.Delivery.{insert_responses, insert_responses-perm}
use logcabin_redis_proxy.Session.Faults.{
  insert_new_response-short_write, insert_new_response-failed_write,
}
use logcabin_redis_proxy.Session.Manager.Laws.{
  IsSound, new_session_manager-IsSound, insert_new_staus_lem, erase_session_lem,
}
use logcabin_redis_proxy.Session.Manager.{
  SessionManager, new_session_manager, insert_new_staus, get_ctx, erase_session,
}
use logcabin_redis_proxy.Session.Order.{responses}
use logcabin_redis_proxy.Session.Reply.{reply_loop-ends}
use logcabin_redis_proxy.Session.{
  SessionCtx, new_session_ctx, insert_new_response, reply, reply_loop,
}
use logcabin_redis_proxy.Tests.Fixtures.{Received, full_socket, slow_socket, broken_socket, nothing}

-- The response to command `i`.
abbrev numbered_response : ℕ → Bytes
numbered_response i = codes "+" ++ ((48 + i) ∷ [])

-- The responses of commands 2, 0 and 1 arrive in this order.
insert_responses-perm_example :
    let (ctx', w') =
      insert_responses full_socket numbered_response (2 ∷ 0 ∷ 1 ∷ []) (new_session_ctx 4) nothing in
    (full_socket.received 4 w' ≡ full_socket.received 4 nothing ++ responses numbered_response 3)
    × (ctx'.to_send_command_id ≡ 3)
    × (ctx'.buffered_responses ≡ [])
    × (ctx'.is_eof_reach ≡ false)
insert_responses-perm_example =
    insert_responses-perm full_socket (λ fd s w. refl) numbered_response 4 nothing 3
      (2 ∷ 0 ∷ 1 ∷ []) (Perm.cons 2 (Perm.swap _ _ _))

abbrev two_late : List ℕ
two_late = 2 ∷ 0 ∷ []

two_late-Nodup : Nodup two_late
two_late-Nodup = Nodup-cons.1 (
  (λ m. absurd (omega (arith, lt-Mem-below 1 2 m))),
  Nodup-cons.1 ((λ m. absurd (omega (arith, lt-Mem-below 0 0 m))), Nodup-nil),
)

-- Command 1 is not answered yet.

reply_loop-ends_example :
    (r : ℤ × Received) × (reply_loop broken_socket 2 4 (codes "+OK") (pos 0) nothing ≡ some r)
    × (reply broken_socket 4 (codes "+OK") nothing ≡ r)
reply_loop-ends_example = reply_loop-ends broken_socket 4 (codes "+OK") nothing (omega arith)

insert_new_response-short_write_example :
    let (ctx', w') = insert_new_response slow_socket (new_session_ctx 4) 0 (codes "+OK") nothing in
    (slow_socket.received 4 w' ≡ slow_socket.received 4 nothing ++ take 1 (codes "+OK"))
    × (ctx'.to_send_command_id ≡ 0 + 1)
    × (ctx'.buffered_responses ≡ [])
    × (ctx'.is_eof_reach ≡ false)
unfolding new_session_ctx
insert_new_response-short_write_example =
    insert_new_response-short_write slow_socket (new_session_ctx 4) (codes "+OK") nothing 1 refl
      (omega arith) (omega arith) refl

insert_new_response-failed_write_example :
    let (ctx', w') =
      insert_new_response broken_socket (new_session_ctx 4) 0 (codes "+OK") nothing in
    (broken_socket.received 4 w' ≡ broken_socket.received 4 nothing)
    × (ctx'.to_send_command_id ≡ 0 + 1)
    × (ctx'.buffered_responses ≡ [])
    × (ctx'.is_eof_reach ≡ false)
unfolding new_session_ctx
insert_new_response-failed_write_example =
    insert_new_response-failed_write broken_socket (new_session_ctx 4) (codes "+OK") nothing 0 refl
      (omega arith) (omega arith) refl

abbrev one_session : SessionManager × ℕ
one_session = insert_new_staus (new_session_manager 0) 4

insert_new_staus_lem_example :
    let (m', id) = one_session in
    IsSound m'
    × (get_ctx (new_session_manager 0) id ≡ none)
    × (get_ctx m' id ≡ some (length (new_session_manager 0).heap))
    × (get_elem? m'.heap (length (new_session_manager 0).heap)
        ≡ some (record {
          fd = 4;
          to_send_command_id = 0;
          buffered_responses = [];
          is_eof_reach = false;
        }))
    × ((i p : ℕ)
        → get_ctx (new_session_manager 0) i ≡ some p
        → (get_ctx m' i ≡ some p)
          × (get_elem? m'.heap p ≡ get_elem? (new_session_manager 0).heap p))
insert_new_staus_lem_example =
    insert_new_staus_lem (new_session_manager 0) 4 (new_session_manager-IsSound 0)

one_session-IsSound : IsSound one_session.0
one_session-IsSound =
    (insert_new_staus_lem (new_session_manager 0) 4 (new_session_manager-IsSound 0)).0

erase_session_lem_example :
    let (m', w') = erase_session full_socket one_session.0 1 nothing in
    IsSound m'
    × ((i : ℕ) → get_ctx m' i ≡ (if 1 == i then none else get_ctx one_session.0 i))
    × ((p : ℕ) (ctx : SessionCtx)
        → get_ctx one_session.0 1 ≡ some p
        → get_elem? one_session.0.heap p ≡ some ctx
        → (get_elem? m'.heap p ≡ some (record ctx { is_eof_reach = true }))
          × (w' ≡ full_socket.close ctx.fd nothing))
    × ((i p : ℕ)
        → 1 ≢ i
        → get_ctx one_session.0 i ≡ some p
        → get_elem? m'.heap p ≡ get_elem? one_session.0.heap p)
erase_session_lem_example =
    erase_session_lem full_socket one_session.0 1 nothing one_session-IsSound
