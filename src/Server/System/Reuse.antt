-- ===== src/Server/System/Reuse.antt =====
-- A descriptor that is closed and accepted again while a worker still holds the context of its old session.
use logcabin_redis_proxy.Base.{
  ℕ, ◌≡◌, refl, sym, ap, subst, ◌∙◌, true, false, [], ◌++◌, some, get_elem?, length,
}
use logcabin_redis_proxy.Resp.Decoder.{DecodeContext}
use logcabin_redis_proxy.Server.State.{
  Environment, Reply, Server, Ran, running, terminated, undefined,
}
use logcabin_redis_proxy.Server.Workers.Parts.{sender_find, sender_insert, inserted}
use logcabin_redis_proxy.Server.Workers.{drop_client, accept_tcp_handler}
use logcabin_redis_proxy.Session.Faults.{insert_next}
use logcabin_redis_proxy.Session.Manager.Descriptors.{erase_session-received}
use logcabin_redis_proxy.Session.Manager.Heap.{get_elem?-append_left, lt-length_of_get_elem?}
use logcabin_redis_proxy.Session.Manager.Laws.{
  IsSound, same_size, insert_new_staus-added, erase_session_lem,
}
use logcabin_redis_proxy.Session.Manager.{SessionManager, get_ctx, insert_new_staus, erase_session}
use logcabin_redis_proxy.Session.Order.{AcceptsAll}
use logcabin_redis_proxy.Session.Reply.{reply_full_write}
use logcabin_redis_proxy.Session.{SessionCtx, new_session_ctx, insert_new_response}

module _ (env : Environment) where
  open env use {socket}

  -- The sessions and the sockets of a running process, where the sessions have a property.
  abbrev Accepted : SessionManager → socket.World → Ran env → Type 0
  Accepted m w (running u) = (u.manager ≡ m) × (u.world ≡ w)
  Accepted m w terminated = ⊥
  Accepted m w undefined = ⊥

  accepted :
      (client_fd memory : ℕ) (s u : Server env)
      → accept_tcp_handler env (some client_fd) memory s ≡ running u
      → Accepted (insert_new_staus s.manager client_fd).0 s.world (running u)
  unfolding accept_tcp_handler
  accepted client_fd memory s u e =
      subst (Accepted (insert_new_staus s.manager client_fd).0 s.world) e (refl, refl)

  module _ (accepts : AcceptsAll socket) (r : Reply) (s u : Server env) (ptr memory event_fd : ℕ)
      (sctx : SessionCtx) (ctx : DecodeContext) where
    -- What is inserted into the context of an erased session.
    stale_receives :
        get_elem? u.manager.heap ptr ≡ some (record sctx { is_eof_reach = true })
        → sctx.buffered_responses ≡ []
        → r.command_id ≡ sctx.to_send_command_id
        → socket.received sctx.fd (sender_insert env ptr r u).world
          ≡ socket.received sctx.fd u.world ++ r.response
    unfolding sender_insert
    stale_receives at empty next =
        let stale : SessionCtx = record sctx { is_eof_reach = true } in
        let full =
          reply_full_write socket sctx.fd r.response u.world (accepts sctx.fd r.response u.world) in
        ap (λ o. socket.received sctx.fd (inserted env ptr r o u).world) at
        ∙ ap
            (λ k. socket.received sctx.fd (insert_new_response socket stale k r.response u.world).1)
            next
        ∙ ap (λ o. socket.received sctx.fd o.1)
            (insert_next socket stale r.response u.world empty full.0)
        ∙ full.1

    -- A worker has found the context of an open session, which has no response buffered and whose next
    -- response the worker has. The table of sessions is sound. Before it inserts the
    -- response, the session's connection ends and is dropped, and the next connection is accepted on
    -- the descriptor that this closed. The new session has a context of its own for the descriptor,
    -- which waits for its first response; yet when sockets take every write, what the worker then
    -- inserts is sent on the same descriptor, to the client of the new connection.
    pub sender_insert-reused :
        IsSound s.manager
        → get_ctx s.manager r.session_id ≡ some ptr
        → get_elem? s.manager.heap ptr ≡ some sctx
        → sctx.is_eof_reach ≡ false
        → sctx.buffered_responses ≡ []
        → r.command_id ≡ sctx.to_send_command_id
        → ctx.session_id ≡ r.session_id
        → accept_tcp_handler env (some sctx.fd) memory (drop_client env event_fd ctx s) ≡ running u
        → (sender_find env r.session_id s ≡ some ptr)
          × (get_ctx u.manager (u.manager.session_counter) ≡ some (length s.manager.heap))
          × (get_elem? u.manager.heap (length s.manager.heap)
              ≡ some (record {
                fd = sctx.fd;
                to_send_command_id = 0;
                buffered_responses = [];
                is_eof_reach = false;
              }))
          × (socket.received sctx.fd (sender_insert env ptr r u).world
              ≡ socket.received sctx.fd s.world ++ r.response)
    unfolding sender_find drop_client insert_new_staus new_session_ctx
    sender_insert-reused v e h alive empty next same opened =
        let laws = erase_session_lem socket s.manager ctx.session_id s.world v in
        let t = (erase_session socket s.manager ctx.session_id s.world).0 in
        let ended = laws.2 ptr sctx (ap (get_ctx s.manager) same ∙ e) h in
        let size = same_size socket s.manager ctx.session_id s.world in
        let added = insert_new_staus-added t sctx.fd laws.0 in
        let (m, w) = accepted sctx.fd memory (drop_client env event_fd ctx s) u opened in
        (
          rw (e, h, alive) refl,
          ap (λ n. get_ctx n n.session_counter) m ∙ added.2 ∙ ap some size,
          ap (get_elem? u.manager.heap) (sym size)
              ∙ ap (λ n. get_elem? n.heap (length t.heap)) m
              ∙ added.3,
          stale_receives
                (ap (λ n. get_elem? n.heap ptr) m
                  ∙ get_elem?-append_left t.heap _ ptr (lt-length_of_get_elem? t.heap ptr ended.0)
                  ∙ ended.0)
                empty next
              ∙ ap (λ x. x ++ r.response)
                  (ap (socket.received sctx.fd) w
                    ∙ erase_session-received socket s.manager ctx.session_id s.world sctx.fd),
        )
