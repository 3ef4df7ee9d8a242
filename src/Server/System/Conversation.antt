-- ===== src/Server/System/Conversation.antt =====
-- A whole conversation: from the requests that a client sends to the answers that it receives.
use mathlib.Core.Option.{some-injective}
use logcabin_redis_proxy.Base.{
  ℕ, zero, suc, ◌+◌, ◌≡◌, ◌≢◌, refl, sym, ap, subst, ◌∙◌, List, [], ◌∷◌, ◌++◌, some, length, arith,
  All, get_elem?, get_elem?-append, lt-length_of_some,
}
use logcabin_redis_proxy.Bytes.{Bytes}
use logcabin_redis_proxy.Resp.Decoder.RoundTrip.{
  IsIdle, IsSendable, all_written, numbered, finish_requests, feed-all_written,
  handled-finish_requests,
}
use logcabin_redis_proxy.Resp.Decoder.{DecodeContext, new_decode_context, feed}
use logcabin_redis_proxy.Resp.Decoder
use logcabin_redis_proxy.Server.State.{Environment, Server, running}
use logcabin_redis_proxy.Server.System.Delivery.{Reaches-received_idle}
use logcabin_redis_proxy.Server.System.Inputs.{input, Decodes, AfterDecodes, Reaches-Decodes}
use logcabin_redis_proxy.Server.System.Answers.{IsAnswer}
use logcabin_redis_proxy.Server.System.Safety.{IsFit, Keeps, Step-IsFit, Reaches-IsFit}
use logcabin_redis_proxy.Server.System.{accepts, Reaches, IsFree, new_server}
use logcabin_redis_proxy.Server.Workers.{accept_tcp_handler}
use logcabin_redis_proxy.Session.Manager.{get_ctx, insert_new_staus}
use logcabin_redis_proxy.Session.Order.{AcceptsAll, responses}
use logcabin_redis_proxy.Session.{SessionCtx}

new_decode_context-IsIdle : (id memory : ℕ) → IsIdle (new_decode_context id memory)
unfolding new_decode_context
new_decode_context-IsIdle id memory = record { at_init = refl; no_elements = refl; no_bytes = refl }

ok_inj : (a b : DecodeContext) → Decoder.ok a ≡ Decoder.ok b → a ≡ b
ok_inj a b e = cc

length-numbered : (n : ℕ) (rs : List (List Bytes)) → length (numbered n rs) ≡ length rs
length-numbered n [] = refl
length-numbered n (r ∷ rs) = ap suc (length-numbered (n + 1) rs)

get_elem?-numbered :
    (n : ℕ) (rs : List (List Bytes)) (k : ℕ) (request : List Bytes)
    → get_elem? rs k ≡ some request
    → get_elem? (numbered n rs) k ≡ some (record { command_id = n + k; request = request })
get_elem?-numbered n [] k request e = cc
get_elem?-numbered n (r ∷ rs) zero request e =
    ap (λ x. some (record { command_id = n; request = x })) (some-injective _ _ e)
    ∙ ap (λ j. some (record { command_id = j; request = request })) (omega arith)
get_elem?-numbered n (r ∷ rs) (suc k) request e =
    get_elem?-numbered (n + 1) rs k request e
    ∙ ap (λ j. some (record { command_id = j; request = request })) (omega arith)

module _ (env : Environment) where
  open env use {event_loop, socket, tree}

  opened-Decodes :
      (client_fd buffer : ℕ) (s : Server env)
      → AfterDecodes env
          (length s.contexts)
          (new_decode_context (s.manager.session_counter + 1) buffer)
          []
          (accept_tcp_handler env (some client_fd) buffer s)
  unfolding AfterDecodes accept_tcp_handler insert_new_staus
  opened-Decodes client_fd buffer s = record {
    ctx = new_decode_context (s.manager.session_counter + 1) buffer;
    at_d = get_elem?-append s.contexts [] _;
    fed = feed-all_written _ [] (new_decode_context-IsIdle _ buffer) tt;
  }

  module _ (accepting : AcceptsAll socket) (loop : event_loop.Loop) (memory : ℕ)
      (cluster : tree.World) (world : socket.World) (s u t : Server env) (client_fd buffer : ℕ)
      (before : Reaches env (new_server env loop memory cluster world) (running s))
      (free : IsFree client_fd s.manager)
      (opened : accept_tcp_handler env (some client_fd) buffer s ≡ running u)
      (after : Reaches env u (running t)) where
    -- What was decoded, where the client has sent encoded requests.
    decoded_requests :
        (rs : List (List Bytes)) (ctx : DecodeContext)
        → All IsSendable rs
        → input env (length s.contexts) after ≡ all_written rs
        → get_elem? t.contexts (length s.contexts) ≡ some ctx
        → ctx.handled ≡ numbered 0 rs
    unfolding AfterDecodes Keeps new_decode_context
    decoded_requests rs ctx sendable sent at =
        let c0 = new_decode_context (s.manager.session_counter + 1) buffer in
        let fit_u : IsFit env u = subst (Keeps env) opened (
          Step-IsFit env s _ (Reaches-IsFit env loop memory cluster world (running s) before)
            (accepts client_fd buffer free)) in
        let at_start : Decodes env (length s.contexts) c0 [] u =
          subst (AfterDecodes env (length s.contexts) c0 []) opened
            (opened-Decodes client_fd buffer s) in
        let k : Decodes env (length s.contexts) c0 (input env (length s.contexts) after) t =
          (Reaches-Decodes env (length s.contexts) c0 u (running t) after fit_u at_start).1 in
        let same : ctx ≡ k.ctx = some-injective _ _ (sym at ∙ k.at_d) in
        let fed : Decoder.ok (record c0 { progress = finish_requests c0.progress rs })
            ≡ Decoder.ok k.ctx =
          sym (feed-all_written c0 rs (new_decode_context-IsIdle _ buffer) sendable)
          ∙ ap (feed c0) (sym sent)
          ∙ k.fed in
        ap (λ c. c.handled) same
        ∙ ap (λ c. c.handled) (sym (ok_inj _ _ fed))
        ∙ handled-finish_requests c0.progress rs

    -- A process has come to any state `s`, accepts a connection there on a descriptor that no open session
    -- has, and goes on to any state `t`, while the loop and both pools take their steps in any order,
    -- bytes are read in pieces of any size, and sockets take every write. If all that was read from the
    -- connection is the encoding of the requests `rs`, each of at least one string and with a last
    -- string that is not empty, fewer than 2^31 strings in each and fewer than 2^31 bytes in a string, the new session is open at `t`, and neither pool
    -- holds anything of it, its client has received one answer to each of the requests, in their order
    -- and nothing else: each is what the dispatch of that request returned in some state of the
    -- cluster.
    pub Reaches-received_requests :
        (rs : List (List Bytes)) (p : ℕ) (sctx : SessionCtx)
        → All IsSendable rs
        → input env (length s.contexts) after ≡ all_written rs
        → get_ctx t.manager (s.manager.session_counter + 1) ≡ some p
        → get_elem? t.manager.heap p ≡ some sctx
        → All (λ x. x.session_id ≢ s.manager.session_counter + 1) t.tasks
        → All (λ r. r.session_id ≢ s.manager.session_counter + 1) t.replies
        → (f : ℕ → Bytes) × (socket.received client_fd t.world
            ≡ socket.received client_fd s.world ++ responses f (length rs))
          × ((k : ℕ) (request : List Bytes)
              → get_elem? rs k ≡ some request
              → IsAnswer tree request (f k))
    Reaches-received_requests rs p sctx sendable sent e h no_tasks no_replies =
        let (ctx, f, at, n, received, answers) =
          Reaches-received_idle env accepting loop memory cluster world s u t client_fd buffer
            before free opened after p sctx e h no_tasks no_replies in
        let log : ctx.handled ≡ numbered 0 rs = decoded_requests rs ctx sendable sent at in
        let all : length ctx.handled ≡ length rs = ap length log ∙ length-numbered 0 rs in
        (
          f,
          received ∙ ap (λ j. socket.received client_fd s.world ++ responses f j) all,
          λ k request g.
              let (asked, is_asked, answer) =
                answers k (omega (arith, lt-length_of_some rs k request g, all)) in
              subst (λ x. IsAnswer tree x (f k))
                (ap (λ c. c.request)
                  (some-injective _ _ (
                    sym is_asked
                    ∙ ap (λ l. get_elem? l k) log
                    ∙ get_elem?-numbered 0 rs k request g)))
                answer,
        )
