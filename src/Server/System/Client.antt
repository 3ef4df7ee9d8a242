-- ===== src/Server/System/Client.antt =====
-- What a client makes of all that it receives in a conversation, when it reads the replies of the
-- protocol one behind the other.
use mathlib.Core.Option.{some-injective}
use logcabin_redis_proxy.Base.{
  ℕ, ◌+◌, ◌≡◌, ◌≢◌, sym, ap, ◌∙◌, List, [], ◌∷◌, ◌++◌, some, length, All, All-get_elem?, append-nil,
  subst, lt-length_of_some, get_elem?-lt, get_elem?, true,
}
use logcabin_redis_proxy.Bytes.{Bytes}
use logcabin_redis_proxy.Handler.Calls.{Tree}
use logcabin_redis_proxy.Handler.Monad.{Outcome, returned, undefined}
use logcabin_redis_proxy.Handler.Safety.{Fetched}
use logcabin_redis_proxy.Handler.Types.{
  ReplyType, values, only_error, reply_type, HasType, HasType-IsReadable,
}
use logcabin_redis_proxy.Resp.Decoder.RoundTrip.{IsSendable, all_written}
use logcabin_redis_proxy.Resp.Replies.Stream.{Read, responses-Read}
use logcabin_redis_proxy.Resp.Replies.{Answer, print_answer, read_answers, no_cr}
use logcabin_redis_proxy.Server.Dispatch.Answers.{dispatch-IsReplyOf}
use logcabin_redis_proxy.Server.Dispatch.Case.{in_capitals}
use logcabin_redis_proxy.Server.Dispatch.{dispatch}
use logcabin_redis_proxy.Server.State.{Environment, Server, running}
use logcabin_redis_proxy.Server.System.Answers.{IsAnswer}
use logcabin_redis_proxy.Server.System.Conversation.{Reaches-received_requests}
use logcabin_redis_proxy.Server.System.Inputs.{input}
use logcabin_redis_proxy.Server.System.{Reaches, IsFree, new_server}
use logcabin_redis_proxy.Server.Workers.{accept_tcp_handler}
use logcabin_redis_proxy.Session.Manager.{get_ctx}
use logcabin_redis_proxy.Session.Order.{AcceptsAll, responses}
use logcabin_redis_proxy.Session.{SessionCtx}

-- The type of the reply to a request.
unfoldable pub request_type : List Bytes → ReplyType
request_type [] = only_error
request_type (name ∷ args) = reply_type (in_capitals name)

module _ (tree : Tree) where
  -- An answer to a request: what the dispatch of it returned, in the terms of the protocol, of the
  -- type of its command.
  abbrev pub IsAnswered : List Bytes → Answer → Type 0
  IsAnswered request a =
      IsAnswer tree request (print_answer a)
      × HasType (Fetched tree) (length request) (request_type request) a

  -- The values that a reply holds in single lines are of one line each.
  abbrev pub HasLines : List Bytes → Type 0
  HasLines request = request_type request ≡ values → (v : Bytes) → Fetched tree v → no_cr v ≡ true

  returned_inj : {A : Type 0} (a b : A) → returned a ≡ returned b → a ≡ b
  returned_inj a b e = cc

  not_returned : {A : Type 0} (a : A) → ◌≡◌ {A = Outcome A} undefined (returned a) → ⊥
  not_returned a e = cc

  -- A response is the print of an answer.
  IsAnswer-IsAnswered :
      (request : List Bytes) (response : Bytes)
      → IsAnswer tree request response
      → (a : Answer) × (response ≡ print_answer a) × IsAnswered request a
  unfolding request_type dispatch
  IsAnswer-IsAnswered [] response (h, e, is_returned, is_response) =
      absurd (not_returned e is_returned)
  IsAnswer-IsAnswered (name ∷ args) response (h, e, is_returned, is_response) =
      let (e', is_returned', reply) = dispatch-IsReplyOf tree name args h in
      let same : e' ≡ e = returned_inj e' e (sym is_returned' ∙ is_returned) in
      (
        reply.answer,
        sym is_response ∙ sym (ap (λ x. x.response) same) ∙ reply.is_printed,
        ((h, e', is_returned', reply.is_printed), reply.typed),
      )

  -- The responses to the requests are read as answers to them.
  answers-Read :
      (rs : List (List Bytes)) (f : ℕ → Bytes)
      → All HasLines rs
      → ((k : ℕ) (request : List Bytes)
          → get_elem? rs k ≡ some request
          → IsAnswer tree request (f k))
      → Read
          (λ k a. (request : List Bytes) → get_elem? rs k ≡ some request → IsAnswered request a)
          f
          (length rs)
  answers-Read rs f lines each = responses-Read (length rs) _ f λ k l.
      let (request, at_k) = get_elem?-lt rs k l in
      let (a, is_print, answered) = IsAnswer-IsAnswered request (f k) (each k request at_k) in
      (
        a,
        is_print,
        HasType-IsReadable (Fetched tree) (All-get_elem? HasLines rs k at_k lines) answered.1,
        λ other at_k'. subst (λ r. IsAnswered r a) (some-injective _ _ (sym at_k ∙ at_k')) answered,
      )

module _ (env : Environment) where
  open env use {event_loop, socket, tree}

  module _ (accepting : AcceptsAll socket) (loop : event_loop.Loop) (memory : ℕ)
      (cluster : tree.World) (world : socket.World) (s u t : Server env) (client_fd buffer : ℕ)
      (before : Reaches env (new_server env loop memory cluster world) (running s))
      (free : IsFree client_fd s.manager)
      (opened : accept_tcp_handler env (some client_fd) buffer s ≡ running u)
      (after : Reaches env u (running t)) where
    -- A process has come to any state `s`, accepts a connection there on a descriptor that no open session
    -- has, and goes on to any state `t`, while the loop and both pools take their steps in any order,
    -- bytes are read in pieces of any size, and sockets take every write. All that was read from the
    -- connection is the encoding of the requests `rs`, each of at least one string and with a last
    -- string that is not empty, fewer than 2^31 strings in each and fewer than 2^31 bytes in a string; the values that the cluster returns have no
    -- carriage return where one of these requests is an MGET; the new session is open at `t`, and neither
    -- pool holds anything of it. Then the client, which reads replies of the protocol one behind the
    -- other, finds as many of them as it sent requests and nothing behind them, and the reply number
    -- `k` has the type of the command of request number `k` and is what the dispatch of that request
    -- returned in some state of the cluster.
    pub Reaches-read_answers :
        (rs : List (List Bytes)) (p : ℕ) (sctx : SessionCtx)
        → All IsSendable rs
        → All (HasLines tree) rs
        → input env (length s.contexts) after ≡ all_written rs
        → get_ctx t.manager (s.manager.session_counter + 1) ≡ some p
        → get_elem? t.manager.heap p ≡ some sctx
        → All (λ x. x.session_id ≢ s.manager.session_counter + 1) t.tasks
        → All (λ r. r.session_id ≢ s.manager.session_counter + 1) t.replies
        → (bytes : Bytes) × (answers : List Answer) × (socket.received client_fd t.world
            ≡ socket.received client_fd s.world ++ bytes)
          × (read_answers (length rs) bytes ≡ some (answers, []))
          × (length answers ≡ length rs)
          × ((k : ℕ) (request : List Bytes)
              → get_elem? rs k ≡ some request
              → (a : Answer) × (get_elem? answers k ≡ some a) × IsAnswered tree request a)
    Reaches-read_answers rs p sctx sendable lines sent e h no_tasks no_replies =
        let (f, received, each) =
          Reaches-received_requests env accepting loop memory cluster world s u t client_fd buffer
            before free opened after rs p sctx sendable sent e h no_tasks no_replies in
        let read = answers-Read tree rs f lines each in
        (
          responses f (length rs),
          read.answers,
          received,
          ap (read_answers (length rs)) (sym (append-nil (responses f (length rs))))
              ∙ read.reads [],
          read.in_full,
          λ k request g.
              let (a, at_k, answered) = read.each k (lt-length_of_some rs k request g) in
              (a, at_k, answered request g),
        )
