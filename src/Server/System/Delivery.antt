-- ===== src/Server/System/Delivery.antt =====
-- From a connection's requests to what its client receives, whatever the order of the steps.
use mathlib.Core.Option.{some-injective}
use logcabin_redis_proxy.Base.{
  ℕ, ◌+◌, ◌<◌, ◌≡◌, ◌≢◌, refl, sym, ap, subst, ◌∙◌, Bool, false, true, List, [], ◌∷◌, ◌++◌, some,
  length, arith, All, get_elem?, inl, inr, ltb,
}
use logcabin_redis_proxy.Bytes.{Bytes}
use logcabin_redis_proxy.Resp.Decoder.{DecodeContext}
use logcabin_redis_proxy.Server.State.{Environment, Server, Ran, running}
use logcabin_redis_proxy.Server.System.Count.{count, bit}
use logcabin_redis_proxy.Server.System.Ids.{IdsUsed, AfterUsed, Step-IdsUsed}
use logcabin_redis_proxy.Server.System.Answers.{Answered}
use logcabin_redis_proxy.Server.System.Line.{Open}
use logcabin_redis_proxy.Server.System.Opening.{opened-Ledger, opened-Line}
use logcabin_redis_proxy.Server.System.Safety.{IsFit, Keeps, Step-IsFit, Reaches-IsFit}
use logcabin_redis_proxy.Server.System.Tracks.{Tracks, AfterTracks, Step-Tracks}
use logcabin_redis_proxy.Server.System.{accepts, Reaches, starts, continues, IsFree, new_server}
use logcabin_redis_proxy.Server.Workers.{accept_tcp_handler}
use logcabin_redis_proxy.Session.Manager.{insert_new_staus, get_ctx}
use logcabin_redis_proxy.Session.Order.{AcceptsAll, responses}
use logcabin_redis_proxy.Session.{SessionCtx}

count_none :
    {A : Type 0} (session command : A → ℕ) (i k : ℕ) (l : List A)
    → All (λ a. session a ≢ i) l
    → count session command i k l ≡ 0
unfolding count
count_none session command i k [] v = refl
count_none session command i k (a ∷ l) v = ground (arith, count_none session command i k l v.1, v.0)

-- The first number that is not taken, where those below `m` are.
first_not_taken :
    (taken : ℕ → Bool) (n m : ℕ)
    → ((k : ℕ) → bit (taken k) ≡ bit (ltb k m))
    → ((k : ℕ) → k < n → taken k ≡ true)
    → taken n ≡ false
    → n ≡ m
first_not_taken taken n m all below next = ground (arith, all n, all m, below m, next)

module _ (env : Environment) where
  open env use {event_loop, socket, tree}

  module _ (loop : event_loop.Loop) (memory : ℕ) (cluster : tree.World) (world : socket.World) where
    new_server-IdsUsed : IdsUsed env (new_server env loop memory cluster world)
    unfolding new_server
    new_server-IdsUsed = record { contexts = tt; tasks = tt; replies = tt }

    Reaches-IdsUsed :
        (o : Ran env) → Reaches env (new_server env loop memory cluster world) o → AfterUsed env o
    unfolding AfterUsed Keeps
    Reaches-IdsUsed o starts = new_server-IdsUsed
    Reaches-IdsUsed o (continues {t = t} before step) =
        Step-IdsUsed env t o (Reaches-IsFit env loop memory cluster world (running t) before)
          (Reaches-IdsUsed (running t) before) step

  module _ (accepting : AcceptsAll socket) where
    accepted-Tracks :
        (f : ℕ → Bytes) (s : Server env) (client_fd buffer : ℕ)
        → IsFit env s
        → IdsUsed env s
        → IsFree client_fd s.manager
        → AfterTracks env accepting
            (s.manager.session_counter + 1)
            (length s.contexts)
            (length s.manager.heap)
            client_fd
            (socket.received client_fd s.world)
            (accept_tcp_handler env (some client_fd) buffer s)
    unfolding accept_tcp_handler AfterTracks insert_new_staus
    accepted-Tracks f s client_fd buffer v u free = record {
      taken = λ _. false;
      f = f;
      ledger = opened-Ledger env f s _ buffer u refl refl refl refl;
      line = opened-Line env f s _ accepting client_fd v.manager free refl refl;
    }

    Reaches-Tracks :
        (i d q fd : ℕ) (base : Bytes) (s : Server env) (o : Ran env)
        → IsFit env s
        → Tracks env accepting i d q fd base s
        → Reaches env s o
        → Keeps env o × AfterTracks env accepting i d q fd base o
    unfolding AfterTracks Keeps
    Reaches-Tracks i d q fd base s o v k starts = (v, k)
    Reaches-Tracks i d q fd base s o v k (continues {t = t} before step) =
        let (w, l) = Reaches-Tracks i d q fd base s (running t) v k before in
        (Step-IsFit env t o w step, Step-Tracks env accepting i d q fd base t o w l step)

  module _ (accepting : AcceptsAll socket) (loop : event_loop.Loop) (memory : ℕ)
      (cluster : tree.World) (world : socket.World) (s u t : Server env) (client_fd buffer : ℕ)
      (before : Reaches env (new_server env loop memory cluster world) (running s))
      (free : IsFree client_fd s.manager)
      (opened : accept_tcp_handler env (some client_fd) buffer s ≡ running u)
      (after : Reaches env u (running t)) where
    tracked :
        Tracks env accepting
          (s.manager.session_counter + 1)
          (length s.contexts)
          (length s.manager.heap)
          client_fd
          (socket.received client_fd s.world)
          t
    unfolding AfterTracks Keeps AfterUsed
    tracked =
        let fit : IsFit env s = Reaches-IsFit env loop memory cluster world (running s) before in
        let used : IdsUsed env s = Reaches-IdsUsed loop memory cluster world (running s) before in
        let fit_u : IsFit env u =
          subst (Keeps env) opened (Step-IsFit env s _ fit (accepts client_fd buffer free)) in
        let tracks : Tracks env accepting _ _ _ _ _ u =
          subst (AfterTracks env accepting _ _ _ _ _) opened
            (accepted-Tracks accepting (λ _. []) s client_fd buffer fit used free) in
        (Reaches-Tracks accepting _ _ _ _ _ u (running t) fit_u tracks after).1

    -- The session's line, where the session is open.
    at_the_end :
        (p : ℕ) (sctx : SessionCtx)
        → get_ctx t.manager (s.manager.session_counter + 1) ≡ some p
        → get_elem? t.manager.heap p ≡ some sctx
        → (o : Open env accepting
            (s.manager.session_counter + 1)
            (length s.manager.heap)
            client_fd
            (socket.received client_fd s.world)
            tracked.taken
            tracked.f
            t)
          × (o.sctx ≡ sctx)
    at_the_end p sctx e h = elim tracked.line [
      | inl closed ↦ cc
      | inr o ↦
          let same : length s.manager.heap ≡ p = some-injective _ _ (sym o.at_i ∙ e) in
          (o, some-injective _ _ (sym o.at_q ∙ ap (get_elem? t.manager.heap) same ∙ h))
    ]

    -- A process has come to any state `s`, accepts a connection there on a descriptor that no open session
    -- has, and goes on to any state `t`, while the loop and both pools take their steps in any order
    -- and sockets take every write. If the new session is open then, with the context `sctx`, its
    -- client has received on this connection the answers to the requests 0 .. n - 1 that were
    -- decoded from it, in this order and with nothing else, where `n` is the context's next command:
    -- each is what the dispatch of that request returned in some state of the cluster.
    pub Reaches-received :
        (p : ℕ) (sctx : SessionCtx)
        → get_ctx t.manager (s.manager.session_counter + 1) ≡ some p
        → get_elem? t.manager.heap p ≡ some sctx
        → (ctx : DecodeContext) × (f : ℕ → Bytes) × (get_elem? t.contexts (length s.contexts)
            ≡ some ctx)
          × (socket.received client_fd t.world
              ≡ socket.received client_fd s.world ++ responses f sctx.to_send_command_id)
          × ((k : ℕ) → k < sctx.to_send_command_id → Answered tree ctx.handled k (f k))
    Reaches-received p sctx e h =
        let (o, same) = at_the_end p sctx e h in
        let n : o.sctx.to_send_command_id ≡ sctx.to_send_command_id =
          ap (λ c. c.to_send_command_id) same in
        (
          tracked.ledger.ctx,
          tracked.f,
          tracked.ledger.at_d,
          o.ordered.pending.sent
              ∙ ap (λ j. socket.received client_fd s.world ++ responses tracked.f j) n,
          λ k l. tracked.ledger.answers k (o.ordered.pending.below k (omega (arith, l, n))),
        )

    -- A process has come to any state `s`, accepts a connection there on a descriptor that no open session
    -- has, and goes on to any state `t`, while the loop and both pools take their steps in any order
    -- and sockets take every write. If the new session is open then and neither pool holds anything
    -- of it, its client has received on this connection the answers to all the requests that were
    -- decoded from it, each once, in the order of the requests and with nothing else: each is what
    -- the dispatch of that request returned in some state of the cluster.
    pub Reaches-received_idle :
        (p : ℕ) (sctx : SessionCtx)
        → get_ctx t.manager (s.manager.session_counter + 1) ≡ some p
        → get_elem? t.manager.heap p ≡ some sctx
        → All (λ x. x.session_id ≢ s.manager.session_counter + 1) t.tasks
        → All (λ r. r.session_id ≢ s.manager.session_counter + 1) t.replies
        → (ctx : DecodeContext) × (f : ℕ → Bytes) × (get_elem? t.contexts (length s.contexts)
            ≡ some ctx)
          × (sctx.to_send_command_id ≡ length ctx.handled)
          × (socket.received client_fd t.world
              ≡ socket.received client_fd s.world ++ responses f (length ctx.handled))
          × ((k : ℕ) → k < length ctx.handled → Answered tree ctx.handled k (f k))
    Reaches-received_idle p sctx e h no_tasks no_replies =
        let (o, same) = at_the_end p sctx e h in
        let i = s.manager.session_counter + 1 in
        let n = o.sctx.to_send_command_id in
        let all : (k : ℕ)
            → bit (tracked.taken k) ≡ bit (ltb k (length tracked.ledger.ctx.handled)) =
          λ k. omega (
            arith,
            tracked.ledger.once k,
            count_none (λ x. x.session_id) (λ x. x.command_id) i k t.tasks no_tasks,
            count_none (λ r. r.session_id) (λ r. r.command_id) i k t.replies no_replies,
          ) in
        let last : n ≡ length tracked.ledger.ctx.handled =
          first_not_taken tracked.taken n _ all o.ordered.pending.below o.ordered.next in
        let end : sctx.to_send_command_id ≡ length tracked.ledger.ctx.handled =
          sym (ap (λ c. c.to_send_command_id) same) ∙ last in
        (
          tracked.ledger.ctx,
          tracked.f,
          tracked.ledger.at_d,
          end,
          o.ordered.pending.sent
              ∙ ap (λ j. socket.received client_fd s.world ++ responses tracked.f j) last,
          λ k l. tracked.ledger.answers k (o.ordered.pending.below k (omega (arith, l, last))),
        )
