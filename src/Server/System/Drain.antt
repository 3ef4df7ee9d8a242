-- ===== src/Server/System/Drain.antt =====
-- The workers run until both pools are empty.
use logcabin_redis_proxy.Base.{
  ℕ, ◌+◌, ◌<◌, ◌≡◌, refl, sym, ap, subst, ◌∙◌, List, [], ◌∷◌, ◌++◌, some, length, All, get_elem?,
}
use logcabin_redis_proxy.Bytes.{Bytes}
use logcabin_redis_proxy.Resp.Decoder.{DecodeContext}
use logcabin_redis_proxy.Server.State.{Environment, Task, Reply, Server, Ran, running}
use logcabin_redis_proxy.Server.System.Delivery.{Reaches-received_idle}
use logcabin_redis_proxy.Server.System.Answers.{Answered}
use logcabin_redis_proxy.Server.System.Pools.{sender_worker-SamePools, sender_worker-table}
use logcabin_redis_proxy.Server.System.Safety.{
  has_elem, IsFit, Keeps, HasRequest, processed, Step-IsFit, Reaches-IsFit,
}
use logcabin_redis_proxy.Server.System.{
  Step, accepts, processes, sends, Reaches, starts, continues, IsFree, new_server,
}
use logcabin_redis_proxy.Server.Workers.{accept_tcp_handler, send_reply, sender_worker}
use logcabin_redis_proxy.Session.Manager.{get_ctx}
use logcabin_redis_proxy.Session.Order.{AcceptsAll, responses}

module _ (env : Environment) where
  open env use {event_loop, socket, tree}

  Reaches-trans :
      {s t : Server env} {o : Ran env}
      → Reaches env s (running t)
      → Reaches env t o
      → Reaches env s o
  Reaches-trans r starts = r
  Reaches-trans r (continues before step) = continues (Reaches-trans r before) step

  -- The pools of `t` are empty, and it has the sessions and the decode contexts of `s`.
  pub record Drained (s t : Server env) : Type 0 where
    pub steps : Reaches env s (running t)
    pub no_tasks : t.tasks ≡ []
    pub no_replies : t.replies ≡ []
    pub table : (j : ℕ) → get_ctx t.manager j ≡ get_ctx s.manager j
    pub contexts : t.contexts ≡ s.contexts

  after-Step :
      (s t v : Server env)
      → Step env s (running t)
      → ((j : ℕ) → get_ctx t.manager j ≡ get_ctx s.manager j)
      → t.contexts ≡ s.contexts
      → Drained t v
      → Drained s v
  after-Step s t v step table contexts d = record {
    steps = Reaches-trans (continues starts step) d.steps;
    no_tasks = d.no_tasks;
    no_replies = d.no_replies;
    table = λ j. d.table j ∙ table j;
    contexts = d.contexts ∙ contexts;
  }

  drain_replies :
      (waiting : List Reply) (s : Server env)
      → s.tasks ≡ []
      → s.replies ≡ waiting
      → (v : Server env) × Drained s v
  drain_replies [] s e h = (
    s,
    record { steps = starts; no_tasks = e; no_replies = h; table = λ j. refl; contexts = refl },
  )
  drain_replies (r ∷ waiting) s e h =
      let s' = record s { replies = waiting } in
      let same = sender_worker-SamePools env s' r in
      let (v, d) = drain_replies waiting (sender_worker env r s') (same.tasks ∙ e) same.replies in
      (
        v,
        after-Step s (sender_worker env r s') v (sends r [] waiting h)
            (sender_worker-table env r s').0 same.contexts d,
      )

  drain_tasks :
      (waiting : List Task) (s : Server env)
      → IsFit env s
      → s.tasks ≡ waiting
      → (v : Server env) × Drained s v
  unfolding Keeps send_reply
  drain_tasks [] s w h = drain_replies s.replies s h refl
  drain_tasks (t ∷ waiting) s w h =
      let fit : HasRequest t = (subst (All HasRequest) h w.tasks).0 in
      let (e, hs, a, g) = processed env t (record s { tasks = waiting }) fit in
      let s' =
        send_reply env t.command_id t.session_id e.response
          (record s { tasks = waiting; handler = hs }) in
      let step : Step env s (running s') = subst (Step env s) g (processes t [] waiting h) in
      let (v, d) = drain_tasks waiting s' (Step-IsFit env s (running s') w step) refl in
      (v, after-Step s s' v step (λ j. refl) refl d)

  module _ (accepting : AcceptsAll socket) (loop : event_loop.Loop) (memory : ℕ)
      (cluster : tree.World) (world : socket.World) where
    -- A process has come to any state `s`, accepts a connection there on a descriptor that no open session
    -- has, and goes on to any state `t` where the new session is open; sockets take every write. From
    -- there it can go on until both pools are empty, and then the session's client has received on
    -- this connection the answers to all the requests that were decoded from it by `t`, each once, in
    -- the order of the requests and with nothing else.
    pub Reaches-received_drained :
        (s u t : Server env) (client_fd buffer p : ℕ)
        → Reaches env (new_server env loop memory cluster world) (running s)
        → IsFree client_fd s.manager
        → accept_tcp_handler env (some client_fd) buffer s ≡ running u
        → Reaches env u (running t)
        → get_ctx t.manager (s.manager.session_counter + 1) ≡ some p
        → (v : Server env) × (ctx : DecodeContext) × (f : ℕ → Bytes) × Reaches env t (running v)
          × (v.tasks ≡ [])
          × (v.replies ≡ [])
          × (get_elem? t.contexts (length s.contexts) ≡ some ctx)
          × (socket.received client_fd v.world
              ≡ socket.received client_fd s.world ++ responses f (length ctx.handled))
          × ((k : ℕ) → k < length ctx.handled → Answered tree ctx.handled k (f k))
    unfolding Keeps
    Reaches-received_drained s u t client_fd buffer p before free opened after e =
        let start = new_server env loop memory cluster world in
        let come : Reaches env start (running t) =
          Reaches-trans
            (subst (Reaches env start) opened (continues before (accepts client_fd buffer free)))
            after in
        let fit : IsFit env t = Reaches-IsFit env loop memory cluster world (running t) come in
        let (v, d) = drain_tasks t.tasks t fit refl in
        let fit_v : IsFit env v =
          Reaches-IsFit env loop memory cluster world (running v) (Reaches-trans come d.steps) in
        let still_open : get_ctx v.manager (s.manager.session_counter + 1) ≡ some p =
          d.table (s.manager.session_counter + 1) ∙ e in
        let (sctx, h) = has_elem v.manager.heap p (fit_v.manager.in_heap _ p still_open) in
        let (ctx, f, at, n, received, answers) =
          Reaches-received_idle env accepting loop memory cluster world s u v client_fd buffer
            before free opened (Reaches-trans after d.steps) p sctx still_open h
            (subst (All _) (sym d.no_tasks) tt) (subst (All _) (sym d.no_replies) tt) in
        (
          v,
          ctx,
          f,
          d.steps,
          d.no_tasks,
          d.no_replies,
          ap (λ l. get_elem? l (length s.contexts)) (sym d.contexts) ∙ at,
          received,
          answers,
        )
