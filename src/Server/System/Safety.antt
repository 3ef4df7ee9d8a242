-- ===== src/Server/System/Safety.antt =====
-- What the process keeps, whatever the order of its steps.
use logcabin_redis_proxy.Base.{
  ℕ, zero, suc, ◌+◌, ◌<◌, ◌≡◌, ◌≢◌, refl, sym, subst, List, [], ◌∷◌, ◌++◌, Option, none, some,
  length, drop, get_elem?, All, All-append, All-middle, All-get_elem?, Option-cases, inl, inr,
  Bool-cases, arith,
}
use logcabin_redis_proxy.Bytes.{Bytes}
use logcabin_redis_proxy.Handler.Monad.{HandlerState, returned}
use logcabin_redis_proxy.Resp.Decoder.Invariant.{
  AreNumbered, IsWellFormed, FeedKeeps, feed-IsWellFormed, new_decode_context-IsWellFormed,
}
use logcabin_redis_proxy.Resp.Decoder.{
  DecodeContext, Decoded, threw, out_of_fuel, new_decode_context, feed,
}
use logcabin_redis_proxy.Resp.Decoder
use logcabin_redis_proxy.Resp.{Command, EncodeResult}
use logcabin_redis_proxy.Server.Dispatch.Answers.{dispatch-answers}
use logcabin_redis_proxy.Server.Dispatch.{dispatch}
use logcabin_redis_proxy.Server.State.{
  Environment, Task, Reply, Server, Ran, running, terminated, undefined,
}
use logcabin_redis_proxy.Server.State.Contexts.{All-store_context}
use logcabin_redis_proxy.Server.System.{
  Step, accepts, reads, processes, sends, Reaches, starts, continues, new_server,
}
use logcabin_redis_proxy.Server.Workers.{
  ReadResult, read_error, read_bytes, processer_worker, sender_worker, read_from_client,
  accept_tcp_handler, drop_client, enqueued, send_reply, insert_through, decoded, read_by,
}
use logcabin_redis_proxy.Session.Manager.Laws.{
  IsSound, insert_new_staus-added, erase_session_lem, store-IsSound, new_session_manager-IsSound,
}
use logcabin_redis_proxy.Session.Manager.{get_ctx}
use logcabin_redis_proxy.Session.{SessionCtx}

pub has_elem :
    {A : Type 0} (xs : List A) (i : ℕ) → i < length xs → (x : A) × (get_elem? xs i ≡ some x)
has_elem [] i h = absurd (omega (arith, h))
has_elem (x ∷ xs) zero h = (x, refl)
has_elem (x ∷ xs) (suc i) h = has_elem xs i (omega (arith, h))

pub has_name : (l : List Bytes) → l ≢ [] → (name : Bytes) × (args : List Bytes) × (l ≡ name ∷ args)
has_name [] h = absurd (h refl)
has_name (name ∷ args) h = (name, args, refl)

abbrev pub HasRequest : Task → Type 0
HasRequest t = t.request ≢ []

All-enqueued :
    (session_id n m : ℕ) (k : ℕ) (cs : List Command)
    → AreNumbered n cs m
    → All HasRequest (enqueued session_id (drop k cs))
All-enqueued session_id n m zero [] v = tt
All-enqueued session_id n m (suc k) [] v = tt
All-enqueued session_id n m zero (c ∷ cs) v = (v.1, All-enqueued session_id (n + 1) m zero cs v.2)
All-enqueued session_id n m (suc k) (c ∷ cs) v = All-enqueued session_id (n + 1) m k cs v.2

abbrev pub IsFitContext : DecodeContext → Type 0
IsFitContext ctx = IsWellFormed ctx.progress

-- The table of sessions is sound, the decode contexts are well formed, and no request in the pool is
-- empty.
pub record IsFit (env : Environment) (s : Server env) : Type 0 where
  pub manager : IsSound s.manager
  pub contexts : All IsFitContext s.contexts
  pub tasks : All HasRequest s.tasks

-- What is kept where the process goes: a process that an exception has ended has no state to keep.
unfoldable pub Keeps : (env : Environment) → Ran env → Type 0
Keeps env (running s) = IsFit env s
Keeps env terminated = Unit
Keeps env undefined = ⊥

module _ (env : Environment) where
  open env use {event_loop, socket, tree}

  answered :
      (t : Task) (s : Server env) (name : Bytes) (args : List Bytes)
      → t.request ≡ name ∷ args
      → (response : Bytes) × (h : HandlerState tree.World) × (processer_worker env t s
          ≡ running (send_reply env t.command_id t.session_id response (record s { handler = h })))
  unfolding processer_worker
  answered t s name args e =
      let (r, a, v) = dispatch-answers tree name args s.handler in
      (r.response, (dispatch tree (name ∷ args) s.handler).1, rw (e, a) refl)

  -- A worker that takes a task answers with what the dispatch returns.
  pub processed :
      (t : Task) (s : Server env)
      → HasRequest t
      → (e : EncodeResult) × (h : HandlerState tree.World) × ((dispatch tree t.request s.handler).0
          ≡ returned e)
        × (processer_worker env t s
            ≡ running
                (send_reply env t.command_id t.session_id e.response (record s { handler = h })))
  unfolding processer_worker
  processed t s h =
      let (name, args, e) = has_name t.request h in
      let (r, a, v) = dispatch-answers tree name args s.handler in
      (r, (dispatch tree (name ∷ args) s.handler).1, rw e a, rw (e, a) refl)

  -- What a worker that takes a task of the pool leaves: one reply more, with the ids of the task.
  abbrev pub replied : Task → EncodeResult → Server env → Server env
  replied t e s = record s {
    replies =
        s.replies
        ++ (record { response = e.response; command_id = t.command_id; session_id = t.session_id }
            ∷ []);
    handler = (dispatch tree t.request s.handler).1;
  }

  answers :
      (t : Task) (s : Server env)
      → HasRequest t
      → (e : EncodeResult) × ((dispatch tree t.request s.handler).0 ≡ returned e)
        × (processer_worker env t s ≡ running (replied t e s))
  unfolding processer_worker send_reply
  answers t s h =
      let (name, args, n) = has_name t.request h in
      let (e, a, v) = dispatch-answers tree name args s.handler in (e, rw n a, rw (n, a) refl)

  processer_worker-IsFit :
      (t : Task) (s : Server env)
      → HasRequest t
      → IsFit env s
      → Keeps env (processer_worker env t s)
  unfolding send_reply Keeps
  processer_worker-IsFit t s h v =
      let (name, args, e) = has_name t.request h in
      let (response, hs, a) = answered t s name args e in
      subst (Keeps env) (sym a)
        (record { manager = v.manager; contexts = v.contexts; tasks = v.tasks })

  insert_through-IsFit :
      (ptr command_id : ℕ) (resp : Bytes) (o : Option SessionCtx) (s : Server env)
      → IsFit env s
      → IsFit env (insert_through env ptr command_id resp o s)
  insert_through-IsFit ptr command_id resp none s v = v
  insert_through-IsFit ptr command_id resp (some ctx) s v = elim (Bool-cases ctx.is_eof_reach) [
    | inl e ↦ rw e v
    | inr e ↦ rw e (record {
      manager = store-IsSound s.manager ptr _ v.manager;
      contexts = v.contexts;
      tasks = v.tasks;
    })
  ]

  sender_worker-IsFit :
      (r : Reply) (s : Server env) → IsFit env s → IsFit env (sender_worker env r s)
  unfolding sender_worker
  sender_worker-IsFit r s v = elim (Option-cases (get_ctx s.manager r.session_id)) [
    | inl e ↦ rw e v
    | inr (p, e) ↦
        rw e (insert_through-IsFit p r.command_id r.response (get_elem? s.manager.heap p) s v)
  ]

  accept_tcp_handler-IsFit :
      (client_fd memory : ℕ) (s : Server env)
      → IsFit env s
      → Keeps env (accept_tcp_handler env (some client_fd) memory s)
  unfolding accept_tcp_handler Keeps
  accept_tcp_handler-IsFit client_fd memory s v = record {
    manager = (insert_new_staus-added s.manager client_fd v.manager).0;
    contexts =
        All-append IsFitContext s.contexts _ v.contexts
          (new_decode_context-IsWellFormed _ memory, tt);
    tasks = v.tasks;
  }

  drop_client-IsFit :
      (fd : ℕ) (ctx : DecodeContext) (s : Server env)
      → IsFit env s
      → IsFit env (drop_client env fd ctx s)
  unfolding drop_client
  drop_client-IsFit fd ctx s v = record {
    manager = (erase_session_lem socket s.manager ctx.session_id s.world v.manager).0;
    contexts = v.contexts;
    tasks = v.tasks;
  }

  decoded-IsFit :
      (data_ptr : ℕ) (ctx : DecodeContext) (d : Decoded DecodeContext) (s : Server env)
      → FeedKeeps d
      → IsFit env s
      → Keeps env (decoded env data_ptr ctx d s)
  unfolding Keeps
  decoded-IsFit data_ptr ctx (Decoder.ok ctx') s w v = record {
    manager = v.manager;
    contexts = All-store_context IsFitContext s.contexts data_ptr ctx' w v.contexts;
    tasks =
        All-append HasRequest s.tasks _ v.tasks
          (All-enqueued ctx.session_id 0 _ (length ctx.handled) ctx'.handled w.log);
  }
  decoded-IsFit data_ptr ctx (threw e h) s w v = tt
  decoded-IsFit data_ptr ctx out_of_fuel s w v = w

  read_by-IsFit :
      (fd data_ptr : ℕ) (r : ReadResult) (ctx : DecodeContext) (s : Server env)
      → IsFitContext ctx
      → IsFit env s
      → Keeps env (read_by env fd data_ptr r (some ctx) s)
  unfolding Keeps
  read_by-IsFit fd data_ptr read_error ctx s w v = drop_client-IsFit fd ctx s v
  read_by-IsFit fd data_ptr (read_bytes []) ctx s w v = drop_client-IsFit fd ctx s v
  read_by-IsFit fd data_ptr (read_bytes (c ∷ bytes)) ctx s w v =
      decoded-IsFit data_ptr ctx (feed ctx (c ∷ bytes)) s (feed-IsWellFormed ctx (c ∷ bytes) w) v

  -- Every step of the event loop and of the workers keeps the process fit.
  pub Step-IsFit : (s : Server env) (o : Ran env) → IsFit env s → Step env s o → Keeps env o
  unfolding Keeps read_from_client
  Step-IsFit s o v (accepts client_fd memory free) = accept_tcp_handler-IsFit client_fd memory s v
  Step-IsFit s o v (reads fd data_ptr r h) =
      let (ctx, e) = has_elem s.contexts data_ptr h in
      rw e (
        read_by-IsFit fd data_ptr r ctx s
          (All-get_elem? IsFitContext s.contexts data_ptr e v.contexts) v)
  Step-IsFit s o v (processes t before behind e) =
      let (p, q) = All-middle HasRequest before t behind (subst (All HasRequest) e v.tasks) in
      processer_worker-IsFit t (record s { tasks = before ++ behind }) p
        (record { manager = v.manager; contexts = v.contexts; tasks = q })
  Step-IsFit s o v (sends r before behind e) =
      sender_worker-IsFit r (record s { replies = before ++ behind })
        (record { manager = v.manager; contexts = v.contexts; tasks = v.tasks })

  Reaches-Keeps : (s : Server env) (o : Ran env) → IsFit env s → Reaches env s o → Keeps env o
  unfolding Keeps
  Reaches-Keeps s o v starts = v
  Reaches-Keeps s o v (continues {t = t} before step) =
      Step-IsFit t o (Reaches-Keeps s (running t) v before) step

  new_server-IsFit :
      (loop : event_loop.Loop) (memory : ℕ) (cluster : tree.World) (world : socket.World)
      → IsFit env (new_server env loop memory cluster world)
  unfolding new_server
  new_server-IsFit loop memory cluster world = record {
    manager = new_session_manager-IsSound memory;
    contexts = tt;
    tasks = tt;
  }

  -- Whatever the order in which connections are accepted, bytes or errors are read, and both pools run
  -- what they hold, if every accept that is made succeeds: the process never does what is undefined,
  -- and while it runs its table of sessions is sound, its decode contexts are well formed, and no request
  -- in the pool is empty.
  pub Reaches-IsFit :
      (loop : event_loop.Loop) (memory : ℕ) (cluster : tree.World) (world : socket.World)
      (o : Ran env)
      → Reaches env (new_server env loop memory cluster world) o
      → Keeps env o
  Reaches-IsFit loop memory cluster world o =
      Reaches-Keeps (new_server env loop memory cluster world) o
        (new_server-IsFit loop memory cluster world)

  -- In every state that the process can come to, a worker that takes any task of the pool returns. It
  -- leaves the other tasks in their pool and puts exactly one reply behind those of the other pool: what
  -- the dispatch of the task's request returned there, with the task's command id and session id. The
  -- state of the handler is what the dispatch left, and nothing else of the process changes.
  pub Reaches-answers :
      (loop : event_loop.Loop) (memory : ℕ) (cluster : tree.World) (world : socket.World)
      (s : Server env)
      → Reaches env (new_server env loop memory cluster world) (running s)
      → (t : Task) (before behind : List Task) → s.tasks ≡ before ++ (t ∷ behind)
      → (e : EncodeResult) × ((dispatch tree t.request s.handler).0 ≡ returned e)
        × (processer_worker env t (record s { tasks = before ++ behind })
            ≡ running (record s {
              tasks = before ++ behind;
              replies =
                  s.replies
                  ++ (record {
                    response = e.response;
                    command_id = t.command_id;
                    session_id = t.session_id;
                  }
                      ∷ []);
              handler = (dispatch tree t.request s.handler).1;
            }))
  unfolding Keeps
  Reaches-answers loop memory cluster world s r t before behind e =
      let v = Reaches-IsFit loop memory cluster world (running s) r in
      let (p, q) = All-middle HasRequest before t behind (subst (All HasRequest) e v.tasks) in
      answers t (record s { tasks = before ++ behind }) p
