-- ===== src/Server/System/Ids.antt =====
-- The session ids that are in use.
use logcabin_redis_proxy.Base.{
  ℕ, ◌+◌, ◌≤◌, ◌≡◌, sym, subst, List, [], ◌∷◌, ◌++◌, some, arith, All, All-append, All-middle,
  All-map, All-get_elem?, inl, inr,
}
use logcabin_redis_proxy.Resp.Decoder.{DecodeContext, new_decode_context}
use logcabin_redis_proxy.Resp.{Command}
use logcabin_redis_proxy.Server.State.{Environment, Server, Ran, running, terminated, undefined}
use logcabin_redis_proxy.Session.Manager.{insert_new_staus}
use logcabin_redis_proxy.Server.System.Pools.{
  SamePools, sender_worker-SamePools, drop_client-SamePools,
}
use logcabin_redis_proxy.Server.System.Reads.{ReadCase, read_by-case}
use logcabin_redis_proxy.Server.System.Safety.{IsFit, IsFitContext, has_elem, HasRequest, processed}
use logcabin_redis_proxy.Server.State.Contexts.{All-store_context}
use logcabin_redis_proxy.Server.System.{Step, accepts, reads, processes, sends}
use logcabin_redis_proxy.Server.Workers.{read_from_client, accept_tcp_handler, enqueued, send_reply}

All-enqueued :
    (P : ℕ → Type 0) (i : ℕ) (new : List Command) → P i → All (λ t. P t.session_id) (enqueued i new)
All-enqueued P i [] p = tt
All-enqueued P i (c ∷ new) p = (p, All-enqueued P i new p)

module _ (env : Environment) where
  -- No id is above the counter.
  pub record IdsUsed (s : Server env) : Type 0 where
    pub contexts : All (λ c. c.session_id ≤ s.manager.session_counter) s.contexts
    pub tasks : All (λ t. t.session_id ≤ s.manager.session_counter) s.tasks
    pub replies : All (λ r. r.session_id ≤ s.manager.session_counter) s.replies

  unfoldable pub AfterUsed : Ran env → Type 0
  AfterUsed (running s) = IdsUsed s
  AfterUsed terminated = Unit
  AfterUsed undefined = Unit

  SamePools-IdsUsed : (s t : Server env) → SamePools env s t → IdsUsed s → IdsUsed t
  SamePools-IdsUsed s t p u = record {
    contexts = go (λ c. c.session_id) p.contexts u.contexts;
    tasks = go (λ x. x.session_id) p.tasks u.tasks;
    replies = go (λ r. r.session_id) p.replies u.replies;
  }
    where
      go :
          {A : Type 0} (id : A → ℕ) {xs ys : List A}
          → ys ≡ xs
          → All (λ a. id a ≤ s.manager.session_counter) xs
          → All (λ a. id a ≤ t.manager.session_counter) ys
      go id e v =
          subst (All (λ a. id a ≤ t.manager.session_counter)) (sym e)
            (All-map _ _ _ (λ a h. omega (arith, h, p.counter)) v)

  accepted-IdsUsed :
      (client_fd memory : ℕ) (s : Server env)
      → IdsUsed s
      → AfterUsed (accept_tcp_handler env (some client_fd) memory s)
  unfolding accept_tcp_handler AfterUsed insert_new_staus new_decode_context
  accepted-IdsUsed client_fd memory s u = record {
    contexts =
        All-append _ s.contexts _ (later (λ c. c.session_id) s.contexts u.contexts)
          (omega arith, tt);
    tasks = later (λ x. x.session_id) s.tasks u.tasks;
    replies = later (λ r. r.session_id) s.replies u.replies;
  }
    where
      later :
          {A : Type 0} (id : A → ℕ) (xs : List A)
          → All (λ a. id a ≤ s.manager.session_counter) xs
          → All (λ a. id a ≤ s.manager.session_counter + 1) xs
      later id xs v = All-map _ _ xs (λ a h. omega (arith, h)) v

  read-IdsUsed :
      (fd data_ptr : ℕ) (ctx : DecodeContext) (s : Server env) (o : Ran env)
      → ctx.session_id ≤ s.manager.session_counter
      → ReadCase env fd data_ptr ctx s o
      → IdsUsed s
      → AfterUsed o
  unfolding AfterUsed
  read-IdsUsed fd data_ptr ctx s o used (inl e) u =
      subst AfterUsed (sym e) (SamePools-IdsUsed s _ (drop_client-SamePools env s fd ctx) u)
  read-IdsUsed fd data_ptr ctx s o used (inr (inl h)) u = subst AfterUsed (sym h.result) (record {
    contexts =
        All-store_context _ s.contexts data_ptr h.context
          (subst (λ n. n ≤ s.manager.session_counter) (sym h.same_id) used) u.contexts;
    tasks =
        All-append _ s.tasks _ u.tasks
          (All-enqueued (λ n. n ≤ s.manager.session_counter) ctx.session_id h.new used);
    replies = u.replies;
  })
  read-IdsUsed fd data_ptr ctx s o used (inr (inr e)) u = subst AfterUsed (sym e) tt

  pub Step-IdsUsed :
      (s : Server env) (o : Ran env) → IsFit env s → IdsUsed s → Step env s o → AfterUsed o
  unfolding AfterUsed read_from_client send_reply
  Step-IdsUsed s o v u (accepts client_fd memory free) = accepted-IdsUsed client_fd memory s u
  Step-IdsUsed s o v u (reads fd data_ptr r h) =
      let (ctx, e) = has_elem s.contexts data_ptr h in
      rw e (
        read-IdsUsed fd data_ptr ctx s _
          (All-get_elem? (λ c. c.session_id ≤ s.manager.session_counter) s.contexts data_ptr e
            u.contexts)
          (read_by-case env fd data_ptr ctx s r
            (All-get_elem? IsFitContext s.contexts data_ptr e v.contexts))
          u)
  Step-IdsUsed s o v u (processes t before behind e) =
      let (used, others) =
        All-middle (λ x. x.session_id ≤ s.manager.session_counter) before t behind
          (subst (All _) e u.tasks) in
      let (fit, w) = All-middle HasRequest before t behind (subst (All HasRequest) e v.tasks) in
      let (r, h, a, q) = processed env t (record s { tasks = before ++ behind }) fit in
      subst AfterUsed (sym q) (record {
        contexts = u.contexts;
        tasks = others;
        replies = All-append _ s.replies _ u.replies (used, tt);
      })
  Step-IdsUsed s o v u (sends r before behind e) =
      let (used, others) =
        All-middle (λ x. x.session_id ≤ s.manager.session_counter) before r behind
          (subst (All _) e u.replies) in
      let s' = record s { replies = before ++ behind } in
      SamePools-IdsUsed s' _ (sender_worker-SamePools env s' r)
        (record { contexts = u.contexts; tasks = u.tasks; replies = others })
