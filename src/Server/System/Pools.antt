-- ===== src/Server/System/Pools.antt =====
-- What a worker that sends a reply, or the end of a connection, leaves alone.
use logcabin_redis_proxy.Base.{
  ℕ, ◌+◌, ◌≡◌, refl, arith, Bool, true, false, not, if◌then◌else◌, Option, none, some, Option-cases,
  inl, inr, get_elem?,
}
use logcabin_redis_proxy.Resp.Decoder.{DecodeContext}
use logcabin_redis_proxy.Server.State.{Environment, Reply, Server}
use logcabin_redis_proxy.Server.Workers.{sender_worker, insert_through, drop_client}
use logcabin_redis_proxy.Session.Isolation.{insert_new_response-other}
use logcabin_redis_proxy.Session.Manager.Descriptors.{descriptors, descriptors-store}
use logcabin_redis_proxy.Session.Manager.Laws.{same_counter}
use logcabin_redis_proxy.Session.Manager.{get_ctx}
use logcabin_redis_proxy.Session.{SessionCtx}

module _ (env : Environment) (s : Server env) where
  -- The same contexts, pools and counter.
  pub record SamePools (t : Server env) : Type 0 where
    pub contexts : t.contexts ≡ s.contexts
    pub tasks : t.tasks ≡ s.tasks
    pub replies : t.replies ≡ s.replies
    pub counter : t.manager.session_counter ≡ s.manager.session_counter

  s-SamePools : SamePools s
  s-SamePools = record { contexts = refl; tasks = refl; replies = refl; counter = refl }

  if-SamePools :
      (b : Bool) (t u : Server env) → SamePools t → SamePools u → SamePools (if b then t else u)
  if-SamePools true t u v w = v
  if-SamePools false t u v w = w

  insert_through-SamePools :
      (r : Reply) (p : ℕ) (o : Option SessionCtx)
      → SamePools (insert_through env p r.command_id r.response o s)
  insert_through-SamePools r p none = s-SamePools
  insert_through-SamePools r p (some c) =
      if-SamePools (not c.is_eof_reach) _ s
        (record { contexts = refl; tasks = refl; replies = refl; counter = refl }) s-SamePools

  pub sender_worker-SamePools : (r : Reply) → SamePools (sender_worker env r s)
  unfolding sender_worker
  sender_worker-SamePools r = elim (Option-cases (get_ctx s.manager r.session_id)) [
    | inl e ↦ rw e s-SamePools
    | inr (p, e) ↦ rw e (insert_through-SamePools r p (get_elem? s.manager.heap p))
  ]

  pub drop_client-SamePools : (fd : ℕ) (ctx : DecodeContext) → SamePools (drop_client env fd ctx s)
  unfolding drop_client
  drop_client-SamePools fd ctx = record {
    contexts = refl;
    tasks = refl;
    replies = refl;
    counter = same_counter env.socket s.manager ctx.session_id s.world;
  }

module _ (env : Environment) (r : Reply) (s : Server env) where
  -- The same table and the same descriptors.
  abbrev IsLike : Server env → Type 0
  IsLike t =
      ((j : ℕ) → get_ctx t.manager j ≡ get_ctx s.manager j)
      × (descriptors t.manager.heap ≡ descriptors s.manager.heap)

  if-IsLike : (b : Bool) (t u : Server env) → IsLike t → IsLike u → IsLike (if b then t else u)
  if-IsLike true t u v w = v
  if-IsLike false t u v w = w

  insert_through-table :
      (p : ℕ) (o : Option SessionCtx)
      → get_elem? s.manager.heap p ≡ o
      → IsLike (insert_through env p r.command_id r.response o s)
  unfolding get_ctx
  insert_through-table p none e = ((λ j. refl), refl)
  insert_through-table p (some c) e =
      if-IsLike (not c.is_eof_reach) _ s
        (
          (λ j. refl),
          descriptors-store s.manager.heap p _ e
              (insert_new_response-other env.socket (c.fd + 1) c r.command_id r.response s.world
                (omega arith)).1,
        )
        ((λ j. refl), refl)

  -- To send a reply leaves the table and the descriptors as they are.
  pub sender_worker-table : IsLike (sender_worker env r s)
  unfolding sender_worker
  sender_worker-table = elim (Option-cases (get_ctx s.manager r.session_id)) [
    | inl e ↦ rw e ((λ j. refl), refl)
    | inr (p, e) ↦ rw e (insert_through-table p (get_elem? s.manager.heap p) refl)
  ]
