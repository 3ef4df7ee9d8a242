-- ===== src/Server/System/Isolation.antt =====
-- What a worker that sends a reply does to the sessions of other connections.
use logcabin_redis_proxy.Base.{
  ℕ, ◌≡◌, ◌≢◌, refl, sym, ap, ◌∙◌, Bool, true, false, not, if◌then◌else◌, Option, none, some,
  Option-cases, inl, inr, get_elem?,
}
use logcabin_redis_proxy.Server.State.{Environment, Reply, Server}
use logcabin_redis_proxy.Server.Workers.{sender_worker, insert_through}
use logcabin_redis_proxy.Session.Isolation.{insert_new_response-other}
use logcabin_redis_proxy.Session.Manager.Heap.{get_elem?-store_ne}
use logcabin_redis_proxy.Session.Manager.Laws.{IsSound}
use logcabin_redis_proxy.Session.Manager.{get_ctx}
use logcabin_redis_proxy.Session.{SessionCtx}

module _ (env : Environment) (r : Reply) (s : Server env) where
  open env use {socket}

  -- The table, the context behind `q` and what the peer of `fd` has received are as before.
  pub record Leaves (q fd : ℕ) (t : Server env) : Type 0 where
    pub table : (j : ℕ) → get_ctx t.manager j ≡ get_ctx s.manager j
    pub context : get_elem? t.manager.heap q ≡ get_elem? s.manager.heap q
    pub peer : socket.received fd t.world ≡ socket.received fd s.world

  if-Leaves :
      (q fd : ℕ) (b : Bool) (t u : Server env)
      → Leaves q fd t
      → Leaves q fd u
      → Leaves q fd (if b then t else u)
  if-Leaves q fd true t u v w = v
  if-Leaves q fd false t u v w = w

  insert_through-Leaves :
      (p q fd : ℕ) (o : Option SessionCtx)
      → get_elem? s.manager.heap p ≡ o
      → p ≢ q
      → ((ctx : SessionCtx) → get_elem? s.manager.heap p ≡ some ctx → ctx.fd ≢ fd)
      → Leaves q fd (insert_through env p r.command_id r.response o s)
  unfolding get_ctx
  insert_through-Leaves p q fd none e h k = record {
    table = λ j. refl;
    context = refl;
    peer = refl;
  }
  insert_through-Leaves p q fd (some ctx) e h k =
      if-Leaves q fd (not ctx.is_eof_reach) _ s
        (record {
          table = λ j. refl;
          context = get_elem?-store_ne s.manager.heap p q _ h;
          peer =
              (insert_new_response-other socket fd ctx r.command_id r.response s.world (k ctx e)).0;
        })
        (record { table = λ j. refl; context = refl; peer = refl })

  -- A worker that sends a reply, in a sound table of sessions, leaves the table as it is, and the context
  -- of every other session, and what has been received by the peer of every descriptor but that of
  -- the reply's session.
  pub sender_worker-other :
      (j q fd : ℕ)
      → IsSound s.manager
      → r.session_id ≢ j
      → get_ctx s.manager j ≡ some q
      → ((p : ℕ) (ctx : SessionCtx)
          → get_ctx s.manager r.session_id ≡ some p
          → get_elem? s.manager.heap p ≡ some ctx
          → ctx.fd ≢ fd)
      → Leaves q fd (sender_worker env r s)
  unfolding sender_worker
  sender_worker-other j q fd v h e k = elim (Option-cases (get_ctx s.manager r.session_id)) [
    | inl f ↦ rw f (record { table = λ i. refl; context = refl; peer = refl })
    | inr (p, f) ↦ rw f (
        insert_through-Leaves p q fd (get_elem? s.manager.heap p) refl
          (λ same. h (v.unshared r.session_id j p f (e ∙ ap some (sym same))))
          (λ ctx g. k p ctx f g))
  ]
