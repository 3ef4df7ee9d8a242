-- ===== src/Server/System/Events/Kept.antt =====
-- What the steps of the driven process keep.
use mathlib.Core.Option.{some-injective}
use logcabin_redis_proxy.Base.{
  ℕ, ◌≡◌, ◌≢◌, refl, sym, subst, ◌∙◌, Bool, true, false, not, Option, none, some, get_elem?, ◌⊎◌,
  inl, inr, Bool-cases, Option-cases, ℕ_discrete, if◌then◌else◌,
}
use logcabin_redis_proxy.Server.State.{Environment, Reply, Server}
use logcabin_redis_proxy.Server.System.Events.{Registers}
use logcabin_redis_proxy.Server.System.Pools.{sender_worker-SamePools, sender_worker-table}
use logcabin_redis_proxy.Server.Workers.{sender_worker, insert_through}
use logcabin_redis_proxy.Session.Manager.Descriptors.{descriptors}
use logcabin_redis_proxy.Session.Manager.Holders.{Holds, Holds-unique}
use logcabin_redis_proxy.Session.Manager.{get_ctx}
use logcabin_redis_proxy.Session.{SessionCtx}

-- The same event loop, contexts, table and descriptors.
pub record Like (env : Environment) (s t : Server env) : Type 0 where
  pub loop : t.loop ≡ s.loop
  pub contexts : t.contexts ≡ s.contexts
  pub table : (j : ℕ) → get_ctx t.manager j ≡ get_ctx s.manager j
  pub heap : descriptors t.manager.heap ≡ descriptors s.manager.heap

module _ (env : Environment) (r : Reply) (s : Server env) where
  if-loop :
      (b : Bool) (t u : Server env)
      → t.loop ≡ s.loop
      → u.loop ≡ s.loop
      → (if b then t else u).loop ≡ s.loop
  if-loop true t u v w = v
  if-loop false t u v w = w

  insert_through-loop :
      (p : ℕ) (o : Option SessionCtx)
      → (insert_through env p r.command_id r.response o s).loop ≡ s.loop
  insert_through-loop p none = refl
  insert_through-loop p (some c) = if-loop (not c.is_eof_reach) _ s refl refl

  sender_worker-loop : (sender_worker env r s).loop ≡ s.loop
  unfolding sender_worker
  sender_worker-loop = elim (Option-cases (get_ctx s.manager r.session_id)) [
    | inl e ↦ rw e refl
    | inr (p, e) ↦ rw e (insert_through-loop p (get_elem? s.manager.heap p))
  ]

  pub sender_worker-Like : Like env s (sender_worker env r s)
  sender_worker-Like = record {
    loop = sender_worker-loop;
    contexts = (sender_worker-SamePools env s r).contexts;
    table = (sender_worker-table env r s).0;
    heap = (sender_worker-table env r s).1;
  }

module _ (env : Environment) (registered : env.event_loop.Loop → ℕ → Option ℕ)
    (law : Registers env.event_loop registered) where
  open env use {event_loop, socket}

  -- What is registered after an accept was so before, or is new.
  pub registered_after :
      (loop : event_loop.Loop) (client_fd d fd data_ptr : ℕ)
      → registered (event_loop.create_file_event loop client_fd d).1 fd ≡ some data_ptr
      → (registered loop fd ≡ some data_ptr) ⊎ ((client_fd ≡ fd) × (d ≡ data_ptr))
  registered_after loop client_fd d fd data_ptr e = elim (ℕ_discrete client_fd fd) [
    | no ne ↦ inl (sym (law.create_other loop client_fd d fd ne) ∙ e)
    | yes same ↦ elim (Bool-cases (event_loop.create_file_event loop client_fd d).0) [
      | inl done ↦ inr (
        same,
        some-injective _ _ (
            sym (law.created loop client_fd d done)
            ∙ subst
                (λ k.
                  registered (event_loop.create_file_event loop client_fd d).1 k ≡ some data_ptr)
                (sym same) e),
      )
      | inr not_done ↦ inl (
          subst (λ k. registered loop k ≡ some data_ptr) same
            (sym (law.refused loop client_fd d not_done)
              ∙ subst
                  (λ k.
                    registered (event_loop.create_file_event loop client_fd d).1 k ≡ some data_ptr)
                  (sym same) e))
    ]
  ]

  -- What is registered after a descriptor's event is deleted was so before, and is another.
  pub registered_other :
      (loop : event_loop.Loop) (fd k data_ptr : ℕ)
      → registered (event_loop.delete_file_event loop fd) k ≡ some data_ptr
      → (fd ≢ k) × (registered loop k ≡ some data_ptr)
  registered_other loop fd k data_ptr e = elim (ℕ_discrete fd k) [
    | yes same ↦ cc (law.deleted loop fd, same, e)
    | no ne ↦ (ne, sym (law.delete_other loop fd k ne) ∙ e)
  ]

  -- The session of another descriptor is another session.
  pub other_session :
      (s : Server env) (fd k : ℕ) (i j : ℕ)
      → Holds s.manager i fd
      → Holds s.manager j k
      → fd ≢ k
      → i ≢ j
  other_session s fd k i j h g ne e =
      ne (Holds-unique s.manager j fd k (subst (λ n. Holds s.manager n fd) e h) g)
