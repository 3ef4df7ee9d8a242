-- ===== src/Server/Workers/Parts.antt =====
-- `sender_worker` of src/proxy/main.cc in its two parts, between which the other threads may run: to find
-- the session's context, and to insert the response into it.
use logcabin_redis_proxy.Base.{
  ℕ, ◌≡◌, refl, sym, ap, ◌∙◌, Bool, true, false, not, if◌then◌else◌, Option, none, some,
  Option-cases, inl, inr, get_elem?,
}
use logcabin_redis_proxy.Server.State.{Environment, Reply, Server}
use logcabin_redis_proxy.Server.Workers.{sender_worker, insert_through, send_to}
use logcabin_redis_proxy.Session.Manager.{get_ctx, store}
use logcabin_redis_proxy.Session.{SessionCtx, insert_new_response}

module _ (env : Environment) where
  open env use {socket}

  abbrev open_ptr : ℕ → Option SessionCtx → Option ℕ
  open_ptr ptr none = none
  open_ptr ptr (some ctx) = if ctx.is_eof_reach then none else some ptr

  abbrev found : Option ℕ → Server env → Option ℕ
  found none s = none
  found (some ptr) s = open_ptr ptr (get_elem? s.manager.heap ptr)

  -- `NULL != ctx && ctx->is_eof_reach == false`.
  unfoldable pub sender_find : ℕ → Server env → Option ℕ
  sender_find session_id s = found (get_ctx s.manager session_id) s

  abbrev pub inserted : ℕ → Reply → Option SessionCtx → Server env → Server env
  inserted ptr r none s = s
  inserted ptr r (some ctx) s =
      let (ctx', w) = insert_new_response socket ctx r.command_id r.response s.world in
      record s { manager = record s.manager { heap = store s.manager.heap ptr ctx' }; world = w }

  unfoldable pub sender_insert : ℕ → Reply → Server env → Server env
  sender_insert ptr r s = inserted ptr r (get_elem? s.manager.heap ptr) s

  abbrev pub in_parts : Option ℕ → Reply → Server env → Server env
  in_parts none r s = s
  in_parts (some ptr) r s = sender_insert ptr r s

  through :
      (ptr : ℕ) (r : Reply) (o : Option SessionCtx) (s : Server env)
      → get_elem? s.manager.heap ptr ≡ o
      → insert_through env ptr r.command_id r.response o s ≡ in_parts (open_ptr ptr o) r s
  unfolding sender_insert
  through ptr r none s e = refl
  through ptr r (some ctx) s e = go ctx.is_eof_reach
    where
      go :
          (b : Bool)
          → (if not b then inserted ptr r (some ctx) s else s)
            ≡ in_parts (if b then none else some ptr) r s
      go true = refl
      go false = ap (λ o. inserted ptr r o s) (sym e)

  -- When no other thread runs between them, the two parts are the worker.
  pub sender_worker-parts :
      (r : Reply) (s : Server env)
      → sender_worker env r s ≡ in_parts (sender_find r.session_id s) r s
  unfolding sender_worker sender_find
  sender_worker-parts r s = elim (Option-cases (get_ctx s.manager r.session_id)) [
    | inl e ↦ ap (λ o. send_to env o r s) e ∙ ap (λ o. in_parts (found o s) r s) (sym e)
    | inr (ptr, e) ↦
        ap (λ o. send_to env o r s) e
        ∙ through ptr r (get_elem? s.manager.heap ptr) s refl
        ∙ ap (λ o. in_parts (found o s) r s) (sym e)
  ]
