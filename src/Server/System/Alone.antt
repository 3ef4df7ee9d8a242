-- ===== src/Server/System/Alone.antt =====
-- A session that is alone with its descriptor.
use logcabin_redis_proxy.Base.{
  ℕ, ◌+◌, get_elem?-append, ◌≡◌, ◌≢◌, sym, ap, ◌∙◌, [], ◌∷◌, ◌++◌, some, arith, length, get_elem?,
  ℕ_discrete,
}
use logcabin_redis_proxy.Server.System.{IsFree}
use logcabin_redis_proxy.Session.Manager.Descriptors.{
  descriptors, get_elem?-descriptors, descriptors-append_left,
}
use logcabin_redis_proxy.Session.Manager.Laws.{IsSound, get_ctx-insert_new_staus}
use logcabin_redis_proxy.Session.Manager.{SessionManager, insert_new_staus, get_ctx}
use logcabin_redis_proxy.Session.{SessionCtx, new_session_ctx}

module _ (i fd : ℕ) where
  -- No other session has the descriptor.
  abbrev pub IsAlone : SessionManager → Type 0
  IsAlone m = (j p : ℕ) → j ≢ i → get_ctx m j ≡ some p → get_elem? (descriptors m.heap) p ≢ some fd

  pub same_descriptor :
      (q : ℕ) (m : SessionManager) {c : SessionCtx}
      → get_elem? m.heap q ≡ some c
      → c.fd ≡ fd
      → get_elem? (descriptors m.heap) q ≡ some fd
  same_descriptor q m e s = get_elem?-descriptors m.heap q e ∙ ap some s

  -- A table without new sessions.
  pub IsAlone-table :
      (m n : SessionManager)
      → descriptors n.heap ≡ descriptors m.heap
      → ((j p : ℕ) → get_ctx n j ≡ some p → get_ctx m j ≡ some p)
      → IsAlone m
      → IsAlone n
  IsAlone-table m n d t a j p ne e h = a j p ne (t j p e) (ap (λ l. get_elem? l p) (sym d) ∙ h)

  pub accepted-IsAlone :
      (q : ℕ) (m : SessionManager) (client_fd : ℕ)
      → IsSound m
      → IsFree client_fd m
      → get_ctx m i ≡ some q
      → get_elem? (descriptors m.heap) q ≡ some fd
      → IsAlone m
      → IsAlone (insert_new_staus m client_fd).0
  unfolding insert_new_staus new_session_ctx
  accepted-IsAlone q m client_fd v free at_i at_q a j p ne e h =
      elim (ℕ_discrete (m.session_counter + 1) j) [
        | yes new ↦
            let last : p ≡ length m.heap =
              ground (arith, get_ctx-insert_new_staus m client_fd j v, e, new) in
            let own : get_elem? (descriptors (m.heap ++ (new_session_ctx client_fd ∷ [])))
                  (length m.heap)
                ≡ some client_fd =
              get_elem?-descriptors _ (length m.heap)
                (get_elem?-append m.heap [] (new_session_ctx client_fd)) in
            free i q at_i (
              at_q
              ∙ sym h
              ∙ ap (get_elem? (descriptors (m.heap ++ (new_session_ctx client_fd ∷ [])))) last
              ∙ own)
        | no old ↦
            let kept : get_ctx m j ≡ some p =
              ground (arith, get_ctx-insert_new_staus m client_fd j v, e, old) in
            a j p ne kept (sym (descriptors-append_left m.heap _ p (v.in_heap j p kept)) ∙ h)
      ]
