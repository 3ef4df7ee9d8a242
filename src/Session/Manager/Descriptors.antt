-- ===== src/Session/Manager/Descriptors.antt =====
-- The descriptors in the shared session contexts.
use logcabin_redis_proxy.Base.{
  ℕ, zero, suc, ◌<◌, ◌≡◌, refl, ap, ◌∙◌, List, [], ◌∷◌, ◌++◌, some, arith, length, map, get_elem?,
  inl, inr, Option-cases,
}
use logcabin_redis_proxy.Session.{Socket, SessionCtx}
use logcabin_redis_proxy.Session.Manager.{
  SessionManager, store, get_ctx, mark_eof, erase_session, close_fd,
}
use logcabin_redis_proxy.Session.Manager.Heap.{mark_eof-some, mark_eof-none}
use logcabin_redis_proxy.Session.Manager.Laws.{erase_session_found, erase_session_missing}

abbrev pub descriptors : List SessionCtx → List ℕ
descriptors h = map (λ c. c.fd) h

pub get_elem?-descriptors :
    (h : List SessionCtx) (p : ℕ) {c : SessionCtx}
    → get_elem? h p ≡ some c
    → get_elem? (descriptors h) p ≡ some c.fd
get_elem?-descriptors [] p e = cc
get_elem?-descriptors (x ∷ h) zero e = ground (arith, e)
get_elem?-descriptors (x ∷ h) (suc p) e = get_elem?-descriptors h p e

pub descriptors-store :
    (h : List SessionCtx) (p : ℕ) (c : SessionCtx) {x : SessionCtx}
    → get_elem? h p ≡ some x
    → c.fd ≡ x.fd
    → descriptors (store h p c) ≡ descriptors h
unfolding store
descriptors-store [] p c e s = refl
descriptors-store (y ∷ h) zero c e s = ap (λ d. d ∷ descriptors h) (ground (arith, e, s))
descriptors-store (y ∷ h) (suc p) c e s = ap (λ l. y.fd ∷ l) (descriptors-store h p c e s)

pub descriptors-append_left :
    (h k : List SessionCtx) (p : ℕ)
    → p < length h
    → get_elem? (descriptors (h ++ k)) p ≡ get_elem? (descriptors h) p
descriptors-append_left [] k p l = elim l [ ]
descriptors-append_left (x ∷ h) k zero l = refl
descriptors-append_left (x ∷ h) k (suc p) l = descriptors-append_left h k p (omega (arith, l))

module _ (socket : Socket) (m : SessionManager) (id : ℕ) (w : socket.World) where
  pub descriptors-erase_session :
      descriptors (erase_session socket m id w).0.heap ≡ descriptors m.heap
  descriptors-erase_session = elim (Option-cases (get_ctx m id)) [
    | inl e ↦ ap (λ r. descriptors r.0.heap) (erase_session_missing socket m id w e)
    | inr (p, e) ↦ ap (λ r. descriptors r.0.heap) (erase_session_found socket m id w e) ∙ marked p
  ]
    where
      marked : (p : ℕ) → descriptors (mark_eof m.heap p) ≡ descriptors m.heap
      marked p = elim (Option-cases (get_elem? m.heap p)) [
        | inl e ↦ ap descriptors (mark_eof-none m.heap p e)
        | inr (c, e) ↦
            ap descriptors (mark_eof-some m.heap p e) ∙ descriptors-store m.heap p _ e refl
      ]

  -- What was written before a socket is closed stays received.
  pub erase_session-received :
      (fd : ℕ) → socket.received fd (erase_session socket m id w).1 ≡ socket.received fd w
  erase_session-received fd = elim (Option-cases (get_ctx m id)) [
    | inl e ↦ ap (λ r. socket.received fd r.1) (erase_session_missing socket m id w e)
    | inr (p, e) ↦ ap (λ r. socket.received fd r.1) (erase_session_found socket m id w e) ∙ closed p
  ]
    where
      closed :
          (p : ℕ)
          → socket.received fd (close_fd socket (get_elem? m.heap p) w) ≡ socket.received fd w
      closed p = elim (Option-cases (get_elem? m.heap p)) [
        | inl e ↦ rw e refl
        | inr (c, e) ↦ rw e (socket.close_same c.fd fd w)
      ]
