-- ===== src/Session/Manager/Heap.antt =====
-- Writes to the shared session contexts.
use logcabin_redis_proxy.Base.{
  ℕ, zero, suc, ◌<◌, ◌≡◌, ◌≢◌, refl, ap, ◌∙◌, true, List, [], ◌∷◌, ◌++◌, none, some, arith, length,
  get_elem?, inl, inr, Option-cases,
}
use logcabin_redis_proxy.Session.{SessionCtx}
use logcabin_redis_proxy.Session.Manager.{store, mark_eof}

pub length-store : (h : List SessionCtx) (p : ℕ) (c : SessionCtx) → length (store h p c) ≡ length h
unfolding store
length-store [] p c = refl
length-store (x ∷ h) zero c = refl
length-store (x ∷ h) (suc p) c = ap suc (length-store h p c)

pub get_elem?-store_self :
    (h : List SessionCtx) (p : ℕ) (c : SessionCtx)
    → p < length h
    → get_elem? (store h p c) p ≡ some c
unfolding store
get_elem?-store_self [] p c l = elim l [ ]
get_elem?-store_self (x ∷ h) zero c l = refl
get_elem?-store_self (x ∷ h) (suc p) c l = get_elem?-store_self h p c (omega arith)

pub get_elem?-store_ne :
    (h : List SessionCtx) (p q : ℕ) (c : SessionCtx)
    → p ≢ q
    → get_elem? (store h p c) q ≡ get_elem? h q
unfolding store
get_elem?-store_ne [] p q c l = refl
get_elem?-store_ne (x ∷ h) zero zero c l = absurd (l refl)
get_elem?-store_ne (x ∷ h) zero (suc q) c l = refl
get_elem?-store_ne (x ∷ h) (suc p) zero c l = refl
get_elem?-store_ne (x ∷ h) (suc p) (suc q) c l = get_elem?-store_ne h p q c (λ e. l (ap suc e))

pub lt-length_of_get_elem? :
    (h : List SessionCtx) (p : ℕ) {c : SessionCtx} → get_elem? h p ≡ some c → p < length h
lt-length_of_get_elem? [] p e = cc
lt-length_of_get_elem? (x ∷ h) zero e = omega arith
lt-length_of_get_elem? (x ∷ h) (suc p) e = omega (arith, lt-length_of_get_elem? h p e)

pub mark_eof-some :
    (h : List SessionCtx) (p : ℕ) {c : SessionCtx}
    → get_elem? h p ≡ some c
    → mark_eof h p ≡ store h p (record c { is_eof_reach = true })
unfolding mark_eof
mark_eof-some h p e = rw (e, mark_eof) refl

pub mark_eof-none : (h : List SessionCtx) (p : ℕ) → get_elem? h p ≡ none → mark_eof h p ≡ h
unfolding mark_eof
mark_eof-none h p e = rw (e, mark_eof) refl

pub length-mark_eof : (h : List SessionCtx) (p : ℕ) → length (mark_eof h p) ≡ length h
length-mark_eof h p = elim (Option-cases (get_elem? h p)) [
  | inl e ↦ ap length (mark_eof-none h p e)
  | inr (c, e) ↦ ap length (mark_eof-some h p e) ∙ length-store h p _
]

pub get_elem?-mark_eof_ne :
    (h : List SessionCtx) (p q : ℕ) → p ≢ q → get_elem? (mark_eof h p) q ≡ get_elem? h q
get_elem?-mark_eof_ne h p q l = elim (Option-cases (get_elem? h p)) [
  | inl e ↦ ap (λ k. get_elem? k q) (mark_eof-none h p e)
  | inr (c, e) ↦ ap (λ k. get_elem? k q) (mark_eof-some h p e) ∙ get_elem?-store_ne h p q _ l
]

pub get_elem?-mark_eof_self :
    (h : List SessionCtx) (p : ℕ) (c : SessionCtx)
    → get_elem? h p ≡ some c
    → get_elem? (mark_eof h p) p ≡ some (record c { is_eof_reach = true })
get_elem?-mark_eof_self h p c e =
    ap (λ k. get_elem? k p) (mark_eof-some h p e)
    ∙ get_elem?-store_self h p _ (lt-length_of_get_elem? h p e)

pub get_elem?-append_left :
    (h k : List SessionCtx) (p : ℕ) → p < length h → get_elem? (h ++ k) p ≡ get_elem? h p
get_elem?-append_left [] k p l = elim l [ ]
get_elem?-append_left (x ∷ h) k zero l = refl
get_elem?-append_left (x ∷ h) k (suc p) l = get_elem?-append_left h k p (omega arith)
