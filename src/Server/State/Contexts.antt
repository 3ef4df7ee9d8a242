-- ===== src/Server/State/Contexts.antt =====
-- Writes to the decode contexts.
use logcabin_redis_proxy.Base.{
  ℕ, zero, suc, ◌≡◌, ◌≢◌, refl, ap, List, [], ◌∷◌, some, ◌⊎◌, inl, inr, arith, get_elem?, All,
}
use logcabin_redis_proxy.Resp.Decoder.{DecodeContext}
use logcabin_redis_proxy.Server.State.{store_context}

pub get_elem?-store_context_self :
    (cs : List DecodeContext) (e : ℕ) (c : DecodeContext) {a : DecodeContext}
    → get_elem? cs e ≡ some a
    → get_elem? (store_context cs e c) e ≡ some c
unfolding store_context
get_elem?-store_context_self [] e c h = cc
get_elem?-store_context_self (x ∷ cs) zero c h = refl
get_elem?-store_context_self (x ∷ cs) (suc e) c h = get_elem?-store_context_self cs e c h

pub get_elem?-store_context_ne :
    (cs : List DecodeContext) (e g : ℕ) (c : DecodeContext)
    → e ≢ g
    → get_elem? (store_context cs e c) g ≡ get_elem? cs g
unfolding store_context
get_elem?-store_context_ne [] e g c h = refl
get_elem?-store_context_ne (x ∷ cs) zero zero c h = absurd (h refl)
get_elem?-store_context_ne (x ∷ cs) zero (suc g) c h = refl
get_elem?-store_context_ne (x ∷ cs) (suc e) zero c h = refl
get_elem?-store_context_ne (x ∷ cs) (suc e) (suc g) c h =
    get_elem?-store_context_ne cs e g c (λ q. h (ap suc q))

-- What stands anywhere in the list after a write.
pub get_elem?-store_context :
    (cs : List DecodeContext) (e g : ℕ) (c x : DecodeContext)
    → get_elem? (store_context cs e c) g ≡ some x
    → ((e ≡ g) × (c ≡ x)) ⊎ ((e ≢ g) × (get_elem? cs g ≡ some x))
unfolding store_context
get_elem?-store_context [] e g c x h = cc
get_elem?-store_context (y ∷ cs) zero zero c x h = inl (refl, ground (arith, h))
get_elem?-store_context (y ∷ cs) zero (suc g) c x h = inr ((λ q. cc), h)
get_elem?-store_context (y ∷ cs) (suc e) zero c x h = inr ((λ q. cc), h)
get_elem?-store_context (y ∷ cs) (suc e) (suc g) c x h =
    elim (get_elem?-store_context cs e g c x h) [
      | inl (q, k) ↦ inl (ap suc q, k)
      | inr (q, k) ↦ inr ((λ r. q (omega (arith, r))), k)
    ]

pub All-store_context :
    (P : DecodeContext → Type 0) (cs : List DecodeContext) (e : ℕ) (c : DecodeContext)
    → P c
    → All P cs
    → All P (store_context cs e c)
unfolding store_context
All-store_context P [] e c p v = tt
All-store_context P (x ∷ cs) zero c p v = (p, v.1)
All-store_context P (x ∷ cs) (suc e) c p v = (v.0, All-store_context P cs e c p v.1)
