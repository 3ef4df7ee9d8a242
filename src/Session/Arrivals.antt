-- ===== src/Session/Arrivals.antt =====
-- Sets of command ids whose responses have arrived, as tests.
use mathlib.Core.List.{
  Mem, Nodup, Nodup-cons, not-mem-nil, mem-cons, mem-cons_self, mem-cons_of_mem,
}
use mathlib.Core.Logic.Or
use mathlib.Core.Bool.{Bool-set}
use native.Mathlib.Bridge.{le_prop}
use logcabin_redis_proxy.Base.{
  ℕ, zero, suc, ◌<◌, ◌≡◌, ◌≢◌, refl, sym, subst, ◌∙◌, Bool, true, false, ◌||◌, List, [], ◌∷◌, arith,
  ◌==◌, ℕ_discrete,
}

-- The ids `n - 1`, …, 1, 0.
abbrev pub below : ℕ → List ℕ
below zero = []
below (suc n) = n ∷ below n

pub Mem-below : (n i : ℕ) → i < n → Mem i (below n)
Mem-below zero i h = absurd (omega arith)
Mem-below (suc n) i h = elim (ℕ_discrete i n) [
  | yes e ↦ rw e mem-cons_self
  | no ne ↦ mem-cons_of_mem n (Mem-below n i (omega arith))
]

pub lt-Mem-below : (n i : ℕ) → Mem i (below n) → i < n
lt-Mem-below zero i m = absurd (not-mem-nil m)
lt-Mem-below (suc n) i m =
    Or.elim le_prop (mem-cons.0 m) (λ e. omega arith) (λ k. omega (arith, lt-Mem-below n i k))

-- The ids that have arrived, with one more.
abbrev pub adds : ℕ → (ℕ → Bool) → ℕ → Bool
adds k arrived i = k == i || arrived i

-- The ids that have arrived, those of the list added.
abbrev pub extend : (ℕ → Bool) → List ℕ → ℕ → Bool
extend arrived [] = arrived
extend arrived (k ∷ ks) = extend (adds k arrived) ks

extend-true :
    (arrived : ℕ → Bool) (ks : List ℕ) (i : ℕ) → arrived i ≡ true → extend arrived ks i ≡ true
extend-true arrived [] i h = h
extend-true arrived (k ∷ ks) i h = extend-true (adds k arrived) ks i (ground arith)

pub extend_of_Mem :
    (arrived : ℕ → Bool) (ks : List ℕ) (i : ℕ) → Mem i ks → extend arrived ks i ≡ true
extend_of_Mem arrived [] i m = absurd (not-mem-nil m)
extend_of_Mem arrived (k ∷ ks) i m =
    Or.elim (Bool-set _ _) (mem-cons.0 m) (λ e. extend-true (adds k arrived) ks i (ground arith))
      (extend_of_Mem (adds k arrived) ks i)

pub extend_of_not-Mem :
    (arrived : ℕ → Bool) (ks : List ℕ) (i : ℕ) → ¬ Mem i ks → extend arrived ks i ≡ arrived i
extend_of_not-Mem arrived [] i m = refl
extend_of_not-Mem arrived (k ∷ ks) i m =
    let other : k ≢ i = λ e. m (subst (λ x. Mem x (k ∷ ks)) e mem-cons_self) in
    extend_of_not-Mem (adds k arrived) ks i (λ t. m (mem-cons_of_mem k t)) ∙ ground arith

-- Each id of the list is new when its turn comes.
abbrev pub FreshIn : (ℕ → Bool) → List ℕ → Type 0
FreshIn arrived [] = Unit
FreshIn arrived (k ∷ ks) = (arrived k ≡ false) × FreshIn (adds k arrived) ks

pub FreshIn-Nodup :
    (arrived : ℕ → Bool) (ks : List ℕ)
    → Nodup ks
    → ((i : ℕ) → Mem i ks → arrived i ≡ false)
    → FreshIn arrived ks
FreshIn-Nodup arrived [] d h = tt
FreshIn-Nodup arrived (k ∷ ks) d h =
    let (not_in, rest) = Nodup-cons.0 d in
    (h k mem-cons_self, FreshIn-Nodup (adds k arrived) ks rest (λ i m. later i m not_in))
  where
    later : (i : ℕ) → Mem i ks → ¬ Mem k ks → (k == i || arrived i) ≡ false
    later i m not_in =
        let other : k ≢ i = λ e. not_in (subst (λ x. Mem x ks) (sym e) m) in
        let old : arrived i ≡ false = h i (mem-cons_of_mem k m) in ground arith
