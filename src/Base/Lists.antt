-- ===== src/Base/Lists.antt =====
-- Lists measured and indexed by native numbers, under the library's names.
use Prim.Native.Nat.{ℕ, zero, suc, ◌+◌, ◌<◌}
use mathlib.Core.Path.{◌≡◌, refl, ap, subst}
use mathlib.Core.List.{List, [], ◌∷◌, ◌++◌}
use mathlib.Core.Option.{Option, none, some, some-injective}
use mathlib.Core.Logic.{◌⊎◌, inl, inr}
use native.Mathlib.Omega.{arith}

module _ {ℓ} {A : Type ℓ} where
  abbrev pub length : List A → ℕ
  length [] = 0
  length (x ∷ xs) = suc (length xs)

  abbrev pub get_elem? : List A → ℕ → Option A
  get_elem? [] i = none
  get_elem? (x ∷ xs) zero = some x
  get_elem? (x ∷ xs) (suc i) = get_elem? xs i

  abbrev pub take : ℕ → List A → List A
  take zero xs = []
  take (suc n) [] = []
  take (suc n) (x ∷ xs) = x ∷ take n xs

  abbrev pub drop : ℕ → List A → List A
  drop zero xs = xs
  drop (suc n) [] = []
  drop (suc n) (x ∷ xs) = drop n xs

  pub length-append : (xs ys : List A) → length (xs ++ ys) ≡ length xs + length ys
  length-append [] ys = omega arith
  length-append (x ∷ xs) ys = omega (arith, length-append xs ys)

  pub take-append : (xs ys : List A) → take (length xs) (xs ++ ys) ≡ xs
  take-append [] ys = refl
  take-append (x ∷ xs) ys = ap (◌∷◌ x) (take-append xs ys)

  pub take-length : (xs : List A) → take (length xs) xs ≡ xs
  take-length [] = refl
  take-length (x ∷ xs) = ap (◌∷◌ x) (take-length xs)

  pub drop-append : (xs ys : List A) → drop (length xs) (xs ++ ys) ≡ ys
  drop-append [] ys = refl
  drop-append (x ∷ xs) ys = drop-append xs ys

  pub get_elem?-append : (xs ys : List A) (x : A) → get_elem? (xs ++ (x ∷ ys)) (length xs) ≡ some x
  get_elem?-append [] ys x = refl
  get_elem?-append (y ∷ xs) ys x = get_elem?-append xs ys x

-- A predicate on every element.
abbrev pub All {ℓ κ} : {A : Type ℓ} → (A → Type κ) → List A → Type κ
All P [] = Unit
All P (x ∷ xs) = P x × All P xs

module _ {ℓ κ} {A : Type ℓ} (P : A → Type κ) where
  pub All-append : (xs ys : List A) → All P xs → All P ys → All P (xs ++ ys)
  All-append [] ys v w = w
  All-append (x ∷ xs) ys v w = (v.0, All-append xs ys v.1 w)

  pub All-middle :
      (xs : List A) (x : A) (ys : List A) → All P (xs ++ (x ∷ ys)) → P x × All P (xs ++ ys)
  All-middle [] x ys v = v
  All-middle (y ∷ xs) x ys v = let (p, q) = All-middle xs x ys v.1 in (p, (v.0, q))

  pub All-get_elem? : (xs : List A) (i : ℕ) {x : A} → get_elem? xs i ≡ some x → All P xs → P x
  All-get_elem? [] i e v = cc
  All-get_elem? (y ∷ xs) zero e v = subst P (some-injective _ _ e) v.0
  All-get_elem? (y ∷ xs) (suc i) e v = All-get_elem? xs i e v.1

  pub All-map {ρ} : (Q : A → Type ρ) (xs : List A) → ((a : A) → P a → Q a) → All P xs → All Q xs
  All-map Q [] f v = tt
  All-map Q (x ∷ xs) f v = (f x v.0, All-map Q xs f v.1)

pub get_elem?-append_some :
    {A : Type 0} (xs ys : List A) (e : ℕ) {a : A}
    → get_elem? xs e ≡ some a
    → get_elem? (xs ++ ys) e ≡ some a
get_elem?-append_some [] ys e h = cc
get_elem?-append_some (x ∷ xs) ys zero h = h
get_elem?-append_some (x ∷ xs) ys (suc e) h = get_elem?-append_some xs ys e h

pub get_elem?-last :
    {A : Type 0} (xs : List A) (y : A) (e : ℕ) (a : A)
    → get_elem? (xs ++ (y ∷ [])) e ≡ some a
    → (get_elem? xs e ≡ some a) ⊎ ((e ≡ length xs) × (y ≡ a))
get_elem?-last [] y zero a h = inr (refl, ground (arith, h))
get_elem?-last [] y (suc e) a h = cc
get_elem?-last (x ∷ xs) y zero a h = inl h
get_elem?-last (x ∷ xs) y (suc e) a h = elim (get_elem?-last xs y e a h) [
  | inl g ↦ inl g
  | inr (n, g) ↦ inr (omega (arith, n), g)
]

pub lt-length_of_some :
    {A : Type 0} (xs : List A) (k : ℕ) (x : A) → get_elem? xs k ≡ some x → k < length xs
lt-length_of_some [] k x e = cc
lt-length_of_some (y ∷ xs) zero x e = omega arith
lt-length_of_some (y ∷ xs) (suc k) x e = omega (arith, lt-length_of_some xs k x e)

pub get_elem?-lt :
    {A : Type 0} (xs : List A) (k : ℕ) → k < length xs → (x : A) × (get_elem? xs k ≡ some x)
get_elem?-lt [] k l = absurd (omega (arith, l))
get_elem?-lt (x ∷ xs) zero l = (x, refl)
get_elem?-lt (x ∷ xs) (suc k) l = get_elem?-lt xs k (omega (arith, l))
