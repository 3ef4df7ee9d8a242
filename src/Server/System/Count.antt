-- ===== src/Server/System/Count.antt =====
-- How many items of a list are for command `k` of session `i`.
use logcabin_redis_proxy.Base.{
  ℕ, ◌+◌, ◌≡◌, refl, Bool, ◌&&◌, List, [], ◌∷◌, ◌++◌, ◌==◌, if◌then◌else◌, arith,
}

abbrev pub bit : Bool → ℕ
bit b = if b then 1 else 0

module _ {A : Type 0} (session command : A → ℕ) (i k : ℕ) where
  abbrev pub is_for : A → Bool
  is_for a = session a == i && command a == k

  unfoldable pub count : List A → ℕ
  count [] = 0
  count (a ∷ l) = bit (is_for a) + count l

  pub count_nil : count [] ≡ 0
  unfolding count
  count_nil = refl

  pub count-append : (l r : List A) → count (l ++ r) ≡ count l + count r
  unfolding count
  count-append [] r = ground arith
  count-append (a ∷ l) r = ground (arith, count-append l r)

  pub count-middle :
      (l : List A) (a : A) (r : List A) → count (l ++ (a ∷ r)) ≡ bit (is_for a) + count (l ++ r)
  unfolding count
  count-middle [] a r = refl
  count-middle (b ∷ l) a r = ground (arith, count-middle l a r)

  pub count_last : (l : List A) (a : A) → count (l ++ (a ∷ [])) ≡ count l + bit (is_for a)
  unfolding count
  count_last [] a = ground arith
  count_last (b ∷ l) a = ground (arith, count_last l a)
