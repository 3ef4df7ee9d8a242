-- ===== src/Map.antt =====
-- `std::map<int, V>` as a list sorted by the keys, with the members of it that the sessions call.
use logcabin_redis_proxy.Base.{
  ℕ, suc, ◌≤◌, ◌<◌, ◌≡◌, refl, List, [], ◌∷◌, Option, none, some, arith, ltb, ◌==◌, if◌then◌else◌,
}

module _ {ℓ} {V : Type ℓ} where
  -- `insert`: a key that is there keeps its value.
  unfoldable pub map_insert : ℕ → V → List (ℕ × V) → List (ℕ × V)
  map_insert k v [] = (k, v) ∷ []
  map_insert k v ((j, u) ∷ m) =
      if ltb k j
      then (k, v) ∷ (j, u) ∷ m
      else if j == k
      then (j, u) ∷ m
      else (j, u) ∷ map_insert k v m

  -- `find`.
  unfoldable pub map_find : ℕ → List (ℕ × V) → Option V
  map_find k [] = none
  map_find k ((j, u) ∷ m) = if j == k then some u else map_find k m

  -- `erase` of the element that `find` returned.
  unfoldable pub map_erase : ℕ → List (ℕ × V) → List (ℕ × V)
  map_erase k [] = []
  map_erase k ((j, u) ∷ m) = if j == k then m else (j, u) ∷ map_erase k m

  -- The keys rise, from `t` on.
  abbrev pub KeysFrom : ℕ → List (ℕ × V) → Type 0
  KeysFrom t [] = Unit
  KeysFrom t ((k, v) ∷ m) = (t ≤ k) × KeysFrom (suc k) m

  pub map_find-map_insert :
      (k i : ℕ) (v : V) (m : List (ℕ × V))
      → map_find k m ≡ none
      → map_find i (map_insert k v m) ≡ (if k == i then some v else map_find i m)
  unfolding map_find map_insert
  map_find-map_insert k i v [] h = refl
  map_find-map_insert k i v ((j, u) ∷ m) h = ground (arith, map_find-map_insert k i v m)

  pub map_find_below : (t k : ℕ) (m : List (ℕ × V)) → k < t → KeysFrom t m → map_find k m ≡ none
  unfolding map_find
  map_find_below t k [] h s = refl
  map_find_below t k ((j, u) ∷ m) h s = ground (arith, map_find_below (suc j) k m)

  pub map_find-map_erase :
      (t k i : ℕ) (m : List (ℕ × V))
      → KeysFrom t m
      → map_find i (map_erase k m) ≡ (if k == i then none else map_find i m)
  unfolding map_find map_erase
  map_find-map_erase t k i [] s = ground arith
  map_find-map_erase t k i ((j, u) ∷ m) s =
      ground (arith, map_find-map_erase (suc j) k i m, map_find_below (suc j) i m)

  pub KeysFrom-map_insert :
      (t k : ℕ) (v : V) (m : List (ℕ × V)) → t ≤ k → KeysFrom t m → KeysFrom t (map_insert k v m)
  unfolding map_insert
  KeysFrom-map_insert t k v [] h s = (h, tt)
  KeysFrom-map_insert t k v ((j, u) ∷ m) h s = ground (arith, KeysFrom-map_insert (suc j) k v m)

  pub KeysFrom-mono : (s t : ℕ) (m : List (ℕ × V)) → s ≤ t → KeysFrom t m → KeysFrom s m
  KeysFrom-mono s t [] h k = tt
  KeysFrom-mono s t ((j, u) ∷ m) h k = (omega arith, k.1)

  pub KeysFrom-map_erase : (t k : ℕ) (m : List (ℕ × V)) → KeysFrom t m → KeysFrom t (map_erase k m)
  unfolding map_erase
  KeysFrom-map_erase t k [] s = tt
  KeysFrom-map_erase t k ((j, u) ∷ m) s =
      ground (arith, KeysFrom-map_erase (suc j) k m s.1, KeysFrom-mono t (suc j) m)
