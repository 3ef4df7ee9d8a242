-- ===== src/Server/Dispatch/Case.antt =====
-- Capital letters, from the two alphabets: an independent description of `to_uppercase` of
-- src/proxy/main.cc.
use logcabin_redis_proxy.Base.{
  ℕ, zero, suc, ◌+◌, ◌-◌, ◌&&◌, ◌≡◌, refl, List, [], ◌∷◌, map, leb, ltb, ◌==◌, if◌then◌else◌, arith,
}
use logcabin_redis_proxy.Bytes.{Bytes, codes}
use logcabin_redis_proxy.Server.Dispatch.{upper, to_uppercase}

-- The letter in the place that `i` has in the first list, or `i` where it has none.
unfoldable pub capital_among : List ℕ → List ℕ → ℕ → ℕ
capital_among [] capitals i = i
capital_among (a ∷ more) [] i = i
capital_among (a ∷ more) (b ∷ bs) i =
    let later = capital_among more bs i in if i == a then b else later

abbrev small_letters : List ℕ
small_letters = codes "abcdefghijklmnopqrstuvwxyz"

abbrev capital_letters : List ℕ
capital_letters = codes "ABCDEFGHIJKLMNOPQRSTUVWXYZ"

-- A text with capitals in place of its small letters.
unfoldable pub in_capitals : Bytes → Bytes
unfolding capital_among
in_capitals s = map (capital_among small_letters capital_letters) s

-- The numbers from `n` on.
unfoldable numbers : ℕ → ℕ → List ℕ
numbers n zero = []
numbers n (suc k) = n ∷ numbers (n + 1) k

capital_among-numbers :
    (n m k i : ℕ)
    → n ≡ m + 32
    → capital_among (numbers n k) (numbers m k) i ≡ (if leb n i && ltb i (n + k) then i - 32 else i)
unfolding capital_among numbers
capital_among-numbers n m zero i h = ground arith
capital_among-numbers n m (suc k) i h =
    let later = capital_among-numbers (n + 1) (m + 1) k i (omega arith) in ground (arith, later)

capital-upper : (i : ℕ) → capital_among small_letters capital_letters i ≡ upper i
unfolding numbers upper
capital-upper i = let all = capital_among-numbers 97 65 26 i refl in ground (arith, all)

pub to_uppercase-in_capitals : (s : Bytes) → to_uppercase s ≡ in_capitals s
unfolding to_uppercase in_capitals
to_uppercase-in_capitals [] = refl
to_uppercase-in_capitals (i ∷ s) = rw (capital-upper i, to_uppercase-in_capitals s) refl
