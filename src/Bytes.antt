-- ===== src/Bytes.antt =====
-- Byte strings: `std::string` as a list of byte values, and the members of it that the program calls.
use Prim.Native.Char.{code}
use Prim.Native.String.{String}
use logcabin_redis_proxy.Base.{
  ℕ, ◌≡◌, ◌↔◌, Bool, true, false, List, [], ◌∷◌, arith, ◌==◌, if◌then◌else◌, take, drop,
}

abbrev pub Bytes : Type 0
Bytes = List ℕ

-- The code points of a literal, which are its bytes: every literal of the program is ASCII.
abbrev pub codes : String → Bytes
codes String.[] = []
codes (String.◌∷◌ c s) = code c ∷ codes s

-- "\r\n"
abbrev pub crlf : Bytes
crlf = 13 ∷ 10 ∷ []

-- `s.substr(pos, n)` for `pos <= s.size()`.
abbrev pub substr : Bytes → ℕ → ℕ → Bytes
substr s start n = take n (drop start s)

-- `operator==` on strings.
unfoldable pub equal : Bytes → Bytes → Bool
equal [] [] = true
equal [] (c ∷ s) = false
equal (c ∷ s) [] = false
equal (c ∷ s) (d ∷ t) = if c == d then equal s t else false

pub equal_iff : (s t : Bytes) → (equal s t ≡ true) ↔ (s ≡ t)
unfolding equal
equal_iff [] [] = ground arith
equal_iff [] (d ∷ t) = ground arith
equal_iff (c ∷ s) [] = ground arith
equal_iff (c ∷ s) (d ∷ t) = ground (arith, equal_iff s t)
