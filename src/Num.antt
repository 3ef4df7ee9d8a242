-- ===== src/Num.antt =====
-- Decimal numbers as the C++ standard library prints and reads them: `std::to_string`, `std::stoi`
-- and `std::atoi`. They belong to the library, and the codec, the handlers and the options call them.
pub mod RoundTrip
use logcabin_redis_proxy.Base.{
  ℕ, zero, suc, ◌+◌, ◌-◌, ◌*◌, ◌/◌, ◌%◌, ◌^◌, Bool, true, false, ◌&&◌, ◌||◌, List, [], ◌∷◌, ◌≡◌,
  refl, Option, none, some, leb, ltb, ◌==◌, if◌then◌else◌, ℤ, pos, negsuc, negate,
}
use logcabin_redis_proxy.Bytes.{Bytes, codes}

-- The digits of `n` before `out`; more fuel than `n` is enough.
unfoldable pub digits : ℕ → ℕ → Bytes → Bytes
digits zero n out = out
digits (suc f) n out =
    let rest = digits f (n / 10) ((48 + n % 10) ∷ out) in if ltb n 10 then (48 + n) ∷ out else rest

-- `std::to_string` of an unsigned number.
unfoldable pub to_string : ℕ → Bytes
unfolding digits
to_string n = digits (suc n) n []

abbrev pub is_digit : ℕ → Bool
is_digit c = leb 48 c && leb c 57

-- `isspace` in the C locale.
abbrev pub is_space : ℕ → Bool
is_space c = c == 32 || (leb 9 c && leb c 13)

-- The value of the leading digits, on top of `acc`.
unfoldable pub digits_value : ℕ → Bytes → ℕ
digits_value acc [] = acc
digits_value acc (c ∷ s) =
    let rest = digits_value (acc * 10 + (c - 48)) s in if is_digit c then rest else acc

-- `strtol` behind the sign: `none` where no digit stands.
unfoldable pub magnitude : Bytes → Option ℕ
unfolding digits_value
magnitude [] = none
magnitude (c ∷ s) = if is_digit c then some (digits_value 0 (c ∷ s)) else none

abbrev signed : (ℕ → ℤ) → Option ℕ → Option ℤ
signed f none = none
signed f (some n) = some (f n)

-- `strtol(s, &end, 10)` with no bound on the result: white space, a sign, digits.
unfoldable pub strtol : Bytes → Option ℤ
unfolding magnitude
strtol [] = none
strtol (c ∷ s) =
    let rest = strtol s in
    if is_space c
    then rest
    else if c == 45
    then signed negate (magnitude s)
    else if c == 43
    then signed pos (magnitude s)
    else signed pos (magnitude (c ∷ s))

-- What `std::stoi` throws.
pub data NumError : Type 0 where
  invalid_argument out_of_range : NumError

pub data Stoi : Type 0 where
  ok : ℤ → Stoi
  threw : NumError → Stoi

-- `int` holds -2^31 .. 2^31 - 1.
abbrev pub in_int : ℤ → Bool
in_int (pos n) = ltb n (2 ^ 31)
in_int (negsuc n) = ltb n (2 ^ 31)

abbrev to_stoi : Option ℤ → Stoi
to_stoi none = threw invalid_argument
to_stoi (some z) = if in_int z then ok z else threw out_of_range

unfoldable pub stoi : Bytes → Stoi
unfolding strtol
stoi s = to_stoi (strtol s)

-- The low 32 bits of a number read as an `int`.
abbrev pub to_int : ℕ → ℤ
to_int n = let low = n % 2 ^ 32 in if ltb low (2 ^ 31) then pos low else negsuc (2 ^ 32 - 1 - low)

-- `(int) strtol(s, NULL, 10)`: glibc's `atoi`. `strtol` stops at the bounds of `long`.
abbrev truncate : Option ℤ → ℤ
truncate none = pos 0
truncate (some (pos n)) = if ltb n (2 ^ 63) then to_int n else negsuc 0
truncate (some (negsuc n)) = if ltb n (2 ^ 63) then to_int (2 ^ 64 - 1 - n) else pos 0

unfoldable pub atoi : Bytes → ℤ
unfolding strtol
atoi s = truncate (strtol s)

reads :
    (stoi (codes " -17x") ≡ ok (negsuc 16))
    × (stoi (codes "2147483648") ≡ threw out_of_range)
    × (stoi (codes "$") ≡ threw invalid_argument)
    × (atoi (codes "4294967297") ≡ pos 1)
    × (to_string 1024 ≡ codes "1024")
unfolding stoi atoi to_string
reads = (refl, refl, refl, refl, refl)
