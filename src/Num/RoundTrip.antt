-- ===== src/Num/RoundTrip.antt =====
-- `std::stoi` reads what `std::to_string` prints, and what is printed is digits only.
use logcabin_redis_proxy.Base.{
  ℕ, zero, suc, ◌+◌, ◌/◌, ◌%◌, ◌^◌, ◌≤◌, ◌<◌, ◌≡◌, refl, ◌∙◌, ap, [], ◌∷◌, some, inl, inr, arith,
  ltb, Bool-cases, lt→ltb, All, pos,
}
use logcabin_redis_proxy.Bytes.{Bytes}
use logcabin_redis_proxy.Num.{digits, to_string, digits_value, strtol, stoi, ok}

abbrev pub IsDigit : ℕ → Type 0
IsDigit c = (48 ≤ c) × (c ≤ 57)

digits_value-digits :
    (f n : ℕ) (out : Bytes) → n < f → digits_value 0 (digits f n out) ≡ digits_value n out
unfolding digits digits_value
digits_value-digits zero n out h = elim h [ ]
digits_value-digits (suc f) n out h =
    ground (arith, digits_value-digits f (n / 10) ((48 + n % 10) ∷ out))

digits-All : (f n : ℕ) (out : Bytes) → All IsDigit out → All IsDigit (digits f n out)
unfolding digits
digits-All zero n out h = h
digits-All (suc f) n out h = elim (Bool-cases (ltb n 10)) [
  | inl small ↦ rw small ((omega arith, ground arith), h)
  | inr big ↦ rw big (digits-All f (n / 10) _ ((omega arith, omega arith), h))
]

-- At least one digit is printed.
record Starts (s : Bytes) : Type 0 where
  first : ℕ
  rest : Bytes
  is_cons : s ≡ first ∷ rest

digits-Starts : (f n : ℕ) (out : Bytes) → n < f → Starts (digits f n out)
unfolding digits
digits-Starts zero n out h = elim h [ ]
digits-Starts (suc f) n out h = elim (Bool-cases (ltb n 10)) [
  | inl small ↦ rw small (record { first = 48 + n; rest = out; is_cons = refl })
  | inr big ↦ rw big (digits-Starts f (n / 10) _ (ground arith))
]

-- `std::to_string` prints digits and nothing else.
pub to_string-All : (n : ℕ) → All IsDigit (to_string n)
unfolding to_string
to_string-All n = digits-All (suc n) n [] tt

strtol-digits : (s : Bytes) → Starts s → All IsDigit s → strtol s ≡ some (pos (digits_value 0 s))
unfolding strtol
strtol-digits [] st h = absurd (ground (arith, st.is_cons))
strtol-digits (c ∷ s) st h = ground arith

pub strtol-to_string : (n : ℕ) → strtol (to_string n) ≡ some (pos n)
unfolding to_string digits_value
strtol-to_string n =
    strtol-digits _ (digits-Starts (suc n) n [] (omega arith)) (to_string-All n)
    ∙ ap (λ v. some (pos v)) (digits_value-digits (suc n) n [] (omega arith))

-- Every size below 2^31 is read back.
pub stoi-to_string : (n : ℕ) → n < 2 ^ 31 → stoi (to_string n) ≡ ok (pos n)
unfolding stoi
stoi-to_string n h = rw (strtol-to_string n, lt→ltb n _ h) refl
