-- ===== src/Handler/Elements.antt =====
-- `split_list_elements` of src/proxy/handler.cc, which nothing calls.
use logcabin_redis_proxy.Base.{
  ℕ, zero, suc, ◌≡◌, refl, List, [], ◌∷◌, ◌++◌, Option, none, some, map, ◌==◌, if◌then◌else◌, true,
  false, All, ==_iff, sym, ap, subst, ◌∙◌, length, append-nil, append_assoc,
}
use logcabin_redis_proxy.Bytes.{Bytes}

-- `token = s.substr(0, pos); s.erase(0, pos + 1)` at the first `delimiter`, if there is one: the text
-- before it and the text behind it.
unfoldable pub split_first : ℕ → Bytes → Option (Bytes × Bytes)
split_first delimiter [] = none
split_first delimiter (c ∷ s) =
    let rest = split_first delimiter s in
    if c == delimiter
    then some ([], s)
    else (elim rest [ none ↦ none | some (token, behind) ↦ some (c ∷ token, behind) ])

-- `while ((pos = s.find(",")) != npos)`: the elements that end in a comma. What is behind the last one is
-- not an element. `token` has the bytes since the last comma.
unfoldable pub split_commas : Bytes → Bytes → List Bytes
split_commas token [] = []
split_commas token (c ∷ s) =
    let behind = split_commas [] s in
    let within = split_commas (token ++ (c ∷ [])) s in if c == b',' then token ∷ behind else within

-- `while ((pos = it->find(":")) != npos && counter <= 4)`, with how often it may still go round.
unfoldable pub strip_fields : ℕ → Bytes → Bytes
unfolding split_first
strip_fields zero s = s
strip_fields (suc n) s = elim (split_first b':' s) [
  | none ↦ s
  | some (token, behind) ↦ strip_fields n behind
]

unfoldable pub split_list_elements : Bytes → List Bytes
unfolding split_commas strip_fields
split_list_elements original = map (strip_fields 5) (split_commas [] original)

abbrev Lacks : ℕ → Bytes → Type 0
Lacks delimiter s = All (λ c. (c == delimiter) ≡ false) s

same_byte : (c : ℕ) → (c == c) ≡ true
same_byte c = (==_iff c c).1 refl

split_first_lem :
    (delimiter : ℕ) (token behind : Bytes)
    → Lacks delimiter token
    → split_first delimiter (token ++ (delimiter ∷ behind)) ≡ some (token, behind)
unfolding split_first
split_first_lem delimiter [] behind v = rw (same_byte delimiter) refl
split_first_lem delimiter (c ∷ token) behind v =
    rw (v.0, split_first_lem delimiter token behind v.1) refl

-- The fields, each with the delimiter behind it.
abbrev pub ended : ℕ → List Bytes → Bytes
ended delimiter [] = []
ended delimiter (f ∷ fs) = f ++ (delimiter ∷ ended delimiter fs)

-- A field and its delimiter in front.
assoc_field :
    (delimiter : ℕ) (f rest value : Bytes)
    → (f ++ (delimiter ∷ rest)) ++ value ≡ f ++ (delimiter ∷ (rest ++ value))
assoc_field delimiter f rest value = append_assoc f (delimiter ∷ rest) value

strip_field :
    (n : ℕ) (s token behind : Bytes)
    → split_first b':' s ≡ some (token, behind)
    → strip_fields (suc n) s ≡ strip_fields n behind
unfolding strip_fields
strip_field n s token behind e = rw (e, strip_fields) refl

strip_fields_lem :
    (fields : List Bytes) (value : Bytes)
    → All (Lacks b':') fields
    → strip_fields (length fields) (ended b':' fields ++ value) ≡ value
unfolding strip_fields
strip_fields_lem [] value v = refl
strip_fields_lem (f ∷ fs) value v =
    strip_field (length fs) (ended b':' (f ∷ fs) ++ value) f (ended b':' fs ++ value) (
      ap (split_first b':') (assoc_field b':' f (ended b':' fs) value)
      ∙ split_first_lem b':' f (ended b':' fs ++ value) v.0)
    ∙ strip_fields_lem fs value v.1

split_commas_tail : (token tail : Bytes) → Lacks b',' tail → split_commas token tail ≡ []
unfolding split_commas
split_commas_tail token [] v = refl
split_commas_tail token (c ∷ tail) v = rw v.0 (split_commas_tail (token ++ (c ∷ [])) tail v.1)

split_commas_one :
    (token e rest : Bytes)
    → Lacks b',' e
    → split_commas token (e ++ (b',' ∷ rest)) ≡ (token ++ e) ∷ split_commas [] rest
unfolding split_commas
split_commas_one token [] rest v = ap (λ t. t ∷ split_commas [] rest) (sym (append-nil token))
split_commas_one token (c ∷ e) rest v = rw v.0 (
    split_commas_one (token ++ (c ∷ [])) e rest v.1
    ∙ ap (λ t. t ∷ split_commas [] rest) (append_assoc token (c ∷ []) e))

-- An element as the cluster writes it: five fields, a ':' behind each, and the value.
pub record Element : Type 0 where
  pub fields : List Bytes
  pub value : Bytes

abbrev pub text : Element → Bytes
text e = ended b':' e.fields ++ e.value

-- The fields have no ':', and the whole has no ','.
abbrev pub IsElement : Element → Type 0
IsElement e = (length e.fields ≡ 5) × All (Lacks b':') e.fields × Lacks b',' (text e)

-- Elements of five fields and a value, each with a comma behind it, and then a text without commas, split
-- into the values, in their order; the text behind the last comma is left out.
pub split_list_elements-ended :
    (es : List Element) (tail : Bytes)
    → All IsElement es
    → Lacks b',' tail
    → split_list_elements (ended b',' (map text es) ++ tail) ≡ map (λ e. e.value) es
unfolding split_list_elements
split_list_elements-ended [] tail v w = rw (split_commas_tail [] tail w) refl
split_list_elements-ended (e ∷ es) tail v w =
    rw
      (
        assoc_field b',' (text e) (ended b',' (map text es)) tail,
        split_commas_one [] (text e) (ended b',' (map text es) ++ tail) v.0.2,
        five,
      )
      (ap (λ l. e.value ∷ l) (split_list_elements-ended es tail v.1 w))
  where
    five : strip_fields 5 (text e) ≡ e.value
    five =
        subst (λ n. strip_fields n (text e) ≡ e.value) v.0.0
          (strip_fields_lem e.fields e.value v.0.1)
