-- ===== src/Resp/Decoder/Rule.antt =====
-- One rule for what `scan` keeps: it is kept by every token.
use logcabin_redis_proxy.Base.{
  ℕ, Bool, true, false, ◌&&◌, List, [], ◌∷◌, ◌++◌, inl, inr, ◌==◌, ltb, length, Bool-cases, to_size,
}
use logcabin_redis_proxy.Bytes.{Bytes}
use logcabin_redis_proxy.Num
use logcabin_redis_proxy.Num.{NumError, Stoi}
use logcabin_redis_proxy.Resp.{ParseState, init, parse_elements, parse_bluk_strings, Command}
use logcabin_redis_proxy.Resp.Decoder.{
  Progress, Decoded, ok, threw, out_of_fuel, token_in, init_token, bulk_size, element_token,
  string_token, read_size, turn, push_element,
}
use logcabin_redis_proxy.Resp.Decoder.Scan.{scan, scan_end, scan_last, scan_plain, scan_token}

-- It ends: with a value that has the property, or by an exception.
pub data Gives {A : Type 0} (P : A → Type 0) : Decoded A → Type 0 where
  returns : {a : A} → P a → Gives P (ok a)
  throws : {e : NumError} {h : List Command} → Gives P (threw e h)

turn-Gives :
    (P : Progress → Type 0) (d : Decoded (Progress × Bool))
    (k l : Progress → Decoded (Progress × Bytes))
    → Gives (λ r. P r.0) d
    → ((q : Progress) → P q → Gives (λ r. P r.0) (k q))
    → ((q : Progress) → P q → Gives (λ r. P r.0) (l q))
    → Gives (λ r. P r.0) (turn d k l)
turn-Gives P (ok (q, true)) k l (returns w) hk hl = hk q w
turn-Gives P (ok (q, false)) k l (returns w) hk hl = hl q w
turn-Gives P (threw e h) k l w hk hl = throws
turn-Gives P out_of_fuel k l w hk hl = elim w [ ]

-- A token may change the sizes, the state and `req_list`; the handler is called by `push_element` alone.
module _ (P : Progress → Type 0) (p : Progress)
    (pushes : (size : ℕ) (v : Bytes) → P (push_element (record p { reading_str_size = size }) v))
    (changes : (s : ParseState) (list_size str_size : ℕ) (l : List Bytes)
      → P (record p {
        state = s;
        reading_list_size = list_size;
        reading_str_size = str_size;
        req_list = l;
      })) where
  init_token-Gives : (n : Stoi) → Gives (λ r. P r.0) (init_token p n)
  unfolding init_token
  init_token-Gives (Num.ok n) = returns (changes parse_elements (to_size n) _ _)
  init_token-Gives (Num.threw e) = throws

  bulk_size-Gives : (n : Stoi) → Gives (λ r. P r.0) (bulk_size p n)
  unfolding bulk_size
  bulk_size-Gives (Num.ok n) = elim (Bool-cases (to_size n == 0)) [
    | inl e ↦ rw e (returns (pushes (to_size n) []))
    | inr e ↦ rw e (returns (changes parse_bluk_strings _ (to_size n) _))
  ]
  bulk_size-Gives (Num.threw e) = throws

  element_token-Gives : (token : Bytes) → Gives (λ r. P r.0) (element_token p token)
  unfolding element_token
  element_token-Gives [] = returns (changes p.state _ _ _)
  element_token-Gives (c ∷ s) = elim (Bool-cases (c == b':')) [
    | inl e ↦ rw e (returns (changes p.state _ _ (p.req_list ++ ((c ∷ s) ∷ []))))
    | inr e ↦ elim (Bool-cases (c == b'$')) [
      | inl f ↦ rw (e, f) (bulk_size-Gives (read_size (c ∷ s)))
      | inr f ↦ rw (e, f) (returns (changes p.state _ _ _))
    ]
  ]

  string_token-Gives : (token : Bytes) → Gives (λ r. P r.0) (string_token p token)
  unfolding string_token
  string_token-Gives token = elim (Bool-cases (ltb (length token) p.reading_str_size)) [
    | inl e ↦ rw e (returns (changes p.state _ _ _))
    | inr e ↦ elim (Bool-cases (ltb p.reading_str_size (length token))) [
      | inl f ↦ rw (e, f) (returns (changes p.state _ _ _))
      | inr f ↦ rw (e, f) (returns (pushes p.reading_str_size token))
    ]
  ]

  pub token_in-Gives : (s : ParseState) (token : Bytes) → Gives (λ r. P r.0) (token_in s p token)
  unfolding token_in
  token_in-Gives init token = init_token-Gives (read_size token)
  token_in-Gives parse_elements token = element_token-Gives token
  token_in-Gives parse_bluk_strings token = string_token-Gives token

module _ (P : Progress → Type 0)
    (tokens : (p : Progress) (token : Bytes)
      → P p
      → Gives (λ r. P r.0) (token_in p.state p token)) where
  pub scan-Gives :
      (p : Progress) (token ahead : Bytes) → P p → Gives (λ r. P r.0) (scan p token ahead)
  scan-Gives p token [] w = rw (scan_end p token) (returns w)
  scan-Gives p token (c ∷ []) w = rw (scan_last p token c) (returns w)
  scan-Gives p token (c ∷ d ∷ r) w = elim (Bool-cases (c == 13 && d == 10)) [
    | inl crlf ↦ rw (scan_token p token c d r crlf) (
        turn-Gives P (token_in p.state p token) _ _ (tokens p token w) (λ q v. scan-Gives q [] r v)
          (λ q v. scan-Gives q (token ++ (c ∷ [])) (d ∷ r) v))
    | inr plain ↦ rw (scan_plain p token c d r plain) (scan-Gives p (token ++ (c ∷ [])) (d ∷ r) w)
  ]
