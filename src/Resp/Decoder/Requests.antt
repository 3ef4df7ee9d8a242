-- ===== src/Resp/Decoder/Requests.antt =====
-- Requests as a client writes them, an array of bulk strings, through the decoder.
use logcabin_redis_proxy.Base.{
  ℕ, ◌+◌, ◌%◌, ◌^◌, ◌<◌, true, false, ◌&&◌, List, [], ◌∷◌, ◌++◌, ◌≡◌, ◌≢◌, refl, sym, ap, ◌∙◌, inl,
  inr, ◌==◌, Bool-cases, append_assoc, append-nil, arith, length, length-append, All,
}
use logcabin_redis_proxy.Bytes.{Bytes, codes, crlf}
use logcabin_redis_proxy.Num.{to_string, stoi}
use logcabin_redis_proxy.Num.RoundTrip.{IsDigit, to_string-All, stoi-to_string}
use logcabin_redis_proxy.Resp.{ParseState, parse_elements, parse_bluk_strings}
use logcabin_redis_proxy.Resp.Encoder.{bulk, bulks}
use logcabin_redis_proxy.Resp.Decoder.{Progress, ok, token_in, turn, push_element, finish_request}
use logcabin_redis_proxy.Resp.Decoder.Scan.{scan, scan_end, scan_last, scan_plain, scan_token}

-- A byte that begins no "\r\n" goes to the open token.
pub scan_byte :
    (p : Progress) (token : Bytes) (c : ℕ) (s : Bytes)
    → c ≢ 13
    → scan p token (c ∷ s) ≡ scan p (token ++ (c ∷ [])) s
scan_byte p token c [] h = scan_last p token c ∙ sym (scan_end p (token ++ (c ∷ [])))
scan_byte p token c (d ∷ r) h = scan_plain p token c d r (ground arith)

-- A line of other bytes than '\r' is one token.
pub scan-line :
    (p q : Progress) (token text rest : Bytes)
    → All (λ c. c ≢ 13) text
    → token_in p.state p (token ++ text) ≡ ok (q, true)
    → scan p token (text ++ (13 ∷ 10 ∷ rest)) ≡ scan q [] rest
scan-line p q token [] rest h e =
    scan_token p token 13 10 rest refl
    ∙ ap (λ t. turn t (λ s. scan s [] rest) (λ s. scan s (token ++ (13 ∷ [])) (10 ∷ rest)))
        (ap (token_in p.state p) (sym (append-nil token)) ∙ e)
scan-line p q token (c ∷ text) rest h e =
    scan_byte p token c (text ++ (13 ∷ 10 ∷ rest)) h.0
    ∙ scan-line p q (token ++ (c ∷ [])) text rest h.1
        (ap (token_in p.state p) (append_assoc token (c ∷ []) text) ∙ e)

module _ (p : Progress) (reading : p.state ≡ parse_bluk_strings) where
  token_in_short :
      (token : Bytes) → length token < p.reading_str_size → token_in p.state p token ≡ ok (p, false)
  unfolding token_in
  token_in_short token h = rw reading (ground arith)

  token_in_full :
      (token : Bytes)
      → length token ≡ p.reading_str_size
      → token_in p.state p token ≡ ok (push_element p token, true)
  unfolding token_in
  token_in_full token h = rw reading (ground arith)

  -- Inside a bulk string every byte is taken, '\r' and '\n' too.
  scan_inside :
      (token : Bytes) (c : ℕ) (s : Bytes)
      → length token < p.reading_str_size
      → scan p token (c ∷ s) ≡ scan p (token ++ (c ∷ [])) s
  scan_inside token c [] h = scan_last p token c ∙ sym (scan_end p (token ++ (c ∷ [])))
  scan_inside token c (d ∷ r) h = elim (Bool-cases (c == 13 && d == 10)) [
    | inl crlf ↦
        scan_token p token c d r crlf
        ∙ ap (λ t. turn t (λ q. scan q [] r) (λ q. scan q (token ++ (c ∷ [])) (d ∷ r)))
            (token_in_short token h)
    | inr plain ↦ scan_plain p token c d r plain
  ]

  scan-string :
      (token text rest : Bytes)
      → length token + length text ≡ p.reading_str_size
      → scan p token (text ++ (13 ∷ 10 ∷ rest)) ≡ scan (push_element p (token ++ text)) [] rest
  scan-string token [] rest h =
      scan_token p token 13 10 rest refl
      ∙ ap (λ t. turn t (λ q. scan q [] rest) (λ q. scan q (token ++ (13 ∷ [])) (10 ∷ rest)))
          (token_in_full token (omega arith))
      ∙ ap (λ t. scan (push_element p t) [] rest) (sym (append-nil token))
  scan-string token (c ∷ text) rest h =
      scan_inside token c (text ++ (13 ∷ 10 ∷ rest)) (omega arith)
      ∙ scan-string (token ++ (c ∷ [])) text rest (omega (arith, length-append token (c ∷ [])))
      ∙ ap (λ t. scan (push_element p t) [] rest) (append_assoc token (c ∷ []) text)

-- Digits are no '\r'.
pub digits-plain : (s : Bytes) → All IsDigit s → All (λ c. c ≢ 13) s
digits-plain [] h = tt
digits-plain (c ∷ s) h = (omega (arith, h.0), digits-plain s h.1)

bulk-rest :
    (v rest : Bytes)
    → bulk v ++ rest ≡ 36 ∷ (to_string (length v) ++ (13 ∷ 10 ∷ (v ++ (13 ∷ 10 ∷ rest))))
unfolding bulk
bulk-rest v rest = simp append_assoc

pub size_fits : (n : ℕ) → n < 2 ^ 31 → n % 2 ^ 64 ≡ n
size_fits n h = omega arith

-- "$", a size and "\r\n" lead into the string.
scan-bulk_header :
    (p : Progress) (n : ℕ) (rest : Bytes)
    → p.state ≡ parse_elements
    → 0 < n
    → n < 2 ^ 31
    → scan p [] (36 ∷ (to_string n ++ (13 ∷ 10 ∷ rest)))
      ≡ scan (record p { reading_str_size = n; state = parse_bluk_strings }) [] rest
scan-bulk_header p n rest s h b =
    scan_byte p [] 36 _ (omega arith)
    ∙ scan-line p _ (36 ∷ []) (to_string n) rest (digits-plain _ (to_string-All n)) header
  where
    header :
        token_in p.state p (36 ∷ to_string n)
        ≡ ok (record p { reading_str_size = n; state = parse_bluk_strings }, true)
    header = rw s (unfold token_in in rw (stoi-to_string n b, size_fits n b) (ground arith))

push_element_over :
    (p : Progress) (n : ℕ) (s : ParseState) (v : Bytes)
    → push_element (record p { reading_str_size = n; state = s }) v ≡ push_element p v
unfolding push_element
push_element_over p n s v = ground arith

-- A string of at least one byte, whatever the bytes.
scan-bulk :
    (p : Progress) (v rest : Bytes)
    → p.state ≡ parse_elements
    → 0 < length v
    → length v < 2 ^ 31
    → scan p [] (bulk v ++ rest) ≡ scan (push_element p v) [] rest
scan-bulk p v rest s h b =
    ap (scan p []) (bulk-rest v rest)
    ∙ scan-bulk_header p (length v) (v ++ (13 ∷ 10 ∷ rest)) s h b
    ∙ scan-string (record p { reading_str_size = length v; state = parse_bluk_strings }) refl [] v
        rest (omega arith)
    ∙ ap (λ q. scan q [] rest) (push_element_over p (length v) parse_bluk_strings v)

token_in_zero :
    (p : Progress)
    → p.state ≡ parse_elements
    → token_in p.state p (codes "$0")
      ≡ ok (push_element (record p { reading_str_size = 0; state = p.state }) [], true)
unfolding token_in stoi
token_in_zero p s = rw s refl

-- The empty string is pushed at its header.
pub scan-bulk_empty :
    (p : Progress) (rest : Bytes)
    → p.state ≡ parse_elements
    → scan p [] (bulk [] ++ rest) ≡ scan (push_element p []) [] (13 ∷ 10 ∷ rest)
unfolding to_string
scan-bulk_empty p rest s =
    ap (scan p []) (bulk-rest [] rest)
    ∙ scan-line p _ [] (codes "$0") (13 ∷ 10 ∷ rest) (omega arith) (token_in_zero p s)
    ∙ ap (λ q. scan q [] (13 ∷ 10 ∷ rest)) (push_element_over p 0 p.state [])

-- A "\r\n" where a next element is awaited is skipped.
scan_blank :
    (p : Progress) (rest : Bytes)
    → p.state ≡ parse_elements
    → scan p [] (13 ∷ 10 ∷ rest) ≡ scan p [] rest
scan_blank p rest s = scan-line p p [] [] rest tt blank
  where
    blank : token_in p.state p [] ≡ ok (p, true)
    blank = ap (λ m. token_in m p []) s ∙ unfold token_in in refl

-- The progress with one more element of an unfinished request.
abbrev pub grown : Progress → Bytes → Progress
grown p v = record p {
  state = parse_elements;
  reading_str_size = 0;
  req_list = p.req_list ++ (v ∷ []);
}

push_element_more :
    (p : Progress) (v : Bytes)
    → length p.req_list + 1 < p.reading_list_size
    → push_element p v ≡ grown p v
unfolding push_element
push_element_more p v h = ground (arith, length-append p.req_list (v ∷ []))

pub push_element_last :
    (p : Progress) (v : Bytes)
    → length p.req_list + 1 ≡ p.reading_list_size
    → push_element p v ≡ finish_request p (p.req_list ++ (v ∷ []))
unfolding push_element
push_element_last p v h = ground (arith, length-append p.req_list (v ∷ []))

-- An element that is not the last may be empty.
pub scan-element :
    (p : Progress) (v rest : Bytes)
    → p.state ≡ parse_elements
    → length p.req_list + 1 < p.reading_list_size
    → length v < 2 ^ 31
    → scan p [] (bulk v ++ rest) ≡ scan (grown p v) [] rest
scan-element p [] rest s h b =
    scan-bulk_empty p rest s
    ∙ ap (λ q. scan q [] (13 ∷ 10 ∷ rest)) (push_element_more p [] h)
    ∙ scan_blank (grown p []) rest refl
scan-element p (c ∷ v) rest s h b =
    scan-bulk p (c ∷ v) rest s (omega arith) b
    ∙ ap (λ q. scan q [] rest) (push_element_more p (c ∷ v) h)

-- The strings of a request that the decoder can finish: at least one, the last one not empty, each
-- of a size that an `int` holds.
abbrev pub AreSendable : List Bytes → Type 0
AreSendable [] = ⊥
AreSendable (v ∷ []) = (0 < length v) × (length v < 2 ^ 31)
AreSendable (v ∷ w ∷ vs) = (length v < 2 ^ 31) × AreSendable (w ∷ vs)

pub scan-bulks :
    (p : Progress) (vs : List Bytes) (rest : Bytes)
    → p.state ≡ parse_elements
    → length p.req_list + length vs ≡ p.reading_list_size
    → AreSendable vs
    → scan p [] (bulks vs ++ rest) ≡ scan (finish_request p (p.req_list ++ vs)) [] rest
unfolding bulks finish_request
scan-bulks p [] rest s h a = absurd a
scan-bulks p (v ∷ []) rest s h a =
    ap (scan p []) (append_assoc (bulk v) [] rest)
    ∙ scan-bulk p v rest s a.0 a.1
    ∙ ap (λ q. scan q [] rest) (push_element_last p v (omega arith))
scan-bulks p (v ∷ w ∷ vs) rest s h a =
    ap (scan p []) (append_assoc (bulk v) (bulks (w ∷ vs)) rest)
    ∙ scan-element p v (bulks (w ∷ vs) ++ rest) s (omega arith) a.0
    ∙ scan-bulks (grown p v) (w ∷ vs) rest refl (omega (arith, length-append p.req_list (v ∷ [])))
        a.1
    ∙ ap (λ l. scan (finish_request p l) [] rest) (append_assoc p.req_list (v ∷ []) (w ∷ vs))
