-- ===== src/Resp/Decoder/Scan.antt =====
-- The loop of `decoder::parse` without indices: the bytes since the last token, and those ahead.
use logcabin_redis_proxy.Base.{
  ℕ, zero, suc, ◌+◌, ◌-◌, ◌<◌, Bool, true, false, ◌&&◌, [], ◌∷◌, ◌++◌, ◌≡◌, refl, sym, ap, ◌∙◌,
  some, inl, inr, arith, ltb, ◌==◌, Bool-cases, length, length-append, get_elem?, get_elem?-append,
  take, take-append, drop-append, append_assoc,
}
use logcabin_redis_proxy.Bytes.{Bytes, substr}
use logcabin_redis_proxy.Resp.Decoder.{
  Progress, DecodeContext, Decoded, ok, threw, out_of_fuel, token_in, at_crlf, turn, popped,
  parse_loop, pop_buffer, parse, decode,
}

-- The progress and the bytes that stay buffered.
unfoldable pub scan : Progress → Bytes → Bytes → Decoded (Progress × Bytes)
scan p token [] = ok (p, token)
scan p token (c ∷ []) = ok (p, token ++ (c ∷ []))
scan p token (c ∷ d ∷ r) = elim (c == 13 && d == 10) [
  | true ↦
      turn (token_in p.state p token) (λ q. scan q [] r) (λ q. scan q (token ++ (c ∷ [])) (d ∷ r))
  | false ↦ scan p (token ++ (c ∷ [])) (d ∷ r)
]

pub scan_end : (p : Progress) (token : Bytes) → scan p token [] ≡ ok (p, token)
unfolding scan
scan_end p token = refl

pub scan_last :
    (p : Progress) (token : Bytes) (c : ℕ) → scan p token (c ∷ []) ≡ ok (p, token ++ (c ∷ []))
unfolding scan
scan_last p token c = refl

module _ (p : Progress) (token : Bytes) (c d : ℕ) (r : Bytes) where
  pub scan_plain :
      (c == 13 && d == 10) ≡ false → scan p token (c ∷ d ∷ r) ≡ scan p (token ++ (c ∷ [])) (d ∷ r)
  unfolding scan
  scan_plain e = rw (e, scan) refl

  pub scan_token :
      (c == 13 && d == 10) ≡ true
      → scan p token (c ∷ d ∷ r)
        ≡ turn
            (token_in p.state p token)
            (λ q. scan q [] r)
            (λ q. scan q (token ++ (c ∷ [])) (d ∷ r))
  unfolding scan
  scan_token e = rw (e, scan) refl

abbrev rest_of : Bytes → Decoded (Progress × ℕ) → Decoded (Progress × Bytes)
rest_of buf (ok (p, start)) = ok (p, substr buf start (length buf - start))
rest_of buf (threw e h) = threw e h
rest_of buf out_of_fuel = out_of_fuel

-- Where the index stands in the buffer.
record At (buf pre token ahead : Bytes) (i start : ℕ) : Type 0 where
  splits : buf ≡ pre ++ (token ++ ahead)
  index : i ≡ length pre + length token
  begins : start ≡ length pre

module _ (pre token : Bytes) where
  substr_token :
      (ahead : Bytes) → substr (pre ++ (token ++ ahead)) (length pre) (length token) ≡ token
  substr_token ahead =
      ap (take (length token)) (drop-append pre (token ++ ahead)) ∙ take-append token ahead

  get_elem?-ahead :
      (c : ℕ) (r : Bytes)
      → get_elem? (pre ++ (token ++ (c ∷ r))) (length pre + length token) ≡ some c
  get_elem?-ahead c r =
      ap (λ b. get_elem? b (length pre + length token)) (sym (append_assoc pre token (c ∷ r)))
      ∙ ap (get_elem? ((pre ++ token) ++ (c ∷ r))) (sym (length-append pre token))
      ∙ get_elem?-append (pre ++ token) r c

length-buffer :
    (pre token ahead : Bytes)
    → length (pre ++ (token ++ ahead)) ≡ length pre + length token + length ahead
length-buffer pre token ahead =
    omega (arith, length-append pre (token ++ ahead), length-append token ahead)

-- The index moves one byte ahead.
At-next :
    {buf : Bytes} (pre token : Bytes) (c : ℕ) (r : Bytes) {i start : ℕ}
    → At buf pre token (c ∷ r) i start
    → At buf pre (token ++ (c ∷ [])) r (i + 1) start
At-next pre token c r a = record {
  splits = a.splits ∙ ap (◌++◌ pre) (sym (append_assoc token (c ∷ []) r));
  index = omega (arith, a.index, length-append token (c ∷ []));
  begins = a.begins;
}

-- A token and its "\r\n" are behind the index.
At-token :
    {buf : Bytes} (pre token : Bytes) (c d : ℕ) (r : Bytes) {i start : ℕ}
    → At buf pre token (c ∷ d ∷ r) i start
    → At buf ((pre ++ token) ++ (c ∷ d ∷ [])) [] r (i + 2) (i + 2)
At-token pre token c d r a = record {
  splits =
      a.splits
      ∙ sym (append_assoc pre token (c ∷ d ∷ r))
      ∙ sym (append_assoc (pre ++ token) (c ∷ d ∷ []) r);
  index =
      omega (arith, a.index, length-append pre token, length-append (pre ++ token) (c ∷ d ∷ []));
  begins =
      omega (arith, a.index, length-append pre token, length-append (pre ++ token) (c ∷ d ∷ []));
}

module _ {buf : Bytes} (pre token ahead : Bytes) {i start : ℕ}
    (a : At buf pre token ahead i start) where
  token-substr : substr buf start (i - start) ≡ token
  token-substr =
      ap (λ b. substr b start (i - start)) a.splits
      ∙ ap (λ s. substr (pre ++ (token ++ ahead)) s (i - start)) a.begins
      ∙ ap (substr (pre ++ (token ++ ahead)) (length pre)) (omega (arith, a.index, a.begins))
      ∙ substr_token pre token ahead

  length-At : length buf ≡ i + length ahead
  length-At = omega (arith, ap length a.splits, length-buffer pre token ahead, a.index)

get_elem?-At :
    {buf : Bytes} (pre token : Bytes) (c : ℕ) (r : Bytes) {i start : ℕ}
    → At buf pre token (c ∷ r) i start
    → get_elem? buf i ≡ some c
get_elem?-At pre token c r {i} a =
    ap (λ b. get_elem? b i) a.splits
    ∙ ap (get_elem? (pre ++ (token ++ (c ∷ r)))) a.index
    ∙ get_elem?-ahead pre token c r

at_crlf-last :
    {buf : Bytes} (pre token : Bytes) (c : ℕ) {i start : ℕ}
    → At buf pre token (c ∷ []) i start
    → at_crlf buf i ≡ false
at_crlf-last pre token c a =
    ground (arith, get_elem?-At pre token c [] a, length-At pre token (c ∷ []) a)

at_crlf-pair :
    {buf : Bytes} (pre token : Bytes) (c d : ℕ) (r : Bytes) {i start : ℕ}
    → At buf pre token (c ∷ d ∷ r) i start
    → at_crlf buf i ≡ (c == 13 && d == 10)
at_crlf-pair pre token c d r a = ground (
  arith,
  get_elem?-At pre token c (d ∷ r) a,
  get_elem?-At pre (token ++ (c ∷ [])) d r (At-next pre token c (d ∷ r) a),
  length-At pre token (c ∷ d ∷ r) a,
)

ltb-At_end :
    {buf : Bytes} (pre token : Bytes) {i start : ℕ}
    → At buf pre token [] i start
    → ltb i (length buf) ≡ false
ltb-At_end pre token a = ground (arith, length-At pre token [] a)

ltb-At_more :
    {buf : Bytes} (pre token : Bytes) (c : ℕ) (r : Bytes) {i start : ℕ}
    → At buf pre token (c ∷ r) i start
    → ltb i (length buf) ≡ true
ltb-At_more pre token c r a = ground (arith, length-At pre token (c ∷ r) a)

rest_of-turn :
    (buf : Bytes) (d : Decoded (Progress × Bool)) (k l : Progress → Decoded (Progress × ℕ))
    (k' l' : Progress → Decoded (Progress × Bytes))
    → ((q : Progress) → rest_of buf (k q) ≡ k' q)
    → ((q : Progress) → rest_of buf (l q) ≡ l' q)
    → rest_of buf (turn d k l) ≡ turn d k' l'
rest_of-turn buf (ok (q, true)) k l k' l' hk hl = hk q
rest_of-turn buf (ok (q, false)) k l k' l' hk hl = hl q
rest_of-turn buf (threw e h) k l k' l' hk hl = refl
rest_of-turn buf out_of_fuel k l k' l' hk hl = refl

module _ (fuel : ℕ) (buf : Bytes) (i start : ℕ) (p : Progress) where
  parse_loop_end : ltb i (length buf) ≡ false → parse_loop (suc fuel) buf i start p ≡ ok (p, start)
  unfolding parse_loop
  parse_loop_end e = rw (e, parse_loop) refl

  parse_loop_plain :
      ltb i (length buf) ≡ true
      → at_crlf buf i ≡ false
      → parse_loop (suc fuel) buf i start p ≡ parse_loop fuel buf (i + 1) start p
  unfolding parse_loop
  parse_loop_plain e h = rw (e, parse_loop) (rw h refl)

  parse_loop_token :
      ltb i (length buf) ≡ true
      → at_crlf buf i ≡ true
      → parse_loop (suc fuel) buf i start p
        ≡ turn
            (token_in p.state p (substr buf start (i - start)))
            (λ q. parse_loop fuel buf (i + 2) (i + 2) q)
            (λ q. parse_loop fuel buf (i + 1) start q)
  unfolding parse_loop
  parse_loop_token e h = rw (e, parse_loop) (rw h refl)

-- One more round than bytes ahead is enough for the loop to end, as `scan` does.
parse_loop-scan :
    (fuel : ℕ) (buf pre token ahead : Bytes) (i start : ℕ) (p : Progress)
    → At buf pre token ahead i start
    → length ahead < fuel
    → rest_of buf (parse_loop fuel buf i start p) ≡ scan p token ahead
unfolding scan parse_loop
parse_loop-scan zero buf pre token ahead i start p a h = elim h [ ]
parse_loop-scan (suc f) buf pre token [] i start p a h =
    ap (rest_of buf) (parse_loop_end f buf i start p (ltb-At_end pre token a))
    ∙ ap (λ n. ok (p, substr buf start (n - start))) (omega (arith, length-At pre token [] a))
    ∙ ap (λ t. ok (p, t)) (token-substr pre token [] a)
parse_loop-scan (suc f) buf pre token (c ∷ []) i start p a h =
    ap (rest_of buf)
      (parse_loop_plain f buf i start p (ltb-At_more pre token c [] a) (at_crlf-last pre token c a))
    ∙ parse_loop-scan f buf pre (token ++ (c ∷ [])) [] (i + 1) start p (At-next pre token c [] a)
        (omega arith)
parse_loop-scan (suc f) buf pre token (c ∷ d ∷ r) i start p a h =
    let more : (q : Progress)
        → rest_of buf (parse_loop f buf (i + 1) start q) ≡ scan q (token ++ (c ∷ [])) (d ∷ r) =
      λ q.
        parse_loop-scan f buf pre (token ++ (c ∷ [])) (d ∷ r) (i + 1) start q
          (At-next pre token c (d ∷ r) a) (omega arith) in
    let inside = ltb-At_more pre token c (d ∷ r) a in
    let test = at_crlf-pair pre token c d r a in
    elim (Bool-cases (c == 13 && d == 10)) [
      | inl crlf ↦
          ap (rest_of buf) (parse_loop_token f buf i start p inside (test ∙ crlf))
          ∙ ap
              (λ t. rest_of buf (
                turn (token_in p.state p t) (λ q. parse_loop f buf (i + 2) (i + 2) q)
                  (λ q. parse_loop f buf (i + 1) start q)))
              (token-substr pre token (c ∷ d ∷ r) a)
          ∙ rest_of-turn buf (token_in p.state p token) _ _ _ _
              (λ q.
                parse_loop-scan f buf ((pre ++ token) ++ (c ∷ d ∷ [])) [] r (i + 2) (i + 2) q
                  (At-token pre token c d r a) (omega arith))
              more
          ∙ sym (scan_token p token c d r crlf)
      | inr plain ↦
          ap (rest_of buf) (parse_loop_plain f buf i start p inside (test ∙ plain))
          ∙ more p
          ∙ sym (scan_plain p token c d r plain)
    ]

abbrev pub resumed : DecodeContext → Decoded (Progress × Bytes) → Decoded DecodeContext
resumed ctx (ok (p, rest)) = ok (record ctx { progress = p; buffered_input = rest })
resumed ctx (threw e h) = threw e h
resumed ctx out_of_fuel = out_of_fuel

popped-resumed :
    (ctx : DecodeContext) (d : Decoded (Progress × ℕ))
    → popped ctx d ≡ resumed ctx (rest_of ctx.buffered_input d)
unfolding pop_buffer
popped-resumed ctx (ok (p, start)) = refl
popped-resumed ctx (threw e h) = refl
popped-resumed ctx out_of_fuel = refl

parse-scan :
    (ctx : DecodeContext) → parse ctx ≡ resumed ctx (scan ctx.progress [] ctx.buffered_input)
unfolding parse
parse-scan ctx =
    popped-resumed ctx _
    ∙ ap (resumed ctx) (
        parse_loop-scan (suc (length ctx.buffered_input)) ctx.buffered_input [] []
          ctx.buffered_input 0 0 ctx.progress
          (record { splits = refl; index = refl; begins = refl }) (omega arith))

decode-scan_at :
    (ctx : DecodeContext) (buf : Bytes)
    → ctx.buffered_input ≡ buf
    → decode ctx ≡ resumed ctx (scan ctx.progress [] ctx.buffered_input)
unfolding decode scan
decode-scan_at ctx [] e = rw e refl
decode-scan_at ctx (c ∷ r) e = ground (arith, parse-scan ctx)

-- `decode` does what `scan`, which has no fuel and no index, does to the buffered bytes.
pub decode-scan :
    (ctx : DecodeContext) → decode ctx ≡ resumed ctx (scan ctx.progress [] ctx.buffered_input)
decode-scan ctx = decode-scan_at ctx ctx.buffered_input refl
