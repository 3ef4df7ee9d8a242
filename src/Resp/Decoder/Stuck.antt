-- ===== src/Resp/Decoder/Stuck.antt =====
-- A request of no elements, and whatever is sent behind it.
use logcabin_redis_proxy.Base.{
  ℕ, ◌≡◌, ◌≢◌, refl, sym, ap, subst, ◌∙◌, List, [], ◌∷◌, ◌++◌, true, false, arith, length,
  length-append, inl, inr, ◌==◌, ltb, ==_iff, Bool-cases, to_size,
}
use logcabin_redis_proxy.Bytes.{Bytes, codes, crlf}
use logcabin_redis_proxy.Num
use logcabin_redis_proxy.Num.{Stoi, stoi, strtol, magnitude, digits_value}
use logcabin_redis_proxy.Resp.{ParseState, init, parse_elements, parse_bluk_strings, Command}
use logcabin_redis_proxy.Resp.Decoder.{
  Progress, DecodeContext, Decoded, ok, threw, out_of_fuel, token_in, bulk_size, init_token,
  element_token, string_token, read_size, push_element, feed,
}
use logcabin_redis_proxy.Resp.Decoder.Chunks.{feed-scan}
use logcabin_redis_proxy.Resp.Decoder.Requests.{scan-line}
use logcabin_redis_proxy.Resp.Decoder.RoundTrip.{IsIdle}
use logcabin_redis_proxy.Resp.Decoder.Rule.{Gives, returns, throws, scan-Gives}
use logcabin_redis_proxy.Resp.Decoder.Scan.{scan, resumed}

-- Elements are read of a request that is to have none.
record IsStuck (h : List Command) (p : Progress) : Type 0 where
  pub no_size : p.reading_list_size ≡ 0
  pub in_request : p.state ≢ init
  pub calls : p.handled ≡ h

never_complete :
    (l : List Bytes) (v : Bytes) (n : ℕ) → n ≡ 0 → (length (l ++ (v ∷ [])) == n) ≡ false
never_complete l v n e =
    ground (arith, e, length-append l (v ∷ []), ==_iff (length (l ++ (v ∷ []))) n)

module _ (h : List Command) where
  push_element-IsStuck : (p : Progress) (v : Bytes) → IsStuck h p → IsStuck h (push_element p v)
  unfolding push_element
  push_element-IsStuck p v w =
      rw (never_complete p.req_list v p.reading_list_size w.no_size)
        (record { no_size = w.no_size; in_request = λ e. cc; calls = w.calls })

  bulk_size-Stuck :
      (p : Progress) (n : Stoi) → IsStuck h p → Gives (λ r. IsStuck h r.0) (bulk_size p n)
  unfolding bulk_size
  bulk_size-Stuck p (Num.ok n) w = elim (Bool-cases (to_size n == 0)) [
    | inl e ↦ rw e (
        returns (
          push_element-IsStuck (record p { reading_str_size = to_size n }) []
            (record { no_size = w.no_size; in_request = w.in_request; calls = w.calls })))
    | inr e ↦ rw e (returns (record { no_size = w.no_size; in_request = λ e. cc; calls = w.calls }))
  ]
  bulk_size-Stuck p (Num.threw x) w = throws

  element_token-Stuck :
      (p : Progress) (token : Bytes)
      → IsStuck h p
      → Gives (λ r. IsStuck h r.0) (element_token p token)
  unfolding element_token
  element_token-Stuck p [] w = returns w
  element_token-Stuck p (c ∷ s) w = elim (Bool-cases (c == b':')) [
    | inl e ↦
        rw e (returns (record { no_size = w.no_size; in_request = w.in_request; calls = w.calls }))
    | inr e ↦ elim (Bool-cases (c == b'$')) [
      | inl f ↦ rw (e, f) (bulk_size-Stuck p (read_size (c ∷ s)) w)
      | inr f ↦ rw (e, f) (returns w)
    ]
  ]

  string_token-Stuck :
      (p : Progress) (token : Bytes)
      → IsStuck h p
      → Gives (λ r. IsStuck h r.0) (string_token p token)
  unfolding string_token
  string_token-Stuck p token w = elim (Bool-cases (ltb (length token) p.reading_str_size)) [
    | inl e ↦ rw e (returns w)
    | inr e ↦ elim (Bool-cases (ltb p.reading_str_size (length token))) [
      | inl f ↦ rw (e, f) (returns w)
      | inr f ↦ rw (e, f) (returns (push_element-IsStuck p token w))
    ]
  ]

  token_in-Stuck :
      (s : ParseState) (p : Progress) (token : Bytes)
      → s ≢ init
      → IsStuck h p
      → Gives (λ r. IsStuck h r.0) (token_in s p token)
  unfolding token_in
  token_in-Stuck init p token o w = absurd (o refl)
  token_in-Stuck parse_elements p token o w = element_token-Stuck p token w
  token_in-Stuck parse_bluk_strings p token o w = string_token-Stuck p token w

-- What becomes of a context that reads on: the calls of its handler stay as they are, and it does not
-- come to the start of a request.
abbrev pub Unanswered : DecodeContext → Decoded DecodeContext → Type 0
Unanswered ctx (ok ctx') = (ctx'.handled ≡ ctx.handled) × (ctx'.state ≢ init)
Unanswered ctx (threw e h) = Unit
Unanswered ctx out_of_fuel = ⊥

resumed-Unanswered :
    (ctx : DecodeContext) (d : Decoded (Progress × Bytes))
    → Gives (λ r. IsStuck ctx.handled r.0) d
    → Unanswered ctx (resumed ctx d)
resumed-Unanswered ctx (ok (q, rest)) (returns w) = (w.calls, w.in_request)
resumed-Unanswered ctx (threw e h) w = tt
resumed-Unanswered ctx out_of_fuel w = elim w [ ]

abbrev opened : Progress → Progress
opened p = record p { reading_list_size = 0; state = parse_elements }

token_in_none :
    (p : Progress) → p.state ≡ init → token_in p.state p (codes "*0") ≡ ok (opened p, true)
unfolding token_in init_token read_size strtol magnitude digits_value stoi
token_in_none p s = ap (λ m. token_in m p (codes "*0")) s

-- A context that waits for a request gets "*0", the request of no elements, and then any bytes. Then `decode`
-- ends, and if it does not throw, it has not called the handler, neither for this request nor for
-- any that is behind it, and the context does not wait for a new request.
pub feed_none :
    (ctx : DecodeContext) (bytes : Bytes)
    → IsIdle ctx
    → Unanswered ctx (feed ctx (codes "*0" ++ (crlf ++ bytes)))
feed_none ctx bytes idle =
    let p = ctx.progress in
    let stuck : IsStuck p.handled (opened p) = record {
      no_size = refl;
      in_request = λ e. cc;
      calls = refl;
    } in
    let same : feed ctx (codes "*0" ++ (crlf ++ bytes)) ≡ resumed ctx (scan (opened p) [] bytes) =
      feed-scan ctx (codes "*0" ++ (crlf ++ bytes))
      ∙ ap (λ x. resumed ctx (scan p [] (x ++ (codes "*0" ++ (crlf ++ bytes))))) idle.no_bytes
      ∙ ap (resumed ctx) (
          scan-line p (opened p) [] (codes "*0") bytes (omega arith, (omega arith, tt))
            (token_in_none p idle.at_init)) in
    subst (Unanswered ctx) (sym same) (
      resumed-Unanswered ctx _ (
        scan-Gives (IsStuck p.handled)
          (λ q t w. token_in-Stuck p.handled q.state q t w.in_request w) (opened p) [] bytes stuck))
