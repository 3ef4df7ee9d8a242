-- ===== src/Resp/Decoder/Chunks.antt =====
-- Requests that arrive in pieces of at most 1023 bytes, cut anywhere.
use logcabin_redis_proxy.Base.{
  Bool, true, false, ◌&&◌, [], ◌∷◌, ◌++◌, ◌≡◌, refl, sym, ap, subst, ◌∙◌, inl, inr, ◌==◌,
  Bool-cases, append_assoc, arith,
}
use logcabin_redis_proxy.Bytes.{Bytes}
use logcabin_redis_proxy.Resp.{ParseState, init, parse_elements, parse_bluk_strings}
use logcabin_redis_proxy.Resp.Decoder.{
  Progress, DecodeContext, Decoded, ok, threw, out_of_fuel, token_in, turn, append_new_buffer, feed,
}
use logcabin_redis_proxy.Resp.Decoder.Scan.{
  scan, scan_end, scan_last, scan_plain, scan_token, resumed, decode-scan,
}

-- To go on with the bytes that stayed buffered and `more`.
abbrev again : Bytes → Decoded (Progress × Bytes) → Decoded (Progress × Bytes)
again more (ok (q, rest)) = scan q [] (rest ++ more)
again more (threw e h) = threw e h
again more out_of_fuel = out_of_fuel

again-turn :
    (more : Bytes) (d : Decoded (Progress × Bool))
    (k l k' l' : Progress → Decoded (Progress × Bytes))
    → ((q : Progress) → k q ≡ again more (k' q))
    → ((q : Progress) → d ≡ ok (q, false) → l q ≡ again more (l' q))
    → turn d k l ≡ again more (turn d k' l')
again-turn more (ok (q, true)) k l k' l' hk hl = hk q
again-turn more (ok (q, false)) k l k' l' hk hl = hl q refl
again-turn more (threw e h) k l k' l' hk hl = refl
again-turn more out_of_fuel k l k' l' hk hl = refl

-- Only a bulk string that is still too short leaves its token open, and then nothing has changed.
token_in_open :
    (s : ParseState) (p q : Progress) (token : Bytes) → token_in s p token ≡ ok (q, false) → q ≡ p
unfolding token_in
token_in_open init p q [] e = cc
token_in_open init p q (c ∷ s) e = ground arith
token_in_open parse_elements p q [] e = cc
token_in_open parse_elements p q (c ∷ s) e = ground arith
token_in_open parse_bluk_strings p q token e = ground arith

-- A scan of all the bytes is a scan of the first ones and, from the start of the open token, of the
-- others. The hypothesis: to read the open token anew changes nothing.
scan-append :
    (p : Progress) (token first more : Bytes)
    → scan p [] (token ++ (first ++ more)) ≡ scan p token (first ++ more)
    → scan p token (first ++ more) ≡ again more (scan p token first)
scan-append p token [] more h = sym h ∙ ap (again more) (sym (scan_end p token))
scan-append p token (c ∷ []) more h =
    sym h
    ∙ ap (scan p []) (sym (append_assoc token (c ∷ []) more))
    ∙ ap (again more) (sym (scan_last p token c))
scan-append p token (c ∷ d ∷ r) more h = elim (Bool-cases (c == 13 && d == 10)) [
  | inl crlf ↦
      let ahead = d ∷ (r ++ more) in
      let longer = token ++ (c ∷ []) in
      let whole = scan_token p token c d (r ++ more) crlf in
      let anew = ap (scan p []) (append_assoc token (c ∷ []) ahead) ∙ h ∙ whole in
      let later : (q : Progress)
          → token_in p.state p token ≡ ok (q, false)
          → scan q longer ahead ≡ again more (scan q longer (d ∷ r)) =
        λ q e.
          subst (λ s. scan s longer ahead ≡ again more (scan s longer (d ∷ r)))
            (sym (token_in_open p.state p q token e))
            (scan-append p longer (d ∷ r) more (
              anew
              ∙ ap (λ t. turn t (λ s. scan s [] (r ++ more)) (λ s. scan s longer ahead)) e
              ∙ ap (λ s. scan s longer ahead) (token_in_open p.state p q token e))) in
      whole
      ∙ again-turn more (token_in p.state p token) _ _ _ _ (λ q. scan-append q [] r more refl) later
      ∙ ap (again more) (sym (scan_token p token c d r crlf))
  | inr plain ↦
      let whole = scan_plain p token c d (r ++ more) plain in
      whole
      ∙ scan-append p (token ++ (c ∷ [])) (d ∷ r) more
          (ap (scan p []) (append_assoc token (c ∷ []) (d ∷ (r ++ more))) ∙ h ∙ whole)
      ∙ ap (again more) (sym (scan_plain p token c d r plain))
]

-- To go on decoding in the context that a step left.
abbrev pub then_feed : Decoded DecodeContext → Bytes → Decoded DecodeContext
then_feed (ok ctx) bytes = feed ctx bytes
then_feed (threw e h) bytes = threw e h
then_feed out_of_fuel bytes = out_of_fuel

pub feed-scan :
    (ctx : DecodeContext) (bytes : Bytes)
    → feed ctx bytes ≡ resumed ctx (scan ctx.progress [] (ctx.buffered_input ++ bytes))
unfolding feed append_new_buffer
feed-scan ctx bytes = decode-scan (record ctx { buffered_input = ctx.buffered_input ++ bytes })

resumed-again :
    (ctx : DecodeContext) (d : Decoded (Progress × Bytes)) (more : Bytes)
    → resumed ctx (again more d) ≡ then_feed (resumed ctx d) more
resumed-again ctx (ok (q, rest)) more =
    sym (feed-scan (record ctx { progress = q; buffered_input = rest }) more)
resumed-again ctx (threw e h) more = refl
resumed-again ctx out_of_fuel more = refl

-- Reading bytes in two pieces, wherever they are cut, calls the handler with the same commands,
-- throws the same exception after the same calls, and leaves the same context as one piece.
pub feed-append : (ctx : DecodeContext) (a b : Bytes) → feed ctx (a ++ b) ≡ then_feed (feed ctx a) b
feed-append ctx a b =
    feed-scan ctx (a ++ b)
    ∙ ap (λ s. resumed ctx (scan ctx.progress [] s)) (sym (append_assoc ctx.buffered_input a b))
    ∙ ap (resumed ctx) (scan-append ctx.progress [] (ctx.buffered_input ++ a) b refl)
    ∙ resumed-again ctx (scan ctx.progress [] (ctx.buffered_input ++ a)) b
    ∙ ap (λ d. then_feed d b) (sym (feed-scan ctx a))
