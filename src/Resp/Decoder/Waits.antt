-- ===== src/Resp/Decoder/Waits.antt =====
-- A string that is not all there, and one whose length is negative.
use logcabin_redis_proxy.Base.{
  ℕ, ◌+◌, ◌-◌, ◌^◌, ◌<◌, ◌≡◌, ◌≢◌, refl, sym, ap, ◌∙◌, [], ◌∷◌, ◌++◌, ◌&&◌, ◌==◌, true, false,
  arith, length, length-append, append-nil, append_assoc, All, inl, inr, Bool-cases, negsuc,
  to_size,
}
use logcabin_redis_proxy.Bytes.{Bytes}
use logcabin_redis_proxy.Num
use logcabin_redis_proxy.Num.{stoi}
use logcabin_redis_proxy.Resp.{parse_elements, parse_bluk_strings}
use logcabin_redis_proxy.Resp.Decoder.{
  Progress, DecodeContext, ok, token_in, turn, feed, string_token, element_token, bulk_size,
  read_size,
}
use logcabin_redis_proxy.Resp.Decoder.Chunks.{feed-scan}
use logcabin_redis_proxy.Resp.Decoder.Requests.{scan-line}
use logcabin_redis_proxy.Resp.Decoder.Scan.{
  scan, scan_end, scan_last, scan_plain, scan_token, resumed,
}

-- A "\r\n" before the string's end is a part of the string.
token_in_short :
    (p : Progress) (token : Bytes)
    → p.state ≡ parse_bluk_strings
    → length token < p.reading_str_size
    → token_in p.state p token ≡ ok (p, false)
unfolding token_in string_token
token_in_short p token s h = ap (λ m. token_in m p token) s ∙ ground (arith, h)

scan_waits :
    (p : Progress) (token s : Bytes)
    → p.state ≡ parse_bluk_strings
    → length token + length s < p.reading_str_size + 2
    → scan p token s ≡ ok (p, token ++ s)
scan_waits p token [] b h = scan_end p token ∙ ap (λ t. ok (p, t)) (sym (append-nil token))
scan_waits p token (c ∷ []) b h = scan_last p token c
scan_waits p token (c ∷ d ∷ r) b h =
    let rest : scan p (token ++ (c ∷ [])) (d ∷ r) ≡ ok (p, token ++ (c ∷ d ∷ r)) =
      scan_waits p (token ++ (c ∷ [])) (d ∷ r) b (omega (arith, h, length-append token (c ∷ [])))
      ∙ ap (λ t. ok (p, t)) (append_assoc token (c ∷ []) (d ∷ r)) in
    elim (Bool-cases (c == 13 && d == 10)) [
      | inl e ↦
          scan_token p token c d r e
          ∙ ap (λ t. turn t (λ q. scan q [] r) (λ q. scan q (token ++ (c ∷ [])) (d ∷ r)))
              (token_in_short p token b (omega (arith, h)))
          ∙ rest
      | inr e ↦ scan_plain p token c d r e ∙ rest
    ]

-- While a string is read, and the string and the "\r\n" behind it are not all there, bytes that come
-- are kept and nothing else changes, whatever they are and also where they have a "\r\n".
pub feed_waits :
    (ctx : DecodeContext) (bytes : Bytes)
    → ctx.progress.state ≡ parse_bluk_strings
    → length ctx.buffered_input + length bytes < ctx.progress.reading_str_size + 2
    → feed ctx bytes ≡ ok (record ctx { buffered_input = ctx.buffered_input ++ bytes })
feed_waits ctx bytes s h =
    feed-scan ctx bytes
    ∙ ap (resumed ctx) (
        scan_waits ctx.progress [] (ctx.buffered_input ++ bytes) s
          (omega (arith, h, length-append ctx.buffered_input bytes)))

abbrev awaiting : Progress → ℕ → Progress
awaiting p n = record p { reading_str_size = to_size (negsuc n); state = parse_bluk_strings }

not_empty : (n : ℕ) → n < 2 ^ 31 → (to_size (negsuc n) == 0) ≡ false
not_empty n h = ground (arith, h)

token_in_negative :
    (p : Progress) (text : Bytes) (n : ℕ)
    → p.state ≡ parse_elements
    → stoi text ≡ Num.ok (negsuc n)
    → n < 2 ^ 31
    → token_in p.state p (36 ∷ text) ≡ ok (awaiting p n, true)
unfolding token_in element_token bulk_size read_size
token_in_negative p text n s e h = ap (λ m. token_in m p (36 ∷ text)) s ∙ rw (e, not_empty n h) refl

-- A negative length of a string, read where an element is awaited and nothing is buffered, is taken for a
-- size of almost 2 ^ 64: of what comes behind it, fewer than 2 ^ 31 bytes, nothing is decoded, and
-- all of it is kept.
pub feed_negative :
    (ctx : DecodeContext) (text rest : Bytes) (n : ℕ)
    → ctx.progress.state ≡ parse_elements
    → ctx.buffered_input ≡ []
    → All (λ c. c ≢ 13) text
    → stoi text ≡ Num.ok (negsuc n)
    → n < 2 ^ 31
    → length rest < 2 ^ 31
    → feed ctx (36 ∷ (text ++ (13 ∷ 10 ∷ rest)))
      ≡ ok (record ctx {
        progress = record ctx.progress {
          reading_str_size = 2 ^ 64 - 1 - n;
          state = parse_bluk_strings;
        };
        buffered_input = rest;
      })
feed_negative ctx text rest n s b plain e h l =
    feed-scan ctx (36 ∷ (text ++ (13 ∷ 10 ∷ rest)))
    ∙ ap (λ x. resumed ctx (scan ctx.progress [] (x ++ (36 ∷ (text ++ (13 ∷ 10 ∷ rest)))))) b
    ∙ ap (resumed ctx) (
        scan-line ctx.progress (awaiting ctx.progress n) [] (36 ∷ text) rest (omega arith, plain)
          (token_in_negative ctx.progress text n s e h)
        ∙ scan_waits (awaiting ctx.progress n) [] rest refl (omega (arith, h, l)))
    ∙ ap
        (λ size. ok (record ctx {
          progress = record ctx.progress { reading_str_size = size; state = parse_bluk_strings };
          buffered_input = rest;
        }))
        (omega (arith, h))
