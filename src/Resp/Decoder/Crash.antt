-- ===== src/Resp/Decoder/Crash.antt =====
-- A request whose last string is empty: the "\r\n" behind the empty string is read
-- as the first line of a next request.
use logcabin_redis_proxy.Base.{
  ℕ, ◌+◌, ◌^◌, ◌<◌, List, [], ◌∷◌, ◌++◌, ◌≡◌, refl, ap, ◌∙◌, some, arith, length, length-append,
  append_assoc, All,
}
use logcabin_redis_proxy.Bytes.{Bytes}
use logcabin_redis_proxy.Num.{out_of_range}
use logcabin_redis_proxy.Resp.{init, parse_elements, EncodeResult, arrays}
use logcabin_redis_proxy.Resp.Encoder.{bulks, encode}
use logcabin_redis_proxy.Resp.Decoder.{
  Progress, DecodeContext, threw, token_in, turn, finish_request, feed,
}
use logcabin_redis_proxy.Resp.Decoder.Chunks.{feed-scan}
use logcabin_redis_proxy.Resp.Decoder.Requests.{
  scan-element, scan-bulk_empty, push_element_last, grown,
}
use logcabin_redis_proxy.Resp.Decoder.RoundTrip.{IsIdle, opened, encode-written, scan-header}
use logcabin_redis_proxy.Resp.Decoder.Scan.{scan, scan_token, resumed}

-- An empty line where a request should begin.
scan_blank_init :
    (p : Progress) (rest : Bytes)
    → p.state ≡ init
    → scan p [] (13 ∷ 10 ∷ rest) ≡ threw out_of_range p.handled
scan_blank_init p rest s =
    scan_token p [] 13 10 rest refl
    ∙ ap (λ t. turn t (λ q. scan q [] rest) (λ q. scan q (13 ∷ []) (10 ∷ rest))) blank
  where
    blank : token_in p.state p [] ≡ threw out_of_range p.handled
    blank = ap (λ m. token_in m p []) s ∙ unfold token_in in refl

scan-bulks_empty_last :
    (p : Progress) (vs : List Bytes)
    → p.state ≡ parse_elements
    → length p.req_list + length vs + 1 ≡ p.reading_list_size
    → All (λ v. length v < 2 ^ 31) vs
    → scan p [] (bulks (vs ++ ([] ∷ [])))
      ≡ threw out_of_range (
          p.handled
          ++ (record { command_id = p.last_command_id; request = p.req_list ++ (vs ++ ([] ∷ [])) }
              ∷ []))
unfolding bulks finish_request
scan-bulks_empty_last p [] s h a =
    scan-bulk_empty p [] s
    ∙ ap (λ q. scan q [] (13 ∷ 10 ∷ [])) (push_element_last p [] (omega arith))
    ∙ scan_blank_init (finish_request p (p.req_list ++ ([] ∷ []))) [] refl
scan-bulks_empty_last p (v ∷ vs) s h a =
    scan-element p v (bulks (vs ++ ([] ∷ []))) s (omega arith) a.0
    ∙ scan-bulks_empty_last (grown p v) vs refl (omega (arith, length-append p.req_list (v ∷ [])))
        a.1
    ∙ ap
        (λ l.
          threw out_of_range
            (p.handled ++ (record { command_id = p.last_command_id; request = l } ∷ [])))
        (append_assoc p.req_list (v ∷ []) (vs ++ ([] ∷ [])))

-- A request whose last string is empty, encoded as the protocol says and sent to a context that waits
-- for one, is handed to the handler, and then `decode` throws `std::out_of_range`.
pub decode-encode_empty_last :
    (ctx : DecodeContext) (args : List Bytes) (r : EncodeResult)
    → IsIdle ctx
    → length args + 1 < 2 ^ 31
    → All (λ v. length v < 2 ^ 31) args
    → encode arrays (args ++ ([] ∷ [])) ≡ some r
    → feed ctx r.response
      ≡ threw out_of_range (
          ctx.handled
          ++ (record { command_id = ctx.last_command_id; request = args ++ ([] ∷ []) } ∷ []))
decode-encode_empty_last ctx args r idle b a e =
    feed-scan ctx r.response
    ∙ ap (λ t. resumed ctx (scan ctx.progress [] (t ++ r.response))) idle.no_bytes
    ∙ ap (λ t. resumed ctx (scan ctx.progress [] t)) (encode-written (args ++ ([] ∷ [])) r e)
    ∙ ap (resumed ctx) (
        scan-header ctx.progress n (bulks (args ++ ([] ∷ []))) idle.at_init (omega (arith, size))
        ∙ scan-bulks_empty_last (opened ctx.progress n) args refl
            (omega (arith, size, ap length idle.no_elements)) a)
    ∙ ap
        (λ l. threw out_of_range (
          ctx.handled
          ++ (record { command_id = ctx.last_command_id; request = l ++ (args ++ ([] ∷ [])) }
              ∷ [])))
        idle.no_elements
  where
    n : ℕ
    n = length (args ++ ([] ∷ []))

    size : n ≡ length args + 1
    size = length-append args ([] ∷ [])
