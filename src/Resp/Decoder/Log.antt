-- ===== src/Resp/Decoder/Log.antt =====
-- What a decode does to the calls of the handler that were made before it, and to the session's id.
use logcabin_redis_proxy.Base.{
  ◌≡◌, refl, sym, ap, ◌∙◌, List, [], ◌∷◌, ◌++◌, arith, inl, inr, ◌==◌, length, Bool-cases,
  append-nil, append_assoc,
}
use logcabin_redis_proxy.Bytes.{Bytes}
use logcabin_redis_proxy.Resp.{Command}
use logcabin_redis_proxy.Resp.Decoder.{
  Progress, DecodeContext, Decoded, ok, threw, out_of_fuel, push_element, finish_request, feed,
}
use logcabin_redis_proxy.Resp.Decoder.Chunks.{feed-scan}
use logcabin_redis_proxy.Resp.Decoder.Rule.{Gives, returns, token_in-Gives, scan-Gives}
use logcabin_redis_proxy.Resp.Decoder.Scan.{scan, resumed}

-- The calls made so far, and then others.
abbrev pub Extends : List Command → List Command → Type 0
Extends h l = (new : List Command) × (l ≡ h ++ new)

Extends-trans : (h l k : List Command) → Extends h l → Extends l k → Extends h k
Extends-trans h l k (new, e) (more, f) =
    (new ++ more, f ∙ ap (λ x. x ++ more) e ∙ append_assoc h new more)

push_element-Extends : (p : Progress) (v : Bytes) → Extends p.handled (push_element p v).handled
unfolding push_element finish_request
push_element-Extends p v =
    elim (Bool-cases (length (p.req_list ++ (v ∷ [])) == p.reading_list_size)) [
      | inl e ↦ rw e (_, refl)
      | inr e ↦ rw e ([], sym (append-nil p.handled))
    ]

scan-Extends :
    (h : List Command) (p : Progress) (token ahead : Bytes)
    → Extends h p.handled
    → Gives (λ r. Extends h r.0.handled) (scan p token ahead)
scan-Extends h p token ahead w =
    scan-Gives (λ q. Extends h q.handled)
      (λ q t v.
        token_in-Gives (λ r. Extends h r.handled) q
          (λ n s.
            Extends-trans h q.handled _ v
              (push_element-Extends (record q { reading_str_size = n }) s))
          (λ s m n l. v) q.state t)
      p token ahead w

resumed-Extends :
    (ctx ctx' : DecodeContext) (d : Decoded (Progress × Bytes))
    → Gives (λ r. Extends ctx.handled r.0.handled) d
    → resumed ctx d ≡ ok ctx'
    → (ctx'.session_id ≡ ctx.session_id) × Extends ctx.handled ctx'.handled
resumed-Extends ctx ctx' (ok (q, rest)) (returns w) e = (ground arith, (w.0, ground (arith, w.1)))
resumed-Extends ctx ctx' (threw x h) w e = cc
resumed-Extends ctx ctx' out_of_fuel w e = cc

-- `feed` adds to the calls of the handler, and keeps the session's id.
pub feed-Extends :
    (ctx ctx' : DecodeContext) (bytes : Bytes)
    → feed ctx bytes ≡ ok ctx'
    → (ctx'.session_id ≡ ctx.session_id) × Extends ctx.handled ctx'.handled
feed-Extends ctx ctx' bytes e =
    resumed-Extends ctx ctx' _
      (scan-Extends ctx.handled ctx.progress [] (ctx.buffered_input ++ bytes)
        ([], sym (append-nil ctx.handled)))
      (sym (feed-scan ctx bytes) ∙ e)
