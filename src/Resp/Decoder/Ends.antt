-- ===== src/Resp/Decoder/Ends.antt =====
-- How `decode` ends, by way of `scan`.
use logcabin_redis_proxy.Base.{◌≡◌, refl, List, [], ◌⊎◌, inl, inr}
use logcabin_redis_proxy.Bytes.{Bytes}
use logcabin_redis_proxy.Num.{NumError}
use logcabin_redis_proxy.Resp.{Command}
use logcabin_redis_proxy.Resp.Decoder.{
  Progress, DecodeContext, Decoded, ok, threw, out_of_fuel, decode,
}
use logcabin_redis_proxy.Resp.Decoder.Rule.{Gives, token_in-Gives, scan-Gives}
use logcabin_redis_proxy.Resp.Decoder.Scan.{scan, resumed, decode-scan}

scan_ends : (p : Progress) (token ahead : Bytes) → Gives (λ r. Unit {0}) (scan p token ahead)
scan_ends p token ahead =
    scan-Gives (λ q. Unit {0})
      (λ q t _. token_in-Gives (λ r. Unit {0}) q (λ n v. tt) (λ s m n l. tt) q.state t) p token
      ahead tt

resumed_ends :
    (ctx : DecodeContext) (d : Decoded (Progress × Bytes))
    → Gives (λ r. Unit {0}) d
    → ((ctx' : DecodeContext) × (resumed ctx d ≡ ok ctx'))
      ⊎ ((e : NumError) × (h : List Command) × (resumed ctx d ≡ threw e h))
resumed_ends ctx (ok (q, rest)) w = inl (_, refl)
resumed_ends ctx (threw e h) w = inr (e, h, refl)
resumed_ends ctx out_of_fuel w = elim w [ ]

-- `decode` ends for every context, with any bytes buffered and in any state: it returns a context, or an
-- exception leaves it.
pub decode-ends :
    (ctx : DecodeContext)
    → ((ctx' : DecodeContext) × (decode ctx ≡ ok ctx'))
      ⊎ ((e : NumError) × (h : List Command) × (decode ctx ≡ threw e h))
decode-ends ctx =
    rw (decode-scan ctx) (resumed_ends ctx _ (scan_ends ctx.progress [] ctx.buffered_input))
