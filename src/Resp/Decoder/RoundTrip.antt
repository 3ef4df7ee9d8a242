-- ===== src/Resp/Decoder/RoundTrip.antt =====
-- What a client writes with `encoder::encode(ARRAYS, args)`, through the decoder.
use mathlib.Core.List.{foldl, flatten}
use logcabin_redis_proxy.Base.{
  ℕ, ◌+◌, ◌^◌, ◌<◌, true, List, [], ◌∷◌, ◌++◌, ◌≡◌, refl, sym, ap, ◌∙◌, some, arith, length,
  append_assoc, append-nil, All,
}
use logcabin_redis_proxy.Bytes.{Bytes, codes}
use logcabin_redis_proxy.Num.{to_string}
use logcabin_redis_proxy.Num.RoundTrip.{to_string-All, stoi-to_string}
use logcabin_redis_proxy.Resp.{init, parse_elements, Command, EncodeResult, arrays}
use logcabin_redis_proxy.Resp.Encoder.{line, bulks, encode}
use logcabin_redis_proxy.Resp.Decoder.{
  Progress, DecodeContext, Decoded, ok, threw, out_of_fuel, token_in, finish_request, feed,
}
use logcabin_redis_proxy.Resp.Decoder.Chunks.{then_feed, feed-append, feed-scan}
use logcabin_redis_proxy.Resp.Decoder.Requests.{
  scan_byte, scan-line, digits-plain, size_fits, scan-bulks, AreSendable,
}
use logcabin_redis_proxy.Resp.Decoder.Scan.{scan, scan_end, resumed}

-- The context waits for a new request, with nothing buffered.
pub record IsIdle (ctx : DecodeContext) : Type 0 where
  pub at_init : ctx.state ≡ init
  pub no_elements : ctx.req_list ≡ []
  pub no_bytes : ctx.buffered_input ≡ []

-- The bytes of a request.
abbrev pub written : List Bytes → Bytes
written args = line (codes "*") (to_string (length args)) ++ bulks args

pub encode-written :
    (args : List Bytes) (r : EncodeResult) → encode arrays args ≡ some r → r.response ≡ written args
unfolding encode
encode-written args r e = ground arith

-- The progress behind the first line of a request of `n` elements.
abbrev pub opened : Progress → ℕ → Progress
opened p n = record p { reading_list_size = n; state = parse_elements }

pub scan-header :
    (p : Progress) (n : ℕ) (rest : Bytes)
    → p.state ≡ init
    → n < 2 ^ 31
    → scan p [] (line (codes "*") (to_string n) ++ rest) ≡ scan (opened p n) [] rest
scan-header p n rest s b =
    ap (scan p []) text
    ∙ scan_byte p [] 42 _ (omega arith)
    ∙ scan-line p (opened p n) (42 ∷ []) (to_string n) rest (digits-plain _ (to_string-All n))
        header
  where
    text : line (codes "*") (to_string n) ++ rest ≡ 42 ∷ (to_string n ++ (13 ∷ 10 ∷ rest))
    text = unfold line in simp append_assoc

    header : token_in p.state p (42 ∷ to_string n) ≡ ok (opened p n, true)
    header = rw s (unfold token_in in rw (stoi-to_string n b, size_fits n b) refl)

scan-written :
    (p : Progress) (args : List Bytes) (rest : Bytes)
    → p.state ≡ init
    → p.req_list ≡ []
    → length args < 2 ^ 31
    → AreSendable args
    → scan p [] (written args ++ rest) ≡ scan (finish_request p args) [] rest
unfolding finish_request
scan-written p args rest s l b a =
    ap (scan p []) (append_assoc (line (codes "*") (to_string (length args))) (bulks args) rest)
    ∙ scan-header p (length args) (bulks args ++ rest) s b
    ∙ scan-bulks (opened p (length args)) args rest refl (omega (arith, ap length l)) a
    ∙ ap (λ l'. scan (finish_request p (l' ++ args)) [] rest) l

-- Requests one behind the other.
abbrev pub all_written : List (List Bytes) → Bytes
all_written [] = []
all_written (args ∷ rs) = written args ++ all_written rs

abbrev pub finish_requests : Progress → List (List Bytes) → Progress
finish_requests p [] = p
finish_requests p (args ∷ rs) = finish_requests (finish_request p args) rs

abbrev pub IsSendable : List Bytes → Type 0
IsSendable args = (length args < 2 ^ 31) × AreSendable args

scan-all_written :
    (p : Progress) (rs : List (List Bytes))
    → p.state ≡ init
    → p.req_list ≡ []
    → All IsSendable rs
    → scan p [] (all_written rs) ≡ ok (finish_requests p rs, [])
unfolding finish_request
scan-all_written p [] s l a = scan_end p []
scan-all_written p (args ∷ rs) s l a =
    scan-written p args (all_written rs) s l a.0.0 a.0.1
    ∙ scan-all_written (finish_request p args) rs refl refl a.1

-- The commands of some requests, numbered from `n` on.
abbrev pub numbered : ℕ → List (List Bytes) → List Command
numbered n [] = []
numbered n (args ∷ rs) = record { command_id = n; request = args } ∷ numbered (n + 1) rs

pub handled-finish_requests :
    (p : Progress) (rs : List (List Bytes))
    → (finish_requests p rs).handled ≡ p.handled ++ numbered p.last_command_id rs
unfolding finish_request
handled-finish_requests p [] = sym (append-nil p.handled)
handled-finish_requests p (args ∷ rs) =
    handled-finish_requests (finish_request p args) rs ∙ append_assoc p.handled _ _

IsIdle-finish_requests :
    (ctx : DecodeContext) (rs : List (List Bytes))
    → IsIdle ctx
    → IsIdle (record ctx { progress = finish_requests ctx.progress rs })
unfolding finish_request
IsIdle-finish_requests ctx [] idle = idle
IsIdle-finish_requests ctx (args ∷ rs) idle =
    IsIdle-finish_requests (record ctx { progress = finish_request ctx.progress args }) rs
      (record { at_init = refl; no_elements = refl; no_bytes = idle.no_bytes })

pub feed-all_written :
    (ctx : DecodeContext) (rs : List (List Bytes))
    → IsIdle ctx
    → All IsSendable rs
    → feed ctx (all_written rs) ≡ ok (record ctx { progress = finish_requests ctx.progress rs })
feed-all_written ctx rs idle a =
    feed-scan ctx (all_written rs)
    ∙ ap (λ b. resumed ctx (scan ctx.progress [] (b ++ all_written rs))) idle.no_bytes
    ∙ ap (resumed ctx) (scan-all_written ctx.progress rs idle.at_init idle.no_elements a)
    ∙ ap (λ b. ok (record ctx { progress = finish_requests ctx.progress rs; buffered_input = b }))
        (sym idle.no_bytes)

-- The encoding of a request that the decoder can finish, sent to a context that waits for one, calls
-- the handler once, with the encoded strings and the next command id; then the context waits again.
pub decode-encode :
    (ctx : DecodeContext) (args : List Bytes) (r : EncodeResult)
    → IsIdle ctx
    → IsSendable args
    → encode arrays args ≡ some r
    → feed ctx r.response ≡ ok (record ctx { progress = finish_request ctx.progress args })
decode-encode ctx args r idle a e =
    ap (feed ctx) (encode-written args r e ∙ sym (append-nil (written args)))
    ∙ feed-all_written ctx (args ∷ []) idle (a, tt)

then_feed-append :
    (d : Decoded DecodeContext) (a b : Bytes) → then_feed d (a ++ b) ≡ then_feed (then_feed d a) b
then_feed-append (ok ctx) a b = feed-append ctx a b
then_feed-append (threw e h) a b = refl
then_feed-append out_of_fuel a b = refl

foldl-then_feed :
    (d : Decoded DecodeContext) (piece : Bytes) (pieces : List Bytes)
    → foldl then_feed (then_feed d piece) pieces ≡ then_feed d (piece ++ flatten pieces)
unfolding flatten
foldl-then_feed d piece [] = ap (then_feed d) (sym (append-nil piece))
foldl-then_feed d piece (next ∷ pieces) =
    foldl-then_feed (then_feed d piece) next pieces
    ∙ sym (then_feed-append d piece (next ++ flatten pieces))

-- Pipelined requests that the decoder can finish, cut into reads in any way, call the handler once
-- for each request, in order and with consecutive command ids, and leave a context that waits.
pub decode-pipeline :
    (ctx : DecodeContext) (rs : List (List Bytes)) (piece : Bytes) (pieces : List Bytes)
    → IsIdle ctx
    → All IsSendable rs
    → piece ++ flatten pieces ≡ all_written rs
    → (q : Progress) × (foldl then_feed (feed ctx piece) pieces ≡ ok (record ctx { progress = q }))
      × (q.handled ≡ ctx.handled ++ numbered ctx.last_command_id rs)
      × IsIdle (record ctx { progress = q })
decode-pipeline ctx rs piece pieces idle a e = (
  finish_requests ctx.progress rs,
  foldl-then_feed (ok ctx) piece pieces ∙ ap (feed ctx) e ∙ feed-all_written ctx rs idle a,
  handled-finish_requests ctx.progress rs,
  IsIdle-finish_requests ctx rs idle,
)
