-- ===== src/Resp/Decoder/Invariant.antt =====
-- What holds of a context after any bytes, well formed or not.
use logcabin_redis_proxy.Base.{
  ℕ, ◌+◌, ◌<◌, Bool, true, false, ◌&&◌, List, [], ◌∷◌, ◌++◌, ◌≡◌, ◌≢◌, refl, sym, ap, inl, inr,
  ◌==◌, to_size, Bool-cases, arith,
}
use logcabin_redis_proxy.Bytes.{Bytes}
use logcabin_redis_proxy.Num
use logcabin_redis_proxy.Num.{Stoi, stoi}
use logcabin_redis_proxy.Resp.{ParseState, init, parse_elements, parse_bluk_strings, Command}
use logcabin_redis_proxy.Resp.Decoder.{
  Progress, DecodeContext, Decoded, ok, threw, out_of_fuel, token_in, init_token, bulk_size,
  element_token, string_token, read_size, turn, push_element, new_decode_context, feed,
}
use logcabin_redis_proxy.Resp.Decoder.Chunks.{feed-scan}
use logcabin_redis_proxy.Resp.Decoder.Scan.{
  scan, scan_end, scan_last, scan_plain, scan_token, resumed,
}

-- The ids run from `n` up to `m`, and no request is empty.
abbrev pub AreNumbered : ℕ → List Command → ℕ → Type 0
AreNumbered n [] m = n ≡ m
AreNumbered n (c ∷ cs) m = (c.command_id ≡ n) × (c.request ≢ []) × AreNumbered (n + 1) cs m

AreNumbered-concat :
    (n m : ℕ) (cs : List Command) (request : List Bytes)
    → request ≢ []
    → AreNumbered n cs m
    → AreNumbered n (cs ++ (record { command_id = m; request = request } ∷ [])) (m + 1)
AreNumbered-concat n m [] request h a = (sym a, h, ap (λ k. k + 1) a)
AreNumbered-concat n m (c ∷ cs) request h a =
    (a.0, a.1, AreNumbered-concat (n + 1) m cs request h a.2)

-- Command ids count the calls of the handler from 0; no elements wait between two requests; a string
-- that is being read has a size.
pub record IsWellFormed (p : Progress) : Type 0 where
  pub log : AreNumbered 0 p.handled p.last_command_id
  pub init_empty : p.state ≡ init → p.req_list ≡ []
  pub string_size : p.state ≡ parse_bluk_strings → 0 < p.reading_str_size

abbrev LogOnly : List Command → Type 0
LogOnly h = (m : ℕ) × AreNumbered 0 h m

abbrev TokenKeeps : Decoded (Progress × Bool) → Type 0
TokenKeeps (ok (q, b)) = IsWellFormed q
TokenKeeps (threw e h) = LogOnly h
TokenKeeps out_of_fuel = ⊥

concat-ne-nil : (l : List Bytes) (v : Bytes) → l ++ (v ∷ []) ≢ []
concat-ne-nil [] v e = cc
concat-ne-nil (x ∷ l) v e = cc

push_element-IsWellFormed :
    (p : Progress) (v : Bytes)
    → AreNumbered 0 p.handled p.last_command_id
    → IsWellFormed (push_element p v)
unfolding push_element
push_element-IsWellFormed p v w = ground (
  arith,
  AreNumbered-concat 0 p.last_command_id p.handled (p.req_list ++ (v ∷ []))
      (concat-ne-nil p.req_list v) w,
)

init_token-IsWellFormed :
    (p : Progress) (n : Stoi) → p.state ≡ init → IsWellFormed p → TokenKeeps (init_token p n)
unfolding init_token
init_token-IsWellFormed p (Num.ok n) e w = ground (arith, w.init_empty e)
init_token-IsWellFormed p (Num.threw x) e w = (p.last_command_id, w.log)

bulk_size-IsWellFormed : (p : Progress) (n : Stoi) → IsWellFormed p → TokenKeeps (bulk_size p n)
unfolding bulk_size
bulk_size-IsWellFormed p (Num.ok n) w = elim (Bool-cases (to_size n == 0)) [
  | inl zero ↦
      rw zero (push_element-IsWellFormed (record p { reading_str_size = to_size n }) [] w.log)
  | inr more ↦
      rw more
        (record { log = w.log; init_empty = λ e. cc; string_size = λ e. ground (arith, more) })
]
bulk_size-IsWellFormed p (Num.threw x) w = (p.last_command_id, w.log)

element_token-IsWellFormed :
    (p : Progress) (c : ℕ) (t : Bytes)
    → p.state ≡ parse_elements
    → IsWellFormed p
    → TokenKeeps (element_token p (c ∷ t))
unfolding element_token read_size
element_token-IsWellFormed p c t e w = elim (Bool-cases (c == b':')) [
  | inl number ↦
      rw number (record { log = w.log; init_empty = λ i. cc; string_size = w.string_size })
  | inr other ↦ rw other (elim (Bool-cases (c == b'$')) [
    | inl string ↦ rw string (bulk_size-IsWellFormed p (stoi t) w)
    | inr unknown ↦ rw unknown w
  ])
]

string_token-IsWellFormed :
    (p : Progress) (token : Bytes) → IsWellFormed p → TokenKeeps (string_token p token)
unfolding string_token
string_token-IsWellFormed p token w = ground (arith, push_element-IsWellFormed p token w.log)

token_in-IsWellFormed :
    (s : ParseState) (p : Progress) (token : Bytes)
    → p.state ≡ s
    → IsWellFormed p
    → TokenKeeps (token_in s p token)
unfolding token_in
token_in-IsWellFormed init p [] e w = (p.last_command_id, w.log)
token_in-IsWellFormed init p (c ∷ t) e w = init_token-IsWellFormed p (stoi t) e w
token_in-IsWellFormed parse_elements p [] e w = w
token_in-IsWellFormed parse_elements p (c ∷ t) e w = element_token-IsWellFormed p c t e w
token_in-IsWellFormed parse_bluk_strings p token e w = string_token-IsWellFormed p token w

abbrev ScanKeeps : Decoded (Progress × Bytes) → Type 0
ScanKeeps (ok (q, rest)) = IsWellFormed q
ScanKeeps (threw e h) = LogOnly h
ScanKeeps out_of_fuel = ⊥

turn-IsWellFormed :
    (d : Decoded (Progress × Bool)) (k l : Progress → Decoded (Progress × Bytes))
    → TokenKeeps d
    → ((q : Progress) → IsWellFormed q → ScanKeeps (k q))
    → ((q : Progress) → IsWellFormed q → ScanKeeps (l q))
    → ScanKeeps (turn d k l)
turn-IsWellFormed (ok (q, true)) k l w hk hl = hk q w
turn-IsWellFormed (ok (q, false)) k l w hk hl = hl q w
turn-IsWellFormed (threw e h) k l w hk hl = w
turn-IsWellFormed out_of_fuel k l w hk hl = w

scan-IsWellFormed :
    (p : Progress) (token ahead : Bytes) → IsWellFormed p → ScanKeeps (scan p token ahead)
scan-IsWellFormed p token [] w = rw (scan_end p token) w
scan-IsWellFormed p token (c ∷ []) w = rw (scan_last p token c) w
scan-IsWellFormed p token (c ∷ d ∷ r) w = elim (Bool-cases (c == 13 && d == 10)) [
  | inl crlf ↦ rw (scan_token p token c d r crlf) (
      turn-IsWellFormed (token_in p.state p token) _ _
        (token_in-IsWellFormed p.state p token refl w) (λ q v. scan-IsWellFormed q [] r v)
        (λ q v. scan-IsWellFormed q (token ++ (c ∷ [])) (d ∷ r) v))
  | inr plain ↦
      rw (scan_plain p token c d r plain) (scan-IsWellFormed p (token ++ (c ∷ [])) (d ∷ r) w)
]

-- A fed context is well formed, or an exception left the commands before it; there is no third case.
abbrev pub FeedKeeps : Decoded DecodeContext → Type 0
FeedKeeps (ok ctx) = IsWellFormed ctx.progress
FeedKeeps (threw e h) = (m : ℕ) × AreNumbered 0 h m
FeedKeeps out_of_fuel = ⊥

resumed-IsWellFormed :
    (ctx : DecodeContext) (d : Decoded (Progress × Bytes)) → ScanKeeps d → FeedKeeps (resumed ctx d)
resumed-IsWellFormed ctx (ok (q, rest)) w = w
resumed-IsWellFormed ctx (threw e h) w = w
resumed-IsWellFormed ctx out_of_fuel w = w

-- Whatever bytes arrive, `decode` ends, by returning or by throwing; the handler was called with
-- non-empty requests and with the command ids 0, 1, 2 and so on; and a context that it returns is
-- well formed again.
pub feed-IsWellFormed :
    (ctx : DecodeContext) (bytes : Bytes) → IsWellFormed ctx.progress → FeedKeeps (feed ctx bytes)
feed-IsWellFormed ctx bytes w =
    rw (feed-scan ctx bytes) (
      resumed-IsWellFormed ctx _
        (scan-IsWellFormed ctx.progress [] (ctx.buffered_input ++ bytes) w))

pub new_decode_context-IsWellFormed :
    (session_id memory : ℕ) → IsWellFormed (new_decode_context session_id memory).progress
unfolding new_decode_context
new_decode_context-IsWellFormed session_id memory = record {
  log = refl;
  init_empty = λ e. refl;
  string_size = λ e. cc;
}
