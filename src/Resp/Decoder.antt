-- ===== src/Resp/Decoder.antt =====
-- `decode_context` and `decoder` of deps/simple_resp/src/simple_resp.cc, as written: an index runs over
-- the buffered bytes. A call of the request handler is an entry of `handled`. What `std::stoi` and
-- `substr` throw leaves `decode` at once. The buffer is shorter than 2^31 bytes, so that the `int`
-- indices do not wrap.
pub mod Scan
pub mod Chunks
mod Requests
pub mod RoundTrip
pub mod Crash
pub mod Invariant
mod Rule
pub mod Ends
pub mod Log
pub mod Waits
pub mod Stuck
use logcabin_redis_proxy.Base.{
  ℕ, zero, suc, ◌+◌, ◌-◌, Bool, true, false, not, ◌&&◌, List, [], ◌∷◌, ◌++◌, Option, none, some,
  ltb, ◌==◌, if◌then◌else◌, length, get_elem?, to_size,
}
use logcabin_redis_proxy.Bytes.{Bytes, substr}
use logcabin_redis_proxy.Num
use logcabin_redis_proxy.Num.{NumError, out_of_range, Stoi, stoi}
use logcabin_redis_proxy.Resp.{ParseState, init, parse_elements, parse_bluk_strings, Command}

-- The members of `decode_context` that a token changes, and the calls of its handler so far.
pub record Progress : Type 0 where
  pub state : ParseState
  pub reading_list_size : ℕ
  pub reading_str_size : ℕ
  pub req_list : List Bytes
  pub last_command_id : ℕ
  pub handled : List Command

pub record DecodeContext : Type 0 where
  pub session_id : ℕ
  pub last_ack_command : ℕ
  pub progress : Progress
  pub open progress use *
  pub buffered_input : Bytes

-- An exception carries the handler calls made before it.
pub data Decoded {ℓ} (A : Type ℓ) : Type ℓ where
  ok : A → Decoded A
  threw : NumError → List Command → Decoded A
  out_of_fuel : Decoded A

-- The constructor. It leaves `reading_str_size` as memory has it.
unfoldable pub new_decode_context : ℕ → ℕ → DecodeContext
new_decode_context session_id memory = record {
  session_id = session_id;
  last_ack_command = 0;
  progress = record {
    state = init;
    reading_list_size = 0;
    reading_str_size = memory;
    req_list = [];
    last_command_id = 0;
    handled = [];
  };
  buffered_input = [];
}

unfoldable pub append_new_buffer : DecodeContext → Bytes → DecodeContext
append_new_buffer ctx buffer = record ctx { buffered_input = ctx.buffered_input ++ buffer }

unfoldable pub pop_buffer : DecodeContext → ℕ → DecodeContext
pop_buffer ctx start = record ctx {
  buffered_input = substr ctx.buffered_input start (length ctx.buffered_input - start);
}

-- The request is complete: call the handler and start over.
unfoldable pub finish_request : Progress → List Bytes → Progress
finish_request p request = record p {
  state = init;
  reading_list_size = 0;
  reading_str_size = 0;
  req_list = [];
  last_command_id = p.last_command_id + 1;
  handled = p.handled ++ (record { command_id = p.last_command_id; request = request } ∷ []);
}

unfoldable pub push_element : Progress → Bytes → Progress
unfolding finish_request
push_element p element =
    let req_list = p.req_list ++ (element ∷ []) in
    if length req_list == p.reading_list_size
    then finish_request p req_list
    else record p { state = parse_elements; reading_str_size = 0; req_list = req_list }

-- `std::stoi(token.substr(1, token.length() - 1))`: `substr` throws on an empty token.
read_size : Bytes → Stoi
read_size [] = Num.threw out_of_range
read_size (c ∷ s) = stoi s

-- `case INIT`. The first byte of the token is not looked at.
init_token : Progress → Stoi → Decoded (Progress × Bool)
init_token p (Num.ok n) =
    ok (record p { reading_list_size = to_size n; state = parse_elements }, true)
init_token p (Num.threw e) = threw e p.handled

-- `case BULK_STRINGS`. Both ways of the test on the buffered length leave the switch.
bulk_size : Progress → Stoi → Decoded (Progress × Bool)
bulk_size p (Num.ok n) = ok (
  if to_size n == 0
      then push_element (record p { reading_str_size = to_size n }) []
      else record p { reading_str_size = to_size n; state = parse_bluk_strings },
  true,
)
bulk_size p (Num.threw e) = threw e p.handled

-- `case PARSE_ELEMENTS`; `token[0]` of an empty token is '\0'.
element_token : Progress → Bytes → Decoded (Progress × Bool)
element_token p [] = ok (p, true)
element_token p (c ∷ s) =
    if c == b':'
    then ok (record p { req_list = p.req_list ++ ((c ∷ s) ∷ []) }, true)
    else if c == b'$'
    then bulk_size p (read_size (c ∷ s))
    else ok (p, true)

-- `case PARSE_BLUK_STRINGS`.
string_token : Progress → Bytes → Decoded (Progress × Bool)
string_token p token =
    if ltb (length token) p.reading_str_size
    then ok (p, false)
    else if ltb p.reading_str_size (length token)
    then ok (p, true)
    else ok (push_element p token, true)

-- The switch on the state; the flag is `is_token_done`.
unfoldable pub token_in : ParseState → Progress → Bytes → Decoded (Progress × Bool)
unfolding read_size init_token bulk_size element_token string_token
token_in init p token = init_token p (read_size token)
token_in parse_elements p token = element_token p token
token_in parse_bluk_strings p token = string_token p token

abbrev is_byte : Option ℕ → ℕ → Bool
is_byte none c = false
is_byte (some b) c = b == c

-- The test for "\r\n" at `i`. Both `at` calls are in range where they are made.
abbrev pub at_crlf : Bytes → ℕ → Bool
at_crlf buf i =
    is_byte (get_elem? buf i) 13
    && (not (i + 1 == length buf) && is_byte (get_elem? buf (i + 1)) 10)

-- What follows a token: `is_token_done` or not.
abbrev pub turn {ℓ} :
    {A : Type ℓ}
    → Decoded (Progress × Bool)
    → (Progress → Decoded A)
    → (Progress → Decoded A)
    → Decoded A
turn (ok (q, true)) done more = done q
turn (ok (q, false)) done more = more q
turn (threw e h) done more = threw e h
turn out_of_fuel done more = out_of_fuel

-- The loop of `parse`, from `i` and `token_start`; it returns the last `token_start`.
unfoldable pub parse_loop : ℕ → Bytes → ℕ → ℕ → Progress → Decoded (Progress × ℕ)
parse_loop zero buf i token_start p = out_of_fuel
parse_loop (suc fuel) buf i token_start p = elim (ltb i (length buf)) [
  | false ↦ ok (p, token_start)
  | true ↦ elim (at_crlf buf i) [
    | true ↦
        turn (token_in p.state p (substr buf token_start (i - token_start)))
          (λ q. parse_loop fuel buf (i + 2) (i + 2) q)
          (λ q. parse_loop fuel buf (i + 1) token_start q)
    | false ↦ parse_loop fuel buf (i + 1) token_start p
  ]
]

abbrev pub popped : DecodeContext → Decoded (Progress × ℕ) → Decoded DecodeContext
popped ctx (ok (p, token_start)) = ok (pop_buffer (record ctx { progress = p }) token_start)
popped ctx (threw e h) = threw e h
popped ctx out_of_fuel = out_of_fuel

-- One round for each buffered byte, and the last test.
unfoldable pub parse : DecodeContext → Decoded DecodeContext
unfolding parse_loop
parse ctx =
    popped ctx (parse_loop (suc (length ctx.buffered_input)) ctx.buffered_input 0 0 ctx.progress)

unfoldable pub decode : DecodeContext → Decoded DecodeContext
decode ctx = if length ctx.buffered_input == 0 then ok ctx else parse ctx

-- What `read_from_client` does with the bytes of one `read`.
unfoldable pub feed : DecodeContext → Bytes → Decoded DecodeContext
feed ctx bytes = decode (append_new_buffer ctx bytes)
