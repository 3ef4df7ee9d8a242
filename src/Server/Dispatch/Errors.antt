-- ===== src/Server/Dispatch/Errors.antt =====
-- The answers to requests that no handler can serve: a command that is not known, or the wrong number
-- of arguments.
use logcabin_redis_proxy.Base.{
  ℕ, ◌≡◌, ◌≢◌, refl, List, ◌∷◌, ◌++◌, true, false, ltb, ◌==◌, length, ◌<◌, inl, inr, Bool-cases,
  ==_iff, lt→ltb, arith,
}
use logcabin_redis_proxy.Bytes.{Bytes, codes, crlf, equal, equal_iff}
use logcabin_redis_proxy.Handler.Calls.{Tree}
use logcabin_redis_proxy.Handler.Monad.{returned, HandlerState}
use logcabin_redis_proxy.Handler.Reads.{
  handle_scard_request, handle_get_request, handle_mget_request, handle_smembers_request,
  handle_lrange_request,
}
use logcabin_redis_proxy.Handler.Writes.{
  handle_sadd_request, handle_srem_request, handle_lpush_request, handle_set_request,
  handle_rpush_request, handle_ltrim_request, handle_expire_request,
}
use logcabin_redis_proxy.Resp.Encoder.{encode, line}
use logcabin_redis_proxy.Resp.{ok, EncodeResult}
use logcabin_redis_proxy.Server.Dispatch.Case.{in_capitals, to_uppercase-in_capitals}
use logcabin_redis_proxy.Server.Dispatch.{run_command, dispatch, to_uppercase}

pub data CommandName : Type 0 where
  rpush sadd srem mget smembers scard lpush lrange ltrim expire set get : CommandName

unfoldable pub spelled : CommandName → Bytes
spelled rpush = codes "RPUSH"
spelled sadd = codes "SADD"
spelled srem = codes "SREM"
spelled mget = codes "MGET"
spelled smembers = codes "SMEMBERS"
spelled scard = codes "SCARD"
spelled lpush = codes "LPUSH"
spelled lrange = codes "LRANGE"
spelled ltrim = codes "LTRIM"
spelled expire = codes "EXPIRE"
spelled set = codes "SET"
spelled get = codes "GET"

-- The length of a request that is too short, or not the length wanted, by the command.
unfoldable pub WrongLength : CommandName → ℕ → Type 0
WrongLength rpush n = n < 3
WrongLength sadd n = n < 3
WrongLength srem n = n ≢ 3
WrongLength mget n = n < 2
WrongLength smembers n = n ≢ 2
WrongLength scard n = n ≢ 2
WrongLength lpush n = n < 3
WrongLength lrange n = n ≢ 4
WrongLength ltrim n = n ≢ 4
WrongLength expire n = n ≢ 3
WrongLength set n = n < 3
WrongLength get n = n ≢ 2

-- The name that the answer has for the command.
unfoldable pub named : CommandName → Bytes
named rpush = codes "rpush"
named sadd = codes "sadd"
named srem = codes "srem"
named mget = codes "smembers"
named smembers = codes "smembers"
named scard = codes "read"
named lpush = codes "lpush"
named lrange = codes "lrange"
named ltrim = codes "ltrim"
named expire = codes "expire"
named set = codes "set"
named get = codes "read"

too_short : (n k : ℕ) → n < k → ltb n k ≡ true
too_short n k h = ground (arith, lt→ltb n k)

other_length : (n k : ℕ) → n ≢ k → (n == k) ≡ false
other_length n k h = ground (arith, ==_iff n k)

abbrev failure : Bytes → EncodeResult
failure text = record { status = ok; response = codes "-" ++ (text ++ crlf) }

module _ (tree : Tree) where
  open tree use {World}

  wrong_run :
      (c : CommandName) (request : List Bytes) (s : HandlerState World)
      → WrongLength c (length request)
      → run_command tree (spelled c) request s ≡ (
        returned (
            failure
              (codes "ERR wrong number of arguments for '" ++ (named c ++ codes "' command"))),
        s,
      )
  unfolding run_command encode line equal spelled named WrongLength handle_rpush_request
      handle_sadd_request handle_srem_request handle_mget_request handle_smembers_request
      handle_scard_request handle_lpush_request handle_lrange_request handle_ltrim_request
      handle_expire_request handle_set_request handle_get_request
  wrong_run rpush request s h = rw (too_short (length request) 3 h) refl
  wrong_run sadd request s h = rw (too_short (length request) 3 h) refl
  wrong_run srem request s h = rw (other_length (length request) 3 h) refl
  wrong_run mget request s h = rw (too_short (length request) 2 h) refl
  wrong_run smembers request s h = rw (other_length (length request) 2 h) refl
  wrong_run scard request s h = rw (other_length (length request) 2 h) refl
  wrong_run lpush request s h = rw (too_short (length request) 3 h) refl
  wrong_run lrange request s h = rw (other_length (length request) 4 h) refl
  wrong_run ltrim request s h = rw (other_length (length request) 4 h) refl
  wrong_run expire request s h = rw (other_length (length request) 3 h) refl
  wrong_run set request s h = rw (too_short (length request) 3 h) refl
  wrong_run get request s h = rw (other_length (length request) 2 h) refl

  -- A request with the wrong number of arguments for its command, whose name in capital letters is that
  -- of the command, gets the error that says so, and neither the connections' counter nor the cluster is touched.
  pub dispatch-wrong_number :
      (c : CommandName) (name : Bytes) (args : List Bytes) (s : HandlerState World)
      → in_capitals name ≡ spelled c
      → WrongLength c (length (name ∷ args))
      → dispatch tree (name ∷ args) s ≡ (
        returned (
            failure
              (codes "ERR wrong number of arguments for '" ++ (named c ++ codes "' command"))),
        s,
      )
  unfolding dispatch
  dispatch-wrong_number c name args s e h =
      rw (to_uppercase-in_capitals name, e, wrong_run c (name ∷ args) s h) refl

  other_text : (a b : Bytes) → a ≢ b → equal a b ≡ false
  other_text a b h = elim (Bool-cases (equal a b)) [
    | inl e ↦ absurd (h ((equal_iff a b).0 e))
    | inr e ↦ e
  ]

  is_not :
      (c : CommandName) (name : Bytes)
      → ((c : CommandName) → in_capitals name ≢ spelled c)
      → equal (to_uppercase name) (spelled c) ≡ false
  is_not c name h =
      rw (to_uppercase-in_capitals name) (other_text (in_capitals name) (spelled c) (h c))

  -- A request whose name is none of the twelve commands, in any case, gets "-ERR unknown command" and
  -- nothing else changes.
  pub dispatch-unknown :
      (name : Bytes) (args : List Bytes) (s : HandlerState World)
      → ((c : CommandName) → in_capitals name ≢ spelled c)
      → dispatch tree (name ∷ args) s ≡ (returned (failure (codes "ERR unknown command")), s)
  unfolding dispatch run_command encode line spelled
  dispatch-unknown name args s h =
      rw
        (
          is_not rpush name h,
          is_not sadd name h,
          is_not srem name h,
          is_not mget name h,
          is_not smembers name h,
          is_not scard name h,
          is_not lpush name h,
          is_not lrange name h,
          is_not ltrim name h,
          is_not expire name h,
          is_not set name h,
          is_not get name h,
        )
        refl
