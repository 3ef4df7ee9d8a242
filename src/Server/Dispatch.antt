-- ===== src/Server/Dispatch.antt =====
-- `to_uppercase` and the chain of commands in `processer_worker` of src/proxy/main.cc.
pub mod Answers
pub mod Case
pub mod Errors
pub mod Atomic
use logcabin_redis_proxy.Base.{ℕ, ◌-◌, Bool, ◌&&◌, List, ◌≡◌, refl, map, leb, if◌then◌else◌}
use logcabin_redis_proxy.Bytes.{Bytes, codes, equal}
use logcabin_redis_proxy.Handler.Calls.{Tree}
use logcabin_redis_proxy.Handler.Monad.{M, ◌>>=◌, at, enc}
use logcabin_redis_proxy.Handler.Reads.{
  handle_scard_request, handle_get_request, handle_mget_request, handle_smembers_request,
  handle_lrange_request,
}
use logcabin_redis_proxy.Handler.Writes.{
  handle_sadd_request, handle_srem_request, handle_lpush_request, handle_set_request,
  handle_rpush_request, handle_ltrim_request, handle_expire_request,
}
use logcabin_redis_proxy.Resp.{errors, EncodeResult}

unfoldable pub upper : ℕ → ℕ
upper i = if leb b'a' i && leb i b'z' then i - (b'a' - b'A') else i

unfoldable pub to_uppercase : Bytes → Bytes
unfolding upper
to_uppercase s = map upper s

module _ (tree : Tree) where
  open tree use {World}

  -- `command` is in upper case.
  unfoldable pub run_command : Bytes → List Bytes → M World EncodeResult
  run_command command request =
      if equal command (codes "RPUSH")
      then handle_rpush_request tree request
      else if equal command (codes "SADD")
      then handle_sadd_request tree request
      else if equal command (codes "SREM")
      then handle_srem_request tree request
      else if equal command (codes "MGET")
      then handle_mget_request tree request
      else if equal command (codes "SMEMBERS")
      then handle_smembers_request tree request
      else if equal command (codes "SCARD")
      then handle_scard_request tree request
      else if equal command (codes "LPUSH")
      then handle_lpush_request tree request
      else if equal command (codes "LRANGE")
      then handle_lrange_request tree request
      else if equal command (codes "LTRIM")
      then handle_ltrim_request tree request
      else if equal command (codes "EXPIRE")
      then handle_expire_request tree request
      else if equal command (codes "SET")
      then handle_set_request tree request
      else if equal command (codes "GET")
      then handle_get_request tree request
      else enc errors (codes "ERR unknown command")

  -- `request[0]` is undefined for an empty request.
  unfoldable pub dispatch : List Bytes → M World EncodeResult
  dispatch request = do name ← at request 0; run_command (to_uppercase name) request
