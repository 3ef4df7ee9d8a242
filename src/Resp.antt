-- ===== src/Resp.antt =====
-- The types of deps/simple_resp/include/simple_resp.h that the encoder and the decoder share.
pub mod Encoder
pub mod Decoder
pub mod Replies
use logcabin_redis_proxy.Base.{ℕ, List}
use logcabin_redis_proxy.Bytes.{Bytes}

-- `RESP_TYPE`. Its values are the type bytes, and `BULK_NIL` is the one behind '$'.
pub data RespType : Type 0 where
  simple_strings errors integers bulk_strings bulk_nil arrays : RespType

-- `STATUS`.
pub data Status : Type 0 where
  ok empty_input invailid_resp_type invailid_resp_format unknown_internal_error : Status

-- `PARSE_STATE`.
pub data ParseState : Type 0 where
  init parse_elements parse_bluk_strings : ParseState

-- `struct encode_result`.
pub record EncodeResult : Type 0 where
  pub status : Status
  pub response : Bytes

-- `redis_type_value_pair`.
pub record RedisTypeValuePair : Type 0 where
  pub type : RespType
  pub value : Bytes

-- One call of a `request_handler`: its two arguments.
pub record Command : Type 0 where
  pub command_id : ℕ
  pub request : List Bytes
