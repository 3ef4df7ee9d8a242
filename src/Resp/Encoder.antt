-- ===== src/Resp/Encoder.antt =====
-- `encoder` of deps/simple_resp/src/simple_resp.cc.
use logcabin_redis_proxy.Base.{[], ◌∷◌, ◌++◌, List, Option, none, some, length}
use logcabin_redis_proxy.Bytes.{Bytes, codes, crlf}
use logcabin_redis_proxy.Num.{to_string}
use logcabin_redis_proxy.Resp.{
  RespType, simple_strings, errors, integers, bulk_strings, bulk_nil, arrays, ok, EncodeResult,
  RedisTypeValuePair,
}

abbrev result : Bytes → EncodeResult
result response = record { status = ok; response = response }

-- A type byte, the text and "\r\n".
unfoldable pub line : Bytes → Bytes → Bytes
line head text = head ++ (text ++ crlf)

-- "$", the length, "\r\n", the value, "\r\n".
unfoldable pub bulk : Bytes → Bytes
unfolding line
bulk value = line (codes "$") (to_string (length value)) ++ (value ++ crlf)

unfoldable pub nil : Bytes
nil = codes "$-1" ++ crlf

unfoldable pub bulks : List Bytes → Bytes
bulks [] = []
bulks (v ∷ vs) = bulk v ++ bulks vs

-- What one entry adds to a list of pairs.
unfoldable pub encode_pair : RespType → Bytes → Bytes
unfolding line bulk nil
encode_pair simple_strings value = line (codes "+") value
encode_pair errors value = line (codes "-") value
encode_pair integers value = bulk value
encode_pair bulk_strings value = bulk value
encode_pair bulk_nil value = nil
encode_pair arrays value = []

unfoldable pub encode_pairs : List RedisTypeValuePair → Bytes
encode_pairs [] = []
encode_pairs (i ∷ is) = encode_pair i.type i.value ++ encode_pairs is

-- `encode(const redis_type_value_pair_list&)`.
unfoldable pub encode_list : List RedisTypeValuePair → EncodeResult
unfolding line
encode_list list = result (line (codes "*") (to_string (length list)) ++ encode_pairs list)

-- `encode(const RESP_TYPE&, const std::vector<std::string>&)`; `none` is the undefined `args[0]` of an
-- empty vector.
unfoldable pub encode : RespType → List Bytes → Option EncodeResult
unfolding line bulk nil
encode bulk_nil args = some (result nil)
encode arrays args = some (result (line (codes "*") (to_string (length args)) ++ bulks args))
encode simple_strings (a ∷ _) = some (result (line (codes "+") a))
encode errors (a ∷ _) = some (result (line (codes "-") a))
encode integers (a ∷ _) = some (result (bulk a))
encode bulk_strings (a ∷ _) = some (result (bulk a))
encode _ [] = none
