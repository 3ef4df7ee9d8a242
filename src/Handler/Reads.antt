-- ===== src/Handler/Reads.antt =====
-- The requests of src/proxy/handler.cc that read the data of the cluster.
use logcabin_redis_proxy.Base.{not, List, [], ◌∷◌, ◌++◌, ltb, ◌==◌, if◌then◌else◌, length, drop}
use logcabin_redis_proxy.Bytes.{Bytes, codes}
use logcabin_redis_proxy.Resp.{
  simple_strings, integers, bulk_strings, bulk_nil, arrays, EncodeResult, RedisTypeValuePair,
}
use logcabin_redis_proxy.Resp.Encoder.{encode, encode_list}
use logcabin_redis_proxy.Handler.Monad.{M, ◌>>=◌, return, call, from_option, at, enc}
use logcabin_redis_proxy.Handler.Calls.{
  Tree, get_tree, try_catch, catch_lookup, nil_reply, wrong_number,
}

module _ (tree : Tree) where
  open tree use {World}

  unfoldable pub handle_scard_request : List Bytes → M World EncodeResult
  handle_scard_request args = try_catch (
      catch_lookup
        (if not (length args == 2) then wrong_number (codes "read") else (do
          t ← get_tree
          key ← at args 1
          result ← call (tree.scard t key)
          enc integers result))
        nil_reply)

  unfoldable pub handle_get_request : List Bytes → M World EncodeResult
  handle_get_request args = try_catch (
      catch_lookup
        (if not (length args == 2) then wrong_number (codes "read") else (do
          t ← get_tree
          key ← at args 1
          result ← call (tree.read_ex t key)
          enc bulk_strings result))
        nil_reply)

  -- One key of `handle_mget_request`.
  unfoldable pub mget_one : Bytes → M World RedisTypeValuePair
  mget_one key =
      catch_lookup
        (do
          t ← get_tree
          one_result ← call (tree.read_ex t key)
          return (record { type = simple_strings; value = one_result }))
        (return (record { type = bulk_nil; value = [] }))

  unfoldable pub mget_all : List Bytes → M World (List RedisTypeValuePair)
  mget_all [] = return []
  mget_all (key ∷ keys) = do pair ← mget_one key; pairs ← mget_all keys; return (pair ∷ pairs)

  unfoldable pub handle_mget_request : List Bytes → M World EncodeResult
  handle_mget_request args = try_catch (
      if ltb (length args) 2
      then wrong_number (codes "smembers")
      else (do result ← mget_all (drop 1 args); return (encode_list result)))

  unfoldable pub handle_smembers_request : List Bytes → M World EncodeResult
  handle_smembers_request args = try_catch (
      if not (length args == 2) then wrong_number (codes "smembers") else (do
        t ← get_tree
        key ← at args 1
        result ← call (tree.smembers t key)
        from_option (encode arrays result)))

  unfoldable pub handle_lrange_request : List Bytes → M World EncodeResult
  handle_lrange_request args = try_catch (
      catch_lookup
        (if not (length args == 4) then wrong_number (codes "lrange") else (do
          t ← get_tree
          key ← at args 1
          from ← at args 2
          to ← at args 3
          result ← call (tree.lrange t key (from ++ (codes " " ++ to)))
          from_option (encode arrays result)))
        nil_reply)
