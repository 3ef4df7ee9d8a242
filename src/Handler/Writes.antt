-- ===== src/Handler/Writes.antt =====
-- The requests of src/proxy/handler.cc that change the data of the cluster.
use logcabin_redis_proxy.Base.{not, List, ◌++◌, ltb, ◌==◌, if◌then◌else◌, length, drop}
use logcabin_redis_proxy.Bytes.{Bytes, codes}
use logcabin_redis_proxy.Num.{atoi}
use logcabin_redis_proxy.Resp.{simple_strings, integers, EncodeResult}
use logcabin_redis_proxy.Handler.Monad.{M, ◌>>=◌, ◌>>◌, call, at, enc}
use logcabin_redis_proxy.Handler.Calls.{
  Tree, get_tree, try_catch, wrong_number, by_status, push_all,
}

module _ (tree : Tree) where
  open tree use {World}

  unfoldable pub handle_sadd_request : List Bytes → M World EncodeResult
  handle_sadd_request args = try_catch (
      if ltb (length args) 3 then wrong_number (codes "sadd") else (do
        key ← at args 1
        t ← get_tree
        call (tree.sadd_ex t key (drop 2 args))
        enc integers (codes "1")))

  unfoldable pub handle_srem_request : List Bytes → M World EncodeResult
  handle_srem_request args = try_catch (
      if not (length args == 3) then wrong_number (codes "srem") else (do
        key ← at args 1
        t ← get_tree
        member ← at args 2
        call (tree.srem_ex t key member)
        enc integers (codes "1")))

  unfoldable pub handle_lpush_request : List Bytes → M World EncodeResult
  handle_lpush_request args = try_catch (
      if ltb (length args) 3
      then wrong_number (codes "lpush")
      else (do key ← at args 1; push_all tree.lpush_ex key (drop 2 args); enc integers (codes "1")))

  unfoldable pub handle_set_request : List Bytes → M World EncodeResult
  handle_set_request args = try_catch (
      if ltb (length args) 3 then wrong_number (codes "set") else (do
        key ← at args 1
        t ← get_tree
        value ← at args 2
        call (tree.write_ex t key value)
        enc simple_strings (codes "OK")))

  unfoldable pub handle_rpush_request : List Bytes → M World EncodeResult
  handle_rpush_request args = try_catch (
      if ltb (length args) 3
      then wrong_number (codes "rpush")
      else (do key ← at args 1; push_all tree.rpush_ex key (drop 2 args); enc integers (codes "1")))

  unfoldable pub handle_ltrim_request : List Bytes → M World EncodeResult
  handle_ltrim_request args = try_catch (
      if not (length args == 4) then wrong_number (codes "ltrim") else (do
        t ← get_tree
        key ← at args 1
        from ← at args 2
        to ← at args 3
        status ← call (tree.ltrim t key (from ++ (codes " " ++ to)))
        by_status (codes "ltrim") status))

  unfoldable pub handle_expire_request : List Bytes → M World EncodeResult
  handle_expire_request args = try_catch (
      if not (length args == 3) then wrong_number (codes "expire") else (do
        t ← get_tree
        key ← at args 1
        seconds ← at args 2
        status ← call (tree.expire t key (atoi seconds))
        by_status (codes "expire") status))
