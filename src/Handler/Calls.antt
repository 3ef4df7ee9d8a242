-- ===== src/Handler/Calls.antt =====
-- What the handlers of src/proxy/handler.cc share: the client of the cluster, which is a parameter,
-- the connections in turn, the exceptions and the common answers.
use logcabin_redis_proxy.Base.{ℕ, ◌+◌, ◌%◌, List, [], ◌∷◌, ◌++◌, ℤ, ◌⊎◌}
use logcabin_redis_proxy.Bytes.{Bytes, codes}
use logcabin_redis_proxy.Resp.{simple_strings, errors, bulk_nil, EncodeResult}
use logcabin_redis_proxy.Handler.Monad.{
  Exception, lookup_exception, client_exception, Outcome, returned, thrown, undefined, HandlerState,
  M, ◌>>=◌, ◌>>◌, return, call, enc,
}

-- `LogCabin::Client::Status`, as far as the handlers tell it apart.
pub data TreeStatus : Type 0 where
  ok invalid_argument other_status : TreeStatus

-- The members of `LogCabin::Client::Tree` that the handlers call. The first argument is the index of
-- the connection in `pTreeList`.
pub record Tree : Type 1 where
  pub World : Type 0
  pub sadd_ex : ℕ → Bytes → List Bytes → World → (Exception ⊎ Unit {0}) × World
  pub srem_ex : ℕ → Bytes → Bytes → World → (Exception ⊎ Unit {0}) × World
  pub lpush_ex : ℕ → Bytes → Bytes → World → (Exception ⊎ Unit {0}) × World
  pub rpush_ex : ℕ → Bytes → Bytes → World → (Exception ⊎ Unit {0}) × World
  pub write_ex : ℕ → Bytes → Bytes → World → (Exception ⊎ Unit {0}) × World
  pub scard : ℕ → Bytes → World → (Exception ⊎ Bytes) × World
  pub read_ex : ℕ → Bytes → World → (Exception ⊎ Bytes) × World
  pub smembers : ℕ → Bytes → World → (Exception ⊎ List Bytes) × World
  pub lrange : ℕ → Bytes → Bytes → World → (Exception ⊎ List Bytes) × World
  pub ltrim : ℕ → Bytes → Bytes → World → (Exception ⊎ TreeStatus) × World
  pub expire : ℕ → Bytes → ℤ → World → (Exception ⊎ TreeStatus) × World

-- `getTree`: the connections take turns.
unfoldable pub get_tree : {W : Type 0} → M W ℕ
get_tree s =
    (returned (s.ptree_counter % 10), record s { ptree_counter = (s.ptree_counter + 1) % 10 })

-- `catch (const LogCabin::Client::Exception&)`.
abbrev pub caught :
    {W : Type 0} → Outcome EncodeResult × HandlerState W → Outcome EncodeResult × HandlerState W
caught (returned r, s) = (returned r, s)
caught (thrown e, s) = enc errors (codes "ERR Internal error happened") s
caught (undefined, s) = (undefined, s)

abbrev pub try_catch : {W : Type 0} → M W EncodeResult → M W EncodeResult
try_catch m s = caught (m s)

-- `catch (const LogCabin::Client::LookupException&)`, with what it returns.
abbrev pub caught_lookup :
    {W A : Type 0} → Outcome A × HandlerState W → M W A → Outcome A × HandlerState W
caught_lookup (returned r, s) k = (returned r, s)
caught_lookup (thrown lookup_exception, s) k = k s
caught_lookup (thrown client_exception, s) k = (thrown client_exception, s)
caught_lookup (undefined, s) k = (undefined, s)

abbrev pub catch_lookup : {W A : Type 0} → M W A → M W A → M W A
catch_lookup m k s = caught_lookup (m s) k

abbrev pub nil_reply : {W : Type 0} → M W EncodeResult
nil_reply = enc bulk_nil []

-- The answer to a wrong number of arguments.
abbrev pub wrong_number : {W : Type 0} → Bytes → M W EncodeResult
wrong_number command =
    enc errors (codes "ERR wrong number of arguments for '" ++ (command ++ codes "' command"))

-- The answer by the status of a result.
abbrev pub by_status : {W : Type 0} → Bytes → TreeStatus → M W EncodeResult
by_status command ok = enc simple_strings (codes "OK")
by_status command invalid_argument =
    enc errors (codes "ERR invalid arguments for '" ++ (command ++ codes "' command"))
by_status command other_status =
    enc errors (codes "ERR unknown error for '" ++ (command ++ codes "' command"))

-- The loops of `handle_lpush_request` and `handle_rpush_request`.
unfoldable pub push_all :
    {W : Type 0}
    → (ℕ → Bytes → Bytes → W → (Exception ⊎ Unit {0}) × W)
    → Bytes
    → List Bytes
    → M W (Unit {0})
push_all push key [] = return tt
push_all push key (v ∷ vs) = do t ← get_tree; call (push t key v); push_all push key vs
