-- ===== src/Tests/Shared.antt =====
-- Handlers among other workers, at which the theorems on them are applied.
use logcabin_redis_proxy.Base.{◌≡◌, refl, [], ◌∷◌, Option, some, ◌⊎◌, arith}
use logcabin_redis_proxy.Bytes.{Bytes, codes}
use logcabin_redis_proxy.Handler.Apart.{meanwhile, handle_mget_request-apart}
use logcabin_redis_proxy.Handler.Monad.{returned, HandlerState}
use logcabin_redis_proxy.Handler.Reads.{handle_mget_request}
use logcabin_redis_proxy.Handler.Shared.{disturbed, view}
use logcabin_redis_proxy.Handler.Values.{mget_entry}
use logcabin_redis_proxy.Resp.Encoder.{encode_list}
use logcabin_redis_proxy.Server.Dispatch.Atomic.{MakesOneCall, dispatch-atomic}
use logcabin_redis_proxy.Server.Dispatch.{dispatch, to_uppercase}
use logcabin_redis_proxy.Tests.Fixtures.{Data, small_tree, empty, small_tree-IsStore}

-- Data with one value for every key.
abbrev all_have : Bytes → Data
all_have v = record { values = λ k. some v; lists = λ k. [] }

get-MakesOneCall : MakesOneCall (to_uppercase (codes "get")) (codes "k" ∷ [])
get-MakesOneCall = record {
  rpush = λ e. omega arith;
  lpush = λ e. omega arith;
  mget = λ e. omega arith;
}

-- GET, while another worker sets the key.
dispatch-atomic_example :
    (w : Data) × ((w ≡ empty) ⊎ (w ≡ all_have (codes "v")))
    × (dispatch small_tree (codes "get" ∷ codes "k" ∷ []) (record { ptree_counter = 3; world = w })
        ≡ (
          (dispatch
              (disturbed small_tree (λ n d. all_have (codes "v")))
              (codes "get" ∷ codes "k" ∷ [])
              (record { ptree_counter = 3; world = (empty, 0) })).0,
          view
              (λ v. v.0)
              (dispatch
                (disturbed small_tree (λ n d. all_have (codes "v")))
                (codes "get" ∷ codes "k" ∷ [])
                (record { ptree_counter = 3; world = (empty, 0) })).1,
        ))
dispatch-atomic_example =
    dispatch-atomic small_tree (λ n d. all_have (codes "v")) (codes "get") (codes "k" ∷ [])
      (record { ptree_counter = 3; world = (empty, 0) }) get-MakesOneCall

handle_mget_request-apart_example :
    ((s : HandlerState Data)
      → (o : Option Bytes) × ((handle_mget_request small_tree
            (codes "MGET" ∷ codes "k" ∷ codes "k" ∷ [])
            s).0
          ≡ returned (encode_list (mget_entry o ∷ mget_entry o ∷ []))))
    × ((handle_mget_request
          (disturbed small_tree (meanwhile (all_have (codes "v"))))
          (codes "MGET" ∷ codes "k" ∷ codes "k" ∷ [])
          (record { ptree_counter = 0; world = (all_have (codes "u"), 0) })).0
        ≡ returned
            (encode_list (mget_entry (some (codes "u")) ∷ mget_entry (some (codes "v")) ∷ [])))
handle_mget_request-apart_example =
    handle_mget_request-apart small_tree (λ d. d.values) small_tree-IsStore (codes "MGET")
      (codes "k") (codes "u") (codes "v") (all_have (codes "u")) (all_have (codes "v")) 0 refl refl
