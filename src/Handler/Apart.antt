-- ===== src/Handler/Apart.antt =====
-- MGET of several keys is not one step: others may change the data between two of its calls.
use logcabin_redis_proxy.Base.{ℕ, ◌≡◌, refl, [], ◌∷◌, some, if◌then◌else◌, ◌==◌, Option}
use logcabin_redis_proxy.Bytes.{Bytes}
use logcabin_redis_proxy.Handler.Calls.{Tree, get_tree}
use logcabin_redis_proxy.Handler.Monad.{returned, HandlerState}
use logcabin_redis_proxy.Handler.Reads.{handle_mget_request, mget_all, mget_one}
use logcabin_redis_proxy.Handler.Shared.{disturbed}
use logcabin_redis_proxy.Handler.Values.{IsStore, mget_entry, handle_mget_request_lem}
use logcabin_redis_proxy.Resp.Encoder.{encode_list}

-- What the others do: nothing before the first call, and then they bring about the data `w`.
abbrev pub meanwhile : {W : Type 0} → W → ℕ → W → W
meanwhile w n v = if n == 0 then v else w

module _ (tree : Tree) (value : tree.World → Bytes → Option Bytes)
    (store : IsStore tree value) where
  open tree use {World}

  -- On a cluster that keeps a value per key and whose calls do not fail: MGET of one key twice answers
  -- with the same entry twice, in whatever data it runs as one step. When another worker changes the
  -- value of the key from `u` to `v` between its two calls, it answers with `u` and `v`.
  pub handle_mget_request-apart :
      (mget key u v : Bytes) (w w' : World) (turn : ℕ)
      → value w key ≡ some u
      → value w' key ≡ some v
      → ((s : HandlerState World)
          → (o : Option Bytes) × ((handle_mget_request tree (mget ∷ key ∷ key ∷ []) s).0
              ≡ returned (encode_list (mget_entry o ∷ mget_entry o ∷ []))))
        × ((handle_mget_request
              (disturbed tree (meanwhile w'))
              (mget ∷ key ∷ key ∷ [])
              (record { ptree_counter = turn; world = (w, 0) })).0
            ≡ returned (encode_list (mget_entry (some u) ∷ mget_entry (some v) ∷ [])))
  unfolding handle_mget_request mget_all mget_one get_tree mget_entry
  handle_mget_request-apart mget key u v w w' turn e e' = (
    λ s. (value s.world key, (handle_mget_request_lem tree value store mget key (key ∷ []) s).0),
    rw (store.reads _ key w, e, store.reads _ key w', e') refl,
  )
