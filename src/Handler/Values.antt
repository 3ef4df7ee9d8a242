-- ===== src/Handler/Values.antt =====
-- SET, GET and MGET on a cluster that keeps a value per key.
use logcabin_redis_proxy.Base.{
  ℕ, suc, ◌+◌, ◌%◌, ◌≡◌, ◌≢◌, refl, sym, drop, ap, ◌∙◌, List, [], ◌∷◌, ◌++◌, ◌⊎◌, inl, inr, Option,
  none, some, map, length, ltb, lt→ltb, arith, Option-cases, false,
}
use logcabin_redis_proxy.Bytes.{Bytes, codes, crlf}
use logcabin_redis_proxy.Handler.Calls.{Tree, get_tree, caught, try_catch}
use logcabin_redis_proxy.Handler.Monad.{
  Exception, lookup_exception, Outcome, returned, HandlerState, bind, return, ◌>>=◌,
}
use logcabin_redis_proxy.Handler.Reads.{handle_get_request, handle_mget_request, mget_all, mget_one}
use logcabin_redis_proxy.Handler.Writes.{handle_set_request}
use logcabin_redis_proxy.Resp.Encoder.{encode, encode_list, bulk, line, nil}
use logcabin_redis_proxy.Resp.{ok, EncodeResult, simple_strings, bulk_nil, RedisTypeValuePair}

abbrev found : Option Bytes → Exception ⊎ Bytes
found none = inl lookup_exception
found (some v) = inr v

-- What the calls of the cluster's client promise, where no call fails: `value` has the value of each
-- key.
pub record IsStore (tree : Tree) (value : tree.World → Bytes → Option Bytes) : Type 0 where
  pub reads :
      (t : ℕ) (key : Bytes) (w : tree.World) → tree.read_ex t key w ≡ (found (value w key), w)
  pub writes : (t : ℕ) (key v : Bytes) (w : tree.World) → (tree.write_ex t key v w).0 ≡ inr tt
  pub written :
      (t : ℕ) (key v : Bytes) (w : tree.World) → value (tree.write_ex t key v w).1 key ≡ some v
  pub others :
      (t : ℕ) (key v k : Bytes) (w : tree.World)
      → k ≢ key
      → value (tree.write_ex t key v w).1 k ≡ value w k

-- The answer of GET.
unfoldable pub get_answer : Option Bytes → EncodeResult
unfolding bulk
get_answer none = record { status = ok; response = codes "$-1" ++ crlf }
get_answer (some v) = record { status = ok; response = bulk v }

-- The entry of MGET.
unfoldable pub mget_entry : Option Bytes → RedisTypeValuePair
mget_entry none = record { type = bulk_nil; value = [] }
mget_entry (some v) = record { type = simple_strings; value = v }

short : (n : ℕ) → ltb (suc (suc n)) 2 ≡ false
short n = ground (arith, lt→ltb (suc (suc n)) 2)

module _ (tree : Tree) (value : tree.World → Bytes → Option Bytes)
    (store : IsStore tree value) where
  open tree use {World}

  abbrev turned : HandlerState World → HandlerState World
  turned s = record s { ptree_counter = (s.ptree_counter + 1) % 10 }

  pub handle_get_request_lem :
      (command key : Bytes) (s : HandlerState World)
      → handle_get_request tree (command ∷ key ∷ []) s
        ≡ (returned (get_answer (value s.world key)), turned s)
  unfolding handle_get_request get_tree get_answer encode bulk line nil
  handle_get_request_lem command key s =
      let r = store.reads (s.ptree_counter % 10) key s.world in
      elim (Option-cases (value s.world key)) [
        | inl e ↦ rw (r, e) refl
        | inr (v, e) ↦ rw (r, e) refl
      ]

  handle_set_request_lem :
      (command key v : Bytes) (s : HandlerState World)
      → handle_set_request tree (command ∷ key ∷ v ∷ []) s ≡ (
        returned (record { status = ok; response = codes "+OK" ++ crlf }),
        record {
          ptree_counter = (s.ptree_counter + 1) % 10;
          world = (tree.write_ex (s.ptree_counter % 10) key v s.world).1;
        },
      )
  unfolding handle_set_request get_tree encode line
  handle_set_request_lem command key v s =
      rw (store.writes (s.ptree_counter % 10) key v s.world) refl

  mget_one_lem :
      (key : Bytes) (s : HandlerState World)
      → mget_one tree key s ≡ (returned (mget_entry (value s.world key)), turned s)
  unfolding mget_one get_tree mget_entry
  mget_one_lem key s =
      let r = store.reads (s.ptree_counter % 10) key s.world in
      elim (Option-cases (value s.world key)) [
        | inl e ↦ rw (r, e) refl
        | inr (v, e) ↦ rw (r, e) refl
      ]

  got :
      (get k : Bytes) (s : HandlerState World)
      → (handle_get_request tree (get ∷ k ∷ []) s).0 ≡ returned (get_answer (value s.world k))
  got get k s = ap (λ r. r.0) (handle_get_request_lem get k s)

  value_set :
      (set key v k : Bytes) (s : HandlerState World)
      → value (handle_set_request tree (set ∷ key ∷ v ∷ []) s).1.world k
        ≡ value (tree.write_ex (s.ptree_counter % 10) key v s.world).1 k
  value_set set key v k s = ap (λ r. value r.1.world k) (handle_set_request_lem set key v s)

  -- On a cluster that keeps a value per key and whose calls do not fail: GET of a key behind SET of it
  -- answers with the bulk string of the value set, and GET of any other key answers as it would have
  -- without the SET.
  pub handle_get_request-handle_set_request :
      (set get key v : Bytes) (s : HandlerState World)
      → ((handle_get_request tree
            (get ∷ key ∷ [])
            (handle_set_request tree (set ∷ key ∷ v ∷ []) s).1).0
          ≡ returned (get_answer (some v)))
        × ((k : Bytes)
            → k ≢ key
            → (handle_get_request tree
                (get ∷ k ∷ [])
                (handle_set_request tree (set ∷ key ∷ v ∷ []) s).1).0
              ≡ (handle_get_request tree (get ∷ k ∷ []) s).0)
  handle_get_request-handle_set_request set get key v s =
      let s' = (handle_set_request tree (set ∷ key ∷ v ∷ []) s).1 in
      let t = s.ptree_counter % 10 in
      (
        got get key s'
            ∙ ap (λ o. returned (get_answer o))
                (value_set set key v key s ∙ store.written t key v s.world),
        λ k h.
            got get k s'
            ∙ ap (λ o. returned (get_answer o))
                (value_set set key v k s ∙ store.others t key v k s.world h)
            ∙ sym (got get k s),
      )

  mget_all_lem :
      (keys : List Bytes) (s : HandlerState World)
      → ((mget_all tree keys s).0 ≡ returned (map (λ k. mget_entry (value s.world k)) keys))
        × ((mget_all tree keys s).1.world ≡ s.world)
  unfolding mget_all
  mget_all_lem [] s = (refl, refl)
  mget_all_lem (key ∷ keys) s =
      let (e, w) = mget_all_lem keys (turned s) in
      (rw (mget_one_lem key s, e) refl, rw (mget_one_lem key s, e) w)

  mget_guard :
      (args : List Bytes) (s : HandlerState World)
      → ltb (length args) 2 ≡ false
      → handle_mget_request tree args s
        ≡ try_catch (do result ← mget_all tree (drop 1 args); return (encode_list result)) s
  unfolding handle_mget_request
  mget_guard args s h = rw h refl

  listed :
      (pairs : List RedisTypeValuePair) (o : Outcome (List RedisTypeValuePair) × HandlerState World)
      → o.0 ≡ returned pairs
      → caught (bind o (λ result. return (encode_list result)))
        ≡ (returned (encode_list pairs), o.1)
  listed pairs o e = rw e refl

  -- On such a cluster MGET answers with the encoding of one entry for each key, and leaves the cluster as
  -- it is.
  pub handle_mget_request_lem :
      (command key : Bytes) (keys : List Bytes) (s : HandlerState World)
      → ((handle_mget_request tree (command ∷ key ∷ keys) s).0
          ≡ returned (encode_list (map (λ k. mget_entry (value s.world k)) (key ∷ keys))))
        × ((handle_mget_request tree (command ∷ key ∷ keys) s).1.world ≡ s.world)
  handle_mget_request_lem command key keys s =
      let args = command ∷ key ∷ keys in
      let (e, w) = mget_all_lem (key ∷ keys) s in
      let same =
        mget_guard args s (short (length keys)) ∙ listed _ (mget_all tree (key ∷ keys) s) e in
      (ap (λ r. r.0) same, ap (λ r. r.1.world) same ∙ w)
