-- ===== src/Handler/Sets.antt =====
-- SADD, SREM and SMEMBERS on a cluster that keeps a set for each key, as a client reads the answers.
use logcabin_redis_proxy.Base.{
  ℕ, suc, ◌%◌, ◌≡◌, ◌≢◌, refl, ap, subst, ◌∙◌, List, [], ◌∷◌, ◌++◌, inr, map, length, ltb, lt→ltb,
  arith, false, Bool, ◌||◌, ◌&&◌, not,
}
use logcabin_redis_proxy.Bytes.{Bytes, codes, equal}
use logcabin_redis_proxy.Handler.Calls.{Tree, get_tree}
use logcabin_redis_proxy.Handler.Monad.{HandlerState}
use logcabin_redis_proxy.Handler.Reads.{handle_smembers_request}
use logcabin_redis_proxy.Handler.Writes.{handle_sadd_request, handle_srem_request}
use logcabin_redis_proxy.Num.{to_string}
use logcabin_redis_proxy.Resp.Encoder.{encode, line, bulk, bulks}
use logcabin_redis_proxy.Resp.Replies.Encoding.{bulk-eq-print_item, bulks-eq-print_answer}
use logcabin_redis_proxy.Handler.ReadBack.{ReadsAs, printed-ReadsAs, values-IsReadable}
use logcabin_redis_proxy.Resp.Replies.{one, many, bulk_string, print_answer, IsReadable}
use logcabin_redis_proxy.Resp.{ok}

-- Is it one of them?
unfoldable pub has : Bytes → List Bytes → Bool
has x [] = false
has x (y ∷ ys) = equal x y || has x ys

-- What the calls of the cluster's client promise, where no call fails: `members` has the members of
-- the set of each key, in some order.
pub record IsSetStore (tree : Tree) (members : tree.World → Bytes → List Bytes) : Type 0 where
  pub lists :
      (t : ℕ) (key : Bytes) (w : tree.World) → tree.smembers t key w ≡ (inr (members w key), w)
  pub adds :
      (t : ℕ) (key : Bytes) (vs : List Bytes) (w : tree.World)
      → (tree.sadd_ex t key vs w).0 ≡ inr tt
  pub added :
      (t : ℕ) (key : Bytes) (vs : List Bytes) (w : tree.World) (x : Bytes)
      → has x (members (tree.sadd_ex t key vs w).1 key) ≡ (has x (members w key) || has x vs)
  pub removes : (t : ℕ) (key v : Bytes) (w : tree.World) → (tree.srem_ex t key v w).0 ≡ inr tt
  pub removed :
      (t : ℕ) (key v : Bytes) (w : tree.World) (x : Bytes)
      → has x (members (tree.srem_ex t key v w).1 key) ≡ (has x (members w key) && not (equal x v))
  pub others :
      (t : ℕ) (key v k : Bytes) (vs : List Bytes) (w : tree.World)
      → k ≢ key
      → (members (tree.sadd_ex t key vs w).1 k ≡ members w k)
        × (members (tree.srem_ex t key v w).1 k ≡ members w k)

module _ (tree : Tree) (members : tree.World → Bytes → List Bytes)
    (store : IsSetStore tree members) where
  open tree use {World}

  short : (n : ℕ) → ltb (suc (suc (suc n))) 3 ≡ false
  short n = ground (arith, lt→ltb (suc (suc (suc n))) 3)

  handle_smembers_request-ReadsAs :
      (command key : Bytes) (s : HandlerState World)
      → ReadsAs
          (handle_smembers_request tree (command ∷ key ∷ []) s).0
          (many (map bulk_string (members s.world key)))
  unfolding handle_smembers_request get_tree encode
  handle_smembers_request-ReadsAs command key s =
      printed-ReadsAs (many (map bulk_string (members s.world key)))
        (record {
          status = ok;
          response =
              line (codes "*") (to_string (length (members s.world key)))
              ++ bulks (members s.world key);
        })
        (rw (store.lists (s.ptree_counter % 10) key s.world) refl)
        (bulks-eq-print_answer (members s.world key)) (values-IsReadable (members s.world key))

  handle_sadd_request_lem :
      (command key v : Bytes) (vs : List Bytes) (s : HandlerState World)
      → ReadsAs
          (handle_sadd_request tree (command ∷ key ∷ v ∷ vs) s).0
          (one (bulk_string (codes "1")))
        × ((handle_sadd_request tree (command ∷ key ∷ v ∷ vs) s).1.world
            ≡ (tree.sadd_ex (s.ptree_counter % 10) key (v ∷ vs) s.world).1)
  unfolding handle_sadd_request get_tree encode print_answer IsReadable
  handle_sadd_request_lem command key v vs s =
      let e = store.adds (s.ptree_counter % 10) key (v ∷ vs) s.world in
      (
        printed-ReadsAs (one (bulk_string (codes "1")))
            (record { status = ok; response = bulk (codes "1") }) (rw (short (length vs), e) refl)
            (bulk-eq-print_item (codes "1")) tt,
        rw (short (length vs), e) refl,
      )

  handle_srem_request_lem :
      (command key v : Bytes) (s : HandlerState World)
      → ReadsAs
          (handle_srem_request tree (command ∷ key ∷ v ∷ []) s).0
          (one (bulk_string (codes "1")))
        × ((handle_srem_request tree (command ∷ key ∷ v ∷ []) s).1.world
            ≡ (tree.srem_ex (s.ptree_counter % 10) key v s.world).1)
  unfolding handle_srem_request get_tree encode print_answer IsReadable
  handle_srem_request_lem command key v s =
      let e = store.removes (s.ptree_counter % 10) key v s.world in
      (
        printed-ReadsAs (one (bulk_string (codes "1")))
            (record { status = ok; response = bulk (codes "1") }) (rw e refl)
            (bulk-eq-print_item (codes "1")) tt,
        rw e refl,
      )

  -- On a cluster that keeps a set for each key and whose calls do not fail: a client reads "1" in the
  -- answer to SADD and to SREM, and in the answer to SMEMBERS of a key behind them it reads the members
  -- of before, and all values that SADD had, in the first case, and the members of before but for the
  -- value that SREM had, in the second. SMEMBERS of any other key is answered with the members of
  -- before.
  pub handle_smembers_request-after :
      (sadd srem smembers key v k : Bytes) (vs : List Bytes) (s : HandlerState World)
      → k ≢ key
      → let added = handle_sadd_request tree (sadd ∷ key ∷ v ∷ vs) s in
        let removed = handle_srem_request tree (srem ∷ key ∷ v ∷ []) s in
        (ReadsAs added.0 (one (bulk_string (codes "1"))))
        × (ReadsAs removed.0 (one (bulk_string (codes "1"))))
        × ((ms : List Bytes) × ReadsAs
              (handle_smembers_request tree (smembers ∷ key ∷ []) added.1).0
              (many (map bulk_string ms))
            × ((x : Bytes) → has x ms ≡ (has x (members s.world key) || has x (v ∷ vs))))
        × ((ms : List Bytes) × ReadsAs
              (handle_smembers_request tree (smembers ∷ key ∷ []) removed.1).0
              (many (map bulk_string ms))
            × ((x : Bytes) → has x ms ≡ (has x (members s.world key) && not (equal x v))))
        × ReadsAs
            (handle_smembers_request tree (smembers ∷ k ∷ []) added.1).0
            (many (map bulk_string (members s.world k)))
        × ReadsAs
            (handle_smembers_request tree (smembers ∷ k ∷ []) removed.1).0
            (many (map bulk_string (members s.world k)))
  handle_smembers_request-after sadd srem smembers key v k vs s ne =
      let t = s.ptree_counter % 10 in
      let (read_added, add) = handle_sadd_request_lem sadd key v vs s in
      let (read_removed, remove) = handle_srem_request_lem srem key v s in
      let s_added = (handle_sadd_request tree (sadd ∷ key ∷ v ∷ vs) s).1 in
      let (kept, kept') = store.others t key v k (v ∷ vs) s.world ne in
      let s_removed = (handle_srem_request tree (srem ∷ key ∷ v ∷ []) s).1 in
      (
        read_added,
        read_removed,
        (
          members s_added.world key,
          handle_smembers_request-ReadsAs smembers key s_added,
          λ x. ap (λ w. has x (members w key)) add ∙ store.added t key (v ∷ vs) s.world x,
        ),
        (
          members s_removed.world key,
          handle_smembers_request-ReadsAs smembers key s_removed,
          λ x. ap (λ w. has x (members w key)) remove ∙ store.removed t key v s.world x,
        ),
        subst
            (λ ms.
              ReadsAs (handle_smembers_request tree (smembers ∷ k ∷ []) s_added).0
                (many (map bulk_string ms)))
            (ap (λ w. members w k) add ∙ kept) (handle_smembers_request-ReadsAs smembers k s_added),
        subst
            (λ ms.
              ReadsAs (handle_smembers_request tree (smembers ∷ k ∷ []) s_removed).0
                (many (map bulk_string ms)))
            (ap (λ w. members w k) remove ∙ kept')
            (handle_smembers_request-ReadsAs smembers k s_removed),
      )
