-- ===== src/Handler/Atomic.antt =====
-- Handlers that make one call of the cluster, among other workers: what they do is what they do alone.
use logcabin_redis_proxy.Base.{
  ℕ, zero, suc, ◌≤◌, ◌≡◌, List, [], ◌∷◌, ◌++◌, length, drop, arith, ltb, not, ◌==◌, ◌-◌, ◌⊎◌,
}
use logcabin_redis_proxy.Bytes.{Bytes, codes}
use logcabin_redis_proxy.Handler.Calls.{Tree, push_all}
use logcabin_redis_proxy.Handler.Monad.{Exception, call}
use logcabin_redis_proxy.Handler.Reads.{
  handle_scard_request, handle_get_request, handle_mget_request, handle_smembers_request,
  handle_lrange_request, mget_one, mget_all,
}
use logcabin_redis_proxy.Handler.Follows.{Follows}
use logcabin_redis_proxy.Resp.Encoder.{encode, encode_list}
use logcabin_redis_proxy.Handler.Shared.{
  Once, return-Quiet, from_option-Quiet, get_tree-Quiet, bind-Quiet, Quiet-Once, before-Once,
  after-Once, catch_lookup-Once, at-Quiet, enc-Quiet, by_status-Quiet, guarded, guarded_lookup,
}
use logcabin_redis_proxy.Handler.Writes.{
  handle_sadd_request, handle_srem_request, handle_lpush_request, handle_set_request,
  handle_rpush_request, handle_ltrim_request, handle_expire_request,
}
use logcabin_redis_proxy.Num.{atoi}
use logcabin_redis_proxy.Resp.{integers, simple_strings, bulk_strings, arrays}

length-drop : (xs : List Bytes) (n : ℕ) → length (drop n xs) ≡ length xs - n
length-drop xs zero = omega arith
length-drop [] (suc n) = omega arith
length-drop (x ∷ xs) (suc n) = omega (arith, length-drop xs n)

module _ (other tree : Tree) (now later : other.World → tree.World)
    (follows : Follows other tree now later) (args : List Bytes) where
  pub handle_sadd_request-Once :
      Once now later (handle_sadd_request other args) (handle_sadd_request tree args)
  unfolding handle_sadd_request
  handle_sadd_request-Once = guarded (ltb (length args) 3) (codes "sadd") (
      before-Once now later (at-Quiet args 1) λ a1. before-Once now later get_tree-Quiet λ t.
        after-Once now later (follows.sadd_ex t a1 (drop 2 args))
          λ r. enc-Quiet integers (codes "1"))

  pub handle_srem_request-Once :
      Once now later (handle_srem_request other args) (handle_srem_request tree args)
  unfolding handle_srem_request
  handle_srem_request-Once = guarded (not (length args == 3)) (codes "srem") (
      before-Once now later (at-Quiet args 1) λ a1. before-Once now later get_tree-Quiet λ t.
        before-Once now later (at-Quiet args 2)
          λ a2. after-Once now later (follows.srem_ex t a1 a2) λ r. enc-Quiet integers (codes "1"))

  pub handle_set_request-Once :
      Once now later (handle_set_request other args) (handle_set_request tree args)
  unfolding handle_set_request
  handle_set_request-Once = guarded (ltb (length args) 3) (codes "set") (
      before-Once now later (at-Quiet args 1) λ a1. before-Once now later get_tree-Quiet λ t.
        before-Once now later (at-Quiet args 2) λ a2.
          after-Once now later (follows.write_ex t a1 a2)
            λ r. enc-Quiet simple_strings (codes "OK"))

  pub handle_ltrim_request-Once :
      Once now later (handle_ltrim_request other args) (handle_ltrim_request tree args)
  unfolding handle_ltrim_request
  handle_ltrim_request-Once = guarded (not (length args == 4)) (codes "ltrim") (
      before-Once now later get_tree-Quiet λ t. before-Once now later (at-Quiet args 1) λ a1.
        before-Once now later (at-Quiet args 2) λ a2. before-Once now later (at-Quiet args 3) λ a3.
          after-Once now later (follows.ltrim t a1 (a2 ++ (codes " " ++ a3)))
            λ r. by_status-Quiet (codes "ltrim") r)

  pub handle_expire_request-Once :
      Once now later (handle_expire_request other args) (handle_expire_request tree args)
  unfolding handle_expire_request
  handle_expire_request-Once = guarded (not (length args == 3)) (codes "expire") (
      before-Once now later get_tree-Quiet λ t. before-Once now later (at-Quiet args 1) λ a1.
        before-Once now later (at-Quiet args 2) λ a2.
          after-Once now later (follows.expire t a1 (atoi a2))
            λ r. by_status-Quiet (codes "expire") r)

  pub handle_scard_request-Once :
      Once now later (handle_scard_request other args) (handle_scard_request tree args)
  unfolding handle_scard_request
  handle_scard_request-Once = guarded_lookup (not (length args == 2)) (codes "read") (
      before-Once now later get_tree-Quiet λ t.
        before-Once now later (at-Quiet args 1)
          λ a1. after-Once now later (follows.scard t a1) λ r. enc-Quiet integers r)

  pub handle_get_request-Once :
      Once now later (handle_get_request other args) (handle_get_request tree args)
  unfolding handle_get_request
  handle_get_request-Once = guarded_lookup (not (length args == 2)) (codes "read") (
      before-Once now later get_tree-Quiet λ t.
        before-Once now later (at-Quiet args 1)
          λ a1. after-Once now later (follows.read_ex t a1) λ r. enc-Quiet bulk_strings r)

  pub handle_smembers_request-Once :
      Once now later (handle_smembers_request other args) (handle_smembers_request tree args)
  unfolding handle_smembers_request
  handle_smembers_request-Once = guarded (not (length args == 2)) (codes "smembers") (
      before-Once now later get_tree-Quiet λ t.
        before-Once now later (at-Quiet args 1) λ a1.
          after-Once now later (follows.smembers t a1) λ r. from_option-Quiet (encode arrays r))

  pub handle_lrange_request-Once :
      Once now later (handle_lrange_request other args) (handle_lrange_request tree args)
  unfolding handle_lrange_request
  handle_lrange_request-Once = guarded_lookup (not (length args == 4)) (codes "lrange") (
      before-Once now later get_tree-Quiet λ t. before-Once now later (at-Quiet args 1) λ a1.
        before-Once now later (at-Quiet args 2) λ a2. before-Once now later (at-Quiet args 3) λ a3.
          after-Once now later (follows.lrange t a1 (a2 ++ (codes " " ++ a3)))
            λ r. from_option-Quiet (encode arrays r))

  -- One value to push at most.
  push_all-Once :
      (push : ℕ → Bytes → Bytes → other.World → (Exception ⊎ Unit {0}) × other.World)
      (push' : ℕ → Bytes → Bytes → tree.World → (Exception ⊎ Unit {0}) × tree.World) (key : Bytes)
      (vs : List Bytes)
      → ((t : ℕ) (v : Bytes) → Once now later (call (push t key v)) (call (push' t key v)))
      → length vs ≤ 1
      → Once now later (push_all push key vs) (push_all push' key vs)
  unfolding push_all
  push_all-Once push push' key [] one h = Quiet-Once now later (return-Quiet tt)
  push_all-Once push push' key (v ∷ []) one h =
      before-Once now later get_tree-Quiet λ t. after-Once now later (one t v) λ u. return-Quiet tt
  push_all-Once push push' key (v ∷ w ∷ vs) one h = absurd (omega (arith, h))

  pub handle_lpush_request-Once :
      length args ≤ 3
      → Once now later (handle_lpush_request other args) (handle_lpush_request tree args)
  unfolding handle_lpush_request
  handle_lpush_request-Once h = guarded (ltb (length args) 3) (codes "lpush") (
      before-Once now later (at-Quiet args 1) λ a1.
        after-Once now later
          (push_all-Once other.lpush_ex tree.lpush_ex a1 (drop 2 args)
            (λ t v. follows.lpush_ex t a1 v) (omega (arith, length-drop args 2, h)))
          λ u. enc-Quiet integers (codes "1"))

  pub handle_rpush_request-Once :
      length args ≤ 3
      → Once now later (handle_rpush_request other args) (handle_rpush_request tree args)
  unfolding handle_rpush_request
  handle_rpush_request-Once h = guarded (ltb (length args) 3) (codes "rpush") (
      before-Once now later (at-Quiet args 1) λ a1.
        after-Once now later
          (push_all-Once other.rpush_ex tree.rpush_ex a1 (drop 2 args)
            (λ t v. follows.rpush_ex t a1 v) (omega (arith, length-drop args 2, h)))
          λ u. enc-Quiet integers (codes "1"))

  mget_one-Once : (key : Bytes) → Once now later (mget_one other key) (mget_one tree key)
  unfolding mget_one
  mget_one-Once key =
      catch_lookup-Once now later _ _
        (before-Once now later get_tree-Quiet λ t.
          after-Once now later (follows.read_ex t key)
            λ r. return-Quiet (record { type = simple_strings; value = r }))
        (return-Quiet _)

  -- One key to read at most.
  mget_all-Once :
      (keys : List Bytes)
      → length keys ≤ 1
      → Once now later (mget_all other keys) (mget_all tree keys)
  unfolding mget_all
  mget_all-Once [] h = Quiet-Once now later (return-Quiet [])
  mget_all-Once (key ∷ []) h =
      after-Once now later (mget_one-Once key)
        λ p. bind-Quiet (return-Quiet []) λ ps. return-Quiet (p ∷ ps)
  mget_all-Once (key ∷ k ∷ keys) h = absurd (omega (arith, h))

  pub handle_mget_request-Once :
      length args ≤ 2
      → Once now later (handle_mget_request other args) (handle_mget_request tree args)
  unfolding handle_mget_request
  handle_mget_request-Once h = guarded (ltb (length args) 2) (codes "smembers") (
      after-Once now later (mget_all-Once (drop 1 args) (omega (arith, length-drop args 1, h)))
        λ ps. return-Quiet (encode_list ps))
