-- ===== src/Handler/Follows.antt =====
-- A cluster whose calls are those of another cluster, made in some data of it.
use logcabin_redis_proxy.Base.{ℕ, List, ℤ}
use logcabin_redis_proxy.Bytes.{Bytes}
use logcabin_redis_proxy.Handler.Calls.{Tree}
use logcabin_redis_proxy.Handler.Monad.{call}
use logcabin_redis_proxy.Handler.Shared.{disturbed, Once, call-Once}

-- Two clusters: what a call of `other` does from some data on, the same call of `tree` does from the
-- data that `now` or `later` says.
pub record Follows (other tree : Tree) (now later : other.World → tree.World) : Type 0 where
  pub sadd_ex :
      (t : ℕ) (key : Bytes) (vs : List Bytes)
      → Once now later (call (other.sadd_ex t key vs)) (call (tree.sadd_ex t key vs))
  pub srem_ex :
      (t : ℕ) (key v : Bytes)
      → Once now later (call (other.srem_ex t key v)) (call (tree.srem_ex t key v))
  pub lpush_ex :
      (t : ℕ) (key v : Bytes)
      → Once now later (call (other.lpush_ex t key v)) (call (tree.lpush_ex t key v))
  pub rpush_ex :
      (t : ℕ) (key v : Bytes)
      → Once now later (call (other.rpush_ex t key v)) (call (tree.rpush_ex t key v))
  pub write_ex :
      (t : ℕ) (key v : Bytes)
      → Once now later (call (other.write_ex t key v)) (call (tree.write_ex t key v))
  pub scard :
      (t : ℕ) (key : Bytes) → Once now later (call (other.scard t key)) (call (tree.scard t key))
  pub read_ex :
      (t : ℕ) (key : Bytes)
      → Once now later (call (other.read_ex t key)) (call (tree.read_ex t key))
  pub smembers :
      (t : ℕ) (key : Bytes)
      → Once now later (call (other.smembers t key)) (call (tree.smembers t key))
  pub lrange :
      (t : ℕ) (key range : Bytes)
      → Once now later (call (other.lrange t key range)) (call (tree.lrange t key range))
  pub ltrim :
      (t : ℕ) (key range : Bytes)
      → Once now later (call (other.ltrim t key range)) (call (tree.ltrim t key range))
  pub expire :
      (t : ℕ) (key : Bytes) (seconds : ℤ)
      → Once now later (call (other.expire t key seconds)) (call (tree.expire t key seconds))

pub disturbed-Follows :
    (tree : Tree) (change : ℕ → tree.World → tree.World)
    → Follows (disturbed tree change) tree (λ v. v.0) (λ v. change v.1 v.0)
disturbed-Follows tree change = record {
  sadd_ex = λ t key vs. call-Once change (tree.sadd_ex t key vs);
  srem_ex = λ t key v. call-Once change (tree.srem_ex t key v);
  lpush_ex = λ t key v. call-Once change (tree.lpush_ex t key v);
  rpush_ex = λ t key v. call-Once change (tree.rpush_ex t key v);
  write_ex = λ t key v. call-Once change (tree.write_ex t key v);
  scard = λ t key. call-Once change (tree.scard t key);
  read_ex = λ t key. call-Once change (tree.read_ex t key);
  smembers = λ t key. call-Once change (tree.smembers t key);
  lrange = λ t key range. call-Once change (tree.lrange t key range);
  ltrim = λ t key range. call-Once change (tree.ltrim t key range);
  expire = λ t key seconds. call-Once change (tree.expire t key seconds);
}
