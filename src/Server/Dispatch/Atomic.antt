-- ===== src/Server/Dispatch/Atomic.antt =====
-- A request among other workers, which change the data of the cluster between its calls.
use logcabin_redis_proxy.Base.{
  ℕ, ◌≤◌, ◌≡◌, refl, List, ◌∷◌, length, arith, Bool, true, false, if◌then◌else◌, ◌⊎◌,
}
use logcabin_redis_proxy.Bytes.{Bytes, codes, equal, equal_iff}
use logcabin_redis_proxy.Handler.Atomic
use logcabin_redis_proxy.Handler.Calls.{Tree}
use logcabin_redis_proxy.Handler.Follows.{Follows, disturbed-Follows}
use logcabin_redis_proxy.Handler.Monad.{HandlerState, M}
use logcabin_redis_proxy.Handler.Shared.{disturbed, view, Once, Quiet-Once, enc-Quiet}
use logcabin_redis_proxy.Resp.{errors, EncodeResult}
use logcabin_redis_proxy.Server.Dispatch.{run_command, dispatch, to_uppercase}

-- A request whose handler makes one call of the cluster at most: RPUSH and LPUSH have one value, and
-- MGET has one key.
pub record MakesOneCall (command : Bytes) (args : List Bytes) : Type 0 where
  pub rpush : command ≡ codes "RPUSH" → length args ≤ 2
  pub lpush : command ≡ codes "LPUSH" → length args ≤ 2
  pub mget : command ≡ codes "MGET" → length args ≤ 1

module _ (other tree : Tree) (now later : other.World → tree.World)
    (follows : Follows other tree now later) where
  chosen :
      (b : Bool) {m n : M other.World EncodeResult} {m' n' : M tree.World EncodeResult}
      → (b ≡ true → Once now later m m')
      → Once now later n n'
      → Once now later (if b then m else n) (if b then m' else n')
  chosen true p q = p refl
  chosen false p q = q

  -- One command of the chain.
  branch :
      (command name : Bytes) {m n : M other.World EncodeResult} {m' n' : M tree.World EncodeResult}
      → (command ≡ name → Once now later m m')
      → Once now later n n'
      → Once now later (if equal command name then m else n) (if equal command name then m' else n')
  branch command name p q = chosen (equal command name) (λ e. p ((equal_iff command name).0 e)) q

  run_command-Once :
      (c name : Bytes) (args : List Bytes)
      → MakesOneCall c args
      → Once now later (run_command other c (name ∷ args)) (run_command tree c (name ∷ args))
  unfolding run_command
  run_command-Once c name args one =
      let request = name ∷ args in
      branch c (codes "RPUSH")
        (λ e.
          Atomic.handle_rpush_request-Once other tree now later follows request
            (omega (arith, one.rpush e)))
        (branch c (codes "SADD")
          (λ e. Atomic.handle_sadd_request-Once other tree now later follows request)
          (branch c (codes "SREM")
            (λ e. Atomic.handle_srem_request-Once other tree now later follows request)
            (branch c (codes "MGET")
              (λ e.
                Atomic.handle_mget_request-Once other tree now later follows request
                  (omega (arith, one.mget e)))
              (branch c (codes "SMEMBERS")
                (λ e. Atomic.handle_smembers_request-Once other tree now later follows request)
                (branch c (codes "SCARD")
                  (λ e. Atomic.handle_scard_request-Once other tree now later follows request)
                  (branch c (codes "LPUSH")
                    (λ e.
                      Atomic.handle_lpush_request-Once other tree now later follows request
                        (omega (arith, one.lpush e)))
                    (branch c (codes "LRANGE")
                      (λ e. Atomic.handle_lrange_request-Once other tree now later follows request)
                      (branch c (codes "LTRIM")
                        (λ e. Atomic.handle_ltrim_request-Once other tree now later follows request)
                        (branch c (codes "EXPIRE")
                          (λ e.
                            Atomic.handle_expire_request-Once other tree now later follows request)
                          (branch c (codes "SET")
                            (λ e.
                              Atomic.handle_set_request-Once other tree now later follows request)
                            (branch c (codes "GET")
                              (λ e.
                                Atomic.handle_get_request-Once other tree now later follows request)
                              (Quiet-Once now later
                                (enc-Quiet errors (codes "ERR unknown command"))))))))))))))

-- A request that makes one call of the cluster at most is handled by one worker while others change
-- the data between its steps in any way: `change n` is what they have done to it before the worker's
-- call number `n`. Its result, the data that it leaves and the turn of the connections are those of
-- the same request in one step, in the data at its start or in those that the others have left at
-- its call.
pub dispatch-atomic :
    (tree : Tree) (change : ℕ → tree.World → tree.World) (name : Bytes) (args : List Bytes)
    (s : HandlerState (tree.World × ℕ))
    → MakesOneCall (to_uppercase name) args
    → (w : tree.World) × ((w ≡ s.world.0) ⊎ (w ≡ change s.world.1 s.world.0))
      × (dispatch tree (name ∷ args) (record { ptree_counter = s.ptree_counter; world = w }) ≡ (
        (dispatch (disturbed tree change) (name ∷ args) s).0,
        view (λ v. v.0) (dispatch (disturbed tree change) (name ∷ args) s).1,
      ))
unfolding dispatch
dispatch-atomic tree change name args s one =
    (run_command-Once (disturbed tree change) tree _ _ (disturbed-Follows tree change)
        (to_uppercase name) name args one).once
      s
