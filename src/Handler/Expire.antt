-- ===== src/Handler/Expire.antt =====
-- EXPIRE with its seconds, which `atoi` reads.
use logcabin_redis_proxy.Base.{ℕ, ◌+◌, ◌%◌, ◌^◌, ◌<◌, ◌≡◌, refl, ◌∙◌, [], ◌∷◌, lt→ltb, arith}
use logcabin_redis_proxy.Bytes.{Bytes, codes}
use logcabin_redis_proxy.Handler.Calls.{Tree, get_tree, try_catch, by_status}
use logcabin_redis_proxy.Handler.Monad.{HandlerState, call, ◌>>=◌}
use logcabin_redis_proxy.Handler.Writes.{handle_expire_request}
use logcabin_redis_proxy.Num.RoundTrip.{strtol-to_string}
use logcabin_redis_proxy.Num.{to_string, atoi, to_int}

atoi-to_string : (n : ℕ) → n < 2 ^ 63 → atoi (to_string n) ≡ to_int n
unfolding atoi
atoi-to_string n h = rw (strtol-to_string n, lt→ltb n (2 ^ 63) h) refl

mod_again : (n : ℕ) → n % 2 ^ 32 % 2 ^ 32 ≡ n % 2 ^ 32
mod_again n = omega arith

to_int-mod : (n : ℕ) → to_int (n % 2 ^ 32) ≡ to_int n
to_int-mod n = rw (mod_again n) refl

module _ (tree : Tree) where
  open tree use {World}

  -- EXPIRE with a number of seconds below 2^63 has the key expire in the number of seconds that the low 32
  -- bits are as an `int`, and answers by the status of this call: it does the same as EXPIRE with the
  -- remainder of the number modulo 2^32, and 2^32 seconds are none.
  pub handle_expire_request-wraps :
      (command key : Bytes) (n : ℕ) (s : HandlerState World)
      → n < 2 ^ 63
      → (handle_expire_request tree (command ∷ key ∷ to_string n ∷ []) s
          ≡ try_catch
              (do
                status ← call (tree.expire (s.ptree_counter % 10) key (to_int n))
                by_status (codes "expire") status)
              (record s { ptree_counter = (s.ptree_counter + 1) % 10 }))
        × (handle_expire_request tree (command ∷ key ∷ to_string n ∷ []) s
            ≡ handle_expire_request tree (command ∷ key ∷ to_string (n % 2 ^ 32) ∷ []) s)
  unfolding handle_expire_request get_tree
  handle_expire_request-wraps command key n s h =
      let e = atoi-to_string n h in
      let e' = atoi-to_string (n % 2 ^ 32) (omega arith) ∙ to_int-mod n in
      (rw e refl, rw (e, e') refl)
