-- ===== src/Handler/Turns.antt =====
-- The connections of the handler: its constructor in src/proxy/handler.h, and whose turn it is.
use logcabin_redis_proxy.Base.{
  ℕ, zero, suc, ◌+◌, ◌%◌, ◌<◌, ◌≡◌, refl, ap, ◌∙◌, List, [], ◌∷◌, Option, none, some, arith,
  get_elem?, length,
}
use logcabin_redis_proxy.Bytes.{Bytes}
use logcabin_redis_proxy.Handler.Calls.{get_tree}
use logcabin_redis_proxy.Handler.Monad.{returned, HandlerState, M, bind, ◌>>=◌, return}

-- `connect opts i` is `Cluster cluster(cluster_opts)` and its tree for `pTreeList[i]`; `none` is an
-- exception of the client.
module _ {W : Type 0} (connect : Bytes → ℕ → W → Option W) where
  abbrev pub and_then : Option W → (W → Option W) → Option W
  and_then none f = none
  and_then (some w) f = f w

  -- The `for` loop, with `left` rounds left, from `i`.
  unfoldable pub connect_from : ℕ → ℕ → Bytes → W → Option W
  connect_from zero i opts w = some w
  connect_from (suc left) i opts w = and_then (connect opts i w) (connect_from left (i + 1) opts)

  abbrev pub constructed : Option W → Option (HandlerState W)
  constructed none = none
  constructed (some w) = some (record { ptree_counter = 0; world = w })

  unfoldable pub new_handler : Bytes → W → Option (HandlerState W)
  new_handler cluster_opts w = constructed (connect_from 10 0 cluster_opts w)

-- `n` calls of `getTree`, one after the other.
abbrev pub get_trees : {W : Type 0} → ℕ → M W (List ℕ)
get_trees zero = return []
get_trees (suc n) = do t ← get_tree; ts ← get_trees n; return (t ∷ ts)

first_or_later :
    (c n k : ℕ) (ts : List ℕ)
    → ((j : ℕ) → j < n → get_elem? ts j ≡ some (((c + 1) % 10 + j) % 10))
    → k < suc n
    → get_elem? (c % 10 ∷ ts) k ≡ some ((c + k) % 10)
first_or_later c n zero ts at b = ap some (omega arith)
first_or_later c n (suc k) ts at b = at k (omega (arith, b)) ∙ ap some (omega arith)

-- Where the counter is below 10, as a new handler has it, any number of calls of `getTree` return: the
-- k-th gets the connection that is `k` places behind the counter's, going round from 9 to 0, which is
-- one of the ten that the constructor made; and the counter ends below 10.
pub get_tree-turns :
    {W : Type 0} (n : ℕ) (s : HandlerState W)
    → s.ptree_counter < 10
    → (ts : List ℕ) × (get_trees n s
        ≡ (returned ts, record s { ptree_counter = (s.ptree_counter + n) % 10 }))
      × (length ts ≡ n)
      × ((k : ℕ) → k < n → get_elem? ts k ≡ some ((s.ptree_counter + k) % 10))
unfolding get_tree
get_tree-turns zero s h = (
  [],
  ap (λ c. (returned [], record s { ptree_counter = c })) (omega (arith, h)),
  refl,
  λ k l. absurd (omega (arith, l)),
)
get_tree-turns (suc n) s h =
    let next = record s { ptree_counter = (s.ptree_counter + 1) % 10 } in
    let (ts, e, l, at) = get_tree-turns n next (omega arith) in
    (
      s.ptree_counter % 10 ∷ ts,
      ap (λ r. bind r (λ us. return (s.ptree_counter % 10 ∷ us))) e
          ∙ ap (λ c. (returned (s.ptree_counter % 10 ∷ ts), record s { ptree_counter = c }))
              (omega arith),
      ap suc l,
      λ k b. first_or_later s.ptree_counter n k ts at b,
    )
