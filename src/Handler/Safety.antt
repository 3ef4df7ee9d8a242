-- ===== src/Handler/Safety.antt =====
-- The answers of each handler of src/proxy/handler.cc, by the rules of `Handler.Safe`.
use logcabin_redis_proxy.Base.{
  ℕ, suc, ap, inr, All, All-map, map, ◌-◌, ◌≢◌, ◌≡◌, refl, List, [], ◌∷◌, ◌++◌, length, drop, arith,
  ltb,
}
use logcabin_redis_proxy.Bytes.{Bytes, codes}
use logcabin_redis_proxy.Handler.Answers.{
  listed, Answers, handled, enc-Safe, arrays-Safe, by_status-Safe, wrong_number-Safe, at_least,
  exactly, not_short,
}
use logcabin_redis_proxy.Handler.Calls.{Tree, wrong_number}
use logcabin_redis_proxy.Handler.Reads.{
  handle_scard_request, handle_get_request, handle_mget_request, handle_smembers_request,
  handle_lrange_request, mget_one, mget_all,
}
use logcabin_redis_proxy.Handler.Safe.{
  Safe, bind-Safe, return-Safe, get_tree-Safe, call-Safe, call-Safe_of, if-Safe, catch_lookup-Safe,
  push_all-Safe,
}
use logcabin_redis_proxy.Handler.Types.{
  status, change, value, values, members, range, done, changed, found, missing, found_all,
  all_members, elements, no_list, IsValue, answer_of,
}
use logcabin_redis_proxy.Handler.Writes.{
  handle_sadd_request, handle_srem_request, handle_lpush_request, handle_set_request,
  handle_rpush_request, handle_ltrim_request, handle_expire_request,
}
use logcabin_redis_proxy.Num.{atoi}
use logcabin_redis_proxy.Resp.Replies.Encoding.{item_of, length-map, list-eq-print_answer}
use logcabin_redis_proxy.Resp.Replies.{many, no_cr}
use logcabin_redis_proxy.Resp.{arrays, RedisTypeValuePair}

-- What the cluster has returned for some key.
abbrev pub Fetched : Tree → Bytes → Type 0
Fetched tree v = (t : ℕ) × (key : Bytes) × (w : tree.World) × ((tree.read_ex t key w).0 ≡ inr v)

-- An entry of the answer to MGET.
IsPair : Tree → RedisTypeValuePair → Type 0
IsPair tree pair = (pair.type ≢ arrays) × IsValue (Fetched tree) (item_of pair)

length-drop_one : (args : List Bytes) → length (drop 1 args) ≡ length args - 1
length-drop_one [] = refl
length-drop_one (a ∷ args) = omega arith

All-of_map :
    {A B : Type 0} (f : A → B) (P : B → Type 0) (xs : List A)
    → All (λ x. P (f x)) xs
    → All P (map f xs)
All-of_map f P [] h = tt
All-of_map f P (x ∷ xs) h = (h.0, All-of_map f P xs h.1)

module _ (tree : Tree) where
  open tree use {World}

  mget_one-Safe : (key : Bytes) → Safe (IsPair tree) (mget_one tree key)
  unfolding mget_one IsPair IsValue
  mget_one-Safe key =
      catch_lookup-Safe
        (bind-Safe get_tree-Safe λ t _.
          bind-Safe (call-Safe_of {P = Fetched tree} (tree.read_ex t key) λ v w e. (t, key, w, e))
            λ r p. return-Safe ((λ e. cc), p))
        (return-Safe ((λ e. cc), tt))

  mget_all-Safe :
      (keys : List Bytes)
      → Safe (λ ps. (length ps ≡ length keys) × All (IsPair tree) ps) (mget_all tree keys)
  unfolding mget_all
  mget_all-Safe [] = return-Safe (refl, tt)
  mget_all-Safe (key ∷ keys) =
      bind-Safe (mget_one-Safe key)
        λ p one. bind-Safe (mget_all-Safe keys) λ ps all. return-Safe (ap suc all.0, (one, all.1))

  module _ (args : List Bytes) where
    pub handle_sadd_request-Answers :
        Answers (Fetched tree) (length args) change (handle_sadd_request tree args)
    unfolding handle_sadd_request no_cr answer_of
    handle_sadd_request-Answers = handled _ (
        if-Safe (λ h. wrong_number-Safe (codes "sadd") refl)
          λ h. bind-Safe (at_least args 1 3 h (omega arith)) λ a1 _. bind-Safe get_tree-Safe λ t _.
            bind-Safe (call-Safe (tree.sadd_ex t a1 (drop 2 args))) λ r _. enc-Safe _ _ changed)

    pub handle_srem_request-Answers :
        Answers (Fetched tree) (length args) change (handle_srem_request tree args)
    unfolding handle_srem_request no_cr answer_of
    handle_srem_request-Answers = handled _ (
        if-Safe (λ h. wrong_number-Safe (codes "srem") refl)
          λ h. bind-Safe (exactly args 1 3 h (omega arith)) λ a1 _. bind-Safe get_tree-Safe λ t _.
            bind-Safe (exactly args 2 3 h (omega arith))
              λ a2 _. bind-Safe (call-Safe (tree.srem_ex t a1 a2)) λ r _. enc-Safe _ _ changed)

    pub handle_lpush_request-Answers :
        Answers (Fetched tree) (length args) change (handle_lpush_request tree args)
    unfolding handle_lpush_request no_cr answer_of
    handle_lpush_request-Answers = handled _ (
        if-Safe (λ h. wrong_number-Safe (codes "lpush") refl)
          λ h. bind-Safe (at_least args 1 3 h (omega arith)) λ a1 _.
            bind-Safe (push_all-Safe tree.lpush_ex a1 (drop 2 args)) λ r _. enc-Safe _ _ changed)

    pub handle_rpush_request-Answers :
        Answers (Fetched tree) (length args) change (handle_rpush_request tree args)
    unfolding handle_rpush_request no_cr answer_of
    handle_rpush_request-Answers = handled _ (
        if-Safe (λ h. wrong_number-Safe (codes "rpush") refl)
          λ h. bind-Safe (at_least args 1 3 h (omega arith)) λ a1 _.
            bind-Safe (push_all-Safe tree.rpush_ex a1 (drop 2 args)) λ r _. enc-Safe _ _ changed)

    pub handle_set_request-Answers :
        Answers (Fetched tree) (length args) status (handle_set_request tree args)
    unfolding handle_set_request no_cr answer_of
    handle_set_request-Answers = handled _ (
        if-Safe (λ h. wrong_number-Safe (codes "set") refl)
          λ h. bind-Safe (at_least args 1 3 h (omega arith)) λ a1 _. bind-Safe get_tree-Safe λ t _.
            bind-Safe (at_least args 2 3 h (omega arith))
              λ a2 _. bind-Safe (call-Safe (tree.write_ex t a1 a2)) λ r _. enc-Safe _ _ done)

    pub handle_ltrim_request-Answers :
        Answers (Fetched tree) (length args) status (handle_ltrim_request tree args)
    unfolding handle_ltrim_request no_cr answer_of
    handle_ltrim_request-Answers = handled _ (
        if-Safe (λ h. wrong_number-Safe (codes "ltrim") refl)
          λ h. bind-Safe get_tree-Safe λ t _. bind-Safe (exactly args 1 4 h (omega arith)) λ a1 _.
            bind-Safe (exactly args 2 4 h (omega arith)) λ a2 _.
              bind-Safe (exactly args 3 4 h (omega arith)) λ a3 _.
                bind-Safe (call-Safe (tree.ltrim t a1 (a2 ++ (codes " " ++ a3))))
                  λ r _. by_status-Safe (codes "ltrim") r refl)

    pub handle_expire_request-Answers :
        Answers (Fetched tree) (length args) status (handle_expire_request tree args)
    unfolding handle_expire_request no_cr answer_of
    handle_expire_request-Answers = handled _ (
        if-Safe (λ h. wrong_number-Safe (codes "expire") refl)
          λ h. bind-Safe get_tree-Safe λ t _. bind-Safe (exactly args 1 3 h (omega arith)) λ a1 _.
            bind-Safe (exactly args 2 3 h (omega arith)) λ a2 _.
              bind-Safe (call-Safe (tree.expire t a1 (atoi a2)))
                λ r _. by_status-Safe (codes "expire") r refl)

    pub handle_scard_request-Answers :
        Answers (Fetched tree) (length args) value (handle_scard_request tree args)
    unfolding handle_scard_request no_cr answer_of
    handle_scard_request-Answers = handled _ (
        catch_lookup-Safe
          (if-Safe (λ h. wrong_number-Safe (codes "read") refl)
            λ h. bind-Safe get_tree-Safe λ t _.
              bind-Safe (exactly args 1 2 h (omega arith))
                λ a1 _. bind-Safe (call-Safe (tree.scard t a1)) λ r _. enc-Safe _ _ (found _))
          (enc-Safe _ _ missing))

    pub handle_get_request-Answers :
        Answers (Fetched tree) (length args) value (handle_get_request tree args)
    unfolding handle_get_request no_cr answer_of
    handle_get_request-Answers = handled _ (
        catch_lookup-Safe
          (if-Safe (λ h. wrong_number-Safe (codes "read") refl)
            λ h. bind-Safe get_tree-Safe λ t _.
              bind-Safe (exactly args 1 2 h (omega arith))
                λ a1 _. bind-Safe (call-Safe (tree.read_ex t a1)) λ r _. enc-Safe _ _ (found _))
          (enc-Safe _ _ missing))

    pub handle_mget_request-Answers :
        Answers (Fetched tree) (length args) values (handle_mget_request tree args)
    unfolding handle_mget_request no_cr answer_of IsPair
    handle_mget_request-Answers = handled _ (
        if-Safe {b = ltb (length args) 2} {m = wrong_number (codes "smembers")}
          (λ h. wrong_number-Safe (codes "smembers") refl)
          λ h. bind-Safe (mget_all-Safe (drop 1 args)) λ ps (count, all). return-Safe (record {
            is_reply = listed ps refl;
            answer = many (map item_of ps);
            is_printed = list-eq-print_answer ps (All-map (IsPair tree) _ ps (λ pair p. p.0) all);
            typed =
                found_all (map item_of ps)
                  (omega (
                    arith,
                    length-map item_of ps,
                    count,
                    length-drop_one args,
                    not_short (length args) 2 h,
                  ))
                  (All-of_map item_of (IsValue (Fetched tree)) ps
                    (All-map (IsPair tree) _ ps (λ pair p. p.1) all));
          }))

    pub handle_smembers_request-Answers :
        Answers (Fetched tree) (length args) members (handle_smembers_request tree args)
    unfolding handle_smembers_request no_cr answer_of
    handle_smembers_request-Answers = handled _ (
        if-Safe (λ h. wrong_number-Safe (codes "smembers") refl)
          λ h. bind-Safe get_tree-Safe λ t _.
            bind-Safe (exactly args 1 2 h (omega arith)) λ a1 _.
              bind-Safe (call-Safe (tree.smembers t a1)) λ r _. arrays-Safe r (all_members r))

    pub handle_lrange_request-Answers :
        Answers (Fetched tree) (length args) range (handle_lrange_request tree args)
    unfolding handle_lrange_request no_cr answer_of
    handle_lrange_request-Answers = handled _ (
        catch_lookup-Safe
          (if-Safe (λ h. wrong_number-Safe (codes "lrange") refl)
            λ h. bind-Safe get_tree-Safe λ t _. bind-Safe (exactly args 1 4 h (omega arith)) λ a1 _.
              bind-Safe (exactly args 2 4 h (omega arith)) λ a2 _.
                bind-Safe (exactly args 3 4 h (omega arith)) λ a3 _.
                  bind-Safe (call-Safe (tree.lrange t a1 (a2 ++ (codes " " ++ a3))))
                    λ r _. arrays-Safe r (elements r))
          (enc-Safe _ _ no_list))
