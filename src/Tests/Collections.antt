-- ===== src/Tests/Collections.antt =====
-- Sets and lists of a small cluster, at which the theorems on their commands are applied.
use mathlib.Core.Option.{some-injective}
use logcabin_redis_proxy.Base.{
  ◌≡◌, refl, List, [], ◌∷◌, ◌++◌, inr, map, take, some, Bool, true, false, not, ◌||◌, ◌&&◌,
  if◌then◌else◌, arith, Bool-cases, inl, ap, subst, sym,
}
use logcabin_redis_proxy.Bytes.{Bytes, codes, equal, equal_iff}
use logcabin_redis_proxy.Handler.Calls.{Tree, ok, invalid_argument}
use logcabin_redis_proxy.Handler.Ranges.{
  IsRangeStore, range, handle_lrange_request-handle_ltrim_request,
}
use logcabin_redis_proxy.Handler.Monad.{HandlerState}
use logcabin_redis_proxy.Handler.ReadBack.{ReadsAs}
use logcabin_redis_proxy.Handler.Reads.{handle_smembers_request, handle_lrange_request}
use logcabin_redis_proxy.Handler.Sets.{IsSetStore, has, handle_smembers_request-after}
use logcabin_redis_proxy.Handler.Writes.{
  handle_sadd_request, handle_srem_request, handle_ltrim_request,
}
use logcabin_redis_proxy.Resp.Replies.{one, many, simple, bulk_string}
use logcabin_redis_proxy.Tests.Fixtures.{
  Data, empty, small_tree, fresh_state, equal_self, equal_other, write_list,
}

abbrev without : Bytes → List Bytes → List Bytes
without v [] = []
without v (y ∷ ys) = let rest = without v ys in if equal y v then rest else y ∷ rest

-- The lists of the data are the sets.
abbrev set_tree : Tree
set_tree = record small_tree {
  sadd_ex = λ t key vs d. (inr tt, write_list key (vs ++ d.lists key) d);
  srem_ex = λ t key v d. (inr tt, write_list key (without v (d.lists key)) d);
}

has-append : (x : Bytes) (vs l : List Bytes) → has x (vs ++ l) ≡ (has x l || has x vs)
unfolding has
has-append x [] l = ground arith
has-append x (v ∷ vs) l = ground (arith, has-append x vs l)

another : (x y v : Bytes) → equal y v ≡ false → equal x y ≡ true → equal x v ≡ false
another x y v e h = subst (λ z. equal z v ≡ false) (sym ((equal_iff x y).0 h)) e

has-without : (x v : Bytes) (l : List Bytes) → has x (without v l) ≡ (has x l && not (equal x v))
unfolding has
has-without x v [] = refl
has-without x v (y ∷ l) = elim (Bool-cases (equal y v)) [
  | inl e ↦ rw e (ground (arith, has-without x v l, ap (equal x) ((equal_iff y v).0 e)))
  | inr e ↦ rw e (ground (arith, has-without x v l, another x y v e))
]

set_tree-IsSetStore : IsSetStore set_tree (λ d. d.lists)
set_tree-IsSetStore = record {
  lists = λ t key w. refl;
  adds = λ t key vs w. refl;
  added = λ t key vs w x. rw (equal_self key) (has-append x vs (w.lists key));
  removes = λ t key v w. refl;
  removed = λ t key v w x. rw (equal_self key) (has-without x v (w.lists key));
  others = λ t key v k vs w h. (rw (equal_other key k h) refl, rw (equal_other key k h) refl);
}

handle_smembers_request-after_example :
    let added =
      handle_sadd_request set_tree
        (codes "SADD" ∷ codes "k" ∷ codes "a" ∷ codes "b" ∷ [])
        fresh_state in
    let removed =
      handle_srem_request set_tree (codes "SREM" ∷ codes "k" ∷ codes "a" ∷ []) fresh_state in
    ReadsAs added.0 (one (bulk_string (codes "1")))
    × ReadsAs removed.0 (one (bulk_string (codes "1")))
    × ((ms : List Bytes) × ReadsAs
          (handle_smembers_request set_tree (codes "SMEMBERS" ∷ codes "k" ∷ []) added.1).0
          (many (map bulk_string ms))
        × ((x : Bytes) → has x ms ≡ (has x [] || has x (codes "a" ∷ codes "b" ∷ []))))
    × ((ms : List Bytes) × ReadsAs
          (handle_smembers_request set_tree (codes "SMEMBERS" ∷ codes "k" ∷ []) removed.1).0
          (many (map bulk_string ms))
        × ((x : Bytes) → has x ms ≡ (has x [] && not (equal x (codes "a")))))
    × ReadsAs (handle_smembers_request set_tree (codes "SMEMBERS" ∷ [] ∷ []) added.1).0 (many [])
    × ReadsAs (handle_smembers_request set_tree (codes "SMEMBERS" ∷ [] ∷ []) removed.1).0 (many [])
handle_smembers_request-after_example =
    handle_smembers_request-after set_tree (λ d. d.lists) set_tree-IsSetStore (codes "SADD")
      (codes "SREM") (codes "SMEMBERS") (codes "k") (codes "a") [] (codes "b" ∷ []) fresh_state
      (λ e. cc)

-- Two ranges are valid: the first element, and all of them.
abbrev first_or_all : Bytes → Bool
first_or_all r = equal r (range (codes "0") (codes "0")) || equal r (range (codes "0") (codes "-1"))

abbrev part_of : Bytes → List Bytes → List Bytes
part_of r l = if equal r (range (codes "0") (codes "0")) then take 1 l else l

abbrev range_tree : Tree
range_tree = record small_tree {
  lrange = λ t key r d. (inr (part_of r (d.lists key)), d);
  ltrim = λ t key r d.
      if first_or_all r
      then (inr ok, write_list key (part_of r (d.lists key)) d)
      else (inr invalid_argument, d);
}

range_tree-IsRangeStore : IsRangeStore range_tree (λ d key. some (d.lists key)) first_or_all part_of
range_tree-IsRangeStore = record {
  ranges = λ t key r w l h e. ap (λ x. (inr (part_of r x), w)) (some-injective _ _ e);
  trims = λ t key r w l h e. rw h refl;
  trimmed = λ t key r w l h e. rw (h, equal_self key, some-injective _ _ e) refl;
  rejects = λ t key r w h. rw h refl;
}

abbrev listed_state : HandlerState Data
listed_state = record {
  ptree_counter = 9;
  world = record empty { lists = λ k. codes "a" ∷ codes "b" ∷ [] };
}

handle_lrange_request-handle_ltrim_request_example :
    ReadsAs
      (handle_lrange_request range_tree
        (codes "LRANGE" ∷ codes "k" ∷ codes "0" ∷ codes "-1" ∷ [])
        listed_state).0
      (many (bulk_string (codes "a") ∷ bulk_string (codes "b") ∷ []))
    × ReadsAs
        (handle_ltrim_request range_tree
          (codes "LTRIM" ∷ codes "k" ∷ codes "0" ∷ codes "0" ∷ [])
          listed_state).0
        (one (simple (codes "OK")))
    × ReadsAs
        (handle_lrange_request range_tree
          (codes "LRANGE" ∷ codes "k" ∷ codes "0" ∷ codes "-1" ∷ [])
          (handle_ltrim_request range_tree
            (codes "LTRIM" ∷ codes "k" ∷ codes "0" ∷ codes "0" ∷ [])
            listed_state).1).0
        (many (bulk_string (codes "a") ∷ []))
unfolding equal
handle_lrange_request-handle_ltrim_request_example =
    handle_lrange_request-handle_ltrim_request range_tree (λ d key. some (d.lists key)) first_or_all
      part_of range_tree-IsRangeStore (codes "LTRIM") (codes "LRANGE") (codes "k") (codes "0")
      (codes "0") (codes "0") (codes "-1") listed_state (codes "a" ∷ codes "b" ∷ []) refl refl
