-- ===== src/Handler/Ranges.antt =====
-- LTRIM and LRANGE on a cluster that keeps a list for a key, as a client reads the answers.

use logcabin_redis_proxy.Base.{
  ℕ, ◌%◌, ◌≡◌, refl, ap, ◌∙◌, List, [], ◌∷◌, ◌++◌, inl, inr, map, Option, some, length, false, true,
  Bool, Bool-cases,
}
use logcabin_redis_proxy.Bytes.{Bytes, codes, crlf}
use logcabin_redis_proxy.Handler.Calls.{Tree, TreeStatus, invalid_argument, get_tree}
use logcabin_redis_proxy.Handler.Calls
use logcabin_redis_proxy.Handler.Monad.{HandlerState}
use logcabin_redis_proxy.Handler.ReadBack.{ReadsAs, printed-ReadsAs, values-IsReadable}
use logcabin_redis_proxy.Handler.Reads.{handle_lrange_request}
use logcabin_redis_proxy.Handler.Writes.{handle_ltrim_request}
use logcabin_redis_proxy.Num.{to_string}
use logcabin_redis_proxy.Resp.Encoder.{encode, line, bulks}
use logcabin_redis_proxy.Resp.Replies.Encoding.{bulks-eq-print_answer}
use logcabin_redis_proxy.Resp.Replies.{
  Answer, one, many, simple, error, bulk_string, print_answer, print_item, IsReadable,
  IsReadableItem, no_cr,
}
use logcabin_redis_proxy.Resp.{ok}

-- The two ends of a range, as the handlers pass them on.
abbrev pub range : Bytes → Bytes → Bytes
range from to = from ++ (codes " " ++ to)

-- What the calls of the cluster's client promise, where the network does not fail, of a key that has a
-- list: `elements` has the list of each key that has one, `slice` the part of a list in a range, and
-- LTRIM with a range that is not valid is refused and changes nothing.
pub record IsRangeStore (tree : Tree) (elements : tree.World → Bytes → Option (List Bytes))
    (valid : Bytes → Bool) (slice : Bytes → List Bytes → List Bytes) : Type 0 where
  pub ranges :
      (t : ℕ) (key r : Bytes) (w : tree.World) (l : List Bytes)
      → valid r ≡ true
      → elements w key ≡ some l
      → tree.lrange t key r w ≡ (inr (slice r l), w)
  pub trims :
      (t : ℕ) (key r : Bytes) (w : tree.World) (l : List Bytes)
      → valid r ≡ true
      → elements w key ≡ some l
      → (tree.ltrim t key r w).0 ≡ inr Calls.ok
  pub trimmed :
      (t : ℕ) (key r : Bytes) (w : tree.World) (l : List Bytes)
      → valid r ≡ true
      → elements w key ≡ some l
      → elements (tree.ltrim t key r w).1 key ≡ some (slice r l)
  pub rejects :
      (t : ℕ) (key r : Bytes) (w : tree.World)
      → valid r ≡ false
      → tree.ltrim t key r w ≡ (inr invalid_argument, w)

-- The error of LTRIM.
abbrev pub invalid_range : Bytes
invalid_range = codes "ERR invalid arguments for 'ltrim' command"

-- What LTRIM leaves of a list, and its answer.
abbrev pub left : Bool → (List Bytes → List Bytes) → List Bytes → List Bytes
left true part l = part l
left false part l = l

abbrev pub trim_answer : Bool → Answer
trim_answer true = one (simple (codes "OK"))
trim_answer false = one (error invalid_range)

module _ (tree : Tree) (elements : tree.World → Bytes → Option (List Bytes)) (valid : Bytes → Bool)
    (slice : Bytes → List Bytes → List Bytes) (store : IsRangeStore tree elements valid slice) where
  open tree use {World}

  lrange-ReadsAs :
      (command key from to : Bytes) (s : HandlerState World) (l : List Bytes)
      → valid (range from to) ≡ true
      → elements s.world key ≡ some l
      → ReadsAs
          (handle_lrange_request tree (command ∷ key ∷ from ∷ to ∷ []) s).0
          (many (map bulk_string (slice (range from to) l)))
  unfolding handle_lrange_request get_tree encode
  lrange-ReadsAs command key from to s l h e =
      let part = slice (range from to) l in
      printed-ReadsAs (many (map bulk_string part))
        (record {
          status = ok;
          response = line (codes "*") (to_string (length part)) ++ bulks part;
        })
        (rw (store.ranges (s.ptree_counter % 10) key (range from to) s.world l h e) refl)
        (bulks-eq-print_answer part) (values-IsReadable part)

  ltrim_valid :
      (command key from to : Bytes) (s : HandlerState World) (l : List Bytes)
      → valid (range from to) ≡ true
      → elements s.world key ≡ some l
      → ReadsAs
          (handle_ltrim_request tree (command ∷ key ∷ from ∷ to ∷ []) s).0
          (one (simple (codes "OK")))
        × ((handle_ltrim_request tree (command ∷ key ∷ from ∷ to ∷ []) s).1.world
            ≡ (tree.ltrim (s.ptree_counter % 10) key (range from to) s.world).1)
  unfolding handle_ltrim_request get_tree encode line print_answer print_item IsReadable
      IsReadableItem no_cr
  ltrim_valid command key from to s l h at =
      let e = store.trims (s.ptree_counter % 10) key (range from to) s.world l h at in
      (
        printed-ReadsAs (one (simple (codes "OK")))
            (record { status = ok; response = codes "+OK" ++ crlf }) (rw e refl) refl refl,
        rw e refl,
      )

  ltrim_invalid :
      (command key from to : Bytes) (s : HandlerState World)
      → valid (range from to) ≡ false
      → ReadsAs
          (handle_ltrim_request tree (command ∷ key ∷ from ∷ to ∷ []) s).0
          (one (error invalid_range))
        × ((handle_ltrim_request tree (command ∷ key ∷ from ∷ to ∷ []) s).1.world ≡ s.world)
  unfolding handle_ltrim_request get_tree encode line print_answer print_item IsReadable
      IsReadableItem no_cr
  ltrim_invalid command key from to s h =
      let e = store.rejects (s.ptree_counter % 10) key (range from to) s.world h in
      (
        printed-ReadsAs (one (error invalid_range))
            (record { status = ok; response = codes "-" ++ (invalid_range ++ crlf) }) (rw e refl)
            refl refl,
        rw e refl,
      )

  -- What LTRIM leaves of the key's list, and its answer.
  ltrim_lem :
      (command key from to : Bytes) (s : HandlerState World) (l : List Bytes)
      → elements s.world key ≡ some l
      → ReadsAs
          (handle_ltrim_request tree (command ∷ key ∷ from ∷ to ∷ []) s).0
          (trim_answer (valid (range from to)))
        × (elements (handle_ltrim_request tree (command ∷ key ∷ from ∷ to ∷ []) s).1.world key
            ≡ some (left (valid (range from to)) (slice (range from to)) l))
  ltrim_lem command key from to s l at = elim (Bool-cases (valid (range from to))) [
    | inl h ↦
        let (read, w) = ltrim_valid command key from to s l h at in
        rw h (
          read,
          ap (λ x. elements x key) w
              ∙ store.trimmed (s.ptree_counter % 10) key (range from to) s.world l h at,
        )
    | inr h ↦
        let (read, w) = ltrim_invalid command key from to s h in
        rw h (read, ap (λ x. elements x key) w ∙ at)
  ]

  -- On a cluster that keeps lists and whose network does not fail, for a key that has a list, and a range
  -- of LRANGE that is valid: LRANGE is read as the elements of the list in its range. LTRIM with a valid
  -- range is read as "OK", and LRANGE behind it has the elements in its range of those in the range of
  -- LTRIM; LTRIM with a range that is not valid is read as an error, and LRANGE behind it is as before.
  pub handle_lrange_request-handle_ltrim_request :
      (ltrim lrange key from to first last : Bytes) (s : HandlerState World) (l : List Bytes)
      → valid (range first last) ≡ true
      → elements s.world key ≡ some l
      → ReadsAs
          (handle_lrange_request tree (lrange ∷ key ∷ first ∷ last ∷ []) s).0
          (many (map bulk_string (slice (range first last) l)))
        × ReadsAs
            (handle_ltrim_request tree (ltrim ∷ key ∷ from ∷ to ∷ []) s).0
            (trim_answer (valid (range from to)))
        × ReadsAs
            (handle_lrange_request tree
              (lrange ∷ key ∷ first ∷ last ∷ [])
              (handle_ltrim_request tree (ltrim ∷ key ∷ from ∷ to ∷ []) s).1).0
            (many (
              map bulk_string (
                slice (range first last) (left (valid (range from to)) (slice (range from to)) l))))
  handle_lrange_request-handle_ltrim_request ltrim lrange key from to first last s l h at =
      let s' = (handle_ltrim_request tree (ltrim ∷ key ∷ from ∷ to ∷ []) s).1 in
      let (read, after) = ltrim_lem ltrim key from to s l at in
      (
        lrange-ReadsAs lrange key first last s l h at,
        read,
        lrange-ReadsAs lrange key first last s' _ h after,
      )
