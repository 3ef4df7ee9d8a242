-- ===== src/Handler/Types.antt =====
-- What kind of reply each command of src/proxy/handler.cc has, as the protocol's own terms.
use logcabin_redis_proxy.Base.{
  ℕ, suc, ◌≡◌, refl, true, List, [], ◌∷◌, length, map, take, All, All-map, if◌then◌else◌,
}
use logcabin_redis_proxy.Bytes.{Bytes, codes, equal}
use logcabin_redis_proxy.Resp.Replies.{
  Item, simple, error, bulk_string, null, Answer, one, many, no_cr, IsReadableItem, IsReadable,
}
use logcabin_redis_proxy.Resp.{
  RespType, simple_strings, errors, integers, bulk_strings, bulk_nil, arrays,
}

-- A status; "1" for a change; one value or none; the values of several keys; the members of a set;
-- a part of a list; nothing but an error.
pub data ReplyType : Type 0 where
  status change value values members range only_error : ReplyType

-- The replies of the commands that the proxy has.
abbrev reply_types : List (Bytes × ReplyType)
reply_types =
    (codes "SET", status)
    ∷ (codes "LTRIM", status)
    ∷ (codes "EXPIRE", status)
    ∷ (codes "SADD", change)
    ∷ (codes "SREM", change)
    ∷ (codes "LPUSH", change)
    ∷ (codes "RPUSH", change)
    ∷ (codes "SCARD", value)
    ∷ (codes "GET", value)
    ∷ (codes "MGET", values)
    ∷ (codes "SMEMBERS", members)
    ∷ (codes "LRANGE", range)
    ∷ []

unfoldable pub find_type : List (Bytes × ReplyType) → Bytes → ReplyType
find_type [] command = only_error
find_type ((name, t) ∷ types) command =
    let later = find_type types command in if equal command name then t else later

-- `command` is in upper case.
unfoldable pub reply_type : Bytes → ReplyType
unfolding find_type
reply_type command = find_type reply_types command

-- A value that was read, or none.
unfoldable pub IsValue : (Bytes → Type 0) → Item → Type 0
IsValue Read (simple text) = Read text
IsValue Read null = Unit
IsValue Read _ = ⊥

-- An answer of a type to a request of `n` elements; `Read` is what the cluster has for a value.
-- Every type has errors: a text of one line that begins with "ERR ".
pub data HasType (Read : Bytes → Type 0) (n : ℕ) : ReplyType → Answer → Type 0 where
  failed :
      {t : ReplyType} {text : Bytes}
      → take 4 text ≡ codes "ERR "
      → no_cr text ≡ true
      → HasType Read n t (one (error text))
  done : HasType Read n status (one (simple (codes "OK")))
  changed : HasType Read n change (one (bulk_string (codes "1")))
  found : (v : Bytes) → HasType Read n value (one (bulk_string v))
  missing : HasType Read n value (one null)
  found_all :
      (items : List Item)
      → suc (length items) ≡ n
      → All (IsValue Read) items
      → HasType Read n values (many items)
  all_members : (vs : List Bytes) → HasType Read n members (many (map bulk_string vs))
  elements : (vs : List Bytes) → HasType Read n range (many (map bulk_string vs))
  no_list : HasType Read n range (one null)

pub bulk-IsReadable : (vs : List Bytes) → All IsReadableItem (map bulk_string vs)
unfolding IsReadableItem
bulk-IsReadable [] = tt
bulk-IsReadable (v ∷ vs) = (tt, bulk-IsReadable vs)

module _ (Read : Bytes → Type 0) where
  IsValue-IsReadable :
      ((v : Bytes) → Read v → no_cr v ≡ true) → (i : Item) → IsValue Read i → IsReadableItem i
  unfolding IsValue IsReadableItem
  IsValue-IsReadable text (simple v) r = text v r
  IsValue-IsReadable text (error v) r = absurd r
  IsValue-IsReadable text _ r = tt

  -- An answer that has a type can be read; for the values of several keys, the cluster's values have
  -- to be of one line.
  pub HasType-IsReadable :
      {n : ℕ} {t : ReplyType} {a : Answer}
      → (t ≡ values → (v : Bytes) → Read v → no_cr v ≡ true)
      → HasType Read n t a
      → IsReadable a
  unfolding IsReadable IsReadableItem no_cr
  HasType-IsReadable text (failed start line) = line
  HasType-IsReadable text done = refl
  HasType-IsReadable text changed = tt
  HasType-IsReadable text (found v) = tt
  HasType-IsReadable text missing = tt
  HasType-IsReadable text (found_all items same all) =
      All-map (IsValue Read) IsReadableItem items (IsValue-IsReadable (text refl)) all
  HasType-IsReadable text (all_members vs) = bulk-IsReadable vs
  HasType-IsReadable text (elements vs) = bulk-IsReadable vs
  HasType-IsReadable text no_list = tt

-- What the encoder's arguments stand for.
unfoldable pub answer_of : RespType → Bytes → Answer
answer_of simple_strings text = one (simple text)
answer_of errors text = one (error text)
answer_of integers text = one (bulk_string text)
answer_of bulk_strings text = one (bulk_string text)
answer_of bulk_nil text = one null
answer_of arrays text = many (bulk_string text ∷ [])
