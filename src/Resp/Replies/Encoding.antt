-- ===== src/Resp/Replies/Encoding.antt =====
-- What the encoder makes is what the protocol writes.
use logcabin_redis_proxy.Base.{
  ℕ, suc, List, [], ◌∷◌, ◌++◌, ◌≡◌, refl, ap, ◌∙◌, map, length, append_assoc, All, ◌≢◌, some,
}
use logcabin_redis_proxy.Bytes.{Bytes, codes, crlf}
use logcabin_redis_proxy.Num.{to_string}
use logcabin_redis_proxy.Resp.Encoder
use logcabin_redis_proxy.Resp.Encoder.{
  line, nil, bulks, encode, encode_pair, encode_pairs, encode_list,
}
use logcabin_redis_proxy.Resp.Replies.{
  Item, simple, error, bulk_string, null, many, print_item, print_items, print_answer, IsReadable,
  IsReadableItem, read_answer,
}
use logcabin_redis_proxy.Resp.Replies.RoundTrip.{read_answer-print_answer}
use logcabin_redis_proxy.Resp.{
  RespType, simple_strings, errors, integers, bulk_strings, bulk_nil, arrays, RedisTypeValuePair,
}

pub bulk-eq-print_item : (v : Bytes) → Encoder.bulk v ≡ print_item (bulk_string v)
unfolding Encoder.bulk line print_item
bulk-eq-print_item v = ap (◌∷◌ b'$') (append_assoc (to_string (length v)) crlf (v ++ crlf))

bulks-eq-print_items : (vs : List Bytes) → bulks vs ≡ print_items (map bulk_string vs)
unfolding bulks print_items
bulks-eq-print_items [] = refl
bulks-eq-print_items (v ∷ vs) = rw (bulk-eq-print_item v, bulks-eq-print_items vs) refl

pub length-map : {A B : Type 0} (f : A → B) (xs : List A) → length (map f xs) ≡ length xs
length-map f [] = refl
length-map f (x ∷ xs) = ap suc (length-map f xs)

-- "*", the number of parts, "\r\n" and the parts.
counted :
    (n : ℕ) (parts : Bytes)
    → line (codes "*") (to_string n) ++ parts ≡ codes "*" ++ (to_string n ++ (crlf ++ parts))
unfolding line
counted n parts = ap (◌∷◌ b'*') (append_assoc (to_string n) crlf parts)

pub bulks-eq-print_answer :
    (vs : List Bytes)
    → line (codes "*") (to_string (length vs)) ++ bulks vs
      ≡ print_answer (many (map bulk_string vs))
unfolding print_answer
bulks-eq-print_answer vs =
    counted (length vs) (bulks vs) ∙ rw (bulks-eq-print_items vs, length-map bulk_string vs) refl

-- What an entry of a list stands for.
abbrev pub item_of : RedisTypeValuePair → Item
item_of pair = elim pair.type [
  | simple_strings ↦ simple pair.value
  | errors ↦ error pair.value
  | integers ↦ bulk_string pair.value
  | bulk_strings ↦ bulk_string pair.value
  | bulk_nil ↦ null
  | arrays ↦ null
]

encode_pair-eq-print_item :
    (type : RespType) (v : Bytes)
    → type ≢ arrays
    → encode_pair type v ≡ print_item (item_of (record { type = type; value = v }))
unfolding encode_pair line print_item nil
encode_pair-eq-print_item simple_strings v h = refl
encode_pair-eq-print_item errors v h = refl
encode_pair-eq-print_item integers v h = bulk-eq-print_item v
encode_pair-eq-print_item bulk_strings v h = bulk-eq-print_item v
encode_pair-eq-print_item bulk_nil v h = refl
encode_pair-eq-print_item arrays v h = absurd (h refl)

encode_pairs-eq-print_items :
    (list : List RedisTypeValuePair)
    → All (λ pair. pair.type ≢ arrays) list
    → encode_pairs list ≡ print_items (map item_of list)
unfolding encode_pairs print_items
encode_pairs-eq-print_items [] h = refl
encode_pairs-eq-print_items (i ∷ is) h =
    rw (encode_pair-eq-print_item i.type i.value h.0, encode_pairs-eq-print_items is h.1) refl

pub list-eq-print_answer :
    (list : List RedisTypeValuePair)
    → All (λ pair. pair.type ≢ arrays) list
    → (encode_list list).response ≡ print_answer (many (map item_of list))
unfolding encode_list print_answer
list-eq-print_answer list h =
    counted (length list) (encode_pairs list)
    ∙ rw (encode_pairs-eq-print_items list h, length-map item_of list) refl

-- A text that has to stand in one line does.
abbrev pub HasLine : RedisTypeValuePair → Type 0
HasLine pair = IsReadableItem (item_of pair)

item_of-IsReadable :
    (list : List RedisTypeValuePair) → All HasLine list → All IsReadableItem (map item_of list)
item_of-IsReadable [] h = tt
item_of-IsReadable (pair ∷ list) h = (h.0, item_of-IsReadable list h.1)

-- A client that reads the answer of the encoder to a list of pairs finds one item for each pair, in
-- their order: simple strings and errors as they are, integers and bulk strings as bulk strings, and
-- null. What follows the answer is left. No entry is of type arrays, and no text of a simple string
-- or an error has a carriage return.
pub encode_list-read_answer :
    (list : List RedisTypeValuePair) (rest : Bytes)
    → All (λ pair. pair.type ≢ arrays) list
    → All HasLine list
    → read_answer ((encode_list list).response ++ rest) ≡ some (many (map item_of list), rest)
unfolding IsReadable
encode_list-read_answer list rest flat lines =
    ap (λ r. read_answer (r ++ rest)) (list-eq-print_answer list flat)
    ∙ read_answer-print_answer (many (map item_of list)) rest (item_of-IsReadable list lines)
