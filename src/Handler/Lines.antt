-- ===== src/Handler/Lines.antt =====
-- GET and MGET as a client reads their answers: a value with a line break in it.
use logcabin_redis_proxy.Base.{
  ◌≡◌, ◌≢◌, refl, ap, ◌∙◌, List, map, All, none, [], ◌∷◌, ◌++◌, some, true, Option, append_assoc,
  append-nil,
}
use logcabin_redis_proxy.Bytes.{Bytes, crlf}
use logcabin_redis_proxy.Handler.Calls.{Tree}
use logcabin_redis_proxy.Handler.Monad.{returned, HandlerState}
use logcabin_redis_proxy.Handler.Reads.{handle_get_request, handle_mget_request}
use logcabin_redis_proxy.Handler.Values.{
  IsStore, get_answer, mget_entry, handle_get_request_lem, handle_mget_request_lem,
}
use logcabin_redis_proxy.Num.{strtol, to_string, digits, digits_value, magnitude}
use logcabin_redis_proxy.Resp.Encoder.{encode_list, encode_pairs, encode_pair, line}
use logcabin_redis_proxy.Resp.Replies.Encoding.{bulk-eq-print_item, item_of, list-eq-print_answer}
use logcabin_redis_proxy.Resp.Replies.RoundTrip.{cut_line-crlf, read_answer-print_answer}
use logcabin_redis_proxy.Resp.Replies.{
  Item, null, simple, bulk_string, one, many, print_answer, read_answer, read_item, read_items,
  read_typed, to_natural, cut_line, no_cr, IsReadable,
}
use logcabin_redis_proxy.Resp.{EncodeResult, ok, arrays}

read_answer-bulk :
    (v rest : Bytes)
    → read_answer ((get_answer (some v)).response ++ rest) ≡ some (one (bulk_string v), rest)
unfolding get_answer IsReadable print_answer
read_answer-bulk v rest =
    ap (λ r. read_answer (r ++ rest)) (bulk-eq-print_item v)
    ∙ read_answer-print_answer (one (bulk_string v)) rest tt

regrouped :
    (v w rest : Bytes)
    → (((v ++ (crlf ++ w)) ++ crlf) ++ []) ++ rest ≡ v ++ (crlf ++ (w ++ (crlf ++ rest)))
regrouped v w rest = simp (append_assoc, append-nil)

-- A simple string ends with the first line break in it.
read_answer-cut :
    (v w rest : Bytes)
    → no_cr v ≡ true
    → read_answer ((encode_list (mget_entry (some (v ++ (crlf ++ w))) ∷ [])).response ++ rest)
      ≡ some (many (simple v ∷ []), w ++ (crlf ++ rest))
unfolding encode_list encode_pairs encode_pair mget_entry line read_answer read_item read_items
    read_typed to_natural to_string digits strtol magnitude digits_value cut_line
read_answer-cut v w rest h = rw (regrouped v w rest, cut_line-crlf v (w ++ (crlf ++ rest)) h) refl

-- What MGET has for a key.
abbrev pub mget_item : Option Bytes → Item
mget_item none = null
mget_item (some v) = simple v

item_of-mget_entry : (o : Option Bytes) → item_of (mget_entry o) ≡ mget_item o
unfolding mget_entry
item_of-mget_entry none = refl
item_of-mget_entry (some v) = refl

mget_entry-flat : (o : Option Bytes) → (mget_entry o).type ≢ arrays
unfolding mget_entry
mget_entry-flat none e = cc e
mget_entry-flat (some v) e = cc e

items_of :
    (value : Bytes → Option Bytes) (keys : List Bytes)
    → map item_of (map (λ k. mget_entry (value k)) keys) ≡ map (λ k. mget_item (value k)) keys
items_of value [] = refl
items_of value (k ∷ keys) = rw (item_of-mget_entry (value k), items_of value keys) refl

entries-flat :
    (value : Bytes → Option Bytes) (keys : List Bytes)
    → All (λ pair. pair.type ≢ arrays) (map (λ k. mget_entry (value k)) keys)
entries-flat value [] = tt
entries-flat value (k ∷ keys) = (mget_entry-flat (value k), entries-flat value keys)

module _ (tree : Tree) (value : tree.World → Bytes → Option Bytes)
    (store : IsStore tree value) where
  open tree use {World}

  -- On a cluster that keeps a value per key and whose calls do not fail: what MGET answers is how the
  -- protocol writes an array with one item for each key, in the order of the keys, a simple string of its
  -- value or null where it has none; and MGET leaves the cluster as it is.
  pub handle_mget_request-print_answer :
      (command key : Bytes) (keys : List Bytes) (s : HandlerState World)
      → (e : EncodeResult) × ((handle_mget_request tree (command ∷ key ∷ keys) s).0 ≡ returned e)
        × (e.status ≡ ok)
        × (e.response ≡ print_answer (many (map (λ k. mget_item (value s.world k)) (key ∷ keys))))
        × ((handle_mget_request tree (command ∷ key ∷ keys) s).1.world ≡ s.world)
  unfolding encode_list
  handle_mget_request-print_answer command key keys s =
      let (answer, same) = handle_mget_request_lem tree value store command key keys s in
      let entries = map (λ k. mget_entry (value s.world k)) (key ∷ keys) in
      (
        encode_list entries,
        answer,
        refl,
        list-eq-print_answer entries (entries-flat (value s.world) (key ∷ keys))
            ∙ ap (λ is. print_answer (many is)) (items_of (value s.world) (key ∷ keys)),
        same,
      )

  -- On a cluster that keeps a value per key and whose calls do not fail, the value of a key has a line
  -- break in it, with no carriage return before. Then a client that reads the answer to GET of this
  -- key finds the whole value, and what follows the answer is left; but when it reads the answer to
  -- MGET of this key, it finds the part of the value before the line break and takes the part behind
  -- it for the start of the next reply.
  pub handle_mget_request-cut :
      (get mget key v w rest : Bytes) (s : HandlerState World)
      → value s.world key ≡ some (v ++ (crlf ++ w))
      → no_cr v ≡ true
      → ((e : EncodeResult) × ((handle_get_request tree (get ∷ key ∷ []) s).0 ≡ returned e)
          × (read_answer (e.response ++ rest) ≡ some (one (bulk_string (v ++ (crlf ++ w))), rest)))
        × ((e : EncodeResult) × ((handle_mget_request tree (mget ∷ key ∷ []) s).0 ≡ returned e)
            × (read_answer (e.response ++ rest) ≡ some (many (simple v ∷ []), w ++ (crlf ++ rest))))
  handle_mget_request-cut get mget key v w rest s e h = (
    (
      get_answer (some (v ++ (crlf ++ w))),
      ap (λ r. r.0) (handle_get_request_lem tree value store get key s)
          ∙ ap (λ o. returned (get_answer o)) e,
      read_answer-bulk (v ++ (crlf ++ w)) rest,
    ),
    (
      encode_list (mget_entry (some (v ++ (crlf ++ w))) ∷ []),
      (handle_mget_request_lem tree value store mget key [] s).0
          ∙ ap (λ o. returned (encode_list (mget_entry o ∷ []))) e,
      read_answer-cut v w rest h,
    ),
  )
