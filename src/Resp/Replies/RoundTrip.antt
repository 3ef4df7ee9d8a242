-- ===== src/Resp/Replies/RoundTrip.antt =====
-- A client reads back what the protocol writes.
use logcabin_redis_proxy.Base.{
  ℕ, true, List, [], ◌∷◌, ◌++◌, ◌≡◌, refl, ap, ◌∙◌, some, pos, length, arith, append_assoc, All,
  take-append, drop-append,
}
use logcabin_redis_proxy.Bytes.{Bytes, equal}
use logcabin_redis_proxy.Num.RoundTrip.{IsDigit, to_string-All, strtol-to_string}
use logcabin_redis_proxy.Num.{to_string, strtol}
use logcabin_redis_proxy.Resp.Replies.{
  Item, simple, error, integer, bulk_string, null, Answer, one, many, print_item, print_items,
  print_answer, cut_line, read_value, read_typed, read_item, read_items, read_answer, as_one,
  to_natural, no_cr, IsReadableItem, IsReadable,
}

pub cut_line-crlf :
    (text rest : Bytes)
    → no_cr text ≡ true
    → cut_line (text ++ (13 ∷ 10 ∷ rest)) ≡ some (text, rest)
unfolding cut_line no_cr
cut_line-crlf [] rest h = refl
cut_line-crlf (c ∷ []) rest h = ground arith
cut_line-crlf (c ∷ d ∷ s) rest h = ground (arith, cut_line-crlf (d ∷ s) rest)

no_cr-digits : (s : Bytes) → All IsDigit s → no_cr s ≡ true
unfolding no_cr
no_cr-digits [] h = refl
no_cr-digits (c ∷ s) h = ground (arith, no_cr-digits s)

cut_line-to_string :
    (n : ℕ) (rest : Bytes) → cut_line (to_string n ++ (13 ∷ 10 ∷ rest)) ≡ some (to_string n, rest)
cut_line-to_string n rest = cut_line-crlf (to_string n) rest (no_cr-digits _ (to_string-All n))

read_value-bulk :
    (v rest : Bytes)
    → read_value (pos (length v)) (v ++ (13 ∷ 10 ∷ rest)) ≡ some (bulk_string v, rest)
unfolding read_value equal
read_value-bulk v rest = rw (drop-append v (13 ∷ 10 ∷ rest), take-append v (13 ∷ 10 ∷ rest)) refl

pub read_item-print_item :
    (i : Item) (rest : Bytes) → IsReadableItem i → read_item (print_item i ++ rest) ≡ some (i, rest)
unfolding read_item print_item read_typed IsReadableItem strtol read_value to_natural
read_item-print_item (simple text) rest h = rw (append_assoc text, cut_line-crlf text rest h) refl
read_item-print_item (error text) rest h = rw (append_assoc text, cut_line-crlf text rest h) refl
read_item-print_item (integer n) rest h =
    rw (append_assoc (to_string n), cut_line-to_string n rest, strtol-to_string n) refl
read_item-print_item (bulk_string v) rest h =
    rw
      (
        append_assoc (to_string (length v)),
        cut_line-to_string (length v),
        append_assoc v,
        strtol-to_string (length v),
        read_value-bulk v rest,
      )
      refl
read_item-print_item null rest h = refl

read_items-print_items :
    (is : List Item) (rest : Bytes)
    → All IsReadableItem is
    → read_items (length is) (print_items is ++ rest) ≡ some (is, rest)
unfolding read_items print_items
read_items-print_items [] rest h = refl
read_items-print_items (i ∷ is) rest h =
    rw
      (
        append_assoc (print_item i),
        read_item-print_item i (print_items is ++ rest) h.0,
        read_items-print_items is rest h.1,
      )
      refl

read_answer-print_item :
    (i : Item) (rest : Bytes)
    → read_answer (print_item i ++ rest) ≡ as_one (read_item (print_item i ++ rest))
unfolding read_answer print_item
read_answer-print_item (simple _) rest = refl
read_answer-print_item _ rest = refl

-- What the protocol writes for an answer is read back, whatever follows it.
pub read_answer-print_answer :
    (a : Answer) (rest : Bytes)
    → IsReadable a
    → read_answer (print_answer a ++ rest) ≡ some (a, rest)
unfolding read_answer print_answer IsReadable to_natural
read_answer-print_answer (one i) rest h =
    read_answer-print_item i rest ∙ ap as_one (read_item-print_item i rest h)
read_answer-print_answer (many is) rest h =
    rw
      (
        append_assoc (to_string (length is)),
        cut_line-to_string (length is),
        strtol-to_string (length is),
        read_items-print_items is rest h,
      )
      refl
