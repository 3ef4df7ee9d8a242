-- ===== src/Resp/Replies.antt =====
-- Replies of the protocol as a client reads them: an independent description of what
-- `encoder` of deps/simple_resp/src/simple_resp.cc has to produce.
pub mod RoundTrip
pub mod Stream
pub mod Encoding
use logcabin_redis_proxy.Base.{
  All, ℕ, zero, suc, ◌+◌, Bool, true, false, ◌&&◌, not, List, [], ◌∷◌, ◌++◌, ◌≡◌, Option, none,
  some, ℤ, pos, negsuc, ◌==◌, if◌then◌else◌, take, drop, length,
}
use logcabin_redis_proxy.Bytes.{Bytes, codes, crlf, equal, substr}
use logcabin_redis_proxy.Num.{to_string, strtol}

-- A reply that is no array.
pub data Item : Type 0 where
  simple : Bytes → Item
  error : Bytes → Item
  integer : ℕ → Item
  bulk_string : Bytes → Item
  null : Item

-- A reply. The proxy has no arrays in arrays.
pub data Answer : Type 0 where
  one : Item → Answer
  many : List Item → Answer

-- How the protocol writes an item.
unfoldable pub print_item : Item → Bytes
print_item (simple text) = codes "+" ++ (text ++ crlf)
print_item (error text) = codes "-" ++ (text ++ crlf)
print_item (integer n) = codes ":" ++ (to_string n ++ crlf)
print_item (bulk_string value) =
    codes "$" ++ (to_string (length value) ++ (crlf ++ (value ++ crlf)))
print_item null = codes "$-1" ++ crlf

unfoldable pub print_items : List Item → Bytes
print_items [] = []
print_items (i ∷ is) = print_item i ++ print_items is

unfoldable pub print_answer : Answer → Bytes
unfolding print_item print_items
print_answer (one i) = print_item i
print_answer (many is) = codes "*" ++ (to_string (length is) ++ (crlf ++ print_items is))

infixl 5 ◌>>=◌
abbrev ◌>>=◌ : {A B : Type 0} → Option A → (A → Option B) → Option B
none >>= f = none
some a >>= f = f a

abbrev more : ℕ → Bytes × Bytes → Bytes × Bytes
more c (line, rest) = (c ∷ line, rest)

-- The bytes before the first "\r\n", and those behind it.
unfoldable pub cut_line : Bytes → Option (Bytes × Bytes)
cut_line [] = none
cut_line (c ∷ []) = none
cut_line (c ∷ d ∷ s) =
    let later = cut_line (d ∷ s) in
    if c == 13 && d == 10 then some ([], s) else (later >>= λ cut. some (more c cut))

-- The value of a bulk string, by its size.
unfoldable pub read_value : ℤ → Bytes → Option (Item × Bytes)
read_value (pos n) s =
    if equal (substr s n 2) crlf then some (bulk_string (take n s), drop 2 (drop n s)) else none
read_value (negsuc zero) s = some (null, s)
read_value (negsuc (suc n)) s = none

unfoldable pub to_natural : ℤ → Option ℕ
to_natural (pos n) = some n
to_natural (negsuc n) = none

-- What follows the line of a type byte.
unfoldable pub read_typed : ℕ → Bytes → Bytes → Option (Item × Bytes)
unfolding read_value to_natural
read_typed head line s =
    if head == b'+'
    then some (simple line, s)
    else if head == b'-'
    then some (error line, s)
    else if head == b':'
    then (strtol line >>= λ z. to_natural z >>= λ n. some (integer n, s))
    else if head == b'$'
    then (strtol line >>= λ z. read_value z s)
    else none

unfoldable pub read_item : Bytes → Option (Item × Bytes)
unfolding cut_line read_typed
read_item [] = none
read_item (head ∷ s) = cut_line s >>= λ (line, rest). read_typed head line rest

unfoldable pub read_items : ℕ → Bytes → Option (List Item × Bytes)
unfolding read_item
read_items zero s = some ([], s)
read_items (suc n) s =
    read_item s >>= λ (i, rest). read_items n rest >>= λ (is, rest). some (i ∷ is, rest)

abbrev pub as_one : Option (Item × Bytes) → Option (Answer × Bytes)
as_one o = o >>= λ (i, rest). some (one i, rest)

-- The first reply of what a client has received, and the bytes behind it.
unfoldable pub read_answer : Bytes → Option (Answer × Bytes)
unfolding read_item read_items
read_answer [] = none
read_answer (head ∷ s) =
    if head == b'*'
    then (cut_line s >>= λ (line, rest). strtol line >>= λ z.
        to_natural z >>= λ n. read_items n rest >>= λ (is, rest). some (many is, rest))
    else as_one (read_item (head ∷ s))

-- The first `n` replies.
unfoldable pub read_answers : ℕ → Bytes → Option (List Answer × Bytes)
unfolding read_answer
read_answers zero s = some ([], s)
read_answers (suc n) s =
    read_answer s >>= λ (a, rest). read_answers n rest >>= λ (bs, rest). some (a ∷ bs, rest)

-- No "\r" in it.
unfoldable pub no_cr : Bytes → Bool
no_cr [] = true
no_cr (c ∷ s) = not (c == 13) && no_cr s

-- What can stand in one line.
unfoldable pub IsReadableItem : Item → Type 0
IsReadableItem (simple text) = no_cr text ≡ true
IsReadableItem (error text) = no_cr text ≡ true
IsReadableItem (integer n) = Unit
IsReadableItem (bulk_string value) = Unit
IsReadableItem null = Unit

unfoldable pub IsReadable : Answer → Type 0
unfolding IsReadableItem
IsReadable (one i) = IsReadableItem i
IsReadable (many is) = All IsReadableItem is
