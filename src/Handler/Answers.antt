-- ===== src/Handler/Answers.antt =====
-- The answers of the handlers: what the encoder makes, and its type in the terms of the protocol.
use logcabin_redis_proxy.Base.{
  ℕ, ◌<◌, ◌≤◌, ◌≡◌, refl, List, [], ◌∷◌, ◌++◌, Option, none, some, map, length, arith, true, false,
  not, ltb, ◌==◌, ==_iff, lt→ltb,
}
use logcabin_redis_proxy.Bytes.{Bytes, codes}
use logcabin_redis_proxy.Handler.Calls.{
  TreeStatus, ok, invalid_argument, other_status, by_status, wrong_number, try_catch, caught,
}
use logcabin_redis_proxy.Handler.Monad.{
  Outcome, returned, thrown, undefined, HandlerState, M, defined, from_option, at, enc,
}
use logcabin_redis_proxy.Handler.Safe.{IsFine, fine, Safe, from_option-Safe, at-Safe}
use logcabin_redis_proxy.Handler.Types.{ReplyType, HasType, status, failed, done, answer_of}
use logcabin_redis_proxy.Resp.Encoder.{encode, encode_list, nil}
use logcabin_redis_proxy.Resp.Replies.Encoding.{bulk-eq-print_item, bulks-eq-print_answer}
use logcabin_redis_proxy.Resp.Replies.{Answer, many, bulk_string, print_answer, print_item, no_cr}
use logcabin_redis_proxy.Resp.{
  RespType, simple_strings, errors, integers, bulk_strings, bulk_nil, arrays, EncodeResult,
  RedisTypeValuePair,
}

-- An answer of the encoder.
pub data IsReply (r : EncodeResult) : Type 0 where
  encoded : (type : RespType) (args : List Bytes) → encode type args ≡ some r → IsReply r
  listed : (list : List RedisTypeValuePair) → encode_list list ≡ r → IsReply r

-- An answer of the encoder that is an answer of a type in the terms of the protocol.
pub record IsReplyOf (Read : Bytes → Type 0) (n : ℕ) (t : ReplyType) (r : EncodeResult)
    : Type 0 where
  pub is_reply : IsReply r
  pub answer : Answer
  pub is_printed : r.response ≡ print_answer answer
  pub typed : HasType Read n t answer

-- What the encoder makes of one text.
record Encoded (type : RespType) (text : Bytes) : Type 0 where
  result : EncodeResult
  is_result : encode type (text ∷ []) ≡ some result
  is_printed : result.response ≡ print_answer (answer_of type text)

encode-Encoded : (type : RespType) (text : Bytes) → Encoded type text
unfolding encode answer_of print_answer nil print_item
encode-Encoded simple_strings text = record { result = _; is_result = refl; is_printed = refl }
encode-Encoded errors text = record { result = _; is_result = refl; is_printed = refl }
encode-Encoded integers text = record {
  result = _;
  is_result = refl;
  is_printed = bulk-eq-print_item text;
}
encode-Encoded bulk_strings text = record {
  result = _;
  is_result = refl;
  is_printed = bulk-eq-print_item text;
}
encode-Encoded bulk_nil text = record { result = _; is_result = refl; is_printed = refl }
encode-Encoded arrays text = record {
  result = _;
  is_result = refl;
  is_printed = bulks-eq-print_answer (text ∷ []);
}

pub enc-Safe :
    {W : Type 0} {Read : Bytes → Type 0} {n : ℕ} {t : ReplyType} (type : RespType) (text : Bytes)
    → HasType Read n t (answer_of type text)
    → Safe {W = W} (IsReplyOf Read n t) (enc type text)
enc-Safe type text typed =
    let r = encode-Encoded type text in
    from_option-Safe r.result r.is_result (record {
      is_reply = encoded type (text ∷ []) r.is_result;
      answer = answer_of type text;
      is_printed = r.is_printed;
      typed = typed;
    })

-- Several values.
pub arrays-Safe :
    {W : Type 0} {Read : Bytes → Type 0} {n : ℕ} {t : ReplyType} (vs : List Bytes)
    → HasType Read n t (many (map bulk_string vs))
    → Safe {W = W} (IsReplyOf Read n t) (from_option (encode arrays vs))
unfolding encode
arrays-Safe vs typed = from_option-Safe _ refl (record {
  is_reply = encoded arrays vs refl;
  answer = many (map bulk_string vs);
  is_printed = bulks-eq-print_answer vs;
  typed = typed;
})

from_fine :
    {A : Type 0} {P : A → Type 0} (o : Option A)
    → IsFine P (defined o)
    → (a : A) × (defined o ≡ returned a) × P a
from_fine (some a) (fine p) = (a, refl, p)
from_fine none v = elim v [ ]

caught_fine :
    {W : Type 0} {Read : Bytes → Type 0} {n : ℕ} {t : ReplyType}
    (r : Outcome EncodeResult × HandlerState W)
    → IsFine (IsReplyOf Read n t) r.0
    → (e : EncodeResult) × ((caught r).0 ≡ returned e) × IsReplyOf Read n t e
unfolding no_cr answer_of
caught_fine (returned a, s) (fine v) = (a, refl, v)
caught_fine (undefined, s) v = elim v [ ]
caught_fine (thrown e, s) v =
    from_fine _ ((enc-Safe errors (codes "ERR Internal error happened") (failed refl refl)).safe s)

-- What is caught is an answer.
pub try_catch-returns :
    {W : Type 0} {Read : Bytes → Type 0} {n : ℕ} {t : ReplyType} {m : M W EncodeResult}
    → Safe (IsReplyOf Read n t) m
    → (s : HandlerState W)
    → (e : EncodeResult) × ((try_catch m s).0 ≡ returned e) × IsReplyOf Read n t e
try_catch-returns {m = m} v s = caught_fine (m s) (v.safe s)

-- A handler that always returns an answer of the encoder, of the given type.
pub record Answers {W : Type 0} (Read : Bytes → Type 0) (n : ℕ) (t : ReplyType)
    (m : M W EncodeResult) : Type 0 where
  pub answer :
      (s : HandlerState W) → (e : EncodeResult) × ((m s).0 ≡ returned e) × IsReplyOf Read n t e

pub handled :
    {W : Type 0} {Read : Bytes → Type 0} {n : ℕ} {t : ReplyType} (m : M W EncodeResult)
    → Safe (IsReplyOf Read n t) m
    → Answers Read n t (try_catch m)
handled m v = record { answer = try_catch-returns v }

no_cr-quoted : (c : Bytes) → no_cr c ≡ true → no_cr (c ++ codes "' command") ≡ true
unfolding no_cr
no_cr-quoted [] h = refl
no_cr-quoted (b ∷ c) h = ground (arith, no_cr-quoted c)

pub by_status-Safe :
    {W : Type 0} {Read : Bytes → Type 0} {n : ℕ} (c : Bytes) (st : TreeStatus)
    → no_cr c ≡ true
    → Safe {W = W} (IsReplyOf Read n status) (by_status c st)
unfolding answer_of no_cr
by_status-Safe c ok h = enc-Safe _ _ done
by_status-Safe c invalid_argument h = enc-Safe _ _ (failed refl (no_cr-quoted c h))
by_status-Safe c other_status h = enc-Safe _ _ (failed refl (no_cr-quoted c h))

pub wrong_number-Safe :
    {W : Type 0} {Read : Bytes → Type 0} {n : ℕ} {t : ReplyType} (c : Bytes)
    → no_cr c ≡ true
    → Safe {W = W} (IsReplyOf Read n t) (wrong_number c)
unfolding answer_of no_cr
wrong_number-Safe c h = enc-Safe _ _ (failed refl (no_cr-quoted c h))

pub not_short : (n k : ℕ) → ltb n k ≡ false → k ≤ n
not_short n k h = ground (arith, lt→ltb n k)

same : (n k : ℕ) → not (n == k) ≡ false → n ≡ k
same n k h = ground (arith, ==_iff n k)

pub at_least :
    {W : Type 0} (args : List Bytes) (i k : ℕ)
    → ltb (length args) k ≡ false
    → i < k
    → Safe {W = W} (λ b. Unit {0}) (at args i)
at_least args i k h l = at-Safe args i (omega (arith, not_short (length args) k h, l))

pub exactly :
    {W : Type 0} (args : List Bytes) (i k : ℕ)
    → not (length args == k) ≡ false
    → i < k
    → Safe {W = W} (λ b. Unit {0}) (at args i)
exactly args i k h l = at-Safe args i (omega (arith, same (length args) k h, l))
