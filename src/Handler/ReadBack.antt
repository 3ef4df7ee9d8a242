-- ===== src/Handler/ReadBack.antt =====
-- What a client reads in the answer of a handler.
use logcabin_redis_proxy.Base.{◌≡◌, ap, ◌∙◌, List, ◌++◌, map, some}
use logcabin_redis_proxy.Bytes.{Bytes}
use logcabin_redis_proxy.Handler.Monad.{Outcome, returned}
use logcabin_redis_proxy.Handler.Types.{bulk-IsReadable}
use logcabin_redis_proxy.Resp.Replies.RoundTrip.{read_answer-print_answer}
use logcabin_redis_proxy.Resp.Replies.{
  Answer, many, bulk_string, read_answer, print_answer, IsReadable,
}
use logcabin_redis_proxy.Resp.{EncodeResult}

-- What a handler returned is read as the answer, and what follows it is left.
abbrev pub ReadsAs : Outcome EncodeResult → Answer → Type 0
ReadsAs o a =
    (e : EncodeResult) × (o ≡ returned e)
    × ((rest : Bytes) → read_answer (e.response ++ rest) ≡ some (a, rest))

pub printed-ReadsAs :
    (a : Answer) (e : EncodeResult) {o : Outcome EncodeResult}
    → o ≡ returned e
    → e.response ≡ print_answer a
    → IsReadable a
    → ReadsAs o a
printed-ReadsAs a e is_returned is_printed readable = (
  e,
  is_returned,
  λ rest. ap (λ r. read_answer (r ++ rest)) is_printed ∙ read_answer-print_answer a rest readable,
)

pub values-IsReadable : (vs : List Bytes) → IsReadable (many (map bulk_string vs))
unfolding IsReadable
values-IsReadable vs = bulk-IsReadable vs
