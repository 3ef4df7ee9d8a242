-- ===== src/Handler/Monad.antt =====
-- The effects of a handler: the connection counter, the cluster, exceptions, and undefined behaviour.
use logcabin_redis_proxy.Base.{ℕ, List, [], ◌∷◌, Option, none, some, get_elem?, ◌⊎◌, inl, inr}
use logcabin_redis_proxy.Bytes.{Bytes}
use logcabin_redis_proxy.Resp.{RespType, EncodeResult}
use logcabin_redis_proxy.Resp.Encoder.{encode}

-- `LogCabin::Client::LookupException`, and the other `LogCabin::Client::Exception`s.
pub data Exception : Type 0 where
  lookup_exception client_exception : Exception

pub data Outcome (A : Type 0) : Type 0 where
  returned : A → Outcome A
  thrown : Exception → Outcome A
  undefined : Outcome A

-- `ptree_counter`, and the world that the calls of the cluster change.
pub record HandlerState (W : Type 0) : Type 0 where
  pub ptree_counter : ℕ
  pub world : W

abbrev pub M : Type 0 → Type 0 → Type 0
M W A = HandlerState W → Outcome A × HandlerState W

abbrev pub bind :
    {W A B : Type 0} → Outcome A × HandlerState W → (A → M W B) → Outcome B × HandlerState W
bind (returned a, s) f = f a s
bind (thrown e, s) f = (thrown e, s)
bind (undefined, s) f = (undefined, s)

infixl 5 ◌>>=◌ ◌>>◌
abbrev pub ◌>>=◌ : {W A B : Type 0} → M W A → (A → M W B) → M W B
(m >>= f) s = bind (m s) f

abbrev pub ◌>>◌ : {W B : Type 0} → M W (Unit {0}) → M W B → M W B
m >> k = m >>= λ _. k

abbrev pub return : {W A : Type 0} → A → M W A
return a s = (returned a, s)

-- A member of the cluster's client: it returns or throws.
abbrev pub call_outcome : {A : Type 0} → Exception ⊎ A → Outcome A
call_outcome (inl e) = thrown e
call_outcome (inr a) = returned a

abbrev pub call : {W A : Type 0} → (W → (Exception ⊎ A) × W) → M W A
call f s = let (a, w) = f s.world in (call_outcome a, record s { world = w })

abbrev pub defined : {A : Type 0} → Option A → Outcome A
defined none = undefined
defined (some a) = returned a

-- `redis_args[i]` and what else is undefined on some arguments.
abbrev pub from_option : {W A : Type 0} → Option A → M W A
from_option o s = (defined o, s)

abbrev pub at : {W : Type 0} → List Bytes → ℕ → M W Bytes
at args i = from_option (get_elem? args i)

-- `enc.encode(type, {text})`.
abbrev pub enc : {W : Type 0} → RespType → Bytes → M W EncodeResult
enc type text = from_option (encode type (text ∷ []))
