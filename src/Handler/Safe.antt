-- ===== src/Handler/Safe.antt =====
-- What a handler's part never does: undefined behaviour. The rules by which it is shown, one for each
-- effect of `Handler.Monad` and `Handler.Calls`.
use logcabin_redis_proxy.Base.{
  ℕ, ◌<◌, ◌≡◌, refl, List, [], ◌∷◌, Option, some, length, arith, zero, suc, Bool, true, false,
  if◌then◌else◌, ◌⊎◌, inl, inr, sym, subst,
}
use logcabin_redis_proxy.Bytes.{Bytes}
use logcabin_redis_proxy.Handler.Calls.{get_tree, catch_lookup, caught_lookup, push_all}
use logcabin_redis_proxy.Handler.Monad.{
  Exception, lookup_exception, client_exception, Outcome, returned, thrown, undefined, HandlerState,
  M, ◌>>=◌, bind, return, call, call_outcome, from_option, at,
}

-- It returns a value with the property, or throws what the client throws.
pub data IsFine {A : Type 0} (P : A → Type 0) : Outcome A → Type 0 where
  fine : {a : A} → P a → IsFine P (returned a)
  excused : {e : Exception} → IsFine P (thrown e)

pub record Safe {W A : Type 0} (P : A → Type 0) (m : M W A) : Type 0 where
  pub safe : (s : HandlerState W) → IsFine P (m s).0

bind-IsFine :
    {W A B : Type 0} {P : A → Type 0} {Q : B → Type 0} (r : Outcome A × HandlerState W)
    (f : A → M W B)
    → IsFine P r.0
    → ((a : A) → P a → Safe {W = W} Q (f a))
    → IsFine Q (bind r f).0
bind-IsFine (returned a, s) f (fine p) w = (w a p).safe s
bind-IsFine (thrown e, s) f v w = excused
bind-IsFine (undefined, s) f v w = elim v [ ]

pub bind-Safe :
    {W A B : Type 0} {P : A → Type 0} {Q : B → Type 0} {m : M W A} {f : A → M W B}
    → Safe P m
    → ((a : A) → P a → Safe Q (f a))
    → Safe Q (m >>= f)
bind-Safe {m = m} {f} v w = record { safe = λ s. bind-IsFine (m s) f (v.safe s) w }

pub return-Safe : {W A : Type 0} {P : A → Type 0} {a : A} → P a → Safe {W = W} P (return a)
return-Safe p = record { safe = λ s. fine p }

pub get_tree-Safe : {W : Type 0} → Safe {W = W} (λ n. Unit {0}) get_tree
unfolding get_tree
get_tree-Safe = record { safe = λ s. fine tt }

call-IsFine :
    {A : Type 0} {P : A → Type 0} (r : Exception ⊎ A)
    → ((a : A) → r ≡ inr a → P a)
    → IsFine P (call_outcome r)
call-IsFine (inl e) k = excused
call-IsFine (inr a) k = fine (k a refl)

-- What is returned is known to be what the cluster returned.
pub call-Safe_of :
    {W A : Type 0} {P : A → Type 0} (f : W → (Exception ⊎ A) × W)
    → ((a : A) (w : W) → (f w).0 ≡ inr a → P a)
    → Safe {W = W} P (call f)
call-Safe_of f k = record { safe = λ s. call-IsFine (f s.world).0 λ a e. k a s.world e }

pub call-Safe : {W A : Type 0} (f : W → (Exception ⊎ A) × W) → Safe {W = W} (λ a. Unit {0}) (call f)
call-Safe f = call-Safe_of f λ a w e. tt

pub from_option-Safe :
    {W A : Type 0} {P : A → Type 0} {o : Option A} (a : A)
    → o ≡ some a
    → P a
    → Safe {W = W} P (from_option o)
from_option-Safe {W = W} {P = P} a e p =
    subst (λ o. Safe {W = W} P (from_option o)) (sym e) (record { safe = λ s. fine p })

pub at-Safe :
    {W : Type 0} (args : List Bytes) (i : ℕ)
    → i < length args
    → Safe {W = W} (λ b. Unit {0}) (at args i)
at-Safe [] i h = absurd (omega (arith, h))
at-Safe (a ∷ args) zero h = record { safe = λ s. fine tt }
at-Safe (a ∷ args) (suc i) h = record { safe = (at-Safe args i (omega (arith, h))).safe }

pub if-Safe :
    {W A : Type 0} {P : A → Type 0} {b : Bool} {m n : M W A}
    → (b ≡ true → Safe P m)
    → (b ≡ false → Safe P n)
    → Safe P (if b then m else n)
if-Safe {b = true} v w = v refl
if-Safe {b = false} v w = w refl

caught_lookup-IsFine :
    {W A : Type 0} {P : A → Type 0} (r : Outcome A × HandlerState W) (k : M W A)
    → IsFine P r.0
    → Safe P k
    → IsFine P (caught_lookup r k).0
caught_lookup-IsFine (returned a, s) k v w = v
caught_lookup-IsFine (thrown lookup_exception, s) k v w = w.safe s
caught_lookup-IsFine (thrown client_exception, s) k v w = excused
caught_lookup-IsFine (undefined, s) k v w = elim v [ ]

pub catch_lookup-Safe :
    {W A : Type 0} {P : A → Type 0} {m k : M W A} → Safe P m → Safe P k → Safe P (catch_lookup m k)
catch_lookup-Safe {m = m} {k} v w = record { safe = λ s. caught_lookup-IsFine (m s) k (v.safe s) w }

pub push_all-Safe :
    {W : Type 0} (push : ℕ → Bytes → Bytes → W → (Exception ⊎ Unit {0}) × W) (key : Bytes)
    (vs : List Bytes)
    → Safe {W = W} (λ u. Unit {0}) (push_all push key vs)
unfolding push_all
push_all-Safe push key [] = return-Safe tt
push_all-Safe push key (v ∷ vs) =
    bind-Safe get_tree-Safe
      λ t x. bind-Safe (call-Safe (push t key v)) λ u y. push_all-Safe push key vs
