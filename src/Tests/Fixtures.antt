-- ===== src/Tests/Fixtures.antt =====
-- Concrete sockets, a cluster and an event loop.
use logcabin_redis_proxy.Base.{
  ℕ, zero, suc, ◌≤◌, ◌≡◌, ◌≢◌, refl, ap, sym, subst, ◌∙◌, List, [], ◌∷◌, ◌++◌, Option, none, some,
  ◌⊎◌, inl, inr, length, take, take-length, ◌==◌, ==_iff, if◌then◌else◌, arith, true, false, pos,
  negsuc,
}
use logcabin_redis_proxy.Bytes.{Bytes, equal, equal_iff}
use logcabin_redis_proxy.Handler.Calls.{Tree, ok}
use logcabin_redis_proxy.Handler.Values.{IsStore}
use logcabin_redis_proxy.Handler.Monad.{Exception, lookup_exception, client_exception, HandlerState}
use logcabin_redis_proxy.Server.State.{EventLoop, Environment}
use logcabin_redis_proxy.Session.{Socket}

abbrev pub Received : Type 0
Received = ℕ → Bytes

abbrev pub add : ℕ → Bytes → Received → Received
add fd s w k = if fd == k then w k ++ s else w k

pub add_self : (fd : ℕ) (s : Bytes) (w : Received) → add fd s w fd ≡ w fd ++ s
add_self fd s w = rw ((==_iff fd fd).1 refl) refl

pub add_other : (fd k : ℕ) (s : Bytes) (w : Received) → fd ≢ k → add fd s w k ≡ w k
add_other fd k s w h = ground (arith, ==_iff fd k)

pub pos_inj : (m n : ℕ) → pos m ≡ pos n → m ≡ n
pos_inj m n e = cc

pub take_one : (s : Bytes) (n : ℕ) → length (take 1 s) ≡ n → (n ≤ length s) × (take n s ≡ take 1 s)
take_one [] zero e = (omega arith, refl)
take_one [] (suc n) e = absurd (omega (arith, e))
take_one (c ∷ s) zero e = absurd (omega (arith, e))
take_one (c ∷ s) (suc zero) e = (omega arith, refl)
take_one (c ∷ s) (suc (suc n)) e = absurd (omega (arith, e))

pub take_all : (s : Bytes) (n : ℕ) → length s ≡ n → (n ≤ length s) × (take n s ≡ s)
take_all s n e = (omega (arith, e), subst (λ k. take k s ≡ s) e (take-length s))

-- What was added is the part that was taken.
pub added :
    (fd : ℕ) (part s : Bytes) (n : ℕ) (w : Received)
    → (n ≤ length s) × (take n s ≡ part)
    → (n ≤ length s) × (add fd part w fd ≡ w fd ++ take n s)
added fd part s n w (l, e) = (l, add_self fd part w ∙ ap (λ t. w fd ++ t) (sym e))

pub not_negative : {A : Type 0} (m n : ℕ) → pos m ≡ negsuc n → A
not_negative m n e = cc

pub not_positive : {A : Type 0} (m n : ℕ) → negsuc m ≡ pos n → A
not_positive m n e = cc

pub minus_one : (n : ℕ) → negsuc 0 ≡ negsuc n → n ≡ 0
minus_one n e = cc

-- A socket that takes everything.
abbrev pub full_socket : Socket
full_socket = record {
  World = Received;
  write = λ fd s w. (pos (length s), add fd s w);
  close = λ fd w. w;
  received = λ fd w. w fd;
  write_some = λ fd s w n e. added fd s s n w (take_all s n (pos_inj _ n e));
  write_error = λ fd s w n e. not_negative (length s) n e;
  write_other = λ fd other s w h. add_other fd other s w h;
  close_same = λ fd other w. refl;
}

-- A socket that takes one byte at a time.
abbrev pub slow_socket : Socket
slow_socket = record {
  World = Received;
  write = λ fd s w. (pos (length (take 1 s)), add fd (take 1 s) w);
  close = λ fd w. w;
  received = λ fd w. w fd;
  write_some = λ fd s w n e. added fd (take 1 s) s n w (take_one s n (pos_inj _ n e));
  write_error = λ fd s w n e. not_negative (length (take 1 s)) n e;
  write_other = λ fd other s w h. add_other fd other (take 1 s) w h;
  close_same = λ fd other w. refl;
}

-- A socket that takes nothing.
abbrev pub broken_socket : Socket
broken_socket = record {
  World = Received;
  write = λ fd s w. (negsuc 0, w);
  close = λ fd w. w;
  received = λ fd w. w fd;
  write_some = λ fd s w n e. not_positive 0 n e;
  write_error = λ fd s w n e. (minus_one n e, refl);
  write_other = λ fd other s w h. refl;
  close_same = λ fd other w. refl;
}

-- A cluster with a value and a list for each key, and no more: the other calls fail.
pub record Data : Type 0 where
  pub values : Bytes → Option Bytes
  pub lists : Bytes → List Bytes

abbrev pub empty : Data
empty = record { values = λ k. none; lists = λ k. [] }

abbrev found : Option Bytes → Exception ⊎ Bytes
found none = inl lookup_exception
found (some v) = inr v

abbrev write_value : Bytes → Bytes → Data → Data
write_value key v d = record d { values = λ k. if equal key k then some v else d.values k }

abbrev pub write_list : Bytes → List Bytes → Data → Data
write_list key l d = record d { lists = λ k. if equal key k then l else d.lists k }

abbrev pub small_tree : Tree
small_tree = record {
  World = Data;
  sadd_ex = λ t key vs d. (inl client_exception, d);
  srem_ex = λ t key v d. (inl client_exception, d);
  lpush_ex = λ t key v d. (inr tt, write_list key (v ∷ d.lists key) d);
  rpush_ex = λ t key v d. (inr tt, write_list key (d.lists key ++ (v ∷ [])) d);
  write_ex = λ t key v d. (inr tt, write_value key v d);
  scard = λ t key d. (inl lookup_exception, d);
  read_ex = λ t key d. (found (d.values key), d);
  smembers = λ t key d. (inr (d.lists key), d);
  lrange = λ t key range d. (inr (d.lists key), d);
  ltrim = λ t key range d. (inr ok, d);
  expire = λ t key seconds d. (inr ok, d);
}

abbrev pub no_loop : EventLoop
no_loop = record {
  Loop = List ℕ;
  create_file_event = λ l fd data_ptr. (true, fd ∷ l);
  delete_file_event = λ l fd. l;
}

abbrev pub small_env : Environment
small_env = record { event_loop = no_loop; socket = full_socket; tree = small_tree }

abbrev pub fresh_state : HandlerState Data
fresh_state = record { ptree_counter = 0; world = empty }

abbrev pub nothing : Received
nothing k = []

pub equal_self : (k : Bytes) → equal k k ≡ true
equal_self k = (equal_iff k k).1 refl

pub equal_other : (a b : Bytes) → b ≢ a → equal a b ≡ false
equal_other a b h = ground (arith, equal_iff a b)

pub small_tree-IsStore : IsStore small_tree (λ d. d.values)
small_tree-IsStore = record {
  reads = λ t key w. refl;
  writes = λ t key v w. refl;
  written = λ t key v w. rw (equal_self key) refl;
  others = λ t key v k w h. rw (equal_other key k h) refl;
}
