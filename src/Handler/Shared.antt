-- ===== src/Handler/Shared.antt =====
-- A handler among other workers: between its own calls of the cluster, others may change the data.
-- The rules by which a part of a handler is shown to do what it does alone in some state.
use logcabin_redis_proxy.Base.{
  ℕ, suc, ◌≡◌, refl, ap, subst, ◌∙◌, List, [], ◌∷◌, get_elem?, Option, Bool, true, false,
  if◌then◌else◌, ◌⊎◌, inl, inr,
}
use logcabin_redis_proxy.Bytes.{Bytes}
use logcabin_redis_proxy.Handler.Calls.{
  Tree, TreeStatus, ok, invalid_argument, other_status, get_tree, try_catch, catch_lookup, caught,
  caught_lookup, by_status, wrong_number, nil_reply,
}
use logcabin_redis_proxy.Handler.Monad.{
  Exception, lookup_exception, client_exception, Outcome, returned, thrown, undefined, HandlerState,
  M, ◌>>=◌, bind, return, call, from_option, at, enc,
}
use logcabin_redis_proxy.Resp.{RespType, bulk_nil, EncodeResult}
use logcabin_redis_proxy.Resp.Encoder.{encode}

-- A call of the cluster by one worker: `change n` is what the others do to the data between the call
-- number `n` of this worker and the one before.
abbrev pub disturb : {W X : Type 0} → (ℕ → W → W) → (W → X × W) → W × ℕ → X × (W × ℕ)
disturb change f (w, n) = let (x, w') = f (change n w) in (x, (w', suc n))

-- The cluster as one worker sees it.
abbrev pub disturbed : (tree : Tree) → (ℕ → tree.World → tree.World) → Tree
disturbed tree change = record {
  World = tree.World × ℕ;
  sadd_ex = λ t key vs. disturb change (tree.sadd_ex t key vs);
  srem_ex = λ t key v. disturb change (tree.srem_ex t key v);
  lpush_ex = λ t key v. disturb change (tree.lpush_ex t key v);
  rpush_ex = λ t key v. disturb change (tree.rpush_ex t key v);
  write_ex = λ t key v. disturb change (tree.write_ex t key v);
  scard = λ t key. disturb change (tree.scard t key);
  read_ex = λ t key. disturb change (tree.read_ex t key);
  smembers = λ t key. disturb change (tree.smembers t key);
  lrange = λ t key range. disturb change (tree.lrange t key range);
  ltrim = λ t key range. disturb change (tree.ltrim t key range);
  expire = λ t key seconds. disturb change (tree.expire t key seconds);
}

-- The state with the data that `g` says.
abbrev pub view : {V W : Type 0} → (V → W) → HandlerState V → HandlerState W
view g s = record { ptree_counter = s.ptree_counter; world = g s.world }

module _ {V W : Type 0} where
  -- The same, whatever the data, which stay as they are: no call is made.
  pub record Quiet {A : Type 0} (m : M V A) (m' : M W A) : Type 0 where
    pub quiet : (g : V → W) (s : HandlerState V) → m' (view g s) ≡ ((m s).0, view g (m s).1)
    pub kept : (s : HandlerState V) → (m s).1.world ≡ s.world

  -- The same, from the data at the start or from those at the call: one call is made, or none.
  pub record Once (now later : V → W) {A : Type 0} (m : M V A) (m' : M W A) : Type 0 where
    pub once :
        (s : HandlerState V)
        → (w : W) × ((w ≡ now s.world) ⊎ (w ≡ later s.world))
          × (m' (view (λ v. w) s) ≡ ((m s).0, view now (m s).1))

  pub return-Quiet : {A : Type 0} (a : A) → Quiet (return a) (return a)
  return-Quiet a = record { quiet = λ g s. refl; kept = λ s. refl }

  pub from_option-Quiet : {A : Type 0} (o : Option A) → Quiet (from_option o) (from_option o)
  from_option-Quiet o = record { quiet = λ g s. refl; kept = λ s. refl }

  pub get_tree-Quiet : Quiet get_tree get_tree
  unfolding get_tree
  get_tree-Quiet = record { quiet = λ g s. refl; kept = λ s. refl }

  bound :
      {A B : Type 0} (g : V → W) (r : Outcome A × HandlerState V) (f : A → M V B) (f' : A → M W B)
      → ((a : A) → Quiet (f a) (f' a))
      → bind (r.0, view g r.1) f' ≡ ((bind r f).0, view g (bind r f).1)
  bound g (returned a, s) f f' q = (q a).quiet g s
  bound g (thrown e, s) f f' q = refl
  bound g (undefined, s) f f' q = refl

  bound_kept :
      {A B : Type 0} (r : Outcome A × HandlerState V) (f : A → M V B) (f' : A → M W B)
      → ((a : A) → Quiet (f a) (f' a))
      → (bind r f).1.world ≡ r.1.world
  bound_kept (returned a, s) f f' q = (q a).kept s
  bound_kept (thrown e, s) f f' q = refl
  bound_kept (undefined, s) f f' q = refl

  pub bind-Quiet :
      {A B : Type 0} {m : M V A} {m' : M W A} {f : A → M V B} {f' : A → M W B}
      → Quiet m m'
      → ((a : A) → Quiet (f a) (f' a))
      → Quiet (m >>= f) (m' >>= f')
  bind-Quiet {m = m} {m'} {f} {f'} p q = record {
    quiet = λ g s. ap (λ r. bind r f') (p.quiet g s) ∙ bound g (m s) f f' q;
    kept = λ s. bound_kept (m s) f f' q ∙ p.kept s;
  }

  module _ (now later : V → W) where
    pub Quiet-Once : {A : Type 0} {m : M V A} {m' : M W A} → Quiet m m' → Once now later m m'
    Quiet-Once q = record { once = λ s. (now s.world, inl refl, q.quiet now s) }

    -- What comes before the call.
    bound_before :
        {A B : Type 0} (r : Outcome A × HandlerState V) (f : A → M V B) (f' : A → M W B)
        → ((a : A) → Once now later (f a) (f' a))
        → (w : W) × ((w ≡ now r.1.world) ⊎ (w ≡ later r.1.world))
          × (bind (r.0, view (λ v. w) r.1) f' ≡ ((bind r f).0, view now (bind r f).1))
    bound_before (returned a, s) f f' q = (q a).once s
    bound_before (thrown e, s) f f' q = (now s.world, inl refl, refl)
    bound_before (undefined, s) f f' q = (now s.world, inl refl, refl)

    pub before-Once :
        {A B : Type 0} {m : M V A} {m' : M W A} {f : A → M V B} {f' : A → M W B}
        → Quiet m m'
        → ((a : A) → Once now later (f a) (f' a))
        → Once now later (m >>= f) (m' >>= f')
    before-Once {m = m} {m'} {f} {f'} p q = record {
      once = λ s.
          let (w, seen, e) = bound_before (m s) f f' q in
          (
            w,
            subst (λ v. (w ≡ now v) ⊎ (w ≡ later v)) (p.kept s) seen,
            ap (λ r. bind r f') (p.quiet (λ v. w) s) ∙ e,
          );
    }

    -- What comes after the call.
    pub after-Once :
        {A B : Type 0} {m : M V A} {m' : M W A} {f : A → M V B} {f' : A → M W B}
        → Once now later m m'
        → ((a : A) → Quiet (f a) (f' a))
        → Once now later (m >>= f) (m' >>= f')
    after-Once {m = m} {m'} {f} {f'} p q = record {
      once = λ s.
          let (w, seen, e) = p.once s in (w, seen, ap (λ r. bind r f') e ∙ bound now (m s) f f' q);
    }

    caught_same :
        (r : Outcome EncodeResult × HandlerState V)
        → caught (r.0, view now r.1) ≡ ((caught r).0, view now (caught r).1)
    caught_same (returned a, s) = refl
    caught_same (thrown e, s) = refl
    caught_same (undefined, s) = refl

    pub try_catch-Once :
        (m : M V EncodeResult) (m' : M W EncodeResult)
        → Once now later m m'
        → Once now later (try_catch m) (try_catch m')
    try_catch-Once m m' p = record {
      once = λ s. let (w, seen, e) = p.once s in (w, seen, ap caught e ∙ caught_same (m s));
    }

    lookup_same :
        {A : Type 0} (r : Outcome A × HandlerState V) (k : M V A) (k' : M W A)
        → Quiet k k'
        → caught_lookup (r.0, view now r.1) k'
          ≡ ((caught_lookup r k).0, view now (caught_lookup r k).1)
    lookup_same (returned a, s) k k' q = refl
    lookup_same (thrown lookup_exception, s) k k' q = q.quiet now s
    lookup_same (thrown client_exception, s) k k' q = refl
    lookup_same (undefined, s) k k' q = refl

    pub catch_lookup-Once :
        {A : Type 0} (m : M V A) (m' : M W A) {k : M V A} {k' : M W A}
        → Once now later m m'
        → Quiet k k'
        → Once now later (catch_lookup m k) (catch_lookup m' k')
    catch_lookup-Once m m' {k} {k'} p q = record {
      once = λ s.
          let (w, seen, e) = p.once s in
          (w, seen, ap (λ r. caught_lookup r k') e ∙ lookup_same (m s) k k' q);
    }

pub at-Quiet :
    {V W : Type 0} (args : List Bytes) (i : ℕ) → Quiet {V = V} {W = W} (at args i) (at args i)
at-Quiet args i = from_option-Quiet (get_elem? args i)

pub enc-Quiet :
    {V W : Type 0} (type : RespType) (text : Bytes)
    → Quiet {V = V} {W = W} (enc type text) (enc type text)
enc-Quiet type text = from_option-Quiet (encode type (text ∷ []))

pub by_status-Quiet :
    {V W : Type 0} (c : Bytes) (status : TreeStatus)
    → Quiet {V = V} {W = W} (by_status c status) (by_status c status)
by_status-Quiet c ok = enc-Quiet _ _
by_status-Quiet c invalid_argument = enc-Quiet _ _
by_status-Quiet c other_status = enc-Quiet _ _

-- A handler's guard on the number of its arguments.
pub guard-Once :
    {V W : Type 0} (now later : V → W) (wrong : Bool) (c : Bytes) {m : M V EncodeResult}
    {m' : M W EncodeResult}
    → Once now later m m'
    → Once now later (if wrong then wrong_number c else m) (if wrong then wrong_number c else m')
guard-Once now later true c p = Quiet-Once now later (enc-Quiet _ _)
guard-Once now later false c p = p

pub guarded :
    {V W : Type 0} {now later : V → W} (wrong : Bool) (c : Bytes) {m : M V EncodeResult}
    {m' : M W EncodeResult}
    → Once now later m m'
    → Once now later
        (try_catch (if wrong then wrong_number c else m))
        (try_catch (if wrong then wrong_number c else m'))
guarded {now = now} {later} wrong c p =
    try_catch-Once now later _ _ (guard-Once now later wrong c p)

pub guarded_lookup :
    {V W : Type 0} {now later : V → W} (wrong : Bool) (c : Bytes) {m : M V EncodeResult}
    {m' : M W EncodeResult}
    → Once now later m m'
    → Once now later
        (try_catch (catch_lookup (if wrong then wrong_number c else m) nil_reply))
        (try_catch (catch_lookup (if wrong then wrong_number c else m') nil_reply))
guarded_lookup {now = now} {later} wrong c p =
    try_catch-Once now later _ _
      (catch_lookup-Once now later _ _ (guard-Once now later wrong c p) (enc-Quiet bulk_nil []))

-- The call itself is made in the data that the others have left.
pub call-Once :
    {W A : Type 0} (change : ℕ → W → W) (f : W → (Exception ⊎ A) × W)
    → Once (λ v. v.0) (λ v. change v.1 v.0) (call (disturb change f)) (call f)
call-Once change f = record { once = λ s. (change s.world.1 s.world.0, inr refl, refl) }
