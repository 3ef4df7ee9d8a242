-- ===== src/Handler/Pushes.antt =====
-- What RPUSH and LPUSH do to a list of the cluster, which may fail at any element.
use logcabin_redis_proxy.Base.{
  ℕ, suc, ◌%◌, ◌+◌, ◌≡◌, ◌≢◌, refl, sym, ap, subst, ◌∙◌, List, [], ◌∷◌, ◌++◌, ◌⊎◌, inl, inr,
  append-nil, append_assoc, reverse, reverse_aux, length, drop, ltb, lt→ltb, arith, false,
}
use logcabin_redis_proxy.Bytes.{Bytes, codes, crlf}
use logcabin_redis_proxy.Handler.Calls.{Tree, get_tree, push_all, caught, try_catch}
use logcabin_redis_proxy.Handler.Monad.{
  Exception, Outcome, returned, thrown, HandlerState, bind, enc, at, ◌>>=◌, ◌>>◌,
}
use logcabin_redis_proxy.Handler.Writes.{handle_lpush_request, handle_rpush_request}
use logcabin_redis_proxy.Num.{to_string}
use logcabin_redis_proxy.Resp.Encoder.{encode, line, bulk}
use logcabin_redis_proxy.Resp.{ok, integers, EncodeResult}

-- What the calls of the cluster's client promise: an element is pushed, which puts it at one end, or
-- the call throws and no list changes. `elements` has the elements of each list.
unfoldable pub IsPush :
    {W : Type 0}
    → (W → Bytes → List Bytes)
    → (List Bytes → Bytes → List Bytes)
    → (ℕ → Bytes → Bytes → W → (Exception ⊎ Unit {0}) × W)
    → Type 0
IsPush {W} elements put push =
    (t : ℕ) (key v : Bytes) (w : W)
    → (((push t key v w).0 ≡ inr tt)
        × (elements (push t key v w).1 key ≡ put (elements w key) v)
        × ((k : Bytes) → k ≢ key → elements (push t key v w).1 k ≡ elements w k))
      ⊎ ((e : Exception) × ((push t key v w).0 ≡ inl e)
          × ((k : Bytes) → elements (push t key v w).1 k ≡ elements w k))

-- All elements after some are pushed.
unfoldable pub after : (List Bytes → Bytes → List Bytes) → List Bytes → List Bytes → List Bytes
after put l [] = l
after put l (v ∷ vs) = after put (put l v) vs

-- The loop's end: it returns if nothing is left, and otherwise throws.
IsEnd : List Bytes → Outcome (Unit {0}) → Type 0
IsEnd [] o = o ≡ returned tt
IsEnd (v ∷ vs) o = (e : Exception) × (o ≡ thrown e)

module _ {W : Type 0} (elements : W → Bytes → List Bytes) (put : List Bytes → Bytes → List Bytes)
    (push : ℕ → Bytes → Bytes → W → (Exception ⊎ Unit {0}) × W)
    (law : IsPush elements put push) where
  -- What the loop has done when it ends.
  record IsPushed (key : Bytes) (vs : List Bytes) (w : W) (r : Outcome (Unit {0}) × HandlerState W)
      : Type 0 where
    pub done : List Bytes
    pub rest : List Bytes
    pub all : vs ≡ done ++ rest
    pub list : elements r.1.world key ≡ after put (elements w key) done
    pub others : (k : Bytes) → k ≢ key → elements r.1.world k ≡ elements w k
    pub end : IsEnd rest r.0

  abbrev next : Bytes → Bytes → HandlerState W → HandlerState W
  next key v s = record {
    ptree_counter = (s.ptree_counter + 1) % 10;
    world = (push (s.ptree_counter % 10) key v s.world).1;
  }

  pushes :
      (key v : Bytes) (vs : List Bytes) (s : HandlerState W)
      → (push (s.ptree_counter % 10) key v s.world).0 ≡ inr tt
      → push_all push key (v ∷ vs) s ≡ push_all push key vs (next key v s)
  unfolding push_all get_tree
  pushes key v vs s e = rw e refl

  fails :
      (key v : Bytes) (vs : List Bytes) (s : HandlerState W) (x : Exception)
      → (push (s.ptree_counter % 10) key v s.world).0 ≡ inl x
      → push_all push key (v ∷ vs) s ≡ (thrown x, next key v s)
  unfolding push_all get_tree
  fails key v vs s x e = rw e refl

  push_all-IsPushed :
      (key : Bytes) (vs : List Bytes) (s : HandlerState W)
      → IsPushed key vs s.world (push_all push key vs s)
  unfolding push_all after IsEnd IsPush
  push_all-IsPushed key [] s = record {
    done = [];
    rest = [];
    all = refl;
    list = refl;
    others = λ k h. refl;
    end = refl;
  }
  push_all-IsPushed key (v ∷ vs) s = elim (law (s.ptree_counter % 10) key v s.world) [
    | inl (e, l, o) ↦
        let r = push_all-IsPushed key vs (next key v s) in
        subst (IsPushed key (v ∷ vs) s.world) (sym (pushes key v vs s e)) (record {
          done = v ∷ r.done;
          rest = r.rest;
          all = ap (λ l. v ∷ l) r.all;
          list = r.list ∙ ap (λ l. after put l r.done) l;
          others = λ k h. r.others k h ∙ o k h;
          end = r.end;
        })
    | inr (x, e, o) ↦ subst (IsPushed key (v ∷ vs) s.world) (sym (fails key v vs s x e)) (record {
      done = [];
      rest = v ∷ vs;
      all = refl;
      list = o key;
      others = λ k h. o k;
      end = (x, refl);
    })
  ]

after-right : (l vs : List Bytes) → after (λ l v. l ++ (v ∷ [])) l vs ≡ l ++ vs
unfolding after
after-right l [] = sym (append-nil l)
after-right l (v ∷ vs) = after-right (l ++ (v ∷ [])) vs ∙ append_assoc l (v ∷ []) vs

reverse_aux-append : (xs r l : List Bytes) → reverse_aux xs (r ++ l) ≡ reverse_aux xs r ++ l
reverse_aux-append [] r l = refl
reverse_aux-append (x ∷ xs) r l = reverse_aux-append xs (x ∷ r) l

after_aux : (l vs : List Bytes) → after (λ l v. v ∷ l) l vs ≡ reverse_aux vs l
unfolding after
after_aux l [] = refl
after_aux l (v ∷ vs) = after_aux (v ∷ l) vs

after-left : (l vs : List Bytes) → after (λ l v. v ∷ l) l vs ≡ reverse vs ++ l
after-left l vs = after_aux l vs ∙ reverse_aux-append vs [] l

-- The answer, by what could not be pushed.
unfoldable pub push_answer : List Bytes → EncodeResult
push_answer [] = record { status = ok; response = codes "$1" ++ (crlf ++ (codes "1" ++ crlf)) }
push_answer (v ∷ vs) = record {
  status = ok;
  response = codes "-ERR Internal error happened" ++ crlf;
}

module _ (tree : Tree) (elements : tree.World → Bytes → List Bytes) where
  open tree use {World}

  -- What has become of a push of `vs` to the list of `key`.
  pub record Serves (put : List Bytes → List Bytes → List Bytes) (key : Bytes) (vs : List Bytes)
      (w : World) (r : Outcome EncodeResult × HandlerState World) : Type 0 where
    pub done : List Bytes
    pub rest : List Bytes
    pub all : vs ≡ done ++ rest
    pub list : elements r.1.world key ≡ put (elements w key) done
    pub others : (k : Bytes) → k ≢ key → elements r.1.world k ≡ elements w k
    pub answer : r.0 ≡ returned (push_answer rest)

  ends :
      (rest : List Bytes) (o : Outcome (Unit {0}) × HandlerState World)
      → IsEnd rest o.0
      → caught (bind o (λ u. enc integers (codes "1"))) ≡ (returned (push_answer rest), o.1)
  unfolding IsEnd push_answer encode line bulk to_string
  ends [] o e = rw e refl
  ends (v ∷ vs) o (x, e) = rw e refl

  short : (n : ℕ) → ltb (suc (suc (suc n))) 3 ≡ false
  short n = ground (arith, lt→ltb (suc (suc (suc n))) 3)

  rpush_guard :
      (args : List Bytes) (s : HandlerState World)
      → ltb (length args) 3 ≡ false
      → handle_rpush_request tree args s
        ≡ try_catch
            (do key ← at args 1; push_all tree.rpush_ex key (drop 2 args); enc integers (codes "1"))
            s
  unfolding handle_rpush_request
  rpush_guard args s h = rw h refl

  rpush_ends :
      (command key v : Bytes) (vs rest : List Bytes) (s : HandlerState World)
      → IsEnd rest (push_all tree.rpush_ex key (v ∷ vs) s).0
      → handle_rpush_request tree (command ∷ key ∷ v ∷ vs) s
        ≡ (returned (push_answer rest), (push_all tree.rpush_ex key (v ∷ vs) s).1)
  rpush_ends command key v vs rest s h =
      rpush_guard (command ∷ key ∷ v ∷ vs) s (short (length vs))
      ∙ ends rest (push_all tree.rpush_ex key (v ∷ vs) s) h

  -- On a cluster whose `rpush_ex` puts an element behind a list or throws and changes none: RPUSH with
  -- at least one element puts some first part of the elements behind the list, in their order, and
  -- changes no other list. The answer is the bulk string "1" where that part is all of them, and the
  -- internal error otherwise: what was pushed before a failure stays.
  pub handle_rpush_request-Serves :
      IsPush elements (λ l v. l ++ (v ∷ [])) tree.rpush_ex
      → (command key v : Bytes) (vs : List Bytes) (s : HandlerState World)
      → Serves
          (λ l done. l ++ done)
          key
          (v ∷ vs)
          s.world
          (handle_rpush_request tree (command ∷ key ∷ v ∷ vs) s)
  handle_rpush_request-Serves law command key v vs s =
      let r = push_all-IsPushed elements _ tree.rpush_ex law key (v ∷ vs) s in
      subst (Serves (λ l done. l ++ done) key (v ∷ vs) s.world)
        (sym (rpush_ends command key v vs r.rest s r.end))
        (record {
          done = r.done;
          rest = r.rest;
          all = r.all;
          list = r.list ∙ after-right _ r.done;
          others = r.others;
          answer = refl;
        })

  lpush_guard :
      (args : List Bytes) (s : HandlerState World)
      → ltb (length args) 3 ≡ false
      → handle_lpush_request tree args s
        ≡ try_catch
            (do key ← at args 1; push_all tree.lpush_ex key (drop 2 args); enc integers (codes "1"))
            s
  unfolding handle_lpush_request
  lpush_guard args s h = rw h refl

  lpush_ends :
      (command key v : Bytes) (vs rest : List Bytes) (s : HandlerState World)
      → IsEnd rest (push_all tree.lpush_ex key (v ∷ vs) s).0
      → handle_lpush_request tree (command ∷ key ∷ v ∷ vs) s
        ≡ (returned (push_answer rest), (push_all tree.lpush_ex key (v ∷ vs) s).1)
  lpush_ends command key v vs rest s h =
      lpush_guard (command ∷ key ∷ v ∷ vs) s (short (length vs))
      ∙ ends rest (push_all tree.lpush_ex key (v ∷ vs) s) h

  -- On a cluster whose `lpush_ex` puts an element in front of a list or throws and changes none: LPUSH
  -- with at least one element puts some first part of the elements in front of the list, the last of
  -- the part foremost, and changes no other list. The answer is the bulk string "1" where that part is all
  -- of them, and the internal error otherwise: what was pushed before a failure stays.
  pub handle_lpush_request-Serves :
      IsPush elements (λ l v. v ∷ l) tree.lpush_ex
      → (command key v : Bytes) (vs : List Bytes) (s : HandlerState World)
      → Serves
          (λ l done. reverse done ++ l)
          key
          (v ∷ vs)
          s.world
          (handle_lpush_request tree (command ∷ key ∷ v ∷ vs) s)
  handle_lpush_request-Serves law command key v vs s =
      let r = push_all-IsPushed elements _ tree.lpush_ex law key (v ∷ vs) s in
      subst (Serves (λ l done. reverse done ++ l) key (v ∷ vs) s.world)
        (sym (lpush_ends command key v vs r.rest s r.end))
        (record {
          done = r.done;
          rest = r.rest;
          all = r.all;
          list = r.list ∙ after-left _ r.done;
          others = r.others;
          answer = refl;
        })
