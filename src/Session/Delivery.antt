-- ===== src/Session/Delivery.antt =====
-- A session from its first response on: what the client has received, in every order of arrival.
use mathlib.Core.List.{Mem, Nodup, Perm, Nodup-cons, Nodup-nil, dec_mem}
use mathlib.Core.List.Perm
use logcabin_redis_proxy.Base.{
  ℕ, zero, suc, ◌≤◌, ◌<◌, ◌≡◌, refl, sym, ap, ◌∙◌, Bool, false, List, [], ◌∷◌, ◌++◌, arith,
  append-nil, ℕ_discrete,
}
use logcabin_redis_proxy.Bytes.{Bytes}
use logcabin_redis_proxy.Session.{Socket, SessionCtx, new_session_ctx, insert_new_response}
use logcabin_redis_proxy.Session.Arrivals.{
  below, Mem-below, lt-Mem-below, adds, extend, extend_of_Mem, extend_of_not-Mem, FreshIn,
  FreshIn-Nodup,
}
use logcabin_redis_proxy.Session.Order.{
  has_key, responses, SortedFrom, AcceptsAll, Ordered, insert_new_response-Ordered,
}

-- The first id that is missing among 0 .. n - 1 and nothing else is n.
first_missing :
    (n : ℕ) (ids : List ℕ)
    → Perm ids (below n)
    → (t : ℕ) → ((i : ℕ) → i < t → Mem i ids)
    → ¬ Mem t ids
    → t ≡ n
first_missing n ids perm t before missing = omega (arith, not_over, not_under)
  where
    not_over : ¬ (n < t)
    not_over h = absurd (omega (arith, lt-Mem-below n n ((Perm.mem_iff perm).0 (before n h))))

    not_under : ¬ (t < n)
    not_under h = missing ((Perm.mem_iff perm).1 (Mem-below n t h))

-- A map whose keys have all arrived, where none arrives from its least key on, is empty.
no_key :
    (f : ℕ → Bytes) (m : List (ℕ × Bytes)) (arrived : ℕ → Bool) (n t : ℕ)
    → t ≡ n
    → ((i : ℕ) → n ≤ i → arrived i ≡ false)
    → ((i : ℕ) → t ≤ i → arrived i ≡ has_key i m)
    → SortedFrom f t m
    → m ≡ []
unfolding has_key
no_key f [] arrived n t e none kept s = refl
no_key f ((k, v) ∷ m) arrived n t e none kept s = ground (arith, none k, kept k)

module _ (socket : Socket) (f : ℕ → Bytes) where
  -- The responses `f i` of the listed commands arrive one after the other.
  unfoldable pub insert_responses : List ℕ → SessionCtx → socket.World → SessionCtx × socket.World
  insert_responses [] ctx w = (ctx, w)
  insert_responses (i ∷ ids) ctx w =
      let (ctx', w') = insert_new_response socket ctx i (f i) w in insert_responses ids ctx' w'

module _ (socket : Socket) (accepts : AcceptsAll socket) (f : ℕ → Bytes) (fd : ℕ)
    (w : socket.World) where
  open socket use {World, received}

  insert_responses-Ordered :
      (arrived : ℕ → Bool) (ids : List ℕ) (ctx : SessionCtx) (v : World)
      → FreshIn arrived ids
      → Ordered socket accepts f fd (received fd w) arrived ctx v
      → let (ctx', v') = insert_responses socket f ids ctx v in
        Ordered socket accepts f fd (received fd w) (extend arrived ids) ctx' v'
  unfolding insert_responses
  insert_responses-Ordered arrived [] ctx v fresh o = o
  insert_responses-Ordered arrived (k ∷ ids) ctx v fresh o =
      insert_responses-Ordered (adds k arrived) ids _ _ fresh.1
        (insert_new_response-Ordered socket accepts f fd (received fd w) arrived k ctx v fresh.0 o)

  pub new_session-Ordered :
      Ordered socket accepts f fd (received fd w) (λ _. false) (new_session_ctx fd) w
  unfolding new_session_ctx has_key
  new_session-Ordered = record {
    pending = record {
      same_fd = refl;
      alive = refl;
      sent = sym (append-nil (received fd w));
      below = λ i h. absurd (omega arith);
      sorted = tt;
      kept = λ i h. refl;
    };
    next = refl;
  }

  delivered :
      (ids : List ℕ)
      → Nodup ids
      → let (ctx', w') = insert_responses socket f ids (new_session_ctx fd) w in
        Ordered socket accepts f fd (received fd w) (extend (λ _. false) ids) ctx' w'
  delivered ids d =
      insert_responses-Ordered _ ids _ w (FreshIn-Nodup _ ids d (λ i m. refl)) new_session-Ordered

  -- When responses of distinct commands have come in any order to a new session whose socket takes
  -- every write, the client has received those of the commands 0 .. n - 1, in this order and with
  -- nothing else, where `n` is the first command whose response has not come, and is next in line.
  pub insert_responses-prefix :
      (ids : List ℕ)
      → Nodup ids
      → let (ctx', w') = insert_responses socket f ids (new_session_ctx fd) w in
        (received fd w' ≡ received fd w ++ responses f ctx'.to_send_command_id)
        × ((i : ℕ) → i < ctx'.to_send_command_id → Mem i ids)
        × (¬ Mem ctx'.to_send_command_id ids)
        × (ctx'.is_eof_reach ≡ false)
  insert_responses-prefix ids d =
      let o = delivered ids d in
      let t = (insert_responses socket f ids (new_session_ctx fd) w).0.to_send_command_id in
      (
        o.pending.sent,
        λ i h. elim (dec_mem ℕ_discrete i ids) [
          | yes m ↦ m
          | no n ↦
              let arrived = o.pending.below i h in
              let not = extend_of_not-Mem (λ _. false) ids i n in cc
        ],
        λ m. let arrived = extend_of_Mem (λ _. false) ids t m in let next = o.next in cc,
        o.pending.alive,
      )

  below-Nodup : (n : ℕ) → Nodup (below n)
  below-Nodup zero = Nodup-nil
  below-Nodup (suc n) =
      Nodup-cons.1 ((λ m. absurd (omega (arith, lt-Mem-below n n m))), below-Nodup n)

  -- When the responses of the commands 0 .. n - 1 have come to a new session, in any order, and its
  -- socket takes every write, the client has received exactly these responses, in the order of the
  -- commands; none is left in the map, and command n is next in line.
  pub insert_responses-perm :
      (n : ℕ) (ids : List ℕ)
      → Perm ids (below n)
      → let (ctx', w') = insert_responses socket f ids (new_session_ctx fd) w in
        (received fd w' ≡ received fd w ++ responses f n)
        × (ctx'.to_send_command_id ≡ n)
        × (ctx'.buffered_responses ≡ [])
        × (ctx'.is_eof_reach ≡ false)
  insert_responses-perm n ids perm =
      let p = insert_responses-prefix ids (Perm.nodup (Perm.symm perm) (below-Nodup n)) in
      let o = delivered ids (Perm.nodup (Perm.symm perm) (below-Nodup n)) in
      let t = (insert_responses socket f ids (new_session_ctx fd) w).0.to_send_command_id in
      let all : t ≡ n = first_missing n ids perm t p.1 p.2 in
      (
        p.0 ∙ ap (λ k. received fd w ++ responses f k) all,
        all,
        no_key f _ (extend (λ _. false) ids) n t all
            (λ i h.
              extend_of_not-Mem (λ _. false) ids i
                (λ m. absurd (omega (arith, lt-Mem-below n i ((Perm.mem_iff perm).0 m)))))
            o.pending.kept o.pending.sorted,
        p.3,
      )
