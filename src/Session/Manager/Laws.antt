-- ===== src/Session/Manager/Laws.antt =====
-- The methods of `SessionManager` and the table of sessions.
use logcabin_redis_proxy.Base.{
  ℕ, ◌+◌, ◌≤◌, ◌<◌, ◌≡◌, ◌≢◌, refl, sym, ap, subst, ◌∙◌, true, false, [], ◌∷◌, none, some, arith,
  length, length-append, get_elem?, get_elem?-append, inl, inr, Option-cases, ◌==◌, if◌then◌else◌,
}
use logcabin_redis_proxy.Map.{
  map_find, map_erase, KeysFrom, map_find-map_insert, map_find-map_erase, KeysFrom-map_insert,
  KeysFrom-map_erase,
}
use logcabin_redis_proxy.Session.{Socket, SessionCtx, new_session_ctx}
use logcabin_redis_proxy.Session.Manager.Heap.{
  length-store, length-mark_eof, get_elem?-mark_eof_ne, get_elem?-mark_eof_self,
  get_elem?-append_left,
}
use logcabin_redis_proxy.Session.Manager.{
  SessionManager, new_session_manager, store, insert_new_staus, get_ctx, mark_eof, close_fd,
  erase_session, close_fd,
}

-- The ids are below the counter, the pointers point into the heap, and no two sessions share a
-- context.
pub record IsSound (m : SessionManager) : Type 0 where
  pub sorted : KeysFrom 0 m.ctx_map
  pub ids_used : (i p : ℕ) → get_ctx m i ≡ some p → i ≤ m.session_counter
  pub in_heap : (i p : ℕ) → get_ctx m i ≡ some p → p < length m.heap
  pub unshared : (i j p : ℕ) → get_ctx m i ≡ some p → get_ctx m j ≡ some p → i ≡ j

pub new_session_manager-IsSound : (memory : ℕ) → IsSound (new_session_manager memory)
unfolding new_session_manager get_ctx map_find
new_session_manager-IsSound memory = record {
  sorted = tt;
  ids_used = λ i p h. cc;
  in_heap = λ i p h. cc;
  unshared = λ i j p h k. cc;
}

pub new_id : (m : SessionManager) → IsSound m → get_ctx m (m.session_counter + 1) ≡ none
new_id m v = elim (Option-cases (get_ctx m (m.session_counter + 1))) [
  | inl e ↦ e
  | inr (p, e) ↦ absurd (omega (arith, v.ids_used (m.session_counter + 1) p e))
]

pub get_ctx-insert_new_staus :
    (m : SessionManager) (fd i : ℕ)
    → IsSound m
    → get_ctx (insert_new_staus m fd).0 i
      ≡ (if m.session_counter + 1 == i then some (length m.heap) else get_ctx m i)
unfolding get_ctx insert_new_staus
get_ctx-insert_new_staus m fd i v =
    map_find-map_insert (m.session_counter + 1) i _ m.ctx_map (new_id m v)

insert_new_staus-IsSound :
    (m : SessionManager) (fd : ℕ) → IsSound m → IsSound (insert_new_staus m fd).0
unfolding insert_new_staus
insert_new_staus-IsSound m fd v = record {
  sorted = KeysFrom-map_insert 0 _ _ m.ctx_map (omega arith) v.sorted;
  ids_used = λ i p h. ground (arith, get_ctx-insert_new_staus m fd i v, v.ids_used i p);
  in_heap = λ i p h. ground (
    arith,
    get_ctx-insert_new_staus m fd i v,
    v.in_heap i p,
    length-append m.heap (new_session_ctx fd ∷ []),
  );
  unshared = λ i j p h k. ground (
    arith,
    get_ctx-insert_new_staus m fd i v,
    get_ctx-insert_new_staus m fd j v,
    v.in_heap i p,
    v.in_heap j p,
    v.unshared i j p,
  );
}

-- What a new session is, in terms of the constructor of its context.
pub insert_new_staus-added :
    (m : SessionManager) (fd : ℕ)
    → IsSound m
    → let (m', id) = insert_new_staus m fd in
      IsSound m'
      × (get_ctx m id ≡ none)
      × (get_ctx m' id ≡ some (length m.heap))
      × (get_elem? m'.heap (length m.heap) ≡ some (new_session_ctx fd))
      × ((i p : ℕ)
          → get_ctx m i ≡ some p
          → (get_ctx m' i ≡ some p) × (get_elem? m'.heap p ≡ get_elem? m.heap p))
unfolding insert_new_staus
insert_new_staus-added m fd v = (
  insert_new_staus-IsSound m fd v,
  new_id m v,
  found,
  get_elem?-append m.heap [] _,
  λ i p h. (kept i p h, get_elem?-append_left m.heap _ p (v.in_heap i p h)),
)
  where
    found : get_ctx (insert_new_staus m fd).0 (m.session_counter + 1) ≡ some (length m.heap)
    found = ground (arith, get_ctx-insert_new_staus m fd (m.session_counter + 1) v)

    kept : (i p : ℕ) → get_ctx m i ≡ some p → get_ctx (insert_new_staus m fd).0 i ≡ some p
    kept i p h = ground (arith, get_ctx-insert_new_staus m fd i v, v.ids_used i p)

-- A new session has an id that no session has, a context of its own for its descriptor that waits
-- for command 0, with nothing buffered and not marked as ended, and the table stays sound; and every other session keeps its context and what is in it.
pub insert_new_staus_lem :
    (m : SessionManager) (fd : ℕ)
    → IsSound m
    → let (m', id) = insert_new_staus m fd in
      IsSound m'
      × (get_ctx m id ≡ none)
      × (get_ctx m' id ≡ some (length m.heap))
      × (get_elem? m'.heap (length m.heap)
          ≡ some (record {
            fd = fd;
            to_send_command_id = 0;
            buffered_responses = [];
            is_eof_reach = false;
          }))
      × ((i p : ℕ)
          → get_ctx m i ≡ some p
          → (get_ctx m' i ≡ some p) × (get_elem? m'.heap p ≡ get_elem? m.heap p))
unfolding new_session_ctx
insert_new_staus_lem m fd v = insert_new_staus-added m fd v

module _ (socket : Socket) (m : SessionManager) (id : ℕ) (w : socket.World) where
  pub erase_session_missing : get_ctx m id ≡ none → erase_session socket m id w ≡ (m, w)
  unfolding get_ctx erase_session
  erase_session_missing e = rw (e, erase_session) refl

  pub erase_session_found :
      {p : ℕ}
      → get_ctx m id ≡ some p
      → erase_session socket m id w ≡ (
        record m { ctx_map = map_erase id m.ctx_map; heap = mark_eof m.heap p },
        close_fd socket (get_elem? m.heap p) w,
      )
  unfolding get_ctx erase_session
  erase_session_found e = rw (e, erase_session) refl

  get_ctx-erase_session :
      (i : ℕ)
      → IsSound m
      → get_ctx (erase_session socket m id w).0 i ≡ (if id == i then none else get_ctx m i)
  unfolding get_ctx
  get_ctx-erase_session i v = elim (Option-cases (get_ctx m id)) [
    | inl e ↦ ap (λ r. map_find i r.0.ctx_map) (erase_session_missing e) ∙ ground arith
    | inr (p, e) ↦
        ap (λ r. map_find i r.0.ctx_map) (erase_session_found e)
        ∙ map_find-map_erase 0 id i m.ctx_map v.sorted
  ]

  pub same_size : length (erase_session socket m id w).0.heap ≡ length m.heap
  same_size = elim (Option-cases (get_ctx m id)) [
    | inl e ↦ ap (λ r. length r.0.heap) (erase_session_missing e)
    | inr (p, e) ↦ ap (λ r. length r.0.heap) (erase_session_found e) ∙ length-mark_eof m.heap p
  ]

  pub same_counter : (erase_session socket m id w).0.session_counter ≡ m.session_counter
  same_counter = elim (Option-cases (get_ctx m id)) [
    | inl e ↦ ap (λ r. r.0.session_counter) (erase_session_missing e)
    | inr (p, e) ↦ ap (λ r. r.0.session_counter) (erase_session_found e)
  ]

  erase_session-sorted : IsSound m → KeysFrom 0 (erase_session socket m id w).0.ctx_map
  erase_session-sorted v = elim (Option-cases (get_ctx m id)) [
    | inl e ↦ subst (λ r. KeysFrom 0 r.0.ctx_map) (sym (erase_session_missing e)) v.sorted
    | inr (p, e) ↦
        subst (λ r. KeysFrom 0 r.0.ctx_map) (sym (erase_session_found e))
          (KeysFrom-map_erase 0 id m.ctx_map v.sorted)
  ]

  erase_session-IsSound : IsSound m → IsSound (erase_session socket m id w).0
  erase_session-IsSound v = record {
    sorted = erase_session-sorted v;
    ids_used = λ i p h. ground (arith, get_ctx-erase_session i v, v.ids_used i p, same_counter);
    in_heap = λ i p h. ground (arith, get_ctx-erase_session i v, v.in_heap i p, same_size);
    unshared = λ i j p h k.
        ground (arith, get_ctx-erase_session i v, get_ctx-erase_session j v, v.unshared i j p);
  }

  -- To erase a session takes its id away and no other, closes its descriptor and marks its context,
  -- which threads may still hold, as ended; the contexts of the other sessions stay as they are.
  pub erase_session_lem :
      IsSound m
      → IsSound (erase_session socket m id w).0
        × ((i : ℕ)
            → get_ctx (erase_session socket m id w).0 i ≡ (if id == i then none else get_ctx m i))
        × ((p : ℕ) (ctx : SessionCtx)
            → get_ctx m id ≡ some p
            → get_elem? m.heap p ≡ some ctx
            → (get_elem? (erase_session socket m id w).0.heap p
                ≡ some (record ctx { is_eof_reach = true }))
              × ((erase_session socket m id w).1 ≡ socket.close ctx.fd w))
        × ((i p : ℕ)
            → id ≢ i
            → get_ctx m i ≡ some p
            → get_elem? (erase_session socket m id w).0.heap p ≡ get_elem? m.heap p)
  erase_session_lem v = (
    erase_session-IsSound v,
    λ i. get_ctx-erase_session i v,
    λ p ctx e h. (
      ap (λ r. get_elem? r.0.heap p) (erase_session_found e)
          ∙ get_elem?-mark_eof_self m.heap p ctx h,
      ap (λ r. r.1) (erase_session_found e) ∙ ap (λ c. close_fd socket c w) h,
    ),
    λ i p ne h. elim (Option-cases (get_ctx m id)) [
      | inl e ↦ ap (λ r. get_elem? r.0.heap p) (erase_session_missing e)
      | inr (q, e) ↦
          ap (λ r. get_elem? r.0.heap p) (erase_session_found e)
          ∙ get_elem?-mark_eof_ne m.heap q p (λ s. ne (v.unshared id i p (e ∙ ap some s) h))
    ],
  )

-- A write through a pointer keeps the table as it is.
pub store-IsSound :
    (m : SessionManager) (ptr : ℕ) (ctx : SessionCtx)
    → IsSound m
    → IsSound (record m { heap = store m.heap ptr ctx })
unfolding get_ctx
store-IsSound m ptr ctx v = record {
  sorted = v.sorted;
  ids_used = v.ids_used;
  in_heap = λ i p h. subst (λ n. p < n) (sym (length-store m.heap ptr ctx)) (v.in_heap i p h);
  unshared = v.unshared;
}
