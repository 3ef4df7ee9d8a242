-- ===== src/Session/Manager/Holders.antt =====
-- Which session has which descriptor, through the methods of `SessionManager`.
use logcabin_redis_proxy.Base.{ℕ, ◌+◌, ◌≡◌, ◌≢◌, ap, ◌∙◌, some, arith, length, get_elem?, ==_iff}
use logcabin_redis_proxy.Session.Manager.Descriptors.{
  descriptors, get_elem?-descriptors, descriptors-append_left, descriptors-erase_session,
}
use logcabin_redis_proxy.Session.Manager.Laws.{IsSound, insert_new_staus-added, erase_session_lem}
use logcabin_redis_proxy.Session.Manager.{SessionManager, insert_new_staus, get_ctx, erase_session}
use logcabin_redis_proxy.Session.{Socket, new_session_ctx}

-- The session with the id is in the table, and its descriptor is `fd`.
pub record Holds (m : SessionManager) (id fd : ℕ) : Type 0 where
  pub pointer : ℕ
  pub in_table : get_ctx m id ≡ some pointer
  pub descriptor : get_elem? (descriptors m.heap) pointer ≡ some fd

-- A session has one descriptor.
pub Holds-unique : (m : SessionManager) (id fd k : ℕ) → Holds m id fd → Holds m id k → fd ≡ k
Holds-unique m id fd k h g = cc (h.in_table, g.in_table, h.descriptor, g.descriptor)

-- A table that has the same pointers, in a heap with the same descriptors.
pub Holds-like :
    (m n : SessionManager) (id fd : ℕ)
    → ((j : ℕ) → get_ctx n j ≡ get_ctx m j)
    → descriptors n.heap ≡ descriptors m.heap
    → Holds m id fd
    → Holds n id fd
Holds-like m n id fd t d h = record {
  pointer = h.pointer;
  in_table = t id ∙ h.in_table;
  descriptor = ap (λ l. get_elem? l h.pointer) d ∙ h.descriptor;
}

pub Holds-insert_new_staus :
    (m : SessionManager) (id fd k : ℕ)
    → IsSound m
    → Holds m id fd
    → Holds (insert_new_staus m k).0 id fd
unfolding insert_new_staus
Holds-insert_new_staus m id fd k v h =
    let (sound, fresh, found, at_new, kept) = insert_new_staus-added m k v in
    record {
      pointer = h.pointer;
      in_table = (kept id h.pointer h.in_table).0;
      descriptor =
          descriptors-append_left m.heap _ h.pointer (v.in_heap id h.pointer h.in_table)
          ∙ h.descriptor;
    }

-- The new session has the new descriptor.
pub Holds-new :
    (m : SessionManager) (fd : ℕ)
    → IsSound m
    → Holds (insert_new_staus m fd).0 (m.session_counter + 1) fd
unfolding insert_new_staus new_session_ctx
Holds-new m fd v =
    let (sound, fresh, found, at_new, kept) = insert_new_staus-added m fd v in
    record {
      pointer = length m.heap;
      in_table = found;
      descriptor = get_elem?-descriptors _ (length m.heap) at_new;
    }

-- To erase another session leaves it as it is.
pub Holds-erase_session :
    (socket : Socket) (m : SessionManager) (id fd other : ℕ) (w : socket.World)
    → IsSound m
    → other ≢ id
    → Holds m id fd
    → Holds (erase_session socket m other w).0 id fd
Holds-erase_session socket m id fd other w v ne h = record {
  pointer = h.pointer;
  in_table =
      ground (arith, (erase_session_lem socket m other w v).1 id, h.in_table, ==_iff other id);
  descriptor =
      ap (λ l. get_elem? l h.pointer) (descriptors-erase_session socket m other w) ∙ h.descriptor;
}
