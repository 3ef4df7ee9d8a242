-- ===== src/Session/Manager.antt =====
-- `SessionManager` of src/proxy/SessionManager.h and src/proxy/SessionManager.cc. The contexts are
-- shared objects: they live in `heap`, and a `shared_ptr` is an index into it. Each method is one
-- step; `get_ctx` and `session_get_eof` take no lock in the source.
pub mod Heap
pub mod Laws
pub mod Descriptors
pub mod Holders
use logcabin_redis_proxy.Base.{
  ℕ, zero, suc, ◌+◌, Bool, true, List, [], ◌∷◌, ◌++◌, Option, none, some, length, get_elem?,
}
use logcabin_redis_proxy.Map.{map_insert, map_find, map_erase}
use logcabin_redis_proxy.Session.{Socket, SessionCtx, new_session_ctx}

pub record SessionManager : Type 0 where
  pub session_counter : ℕ
  pub ctx_map : List (ℕ × ℕ)
  pub heap : List SessionCtx

-- `new SessionManager()`: the counter is not initialised and has what `memory` has.
unfoldable pub new_session_manager : ℕ → SessionManager
new_session_manager memory = record { session_counter = memory; ctx_map = []; heap = [] }

-- To write to a shared object.
unfoldable pub store : List SessionCtx → ℕ → SessionCtx → List SessionCtx
store [] ptr ctx = []
store (c ∷ h) zero ctx = ctx ∷ h
store (c ∷ h) (suc ptr) ctx = c ∷ store h ptr ctx

unfoldable pub get_next_session_counter_number : SessionManager → SessionManager × ℕ
get_next_session_counter_number m =
    (record m { session_counter = m.session_counter + 1 }, m.session_counter + 1)

-- It returns the session's id; `make_shared` puts the new context behind the others.
unfoldable pub insert_new_staus : SessionManager → ℕ → SessionManager × ℕ
unfolding get_next_session_counter_number
insert_new_staus m fd =
    let (m', session_id) = get_next_session_counter_number m in
    (
      record m' {
        ctx_map = map_insert session_id (length m.heap) m.ctx_map;
        heap = m.heap ++ (new_session_ctx fd ∷ []);
      },
      session_id,
    )

-- `none` is NULL.
unfoldable pub get_ctx : SessionManager → ℕ → Option ℕ
get_ctx m session_id = map_find session_id m.ctx_map

-- `is_eof_reach = true` through a pointer.
unfoldable pub mark_eof : List SessionCtx → ℕ → List SessionCtx
mark_eof h ptr = elim (get_elem? h ptr) [
  | none ↦ h
  | some ctx ↦ store h ptr (record ctx { is_eof_reach = true })
]

unfoldable pub session_get_eof : SessionManager → ℕ → SessionManager
unfolding mark_eof
session_get_eof m session_id = elim (map_find session_id m.ctx_map) [
  | none ↦ m
  | some ptr ↦ record m { heap = mark_eof m.heap ptr }
]

module _ (socket : Socket) where
  open socket use {World, close}

  abbrev pub close_fd : Option SessionCtx → World → World
  close_fd none w = w
  close_fd (some ctx) w = close ctx.fd w

  unfoldable pub erase_session : SessionManager → ℕ → World → SessionManager × World
  unfolding mark_eof
  erase_session m session_id w = elim (map_find session_id m.ctx_map) [
    | none ↦ (m, w)
    | some ptr ↦ (
      record m { ctx_map = map_erase session_id m.ctx_map; heap = mark_eof m.heap ptr },
      close_fd (get_elem? m.heap ptr) w,
    )
  ]
