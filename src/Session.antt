-- ===== src/Session.antt =====
-- `SessionCtx` of src/proxy/SessionManager.h and src/proxy/SessionManager.cc: the responses of one
-- connection, sent in the order of their command ids. The system calls are those of a `Socket`.
pub mod Reply
pub mod Order
pub mod Arrivals
pub mod Delivery
pub mod Faults
pub mod Isolation
pub mod Manager
use logcabin_redis_proxy.Base.{
  ℕ, zero, suc, ◌+◌, ◌≤◌, ◌≡◌, ◌≢◌, Bool, true, false, List, [], ◌∷◌, ◌++◌, Option, none, some, ltb,
  ◌==◌, if◌then◌else◌, length, take, drop, ℤ, pos, negsuc, to_size, ◌+ℤ◌, is_positive,
}
use logcabin_redis_proxy.Bytes.{Bytes}
use logcabin_redis_proxy.Map.{map_insert}

-- `write(2)` and `close(2)`. `received fd` is what was written to the socket.
pub record Socket : Type 1 where
  pub World : Type 0
  pub write : ℕ → Bytes → World → ℤ × World
  pub close : ℕ → World → World
  pub received : ℕ → World → Bytes
  pub write_some :
      (fd : ℕ) (s : Bytes) (w : World) (n : ℕ)
      → (write fd s w).0 ≡ pos n
      → (n ≤ length s) × (received fd (write fd s w).1 ≡ received fd w ++ take n s)
  pub write_error :
      (fd : ℕ) (s : Bytes) (w : World) (n : ℕ)
      → (write fd s w).0 ≡ negsuc n
      → (n ≡ 0) × (received fd (write fd s w).1 ≡ received fd w)
  pub write_other :
      (fd other : ℕ) (s : Bytes) (w : World)
      → fd ≢ other
      → received other (write fd s w).1 ≡ received other w
  pub close_same : (fd other : ℕ) (w : World) → received other (close fd w) ≡ received other w

-- `buffered_responses` is a `std::map`: sorted by the command id.
pub record SessionCtx : Type 0 where
  pub fd : ℕ
  pub to_send_command_id : ℕ
  pub buffered_responses : List (ℕ × Bytes)
  pub is_eof_reach : Bool

unfoldable pub new_session_ctx : ℕ → SessionCtx
new_session_ctx fd = record {
  fd = fd;
  to_send_command_id = 0;
  buffered_responses = [];
  is_eof_reach = false;
}

module _ (socket : Socket) where
  open socket use {World, write}

  -- The loop of `reply`. `sent_size < content.length()` compares as `size_t`.
  unfoldable pub reply_loop : ℕ → ℕ → Bytes → ℤ → World → Option (ℤ × World)
  reply_loop zero fd content sent_size w = none
  reply_loop (suc fuel) fd content sent_size w = elim (ltb (to_size sent_size) (length content)) [
    | false ↦ some (pos 1, w)
    | true ↦
        let (one_send_size, w') = write fd (drop (to_size sent_size) content) w in
        elim one_send_size [
          | pos n ↦ some (pos n, w')
          | negsuc n ↦ reply_loop fuel fd content (sent_size +ℤ negsuc n) w'
        ]
  ]

  abbrev or_stuck : World → Option (ℤ × World) → ℤ × World
  or_stuck w none = (pos 1, w)
  or_stuck w (some r) = r

  unfoldable pub reply : ℕ → Bytes → World → ℤ × World
  reply fd content w = or_stuck w (reply_loop 2 fd content (pos 0) w)

  -- The loop of `send_first_response` over the map; the list is what it still holds.
  unfoldable pub send_buffered : List (ℕ × Bytes) → SessionCtx → World → SessionCtx × World
  send_buffered [] ctx w = (record ctx { buffered_responses = [] }, w)
  send_buffered ((id, resp) ∷ rest) ctx w =
      let (reply_result, w') = reply ctx.fd resp w in
      if id == ctx.to_send_command_id
      then (if is_positive reply_result
          then send_buffered rest (record ctx { to_send_command_id = ctx.to_send_command_id + 1 })
              w'
          else (record ctx { buffered_responses = (id, resp) ∷ rest; is_eof_reach = true }, w'))
      else (record ctx { buffered_responses = (id, resp) ∷ rest }, w)

  unfoldable pub send_first_response : SessionCtx → World → SessionCtx × World
  send_first_response ctx w = send_buffered ctx.buffered_responses ctx w

  -- The reply of the command that is next in line.
  unfoldable pub reply_next : SessionCtx → Bytes → World → SessionCtx × World
  reply_next ctx resp w =
      let (reply_result, w') = reply ctx.fd resp w in
      (
        record ctx {
          is_eof_reach = if is_positive reply_result then ctx.is_eof_reach else true;
          to_send_command_id = ctx.to_send_command_id + 1;
        },
        w',
      )

  unfoldable pub insert_new_response : SessionCtx → ℕ → Bytes → World → SessionCtx × World
  unfolding send_first_response reply_next
  insert_new_response ctx command_id resp w =
      if command_id == ctx.to_send_command_id
      then (let (ctx', w') = reply_next ctx resp w in send_first_response ctx' w')
      else send_first_response
          (record ctx { buffered_responses = map_insert command_id resp ctx.buffered_responses }) w
