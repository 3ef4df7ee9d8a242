-- ===== src/Session/Order.antt =====
-- The responses that have arrived at a session, and those of them that are sent.
pub mod Change
use logcabin_redis_proxy.Base.{
  ℕ, zero, suc, ◌+◌, ◌≤◌, ◌<◌, ◌≡◌, refl, sym, ap, subst, ◌∙◌, Bool, true, false, ◌||◌, List, [],
  ◌∷◌, ◌++◌, arith, length, ◌==◌, pos, inl, inr, Bool-cases, ==_iff, append_assoc,
}
use logcabin_redis_proxy.Bytes.{Bytes}
use logcabin_redis_proxy.Map.{map_insert}
use logcabin_redis_proxy.Session.{Socket, SessionCtx, reply, send_buffered, insert_new_response}
use logcabin_redis_proxy.Session.Reply.{reply_full_write}

unfoldable pub has_key : ℕ → List (ℕ × Bytes) → Bool
has_key i [] = false
has_key i ((k, v) ∷ m) = k == i || has_key i m

-- The responses of the commands below `n`, one behind the other.
abbrev pub responses : (ℕ → Bytes) → ℕ → Bytes
responses f zero = []
responses f (suc n) = responses f n ++ f n

-- Sorted keys from `t` on, each with its response.
abbrev pub SortedFrom : (ℕ → Bytes) → ℕ → List (ℕ × Bytes) → Type 0
SortedFrom f t [] = Unit
SortedFrom f t ((k, v) ∷ m) = (t ≤ k) × (v ≡ f k) × SortedFrom f (suc k) m

suc-eq-add_one : (n : ℕ) → suc n ≡ n + 1
suc-eq-add_one n = omega arith

module _ (f : ℕ → Bytes) where
  has_key_below : (m : List (ℕ × Bytes)) (t i : ℕ) → i < t → SortedFrom f t m → has_key i m ≡ false
  unfolding has_key
  has_key_below [] t i h s = refl
  has_key_below ((k, v) ∷ m) t i h s = ground (arith, has_key_below m (suc k) i)

  SortedFrom-map_insert :
      (m : List (ℕ × Bytes)) (t k : ℕ)
      → t ≤ k
      → has_key k m ≡ false
      → SortedFrom f t m
      → SortedFrom f t (map_insert k (f k) m)
  unfolding map_insert has_key
  SortedFrom-map_insert [] t k h n s = (h, refl, tt)
  SortedFrom-map_insert ((j, u) ∷ m) t k h n s = ground (arith, SortedFrom-map_insert m (suc j) k)

  has_key-map_insert :
      (m : List (ℕ × Bytes)) (k i : ℕ) (v : Bytes)
      → has_key i (map_insert k v m) ≡ (k == i || has_key i m)
  unfolding map_insert has_key
  has_key-map_insert [] k i v = refl
  has_key-map_insert ((j, u) ∷ m) k i v = ground (arith, has_key-map_insert m k i v)

  SortedFrom-next :
      (m : List (ℕ × Bytes)) (t : ℕ)
      → has_key t m ≡ false
      → SortedFrom f t m
      → SortedFrom f (t + 1) m
  unfolding has_key
  SortedFrom-next [] t h s = tt
  SortedFrom-next ((k, v) ∷ m) t h s = (ground (arith, h, s.0), s.1, s.2)

-- `write` takes everything that it is given.
abbrev pub AcceptsAll : Socket → Type 0
AcceptsAll socket =
    (fd : ℕ) (s : Bytes) (w : socket.World) → (socket.write fd s w).0 ≡ pos (length s)

module _ (socket : Socket) (accepts : AcceptsAll socket) (f : ℕ → Bytes) (fd : ℕ)
    (base : Bytes) where
  open socket use {World, write, received}

  -- The context has the responses `f i` of the commands with `arrived i`, and `m` for its map.
  pub record Pending (arrived : ℕ → Bool) (ctx : SessionCtx) (m : List (ℕ × Bytes)) (w : World)
      : Type 0 where
    pub same_fd : ctx.fd ≡ fd
    pub alive : ctx.is_eof_reach ≡ false
    pub sent : received fd w ≡ base ++ responses f ctx.to_send_command_id
    pub below : (i : ℕ) → i < ctx.to_send_command_id → arrived i ≡ true
    pub sorted : SortedFrom f ctx.to_send_command_id m
    pub kept : (i : ℕ) → ctx.to_send_command_id ≤ i → arrived i ≡ has_key i m

  pub record Ordered (arrived : ℕ → Bool) (ctx : SessionCtx) (w : World) : Type 0 where
    pub pending : Pending arrived ctx ctx.buffered_responses w
    pub next : arrived ctx.to_send_command_id ≡ false

  -- What the next command's response adds.
  received-reply :
      (ctx : SessionCtx) (s : Bytes) (w : World)
      → ctx.fd ≡ fd
      → s ≡ f ctx.to_send_command_id
      → received fd w ≡ base ++ responses f ctx.to_send_command_id
      → received fd (reply socket ctx.fd s w).1 ≡ base ++ responses f (ctx.to_send_command_id + 1)
  received-reply ctx s w same is_next sent =
      let t = ctx.to_send_command_id in
      ap (λ d. received d (reply socket ctx.fd s w).1) (sym same)
      ∙ (reply_full_write socket ctx.fd s w (accepts ctx.fd s w)).1
      ∙ ap (λ d. received d w ++ s) same
      ∙ ap (λ r. r ++ s) sent
      ∙ append_assoc base (responses f t) s
      ∙ ap (λ r. base ++ (responses f t ++ r)) is_next
      ∙ ap (λ n. base ++ responses f n) (suc-eq-add_one t)

  Pending-sent :
      (arrived : ℕ → Bool) (id : ℕ) (resp : Bytes) (rest : List (ℕ × Bytes)) (ctx : SessionCtx)
      (w : World)
      → Pending arrived ctx ((id, resp) ∷ rest) w
      → id ≡ ctx.to_send_command_id
      → Pending arrived
          (record ctx { to_send_command_id = ctx.to_send_command_id + 1 })
          rest
          (reply socket ctx.fd resp w).1
  unfolding has_key
  Pending-sent arrived id resp rest ctx w p e = record {
    same_fd = p.same_fd;
    alive = p.alive;
    sent = received-reply ctx resp w p.same_fd (p.sorted.1 ∙ ap f e) p.sent;
    below = λ i h. ground (arith, p.below i, p.kept i);
    sorted = subst (λ n. SortedFrom f n rest) (omega arith) p.sorted.2;
    kept = λ i h. ground (arith, p.kept i);
  }

  -- The responses that have come up are all sent.
  send_buffered-Ordered :
      (arrived : ℕ → Bool) (m : List (ℕ × Bytes)) (ctx : SessionCtx) (w : World)
      → Pending arrived ctx m w
      → let (ctx', w') = send_buffered socket m ctx w in Ordered arrived ctx' w'
  unfolding send_buffered has_key
  send_buffered-Ordered arrived [] ctx w p = record {
    pending = record {
      same_fd = p.same_fd;
      alive = p.alive;
      sent = p.sent;
      below = p.below;
      sorted = p.sorted;
      kept = p.kept;
    };
    next = p.kept ctx.to_send_command_id (omega arith);
  }
  send_buffered-Ordered arrived ((id, resp) ∷ rest) ctx w p =
      elim (Bool-cases (id == ctx.to_send_command_id)) [
        | inl up ↦
            rw (up, (reply_full_write socket ctx.fd resp w (accepts ctx.fd resp w)).0)
              (send_buffered-Ordered arrived rest
                (record ctx { to_send_command_id = ctx.to_send_command_id + 1 })
                (reply socket ctx.fd resp w).1
                (Pending-sent arrived id resp rest ctx w p ((==_iff _ _).0 up)))
        | inr later ↦ rw later (record {
          pending = record {
            same_fd = p.same_fd;
            alive = p.alive;
            sent = p.sent;
            below = p.below;
            sorted = p.sorted;
            kept = p.kept;
          };
          next =
              p.kept ctx.to_send_command_id (omega arith)
              ∙ ground
                  (arith, later, p.sorted, has_key_below f rest (suc id) ctx.to_send_command_id);
        })
      ]

  -- A response arrives for a command that had none.
  pub insert_new_response-Ordered :
      (arrived : ℕ → Bool) (k : ℕ) (ctx : SessionCtx) (w : World)
      → arrived k ≡ false
      → Ordered arrived ctx w
      → let (ctx', w') = insert_new_response socket ctx k (f k) w in
        Ordered (λ i. k == i || arrived i) ctx' w'
  unfolding insert_new_response
  insert_new_response-Ordered arrived k ctx w new o =
      elim (Bool-cases (k == ctx.to_send_command_id)) [
        | inl up ↦
            rw (up, (reply_full_write socket ctx.fd (f k) w (accepts ctx.fd (f k) w)).0)
              (send_buffered-Ordered _ ctx.buffered_responses _ _ (sent_now ((==_iff _ _).0 up)))
        | inr later ↦ rw later (
            send_buffered-Ordered _ (map_insert k (f k) ctx.buffered_responses) _ _
              (kept_back later))
      ]
    where
      sent_now :
          k ≡ ctx.to_send_command_id
          → Pending
              (λ i. k == i || arrived i)
              (record ctx { to_send_command_id = ctx.to_send_command_id + 1 })
              ctx.buffered_responses
              (reply socket ctx.fd (f k) w).1
      sent_now e = record {
        same_fd = o.pending.same_fd;
        alive = o.pending.alive;
        sent = received-reply ctx (f k) w o.pending.same_fd (ap f e) o.pending.sent;
        below = λ i h. ground (arith, o.pending.below i);
        sorted =
            SortedFrom-next f ctx.buffered_responses ctx.to_send_command_id
              (sym (o.pending.kept ctx.to_send_command_id (omega arith)) ∙ o.next) o.pending.sorted;
        kept = λ i h. ground (arith, o.pending.kept i);
      }

      above : (k == ctx.to_send_command_id) ≡ false → ctx.to_send_command_id ≤ k
      above later = ground (arith, o.pending.below k)

      kept_back :
          (k == ctx.to_send_command_id) ≡ false
          → Pending
              (λ i. k == i || arrived i)
              (record ctx { buffered_responses = map_insert k (f k) ctx.buffered_responses })
              (map_insert k (f k) ctx.buffered_responses)
              w
      kept_back later = record {
        same_fd = o.pending.same_fd;
        alive = o.pending.alive;
        sent = o.pending.sent;
        below = λ i h. ground (arith, o.pending.below i);
        sorted =
            SortedFrom-map_insert f ctx.buffered_responses ctx.to_send_command_id k (above later)
              (sym (o.pending.kept k (above later)) ∙ new) o.pending.sorted;
        kept = λ i h.
            ap (λ b. k == i || b) (o.pending.kept i h)
            ∙ sym (has_key-map_insert f ctx.buffered_responses k i (f k));
      }
