-- ===== src/Session/Order/Change.antt =====
-- The order of a session's responses under a write to another socket and under more responses.
use logcabin_redis_proxy.Base.{
  ℕ, zero, suc, ◌≤◌, ◌<◌, ◌≡◌, refl, ap, ◌∙◌, Bool, true, List, [], ◌∷◌, ◌++◌, arith,
}
use logcabin_redis_proxy.Bytes.{Bytes}
use logcabin_redis_proxy.Session.{Socket, SessionCtx}
use logcabin_redis_proxy.Session.Order.{has_key, responses, SortedFrom, AcceptsAll, Ordered}

responses-ext :
    (f g : ℕ → Bytes) (n : ℕ) → ((k : ℕ) → k < n → f k ≡ g k) → responses f n ≡ responses g n
responses-ext f g zero h = refl
responses-ext f g (suc n) h =
    ap (λ r. r ++ f n) (responses-ext f g n (λ k l. h k (omega (arith, l))))
    ∙ ap (λ r. responses g n ++ r) (h n (omega arith))

SortedFrom-ext :
    (f g : ℕ → Bytes) (t : ℕ) (m : List (ℕ × Bytes))
    → ((k : ℕ) → has_key k m ≡ true → f k ≡ g k)
    → SortedFrom f t m
    → SortedFrom g t m
unfolding has_key
SortedFrom-ext f g t [] h s = tt
SortedFrom-ext f g t ((k, v) ∷ m) h s = (
  s.0,
  s.1 ∙ h k (ground arith),
  SortedFrom-ext f g (suc k) m (λ j e. h j (ground (arith, e))) s.2,
)

has_key_from :
    (f : ℕ → Bytes) (t k : ℕ) (m : List (ℕ × Bytes)) → SortedFrom f t m → has_key k m ≡ true → t ≤ k
unfolding has_key
has_key_from f t k [] s h = cc
has_key_from f t k ((j, v) ∷ m) s h = ground (arith, h, s.0, has_key_from f (suc j) k m s.2)

module _ (socket : Socket) (accepts : AcceptsAll socket) (fd : ℕ) (base : Bytes) where
  open socket use {World, received}

  -- The peer has received nothing more.
  pub Ordered-world :
      (f : ℕ → Bytes) (arrived : ℕ → Bool) (ctx : SessionCtx) (v w : World)
      → received fd v ≡ received fd w
      → Ordered socket accepts f fd base arrived ctx w
      → Ordered socket accepts f fd base arrived ctx v
  Ordered-world f arrived ctx v w e o = record {
    pending = record {
      same_fd = o.pending.same_fd;
      alive = o.pending.alive;
      sent = e ∙ o.pending.sent;
      below = o.pending.below;
      sorted = o.pending.sorted;
      kept = o.pending.kept;
    };
    next = o.next;
  }

  -- Only the responses that have arrived matter.
  pub Ordered-ext :
      (f g : ℕ → Bytes) (arrived : ℕ → Bool) (ctx : SessionCtx) (w : World)
      → ((k : ℕ) → arrived k ≡ true → f k ≡ g k)
      → Ordered socket accepts f fd base arrived ctx w
      → Ordered socket accepts g fd base arrived ctx w
  Ordered-ext f g arrived ctx w h o =
      let p = o.pending in
      record {
        pending = record {
          same_fd = p.same_fd;
          alive = p.alive;
          sent =
              p.sent
              ∙ ap (λ r. base ++ r)
                  (responses-ext f g ctx.to_send_command_id (λ k l. h k (p.below k l)));
          below = p.below;
          sorted =
              SortedFrom-ext f g _ ctx.buffered_responses
                (λ k e. h k (p.kept k (has_key_from f _ k ctx.buffered_responses p.sorted e) ∙ e))
                p.sorted;
          kept = p.kept;
        };
        next = o.next;
      }
