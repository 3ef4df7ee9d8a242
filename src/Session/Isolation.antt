-- ===== src/Session/Isolation.antt =====
-- What the responses of one session do to the sockets of the others.
use logcabin_redis_proxy.Base.{
  ℕ, zero, suc, ◌+◌, ◌≡◌, ◌≢◌, refl, ◌∙◌, true, List, [], ◌∷◌, Option, none, some, ltb, ◌==◌,
  if◌then◌else◌, length, drop, ℤ, pos, negsuc, to_size, ◌+ℤ◌, is_positive, inl, inr, Bool-cases,
}
use logcabin_redis_proxy.Bytes.{Bytes}
use logcabin_redis_proxy.Map.{map_insert}
use logcabin_redis_proxy.Session.{
  Socket, SessionCtx, reply_loop, or_stuck, reply, send_buffered, send_first_response, reply_next,
  insert_new_response,
}

module _ (socket : Socket) (other : ℕ) where
  open socket use {World, write, received, write_other}

  -- The other peer has received nothing more.
  abbrev Spares : World → Option (ℤ × World) → Type 0
  Spares w none = Unit
  Spares w (some r) = received other r.1 ≡ received other w

  Spares-after :
      (v w : World) (o : Option (ℤ × World))
      → received other v ≡ received other w
      → Spares v o
      → Spares w o
  Spares-after v w none e h = tt
  Spares-after v w (some r) e h = h ∙ e

  branch :
      (fuel fd : ℕ) (content : Bytes) (sent_size : ℤ) (w : World)
      → fd ≢ other
      → (r : ℤ × World) → received other r.1 ≡ received other w
      → ((sent : ℤ) (v : World) → Spares v (reply_loop socket fuel fd content sent v))
      → Spares w (elim r.0 [
        | pos n ↦ some (pos n, r.1)
        | negsuc n ↦ reply_loop socket fuel fd content (sent_size +ℤ negsuc n) r.1
      ])
  branch fuel fd content sent_size w h (pos n, v) e k = e
  branch fuel fd content sent_size w h (negsuc n, v) e k =
      Spares-after v w (reply_loop socket fuel fd content (sent_size +ℤ negsuc n) v) e (k _ v)

  reply_loop-Spares :
      (fuel fd : ℕ) (content : Bytes) (sent_size : ℤ) (w : World)
      → fd ≢ other
      → Spares w (reply_loop socket fuel fd content sent_size w)
  unfolding reply_loop
  reply_loop-Spares zero fd content sent_size w h = tt
  reply_loop-Spares (suc fuel) fd content sent_size w h =
      elim (Bool-cases (ltb (to_size sent_size) (length content))) [
        | inl e ↦
            rw (e, reply_loop)
              (branch fuel fd content sent_size w h (write fd (drop (to_size sent_size) content) w)
                (write_other fd other (drop (to_size sent_size) content) w h)
                (λ sent v. reply_loop-Spares fuel fd content sent v h))
        | inr e ↦ rw (e, reply_loop) refl
      ]

  or_stuck_other :
      (w : World) (o : Option (ℤ × World))
      → Spares w o
      → received other (or_stuck socket w o).1 ≡ received other w
  or_stuck_other w none h = refl
  or_stuck_other w (some r) h = h

  reply_other :
      (fd : ℕ) (content : Bytes) (w : World)
      → fd ≢ other
      → received other (reply socket fd content w).1 ≡ received other w
  unfolding reply
  reply_other fd content w h =
      or_stuck_other w (reply_loop socket 2 fd content (pos 0) w)
        (reply_loop-Spares 2 fd content (pos 0) w h)

  send_buffered_other :
      (m : List (ℕ × Bytes)) (ctx : SessionCtx) (w : World)
      → ctx.fd ≢ other
      → (received other (send_buffered socket m ctx w).1 ≡ received other w)
        × ((send_buffered socket m ctx w).0.fd ≡ ctx.fd)
  unfolding send_buffered
  send_buffered_other [] ctx w h = (refl, refl)
  send_buffered_other ((id, resp) ∷ rest) ctx w h =
      let v = (reply socket ctx.fd resp w).1 in
      let e = reply_other ctx.fd resp w h in
      elim (Bool-cases (id == ctx.to_send_command_id)) [
        | inl f ↦ elim (Bool-cases (is_positive (reply socket ctx.fd resp w).0)) [
          | inl g ↦
              let r =
                send_buffered_other rest
                  (record ctx { to_send_command_id = ctx.to_send_command_id + 1 }) v h in
              rw (f, g) (r.0 ∙ e, r.1)
          | inr g ↦ rw (f, g) (e, refl)
        ]
        | inr f ↦ rw f (refl, refl)
      ]

  -- A response that comes to a session, and all that it sends with it, changes nothing of what the peer
  -- of any other descriptor has received, and the session keeps its descriptor.
  pub insert_new_response-other :
      (ctx : SessionCtx) (command_id : ℕ) (resp : Bytes) (w : World)
      → ctx.fd ≢ other
      → (received other (insert_new_response socket ctx command_id resp w).1 ≡ received other w)
        × ((insert_new_response socket ctx command_id resp w).0.fd ≡ ctx.fd)
  unfolding insert_new_response send_first_response reply_next
  insert_new_response-other ctx command_id resp w h =
      elim (Bool-cases (command_id == ctx.to_send_command_id)) [
        | inl f ↦
            let r =
              send_buffered_other ctx.buffered_responses
                (record ctx {
                  is_eof_reach =
                      if is_positive (reply socket ctx.fd resp w).0 then ctx.is_eof_reach else true;
                  to_send_command_id = ctx.to_send_command_id + 1;
                })
                (reply socket ctx.fd resp w).1 h in
            rw f (r.0 ∙ reply_other ctx.fd resp w h, r.1)
        | inr f ↦
            let m = map_insert command_id resp ctx.buffered_responses in
            rw f (send_buffered_other m (record ctx { buffered_responses = m }) w h)
      ]
