-- ===== src/Session/Reply.antt =====
-- What `reply` sends and what it tells its caller.
use logcabin_redis_proxy.Base.{
  ℕ, suc, ◌^◌, ◌<◌, ◌≡◌, refl, sym, ap, ◌∙◌, true, false, [], ◌∷◌, ◌++◌, some, arith, ltb, length,
  ◌+ℤ◌, to_size, lt→ltb, take, take-length, append-nil, pos, negsuc, is_positive, ℤ, ◌⊎◌, inl, inr,
}
use logcabin_redis_proxy.Bytes.{Bytes}
use logcabin_redis_proxy.Session.{Socket, reply_loop, reply}

module _ (socket : Socket) (fd : ℕ) (content : Bytes) (w : socket.World) where
  open socket use {World, write, received, write_some, write_error}

  -- One `write` decides: whatever it has taken, `reply` returns at once.
  reply_loop_taken :
      (n : ℕ)
      → 0 < length content
      → (write fd content w).0 ≡ pos n
      → reply_loop socket 2 fd content (pos 0) w ≡ some (pos n, (write fd content w).1)
  unfolding reply_loop
  reply_loop_taken n h e = ground arith

  reply_loop_more :
      (fuel n : ℕ)
      → 0 < length content
      → (write fd content w).0 ≡ negsuc n
      → reply_loop socket (suc fuel) fd content (pos 0) w
        ≡ reply_loop socket fuel fd content (pos 0 +ℤ negsuc n) (write fd content w).1
  unfolding reply_loop
  reply_loop_more fuel n h e = rw (lt→ltb 0 _ h, reply_loop) (rw e refl)

  -- `sent_size` is -1, and as a `size_t` no content is as long as that.
  reply_loop_wrapped :
      (fuel : ℕ)
      → length content < 2 ^ 63
      → reply_loop socket (suc fuel) fd content (pos 0 +ℤ negsuc 0) w ≡ some (pos 1, w)
  unfolding reply_loop ◌+ℤ◌
  reply_loop_wrapped fuel b = rw (wrapped, reply_loop) refl
    where
      wrapped : ltb (to_size (pos 0 +ℤ negsuc 0)) (length content) ≡ false
      wrapped = ground arith

reply_loop_empty :
    (socket : Socket) (fd : ℕ) (w : socket.World)
    → reply_loop socket 2 fd [] (pos 0) w ≡ some (pos 1, w)
unfolding reply_loop
reply_loop_empty socket fd w = refl

module _ (socket : Socket) (fd : ℕ) (content : Bytes) (w : socket.World) where
  open socket use {World, write, received, write_some, write_error}

  reply_loop_failed :
      0 < length content
      → length content < 2 ^ 63
      → (write fd content w).0 ≡ negsuc 0
      → reply_loop socket 2 fd content (pos 0) w ≡ some (pos 1, (write fd content w).1)
  reply_loop_failed h b e =
      reply_loop_more socket fd content w 1 0 h e
      ∙ reply_loop_wrapped socket fd content (write fd content w).1 0 b

  -- A `write` that takes only a part of a response ends `reply`: the peer gets this part of the
  -- response and no more, and the caller gets the number of bytes sent.
  pub reply_short_write :
      (n : ℕ)
      → 0 < length content
      → (write fd content w).0 ≡ pos n
      → ((reply socket fd content w).0 ≡ pos n)
        × (received fd (reply socket fd content w).1 ≡ received fd w ++ take n content)
  unfolding reply
  reply_short_write n h e =
      rw (reply_loop_taken socket fd content w n h e) (refl, (write_some fd content w n e).1)

  -- A `write` that fails is reported to the caller as a success, with nothing sent.
  pub reply_failed_write :
      (n : ℕ)
      → 0 < length content
      → length content < 2 ^ 63
      → (write fd content w).0 ≡ negsuc n
      → ((reply socket fd content w).0 ≡ pos 1)
        × (received fd (reply socket fd content w).1 ≡ received fd w)
  unfolding reply
  reply_failed_write n h b e =
      rw (reply_loop_failed h b minus_one) (refl, (write_error fd content w n e).1)
    where
      minus_one : (write fd content w).0 ≡ negsuc 0
      minus_one = e ∙ ap negsuc (write_error fd content w n e).0

-- A `write` that takes everything sends the response.
pub reply_full_write :
    (socket : Socket) (fd : ℕ) (content : Bytes) (w : socket.World)
    → (socket.write fd content w).0 ≡ pos (length content)
    → (is_positive (reply socket fd content w).0 ≡ true)
      × (socket.received fd (reply socket fd content w).1 ≡ socket.received fd w ++ content)
unfolding reply reply_loop
reply_full_write socket fd [] w e = (refl, sym (append-nil (socket.received fd w)))
reply_full_write socket fd (c ∷ s) w e =
    let sent = reply_short_write socket fd (c ∷ s) w (length (c ∷ s)) (omega arith) e in
    (
      ap is_positive sent.0 ∙ lt→ltb 0 (length (c ∷ s)) (omega arith),
      sent.1 ∙ ap (λ t. socket.received fd w ++ t) (take-length (c ∷ s)),
    )

-- For any content shorter than 2^63 bytes, and whatever `write` returns, the loop of `reply` ends within
-- two tests of its condition, for which `reply` allows, and `reply` returns what the loop ends with.
pub reply_loop-ends :
    (socket : Socket) (fd : ℕ) (content : Bytes) (w : socket.World)
    → length content < 2 ^ 63
    → (r : ℤ × socket.World) × (reply_loop socket 2 fd content (pos 0) w ≡ some r)
      × (reply socket fd content w ≡ r)
unfolding reply
reply_loop-ends socket fd [] w b =
    (_, reply_loop_empty socket fd w, rw (reply_loop_empty socket fd w) refl)
reply_loop-ends socket fd (c ∷ s) w b = elim (sign (socket.write fd (c ∷ s) w).0) [
  | inl (n, e) ↦ let t = reply_loop_taken socket fd (c ∷ s) w n (omega arith) e in (_, t, rw t refl)
  | inr (n, e) ↦
      let t =
        reply_loop_failed socket fd (c ∷ s) w (omega arith) b
          (e ∙ ap negsuc (socket.write_error fd (c ∷ s) w n e).0) in
      (_, t, rw t refl)
]
  where
    sign : (z : ℤ) → ((n : ℕ) × (z ≡ pos n)) ⊎ ((n : ℕ) × (z ≡ negsuc n))
    sign (pos n) = inl (n, refl)
    sign (negsuc n) = inr (n, refl)
