-- ===== src/Session/Faults.antt =====
-- What becomes of a response whose `write` fails or takes a part of it.
use logcabin_redis_proxy.Base.{
  ℕ, ◌+◌, ◌^◌, ◌<◌, ◌≡◌, refl, ap, ◌∙◌, true, [], ◌++◌, arith, length, take, pos, negsuc,
  is_positive, lt→ltb, ==_iff,
}
use logcabin_redis_proxy.Bytes.{Bytes}
use logcabin_redis_proxy.Session.{Socket, SessionCtx, reply, send_buffered, insert_new_response}
use logcabin_redis_proxy.Session.Reply.{reply_short_write, reply_failed_write}

module _ (socket : Socket) (ctx : SessionCtx) (resp : Bytes) (w : socket.World) where
  open socket use {World, write, received}

  -- With nothing buffered, the response that is next in line is counted as sent when `reply` returns
  -- a positive number.
  pub insert_next :
      ctx.buffered_responses ≡ []
      → is_positive (reply socket ctx.fd resp w).0 ≡ true
      → insert_new_response socket ctx ctx.to_send_command_id resp w ≡ (
        record ctx { to_send_command_id = ctx.to_send_command_id + 1; buffered_responses = [] },
        (reply socket ctx.fd resp w).1,
      )
  unfolding insert_new_response send_buffered
  insert_next e h =
      rw ((==_iff ctx.to_send_command_id ctx.to_send_command_id).1 refl, h)
        (ap
          (λ m.
            send_buffered socket m (record ctx { to_send_command_id = ctx.to_send_command_id + 1 })
              (reply socket ctx.fd resp w).1)
          e)

  -- With nothing buffered, when `write` takes only a part of the response that is next in line, but at
  -- least a byte, the rest of it is never sent: the client gets that part alone, the session goes on to the next command and is not marked as
  -- ended.
  pub insert_new_response-short_write :
      (n : ℕ)
      → ctx.buffered_responses ≡ []
      → 0 < n
      → n < length resp
      → (write ctx.fd resp w).0 ≡ pos n
      → let (ctx', w') = insert_new_response socket ctx ctx.to_send_command_id resp w in
        (received ctx.fd w' ≡ received ctx.fd w ++ take n resp)
        × (ctx'.to_send_command_id ≡ ctx.to_send_command_id + 1)
        × (ctx'.buffered_responses ≡ [])
        × (ctx'.is_eof_reach ≡ ctx.is_eof_reach)
  insert_new_response-short_write n e h l r =
      let sent = reply_short_write socket ctx.fd resp w n (omega arith) r in
      rw (insert_next e (ap is_positive sent.0 ∙ lt→ltb 0 n h)) (sent.1, refl, refl, refl)

  -- With nothing buffered, when `write` fails on the response that is next in line, which is not empty
  -- and shorter than 2^63, the client gets nothing of it, and yet
  -- the session goes on to the next command and is not marked as ended.
  pub insert_new_response-failed_write :
      (n : ℕ)
      → ctx.buffered_responses ≡ []
      → 0 < length resp
      → length resp < 2 ^ 63
      → (write ctx.fd resp w).0 ≡ negsuc n
      → let (ctx', w') = insert_new_response socket ctx ctx.to_send_command_id resp w in
        (received ctx.fd w' ≡ received ctx.fd w)
        × (ctx'.to_send_command_id ≡ ctx.to_send_command_id + 1)
        × (ctx'.buffered_responses ≡ [])
        × (ctx'.is_eof_reach ≡ ctx.is_eof_reach)
  insert_new_response-failed_write n e h b r =
      let sent = reply_failed_write socket ctx.fd resp w n h b r in
      rw (insert_next e (ap is_positive sent.0)) (sent.1, refl, refl, refl)
