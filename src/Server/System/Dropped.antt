-- ===== src/Server/System/Dropped.antt =====
-- What a response meets whose connection is over.
use logcabin_redis_proxy.Base.{ℕ, ◌≡◌, refl, ◌∙◌, none, ==_iff}
use logcabin_redis_proxy.Resp.Decoder.{DecodeContext}
use logcabin_redis_proxy.Server.State.{Environment, Reply, Server}
use logcabin_redis_proxy.Server.Workers.{sender_worker, drop_client}
use logcabin_redis_proxy.Session.Manager.Laws.{IsSound, erase_session_lem}
use logcabin_redis_proxy.Session.Manager.{get_ctx, erase_session}

module _ (env : Environment) where
  open env use {socket}

  -- Once a client is dropped, a response to its session that is still in the pool is thrown away: the
  -- worker that takes it changes nothing.
  pub sender_worker-drop_client :
      (fd : ℕ) (ctx : DecodeContext) (s : Server env) (r : Reply)
      → IsSound s.manager
      → r.session_id ≡ ctx.session_id
      → sender_worker env r (drop_client env fd ctx s) ≡ drop_client env fd ctx s
  unfolding sender_worker drop_client
  sender_worker-drop_client fd ctx s r v e = rw (e, gone) refl
    where
      gone : get_ctx (erase_session socket s.manager ctx.session_id s.world).0 ctx.session_id ≡ none
      gone =
          (erase_session_lem socket s.manager ctx.session_id s.world v).1 ctx.session_id
          ∙ rw ((==_iff ctx.session_id ctx.session_id).1 refl) refl
