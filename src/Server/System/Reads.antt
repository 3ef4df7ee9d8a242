-- ===== src/Server/System/Reads.antt =====
-- What a callback that reads comes to.
use logcabin_redis_proxy.Base.{
  ℕ, ◌≡◌, refl, ap, ◌∙◌, List, [], ◌∷◌, ◌++◌, some, length, drop, drop-append, ◌⊎◌, inl, inr,
}
use logcabin_redis_proxy.Resp.Decoder.Invariant.{
  AreNumbered, FeedKeeps, feed-IsWellFormed, IsWellFormed,
}
use logcabin_redis_proxy.Resp.Decoder.Log.{Extends, feed-Extends}
use logcabin_redis_proxy.Resp.Decoder.{DecodeContext, Decoded, threw, out_of_fuel, feed}
use logcabin_redis_proxy.Resp.Decoder
use logcabin_redis_proxy.Resp.{Command}
use logcabin_redis_proxy.Server.State.{Environment, Server, Ran, running, terminated, store_context}
use logcabin_redis_proxy.Server.Workers.{
  ReadResult, read_error, read_bytes, drop_client, decoded, read_by, enqueued,
}

module _ (env : Environment) (fd data_ptr : ℕ) (ctx : DecodeContext) (s : Server env) where
  -- The commands `new` were read.
  pub record HasRead (o : Ran env) : Type 0 where
    pub context : DecodeContext
    pub new : List Command
    pub next_id : ℕ
    pub same_id : context.session_id ≡ ctx.session_id
    pub log : context.handled ≡ ctx.handled ++ new
    pub numbered : AreNumbered 0 context.handled next_id
    pub result :
        o
        ≡ running (record s {
          contexts = store_context s.contexts data_ptr context;
          tasks = s.tasks ++ enqueued ctx.session_id new;
        })

  -- The connection is over, commands were read, or an exception has ended the process.
  abbrev pub ReadCase : Ran env → Type 0
  ReadCase o = (o ≡ running (drop_client env fd ctx s)) ⊎ (HasRead o ⊎ (o ≡ terminated))

  decoded-case :
      (d : Decoded DecodeContext)
      → FeedKeeps d
      → ((ctx' : DecodeContext)
          → d ≡ Decoder.ok ctx'
          → (ctx'.session_id ≡ ctx.session_id) × Extends ctx.handled ctx'.handled)
      → ReadCase (decoded env data_ptr ctx d s)
  decoded-case (Decoder.ok c) w h =
      let (same, (new, log)) = h c refl in
      inr (
        inl (record {
          context = c;
          new = new;
          next_id = c.last_command_id;
          same_id = same;
          log = log;
          numbered = w.log;
          result =
              ap
                (λ l. running (record s {
                  contexts = store_context s.contexts data_ptr c;
                  tasks = s.tasks ++ enqueued ctx.session_id l;
                }))
                (ap (drop (length ctx.handled)) log ∙ drop-append ctx.handled new);
        }))
  decoded-case (threw e l) w h = inr (inr refl)
  decoded-case out_of_fuel w h = elim w [ ]

  pub read_by-case :
      (r : ReadResult)
      → IsWellFormed ctx.progress
      → ReadCase (read_by env fd data_ptr r (some ctx) s)
  read_by-case read_error w = inl refl
  read_by-case (read_bytes []) w = inl refl
  read_by-case (read_bytes (c ∷ bytes)) w =
      decoded-case (feed ctx (c ∷ bytes)) (feed-IsWellFormed ctx (c ∷ bytes) w)
        (λ ctx' e. feed-Extends ctx ctx' (c ∷ bytes) e)
