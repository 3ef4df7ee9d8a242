-- ===== src/Server/System/Inputs.antt =====
-- What was read from one connection, in all the steps of the process.
use mathlib.Core.Option.{some-injective}
use logcabin_redis_proxy.Base.{
  get_elem?-append_some, ℕ, ◌≡◌, refl, sym, ap, subst, ◌∙◌, [], ◌∷◌, ◌++◌, some, arith, All,
  All-middle, append-nil, get_elem?, ◌==◌, ==_iff, if◌then◌else◌, ℕ_discrete, true, false, Bool,
}
use logcabin_redis_proxy.Bytes.{Bytes}
use logcabin_redis_proxy.Resp.Decoder.Chunks.{then_feed, feed-append}
use logcabin_redis_proxy.Resp.Decoder.{
  DecodeContext, Decoded, threw, out_of_fuel, new_decode_context, feed,
}
use logcabin_redis_proxy.Resp.Decoder
use logcabin_redis_proxy.Server.State.{
  Environment, Server, Ran, running, terminated, undefined, store_context,
}
use logcabin_redis_proxy.Server.State.Contexts.{
  get_elem?-store_context_self, get_elem?-store_context_ne,
}
use logcabin_redis_proxy.Server.System.Pools.{sender_worker-SamePools, drop_client-SamePools}
use logcabin_redis_proxy.Server.System.Safety.{
  IsFit, Keeps, HasRequest, has_elem, processed, Step-IsFit,
}
use logcabin_redis_proxy.Server.System.{
  Step, accepts, reads, processes, sends, Reaches, starts, continues,
}
use logcabin_redis_proxy.Server.Workers.{
  ReadResult, read_error, read_bytes, read_by, decoded, read_from_client, accept_tcp_handler,
  send_reply, drop_client,
}

-- What a read adds to the bytes of the connection with the client data `d`.
abbrev pub added : ℕ → ℕ → ReadResult → Bytes
added d data_ptr read_error = []
added d data_ptr (read_bytes bytes) = if data_ptr == d then bytes else []

nothing_read : (b : Bool) → if◌then◌else◌ {A = Bytes} b [] [] ≡ []
nothing_read true = refl
nothing_read false = refl

module _ (env : Environment) (d : ℕ) where
  unfoldable pub step_input : {s : Server env} {o : Ran env} → Step env s o → Bytes
  step_input (accepts client_fd memory free) = []
  step_input (reads fd data_ptr r h) = added d data_ptr r
  step_input (processes t before behind e) = []
  step_input (sends r before behind e) = []

  -- The bytes that were read from the connection, one read behind the other.
  unfoldable pub input : {s : Server env} {o : Ran env} → Reaches env s o → Bytes
  unfolding step_input
  input starts = []
  input (continues before step) = input before ++ step_input step

  -- A state that is written in another way has the same history.
  pub input-subst :
      {s : Server env} {o o' : Ran env} (e : o ≡ o') (r : Reaches env s o)
      → input (subst (Reaches env s) e r) ≡ input r
  input-subst {s = s} e r = sym (λ j. input (coe 0 j (i. Reaches env s (e i)) r))

  module _ (c0 : DecodeContext) where
    -- The connection's context is what the decoder makes of the bytes.
    pub record Decodes (bytes : Bytes) (s : Server env) : Type 0 where
      pub ctx : DecodeContext
      pub at_d : get_elem? s.contexts d ≡ some ctx
      pub fed : feed c0 bytes ≡ Decoder.ok ctx

    unfoldable pub AfterDecodes : Bytes → Ran env → Type 0
    AfterDecodes bytes (running s) = Decodes bytes s
    AfterDecodes bytes terminated = Unit
    AfterDecodes bytes undefined = Unit

    same_contexts :
        (bytes : Bytes) (s t : Server env)
        → t.contexts ≡ s.contexts
        → Decodes bytes s
        → Decodes (bytes ++ []) t
    same_contexts bytes s t e k = record {
      ctx = k.ctx;
      at_d = ap (λ l. get_elem? l d) e ∙ k.at_d;
      fed = ap (feed c0) (append-nil bytes) ∙ k.fed;
    }

    decoded-Decodes :
        (bytes more : Bytes) (data_ptr : ℕ) (ctx : DecodeContext) (s : Server env)
        (r : Decoded DecodeContext)
        → get_elem? s.contexts data_ptr ≡ some ctx
        → feed ctx more ≡ r
        → Decodes bytes s
        → AfterDecodes
            (bytes ++ (if data_ptr == d then more else []))
            (decoded env data_ptr ctx r s)
    unfolding AfterDecodes
    decoded-Decodes bytes more data_ptr ctx s (Decoder.ok c) at e k = elim (ℕ_discrete data_ptr d) [
      | yes same ↦
          let same_ctx : k.ctx ≡ ctx =
            some-injective _ _ (sym k.at_d ∙ ap (get_elem? s.contexts) (sym same) ∙ at) in
          record {
            ctx = c;
            at_d =
                subst (λ j. get_elem? (store_context s.contexts j c) d ≡ some c) (sym same)
                  (get_elem?-store_context_self s.contexts d c k.at_d);
            fed =
                ap (λ b. feed c0 (bytes ++ (if b then more else []))) ((==_iff data_ptr d).1 same)
                ∙ feed-append c0 bytes more
                ∙ ap (λ x. then_feed x more) k.fed
                ∙ ap (λ x. feed x more) same_ctx
                ∙ e;
          }
      | no ne ↦
          let other : data_ptr == d ≡ false = ground (arith, ne) in
          record {
            ctx = k.ctx;
            at_d = get_elem?-store_context_ne s.contexts data_ptr d c ne ∙ k.at_d;
            fed =
                ap (λ b. feed c0 (bytes ++ (if b then more else []))) other
                ∙ ap (feed c0) (append-nil bytes)
                ∙ k.fed;
          }
    ]
    decoded-Decodes bytes more data_ptr ctx s (threw x h) at e k = tt
    decoded-Decodes bytes more data_ptr ctx s out_of_fuel at e k = tt

    read_by-Decodes :
        (bytes : Bytes) (fd data_ptr : ℕ) (r : ReadResult) (ctx : DecodeContext) (s : Server env)
        → get_elem? s.contexts data_ptr ≡ some ctx
        → Decodes bytes s
        → AfterDecodes (bytes ++ added d data_ptr r) (read_by env fd data_ptr r (some ctx) s)
    unfolding AfterDecodes
    read_by-Decodes bytes fd data_ptr read_error ctx s at k =
        same_contexts bytes s _ (drop_client-SamePools env s fd ctx).contexts k
    read_by-Decodes bytes fd data_ptr (read_bytes []) ctx s at k =
        subst (λ x. Decodes (bytes ++ x) (drop_client env fd ctx s))
          (sym (nothing_read (data_ptr == d)))
          (same_contexts bytes s _ (drop_client-SamePools env s fd ctx).contexts k)
    read_by-Decodes bytes fd data_ptr (read_bytes (c ∷ more)) ctx s at k =
        decoded-Decodes bytes (c ∷ more) data_ptr ctx s (feed ctx (c ∷ more)) at refl k

    Step-Decodes :
        (bytes : Bytes) (s : Server env) (o : Ran env) (step : Step env s o)
        → IsFit env s
        → Decodes bytes s
        → AfterDecodes (bytes ++ step_input step) o
    unfolding AfterDecodes step_input read_from_client accept_tcp_handler send_reply
    Step-Decodes bytes s o (accepts client_fd memory free) v k = record {
      ctx = k.ctx;
      at_d = get_elem?-append_some s.contexts _ d k.at_d;
      fed = ap (feed c0) (append-nil bytes) ∙ k.fed;
    }
    Step-Decodes bytes s o (reads fd data_ptr r h) v k =
        let (ctx, e) = has_elem s.contexts data_ptr h in
        rw e (read_by-Decodes bytes fd data_ptr r ctx s e k)
    Step-Decodes bytes s o (processes t before behind e) v k =
        let (fit, w) = All-middle HasRequest before t behind (subst (All HasRequest) e v.tasks) in
        let (r, h, a, g) = processed env t (record s { tasks = before ++ behind }) fit in
        subst (AfterDecodes (bytes ++ [])) (sym g) (same_contexts bytes s _ refl k)
    Step-Decodes bytes s o (sends r before behind e) v k =
        same_contexts bytes s _
          (sender_worker-SamePools env (record s { replies = before ++ behind }) r).contexts k

    pub Reaches-Decodes :
        (s : Server env) (o : Ran env) (come : Reaches env s o)
        → IsFit env s
        → Decodes [] s
        → Keeps env o × AfterDecodes (input come) o
    unfolding AfterDecodes input Keeps
    Reaches-Decodes s o starts v k = (v, k)
    Reaches-Decodes s o (continues {t = t} before step) v k =
        let (w, l) = Reaches-Decodes s (running t) before v k in
        (Step-IsFit env t o w step, Step-Decodes (input before) t o step w l)
