-- ===== src/Server/System/Events/Served.antt =====
-- Every registered descriptor is that of an open session, through the steps of the driven process.
use mathlib.Core.Option.{some-injective}
use logcabin_redis_proxy.Base.{
  ℕ, ◌+◌, ◌≡◌, refl, sym, ap, subst, ◌∙◌, [], ◌∷◌, ◌++◌, Option, some, get_elem?, get_elem?-append,
  get_elem?-append_some, length, inl, inr, All, All-get_elem?, All-middle, ℕ_discrete,
  lt-length_of_some,
}
use logcabin_redis_proxy.Resp.Decoder.{DecodeContext, new_decode_context}
use logcabin_redis_proxy.Server.State.Contexts.{
  get_elem?-store_context_self, get_elem?-store_context_ne,
}
use logcabin_redis_proxy.Server.State.{
  Environment, Server, Ran, running, terminated, undefined, store_context,
}
use logcabin_redis_proxy.Server.System.Events.Kept.{
  Like, sender_worker-Like, registered_after, registered_other, other_session,
}
use logcabin_redis_proxy.Server.System.Events.{
  Registers, Event, accepts, reads, processes, sends, Serves, AreServed,
}
use logcabin_redis_proxy.Server.System.Reads.{ReadCase, HasRead, read_by-case}
use logcabin_redis_proxy.Server.System.Safety.{IsFit, IsFitContext, HasRequest, processed}
use logcabin_redis_proxy.Server.System
use logcabin_redis_proxy.Server.System.{Step, Reaches, new_server, IsFree}
use logcabin_redis_proxy.Server.Workers.{
  read_from_client, accept_tcp_handler, drop_client, send_reply,
}
use logcabin_redis_proxy.Session.Manager.Holders.{
  Holds, Holds-like, Holds-insert_new_staus, Holds-new, Holds-erase_session,
}
use logcabin_redis_proxy.Session.Manager.Laws.{IsSound}
use logcabin_redis_proxy.Session.Manager.{insert_new_staus}

module _ (env : Environment) (registered : env.event_loop.Loop → ℕ → Option ℕ)
    (law : Registers env.event_loop registered) where
  open env use {event_loop, socket}

  -- The invariant where the process goes.
  unfoldable pub AfterServed : Ran env → Type 0
  AfterServed (running s) = AreServed env registered s
  AfterServed terminated = Unit
  AfterServed undefined = Unit

  Like-AreServed :
      (s t : Server env) → Like env s t → AreServed env registered s → AreServed env registered t
  unfolding AreServed
  Like-AreServed s t like served fd data_ptr e =
      let was = served fd data_ptr (ap (λ l. registered l fd) (sym like.loop) ∙ e) in
      record {
        context = was.context;
        at_data = ap (λ l. get_elem? l data_ptr) like.contexts ∙ was.at_data;
        session =
            Holds-like s.manager t.manager was.context.session_id fd like.table like.heap
              was.session;
      }

  accepted-AreServed :
      (client_fd memory : ℕ) (s : Server env)
      → IsSound s.manager
      → AreServed env registered s
      → AfterServed (accept_tcp_handler env (some client_fd) memory s)
  unfolding AfterServed AreServed accept_tcp_handler insert_new_staus new_decode_context
  accepted-AreServed client_fd memory s v served fd data_ptr e =
      elim (registered_after env registered law s.loop client_fd (length s.contexts) fd data_ptr
        e) [
          | inl old ↦
              let was = served fd data_ptr old in
              record {
                context = was.context;
                at_data = get_elem?-append_some s.contexts _ data_ptr was.at_data;
                session =
                    Holds-insert_new_staus s.manager was.context.session_id fd client_fd v
                      was.session;
              }
          | inr (same, at_end) ↦
              let c = new_decode_context (s.manager.session_counter + 1) memory in
              record {
                context = c;
                at_data =
                    subst (λ j. get_elem? (s.contexts ++ (c ∷ [])) j ≡ some c) at_end
                      (get_elem?-append s.contexts [] c);
                session =
                    subst (Holds _ (s.manager.session_counter + 1)) same
                      (Holds-new s.manager client_fd v);
              }
        ]

  dropped-AreServed :
      (fd : ℕ) (ctx : DecodeContext) (s : Server env)
      → IsSound s.manager
      → Holds s.manager ctx.session_id fd
      → AreServed env registered s
      → AreServed env registered (drop_client env fd ctx s)
  unfolding AreServed drop_client
  dropped-AreServed fd ctx s v own served k data_ptr e =
      let (ne, old) = registered_other env registered law s.loop fd k data_ptr e in
      let was = served k data_ptr old in
      record {
        context = was.context;
        at_data = was.at_data;
        session =
            Holds-erase_session socket s.manager was.context.session_id k ctx.session_id s.world v
              (other_session env registered law s fd k _ _ own was.session ne) was.session;
      }

  -- The contexts after a read.
  stored-Serves :
      (fd data_ptr : ℕ) (ctx : DecodeContext) (s : Server env) {o : Ran env}
      (h : HasRead env fd data_ptr ctx s o) (k j : ℕ)
      → get_elem? s.contexts data_ptr ≡ some ctx
      → Serves env registered s k j
      → (c : DecodeContext) × (get_elem? (store_context s.contexts data_ptr h.context) j ≡ some c)
        × Holds s.manager c.session_id k
  stored-Serves fd data_ptr ctx s h k j at_data was = elim (ℕ_discrete data_ptr j) [
    | no ne ↦ (
      was.context,
      get_elem?-store_context_ne s.contexts data_ptr j h.context ne ∙ was.at_data,
      was.session,
    )
    | yes same ↦ (
      h.context,
      subst (λ i. get_elem? (store_context s.contexts data_ptr h.context) i ≡ some h.context) same
          (get_elem?-store_context_self s.contexts data_ptr h.context at_data),
      subst (λ n. Holds s.manager n k)
          (ap (λ c. c.session_id)
              (some-injective _ _
                (sym was.at_data ∙ subst (λ i. get_elem? s.contexts i ≡ some ctx) same at_data))
            ∙ sym h.same_id)
          was.session,
    )
  ]

  read-AfterServed :
      (fd data_ptr : ℕ) (ctx : DecodeContext) (s : Server env) (o : Ran env)
      → IsSound s.manager
      → get_elem? s.contexts data_ptr ≡ some ctx
      → Holds s.manager ctx.session_id fd
      → ReadCase env fd data_ptr ctx s o
      → AreServed env registered s
      → AfterServed o
  unfolding AfterServed AreServed
  read-AfterServed fd data_ptr ctx s o v at_data own (inl e) served =
      subst AfterServed (sym e) (dropped-AreServed fd ctx s v own served)
  read-AfterServed fd data_ptr ctx s o v at_data own (inr (inl h)) served =
      subst AfterServed (sym h.result) λ k j e.
        let (c, at_j, session) = stored-Serves fd data_ptr ctx s h k j at_data (served k j e) in
        record { context = c; at_data = at_j; session = session }
  read-AfterServed fd data_ptr ctx s o v at_data own (inr (inr e)) served =
      subst AfterServed (sym e) tt

  -- A step of the driven process is a step of the process.
  pub Event-Step :
      (s : Server env) (o : Ran env)
      → AreServed env registered s
      → Event env registered s o
      → Step env s o
  unfolding AreServed
  Event-Step s o served (accepts client_fd memory free) = System.accepts client_fd memory free
  Event-Step s o served (reads fd data_ptr r e) =
      System.reads fd data_ptr r
        (lt-length_of_some s.contexts data_ptr _ (served fd data_ptr e).at_data)
  Event-Step s o served (processes t before behind e) = System.processes t before behind e
  Event-Step s o served (sends r before behind e) = System.sends r before behind e

  pub Event-AfterServed :
      (s : Server env) (o : Ran env)
      → IsFit env s
      → AreServed env registered s
      → Event env registered s o
      → AfterServed o
  unfolding AfterServed AreServed read_from_client send_reply
  Event-AfterServed s o v served (accepts client_fd memory free) =
      accepted-AreServed client_fd memory s v.manager served
  Event-AfterServed s o v served (reads fd data_ptr r e) =
      let was = served fd data_ptr e in
      rw was.at_data (
        read-AfterServed fd data_ptr was.context s _ v.manager was.at_data was.session
          (read_by-case env fd data_ptr was.context s r
            (All-get_elem? IsFitContext s.contexts data_ptr was.at_data v.contexts))
          served)
  Event-AfterServed s o v served (processes t before behind e) =
      let (fit, w) = All-middle HasRequest before t behind (subst (All HasRequest) e v.tasks) in
      let (r, h, a, q) = processed env t (record s { tasks = before ++ behind }) fit in
      subst AfterServed (sym q) (
        Like-AreServed s _ (record { loop = refl; contexts = refl; table = λ j. refl; heap = refl })
          served)
  Event-AfterServed s o v served (sends r before behind e) =
      Like-AreServed (record s { replies = before ++ behind }) _
        (sender_worker-Like env r (record s { replies = before ++ behind }))
        λ fd d k.
          let was = served fd d k in
          record { context = was.context; at_data = was.at_data; session = was.session }
