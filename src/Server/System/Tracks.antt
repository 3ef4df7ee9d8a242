-- ===== src/Server/System/Tracks.antt =====
-- One session at every step of the process: its ledger and its connection.
use mathlib.Core.Path.{fun_ext}
use mathlib.Core.Option.{some-injective}
use logcabin_redis_proxy.Base.{
  ℕ, ◌≡◌, refl, sym, ap, subst, ◌∙◌, Bool, false, ◌&&◌, ◌||◌, List, ◌∷◌, ◌++◌, some, arith, All,
  All-middle, All-get_elem?, get_elem?, inl, inr, ◌==◌, ℕ_discrete, if◌then◌else◌,
}
use logcabin_redis_proxy.Bytes.{Bytes}
use logcabin_redis_proxy.Resp.Decoder.{DecodeContext}
use logcabin_redis_proxy.Server.State.{
  Environment, Reply, Server, Ran, running, terminated, undefined, store_context,
}
use logcabin_redis_proxy.Server.System.Answers.{takes, records}
use logcabin_redis_proxy.Server.System.Ledger.Reads.{own_read-Ledger, other_read-Ledger}
use logcabin_redis_proxy.Server.System.Ledger.{
  Ledger, processed-Ledger, Ledger-same, sent-Ledger, not_taken, accepted-Ledger,
}
use logcabin_redis_proxy.Server.System.Line.{
  Line, Line-same, accepted-Line, dropped-Line, other_sent-Line, own_sent-Line,
}
use logcabin_redis_proxy.Server.System.Pools.{sender_worker-SamePools, drop_client-SamePools}
use logcabin_redis_proxy.Server.System.Reads.{HasRead, ReadCase, read_by-case}
use logcabin_redis_proxy.Server.System.Safety.{IsFit, IsFitContext, HasRequest, has_elem, processed}
use logcabin_redis_proxy.Server.System.{Step, accepts, reads, processes, sends}
use logcabin_redis_proxy.Server.Workers.{
  sender_worker, read_from_client, accept_tcp_handler, send_reply, enqueued,
}
use logcabin_redis_proxy.Session.Manager.Laws.{IsSound}
use logcabin_redis_proxy.Session.Manager.{insert_new_staus}
use logcabin_redis_proxy.Session.Order.{AcceptsAll}

module _ (env : Environment) (accepting : AcceptsAll env.socket) (i d q fd : ℕ) (base : Bytes) where
  open env use {socket, tree}

  -- What was handed over for the session, and what its client has of it.
  pub record Tracks (s : Server env) : Type 0 where
    pub taken : ℕ → Bool
    pub f : ℕ → Bytes
    pub ledger : Ledger env i d taken f s
    pub line : Line env accepting i q fd base taken f s

  unfoldable pub AfterTracks : Ran env → Type 0
  AfterTracks (running s) = Tracks s
  AfterTracks terminated = Unit
  AfterTracks undefined = Unit

  read-Ledger :
      (event_fd data_ptr : ℕ) (ctx : DecodeContext) (s : Server env) (o : Ran env)
      → get_elem? s.contexts data_ptr ≡ some ctx
      → (h : HasRead env event_fd data_ptr ctx s o) (k : Tracks s)
      → Ledger env i d k.taken k.f (record s {
        contexts = store_context s.contexts data_ptr h.context;
        tasks = s.tasks ++ enqueued ctx.session_id h.new;
      })
  read-Ledger event_fd data_ptr ctx s o at h k =
      let reading : ℕ → ℕ → Server env = λ e j. record s {
        contexts = store_context s.contexts e h.context;
        tasks = s.tasks ++ enqueued j h.new;
      } in
      elim (ℕ_discrete data_ptr d) [
        | yes e ↦
            let same : ctx ≡ k.ledger.ctx =
              some-injective _ _ (sym at ∙ ap (get_elem? s.contexts) e ∙ k.ledger.at_d) in
            let own : ctx.session_id ≡ i = ap (λ c. c.session_id) same ∙ k.ledger.same_id in
            subst (λ x. Ledger env i d k.taken k.f (reading x ctx.session_id)) (sym e)
              (subst (λ j. Ledger env i d k.taken k.f (reading d j)) (sym own)
                (own_read-Ledger env i d k.taken k.f s k.ledger h.context h.new h.next_id
                  (h.same_id ∙ own) (h.log ∙ ap (λ c. c.handled ++ h.new) same) h.numbered))
        | no ne ↦
            subst (λ j. Ledger env i d k.taken k.f (reading data_ptr j)) h.same_id
              (other_read-Ledger env i d k.taken k.f s k.ledger data_ptr h.context h.new ne
                (λ own. ne (k.ledger.unique data_ptr ctx at (sym h.same_id ∙ own))))
      ]

  read-Tracks :
      (event_fd data_ptr : ℕ) (ctx : DecodeContext) (s : Server env) (o : Ran env)
      → IsSound s.manager
      → get_elem? s.contexts data_ptr ≡ some ctx
      → ReadCase env event_fd data_ptr ctx s o
      → Tracks s
      → AfterTracks o
  unfolding AfterTracks
  read-Tracks event_fd data_ptr ctx s o v at (inl e) k =
      let same = drop_client-SamePools env s event_fd ctx in
      subst AfterTracks (sym e) (record {
        taken = k.taken;
        f = k.f;
        ledger =
            Ledger-same env i d k.taken k.f s k.ledger _ same.contexts same.tasks same.replies
              (omega (arith, same.counter));
        line = dropped-Line env accepting i q fd base k.taken k.f s event_fd ctx v k.line;
      })
  read-Tracks event_fd data_ptr ctx s o v at (inr (inl h)) k =
      subst AfterTracks (sym h.result) (record {
        taken = k.taken;
        f = k.f;
        ledger = read-Ledger event_fd data_ptr ctx s o at h k;
        line = Line-same env accepting i q fd base k.taken k.f s _ refl refl k.line;
      })
  read-Tracks event_fd data_ptr ctx s o v at (inr (inr e)) k = subst AfterTracks (sym e) tt

  sent-Tracks :
      (r : Reply) (s : Server env) (before behind : List Reply)
      → s.replies ≡ before ++ (r ∷ behind)
      → IsSound s.manager
      → Tracks s
      → Tracks (sender_worker env r (record s { replies = before ++ behind }))
  sent-Tracks r s before behind e v k =
      let s' = record s { replies = before ++ behind } in
      let same = sender_worker-SamePools env s' r in
      record {
        taken = takes i r k.taken;
        f = records i r k.f;
        ledger =
            Ledger-same env i d _ _ s'
              (sent-Ledger env i d k.taken k.f s k.ledger r before behind e) _ same.contexts
              same.tasks same.replies (omega (arith, same.counter));
        line =
            let line = Line-same env accepting i q fd base k.taken k.f s s' refl refl k.line in
            elim (ℕ_discrete r.session_id i) [
              | yes own ↦
                  own_sent-Line env accepting i q fd base r s' k.taken k.f own
                    (not_taken env i d k.taken k.f s k.ledger r before behind e own) line
              | no other ↦
                  let is_other : r.session_id == i ≡ false = ground (arith, other) in
                  subst
                    (λ taken.
                      Line env accepting i q fd base taken (records i r k.f)
                        (sender_worker env r s'))
                    (fun_ext (λ j. ap (λ b. (b && r.command_id == j) || k.taken j) (sym is_other)))
                    (subst (λ f. Line env accepting i q fd base k.taken f (sender_worker env r s'))
                      (fun_ext (λ j.
                        ap (λ b. if b && r.command_id == j then r.response else k.f j)
                          (sym is_other)))
                      (other_sent-Line env accepting i q fd base r s' k.taken k.f v other line))
            ];
      }

  pub Step-Tracks :
      (s : Server env) (o : Ran env) → IsFit env s → Tracks s → Step env s o → AfterTracks o
  unfolding AfterTracks read_from_client accept_tcp_handler insert_new_staus send_reply
  Step-Tracks s o v k (accepts client_fd memory free) = record {
    taken = k.taken;
    f = k.f;
    ledger = accepted-Ledger env i d k.taken k.f s k.ledger memory _ refl refl refl (omega arith);
    line =
        accepted-Line env accepting i q fd base k.taken k.f s client_fd _ v.manager free
          k.ledger.used refl refl k.line;
  }
  Step-Tracks s o v k (reads event_fd data_ptr r h) =
      let (ctx, e) = has_elem s.contexts data_ptr h in
      rw e (
        read-Tracks event_fd data_ptr ctx s _ v.manager e
          (read_by-case env event_fd data_ptr ctx s r
            (All-get_elem? IsFitContext s.contexts data_ptr e v.contexts))
          k)
  Step-Tracks s o v k (processes t before behind e) =
      let (fit, w) = All-middle HasRequest before t behind (subst (All HasRequest) e v.tasks) in
      let (r, h, a, g) = processed env t (record s { tasks = before ++ behind }) fit in
      subst AfterTracks (sym g) (record {
        taken = k.taken;
        f = k.f;
        ledger = processed-Ledger env i d k.taken k.f s k.ledger t before behind r h e a;
        line = Line-same env accepting i q fd base k.taken k.f s _ refl refl k.line;
      })
  Step-Tracks s o v k (sends r before behind e) = sent-Tracks r s before behind e v.manager k
