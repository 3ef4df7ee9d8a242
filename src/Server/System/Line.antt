-- ===== src/Server/System/Line.antt =====
-- The connection of one session: what its peer has received, as the responses arrive in any order.
use mathlib.Core.Path.{fun_ext}
use logcabin_redis_proxy.Base.{
  ℕ, ◌≤◌, ◌≡◌, ◌≢◌, sym, ap, subst, ◌∙◌, Bool, true, false, not, ◌&&◌, ◌||◌, none, some, arith,
  get_elem?, ◌==◌, if◌then◌else◌, ◌⊎◌, inl, inr, ℕ_discrete,
}
use logcabin_redis_proxy.Bytes.{Bytes}
use logcabin_redis_proxy.Resp.Decoder.{DecodeContext}
use logcabin_redis_proxy.Server.State.{Environment, Reply, Server}
use logcabin_redis_proxy.Server.System.Pools.{sender_worker-table}
use logcabin_redis_proxy.Server.System.Isolation.{sender_worker-other}
use logcabin_redis_proxy.Server.System.Alone.{
  IsAlone, same_descriptor, IsAlone-table, accepted-IsAlone,
}
use logcabin_redis_proxy.Server.System.Answers.{takes, records}
use logcabin_redis_proxy.Server.System.{IsFree}
use logcabin_redis_proxy.Server.Workers.{sender_worker, insert_through, send_to, drop_client}
use logcabin_redis_proxy.Session.Manager.Descriptors.{
  get_elem?-descriptors, descriptors-erase_session, erase_session-received,
}
use logcabin_redis_proxy.Session.Manager.Heap.{
  get_elem?-store_self, get_elem?-append_left, lt-length_of_get_elem?,
}
use logcabin_redis_proxy.Session.Manager.Laws.{IsSound, get_ctx-insert_new_staus, erase_session_lem}
use logcabin_redis_proxy.Session.Manager.{insert_new_staus, get_ctx, store}
use logcabin_redis_proxy.Session.Order.Change.{Ordered-world, Ordered-ext}
use logcabin_redis_proxy.Session.Order.{AcceptsAll, Ordered, insert_new_response-Ordered}
use logcabin_redis_proxy.Session.{SessionCtx, insert_new_response}

module _ (env : Environment) (accepts : AcceptsAll env.socket) (i q fd : ℕ) (base : Bytes) where
  open env use {socket}

  -- The session is open, and its peer has received the responses that are in order.
  pub record Open (taken : ℕ → Bool) (f : ℕ → Bytes) (s : Server env) : Type 0 where
    pub sctx : SessionCtx
    pub at_i : get_ctx s.manager i ≡ some q
    pub at_q : get_elem? s.manager.heap q ≡ some sctx
    pub ordered : Ordered socket accepts f fd base taken sctx s.world
    pub alone : IsAlone i fd s.manager

  abbrev pub Line : (ℕ → Bool) → (ℕ → Bytes) → Server env → Type 0
  Line taken f s = (get_ctx s.manager i ≡ none) ⊎ Open taken f s

  module _ (taken : ℕ → Bool) (f : ℕ → Bytes) (s : Server env) where
    -- A step that does nothing with the session.
    pub Open-same :
        (t : Server env)
        → Open taken f s
        → get_ctx t.manager i ≡ get_ctx s.manager i
        → get_elem? t.manager.heap q ≡ get_elem? s.manager.heap q
        → socket.received fd t.world ≡ socket.received fd s.world
        → IsAlone i fd t.manager
        → Open taken f t
    Open-same t o c h w a = record {
      sctx = o.sctx;
      at_i = c ∙ o.at_i;
      at_q = h ∙ o.at_q;
      ordered = Ordered-world socket accepts fd base f taken o.sctx t.world s.world w o.ordered;
      alone = a;
    }

    pub Line-same :
        (t : Server env)
        → t.manager ≡ s.manager
        → t.world ≡ s.world
        → Line taken f s
        → Line taken f t
    Line-same t m w (inl e) = inl (ap (λ n. get_ctx n i) m ∙ e)
    Line-same t m w (inr o) = inr (
        Open-same t o (ap (λ n. get_ctx n i) m) (ap (λ n. get_elem? n.heap q) m)
          (ap (socket.received fd) w) (subst (IsAlone i fd) (sym m) o.alone))

    -- Another connection is accepted.
    pub accepted-Line :
        (client_fd : ℕ) (t : Server env)
        → IsSound s.manager
        → IsFree client_fd s.manager
        → i ≤ s.manager.session_counter
        → t.manager ≡ (insert_new_staus s.manager client_fd).0
        → t.world ≡ s.world
        → Line taken f s
        → Line taken f t
    unfolding insert_new_staus
    accepted-Line client_fd t v free used m w (inl e) =
        inl (
          ap (λ n. get_ctx n i) m
          ∙ ground (arith, get_ctx-insert_new_staus s.manager client_fd i v))
    accepted-Line client_fd t v free used m w (inr o) = inr (
        Open-same t o
          (ap (λ n. get_ctx n i) m
            ∙ ground (arith, get_ctx-insert_new_staus s.manager client_fd i v))
          (ap (λ n. get_elem? n.heap q) m
            ∙ get_elem?-append_left s.manager.heap _ q (v.in_heap i q o.at_i))
          (ap (socket.received fd) w)
          (subst (IsAlone i fd) (sym m) (
            accepted-IsAlone i fd q s.manager client_fd v free o.at_i
              (same_descriptor i fd q s.manager o.at_q o.ordered.pending.same_fd) o.alone)))

    -- A connection is over.
    pub dropped-Line :
        (event_fd : ℕ) (ctx : DecodeContext)
        → IsSound s.manager
        → Line taken f s
        → Line taken f (drop_client env event_fd ctx s)
    unfolding drop_client
    dropped-Line event_fd ctx v (inl e) =
        inl ((erase_session_lem socket s.manager ctx.session_id s.world v).1 i ∙ ground (arith, e))
    dropped-Line event_fd ctx v (inr o) = elim (ℕ_discrete ctx.session_id i) [
      | yes e ↦
          inl
            ((erase_session_lem socket s.manager ctx.session_id s.world v).1 i ∙ ground (arith, e))
      | no ne ↦
          let laws = erase_session_lem socket s.manager ctx.session_id s.world v in
          inr (
            Open-same (drop_client env event_fd ctx s) o (laws.1 i ∙ ground (arith, ne))
              (laws.3 i q ne o.at_i)
              (erase_session-received socket s.manager ctx.session_id s.world fd)
              (IsAlone-table i fd s.manager _
                (descriptors-erase_session socket s.manager ctx.session_id s.world)
                (λ j p h. ground (arith, laws.1 j, h)) o.alone))
    ]

  module _ (r : Reply) (s : Server env) where
    still-IsAlone : IsAlone i fd s.manager → IsAlone i fd (sender_worker env r s).manager
    still-IsAlone a =
        IsAlone-table i fd s.manager _ (sender_worker-table env r s).1
          (λ j p e. sym ((sender_worker-table env r s).0 j) ∙ e) a

    -- A reply to another session is sent.
    pub other_sent-Line :
        (taken : ℕ → Bool) (f : ℕ → Bytes)
        → IsSound s.manager
        → r.session_id ≢ i
        → Line taken f s
        → Line taken f (sender_worker env r s)
    other_sent-Line taken f v ne (inl e) = inl ((sender_worker-table env r s).0 i ∙ e)
    other_sent-Line taken f v ne (inr o) =
        let k = sender_worker-other env r s i q fd v ne o.at_i (λ p c e h same.
          o.alone r.session_id p ne e (get_elem?-descriptors s.manager.heap p h ∙ ap some same)) in
        inr (
          Open-same taken f s (sender_worker env r s) o (k.table i) k.context k.peer
            (still-IsAlone o.alone))

    abbrev inserted : SessionCtx → Server env
    inserted c =
        let (c', w) = insert_new_response socket c r.command_id r.response s.world in
        record s { manager = record s.manager { heap = store s.manager.heap q c' }; world = w }

    sender_worker-open :
        (c : SessionCtx)
        → get_ctx s.manager r.session_id ≡ some q
        → get_elem? s.manager.heap q ≡ some c
        → c.is_eof_reach ≡ false
        → sender_worker env r s ≡ inserted c
    unfolding sender_worker
    sender_worker-open c e h b =
        ap (λ p. send_to env p r s) e
        ∙ ap (λ x. insert_through env q r.command_id r.response x s) h
        ∙ ap (λ x. if not x then inserted c else s) b

    own_Ordered :
        (taken : ℕ → Bool) (f : ℕ → Bytes) (c : SessionCtx)
        → r.session_id ≡ i
        → taken r.command_id ≡ false
        → Ordered socket accepts f fd base taken c s.world
        → let (c', w) = insert_new_response socket c r.command_id r.response s.world in
          Ordered socket accepts (records i r f) fd base (takes i r taken) c' w
    own_Ordered taken f c same new o =
        let g = records i r f in
        let is_own : r.session_id == i ≡ true = ground (arith, same) in
        let response : g r.command_id ≡ r.response = ground (arith, same) in
        let after : (ℕ → Bool) → Bytes → Type 0 = λ arrived resp.
          let (c', w) = insert_new_response socket c r.command_id resp s.world in
          Ordered socket accepts g fd base arrived c' w in
        subst (after (takes i r taken)) response (
          subst (λ arrived. after arrived (g r.command_id))
            (fun_ext (λ k. ap (λ b. b && r.command_id == k || taken k) (sym is_own)))
            (insert_new_response-Ordered socket accepts g fd base taken r.command_id c s.world new (
              Ordered-ext socket accepts fd base f g taken c s.world (λ k t. ground (arith, t, new))
                o)))

    -- A reply to the session is sent.
    pub own_sent-Line :
        (taken : ℕ → Bool) (f : ℕ → Bytes)
        → r.session_id ≡ i
        → taken r.command_id ≡ false
        → Line taken f s
        → Line (takes i r taken) (records i r f) (sender_worker env r s)
    unfolding get_ctx
    own_sent-Line taken f same new (inl e) = inl ((sender_worker-table env r s).0 i ∙ e)
    own_sent-Line taken f same new (inr o) =
        let e =
          sender_worker-open o.sctx (ap (get_ctx s.manager) same ∙ o.at_i) o.at_q
            o.ordered.pending.alive in
        inr (
          subst (Open _ _) (sym e) (record {
            sctx = (insert_new_response socket o.sctx r.command_id r.response s.world).0;
            at_i = o.at_i;
            at_q =
                get_elem?-store_self s.manager.heap q _
                  (lt-length_of_get_elem? s.manager.heap q o.at_q);
            ordered = own_Ordered taken f o.sctx same new o.ordered;
            alone = subst (λ t. IsAlone i fd t.manager) e (still-IsAlone o.alone);
          }))
