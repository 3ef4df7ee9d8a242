-- ===== src/Server/System/Opening.antt =====
-- A session at its first event.
use logcabin_redis_proxy.Base.{
  get_elem?-last, ℕ, ◌+◌, ◌≤◌, ◌<◌, ◌≡◌, refl, sym, ap, subst, ◌∙◌, false, List, [], ◌∷◌, ◌++◌,
  some, length, arith, All, All-map, All-get_elem?, get_elem?, get_elem?-append, inl, inr,
}
use logcabin_redis_proxy.Bytes.{Bytes}
use logcabin_redis_proxy.Resp.Decoder.{new_decode_context}
use logcabin_redis_proxy.Server.State.{Environment, Server}
use logcabin_redis_proxy.Server.System.Count.{count}
use logcabin_redis_proxy.Server.System.Ids.{IdsUsed}
use logcabin_redis_proxy.Server.System.Answers.{task_count, reply_count}
use logcabin_redis_proxy.Server.System.Ledger.{Ledger}
use logcabin_redis_proxy.Server.System.Line.{Line}
use logcabin_redis_proxy.Server.System.{IsFree}
use logcabin_redis_proxy.Session.Delivery.{new_session-Ordered}
use logcabin_redis_proxy.Session.Manager.Descriptors.{descriptors, descriptors-append_left}
use logcabin_redis_proxy.Session.Manager.Laws.{
  IsSound, insert_new_staus-added, get_ctx-insert_new_staus,
}
use logcabin_redis_proxy.Session.Manager.{insert_new_staus, get_ctx}
use logcabin_redis_proxy.Session.Order.Change.{Ordered-world}
use logcabin_redis_proxy.Session.Order.{AcceptsAll}
use logcabin_redis_proxy.Session.{new_session_ctx}

count_unused :
    {A : Type 0} (session command : A → ℕ) (n i k : ℕ) (l : List A)
    → n < i
    → All (λ a. session a ≤ n) l
    → count session command i k l ≡ 0
unfolding count
count_unused session command n i k [] h v = refl
count_unused session command n i k (a ∷ l) h v =
    ground (arith, count_unused session command n i k l h v.1, v.0)

module _ (env : Environment) (f : ℕ → Bytes) (s t : Server env) where
  -- Nothing of the session waits and nothing was handed over.
  pub opened-Ledger :
      (buffer : ℕ)
      → IdsUsed env s
      → t.contexts ≡ s.contexts ++ (new_decode_context (s.manager.session_counter + 1) buffer ∷ [])
      → t.tasks ≡ s.tasks
      → t.replies ≡ s.replies
      → t.manager.session_counter ≡ s.manager.session_counter + 1
      → Ledger env (s.manager.session_counter + 1) (length s.contexts) (λ _. false) f t
  unfolding new_decode_context
  opened-Ledger buffer u c k r n = record {
    ctx = new_decode_context (s.manager.session_counter + 1) buffer;
    at_d = ap (λ l. get_elem? l (length s.contexts)) c ∙ get_elem?-append s.contexts [] _;
    same_id = refl;
    unique = λ e x g same.
        elim (get_elem?-last s.contexts _ e x (ap (λ l. get_elem? l e) (sym c) ∙ g)) [
          | inl h ↦
              let old =
                All-get_elem? (λ y. y.session_id ≤ s.manager.session_counter) s.contexts e h
                  u.contexts in
              absurd (omega (arith, old, same))
          | inr (o, h) ↦ o
        ];
    used = omega (arith, n);
    tasks =
        subst (All _) (sym k)
          (All-map _ _ s.tasks (λ a h same. absurd (omega (arith, h, same))) u.tasks);
    replies =
        subst (All _) (sym r)
          (All-map _ _ s.replies (λ a h same. absurd (omega (arith, h, same))) u.replies);
    answers = λ j h. cc;
    once = λ j. ground (
      arith,
      ap (task_count (s.manager.session_counter + 1) j) k,
      ap (reply_count (s.manager.session_counter + 1) j) r,
      count_unused (λ a. a.session_id) (λ a. a.command_id) s.manager.session_counter
          (s.manager.session_counter + 1) j s.tasks (omega arith) u.tasks,
      count_unused (λ a. a.session_id) (λ a. a.command_id) s.manager.session_counter
          (s.manager.session_counter + 1) j s.replies (omega arith) u.replies,
    );
  }

  -- The session is open, and alone with its descriptor.
  pub opened-Line :
      (accepts : AcceptsAll env.socket) (client_fd : ℕ)
      → IsSound s.manager
      → IsFree client_fd s.manager
      → t.manager ≡ (insert_new_staus s.manager client_fd).0
      → t.world ≡ s.world
      → Line env accepts
          (s.manager.session_counter + 1)
          (length s.manager.heap)
          client_fd
          (env.socket.received client_fd s.world)
          (λ _. false)
          f
          t
  unfolding insert_new_staus
  opened-Line accepts client_fd v free m w =
      let laws = insert_new_staus-added s.manager client_fd v in
      inr (record {
        sctx = new_session_ctx client_fd;
        at_i = ap (λ n. get_ctx n (s.manager.session_counter + 1)) m ∙ laws.2;
        at_q = ap (λ n. get_elem? n.heap (length s.manager.heap)) m ∙ laws.3;
        ordered =
            Ordered-world env.socket accepts client_fd _ f (λ _. false) (new_session_ctx client_fd)
              t.world s.world (ap (env.socket.received client_fd) w)
              (new_session-Ordered env.socket accepts f client_fd s.world);
        alone = λ j p ne e h.
            let kept : get_ctx s.manager j ≡ some p = ground (
              arith,
              get_ctx-insert_new_staus s.manager client_fd j v,
              ap (λ n. get_ctx n j) m,
              e,
              ne,
            ) in
            free j p kept (
              sym (descriptors-append_left s.manager.heap _ p (v.in_heap j p kept))
              ∙ ap (λ n. get_elem? (descriptors n.heap) p) (sym m)
              ∙ h);
      })
