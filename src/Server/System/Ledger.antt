-- ===== src/Server/System/Ledger.antt =====
-- The ledger of one session: which of its commands wait in a pool, and which have been handed over.
pub mod Reads
use logcabin_redis_proxy.Server.System.Answers.{Answered, takes, records, task_count, reply_count}
use logcabin_redis_proxy.Server.State.Contexts.{
  get_elem?-store_context_self, get_elem?-store_context_ne, get_elem?-store_context,
}
use logcabin_redis_proxy.Base.{
  get_elem?-last, get_elem?-append_some, ℕ, ◌+◌, ◌≤◌, ◌≡◌, ◌≢◌, refl, sym, ap, subst, ◌∙◌, Bool,
  true, false, ◌&&◌, List, [], ◌∷◌, ◌++◌, some, inl, inr, arith, length, length-append, get_elem?,
  All, All-append, All-middle, All-map, ◌==◌, ltb, Bool-cases,
}
use logcabin_redis_proxy.Bytes.{Bytes}
use logcabin_redis_proxy.Handler.Monad.{returned, HandlerState}
use logcabin_redis_proxy.Resp.Decoder.Invariant.{AreNumbered}
use logcabin_redis_proxy.Resp.Decoder.{DecodeContext, new_decode_context}
use logcabin_redis_proxy.Resp.{Command, EncodeResult}
use logcabin_redis_proxy.Server.Dispatch.{dispatch}
use logcabin_redis_proxy.Server.State.{Environment, Task, Reply, Server, store_context}
use logcabin_redis_proxy.Server.System.Count.{bit, count-append, count-middle, count_last}
use logcabin_redis_proxy.Server.System.Numbering.{
  Asked, Asked-append, Asked-enqueued, AreNumbered-length, AreNumbered-append, count-enqueued,
  count-enqueued_ne,
}
use logcabin_redis_proxy.Server.Workers.{send_reply, enqueued}

module _ (env : Environment) (i d : ℕ) where
  open env use {tree}

  -- Each command of the session is in one place: in the first pool, in the second, or taken out of it.
  pub record Ledger (taken : ℕ → Bool) (f : ℕ → Bytes) (s : Server env) : Type 0 where
    pub ctx : DecodeContext
    pub at_d : get_elem? s.contexts d ≡ some ctx
    pub same_id : ctx.session_id ≡ i
    pub unique :
        (e : ℕ) (c : DecodeContext) → get_elem? s.contexts e ≡ some c → c.session_id ≡ i → e ≡ d
    pub used : i ≤ s.manager.session_counter
    pub tasks : All (λ t. t.session_id ≡ i → Asked ctx.handled t.command_id t.request) s.tasks
    pub replies :
        All (λ r. r.session_id ≡ i → Answered tree ctx.handled r.command_id r.response) s.replies
    pub answers : (k : ℕ) → taken k ≡ true → Answered tree ctx.handled k (f k)
    pub once :
        (k : ℕ)
        → task_count i k s.tasks + reply_count i k s.replies + bit (taken k)
          ≡ bit (ltb k (length ctx.handled))

  module _ (taken : ℕ → Bool) (f : ℕ → Bytes) (s : Server env) (l : Ledger taken f s) where
    -- A worker has run a command.
    pub processed-Ledger :
        (t : Task) (before behind : List Task) (e : EncodeResult) (h : HandlerState tree.World)
        → s.tasks ≡ before ++ (t ∷ behind)
        → (dispatch tree t.request s.handler).0 ≡ returned e
        → Ledger taken f (
            send_reply env t.command_id t.session_id e.response
              (record s { tasks = before ++ behind; handler = h }))
    unfolding send_reply
    processed-Ledger t before behind e h split a =
        let (asked, others) = All-middle _ before t behind (subst (All _) split l.tasks) in
        record {
          ctx = l.ctx;
          at_d = l.at_d;
          same_id = l.same_id;
          unique = l.unique;
          used = l.used;
          tasks = others;
          replies =
              All-append _ s.replies _ l.replies
                ((λ same. (t.request, asked same, (s.handler, e, a, refl))), tt);
          answers = l.answers;
          once = λ k. omega (
            arith,
            l.once k,
            ap (task_count i k) split,
            count-middle (λ t. t.session_id) (λ t. t.command_id) i k before t behind,
            count_last (λ r. r.session_id) (λ r. r.command_id) i k s.replies
                (record {
                  response = e.response;
                  command_id = t.command_id;
                  session_id = t.session_id;
                }),
          );
        }

    -- A step that leaves contexts and pools alone.
    pub Ledger-same :
        (t : Server env)
        → t.contexts ≡ s.contexts
        → t.tasks ≡ s.tasks
        → t.replies ≡ s.replies
        → s.manager.session_counter ≤ t.manager.session_counter
        → Ledger taken f t
    Ledger-same t c k r n = record {
      ctx = l.ctx;
      at_d = ap (λ x. get_elem? x d) c ∙ l.at_d;
      same_id = l.same_id;
      unique = λ e x g. l.unique e x (ap (λ y. get_elem? y e) (sym c) ∙ g);
      used = omega (arith, l.used, n);
      tasks = subst (All _) (sym k) l.tasks;
      replies = subst (All _) (sym r) l.replies;
      answers = l.answers;
      once = λ j. omega (arith, l.once j, ap (task_count i j) k, ap (reply_count i j) r);
    }

    sent_answers :
        (r : Reply)
        → (r.session_id ≡ i → Answered tree l.ctx.handled r.command_id r.response)
        → (k : ℕ) → takes i r taken k ≡ true
        → Answered tree l.ctx.handled k (records i r f k)
    sent_answers r answer k t = elim (Bool-cases (r.session_id == i && r.command_id == k)) [
      | inl e ↦
          let same : r.session_id ≡ i = ground (arith, e) in
          let command : r.command_id ≡ k = ground (arith, e) in
          rw e (subst (λ n. Answered tree l.ctx.handled n r.response) command (answer same))
      | inr e ↦ rw e (l.answers k (ground (arith, e, t)))
    ]

    -- A worker has taken a reply out of the pool.
    pub sent-Ledger :
        (r : Reply) (before behind : List Reply)
        → s.replies ≡ before ++ (r ∷ behind)
        → Ledger (takes i r taken) (records i r f) (record s { replies = before ++ behind })
    sent-Ledger r before behind split =
        let (answer, others) = All-middle _ before r behind (subst (All _) split l.replies) in
        record {
          ctx = l.ctx;
          at_d = l.at_d;
          same_id = l.same_id;
          unique = l.unique;
          used = l.used;
          tasks = l.tasks;
          replies = others;
          answers = λ k t. sent_answers r answer k t;
          once = λ k. ground (
            arith,
            l.once k,
            ap (reply_count i k) split,
            count-middle (λ r. r.session_id) (λ r. r.command_id) i k before r behind,
          );
        }

    -- A reply that is in the pool was not taken out.
    pub not_taken :
        (r : Reply) (before behind : List Reply)
        → s.replies ≡ before ++ (r ∷ behind)
        → r.session_id ≡ i
        → taken r.command_id ≡ false
    not_taken r before behind split same = ground (
      arith,
      l.once r.command_id,
      ap (reply_count i r.command_id) split,
      count-middle (λ r. r.session_id) (λ r. r.command_id) i r.command_id before r behind,
    )

    -- A connection is accepted, with another session's id.
    pub accepted-Ledger :
        (memory : ℕ) (t : Server env)
        → t.contexts
          ≡ s.contexts ++ (new_decode_context (s.manager.session_counter + 1) memory ∷ [])
        → t.tasks ≡ s.tasks
        → t.replies ≡ s.replies
        → s.manager.session_counter ≤ t.manager.session_counter
        → Ledger taken f t
    unfolding new_decode_context
    accepted-Ledger memory t c k r n = record {
      ctx = l.ctx;
      at_d = ap (λ x. get_elem? x d) c ∙ get_elem?-append_some s.contexts _ d l.at_d;
      same_id = l.same_id;
      unique = λ e x g same.
          elim (get_elem?-last s.contexts _ e x (ap (λ y. get_elem? y e) (sym c) ∙ g)) [
            | inl h ↦ l.unique e x h same
            | inr (o, h) ↦ absurd (omega (arith, ap (λ y. y.session_id) h, same, l.used))
          ];
      used = omega (arith, l.used, n);
      tasks = subst (All _) (sym k) l.tasks;
      replies = subst (All _) (sym r) l.replies;
      answers = l.answers;
      once = λ j. omega (arith, l.once j, ap (task_count i j) k, ap (reply_count i j) r);
    }
