-- ===== src/Server/System/Ledger/Reads.antt =====
-- The ledger of a session where requests are read.

use logcabin_redis_proxy.Server.State.Contexts.{
  get_elem?-store_context_self, get_elem?-store_context_ne, get_elem?-store_context,
}
use logcabin_redis_proxy.Base.{
  ℕ, ◌≡◌, ◌≢◌, sym, ap, subst, ◌∙◌, Bool, List, [], ◌∷◌, ◌++◌, inl, inr, arith, length,
  length-append, All, All-append, All-map,
}
use logcabin_redis_proxy.Bytes.{Bytes}
use logcabin_redis_proxy.Resp.Decoder.Invariant.{AreNumbered}
use logcabin_redis_proxy.Resp.Decoder.{DecodeContext}
use logcabin_redis_proxy.Resp.{Command}
use logcabin_redis_proxy.Server.State.{Environment, Server, store_context}
use logcabin_redis_proxy.Server.System.Count.{count-append}
use logcabin_redis_proxy.Server.System.Numbering.{
  Asked, Asked-append, Asked-enqueued, AreNumbered-length, AreNumbered-append, count-enqueued,
  count-enqueued_ne,
}
use logcabin_redis_proxy.Server.Workers.{enqueued}
use logcabin_redis_proxy.Server.System.Ledger.{Ledger}

enqueued_others :
    {i : ℕ} (log : List Command) (session : ℕ) (new : List Command)
    → session ≢ i
    → All (λ t. t.session_id ≡ i → Asked log t.command_id t.request) (enqueued session new)
enqueued_others log session [] h = tt
enqueued_others log session (c ∷ new) h =
    ((λ same. absurd (h same)), enqueued_others log session new h)

module _ (env : Environment) (i d : ℕ) (taken : ℕ → Bool) (f : ℕ → Bytes) (s : Server env)
    (l : Ledger env i d taken f s) where
  abbrev reading : ℕ → DecodeContext → List Command → ℕ → Server env
  reading e c new session = record s {
    contexts = store_context s.contexts e c;
    tasks = s.tasks ++ enqueued session new;
  }

  -- The session's requests are read.
  pub own_read-Ledger :
      (c : DecodeContext) (new : List Command) (m : ℕ)
      → c.session_id ≡ i
      → c.handled ≡ l.ctx.handled ++ new
      → AreNumbered 0 c.handled m
      → Ledger env i d taken f (reading d c new i)
  own_read-Ledger c new m same log numbered =
      let asked : (k : ℕ) (request : List Bytes)
          → Asked l.ctx.handled k request
          → Asked c.handled k request =
        λ k request v.
          subst (λ h. Asked h k request) (sym log) (Asked-append l.ctx.handled new k request v) in
      let fresh : AreNumbered (length l.ctx.handled) new m =
        subst (λ n. AreNumbered n new m) (omega arith)
          (AreNumbered-append 0 m l.ctx.handled new
            (subst (λ h. AreNumbered 0 h m) log numbered)) in
      record {
        ctx = c;
        at_d = get_elem?-store_context_self s.contexts d c l.at_d;
        same_id = same;
        unique = λ e x g own. elim (get_elem?-store_context s.contexts d e c x g) [
          | inl (q, k) ↦ sym q
          | inr (q, k) ↦ l.unique e x k own
        ];
        used = l.used;
        tasks =
            All-append _ s.tasks _
              (All-map _ _ s.tasks (λ t v own. asked t.command_id t.request (v own)) l.tasks)
              (All-map _ _ (enqueued i new)
                (λ t v own. subst (λ h. Asked h t.command_id t.request) (sym log) v)
                (Asked-enqueued i m l.ctx.handled new fresh));
        replies =
            All-map _ _ s.replies
              (λ r v own. let (q, a, w) = v own in (q, asked r.command_id q a, w)) l.replies;
        answers = λ k t. let (q, a, w) = l.answers k t in (q, asked k q a, w);
        once = λ k. ground (
          arith,
          l.once k,
          count-append (λ t. t.session_id) (λ t. t.command_id) i k s.tasks (enqueued i new),
          count-enqueued i k (length l.ctx.handled) m new fresh,
          AreNumbered-length (length l.ctx.handled) m new fresh,
          ap length log,
          length-append l.ctx.handled new,
        );
      }

  -- The requests of another session are read.
  pub other_read-Ledger :
      (e : ℕ) (c : DecodeContext) (new : List Command)
      → e ≢ d
      → c.session_id ≢ i
      → Ledger env i d taken f (reading e c new c.session_id)
  other_read-Ledger e c new h other = record {
    ctx = l.ctx;
    at_d = get_elem?-store_context_ne s.contexts e d c h ∙ l.at_d;
    same_id = l.same_id;
    unique = λ g x at own. elim (get_elem?-store_context s.contexts e g c x at) [
      | inl (q, k) ↦ absurd (other (ap (λ y. y.session_id) k ∙ own))
      | inr (q, k) ↦ l.unique g x k own
    ];
    used = l.used;
    tasks = All-append _ s.tasks _ l.tasks (enqueued_others l.ctx.handled c.session_id new other);
    replies = l.replies;
    answers = l.answers;
    once = λ k. omega (
      arith,
      l.once k,
      count-append (λ t. t.session_id) (λ t. t.command_id) i k s.tasks (enqueued c.session_id new),
      count-enqueued_ne i k c.session_id new other,
    );
  }
