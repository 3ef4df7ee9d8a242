-- ===== src/Server/System/Numbering.antt =====
-- The command ids of a log, which is numbered from 0, and of the tasks that a read enqueues.
use logcabin_redis_proxy.Base.{
  ℕ, ◌+◌, ◌≡◌, ◌≢◌, refl, ap, subst, ◌∙◌, ◌&&◌, List, [], ◌∷◌, ◌++◌, some, arith, length,
  length-append, get_elem?, get_elem?-append, get_elem?-append_some, All, leb, ltb, append_assoc,
}
use logcabin_redis_proxy.Bytes.{Bytes}
use logcabin_redis_proxy.Resp.{Command}
use logcabin_redis_proxy.Resp.Decoder.Invariant.{AreNumbered}
use logcabin_redis_proxy.Server.System.Count.{bit, count}
use logcabin_redis_proxy.Server.Workers.{enqueued}

-- The request with the id `k` in a log.
abbrev pub Asked : List Command → ℕ → List Bytes → Type 0
Asked log k request = get_elem? log k ≡ some (record { command_id = k; request = request })

pub AreNumbered-length : (n m : ℕ) (cs : List Command) → AreNumbered n cs m → m ≡ n + length cs
AreNumbered-length n m [] v = omega (arith, v)
AreNumbered-length n m (c ∷ cs) v = omega (arith, AreNumbered-length (n + 1) m cs v.2)

pub AreNumbered-append :
    (n m : ℕ) (cs ds : List Command) → AreNumbered n (cs ++ ds) m → AreNumbered (n + length cs) ds m
AreNumbered-append n m [] ds v = subst (λ k. AreNumbered k ds m) (omega arith) v
AreNumbered-append n m (c ∷ cs) ds v =
    subst (λ k. AreNumbered k ds m) (omega arith) (AreNumbered-append (n + 1) m cs ds v.2)

-- A longer log has what was asked.
pub Asked-append :
    (cs ds : List Command) (k : ℕ) (request : List Bytes)
    → Asked cs k request
    → Asked (cs ++ ds) k request
Asked-append cs ds k request e = get_elem?-append_some cs ds k e

pub Asked-enqueued :
    (i m : ℕ) (cs ds : List Command)
    → AreNumbered (length cs) ds m
    → All (λ t. Asked (cs ++ ds) t.command_id t.request) (enqueued i ds)
Asked-enqueued i m cs [] v = tt
Asked-enqueued i m cs (d ∷ ds) v = (
  ap (get_elem? (cs ++ (d ∷ ds))) v.0 ∙ get_elem?-append cs ds d,
  subst (λ l. All (λ t. Asked l t.command_id t.request) (enqueued i ds))
      (append_assoc cs (d ∷ []) ds)
      (Asked-enqueued i m (cs ++ (d ∷ [])) ds
        (subst (λ k. AreNumbered k ds m) (omega (arith, length-append cs (d ∷ []))) v.2)),
)

module _ (i k : ℕ) where
  pub count-enqueued :
      (n m : ℕ) (ds : List Command)
      → AreNumbered n ds m
      → count (λ t. t.session_id) (λ t. t.command_id) i k (enqueued i ds) ≡ bit (leb n k && ltb k m)
  unfolding count
  count-enqueued n m [] v = ground arith
  count-enqueued n m (d ∷ ds) v =
      ground (arith, count-enqueued (n + 1) m ds v.2, AreNumbered-length (n + 1) m ds v.2)

  pub count-enqueued_ne :
      (j : ℕ) (ds : List Command)
      → j ≢ i
      → count (λ t. t.session_id) (λ t. t.command_id) i k (enqueued j ds) ≡ 0
  unfolding count
  count-enqueued_ne j [] h = refl
  count-enqueued_ne j (d ∷ ds) h = ground (arith, count-enqueued_ne j ds h)
