-- ===== src/Resp/Replies/Stream.antt =====
-- A client reads the responses of a session one behind the other.
use logcabin_redis_proxy.Base.{
  ℕ, zero, suc, ◌<◌, List, [], ◌∷◌, ◌++◌, ◌≡◌, refl, ap, ◌∙◌, sym, some, length, arith,
  append_assoc, append-nil, get_elem?,
}
use logcabin_redis_proxy.Bytes.{Bytes}
use logcabin_redis_proxy.Resp.Replies.RoundTrip.{read_answer-print_answer}
use logcabin_redis_proxy.Resp.Replies.{Answer, print_answer, read_answer, read_answers, IsReadable}
use logcabin_redis_proxy.Session.Order.{responses}

-- One reply more.
read_answers-next :
    (n : ℕ) (s t u : Bytes) (x : Answer) (xs : List Answer)
    → read_answer s ≡ some (x, t)
    → read_answers n t ≡ some (xs, u)
    → read_answers (suc n) s ≡ some (x ∷ xs, u)
unfolding read_answers
read_answers-next n s t u x xs h e = rw (h, e) refl

responses-suc : (f : ℕ → Bytes) (n : ℕ) → responses f (suc n) ≡ f 0 ++ responses (λ k. f (suc k)) n
responses-suc f zero = sym (append-nil (f 0))
responses-suc f (suc n) =
    ap (λ r. r ++ f (suc n)) (responses-suc f n)
    ∙ append_assoc (f 0) (responses (λ k. f (suc k)) n) (f (suc n))

-- The responses to `n` requests are read as `n` answers.
pub record Read (Q : ℕ → Answer → Type 0) (f : ℕ → Bytes) (n : ℕ) : Type 0 where
  pub answers : List Answer
  pub in_full : length answers ≡ n
  pub reads : (rest : Bytes) → read_answers n (responses f n ++ rest) ≡ some (answers, rest)
  pub each : (k : ℕ) → k < n → (a : Answer) × (get_elem? answers k ≡ some a) × Q k a

each-suc :
    (Q : ℕ → Answer → Type 0) (n : ℕ) (a : Answer) (later : List Answer)
    → Q 0 a
    → ((k : ℕ) → k < n → (b : Answer) × (get_elem? later k ≡ some b) × Q (suc k) b)
    → (k : ℕ) → k < suc n
    → (b : Answer) × (get_elem? (a ∷ later) k ≡ some b) × Q k b
each-suc Q n a later q h zero l = (a, refl, q)
each-suc Q n a later q h (suc k) l = h k (omega (arith, l))

-- Where each of `n` responses is the print of a readable answer, a client reads these answers from
-- the responses in their order, and what follows them is left.
pub responses-Read :
    (n : ℕ) (Q : ℕ → Answer → Type 0) (f : ℕ → Bytes)
    → ((k : ℕ) → k < n → (a : Answer) × (f k ≡ print_answer a) × IsReadable a × Q k a)
    → Read Q f n
unfolding read_answers
responses-Read zero Q f h = record {
  answers = [];
  in_full = refl;
  reads = λ rest. refl;
  each = λ k l. absurd (omega (arith, l));
}
responses-Read (suc n) Q f h =
    let (a, is_print, readable, q) = h 0 (omega arith) in
    let later : Read (λ k. Q (suc k)) (λ k. f (suc k)) n =
      responses-Read n (λ k. Q (suc k)) (λ k. f (suc k)) (λ k l. h (suc k) (omega (arith, l))) in
    let stream = responses (λ k. f (suc k)) n in
    record {
      answers = a ∷ later.answers;
      in_full = ap suc later.in_full;
      reads = λ rest.
          read_answers-next n (responses f (suc n) ++ rest) (stream ++ rest) rest a later.answers
            (ap (λ r. read_answer (r ++ rest)) (responses-suc f n)
              ∙ ap read_answer (append_assoc (f 0) stream rest)
              ∙ ap (λ r. read_answer (r ++ (stream ++ rest))) is_print
              ∙ read_answer-print_answer a (stream ++ rest) readable)
            (later.reads rest);
      each = each-suc Q n a later.answers q later.each;
    }
