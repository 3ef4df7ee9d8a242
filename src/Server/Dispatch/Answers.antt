-- ===== src/Server/Dispatch/Answers.antt =====
-- The answers of the chain of commands in `processer_worker`, and their types.
use logcabin_redis_proxy.Base.{
  ℕ, ◌≡◌, refl, sym, subst, List, ◌∷◌, if◌then◌else◌, length, inl, inr, Bool-cases,
}
use logcabin_redis_proxy.Bytes.{Bytes, codes, equal, equal_iff}
use logcabin_redis_proxy.Handler.Answers.{IsReply, IsReplyOf, Answers, enc-Safe, try_catch-returns}
use logcabin_redis_proxy.Handler.Calls.{Tree}
use logcabin_redis_proxy.Handler.Monad.{returned, HandlerState, M, enc}
use logcabin_redis_proxy.Handler.Safety
use logcabin_redis_proxy.Handler.Safety.{Fetched}
use logcabin_redis_proxy.Handler.Types.{reply_type, failed, answer_of, find_type}
use logcabin_redis_proxy.Resp.Encoder.{encode}
use logcabin_redis_proxy.Resp.Replies.{no_cr}
use logcabin_redis_proxy.Resp.{errors, EncodeResult}
use logcabin_redis_proxy.Server.Dispatch.Case.{in_capitals, to_uppercase-in_capitals}
use logcabin_redis_proxy.Server.Dispatch.{run_command, dispatch}

module _ {W : Type 0} {Read : Bytes → Type 0} {n : ℕ} (command : Bytes) where
  -- The answers of a command's branch have the type of the command.
  if-Answers :
      (name : Bytes) {m k : M W EncodeResult}
      → Answers Read n (reply_type name) m
      → Answers Read n (reply_type command) k
      → Answers Read n (reply_type command) (if equal command name then m else k)
  if-Answers name {m} {k} v w = elim (Bool-cases (equal command name)) [
    | inl e ↦
        rw e (subst (λ c. Answers Read n (reply_type c) m) (sym ((equal_iff command name).0 e)) v)
    | inr e ↦ rw e w
  ]

  unknown-Answers :
      Answers {W = W} Read n (reply_type command) (enc errors (codes "ERR unknown command"))
  unfolding encode answer_of no_cr
  unknown-Answers = record {
    answer = try_catch-returns (enc-Safe errors (codes "ERR unknown command") (failed refl refl));
  }

module _ (tree : Tree) where
  open tree use {World}

  run_command-Answers :
      (c : Bytes) (request : List Bytes)
      → Answers (Fetched tree) (length request) (reply_type c) (run_command tree c request)
  unfolding run_command reply_type find_type equal
  run_command-Answers c request =
      if-Answers c (codes "RPUSH") (Safety.handle_rpush_request-Answers tree request) (
        if-Answers c (codes "SADD") (Safety.handle_sadd_request-Answers tree request) (
          if-Answers c (codes "SREM") (Safety.handle_srem_request-Answers tree request) (
            if-Answers c (codes "MGET") (Safety.handle_mget_request-Answers tree request) (
              if-Answers c (codes "SMEMBERS") (Safety.handle_smembers_request-Answers tree request)
                (if-Answers c (codes "SCARD") (Safety.handle_scard_request-Answers tree request) (
                  if-Answers c (codes "LPUSH") (Safety.handle_lpush_request-Answers tree request) (
                    if-Answers c (codes "LRANGE")
                      (Safety.handle_lrange_request-Answers tree request)
                      (if-Answers c (codes "LTRIM")
                        (Safety.handle_ltrim_request-Answers tree request)
                        (if-Answers c (codes "EXPIRE")
                          (Safety.handle_expire_request-Answers tree request)
                          (if-Answers c (codes "SET")
                            (Safety.handle_set_request-Answers tree request)
                            (if-Answers c (codes "GET")
                              (Safety.handle_get_request-Answers tree request)
                              (unknown-Answers c))))))))))))

  -- A request with at least one element always gets a reply of the type that its command has, as the
  -- protocol writes it: the status "OK" for SET, LTRIM and EXPIRE; the bulk string "1" for SADD, SREM,
  -- LPUSH and RPUSH; a bulk string or null for GET and SCARD; an entry for each key for MGET; bulk
  -- strings for SMEMBERS, and these or null for LRANGE; or, as for any other name, an error in one line
  -- that begins with "ERR ". The name counts as it is in capital letters. It gets the reply whatever
  -- its arguments are, and whatever the cluster returns or throws.
  pub dispatch-IsReplyOf :
      (name : Bytes) (args : List Bytes) (s : HandlerState World)
      → (e : EncodeResult) × ((dispatch tree (name ∷ args) s).0 ≡ returned e)
        × IsReplyOf (Fetched tree) (length (name ∷ args)) (reply_type (in_capitals name)) e
  unfolding dispatch
  dispatch-IsReplyOf name args s =
      rw (to_uppercase-in_capitals name)
        ((run_command-Answers (in_capitals name) (name ∷ args)).answer s)

  -- A request with at least one element always gets an answer of the encoder: no handler throws, and
  -- none does what is undefined, whatever the cluster returns or throws and whatever the arguments.
  pub dispatch-answers :
      (name : Bytes) (args : List Bytes) (s : HandlerState World)
      → (e : EncodeResult) × ((dispatch tree (name ∷ args) s).0 ≡ returned e) × IsReply e
  dispatch-answers name args s =
      let (e, is_returned, reply) = dispatch-IsReplyOf name args s in
      (e, is_returned, reply.is_reply)
