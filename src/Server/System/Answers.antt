-- ===== src/Server/System/Answers.antt =====
-- The answers to the requests of a session, and the counts of its tasks and replies.
use logcabin_redis_proxy.Base.{ℕ, ◌≡◌, Bool, ◌&&◌, ◌||◌, List, ◌==◌, if◌then◌else◌}
use logcabin_redis_proxy.Bytes.{Bytes}
use logcabin_redis_proxy.Handler.Calls.{Tree}
use logcabin_redis_proxy.Handler.Monad.{returned, HandlerState}
use logcabin_redis_proxy.Resp.{Command, EncodeResult}
use logcabin_redis_proxy.Server.Dispatch.{dispatch}
use logcabin_redis_proxy.Server.State.{Task, Reply}
use logcabin_redis_proxy.Server.System.Count.{count}
use logcabin_redis_proxy.Server.System.Numbering.{Asked}

-- What the dispatch of a request answers in some state of the connections and the cluster.
abbrev pub IsAnswer : Tree → List Bytes → Bytes → Type 0
IsAnswer tree request response =
    (h : HandlerState tree.World) × (e : EncodeResult) × ((dispatch tree request h).0 ≡ returned e)
    × (e.response ≡ response)

-- A response to the request with the id `k` in a log.
abbrev pub Answered : Tree → List Command → ℕ → Bytes → Type 0
Answered tree log k response =
    (request : List Bytes) × Asked log k request × IsAnswer tree request response

abbrev pub task_count : ℕ → ℕ → List Task → ℕ
task_count = count (λ t. t.session_id) (λ t. t.command_id)

abbrev pub reply_count : ℕ → ℕ → List Reply → ℕ
reply_count = count (λ r. r.session_id) (λ r. r.command_id)

-- What is taken out of the second pool with a reply, and the response that it had.
abbrev pub takes : ℕ → Reply → (ℕ → Bool) → ℕ → Bool
takes i r taken k = (r.session_id == i && r.command_id == k) || taken k

abbrev pub records : ℕ → Reply → (ℕ → Bytes) → ℕ → Bytes
records i r f k = if r.session_id == i && r.command_id == k then r.response else f k
