-- ===== src/Tests/Events.antt =====
-- An event loop that takes descriptors below 8, at which the theorems on what it drives are applied.
use logcabin_redis_proxy.Base.{
  ℕ, ◌≡◌, ◌≢◌, refl, subst, [], ◌∷◌, Option, none, some, Bool, true, false, ltb, ◌==◌, ==_iff,
  if◌then◌else◌, arith,
}
use logcabin_redis_proxy.Map.{map_find}
use logcabin_redis_proxy.Resp.Decoder.{new_decode_context}
use logcabin_redis_proxy.Server.State.{EventLoop, Environment, Server, running}
use logcabin_redis_proxy.Server.System.Events.Driven.{Drives-AreServed}
use logcabin_redis_proxy.Server.System.Events.Stranded.{accept_tcp_handler-IsStranded}
use logcabin_redis_proxy.Server.System.Events.{
  Registers, Drives, starts, continues, accepts, Serves, IsStranded,
}
use logcabin_redis_proxy.Server.System.{IsFree, Reaches, new_server}
use logcabin_redis_proxy.Server.Workers.{accept_tcp_handler}
use logcabin_redis_proxy.Session.Manager.{get_ctx, insert_new_staus, new_session_manager}
use logcabin_redis_proxy.Tests.Fixtures.{empty, full_socket, small_tree, nothing}

abbrev put_event : (ℕ → Option ℕ) → ℕ → Option ℕ → ℕ → Option ℕ
put_event l fd o k = if fd == k then o else l k

abbrev small_loop : EventLoop
small_loop = record {
  Loop = ℕ → Option ℕ;
  create_file_event = λ l fd d. (ltb fd 8, if ltb fd 8 then put_event l fd (some d) else l);
  delete_file_event = λ l fd. put_event l fd none;
}

abbrev small_registered : (ℕ → Option ℕ) → ℕ → Option ℕ
small_registered l k = l k

put_self : (l : ℕ → Option ℕ) (fd : ℕ) (o : Option ℕ) → put_event l fd o fd ≡ o
put_self l fd o = rw ((==_iff fd fd).1 refl) refl

put_other : (l : ℕ → Option ℕ) (fd k : ℕ) (o : Option ℕ) → fd ≢ k → put_event l fd o k ≡ l k
put_other l fd k o h = ground (arith, ==_iff fd k)

created_other :
    (b : Bool) (l : ℕ → Option ℕ) (fd d k : ℕ)
    → fd ≢ k
    → (if b then put_event l fd (some d) else l) k ≡ l k
created_other true l fd d k h = put_other l fd k (some d) h
created_other false l fd d k h = refl

small_loop-Registers : Registers small_loop small_registered
small_loop-Registers = record {
  created = λ l fd d e. rw e (put_self l fd (some d));
  refused = λ l fd d e. rw e refl;
  create_other = λ l fd d k h. created_other (ltb fd 8) l fd d k h;
  deleted = λ l fd. put_self l fd none;
  delete_other = λ l fd k h. put_other l fd k none h;
}

abbrev events_env : Environment
events_env = record { event_loop = small_loop; socket = full_socket; tree = small_tree }

abbrev no_events : ℕ → Option ℕ
no_events k = none

abbrev start : Server events_env
start = new_server events_env no_events 0 empty nothing

start-IsFree : (fd : ℕ) → IsFree fd start.manager
unfolding new_server new_session_manager get_ctx map_find
start-IsFree fd j p e = cc

-- Where the first client is accepted on a descriptor.
abbrev accepted_on : ℕ → (ℕ → Option ℕ) → Server events_env
accepted_on fd loop = record {
  loop = loop;
  manager = (insert_new_staus (new_session_manager 0) fd).0;
  contexts = new_decode_context 1 5 ∷ [];
  tasks = [];
  replies = [];
  handler = record { ptree_counter = 0; world = empty };
  world = nothing;
}

accepts_four :
    accept_tcp_handler events_env (some 4) 5 start
    ≡ running (accepted_on 4 (put_event no_events 4 (some 0)))
unfolding accept_tcp_handler new_server insert_new_staus new_session_manager
accepts_four = refl

Drives-four :
    Drives events_env small_registered start
      (running (accepted_on 4 (put_event no_events 4 (some 0))))
Drives-four =
    subst (Drives events_env small_registered start) accepts_four
      (continues starts (accepts 4 5 (start-IsFree 4)))

Drives-AreServed_example :
    Reaches events_env start (running (accepted_on 4 (put_event no_events 4 (some 0))))
    × ((fd data_ptr : ℕ)
        → put_event no_events 4 (some 0) fd ≡ some data_ptr
        → Serves events_env small_registered
            (accepted_on 4 (put_event no_events 4 (some 0)))
            fd
            data_ptr)
Drives-AreServed_example =
    Drives-AreServed events_env small_registered small_loop-Registers no_events 0 empty nothing
      (accepted_on 4 (put_event no_events 4 (some 0))) (λ fd. refl) Drives-four

accepts_nine : accept_tcp_handler events_env (some 9) 5 start ≡ running (accepted_on 9 no_events)
unfolding accept_tcp_handler new_server insert_new_staus new_session_manager
accepts_nine = refl

accept_tcp_handler-IsStranded_example :
    IsStranded events_env small_registered 1 9 (accepted_on 9 no_events)
unfolding new_server new_session_manager
accept_tcp_handler-IsStranded_example =
    accept_tcp_handler-IsStranded events_env small_registered small_loop-Registers no_events 0 empty
      nothing start (accepted_on 9 no_events) (accepted_on 9 no_events) 9 5 (λ fd. refl) starts
      (start-IsFree 9) refl accepts_nine starts
