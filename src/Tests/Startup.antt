-- ===== src/Tests/Startup.antt =====
-- Starts of the process, and the connections of its handler.
use logcabin_redis_proxy.Base.{
  ℕ, ◌≡◌, refl, List, [], ◌∷◌, some, none, arith, true, pos, negsuc, ℤ, Option, ◌==◌, if◌then◌else◌,
}
use logcabin_redis_proxy.Bytes.{codes}
use logcabin_redis_proxy.Handler.Monad.{HandlerState}
use logcabin_redis_proxy.Handler.Turns.{new_handler, connect_from}
use logcabin_redis_proxy.Num.{atoi, strtol, magnitude, digits_value}
use logcabin_redis_proxy.Server.Main.Starts.{main-Keeps, main-serves}
use logcabin_redis_proxy.Server.Main.{Startup, serves, accept_tcp_handler_proc, main}
use logcabin_redis_proxy.Server.Options.{Opt, opt_port}
use logcabin_redis_proxy.Server.State.{Server, running}
use logcabin_redis_proxy.Server.System.Safety.{Keeps}
use logcabin_redis_proxy.Server.System.{new_server, starts}
use logcabin_redis_proxy.Tests.Fixtures.{Data, empty, small_env, nothing}

abbrev is_taken : ℤ → Option ℕ
is_taken (pos n) = if n == 80 then none else some 3
is_taken (negsuc n) = none

-- Port 80 is taken, and every other port is free.
abbrev small_startup : Startup small_env
small_startup = record {
  tcp_server = λ port addr loop. (is_taken port, loop);
  create_event_loop = λ size. [];
  create_listen_event = λ loop fd proc. (true, fd ∷ loop);
  connect = λ opts i w. some w;
  thread_pool = λ n. true;
}

abbrev port_90 : List Opt
port_90 = opt_port (codes "80") ∷ opt_port (codes "90") ∷ []

abbrev new_handler_state : HandlerState Data
new_handler_state = record { ptree_counter = 0; world = empty }

handler_made :
    new_handler small_startup.connect (codes "127.0.0.1:5254") empty ≡ some new_handler_state
unfolding new_handler connect_from
handler_made = refl

abbrev at_start : Server small_env
at_start = record (new_server small_env (3 ∷ []) 7 empty nothing) { handler = new_handler_state }

served :
    main small_env small_startup (codes "proxy") 3 port_90 7 empty nothing
    ≡ serves 3 accept_tcp_handler_proc true at_start
unfolding atoi strtol magnitude digits_value
served =
    main-serves small_env small_startup (codes "proxy") 3 port_90 7 empty nothing new_handler_state
      [] 3 true (3 ∷ []) (omega arith) (tt, (tt, tt)) handler_made refl refl refl

main-Keeps_example :
    (accept_tcp_handler_proc ≡ accept_tcp_handler_proc) × Keeps small_env (running at_start)
main-Keeps_example =
    main-Keeps small_env small_startup (codes "proxy") 3 port_90 7 empty nothing 3
      accept_tcp_handler_proc true at_start (running at_start) served starts
