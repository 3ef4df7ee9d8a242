-- ===== src/Server/Main/Starts.antt =====
-- What a start of the process comes to.
use logcabin_redis_proxy.Base.{
  ℕ, ◌≤◌, ◌≡◌, refl, sym, ap, subst, ◌∙◌, Bool, true, false, List, [], Option, none, some, All,
  to_size,
}
use logcabin_redis_proxy.Bytes.{Bytes}
use logcabin_redis_proxy.Handler.Monad.{HandlerState}
use logcabin_redis_proxy.Handler.Turns.{connect_from, constructed, new_handler}
use logcabin_redis_proxy.Server.Main.{
  FileProc, accept_tcp_handler_proc, Startup, Started, serves, exited, crashed, Proxy, new_proxy,
  registered, listening, run, pooled, connected, parsed, main,
}
use logcabin_redis_proxy.Server.Options.Choice.{IsSetting, chosen, option_parser-last}
use logcabin_redis_proxy.Server.Options.{
  Options, Opt, Parsed, options, exits, defaults, option_parser,
}
use logcabin_redis_proxy.Server.State.{Environment, Server, Ran}
use logcabin_redis_proxy.Server.System.Safety.{Keeps, Reaches-IsFit}
use logcabin_redis_proxy.Server.System.{Reaches, new_server}

module _ (env : Environment) (startup : Startup env) where
  open env use {event_loop, socket, tree}
  open startup use {tcp_server, create_event_loop, create_listen_event, connect, thread_pool}

  module _ (memory : ℕ) (world : socket.World) where
    -- A process that serves does so in a state in which nothing has happened yet.
    AtStart : Started env → Type 0
    AtStart (serves ipfd proc created u) =
        (proc ≡ accept_tcp_handler_proc)
        × (loop : event_loop.Loop) × (w : tree.World) × (u ≡ new_server env loop memory w world)
    AtStart (exited status text) = Unit
    AtStart crashed = Unit

    registered-AtStart :
        (ipfd : ℕ) (w : tree.World) (r : Bool × event_loop.Loop)
        → AtStart (
            registered env startup ipfd accept_tcp_handler_proc r
              (λ loop. new_server env loop memory w world))
    unfolding AtStart
    registered-AtStart ipfd w (created, loop) = (refl, loop, w, refl)

    listening-AtStart :
        (w : tree.World) (r : Option ℕ × event_loop.Loop)
        → AtStart (
            listening env startup accept_tcp_handler_proc r
              (λ loop. new_server env loop memory w world))
    unfolding AtStart
    listening-AtStart w (none, loop) = tt
    listening-AtStart w (some ipfd, loop) =
        registered-AtStart ipfd w (create_listen_event loop ipfd accept_tcp_handler_proc)

    pooled-AtStart :
        (a b : Bool) (next : Started env) → AtStart next → AtStart (pooled env startup a b next)
    unfolding AtStart
    pooled-AtStart true true next v = v
    pooled-AtStart true false next v = tt
    pooled-AtStart false b next v = tt

    connected-AtStart :
        (o : Options) (p : Proxy env) (w : Option tree.World)
        → p.accept_handler ≡ accept_tcp_handler_proc
        → AtStart (connected env startup o p memory world (constructed connect w))
    unfolding AtStart run new_server
    connected-AtStart o p none e = tt
    connected-AtStart o p (some w) e = pooled-AtStart _ _ _ (
        subst
          (λ proc. AtStart (
            listening env startup proc (tcp_server p.service_port p.bind_addr p.loop)
              (λ loop. new_server env loop memory w world)))
          (sym e) (listening-AtStart w _))

    parsed-AtStart :
        (o : Parsed) (cluster : tree.World) → AtStart (parsed env startup o memory cluster world)
    unfolding AtStart new_proxy new_handler
    parsed-AtStart (exits status text) cluster = tt
    parsed-AtStart (options o) cluster =
        connected-AtStart o _ (connect_from connect 10 0 o.cluster cluster) refl

  -- Whatever the command line and whatever listening, the pools and the cluster answer: when `main`
  -- comes to run the event loop, it has given `accept_tcp_handler` as the callback for the listening
  -- descriptor, whether or not an event was created for it. Whatever the process then comes to, if every
  -- accept that is made succeeds, it does nothing undefined, and while it runs its state is fit: the
  -- table of sessions is sound, the decode contexts are well formed, and no request in the pool is empty.
  pub main-Keeps :
      (name : Bytes) (argc : ℕ) (opts : List Opt) (memory : ℕ) (cluster : tree.World)
      (world : socket.World) (ipfd : ℕ) (proc : FileProc) (created : Bool) (u : Server env)
      (o : Ran env)
      → main env startup name argc opts memory cluster world ≡ serves ipfd proc created u
      → Reaches env u o
      → (proc ≡ accept_tcp_handler_proc) × Keeps env o
  unfolding main AtStart
  main-Keeps name argc opts memory cluster world ipfd proc created u o e r =
      let at : AtStart memory world (serves ipfd proc created u) =
        subst (AtStart memory world) e
          (parsed-AtStart memory world (option_parser name argc opts) cluster) in
      let (same, loop, w, start) = at in
      (same, Reaches-IsFit env loop memory w world o (subst (λ v. Reaches env v o) start r))

  module _ (name : Bytes) (argc : ℕ) (opts : List Opt) (memory : ℕ) (cluster : tree.World)
      (world : socket.World) (h : HandlerState tree.World) (loop : event_loop.Loop) where
    abbrev o : Options
    o = chosen opts defaults

    main_listens :
        (r : Option ℕ × event_loop.Loop)
        → 2 ≤ argc
        → All IsSetting opts
        → new_handler connect o.cluster cluster ≡ some h
        → thread_pool (to_size o.thread_num) ≡ true
        → tcp_server o.service_port o.bind_addr (create_event_loop o.set_size) ≡ r
        → main env startup name argc opts memory cluster world
          ≡ listening env startup accept_tcp_handler_proc r
              (λ l. record (new_server env l memory h.world world) { handler = h })
    unfolding main run new_proxy
    main_listens r a v c t l =
        ap (λ x. parsed env startup x memory cluster world)
          (option_parser-last name argc opts [] a v).0
        ∙ rw (c, t, l) refl

    -- Where there is an argument and all are settings, the cluster is connected to and both pools have
    -- their threads, but
    -- the port and address given last cannot be listened on: the process ends at once with status 0,
    -- as if nothing were wrong, and prints nothing.
    pub main_unheard :
        2 ≤ argc
        → All IsSetting opts
        → new_handler connect o.cluster cluster ≡ some h
        → thread_pool (to_size o.thread_num) ≡ true
        → tcp_server o.service_port o.bind_addr (create_event_loop o.set_size) ≡ (none, loop)
        → main env startup name argc opts memory cluster world ≡ exited 0 []
    main_unheard a v c t l = main_listens (none, loop) a v c t l

    -- Where there is an argument and all are settings, the cluster is connected to, both pools have their
    -- threads, and the port and address given last can be listened on, or their defaults where none is
    -- given: `main` serves, whether or not the event for the listening descriptor is created, from the state in which nothing has happened, with the handler that its constructor
    -- made for the cluster given last.
    pub main-serves :
        (ipfd : ℕ) (created : Bool) (listening_loop : event_loop.Loop)
        → 2 ≤ argc
        → All IsSetting opts
        → new_handler connect o.cluster cluster ≡ some h
        → thread_pool (to_size o.thread_num) ≡ true
        → tcp_server o.service_port o.bind_addr (create_event_loop o.set_size) ≡ (some ipfd, loop)
        → create_listen_event loop ipfd accept_tcp_handler_proc ≡ (created, listening_loop)
        → main env startup name argc opts memory cluster world
          ≡ serves ipfd accept_tcp_handler_proc created
              (record (new_server env listening_loop memory h.world world) { handler = h })
    main-serves ipfd created listening_loop a v c t l r =
        main_listens (some ipfd, loop) a v c t l
        ∙ ap
            (λ x.
              registered env startup ipfd accept_tcp_handler_proc x
                (λ k. record (new_server env k memory h.world world) { handler = h }))
            r
