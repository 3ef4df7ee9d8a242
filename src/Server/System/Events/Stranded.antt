-- ===== src/Server/System/Events/Stranded.antt =====
-- A session whose event could not be created.
use logcabin_redis_proxy.Base.{
  ℕ, ◌+◌, ◌≡◌, ◌≢◌, sym, ap, subst, ◌∙◌, ◌++◌, false, Option, none, some, length, All,
  All-get_elem?, All-middle, Option-cases, inl, inr,
}
use logcabin_redis_proxy.Resp.Decoder.{DecodeContext}
use logcabin_redis_proxy.Server.State.{Environment, Server, Ran, running, terminated, undefined}
use logcabin_redis_proxy.Server.System.Events.Kept.{Like, sender_worker-Like, other_session}
use logcabin_redis_proxy.Server.System.Events.Served.{Event-Step, Event-AfterServed, AfterServed}
use logcabin_redis_proxy.Server.System.Events.Driven.{Drives-from}
use logcabin_redis_proxy.Server.System.Events.{
  Registers, Event, Drives, starts, continues, accepts, reads, processes, sends, AreServed,
  IsStranded,
}
use logcabin_redis_proxy.Server.System.Reads.{ReadCase, read_by-case}
use logcabin_redis_proxy.Server.System.Safety.{
  IsFit, Keeps, IsFitContext, HasRequest, processed, Step-IsFit, Reaches-IsFit,
}
use logcabin_redis_proxy.Server.System
use logcabin_redis_proxy.Server.System.{IsFree, new_server}
use logcabin_redis_proxy.Server.Workers.{
  read_from_client, accept_tcp_handler, drop_client, send_reply,
}
use logcabin_redis_proxy.Session.Manager.Holders.{
  Holds, Holds-like, Holds-insert_new_staus, Holds-new, Holds-erase_session,
}
use logcabin_redis_proxy.Session.Manager.Laws.{IsSound}
use logcabin_redis_proxy.Session.Manager.{insert_new_staus}

module _ (env : Environment) (registered : env.event_loop.Loop → ℕ → Option ℕ)
    (law : Registers env.event_loop registered) (id fd : ℕ) where
  open env use {event_loop, socket}

  abbrev Stranded : Server env → Type 0
  Stranded = IsStranded env registered id fd

  unfoldable AfterStranded : Ran env → Type 0
  AfterStranded (running s) = Stranded s
  AfterStranded terminated = Unit
  AfterStranded undefined = Unit

  Like-IsStranded : (s t : Server env) → Like env s t → Stranded s → Stranded t
  Like-IsStranded s t like x = record {
    session = Holds-like s.manager t.manager id fd like.table like.heap x.session;
    unheard = ap (λ l. registered l fd) like.loop ∙ x.unheard;
  }

  accepted-IsStranded :
      (client_fd memory : ℕ) (s : Server env)
      → IsSound s.manager
      → IsFree client_fd s.manager
      → Stranded s
      → AfterStranded (accept_tcp_handler env (some client_fd) memory s)
  unfolding AfterStranded accept_tcp_handler insert_new_staus
  accepted-IsStranded client_fd memory s v free x = record {
    session = Holds-insert_new_staus s.manager id fd client_fd v x.session;
    unheard =
        law.create_other s.loop client_fd _ fd (λ e.
          free id x.session.pointer x.session.in_table (x.session.descriptor ∙ ap some (sym e)))
        ∙ x.unheard;
  }

  read-AfterStranded :
      (k data_ptr : ℕ) (ctx : DecodeContext) (s : Server env) (o : Ran env)
      → IsSound s.manager
      → k ≢ fd
      → Holds s.manager ctx.session_id k
      → ReadCase env k data_ptr ctx s o
      → Stranded s
      → AfterStranded o
  unfolding AfterStranded drop_client
  read-AfterStranded k data_ptr ctx s o v ne own (inl e) x = subst AfterStranded (sym e) (record {
    session =
        Holds-erase_session socket s.manager id fd ctx.session_id s.world v
          (other_session env registered law s k fd _ _ own x.session ne) x.session;
    unheard = law.delete_other s.loop k fd ne ∙ x.unheard;
  })
  read-AfterStranded k data_ptr ctx s o v ne own (inr (inl h)) x =
      subst AfterStranded (sym h.result) (record { session = x.session; unheard = x.unheard })
  read-AfterStranded k data_ptr ctx s o v ne own (inr (inr e)) x = subst AfterStranded (sym e) tt

  Event-AfterStranded :
      (s : Server env) (o : Ran env)
      → IsFit env s
      → AreServed env registered s
      → Event env registered s o
      → Stranded s
      → AfterStranded o
  unfolding AfterStranded AreServed read_from_client send_reply
  Event-AfterStranded s o v served (accepts client_fd memory free) x =
      accepted-IsStranded client_fd memory s v.manager free x
  Event-AfterStranded s o v served (reads k data_ptr r e) x =
      let was = served k data_ptr e in
      rw was.at_data (
        read-AfterStranded k data_ptr was.context s _ v.manager (λ q. cc (x.unheard, e, q))
          was.session
          (read_by-case env k data_ptr was.context s r
            (All-get_elem? IsFitContext s.contexts data_ptr was.at_data v.contexts))
          x)
  Event-AfterStranded s o v served (processes t before behind e) x =
      let (fit, w) = All-middle HasRequest before t behind (subst (All HasRequest) e v.tasks) in
      let (r, h, a, q) = processed env t (record s { tasks = before ++ behind }) fit in
      subst AfterStranded (sym q) (record { session = x.session; unheard = x.unheard })
  Event-AfterStranded s o v served (sends r before behind e) x =
      Like-IsStranded (record s { replies = before ++ behind }) _
        (sender_worker-Like env r (record s { replies = before ++ behind }))
        (record { session = x.session; unheard = x.unheard })

  -- Once stranded, always stranded.
  Drives-AfterStranded :
      (s : Server env) (o : Ran env)
      → IsFit env s
      → AreServed env registered s
      → Stranded s
      → Drives env registered s o
      → Keeps env o × AfterServed env registered law o × AfterStranded o
  unfolding Keeps AfterServed AfterStranded
  Drives-AfterStranded s o v served x starts = (v, served, x)
  Drives-AfterStranded s o v served x (continues {t = t} before step) =
      let (fit, kept, still) = Drives-AfterStranded s (running t) v served x before in
      (
        Step-IsFit env t o fit (Event-Step env registered law t o kept step),
        Event-AfterServed env registered law t o fit kept step,
        Event-AfterStranded t o fit kept step still,
      )

module _ (env : Environment) (registered : env.event_loop.Loop → ℕ → Option ℕ)
    (law : Registers env.event_loop registered) where
  open env use {event_loop, socket, tree}

  unheard_descriptor :
      (s : Server env) (fd : ℕ)
      → AreServed env registered s
      → IsFree fd s.manager
      → registered s.loop fd ≡ none
  unfolding AreServed
  unheard_descriptor s fd served free = elim (Option-cases (registered s.loop fd)) [
    | inl e ↦ e
    | inr (d, e) ↦
        let h = (served fd d e).session in absurd (free _ h.pointer h.in_table h.descriptor)
  ]

  refused-IsStranded :
      (s : Server env) (client_fd buffer : ℕ)
      → IsSound s.manager
      → AreServed env registered s
      → IsFree client_fd s.manager
      → (event_loop.create_file_event s.loop client_fd (length s.contexts)).0 ≡ false
      → AfterStranded env registered law
          (s.manager.session_counter + 1)
          client_fd
          (accept_tcp_handler env (some client_fd) buffer s)
  unfolding AfterStranded accept_tcp_handler insert_new_staus
  refused-IsStranded s client_fd buffer v served free not_created = record {
    session = Holds-new s.manager client_fd v;
    unheard =
        law.refused s.loop client_fd _ not_created ∙ unheard_descriptor s client_fd served free;
  }

  -- The event loop as in `Drives-AreServed`. It has driven a process to any state `s`, where a
  -- connection is accepted on a descriptor that no open session has, and `aeCreateFileEvent` fails for
  -- it. Then in every state that the loop drives the process to from there on, the new session is
  -- still in the table, with the descriptor, and no event is registered for the descriptor, so that no
  -- read is called back for it.
  pub accept_tcp_handler-IsStranded :
      (loop : event_loop.Loop) (memory : ℕ) (cluster : tree.World) (world : socket.World)
      (s u t : Server env) (client_fd buffer : ℕ)
      → ((fd : ℕ) → registered loop fd ≡ none)
      → Drives env registered (new_server env loop memory cluster world) (running s)
      → IsFree client_fd s.manager
      → (event_loop.create_file_event s.loop client_fd (length s.contexts)).0 ≡ false
      → accept_tcp_handler env (some client_fd) buffer s ≡ running u
      → Drives env registered u (running t)
      → IsStranded env registered (s.manager.session_counter + 1) client_fd t
  unfolding Keeps AfterServed AfterStranded AreServed new_server
  accept_tcp_handler-IsStranded loop memory cluster world s u t client_fd buffer start before free
        not_created opened later =
      let s0 = new_server env loop memory cluster world in
      let fit0 : IsFit env s0 =
        Reaches-IsFit env loop memory cluster world (running s0) System.starts in
      let (reached, fit, served) =
        Drives-from env registered law s0 (running s) fit0 (λ fd d e. cc (start fd, e)) before in
      let step = accepts client_fd buffer free in
      let fit_u : IsFit env u =
        subst (Keeps env) opened
          (Step-IsFit env s _ fit (Event-Step env registered law s _ served step)) in
      let served_u : AreServed env registered u =
        subst (AfterServed env registered law) opened
          (Event-AfterServed env registered law s _ fit served step) in
      let stranded_u : IsStranded env registered (s.manager.session_counter + 1) client_fd u =
        subst (AfterStranded env registered law (s.manager.session_counter + 1) client_fd) opened
          (refused-IsStranded s client_fd buffer fit.manager served free not_created) in
      (Drives-AfterStranded env registered law (s.manager.session_counter + 1) client_fd u
        (running t) fit_u served_u stranded_u later).2
