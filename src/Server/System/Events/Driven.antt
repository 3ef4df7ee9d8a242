-- ===== src/Server/System/Events/Driven.antt =====
-- What the event loop drives the process to.

use logcabin_redis_proxy.Base.{ℕ, ◌≡◌, Option, none, some}
use logcabin_redis_proxy.Server.State.{Environment, Server, Ran, running}
use logcabin_redis_proxy.Server.System.Events.Served.{AfterServed, Event-Step, Event-AfterServed}
use logcabin_redis_proxy.Server.System.Events.{
  Registers, Drives, starts, continues, Serves, AreServed,
}
use logcabin_redis_proxy.Server.System.Safety.{Reaches-IsFit, Step-IsFit, Keeps, IsFit}
use logcabin_redis_proxy.Server.System
use logcabin_redis_proxy.Server.System.{Step, Reaches, new_server, IsFree}

module _ (env : Environment) (registered : env.event_loop.Loop → ℕ → Option ℕ)
    (law : Registers env.event_loop registered) where
  open env use {event_loop, socket}

  -- Where a driven process goes from a good state, the process goes too, and stays good.
  pub Drives-from :
      (s : Server env) (o : Ran env)
      → IsFit env s
      → AreServed env registered s
      → Drives env registered s o
      → Reaches env s o × Keeps env o × AfterServed env registered law o
  unfolding Keeps AfterServed
  Drives-from s o v served starts = (System.starts, v, served)
  Drives-from s o v served (continues {t = t} before step) =
      let (reached, fit, kept) = Drives-from s (running t) v served before in
      let next = Event-Step env registered law t o kept step in
      (
        System.continues reached next,
        Step-IsFit env t o fit next,
        Event-AfterServed env registered law t o fit kept step,
      )

  -- The event loop keeps the client data of the events that are created and not deleted, and has none
  -- at the start; it accepts connections on descriptors that no open session has, and calls back
  -- `read_from_client` for registered descriptors only. Then a process that it drives does what the
  -- process can do when reads may come at any time, and in every state `t` that it comes to, a registered
  -- descriptor is that of a session in the table, whose decode context is the client data: no read is
  -- called back for a connection that is over.
  pub Drives-AreServed :
      (loop : event_loop.Loop) (memory : ℕ) (cluster : env.tree.World) (world : socket.World)
      (t : Server env)
      → ((fd : ℕ) → registered loop fd ≡ none)
      → Drives env registered (new_server env loop memory cluster world) (running t)
      → Reaches env (new_server env loop memory cluster world) (running t)
        × ((fd data_ptr : ℕ)
            → registered t.loop fd ≡ some data_ptr
            → Serves env registered t fd data_ptr)
  unfolding AfterServed AreServed new_server Keeps
  Drives-AreServed loop memory cluster world t start drives =
      let s0 = new_server env loop memory cluster world in
      let fit : IsFit env s0 =
        Reaches-IsFit env loop memory cluster world (running s0) System.starts in
      let (reached, kept, served) =
        Drives-from s0 (running t) fit (λ fd d e. cc (start fd, e)) drives in
      (reached, served)
