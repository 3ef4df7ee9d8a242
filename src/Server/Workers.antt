-- ===== src/Server/Workers.antt =====
-- The callbacks and the workers of src/proxy/main.cc, one step of the process each.
pub mod Parts
use logcabin_redis_proxy.Base.{
  ℕ, not, List, [], ◌∷◌, ◌++◌, Option, none, some, get_elem?, length, drop, if◌then◌else◌,
}
use logcabin_redis_proxy.Bytes.{Bytes}
use logcabin_redis_proxy.Handler.Monad
use logcabin_redis_proxy.Handler.Monad.{HandlerState, Outcome, returned, thrown}
use logcabin_redis_proxy.Resp.Decoder.{
  DecodeContext, Decoded, threw, out_of_fuel, new_decode_context, feed,
}
use logcabin_redis_proxy.Resp.Decoder
use logcabin_redis_proxy.Resp.{Command, EncodeResult}
use logcabin_redis_proxy.Session.Manager.{insert_new_staus, get_ctx, store, erase_session}
use logcabin_redis_proxy.Session.{SessionCtx, insert_new_response}
use logcabin_redis_proxy.Server.Dispatch.{dispatch}
use logcabin_redis_proxy.Server.State.{
  Environment, Task, Reply, Server, Ran, running, terminated, undefined, store_context,
}

-- What `read` gives: at most 1023 bytes, none at the end of the input.
pub data ReadResult : Type 0 where
  read_error : ReadResult
  read_bytes : Bytes → ReadResult

-- The handler of a decode context enqueues a task for each command.
abbrev pub enqueued : ℕ → List Command → List Task
enqueued session_id [] = []
enqueued session_id (c ∷ cs) =
    record { command_id = c.command_id; request = c.request; session_id = session_id }
    ∷ enqueued session_id cs

module _ (env : Environment) where
  open env use {event_loop, socket, tree}

  -- `write_to_client` does nothing.
  unfoldable pub write_to_client : Server env → Server env
  write_to_client s = s

  unfoldable pub send_reply : ℕ → ℕ → Bytes → Server env → Server env
  send_reply command_id session_id response s = record s {
    replies =
        s.replies
        ++ (record { response = response; command_id = command_id; session_id = session_id } ∷ []);
  }

  abbrev answered : Task → Server env → Outcome EncodeResult × HandlerState tree.World → Ran env
  answered t s (returned r, h) =
      running (send_reply t.command_id t.session_id r.response (record s { handler = h }))
  answered t s (thrown e, h) = terminated
  answered t s (Monad.undefined, h) = undefined

  unfoldable pub processer_worker : Task → Server env → Ran env
  unfolding send_reply
  processer_worker t s = answered t s (dispatch tree t.request s.handler)

  -- The response goes through the session's context, a shared object.
  abbrev pub insert_through : ℕ → ℕ → Bytes → Option SessionCtx → Server env → Server env
  insert_through ptr command_id resp none s = s
  insert_through ptr command_id resp (some ctx) s =
      if not ctx.is_eof_reach
      then (let (ctx', w) = insert_new_response socket ctx command_id resp s.world in
          record s {
            manager = record s.manager { heap = store s.manager.heap ptr ctx' };
            world = w;
          })
      else s

  abbrev pub send_to : Option ℕ → Reply → Server env → Server env
  send_to none r s = s
  send_to (some ptr) r s =
      insert_through ptr r.command_id r.response (get_elem? s.manager.heap ptr) s

  unfoldable pub sender_worker : Reply → Server env → Server env
  sender_worker r s = send_to (get_ctx s.manager r.session_id) r s

  -- The connection is over: no more events, and no session.
  unfoldable pub drop_client : ℕ → DecodeContext → Server env → Server env
  drop_client fd ctx s =
      let (m, w) = erase_session socket s.manager ctx.session_id s.world in
      record s { loop = event_loop.delete_file_event s.loop fd; manager = m; world = w }

  abbrev pub decoded : ℕ → DecodeContext → Decoded DecodeContext → Server env → Ran env
  decoded data_ptr ctx (Decoder.ok ctx') s = running (record s {
    contexts = store_context s.contexts data_ptr ctx';
    tasks = s.tasks ++ enqueued ctx.session_id (drop (length ctx.handled) ctx'.handled);
  })
  decoded data_ptr ctx (threw e h) s = terminated
  decoded data_ptr ctx out_of_fuel s = undefined

  abbrev pub read_by : ℕ → ℕ → ReadResult → Option DecodeContext → Server env → Ran env
  read_by fd data_ptr r none s = undefined
  read_by fd data_ptr read_error (some ctx) s = running (drop_client fd ctx s)
  read_by fd data_ptr (read_bytes []) (some ctx) s = running (drop_client fd ctx s)
  read_by fd data_ptr (read_bytes (c ∷ bytes)) (some ctx) s =
      decoded data_ptr ctx (feed ctx (c ∷ bytes)) s

  unfoldable pub read_from_client : ℕ → ℕ → ReadResult → Server env → Ran env
  unfolding drop_client
  read_from_client fd data_ptr r s = read_by fd data_ptr r (get_elem? s.contexts data_ptr) s

  -- `none` is a failed `anetTcpAccept`, whose -1 is used as a descriptor, and reaches `events[-1]`.
  unfoldable pub accept_tcp_handler : Option ℕ → ℕ → Server env → Ran env
  accept_tcp_handler none memory s = undefined
  accept_tcp_handler (some client_fd) memory s =
      let (m, new_session_id) = insert_new_staus s.manager client_fd in
      let (created, loop) = event_loop.create_file_event s.loop client_fd (length s.contexts) in
      running (record s {
        manager = m;
        contexts = s.contexts ++ (new_decode_context new_session_id memory ∷ []);
        loop = loop;
      })
