-- ===== src/Lib.antt =====
-- logcabin-redis-proxy: a server that speaks the Redis protocol and keeps the data in a LogCabin
-- cluster. This library models its own C++ code, src/proxy and the codec deps/simple_resp.
--
-- How the program works, and which file models it:
--  - deps/simple_resp (Resp, Resp/Encoder, Resp/Decoder). An encoder of replies, and a decoder that is
--    fed what was read from a connection, keeps a context between reads, and calls a handler with a
--    command id for each request. The definitions have the names of the source; `parse_loop` is the
--    loop of `decoder::parse` and `turn` is one round of it, `token_in` is its switch on the state.
--    `Resp/Decoder/Scan` has a plain description of the decoder, which its other proofs use, and
--    `Resp/Replies` an independent description of the replies of the protocol: how they are written, and
--    how a client reads them one behind the other.
--  - src/proxy/SessionManager.cc (Session, Session/Manager). A `SessionCtx` sends the responses of one
--    connection in the order of their command ids and keeps those that come early; the
--    `SessionManager` has the sessions of the open connections. The contexts are shared objects, so
--    they live in a heap and a pointer is an index.
--  - src/proxy/handler.cc (Handler). One function for each command, as a program over a state with the
--    connections' counter and the cluster, which may throw or be undefined (Handler/Monad); Handler/Types
--    has the kind of reply that each command has, which Handler/Safety shows of the handlers; Handler/Turns
--    has the constructor of src/proxy/handler.h and the turns of its ten connections, and
--    Handler/Elements has `split_list_elements`, which nothing calls. What the commands do to the data is in
--    Handler/Values (SET, GET, MGET), Handler/Pushes (RPUSH, LPUSH), Handler/Sets (SADD, SREM, SMEMBERS),
--    Handler/Ranges (LTRIM, LRANGE) and Handler/Expire, each with what it takes the cluster to promise;
--    Handler/Lines has the values that the simple strings of MGET cannot hold.
--  - src/proxy/main.cc and src/proxy/proxy.cc (Server). Options, dispatch of a command by its name
--    (with Server/Dispatch/Case, which has capital letters from the two alphabets), the
--    callbacks of the event loop and the workers of both thread pools (Server/Workers), the system of
--    their steps in any order (Server/System), and the start of the process (Server/Main), with the class
--    of src/proxy/proxy.h. Server/Workers/Parts has `sender_worker` in the two parts between which other
--    threads may run.
--  - Base, Bytes, Num and Map have what the parts share: lists over native numbers, byte strings,
--    `std::to_string`, `std::stoi`, `atoi`, and a `std::map` as a sorted list.
--  - Tests has the concrete instances at which the theorems are applied.
--
-- A read on the event loop's thread decodes requests and puts a task for each in the first pool; a
-- worker runs the command's handler and puts the reply in the second pool; a worker of this pool
-- gives the reply to the session's context, which writes it to the socket when its turn has come.
-- Server/System follows one session through the steps of all three: `Ledger` has where each of its
-- commands is, `Line` what its client has received, `Opening` both at its first event, `Tracks` both
-- after each step, and `Delivery` and `Drain` what follows for the client; `Inputs` has what was
-- read from its connection, `Conversation` the way from a client's requests to the responses, and
-- `Client` what the client reads in them. `Safety` is about the state of the whole process,
-- `Isolation` and `Dropped` about sessions that a step does not concern or that are over, and
-- `Reuse` about a descriptor that is closed and accepted again. In `Reaches` a read may come at any
-- time; `Events` has the process as the event loop drives it, with reads for registered descriptors
-- only. `accept` gives a descriptor that no open session has, as the source closes a descriptor when
-- it erases the session.
--
-- Bounds. `parse_loop` has one round of fuel for each buffered byte and one more, since a round goes
-- ahead by a byte at least; `reply_loop` has two rounds, since a round either returns or makes the
-- loop's condition false. An indexed buffer is shorter than 2^31 bytes and a response shorter than
-- 2^63. Session ids and command ids are numbers without a bound, where the source has `int`: the
-- model is that of fewer than 2^31 sessions, and of fewer than 2^31 commands on each. Members that
-- the source leaves uninitialised are arguments of the model.
--
-- Parameters. The system calls (`Socket`), the event loop of src/ae, a copy of the one of Redis
-- (`EventLoop`, `Startup`), and the LogCabin client (`Tree`, and `connect` of `Startup`) are
-- records, with the documented behaviour that a proof needs as named hypotheses. A thread pool is
-- the list of the calls that have not run, and any of them may be the next to run.
--
-- Not modelled: logging; locks, as each operation of a component is one step of the process. So is a
-- handler, which calls the cluster without a lock: Handler/Shared has one handler among other
-- workers that change the data before each of its calls, and Handler/Atomic and
-- Server/Dispatch/Atomic which requests this makes no difference to (the turns that others take of
-- the connections in the meantime are left out); Handler/Apart has MGET, to which it does. Since the
-- cluster is a parameter, `disturbed` of Handler/Shared may also stand for it in Server/System, for
-- other clients that change its data. Nor are modelled the event loop itself and the buffer of 1023
-- bytes that `read` fills, as the model takes any bytes. A failed `accept` is no step of the system:
-- the source uses its -1 as a descriptor, which is undefined (Server/Workers). src/CMakeLists.txt
-- defines NDEBUG, so that the `assert` of src/proxy/proxy.cc is no code.
pub mod Base
pub mod Bytes
pub mod Num
pub mod Map
pub mod Resp
pub mod Session
pub mod Handler
pub mod Server
pub mod Tests
