-- ===== src/Lib.antt =====
-- magneto: a framework for network services. Agent threads own all sockets and run the exchanges
-- of bytes; worker threads run the handlers of requests as coroutines, which hand sets of talks to
-- an agent and are resumed when the agent is done with them.
--
-- The parts that are modelled, and where (paths from the repository's root):
--
--   Rapid, Socket    src/protocols/rapid: the length-prefixed codec over a non-blocking descriptor.
--                    `Rapid.read` is ProtocolReadRapid::Read, over any socket that delivers bytes
--                    in order.
--   Model            src/model.h, src/error_no.h; Model/Assign is src/details/model.cpp.
--   Env              what is called and not implemented here: the clock, connect, epoll, rand_r,
--                    the codecs' virtual functions, the send to a worker. Each answers from the
--                    trace of all calls before, so nothing is assumed of it; closing and
--                    registering a descriptor are seen in the trace.
--   Pool             src/conns_mgr/pool_conns_per_remote.h and its .cpp: descriptors kept for one
--                    remote, and its health mark.
--   ConnsMgr         src/conns_mgr/conns_mgr.h and its .cpp: the pools, the unhealthy remotes, the
--                    choice of a remote.
--   Session          src/session.h and src/details/session.cpp: the talks that one request waits
--                    for, their start, end and retry.
--   Slave            src/agents/agent_slave.h and its .cpp: the handlers of events of talks
--                    (Slave) and of clients (Slave/Clients), and the loops (Slave/Loop).
--   Biz              src/biz_procedure.h, src/io_basic/details/io_basic.cpp, src/details/msg.cpp:
--                    the operations that a request's handler calls, and its end. What the agent
--                    makes of the talks meanwhile is a parameter, `Exchange`.
--   Redis            src/protocols/redis: ParseCmd; Redis/Reply is ParseReply and Redis/Codec the
--                    two codec objects. Redis/Command/Wire has a reader of commands, which is
--                    not of the source.
--   Conf             src/confs: ConfServices::Init; Conf/Normal is ConfNormal::Init.
--   Ctx              src/ctx_helper.h.
--   Scheduler        src/schedulers: the loop of a scheduler over its mailbox and its tasks;
--                    Scheduler/Messages has the objects that hold the messages and their pools.
--   Agents           src/agents/agents.h and src/agents/details/agent_master.cpp: messages to
--                    agents, and the clients that the listening thread accepts.
--   Startup          src/details/magneto_base.cpp: MagnetoBase::Init with Schedulers::Init,
--                    Agents::Init and AgentMaster::Init.
--   Ping             src/protocols/ping: the codec that moves one byte.
--   Facade           src/magneto_base.h: what a handler calls, by the names of services and sets;
--                    src/magneto.h passes each call on to it.
--   Lifecycle        Start, Stop and the destructors, from src/details/magneto_base.cpp down to the
--                    threads of src/agents and src/schedulers.
--   Coroutine        the coroutines of one scheduler, as a relation between its states: src/schedulers,
--                    src/biz_procedure.h, src/io_basic and the agents' answers, which come at any time.
--                    SetCurrentBizProcedure, swapcontext and the sends are taken to come through.
--   Thrift           src/protocols/thrift: the codec of a build with MAGNETO_THRIFT_SUPPORT. The
--                    library's TBinaryProtocol is a parameter.
--   Notifier         src/agents/mailbox_notifier.h and its .cpp: the pipes by which threads wake an
--                    agent.
--   Tests            concrete runs.
--
-- A function of the model takes and returns the state that the source's method changes. A result
-- in Option is `none` where the source's behaviour is undefined: a null or dangling pointer, an
-- index out of range, a division by zero. XFC_BUG only logs in a build without DEBUG_MODE, and the
-- code goes on; so does the model. `talk.remote` is modelled as the slot it points to, because
-- the slot may be refilled and the storage of the vector given up; how far a vector grows then is
-- `Env.grown`.
--
-- Integers: sizes and weights are natural numbers, with the source's wrap-around written out where
-- a sum or product is kept in 32 or 64 bits (`pick`, `marked_weights`, `sum64`, the header of the
-- codec); times and descriptors are integers, whose 64-bit wrap-around is not modelled. Loops are
-- recursive on a list, but for six: the loop of ProtocolReadRapid::Read has fuel 10, since each
-- round of the eight bytes of the header reads one byte at least, and the round after them is the
-- last; that of ProtocolReadThrift::Read, with a header of four bytes, has 6 for the same reason;
-- ParseCmd has one more than the bytes of its input, of which each round takes one at least; the
-- loops of ProtocolReadRedis::Read and ClearReadBuf have one more than the bytes that are to come;
-- and SendMsgWithRetry, which runs as long as a mailbox is full, has any number that exceeds how
-- often it is refused.
--
-- Not modelled: the interleaving of threads and their locks, but for a scheduler with the agents in
-- Coroutine and the calls of one notifier; the inside of mailboxes, logging, the library under deps,
-- the pools of codecs.
pub mod Base
pub mod Socket
pub mod Rapid
pub mod Redis
pub mod Ping
pub mod Thrift
pub mod Model
pub mod Env
pub mod Pool
pub mod ConnsMgr
pub mod Session
pub mod Slave
pub mod Biz
pub mod Conf
pub mod Ctx
pub mod Scheduler
pub mod Coroutine
pub mod Agents
pub mod Notifier
pub mod Startup
pub mod Lifecycle
pub mod Facade
pub mod Tests
