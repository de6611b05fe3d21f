-- ===== src/Lib.antt =====
-- DistributedIntegration: a server cuts the integral of 1 / ln(x) over an interval into tasks,
-- sends them to the clients that have connected, and adds up the results that come back; a client
-- computes its tasks by a numerical rule on a pool of threads. This library models that
-- computation.
--
-- The parts, from the bottom up, and the files of the repository that they are about:
--   Base        shared names: Boolean tests, lists over the native numbers, machine words (32 and 64 bits,
--               reduced after each operation), and what a call does: it returns, throws, or is undefined
--   Double      a double, as a type with the constants, comparisons and operations that the code uses; the cast
--               of a value to uint64_t is none where it is undefined. The laws (order, NaN, exact addition) are records apart, named by the theorems that need them
--   Framing     src/common/net_utils.h: the size prefix of a message, send_data and receive_data over the
--               bytes of a connection, with the archive as a parameter
--   Messages    src/common/messages.h, src/common/systeminfo.h: the structures and Task::is_valid
--   Serialize   the serialize members of the messages, over a parameter for the archive
--   Methods     src/client/integration_methods: the interface of a rule (IIntegrationStrategy is the record
--               Strategy), the integrand and the check of the parameters, Simpson's rule, the trapezoidal
--               rule
--   Integrator  src/client/integrator.cpp, src/client/task_executor.cpp: one task, and tasks in order. A
--               null pointer is the value none, an exception is an outcome
--   WorkerPool  src/client/worker_pool.cpp: the threads as a step relation. A step takes the next index,
--               leaves the loop, or computes and writes one result; the threads interleave in any way
--   Distributor src/server/task_distributor.cpp: the loops over clients and cores; the map is an
--               association list, a client its identifier and count of cores
--   Client      src/client/client.cpp, src/client/network_manager.cpp: a run of a client. A link says what the
--               network does, and the pool may have any of its schedules
--   Connection  src/client/network_manager.cpp over src/common/net_utils.h: the link of a client as the bytes
--               that the server sends, the bytes that the client writes, and a run of the client on them
--   Logger      src/common/logger.cpp: whether the global logger is set
--   Machine     src/common/utils.cpp, collect_system_info, over what the system calls give; the client has the
--               variant for Linux
--   ClientManager src/server/client_manager.cpp, src/server/client_connection.cpp: the registry
--   Aggregator  src/server/result_aggregator.cpp: the counters, the sum and the wait
--   ServerState src/server/server.cpp, the state, the handshake (handle_client_connection) and stop,
--               and the wait of stop_accepting_clients for the accept thread
--   Accept      src/server/server.cpp, the accept thread and the threads of the connections, as steps that
--               interleave in any way with those of run and stop
--   InputHandler src/server/input_handler.cpp: a line of the console, the loop that waits for START, and the
--               life of the handler with its thread
--   Server      src/server/server.cpp, run and what it calls: distribution, collection, the stop commands
--   Collect     src/server/server.cpp, collect_results: the receiving threads of the clients, as steps that
--               interleave in any way, and the joins
--   Endpoint    src/common/net_utils.cpp, src/server/client_connection.cpp: the address and the port of a
--               peer, as the log shows them
--   Program     src/server/main.cpp, src/client/main.cpp: from the logger and the questions or arguments to the
--               exit, which is a status, std::terminate or undefined behaviour
--   System      the server together with the client programs behind its connections
--   Examples    concrete inputs: tests, and the theorems at inputs where their hypotheses hold
--
-- Operations have the names of the code. A method locks its mutex for its whole body, so in the
-- model it is one step; add_client tests before it locks, so in Accept it is two. In Server the
-- handshakes run one after the other (Accept.Gather and Accept.Rounds say how this meets the
-- threads), and the server runs against an Environment, which says what the network does: which
-- connections are tried before START, which writes succeed, which batch each client sends back, and
-- in which order the receiving threads get to the aggregator. In Collect this order is not given but
-- comes from the steps of the threads (Collect.Rounds says how the two meet). In System that batch
-- is what a run of the client has sent. The threads of the pool, those that receive results, the
-- accept thread and that of the input handler are taken to start; the start of the thread of a
-- connection may fail.
--
-- Fuel: the loop of the trapezoidal rule, the loop of the input handler and the questions of the
-- server run on fuel, one unit for each round, and none means that it is used up. For the rule,
-- fuel above the count of values between the limits is enough when each step advances; for the
-- input handler, fuel above the number of the first line that is START; for a question, fuel above
-- the number of the reading that gives its answer. The wait for the accept thread has fuel too, for
-- which 34 is enough. Every other loop is structural.
--
-- Not modelled: what the log says and where it goes, the bytes that cereal writes, the sockets, the
-- pauses and timeouts but for those of the aggregator and of the wait for the accept thread, and
-- what else only the log shows (versions, the printed result).
pub mod Base
pub mod Double
pub mod Framing
pub mod Messages
pub mod Serialize
pub mod Methods
pub mod Distributor
pub mod Integrator
pub mod WorkerPool
pub mod Client
pub mod Connection
pub mod Endpoint
pub mod Logger
pub mod Machine
pub mod ClientManager
pub mod Aggregator
pub mod ServerState
pub mod Accept
pub mod InputHandler
pub mod Server
pub mod Collect
pub mod Program
pub mod System
mod Examples
