-- ===== src/Lib.antt =====
-- A model of the server side of jubatus, a distributed machine learning framework, with the theorems that its
-- parts are correct by. Paths are from the root of the repository.
--
-- The servers of a cluster meet in a lock service (ZooKeeper): each registers itself there, finds the others,
-- and elects by a lock who mixes. The mixer then gathers the differences of all models over RPC and puts the
-- fold back (linear mixer), or exchanges differences with chosen peers (push mixers). Models are saved to
-- files with a checksum. Proxies pass a request on to one server, to all, or to those that a consistent hash table, kept in
-- the lock service, assigns to its key, and fold the answers. A supervisor starts and stops the server processes of a machine.
--
-- Base: what the modules share: texts as lists of byte values, C's ints, `^` on words, maps, and the monad of
--   methods that may throw (a result beside the state that the method leaves either way).
-- LockService: jubatus/server/common/lock_service.hpp, the interface as a record of functions on a state, and the laws of
--   the tree of nodes that its clients rely on.
-- Membership: jubatus/server/common/membership.cpp. `register` is the part that register_actor and register_active share.
-- Zk: the class zk of jubatus/server/common/zk.cpp over the calls of the ZooKeeper library; Zk.Refines is about the laws of
--   LockService; Zk.Payload is `read`, and Zk.Session the connection and the handler of its events, and
--   Zk.Watchers the handlers of watched nodes.
-- Mutex: zkmutex in jubatus/server/common/zk.cpp. Mutex.System lets any number of clients, each one call at a time, take
--   steps on one directory of lock nodes in any order.
-- Config: jubatus/server/common/config.cpp.
-- Crc32: jubatus/server/common/crc32.cpp, bit by bit.
-- SaveLoad: jubatus/server/framework/save_load.cpp, the file format and both directions.
-- Cht: jubatus/server/common/cht.cpp. `register_from` and `find_from` are the loops of register_node and find.
-- LinearMixer: jubatus/server/framework/mixer/linear_mixer.cpp. Trigger has a round of
--   stabilizer_loop; Control has start, stop and do_mix; Zookeeper is linear_communication_impl, over LockService, Mutex and RpcMclient.
-- PushMixer: jubatus/server/framework/mixer/push_mixer.cpp, broadcast_mixer.hpp, random_mixer.hpp and skip_mixer.hpp.
-- RpcMclient: jubatus/server/common/mprpc/rpc_mclient.hpp and rpc_mclient.cpp: what join_ and wait make of the answers.
-- CachedZk: jubatus/server/common/cached_zk.cpp.
-- GlobalId: jubatus/server/common/global_id_generator_standalone.cpp and global_id_generator_zk.cpp.
-- Jubavisor: jubatus/server/jubavisor/jubavisor.cpp and process.cpp: the pool of ports and the children.
-- Aggregators: jubatus/server/framework/aggregators.hpp.
-- Proxy: jubatus/server/framework/proxy_common.cpp and the routing of proxy.hpp, over Membership and Cht; Proxy.Task is the
--   async_task of proxy.hpp, over the outcomes of RpcMclient.
-- Argv: jubatus/server/framework/server_util.cpp and server_util.hpp: server_argv and proxy_argv.
-- ServerBase: jubatus/server/framework/server_base.cpp, over SaveLoad; the files are texts by path.
-- Graph, Anomaly, Burst: jubatus/server/server/graph_serv.cpp, anomaly_serv.cpp and burst_serv.cpp: the services that use the
--   hash table themselves, over Cht, Membership and GlobalId.
-- ServerHelper: jubatus/server/framework/server_helper.cpp and server_helper.hpp: how a server is made, joins its cluster, starts and
--   stops, over Membership, Cht, Mutex and Config.
-- Samples: concrete instances of the parameters, for the tests.
--
-- A method is a function from the state to its result and the new state; an operation that a mutex guards is one step. The
-- ZooKeeper library, msgpack and msgpack-rpc, the drivers of jubatus_core, the system calls, the clock and the
-- hash function are parameters, and a theorem that relies on more than their types has that as a named
-- hypothesis or as a record of laws. Loops over lists are structural. Three loops run on fuel: the halving
-- of skip_mixer, whose fuel is the number of candidates, since each round at least halves it; `read` of zk.cpp, whose fuel is to be
-- more than the length of the longest payload, since each round but the last has a longer buffer than the one before; and
-- `do_mix` of linear_mixer.cpp, which has no end of its own while the lock is not free: its model then answers `spinning`.
-- Machine integers wrap as written out in each definition (32 bits for the counters and the checksum, 64 bits
-- for the identifiers).
--
-- Not modelled: the RPC servers, clients and proxies that the code generator writes, the services that only forward to a
-- driver, the threads and signal handlers as such (their bodies are steps), logging, the parser of command lines, and the
-- blocking calls lock and rlock of zkmutex, which wait on a mutex that they hold themselves.
pub mod Base
pub mod LockService
pub mod Membership
pub mod Zk
pub mod Config
pub mod Mutex
pub mod Crc32
pub mod SaveLoad
pub mod Cht
pub mod LinearMixer
pub mod PushMixer
pub mod RpcMclient
pub mod CachedZk
pub mod GlobalId
pub mod Jubavisor
pub mod Aggregators
pub mod Proxy
pub mod Argv
pub mod ServerBase
pub mod Graph
pub mod Anomaly
pub mod Burst
pub mod ServerHelper
pub mod Samples
