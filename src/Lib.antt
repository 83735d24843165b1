-- ===== src/Lib.antt =====
-- Nodepool: the launcher's handling of node requests, its quotas, its nodes and requests in ZooKeeper
-- with their caches, and the metastatic driver (nodepool/zk/zookeeper.py, nodepool/driver/__init__.py,
-- nodepool/driver/utils.py, nodepool/driver/statemachine.py, nodepool/launcher.py and
-- nodepool/driver/metastatic/adapter.py).
--
-- Zuul stores a node request in ZooKeeper. A launcher locks it and runs a NodeRequestHandler for it,
-- which declines it or fills a node set, from ready nodes and by new launches, as far as the quota
-- goes. It is run again while it is paused, and polled until all launches are complete; then the
-- request is fulfilled, or declined if a node failed.
--
-- Prelude: Booleans, lists with native lengths, Counter (Prelude.Counts), amounts that may be
--   infinite (Prelude.Amount), and Python statements that may raise (Prelude.Effects): a statement
--   over a state S is a function from S to a result and a state, and what was changed before an
--   exception stays changed.
-- Zk: nodepool/zk/zookeeper.py. States and Values are the states and the JSON values; Node and
--   Request the classes of these names, field by field, with toDict, fromDict and updateFromDict;
--   Kazoo is the client, a parameter; Paths the znode paths; Nodes, Ready, Oldest, Requests and
--   LockStats the methods of the class ZooKeeper. A method that changes an object in place has the
--   object beside the client's state as its state. Parse has the paths of images and the parse
--   functions; Cache is NodepoolTreeCache, from an event to the cached objects and paths, Cache.Walk
--   its initialisation by _walkTree, and Cache.Kinds the classes NodeCache and RequestCache.
-- Driver: Quota is QuotaInformation of nodepool/driver/utils.py; Labels and Handler are LabelRecorder
--   and NodeRequestHandler of nodepool/driver/__init__.py. Handler has the fields and the record
--   Services of what a handler calls; Handler.Decline is declining and unlockNodeSet, Handler.Fill
--   is _waitForNodeSet with run, and Handler.Poll is poll. Handler.Rules and Handler.Kept are proof
--   rules over all answers of the services.
-- Machine: nodepool/driver/statemachine.py. Machine.Launcher is the class StateMachineNodeLauncher,
--   whose runStateMachine is Launcher.Round and runDeleteStateMachine Launcher.Delete,
--   Machine.Deleter the class StateMachineNodeDeleter, and Machine.Quota the quota checks of
--   StateMachineHandler. The record Cloud is the adapter and ZooKeeper as they call them.
--   Machine.Leaks is cleanupLeakedResources of StateMachineProvider.
-- Workers: nodepool/launcher.py. Assign is the first choice of requests in _assignHandlers of the class
--   PoolWorker, Order the order of the requests, and Take the rest of that method, over the handlers
--   of Driver.Handler; Rounds is _removeCompletedHandlers and _process_paused_handlers, and Tenants
--   the quota of tenants. Cleanup, with Cleanup.Tasks, is the class CleanupWorker over the operations
--   of Zk, Deleted the class DeletedNodeWorker, and Minimum removeCompletedRequests and createMinReady
--   of NodePool.
-- Utils: nodepool/driver/utils.py but for QuotaInformation. Rate is RateLimiter, Ttl
--   LazyExecutorTTLCache, Upload the segments and retries of ImageUploader, Estimate QuotaSupport,
--   and Threads the classes NodeLauncher and NodeDeleter.
-- Metastatic: nodepool/driver/metastatic/adapter.py, which makes nodes out of slots of backing nodes
--   that it requests itself. Metastatic has BackingNodeRecord and the adapter's fields; the records
--   are objects behind references. Requests is _init and _checkBackingNodeRequests, Allocate gives
--   and takes back slots, Release is listResources and notifyNodescanFailure, and Machines the two
--   state machines. Allocate.Laws has the map from nodes to backing nodes that allocation keeps.
-- Samples: concrete ZooKeepers, providers and clouds, at which the theorems are applied.
--
-- Every loop is recursion on the list or the number that the code runs through, but for two: the
-- loop of RateLimiter._enter is on fuel, of which two rounds are enough, and the range of
-- _uploadInner is on as much fuel as the file has bytes, which is enough for a segment size of at
-- least one. Times are whole seconds. Objects are values: where the code shares a node object between
-- a list and the node set, the model has the copy that the code looks at next, and an exception in
-- the middle of an operation on a node drops the object that is in no list yet. Logging, statistics
-- and threads are left out, a wait for a mutex that another thread holds ends by its timeout, and so
-- does a wait for a lock of ZooKeeper if the client says so. The operations of Zk read the tree caches
-- as functions of the client's state; the caches themselves stand on answers to their reads, which
-- are parameters.
--
-- Not modelled: the image builder and the operations and the cache of images (nodepool/builder.py
-- and the rest of nodepool/zk/zookeeper.py), the rest of the provider class of
-- nodepool/driver/statemachine.py with its threads, and the static driver, of which the modelled
-- parts use nothing; the adapters of clouds and the drivers of containers, which are mostly calls of
-- client libraries; the main loops, which start and stop threads; and configuration, commands,
-- statistics and web endpoints, which are input and output.
pub mod Prelude
pub mod Zk
pub mod Driver
pub mod Machine
pub mod Workers
pub mod Utils
pub mod Metastatic
pub mod Samples
