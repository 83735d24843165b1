-- ===== src/Zk.antt =====
-- zk/zookeeper.py.
pub mod States
pub mod Values
pub mod Node
pub mod Request
pub mod Kazoo
pub mod Paths
pub mod Parse
pub mod Cache
pub mod Nodes
pub mod Ready
pub mod Oldest
pub mod Requests
pub mod LockStats
