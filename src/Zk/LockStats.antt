-- ===== src/Zk/LockStats.antt =====
-- The locks of requests whose requests are gone, and the count of a pool's nodes: the methods from
-- getNodeRequestLockIDs to deleteNodeRequestLock, nodeRequestLockStatsIterator and countPoolNodes of
-- zk/zookeeper.py.
use nodepool.Prelude.{
  ℕ, String, true, false, ◌&&◌, Option, some, none, List, [], keep, length, M, pure, ◌>>=◌,
  unless_no_node, for_each,
}
use nodepool.Zk.Values.{is_str}
use nodepool.Zk.Paths.{request_lock_root, request_lock_path}
use nodepool.Zk.Kazoo.{Kazoo}
use nodepool.Zk.Nodes.{node_iterator}

-- NodeRequestLockStats, with the mtime of its stat in milliseconds.
pub record LockStats : Type 0 where
  pub lock_id : String
  pub mtime : ℕ

-- `stat` reads the mtime of a znode.
module _ {S : Type 0} (k : Kazoo S) (stat : String → M S ℕ) where
  -- getNodeRequestLockIDs
  unfoldable pub get_node_request_lock_ids : M S (List String)
  get_node_request_lock_ids = unless_no_node (k.get_children request_lock_root) []

  -- getNodeRequestLockStats
  unfoldable pub get_node_request_lock_stats : String → M S (Option LockStats)
  unfolding request_lock_path
  get_node_request_lock_stats lock_id =
      unless_no_node
        (stat (request_lock_path lock_id) >>= λ t.
          pure (some (record { lock_id = lock_id; mtime = t })))
        none

  abbrev with_stats : (LockStats → M S (Unit {0})) → Option LockStats → M S (Unit {0})
  with_stats body none = pure tt
  with_stats body (some l) = body l

  -- nodeRequestLockStatsIterator with the body of its loop, which runs between the reads.
  unfoldable pub for_each_lock_stats : (LockStats → M S (Unit {0})) → M S (Unit {0})
  unfolding get_node_request_lock_ids get_node_request_lock_stats
  for_each_lock_stats body = get_node_request_lock_ids >>= λ ids.
      for_each ids (λ id. get_node_request_lock_stats id >>= with_stats body)

module _ {S : Type 0} (k : Kazoo S) where
  -- deleteNodeRequestLock
  unfoldable pub delete_node_request_lock : String → M S (Unit {0})
  unfolding request_lock_path
  delete_node_request_lock lock_id = unless_no_node (k.delete (request_lock_path lock_id) true) tt

  -- countPoolNodes
  unfoldable pub count_pool_nodes : (provider pool : String) → M S ℕ
  unfolding node_iterator
  count_pool_nodes provider pool = node_iterator k true false >>= λ nodes.
      pure (length (keep (λ n. is_str n.provider provider && is_str n.pool pool) nodes))
