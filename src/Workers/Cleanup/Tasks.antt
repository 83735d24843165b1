-- ===== src/Workers/Cleanup/Tasks.antt =====
-- The tasks of CleanupWorker of launcher.py that look at locks of requests and at providers, and its
-- _run.
use nodepool.Prelude.{
  ℕ, ◌+◌, ◌*◌, String, Bool, Option, some, none, List, elem, ltb, if◌then◌else◌, M, pure, ◌>>=◌,
  for_each, suppress,
}
use nodepool.Zk.Kazoo.{Kazoo}
use nodepool.Zk.Requests.{get_node_requests}
use nodepool.Zk.LockStats.{LockStats, for_each_lock_stats, delete_node_request_lock}

abbrev lock_cleanup : ℕ
lock_cleanup = 8 * 60 * 60

-- `(now - mtime / 1000) > LOCK_CLEANUP`, times a thousand.
abbrev is_old : (now : ℕ) → LockStats → Bool
is_old now l = ltb (1000 * lock_cleanup + l.mtime) (1000 * now)

module _ {S : Type 0} (k : Kazoo S) (stat : String → M S ℕ) where
  clean_lock : (requests : List String) (now : ℕ) → LockStats → M S (Unit {0})
  unfolding delete_node_request_lock
  clean_lock requests now l =
      if elem l.lock_id requests
      then pure tt
      else if is_old now l
      then delete_node_request_lock k l.lock_id
      else pure tt

  -- _cleanupNodeRequestLocks
  unfoldable pub cleanup_node_request_locks : M S (Unit {0})
  unfolding get_node_requests for_each_lock_stats clean_lock
  cleanup_node_request_locks = do
    requests ← get_node_requests k
    now ← (λ s. pure (k.time s) s)
    for_each_lock_stats k stat (clean_lock requests now)

module _ {S : Type 0} where
  abbrev clean_provider : Option (M S (Unit {0})) → M S (Unit {0})
  clean_provider none = pure tt
  clean_provider (some cleanup) = suppress cleanup

  -- _cleanupLeakedInstances, for the providers of the configuration and what their managers do.
  unfoldable pub cleanup_leaked_instances : List (Option (M S (Unit {0}))) → M S (Unit {0})
  cleanup_leaked_instances managers = for_each managers clean_provider

  -- _run
  unfoldable pub run_tasks : List (M S (Unit {0})) → M S (Unit {0})
  run_tasks tasks = for_each tasks suppress
