-- ===== src/Workers/Deleted.antt =====
-- The class DeletedNodeWorker of launcher.py.
pub mod Laws
use nodepool.Prelude.{
  String, Bool, true, false, not, ◌&&◌, ◌||◌, Option, some, none, List, elem, is_empty,
  if◌then◌else◌, M, Result, ok, raise, zk_lock, pure, throw, get, modify, ◌>>=◌, ◌>>◌, for_each,
  on_right, attempt, suppress,
}
use nodepool.Zk.States.{
  State, ready, used, in_use, building, failed, deleting, deleted, aborted, is_state,
}
use nodepool.Zk.Values.{is_set}
use nodepool.Zk.Paths.{format_id}
use nodepool.Zk.Node.{Node}
use nodepool.Zk.Request.{NodeRequest}

-- What the worker calls: ZooKeeper, where it locks without blocking, and the managers of the
-- providers of the configuration.
pub record Services (S : Type 0) : Type 0 where
  pub node_iterator : M S (List Node)
  pub get_node_request : (id : String) (cached : Bool) → M S (Option NodeRequest)
  pub lock_node : M (Node × S) (Unit {0})
  pub store_node : M (Node × S) (Unit {0})
  pub unlock_node : M (Node × S) (Unit {0})
  pub delete_node : M (Node × S) (Unit {0})
  -- `getProviderManager(node.provider).startNodeCleanup(node)`
  pub start_node_cleanup : Node → M S (Unit {0})

-- `node.state in cleanup_states`
abbrev pub in_cleanup_states : Option State → Bool
in_cleanup_states (some used) = true
in_cleanup_states (some in_use) = true
in_cleanup_states (some building) = true
in_cleanup_states (some failed) = true
in_cleanup_states (some deleting) = true
in_cleanup_states (some deleted) = true
in_cleanup_states (some aborted) = true
in_cleanup_states _ = false

abbrev pub is_missing : {A : Type 0} → Option A → Bool
is_missing none = true
is_missing (some a) = false

module _ {S : Type 0} (v : Services S) where
  -- _deleteInstance
  unfoldable pub delete_instance : M (Node × S) (Unit {0})
  delete_instance (n, s) = suppress (on_right (v.start_node_cleanup n)) (n, s)

  -- A ready node that is allocated to a request that is not there.
  unfoldable pub is_orphan : (cached : Bool) → M (Node × S) Bool
  is_orphan cached = do
    (n, s) ← get
    if is_state n.state ready && is_set n.allocated_to
        then (on_right (v.get_node_request (format_id n.allocated_to) cached) >>= λ found.
            pure (is_missing found))
        else pure false

  unfoldable pub deallocate_if : (orphan : Bool) → M (Node × S) (Unit {0})
  deallocate_if true =
      modify (λ (n, s). (record n { allocated_to = none }, s)) >> suppress v.store_node
  deallocate_if false = pure tt

  -- Such a node is deallocated if it is still one when it is locked.
  unfoldable pub free_locked_orphan : M (Node × S) (Unit {0})
  unfolding is_orphan deallocate_if
  free_locked_orphan = do orphan ← is_orphan false; deallocate_if orphan; v.unlock_node

  -- What follows an attempt to lock the node: nothing if it is locked by someone else.
  unfoldable pub after_lock : M (Node × S) (Unit {0}) → Result (Unit {0}) → M (Node × S) (Unit {0})
  after_lock rest (ok u) = rest
  after_lock rest (raise zk_lock) = pure tt
  after_lock rest (raise e) = throw e

  unfoldable pub clean_orphan : M (Node × S) (Unit {0})
  unfolding is_orphan free_locked_orphan after_lock
  clean_orphan = do
    orphan ← is_orphan true
    if orphan then (attempt v.lock_node >>= after_lock free_locked_orphan) else pure tt

  -- A znode that was being deleted when it was locked.
  unfoldable pub clear_up : Result (Unit {0}) → M (Node × S) (Unit {0})
  clear_up (ok u) = pure tt
  clear_up (raise e) = suppress v.unlock_node

  unfoldable pub delete_locked : M (Node × S) (Unit {0})
  unfolding delete_instance clear_up
  delete_locked = do
    (n, s) ← get
    if is_state n.state deleted || is_missing n.provider
        then (attempt v.delete_node >>= clear_up)
        else if not (in_cleanup_states n.state)
        then v.unlock_node
        else delete_instance

  unfoldable pub delete_unlocked : M (Node × S) (Unit {0})
  unfolding delete_locked after_lock
  delete_unlocked = do
    (n, s) ← get
    if in_cleanup_states n.state
        then (attempt v.lock_node >>= after_lock delete_locked)
        else pure tt

module _ {S : Type 0} (v : Services S) (providers : List String) where
  abbrev is_configured : Node → Bool
  is_configured n = elim n.provider [ none ↦ false | some p ↦ elem p providers ]

  -- The body of the loop.
  unfoldable pub clean_node : M (Node × S) (Unit {0})
  unfolding clean_orphan delete_unlocked
  clean_node = do
    (n, s) ← get
    if is_configured n && is_empty n.lock_contenders
        then (clean_orphan v >> delete_unlocked v)
        else pure tt

  -- _cleanupNodes
  unfoldable pub cleanup_nodes : M S (Unit {0})
  unfolding clean_node
  cleanup_nodes = do
    nodes ← v.node_iterator
    for_each nodes (λ n s. let (r, t) = clean_node (n, s) in (r, t.1))

  -- _run
  unfoldable pub run_deleted : M S (Unit {0})
  unfolding cleanup_nodes
  run_deleted = suppress cleanup_nodes
