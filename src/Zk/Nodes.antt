-- ===== src/Zk/Nodes.antt =====
-- The node operations of zk/zookeeper.py, over the kazoo client. The state of an
-- operation on a node is the node object, which it changes in place, beside the client's.
pub mod Locks
use nodepool.Prelude.{
  ℕ, ◌+◌, ◌*◌, String, Bool, true, false, not, ◌&&◌, ◌||◌, Option, some, none, List, [], ◌∷◌, ltb,
  if◌then◌else◌, elem, lookup, insert, keep, zero, suc, leb, M, Result, ok, raise, Exception,
  zk_lock, timeout, lock_timeout, no_node, session_expired, type_error, key_error, unbound_local,
  not_found, quota, keyscan, other, pure, throw, get, modify, gets, try_except, on_right, for_each,
  and_then, ◌>>=◌, ◌>>◌, ◌==◌, attempt, suppress, unless_no_node, try_finally, assign_to,
}
use Prim.Native.String.{◌++◌}
use mathlib.Core.List.{◌++◌ as ◌++ᴸ◌}
use nodepool.Zk.States.{State, ready, deleting, deleted, is_state}
use nodepool.Zk.Values.{Dict, is_set, is_str}
use nodepool.Zk.Node.{Node, to_dict, from_dict, update_from_dict, set_state}
use nodepool.Zk.Kazoo.{Kazoo}
use nodepool.Zk.Paths.{node_root, node_path, node_lock_path, format_id, last_part}

-- What the inner `try` of lockNode makes of the answer of `Lock.acquire`.
unfoldable pub lock_outcome : Result Bool → Result (Unit {0})
lock_outcome (ok true) = ok tt
lock_outcome (ok false) = raise zk_lock
lock_outcome (raise lock_timeout) = raise timeout
lock_outcome (raise no_node) = raise zk_lock
lock_outcome (raise e) = raise e

look_up : {S : Type 0} → Kazoo S → String → M S (Option Node)
unfolding node_path from_dict
look_up k id s =
    let (r, t) = k.get (node_path id) s in
    elim r [
      | ok none ↦ (ok none, t)
      | ok (some d) ↦ elim (from_dict (k.time t) d (some id)) [
        | raise e ↦ (raise e, t)
        | ok n ↦ (ok (some n), t)
      ]
      | raise no_node ↦ (ok none, t)
      | raise e ↦ (raise e, t)
    ]

module _ {S : Type 0} (k : Kazoo S) where
  -- getNode. An id that is not cached is looked up, unless only the cache counts.
  unfoldable pub get_node : String → (cached only_cached : Bool) → M S (Option Node)
  unfolding look_up
  get_node id cached only_cached s =
      elim (if cached && k.cache_enabled then k.cached_node s id else none) [
        | some n ↦ (ok (some n), s)
        | none ↦ if cached && k.cache_enabled && only_cached then (ok none, s) else look_up k id s
      ]

  unfoldable pub get_nodes : M S (List String)
  get_nodes = unless_no_node (k.get_children node_root) []

  -- nodeIterator, for a caller that only collects.
  nodes_of : (cached only_cached : Bool) → List String → M S (List Node)
  unfolding get_node
  nodes_of cached only_cached [] = pure []
  nodes_of cached only_cached (id ∷ rest) = do
    found ← get_node id cached only_cached
    nodes ← nodes_of cached only_cached rest
    pure (elim found [ none ↦ nodes | some n ↦ n ∷ nodes ])

  unfoldable pub node_iterator : (cached cached_ids : Bool) → M S (List Node)
  unfolding nodes_of get_nodes
  node_iterator cached cached_ids = do
    node_ids ← if cached_ids && k.cache_enabled then gets k.cached_node_ids else get_nodes
    nodes_of cached cached_ids node_ids

  -- updateNode
  unfoldable pub update_node : M (Node × S) (Unit {0})
  unfolding node_path update_from_dict
  update_node (n, s) =
      let (r, t) = k.get (node_path (format_id n.id)) s in
      elim r [
        | raise e ↦ (raise e, (n, t))
        | ok none ↦ assign_to (update_from_dict (k.time t) []) (n, t)
        | ok (some d) ↦ assign_to (update_from_dict (k.time t) d) (n, t)
      ]

  -- The time of creation, from the state's time if there is one.
  abbrev pub dated : ℕ → Node → Node
  dated now n = record n {
    created_time = elim n.state_time [
      | none ↦ some now
      | some zero ↦ some now
      | some (suc t) ↦ some (suc t)
    ];
  }

  unfoldable pub create_node : M (Node × S) (Unit {0})
  unfolding to_dict last_part
  create_node (n, s) =
      let created = dated (k.time s) n in
      let (r, t) = k.create (node_root ++ "/") false (to_dict created) s in
      elim r [
        | raise e ↦ (raise e, (created, t))
        | ok path ↦ (ok tt, (record created { id = some (last_part path) }, t))
      ]

  -- storeNode
  unfoldable pub store_node : M (Node × S) (Unit {0})
  unfolding node_path to_dict create_node
  store_node (n, s) =
      if is_set n.id
      then on_right (k.set (node_path (format_id n.id)) (to_dict n)) (n, s)
      else create_node (n, s)

  -- lockNode with no timeout. A wait for the mutex of the node object that another thread holds
  -- ends by the timeout.
  unfoldable pub lock_node : (blocking ephemeral : Bool) → M (Node × S) (Unit {0})
  unfolding lock_outcome
  lock_node blocking ephemeral (n, s) =
      if n.thread_lock
      then (raise (if blocking then timeout else zk_lock), (n, s))
      else let (answer, t) = k.acquire (node_lock_path (format_id n.id)) blocking ephemeral s in
        elim (lock_outcome answer) [
          | raise e ↦ (raise e, (n, t))
          | ok _ ↦ update_node (record n { lock = true; thread_lock = ephemeral }, t)
        ]

  -- unlockNode. Releasing a mutex that is not taken is a RuntimeError.
  unfoldable pub unlock_node : M (Node × S) (Unit {0})
  unlock_node (n, s) =
      let (r, t) = k.release (node_lock_path (format_id n.id)) s in
      if not n.lock then (raise zk_lock, (n, s)) else elim r [
        | raise e ↦ (raise e, (n, t))
        | ok _ ↦
            if n.thread_lock
            then (ok tt, (record n { lock = false; thread_lock = false }, t))
            else (raise other, (record n { lock = false }, t))
      ]

  unfoldable pub delete_raw_node : String → M S (Unit {0})
  unfolding node_path
  delete_raw_node id = unless_no_node (k.delete (node_path id) true) tt

  -- deleteNode
  unfoldable pub delete_node : M (Node × S) (Unit {0})
  unfolding set_state node_path to_dict delete_raw_node
  delete_node (n, s) =
      if is_set n.id
      then (do
        assign_to (set_state (k.time s) deleted)
        (n', _) ← get
        on_right (k.set (node_path (format_id n.id)) (to_dict n'))
        on_right (delete_raw_node (format_id n.id))
        modify (λ (m, t). (record m { thread_lock = false }, t)))
          (n, s)
      else (ok tt, (n, s))
