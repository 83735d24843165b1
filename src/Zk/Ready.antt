-- ===== src/Zk/Ready.antt =====
-- getReadyNodesOfTypes of zk/zookeeper.py.
pub mod Laws
use nodepool.Prelude.{
  ℕ, ◌+◌, ◌*◌, String, Bool, true, false, not, ◌&&◌, ◌||◌, Option, some, none, List, [], ◌∷◌, ltb,
  if◌then◌else◌, elem, lookup, insert, keep, zero, suc, leb, M, Result, ok, raise, Exception,
  zk_lock, timeout, lock_timeout, no_node, session_expired, type_error, key_error, unbound_local,
  not_found, quota, keyscan, other, pure, throw, get, modify, gets, try_except, on_right, for_each,
  and_then, ◌>>=◌, ◌>>◌, ◌==◌, attempt, suppress, unless_no_node, try_finally, assign_to,
}
use Prim.Native.String.{◌++◌}
use mathlib.Core.List.{◌++◌ as ◌++ᴸ◌}
use nodepool.Zk.States.{State, ready, deleting, deleted, is_state}
use nodepool.Zk.Values.{Dict, is_set, is_str}
use nodepool.Zk.Node.{Node, to_dict, from_dict, update_from_dict, set_state}
use nodepool.Zk.Kazoo.{Kazoo}
use nodepool.Zk.Paths.{node_root, node_path, node_lock_path, format_id, last_part}
use nodepool.Zk.Nodes.{node_iterator}

-- `ret[label].append(node)`, for a dictionary of lists.
unfoldable pub append_to : String → Node → List (String × List Node) → List (String × List Node)
append_to label n [] = (label, n ∷ []) ∷ []
append_to label n ((l, ns) ∷ m) =
    if l == label then (l, ns ++ᴸ n ∷ []) ∷ m else (l, ns) ∷ append_to label n m

group_labels : List String → Node → List (String × List Node) → List (String × List Node)
unfolding append_to
group_labels [] n m = m
group_labels (l ∷ labels) n m = group_labels labels n (if elem l n.type then append_to l n m else m)

-- The loop of getReadyNodesOfTypes.
unfoldable pub group_ready :
    List String → List Node → List (String × List Node) → List (String × List Node)
unfolding group_labels
group_ready labels [] m = m
group_ready labels (n ∷ ns) m =
    group_ready labels ns
      (if not (is_state n.state ready) || is_set n.allocated_to then m else group_labels labels n m)

module _ {S : Type 0} (k : Kazoo S) where
  -- getReadyNodesOfTypes
  unfoldable pub get_ready_nodes_of_types : List String → M S (List (String × List Node))
  unfolding node_iterator group_ready
  get_ready_nodes_of_types labels = do
    nodes ← node_iterator k true true
    pure (group_ready labels nodes [])
