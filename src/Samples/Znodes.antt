-- ===== src/Samples/Znodes.antt =====
-- The theorems on nodes and requests in ZooKeeper, at concrete objects.
use nodepool.Prelude.{
  ℕ, String, true, false, some, List, [], ◌∷◌, ok, raise, zk_lock, ◌≡◌, ◌≢◌, refl, arith, ◌++◌,
}
use nodepool.Zk.States.{State, ready, requested, deleting}
use nodepool.Zk.Node.{Node, new_node, to_dict, from_dict}
use nodepool.Zk.Request.{NodeRequest, new_request}
use nodepool.Zk.Node
use nodepool.Zk.Request
use nodepool.Zk.Node.Laws.{stored, node_from_dict-to_dict}
use nodepool.Zk.Request.Laws
use nodepool.Zk.Nodes.{update_node, get_nodes, lock_node, unlock_node}
use nodepool.Zk.Nodes.Locks.{IsBalanced, lock_node-IsBalanced, unlock_node-IsBalanced}
use nodepool.Zk.Ready.{group_ready}
use nodepool.Zk.Ready.Laws.{listed, free_of, listed-group_ready}
use nodepool.Zk.Oldest.{classify, candidates, delete_oldest_unused_node, recent_delete}
use nodepool.Zk.Oldest.Choice.{Chosen, delete_oldest_unused_node-Chosen}
use nodepool.Driver.Handler.Rules.{Ends}
use nodepool.Zk.Kazoo.{Kazoo}
use nodepool.Zk.Paths.{node_lock_path}
use nodepool.Zk.Oldest.Laws.{classify-ne-recent_delete}
use nodepool.Samples.{kazoo, Ensemble}

abbrev pub node_of : String → State → ℕ → Node
node_of id state time = record (new_node (some id)) {
  state = some state;
  state_time = some time;
  type = "small" ∷ [];
  provider = some "cloud";
  pool = some "main";
}

abbrev pub request_of : List String → NodeRequest
request_of types = record (new_request (some "100-0001")) {
  state = some requested;
  state_time = some 5;
  node_types = types;
}

-- One stored node, of which nobody has the lock.
abbrev pub ensemble : Ensemble
ensemble = record {
  znodes = ("/nodepool/nodes/0001", to_dict (node_of "0001" ready 10)) ∷ [];
  locks = [];
  clock = 1000;
}

node_from_dict-to_dict_example :
    from_dict 1000 (to_dict (node_of "0001" ready 10)) (some "0001")
    ≡ ok (stored (node_of "0001" ready 10))
unfolding new_node Node.is_node_state
node_from_dict-to_dict_example = node_from_dict-to_dict 1000 (node_of "0001" ready 10) refl refl

request_from_dict-to_dict_example :
    Request.from_dict 1000 (Request.to_dict (request_of ("small" ∷ []))) (some "100-0001")
    ≡ ok (Request.Laws.stored (request_of ("small" ∷ [])))
unfolding new_request Request.is_request_state
request_from_dict-to_dict_example =
    Request.Laws.request_from_dict-to_dict 1000 (request_of ("small" ∷ [])) refl refl

lock_node-IsBalanced_example :
    let (r, (m, t)) = lock_node kazoo false true (node_of "0001" ready 10, ensemble) in
    IsBalanced m × (r ≡ ok tt → (m.lock ≡ true) × (m.thread_lock ≡ true))
unfolding new_node
lock_node-IsBalanced_example =
    lock_node-IsBalanced kazoo false (node_of "0001" ready 10) ensemble refl

unlock_node-IsBalanced_example :
    let (r, (m, t)) = unlock_node kazoo (node_of "0001" ready 10, ensemble) in
    IsBalanced m
    × (r ≡ ok tt → (m.lock ≡ false) × (m.thread_lock ≡ false))
    × ((node_of "0001" ready 10).lock ≡ false → (r ≡ raise zk_lock) × (m ≡ node_of "0001" ready 10))
unfolding new_node
unlock_node-IsBalanced_example =
    unlock_node-IsBalanced kazoo (node_of "0001" ready 10) ensemble refl

abbrev two_nodes : List Node
two_nodes = node_of "0002" ready 20 ∷ node_of "0001" ready 10 ∷ []

listed-group_ready_example :
    listed "small" (group_ready ("small" ∷ "small" ∷ []) two_nodes [])
    ≡ listed "small" [] ++ free_of "small" ("small" ∷ "small" ∷ []) two_nodes
listed-group_ready_example = listed-group_ready "small" ("small" ∷ "small" ∷ []) two_nodes []

-- Two nodes of the pool, the older of which is locked by another.
abbrev listing : Kazoo Ensemble
listing = record kazoo { get_children = λ path s. (ok ("0002" ∷ "0001" ∷ []), s) }

abbrev locked_one : Ensemble
locked_one = record {
  znodes =
      ("/nodepool/nodes/0001", to_dict (node_of "0001" ready 10))
      ∷ ("/nodepool/nodes/0002", to_dict (node_of "0002" ready 20))
      ∷ [];
  locks = "/nodepool/nodes/0001/lock" ∷ [];
  clock = 1000;
}

newer_goes : (delete_oldest_unused_node listing "cloud" "main" locked_one).0 ≡ ok true
unfolding delete_oldest_unused_node get_nodes candidates from_dict to_dict new_node node_lock_path
    update_node
newer_goes = refl

delete_oldest_unused_node-Chosen_example :
    Ends
      (Chosen listing locked_one
        (stored (node_of "0002" ready 20) ∷ stored (node_of "0001" ready 10) ∷ []))
      (delete_oldest_unused_node listing "cloud" "main" locked_one)
unfolding get_nodes candidates from_dict to_dict new_node
delete_oldest_unused_node-Chosen_example =
    delete_oldest_unused_node-Chosen listing "cloud" "main" ("0002" ∷ "0001" ∷ [])
      (stored (node_of "0002" ready 20) ∷ stored (node_of "0001" ready 10) ∷ []) locked_one
      locked_one locked_one refl refl

classify-ne-recent_delete_example :
    classify 1000 "cloud" "main" (node_of "0001" deleting 990) ≢ recent_delete
unfolding new_node
classify-ne-recent_delete_example =
    classify-ne-recent_delete 1000 "cloud" "main" (node_of "0001" deleting 990) (omega arith)
      (omega arith)
