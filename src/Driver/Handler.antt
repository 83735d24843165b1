-- ===== src/Driver/Handler.antt =====
-- The class NodeRequestHandler of driver/__init__.py: its state, what it calls, and its access to
-- both. The methods are in the child modules.
pub mod Rules
pub mod Kept
pub mod Decline
pub mod Fill
pub mod Poll
use nodepool.Prelude.{
  ℕ, String, Bool, true, false, Option, some, none, List, [], ◌∷◌, ◌++◌, M, Result, ok, raise, pure,
  throw, get, modify, gets, ◌>>=◌, ◌>>◌,
}
use nodepool.Zk.States.{State}
use nodepool.Zk.Values.{Value}
use nodepool.Zk.Node.{Node}
use nodepool.Zk.Node
use nodepool.Zk.Request.{NodeRequest}
use nodepool.Zk.Request
use nodepool.Driver.Labels.{Recorder}

-- Node objects are values here: what a launch changes later in a node of the node set is a change
-- of the handler between two calls.
pub record Handler : Type 0 where
  pub request : NodeRequest
  pub nodeset : List Node
  pub done : Bool
  pub paused : Bool
  pub satisfied_types : Recorder
  pub failed_nodes : List Node
  pub ready_nodes : List Node

-- What _setFromPoolWorker takes from the configuration; `max_servers_positive` is
-- `max_servers > 0`.
pub record Config : Type 0 where
  pub provider : String
  pub pool : String
  pub launcher_id : String
  pub max_servers_positive : Bool
  pub supported_labels : List String
  pub pause_at_quota : Bool
  pub node_attributes : Value

-- The ZooKeeper object, the provider manager and the methods that a driver overrides, over a state
-- `S` of all of them. An operation on a node or a request changes the object in place.
pub record Services (S : Type 0) : Type 0 where
  pub time : S → ℕ
  pub store_node : M (Node × S) (Unit {0})
  pub lock_node : M (Node × S) (Unit {0})
  pub unlock_node : M (Node × S) (Unit {0})
  pub get_ready_nodes_of_types : List String → M S (List (String × List Node))
  pub delete_oldest_unused_node : (provider pool : String) → M S Bool
  pub get_node_request : String → M S (Option NodeRequest)
  pub store_node_request : M (NodeRequest × S) (Unit {0})
  pub unlock_node_request : M (NodeRequest × S) (Unit {0})
  -- The ids of getRegisteredPools, and the manager's errorLabels.
  pub registered_pools : S → List String
  pub error_labels : S → List String
  pub has_remaining_quota : String → M S Bool
  pub has_provider_quota : List String → M S Bool
  pub images_available : List String → M S Bool
  pub check_reusable_node : S → Node → Bool
  pub node_reused : Node → M S (Unit {0})
  pub set_node_metadata : M (Node × S) (Unit {0})
  pub launch : M (Node × S) (Unit {0})
  pub launches_complete : M S Bool

abbrev pub Run : Type 0 → Type 0 → Type 0
Run S A = M (Handler × S) A

module _ {S : Type 0} where
  abbrev pub change : (Handler → Handler) → Run S (Unit {0})
  change f (h, s) = (ok tt, (f h, s))

  abbrev pub handler : Run S Handler
  handler (h, s) = (ok h, (h, s))

  -- An operation on a node: the node as it is afterwards. An exception drops the object.
  abbrev pub with_node : M (Node × S) (Unit {0}) → Node → Run S Node
  with_node op n (h, s) =
      let (r, after) = op (n, s) in
      elim r [ ok u ↦ (ok after.0, (h, after.1)) | raise e ↦ (raise e, (h, after.1)) ]

  -- An operation on the handler's request, which keeps what was changed before an exception.
  abbrev pub with_request : M (NodeRequest × S) (Unit {0}) → Run S (Unit {0})
  with_request op (h, s) =
      let (r, after) = op (h.request, s) in (r, (record h { request = after.0 }, after.1))

  -- `node.state = state`, with the clock of the services.
  abbrev pub set_node_state : Services S → State → Node → Run S Node
  set_node_state v state n (h, s) = (Node.set_state (v.time s) state n, (h, s))

  abbrev pub set_request_state : Services S → State → Run S (Unit {0})
  set_request_state v state (h, s) = elim (Request.set_state (v.time s) state h.request) [
    | ok q ↦ (ok tt, (record h { request = q }, s))
    | raise e ↦ (raise e, (h, s))
  ]
