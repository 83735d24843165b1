-- ===== src/Zk/Request.antt =====
-- The class NodeRequest of zk/zookeeper.py, on BaseModel.
pub mod Laws
use nodepool.Prelude.{
  then_ok, ℕ, String, Bool, true, false, Option, some, none, List, [], ◌∷◌, lookup, Result, ok,
  raise, type_error, if◌then◌else◌,
}
use nodepool.Zk.States.{
  State, building, uploading, ready, deleting, failed, requested, fulfilled, pending, testing,
  in_use, used, hold, init, aborted, deleted, state_name, find_state,
}
use nodepool.Zk.Values.{
  or_none, Value, null, bool, num, str, strs, ids, table, json, Dict, of_str, of_num, to_str,
  to_num, to_strs, to_ids, to_bool, get_or,
}

-- `lock` and `thread_lock` are as in a node.
pub record NodeRequest : Type 0 where
  pub id : Option String
  pub state : Option State
  pub state_time : Option ℕ
  pub lock : Bool
  pub thread_lock : Bool
  pub declined_by : List String
  pub node_types : List String
  pub nodes : List (Option String)
  pub reuse : Bool
  pub requestor : Option String
  pub requestor_data : Value
  pub provider : Option String
  pub relative_priority : ℕ
  pub event_id : Option String
  pub created_time : Option ℕ
  pub tenant_name : Option String

-- NodeRequest.VALID_STATES.
unfoldable pub is_request_state : State → Bool
is_request_state requested = true
is_request_state pending = true
is_request_state fulfilled = true
is_request_state failed = true
is_request_state _ = false

unfoldable pub new_request : Option String → NodeRequest
new_request id = record {
  id = or_none id;
  state = none;
  state_time = none;
  lock = false;
  thread_lock = false;
  declined_by = [];
  node_types = [];
  nodes = [];
  reuse = true;
  requestor = none;
  requestor_data = null;
  provider = none;
  relative_priority = 0;
  event_id = none;
  created_time = none;
  tenant_name = none;
}

-- The state's setter.
unfoldable pub set_state : ℕ → State → NodeRequest → Result NodeRequest
unfolding is_request_state
set_state now s r =
    if is_request_state s
    then ok (record r { state = some s; state_time = some now })
    else raise type_error

unfoldable pub to_dict : NodeRequest → Dict
to_dict r =
    ("state", elim r.state [ none ↦ null | some s ↦ str (state_name s) ])
    ∷ ("state_time", of_num r.state_time)
    ∷ ("declined_by", strs r.declined_by)
    ∷ ("node_types", strs r.node_types)
    ∷ ("nodes", ids r.nodes)
    ∷ ("reuse", bool r.reuse)
    ∷ ("requestor", of_str r.requestor)
    ∷ ("requestor_data", r.requestor_data)
    ∷ ("provider", of_str r.provider)
    ∷ ("relative_priority", num r.relative_priority)
    ∷ ("event_id", of_str r.event_id)
    ∷ ("created_time", of_num r.created_time)
    ∷ ("tenant_name", of_str r.tenant_name)
    ∷ []

restore_time : Dict → NodeRequest → NodeRequest
unfolding lookup
restore_time d r = elim (lookup "state_time" d) [
  | none ↦ r
  | some v ↦ record r { state_time = to_num v }
]

check_state : ℕ → Option Value → NodeRequest → Result NodeRequest
unfolding set_state find_state
check_state now none r = ok r
check_state now (some (str name)) r = elim (find_state name) [
  | none ↦ raise type_error
  | some s ↦ set_state now s r
]
check_state now (some _) r = raise type_error

-- BaseModel.updateFromDict: the state is checked, and its time is the stored one if there is one.
base_update : ℕ → Dict → NodeRequest → Result NodeRequest
unfolding check_state lookup restore_time
base_update now d r = then_ok (check_state now (lookup "state" d) r) (λ m. ok (restore_time d m))

abbrev to_count : Value → ℕ
to_count (num n) = n
to_count _ = 0

assign : Dict → NodeRequest → NodeRequest
unfolding get_or
assign d r = record r {
  declined_by = to_strs (get_or "declined_by" (strs []) d);
  node_types = to_strs (get_or "node_types" (strs []) d);
  nodes = to_ids (get_or "nodes" (ids []) d);
  reuse = to_bool (get_or "reuse" (bool true) d);
  requestor = to_str (get_or "requestor" null d);
  requestor_data = get_or "requestor_data" null d;
  provider = to_str (get_or "provider" null d);
  relative_priority = to_count (get_or "relative_priority" (num 0) d);
  event_id = to_str (get_or "event_id" null d);
  created_time = to_num (get_or "created_time" null d);
  tenant_name = to_str (get_or "tenant_name" null d);
}

unfoldable pub update_from_dict : ℕ → Dict → NodeRequest → Result NodeRequest
unfolding base_update assign
update_from_dict now d r = then_ok (base_update now d r) (λ q. ok (assign d q))

unfoldable pub from_dict : ℕ → Dict → Option String → Result NodeRequest
unfolding new_request update_from_dict
from_dict now d id = update_from_dict now d (new_request id)
