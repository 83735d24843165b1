-- ===== src/Zk/Node.antt =====
-- The class Node of zk/zookeeper.py, on BaseModel.
pub mod Laws
use nodepool.Prelude.{
  then_ok, ℕ, String, Bool, true, false, Option, some, none, List, [], ◌∷◌, lookup, Result, ok,
  raise, type_error, if◌then◌else◌,
}
use nodepool.Zk.States.{
  State, building, uploading, ready, deleting, failed, requested, fulfilled, pending, testing,
  in_use, used, hold, init, aborted, deleted, state_name, find_state,
}
use nodepool.Zk.Values.{
  or_none, Value, null, bool, num, str, strs, table, json, Dict, of_str, of_num, to_str, to_num,
  to_strs, get_or, as_list, coerce_expiration,
}

-- `lock` and `thread_lock` say that the attribute holds a Lock object and that the local mutex is
-- taken; neither is stored. Times are whole seconds.
pub record Node : Type 0 where
  pub id : Option String
  pub state : Option State
  pub state_time : Option ℕ
  pub lock : Bool
  pub thread_lock : Bool
  pub lock_contenders : List String
  pub cloud : Option String
  pub provider : Option String
  pub pool : Option String
  pub type : List String
  pub allocated_to : Option String
  pub az : Option String
  pub region : Option String
  pub public_ipv4 : Option String
  pub private_ipv4 : Option String
  pub public_ipv6 : Option String
  pub host_id : Option String
  pub interface_ip : Option String
  pub connection_port : Value
  pub image_id : Option String
  pub launcher : Option String
  pub created_time : Option ℕ
  pub external_id : Option String
  pub hostname : Option String
  pub comment : Option String
  pub user_data : Value
  pub hold_job : Option String
  pub host_keys : List String
  pub username : Option String
  pub connection_type : Option String
  pub shell_type : Option String
  pub hold_expiration : Option ℕ
  pub resources : Value
  pub slot : Value
  pub attributes : Value
  pub python_path : Option String
  pub tenant_name : Option String
  pub driver_data : Value
  pub requestor : Option String

-- Node.VALID_STATES.
unfoldable pub is_node_state : State → Bool
is_node_state requested = false
is_node_state fulfilled = false
is_node_state pending = false
is_node_state uploading = false
is_node_state _ = true

unfoldable pub new_node : Option String → Node
new_node id = record {
  id = or_none id;
  state = none;
  state_time = none;
  lock = false;
  thread_lock = false;
  lock_contenders = [];
  cloud = none;
  provider = none;
  pool = none;
  type = [];
  allocated_to = none;
  az = none;
  region = none;
  public_ipv4 = none;
  private_ipv4 = none;
  public_ipv6 = none;
  host_id = none;
  interface_ip = none;
  connection_port = num 22;
  image_id = none;
  launcher = none;
  created_time = none;
  external_id = none;
  hostname = none;
  comment = none;
  user_data = null;
  hold_job = none;
  host_keys = [];
  username = none;
  connection_type = none;
  shell_type = none;
  hold_expiration = none;
  resources = null;
  slot = null;
  attributes = null;
  python_path = none;
  tenant_name = none;
  driver_data = null;
  requestor = none;
}

-- The state's setter.
unfoldable pub set_state : ℕ → State → Node → Result Node
unfolding is_node_state
set_state now s n =
    if is_node_state s
    then ok (record n { state = some s; state_time = some now })
    else raise type_error

unfoldable pub to_dict : Node → Dict
to_dict n =
    ("state", elim n.state [ none ↦ null | some s ↦ str (state_name s) ])
    ∷ ("state_time", of_num n.state_time)
    ∷ ("cloud", of_str n.cloud)
    ∷ ("provider", of_str n.provider)
    ∷ ("pool", of_str n.pool)
    ∷ ("type", strs n.type)
    ∷ ("allocated_to", of_str n.allocated_to)
    ∷ ("az", of_str n.az)
    ∷ ("region", of_str n.region)
    ∷ ("public_ipv4", of_str n.public_ipv4)
    ∷ ("private_ipv4", of_str n.private_ipv4)
    ∷ ("public_ipv6", of_str n.public_ipv6)
    ∷ ("host_id", of_str n.host_id)
    ∷ ("interface_ip", of_str n.interface_ip)
    ∷ ("connection_port", n.connection_port)
    ∷ ("ssh_port", n.connection_port)
    ∷ ("image_id", of_str n.image_id)
    ∷ ("launcher", of_str n.launcher)
    ∷ ("created_time", of_num n.created_time)
    ∷ ("external_id", of_str n.external_id)
    ∷ ("hostname", of_str n.hostname)
    ∷ ("comment", of_str n.comment)
    ∷ ("user_data", n.user_data)
    ∷ ("hold_job", of_str n.hold_job)
    ∷ ("host_keys", strs n.host_keys)
    ∷ ("username", of_str n.username)
    ∷ ("connection_type", of_str n.connection_type)
    ∷ ("shell_type", of_str n.shell_type)
    ∷ ("hold_expiration", of_num n.hold_expiration)
    ∷ ("resources", n.resources)
    ∷ ("slot", n.slot)
    ∷ ("attributes", n.attributes)
    ∷ ("python_path", of_str n.python_path)
    ∷ ("tenant_name", of_str n.tenant_name)
    ∷ ("driver_data", n.driver_data)
    ∷ ("requestor", of_str n.requestor)
    ∷ []

restore_time : Dict → Node → Node
unfolding lookup
restore_time d m = elim (lookup "state_time" d) [
  | none ↦ m
  | some v ↦ record m { state_time = to_num v }
]

check_state : ℕ → Option Value → Node → Result Node
unfolding set_state find_state
check_state now none n = ok n
check_state now (some (str name)) n = elim (find_state name) [
  | none ↦ raise type_error
  | some s ↦ set_state now s n
]
check_state now (some _) n = raise type_error

-- BaseModel.updateFromDict: the state is checked, and its time is the stored one if there is one.
base_update : ℕ → Dict → Node → Result Node
unfolding check_state lookup restore_time
base_update now d n = then_ok (check_state now (lookup "state" d) n) (λ m. ok (restore_time d m))

-- The attributes that every dictionary sets, present or not.
assign : Dict → Option ℕ → Node → Node
unfolding get_or as_list
assign d expiration n = record n {
  cloud = to_str (get_or "cloud" null d);
  provider = to_str (get_or "provider" null d);
  pool = to_str (get_or "pool" null d);
  type = as_list (get_or "type" null d);
  allocated_to = to_str (get_or "allocated_to" null d);
  az = to_str (get_or "az" null d);
  region = to_str (get_or "region" null d);
  public_ipv4 = to_str (get_or "public_ipv4" null d);
  private_ipv4 = to_str (get_or "private_ipv4" null d);
  public_ipv6 = to_str (get_or "public_ipv6" null d);
  host_id = to_str (get_or "host_id" null d);
  interface_ip = to_str (get_or "interface_ip" null d);
  connection_port = get_or "connection_port" (get_or "ssh_port" (num 22) d) d;
  image_id = to_str (get_or "image_id" null d);
  launcher = to_str (get_or "launcher" null d);
  created_time = to_num (get_or "created_time" null d);
  external_id = to_str (get_or "external_id" null d);
  hostname = to_str (get_or "hostname" null d);
  comment = to_str (get_or "comment" null d);
  user_data = get_or "user_data" null d;
  hold_job = to_str (get_or "hold_job" null d);
  host_keys = to_strs (get_or "host_keys" (strs []) d);
  username = to_str (get_or "username" (str "zuul") d);
  connection_type = to_str (get_or "connection_type" null d);
  shell_type = to_str (get_or "shell_type" null d);
  hold_expiration = expiration;
  resources = get_or "resources" null d;
  slot = get_or "slot" null d;
  attributes = get_or "attributes" null d;
  python_path = to_str (get_or "python_path" null d);
  tenant_name = to_str (get_or "tenant_name" null d);
  driver_data = get_or "driver_data" null d;
  requestor = to_str (get_or "requestor" null d);
}

-- A failed coercion of hold_expiration leaves the attributes before it assigned; the callers drop
-- the object then.
unfoldable pub update_from_dict : ℕ → Dict → Node → Result Node
unfolding base_update assign coerce_expiration get_or
update_from_dict now d n =
    then_ok (base_update now d n)
      (λ m. then_ok (coerce_expiration (get_or "hold_expiration" null d)) (λ x. ok (assign d x m)))

unfoldable pub from_dict : ℕ → Dict → Option String → Result Node
unfolding new_node update_from_dict
from_dict now d id = update_from_dict now d (new_node id)
