-- ===== src/Machine.antt =====
-- The state machines of cloud adapters, as driver/statemachine.py uses them: the classes Instance and
-- StateMachine and the adapter's methods.
pub mod Leaks
pub mod Quota
pub mod Deleter
pub mod Launcher
use nodepool.Prelude.{ℕ, String, Bool, true, false, Option, some, none, List, M}
use nodepool.Zk.Values.{Value}
use nodepool.Zk.Node.{Node}

-- A create or delete state machine. Its progress is the adapter's.
pub record Machine : Type 0 where
  pub state : String
  pub external_id : Option String
  pub complete : Bool
  pub start_time : ℕ

abbrev pub start : String
start = "start"

-- An instance, with what getQuotaInformation().get_resources() gives. The attributes that an adapter
-- may leave out are options.
pub record Instance : Type 0 where
  pub external_id : Option String
  pub public_ipv4 : Option String
  pub public_ipv6 : Option String
  pub private_ipv4 : Option String
  pub private_ipv6 : Option String
  pub interface_ip : Option String
  pub cloud : Option String
  pub az : Option String
  pub region : Option String
  pub host_id : Option String
  pub driver_data : Value
  pub slot : Value
  pub resources : Value
  pub username : Option (Option String)
  pub python_path : Option (Option String)
  pub shell_type : Option (Option String)
  pub connection_port : Option Value
  pub connection_type : Option (Option String)
  pub host_keys : Option (List String)
  pub node_attributes : Option Value

-- What the launcher and the deleter of a node call: ZooKeeper, the adapter and the manager.
pub record Cloud (S : Type 0) : Type 0 where
  pub time : S → ℕ
  pub store_node : M (Node × S) (Unit {0})
  pub unlock_node : M (Node × S) (Unit {0})
  pub delete_node : M (Node × S) (Unit {0})
  pub node_deleted_notification : Node → M S (Unit {0})
  pub advance : M (Machine × S) (Option Instance)
  pub get_create_state_machine : (image : Option String) → Node → M S Machine
  pub get_delete_state_machine : (external_id : Option String) → M S Machine
  pub invalidate_quota_cache : M S (Unit {0})
