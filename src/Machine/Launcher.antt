-- ===== src/Machine/Launcher.antt =====
-- The class StateMachineNodeLauncher of driver/statemachine.py: its state, its start,
-- and the update of a node from an instance. The rounds are in the child modules.
pub mod Delete
pub mod Round
pub mod Kept
use Prim.Native.String.{◌++◌}
use nodepool.Prelude.{
  ℕ, suc, ◌+◌, String, Bool, true, false, not, ◌&&◌, ◌||◌, Option, some, none, List, [], ◌∷◌, M,
  Result, ok, raise, Exception, key_error, type_error, other, pure, throw, ◌>>=◌, ◌>>◌, attempt,
  eqb, if◌then◌else◌, on_right, is_empty,
}
use nodepool.Zk.States.{State}
use nodepool.Zk.Values.{Value, is_set, truthy}
use nodepool.Zk.Node.{Node}
use nodepool.Zk.Node
use nodepool.Zk.Paths.{format_id}
use nodepool.Machine.{Machine, Instance, Cloud}

-- The submitted start: none, one that a worker thread still runs, or its result.
pub data Future : Type 0 where
  absent running : Future
  finished : Result (Unit {0}) → Future

-- A request to scan the keys of a host.
pub record Scan : Type 0 where
  pub complete : Bool
  pub exception : Option Exception
  pub keys : List String

pub record Launcher : Type 0 where
  pub node : Node
  pub start_future : Future
  pub start_time : Option ℕ
  pub attempts : ℕ
  pub state_machine : Option Machine
  pub nodescan_request : Option Scan
  pub delete_state_machine : Option Machine

-- What the configuration says of an image.
pub record Image : Type 0 where
  pub name : String
  pub username : Option String
  pub python_path : Option String
  pub shell_type : Option String
  pub connection_port : Value
  pub connection_type : Option String

-- The image of a label: a diskimage, or one of the cloud.
pub data Source : Type 0 where
  diskimage cloud_image : Image → Source

pub record Upload : Type 0 where
  pub image_name : String
  pub build_id : String
  pub provider_name : String
  pub id : String
  pub external_id : Option String

-- The configuration, the uploaded images, and what else the launcher calls. `updated` is a copy of
-- the first dictionary after `update` with the second.
pub record Pool (S : Type 0) : Type 0 where
  pub use_internal_ip : Bool
  pub launch_retries : ℕ
  pub launch_timeout : ℕ
  pub label_image : String → Option Source
  pub get_most_recent_image_upload : String → M S (Option Upload)
  pub quota_needed_by_label : String → M S (Option Value)
  pub notify_nodescan_failure : Node → M S (Unit {0})
  pub updated : Value → Value → Value

module _ {S : Type 0} (p : Pool S) (v : Cloud S) where
  abbrev pub Step : Type 0 → Type 0
  Step A = M (Launcher × S) A

  abbrev pub launcher : Step Launcher
  launcher (l, s) = (ok l, (l, s))

  abbrev pub change : (Launcher → Launcher) → Step (Unit {0})
  change f (l, s) = (ok tt, (f l, s))

  abbrev pub on_node : M (Node × S) (Unit {0}) → Step (Unit {0})
  on_node op (l, s) = let (r, after) = op (l.node, s) in (r, (record l { node = after.0 }, after.1))

  -- `self.node.state = state`
  abbrev pub set_state : State → Step (Unit {0})
  set_state state (l, s) = elim (Node.set_state (v.time s) state l.node) [
    | ok n ↦ (ok tt, (record l { node = n }, s))
    | raise e ↦ (raise e, (l, s))
  ]

  -- `self.handler.pool.labels[self.node.type[0]]`
  label : Node → Step Source
  label n = elim n.type [
    | [] ↦ throw other
    | name ∷ names ↦ elim (p.label_image name) [
      | none ↦ throw key_error
      | some source ↦ pure source
    ]
  ]

  abbrev upload_path : Upload → String
  upload_path u =
      "/nodepool/images/"
      ++ (u.image_name
          ++ ("/builds/" ++ (u.build_id ++ ("/providers/" ++ (u.provider_name ++ "/images")))))

  -- The id of the image for the adapter, and the one that the node shows.
  find_image : Source → Step (Option String × String)
  find_image (cloud_image i) = pure (none, i.name)
  find_image (diskimage i) = do
    found ← on_right (p.get_most_recent_image_upload i.name)
    elim found [
      | none ↦ throw other
      | some u ↦ pure (u.external_id, upload_path u ++ ("/" ++ u.id))
    ]

  abbrev image_of : Source → Image
  image_of (cloud_image i) = i
  image_of (diskimage i) = i

  abbrev use_image : String → Image → Node → Node
  use_image id i n = record n {
    image_id = some id;
    username = i.username;
    python_path = i.python_path;
    shell_type = i.shell_type;
    connection_port = i.connection_port;
    connection_type = i.connection_type;
  }

  abbrev first_type : Node → String
  first_type n = elim n.type [ [] ↦ "" | name ∷ names ↦ name ]

  abbrev set_resources : Option Value → Launcher → Launcher
  set_resources none l = l
  set_resources (some r) l = record l { node = record (l.node) { resources = r } }

  -- `'np' + self.node.id` and the call behind it.
  create_machine : Option String → Step (Unit {0})
  create_machine image (l, s) = elim l.node.id [
    | none ↦ (raise type_error, (l, s))
    | some id ↦
        let (r, t) = v.get_create_state_machine image l.node s in
        elim r [
          | raise e ↦ (raise e, (l, t))
          | ok m ↦ (ok tt, (record l { state_machine = some m }, t))
        ]
  ]

  -- startStateMachine
  unfoldable pub start_state_machine : Step (Unit {0})
  unfolding label find_image create_machine
  start_state_machine = do
    l ← launcher
    source ← label l.node
    (image, id) ← find_image source
    change (λ k. record k { node = use_image id (image_of source) k.node })
    needed ← on_right (p.quota_needed_by_label (first_type l.node))
    change (set_resources needed)
    on_node v.store_node
    create_machine image

  -- launch. The first attempt is submitted to a worker thread, which `run_start` stands for.
  unfoldable pub launch : Step (Unit {0})
  unfolding start_state_machine
  launch = do
    change (λ l. record l { attempts = suc l.attempts })
    l ← launcher
    if eqb l.attempts 1
        then change (λ k. record k { start_future = running })
        else start_state_machine

  unfoldable pub run_start : Step (Unit {0})
  unfolding start_state_machine
  run_start = do
    r ← attempt start_state_machine
    change (λ l. record l { start_future = finished r })

  -- The address that the node shows.
  unfoldable pub server_ip : Instance → Option String
  server_ip i =
      if p.use_internal_ip && (is_set i.private_ipv4 || is_set i.private_ipv6)
      then if is_set i.private_ipv4 then i.private_ipv4 else i.private_ipv6
      else i.interface_ip

  abbrev or_keep : {A : Type 0} → Option A → A → A
  or_keep none a = a
  or_keep (some b) a = b

  abbrev merged : Option Value → Value → Value
  merged none attributes = attributes
  merged (some defaults) attributes =
      if truthy attributes then p.updated defaults attributes else defaults

  from_instance : Instance → Node → Node
  unfolding server_ip
  from_instance i n = record n {
    external_id = i.external_id;
    interface_ip = server_ip i;
    public_ipv4 = i.public_ipv4;
    private_ipv4 = i.private_ipv4;
    public_ipv6 = i.public_ipv6;
    host_id = i.host_id;
    cloud = i.cloud;
    region = i.region;
    az = i.az;
    driver_data = i.driver_data;
    slot = i.slot;
    resources = i.resources;
    username = or_keep i.username n.username;
    python_path = or_keep i.python_path n.python_path;
    shell_type = or_keep i.shell_type n.shell_type;
    connection_port = or_keep i.connection_port n.connection_port;
    connection_type = or_keep i.connection_type n.connection_type;
    host_keys = or_keep i.host_keys n.host_keys;
    attributes = merged i.node_attributes n.attributes;
  }

  -- updateNodeFromInstance
  unfoldable pub update_node_from_instance : Option Instance → Step (Unit {0})
  unfolding from_instance
  update_node_from_instance none = pure tt
  update_node_from_instance (some i) = do
    change (λ l. record l { node = from_instance i l.node })
    on_node v.store_node
