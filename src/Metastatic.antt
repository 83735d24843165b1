-- ===== src/Metastatic.antt =====
-- The metastatic driver, driver/metastatic/adapter.py: the class BackingNodeRecord,
-- the fields of MetastaticAdapter, and what it calls of ZooKeeper, of the clock and of JSON.
pub mod Slots
pub mod Allocate
pub mod Release
pub mod Requests
pub mod Machines
use nodepool.Prelude.{
  ℕ, zero, suc, ◌+◌, String, Bool, true, false, not, Option, some, none, List, [], ◌∷◌, ◌++◌, ◌==◌,
  eqb, if◌then◌else◌, any, replicate, M, Result, ok, raise, other,
}
use nodepool.Zk.Values.{Value, Dict, is_set}
use nodepool.Zk.Node.{Node}
use nodepool.Zk.Request.{NodeRequest}

pub record BackingNodeRecord : Type 0 where
  pub label_name : String
  pub slot_count : ℕ
  pub node_id : Option String
  pub request_id : Option String
  pub allocated_nodes : List (Option String)
  pub failed : Bool
  pub launched : ℕ
  pub last_used : ℕ

-- `a == b` for two of its entries.
abbrev pub same : Option String → Option String → Bool
same none none = true
same none (some b) = false
same (some a) none = false
same (some a) (some b) = a == b

unfoldable pub new_record : (label_name : String) (slot_count now : ℕ) → BackingNodeRecord
new_record label_name slot_count now = record {
  label_name = label_name;
  slot_count = slot_count;
  node_id = none;
  request_id = none;
  allocated_nodes = replicate slot_count none;
  failed = false;
  launched = now;
  last_used = now;
}

abbrev pub holds : Option String → List (Option String) → Bool
holds v xs = any (same v) xs

-- hasAvailableSlot
unfoldable pub has_available_slot : BackingNodeRecord → Bool
has_available_slot b = if b.failed then false else holds none b.allocated_nodes

-- isEmpty
unfoldable pub is_unused : BackingNodeRecord → Bool
is_unused b = not (any is_set b.allocated_nodes)

-- `xs.index(v)`, where `none` is a ValueError.
unfoldable pub index_of : Option String → List (Option String) → Option ℕ
index_of v [] = none
index_of v (x ∷ xs) =
    if same v x then some 0 else elim (index_of v xs) [ none ↦ none | some i ↦ some (suc i) ]

-- `xs[i]`, where `none` is an IndexError, and `xs[i] = v`.
unfoldable pub slot_at : ℕ → List (Option String) → Option (Option String)
slot_at i [] = none
slot_at zero (x ∷ xs) = some x
slot_at (suc i) (x ∷ xs) = slot_at i xs

unfoldable pub set_slot : ℕ → Option String → List (Option String) → List (Option String)
set_slot i v [] = []
set_slot zero v (x ∷ xs) = v ∷ xs
set_slot (suc i) v (x ∷ xs) = x ∷ set_slot i v xs

-- allocateSlot from its `if` on.
unfoldable pub allocate_at : String → ℕ → BackingNodeRecord → Result (ℕ × BackingNodeRecord)
unfolding slot_at set_slot
allocate_at node_id idx b = elim (slot_at idx b.allocated_nodes) [
  | none ↦ raise other
  | some (some taken) ↦ raise other
  | some none ↦
      ok (idx, record b { allocated_nodes = set_slot idx (some node_id) b.allocated_nodes })
]

-- allocateSlot
unfoldable pub allocate_slot :
    String → (slot_id : Option ℕ) → BackingNodeRecord → Result (ℕ × BackingNodeRecord)
unfolding index_of allocate_at
allocate_slot node_id (some idx) b = allocate_at node_id idx b
allocate_slot node_id none b = elim (index_of none b.allocated_nodes) [
  | none ↦ raise other
  | some idx ↦ allocate_at node_id idx b
]

-- deallocateSlot
unfoldable pub deallocate_slot : (now : ℕ) → String → BackingNodeRecord → Result BackingNodeRecord
unfolding index_of set_slot
deallocate_slot now node_id b = elim (index_of (some node_id) b.allocated_nodes) [
  | none ↦ raise other
  | some idx ↦
      ok (record b { allocated_nodes = set_slot idx none b.allocated_nodes; last_used = now })
]

-- backsNode
unfoldable pub backs_node : String → BackingNodeRecord → Bool
backs_node node_id b = holds (some node_id) b.allocated_nodes

-- The records are objects: the lists under the labels hold references to them, and so do the create
-- machines. A record that has left its list is still there. `next` is the first reference that is
-- not in use.
pub record Adapter : Type 0 where
  pub heap : ℕ → BackingNodeRecord
  pub next : ℕ
  pub backing_node_records : List (String × List ℕ)
  pub performed_init : Bool

abbrev pub write : ℕ → BackingNodeRecord → (ℕ → BackingNodeRecord) → ℕ → BackingNodeRecord
write r b heap i = if eqb i r then b else heap i

-- `for label_name, backing_node_records in self.backing_node_records.items(): for bnr in ...`
unfoldable pub references : List (String × List ℕ) → List ℕ
references [] = []
references ((l, rs) ∷ rest) = rs ++ references rest

-- What the adapter calls. `loads` is json.loads, `none` for an exception, `dumps` is json.dumps, and
-- `document` reads an attribute that holds a dictionary. Times are whole seconds.
pub record Store (S : Type 0) : Type 0 where
  pub time : S → ℕ
  pub node_iterator : M S (List Node)
  pub get_node_lock_contenders : Node → M S (List String)
  pub get_node : Option String → M S (Option Node)
  pub store_node : M (Node × S) (Unit {0})
  -- `lockNode(node, blocking=True, timeout=30, ephemeral=False, identifier=self.my_id)`
  pub lock_node : M (Node × S) (Unit {0})
  pub force_unlock_node : Node → M S (Unit {0})
  -- `storeNodeRequest(req, priority='100')`
  pub store_node_request : M (NodeRequest × S) (Unit {0})
  pub node_request_iterator : M S (List NodeRequest)
  pub delete_node_request : NodeRequest → M S (Unit {0})
  pub loads : Value → Option Dict
  pub dumps : Dict → Value
  pub document : Value → Option Dict

-- The provider's configuration as far as the adapter reads it.
pub record LabelConfig : Type 0 where
  pub name : String
  pub backing_label : String
  pub max_parallel_jobs : ℕ
  pub grace_time : ℕ
  pub min_retention_time : ℕ
  pub max_age : Option ℕ

pub record Provider : Type 0 where
  pub name : String
  pub my_id : String
  pub get_label : String → Option LabelConfig
