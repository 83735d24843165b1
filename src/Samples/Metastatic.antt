-- ===== src/Samples/Metastatic.antt =====
-- A backing node with a free slot and one that is idle, at which the theorems on the metastatic driver
-- are tried.
use nodepool.Prelude.{
  String, true, false, some, none, [], ◌∷◌, ◌≤◌, refl, ok, arith, eqb, if◌then◌else◌, ◌==◌,
  Bool-cases, inl, inr,
}
use nodepool.Zk.Values.{null}
use nodepool.Zk.Node.{new_node}
use nodepool.Metastatic.{BackingNodeRecord, Adapter, Store, LabelConfig, Provider, references}
use nodepool.Metastatic.Slots.{count}
use nodepool.Metastatic.Allocate.{allocate_backing_node}
use nodepool.Metastatic.Allocate.Holders.{total}
use nodepool.Metastatic.Allocate.Laws.{IsExclusive, Outcome, view, allocate_backing_node-bind}
use nodepool.Metastatic.Release.{list_resources}
use nodepool.Metastatic.Release.Laws.{Spares, list_resources-Spares}
use nodepool.Metastatic.Machines.{CreateMachine, start, advance_create}
use nodepool.Metastatic.Machines.Laws.{Round, advance_create-Round}
use nodepool.Driver.Handler.Rules.{Ends}

abbrev small_label : LabelConfig
small_label = record {
  name = "small";
  backing_label = "large";
  max_parallel_jobs = 2;
  grace_time = 60;
  min_retention_time = 0;
  max_age = none;
}

abbrev provider : Provider
provider = record {
  name = "meta";
  my_id = "launcher";
  get_label = λ l. if l == "small" then some small_label else none;
}

abbrev backing : Store (Unit {0})
backing = record {
  time = λ s. 1000;
  node_iterator = λ s. (ok [], s);
  get_node_lock_contenders = λ n s. (ok [], s);
  get_node = λ id s. (ok (some (new_node id)), s);
  store_node = λ t. (ok tt, t);
  lock_node = λ t. (ok tt, t);
  force_unlock_node = λ n s. (ok tt, s);
  store_node_request = λ t. (ok tt, t);
  node_request_iterator = λ s. (ok [], s);
  delete_node_request = λ r s. (ok tt, s);
  loads = λ v. none;
  dumps = λ d. null;
  document = λ v. none;
}

abbrev busy : BackingNodeRecord
busy = record {
  label_name = "small";
  slot_count = 2;
  node_id = some "1001";
  request_id = none;
  allocated_nodes = some "0001" ∷ none ∷ [];
  failed = false;
  launched = 100;
  last_used = 100;
}

abbrev home : Adapter
home = record {
  heap = λ r. if eqb r 0 then busy else record busy { allocated_nodes = none ∷ none ∷ [] };
  next = 2;
  backing_node_records = ("small", 0 ∷ 1 ∷ []) ∷ [];
  performed_init = true;
}

home_one_slot : (m : String) → total m home.heap (0 ∷ 1 ∷ []) ≤ 1
unfolding count
home_one_slot m = elim (Bool-cases (m == "0001")) [
  | inl e ↦ rw e (omega arith)
  | inr e ↦ rw e (omega arith)
]

home-IsExclusive : IsExclusive home
unfolding references
home-IsExclusive = record {
  distinct = ((refl, tt), (tt, tt));
  below = (omega arith, (omega arith, tt));
  one_slot = home_one_slot;
}

allocate_backing_node-bind_example :
    Outcome "0002"
      (view home)
      (allocate_backing_node backing provider small_label "0002" (home, tt))
allocate_backing_node-bind_example =
    allocate_backing_node-bind backing provider small_label "0002" home tt refl (omega arith)
      home-IsExclusive

list_resources-Spares_example :
    Ends (λ _ u. Spares home u.0) (list_resources backing provider (home, tt))
list_resources-Spares_example = list_resources-Spares backing provider home tt refl home-IsExclusive

abbrev machine : CreateMachine
machine = record {
  node_id = "0002";
  label = small_label;
  metadata = null;
  state = start;
  complete = false;
  external_id = none;
  backing = none;
}

advance_create-Round_example :
    Ends (Round backing provider) (advance_create backing provider (machine, (home, tt)))
advance_create-Round_example = advance_create-Round backing provider (machine, (home, tt))
