-- ===== src/Samples.antt =====
-- A concrete ZooKeeper and a concrete provider, on which the theorems are tried.
pub mod Znodes
mod Quotas
mod Machines
mod Workers
mod Metastatic
mod Caches
mod Helpers
mod Deleted
mod Minimum
mod Pools
mod Leaks
pub mod Handlers
use Prim.Native.String.{◌++◌}
use mathlib.Core.List.{◌++◌ as ◌++ᴸ◌}
use nodepool.Prelude.{
  ℕ, String, Bool, true, false, not, Option, some, none, List, [], ◌∷◌, M, Result, ok, raise,
  no_node, pure, elem, keep, lookup, insert, if◌then◌else◌, ◌==◌,
}
use nodepool.Zk.Values.{Dict, null}
use nodepool.Zk.Node.{Node, new_node}
use nodepool.Zk.Request.{NodeRequest, new_request}
use nodepool.Zk.Kazoo.{Kazoo}
use nodepool.Zk.Nodes
use nodepool.Zk.Requests
use nodepool.Zk.Ready
use nodepool.Zk.Oldest
use nodepool.Driver.Handler.{Config, Services}

-- The znodes with their data, the locks that are taken, and the clock.
pub record Ensemble : Type 0 where
  pub znodes : List (String × Dict)
  pub locks : List String
  pub clock : ℕ

abbrev pub read : String → M Ensemble (Option Dict)
read path s = (elim (lookup path s.znodes) [ none ↦ raise no_node | some d ↦ ok (some d) ], s)

abbrev pub write : String → Dict → M Ensemble (Unit {0})
write path d s = (ok tt, record s { znodes = insert path d s.znodes })

-- Two numbers are enough for the samples.
abbrev pub next_path : String → List (String × Dict) → String
next_path path znodes = elim (lookup (path ++ "0001") znodes) [
  | none ↦ path ++ "0001"
  | some d ↦ path ++ "0002"
]

abbrev pub add_znode : String → (ephemeral : Bool) → Dict → M Ensemble String
add_znode path ephemeral d s =
    let new = next_path path s.znodes in (ok new, record s { znodes = (new, d) ∷ s.znodes })

abbrev pub take_lock : String → M Ensemble Bool
take_lock path s =
    if elem path s.locks then (ok false, s) else (ok true, record s { locks = path ∷ s.locks })

abbrev pub kazoo : Kazoo Ensemble
kazoo = record {
  get = read;
  set = write;
  create = add_znode;
  delete =
      λ path recursive s. (ok tt, record s { znodes = keep (λ z. not (z.0 == path)) s.znodes });
  get_children = λ path s. (ok [], s);
  acquire = λ path blocking ephemeral. take_lock path;
  release = λ path s. (ok tt, record s { locks = keep (λ l. not (l == path)) s.locks });
  time = λ s. s.clock;
  cache_enabled = false;
  cached_node = λ s id. none;
  cached_node_ids = λ s. [];
  cached_request = λ s id. none;
}

-- A provider with room for every label, whose launches are complete at once.
abbrev pub services : Services Ensemble
services = record {
  time = λ s. s.clock;
  store_node = Nodes.store_node kazoo;
  lock_node = Nodes.lock_node kazoo false true;
  unlock_node = Nodes.unlock_node kazoo;
  get_ready_nodes_of_types = Ready.get_ready_nodes_of_types kazoo;
  delete_oldest_unused_node = Oldest.delete_oldest_unused_node kazoo;
  get_node_request = λ id. Requests.get_node_request kazoo id false;
  store_node_request = Requests.store_node_request kazoo "100" "event";
  unlock_node_request = Requests.unlock_node_request kazoo;
  registered_pools = λ s. "launcher" ∷ "other" ∷ [];
  error_labels = λ s. [];
  has_remaining_quota = λ l s. (ok true, s);
  has_provider_quota = λ ls s. (ok true, s);
  images_available = λ ls s. (ok true, s);
  check_reusable_node = λ s n. true;
  node_reused = λ n s. (ok tt, s);
  set_node_metadata = λ t. (ok tt, t);
  launch = λ t. (ok tt, t);
  launches_complete = λ s. (ok true, s);
}

abbrev pub config : Config
config = record {
  provider = "cloud";
  pool = "main";
  launcher_id = "launcher";
  max_servers_positive = true;
  supported_labels = "small" ∷ "large" ∷ [];
  pause_at_quota = false;
  node_attributes = null;
}
