-- ===== src/Samples/Workers.antt =====
-- The sharing of requests among two concrete pools.
use nodepool.Prelude.{◌↔◌, true, false, some, none, List, [], ◌∷◌, ◌≡◌, refl, ok}
use nodepool.Zk.States.{ready}
use nodepool.Zk.Request.{NodeRequest}
use nodepool.Workers.Assign.{LauncherPool, PoolWorker, taken_up, consider}
use nodepool.Workers.Assign.Laws.{TakesUp, consider-TakesUp}
use nodepool.Zk.Node.{Node}
use nodepool.Zk.Nodes.Locks.{IsBalanced}
use nodepool.Workers.Cleanup.{Settings, mark_aged}
use nodepool.Workers.Cleanup.Laws.{mark_aged-IsBalanced}
use nodepool.Samples.{kazoo}
use nodepool.Samples.Znodes.{request_of, node_of, ensemble}

abbrev worker : PoolWorker
worker = record {
  launcher_id = "a";
  provider_name = "cloud";
  pool_labels = "small" ∷ [];
  pool_priority = some 50;
  provider_priority = none;
  label_quota = none;
}

abbrev pools : List LauncherPool
pools =
    record {
      id = "a";
      supported_labels = "small" ∷ [];
      provider_name = "cloud";
      priority = 50;
      paused = false;
    }
    ∷ record {
      id = "b";
      supported_labels = "small" ∷ [];
      provider_name = "other";
      priority = 10;
      paused = true;
    }
    ∷ []

abbrev request : NodeRequest
request = request_of ("small" ∷ [])

consider-TakesUp_example : (consider worker pools request ≡ taken_up) ↔ TakesUp worker pools request
consider-TakesUp_example = consider-TakesUp worker pools request

abbrev settings : Settings
settings = record {
  providers = "cloud" ∷ [];
  max_ready_age = ("small", 60) ∷ [];
  max_hold_age = none;
}

-- A ready node that is locked.
abbrev locked : Node
locked = record (node_of "0001" ready 10) { lock = true; thread_lock = true }

mark_aged-IsBalanced_example :
    let (r, (m, t)) = mark_aged kazoo settings ready (locked, ensemble) in
    IsBalanced m × (r ≡ ok tt → (m.lock ≡ false) × (m.thread_lock ≡ false))
mark_aged-IsBalanced_example = mark_aged-IsBalanced kazoo settings ready locked ensemble refl
