-- ===== src/Samples/Pools.antt =====
-- A pool without handlers, and a tenant with a limit, at which the theorems on the pool worker are
-- tried.
use nodepool.Prelude.{true, false, none, some, [], ◌∷◌, ◌≡◌, refl, ok}
use nodepool.Prelude.Amount.{fin, pos}
use nodepool.Zk.Request.{NodeRequest}
use nodepool.Zk.Requests.{lock_node_request}
use nodepool.Driver.Quota.{quota_information}
use nodepool.Driver.Handler.Rules.{Ends}
use nodepool.Workers.Tenants.{
  Tenancy, Room, has_tenant_quota, has_tenant_quota-Room, needed_quota, used_quota_for_tenant,
}
use nodepool.Workers.Rounds.{process_paused_handlers}
use nodepool.Workers.Rounds.Laws.{Settled, process_paused_handlers-Settled}
use nodepool.Workers.Take.{Pool, Calls, new_handler, take}
use nodepool.Workers.Take.Laws.{Taken, take-Taken}
use nodepool.Samples.{kazoo, services, config, Ensemble}
use nodepool.Samples.Znodes.{request_of, ensemble}

abbrev tenancy : Tenancy Ensemble
tenancy = record {
  pool_labels = "small" ∷ [];
  tenant_resource_limits = ("blue", ("cores", fin (pos 8)) ∷ []) ∷ [];
  quota_needed_by_label =
      λ l s. (ok (quota_information (some (fin (pos 2))) none none (fin (pos 0)) []), s);
  node_iterator = λ s. (ok [], s);
}

abbrev asked : NodeRequest
asked = record (request_of ("small" ∷ [])) { tenant_name = some "blue" }

let_through : (has_tenant_quota tenancy asked "blue" ensemble).0 ≡ ok true
unfolding has_tenant_quota needed_quota used_quota_for_tenant
let_through = refl

has_tenant_quota-Room_example : Room tenancy "blue" ("small" ∷ []) ensemble
has_tenant_quota-Room_example = has_tenant_quota-Room tenancy asked "blue" ensemble let_through

abbrev calls : Calls Ensemble
calls = record {
  handlers = services;
  config = config;
  tenancy = tenancy;
  running = λ s. true;
  registered_pools = λ s. [];
  label_quota = λ s. some [];
  node_request_iterator = λ s. (ok (asked ∷ []), s);
  lock_node_request = lock_node_request kazoo false;
  active_threads = λ s. 0;
}

abbrev pool : Pool
pool = record {
  worker = record {
    launcher_id = "launcher";
    provider_name = "cloud";
    pool_labels = "small" ∷ [];
    pool_priority = none;
    provider_priority = none;
    label_quota = some [];
  };
  max_concurrency = some 4;
  heap = λ r. new_handler asked;
  next = 0;
  request_handlers = [];
  paused_handlers = [];
  component_paused = false;
}

take-Taken_example : Ends (Taken calls asked pool) (take calls [] asked (pool, ensemble))
take-Taken_example = take-Taken calls asked pool [] ensemble

-- The pool with one paused handler, whose request is fulfilled by a ready node now.
abbrev paused_pool : Pool
paused_pool = record pool {
  heap = λ r. record (new_handler asked) { paused = true };
  next = 1;
  request_handlers = 0 ∷ [];
  paused_handlers = 0 ∷ [];
}

process_paused_handlers-Settled_example :
    Ends (Settled calls paused_pool) (process_paused_handlers calls (paused_pool, ensemble))
process_paused_handlers-Settled_example =
    process_paused_handlers-Settled calls paused_pool ensemble (refl, tt)
