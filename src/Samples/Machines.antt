-- ===== src/Samples/Machines.antt =====
-- Launches, deletions and quota checks at a concrete cloud, whose state is the clock.
use nodepool.Prelude.{
  leb, ◌+◌, sym, raise-ne-ok, ℕ, ◌≤◌, suc, Bool, true, false, some, none, [], ◌∷◌, ok, raise,
  not_found, ◌≡◌, ◌⊎◌, refl, arith,
}
use nodepool.Prelude.Amount.{fin, pos}
use nodepool.Zk.States.{building, deleting, is_state}
use nodepool.Zk.Node.{new_node}
use nodepool.Driver.Quota.{QuotaInformation, subtract, from_resources}
use nodepool.Machine.{Machine, Cloud}
use nodepool.Machine.Quota.{Limits, Manager, pool_limits, has_provider_quota, has_remaining_quota}
use nodepool.Machine.Quota.Laws.{
  AllFit, has_remaining_quota-AllFit, volume_nodes, volume_pool, has_provider_quota-volumes,
}
use nodepool.Machine.Deleter.{Deleter}
use nodepool.Machine.Deleter
use nodepool.Machine.Deleter.Laws.{run_state_machine-spares}
use nodepool.Machine.Launcher.{Launcher, Pool, absent}
use nodepool.Machine.Launcher.Round
use nodepool.Machine.Launcher.Round.Unwind.{run_state_machine-waits}
use nodepool.Machine.Launcher.Round.Outcome.{run_state_machine-ends}
use nodepool.Samples.Znodes.{node_of}

abbrev machine : Bool → Machine
machine complete = record {
  state = "building";
  external_id = some "vm";
  complete = complete;
  start_time = 0;
}

-- An instance may be found or not, and then a step may complete its machine or not.
abbrev cloud : (found completes : Bool) → Cloud ℕ
cloud found completes = record {
  time = λ s. s;
  store_node = λ t. (ok tt, t);
  unlock_node = λ t. (ok tt, t);
  delete_node = λ t. (ok tt, t);
  node_deleted_notification = λ n s. (ok tt, s);
  advance = λ (m, s). elim found [
    | true ↦ (ok none, (record m { complete = completes }, suc s))
    | false ↦ (raise not_found, (m, suc s))
  ];
  get_create_state_machine = λ image n s. (ok (machine false), s);
  get_delete_state_machine = λ id s. (ok (machine false), s);
  invalidate_quota_cache = λ s. (ok tt, s);
}

abbrev pool : Pool ℕ
pool = record {
  use_internal_ip = false;
  launch_retries = 3;
  launch_timeout = 3600;
  label_image = λ l. none;
  get_most_recent_image_upload = λ i s. (ok none, s);
  quota_needed_by_label = λ l s. (ok none, s);
  notify_nodescan_failure = λ n s. (ok tt, s);
  updated = λ a b. b;
}

abbrev launcher : Launcher
launcher = record {
  node = node_of "0001" building 10;
  start_future = absent;
  start_time = none;
  attempts = 1;
  state_machine = some (machine false);
  nodescan_request = none;
  delete_state_machine = none;
}

run_state_machine-ends_example :
    let (r, (k, t)) = Round.run_state_machine pool (cloud true true) (launcher, 20) in
    (k.attempts ≤ 3) × (r ≡ ok true → is_state k.node.state building ≡ false)
run_state_machine-ends_example =
    run_state_machine-ends pool (cloud true true) (λ n s. refl) launcher 20 (omega arith)

-- The second attempt, while the first instance is being deleted.
abbrev unwinding : Launcher
unwinding = record launcher { attempts = 2; delete_state_machine = some (machine false) }

run_state_machine-waits_example :
    (e : Machine) × (t : ℕ) × (Round.run_state_machine pool (cloud true true) (unwinding, 20) ≡ (
      ok false,
      (
        record (Round.note_start pool (cloud true true) 20 unwinding) {
          delete_state_machine = some e;
        },
        t,
      ),
    ))
run_state_machine-waits_example =
    run_state_machine-waits pool (cloud true true) unwinding 20 (machine false) (machine false) refl
      refl refl refl refl refl (λ q. raise-ne-ok not_found none (sym q))
      (λ id t. (machine false, refl))

abbrev deleter : Deleter
deleter = record {
  node = record (node_of "0001" deleting 10) { external_id = some "vm" };
  state_machine = machine false;
}

still_deleting : (Deleter.run_state_machine (cloud true false) (deleter, 20)).0 ≡ ok false
unfolding Deleter.run_state_machine new_node
still_deleting = refl

run_state_machine-spares_example :
    let k = (Deleter.run_state_machine (cloud true false) (deleter, 20)).1.0 in
    (k.node.state ≡ deleter.node.state) ⊎ (k.node.state ≡ some deleting)
run_state_machine-spares_example =
    run_state_machine-spares (cloud true false) (λ n s. refl) (λ n s. refl) deleter 20
      still_deleting

abbrev limits : Limits
limits = record {
  ignore_provider_quota = false;
  max_cores = some (fin (pos 8));
  max_servers = some (fin (pos 4));
  max_ram = none;
  max_volumes = none;
  max_volume_gb = some (fin (pos 100));
  max_resources = [];
}

abbrev two_cores : QuotaInformation
two_cores = from_resources (("cores", fin (pos 2)) ∷ [])

abbrev sixteen_cores : QuotaInformation
sixteen_cores = from_resources (("cores", fin (pos 16)) ∷ [])

abbrev manager : Manager ℕ
manager = record {
  quota_needed_by_label = λ l s. (ok two_cores, s);
  estimated_nodepool_quota = λ s. (ok sixteen_cores, s);
  estimated_nodepool_quota_used = λ s. (ok two_cores, s);
  estimated_pool_quota_used = λ s. (ok two_cores, s);
}

room : (has_remaining_quota limits manager "small" 0).0 ≡ ok true
unfolding has_remaining_quota from_resources
room = refl

has_remaining_quota-AllFit_example :
    AllFit two_cores (subtract sixteen_cores two_cores)
    × AllFit two_cores (subtract (pool_limits limits) two_cores)
has_remaining_quota-AllFit_example =
    has_remaining_quota-AllFit limits manager "small" two_cores sixteen_cores two_cores two_cores 0
      0 0 0 0 refl refl refl refl refl room

abbrev volumes : Manager ℕ
volumes = record manager {
  quota_needed_by_label = λ l s. (ok (volume_nodes 2 1 4 150), s);
  estimated_pool_quota_used = λ s. (ok (volume_nodes 0 0 0 0), s);
}

has_provider_quota-volumes_example :
    ((has_provider_quota (volume_pool 100) volumes ("small" ∷ []) 0).0 ≡ ok true)
    × ((has_remaining_quota (volume_pool 100) volumes "small" 0).0 ≡ ok (leb (150 + 0) 100))
has_provider_quota-volumes_example =
    has_provider_quota-volumes volumes "small" 2 1 4 150 0 0 0 0 100 0 0 0 refl refl
