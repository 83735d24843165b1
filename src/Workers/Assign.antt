-- ===== src/Workers/Assign.antt =====
-- Which requests a pool takes up: launcher.py, getPriority and the first part of the
-- loop of _assignHandlers.
pub mod Guards
pub mod Laws
use nodepool.Prelude.{
  ℕ, String, Bool, true, false, not, ◌&&◌, ◌||◌, Option, some, none, List, [], ◌∷◌, ltb, keep, any,
  all, elem, is_empty, if◌then◌else◌, ◌==◌, lookup,
}
use nodepool.Prelude.Amount.{Amount, fin, infinite, pos, is_positive}
use nodepool.Zk.States.{requested, is_state}
use nodepool.Zk.Values.{is_set, is_str}
use nodepool.Zk.Request.{NodeRequest}

-- A pool that is registered as online.
pub record LauncherPool : Type 0 where
  pub id : String
  pub supported_labels : List String
  pub provider_name : String
  pub priority : ℕ
  pub paused : Bool

-- What a PoolWorker knows of itself. `label_quota` is there for a provider with quota support.
pub record PoolWorker : Type 0 where
  pub launcher_id : String
  pub provider_name : String
  pub pool_labels : List String
  pub pool_priority : Option ℕ
  pub provider_priority : Option ℕ
  pub label_quota : Option (List (String × Amount))

-- getPriority
unfoldable pub get_priority : PoolWorker → ℕ
get_priority w = elim w.pool_priority [
  | some p ↦ p
  | none ↦ elim w.provider_priority [ some p ↦ p | none ↦ 100 ]
]

-- How the loop leaves a request, or that it goes on with it.
pub data Verdict : Type 0 where
  not_requested already_declined yielded_to_provider yielded_to_priority : Verdict
  labels_missing no_label_quota taken_up : Verdict

abbrev pub issuperset : List String → List String → Bool
issuperset xs ys = all (λ y. elem y xs) ys

-- A pool that has the labels and has not declined.
unfoldable pub is_candidate : NodeRequest → LauncherPool → Bool
is_candidate req x = issuperset x.supported_labels req.node_types && not (elem x.id req.declined_by)

-- A pool of the provider that the request asks for.
abbrev pub of_provider : NodeRequest → LauncherPool → Bool
of_provider req x = is_str req.provider x.provider_name

abbrev pub goes_first : ℕ → LauncherPool → Bool
goes_first priority x = ltb x.priority priority && not x.paused

-- `label_quota.get(l, math.inf) > 0`
abbrev has_label_quota : List (String × Amount) → String → Bool
has_label_quota quota l = elim (lookup l quota) [ none ↦ true | some v ↦ is_positive v ]

abbrev quota_allows : PoolWorker → NodeRequest → Bool
quota_allows w req = elim w.label_quota [
  | none ↦ true
  | some quota ↦ all (has_label_quota quota) req.node_types
]

unfoldable pub consider : PoolWorker → List LauncherPool → NodeRequest → Verdict
unfolding is_candidate get_priority lookup is_positive
consider w launcher_pools req =
    let candidates = keep (is_candidate req) launcher_pools in
    if not (is_state req.state requested)
    then not_requested
    else if elem w.launcher_id req.declined_by
    then already_declined
    else if is_set req.provider
        && not (is_str req.provider w.provider_name)
        && any (of_provider req) candidates
    then yielded_to_provider
    else if any (goes_first (get_priority w)) candidates
    then yielded_to_priority
    else if not (issuperset w.pool_labels req.node_types) && not (is_empty candidates)
    then labels_missing
    else if not (quota_allows w req)
    then no_label_quota
    else taken_up
