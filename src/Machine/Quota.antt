-- ===== src/Machine/Quota.antt =====
-- The quota checks and the state of the class StateMachineHandler of driver/statemachine.py.
pub mod Laws
use nodepool.Prelude.{
  ℕ, suc, String, Bool, true, false, not, ◌&&◌, ◌||◌, Option, some, none, List, [], ◌∷◌, ◌++◌, M,
  Result, ok, raise, Exception, pure, ◌>>=◌, ◌>>◌, all, keep, length, if◌then◌else◌, insert, lookup,
}
use nodepool.Prelude.Amount.{Amount, fin, infinite, pos}
use nodepool.Zk.Values.{is_set}
use nodepool.Zk.Node.{Node}
use nodepool.Driver.Quota.{
  Resources, QuotaInformation, quota_information, add, subtract, non_negative,
}

-- The limits of a pool; a limit that is missing, or 0 for the volumes, is none.
pub record Limits : Type 0 where
  pub ignore_provider_quota : Bool
  pub max_cores : Option Amount
  pub max_servers : Option Amount
  pub max_ram : Option Amount
  pub max_volumes : Option Amount
  pub max_volume_gb : Option Amount
  pub max_resources : Resources

-- What the manager answers.
pub record Manager (S : Type 0) : Type 0 where
  pub quota_needed_by_label : String → M S QuotaInformation
  pub estimated_nodepool_quota : M S QuotaInformation
  pub estimated_nodepool_quota_used : M S QuotaInformation
  pub estimated_pool_quota_used : M S QuotaInformation

abbrev nothing : QuotaInformation
unfolding quota_information
nothing = quota_information none none none (fin (pos 0)) []

-- `args[name] = limit` under its `if`.
abbrev optional : String → Option Amount → Resources
optional name none = []
optional name (some limit) = (name, limit) ∷ []

-- The pool's limits in hasProviderQuota. `args.update(max_resources)` may also replace the three fixed
-- limits.
unfoldable pub request_limits : Limits → QuotaInformation
unfolding quota_information
request_limits l =
    quota_information l.max_cores l.max_servers l.max_ram infinite
      (optional "volumes" l.max_volumes ++ optional "volume_gb" l.max_volume_gb ++ l.max_resources)

-- The pool's limits in hasRemainingQuota.
unfoldable pub pool_limits : Limits → QuotaInformation
unfolding quota_information
pool_limits l =
    quota_information l.max_cores l.max_servers l.max_ram infinite
      (optional "volumes" l.max_volumes ++ optional "volume-gb" l.max_volume_gb ++ l.max_resources)

module _ {S : Type 0} (l : Limits) (m : Manager S) where
  sum_needed : List String → QuotaInformation → M S QuotaInformation
  unfolding add
  sum_needed [] needed = pure needed
  sum_needed (t ∷ ts) needed = m.quota_needed_by_label t >>= λ q. sum_needed ts (add needed q)

  -- The provider's part of hasProviderQuota.
  provider_has : QuotaInformation → M S Bool
  unfolding subtract non_negative
  provider_has needed = do
    cloud_quota ← m.estimated_nodepool_quota
    pure (non_negative (subtract cloud_quota needed))

  -- hasProviderQuota
  unfoldable pub has_provider_quota : List String → M S Bool
  unfolding sum_needed provider_has request_limits subtract non_negative nothing
  has_provider_quota node_types = do
    needed ← sum_needed node_types nothing
    fits ← if l.ignore_provider_quota then pure true else provider_has needed
    pure (fits && non_negative (subtract (request_limits l) needed))

  -- The provider's part of hasRemainingQuota.
  provider_has_left : QuotaInformation → M S Bool
  unfolding subtract non_negative
  provider_has_left needed = do
    cloud_quota ← m.estimated_nodepool_quota
    used ← m.estimated_nodepool_quota_used
    pure (non_negative (subtract (subtract cloud_quota used) needed))

  pool_has_left : QuotaInformation → M S Bool
  unfolding pool_limits subtract non_negative
  pool_has_left needed = do
    used ← m.estimated_pool_quota_used
    pure (non_negative (subtract (subtract (pool_limits l) used) needed))

  -- hasRemainingQuota
  unfoldable pub has_remaining_quota : String → M S Bool
  unfolding provider_has_left pool_has_left
  has_remaining_quota ntype = do
    needed ← m.quota_needed_by_label ntype
    fits ← if l.ignore_provider_quota then pure true else provider_has_left needed
    if fits then pool_has_left needed else pure false
