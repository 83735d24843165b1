-- ===== src/Workers/Tenants.antt =====
-- The quota of a tenant: _hasTenantQuota and _getUsedQuotaForTenant of the class PoolWorker of
-- launcher.py.
use nodepool.Prelude.{
  String, Bool, true, not, ◌&&◌, ◌||◌, some, none, List, [], ◌∷◌, elem, keep, map, lookup,
  if◌then◌else◌, M, Result, Exception, ok, raise, key_error, type_error, pure, ◌>>=◌, ◌==◌, ◌≡◌,
  refl,
}
use nodepool.Prelude.Amount.{Amount, fin, infinite, pos, Fits}
use nodepool.Zk.Values.{Value, table, truthy, is_str}
use nodepool.Zk.Node.{Node}
use nodepool.Zk.Request.{NodeRequest}
use nodepool.Driver.Quota.{QuotaInformation, quota_information, add, subtract, non_negative}
use nodepool.Driver.Quota.Laws.{amount, start, subtract-Fits}

-- What the worker calls for it, the labels of its pool, and the limits of the configuration.
pub record Tenancy (S : Type 0) : Type 0 where
  pub pool_labels : List String
  pub tenant_resource_limits : List (String × List (String × Amount))
  pub quota_needed_by_label : String → M S QuotaInformation
  pub node_iterator : M S (List Node)

abbrev is_further : String × Amount → Bool
is_further (r, v) = not (r == "cores" || r == "instances" || r == "ram")

-- `QuotaInformation(default=default, **limits)`
unfoldable pub from_limits : (default : Amount) → List (String × Amount) → QuotaInformation
unfolding quota_information lookup
from_limits default limits =
    quota_information (lookup "cores" limits) (lookup "instances" limits) (lookup "ram" limits)
      default (keep is_further limits)

abbrev pub nothing_used : QuotaInformation
unfolding quota_information
nothing_used = quota_information none none none (fin (pos 0)) []

module _ {S : Type 0} (c : Tenancy S) where
  -- What the node types of a request need, where the pool has their labels.
  unfoldable pub needed_quota : List String → QuotaInformation → M S QuotaInformation
  unfolding add
  needed_quota [] q = pure q
  needed_quota (t ∷ types) q =
      if elem t c.pool_labels
      then (c.quota_needed_by_label t >>= λ n. needed_quota types (add q n))
      else needed_quota types q

  abbrev node_resources : Value → Result QuotaInformation
  node_resources (table xs) = ok (from_limits (fin (pos 0)) (map (λ x. (x.0, fin (pos x.1))) xs))
  node_resources v = raise type_error

  abbrev is_used : String → Node → Bool
  is_used tenant n = truthy n.resources && is_str n.tenant_name tenant

  -- The loop of _getUsedQuotaForTenant.
  unfoldable pub sum_used : String → List Node → QuotaInformation → Result QuotaInformation
  unfolding add from_limits
  sum_used tenant [] q = ok q
  sum_used tenant (n ∷ ns) q =
      if is_used tenant n
      then elim (node_resources n.resources) [
        | raise e ↦ raise e
        | ok r ↦ sum_used tenant ns (add q r)
      ]
      else sum_used tenant ns q

  unfoldable pub used_quota_for_tenant : String → M S QuotaInformation
  unfolding sum_used
  used_quota_for_tenant tenant =
      c.node_iterator >>= λ nodes s. (sum_used tenant nodes nothing_used, s)

  abbrev pub limits_of : String → Result QuotaInformation
  unfolding lookup from_limits
  limits_of tenant = elim (lookup tenant c.tenant_resource_limits) [
    | none ↦ raise key_error
    | some limits ↦ ok (from_limits infinite limits)
  ]

  -- The last lines: what is left of the limits behind both subtractions.
  unfoldable pub allows : Result QuotaInformation → (used needed : QuotaInformation) → Result Bool
  unfolding subtract non_negative
  allows (raise e) used needed = raise e
  allows (ok limits) used needed = ok (non_negative (subtract (subtract limits used) needed))

  -- _hasTenantQuota, for the tenant of the request.
  unfoldable pub has_tenant_quota : NodeRequest → (tenant : String) → M S Bool
  unfolding needed_quota used_quota_for_tenant allows
  has_tenant_quota req tenant = needed_quota req.node_types nothing_used >>= λ needed.
      used_quota_for_tenant tenant >>= λ used s. (allows (limits_of tenant) used needed, s)

  -- That the request is let through says this of the tenant's limits.
  abbrev pub Room : String → List String → S → Type 0
  Room tenant types s =
      (limits : QuotaInformation) × (needed : QuotaInformation) × (used : QuotaInformation)
      × (limits_of tenant ≡ ok limits)
      × ((needed_quota types nothing_used s).0 ≡ ok needed)
      × ((used_quota_for_tenant tenant (needed_quota types nothing_used s).1).0 ≡ ok used)
      × ((category resource : String) (left : Amount)
          → start category resource (subtract limits used) needed ≡ some left
          → Fits (amount category resource needed) left)

  -- If a request is let through by the quota of its tenant, then what the pool needs for it fits into
  -- what the nodes of the tenant leave of the tenant's limits, for every resource.
  pub has_tenant_quota-Room :
      (req : NodeRequest) (tenant : String) (s : S)
      → (has_tenant_quota req tenant s).0 ≡ ok true
      → Room tenant req.node_types s
  unfolding has_tenant_quota allows
  has_tenant_quota-Room req tenant s h =
      on_needed (needed_quota req.node_types nothing_used s).0 refl
    where
      after : S
      after = (needed_quota req.node_types nothing_used s).1

      raise-ne : {e : Exception} {b : Bool} → ¬ (raise e ≡ ok b)
      raise-ne q = cc

      on_limits :
          (needed used : QuotaInformation) (r : Result QuotaInformation)
          → (needed_quota req.node_types nothing_used s).0 ≡ ok needed
          → (used_quota_for_tenant tenant after).0 ≡ ok used
          → limits_of tenant ≡ r
          → allows r used needed ≡ ok true
          → Room tenant req.node_types s
      on_limits needed used (raise e) n u l a = absurd (raise-ne a)
      on_limits needed used (ok limits) n u l a = (
        limits,
        needed,
        used,
        l,
        n,
        u,
        λ category resource left at.
            subtract-Fits (subtract limits used) needed category resource (is_ok a) at,
      )
        where
          is_ok : {b : Bool} → ok b ≡ ok true → b ≡ true
          is_ok q = cc

      on_used :
          (needed : QuotaInformation) (r : Result QuotaInformation)
          → (needed_quota req.node_types nothing_used s).0 ≡ ok needed
          → (used_quota_for_tenant tenant after).0 ≡ r
          → Room tenant req.node_types s
      on_used needed (raise e) n u = absurd (raise-ne (rw (n, ◌>>=◌, u) at h))
      on_used needed (ok used) n u =
          on_limits needed used (limits_of tenant) n u refl (rw (n, ◌>>=◌, u) at h)

      on_needed :
          (r : Result QuotaInformation)
          → (needed_quota req.node_types nothing_used s).0 ≡ r
          → Room tenant req.node_types s
      on_needed (raise e) n = absurd (raise-ne (rw (n, ◌>>=◌) at h))
      on_needed (ok needed) n = on_used needed (used_quota_for_tenant tenant after).0 n refl
