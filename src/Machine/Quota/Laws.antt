-- ===== src/Machine/Quota/Laws.antt =====
-- What the quota checks promise of a pool.
use nodepool.Prelude.{
  arith, ℕ, ◌+◌, leb, [], ◌∷◌, String, Bool, true, false, some, none, Result, ok, ◌≡◌, inl, inr,
  Bool-cases,
}
use nodepool.Prelude.Amount.{Amount, fin, pos, Fits}
use nodepool.Driver.Quota.{QuotaInformation, quota_information, subtract, non_negative}
use nodepool.Driver.Quota.Laws.{amount, start, subtract-Fits}
use nodepool.Machine.Quota.{
  Limits, Manager, pool_limits, has_provider_quota, provider_has_left, pool_has_left,
  has_remaining_quota,
}

-- What `needed` counts of every resource that either names fits into what `limits` leaves of it.
abbrev pub AllFit : QuotaInformation → QuotaInformation → Type 0
AllFit needed limits =
    (c r : String) (v : Amount) → start c r limits needed ≡ some v → Fits (amount c r needed) v

fits : (q needed : QuotaInformation) → non_negative (subtract q needed) ≡ true → AllFit needed q
fits q needed e c r v a = subtract-Fits q needed c r e a

ok-true : {b : Bool} → ok b ≡ ok true → b ≡ true
ok-true e = cc

module _ {S : Type 0} (l : Limits) (m : Manager S) where
  -- If a pool that respects the provider's quota has room for one more node of a label by
  -- hasRemainingQuota, then what the label needs fits into what is left of the provider's quota, and
  -- into what is left of the pool's limits, for every resource.
  pub has_remaining_quota-AllFit :
      (ntype : String) (needed cloud used pool_used : QuotaInformation) (s t u w x : S)
      → l.ignore_provider_quota ≡ false
      → m.quota_needed_by_label ntype s ≡ (ok needed, t)
      → m.estimated_nodepool_quota t ≡ (ok cloud, u)
      → m.estimated_nodepool_quota_used u ≡ (ok used, w)
      → m.estimated_pool_quota_used w ≡ (ok pool_used, x)
      → (has_remaining_quota l m ntype s).0 ≡ ok true
      → AllFit needed (subtract cloud used) × AllFit needed (subtract (pool_limits l) pool_used)
  unfolding has_remaining_quota provider_has_left pool_has_left
  has_remaining_quota-AllFit ntype needed cloud used pool_used s t u w x strict a b c d room =
      elim (Bool-cases (non_negative (subtract (subtract cloud used) needed))) [
        | inl e ↦
            let enough : Result Bool = ok true in
            (
              fits (subtract cloud used) needed e,
              fits (subtract (pool_limits l) pool_used) needed
                  (ok-true (simp (strict, a, b, c, e, d) at room)),
            )
        | inr e ↦ absurd (refused (simp (strict, a, b, c, e) at room))
      ]
    where
      refused : ¬ (ok false ≡ ok true)
      refused p = cc

-- What nodes need or use that take up this much of each resource.
abbrev pub volume_nodes : (cores instances ram volume_gb : ℕ) → QuotaInformation
unfolding quota_information
volume_nodes cores instances ram volume_gb =
    quota_information (some (fin (pos cores))) (some (fin (pos instances))) (some (fin (pos ram)))
      (fin (pos 0)) (("volume-gb", fin (pos volume_gb)) ∷ [])

-- A pool whose one limit is on the size of its volumes.
abbrev pub volume_pool : ℕ → Limits
volume_pool x = record {
  ignore_provider_quota = true;
  max_cores = none;
  max_servers = none;
  max_ram = none;
  max_volumes = none;
  max_volume_gb = some (fin (pos x));
  max_resources = [];
}

-- For a pool whose one limit is max_volume_gb, and a label whose nodes need volume-gb: hasProviderQuota
-- has room for a node of it however much it needs, while hasRemainingQuota has room exactly where what
-- is needed and what is used are not more than the limit.
pub has_provider_quota-volumes :
    {S : Type 0} (m : Manager S) (ntype : String) (c i r v d j q y x : ℕ) (s t u : S)
    → m.quota_needed_by_label ntype s ≡ (ok (volume_nodes c i r v), t)
    → m.estimated_pool_quota_used t ≡ (ok (volume_nodes d j q y), u)
    → ((has_provider_quota (volume_pool x) m (ntype ∷ []) s).0 ≡ ok true)
      × ((has_remaining_quota (volume_pool x) m ntype s).0 ≡ ok (leb (v + y) x))
unfolding has_provider_quota has_remaining_quota
has_provider_quota-volumes m ntype c i r v d j q y x s t u a b =
    (rw a (ground arith), rw (a, b) (ground arith))
