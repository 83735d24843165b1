-- ===== src/Utils/Estimate.antt =====
-- The class QuotaSupport of driver/utils.py: the estimate of a provider's quota, which is
-- cached, and of what its nodes use.
use nodepool.Prelude.{
  ℕ, ◌+◌, ◌*◌, ◌<◌, String, false, not, Option, some, none, List, [], ◌∷◌, map, ◌≡◌, refl, ap, ◌∙◌,
  ltb, lt→ltb, elem, lookup, if◌then◌else◌, M, Result, ok, raise, type_error, other, pure, throw,
  ◌>>=◌, attempt, Bool-cases, inl, inr, OnOk,
}
use nodepool.Prelude.Amount.{fin, pos}
use nodepool.Zk.Values.{Value, table, truthy, is_str}
use nodepool.Zk.Node.{Node}
use nodepool.Driver.Quota.{QuotaInformation, quota_information, add, subtract, from_resources}

abbrev pub max_quota_age : ℕ
max_quota_age = 5 * 60

-- The timestamp and the cached quota; before the first estimate there is none.
pub record QuotaSupport : Type 0 where
  pub timestamp : ℕ
  pub current : Option QuotaInformation

-- What a provider implements, its name and its pools with their labels, and the nodes of ZooKeeper.
pub record Provider (S : Type 0) : Type 0 where
  pub time : S → ℕ
  pub name : String
  pub pools : List (String × List String)
  pub get_provider_limits : M S QuotaInformation
  pub unmanaged_quota_used : M S QuotaInformation
  pub quota_needed_by_label : (label pool : String) → M S QuotaInformation
  pub node_iterator : M S (List Node)

module _ {S : Type 0} (p : Provider S) where
  abbrev Run : Type 0
  Run = M (QuotaSupport × S) QuotaInformation

  -- invalidateQuotaCache
  unfoldable pub invalidate_quota_cache : M (QuotaSupport × S) (Unit {0})
  invalidate_quota_cache (c, s) = (ok tt, (record c { timestamp = 0 }, s))

  -- The limits less what is used by others, which is the new cached quota.
  renewed :
      QuotaSupport
      → QuotaInformation
      → Result QuotaInformation × S
      → Result QuotaInformation × (QuotaSupport × S)
  unfolding subtract
  renewed c limits (raise e, s) = (raise e, (c, s))
  renewed c limits (ok used, s) = (
    ok (subtract limits used),
    (record { timestamp = p.time s; current = some (subtract limits used) }, s),
  )

  -- Where the limits cannot be had, the cached quota serves.
  limited :
      QuotaSupport
      → Option QuotaInformation
      → Result QuotaInformation × S
      → Result QuotaInformation × (QuotaSupport × S)
  unfolding renewed
  limited c cached (ok limits, s) = renewed c limits (p.unmanaged_quota_used s)
  limited c none (raise e, s) = (raise e, (c, s))
  limited c (some q) (raise e, s) = (ok q, (c, s))

  estimate : Option QuotaInformation → Run
  unfolding limited
  estimate none (c, s) = limited c none (p.get_provider_limits s)
  estimate (some q) (c, s) =
      if ltb (p.time s) (c.timestamp + max_quota_age)
      then (ok q, (c, s))
      else limited c (some q) (p.get_provider_limits s)

  -- estimatedNodepoolQuota
  unfoldable pub estimated_nodepool_quota : Run
  unfolding estimate
  estimated_nodepool_quota (c, s) = estimate c.current (c, s)

  -- What a node uses: its resources, or what its label needs.
  node_quota : Node → (pool ntype : String) → M S QuotaInformation
  unfolding from_resources
  node_quota n pool ntype = resources n.resources
    where
      resources : Value → M S QuotaInformation
      resources (table xs) =
          if truthy n.resources
          then pure (from_resources (map (λ x. (x.0, fin (pos x.1))) xs))
          else p.quota_needed_by_label ntype pool
      resources v =
          if truthy n.resources then throw type_error else p.quota_needed_by_label ntype pool

  -- The part of the loop behind the test of the provider; none if the node is passed over.
  -- `self.provider.pools.get(node.pool)`, with the pool's name.
  provider_pool : Option String → Option (String × List String)
  unfolding lookup
  provider_pool none = none
  provider_pool (some name) = elim (lookup name p.pools) [
    | none ↦ none
    | some labels ↦ some (name, labels)
  ]

  consider_node : Option String → Node → M S (Option QuotaInformation)
  unfolding node_quota provider_pool
  consider_node pool n =
      if elim pool [ none ↦ false | some name ↦ not (is_str n.pool name) ]
      then pure none
      else elim (provider_pool n.pool) [
        | none ↦ pure none
        | some (name, labels) ↦ elim n.type [
          | [] ↦ throw other
          | ntype ∷ _ ↦
              if elem ntype labels
              then (node_quota n name ntype >>= λ q. pure (some q))
              else pure none
        ]
      ]

  abbrev plus_node : QuotaInformation → Result (Option QuotaInformation) → QuotaInformation
  unfolding add
  plus_node used (raise e) = used
  plus_node used (ok none) = used
  plus_node used (ok (some q)) = add used q

  sum_nodes : Option String → List Node → QuotaInformation → M S QuotaInformation
  unfolding consider_node plus_node
  sum_nodes pool [] used = pure used
  sum_nodes pool (n ∷ ns) used =
      if is_str n.provider p.name
      then (attempt (consider_node pool n) >>= λ q. sum_nodes pool ns (plus_node used q))
      else sum_nodes pool ns used

  -- estimatedNodepoolQuotaUsed
  unfoldable pub estimated_nodepool_quota_used : Option String → M S QuotaInformation
  unfolding sum_nodes quota_information
  estimated_nodepool_quota_used pool = do
    nodes ← p.node_iterator
    sum_nodes pool nodes (quota_information none none none (fin (pos 0)) [])

  -- An estimate that is returned is cached.
  abbrev Cached : Result QuotaInformation × (QuotaSupport × S) → Type 0
  Cached o = OnOk (λ q. o.1.0.current ≡ some q) o.0

  renewed-Cached :
      (c : QuotaSupport) (limits : QuotaInformation) (o : Result QuotaInformation × S)
      → Cached (renewed c limits o)
  unfolding renewed
  renewed-Cached c limits (raise e, s) = tt
  renewed-Cached c limits (ok used, s) = refl

  limited-Cached :
      (c : QuotaSupport) (cached : Option QuotaInformation) (o : Result QuotaInformation × S)
      → c.current ≡ cached
      → Cached (limited c cached o)
  unfolding limited
  limited-Cached c cached (ok limits, s) e = renewed-Cached c limits (p.unmanaged_quota_used s)
  limited-Cached c none (raise x, s) e = tt
  limited-Cached c (some q) (raise x, s) e = e

  estimate-Cached :
      (c : QuotaSupport) (s : S) (cached : Option QuotaInformation)
      → c.current ≡ cached
      → Cached (estimate cached (c, s))
  unfolding estimate
  estimate-Cached c s none e = limited-Cached c none (p.get_provider_limits s) e
  estimate-Cached c s (some q) e =
      elim (Bool-cases (ltb (p.time s) (c.timestamp + max_quota_age))) [
        | inl h ↦ rw h e
        | inr h ↦ rw h (limited-Cached c (some q) (p.get_provider_limits s) e)
      ]

  again :
      (c : QuotaSupport) (t : S) (q : QuotaInformation)
      → c.current ≡ some q
      → p.time t < c.timestamp + max_quota_age
      → estimated_nodepool_quota (c, t) ≡ (ok q, (c, t))
  unfolding estimated_nodepool_quota estimate
  again c t q e h = ap (λ o. estimate o (c, t)) e ∙ hit
    where
      hit : estimate (some q) (c, t) ≡ (ok q, (c, t))
      hit = rw (lt→ltb (p.time t) (c.timestamp + max_quota_age) h) refl

  -- Whatever the provider answers, an estimate that is returned is cached, and every further call
  -- within the age that is allowed by the timestamp returns it again, asks for nothing and changes
  -- nothing.
  pub estimated_nodepool_quota-again :
      (c : QuotaSupport) (s : S)
      → let (r, (d, t)) = estimated_nodepool_quota (c, s) in
        OnOk
          (λ q.
            (u : S)
            → p.time u < d.timestamp + max_quota_age
            → estimated_nodepool_quota (d, u) ≡ (ok q, (d, u)))
          r
  unfolding estimated_nodepool_quota
  estimated_nodepool_quota-again c s =
      go (estimated_nodepool_quota (c, s)).0 (estimate-Cached c s c.current refl)
    where
      d : QuotaSupport
      d = (estimated_nodepool_quota (c, s)).1.0

      go :
          (r : Result QuotaInformation)
          → OnOk (λ q. d.current ≡ some q) r
          → OnOk
              (λ q.
                (u : S)
                → p.time u < d.timestamp + max_quota_age
                → estimated_nodepool_quota (d, u) ≡ (ok q, (d, u)))
              r
      go (raise e) h = tt
      go (ok q) h = λ u in_time. again d u q h in_time
