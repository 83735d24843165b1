-- ===== src/Workers/Assign/Laws.antt =====
-- How the pools that are online share the requests.
use nodepool.Prelude.{
  String, Bool, true, false, not, ◌&&◌, Option, some, none, List, keep, any, elem, All,
  if◌then◌else◌, lookup, ◌≤◌, ◌↔◌, ◌⊎◌, ◌≡◌, ◌≢◌, refl, inl, inr, Bool-cases, arith,
}
use nodepool.Prelude.Amount.{Amount, is_positive}
use nodepool.Zk.States.{requested, is_state}
use nodepool.Zk.Values.{is_set, is_str}
use nodepool.Zk.Request.{NodeRequest}
use nodepool.Workers.Assign.{
  LauncherPool, PoolWorker, get_priority, Verdict, not_requested, already_declined,
  yielded_to_provider, yielded_to_priority, labels_missing, no_label_quota, taken_up, issuperset,
  is_candidate, of_provider, goes_first, has_label_quota, quota_allows, consider,
}
use nodepool.Workers.Assign.Guards.{
  all-All, All-all, All-map, Guards, Gives, Guards-All, All-Guards,
}

-- The pool has the labels of the request, and has not declined it.
abbrev pub CanServe : NodeRequest → LauncherPool → Type 0
CanServe req x =
    All (λ l. elem l x.supported_labels ≡ true) req.node_types × (elem x.id req.declined_by ≡ false)

-- It leaves the request to the worker's pool: that has the labels, too, this one's priority number is
-- not lower unless it is paused, and a request for another provider is not for this one's.
abbrev pub LeavesTo : PoolWorker → NodeRequest → LauncherPool → Type 0
LeavesTo w req x =
    All (λ l. elem l w.pool_labels ≡ true) req.node_types
    × ((get_priority w ≤ x.priority) ⊎ (x.paused ≡ true))
    × (is_set req.provider ≡ true
        → is_str req.provider w.provider_name ≡ false
        → is_str req.provider x.provider_name ≡ false)

-- The label quota, where there is one, is positive for each label of the request that it has.
abbrev pub QuotaAllows : Option (List (String × Amount)) → List String → Type 0
QuotaAllows none types = Unit
QuotaAllows (some quota) types =
    All (λ l. (v : Amount) → lookup l quota ≡ some v → is_positive v ≡ true) types

abbrev pub TakesUp : PoolWorker → List LauncherPool → NodeRequest → Type 0
TakesUp w pools req =
    (is_state req.state requested ≡ true)
    × (elem w.launcher_id req.declined_by ≡ false)
    × All (λ x. CanServe req x → LeavesTo w req x) pools
    × QuotaAllows w.label_quota req.node_types

module _ (w : PoolWorker) (req : NodeRequest) where
  abbrev sets_other : Bool
  sets_other = is_set req.provider && not (is_str req.provider w.provider_name)

  abbrev WorkerGuards : List LauncherPool → Type 0
  WorkerGuards =
      Guards sets_other (issuperset w.pool_labels req.node_types) (of_provider req)
        (goes_first (get_priority w)) (is_candidate req)

  abbrev WorkerGives : LauncherPool → Type 0
  WorkerGives =
      Gives sets_other (issuperset w.pool_labels req.node_types) (of_provider req)
        (goes_first (get_priority w)) (is_candidate req)

  is_candidate-CanServe : (x : LauncherPool) → is_candidate req x ≡ true → CanServe req x
  unfolding is_candidate
  is_candidate-CanServe x e = (all-All _ req.node_types (ground (arith, e)), ground (arith, e))

  CanServe-is_candidate : (x : LauncherPool) → CanServe req x → is_candidate req x ≡ true
  unfolding is_candidate
  CanServe-is_candidate x (labels, declined) =
      ground (arith, All-all (λ l. elem l x.supported_labels) req.node_types labels, declined)

  Gives-LeavesTo : (x : LauncherPool) → WorkerGives x → LeavesTo w req x
  Gives-LeavesTo x (labels, first, provider) = (
    all-All _ req.node_types labels,
    elim (Bool-cases x.paused) [ inl e ↦ inr e | inr e ↦ inl (ground (arith, first, e)) ],
    λ a b. ground (arith, provider, a, b),
  )

  LeavesTo-Gives : (x : LauncherPool) → LeavesTo w req x → WorkerGives x
  LeavesTo-Gives x (labels, first, provider) = (
    All-all (λ l. elem l w.pool_labels) req.node_types labels,
    elim first [ inl e ↦ ground (arith, e) | inr e ↦ ground (arith, e) ],
    elim (Bool-cases sets_other) [
      | inl e ↦ ground (arith, e, provider (ground (arith, e)) (ground (arith, e)))
      | inr e ↦ ground (arith, e)
    ],
  )

positive-or_none :
    (o : Option Amount)
    → ((v : Amount) → o ≡ some v → is_positive v ≡ true)
      ↔ (elim o [ none ↦ true | some v ↦ is_positive v ] ≡ true)
positive-or_none none = (λ h. refl, λ e v n. cc)
positive-or_none (some w) = (λ h. h w refl, λ e v n. cc)

allows-quota_allows :
    (w : PoolWorker) (req : NodeRequest) (quota : Option (List (String × Amount)))
    → QuotaAllows quota req.node_types
      ↔ (quota_allows (record w { label_quota = quota }) req ≡ true)
allows-quota_allows w req none = (λ h. refl, λ e. tt)
allows-quota_allows w req (some quota) = (
  λ h.
      All-all (has_label_quota quota) req.node_types
        (All-map _ _ req.node_types (λ l. (positive-or_none (lookup l quota)).0) h),
  λ e.
      All-map _ _ req.node_types (λ l. (positive-or_none (lookup l quota)).1)
        (all-All (has_label_quota quota) req.node_types e),
)

peel :
    (b : Bool) (x y : Verdict)
    → x ≢ taken_up
    → (if b then x else y) ≡ taken_up
    → (b ≡ false) × (y ≡ taken_up)
peel true x y other e = absurd (other e)
peel false x y other e = (refl, e)

-- The guards of the loop, all passed.
record Passed (w : PoolWorker) (pools : List LauncherPool) (req : NodeRequest) : Type 0 where
  state : is_state req.state requested ≡ true
  declined : elem w.launcher_id req.declined_by ≡ false
  guards : WorkerGuards w req pools
  quota : quota_allows w req ≡ true

taken_up-Passed :
    (w : PoolWorker) (pools : List LauncherPool) (req : NodeRequest)
    → consider w pools req ≡ taken_up
    → Passed w pools req
unfolding consider
taken_up-Passed w pools req e =
    let (a, e1) = peel (not (is_state req.state requested)) not_requested _ (λ h. cc) e in
    let (b, e2) = peel _ already_declined _ (λ h. cc) e1 in
    let (c, e3) =
      peel (sets_other w req && any (of_provider req) (keep (is_candidate req) pools))
        yielded_to_provider _ (λ h. cc) e2 in
    let (d, e4) = peel _ yielded_to_priority _ (λ h. cc) e3 in
    let (f, e5) = peel _ labels_missing _ (λ h. cc) e4 in
    let (g, e6) = peel (not (quota_allows w req)) no_label_quota taken_up (λ h. cc) e5 in
    record {
      state = ground (arith, a);
      declined = b;
      guards = record { provider = ground (arith, c); priority = d; labels = f };
      quota = ground (arith, g);
    }

Passed-taken_up :
    (w : PoolWorker) (pools : List LauncherPool) (req : NodeRequest)
    → Passed w pools req
    → consider w pools req ≡ taken_up
unfolding consider
Passed-taken_up w pools req p =
    let provider : is_set req.provider
          && not (is_str req.provider w.provider_name)
          && any (of_provider req) (keep (is_candidate req) pools)
        ≡ false =
      ground (arith, p.guards.provider) in
    rw (p.state, p.declined, provider, p.guards.priority, p.guards.labels, p.quota) refl

-- A pool takes up a request exactly if the request is requested and not declined by it; each pool that
-- is online, has the labels and has not declined leaves the request to this one, that is, this one has
-- the labels, too, the other's priority number is not lower or it is paused, and it is not of the
-- provider that the request asks for where this one is not; and the label quota, where the provider has
-- one, is positive for each label of the request that it lists.
pub consider-TakesUp :
    (w : PoolWorker) (pools : List LauncherPool) (req : NodeRequest)
    → (consider w pools req ≡ taken_up) ↔ TakesUp w pools req
consider-TakesUp w pools req = (
  λ e.
      let p = taken_up-Passed w pools req e in
      (
        p.state,
        p.declined,
        All-map _ _ pools
            (λ x gives can. Gives-LeavesTo w req x (gives (CanServe-is_candidate w req x can)))
            (Guards-All _ _ _ _ _ pools p.guards),
        (allows-quota_allows w req w.label_quota).1 p.quota,
      ),
  λ (state, declined, leaves, quota). Passed-taken_up w pools req (record {
    state = state;
    declined = declined;
    guards = All-Guards _ _ _ _ _ pools (
        All-map _ _ pools
          (λ x leave hit. LeavesTo-Gives w req x (leave (is_candidate-CanServe w req x hit)))
          leaves);
    quota = (allows-quota_allows w req w.label_quota).0 quota;
  }),
)
