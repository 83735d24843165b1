-- ===== src/Samples/Helpers.antt =====
-- The theorems on the helpers of the drivers, at concrete clocks, providers and files.
use nodepool.Prelude.{
  ℕ, ◌+◌, ◌≤◌, ◌<◌, true, false, some, none, [], ◌∷◌, ◌≡◌, refl, M, ok, raise, quota, other, OnOk,
  All, arith, if◌then◌else◌, ltb,
}
use nodepool.Prelude.Amount.{fin, pos}
use nodepool.Zk.States.{building, aborted}
use nodepool.Driver.Quota.{quota_information}
use nodepool.Utils.Rate.{Clock, RateLimiter, enter, enter-delta}
use nodepool.Utils.Ttl.{TtlCache, Backend, call, Fresh, call-Fresh}
use nodepool.Utils.Upload.{segments, joined, Fits, segments-joined, retry, retry-Bounded}
use nodepool.Utils.Estimate.{
  QuotaSupport, Provider, max_quota_age, estimated_nodepool_quota, estimated_nodepool_quota-again,
}
use nodepool.Utils.Threads.{Services, run_launcher, run_launcher-expected}
use nodepool.Samples.Znodes.{node_of}

-- A clock that stands still but for sleeps, and these take one tick longer.
abbrev clock : Clock ℕ
clock = record {
  monotonic = λ s. (s, s);
  sleep = λ d s. s + d + 1;
  now = λ s. s;
  reads = λ s. omega arith;
  goes_on = λ s. omega arith;
  sleeps = λ d s. omega arith;
}

abbrev limiter : RateLimiter
limiter = record { delta = 10; last_ts = some 5 }

enter-delta_example :
    (total : ℕ) × (ts : ℕ) × (t : ℕ) × (enter clock 2 limiter 8
      ≡ some (total, (record limiter { last_ts = some ts }, t)))
    × (15 ≤ ts)
    × (total ≤ 10)
enter-delta_example = enter-delta clock 0 limiter 8 5 refl (omega arith)

-- A method that returns the time, and an executor that is not through.
abbrev backend : Backend ℕ ℕ
backend = record {
  monotonic = λ s. s;
  poll = λ s. (ok none, s);
  submit = λ s. (ok tt, s);
  func = λ s. (ok s, s + 1);
}

abbrev old_value : TtlCache ℕ
old_value = record { pending = false; last_time = some 1; last_value = some 1 }

call-Fresh_example :
    Fresh 10 backend 100 (call 10 backend (old_value, 100)).0 (call 10 backend (old_value, 100)).1
call-Fresh_example = call-Fresh 10 backend old_value 100

segments-joined_example :
    (joined (segments 2 5 (1 ∷ 2 ∷ 3 ∷ 4 ∷ 5 ∷ [])) ≡ 1 ∷ 2 ∷ 3 ∷ 4 ∷ 5 ∷ [])
    × All (Fits 2) (segments 2 5 (1 ∷ 2 ∷ 3 ∷ 4 ∷ 5 ∷ []))
segments-joined_example = segments-joined 2 (1 ∷ 2 ∷ 3 ∷ 4 ∷ 5 ∷ []) (omega arith)

-- A function that works at its third call.
abbrev flaky : M ℕ ℕ
flaky s = if ltb s 2 then (raise other, s + 1) else (ok s, s + 1)

flaky_one : (s : ℕ) → (flaky s).1 ≤ s + 1
flaky_one s = ground arith

retry-Bounded_example :
    ((retry (λ e. true) (λ d s. s) flaky 0).1 ≤ 3)
    × OnOk (λ v. (a : ℕ) × (v ≡ some a)) (retry (λ e. true) (λ d s. s) flaky 0).0
retry-Bounded_example =
    retry-Bounded (λ e. true) (λ d s. s) flaky (λ s. s) 0 flaky_one (λ d s. refl)

-- The state is the time.
abbrev provider : Provider ℕ
provider = record {
  time = λ s. s;
  name = "cloud";
  pools = ("main", "small" ∷ []) ∷ [];
  get_provider_limits =
      λ s. (ok (quota_information (some (fin (pos 8))) none none (fin (pos 0)) []), s + 1);
  unmanaged_quota_used =
      λ s. (ok (quota_information (some (fin (pos 1))) none none (fin (pos 0)) []), s + 1);
  quota_needed_by_label = λ l p s. (raise other, s);
  node_iterator = λ s. (ok [], s);
}

abbrev no_estimate : QuotaSupport
no_estimate = record { timestamp = 0; current = none }

estimated_nodepool_quota-again_example :
    let (r, (d, t)) = estimated_nodepool_quota provider (no_estimate, 1000) in
    OnOk
      (λ q.
        (u : ℕ)
        → u < d.timestamp + max_quota_age
        → estimated_nodepool_quota provider (d, u) ≡ (ok q, (d, u)))
      r
estimated_nodepool_quota-again_example = estimated_nodepool_quota-again provider no_estimate 1000

abbrev services : Services ℕ
services = record {
  time = λ s. s;
  store_node = λ t. (ok tt, t);
  unlock_node = λ t. (ok tt, t);
  delete_node = λ t. (ok tt, t);
  cleanup_node = λ id s. (ok tt, s);
  wait_for_node_cleanup = λ id s. (ok tt, s);
  node_deleted_notification = λ n s. (ok tt, s);
}

run_launcher-expected_example :
    (run_launcher services (λ t. (raise quota, t)) (node_of "0001" building 10, 1000)).1.0.state
    ≡ some aborted
run_launcher-expected_example =
    run_launcher-expected services (λ n s. refl) (λ t. (raise quota, t))
      (node_of "0001" building 10) 1000 quota refl
