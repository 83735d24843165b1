-- ===== src/Machine/Launcher/Round/Outcome.antt =====
-- How a round of a launch ends, for every behaviour of the cloud and of ZooKeeper.
use nodepool.Prelude.{
  ℕ, suc, ◌≤◌, Bool, true, false, not, some, none, Result, ok, raise, Exception, session_expired,
  quota, keyscan, zk_lock, timeout, lock_timeout, no_node, type_error, key_error, unbound_local,
  not_found, other, on_right, ◌≡◌, refl, sym, ap, ◌∙◌, arith, leb, eqb, raise-ne-ok,
}
use nodepool.Zk.States.{building, failed, aborted, is_state}
use nodepool.Zk.Node.{Node}
use nodepool.Zk.Node
use nodepool.Machine.{Cloud}
use nodepool.Driver.Handler.Rules.{Ends, bind_rule, if_rule}
use nodepool.Machine.Launcher.{
  Launcher, Pool, running, change, on_node, set_state, launch, start_state_machine,
}
use nodepool.Machine.Launcher.Kept.{Even, set_state-Keeps, start_state_machine-Keeps}
use nodepool.Machine.Launcher.Round.{
  Flow, return_true, return_none, at_end, complete, try_block, at_the_end, lost_session, no_quota,
  keep_external_id, notify, relaunch, attempt_failed, handle, run_state_machine, machine_id,
}
use nodepool.Machine.Launcher.Round.Tried.{Ready, KeepsState, try_block-Tried}

module _ {S : Type 0} (p : Pool S) (v : Cloud S) where
  keep_external_id-Even :
      (n : ℕ) (l : Launcher) (s : S) → l.attempts ≡ n → Ends (Even n) (keep_external_id p v (l, s))
  unfolding keep_external_id
  keep_external_id-Even n l s h = record { even = ground arith }

  notify-Even :
      (e : Exception) (n : ℕ) (l : Launcher) (s : S)
      → l.attempts ≡ n
      → Ends (Even n) (notify p v e (l, s))
  notify-Even e n l s h = elim e as (λ x. Ends (Even n) (notify p v x (l, s))) [
    | keyscan ↦ record { even = h }
    | _ ↦ record { even = h }
  ]

  launch-Even :
      (n : ℕ) (l : Launcher) (s : S) → l.attempts ≡ n → Ends (Even (suc n)) (launch p v (l, s))
  unfolding launch
  launch-Even n l s h =
      if_rule (Even (suc n)) (eqb (suc l.attempts) 1)
        (change p v (λ k. record k { start_future = running })) (start_state_machine p v)
        (record l { attempts = suc l.attempts }, s) (λ yes. record { even = ap suc h })
        (λ no'.
          start_state_machine-Keeps p v (suc n) (record l { attempts = suc l.attempts }) s
            (ap suc h))

  -- A round ends within the allowed attempts, and with True only for a complete node.
  record Ran (r : Result Bool) (t : Launcher × S) : Type 0 where
    bound : t.0.attempts ≤ p.launch_retries
    truly : r ≡ ok true → complete t.0 ≡ true

  unfinished : ¬ (ok false ≡ ok true)
  unfinished e = cc

  ok-injective : {b : Bool} → ok b ≡ ok true → b ≡ true
  ok-injective e = cc

  not-true : (b : Bool) → not b ≡ true → b ≡ false
  not-true true e = sym e
  not-true false e = refl

  machine_id-attempts : (l : Launcher) → (machine_id p v l).attempts ≡ l.attempts
  machine_id-attempts l = ground arith

  raised : (e : Exception) (t : Launcher × S) → t.0.attempts ≤ p.launch_retries → Ran (raise e) t
  raised e t small = record { bound = small; truly = λ q. absurd (raise-ne-ok e true q) }

  relaunch-Ran :
      (n : ℕ) (l : Launcher) (s : S)
      → l.attempts ≡ n
      → suc n ≤ p.launch_retries
      → Ends Ran (relaunch p v (l, s))
  unfolding relaunch
  relaunch-Ran n l s h less =
      bind_rule (Even n) Ran (on_right (v.get_delete_state_machine l.node.external_id)) _ (l, s)
        (record { even = h }) (λ x t k. raised x t (omega (arith, k.even, less)))
        (λ m t k.
          bind_rule (Even (suc n)) Ran (launch p v) _
            (record (t.0) { delete_state_machine = some m }, t.1)
            (launch-Even n (record (t.0) { delete_state_machine = some m }) t.1 k.even)
            (λ x u j. raised x u (omega (arith, j.even, less)))
            (λ a u j. record {
              bound = omega (arith, j.even, less);
              truly = λ e. absurd (unfinished e);
            }))

  attempt_failed-Ran :
      (e : Exception) (n : ℕ) (l : Launcher) (s : S)
      → l.attempts ≡ n
      → n ≤ p.launch_retries
      → Ends Ran (attempt_failed p v e (l, s))
  unfolding attempt_failed Node.set_state Node.is_node_state
  attempt_failed-Ran e n l s h small =
      bind_rule (Even n) Ran (keep_external_id p v) _ (l, s) (keep_external_id-Even n l s h)
        (λ x t k. raised x t (omega (arith, k.even, small)))
        (λ a t k.
          bind_rule (Even n) Ran (notify p v e) _ t (notify-Even e n t.0 t.1 k.even)
            (λ x u j. raised x u (omega (arith, j.even, small)))
            (λ b u j.
              if_rule Ran (leb p.launch_retries u.0.attempts) _ (relaunch p v)
                (record (u.0) { nodescan_request = none }, u.1)
                (λ yes. record { bound = omega (arith, j.even, small); truly = λ q. refl })
                (λ no'.
                  relaunch-Ran n (record (u.0) { nodescan_request = none }) u.1 j.even
                    (ground (arith, j.even, small)))))

  ended-Ran : (l : Launcher) (s : S) → l.attempts ≤ p.launch_retries → Ran (ok (complete l)) (l, s)
  ended-Ran l s small = record { bound = small; truly = ok-injective }

  lost_session-Ran :
      (n : ℕ) (l : Launcher) (s : S)
      → l.attempts ≡ n
      → n ≤ p.launch_retries
      → Ends Ran (lost_session p v (l, s))
  unfolding lost_session at_the_end
  lost_session-Ran n l s h small =
      bind_rule (Even n) Ran (set_state p v failed) _ (l, s) (set_state-Keeps p v failed n l s h)
        (λ x t k. raised x t (omega (arith, k.even, small)))
        (λ a t k.
          ended-Ran (record (machine_id p v t.0) { nodescan_request = none }) t.1
            (omega (arith, machine_id-attempts t.0, k.even, small)))

  no_quota-Ran :
      (n : ℕ) (l : Launcher) (s : S)
      → l.attempts ≡ n
      → n ≤ p.launch_retries
      → Ends Ran (no_quota p v (l, s))
  unfolding no_quota at_the_end
  no_quota-Ran n l s h small =
      bind_rule (Even n) Ran (set_state p v aborted) _ (l, s) (set_state-Keeps p v aborted n l s h)
        (λ x t k. raised x t (omega (arith, k.even, small)))
        (λ a t k.
          bind_rule (Even n) Ran (on_node p v v.store_node) _ (machine_id p v t.0, t.1)
            (record { even = machine_id-attempts t.0 ∙ k.even })
            (λ x u j. raised x u (omega (arith, j.even, small)))
            (λ b u j.
              bind_rule (Even n) Ran (on_right v.invalidate_quota_cache) _ u
                (record { even = j.even }) (λ x w i. raised x w (omega (arith, i.even, small)))
                (λ d w i.
                  ended-Ran (record (w.0) { nodescan_request = none }) w.1
                    (omega (arith, i.even, small)))))

  handle-Ran :
      (r : Result Flow) (n : ℕ) (l : Launcher) (s : S)
      → l.attempts ≡ n
      → n ≤ p.launch_retries
      → Ready r l
      → Ends Ran (handle p v r (l, s))
  unfolding handle at_the_end
  handle-Ran (ok return_true) n l s h small q = record {
    bound = omega (arith, h, small);
    truly = λ e. q;
  }
  handle-Ran (ok return_none) n l s h small q = record {
    bound = omega (arith, h, small);
    truly = λ e. absurd (unfinished e);
  }
  handle-Ran (ok at_end) n l s h small q = ended-Ran l s (omega (arith, h, small))
  handle-Ran (raise e) n l s h small q = elim e as (λ x. Ends Ran (handle p v (raise x) (l, s))) [
    | session_expired ↦ lost_session-Ran n l s h small
    | quota ↦ no_quota-Ran n l s h small
    | zk_lock ↦ attempt_failed-Ran zk_lock n l s h small
    | timeout ↦ attempt_failed-Ran timeout n l s h small
    | lock_timeout ↦ attempt_failed-Ran lock_timeout n l s h small
    | no_node ↦ attempt_failed-Ran no_node n l s h small
    | type_error ↦ attempt_failed-Ran type_error n l s h small
    | key_error ↦ attempt_failed-Ran key_error n l s h small
    | unbound_local ↦ attempt_failed-Ran unbound_local n l s h small
    | not_found ↦ attempt_failed-Ran not_found n l s h small
    | keyscan ↦ attempt_failed-Ran keyscan n l s h small
    | other ↦ attempt_failed-Ran other n l s h small
  ]

  -- If storing a node leaves its state, then whatever the cloud and ZooKeeper answer, a round of a
  -- launch that is within its allowed attempts stays within them, and it returns True only when the
  -- node is not building any more.
  pub run_state_machine-ends :
      KeepsState v
      → (l : Launcher) (s : S) → l.attempts ≤ p.launch_retries
      → let (r, (k, t)) = run_state_machine p v (l, s) in
        (k.attempts ≤ p.launch_retries) × (r ≡ ok true → is_state k.node.state building ≡ false)
  unfolding run_state_machine
  run_state_machine-ends keeps l s small =
      let tried = try_block-Tried p v keeps l.attempts l s refl in
      let ran =
        handle-Ran (try_block p v (l, s)).0 l.attempts (try_block p v (l, s)).1.0
          (try_block p v (l, s)).1.1 tried.even small tried.finished_it in
      (ran.bound, λ e. not-true _ (ran.truly e))
