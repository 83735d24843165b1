-- ===== src/Machine/Launcher/Round/Tried.antt =====
-- The `try` block of a round of a launch, for every behaviour of the cloud and of ZooKeeper.
use nodepool.Prelude.{
  ℕ, String, true, not, ◌&&◌, Option, some, none, List, [], ◌∷◌, Result, ok, raise, pure, ◌>>=◌,
  ◌>>◌, ◌≡◌, refl, ap, ◌∙◌, inl, inr, Option-cases, arith,
}
use nodepool.Zk.States.{building, ready, is_state}
use nodepool.Zk.Node.{Node}
use nodepool.Zk.Node
use nodepool.Machine.{Machine, Instance, Cloud}
use nodepool.Driver.Handler.Rules.{Ends, bind_rule, if_rule}
use nodepool.Machine.Launcher.{Launcher, Pool, Scan, Step, on_node, update_node_from_instance}
use nodepool.Machine.Launcher.Delete.{run_delete_state_machine}
use nodepool.Machine.Launcher.Kept.{Even, run_delete_state_machine-Keeps}
use nodepool.Machine.Launcher.Round.{
  Flow, return_true, return_none, at_end, complete, await_start, use_keys, take_keys,
  note_external_id, begin_scan, scan_once, submit_scan, check_timeout, has_started, begin,
  after_advance, advance_create, go_on, with_scan, work, note_start, try_block,
}

abbrev pub Ready : Result Flow → Launcher → Type 0
Ready (ok return_true) l = complete l ≡ true
Ready (ok return_none) l = Unit
Ready (ok at_end) l = Unit
Ready (raise e) l = Unit

-- The `try` block keeps the count of attempts, and returns True only for a complete node.
pub record Tried {S : Type 0} (n : ℕ) (r : Result Flow) (t : Launcher × S) : Type 0 where
  pub even : t.0.attempts ≡ n
  pub finished_it : Ready r t.0

-- Storing a node leaves its state.
abbrev pub KeepsState : {S : Type 0} → Cloud S → Type 0
KeepsState {S} v = (n : Node) (s : S) → (v.store_node (n, s)).1.0.state ≡ n.state

module _ {S : Type 0} (p : Pool S) (v : Cloud S) where
  bind-Tried :
      {A : Type 0} (n : ℕ) (m : Step p v A) (f : A → Step p v Flow) (l : Launcher) (s : S)
      → Ends (Even n) (m (l, s))
      → ((a : A) (k : Launcher) (t : S) → k.attempts ≡ n → Ends (Tried n) (f a (k, t)))
      → Ends (Tried n) ((m >>= f) (l, s))
  bind-Tried n m f l s keeps then_tried =
      bind_rule (Even n) (Tried n) m f (l, s) keeps
        (λ e t h. record { even = h.even; finished_it = tt }) (λ a t h. then_tried a t.0 t.1 h.even)

  use_keys-attempts :
      (keys : List String) (l : Launcher) → (use_keys p v keys l).attempts ≡ l.attempts
  use_keys-attempts [] l = refl
  use_keys-attempts (k ∷ keys) l = refl

  store-Tried :
      KeepsState v
      → (n : ℕ) (l : Launcher) (s : S) → l.attempts ≡ n
      → l.node.state ≡ some ready
      → Ends (Tried n) ((on_node p v v.store_node >> pure return_true) (l, s))
  store-Tried keeps n l s h e =
      bind_rule (λ r t. (t.0.attempts ≡ n) × (t.0.node.state ≡ some ready)) (Tried n)
        (on_node p v v.store_node) _ (l, s) (h, keeps l.node s ∙ e)
        (λ x t k. record { even = k.0; finished_it = tt })
        (λ u t k. record { even = k.0; finished_it = ap (λ o. not (is_state o building)) k.1 })

  take_keys-Tried :
      KeepsState v
      → (scan : Scan) (n : ℕ) (l : Launcher) (s : S) → l.attempts ≡ n
      → Ends (Tried n) (take_keys p v scan (l, s))
  unfolding take_keys Node.set_state Node.is_node_state
  take_keys-Tried keeps scan n l s h = elim (Option-cases scan.exception) [
    | inr (e, failed_scan) ↦ rw failed_scan (record { even = h; finished_it = tt })
    | inl fine ↦ rw fine (store-Tried keeps n _ s (use_keys-attempts scan.keys l ∙ h) refl)
  ]

  note_external_id-Even :
      (m : Machine) (n : ℕ) (l : Launcher) (s : S)
      → l.attempts ≡ n
      → Ends (Even n) (note_external_id p v m (l, s))
  unfolding note_external_id
  note_external_id-Even m n l s h = record { even = ground arith }

  scan_once-Even :
      (m : Machine) (i : Option Instance) (n : ℕ) (l : Launcher) (s : S)
      → l.attempts ≡ n
      → Ends (Even n) (scan_once p v m i (l, s))
  unfolding scan_once begin_scan update_node_from_instance
  scan_once-Even m i n l s h = record { even = ground arith }

  after_advance-Tried :
      (m : Machine) (r : Result (Option Instance)) (n : ℕ) (l : Launcher) (s : S)
      → l.attempts ≡ n
      → Ends (Tried n) (after_advance p v m r (l, s))
  unfolding after_advance submit_scan
  after_advance-Tried m (raise e) n l s h = record { even = h; finished_it = tt }
  after_advance-Tried m (ok i) n l s h =
      bind-Tried n (note_external_id p v m) _ l s (note_external_id-Even m n l s h) (λ u k t e.
        bind-Tried n (scan_once p v m i) _ k t (scan_once-Even m i n k t e)
          (λ u j t e. record { even = e; finished_it = tt }))

  advance_create-Tried :
      (m : Machine) (n : ℕ) (l : Launcher) (s : S)
      → l.attempts ≡ n
      → Ends (Tried n) (advance_create p v m (l, s))
  unfolding advance_create
  advance_create-Tried m n l s h =
      after_advance-Tried (v.advance (m, s)).1.0 (v.advance (m, s)).0 n
        (record l { state_machine = some (v.advance (m, s)).1.0 }) (v.advance (m, s)).1.1 h

  check_timeout-Even :
      (m : Machine) (n : ℕ) (l : Launcher) (s : S)
      → l.attempts ≡ n
      → Ends (Even n) (check_timeout p v m (l, s))
  unfolding check_timeout
  check_timeout-Even m n l s h = record { even = ground arith }

  go_on-Tried :
      (m : Machine) (n : ℕ) (l : Launcher) (s : S)
      → l.attempts ≡ n
      → Ends (Tried n) (go_on p v m (l, s))
  unfolding go_on
  go_on-Tried m n l s h =
      bind-Tried n (check_timeout p v m) _ l s (check_timeout-Even m n l s h) (λ u k t e.
        bind-Tried n (run_delete_state_machine p v) _ k t
          (run_delete_state_machine-Keeps p v n k t e)
          (λ deleted j u d.
            if_rule (Tried n) deleted (advance_create p v m) (pure return_none) (j, u)
              (λ yes. advance_create-Tried m n j u d)
              (λ no'. record { even = d; finished_it = tt })))

  with_scan-Tried :
      KeepsState v
      → (m : Machine) (o : Option Scan) (n : ℕ) (l : Launcher) (s : S) → l.attempts ≡ n
      → Ends (Tried n) (with_scan p v m o (l, s))
  unfolding with_scan
  with_scan-Tried keeps m none n l s h = go_on-Tried m n l s h
  with_scan-Tried keeps m (some scan) n l s h =
      if_rule (Tried n) (m.complete && scan.complete) (take_keys p v scan) (go_on p v m) (l, s)
        (λ yes. take_keys-Tried keeps scan n l s h) (λ no'. go_on-Tried m n l s h)

  work-Tried :
      KeepsState v
      → (o : Option Machine) (n : ℕ) (l : Launcher) (s : S) → l.attempts ≡ n
      → Ends (Tried n) (work p v o (l, s))
  unfolding work
  work-Tried keeps none n l s h = record { even = h; finished_it = tt }
  work-Tried keeps (some m) n l s h = with_scan-Tried keeps m l.nodescan_request n l s h

  has_started-Even :
      (n : ℕ) (l : Launcher) (s : S) → l.attempts ≡ n → Ends (Even n) (has_started p v (l, s))
  unfolding has_started await_start
  has_started-Even n l s h = record { even = ground arith }

  note_start-attempts : (now : ℕ) (l : Launcher) → (note_start p v now l).attempts ≡ l.attempts
  note_start-attempts now l = ground arith

  begin-Tried :
      KeepsState v
      → (n : ℕ) (l : Launcher) (s : S) → l.attempts ≡ n
      → Ends (Tried n) (begin p v (l, s))
  unfolding begin
  begin-Tried keeps n l s h =
      let begun : Launcher = note_start p v (v.time s) l in
      work-Tried keeps begun.state_machine n begun s (note_start-attempts (v.time s) l ∙ h)

  pub try_block-Tried :
      KeepsState v
      → (n : ℕ) (l : Launcher) (s : S) → l.attempts ≡ n
      → Ends (Tried n) (try_block p v (l, s))
  unfolding try_block
  try_block-Tried keeps n l s h =
      bind-Tried n (has_started p v) _ l s (has_started-Even n l s h) (λ started k t e.
        if_rule (Tried n) started (begin p v) (pure return_none) (k, t)
          (λ yes. begin-Tried keeps n k t e) (λ no'. record { even = e; finished_it = tt }))
