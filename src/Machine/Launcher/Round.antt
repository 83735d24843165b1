-- ===== src/Machine/Launcher/Round.antt =====
-- One round of a launch: runStateMachine of StateMachineNodeLauncher in driver/statemachine.py.
pub mod Tried
pub mod Outcome
pub mod Unwind
use nodepool.Prelude.{
  ℕ, ◌+◌, String, Bool, true, false, not, ◌&&◌, Option, some, none, List, [], M, Result, ok, raise,
  Exception, session_expired, quota, keyscan, timeout, other, pure, throw, get, ◌>>=◌, ◌>>◌,
  attempt, suppress, ltb, leb, if◌then◌else◌, on_right, is_empty,
}
use nodepool.Zk.States.{State, building, ready, failed, aborted, is_state}
use nodepool.Zk.Values.{is_set}
use nodepool.Zk.Node.{Node}
use nodepool.Zk.Node
use nodepool.Machine.{Machine, Instance, Cloud}
use nodepool.Machine.Launcher.{
  Future, absent, running, finished, Scan, Launcher, Pool, Step, launcher, change, on_node,
  set_state, launch, update_node_from_instance,
}
use nodepool.Machine.Launcher.Delete.{run_delete_state_machine}

-- How the `try` block ends if it does not raise: with `return True`, with `return`, or at its end.
pub data Flow : Type 0 where
  return_true return_none at_end : Flow

-- The property `complete`.
abbrev pub complete : Launcher → Bool
complete l = not (is_state l.node.state building)

module _ {S : Type 0} (p : Pool S) (v : Cloud S) where
  -- What a round that has no machine yet makes of the submitted start.
  await_start : Future → Step p v Bool
  await_start absent = pure false
  await_start running = pure false
  await_start (finished (ok u)) = pure true
  await_start (finished (raise e)) = throw e

  abbrev set_external_id : Option String → Launcher → Launcher
  set_external_id id l = record l { node = record (l.node) { external_id = id } }

  abbrev use_keys : List String → Launcher → Launcher
  use_keys keys l =
      if is_empty keys then l else record l { node = record (l.node) { host_keys = keys } }

  -- A complete scan: the node is ready, or the scan failed.
  take_keys : Scan → Step p v Flow
  unfolding Node.set_state
  take_keys scan = elim scan.exception [
    | some e ↦ throw keyscan
    | none ↦ (do
      change p v (use_keys scan.keys)
      set_state p v ready
      on_node p v v.store_node
      pure return_true)
  ]

  abbrev new_scan : Scan
  new_scan = record { complete = false; exception = none; keys = [] }

  -- The id of the instance, as soon as the machine has it.
  note_external_id : Machine → Step p v (Unit {0})
  note_external_id m = do
    l ← launcher p v
    if not (is_set l.node.external_id) && is_set m.external_id
        then change p v (set_external_id m.external_id) >> on_node p v v.store_node
        else pure tt

  -- The instance is there, and its keys are to be scanned.
  begin_scan : Option Instance → Step p v (Unit {0})
  unfolding update_node_from_instance
  begin_scan instance = do
    update_node_from_instance p v instance
    change p v (λ k. record k { nodescan_request = some new_scan })

  scan_once : Machine → Option Instance → Step p v (Unit {0})
  unfolding begin_scan
  scan_once m instance = do
    l ← launcher p v
    if m.complete
        then elim l.nodescan_request [ none ↦ begin_scan instance | some scan ↦ pure tt ]
        else pure tt

  submit_scan : Machine → Option Instance → Step p v Flow
  unfolding scan_once
  submit_scan m instance = scan_once m instance >> pure at_end

  after_advance : Machine → Result (Option Instance) → Step p v Flow
  unfolding note_external_id submit_scan
  after_advance m (raise e) = throw e
  after_advance m (ok instance) = note_external_id m >> submit_scan m instance

  advance_create : Machine → Step p v Flow
  unfolding after_advance
  advance_create m (l, s) =
      let (r, after) = v.advance (m, s) in
      after_advance after.0 r (record l { state_machine = some after.0 }, after.1)

  check_timeout : Machine → Step p v (Unit {0})
  check_timeout m = do
    (l, s) ← get
    if ltb (m.start_time + p.launch_timeout) (v.time s) then throw timeout else pure tt

  -- A create machine goes on only when nothing is left to delete.
  go_on : Machine → Step p v Flow
  unfolding check_timeout run_delete_state_machine advance_create
  go_on m = do
    check_timeout m
    deleted ← run_delete_state_machine p v
    if deleted then advance_create m else pure return_none

  -- The round with a machine.
  with_scan : Machine → Option Scan → Step p v Flow
  unfolding take_keys go_on
  with_scan m none = go_on m
  with_scan m (some scan) = if m.complete && scan.complete then take_keys scan else go_on m

  work : Option Machine → Step p v Flow
  unfolding with_scan
  work none = throw other
  work (some m) = launcher p v >>= λ l. with_scan m l.nodescan_request

  abbrev pub note_start : ℕ → Launcher → Launcher
  note_start now l = elim l.start_time [ none ↦ record l { start_time = some now } | some t ↦ l ]

  has_started : Step p v Bool
  unfolding await_start
  has_started = do
    l ← launcher p v
    elim l.state_machine [ some m ↦ pure true | none ↦ await_start l.start_future ]

  -- A finished start without an exception has made the machine.
  begin : Step p v Flow
  unfolding work
  begin = do
    (l, s) ← get
    change p v (note_start (v.time s))
    k ← launcher p v
    work k.state_machine

  -- The `try` block.
  pub try_block : Step p v Flow
  unfolding has_started begin
  try_block = do started ← has_started; if started then begin else pure return_none

  -- The `return` behind the whole: whether the node is complete.
  at_the_end : Step p v Bool
  at_the_end = do l ← launcher p v; pure (complete l)

  abbrev drop_scan : Step p v (Unit {0})
  drop_scan = change p v (λ l. record l { nodescan_request = none })

  abbrev machine_id : Launcher → Launcher
  machine_id l = elim l.state_machine [ none ↦ l | some m ↦ set_external_id m.external_id l ]

  lost_session : Step p v Bool
  unfolding Node.set_state at_the_end
  lost_session = do set_state p v failed; change p v machine_id; drop_scan; at_the_end

  no_quota : Step p v Bool
  unfolding Node.set_state at_the_end
  no_quota = do
    set_state p v aborted
    change p v machine_id
    on_node p v v.store_node
    on_right v.invalidate_quota_cache
    drop_scan
    at_the_end

  -- The id for a later delete.
  keep_external_id : Step p v (Unit {0})
  keep_external_id = do
    l ← launcher p v
    elim l.state_machine [
      | none ↦ pure tt
      | some m ↦
          if is_set m.external_id
          then change p v (set_external_id m.external_id) >> on_node p v v.store_node
          else pure tt
    ]

  abbrev notify : Exception → Step p v (Unit {0})
  notify keyscan = launcher p v >>= λ l. suppress (on_right (p.notify_nodescan_failure l.node))
  notify e = pure tt

  -- Another attempt, behind a delete of what there is.
  relaunch : Step p v Bool
  unfolding launch
  relaunch = do
    l ← launcher p v
    m ← on_right (v.get_delete_state_machine l.node.external_id)
    change p v (λ k. record k { delete_state_machine = some m })
    launch p v
    pure false

  attempt_failed : Exception → Step p v Bool
  unfolding keep_external_id relaunch Node.set_state
  attempt_failed e = do
    keep_external_id
    notify e
    drop_scan
    l ← launcher p v
    if leb p.launch_retries l.attempts then set_state p v failed >> pure true else relaunch

  handle : Result Flow → Step p v Bool
  unfolding lost_session no_quota attempt_failed at_the_end
  handle (ok return_true) = pure true
  handle (ok return_none) = pure false
  handle (ok at_end) = at_the_end
  handle (raise session_expired) = lost_session
  handle (raise quota) = no_quota
  handle (raise e) = attempt_failed e

  -- runStateMachine: `true` where the code returns True.
  unfoldable pub run_state_machine : Step p v Bool
  unfolding try_block handle
  run_state_machine = attempt try_block >>= handle
