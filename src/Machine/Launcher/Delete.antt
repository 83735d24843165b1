-- ===== src/Machine/Launcher/Delete.antt =====
-- Unwinding a failed launch: runDeleteStateMachine of StateMachineNodeLauncher in
-- driver/statemachine.py.
use nodepool.Prelude.{
  Bool, true, false, Option, some, none, Result, ok, raise, not_found, pure, ◌>>=◌, ◌>>◌,
  if◌then◌else◌, on_right,
}
use nodepool.Zk.Values.{is_set}
use nodepool.Machine.{Machine, Instance, Cloud}
use nodepool.Machine.Launcher.{Pool, Step, change}

module _ {S : Type 0} (p : Pool S) (v : Cloud S) where
  abbrev pub set_delete : Option Machine → Step p v (Unit {0})
  set_delete m = change p v (λ l. record l { delete_state_machine = m })

  -- The machine that the rest of the round sees, behind its advance.
  unfoldable pub after_unwind : Machine → Result (Option Instance) → Step p v Bool
  after_unwind m (ok i) = set_delete (some m) >> pure false
  after_unwind m (raise not_found) = set_delete none >> pure true
  after_unwind m (raise e) = do
    set_delete (some m)
    again ← on_right (v.get_delete_state_machine m.external_id)
    set_delete (some again)
    pure false

  unfoldable pub unwind : Machine → Step p v Bool
  unfolding after_unwind
  unwind m (l, s) = let (r, after) = v.advance (m, s) in after_unwind after.0 r (l, after.1)

  unfoldable pub run_delete_state_machine : Step p v Bool
  unfolding unwind
  run_delete_state_machine (l, s) = elim l.delete_state_machine [
    | none ↦ (ok true, (l, s))
    | some m ↦
        if m.complete
        then (set_delete none >> pure true) (l, s)
        else if is_set m.external_id
        then unwind m (l, s)
        else (set_delete none >> pure true) (l, s)
  ]
