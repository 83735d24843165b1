-- ===== src/Machine/Deleter.antt =====
-- The class StateMachineNodeDeleter of driver/statemachine.py.
pub mod Laws
use nodepool.Prelude.{
  ℕ, ◌+◌, String, Bool, true, false, not, Option, some, none, M, Result, ok, raise, Exception,
  timeout, not_found, pure, throw, get, ◌>>=◌, ◌>>◌, attempt, ltb, ◌==◌, if◌then◌else◌, on_right,
}
use nodepool.Zk.States.{deleting}
use nodepool.Zk.Values.{is_set}
use nodepool.Zk.Node.{Node}
use nodepool.Zk.Node
use nodepool.Machine.{Machine, Instance, Cloud, start}

pub record Deleter : Type 0 where
  pub node : Node
  pub state_machine : Machine

abbrev pub delete_timeout : ℕ
delete_timeout = 600

-- `node.id is not None`
abbrev pub node_exists : Node → Bool
node_exists n = elim n.id [ none ↦ false | some i ↦ true ]

module _ {S : Type 0} (v : Cloud S) where
  abbrev pub Step : Type 0 → Type 0
  Step A = M (Deleter × S) A

  abbrev pub deleter : Step Deleter
  deleter (d, s) = (ok d, (d, s))

  -- Operations on the node and on the state machine change them in place.
  abbrev pub on_node : {A : Type 0} → M (Node × S) A → Step A
  on_node op (d, s) = let (r, after) = op (d.node, s) in (r, (record d { node = after.0 }, after.1))

  abbrev pub on_machine : {A : Type 0} → M (Machine × S) A → Step A
  on_machine op (d, s) =
      let (r, after) = op (d.state_machine, s) in
      (r, (record d { state_machine = after.0 }, after.1))

  abbrev pub set_complete : Step (Unit {0})
  set_complete (d, s) =
      (ok tt, (record d { state_machine = record (d.state_machine) { complete = true } }, s))

  abbrev set_deleting : Step (Unit {0})
  set_deleting (d, s) = elim (Node.set_state (v.time s) deleting d.node) [
    | ok n ↦ (ok tt, (record d { node = n }, s))
    | raise e ↦ (raise e, (d, s))
  ]

  announce : Step (Unit {0})
  unfolding Node.set_state
  announce = set_deleting >> on_node v.store_node

  progress : Step (Unit {0})
  progress = do
    d ← deleter
    if is_set d.node.external_id then on_machine v.advance >> pure tt else set_complete

  -- The `try` block: whether it ends with a complete machine.
  advance_delete : Step Bool
  unfolding announce progress
  advance_delete = do
    (d, s) ← get
    if ltb (d.state_machine.start_time + delete_timeout) (v.time s) then throw timeout else pure tt
    if d.state_machine.state == start then announce else pure tt
    progress
    e ← deleter
    pure e.state_machine.complete

  delete_znode : Step (Unit {0})
  delete_znode = do
    on_node v.delete_node
    d ← deleter
    on_right (v.node_deleted_notification d.node)

  -- The instance is gone, and so is the znode.
  remove : (node_existed : Bool) → Step Bool
  unfolding delete_znode
  remove node_existed = do if node_existed then delete_znode else pure tt; pure true

  -- The znode stays, but is not locked any more.
  give_up : (node_existed : Bool) → Step Bool
  give_up node_existed = do
    if node_existed then on_node v.unlock_node else pure tt
    set_complete
    pure false

  settle : (node_existed : Bool) → Result Bool → Step Bool
  unfolding remove give_up
  settle node_existed (ok true) = remove node_existed
  settle node_existed (ok false) = pure false
  settle node_existed (raise not_found) = remove node_existed
  settle node_existed (raise e) = give_up node_existed

  -- runStateMachine: `true` where the code returns True, and `false` where it returns None.
  unfoldable pub run_state_machine : Step Bool
  unfolding advance_delete settle
  run_state_machine = do
    d ← deleter
    if d.state_machine.complete
        then pure true
        else attempt advance_delete >>= settle (node_exists d.node)
