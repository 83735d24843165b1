-- ===== src/Utils/Threads.antt =====
-- The classes NodeLauncher and NodeDeleter of driver/utils.py.
use nodepool.Prelude.{
  ℕ, String, Bool, true, false, some, none, ◌≡◌, refl, ap, ◌∙◌, if◌then◌else◌, M, Result, ok, raise,
  Exception, zk_lock, timeout, lock_timeout, no_node, session_expired, type_error, key_error,
  unbound_local, not_found, quota, keyscan, other, get, pure, ◌>>=◌, ◌>>◌, on_right, assign_to,
  attempt, suppress,
}
use nodepool.Zk.States.{State, failed, aborted, deleting}
use nodepool.Zk.Values.{is_set}
use nodepool.Zk.Paths.{format_id}
use nodepool.Zk.Node.{Node}
use nodepool.Zk.Node

-- What the two threads call of ZooKeeper and of the provider's manager.
pub record Services (S : Type 0) : Type 0 where
  pub time : S → ℕ
  pub store_node : M (Node × S) (Unit {0})
  pub unlock_node : M (Node × S) (Unit {0})
  pub delete_node : M (Node × S) (Unit {0})
  pub cleanup_node : String → M S (Unit {0})
  pub wait_for_node_cleanup : String → M S (Unit {0})
  pub node_deleted_notification : Node → M S (Unit {0})

module _ {S : Type 0} (v : Services S) where
  abbrev set_state : State → M (Node × S) (Unit {0})
  unfolding Node.set_state Node.is_node_state
  set_state state (n, s) = assign_to (Node.set_state (v.time s) state) (n, s)

  -- What NodeLauncher.run does for the outcome of launch.
  settle : Result (Unit {0}) → M (Node × S) (Unit {0})
  unfolding set_state
  settle (ok u) = pure tt
  settle (raise session_expired) = set_state failed
  settle (raise quota) = set_state aborted >> v.store_node
  settle (raise e) = set_state failed >> v.store_node

  -- NodeLauncher.run, for the launch of a driver.
  unfoldable pub run_launcher : M (Node × S) (Unit {0}) → M (Node × S) (Unit {0})
  unfolding settle
  run_launcher launch = attempt launch >>= settle

  -- The `try` of NodeDeleter.delete.
  clean_up : M (Node × S) (Unit {0})
  unfolding set_state
  clean_up = do
    set_state deleting
    v.store_node
    (n, s) ← get
    if is_set n.external_id
        then on_right (
            v.cleanup_node (format_id n.external_id)
            >> v.wait_for_node_cleanup (format_id n.external_id))
        else pure tt

  remove_node : Bool → M (Node × S) (Unit {0})
  remove_node false = pure tt
  remove_node true = do v.delete_node; (n, s) ← get; on_right (v.node_deleted_notification n)

  deleted : Bool → Result (Unit {0}) → M (Node × S) (Unit {0})
  unfolding remove_node
  deleted exists (ok u) = remove_node exists
  deleted exists (raise not_found) = remove_node exists
  deleted exists (raise e) = if exists then v.unlock_node else pure tt

  -- NodeDeleter.delete
  unfoldable pub delete : (node_exists : Bool) → M (Node × S) (Unit {0})
  unfolding clean_up deleted
  delete exists = attempt clean_up >>= deleted exists

  abbrev has_id : Node → Bool
  has_id n = elim n.id [ none ↦ false | some id ↦ true ]

  -- NodeDeleter.run
  unfoldable pub run_deleter : M (Node × S) (Unit {0})
  unfolding delete
  run_deleter (n, s) = suppress (delete (has_id n)) (n, s)

  -- Storing leaves a node's state.
  abbrev pub StoresState : Type 0
  StoresState = (n : Node) (s : S) → (v.store_node (n, s)).1.0.state ≡ n.state

  abbrev pub expected : Exception → State
  expected quota = aborted
  expected e = failed

  settle-expected :
      StoresState
      → (n : Node) (s : S) (e : Exception) → (settle (raise e) (n, s)).1.0.state ≡ some (expected e)
  unfolding settle Node.set_state Node.is_node_state
  settle-expected stores n s zk_lock =
      stores (record n { state = some failed; state_time = some (v.time s) }) s
  settle-expected stores n s timeout =
      stores (record n { state = some failed; state_time = some (v.time s) }) s
  settle-expected stores n s lock_timeout =
      stores (record n { state = some failed; state_time = some (v.time s) }) s
  settle-expected stores n s no_node =
      stores (record n { state = some failed; state_time = some (v.time s) }) s
  settle-expected stores n s session_expired = refl
  settle-expected stores n s type_error =
      stores (record n { state = some failed; state_time = some (v.time s) }) s
  settle-expected stores n s key_error =
      stores (record n { state = some failed; state_time = some (v.time s) }) s
  settle-expected stores n s unbound_local =
      stores (record n { state = some failed; state_time = some (v.time s) }) s
  settle-expected stores n s not_found =
      stores (record n { state = some failed; state_time = some (v.time s) }) s
  settle-expected stores n s quota =
      stores (record n { state = some aborted; state_time = some (v.time s) }) s
  settle-expected stores n s keyscan =
      stores (record n { state = some failed; state_time = some (v.time s) }) s
  settle-expected stores n s other =
      stores (record n { state = some failed; state_time = some (v.time s) }) s

  -- If storing a node leaves its state, then whatever the launch raises, and whatever storing answers,
  -- the node is not left building: it is aborted behind a quota error, and failed behind any other.
  pub run_launcher-expected :
      StoresState
      → (launch : M (Node × S) (Unit {0})) (n : Node) (s : S) (e : Exception)
      → (launch (n, s)).0 ≡ raise e
      → (run_launcher launch (n, s)).1.0.state ≡ some (expected e)
  unfolding run_launcher
  run_launcher-expected stores launch n s e r =
      ap (λ w. (settle w (launch (n, s)).1).1.0.state) r
      ∙ settle-expected stores (launch (n, s)).1.0 (launch (n, s)).1.1 e
