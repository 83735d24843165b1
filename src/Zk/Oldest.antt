-- ===== src/Zk/Oldest.antt =====
-- deleteOldestUnusedNode of zk/zookeeper.py.
pub mod Choice
pub mod Laws
use nodepool.Prelude.{
  ℕ, ◌+◌, ◌*◌, String, Bool, true, false, not, ◌&&◌, ◌||◌, Option, some, none, List, [], ◌∷◌, ltb,
  if◌then◌else◌, elem, lookup, insert, keep, zero, suc, leb, M, Result, ok, raise, Exception,
  zk_lock, timeout, lock_timeout, no_node, session_expired, type_error, key_error, unbound_local,
  not_found, quota, keyscan, other, pure, throw, get, modify, gets, try_except, on_right, for_each,
  and_then, ◌>>=◌, ◌>>◌, ◌==◌, attempt, suppress, unless_no_node, try_finally, assign_to,
}
use Prim.Native.String.{◌++◌}
use mathlib.Core.List.{◌++◌ as ◌++ᴸ◌}
use mathlib.Core.Option
use nodepool.Zk.States.{State, ready, deleting, deleted, is_state}
use nodepool.Zk.Values.{Dict, is_set, is_str}
use nodepool.Zk.Node.{Node, to_dict, from_dict, update_from_dict, set_state}
use nodepool.Zk.Kazoo.{Kazoo}
use nodepool.Zk.Paths.{node_root, node_path, node_lock_path, format_id, last_part}
use nodepool.Zk.Nodes.{get_node, get_nodes, lock_node, unlock_node, store_node}

-- `candidates.sort(key=lambda n: n.state_time)`, by the sort of Python's lists: oldest first, and in the
-- order of the list where the times are equal. A node that has a state has its time.
abbrev time_of : Node → ℕ
time_of n = elim n.state_time [ none ↦ 0 | some t ↦ t ]

insert_by_time : Node → List Node → List Node
insert_by_time n [] = n ∷ []
insert_by_time n (m ∷ ms) =
    if leb (time_of n) (time_of m) then n ∷ m ∷ ms else m ∷ insert_by_time n ms

unfoldable pub sort_by_time : List Node → List Node
unfolding insert_by_time
sort_by_time [] = []
sort_by_time (n ∷ ns) = insert_by_time n (sort_by_time ns)

abbrev max_delete_age : ℕ
max_delete_age = 300

-- What deleteOldestUnusedNode makes of one node: a candidate, a reason to return, or nothing.
pub data Verdict : Type 0 where
  candidate recent_delete ignored : Verdict

-- `(time.time() - node.state_time / 1000) < MAX_DELETE_AGE`, times a thousand.
unfoldable pub classify : ℕ → (provider pool : String) → Node → Verdict
classify now provider pool n =
    if is_str n.provider provider && is_str n.pool pool
    then if is_state n.state ready && not (is_set n.allocated_to)
      then candidate
      else if is_state n.state deleting && ltb (1000 * now) (1000 * max_delete_age + time_of n)
      then recent_delete
      else ignored
    else ignored

module _ {S : Type 0} (k : Kazoo S) where
  -- The first loop of deleteOldestUnusedNode; `none` is its early return.
  unfoldable pub candidates : (provider pool : String) → List String → M S (Option (List Node))
  unfolding get_node classify
  candidates provider pool [] = pure (some [])
  candidates provider pool (id ∷ rest) = do
    found ← get_node k id true false
    verdict ←
        gets (λ s. elim found [ none ↦ ignored | some n ↦ classify (k.time s) provider pool n ])
    more ← elim verdict [ recent_delete ↦ pure none | _ ↦ candidates provider pool rest ]
    pure (elim verdict [
      | candidate ↦ elim found [ none ↦ more | some n ↦ Option.map (λ ns. n ∷ ns) more ]
      | _ ↦ more
    ])

  abbrev check_time : Option ℕ → M (Node × S) (Unit {0})
  check_time none = throw type_error
  check_time (some t) = pure tt

  -- The `try` around the change of the state. The log message needs the old time.
  mark_deleting : M (Node × S) (Unit {0})
  unfolding set_state store_node
  mark_deleting = do
    (n, s) ← get
    check_time n.state_time
    assign_to (set_state (k.time s) deleting)
    store_node k

  -- The body of the second loop, behind the lock: whether a delete was requested.
  pub delete_locked : M (Node × S) Bool
  unfolding unlock_node mark_deleting
  delete_locked = do
    (n, _) ← get
    let mark : M (Node × S) Bool = (do
      outcome ← attempt mark_deleting
      unlock_node k
      pure (elim outcome [ ok _ ↦ true | raise _ ↦ false ]))
    if not (is_state n.state ready) || is_set n.allocated_to
        then unlock_node k >> pure false
        else mark

  pub delete_first : List Node → M S Bool
  unfolding lock_node delete_locked
  delete_first [] s = (ok false, s)
  delete_first (n ∷ ns) s =
      let (lock, locked) = lock_node k false true (n, s) in
      let (done, after) = delete_locked locked in
      elim lock [
        | ok _ ↦ elim done [
          | ok true ↦ (ok true, after.1)
          | ok false ↦ delete_first ns after.1
          | raise e ↦ (raise e, after.1)
        ]
        | raise zk_lock ↦ delete_first ns locked.1
        | raise e ↦ (raise e, locked.1)
      ]

  unfoldable pub delete_oldest_unused_node : (provider pool : String) → M S Bool
  unfolding get_nodes candidates sort_by_time delete_first
  delete_oldest_unused_node provider pool = do
    node_ids ← get_nodes k
    found ← candidates provider pool node_ids
    elim found [ none ↦ pure false | some nodes ↦ delete_first (sort_by_time nodes) ]
