-- ===== src/Workers/Cleanup.antt =====
-- The class CleanupWorker of launcher.py.
pub mod Laws
pub mod Tasks
use nodepool.Prelude.{
  ℕ, ◌+◌, String, Bool, true, false, not, ◌&&◌, Option, some, none, List, [], ◌∷◌, leb, ltb, keep,
  elem, min, if◌then◌else◌, lookup, map, M, Result, ok, raise, Exception, zk_lock, type_error,
  key_error, other, pure, throw, get, modify, ◌>>=◌, ◌>>◌, for_each, attempt, suppress, try_finally,
  assign_to,
}
use nodepool.Zk.States.{State, ready, hold, deleting, init, pending, requested, is_state}
use nodepool.Zk.Values.{is_str}
use nodepool.Zk.Paths.{format_id}
use nodepool.Zk.Node.{Node}
use nodepool.Zk.Node
use nodepool.Zk.Request.{NodeRequest}
use nodepool.Zk.Request
use nodepool.Zk.Kazoo.{Kazoo}
use nodepool.Zk.Nodes.{
  lock_node, unlock_node, store_node, node_iterator, get_nodes, get_node, delete_raw_node,
}
use nodepool.Zk.Ready.{get_ready_nodes_of_types}
use nodepool.Zk.Requests.{
  get_node_request, node_request_iterator, lock_node_request, unlock_node_request,
  store_node_request,
}

-- The configuration: the providers, the labels with their max_ready_age, and max_hold_age, which may
-- be infinite.
pub record Settings : Type 0 where
  pub providers : List String
  pub max_ready_age : List (String × ℕ)
  pub max_hold_age : Option ℕ

abbrev is_configured : Settings → Node → Bool
is_configured c n = elim n.provider [ none ↦ false | some p ↦ elem p c.providers ]

module _ {S : Type 0} (k : Kazoo S) (c : Settings) where
  abbrev pub marking : M (Node × S) (Unit {0})
  marking (n, s) = (assign_to (Node.set_state (k.time s) deleting) >> store_node k) (n, s)

  -- A locked node that is still in the wanted state is to be deleted; the lock is released again.
  unfoldable pub mark_aged : State → M (Node × S) (Unit {0})
  unfolding unlock_node store_node Node.set_state
  mark_aged wanted = do
    (n, s) ← get
    if not (is_state n.state wanted)
        then unlock_node k
        else try_finally (suppress marking) (unlock_node k)

  -- A node that is locked by someone else is left.
  expire : State → Node → M S (Unit {0})
  unfolding lock_node mark_aged
  expire wanted n s =
      let (r, locked) = lock_node k false true (n, s) in
      elim r [
        | ok u ↦ let (r', after) = mark_aged wanted locked in (r', after.1)
        | raise zk_lock ↦ (ok tt, locked.1)
        | raise e ↦ (raise e, locked.1)
      ]

  -- The test of a node's age and what follows it.
  expire_aged : State → (max_age : ℕ) → Node → M S (Unit {0})
  unfolding expire
  expire_aged wanted max_age n s = elim n.state_time [
    | none ↦ (raise type_error, s)
    | some t ↦ if ltb (k.time s) (t + max_age) then (ok tt, s) else expire wanted n s
  ]

  expire_label : String × List Node → M S (Unit {0})
  unfolding expire_aged lookup
  expire_label (label, nodes) = elim (lookup label c.max_ready_age) [
    | none ↦ throw key_error
    | some age ↦
        for_each nodes (λ n. if is_configured c n then expire_aged ready age n else pure tt)
  ]

  -- _cleanupMaxReadyAge
  unfoldable pub cleanup_max_ready_age : M S (Unit {0})
  unfolding expire_label get_ready_nodes_of_types
  cleanup_max_ready_age = do
    ready_nodes ←
        get_ready_nodes_of_types k (map (λ l. l.0) (keep (λ l. ltb 0 l.1) c.max_ready_age))
    for_each ready_nodes expire_label

  -- `min(expiration, max_hold_age)`, where `none` is infinite.
  max_uptime : Node → Option ℕ
  max_uptime n =
      let expiration : Option ℕ = elim n.hold_expiration [
        | none ↦ none
        | some e ↦ if ltb 0 e then some e else none
      ] in
      elim expiration [
        | none ↦ c.max_hold_age
        | some e ↦ elim c.max_hold_age [ none ↦ some e | some m ↦ some (min e m) ]
      ]

  expire_held : Node → M S (Unit {0})
  unfolding max_uptime expire_aged
  expire_held n = elim (max_uptime n) [
    | none ↦ pure tt
    | some age ↦ if is_configured c n then expire_aged hold age n else pure tt
  ]

  -- _cleanupMaxHoldAge
  unfoldable pub cleanup_max_hold_age : M S (Unit {0})
  unfolding node_iterator expire_held
  cleanup_max_hold_age = do
    nodes ← node_iterator k true true
    for_each (keep (λ n. is_state n.state hold) nodes) expire_held

  -- _cleanupEmptyNodes
  unfoldable pub cleanup_empty_nodes : M S (Unit {0})
  unfolding get_nodes get_node delete_raw_node
  cleanup_empty_nodes = do
    ids ← get_nodes k
    for_each ids (λ id. get_node k id false false >>= λ found. elim found [
      | none ↦ delete_raw_node k id
      | some n ↦ pure tt
    ])

  -- A locked node of a lost request is deallocated, and deleted if it was never set to building.
  abbrev deallocate : M (Node × S) (Unit {0})
  deallocate (n, s) =
      assign_to (λ m. if is_state m.state init then Node.set_state (k.time s) deleting m else ok m)
        (n, s)

  -- The loop over a locked node: whether the search goes on.
  free_locked : String → M (Node × S) (Unit {0})
  unfolding unlock_node store_node Node.set_state
  free_locked id = do
    (n, s) ← get
    let free : M (Node × S) (Unit {0}) = (do
      deallocate
      modify (λ (m, t). (record m { allocated_to = none }, t))
      suppress (store_node k)
      unlock_node k)
    if is_str n.allocated_to id then free else unlock_node k

  -- Whether all nodes of the request were freed.
  free_nodes : String → List Node → M S Bool
  unfolding lock_node free_locked
  free_nodes id [] s = (ok true, s)
  free_nodes id (n ∷ ns) s =
      let (r, locked) = lock_node k true true (n, s) in
      let (r', after) = free_locked id locked in
      let rest = free_nodes id ns after.1 in
      let skipped = free_nodes id ns s in
      if not (is_str n.allocated_to id) then skipped else elim r [
        | raise zk_lock ↦ (ok false, locked.1)
        | raise e ↦ (raise e, locked.1)
        | ok u ↦ elim r' [ ok u ↦ rest | raise e ↦ (raise e, after.1) ]
      ]

  store_reset : NodeRequest → M S (Unit {0})
  unfolding Request.set_state store_node_request
  store_reset q s = elim (Request.set_state (k.time s) requested q) [
    | raise e ↦ (raise e, s)
    | ok r ↦
        let (done, after) = store_node_request k "100" "" (record r { nodes = [] }, s) in
        (done, after.1)
  ]

  -- _resetLostRequest
  unfoldable pub reset_lost_request : NodeRequest → M S (Unit {0})
  unfolding get_node_request node_iterator free_nodes store_reset
  reset_lost_request req = do
    found ← get_node_request k (format_id req.id) false
    let reset : NodeRequest → M S (Unit {0}) = λ q. (do
      nodes ← node_iterator k true false
      freed ← free_nodes (format_id q.id) nodes
      if freed then store_reset q else pure tt)
    elim found [
      | none ↦ throw other
      | some q ↦ if is_state q.state pending then reset q else pure tt
    ]

  -- The body of the loop of _cleanupLostRequests.
  unfoldable pub cleanup_lost_request : NodeRequest → M S (Unit {0})
  unfolding lock_node_request reset_lost_request unlock_node_request
  cleanup_lost_request req s =
      let (r, locked) = lock_node_request k false (req, s) in
      if not (is_state req.state pending) then (ok tt, s) else elim r [
        | raise zk_lock ↦ (ok tt, locked.1)
        | raise e ↦ (raise e, locked.1)
        | ok u ↦
            let (done, after) = suppress (reset_lost_request locked.0) locked.1 in
            let (r', unlocked) = unlock_node_request k (locked.0, after) in (r', unlocked.1)
      ]

  unfoldable pub cleanup_lost_requests : M S (Unit {0})
  unfolding node_request_iterator cleanup_lost_request
  cleanup_lost_requests = do
    requests ← node_request_iterator k true
    for_each requests cleanup_lost_request
