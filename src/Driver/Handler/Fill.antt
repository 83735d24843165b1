-- ===== src/Driver/Handler/Fill.antt =====
-- Filling the node set: driver/__init__.py, and the runs.
pub mod Rounds
pub mod Growth
mod Samples
use nodepool.Prelude.{
  ℕ, String, Bool, true, false, not, ◌&&◌, ◌||◌, Option, some, none, List, [], ◌∷◌, ◌++◌, M, Result,
  ok, raise, zk_lock, other, pure, throw, get, modify, gets, ◌>>=◌, ◌>>◌, try_except, on_right,
  elem, is_empty, if◌then◌else◌, lookup, counter_diff, attempt, Exception,
}
use nodepool.Zk.States.{ready, init, building, pending, is_state}
use nodepool.Zk.Values.{is_set, is_str}
use nodepool.Zk.Node.{Node, new_node}
use nodepool.Zk.Node
use nodepool.Zk.Request
use nodepool.Driver.Labels.{labels}
use nodepool.Driver.Labels
use nodepool.Driver.Handler.{
  Handler, Config, Services, Run, change, handler, with_node, with_request, set_node_state,
  set_request_state,
}
use nodepool.Driver.Handler.Decline.{decline_request, declined_handler_cleanup, declined_reasons}

module _ {S : Type 0} (c : Config) (v : Services S) where
  -- The node and its type are recorded together.
  abbrev append_node : String → Node → Run S (Unit {0})
  append_node ntype n = change (λ h. record h {
    nodeset = h.nodeset ++ n ∷ [];
    satisfied_types = Labels.add ntype n.id h.satisfied_types;
  })

  -- The `continue`s before the lock.
  usable : S → Node → Bool
  usable s n =
      is_str n.provider c.provider
      && is_str n.pool c.pool
      && is_empty n.lock_contenders
      && v.check_reusable_node s n

  allocate : Handler → Node → Node
  allocate h n = record n {
    allocated_to = h.request.id;
    tenant_name = h.request.tenant_name;
    requestor = h.request.requestor;
  }

  -- The lines for a locked node that is still free.
  take_node : String → Node → Run S Bool
  unfolding allocate
  take_node ntype n = do
    change (λ h. record h { paused = false })
    h ← handler
    n' ← with_node v.store_node (allocate h n)
    append_node ntype n'
    on_right (v.node_reused n')
    pure true

  -- A locked node that is not free any more is let go.
  take_if_free : String → Node → Run S Bool → Run S Bool
  unfolding take_node
  take_if_free ntype n others =
      if not (is_state n.state ready) || is_set n.allocated_to
      then with_node v.unlock_node n >> others
      else take_node ntype n

  after_lock : String → Run S Bool → Result Node → Run S Bool
  unfolding take_if_free
  after_lock ntype others (ok n) = take_if_free ntype n others
  after_lock ntype others (raise zk_lock) = others
  after_lock ntype others (raise e) = throw e

  -- The loop over the ready nodes of a type: whether one was taken.
  try_ready : String → List Node → Run S Bool
  unfolding usable after_lock
  try_ready ntype [] = pure false
  try_ready ntype (n ∷ ns) = do
    let others = try_ready ntype ns
    (h, s) ← get
    if usable s n then attempt (with_node v.lock_node n) >>= after_lock ntype others else others

  -- `launch(node)` has the object that the node set holds last.
  launch_last : List Node → Node → Run S (Unit {0})
  launch_last before n (h, s) =
      let (r, after) = v.launch (n, s) in
      (r, (record h { nodeset = before ++ after.0 ∷ [] }, after.1))

  -- A new node for the request, before it is stored.
  fresh_node : String → Handler → Node
  unfolding new_node
  fresh_node ntype h = record (new_node none) {
    type = ntype ∷ [];
    provider = some c.provider;
    pool = some c.pool;
    launcher = some c.launcher_id;
    allocated_to = h.request.id;
    tenant_name = h.request.tenant_name;
    requestor = h.request.requestor;
    attributes = c.node_attributes;
  }

  launch_new : String → Run S (Unit {0})
  unfolding fresh_node launch_last Node.set_state
  launch_new ntype = do
    change (λ h. record h { paused = false })
    h ← handler
    n ← set_node_state v init (fresh_node ntype h)
    n1 ← with_node v.set_node_metadata n
    n2 ← with_node v.store_node n1
    n3 ← with_node v.lock_node n2
    n4 ← set_node_state v building n3
    n5 ← with_node v.store_node n4
    g ← handler
    append_node ntype n5
    launch_last g.nodeset n5

  -- The handler waits for quota, or gives up.
  pause : Run S (Unit {0})
  unfolding declined_handler_cleanup
  pause =
      if c.pause_at_quota
      then change (λ g. record g { paused = true })
      else declined_handler_cleanup c v

  free_quota : Run S (Unit {0})
  unfolding pause
  free_quota = do deleted ← on_right (v.delete_oldest_unused_node c.provider c.pool); pause

  -- No quota for one more node.
  at_quota : Run S (Unit {0})
  unfolding decline_request free_quota
  at_quota = do
    h ← handler
    if is_str h.request.requestor "NodePool:min-ready" then decline_request c v else free_quota

  launch_or_wait : String → Run S Bool
  unfolding launch_new at_quota
  launch_or_wait ntype = do
    enough ← on_right (v.has_remaining_quota ntype)
    if enough then launch_new ntype >> pure true else at_quota >> pure false

  -- The ready nodes of a type, of which a request may want none.
  reuse_node : List (String × List Node) → String → Run S Bool
  unfolding try_ready lookup
  reuse_node ready_nodes ntype = do
    h ← handler
    elim (lookup ntype ready_nodes) [
      | none ↦ pure false
      | some nodes ↦ if h.request.reuse then try_ready ntype nodes else pure false
    ]

  -- One round of the loop of _waitForNodeSet: whether the loop goes on.
  pub fill_type : List (String × List Node) → String → Run S Bool
  unfolding reuse_node launch_or_wait
  fill_type ready_nodes ntype = do
    got_a_node ← reuse_node ready_nodes ntype
    if got_a_node then pure true else launch_or_wait ntype

  fill : List (String × List Node) → List String → Run S Bool
  unfolding fill_type
  fill ready_nodes [] = pure true
  fill ready_nodes (ntype ∷ types) = do
    goes_on ← fill_type ready_nodes ntype
    if goes_on then fill ready_nodes types else pure false

  -- _waitForNodeSet: whether it came to the end of its loop.
  unfoldable pub wait_for_node_set : Run S Bool
  unfolding fill counter_diff
  wait_for_node_set = do
    h ← handler
    let needed = counter_diff h.request.node_types (labels h.satisfied_types)
    ready_nodes ← if h.request.reuse then on_right (v.get_ready_nodes_of_types needed) else pure []
    fill ready_nodes needed

  accept : Run S (Unit {0})
  unfolding wait_for_node_set Request.set_state
  accept = do
    h ← handler
    let store : Run S (Unit {0}) = set_request_state v pending >> with_request v.store_node_request
    if h.paused then pure tt else store
    filled ← wait_for_node_set
    pure tt

  -- _runHandler, where the configuration still has the provider and the pool.
  unfoldable pub run_handler : Run S (Unit {0})
  unfolding declined_reasons accept decline_request
  run_handler = do
    reasons ← declined_reasons c v
    if is_empty reasons then accept else decline_request c v

  -- `run`
  unfoldable pub run : Run S (Unit {0})
  unfolding run_handler decline_request
  run = try_except run_handler (λ e. decline_request c v)
