-- ===== src/Driver/Handler/Poll.antt =====
-- Polling a handler: driver/__init__.py.
pub mod Fulfil
use nodepool.Prelude.{
  ℕ, String, Bool, true, false, not, ◌&&◌, ◌||◌, Option, some, none, List, [], ◌∷◌, ◌++◌, M, Result,
  ok, raise, zk_lock, pure, throw, get, modify, gets, ◌>>=◌, ◌>>◌, try_except, on_right, for_each,
  is_empty, if◌then◌else◌, Exception,
}
use nodepool.Zk.States.{ready, aborted, fulfilled, is_state}
use nodepool.Zk.Values.{is_set}
use nodepool.Zk.Paths.{format_id}
use nodepool.Zk.Node.{Node}
use nodepool.Zk.Request
use nodepool.Driver.Labels.{same_id}
use nodepool.Driver.Labels
use nodepool.Driver.Handler.{
  Handler, Config, Services, Run, change, handler, with_node, with_request, set_request_state,
}
use nodepool.Driver.Handler.Decline.{unlock_node_set, mark_declined}

-- `self.nodeset.remove(node)`: the nodes of a node set have different ids.
unfoldable pub remove_from : Option String → List Node → List Node
remove_from id [] = []
remove_from id (n ∷ ns) = if same_id n.id id then ns else n ∷ remove_from id ns

module _ {S : Type 0} (c : Config) (v : Services S) where
  -- The loop over a copy of the node set: the aborted nodes.
  sort_nodes : List Node → List Node → Run S (List Node)
  unfolding remove_from
  sort_nodes [] aborted_nodes = pure aborted_nodes
  sort_nodes (n ∷ ns) aborted_nodes = do
    let drop_it : Run S (Unit {0}) = (do
      change (λ h. record h { nodeset = remove_from n.id h.nodeset })
      m ← with_node v.unlock_node n
      pure tt)
    if is_state n.state ready
        then change (λ h. record h { ready_nodes = h.ready_nodes ++ n ∷ [] })
        else if is_state n.state aborted
        then drop_it
        else change (λ h. record h { failed_nodes = h.failed_nodes ++ n ∷ [] })
    sort_nodes ns (
        if not (is_state n.state ready) && is_state n.state aborted
        then aborted_nodes ++ n ∷ []
        else aborted_nodes)

  abbrev pass_if_lock : Exception → Run S (Unit {0})
  pass_if_lock zk_lock = pure tt
  pass_if_lock e = throw e

  -- The request disappeared.
  abandon : Run S (Unit {0})
  unfolding unlock_node_set
  abandon = do
    unlock_node_set c v true
    try_except (with_request v.unlock_node_request) pass_if_lock

  -- One round of the loop that adds the nodes to the request.
  assign_one : String → Run S (Unit {0})
  unfolding Labels.pop
  assign_one ntype (h, s) = elim (Labels.pop ntype h.satisfied_types) [
    | raise e ↦ (raise e, (h, s))
    | ok (id, left) ↦ (
      ok tt,
      (
        record h {
          satisfied_types = left;
          request = record (h.request) { nodes = h.request.nodes ++ id ∷ [] };
        },
        s,
      ),
    )
  ]

  -- The nodes are added in the order of the requested types.
  assign_nodes : Run S (Unit {0})
  unfolding assign_one Request.set_state
  assign_nodes = do
    h ← handler
    for_each h.request.node_types assign_one
    set_request_state v fulfilled

  unfoldable pub finish : Run S Bool
  unfolding unlock_node_set
  finish = do
    unlock_node_set c v false
    with_request v.store_node_request
    with_request v.unlock_node_request
    pure true

  forget : List Node → Run S Bool
  unfolding Labels.remove_node
  forget aborted_nodes = do
    for_each aborted_nodes (λ n.
        change (λ h. record h { satisfied_types = Labels.remove_node n.id h.satisfied_types }))
    change (λ h. record h { paused = true })
    pure false

  -- The branches behind the loop.
  settle : List Node → Run S Bool
  unfolding abandon mark_declined assign_nodes finish forget
  settle aborted_nodes = do
    h ← handler
    found ← on_right (v.get_node_request (format_id h.request.id))
    let gone : Run S Bool = abandon >> pure true
    let decline : Run S Bool = mark_declined c v >> finish
    let fulfil : Run S Bool = assign_nodes >> finish
    elim found [
      | none ↦ gone
      | some q ↦
          if not (is_empty h.failed_nodes)
          then decline
          else if not (is_empty aborted_nodes)
          then forget aborted_nodes
          else fulfil
    ]

  -- `poll`: whether the handler is through.
  unfoldable pub poll : Run S Bool
  unfolding sort_nodes settle
  poll = do
    h ← handler
    let look : Run S Bool = (do
      complete ← on_right v.launches_complete
      if complete then sort_nodes h.nodeset [] >>= settle else pure false)
    if h.paused then pure false else if h.done then pure true else look
