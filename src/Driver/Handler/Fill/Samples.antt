-- ===== src/Driver/Handler/Fill/Samples.antt =====
-- Filling the node set of a concrete handler.
use nodepool.Prelude.{◌≤◌, String, true, [], ok, ◌≡◌, refl, count, arith, insert}
use nodepool.Zk.Request
use nodepool.Zk.Ready
use nodepool.Zk.Nodes
use nodepool.Zk.Paths
use nodepool.Driver.Handler.Kept.{recorded}
use nodepool.Driver.Handler.Fill.{wait_for_node_set}
use nodepool.Driver.Handler.Fill.Growth.{wait_for_node_set_bound, wait_for_node_set_complete}
use nodepool.Samples.{config, services, Ensemble}
use nodepool.Samples.Znodes.{ensemble}
use nodepool.Samples.Handlers.{waiting, services-IsLawful}

abbrev empty : Ensemble
empty = record ensemble { znodes = [] }

none_too_often : (l : String) → count l (recorded waiting) ≤ count l waiting.request.node_types
none_too_often l = omega arith

finished : (wait_for_node_set config services (waiting, empty)).0 ≡ ok true
unfolding wait_for_node_set Request.new_request Ready.get_ready_nodes_of_types Nodes.store_node
    Nodes.lock_node Nodes.update_node Paths.node_lock_path Paths.node_path insert
finished = refl

wait_for_node_set_bound_example :
    let g = (wait_for_node_set config services (waiting, empty)).1.0 in
    ((l : String) → count l (recorded g) ≤ count l g.request.node_types)
    × (g.request.node_types ≡ waiting.request.node_types)
wait_for_node_set_bound_example =
    wait_for_node_set_bound config services services-IsLawful waiting empty none_too_often

wait_for_node_set_complete_example :
    let g = (wait_for_node_set config services (waiting, empty)).1.0 in
    count "small" (recorded g) ≡ count "small" g.request.node_types
wait_for_node_set_complete_example =
    wait_for_node_set_complete config services services-IsLawful waiting empty none_too_often
      finished "small"
