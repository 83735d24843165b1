-- ===== src/Zk/Requests/Types.antt =====
-- The types that a request asks for, under the operations that a handler applies to it.
use nodepool.Prelude.{String, false, Option, some, none, Result, ok, raise, arith, ◌≡◌, refl}
use nodepool.Zk.Request.{NodeRequest}
use nodepool.Zk.Kazoo.{Kazoo}
use nodepool.Zk.Paths.{format_id}
use nodepool.Zk.Requests.{
  get_node_request, update_stored, create_stored, store_node_request, unlock_node_request,
}

module _ {S : Type 0} (k : Kazoo S) where
  create_stored-types :
      (priority event_id : String) (q : NodeRequest) (s : S)
      → (create_stored k priority event_id (q, s)).1.0.node_types ≡ q.node_types
  unfolding create_stored
  create_stored-types priority event_id q s = ground arith

  update_stored-types :
      (q : NodeRequest) (s : S) → (update_stored k (q, s)).1.0.node_types ≡ q.node_types
  unfolding update_stored
  update_stored-types q s = go (get_node_request k (format_id q.id) false s).0 refl
    where
      go :
          (r : Result (Option NodeRequest))
          → (get_node_request k (format_id q.id) false s).0 ≡ r
          → (update_stored k (q, s)).1.0.node_types ≡ q.node_types
      go (raise x) e = rw (e, update_stored) refl
      go (ok none) e = rw (e, update_stored) refl
      go (ok (some stored)) e = rw (e, update_stored) refl

  pub store_node_request-types :
      (priority event_id : String) (q : NodeRequest) (s : S)
      → (store_node_request k priority event_id (q, s)).1.0.node_types ≡ q.node_types
  unfolding store_node_request
  store_node_request-types priority event_id q s =
      ground (arith, create_stored-types priority event_id q s, update_stored-types q s)

  pub unlock_node_request-types :
      (q : NodeRequest) (s : S) → (unlock_node_request k (q, s)).1.0.node_types ≡ q.node_types
  unfolding unlock_node_request
  unlock_node_request-types q s = ground arith
