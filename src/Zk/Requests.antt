-- ===== src/Zk/Requests.antt =====
-- The request operations of zk/zookeeper.py, over the kazoo client.
-- The state of an operation on a request is the object, which it changes in place, beside the
-- client's.
pub mod Types
use Prim.Native.String.{◌++◌, compare}
use Prim.Native.Nat.{Ordering}
use nodepool.Prelude.{
  String, Bool, true, false, not, ◌&&◌, Option, some, none, List, [], ◌∷◌, if◌then◌else◌, M, ok,
  raise, zk_lock, timeout, no_node, other, pure, on_right, ◌>>=◌, unless_no_node, assign_to,
}
use nodepool.Zk.Values.{is_set}
use nodepool.Zk.Request.{NodeRequest, to_dict, from_dict, update_from_dict}
use nodepool.Zk.Kazoo.{Kazoo}
use nodepool.Zk.Paths.{request_root, request_path, request_lock_path, format_id, last_part}
use nodepool.Zk.Nodes.{lock_outcome}

abbrev string_le : String → String → Bool
string_le a b = elim (compare a b) [ Ordering.gt ↦ false | _ ↦ true ]

insert_id : String → List String → List String
insert_id a [] = a ∷ []
insert_id a (b ∷ bs) = if string_le a b then a ∷ b ∷ bs else b ∷ insert_id a bs

-- `sorted(ids)`
unfoldable pub sort_ids : List String → List String
unfolding insert_id
sort_ids [] = []
sort_ids (a ∷ as') = insert_id a (sort_ids as')

look_up : {S : Type 0} → Kazoo S → String → M S (Option NodeRequest)
unfolding request_path from_dict
look_up k id s =
    let (r, t) = k.get (request_path id) s in
    elim r [
      | ok none ↦ (raise other, t)
      | ok (some d) ↦ elim (from_dict (k.time t) d (some id)) [
        | raise e ↦ (raise e, t)
        | ok q ↦ (ok (some q), t)
      ]
      | raise no_node ↦ (ok none, t)
      | raise e ↦ (raise e, t)
    ]

module _ {S : Type 0} (k : Kazoo S) where
  unfoldable pub get_node_requests : M S (List String)
  unfolding sort_ids
  get_node_requests = unless_no_node (k.get_children request_root >>= λ ids. pure (sort_ids ids)) []

  -- getNodeRequest
  unfoldable pub get_node_request : String → (cached : Bool) → M S (Option NodeRequest)
  unfolding look_up
  get_node_request id cached s =
      elim (if cached && k.cache_enabled then k.cached_request s id else none) [
        | some q ↦ (ok (some q), s)
        | none ↦ look_up k id s
      ]

  -- updateNodeRequest
  unfoldable pub update_node_request : M (NodeRequest × S) (Unit {0})
  unfolding request_path update_from_dict
  update_node_request (q, s) =
      let (r, t) = k.get (request_path (format_id q.id)) s in
      elim r [
        | raise e ↦ (raise e, (q, t))
        | ok none ↦ assign_to (update_from_dict (k.time t) []) (q, t)
        | ok (some d) ↦ assign_to (update_from_dict (k.time t) d) (q, t)
      ]

  -- storeNodeRequest: the update of a request that is gone is an exception.
  unfoldable pub update_stored : M (NodeRequest × S) (Unit {0})
  unfolding get_node_request to_dict request_path
  update_stored (q, s) =
      let (r, t) = get_node_request (format_id q.id) false s in
      elim r [
        | raise e ↦ (raise e, (q, t))
        | ok none ↦ (raise other, (q, t))
        | ok (some _) ↦ on_right (k.set (request_path (format_id q.id)) (to_dict q)) (q, t)
      ]

  -- The creation of a request, with the priority that its path begins with and an event id that
  -- the caller may draw.
  create_stored : (priority event_id : String) → M (NodeRequest × S) (Unit {0})
  unfolding to_dict last_part
  create_stored priority event_id (q, s) =
      let named : NodeRequest =
        if is_set q.event_id then q else record q { event_id = some event_id } in
      let (r, t) = k.create (request_root ++ ("/" ++ (priority ++ "-"))) true (to_dict named) s in
      elim r [
        | raise e ↦ (raise e, (named, t))
        | ok path ↦ (ok tt, (record named { id = some (last_part path) }, t))
      ]

  unfoldable pub store_node_request : (priority event_id : String) → M (NodeRequest × S) (Unit {0})
  unfolding create_stored update_stored
  store_node_request priority event_id (q, s) =
      if is_set q.id then update_stored (q, s) else create_stored priority event_id (q, s)

  unfoldable pub delete_node_request : M (NodeRequest × S) (Unit {0})
  unfolding request_path
  delete_node_request (q, s) =
      if is_set q.id
      then on_right (unless_no_node (k.delete (request_path (format_id q.id)) false) tt) (q, s)
      else (ok tt, (q, s))

  -- lockNodeRequest with no timeout; a wait for the mutex ends as in `lock_node`.
  unfoldable pub lock_node_request : (blocking : Bool) → M (NodeRequest × S) (Unit {0})
  unfolding request_lock_path lock_outcome update_node_request
  lock_node_request blocking (q, s) =
      if q.thread_lock
      then (raise (if blocking then timeout else zk_lock), (q, s))
      else let (answer, t) = k.acquire (request_lock_path (format_id q.id)) blocking true s in
        elim (lock_outcome answer) [
          | raise e ↦ (raise e, (q, t))
          | ok _ ↦ update_node_request (record q { lock = true; thread_lock = true }, t)
        ]

  unfoldable pub unlock_node_request : M (NodeRequest × S) (Unit {0})
  unfolding request_lock_path
  unlock_node_request (q, s) =
      let (r, t) = k.release (request_lock_path (format_id q.id)) s in
      if not q.lock then (raise zk_lock, (q, s)) else elim r [
        | raise e ↦ (raise e, (q, t))
        | ok _ ↦
            if q.thread_lock
            then (ok tt, (record q { lock = false; thread_lock = false }, t))
            else (raise other, (record q { lock = false }, t))
      ]

  requests_of : (cached : Bool) → List String → M S (List NodeRequest)
  unfolding get_node_request
  requests_of cached [] = pure []
  requests_of cached (id ∷ rest) = do
    found ← get_node_request id cached
    requests ← requests_of cached rest
    pure (elim found [ none ↦ requests | some q ↦ q ∷ requests ])

  -- nodeRequestIterator with the ids from ZooKeeper, for a caller that only collects.
  unfoldable pub node_request_iterator : (cached : Bool) → M S (List NodeRequest)
  unfolding get_node_requests requests_of
  node_request_iterator cached = get_node_requests >>= requests_of cached
