-- ===== src/Workers/Minimum.antt =====
-- The minimum of ready nodes: removeCompletedRequests and createMinReady of the class NodePool of
-- launcher.py.
pub mod Counts
pub mod Laws
use nodepool.Prelude.{
  ℕ, zero, suc, ◌-◌, String, Bool, true, false, not, Option, some, none, List, [], ◌∷◌, ◌++◌, elem,
  keep, map, length, lookup, insert, is_empty, ltb, if◌then◌else◌, M, Result, ok, raise, key_error,
  other, pure, throw, get, modify, ◌>>=◌, ◌>>◌, for_each, on_right, ◌==◌,
}
use nodepool.Zk.States.{requested, fulfilled, failed, is_state}
use nodepool.Zk.Node.{Node}
use nodepool.Zk.Request.{NodeRequest, new_request}
use nodepool.Zk.Request

-- A label of the configuration.
pub record Label : Type 0 where
  pub name : String
  pub min_ready : ℕ

-- What the methods call. Requests are read without the cache and stored with priority 900.
pub record Services (S : Type 0) : Type 0 where
  pub time : S → ℕ
  pub get_node_request : Option String → M S (Option NodeRequest)
  pub get_node : Option String → M S (Option Node)
  pub store_node : M (Node × S) (Unit {0})
  pub delete_node_request : NodeRequest → M S (Unit {0})
  pub store_node_request : M (NodeRequest × S) (Unit {0})
  pub get_ready_nodes_of_types : List String → M S (List (String × List Node))
  pub label_image_is_available : Label → M S Bool

-- `_submittedRequests`
abbrev pub Submitted : Type 0
Submitted = List (String × List NodeRequest)

abbrev pub Run : Type 0 → Type 0 → Type 0
Run S A = M (Submitted × S) A

-- The list under a label gets one more request, and is made if there is none.
unfoldable pub append_request : String → NodeRequest → Submitted → Submitted
append_request l q [] = (l, q ∷ []) ∷ []
append_request l q ((j, qs) ∷ m) =
    if j == l then (j, qs ++ q ∷ []) ∷ m else (j, qs) ∷ append_request l q m

abbrev pub labels_of : Submitted → List String
labels_of m = map (λ e. e.0) m

-- `need` by the ready nodes of a label.
unfoldable pub need : Label → Option (List Node) → ℕ
need l none = l.min_ready
need l (some nodes) = if ltb (length nodes) l.min_ready then l.min_ready - length nodes else 0

abbrev pub needed_labels : List Label → Submitted → List String
needed_labels labels m = keep (λ l. not (elem l (labels_of m))) (map (λ l. l.name) labels)

module _ {S : Type 0} (v : Services S) where
  abbrev deallocated : Option Node → M S (Unit {0})
  deallocated none s = (raise other, s)
  deallocated (some n) s =
      let (r, (m, t)) = v.store_node (record n { allocated_to = none }, s) in (r, t)

  -- What is left of a request in the list of active ones.
  check_request : Option NodeRequest → M S (List NodeRequest)
  check_request none = pure []
  check_request (some req) =
      if is_state req.state fulfilled
      then (do
        for_each req.nodes (λ id. v.get_node id >>= deallocated)
        v.delete_node_request req
        pure [])
      else if is_state req.state failed
      then v.delete_node_request req >> pure []
      else pure (req ∷ [])

  active_requests : List NodeRequest → M S (List NodeRequest)
  unfolding check_request
  active_requests [] = pure []
  active_requests (q ∷ qs) = do
    found ← v.get_node_request q.id
    kept ← check_request found
    rest ← active_requests qs
    pure (kept ++ rest)

  abbrev replaced : String → List NodeRequest → Submitted → Submitted
  unfolding insert
  replaced l [] m = keep (λ e. not (e.0 == l)) m
  replaced l (q ∷ qs) m = insert l (q ∷ qs) m

  remove_completed_of : String → Run S (Unit {0})
  unfolding active_requests replaced lookup
  remove_completed_of l = do
    (m, s) ← get
    elim (lookup l m) [
      | none ↦ throw key_error
      | some qs ↦
          on_right (active_requests qs) >>= λ active. modify (λ (m, s). (replaced l active m, s))
    ]

  -- removeCompletedRequests
  unfoldable pub remove_completed_requests : Run S (Unit {0})
  unfolding remove_completed_of
  remove_completed_requests (m, s) = for_each (labels_of m) remove_completed_of (m, s)

  -- What storing a request came to. If it raised, the list is as before.
  appended :
      String
      → Submitted
      → Result (Unit {0}) × (NodeRequest × S)
      → Result (Unit {0}) × (Submitted × S)
  unfolding append_request
  appended l m (raise e, (q, t)) = (raise e, (m, t))
  appended l m (ok u, (q, t)) = (ok tt, (append_request l q m, t))

  -- createRequest, behind the setting of the state.
  submit : String → Result NodeRequest → Run S (Unit {0})
  unfolding appended
  submit l (raise e) t = (raise e, t)
  submit l (ok req) (m, s) = appended l m (v.store_node_request (req, s))

  unfoldable pub create_request : String → Run S (Unit {0})
  unfolding submit new_request Request.set_state Request.is_request_state
  create_request l (m, s) =
      submit l
        (Request.set_state (v.time s) requested (record (new_request none) {
          requestor = some "NodePool:min-ready";
          node_types = l ∷ [];
          reuse = false;
        }))
        (m, s)

  unfoldable pub create_requests : ℕ → String → Run S (Unit {0})
  unfolding create_request
  create_requests zero l = pure tt
  create_requests (suc n) l = create_request l >> create_requests n l

  abbrev create_if_available : Label → ℕ → Bool → Run S (Unit {0})
  unfolding create_requests
  create_if_available l n true = create_requests n l.name
  create_if_available l n false = pure tt

  -- What follows from the number of missing nodes.
  unfoldable pub create_missing : Label → ℕ → Run S (Unit {0})
  unfolding create_if_available
  create_missing l zero = pure tt
  create_missing l (suc n) =
      on_right (v.label_image_is_available l) >>= create_if_available l (suc n)

  -- The body of the loop over the labels.
  unfoldable pub create_for : List String → List (String × List Node) → Label → Run S (Unit {0})
  unfolding create_missing need lookup
  create_for needed ready l =
      if not (elem l.name needed)
      then pure tt
      else if not (ltb 0 l.min_ready)
      then pure tt
      else create_missing l (need l (lookup l.name ready))

  -- createMinReady, for the labels of the configuration.
  unfoldable pub create_min_ready : List Label → Run S (Unit {0})
  unfolding remove_completed_requests create_for
  create_min_ready labels = do
    remove_completed_requests
    (m, s) ← get
    ready ← on_right (v.get_ready_nodes_of_types (needed_labels labels m))
    for_each labels (create_for (needed_labels labels m) ready)
