-- ===== src/Driver/Handler/Decline.antt =====
-- Declining a request: driver/__init__.py.
pub mod Outcome
use nodepool.Prelude.{
  ℕ, String, Bool, true, false, not, ◌&&◌, Option, some, none, List, [], ◌∷◌, ◌++◌, M, Result, ok,
  raise, pure, throw, get, modify, gets, ◌>>=◌, ◌>>◌, suppress, on_right, for_each, elem, all,
  is_empty, if◌then◌else◌,
}
use nodepool.Zk.States.{failed, requested}
use nodepool.Zk.Node.{Node}
use nodepool.Zk.Request
use nodepool.Driver.Handler.{
  Handler, Config, Services, Run, change, handler, with_node, with_request, set_request_state,
}

abbrev pub insert_new : String → List String → List String
insert_new x xs = if elem x xs then xs else xs ++ x ∷ []

unsupported : List String → List String → List String → List String
unsupported valid [] invalid = invalid
unsupported valid (l ∷ ls) invalid =
    unsupported valid ls (if elem l valid then invalid else insert_new l invalid)

in_error : List String → List String → List String → List String
in_error types [] invalid = invalid
in_error types (l ∷ ls) invalid =
    in_error types ls (if elem l types then insert_new l invalid else invalid)

-- _invalidNodeTypes, as a list without repetitions.
unfoldable pub invalid_node_types : (valid errors types : List String) → List String
unfolding unsupported in_error
invalid_node_types valid errors types = in_error types errors (unsupported valid types [])

pub data Reason : Type 0 where
  disabled_by_max_servers : Reason
  types_not_available : List String → Reason
  images_not_available exceeds_quota : Reason

module _ {S : Type 0} (c : Config) (v : Services S) where
  -- getDeclinedReasons
  unfoldable pub declined_reasons : Run S (List Reason)
  unfolding invalid_node_types
  declined_reasons (h, s) =
      let types = h.request.node_types in
      let invalid = invalid_node_types c.supported_labels (v.error_labels s) types in
      let by_quota : Run S (List Reason) = (do
        enough ← on_right (v.has_provider_quota types)
        pure (if enough then [] else exceeds_quota ∷ [])) in
      let by_images : Run S (List Reason) = (do
        available ← on_right (v.images_available types)
        if available then by_quota else pure (images_not_available ∷ [])) in
      if not c.max_servers_positive
      then (ok (disabled_by_max_servers ∷ []), (h, s))
      else if not (is_empty invalid)
      then (ok (types_not_available invalid ∷ []), (h, s))
      else by_images (h, s)

  -- The two `try` blocks for a locked node of unlockNodeSet.
  unfoldable pub release_node : (clear : Bool) → Node → M S (Unit {0})
  release_node clear n s =
      let cleared : Node × S =
        if clear then (suppress v.store_node (record n { allocated_to = none }, s)).1 else (n, s) in
      (ok tt, (suppress v.unlock_node cleared).1.1)

  -- The loop of unlockNodeSet.
  abbrev pub release_nodes : (clear : Bool) → List Node → M S (Unit {0})
  unfolding release_node
  release_nodes clear nodes = for_each nodes (λ n. if n.lock then release_node clear n else pure tt)

  -- unlockNodeSet
  unfoldable pub unlock_node_set : (clear : Bool) → Run S (Unit {0})
  unlock_node_set clear = do
    h ← handler
    on_right (release_nodes clear h.nodeset)
    change (λ g. record g { nodeset = [] })

  -- _declineRequest
  unfoldable pub mark_declined : Run S (Unit {0})
  unfolding Request.set_state
  mark_declined = do
    change (λ h. record h {
      request = record (h.request) { declined_by = insert_new c.launcher_id h.request.declined_by };
    })
    (h, s) ← get
    set_request_state v (
        if all (λ pool. elem pool h.request.declined_by) (v.registered_pools s)
        then failed
        else requested)

  abbrev pub give_back : Run S (Unit {0})
  give_back = with_request v.store_node_request >> with_request v.unlock_node_request

  -- _declinedHandlerCleanup
  unfoldable pub declined_handler_cleanup : Run S (Unit {0})
  unfolding unlock_node_set
  declined_handler_cleanup = do
    unlock_node_set true
    change (λ h. record h { paused = false })
    suppress give_back
    change (λ h. record h { done = true })

  -- declineRequest
  unfoldable pub decline_request : Run S (Unit {0})
  unfolding mark_declined declined_handler_cleanup
  decline_request = mark_declined >> declined_handler_cleanup
