-- ===== src/Driver/Handler/Decline/Outcome.antt =====
-- Where a declined request ends.
use nodepool.Prelude.{
  String, Bool, true, false, List, [], ◌∷◌, ◌++◌, some, Result, ok, ◌≡◌, refl, ◌>>=◌, if◌then◌else◌,
  elem, all, ◌||◌, ◌==◌, arith, eq_iff, Bool-cases, inl, inr,
}
use nodepool.Zk.States.{State, failed, requested}
use nodepool.Zk.Node.{Node}
use nodepool.Zk.Request.{NodeRequest}
use nodepool.Zk.Request
use nodepool.Driver.Handler.{Handler, Config, Services, with_request}
use nodepool.Driver.Handler.Rules.{Ends, bind_rule}
use nodepool.Driver.Handler.Decline.{
  insert_new, release_node, release_nodes, unlock_node_set, mark_declined, give_back,
  declined_handler_cleanup, decline_request,
}

elem-append : (k : String) (xs ys : List String) → elem k (xs ++ ys) ≡ (elem k xs || elem k ys)
elem-append k [] ys = refl
elem-append k (x ∷ xs) ys = ground (arith, elem-append k xs ys)

elem-insert_new :
    (k x : String) (xs : List String) → elem k (insert_new x xs) ≡ (elem k xs || (x == k))
elem-insert_new k x xs = ground (arith, elem-append k xs (x ∷ []), eq_iff x k, eq_iff k x)

module _ {S : Type 0} (c : Config) (v : Services S) where
  release_nodes-ok :
      (clear : Bool) (ns : List Node) (s : S) → (release_nodes c v clear ns s).0 ≡ ok tt
  unfolding release_node
  release_nodes-ok clear [] s = refl
  release_nodes-ok clear (n ∷ ns) s = elim (Bool-cases n.lock) [
    | inl e ↦ rw e (release_nodes-ok clear ns _)
    | inr e ↦ rw e (release_nodes-ok clear ns s)
  ]

  -- The whole node set is let go, whatever a node's calls raise.
  pub unlock_node_set-ends :
      (clear : Bool) (h : Handler) (s : S)
      → unlock_node_set c v clear (h, s)
        ≡ (ok tt, (record h { nodeset = [] }, (release_nodes c v clear h.nodeset s).1))
  unfolding unlock_node_set
  unlock_node_set-ends clear h s = rw (release_nodes-ok clear h.nodeset s, ◌>>=◌) refl

  abbrev declining : Handler → NodeRequest
  declining h = record (h.request) { declined_by = insert_new c.launcher_id h.request.declined_by }

  abbrev decided : S → NodeRequest → State
  decided s q =
      if all (λ pool. elem pool q.declined_by) (v.registered_pools s) then failed else requested

  mark_declined-decided :
      (h : Handler) (s : S)
      → mark_declined c v (h, s) ≡ (
        ok tt,
        (
          record h {
            request = record (declining h) {
              state = some (decided s (declining h));
              state_time = some (v.time s);
            };
          },
          s,
        ),
      )
  unfolding mark_declined Request.set_state Request.is_request_state
  mark_declined-decided h s =
      elim (Bool-cases (all (λ pool. elem pool (declining h).declined_by) (v.registered_pools s))) [
        | inl e ↦ rw e refl
        | inr e ↦ rw e refl
      ]

  -- Marking a request as declined never raises. The launcher is then among those that declined, the
  -- others stay, and the request fails exactly if every registered pool has declined it, else it is
  -- requested again. Nothing but the request changes.
  pub mark_declined-decides :
      (h : Handler) (s : S)
      → let (r, (g, t)) = mark_declined c v (h, s) in
        let declined = g.request.declined_by in
        (r ≡ ok tt)
        × ((k : String) → elem k declined ≡ (elem k h.request.declined_by || (c.launcher_id == k)))
        × (g.request.state
            ≡ some (
                if all (λ pool. elem pool declined) (v.registered_pools s)
                then failed
                else requested))
        × (record g { request = h.request } ≡ h)
  mark_declined-decides h s =
      rw (mark_declined-decided h s)
        (refl, (λ k. elem-insert_new k c.launcher_id h.request.declined_by), refl, refl)

  abbrev Over : Result (Unit {0}) → Handler → Type 0
  Over r g = (r ≡ ok tt) × (g.done ≡ true) × (g.paused ≡ false) × (g.nodeset ≡ [])

  abbrev Rest : Handler → Handler → Type 0
  Rest h g = (g.paused ≡ h.paused) × (g.nodeset ≡ h.nodeset)

  give_back-Rest : (h : Handler) (s : S) → Rest h (give_back c v (h, s)).1.0
  give_back-Rest h s =
      bind_rule (λ r t. Rest h t.0) (λ r t. Rest h t.0) (with_request v.store_node_request)
        (λ u. with_request v.unlock_node_request) (h, s) (refl, refl) (λ e t p. p) (λ u t p. p)

  declined_handler_cleanup-Ends :
      (h : Handler) (s : S) → Ends (λ r t. Over r t.0) (declined_handler_cleanup c v (h, s))
  unfolding declined_handler_cleanup
  declined_handler_cleanup-Ends h s =
      rw (unlock_node_set-ends true h s, ◌>>=◌)
        (let (paused, nodeset) =
            give_back-Rest (record h { nodeset = []; paused = false })
              (release_nodes c v true h.nodeset s).1 in
          (refl, refl, paused, nodeset))

  -- Declining ends the handler's work: whatever the calls of ZooKeeper raise, none of it gets out, the
  -- handler is through, not paused, and holds no node.
  pub decline_request-ends :
      (h : Handler) (s : S)
      → let (r, (g, t)) = decline_request c v (h, s) in
        (r ≡ ok tt) × (g.done ≡ true) × (g.paused ≡ false) × (g.nodeset ≡ [])
  unfolding decline_request declined_handler_cleanup
  decline_request-ends h s =
      rw (mark_declined-decided h s, ◌>>=◌) (declined_handler_cleanup-Ends _ s)
