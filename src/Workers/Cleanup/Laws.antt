-- ===== src/Workers/Cleanup/Laws.antt =====
-- The locks of the nodes that the cleanup marks.
use nodepool.Prelude.{
  String, false, not, M, Result, ok, raise, suppress, try_finally, ◌≡◌, refl, sym, ap, subst, ◌∙◌,
  inl, inr, Result-cases, Bool-cases,
}
use nodepool.Zk.States.{State, is_state}
use nodepool.Zk.Node.{Node}
use nodepool.Zk.Node
use nodepool.Zk.Kazoo.{Kazoo}
use Prim.Native.String.{◌++◌}
use nodepool.Zk.Values.{is_set}
use nodepool.Zk.Node.{to_dict}
use nodepool.Zk.Paths.{node_root}
use nodepool.Zk.Nodes.{store_node, unlock_node, create_node, dated}
use nodepool.Zk.Nodes.Locks.{IsBalanced, unlock_node-IsBalanced}
use nodepool.Driver.Handler.Rules.{Ends, if_rule}
use nodepool.Workers.Cleanup.{Settings, marking, mark_aged}

module _ {S : Type 0} (k : Kazoo S) (c : Settings) where
  try_finally-suppress :
      {T : Type 0} (m cleanup : M T (Unit {0})) (t : T)
      → try_finally (suppress m) cleanup t ≡ cleanup (m t).1
  try_finally-suppress m cleanup t = elim (Result-cases (cleanup (m t).1).0) [
    | inl (u, e) ↦ rw (e, try_finally) refl ∙ ap (λ r. (r, (cleanup (m t).1).1)) (sym e)
    | inr (x, e) ↦ rw (e, try_finally) refl ∙ ap (λ r. (r, (cleanup (m t).1).1)) (sym e)
  ]

  create_node-IsBalanced : (n : Node) (s : S) → IsBalanced n → IsBalanced (create_node k (n, s)).1.0
  unfolding create_node
  create_node-IsBalanced n s b =
      go (k.create (node_root ++ "/") false (to_dict (dated k (k.time s) n)) s).0 refl
    where
      go :
          (r : Result String)
          → (k.create (node_root ++ "/") false (to_dict (dated k (k.time s) n)) s).0 ≡ r
          → IsBalanced (create_node k (n, s)).1.0
      go (ok path) e = rw (e, create_node) b
      go (raise x) e = rw (e, create_node) b

  store_node-IsBalanced : (n : Node) (s : S) → IsBalanced n → IsBalanced (store_node k (n, s)).1.0
  unfolding store_node
  store_node-IsBalanced n s b = elim (Bool-cases (is_set n.id)) [
    | inl e ↦ rw (e, store_node) b
    | inr e ↦ rw (e, store_node) (create_node-IsBalanced n s b)
  ]

  marking-IsBalanced : (n : Node) (s : S) → IsBalanced n → IsBalanced (marking k c (n, s)).1.0
  unfolding Node.set_state Node.is_node_state
  marking-IsBalanced n s b = store_node-IsBalanced _ s b

  -- Marking a node whose object holds its mutex exactly while it holds the lock keeps this so, and if
  -- it returns, both are released, whatever storing the node raises.
  pub mark_aged-IsBalanced :
      (wanted : State) (n : Node) (s : S)
      → IsBalanced n
      → let (r, (m, t)) = mark_aged k c wanted (n, s) in
        IsBalanced m × (r ≡ ok tt → (m.lock ≡ false) × (m.thread_lock ≡ false))
  unfolding mark_aged
  mark_aged-IsBalanced wanted n s b =
      if_rule Released (not (is_state n.state wanted)) (unlock_node k)
        (try_finally (suppress (marking k c)) (unlock_node k)) (n, s)
        (λ e. let u = unlock_node-IsBalanced k n s b in (u.0, u.1))
        (λ e.
          let u =
            unlock_node-IsBalanced k (marking k c (n, s)).1.0 (marking k c (n, s)).1.1
              (marking-IsBalanced n s b) in
          subst (λ w. Ends Released w)
            (sym (try_finally-suppress (marking k c) (unlock_node k) (n, s))) (u.0, u.1))
    where
      Released : Result (Unit {0}) → Node × S → Type 0
      Released r t = IsBalanced t.0 × (r ≡ ok tt → (t.0.lock ≡ false) × (t.0.thread_lock ≡ false))
