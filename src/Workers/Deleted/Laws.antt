-- ===== src/Workers/Deleted/Laws.antt =====
-- For which nodes the worker starts a deletion.
use nodepool.Prelude.{
  String, Bool, true, false, not, ◌&&◌, ◌||◌, none, List, is_empty, ◌≡◌, M, Result, ok, raise,
  zk_lock, pure, ◌>>=◌, ◌>>◌, on_right, attempt, OnOk, arith,
}
use nodepool.Zk.States.{ready, deleted, is_state}
use nodepool.Zk.Values.{is_set}
use nodepool.Zk.Paths.{format_id}
use nodepool.Zk.Node.{Node}
use nodepool.Driver.Handler.Rules.{Ends, bind_rule, if_rule, for_each_rule}
use nodepool.Workers.Deleted.{
  Services, in_cleanup_states, is_missing, delete_instance, is_orphan, deallocate_if,
  free_locked_orphan, after_lock, clean_orphan, clear_up, delete_locked, delete_unlocked,
  is_configured, clean_node, cleanup_nodes, run_deleted,
}

-- The worker has the lock of the node, the node is in a state for cleanup and not deleted already,
-- and it has a provider.
pub record IsDue (n : Node) : Type 0 where
  pub locked : n.lock ≡ true
  pub in_state : in_cleanup_states n.state ≡ true
  pub there : is_state n.state deleted ≡ false
  pub provided : is_missing n.provider ≡ false

-- What every call keeps of the state, whatever it answers. Starting a deletion need keep it only for
-- a node that is due. A lock that is returned is on the node.
pub record Keeps {S : Type 0} (v : Services S) (J : S → Type 0) : Type 0 where
  pub iterates : (s : S) → J s → J (v.node_iterator s).1
  pub requests : (id : String) (cached : Bool) (s : S) → J s → J (v.get_node_request id cached s).1
  pub locks : (n : Node) (s : S) → J s → J (v.lock_node (n, s)).1.1
  pub holds :
      (n : Node) (s : S) → OnOk (λ u. (v.lock_node (n, s)).1.0.lock ≡ true) (v.lock_node (n, s)).0
  pub stores : (n : Node) (s : S) → J s → J (v.store_node (n, s)).1.1
  pub unlocks : (n : Node) (s : S) → J s → J (v.unlock_node (n, s)).1.1
  pub deletes : (n : Node) (s : S) → J s → J (v.delete_node (n, s)).1.1
  pub starts : (n : Node) (s : S) → IsDue n → J s → J (v.start_node_cleanup n s).1

module _ {S : Type 0} (v : Services S) (providers : List String) (J : S → Type 0)
    (k : Keeps v J) where
  -- The state behind a statement on a node.
  abbrev Kept : {A : Type 0} → Result A → Node × S → Type 0
  Kept r t = J t.1

  is_orphan-Kept : (cached : Bool) (t : Node × S) → J t.1 → Ends Kept (is_orphan v cached t)
  unfolding is_orphan
  is_orphan-Kept cached (n, s) j =
      if_rule Kept (is_state n.state ready && is_set n.allocated_to) _ _ (n, s)
        (λ b.
          bind_rule Kept Kept (on_right (v.get_node_request (format_id n.allocated_to) cached)) _
            (n, s) (k.requests (format_id n.allocated_to) cached s j) (λ e u h. h) (λ a u h. h))
        (λ b. j)

  deallocate_if-Kept : (orphan : Bool) (t : Node × S) → J t.1 → Ends Kept (deallocate_if v orphan t)
  unfolding deallocate_if
  deallocate_if-Kept true t j = k.stores (record t.0 { allocated_to = none }) t.1 j
  deallocate_if-Kept false t j = j

  free_locked_orphan-Kept : (t : Node × S) → J t.1 → Ends Kept (free_locked_orphan v t)
  unfolding free_locked_orphan
  free_locked_orphan-Kept t j =
      bind_rule Kept Kept (is_orphan v false) _ t (is_orphan-Kept false t j) (λ e u h. h)
        (λ orphan u h.
          bind_rule Kept Kept (deallocate_if v orphan) _ u (deallocate_if-Kept orphan u h)
            (λ e w i. i) (λ x w i. k.unlocks w.0 w.1 i))

  -- What follows the attempt to lock a node has the lock.
  lock_rule :
      (rest : M (Node × S) (Unit {0})) (t : Node × S)
      → J t.1
      → ((u : Node × S) → u.0.lock ≡ true → J u.1 → Ends Kept (rest u))
      → Ends Kept ((attempt v.lock_node >>= after_lock v rest) t)
  unfolding after_lock
  lock_rule rest t j locked =
      go (v.lock_node t).0 (v.lock_node t).1 (k.holds t.0 t.1) (k.locks t.0 t.1 j)
    where
      go :
          (r : Result (Unit {0})) (u : Node × S)
          → OnOk (λ _. u.0.lock ≡ true) r
          → J u.1
          → Ends Kept (after_lock v rest r u)
      go (ok x) u l h = locked u l h
      go (raise zk_lock) u l h = h
      go (raise _) u l h = h

  clean_orphan-Kept : (t : Node × S) → J t.1 → Ends Kept (clean_orphan v t)
  unfolding clean_orphan
  clean_orphan-Kept t j =
      bind_rule Kept Kept (is_orphan v true) _ t (is_orphan-Kept true t j) (λ e u h. h)
        (λ orphan u h.
          if_rule Kept orphan _ _ u
            (λ b. lock_rule (free_locked_orphan v) u h (λ w l i. free_locked_orphan-Kept w i))
            (λ b. h))

  clear_up-Kept : (r : Result (Unit {0})) (t : Node × S) → J t.1 → Ends Kept (clear_up v r t)
  unfolding clear_up
  clear_up-Kept (ok x) t j = j
  clear_up-Kept (raise e) t j = k.unlocks t.0 t.1 j

  delete_locked-Kept : (t : Node × S) → t.0.lock ≡ true → J t.1 → Ends Kept (delete_locked v t)
  unfolding delete_locked delete_instance
  delete_locked-Kept (n, s) l j =
      if_rule Kept (is_state n.state deleted || is_missing n.provider) _ _ (n, s)
        (λ b. clear_up-Kept (v.delete_node (n, s)).0 (v.delete_node (n, s)).1 (k.deletes n s j))
        (λ b.
          if_rule Kept (not (in_cleanup_states n.state)) _ _ (n, s) (λ c. k.unlocks n s j)
            (λ c.
              k.starts n s
                (record {
                  locked = l;
                  in_state = ground (arith, c);
                  there = ground (arith, b);
                  provided = ground (arith, b);
                })
                j))

  delete_unlocked-Kept : (t : Node × S) → J t.1 → Ends Kept (delete_unlocked v t)
  unfolding delete_unlocked
  delete_unlocked-Kept (n, s) j =
      if_rule Kept (in_cleanup_states n.state) _ _ (n, s)
        (λ b. lock_rule (delete_locked v) (n, s) j delete_locked-Kept) (λ b. j)

  clean_node-Kept : (t : Node × S) → J t.1 → Ends Kept (clean_node v providers t)
  unfolding clean_node
  clean_node-Kept (n, s) j =
      if_rule Kept (is_configured v providers n && is_empty n.lock_contenders)
        (clean_orphan v >> delete_unlocked v) (pure tt) (n, s)
        (λ b.
          bind_rule Kept Kept (clean_orphan v) _ (n, s) (clean_orphan-Kept (n, s) j) (λ e u h. h)
            (λ x u h. delete_unlocked-Kept u h))
        (λ b. j)

  -- If every call keeps a property of the state, where starting a deletion need keep it only for a
  -- node that the worker has locked, that is in one of the states for cleanup, is not deleted and has
  -- a provider, and if a lock that is returned is on the node, then a run of the worker keeps it.
  pub run_deleted-keeps : (s : S) → J s → J (run_deleted v providers s).1
  unfolding run_deleted cleanup_nodes
  run_deleted-keeps s j =
      bind_rule Held Held v.node_iterator _ s (k.iterates s j) (λ e u h. h)
        (λ nodes u h. for_each_rule J nodes _ u (λ n w i. clean_node-Kept (n, w) i) h)
    where
      Held : {A : Type 0} → Result A → S → Type 0
      Held r t = J t
