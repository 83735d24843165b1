-- ===== src/Zk/Oldest/Choice.antt =====
-- The second loop of deleteOldestUnusedNode: which candidate is deleted.
use nodepool.Prelude.{
  ap, ◌≤◌, ◌<◌, String, Bool, true, false, not, ◌||◌, some, List, [], ◌∷◌, Result, ok, raise,
  zk_lock, pure, ◌>>◌, ◌≡◌, refl, inl, inr, All, Bool-cases, arith,
}
use nodepool.Zk.States.{ready, is_state}
use nodepool.Zk.Values.{is_set}
use nodepool.Zk.Node.{Node}
use nodepool.Zk.Kazoo.{Kazoo}
use nodepool.Zk.Nodes.{get_nodes, lock_node, unlock_node}
use nodepool.Driver.Handler.Rules.{Ends}
use nodepool.Zk.Oldest.{
  time_of, sort_by_time, candidates, delete_locked, delete_first, delete_oldest_unused_node,
}
use nodepool.Zk.Oldest.Laws.{
  IsSorted, Some, sort_by_time-All, sort_by_time-Some, sort_by_time-IsSorted,
}

module _ {S : Type 0} (k : Kazoo S) where
  -- One candidate: whether it was deleted. It is not where another has locked it or it has changed.
  abbrev pub attempt_delete : Node → S → Result Bool × S
  attempt_delete n s =
      let (lock, locked) = lock_node k false true (n, s) in
      let (done, after) = delete_locked k locked in
      elim lock [
        | ok _ ↦ (done, after.1)
        | raise zk_lock ↦ (ok false, locked.1)
        | raise e ↦ (raise e, locked.1)
      ]

  -- Attempts that deleted nothing lead from one state to another.
  pub data Attempts : S → S → Type 0 where
    none_yet : {s : S} → Attempts s s
    first :
        {s t u : S} (n : Node) → attempt_delete n s ≡ (ok false, t) → Attempts t u → Attempts s u

  -- Behind such attempts, the node was not deleted.
  abbrev pub Refused : S → Node → Type 0
  Refused s n = (t : S) × Attempts s t × ((attempt_delete n t).0 ≡ ok false)

  -- Behind such attempts, the node was deleted, and nothing was done then. It was still ready and not
  -- allocated when it was locked.
  abbrev pub IsDeleted : (start end : S) → Node → Type 0
  IsDeleted s u n =
      (t : S) × Attempts s t
      × (attempt_delete n t ≡ (ok true, u))
      × (is_state (lock_node k false true (n, t)).1.0.state ready ≡ true)
      × (is_set (lock_node k false true (n, t)).1.0.allocated_to ≡ false)

  abbrev IsOldest : S → S → List Node → Node → Type 0
  IsOldest s u ns n = IsDeleted s u n × All (λ m. time_of m < time_of n → Refused s m) ns

  -- What the loop over these nodes leaves of them.
  abbrev pub Chosen : S → List Node → Result Bool → S → Type 0
  Chosen s ns (ok true) u = Some (IsOldest s u ns) ns
  Chosen s ns (ok false) u = All (Refused s) ns
  Chosen s ns (raise e) u = Unit

  delete_locked-ready :
      (n : Node) (s : S)
      → (delete_locked k (n, s)).0 ≡ ok true
      → (is_state n.state ready ≡ true) × (is_set n.allocated_to ≡ false)
  unfolding delete_locked
  delete_locked-ready n s e =
      elim (Bool-cases (not (is_state n.state ready) || is_set n.allocated_to)) [
        | inl changed ↦ absurd (refused (unlock_node k (n, s)) (rw changed at e))
        | inr same ↦ (ground (arith, same), ground (arith, same))
      ]
    where
      refused :
          (o : Result (Unit {0}) × (Node × S)) → ¬ (((λ t. o) >> pure false) (n, s)).0 ≡ ok true
      refused (ok u, t) h = cc
      refused (raise x, t) h = cc

  -- The attempt on the first node is refused, and the others follow.
  module _ (n : Node) (s behind : S) (no' : attempt_delete n s ≡ (ok false, behind)) where
    Refused-behind : (m : Node) → Refused behind m → Refused s m
    Refused-behind m (t, before, r) = (t, first n no' before, r)

    older-behind :
        (m : Node) (ns : List Node)
        → All (λ o. time_of o < time_of m → Refused behind o) ns
        → All (λ o. time_of o < time_of m → Refused s o) ns
    older-behind m [] h = tt
    older-behind m (o ∷ os) (r, h) = ((λ lt. Refused-behind o (r lt)), older-behind m os h)

    IsOldest-behind :
        (u : S) (ns ms : List Node)
        → Some (IsOldest behind u ns) ms
        → Some (IsOldest s u (n ∷ ns)) ms
    IsOldest-behind u ns [] h = absurd h
    IsOldest-behind u ns (m ∷ ms) (inl ((t, before, gone, state, free), older)) = inl (
      (t, first n no' before, gone, state, free),
      ((λ lt. (s, none_yet, ap (λ o. o.0) no')), older-behind m ns older),
    )
    IsOldest-behind u ns (m ∷ ms) (inr q) = inr (IsOldest-behind u ns ms q)

    Refused-behind-All : (ns : List Node) → All (Refused behind) ns → All (Refused s) ns
    Refused-behind-All [] h = tt
    Refused-behind-All (m ∷ ms) (r, h) = (Refused-behind m r, Refused-behind-All ms h)

    Chosen-behind :
        (ns : List Node) (r : Result Bool) (u : S) → Chosen behind ns r u → Chosen s (n ∷ ns) r u
    Chosen-behind ns (ok true) u h = inr (IsOldest-behind u ns ns h)
    Chosen-behind ns (ok false) u h = ((s, none_yet, ap (λ o. o.0) no'), Refused-behind-All ns h)
    Chosen-behind ns (raise e) u h = tt

  none_older :
      (n : Node) (s : S) (ns : List Node)
      → All (λ m. time_of n ≤ time_of m) ns
      → All (λ m. time_of m < time_of n → Refused s m) ns
  none_older n s [] h = tt
  none_older n s (m ∷ ms) (le, h) = ((λ lt. absurd (omega (arith, le, lt))), none_older n s ms h)

  delete_first-Chosen :
      (ns : List Node) (s : S) → IsSorted ns → Ends (Chosen s ns) (delete_first k ns s)
  unfolding delete_first
  delete_first-Chosen [] s h = tt
  delete_first-Chosen (n ∷ ns) s (least, h) =
      go (λ t. delete_first-Chosen ns t h) (lock_node k false true (n, s)).0
        (delete_locked k (lock_node k false true (n, s)).1).0 refl refl
    where
      go :
          ((t : S) → Ends (Chosen t ns) (delete_first k ns t))
          → (lock : Result (Unit {0})) (done : Result Bool)
          → (lock_node k false true (n, s)).0 ≡ lock
          → (delete_locked k (lock_node k false true (n, s)).1).0 ≡ done
          → let locked = (lock_node k false true (n, s)).1 in
            let after = (delete_locked k locked).1 in
            Ends (Chosen s (n ∷ ns)) (elim lock [
              | ok _ ↦ elim done [
                | ok true ↦ (ok true, after.1)
                | ok false ↦ delete_first k ns after.1
                | raise e ↦ (raise e, after.1)
              ]
              | raise zk_lock ↦ delete_first k ns locked.1
              | raise e ↦ (raise e, locked.1)
            ])
      go more (ok u) (ok true) a b =
          let locked = (lock_node k false true (n, s)).1 in
          let (state, allocated) = delete_locked-ready locked.0 locked.1 b in
          let done : attempt_delete n s ≡ (ok true, (delete_locked k locked).1.1) =
            rw (attempt_delete, a, b) refl in
          inl (
            (s, none_yet, done, state, allocated),
            ((λ lt. absurd (omega (arith, lt))), none_older n s ns least),
          )
      go more (ok u) (ok false) a b =
          let after = (delete_locked k (lock_node k false true (n, s)).1).1 in
          Chosen-behind n s after.1 (rw (attempt_delete, a, b) refl) ns _ _ (more after.1)
      go more (ok u) (raise e) a b = tt
      go more (raise zk_lock) d a b =
          let locked = (lock_node k false true (n, s)).1 in
          Chosen-behind n s locked.1 (rw (attempt_delete, a) refl) ns _ _ (more locked.1)
      go more (raise e) d a b = tt

  sorted-IsOldest :
      (s u : S) (ns ms : List Node)
      → Some (IsOldest s u (sort_by_time ns)) ms
      → Some (IsOldest s u ns) ms
  sorted-IsOldest s u ns [] h = absurd h
  sorted-IsOldest s u ns (m ∷ ms) (inl (gone, older)) = inl (gone, sort_by_time-All _ ns older)
  sorted-IsOldest s u ns (m ∷ ms) (inr q) = inr (sorted-IsOldest s u ns ms q)

  Chosen-sort_by_time :
      (s : S) (ns : List Node) (r : Result Bool) (u : S)
      → Chosen s (sort_by_time ns) r u
      → Chosen s ns r u
  Chosen-sort_by_time s ns (ok true) u h =
      sort_by_time-Some _ ns (sorted-IsOldest s u ns (sort_by_time ns) h)
  Chosen-sort_by_time s ns (ok false) u h = sort_by_time-All _ ns h
  Chosen-sort_by_time s ns (raise e) u h = tt

  -- If the nodes can be listed and no early return is taken, then deleteOldestUnusedNode, where it
  -- answers True, has requested the deletion of one of the candidates: that one was still ready and not
  -- allocated when it was locked, each candidate that is older had been tried before without a
  -- deletion, and nothing is done behind it. Where it answers False, every candidate was tried without
  -- a deletion.
  pub delete_oldest_unused_node-Chosen :
      (provider pool : String) (ids : List String) (nodes : List Node) (s t u : S)
      → get_nodes k s ≡ (ok ids, t)
      → candidates k provider pool ids t ≡ (ok (some nodes), u)
      → Ends (Chosen u nodes) (delete_oldest_unused_node k provider pool s)
  unfolding delete_oldest_unused_node
  delete_oldest_unused_node-Chosen provider pool ids nodes s t u a b =
      rw (a, b)
        (Chosen-sort_by_time u nodes (delete_first k (sort_by_time nodes) u).0
          (delete_first k (sort_by_time nodes) u).1
          (delete_first-Chosen (sort_by_time nodes) u (sort_by_time-IsSorted nodes)))
