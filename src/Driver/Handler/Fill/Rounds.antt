-- ===== src/Driver/Handler/Fill/Rounds.antt =====
-- What one round of filling the node set does to the recorded labels, for every behaviour of the
-- services.
use mathlib.Core.List.{map-append}
use nodepool.Prelude.{
  String, Bool, true, false, Option, List, [], ◌∷◌, ◌++◌, Result, ok, raise, ◌≡◌, refl, ap, ◌∙◌,
  ◌⊎◌, inl, inr, Option-cases, not, ◌||◌, attempt, zk_lock, ◌>>=◌, ◌>>◌, lookup, pure,
  if◌then◌else◌,
}
use nodepool.Zk.States.{ready, is_state}
use nodepool.Zk.Values.{is_set, is_str}
use nodepool.Zk.Node.{Node}
use nodepool.Driver.Labels.{labels, Recorder}
use nodepool.Driver.Labels
use nodepool.Driver.Handler.{Handler, Config, Services, Run, with_node, change}
use nodepool.Driver.Handler.Decline.{decline_request, declined_handler_cleanup}
use nodepool.Driver.Handler.Kept.{
  recorded, Kept, Kept-trans, IsLawful, Left, declined_handler_cleanup-Keeps, decline_request-Keeps,
}
use nodepool.Driver.Handler.Rules.{
  Ends, bind_rule, if_rule, with_node_rule, attempt_node_rule, on_right_rule,
}
use nodepool.Driver.Handler.Fill.{
  take_node, take_if_free, after_lock, try_ready, launch_or_wait, reuse_node, free_quota, pause,
  launch_new, at_quota, fill_type, usable,
}

abbrev pub Grown : List String → Handler → Handler → Type 0
Grown ls h g = (recorded g ≡ recorded h ++ ls) × (g.request.node_types ≡ h.request.node_types)

-- One round: it records its type exactly if it goes on; an exception may come before or behind.
abbrev pub Filled : String → Handler → Result Bool → Handler → Type 0
Filled l h (ok true) g = Grown (l ∷ []) h g
Filled l h (ok false) g = Kept h g
Filled l h (raise e) g = Kept h g ⊎ Grown (l ∷ []) h g

-- A launch raises before or behind the recording of its type.
abbrev Launched : String → Handler → Result (Unit {0}) → Handler → Type 0
Launched l h (ok u) g = Grown (l ∷ []) h g
Launched l h (raise e) g = Kept h g ⊎ Grown (l ∷ []) h g

Grown-Launched :
    (l : String) (h g : Handler) (r : Result (Unit {0})) → Grown (l ∷ []) h g → Launched l h r g
Grown-Launched l h g (ok u) p = p
Grown-Launched l h g (raise e) p = inr p

Kept-Filled :
    (l : String) (h g k : Handler) (r : Result Bool) → Kept h g → Filled l g r k → Filled l h r k
Kept-Filled l h g k (ok true) p q = (q.0 ∙ ap (λ x. x ++ l ∷ []) p.0, q.1 ∙ p.1)
Kept-Filled l h g k (ok false) p q = Kept-trans h g k p q
Kept-Filled l h g k (raise e) p q = elim q [
  | inl kept ↦ inl (Kept-trans h g k p kept)
  | inr grown ↦ inr (grown.0 ∙ ap (λ x. x ++ l ∷ []) p.0, grown.1 ∙ p.1)
]

labels-add :
    (l : String) (id : Option String) (d : Recorder)
    → labels (Labels.add l id d) ≡ labels d ++ l ∷ []
unfolding Labels.add
labels-add l id d = map-append (λ e. e.label) d (record { label = l; node_id = id } ∷ [])

module _ {S : Type 0} (c : Config) (v : Services S) where
  abbrev pub Fills : String → Handler → Result Bool → Handler × S → Type 0
  Fills l h r (g, t) = Filled l h r g

  take_node-Fills :
      (l : String) (n : Node) (h : Handler) (s : S) → Ends (Fills l h) (take_node c v l n (h, s))
  unfolding take_node
  take_node-Fills l n h s =
      with_node_rule (Fills l h) v.store_node _ _ _ s (λ e t. inl (refl, refl))
        (λ m t.
          on_right_rule (Fills l h) (v.node_reused m) _ _ t
            (λ e u. inr (labels-add l m.id h.satisfied_types, refl))
            (λ a u. (labels-add l m.id h.satisfied_types, refl)))

  take_if_free-Fills :
      (l : String) (n : Node) (others : Run S Bool) (h : Handler) (s : S)
      → ((t : S) → Ends (Fills l h) (others (h, t)))
      → Ends (Fills l h) (take_if_free c v l n others (h, s))
  unfolding take_if_free
  take_if_free-Fills l n others h s next =
      if_rule (Fills l h) (not (is_state n.state ready) || is_set n.allocated_to)
        (with_node v.unlock_node n >> others) (take_node c v l n) (h, s)
        (λ e.
          with_node_rule (Fills l h) v.unlock_node n (λ m. others) h s (λ x t. inl (refl, refl))
            (λ m t. next t))
        (λ e. take_node-Fills l n h s)

  after_lock-Fills :
      (l : String) (others : Run S Bool) (h : Handler) (r : Result Node) (s : S)
      → ((t : S) → Ends (Fills l h) (others (h, t)))
      → Ends (Fills l h) (after_lock c v l others r (h, s))
  unfolding after_lock
  after_lock-Fills l others h (ok n) s next = take_if_free-Fills l n others h s next
  after_lock-Fills l others h (raise e) s next =
      elim e as (λ k. Ends (Fills l h) (after_lock c v l others (raise k) (h, s))) [
        | zk_lock ↦ next s
        | _ ↦ inl (refl, refl)
      ]

  try_ready-Fills :
      (l : String) (ns : List Node) (h : Handler) (s : S)
      → Ends (Fills l h) (try_ready c v l ns (h, s))
  unfolding try_ready
  try_ready-Fills l [] h s = (refl, refl)
  try_ready-Fills l (n ∷ ns) h s =
      let others = try_ready c v l ns in
      let next = try_ready-Fills l ns h in
      if_rule (Fills l h) (usable c v s n)
        (attempt (with_node v.lock_node n) >>= after_lock c v l others) others (h, s)
        (λ e.
          attempt_node_rule (Fills l h) v.lock_node n (after_lock c v l others) h s
            (λ r t. after_lock-Fills l others h r t next))
        (λ e. next s)

  launch_new-Grown :
      (l : String) (h : Handler) (s : S)
      → Ends (λ r (g, t). Launched l h r g) (launch_new c v l (h, s))
  unfolding launch_new
  launch_new-Grown l h s =
      with_node_rule (λ r (g, t). Launched l h r g) v.set_node_metadata _ _ _ s
        (λ e t. inl (refl, refl))
        (λ n1 t1.
          with_node_rule (λ r (g, t). Launched l h r g) v.store_node _ _ _ t1
            (λ e t. inl (refl, refl))
            (λ n2 t2.
              with_node_rule (λ r (g, t). Launched l h r g) v.lock_node _ _ _ t2
                (λ e t. inl (refl, refl))
                (λ n3 t3.
                  with_node_rule (λ r (g, t). Launched l h r g) v.store_node _ _ _ t3
                    (λ e t. inl (refl, refl))
                    (λ n4 t4.
                      Grown-Launched l h _ _ (labels-add l n4.id h.satisfied_types, refl)))))

  reuse_node-Fills :
      (nodes : List (String × List Node)) (l : String) (h : Handler) (s : S)
      → Ends (Fills l h) (reuse_node c v nodes l (h, s))
  unfolding reuse_node
  reuse_node-Fills nodes l h s = elim (Option-cases (lookup l nodes)) [
    | inl e ↦ rw e (refl, refl)
    | inr (ns, e) ↦ rw e (
        if_rule (Fills l h) h.request.reuse (try_ready c v l ns) (pure false) (h, s)
          (λ e. try_ready-Fills l ns h s) (λ e. (refl, refl)))
  ]

  module _ (lawful : IsLawful v) where
    free_quota_Keeps : (h : Handler) (s : S) → Ends (Left h) (free_quota c v (h, s))
    unfolding free_quota pause
    free_quota_Keeps h s =
        on_right_rule (Left h) (v.delete_oldest_unused_node c.provider c.pool) (λ b. pause c v) h s
          (λ e t. (refl, refl))
          (λ b t.
            if_rule (Left h) c.pause_at_quota (change (λ g. record g { paused = true }))
              (declined_handler_cleanup c v) (h, t) (λ e. (refl, refl))
              (λ e. declined_handler_cleanup-Keeps c v lawful h t))

    at_quota_Keeps : (h : Handler) (s : S) → Ends (Left h) (at_quota c v (h, s))
    unfolding at_quota
    at_quota_Keeps h s =
        if_rule (Left h) (is_str h.request.requestor "NodePool:min-ready") (decline_request c v)
          (free_quota c v) (h, s) (λ e. decline_request-Keeps c v lawful h s)
          (λ e. free_quota_Keeps h s)

    launch_or_wait-Fills :
        (l : String) (h : Handler) (s : S) → Ends (Fills l h) (launch_or_wait c v l (h, s))
    unfolding launch_or_wait
    launch_or_wait-Fills l h s =
        on_right_rule (Fills l h) (v.has_remaining_quota l) _ h s (λ e t. inl (refl, refl))
          (λ enough t.
            if_rule (Fills l h) enough (launch_new c v l >> pure true) (at_quota c v >> pure false)
              (h, t)
              (λ e.
                bind_rule (λ r (g, u). Launched l h r g) (Fills l h) (launch_new c v l)
                  (λ u. pure true) (h, t) (launch_new-Grown l h t) (λ x u p. p) (λ a u p. p))
              (λ e.
                bind_rule (Left h) (Fills l h) (at_quota c v) (λ u. pure false) (h, t)
                  (at_quota_Keeps h t) (λ x u p. inl p) (λ a u p. p)))

    pub fill_type-Fills :
        (nodes : List (String × List Node)) (l : String) (h : Handler) (s : S)
        → Ends (Fills l h) (fill_type c v nodes l (h, s))
    unfolding fill_type
    fill_type-Fills nodes l h s =
        bind_rule (Fills l h) (Fills l h) (reuse_node c v nodes l)
          (λ got. if got then pure true else launch_or_wait c v l) (h, s)
          (reuse_node-Fills nodes l h s) (λ x u p. p)
          (λ got u p.
            elim got
                as (λ b.
                  Filled l h (ok b) u.0
                  → Ends (Fills l h) ((if b then pure true else launch_or_wait c v l) u)) [
                    | true ↦ λ q. q
                    | false ↦ λ q. Kept-Filled l h u.0 _ _ q (launch_or_wait-Fills l u.0 u.1)
                  ]
              p)
