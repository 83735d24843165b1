-- ===== src/Workers/Minimum/Laws.antt =====
-- How many requests the launcher has under way for each label.
use nodepool.Prelude.{
  ℕ, zero, suc, ◌+◌, String, Bool, true, false, not, List, [], ◌∷◌, elem, keep, map, lookup, ltb,
  if◌then◌else◌, M, Result, ok, raise, ◌>>=◌, for_each, on_right, OnOk, All, ◌≡◌, refl, sym, arith,
  ◌==◌, eq_refl, Bool-cases, inl, inr, subst, false-ne-true,
}
use nodepool.Zk.Node.{Node}
use nodepool.Zk.Request.{NodeRequest, new_request}
use nodepool.Zk.Request
use nodepool.Driver.Handler.Rules.{Ends, bind_rule}
use nodepool.Workers.Minimum.{
  Label, Services, Submitted, labels_of, remove_completed_requests, appended, submit,
  create_request, create_requests, create_if_available, create_missing, create_for, needed_labels,
  create_min_ready,
}
use nodepool.Workers.Minimum.Counts.{
  submitted, submitted-append_request, missing, missing_by, need-missing, elem-keep,
}

module _ {S : Type 0} (v : Services S) where
  -- A statement that returns has submitted so many requests for every label.
  abbrev More : {A : Type 0} → (String → ℕ) → Submitted → Result A → Submitted × S → Type 0
  More f m r u = OnOk (λ _. (x : String) → submitted x u.0 ≡ submitted x m + f x) r

  appended-More :
      (l : String) (m : Submitted) (o : Result (Unit {0}) × (NodeRequest × S))
      → Ends (More (λ x. if l == x then 1 else 0) m) (appended v l m o)
  unfolding appended
  appended-More l m (raise e, (q, t)) = tt
  appended-More l m (ok u, (q, t)) = λ x. submitted-append_request x l q m

  submit-More :
      (l : String) (r : Result NodeRequest) (m : Submitted) (s : S)
      → Ends (More (λ x. if l == x then 1 else 0) m) (submit v l r (m, s))
  unfolding submit
  submit-More l (raise e) m s = tt
  submit-More l (ok req) m s = appended-More l m (v.store_node_request (req, s))

  create_request-More :
      (l : String) (m : Submitted) (s : S)
      → Ends (More (λ x. if l == x then 1 else 0) m) (create_request v l (m, s))
  unfolding create_request new_request Request.set_state Request.is_request_state
  create_request-More l m s = submit-More l (ok _) m s

  create_requests-More :
      (n : ℕ) (l : String) (m : Submitted) (s : S)
      → Ends (More (λ x. if l == x then n else 0) m) (create_requests v n l (m, s))
  unfolding create_requests
  create_requests-More zero l m s = λ x. ground arith
  create_requests-More (suc n) l m s =
      bind_rule (More (λ x. if l == x then 1 else 0) m) (More (λ x. if l == x then suc n else 0) m)
        (create_request v l) _ (m, s) (create_request-More l m s) (λ e u h. tt)
        (λ y u h.
          weaken u h (create_requests v n l u).0 (create_requests v n l u).1
            (create_requests-More n l u.0 u.1))
    where
      weaken :
          (u : Submitted × S)
          → ((x : String) → submitted x u.0 ≡ submitted x m + (if l == x then 1 else 0))
          → (r : Result (Unit {0})) (w : Submitted × S)
          → More (λ x. if l == x then n else 0) u.0 r w
          → More (λ x. if l == x then suc n else 0) m r w
      weaken u h (raise e) w k = tt
      weaken u h (ok y) w k = λ x. ground (arith, h x, k x)

  create_missing-More :
      (l : Label) (n : ℕ) (m : Submitted) (s : S)
      → ((t : S) → OnOk (λ b. b ≡ true) (v.label_image_is_available l t).0)
      → Ends (More (λ x. if l.name == x then n else 0) m) (create_missing v l n (m, s))
  unfolding create_missing
  create_missing-More l zero m s available = λ x. ground arith
  create_missing-More l (suc n) m s available =
      bind_rule (λ r u. OnOk (λ b. b ≡ true) r × (u.0 ≡ m))
        (More (λ x. if l.name == x then suc n else 0) m) (on_right (v.label_image_is_available l))
        (create_if_available v l (suc n)) (m, s) (available s, refl) (λ e u h. tt)
        (λ b u h. go b u.0 u.1 h.0 h.1)
    where
      go :
          (b : Bool) (m' : Submitted) (t : S)
          → b ≡ true
          → m' ≡ m
          → Ends
              (More (λ x. if l.name == x then suc n else 0) m)
              (create_if_available v l (suc n) b (m', t))
      go true m' t e same =
          subst
            (λ w.
              Ends (More (λ x. if l.name == x then suc n else 0) w)
                (create_requests v (suc n) l.name (m', t)))
            same (create_requests-More (suc n) l.name m' t)
      go false m' t e same = absurd (false-ne-true e)

  -- The body of the loop, where the names of labels that are needed have no request left.
  create_for-More :
      (left : Submitted) (needed : List String) (ready : List (String × List Node)) (l : Label)
      (m : Submitted) (s : S)
      → ((t : S) → OnOk (λ b. b ≡ true) (v.label_image_is_available l t).0)
      → elem l.name needed ≡ not (elem l.name (labels_of left))
      → Ends
          (More (λ x. if l.name == x then missing left ready l else 0) m)
          (create_for v needed ready l (m, s))
  unfolding create_for
  create_for-More left needed ready l m s available e =
      elim (Bool-cases (elem l.name (labels_of left))) [
        | inl h ↦ rw (e, h) (λ x. ground arith)
        | inr h ↦
            rw (e, h)
              (elim (Bool-cases (ltb 0 l.min_ready)) [
                | inl p ↦
                    rw (p, need-missing l (lookup l.name ready))
                      (create_missing-More l _ m s available)
                | inr p ↦ rw p (λ x. ground (arith, p))
              ])
      ]

  -- The images of all labels are always available.
  abbrev pub Available : Type 0
  Available = (l : Label) (t : S) → OnOk (λ b. b ≡ true) (v.label_image_is_available l t).0

  -- The labels of a list, by what is known of their names.
  abbrev AllFree : Submitted → List String → List Label → Type 0
  AllFree left needed ls = All (λ l. elem l.name needed ≡ not (elem l.name (labels_of left))) ls

  create_all-More :
      (left : Submitted) (needed : List String) (ready : List (String × List Node))
      (ls : List Label) (m : Submitted) (s : S)
      → Available
      → AllFree left needed ls
      → Ends (More (missing_by left ready ls) m) (for_each ls (create_for v needed ready) (m, s))
  unfolding missing_by
  create_all-More left needed ready [] m s available free = λ x. omega arith
  create_all-More left needed ready (l ∷ ls) m s available (f, free) =
      bind_rule (More one m) (More (missing_by left ready (l ∷ ls)) m) (create_for v needed ready l)
        _ (m, s) (create_for-More left needed ready l m s (available l) f) (λ e u h. tt)
        (λ y u h.
          plus u h (for_each ls (create_for v needed ready) u).0
            (for_each ls (create_for v needed ready) u).1
            (create_all-More left needed ready ls u.0 u.1 available free))
    where
      one : String → ℕ
      one x = if l.name == x then missing left ready l else 0

      plus :
          (u : Submitted × S)
          → ((x : String) → submitted x u.0 ≡ submitted x m + one x)
          → (r : Result (Unit {0})) (w : Submitted × S) → More (missing_by left ready ls) u.0 r w
          → More (missing_by left ready (l ∷ ls)) m r w
      plus u h (raise e) w k = tt
      plus u h (ok y) w k = λ x. omega (arith, h x, k x)

  all_free :
      (left : Submitted) (labels : List Label) → AllFree left (needed_labels labels left) labels
  all_free left labels = go labels (map (λ l. l.name) labels) (there labels)
    where
      Named : List String → List Label → Type 0
      Named names ls = All (λ l. elem l.name names ≡ true) ls

      further :
          (x : String) (names : List String) (ls : List Label)
          → Named names ls
          → Named (x ∷ names) ls
      further x names [] h = tt
      further x names (l ∷ ls) (h, hs) = (ground (arith, h), further x names ls hs)

      there : (ls : List Label) → Named (map (λ l. l.name) ls) ls
      there [] = tt
      there (l ∷ ls) =
          (rw (eq_refl l.name) refl, further l.name (map (λ l. l.name) ls) ls (there ls))

      go :
          (ls : List Label) (names : List String)
          → Named names ls
          → AllFree left (keep (λ x. not (elem x (labels_of left))) names) ls
      go [] names h = tt
      go (l ∷ ls) names (h, hs) =
          (elem-keep (λ x. not (elem x (labels_of left))) names l.name h, go ls names hs)

  -- The statements behind the removal of the completed requests, at what that left.
  module _ (labels : List Label) (left : Submitted) (t : S) where
    abbrev needed : List String
    needed = needed_labels labels left

    abbrev Filled : Result (Unit {0}) → Submitted × S → Type 0
    Filled r w =
        OnOk
          (λ _.
            (ready : List (String × List Node)) × ((v.get_ready_nodes_of_types needed t).0
              ≡ ok ready)
            × ((x : String) → submitted x w.0 ≡ submitted x left + missing_by left ready labels x))
          r

    with_ready :
        (ready : List (String × List Node)) (o : Result (Unit {0}) × (Submitted × S))
        → (v.get_ready_nodes_of_types needed t).0 ≡ ok ready
        → Ends (More (missing_by left ready labels) left) o
        → Ends Filled o
    with_ready ready (raise e, w) q k = tt
    with_ready ready (ok y, w) q k = (ready, q, k)

    create-Filled :
        Available
        → Ends Filled (
            (on_right (v.get_ready_nodes_of_types needed) >>= λ ready.
            for_each labels (create_for v needed ready))
              (left, t))
    create-Filled available =
        bind_rule (λ r w. ((v.get_ready_nodes_of_types needed t).0 ≡ r) × (w.0 ≡ left)) Filled
          (on_right (v.get_ready_nodes_of_types needed))
          (λ ready. for_each labels (create_for v needed ready)) (left, t) (refl, refl)
          (λ e w h. tt)
          (λ ready w h.
            subst (λ a. Ends Filled (for_each labels (create_for v needed ready) (a, w.1)))
              (sym h.1)
              (with_ready ready (for_each labels (create_for v needed ready) (left, w.1)) h.0 (
                create_all-More left needed ready labels left w.1 available
                  (all_free left labels))))

  -- If the images of all labels are always available, and createMinReady returns, then it has read
  -- the ready nodes, and for every label the launcher has as many requests under way as were left
  -- when the completed ones were removed, and if none was left, as many as the label's minimum is
  -- above the number of its ready nodes.
  pub create_min_ready-fills :
      (labels : List Label) (m : Submitted) (s : S)
      → Available
      → let (left, t) = (remove_completed_requests v (m, s)).1 in
        let (r, (after, u)) = create_min_ready v labels (m, s) in
        OnOk
          (λ _.
            (ready : List (String × List Node)) × ((v.get_ready_nodes_of_types
                (needed_labels labels left)
                t).0
              ≡ ok ready)
            × ((x : String)
                → submitted x after ≡ submitted x left + missing_by left ready labels x))
          r
  unfolding create_min_ready
  create_min_ready-fills labels m s available =
      bind_rule (λ r u. u ≡ after_removal) (Filled labels after_removal.0 after_removal.1)
        (remove_completed_requests v) rest (m, s) refl (λ e u h. tt)
        (λ x u h.
          subst (λ w. Ends (Filled labels after_removal.0 after_removal.1) (rest x w)) (sym h)
            (create-Filled labels after_removal.0 after_removal.1 available))
    where
      after_removal : Submitted × S
      after_removal = (remove_completed_requests v (m, s)).1

      rest : Unit {0} → M (Submitted × S) (Unit {0})
      rest x (a, b) =
          (on_right (v.get_ready_nodes_of_types (needed_labels labels a)) >>= λ ready.
          for_each labels (create_for v (needed_labels labels a) ready))
            (a, b)
