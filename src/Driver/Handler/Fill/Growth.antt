-- ===== src/Driver/Handler/Fill/Growth.antt =====
-- What filling the node set does to the recorded labels, for every behaviour of the services.
use mathlib.Core.List.{append-nil, append_assoc}
use nodepool.Prelude.{
  ◌≤◌, String, Bool, true, false, List, [], ◌∷◌, ◌++◌, Result, ok, raise, ◌≡◌, refl, sym, ap, ◌∙◌,
  inl, inr, arith, count, count-append, counter_diff, count-counter_diff, ◌>>=◌, raise-ne-ok,
  on_right, pure, if◌then◌else◌,
}
use nodepool.Zk.Node.{Node}
use nodepool.Driver.Handler.{Handler, Config, Services}
use nodepool.Driver.Handler.Kept.{recorded, Kept, IsLawful}
use nodepool.Driver.Handler.Rules.{Ends, bind_rule, on_right_rule}
use nodepool.Driver.Handler.Fill.{fill_type, fill, wait_for_node_set}
use nodepool.Driver.Handler.Fill.Rounds.{Grown, Filled, Fills, fill_type-Fills}

-- The rounds took a first part of the types, in order, and all of them if the loop came to its end.
abbrev Progress : List String → Handler → Result Bool → Handler → Type 0
Progress ls h r g =
    (taken : List String) × (left : List String) × (ls ≡ taken ++ left)
    × Grown taken h g
    × (r ≡ ok true → left ≡ [])

unfinished : ¬ (ok false ≡ ok true)
unfinished p = cc

stopped :
    (l : String) (ls : List String) (h g : Handler) (r : Result Bool)
    → Kept h g
    → ¬ (r ≡ ok true)
    → Progress (l ∷ ls) h r g
stopped l ls h g r k never =
    ([], l ∷ ls, refl, (k.0 ∙ sym (append-nil _), k.1), λ e. absurd (never e))

later :
    (l : String) (ls : List String) (h g k : Handler) (r : Result Bool)
    → Grown (l ∷ []) h g
    → Progress ls g r k
    → Progress (l ∷ ls) h r k
later l ls h g k r p (taken, left, parts, grown, whole) = (
  l ∷ taken,
  left,
  ap (λ x. l ∷ x) parts,
  (grown.0 ∙ ap (λ x. x ++ taken) p.0 ∙ append_assoc (recorded h) (l ∷ []) taken, grown.1 ∙ p.1),
  whole,
)

nothing : (ls : List String) (h : Handler) (r : Result Bool) → ¬ (r ≡ ok true) → Progress ls h r h
nothing ls h r never = ([], ls, refl, (sym (append-nil _), refl), λ e. absurd (never e))

-- The labels that the node set still needs.
abbrev missing : Handler → List String
missing h = counter_diff h.request.node_types (recorded h)

module _ {S : Type 0} (c : Config) (v : Services S) (lawful : IsLawful v) where
  fill-Progress :
      (nodes : List (String × List Node)) (ls : List String) (h : Handler) (s : S)
      → Ends (λ r (g, t). Progress ls h r g) (fill c v nodes ls (h, s))
  unfolding fill
  fill-Progress nodes [] h s = ([], [], refl, (sym (append-nil _), refl), λ e. refl)
  fill-Progress nodes (l ∷ ls) h s =
      bind_rule (Fills c v l h) (λ r (g, t). Progress (l ∷ ls) h r g) (fill_type c v nodes l)
        (λ b. if b then fill c v nodes ls else pure false) (h, s)
        (fill_type-Fills c v lawful nodes l h s)
        (λ x u p. elim p [
          | inl k ↦ stopped l ls h u.0 (raise x) k (raise-ne-ok x true)
          | inr g ↦ (l ∷ [], ls, refl, g, λ e. absurd (raise-ne-ok x true e))
        ])
        (λ b u p.
          elim b
              as (λ b.
                Filled l h (ok b) u.0
                → Ends (λ r (g, t). Progress (l ∷ ls) h r g)
                    ((if b then fill c v nodes ls else pure false) u)) [
                      | true ↦ λ q.
                          later l ls h u.0 (fill c v nodes ls u).1.0 (fill c v nodes ls u).0 q
                            (fill-Progress nodes ls u.0 u.1)
                      | false ↦ λ q. stopped l ls h u.0 (ok false) q unfinished
                    ]
            p)

  wait_for_node_set-Progress :
      (h : Handler) (s : S)
      → Ends (λ r (g, t). Progress (missing h) h r g) (wait_for_node_set c v (h, s))
  unfolding wait_for_node_set
  wait_for_node_set-Progress h s = if_case h.request.reuse
    where
      filled :
          (nodes : List (String × List Node)) (t : S)
          → Ends (λ r (g, u). Progress (missing h) h r g) (fill c v nodes (missing h) (h, t))
      filled nodes t = fill-Progress nodes (missing h) h t

      if_case :
          (b : Bool)
          → Ends
              (λ r (g, t). Progress (missing h) h r g)
              (((if b then on_right (v.get_ready_nodes_of_types (missing h)) else pure [])
                  >>= λ nodes. fill c v nodes (missing h))
                (h, s))
      if_case true =
          on_right_rule (λ r (g, t). Progress (missing h) h r g)
            (v.get_ready_nodes_of_types (missing h)) (λ nodes. fill c v nodes (missing h)) h s
            (λ e t. nothing (missing h) h (raise e) (raise-ne-ok e true)) filled
      if_case false = filled [] s

  -- If the operations on a request keep its types: filling a node set that holds no label more often than the request asks for it keeps this so, on
  -- every way out of the loop, exceptions included, and leaves the types that are asked for.
  pub wait_for_node_set_bound :
      (h : Handler) (s : S)
      → ((l : String) → count l (recorded h) ≤ count l h.request.node_types)
      → let g = (wait_for_node_set c v (h, s)).1.0 in
        ((l : String) → count l (recorded g) ≤ count l g.request.node_types)
        × (g.request.node_types ≡ h.request.node_types)
  wait_for_node_set_bound h s bound =
      let (taken, left, parts, grown, whole) = wait_for_node_set-Progress h s in
      (
        λ l.
            rw (grown.0, grown.1)
              (omega (
                arith,
                bound l,
                count-append l (recorded h) taken,
                count-append l taken left,
                ap (count l) parts,
                count-counter_diff l h.request.node_types (recorded h),
              )),
        grown.1,
      )

  -- If the operations on a request keep its types, no label is recorded more often than the request
  -- asks for it, and the loop comes to its end, then every label is recorded exactly as often as it
  -- is asked for.
  pub wait_for_node_set_complete :
      (h : Handler) (s : S)
      → ((l : String) → count l (recorded h) ≤ count l h.request.node_types)
      → (wait_for_node_set c v (h, s)).0 ≡ ok true
      → let g = (wait_for_node_set c v (h, s)).1.0 in
        (l : String) → count l (recorded g) ≡ count l g.request.node_types
  wait_for_node_set_complete h s bound finished l =
      let (taken, left, parts, grown, whole) = wait_for_node_set-Progress h s in
      rw (grown.0, grown.1)
        (omega (
          arith,
          bound l,
          count-append l (recorded h) taken,
          count-append l taken left,
          ap (count l) parts,
          ap (count l) (whole finished),
          count-counter_diff l h.request.node_types (recorded h),
        ))
