-- ===== src/Workers/Minimum/Counts.antt =====
-- The requests that are under way for a label, and the nodes that are missing.
use nodepool.Prelude.{
  ℕ, ◌+◌, ◌-◌, String, Bool, true, false, Option, some, none, List, [], ◌∷◌, elem, keep, length,
  length-append, lookup, if◌then◌else◌, ◌≡◌, refl, ◌∙◌, arith, ◌==◌, eq_iff, eq_refl, Bool-cases,
  inl, inr,
}
use nodepool.Zk.Node.{Node}
use nodepool.Zk.Request.{NodeRequest}
use nodepool.Workers.Minimum.{Label, Submitted, append_request, labels_of, need}

-- How many requests are under way for a label.
unfoldable pub submitted : String → Submitted → ℕ
submitted x [] = 0
submitted x ((j, qs) ∷ m) = if j == x then length qs else submitted x m

pub submitted-append_request :
    (x l : String) (q : NodeRequest) (m : Submitted)
    → submitted x (append_request l q m) ≡ submitted x m + (if l == x then 1 else 0)
unfolding submitted append_request
submitted-append_request x l q [] = ground arith
submitted-append_request x l q ((j, qs) ∷ m) = grind (
  arith,
  eq_iff j l,
  eq_iff j x,
  eq_iff l x,
  length-append qs (q ∷ []),
  submitted-append_request x l q m,
)

-- How many nodes of a label are missing by its minimum, if the launcher has no request for it left.
abbrev pub ready_count : Option (List Node) → ℕ
ready_count none = 0
ready_count (some nodes) = length nodes

abbrev pub missing : (left : Submitted) → List (String × List Node) → Label → ℕ
unfolding lookup
missing left ready l =
    if elem l.name (labels_of left) then 0 else l.min_ready - ready_count (lookup l.name ready)

-- The same for all labels by a name; there is one at most.
unfoldable pub missing_by : (left : Submitted) → List (String × List Node) → List Label → String → ℕ
missing_by left ready [] x = 0
missing_by left ready (l ∷ ls) x =
    (if l.name == x then missing left ready l else 0) + missing_by left ready ls x

pub need-missing : (l : Label) (o : Option (List Node)) → need l o ≡ l.min_ready - ready_count o
unfolding need
need-missing l none = omega arith
need-missing l (some nodes) = ground arith

pub elem-keep :
    (p : String → Bool) (xs : List String) (x : String)
    → elem x xs ≡ true
    → elem x (keep p xs) ≡ p x
elem-keep p xs x h = go xs (all_keep xs) h
  where
    all_keep : (ys : List String) → elem x (keep p ys) ≡ (if elem x ys then p x else false)
    all_keep [] = refl
    all_keep (y ∷ ys) = elim (Bool-cases (y == x)) [
      | inl e ↦
          let same : y ≡ x = (eq_iff y x).0 e in
          rw (same, eq_refl x)
            (elim (Bool-cases (p x)) [
              | inl t ↦ rw (t, eq_refl x) refl
              | inr f ↦ rw f (
                  all_keep ys
                  ∙ rw f (elim (Bool-cases (elem x ys)) [ inl i ↦ rw i refl | inr i ↦ rw i refl ]))
            ])
      | inr e ↦
          rw e (elim (Bool-cases (p y)) [
            | inl t ↦ rw (t, e) (all_keep ys)
            | inr f ↦ rw f (all_keep ys)
          ])
    ]

    go :
        (ys : List String)
        → elem x (keep p ys) ≡ (if elem x ys then p x else false)
        → elem x ys ≡ true
        → elem x (keep p ys) ≡ p x
    go ys a i = rw i at a
