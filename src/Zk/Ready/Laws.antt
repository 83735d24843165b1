-- ===== src/Zk/Ready/Laws.antt =====
-- Which nodes getReadyNodesOfTypes lists under a label.
use mathlib.Core.List.{append-nil, append_assoc}
use nodepool.Prelude.{
  refl, suc, ◌||◌, Bool-cases, inl, inr, ◌+◌, ap, Bool, ◌==◌, String, Bool, not, ◌&&◌, some, none,
  List, [], ◌∷◌, ◌++◌, ◌≡◌, sym, if◌then◌else◌, elem, count, replicate, lookup, ◌==◌, eq_iff, arith,
}
use nodepool.Zk.States.{ready, is_state}
use nodepool.Zk.Values.{is_set}
use nodepool.Zk.Node.{Node}
use nodepool.Zk.Ready.{append_to, group_labels, group_ready}

-- `d.get(label, [])`
pub listed : String → List (String × List Node) → List Node
unfolding lookup
listed label m = elim (lookup label m) [ none ↦ [] | some ns ↦ ns ]

-- Ready, and not allocated to a request.
abbrev pub is_free : Node → Bool
is_free n = is_state n.state ready && not (is_set n.allocated_to)

-- What one node adds under a label.
abbrev pub copies : String → List String → Node → List Node
copies label labels n = if elem label n.type then replicate (count label labels) n else []

-- The nodes of one label, each as often as the label was asked for.
pub free_of : String → List String → List Node → List Node
free_of label labels [] = []
free_of label labels (n ∷ ns) =
    (if is_free n then copies label labels n else []) ++ free_of label labels ns

listed-append_to :
    (label l : String) (n : Node) (m : List (String × List Node))
    → listed label (append_to l n m)
      ≡ (if l == label then listed label m ++ n ∷ [] else listed label m)
unfolding listed append_to
listed-append_to label l n [] = ground arith
listed-append_to label l n ((j, ns) ∷ m) =
    ground (arith, eq_iff j l, eq_iff j label, eq_iff l label, listed-append_to label l n m)

copies-cons :
    (label l : String) (labels : List String) (n : Node)
    → copies label (l ∷ labels) n
      ≡ (if elem l n.type && l == label then n ∷ [] else []) ++ copies label labels n
copies-cons label l labels n = elim (Bool-cases (l == label)) [
  | inl e ↦
      rw (e, (eq_iff l label).0 e)
        (elim (Bool-cases (elem label n.type)) [
          | inl f ↦ rw f (ap (λ t. replicate t n) {y = suc (count label labels)} (omega arith))
          | inr f ↦ rw f refl
        ])
  | inr e ↦ rw e (elim (Bool-cases (elem l n.type)) [
    | inl f ↦ rw f (zero_more n)
    | inr f ↦ rw f (zero_more n)
  ])
]
  where
    zero_more :
        (n : Node)
        → (if elem label n.type then replicate (0 + count label labels) n else [])
          ≡ copies label labels n
    zero_more n =
        ap (λ t. if elem label n.type then replicate t n else []) {y = count label labels}
          (omega arith)

listed-group_labels :
    (label : String) (labels : List String) (n : Node) (m : List (String × List Node))
    → listed label (group_labels labels n m) ≡ listed label m ++ copies label labels n
unfolding group_labels
listed-group_labels label [] n m = ground (arith, append-nil (listed label m))
listed-group_labels label (l ∷ labels) n m =
    rw
      (
        listed-group_labels label labels n (if elem l n.type then append_to l n m else m),
        copies-cons label l labels n,
      )
      (elim (Bool-cases (elem l n.type)) [
        | inl e ↦
            rw (e, listed-append_to label l n m)
              (elim (Bool-cases (l == label)) [
                | inl hit ↦ rw hit (append_assoc (listed label m) (n ∷ []) (copies label labels n))
                | inr miss ↦ rw miss refl
              ])
        | inr e ↦ rw e refl
      ])

-- Under each label stand the free nodes that carry it, in the order of the nodes, each as often as
-- the label occurs in the query.
pub listed-group_ready :
    (label : String) (labels : List String) (nodes : List Node) (m : List (String × List Node))
    → listed label (group_ready labels nodes m) ≡ listed label m ++ free_of label labels nodes
unfolding group_ready free_of
listed-group_ready label labels [] m = sym (append-nil (listed label m))
listed-group_ready label labels (n ∷ ns) m = rw skip_taken (elim (Bool-cases (is_free n)) [
  | inl free ↦
      rw
        (
          free,
          listed-group_ready label labels ns (group_labels labels n m),
          listed-group_labels label labels n m,
        )
        (append_assoc (listed label m) (copies label labels n) (free_of label labels ns))
  | inr taken ↦ rw taken (listed-group_ready label labels ns m)
])
  where
    skip_taken : (not (is_state n.state ready) || is_set n.allocated_to) ≡ not (is_free n)
    skip_taken = ground arith
