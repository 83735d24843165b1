-- ===== src/Zk/Oldest/Laws.antt =====
-- The choice of deleteOldestUnusedNode.
use nodepool.Prelude.{
  ◌⊎◌, ℕ, ◌≤◌, String, List, [], ◌∷◌, ◌≢◌, inl, inr, leb, leb→le, arith, Bool-cases, All,
}
use nodepool.Zk.Node.{Node}
use nodepool.Zk.Oldest.{time_of, insert_by_time, sort_by_time, recent_delete, classify}

abbrev pub IsSorted : List Node → Type 0
IsSorted [] = Unit
IsSorted (n ∷ ns) = All (λ m. time_of n ≤ time_of m) ns × IsSorted ns

All-insert_by_time :
    (t : ℕ) (n : Node) (ns : List Node)
    → t ≤ time_of n
    → All (λ m. t ≤ time_of m) ns
    → All (λ m. t ≤ time_of m) (insert_by_time n ns)
unfolding insert_by_time
All-insert_by_time t n [] h a = (h, tt)
All-insert_by_time t n (m ∷ ms) h a = elim (Bool-cases (leb (time_of n) (time_of m))) [
  | inl e ↦ rw e (h, a)
  | inr e ↦ rw e (a.0, All-insert_by_time t n ms h a.1)
]

All-mono :
    (s t : ℕ) (ns : List Node) → s ≤ t → All (λ m. t ≤ time_of m) ns → All (λ m. s ≤ time_of m) ns
All-mono s t [] h a = tt
All-mono s t (n ∷ ns) h a = (omega arith, All-mono s t ns h a.1)

insert_by_time-IsSorted : (n : Node) (ns : List Node) → IsSorted ns → IsSorted (insert_by_time n ns)
unfolding insert_by_time
insert_by_time-IsSorted n [] h = (tt, tt)
insert_by_time-IsSorted n (m ∷ ms) h = elim (Bool-cases (leb (time_of n) (time_of m))) [
  | inl e ↦ let le = leb→le _ _ e in rw e ((le, All-mono (time_of n) (time_of m) ms le h.0), h)
  | inr e ↦
      rw e
        (All-insert_by_time (time_of m) n ms (ground arith) h.0, insert_by_time-IsSorted n ms h.1)
]

pub sort_by_time-IsSorted : (ns : List Node) → IsSorted (sort_by_time ns)
unfolding sort_by_time
sort_by_time-IsSorted [] = tt
sort_by_time-IsSorted (n ∷ ns) =
    insert_by_time-IsSorted n (sort_by_time ns) (sort_by_time-IsSorted ns)

abbrev pub Some : (Node → Type 0) → List Node → Type 0
Some P [] = ⊥
Some P (n ∷ ns) = P n ⊎ Some P ns

-- Sorting keeps all nodes, and adds none.
module _ (P : Node → Type 0) where
  insert_by_time-All : (n : Node) (ns : List Node) → All P (insert_by_time n ns) → P n × All P ns
  unfolding insert_by_time
  insert_by_time-All n [] h = h
  insert_by_time-All n (m ∷ ms) h = elim (Bool-cases (leb (time_of n) (time_of m))) [
    | inl e ↦ rw e at h
    | inr e ↦
        let (first, rest) : P m × All P (insert_by_time n ms) = rw e at h in
        let (own, others) = insert_by_time-All n ms rest in (own, (first, others))
  ]

  pub sort_by_time-All : (ns : List Node) → All P (sort_by_time ns) → All P ns
  unfolding sort_by_time
  sort_by_time-All [] h = tt
  sort_by_time-All (n ∷ ns) h =
      let (own, others) = insert_by_time-All n (sort_by_time ns) h in
      (own, sort_by_time-All ns others)

  insert_by_time-Some : (n : Node) (ns : List Node) → Some P (insert_by_time n ns) → P n ⊎ Some P ns
  unfolding insert_by_time
  insert_by_time-Some n [] h = h
  insert_by_time-Some n (m ∷ ms) h = elim (Bool-cases (leb (time_of n) (time_of m))) [
    | inl e ↦ rw e at h
    | inr e ↦
        let found : P m ⊎ Some P (insert_by_time n ms) = rw e at h in
        elim found [
          | inl p ↦ inr (inl p)
          | inr q ↦ elim (insert_by_time-Some n ms q) [ inl p ↦ inl p | inr p ↦ inr (inr p) ]
        ]
  ]

  pub sort_by_time-Some : (ns : List Node) → Some P (sort_by_time ns) → Some P ns
  unfolding sort_by_time
  sort_by_time-Some [] h = h
  sort_by_time-Some (n ∷ ns) h = elim (insert_by_time-Some n (sort_by_time ns) h) [
    | inl p ↦ inl p
    | inr q ↦ inr (sort_by_time-Some ns q)
  ]

-- No node whose state was set in the past counts as a delete of the last five minutes: once the
-- clock shows more than 300 seconds, the early return is never taken.
pub classify-ne-recent_delete :
    (now : ℕ) (provider pool : String) (n : Node)
    → 301 ≤ now
    → time_of n ≤ now
    → classify now provider pool n ≢ recent_delete
unfolding classify
classify-ne-recent_delete now provider pool n h k = ground arith
