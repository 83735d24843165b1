-- ===== src/Metastatic/Allocate/Freed.antt =====
-- What giving back the slot of a node does to the records.
use nodepool.Prelude.{
  ℕ, ◌+◌, ◌≤◌, String, true, false, List, [], ◌∷◌, ◌≡◌, refl, ok, Bool-cases, arith, inl, inr, ◌==◌,
  eq_refl,
}
use nodepool.Metastatic.{BackingNodeRecord, backs_node, Adapter, write, Store, Provider}
use nodepool.Metastatic.Slots.{slots, deallocate_slot-counts}
use nodepool.Metastatic.Allocate.{give_back}
use nodepool.Metastatic.Allocate.Holders.{
  backs_node-false, write-slots, total, write_other, total-write,
}
use nodepool.Metastatic.Allocate.References.{NotIn, Distinct, eqb_refl}

-- What giving back the slot of a node does to the records of a list.
pub record Freed (n : String) (rs : List ℕ) (heap heap' : ℕ → BackingNodeRecord) : Type 0 where
  pub others : (m : String) → m == n ≡ false → (i : ℕ) → slots m (heap' i) ≡ slots m (heap i)
  pub apart : (i : ℕ) → NotIn i rs → heap' i ≡ heap i
  pub freed : total n heap rs ≤ 1 → total n heap' rs ≡ 0

module _ {S : Type 0} (z : Store S) (p : Provider) where
  hit-Freed :
      (n : String) (r : ℕ) (rs : List ℕ) (a : Adapter) (s : S)
      → Distinct (r ∷ rs)
      → backs_node n (a.heap r) ≡ true
      → (h : ℕ → BackingNodeRecord) × (give_back z p n (r ∷ rs) (a, s)
          ≡ (ok tt, (record a { heap = h }, s)))
        × Freed n (r ∷ rs) a.heap h
  unfolding give_back
  hit-Freed n r rs a s d e =
      let (c, found, counts) = deallocate_slot-counts (z.time s) n (a.heap r) e in
      let one : slots n c + 1 ≡ slots n (a.heap r) = rw (eq_refl n) at (counts n) in
      (
        write r c a.heap,
        rw (e, found) refl,
        record {
          others = λ m o. write-slots m r c a.heap (ground (arith, counts m, o));
          apart = λ i h. write_other r i c a.heap (ground (arith, h.0));
          freed = λ h. omega (arith, total-write n r c a.heap (r ∷ rs) d (inl (eqb_refl r)));
        },
      )

  pub give_back-Freed :
      (n : String) (rs : List ℕ) (a : Adapter) (s : S)
      → Distinct rs
      → (h : ℕ → BackingNodeRecord) × (give_back z p n rs (a, s)
          ≡ (ok tt, (record a { heap = h }, s)))
        × Freed n rs a.heap h
  unfolding give_back
  give_back-Freed n [] a s d =
      (a.heap, refl, record { others = λ m e i. refl; apart = λ i h. refl; freed = λ h. refl })
  give_back-Freed n (r ∷ rs) a s d = elim (Bool-cases (backs_node n (a.heap r))) [
    | inl e ↦ hit-Freed n r rs a s d e
    | inr e ↦
        let (h, done, f) = give_back-Freed n rs a s d.1 in
        let kept : slots n (h r) ≡ 0 = rw (f.apart r d.0) (backs_node-false n (a.heap r) e) in
        (
          h,
          rw (e, done) refl,
          record {
            others = f.others;
            apart = λ i k. f.apart i k.1;
            freed = λ k. omega (arith, f.freed (omega arith), kept);
          },
        )
  ]
