-- ===== src/Metastatic/Allocate/Holders.antt =====
-- Which record backs a node: the references of an adapter, how many of their slots hold a node, and
-- the first record that backs it.
use nodepool.Prelude.{
  ℕ, zero, suc, ◌+◌, ◌≤◌, String, true, false, Option, some, none, List, [], ◌∷◌, ◌≡◌, refl, sym,
  subst, ◌∙◌, if◌then◌else◌, eqb, arith, inl, inr, Bool-cases, false-ne-true,
}
use nodepool.Metastatic.{BackingNodeRecord, write, backs_node, holds}
use nodepool.Metastatic.Slots.{slots, holds-count, count-holds}
use nodepool.Metastatic.Allocate.References.{
  NotIn, IsIn, Distinct, Inserted, here, there, eqb-eq, eqb_refl,
}

-- The slots of all records that hold a node.
abbrev pub total : String → (ℕ → BackingNodeRecord) → List ℕ → ℕ
total m heap [] = 0
total m heap (r ∷ rs) = slots m (heap r) + total m heap rs

-- The first record that backs a node.
abbrev pub holder : String → (ℕ → BackingNodeRecord) → List ℕ → Option ℕ
holder m heap [] = none
holder m heap (r ∷ rs) = if backs_node m (heap r) then some r else holder m heap rs

pub write_self :
    (r : ℕ) (b : BackingNodeRecord) (heap : ℕ → BackingNodeRecord) → write r b heap r ≡ b
write_self r b heap = rw (eqb_refl r) refl

pub write_other :
    (r i : ℕ) (b : BackingNodeRecord) (heap : ℕ → BackingNodeRecord)
    → eqb i r ≡ false
    → write r b heap i ≡ heap i
write_other r i b heap e = rw e refl

module _ (m : String) where
  -- Writing a record that holds a node as often as the one before changes no record in that.
  pub write-slots :
      (r : ℕ) (b : BackingNodeRecord) (heap : ℕ → BackingNodeRecord)
      → slots m b ≡ slots m (heap r)
      → (i : ℕ) → slots m (write r b heap i) ≡ slots m (heap i)
  write-slots r b heap e i = elim (Bool-cases (eqb i r)) [
    | inl w ↦ rw (w, eqb-eq i r w) e
    | inr w ↦ rw w refl
  ]

  pub total-pointwise :
      (h k : ℕ → BackingNodeRecord) (rs : List ℕ)
      → ((i : ℕ) → slots m (k i) ≡ slots m (h i))
      → total m k rs ≡ total m h rs
  total-pointwise h k [] e = refl
  total-pointwise h k (r ∷ rs) e = omega (arith, e r, total-pointwise h k rs e)

  pub total-write_other :
      (r : ℕ) (b : BackingNodeRecord) (heap : ℕ → BackingNodeRecord) (rs : List ℕ)
      → NotIn r rs
      → total m (write r b heap) rs ≡ total m heap rs
  total-write_other r b heap [] n = refl
  total-write_other r b heap (x ∷ xs) n =
      rw (n.0) (omega (arith, total-write_other r b heap xs n.1))

  pub holder-write_other :
      (r : ℕ) (b : BackingNodeRecord) (heap : ℕ → BackingNodeRecord) (rs : List ℕ)
      → NotIn r rs
      → holder m (write r b heap) rs ≡ holder m heap rs
  holder-write_other r b heap [] n = refl
  holder-write_other r b heap (x ∷ xs) n = rw (n.0, holder-write_other r b heap xs n.1) refl

  -- Writing a record changes the sum by what the record itself holds.
  pub total-write :
      (r : ℕ) (b : BackingNodeRecord) (heap : ℕ → BackingNodeRecord) (rs : List ℕ)
      → Distinct rs
      → IsIn r rs
      → total m (write r b heap) rs + slots m (heap r) ≡ total m heap rs + slots m b
  total-write r b heap [] d i = absurd i
  total-write r b heap (x ∷ xs) d (inl e) =
      let same : x ≡ r = eqb-eq x r e in
      let apart : NotIn r xs = subst (λ y. NotIn y xs) same d.0 in
      rw (e, total-write_other r b heap xs apart, same) (omega arith)
  total-write r b heap (x ∷ xs) d (inr i) = elim (Bool-cases (eqb x r)) [
    | inl e ↦ absurd (IsIn-NotIn xs i (subst (λ y. NotIn y xs) (eqb-eq x r e) d.0))
    | inr e ↦ rw e (omega (arith, total-write r b heap xs d.1 i))
  ]
    where
      IsIn-NotIn : (ys : List ℕ) → IsIn r ys → NotIn r ys → ⊥
      IsIn-NotIn [] i n = i
      IsIn-NotIn (y ∷ ys) (inl e) n = false-ne-true (sym (n.0) ∙ e)
      IsIn-NotIn (y ∷ ys) (inr i) n = IsIn-NotIn ys i n.1

  pub total-Inserted :
      {r : ℕ} {xs ys : List ℕ} (heap : ℕ → BackingNodeRecord)
      → Inserted r xs ys
      → total m heap ys ≡ total m heap xs + slots m (heap r)
  total-Inserted heap here = omega arith
  total-Inserted heap (there i) = omega (arith, total-Inserted heap i)

  pub backs_node-zero : (b : BackingNodeRecord) → slots m b ≡ 0 → backs_node m b ≡ false
  unfolding backs_node
  backs_node-zero b e = elim (Bool-cases (holds (some m) b.allocated_nodes)) [
    | inl y ↦ absurd (omega (arith, count-holds (some m) b.allocated_nodes y))
    | inr y ↦ y
  ]

  pub backs_node-pos : (b : BackingNodeRecord) → 1 ≤ slots m b → backs_node m b ≡ true
  unfolding backs_node
  backs_node-pos b e = elim (Bool-cases (holds (some m) b.allocated_nodes)) [
    | inl y ↦ y
    | inr y ↦ absurd (omega (arith, holds-count (some m) b.allocated_nodes y))
  ]

  pub backs_node-false : (b : BackingNodeRecord) → backs_node m b ≡ false → slots m b ≡ 0
  unfolding backs_node
  backs_node-false b e = holds-count (some m) b.allocated_nodes e

  backs-slots_eq :
      (b c : BackingNodeRecord) → slots m c ≡ slots m b → backs_node m c ≡ backs_node m b
  backs-slots_eq b c e = go (slots m b) refl
    where
      go : (k : ℕ) → slots m b ≡ k → backs_node m c ≡ backs_node m b
      go zero k = backs_node-zero c (e ∙ k) ∙ sym (backs_node-zero b k)
      go (suc n) k = backs_node-pos c (omega arith) ∙ sym (backs_node-pos b (omega arith))

  pub holder-pointwise :
      (h k : ℕ → BackingNodeRecord) (rs : List ℕ)
      → ((i : ℕ) → slots m (k i) ≡ slots m (h i))
      → holder m k rs ≡ holder m h rs
  holder-pointwise h k [] e = refl
  holder-pointwise h k (r ∷ rs) e =
      rw (backs-slots_eq (h r) (k r) (e r), holder-pointwise h k rs e) refl

  pub holder-none :
      (heap : ℕ → BackingNodeRecord) (rs : List ℕ) → total m heap rs ≡ 0 → holder m heap rs ≡ none
  holder-none heap [] e = refl
  holder-none heap (r ∷ rs) e =
      rw (backs_node-zero (heap r) (omega arith)) (holder-none heap rs (omega arith))

  pub holder-Inserted :
      {r : ℕ} {xs ys : List ℕ} (heap : ℕ → BackingNodeRecord)
      → Inserted r xs ys
      → slots m (heap r) ≡ 0
      → holder m heap ys ≡ holder m heap xs
  holder-Inserted {r} heap here e = rw (backs_node-zero (heap r) e) refl
  holder-Inserted heap (there {x = x} i) e = rw (holder-Inserted heap i e) refl

  -- A record that backs a node no other record backs is found.
  pub holder_found :
      (heap : ℕ → BackingNodeRecord) (r : ℕ) (rs : List ℕ)
      → IsIn r rs
      → 1 ≤ slots m (heap r)
      → total m heap rs ≤ 1
      → holder m heap rs ≡ some r
  holder_found heap r [] i l t = absurd i
  holder_found heap r (x ∷ xs) (inl e) l t =
      let same : x ≡ r = eqb-eq x r e in rw (same, backs_node-pos (heap r) l) refl
  holder_found heap r (x ∷ xs) (inr i) l t =
      let rest : 1 ≤ total m heap xs = slots-le-total heap r xs i l in
      rw (backs_node-zero (heap x) (omega arith)) (holder_found heap r xs i l (omega arith))
    where
      slots-le-total :
          (h : ℕ → BackingNodeRecord) (q : ℕ) (ys : List ℕ)
          → IsIn q ys
          → 1 ≤ slots m (h q)
          → 1 ≤ total m h ys
      slots-le-total h q [] i l = absurd i
      slots-le-total h q (y ∷ ys) (inl e) l =
          let back : 1 ≤ slots m (h y) = subst (λ k. 1 ≤ slots m (h k)) (sym (eqb-eq y q e)) l in
          omega arith
      slots-le-total h q (y ∷ ys) (inr i) l = omega (arith, slots-le-total h q ys i l)

-- Taking a reference out again.
