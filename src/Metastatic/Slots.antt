-- ===== src/Metastatic/Slots.antt =====
-- The slots of a backing node: what taking and giving back one does to what the others hold.
use nodepool.Prelude.{
  ℕ, zero, suc, ◌+◌, ◌≤◌, String, true, false, Option, some, none, List, [], ◌∷◌, ◌≡◌, refl,
  if◌then◌else◌, OnOk, ok, eq_iff, arith, ◌==◌, Bool-cases, inl, inr, ap, replicate, false-ne-true,
}
use nodepool.Metastatic.{
  BackingNodeRecord, same, holds, index_of, slot_at, set_slot, allocate_at, allocate_slot,
  deallocate_slot, backs_node, has_available_slot,
}

-- How many slots hold a node.
unfoldable pub count : Option String → List (Option String) → ℕ
count v [] = 0
count v (x ∷ xs) = (if same v x then 1 else 0) + count v xs

abbrev pub slots : String → BackingNodeRecord → ℕ
slots n b = count (some n) b.allocated_nodes

pub holds-count :
    (v : Option String) (xs : List (Option String)) → holds v xs ≡ false → count v xs ≡ 0
unfolding count
holds-count v [] h = refl
holds-count v (x ∷ xs) h = ground (arith, holds-count v xs)

-- A new record has free slots and no node.
pub holds-replicate : (k : ℕ) → 1 ≤ k → holds none (replicate k none) ≡ true
holds-replicate zero h = absurd (omega arith)
holds-replicate (suc k) h = refl

pub count-replicate : (m : String) (k : ℕ) → count (some m) (replicate k none) ≡ 0
unfolding count
count-replicate m zero = refl
count-replicate m (suc k) = omega (arith, count-replicate m k)

pub count-holds :
    (v : Option String) (xs : List (Option String)) → holds v xs ≡ true → 1 ≤ count v xs
unfolding count
count-holds v [] h = cc
count-holds v (x ∷ xs) h = ground (arith, count-holds v xs)

-- A node that is found is somewhere, and setting its slot changes the counts of the two entries.
pub count-set_slot :
    (v w : Option String) (i : ℕ) (xs : List (Option String)) (u : Option String)
    → slot_at i xs ≡ some u
    → count v (set_slot i w xs) + (if same v u then 1 else 0)
      ≡ count v xs + (if same v w then 1 else 0)
unfolding count set_slot slot_at
count-set_slot v w i [] u e = cc
count-set_slot v w zero (x ∷ xs) u e = ground arith
count-set_slot v w (suc i) (x ∷ xs) u e = ground (arith, count-set_slot v w i xs u e)

slot_at-set_slot :
    (w : Option String) (i : ℕ) (xs : List (Option String)) (u : Option String)
    → slot_at i xs ≡ some u
    → slot_at i (set_slot i w xs) ≡ some w
unfolding set_slot slot_at
slot_at-set_slot w i [] u e = cc
slot_at-set_slot w zero (x ∷ xs) u e = refl
slot_at-set_slot w (suc i) (x ∷ xs) u e = slot_at-set_slot w i xs u e

same-eq : (a b : Option String) → same a b ≡ true → b ≡ a
same-eq none none e = refl
same-eq none (some b) e = cc
same-eq (some a) none e = cc
same-eq (some a) (some b) e = ground (arith, eq_iff a b)

-- Looking up an entry that is there gives its position.
pub index_of-holds :
    (v : Option String) (xs : List (Option String))
    → holds v xs ≡ true
    → (i : ℕ) × (index_of v xs ≡ some i) × (slot_at i xs ≡ some v)
unfolding index_of slot_at
index_of-holds v [] h = absurd (false-ne-true h)
index_of-holds v (x ∷ xs) h = elim (Bool-cases (same v x)) [
  | inl e ↦ (0, rw e refl, ap some (same-eq v x e))
  | inr e ↦ let (i, found, at) = index_of-holds v xs (rw e at h) in (suc i, rw (e, found) refl, at)
]

-- Where allocateSlot returns, the slot was free and holds the node, and what the others hold is as
-- before.
pub record Allocated (n : String) (b c : BackingNodeRecord) (i : ℕ) : Type 0 where
  pub counts : (m : String) → slots m c ≡ slots m b + (if m == n then 1 else 0)
  pub at : slot_at i c.allocated_nodes ≡ some (some n)
  pub free : slot_at i b.allocated_nodes ≡ some none
  pub rest : record b { allocated_nodes = c.allocated_nodes } ≡ c

pub allocate_at-Allocated :
    (n : String) (i : ℕ) (b : BackingNodeRecord)
    → OnOk (λ r. Allocated n b r.1 r.0) (allocate_at n i b)
unfolding allocate_at
allocate_at-Allocated n i b = go (slot_at i b.allocated_nodes) refl
  where
    go :
        (o : Option (Option String))
        → slot_at i b.allocated_nodes ≡ o
        → OnOk (λ r. Allocated n b r.1 r.0) (allocate_at n i b)
    go none h = rw (h, allocate_at) tt
    go (some (some x)) h = rw (h, allocate_at) tt
    go (some none) h =
        rw (h, allocate_at)
          (record {
            counts =
                λ m. omega (arith, count-set_slot (some m) (some n) i b.allocated_nodes none h);
            at = slot_at-set_slot (some n) i b.allocated_nodes none h;
            free = h;
            rest = refl;
          })

pub allocate_slot-Allocated :
    (n : String) (slot_id : Option ℕ) (b : BackingNodeRecord)
    → OnOk (λ r. Allocated n b r.1 r.0) (allocate_slot n slot_id b)
unfolding allocate_slot
allocate_slot-Allocated n (some i) b = allocate_at-Allocated n i b
allocate_slot-Allocated n none b = go (index_of none b.allocated_nodes) refl
  where
    go :
        (o : Option ℕ)
        → index_of none b.allocated_nodes ≡ o
        → OnOk (λ r. Allocated n b r.1 r.0) (allocate_slot n none b)
    go none h = rw (h, allocate_slot) tt
    go (some i) h = rw (h, allocate_slot) (allocate_at-Allocated n i b)

-- A record with a free slot takes a node.
pub allocate_slot-available :
    (n : String) (b : BackingNodeRecord)
    → has_available_slot b ≡ true
    → (r : ℕ × BackingNodeRecord) × (allocate_slot n none b ≡ ok r)
unfolding has_available_slot allocate_slot allocate_at
allocate_slot-available n b h =
    let free : holds none b.allocated_nodes ≡ true = ground (arith, h) in
    let (i, found, at) = index_of-holds none b.allocated_nodes free in
    (
      (i, record b { allocated_nodes = set_slot i (some n) b.allocated_nodes }),
      rw (found, allocate_slot, at, allocate_at) refl,
    )

-- Giving back the slot of a node that the record backs frees one of its slots.
pub deallocate_slot-counts :
    (now : ℕ) (n : String) (b : BackingNodeRecord)
    → backs_node n b ≡ true
    → (c : BackingNodeRecord) × (deallocate_slot now n b ≡ ok c)
      × ((m : String) → slots m c + (if m == n then 1 else 0) ≡ slots m b)
unfolding backs_node deallocate_slot
deallocate_slot-counts now n b h =
    let (i, found, at) = index_of-holds (some n) b.allocated_nodes h in
    (
      record b { allocated_nodes = set_slot i none b.allocated_nodes; last_used = now },
      rw (found, deallocate_slot) refl,
      (λ m. omega (arith, count-set_slot (some m) none i b.allocated_nodes (some n) at)),
    )
