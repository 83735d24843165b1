-- ===== src/Metastatic/Release/Laws.antt =====
-- Releasing backing nodes takes none from a node that uses it.
use nodepool.Prelude.{
  ℕ, String, true, false, not, Option, some, none, List, [], ◌∷◌, ◌++◌, ◌≡◌, refl, sym, subst, ap,
  ◌∙◌, any, pure, on_right, ◌>>=◌, eqb, arith, inl, inr, ◌⊎◌, Bool-cases, ◌==◌, eq_iff,
}
use nodepool.Zk.Values.{is_set}
use nodepool.Driver.Handler.Rules.{for_each_rule, Ends, bind_rule, if_rule}
use nodepool.Metastatic.{
  BackingNodeRecord, is_unused, Adapter, write, references, Store, Provider, LabelConfig,
}
use nodepool.Metastatic.Slots.{slots, count}
use nodepool.Metastatic.Requests.{init_done}
use nodepool.Metastatic.Release.{
  is_aged, age_record, is_idle, without, remove_reference, give_up_node, release, check_record,
  labelled, list_resources,
}
use nodepool.Metastatic.Allocate.Holders.{
  write-slots, write_self, total-pointwise, holder-pointwise, total-Inserted, holder-Inserted,
}
use nodepool.Metastatic.Allocate.References.{
  Inserted, eqb-eq, here, there, Inserted-append, Distinct-outer, Below-outer,
}
use nodepool.Metastatic.Allocate.Laws.{refs, IsExclusive, view}

-- Taking a reference out of the list under a label, if it is there.
without-Inserted : (r : ℕ) (xs : List ℕ) → (without r xs ≡ xs) ⊎ Inserted r (without r xs) xs
without-Inserted r [] = inl refl
without-Inserted r (x ∷ xs) = elim (Bool-cases (eqb x r)) [
  | inl e ↦ rw e (inr (subst (λ y. Inserted r xs (y ∷ xs)) (sym (eqb-eq x r e)) here))
  | inr e ↦ rw e (elim (without-Inserted r xs) [
    | inl same ↦ inl (ap (λ ys. x ∷ ys) same)
    | inr i ↦ inr (there i)
  ])
]

Inserted-append_right :
    {r : ℕ} {xs ys : List ℕ} (zs : List ℕ) → Inserted r xs ys → Inserted r (xs ++ zs) (ys ++ zs)
Inserted-append_right zs here = here
Inserted-append_right zs (there i) = there (Inserted-append_right zs i)

remove_reference-Inserted :
    (l : String) (r : ℕ) (m : List (String × List ℕ))
    → (references (remove_reference l r m) ≡ references m)
      ⊎ Inserted r (references (remove_reference l r m)) (references m)
unfolding references remove_reference
remove_reference-Inserted l r [] = inl refl
remove_reference-Inserted l r ((j, rs) ∷ m) = elim (Bool-cases (j == l)) [
  | inl e ↦ rw e (elim (without-Inserted r rs) [
    | inl same ↦ inl (ap (λ ys. ys ++ references m) same)
    | inr i ↦ inr (Inserted-append_right (references m) i)
  ])
  | inr e ↦ rw e (elim (remove_reference-Inserted l r m) [
    | inl same ↦ inl (ap (λ ys. rs ++ ys) same)
    | inr i ↦ inr (Inserted-append rs i)
  ])
]

-- A record that is empty holds no node that has a name.
is_unused-slots :
    (m : String) (b : BackingNodeRecord) → m == "" ≡ false → is_unused b ≡ true → slots m b ≡ 0
unfolding is_unused count
is_unused-slots m b e u = go b.allocated_nodes u
  where
    go : (xs : List (Option String)) → not (any is_set xs) ≡ true → count (some m) xs ≡ 0
    go [] u = refl
    go (none ∷ xs) u = omega (arith, go xs u)
    go (some x ∷ xs) u = ground (arith, go xs, eq_iff m x, e)

-- An adapter that binds all nodes as another does. A node's id is not empty.
pub record Spares (a b : Adapter) : Type 0 where
  pub exclusive : IsExclusive b
  pub bound : (m : String) → m == "" ≡ false → view b m ≡ view a m

write-Spares :
    (a b : Adapter) (r : ℕ) (c : BackingNodeRecord)
    → ((m : String) → slots m c ≡ slots m (b.heap r))
    → Spares a b
    → Spares a (record b { heap = write r c b.heap })
write-Spares a b r c same h = record {
  exclusive = record {
    distinct = h.exclusive.distinct;
    below = h.exclusive.below;
    one_slot = λ m.
        rw
          (total-pointwise m b.heap (write r c b.heap) (refs b) (write-slots m r c b.heap (same m)))
          (h.exclusive.one_slot m);
  };
  bound = λ m e.
      holder-pointwise m b.heap (write r c b.heap) (refs b) (write-slots m r c b.heap (same m))
      ∙ h.bound m e;
}

-- Dropping a record that holds no node.
drop-Spares :
    (a b : Adapter) (l : String) (r : ℕ)
    → ((m : String) → m == "" ≡ false → slots m (b.heap r) ≡ 0)
    → Spares a b
    → Spares a (record b { backing_node_records = remove_reference l r b.backing_node_records })
drop-Spares a b l r unused h = elim (remove_reference-Inserted l r b.backing_node_records) [
  | inl same ↦ record {
    exclusive = record {
      distinct = rw same h.exclusive.distinct;
      below = rw same h.exclusive.below;
      one_slot = λ m. rw same (h.exclusive.one_slot m);
    };
    bound = λ m e. rw same (h.bound m e);
  }
  | inr i ↦ record {
    exclusive = record {
      distinct = Distinct-outer i h.exclusive.distinct;
      below = Below-outer b.next i h.exclusive.below;
      one_slot = λ m. omega (arith, total-Inserted m b.heap i, h.exclusive.one_slot m);
    };
    bound = λ m e. sym (holder-Inserted m b.heap i (unused m e)) ∙ h.bound m e;
  }
]

age_record-slots :
    (now : ℕ) (c : Option LabelConfig) (b : BackingNodeRecord) (m : String)
    → slots m (age_record now c b) ≡ slots m b
unfolding age_record
age_record-slots now none b m = refl
age_record-slots now (some c) b m = elim (Bool-cases (is_aged now c b)) [
  | inl e ↦ rw e refl
  | inr e ↦ rw e refl
]

is_idle-is_unused :
    (now : ℕ) (c : Option LabelConfig) (b : BackingNodeRecord)
    → is_idle now c b ≡ true
    → is_unused b ≡ true
unfolding is_idle
is_idle-is_unused now c b h = ground (arith, h)

module _ {S : Type 0} (z : Store S) (p : Provider) (a : Adapter) where
  -- The record that a round looks at holds no node.
  abbrev Unused : ℕ → Adapter × S → Type 0
  Unused r t = Spares a t.0 × ((m : String) → m == "" ≡ false → slots m (t.0.heap r) ≡ 0)

  abbrev Spared : Adapter × S → Type 0
  Spared t = Spares a t.0

  release-Spares :
      (l : String) (r : ℕ) (t : Adapter × S)
      → Unused r t
      → Ends (λ _ u. Spared u) (release z p l r t)
  unfolding release
  release-Spares l r (b, s) h =
      bind_rule (λ _ u. Unused r u) (λ _ u. Spared u) (on_right (z.get_node (b.heap r).node_id)) _
        (record b { heap = write r marked b.heap }, s) start (λ e u k. k.0)
        (λ node u k.
          bind_rule (λ _ w. Unused r w) (λ _ w. Spared w) (on_right (give_up_node z p node)) _ u k
            (λ e w q. q.0) (λ x w q. drop-Spares a w.0 l r q.1 q.0))
    where
      marked : BackingNodeRecord
      marked = record (b.heap r) { failed = true }

      start : Unused r (record b { heap = write r marked b.heap }, s)
      start = (
        write-Spares a b r marked (λ m. refl) h.0,
        (λ m e. rw (write_self r marked b.heap) (h.1 m e)),
      )

  check_record-Spares :
      (now : ℕ) (x : String × ℕ) (t : Adapter × S)
      → Spared t
      → Ends (λ _ u. Spared u) (check_record z p now x t)
  unfolding check_record
  check_record-Spares now (l, r) (b, s) h =
      if_rule (λ _ u. Spared u) (is_idle now c aged) (release z p l r) (pure tt)
        (record b { heap = write r aged b.heap }, s)
        (λ idle. release-Spares l r (record b { heap = write r aged b.heap }, s) (kept, empty idle))
        (λ _. kept)
    where
      c : Option LabelConfig
      c = p.get_label (b.heap r).label_name

      aged : BackingNodeRecord
      aged = age_record now c (b.heap r)

      kept : Spares a (record b { heap = write r aged b.heap })
      kept = write-Spares a b r aged (age_record-slots now c (b.heap r)) h

      empty :
          is_idle now c aged ≡ true
          → (m : String) → m == "" ≡ false
          → slots m (write r aged b.heap r) ≡ 0
      empty idle m e =
          rw (write_self r aged b.heap)
            (is_unused-slots m aged e (is_idle-is_unused now c aged idle))

  -- For an initialised adapter whose records are different and back each node once at most: whatever
  -- ZooKeeper answers, releasing idle backing nodes keeps this so, and every node with an id that is
  -- not empty keeps the record that backs it, on every way out.
  pub list_resources-Spares :
      (s : S)
      → a.performed_init ≡ true
      → IsExclusive a
      → Ends (λ _ u. Spared u) (list_resources z p (a, s))
  unfolding list_resources
  list_resources-Spares s done x =
      rw (init_done z p a s done, ◌>>=◌)
        (for_each_rule Spared (labelled z p a.backing_node_records) (check_record z p (z.time s))
          (a, s) (λ y u h. check_record-Spares (z.time s) y u h)
          (record { exclusive = x; bound = λ m e. refl }))
