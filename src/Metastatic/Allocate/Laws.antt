-- ===== src/Metastatic/Allocate/Laws.antt =====
-- Slots are given to one node each, and a node has one slot: what allocating keeps, and how it
-- refines a map from nodes to backing nodes.
use nodepool.Prelude.{
  ℕ, suc, ◌+◌, ◌≤◌, ◌<◌, String, true, false, Option, some, none, List, [], ◌∷◌, ◌≡◌, refl, subst,
  ◌∙◌, if◌then◌else◌, All, Result, ok, raise, Exception, pure, OnOk, Bool-cases, arith, lookup, inl,
  inr, ◌==◌, eq_iff, ◌>>=◌,
}
use nodepool.Metastatic.{
  BackingNodeRecord, new_record, has_available_slot, slot_at, Adapter, write, references, Store,
  Provider, LabelConfig,
}
use nodepool.Metastatic.Slots.{
  slots, holds-replicate, count-replicate, Allocated, allocate_slot-Allocated,
  allocate_slot-available,
}
use nodepool.Metastatic.Requests.{Run, init_done, add_backing_node, append_reference, take_slot}
use nodepool.Metastatic.Allocate.{
  deallocate_inner, find_available, get_references, store_backing_request, request_backing_node,
  choose_record, allocate_locked, allocate_backing_node,
}
use nodepool.Metastatic.Allocate.Holders.{
  holder-write_other, write-slots, total, holder, write_self, total-pointwise, total-write_other,
  total-write, total-Inserted, holder-pointwise, holder-none, holder-Inserted, holder_found,
}
use nodepool.Metastatic.Allocate.References.{
  NotIn, IsIn, Distinct, IsIn-lookup, Inserted, eqb_refl, NotIn-Below, Distinct-Inserted,
  IsIn-Inserted, Below-Inserted, references-append_reference,
}
use nodepool.Metastatic.Allocate.Freed.{give_back-Freed}

none-ne-some : {r : ℕ} → ¬ (none ≡ some r)
none-ne-some e = cc

abbrev pub refs : Adapter → List ℕ
refs a = references a.backing_node_records

-- The references are of different records that are in use, and a node has one slot at most.
pub record IsExclusive (a : Adapter) : Type 0 where
  pub distinct : Distinct (refs a)
  pub below : All (λ r. r < a.next) (refs a)
  pub one_slot : (m : String) → total m a.heap (refs a) ≤ 1

-- The abstract view of an adapter: the record that backs each node.
abbrev pub view : Adapter → String → Option ℕ
view a m = holder m a.heap (refs a)

abbrev pub bind : String → Option ℕ → (String → Option ℕ) → String → Option ℕ
bind n r v m = if m == n then r else v m

abbrev pub held : Result (ℕ × ℕ) → Option ℕ
held (ok (r, slot)) = some r
held (raise e) = none

-- The outcome of allocating: the node is bound to the record that is returned, or to none.
pub record Outcome {S : Type 0} (n : String) (v : String → Option ℕ)
    (o : Result (ℕ × ℕ) × (Adapter × S)) : Type 0 where
  pub exclusive : IsExclusive o.1.0
  pub bound : (m : String) → view o.1.0 m ≡ bind n (held o.0) v m
  pub placed : OnOk (λ x. slot_at x.1 (o.1.0.heap x.0).allocated_nodes ≡ some (some n)) o.0

module _ {S : Type 0} (z : Store S) (p : Provider) where
  -- Taking a free slot for a node that no record backs.
  module _ (n : String) (r : ℕ) (a : Adapter) (c : BackingNodeRecord) (j : ℕ) (x : IsExclusive a)
      (i : IsIn r (refs a)) (f : Allocated n (a.heap r) c j)
      (unbound : total n a.heap (refs a) ≡ 0) where
    written_one : (m : String) → m == n ≡ true → total m (write r c a.heap) (refs a) ≡ 1
    written_one m e =
        let mn : m ≡ n = (eq_iff m n).0 e in
        let none_yet : total m a.heap (refs a) ≡ 0 = rw mn unbound in
        let more : slots m c ≡ slots m (a.heap r) + 1 = rw e at (f.counts m) in
        omega (arith, total-write m r c a.heap (refs a) x.distinct i)

    written_other :
        (m : String) → m == n ≡ false → (k : ℕ) → slots m (write r c a.heap k) ≡ slots m (a.heap k)
    written_other m e =
        let kept : slots m c ≡ slots m (a.heap r) + 0 = rw e at (f.counts m) in
        write-slots m r c a.heap (omega arith)

    written-Outcome :
        (v : String → Option ℕ) (s : S)
        → ((m : String) → m == n ≡ false → view a m ≡ v m)
        → Outcome n v (ok (r, j), (record a { heap = write r c a.heap }, s))
    written-Outcome v s same = record {
      exclusive = record {
        distinct = x.distinct;
        below = x.below;
        one_slot = λ m. elim (Bool-cases (m == n)) [
          | inl e ↦ omega (arith, written_one m e)
          | inr e ↦
              rw (total-pointwise m a.heap (write r c a.heap) (refs a) (written_other m e))
                (x.one_slot m)
        ];
      };
      bound = λ m. elim (Bool-cases (m == n)) [
        | inl e ↦
            let more : slots m c ≡ slots m (a.heap r) + 1 = rw e at (f.counts m) in
            let here : 1 ≤ slots m (write r c a.heap r) =
              rw (write_self r c a.heap) (omega arith) in
            rw e
              (holder_found m (write r c a.heap) r (refs a) i here (omega (arith, written_one m e)))
        | inr e ↦
            rw e
              (holder-pointwise m a.heap (write r c a.heap) (refs a) (written_other m e) ∙ same m e)
      ];
      placed = rw (write_self r c a.heap) f.at;
    }

  take-Outcome :
      (n : String) (v : String → Option ℕ) (r : ℕ) (a : Adapter) (s : S)
      → IsExclusive a
      → IsIn r (refs a)
      → has_available_slot (a.heap r) ≡ true
      → total n a.heap (refs a) ≡ 0
      → ((m : String) → m == n ≡ false → view a m ≡ v m)
      → Outcome n v ((take_slot z p n none r >>= λ slot. pure (r, slot)) (a, s))
  unfolding take_slot
  take-Outcome n v r a s x i free unbound same =
      let ((j, c), found) = allocate_slot-available n (a.heap r) free in
      let f : Allocated n (a.heap r) c j =
        rw found at (allocate_slot-Allocated n none (a.heap r)) in
      rw (found, take_slot, ◌>>=◌) (written-Outcome n r a c j x i f unbound v s same)

  find_available_lem :
      (heap : ℕ → BackingNodeRecord) (rs : List ℕ) (r : ℕ)
      → find_available z p heap rs ≡ some r
      → IsIn r rs × (has_available_slot (heap r) ≡ true)
  unfolding find_available
  find_available_lem heap [] r e = absurd (none-ne-some e)
  find_available_lem heap (x ∷ xs) r e = elim (Bool-cases (has_available_slot (heap x))) [
    | inl h ↦
        let same : x ≡ r = some-eq (rw h at e) in
        (rw same (inl (eqb_refl r)), subst (λ y. has_available_slot (heap y) ≡ true) same h)
    | inr h ↦ let (i, free) = find_available_lem heap xs r (rw h at e) in (inr i, free)
  ]
    where
      some-eq : some x ≡ some r → x ≡ r
      some-eq e = cc

  -- A new record is in use, has a free slot, and backs nothing.
  module _ (label : LabelConfig) (id : Option String) (now : ℕ) (a : Adapter)
      (x : IsExclusive a) where
    abbrev added : BackingNodeRecord
    added = record (new_record label.name label.max_parallel_jobs now) { request_id = id }

    abbrev extended : Adapter
    extended = record a {
      heap = write a.next added a.heap;
      next = suc a.next;
      backing_node_records = append_reference label.name a.next a.backing_node_records;
    }

    inserted : Inserted a.next (refs a) (refs extended)
    inserted = references-append_reference label.name a.next a.backing_node_records

    fresh : NotIn a.next (refs a)
    fresh = NotIn-Below a.next (refs a) x.below

    nothing : (m : String) → slots m (extended.heap a.next) ≡ 0
    unfolding new_record
    nothing m = rw (write_self a.next added a.heap) (count-replicate m label.max_parallel_jobs)

    total-extended : (m : String) → total m extended.heap (refs extended) ≡ total m a.heap (refs a)
    total-extended m = omega (
      arith,
      total-Inserted m extended.heap inserted,
      total-write_other m a.next added a.heap (refs a) fresh,
      nothing m,
    )

    view-extended : (m : String) → view extended m ≡ view a m
    view-extended m =
        holder-Inserted m extended.heap inserted (nothing m)
        ∙ holder-write_other m a.next added a.heap (refs a) fresh

    extended-IsExclusive : IsExclusive extended
    extended-IsExclusive = record {
      distinct = Distinct-Inserted inserted x.distinct fresh;
      below = Below-Inserted inserted (All-mono (refs a) x.below) (omega arith);
      one_slot = λ m. rw (total-extended m) (x.one_slot m);
    }
      where
        All-mono : (rs : List ℕ) → All (λ r. r < a.next) rs → All (λ r. r < suc a.next) rs
        All-mono [] h = tt
        All-mono (r ∷ rs) h = (omega arith, All-mono rs h.1)

    extended-free : 1 ≤ label.max_parallel_jobs → has_available_slot (extended.heap a.next) ≡ true
    unfolding has_available_slot new_record
    extended-free h =
        rw (write_self a.next added a.heap) (holds-replicate label.max_parallel_jobs h)

  listed :
      (l : String) (r : ℕ) (a : Adapter)
      → IsIn r (get_references z p l a.backing_node_records)
      → IsIn r (refs a)
  listed l r a i = go (lookup l a.backing_node_records) refl
    where
      go : (o : Option (List ℕ)) → lookup l a.backing_node_records ≡ o → IsIn r (refs a)
      go none e = absurd (rw (e, IsIn) at i)
      go (some rs) e = IsIn-lookup l r rs a.backing_node_records e (rw (e, IsIn) at i)

  -- An adapter at which no record backs the node, behind an exception.
  unbound-Outcome :
      (n : String) (v : String → Option ℕ) (e : Exception) (a : Adapter) (s : S)
      → IsExclusive a
      → total n a.heap (refs a) ≡ 0
      → ((m : String) → m == n ≡ false → view a m ≡ v m)
      → Outcome n v (raise e, (a, s))
  unbound-Outcome n v e a s x unbound same = record {
    exclusive = x;
    bound = λ m. elim (Bool-cases (m == n)) [
      | inl q ↦
          let none_yet : total m a.heap (refs a) ≡ 0 = rw ((eq_iff m n).0 q) unbound in
          rw q (holder-none m a.heap (refs a) none_yet)
      | inr q ↦ rw q (same m q)
    ];
    placed = tt;
  }

  place : LabelConfig → String → Run S (ℕ × ℕ)
  place label n =
      choose_record z p label >>= λ r. (take_slot z p n none r >>= λ slot. pure (r, slot))

  place-Outcome :
      (label : LabelConfig) (n : String) (v : String → Option ℕ) (a : Adapter) (s : S)
      → 1 ≤ label.max_parallel_jobs
      → IsExclusive a
      → total n a.heap (refs a) ≡ 0
      → ((m : String) → m == n ≡ false → view a m ≡ v m)
      → Outcome n v (place label n (a, s))
  unfolding place choose_record request_backing_node add_backing_node
  place-Outcome label n v a s l x unbound same =
      find (find_available z p a.heap (get_references z p label.name a.backing_node_records)) refl
    where
      found : List ℕ
      found = get_references z p label.name a.backing_node_records

      ask :
          (r : Result (Option String))
          → (store_backing_request z p label s).0 ≡ r
          → find_available z p a.heap found ≡ none
          → Outcome n v (place label n (a, s))
      ask (raise e) h f =
          rw (f, choose_record, h, request_backing_node, ◌>>=◌)
            (unbound-Outcome n v e a (store_backing_request z p label s).1 x unbound same)
      ask (ok id) h f =
          let t = (store_backing_request z p label s).1 in
          let now = z.time t in
          rw (f, choose_record, h, request_backing_node, ◌>>=◌)
            (take-Outcome n v a.next (extended label id now a x) t
              (extended-IsExclusive label id now a x) (IsIn-Inserted (inserted label id now a x))
              (extended-free label id now a x l) (total-extended label id now a x n ∙ unbound)
              (λ m q. view-extended label id now a x m ∙ same m q))

      find :
          (o : Option ℕ) → find_available z p a.heap found ≡ o → Outcome n v (place label n (a, s))
      find none f = ask (store_backing_request z p label s).0 refl f
      find (some r) f =
          let (i, free) = find_available_lem a.heap found r f in
          rw (f, choose_record, ◌>>=◌)
            (take-Outcome n v r a s x (listed label.name r a i) free unbound same)

  -- For an initialised adapter whose records are different and back each node once at most, and a
  -- label with at least one slot: whatever storing a request answers, allocating keeps this so; the
  -- node is then bound to the record that is returned, in the slot that is returned, or to none if
  -- an exception was raised, and all other nodes are bound as before.
  pub allocate_backing_node-bind :
      (label : LabelConfig) (n : String) (a : Adapter) (s : S)
      → a.performed_init ≡ true
      → 1 ≤ label.max_parallel_jobs
      → IsExclusive a
      → Outcome n (view a) (allocate_backing_node z p label n (a, s))
  unfolding allocate_backing_node allocate_locked deallocate_inner place
  allocate_backing_node-bind label n a s done l x =
      let (h, freed, f) = give_back-Freed z p n (refs a) a s x.distinct in
      let none_yet : total n h (refs a) ≡ 0 = f.freed (x.one_slot n) in
      let b : Adapter = record a { heap = h } in
      let y : IsExclusive b = record {
        distinct = x.distinct;
        below = x.below;
        one_slot = λ m. elim (Bool-cases (m == n)) [
          | inl q ↦
              let zero_m : total m h (refs a) ≡ 0 = rw ((eq_iff m n).0 q) none_yet in
              omega (arith, zero_m)
          | inr q ↦ rw (total-pointwise m a.heap h (refs a) (f.others m q)) (x.one_slot m)
        ];
      } in
      rw (init_done z p a s done, freed, ◌>>=◌)
        (place-Outcome label n (view a) b s l y none_yet
          (λ m q. holder-pointwise m a.heap h (refs a) (f.others m q)))
