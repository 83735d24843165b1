-- ===== src/Workers/Rounds/Laws.antt =====
-- The end of a pause.
use nodepool.Prelude.{
  ap, ℕ, Bool, true, false, not, ◌&&◌, ◌||◌, List, [], ◌∷◌, keep, eqb, if◌then◌else◌, Result, ok,
  raise, ◌≡◌, refl, ◌∙◌, arith, ◌>>◌, Bool-cases, inl, inr, is_empty, raise-ne-ok, then_ok,
}
use nodepool.Driver.Handler.{Handler}
use nodepool.Driver.Handler.Rules.{Ends}
use nodepool.Driver.Handler.Fill
use nodepool.Workers.Order.{Priority, priority, priority_le}
use nodepool.Workers.Take.{Pool, Calls, set_at}
use nodepool.Workers.Rounds.{
  is_in, insert_by_priority, sort_by_priority, references, run_again, process_paused, set_unpaused,
  run_sorted, process_paused_handlers,
}

-- The paused handlers are a set.
abbrev pub IsDistinct : List ℕ → Type 0
IsDistinct [] = Unit
IsDistinct (r ∷ rs) = (is_in r rs ≡ false) × IsDistinct rs

is_in-keep :
    (x r : ℕ) (xs : List ℕ) → is_in x (keep (λ y. not (eqb y r)) xs) ≡ is_in x xs && not (eqb r x)
is_in-keep x r [] = refl
is_in-keep x r (y ∷ ys) = elim (Bool-cases (eqb y r)) [
  | inl e ↦ rw e (ground (arith, is_in-keep x r ys, e))
  | inr e ↦ rw e (ground (arith, is_in-keep x r ys, e))
]

-- A handler that has run stays in the set if it is paused.
is_in-again :
    (paused : Bool) (x r : ℕ) (xs : List ℕ)
    → is_in x (if paused then xs else keep (λ y. not (eqb y r)) xs)
      ≡ is_in x xs && (paused || not (eqb r x))
is_in-again true x r xs = ground arith
is_in-again false x r xs = is_in-keep x r xs

is_in-insert_by_priority :
    (x : ℕ) (a : Priority × ℕ) (bs : List (Priority × ℕ))
    → is_in x (references (insert_by_priority a bs)) ≡ eqb a.1 x || is_in x (references bs)
unfolding insert_by_priority
is_in-insert_by_priority x a [] = refl
is_in-insert_by_priority x a (b ∷ bs) = elim (Bool-cases (priority_le a.0 b.0)) [
  | inl e ↦ rw e refl
  | inr e ↦ rw e (ground (arith, is_in-insert_by_priority x a bs))
]

insert_by_priority-IsDistinct :
    (a : Priority × ℕ) (bs : List (Priority × ℕ))
    → is_in a.1 (references bs) ≡ false
    → IsDistinct (references bs)
    → IsDistinct (references (insert_by_priority a bs))
unfolding insert_by_priority
insert_by_priority-IsDistinct a [] fresh d = (refl, tt)
insert_by_priority-IsDistinct a (b ∷ bs) fresh d = elim (Bool-cases (priority_le a.0 b.0)) [
  | inl e ↦ rw e (fresh, d)
  | inr e ↦ rw e (
    ground (arith, is_in-insert_by_priority b.1 a bs, d.0, fresh),
    insert_by_priority-IsDistinct a bs (ground (arith, fresh)) d.1,
  )
]

-- The order has the same handlers.
record Sorts (rs : List ℕ) (keyed : List (Priority × ℕ)) : Type 0 where
  same : (x : ℕ) → is_in x (references keyed) ≡ is_in x rs
  distinct : IsDistinct (references keyed)

abbrev IsOrder : List ℕ → Result (List (Priority × ℕ)) → Type 0
IsOrder rs (ok keyed) = Sorts rs keyed
IsOrder rs (raise e) = Unit

sort_by_priority-IsOrder :
    (heap : ℕ → Handler) (rs : List ℕ) → IsDistinct rs → IsOrder rs (sort_by_priority heap rs)
unfolding sort_by_priority
sort_by_priority-IsOrder heap [] d = record { same = λ x. refl; distinct = tt }
sort_by_priority-IsOrder heap (r ∷ rs) d =
    go (priority (heap r).request) (sort_by_priority heap rs) (sort_by_priority-IsOrder heap rs d.1)
  where
    go :
        (k : Result Priority) (o : Result (List (Priority × ℕ)))
        → IsOrder rs o
        → IsOrder
            (r ∷ rs)
            (then_ok k (λ key. then_ok o (λ keyed. ok (insert_by_priority (key, r) keyed))))
    go (raise e) o h = tt
    go (ok key) (raise e) h = tt
    go (ok key) (ok keyed) h = record {
      same = λ x. ground (arith, is_in-insert_by_priority x (key, r) keyed, h.same x);
      distinct = insert_by_priority-IsDistinct (key, r) keyed (h.same r ∙ d.0) h.distinct;
    }

set_at-other :
    (r x : ℕ) (h : Handler) (heap : ℕ → Handler) → eqb r x ≡ false → set_at r h heap x ≡ heap x
set_at-other r x h heap e = let other : eqb x r ≡ false = ground (arith, e) in rw other refl

set_at-same : (r x : ℕ) (h : Handler) (heap : ℕ → Handler) → eqb r x ≡ true → set_at r h heap x ≡ h
set_at-same r x h heap e = let same : eqb x r ≡ true = ground (arith, e) in rw same refl

is_in-eqb : (r x : ℕ) (rs : List ℕ) → eqb r x ≡ true → is_in x rs ≡ is_in r rs
is_in-eqb r x [] e = refl
is_in-eqb r x (y ∷ ys) e = ground (arith, is_in-eqb r x ys e)

if_either :
    {A : Type 0} (P : A → Type 0) (b : Bool) (x y : A)
    → (b ≡ true → P x)
    → (b ≡ false → P y)
    → P (if b then x else y)
if_either P true x y a b = a refl
if_either P false x y a b = b refl

module _ {S : Type 0} (c : Calls S) where
  -- What runs of these handlers leave.
  record Ran (p : Pool) (rs : List ℕ) (r : Result (Unit {0})) (u : Pool × S) : Type 0 where
    others : (x : ℕ) → is_in x rs ≡ false → u.0.heap x ≡ p.heap x
    component : u.0.component_paused ≡ p.component_paused
    left :
        r ≡ ok tt
        → (x : ℕ)
        → is_in x u.0.paused_handlers
          ≡ is_in x p.paused_handlers && (not (is_in x rs) || (u.0.heap x).paused)

  process_paused-Ran :
      (rs : List ℕ) (p : Pool) (s : S)
      → IsDistinct rs
      → Ends (Ran p rs) (process_paused c rs (p, s))
  unfolding process_paused
  process_paused-Ran [] p s d = record {
    others = λ x i. refl;
    component = refl;
    left = λ e x. ground arith;
  }
  process_paused-Ran (r ∷ rs) p s (fresh, d) =
      go (λ u. process_paused-Ran rs u.0 u.1 d) (Fill.run c.config c.handlers (p.heap r, s))
    where
      go :
          ((u : Pool × S) → Ends (Ran u.0 rs) (process_paused c rs u))
          → (o : Result (Unit {0}) × (Handler × S))
          → Ends (Ran p (r ∷ rs)) (((λ t. run_again c r p o) >> process_paused c rs) (p, s))
      go more (raise e, (h, t)) = record {
        others = λ x i. set_at-other r x h p.heap (ground (arith, i));
        component = refl;
        left = λ e'. absurd (raise-ne-ok e tt e');
      }
      go more (ok u, (h, t)) =
          let later = more (run_again c r p (ok u, (h, t))).1 in
          record {
            others = λ x i.
                later.others x (ground (arith, i)) ∙ set_at-other r x h p.heap (ground (arith, i));
            component = later.component;
            left = λ e x. later.left e x ∙ elim (Bool-cases (eqb r x)) [
              | inl same ↦
                  let gone = is_in-eqb r x rs same ∙ fresh in
                  let own =
                    ap (λ k. k.paused) (later.others x gone ∙ set_at-same r x h p.heap same) in
                  ground (arith, is_in-again h.paused x r p.paused_handlers, same, gone, own)
              | inr other ↦ ground (arith, is_in-again h.paused x r p.paused_handlers, other)
            ];
          }

  -- How a round ends.
  abbrev pub Settled : Pool → Result (Unit {0}) → Pool × S → Type 0
  Settled p (ok u) (q, t) =
      ((x : ℕ) → is_in x q.paused_handlers ≡ is_in x p.paused_handlers && (q.heap x).paused)
      × (q.component_paused ≡ not (is_empty q.paused_handlers))
  Settled p (raise e) (q, t) = q.component_paused ≡ true

  run_sorted-Settled :
      (p : Pool) (s : S) (o : Result (List (Priority × ℕ)))
      → p.component_paused ≡ true
      → IsOrder p.paused_handlers o
      → Ends (Settled p) (run_sorted c o (p, s))
  unfolding run_sorted set_unpaused
  run_sorted-Settled p s (raise e) marked h = marked
  run_sorted-Settled p s (ok keyed) marked h =
      go (process_paused c (references keyed) (p, s))
        (process_paused-Ran (references keyed) p s h.distinct)
    where
      go :
          (o : Result (Unit {0}) × (Pool × S))
          → Ends (Ran p (references keyed)) o
          → Ends (Settled p) (((λ t. o) >> set_unpaused c) (p, s))
      go (raise e, (q, t)) ran = ran.component ∙ marked
      go (ok u, (q, t)) ran =
          (λ x. ground (arith, ran.left refl x, h.same x), ground (arith, ran.component, marked))

  none_in : (xs : List ℕ) → is_empty xs ≡ true → (x : ℕ) (b : Bool) → is_in x xs ≡ is_in x xs && b
  none_in [] e x b = refl
  none_in (y ∷ ys) e x b = cc

  -- If no handler is twice among the paused ones, then whatever their runs do: a round that returns
  -- leaves exactly those of them in the set that are paused now, and marks the component as paused
  -- exactly if one is left, so that a handler that can go on is out of the set and the last one ends the
  -- pause. A round that raises, in a run or for a request without a priority, leaves the component
  -- marked as paused.
  pub process_paused_handlers-Settled :
      (p : Pool) (s : S)
      → IsDistinct p.paused_handlers
      → Ends (Settled p) (process_paused_handlers c (p, s))
  unfolding process_paused_handlers set_unpaused
  process_paused_handlers-Settled p s d =
      if_either (Ends (Settled p)) (is_empty p.paused_handlers) _ _
        (λ e.
          let none_left = none_in p.paused_handlers e in
          (λ x. none_left x (p.heap x).paused, ground (arith, e)))
        (λ e.
          run_sorted-Settled (record p { component_paused = true }) s
            (sort_by_priority p.heap p.paused_handlers) refl
            (sort_by_priority-IsOrder p.heap p.paused_handlers d))
