-- ===== src/Driver/Labels/Laws.antt =====
-- Taking the recorded nodes in the order of the requested types.
use mathlib.Core.List.{Perm}
use mathlib.Core.List.Perm
use nodepool.Prelude.{
  suc, ◌+◌, ◌<◌, String, true, false, Option, some, none, List, [], ◌∷◌, ◌==◌, if◌then◌else◌,
  Result, ok, then_ok, count, All, length, ◌≡◌, refl, ap, inl, inr, arith, eq_iff, eq_refl,
  Bool-cases,
}
use nodepool.Zk.Values.{is_set}
use nodepool.Driver.Labels.{Entry, Recorder, labels, same_id, find_label, remove, pop}

entry : String → Option String → Entry
entry label id = record { label = label; node_id = id }

same_id_refl : (o : Option String) → same_id o o ≡ true
same_id_refl none = refl
same_id_refl (some s) = eq_refl s

-- The entries that `pop_all` pairs up.
pub pairs : List String → List (Option String) → Recorder
unfolding entry
pairs [] ids = []
pairs (l ∷ ls) [] = []
pairs (l ∷ ls) (id ∷ ids) = entry l id ∷ pairs ls ids

abbrev AllSet : Recorder → Type 0
AllSet = All (λ e. is_set e.node_id ≡ true)

-- The entry that `pop l` takes out, and what that does to the counts.
record Found (l : String) (d : Recorder) (id : Option String) : Type 0 where
  found : find_label l d ≡ some id
  real : is_set id ≡ true
  same : Perm d (entry l id ∷ remove l id d)
  counts :
      (k : String)
      → count k (labels d) ≡ (if l == k then 1 else 0) + count k (labels (remove l id d))
  left : AllSet (remove l id d)

Found-here :
    (l : String) (e : Entry) (d : Recorder)
    → e.label ≡ l
    → AllSet (e ∷ d)
    → Found l (e ∷ d) e.node_id
unfolding find_label remove entry
Found-here l e d hit a = rw (← hit) (record {
  found = rw (eq_refl e.label) refl;
  real = a.0;
  same = rw (eq_refl e.label, same_id_refl e.node_id) Perm.rfl;
  counts = λ k. rw (eq_refl e.label, same_id_refl e.node_id) refl;
  left = rw (eq_refl e.label, same_id_refl e.node_id) a.1;
})

Found-there :
    (l : String) (e : Entry) (d : Recorder) (id : Option String)
    → e.label == l ≡ false
    → AllSet (e ∷ d)
    → Found l d id
    → Found l (e ∷ d) id
unfolding find_label remove entry
Found-there l e d id miss a f = record {
  found = rw miss f.found;
  real = f.real;
  same = rw miss (Perm.trans (Perm.cons e f.same) (Perm.swap (entry l id) e _));
  counts = λ k. rw miss (omega (arith, f.counts k));
  left = rw miss (a.0, f.left);
}

-- A label that is recorded is found, and the entry that is removed is the one that was found.
find_label-Found :
    (l : String) (d : Recorder)
    → 0 < count l (labels d)
    → AllSet d
    → (id : Option String) × Found l d id
find_label-Found l [] h a = absurd (omega arith)
find_label-Found l (e ∷ d) h a = elim (Bool-cases (e.label == l)) [
  | inl hit ↦ (e.node_id, Found-here l e d ((eq_iff e.label l).0 hit) a)
  | inr miss ↦
      let (id, f) = find_label-Found l d (ground arith) a.1 in (id, Found-there l e d id miss a f)
]

pop-Found :
    (l : String) (d : Recorder) (id : Option String)
    → Found l d id
    → pop l d ≡ ok (id, remove l id d)
unfolding pop
pop-Found l d id f = rw (f.found, pop) (rw f.real refl)

-- The pops of all types in turn: the ids, and what is left.
unfoldable pub pop_all : List String → Recorder → Result (List (Option String) × Recorder)
unfolding pop
pop_all [] d = ok ([], d)
pop_all (l ∷ ls) d =
    then_ok (pop l d) (λ (id, d'). then_ok (pop_all ls d') (λ (ids, d''). ok (id ∷ ids, d'')))

-- What is recorded as often as it is requested is taken out whole: nothing is left, and the pairs of
-- a requested type and its node are the recorded ones, each once.
pub pop_all-perm :
    (ls : List String) (d : Recorder)
    → All (λ e. is_set e.node_id ≡ true) d
    → ((l : String) → count l (labels d) ≡ count l ls)
    → (ids : List (Option String)) × (pop_all ls d ≡ ok (ids, []))
      × (length ids ≡ length ls)
      × Perm (pairs ls ids) d
unfolding pop_all pairs
pop_all-perm [] [] a h = ([], refl, refl, Perm.rfl)
pop_all-perm [] (e ∷ d) a h = absurd (ground (arith, h e.label, eq_refl e.label))
pop_all-perm (l ∷ ls) d a h =
    let (id, f) = find_label-Found l d (ground (arith, h l, eq_refl l)) a in
    let (ids, done, long, same) =
      pop_all-perm ls (remove l id d) f.left (λ k. ground (arith, h k, f.counts k)) in
    (
      id ∷ ids,
      rw (pop-Found l d id f, done) refl,
      ap suc long,
      Perm.trans (Perm.cons (entry l id) same) (Perm.symm f.same),
    )
