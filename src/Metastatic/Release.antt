-- ===== src/Metastatic/Release.antt =====
-- Releasing backing nodes that are not in use, and failing one that was found faulty: listResources
-- and notifyNodescanFailure of driver/metastatic/adapter.py.
pub mod Laws
use nodepool.Prelude.{
  ℕ, zero, suc, ◌+◌, String, Bool, true, false, ◌&&◌, Option, some, none, List, [], ◌∷◌, lookup,
  ltb, eqb, if◌then◌else◌, M, Result, ok, raise, other, pure, throw, get, modify, ◌>>=◌, ◌>>◌,
  for_each, on_right, assign_to, ◌==◌,
}
use nodepool.Zk.States.{used}
use nodepool.Zk.Node.{Node}
use nodepool.Zk.Node
use nodepool.Metastatic.{
  BackingNodeRecord, is_unused, backs_node, Adapter, write, references, Store, Provider,
  LabelConfig,
}
use nodepool.Metastatic.Requests.{Run, init, user_data}

-- The grace time and the least retention time of a record, and whether it is too old for its label.
abbrev is_aged : (now : ℕ) → LabelConfig → BackingNodeRecord → Bool
is_aged now c b = elim c.max_age [
  | none ↦ false
  | some zero ↦ false
  | some (suc age) ↦ ltb (b.launched + suc age) now
]

unfoldable pub age_record : (now : ℕ) → Option LabelConfig → BackingNodeRecord → BackingNodeRecord
age_record now none b = b
age_record now (some c) b = if is_aged now c b then record b { failed = true } else b

abbrev grace_time : Option LabelConfig → BackingNodeRecord → ℕ
grace_time none b = 0
grace_time (some c) b = if b.failed then 0 else c.grace_time

abbrev min_time : Option LabelConfig → BackingNodeRecord → ℕ
min_time none b = 0
min_time (some c) b = if b.failed then 0 else c.min_retention_time

-- The test for a release, on a record behind the test of its age.
unfoldable pub is_idle : (now : ℕ) → Option LabelConfig → BackingNodeRecord → Bool
unfolding is_unused
is_idle now c b =
    is_unused b && ltb (b.last_used + grace_time c b) now && ltb (b.launched + min_time c b) now

-- `backing_node_records.remove(bnr)` on the list under a label, which holds it.
abbrev without : ℕ → List ℕ → List ℕ
without r [] = []
without r (x ∷ xs) = if eqb x r then xs else x ∷ without r xs

unfoldable pub remove_reference : String → ℕ → List (String × List ℕ) → List (String × List ℕ)
remove_reference l r [] = []
remove_reference l r ((j, rs) ∷ m) =
    if j == l then (j, without r rs) ∷ m else (j, rs) ∷ remove_reference l r m

module _ {S : Type 0} (z : Store S) (p : Provider) where
  abbrev write_record : ℕ → BackingNodeRecord → Run S (Unit {0})
  write_record r b (a, s) = (ok tt, (record a { heap = write r b a.heap }, s))

  -- The backing node itself, which may be gone.
  abbrev give_up_node : Option Node → M S (Unit {0})
  unfolding Node.set_state Node.is_node_state
  give_up_node none s = (ok tt, s)
  give_up_node (some node) s =
      let (r, (n, t)) = (assign_to (Node.set_state (z.time s) used) >> z.store_node) (node, s) in
      elim r [ raise e ↦ (raise e, t) | ok u ↦ z.force_unlock_node n t ]

  release : String → ℕ → Run S (Unit {0})
  unfolding give_up_node remove_reference
  release l r = do
    (a, s) ← get
    write_record r (record (a.heap r) { failed = true })
    node ← on_right (z.get_node (a.heap r).node_id)
    on_right (give_up_node node)
    modify (λ (b, t).
        (record b { backing_node_records = remove_reference l r b.backing_node_records }, t))

  -- The body of the two loops.
  check_record : (now : ℕ) → String × ℕ → Run S (Unit {0})
  unfolding age_record is_idle release
  check_record now (l, r) = do
    (a, s) ← get
    let c = p.get_label (a.heap r).label_name
    let b = age_record now c (a.heap r)
    write_record r b
    if is_idle now c b then release l r else pure tt

  -- The records with their labels, as the loops run through them.
  labelled : List (String × List ℕ) → List (String × ℕ)
  labelled [] = []
  labelled ((l, []) ∷ m) = labelled m
  labelled ((l, r ∷ rs) ∷ m) = (l, r) ∷ labelled ((l, rs) ∷ m)

  -- listResources, whose result is always empty.
  unfoldable pub list_resources : Run S (Unit {0})
  unfolding init check_record labelled
  list_resources = do
    init z p
    (a, s) ← get
    for_each (labelled a.backing_node_records) (check_record (z.time s))

  -- What notifyNodescanFailure does for the first record that backs the node.
  store_failed : ℕ → Run S (Unit {0})
  unfolding user_data
  store_failed r = do
    (a, s) ← get
    let b = record (a.heap r) { failed = true }
    write_record r b
    found ← on_right (z.get_node b.node_id)
    on_right (store_user_data b found)
    where
      store_user_data : BackingNodeRecord → Option Node → M S (Unit {0})
      store_user_data b none t = (raise other, t)
      store_user_data b (some n) t =
          let (r, (m, u)) = z.store_node (record n { user_data = user_data z p b }, t) in (r, u)

  fail_first : String → List ℕ → Run S (Unit {0})
  unfolding store_failed backs_node
  fail_first external_id [] t = (ok tt, t)
  fail_first external_id (r ∷ rs) (a, s) =
      if backs_node external_id (a.heap r)
      then store_failed r (a, s)
      else fail_first external_id rs (a, s)

  -- notifyNodescanFailure
  unfoldable pub notify_nodescan_failure : LabelConfig → String → Run S (Unit {0})
  unfolding fail_first lookup
  notify_nodescan_failure label external_id (a, s) =
      elim (lookup label.name a.backing_node_records) [
        | none ↦ (ok tt, (a, s))
        | some rs ↦ fail_first external_id rs (a, s)
      ]
