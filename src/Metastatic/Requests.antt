-- ===== src/Metastatic/Requests.antt =====
-- Where the adapter gets its backing nodes from: _init_inner and _checkBackingNodeRequests of
-- driver/metastatic/adapter.py.
use nodepool.Prelude.{
  ℕ, suc, String, Bool, true, false, not, ◌&&◌, Option, some, none, List, [], ◌∷◌, ◌++◌, lookup,
  insert, if◌then◌else◌, M, Result, ok, raise, key_error, type_error, other, pure, throw, get,
  modify, ◌>>=◌, ◌>>◌, for_each, on_right, is_empty, assign_to, ◌==◌, keep, ◌≡◌, ap,
}
use nodepool.Zk.States.{failed, fulfilled, in_use, is_state}
use nodepool.Zk.Values.{Value, null, bool, num, str, Dict, is_set, is_str, truthy, get_or, to_str}
use nodepool.Zk.Paths.{format_id}
use nodepool.Zk.Node.{Node}
use nodepool.Zk.Node
use nodepool.Zk.Request.{NodeRequest}
use nodepool.Metastatic.{
  BackingNodeRecord, new_record, allocate_slot, Adapter, write, references, Store, Provider,
}

abbrev pub Run : Type 0 → Type 0 → Type 0
Run S A = M (Adapter × S) A

-- `self.backing_node_records.setdefault(label_name, []).append(r)`
unfoldable pub append_reference : String → ℕ → List (String × List ℕ) → List (String × List ℕ)
append_reference l r [] = (l, r ∷ []) ∷ []
append_reference l r ((j, rs) ∷ m) =
    if j == l then (j, rs ++ r ∷ []) ∷ m else (j, rs) ∷ append_reference l r m

-- A new record, put under its label by _addBackingNode. Its reference is returned.
unfoldable pub add_backing_node : {S : Type 0} → String → BackingNodeRecord → Run S ℕ
unfolding append_reference
add_backing_node l b (a, s) = (
  ok a.next,
  (
    record a {
      heap = write a.next b a.heap;
      next = suc a.next;
      backing_node_records = append_reference l a.next a.backing_node_records;
    },
    s,
  ),
)

-- `user_data[key]`
abbrev item : String → Dict → Result Value
unfolding lookup
item key d = elim (lookup key d) [ none ↦ raise key_error | some v ↦ ok v ]

abbrev as_text : Value → String
as_text (str s) = s
as_text _ = ""

-- A slot number; `range` and list indices take nothing but integers.
abbrev as_number : Value → Result ℕ
as_number (num n) = ok n
as_number _ = raise type_error

abbrev to_slot : Value → Result (Option ℕ)
to_slot null = ok none
to_slot (num n) = ok (some n)
to_slot _ = raise type_error

abbrev pub lift : {S A : Type 0} → Result A → Run S A
lift r t = (r, t)

module _ {S : Type 0} (z : Store S) (p : Provider) where
  -- The record of a backing node that was found, at its node's id.
  recover : Node → Dict → Run S (String × ℕ)
  unfolding add_backing_node new_record get_or
  recover node user_data = do
    label ← lift (item "label" user_data)
    slots ← lift (item "slots" user_data)
    slot_count ← lift (as_number slots)
    (a, s) ← get
    let launched : ℕ = elim (get_or "launched" (num 0) user_data) [ num n ↦ n | _ ↦ 0 ]
    let b = record (new_record (as_text label) slot_count (z.time s)) {
      node_id = node.id;
      failed = truthy (get_or "failed" (bool false) user_data);
      launched = launched;
    }
    r ← add_backing_node (as_text label) b
    pure (format_id node.id, r)

  abbrev starts_with : String → List String → Bool
  starts_with me [] = false
  starts_with me (c ∷ cs) = c == me

  recover_mine : Node → Dict → Run S (List (String × ℕ))
  unfolding recover
  recover_mine node user_data = do
    contenders ← on_right (z.get_node_lock_contenders node)
    if starts_with p.my_id contenders
        then (recover node user_data >>= λ entry. pure (entry ∷ []))
        else pure []

  -- The body of the first loop; what it adds to backing_node_map.
  find_backing_node : Node → Run S (List (String × ℕ))
  unfolding recover_mine lookup
  find_backing_node node = elim (z.loads node.user_data) [
    | none ↦ pure []
    | some user_data ↦ elim (lookup "owner" user_data) [
      | none ↦ pure []
      | some owner ↦ if is_str (to_str owner) p.my_id then recover_mine node user_data else pure []
    ]
  ]

  find_backing_nodes : List Node → List (String × ℕ) → Run S (List (String × ℕ))
  unfolding find_backing_node insert
  find_backing_nodes [] found = pure found
  find_backing_nodes (n ∷ ns) found =
      find_backing_node n >>= λ e. find_backing_nodes ns (e ++ found)

  -- allocateSlot on the record at a reference.
  unfoldable pub take_slot : String → Option ℕ → ℕ → Run S ℕ
  unfolding allocate_slot
  take_slot node_id slot_id r (a, s) = elim (allocate_slot node_id slot_id (a.heap r)) [
    | raise e ↦ (raise e, (a, s))
    | ok (i, b) ↦ (ok i, (record a { heap = write r b a.heap }, s))
  ]

  -- The body of the second loop behind its tests.
  assign_found : List (String × ℕ) → Node → Dict → Run S (Unit {0})
  unfolding take_slot lookup get_or
  assign_found found node d = do
    let id : Option String = to_str (get_or "backing_node" null d)
    let bound : Option ℕ = if is_set id then lookup (format_id id) found else none
    elim bound [
      | none ↦ pure tt
      | some r ↦ do
        slot ← lift (to_slot (get_or "slot" null d))
        take_slot (format_id node.id) slot r
        pure tt
    ]

  assign_node : List (String × ℕ) → Node → Run S (Unit {0})
  unfolding assign_found
  assign_node found node =
      if is_str node.provider p.name && truthy node.driver_data
      then elim (z.document node.driver_data) [
        | none ↦ throw type_error
        | some d ↦ assign_found found node d
      ]
      else pure tt

  init_inner : Run S (Unit {0})
  unfolding find_backing_nodes assign_node
  init_inner = do
    nodes ← on_right z.node_iterator
    found ← find_backing_nodes nodes []
    later ← on_right z.node_iterator
    for_each later (assign_node found)
    modify (λ (a, s). (record a { performed_init = true }, s))

  -- _init
  unfoldable pub init : Run S (Unit {0})
  unfolding init_inner
  init (a, s) = if a.performed_init then (ok tt, (a, s)) else init_inner (a, s)

  pub init_done : (a : Adapter) (s : S) → a.performed_init ≡ true → init (a, s) ≡ (ok tt, (a, s))
  unfolding init
  init_done a s done = ap (λ b. if b then (ok tt, (a, s)) else init_inner (a, s)) done

  -- waiting_requests, by request id; the last record with an id counts.
  waiting_requests : (ℕ → BackingNodeRecord) → List ℕ → List (String × ℕ) → List (String × ℕ)
  unfolding insert
  waiting_requests heap [] w = w
  waiting_requests heap (r ∷ rs) w =
      waiting_requests heap rs
        (if is_set (heap r).request_id then insert (format_id (heap r).request_id) r w else w)

  -- _makeBackingNodeUserData
  unfoldable pub user_data : BackingNodeRecord → Value
  user_data b = z.dumps (
      ("owner", str p.my_id)
      ∷ ("label", str b.label_name)
      ∷ ("slots", num b.slot_count)
      ∷ ("failed", bool b.failed)
      ∷ ("launched", num b.launched)
      ∷ [])

  -- The records of a failed request are failed, and leave their lists.
  unfoldable pub fail_records : String → (ℕ → BackingNodeRecord) → List ℕ → ℕ → BackingNodeRecord
  fail_records id heap [] = heap
  fail_records id heap (r ∷ rs) =
      fail_records id
        (if is_str (heap r).request_id id
          then write r (record (heap r) { failed = true }) heap
          else heap)
        rs

  unfoldable pub drop_records :
      String → (ℕ → BackingNodeRecord) → List (String × List ℕ) → List (String × List ℕ)
  drop_records id heap [] = []
  drop_records id heap ((l, rs) ∷ m) =
      (l, keep (λ r. not (is_str (heap r).request_id id)) rs) ∷ drop_records id heap m

  unfoldable pub fail_request : String → Run S (Unit {0})
  unfolding fail_records drop_records references
  fail_request id (a, s) = (
    ok tt,
    (
      record a {
        heap = fail_records id a.heap (references a.backing_node_records);
        backing_node_records = drop_records id a.heap a.backing_node_records;
      },
      s,
    ),
  )

  -- Taking over the node of a fulfilled request, for the record of that request.
  abbrev pub claim : BackingNodeRecord → M (Node × S) (Unit {0})
  unfolding user_data Node.set_state Node.is_node_state
  claim b = do
    z.lock_node
    modify (λ (n, s). (record n { user_data = user_data b }, s))
    (n, s) ← get
    assign_to (Node.set_state (z.time s) in_use)
    z.store_node

  abbrev pub claim_found : BackingNodeRecord → Option Node → M S (Unit {0})
  unfolding claim
  claim_found b none t = (raise other, t)
  claim_found b (some node) t = let (c, after) = claim b (node, t) in (c, after.1)

  unfoldable pub fulfil_request : NodeRequest → ℕ → Run S (Unit {0})
  unfolding claim_found
  fulfil_request request r = elim request.nodes [
    | [] ↦ throw other
    | node_id ∷ _ ↦ do
      found ← on_right (z.get_node node_id)
      (a, s) ← get
      on_right (claim_found (a.heap r) found)
      on_right (z.delete_node_request request)
      modify (λ (b, t). (
        record b {
          heap = write r (record (b.heap r) { request_id = none; node_id = node_id }) b.heap;
        },
        t,
      ))
  ]

  -- The body of the loop over the requests. The two tests are of one state, so one of them is met.
  check_request : List (String × ℕ) → NodeRequest → Run S (Unit {0})
  unfolding fail_request fulfil_request lookup
  check_request waiting request = elim (lookup (format_id request.id) waiting) [
    | none ↦ pure tt
    | some r ↦
        if is_state request.state failed
        then fail_request (format_id request.id)
        else if is_state request.state fulfilled
        then fulfil_request request r
        else pure tt
  ]

  -- _checkBackingNodeRequests
  unfoldable pub check_backing_node_requests : Run S (Unit {0})
  unfolding init waiting_requests check_request references
  check_backing_node_requests = do
    init
    (a, s) ← get
    let waiting = waiting_requests a.heap (references a.backing_node_records) []
    if is_empty waiting then pure tt else (do
      requests ← on_right z.node_request_iterator
      for_each requests (check_request waiting))
