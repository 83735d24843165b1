-- ===== src/Metastatic/Allocate.antt =====
-- Giving nodes a slot of a backing node, and taking it back: _allocateBackingNode and
-- _deallocateBackingNode of driver/metastatic/adapter.py.
pub mod Freed
pub mod Holders
pub mod References
pub mod Laws
use nodepool.Prelude.{
  ℕ, String, Bool, true, false, Option, some, none, List, [], ◌∷◌, lookup, if◌then◌else◌, M, Result,
  ok, raise, pure, get, modify, ◌>>=◌, ◌>>◌, on_right,
}
use nodepool.Zk.States.{requested}
use nodepool.Zk.Request.{NodeRequest, new_request}
use nodepool.Zk.Request
use nodepool.Metastatic.{
  BackingNodeRecord, new_record, has_available_slot, backs_node, deallocate_slot, Adapter, write,
  references, Store, Provider, LabelConfig,
}
use nodepool.Metastatic.Requests.{Run, init, add_backing_node, take_slot}

module _ {S : Type 0} (z : Store S) (p : Provider) where
  -- The loops of _deallocateBackingNodeInner over the records.
  unfoldable pub give_back : String → List ℕ → Run S (Unit {0})
  unfolding backs_node deallocate_slot
  give_back node_id [] t = (ok tt, t)
  give_back node_id (r ∷ rs) (a, s) =
      if backs_node node_id (a.heap r)
      then elim (deallocate_slot (z.time s) node_id (a.heap r)) [
        | raise e ↦ (raise e, (a, s))
        | ok b ↦ (ok tt, (record a { heap = write r b a.heap }, s))
      ]
      else give_back node_id rs (a, s)

  -- _deallocateBackingNodeInner
  unfoldable pub deallocate_inner : String → Run S (Unit {0})
  unfolding give_back references
  deallocate_inner node_id (a, s) = give_back node_id (references a.backing_node_records) (a, s)

  -- _deallocateBackingNode
  unfoldable pub deallocate_backing_node : String → Run S (Unit {0})
  unfolding init deallocate_inner
  deallocate_backing_node node_id = init z p >> deallocate_inner node_id

  -- The first record under the label that has a free slot.
  find_available : (ℕ → BackingNodeRecord) → List ℕ → Option ℕ
  unfolding has_available_slot
  find_available heap [] = none
  find_available heap (r ∷ rs) =
      if has_available_slot (heap r) then some r else find_available heap rs

  abbrev get_references : String → List (String × List ℕ) → List ℕ
  get_references l m = elim (lookup l m) [ none ↦ [] | some rs ↦ rs ]

  -- The request for a backing node.
  abbrev backing_request : (now : ℕ) → LabelConfig → Result NodeRequest
  unfolding new_request
  backing_request now label = Request.set_state now requested (record (new_request none) {
    node_types = label.backing_label ∷ [];
    requestor = some p.my_id;
  })

  store_backing_request : LabelConfig → M S (Option String)
  unfolding backing_request Request.set_state Request.is_request_state
  store_backing_request label s = elim (backing_request (z.time s) label) [
    | raise e ↦ (raise e, s)
    | ok req ↦
        let (r, (stored, t)) = z.store_node_request (req, s) in
        elim r [ raise e ↦ (raise e, t) | ok u ↦ (ok stored.id, t) ]
  ]

  -- A new record that waits for its node.
  request_backing_node : LabelConfig → Run S ℕ
  unfolding store_backing_request new_record add_backing_node
  request_backing_node label = do
    request_id ← on_right (store_backing_request label)
    (a, s) ← get
    add_backing_node label.name (record (new_record label.name label.max_parallel_jobs (z.time s)) {
      request_id = request_id;
    })

  choose_record : LabelConfig → Run S ℕ
  unfolding find_available request_backing_node lookup
  choose_record label (a, s) =
      elim (find_available a.heap (get_references label.name a.backing_node_records)) [
        | some r ↦ (ok r, (a, s))
        | none ↦ request_backing_node label (a, s)
      ]

  -- _allocateBackingNode behind _init, under the allocation lock. Returned are the record and the slot.
  unfoldable pub allocate_locked : LabelConfig → String → Run S (ℕ × ℕ)
  unfolding deallocate_inner choose_record take_slot
  allocate_locked label node_id = do
    deallocate_inner node_id
    r ← choose_record label
    slot ← take_slot z p node_id none r
    pure (r, slot)

  -- _allocateBackingNode
  unfoldable pub allocate_backing_node : LabelConfig → String → Run S (ℕ × ℕ)
  unfolding init allocate_locked
  allocate_backing_node label node_id = init z p >> allocate_locked label node_id
