-- ===== src/Metastatic/Machines.antt =====
-- The create and delete machines of the metastatic driver, driver/metastatic/adapter.py.
pub mod Laws
use nodepool.Prelude.{
  ℕ, String, Bool, true, false, Option, some, none, List, [], ◌∷◌, if◌then◌else◌, lookup, M, Result,
  ok, raise, other, key_error, pure, throw, get, modify, ◌>>=◌, ◌>>◌, on_right,
}
use nodepool.Zk.Values.{Value, null, num, str, Dict, get_or, of_str}
use nodepool.Zk.Node.{Node}
use nodepool.Metastatic.{BackingNodeRecord, Adapter, Store, Provider, LabelConfig}
use nodepool.Metastatic.Requests.{Run, check_backing_node_requests}
use nodepool.Metastatic.Allocate.{allocate_backing_node, deallocate_backing_node}

pub data Phase : Type 0 where
  start requesting finished : Phase

-- MetastaticDeleteStateMachine: the node, its state and `complete`.
pub record DeleteMachine : Type 0 where
  pub node_id : String
  pub state : Phase
  pub complete : Bool

-- MetastaticCreateStateMachine. The record and the slot are there once one was allocated.
pub record CreateMachine : Type 0 where
  pub node_id : String
  pub label : LabelConfig
  pub metadata : Value
  pub state : Phase
  pub complete : Bool
  pub external_id : Option String
  pub backing : Option (ℕ × ℕ)

-- What MetastaticInstance sets, and the driver data that the node is stored with.
pub record MetastaticInstance : Type 0 where
  pub backing_node : Option Node
  pub slot : ℕ
  pub external_id : Option String
  pub driver_data : Dict

-- MetastaticInstance.__init__ with metadata given, as the machine does.
unfoldable pub new_instance : Option Node → ℕ → Node → Value → MetastaticInstance
new_instance backing slot node metadata = record {
  backing_node = backing;
  slot = slot;
  external_id = node.id;
  driver_data =
      ("metadata", metadata)
      ∷ ("backing_node", elim backing [ none ↦ null | some n ↦ of_str n.id ])
      ∷ ("slot", num slot)
      ∷ ("node", of_str node.id)
      ∷ [];
}

module _ {S : Type 0} (z : Store S) (p : Provider) where
  -- MetastaticDeleteStateMachine.advance, by its state.
  delete_from : Phase → M (DeleteMachine × (Adapter × S)) (Unit {0})
  unfolding deallocate_backing_node
  delete_from start (d, t) =
      let (r, u) = deallocate_backing_node z p d.node_id t in
      elim r [
        | raise e ↦ (raise e, (d, u))
        | ok _ ↦ (ok tt, (record d { state = finished; complete = true }, u))
      ]
  delete_from requesting (d, t) = (ok tt, (d, t))
  delete_from finished (d, t) = (ok tt, (record d { complete = true }, t))

  unfoldable pub advance_delete : M (DeleteMachine × (Adapter × S)) (Unit {0})
  unfolding delete_from
  advance_delete (d, t) = delete_from d.state (d, t)

  -- The part of MetastaticCreateStateMachine.advance for the state START.
  start_create : Phase → M (CreateMachine × (Adapter × S)) (Unit {0})
  unfolding allocate_backing_node
  start_create start (c, t) =
      let (r, u) = allocate_backing_node z p c.label c.node_id t in
      elim r [
        | raise e ↦ (raise e, (c, u))
        | ok x ↦ (
          ok tt,
          (
            record c {
              backing = some x;
              state = elim (u.0.heap x.0).node_id [ none ↦ requesting | some id ↦ finished ];
              external_id = some c.node_id;
            },
            u,
          ),
        )
      ]
  start_create _ (c, t) = (ok tt, (c, t))

  -- For the state COMPLETE: the instance is made of the two nodes.
  abbrev instance_of :
      CreateMachine
      → (slot : ℕ) → Option Node
      → Option Node
      → M (CreateMachine × (Adapter × S)) (Option MetastaticInstance)
  unfolding new_instance
  instance_of c slot backing none u = (raise other, u)
  instance_of c slot backing (some n) (d, t) =
      (ok (some (new_instance backing slot n c.metadata)), (record d { complete = true }, t))

  finish_create : (ref slot : ℕ) → M (CreateMachine × (Adapter × S)) (Option MetastaticInstance)
  unfolding instance_of
  finish_create ref slot = do
    (c, (a, s)) ← get
    backing ← on_right (on_right (z.get_node (a.heap ref).node_id))
    node ← on_right (on_right (z.get_node (some c.node_id)))
    instance_of c slot backing node

  -- For the state REQUESTING, behind the check of the requests: a failed record, one that waits for
  -- its node, and one that has it.
  await_create :
      (ref slot : ℕ)
      → (failed : Bool) → Option String
      → M (CreateMachine × (Adapter × S)) (Option MetastaticInstance)
  unfolding finish_create
  await_create ref slot true id t = (raise other, t)
  await_create ref slot false none t = (ok none, t)
  await_create ref slot false (some id) (c, t) =
      finish_create ref slot (record c { state = finished }, t)

  -- What follows START, for a machine that has a record.
  continue_create :
      (ref slot : ℕ) → Phase → M (CreateMachine × (Adapter × S)) (Option MetastaticInstance)
  unfolding check_backing_node_requests await_create finish_create
  continue_create ref slot start t = (ok none, t)
  continue_create ref slot requesting t =
      (do
        on_right (check_backing_node_requests z p)
        (c, (a, s)) ← get
        await_create ref slot (a.heap ref).failed (a.heap ref).node_id)
        t
  continue_create ref slot finished t = finish_create ref slot t

  rest_create :
      Option (ℕ × ℕ) → Phase → M (CreateMachine × (Adapter × S)) (Option MetastaticInstance)
  unfolding continue_create
  rest_create none _ t = (raise other, t)
  rest_create (some (ref, slot)) phase t = continue_create ref slot phase t

  -- MetastaticCreateStateMachine.advance
  unfoldable pub advance_create : M (CreateMachine × (Adapter × S)) (Option MetastaticInstance)
  unfolding start_create rest_create
  advance_create = do
    (c, t) ← get
    start_create c.state
    (d, u) ← get
    rest_create d.backing d.state
