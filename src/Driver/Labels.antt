-- ===== src/Driver/Labels.antt =====
-- The class LabelRecorder of driver/__init__.py.
pub mod Laws
use nodepool.Prelude.{
  String, Bool, true, false, not, ◌&&◌, Option, some, none, List, [], ◌∷◌, ◌++◌, map, ◌==◌,
  if◌then◌else◌, Result, ok, raise, unbound_local, then_ok,
}
use nodepool.Zk.Values.{is_set}

pub record Entry : Type 0 where
  pub label : String
  pub node_id : Option String

abbrev pub Recorder : Type 0
Recorder = List Entry

unfoldable pub add : String → Option String → Recorder → Recorder
add label node_id d = d ++ record { label = label; node_id = node_id } ∷ []

abbrev pub labels : Recorder → List String
labels = map (λ e. e.label)

abbrev pub same_id : Option String → Option String → Bool
same_id none none = true
same_id none (some t) = false
same_id (some s) none = false
same_id (some s) (some t) = s == t

-- The loop of `pop`; `none` leaves `node_id` unbound.
unfoldable pub find_label : String → Recorder → Option (Option String)
find_label label [] = none
find_label label (e ∷ d) = if e.label == label then some e.node_id else find_label label d

-- `self.data.remove({...})`
unfoldable pub remove : String → Option String → Recorder → Recorder
remove label node_id [] = []
remove label node_id (e ∷ d) =
    if e.label == label && same_id e.node_id node_id then d else e ∷ remove label node_id d

-- `pop`: the id, if it is one, and what is left. With no entry of the label the variable is read
-- before it is bound.
unfoldable pub pop : String → Recorder → Result (Option String × Recorder)
unfolding find_label remove
pop label d = elim (find_label label d) [
  | none ↦ raise unbound_local
  | some node_id ↦ ok (if is_set node_id then (node_id, remove label node_id d) else (none, d))
]

unfoldable pub remove_node : Option String → Recorder → Recorder
remove_node id [] = []
remove_node id (e ∷ d) = if same_id e.node_id id then d else e ∷ remove_node id d
