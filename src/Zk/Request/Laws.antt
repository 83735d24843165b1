-- ===== src/Zk/Request/Laws.antt =====
-- What a node request keeps when it is stored in ZooKeeper and read back.
use nodepool.Prelude.{ℕ, true, false, some, ◌≡◌, ok}
use nodepool.Zk.States.{State, find_state-state_name}
use nodepool.Zk.Values.{or_none, value_laws}
use nodepool.Zk.Request.{NodeRequest, to_dict, from_dict, is_request_state}

-- A request without what is local to the process, and with an id that is not empty.
abbrev pub stored : NodeRequest → NodeRequest
stored r = record r { id = or_none r.id; lock = false; thread_lock = false }

-- A request in one of its valid states is read back from its dictionary as it was stored, whenever
-- that happens, but for what is local to the process; an empty id is None then.
pub request_from_dict-to_dict :
    (now : ℕ) (r : NodeRequest) {s : State}
    → r.state ≡ some s
    → is_request_state s ≡ true
    → from_dict now (to_dict r) r.id ≡ ok (stored r)
unfolding from_dict to_dict
request_from_dict-to_dict now r e v = rw e (simp (find_state-state_name, v) (simp value_laws))
