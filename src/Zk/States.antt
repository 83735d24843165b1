-- ===== src/Zk/States.antt =====
-- The states of zk/zookeeper.py, by the strings that ZooKeeper stores for them.
use nodepool.Prelude.{String, Bool, true, false, Option, some, none, ◌==◌, if◌then◌else◌, ◌≡◌, refl}

pub data State : Type 0 where
  building uploading ready deleting failed requested fulfilled pending : State
  testing in_use used hold init aborted deleted : State

abbrev pub state_name : State → String
state_name building = "building"
state_name uploading = "uploading"
state_name ready = "ready"
state_name deleting = "deleting"
state_name failed = "failed"
state_name requested = "requested"
state_name fulfilled = "fulfilled"
state_name pending = "pending"
state_name testing = "testing"
state_name in_use = "in-use"
state_name used = "used"
state_name hold = "hold"
state_name init = "init"
state_name aborted = "aborted"
state_name deleted = "deleted"

-- `==` on states.
abbrev pub state_eq : State → State → Bool
state_eq building building = true
state_eq uploading uploading = true
state_eq ready ready = true
state_eq deleting deleting = true
state_eq failed failed = true
state_eq requested requested = true
state_eq fulfilled fulfilled = true
state_eq pending pending = true
state_eq testing testing = true
state_eq in_use in_use = true
state_eq used used = true
state_eq hold hold = true
state_eq init init = true
state_eq aborted aborted = true
state_eq deleted deleted = true
state_eq _ _ = false

-- `o == s` for an attribute that may be None.
abbrev pub is_state : Option State → State → Bool
is_state none s = false
is_state (some t) s = state_eq t s

find_late : String → Option State
find_late s =
    if s == "testing"
    then some testing
    else if s == "in-use"
    then some in_use
    else if s == "used"
    then some used
    else if s == "hold"
    then some hold
    else if s == "init"
    then some init
    else if s == "aborted"
    then some aborted
    else if s == "deleted"
    then some deleted
    else none

unfoldable pub find_state : String → Option State
unfolding find_late
find_state s =
    if s == "building"
    then some building
    else if s == "uploading"
    then some uploading
    else if s == "ready"
    then some ready
    else if s == "deleting"
    then some deleting
    else if s == "failed"
    then some failed
    else if s == "requested"
    then some requested
    else if s == "fulfilled"
    then some fulfilled
    else if s == "pending"
    then some pending
    else find_late s

pub find_state-state_name : (s : State) → find_state (state_name s) ≡ some s
unfolding find_state
find_state-state_name building = refl
find_state-state_name _ = refl
