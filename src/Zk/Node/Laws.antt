-- ===== src/Zk/Node/Laws.antt =====
-- What a node keeps when it is stored in ZooKeeper and read back.
use nodepool.Prelude.{
  ◌∙◌, OnOk-Unit, OnOk, then_ok-OnOk, Bool-cases, Option-cases, inl, inr, lookup, false, ℕ, true,
  false, Option, some, none, [], ◌≡◌, refl, ok,
}
use nodepool.Zk.States.{find_state, State, find_state-state_name}
use nodepool.Zk.Values.{
  or_none, get_or, null, Value, str, Dict, value_laws, of_num, coerce_expiration,
}
use nodepool.Zk.Node.{
  check_state, set_state, base_update, assign, restore_time, update_from_dict, Node, to_dict,
  from_dict, is_node_state,
}

-- A node without what is local to the process, and with an id that is not empty.
abbrev pub stored : Node → Node
stored n = record n { id = or_none n.id; lock = false; thread_lock = false; lock_contenders = [] }

coerce_expiration-of_num : (o : Option ℕ) → coerce_expiration (of_num o) ≡ ok o
unfolding coerce_expiration
coerce_expiration-of_num none = refl
coerce_expiration-of_num (some n) = refl

-- A node in one of its valid states is read back from its dictionary as it was stored, whenever that
-- happens, but for what is local to the process; an empty id is None then.
pub node_from_dict-to_dict :
    (now : ℕ) (n : Node) {s : State}
    → n.state ≡ some s
    → is_node_state s ≡ true
    → from_dict now (to_dict n) n.id ≡ ok (stored n)
unfolding from_dict to_dict
node_from_dict-to_dict now n e v = rw e (
    simp (find_state-state_name, v)
      (rw (coerce_expiration-of_num n.hold_expiration) (simp value_laws)))

-- What is local to the process, and the id, are no part of a dictionary.
abbrev pub SameLocal : Node → Node → Type 0
SameLocal n m = (m.id ≡ n.id) × (m.lock ≡ n.lock) × (m.thread_lock ≡ n.thread_lock)

SameLocal-trans : (a b c : Node) → SameLocal a b → SameLocal b c → SameLocal a c
SameLocal-trans a b c p q = (q.0 ∙ p.0, q.1 ∙ p.1, q.2 ∙ p.2)

restore_time-SameLocal : (d : Dict) (n : Node) → SameLocal n (restore_time d n)
unfolding restore_time
restore_time-SameLocal d n = elim (Option-cases (lookup "state_time" d)) [
  | inl e ↦ rw (e, restore_time) (refl, refl, refl)
  | inr (v, e) ↦ rw (e, restore_time) (refl, refl, refl)
]

assign-SameLocal : (d : Dict) (x : Option ℕ) (n : Node) → SameLocal n (assign d x n)
unfolding assign
assign-SameLocal d x n = (refl, refl, refl)

set_state-SameLocal : (now : ℕ) (s : State) (n : Node) → OnOk (SameLocal n) (set_state now s n)
unfolding set_state
set_state-SameLocal now s n = elim (Bool-cases (is_node_state s)) [
  | inl valid ↦ rw valid (refl, refl, refl)
  | inr invalid ↦ rw invalid tt
]

check_state-SameLocal :
    (now : ℕ) (v : Option Value) (n : Node) → OnOk (SameLocal n) (check_state now v n)
unfolding check_state
check_state-SameLocal now none n = (refl, refl, refl)
check_state-SameLocal now (some (str name)) n = elim (Option-cases (find_state name)) [
  | inl unknown ↦ rw (unknown, OnOk) tt
  | inr (s, known) ↦ rw (known, OnOk) (set_state-SameLocal now s n)
]
check_state-SameLocal now (some _) n = tt

-- Reading a dictionary changes neither the id nor what is local.
pub update_from_dict-SameLocal :
    (now : ℕ) (d : Dict) (n : Node) → OnOk (SameLocal n) (update_from_dict now d n)
unfolding update_from_dict
update_from_dict-SameLocal now d n =
    then_ok-OnOk (SameLocal n) (SameLocal n) (base_update now d n) _
      (then_ok-OnOk (SameLocal n) (SameLocal n) (check_state now (lookup "state" d) n) _
        (check_state-SameLocal now (lookup "state" d) n)
        (λ m p. SameLocal-trans n m (restore_time d m) p (restore_time-SameLocal d m)))
      (λ m p.
        then_ok-OnOk (λ _. Unit {0}) (SameLocal n)
          (coerce_expiration (get_or "hold_expiration" null d)) _
          (OnOk-Unit (coerce_expiration (get_or "hold_expiration" null d)))
          (λ x _. SameLocal-trans n m (assign d x m) p (assign-SameLocal d x m)))
