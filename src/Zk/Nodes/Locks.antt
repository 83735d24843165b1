-- ===== src/Zk/Nodes/Locks.antt =====
-- The lock of a node and the mutex of its object, under every answer of the client.
use nodepool.Prelude.{
  [], Bool, true, false, Option, some, none, ◌≡◌, refl, Result, ok, raise, zk_lock, arith, OnOk,
  assign_to,
}
use nodepool.Zk.Values.{Dict}
use nodepool.Zk.Node.{Node, update_from_dict}
use nodepool.Zk.Node.Laws.{SameLocal, update_from_dict-SameLocal}
use nodepool.Zk.Paths.{node_path, node_lock_path, format_id}
use nodepool.Zk.Kazoo.{Kazoo}
use nodepool.Zk.Nodes.{lock_node, unlock_node, update_node}

-- The object holds its mutex exactly while it holds the lock.
abbrev pub IsBalanced : Node → Type 0
IsBalanced n = n.lock ≡ n.thread_lock

assign_to-SameLocal :
    {S : Type 0} (f : Node → Result Node) (n : Node) (s : S)
    → OnOk (SameLocal n) (f n)
    → SameLocal n (assign_to f (n, s)).1.0
assign_to-SameLocal f n s h = go (f n) refl h
  where
    go : (r : Result Node) → f n ≡ r → OnOk (SameLocal n) r → SameLocal n (assign_to f (n, s)).1.0
    go (ok m) e h = rw (e, assign_to) h
    go (raise x) e h = rw (e, assign_to) (refl, refl, refl)

module _ {S : Type 0} (k : Kazoo S) where
  pub update_node-SameLocal : (n : Node) (s : S) → SameLocal n (update_node k (n, s)).1.0
  unfolding update_node
  update_node-SameLocal n s = go (k.get (node_path (format_id n.id)) s).0 refl
    where
      after : S
      after = (k.get (node_path (format_id n.id)) s).1

      go :
          (r : Result (Option Dict))
          → (k.get (node_path (format_id n.id)) s).0 ≡ r
          → SameLocal n (update_node k (n, s)).1.0
      go (raise x) e = rw (e, update_node) (refl, refl, refl)
      go (ok none) e =
          rw (e, update_node)
            (assign_to-SameLocal (update_from_dict (k.time after) []) n after
              (update_from_dict-SameLocal (k.time after) [] n))
      go (ok (some d)) e =
          rw (e, update_node)
            (assign_to-SameLocal (update_from_dict (k.time after) d) n after
              (update_from_dict-SameLocal (k.time after) d n))

  -- For an object that holds its mutex exactly while it holds the lock: whatever the client answers,
  -- lockNode (ephemeral, blocking or not) keeps this so, and when it returns the object holds both.
  pub lock_node-IsBalanced :
      (blocking : Bool) (n : Node) (s : S)
      → IsBalanced n
      → let (r, (m, t)) = lock_node k blocking true (n, s) in
        IsBalanced m × (r ≡ ok tt → (m.lock ≡ true) × (m.thread_lock ≡ true))
  unfolding lock_node
  lock_node-IsBalanced blocking n s b = ground (
    arith,
    update_node-SameLocal (record n { lock = true; thread_lock = true })
        (k.acquire (node_lock_path (format_id n.id)) blocking true s).1,
  )

  -- unlockNode on an object that holds its mutex exactly while it holds the lock releases both or
  -- neither, whatever the client answers: both if it returns, and it raises ZKLockException and
  -- changes nothing if there is no lock.
  pub unlock_node-IsBalanced :
      (n : Node) (s : S)
      → IsBalanced n
      → let (r, (m, t)) = unlock_node k (n, s) in
        IsBalanced m
        × (r ≡ ok tt → (m.lock ≡ false) × (m.thread_lock ≡ false))
        × (n.lock ≡ false → (r ≡ raise zk_lock) × (m ≡ n))
  unfolding unlock_node
  unlock_node-IsBalanced n s b = ground arith
