-- ===== src/Samples/Deleted.antt =====
-- A worker that deletes one used node and keeps a list of the deletions that it started.
use nodepool.Prelude.{true, none, List, [], ◌∷◌, refl, ok, All}
use nodepool.Zk.States.{used}
use nodepool.Zk.Node.{Node}
use nodepool.Workers.Deleted.{Services, run_deleted}
use nodepool.Workers.Deleted.Laws.{IsDue, Keeps, run_deleted-keeps}
use nodepool.Samples.Znodes.{node_of}

abbrev worker : Services (List Node)
worker = record {
  node_iterator = λ s. (ok (node_of "0001" used 10 ∷ []), s);
  get_node_request = λ id cached s. (ok none, s);
  lock_node = λ (n, s). (ok tt, (record n { lock = true }, s));
  store_node = λ t. (ok tt, t);
  unlock_node = λ t. (ok tt, t);
  delete_node = λ t. (ok tt, t);
  start_node_cleanup = λ n s. (ok tt, n ∷ s);
}

worker-Keeps : Keeps worker (All IsDue)
worker-Keeps = record {
  iterates = λ s j. j;
  requests = λ id cached s j. j;
  locks = λ n s j. j;
  holds = λ n s. refl;
  stores = λ n s j. j;
  unlocks = λ n s j. j;
  deletes = λ n s j. j;
  starts = λ n s due j. (due, j);
}

run_deleted-keeps_example : All IsDue (run_deleted worker ("cloud" ∷ []) []).1
run_deleted-keeps_example = run_deleted-keeps worker ("cloud" ∷ []) (All IsDue) worker-Keeps [] tt
