-- ===== src/Samples/Leaks.antt =====
-- A cloud with a resource of a node that is gone, at which the theorem on leaks is tried.
use nodepool.Prelude.{List, [], ◌∷◌, ok, All}
use nodepool.Zk.States.{ready}
use nodepool.Machine.Leaks.{Resource, Leaked, Calls, cleanup_leaked_resources}
use nodepool.Machine.Leaks.Laws.{IsLeak, Keeps, cleanup_leaked_resources-keeps}
use nodepool.Samples.Znodes.{node_of}

abbrev lost : Resource
lost = record {
  name = "instance";
  metadata = ("nodepool_provider_name", "cloud") ∷ ("nodepool_node_id", "0009") ∷ [];
}

-- The state is the list of the resources that were deleted.
abbrev cloud : Calls (List Resource)
cloud = record {
  provider_name = "cloud";
  node_iterator = λ s. (ok (node_of "0001" ready 10 ∷ []), s);
  get_provider_uploads = λ s. (ok [], s);
  list_resources = λ s. (ok (lost ∷ []), s);
  delete_resource = λ r s. (ok tt, r ∷ s);
}

abbrev seen_once : Leaked
seen_once = record { nodes = ("0009", lost) ∷ []; uploads = [] }

cloud-Keeps : Keeps cloud seen_once (All (IsLeak cloud seen_once))
cloud-Keeps = record {
  iterates = λ s j. j;
  gets_uploads = λ s j. j;
  lists = λ s j. j;
  deletes = λ r s leak j. (leak, j);
}

cleanup_leaked_resources-keeps_example :
    All (IsLeak cloud seen_once) (cleanup_leaked_resources cloud (seen_once, [])).1.1
cleanup_leaked_resources-keeps_example =
    cleanup_leaked_resources-keeps cloud seen_once (All (IsLeak cloud seen_once)) cloud-Keeps [] tt
