-- ===== src/Samples/Minimum.antt =====
-- A launcher that keeps two ready nodes of a label, of which there is none.
use nodepool.Prelude.{ℕ, ◌+◌, String, none, List, [], ◌∷◌, ◌≡◌, refl, true, ok, OnOk}
use nodepool.Zk.Node.{Node}
use nodepool.Workers.Minimum.{
  Label, Services, needed_labels, remove_completed_requests, create_min_ready,
}
use nodepool.Workers.Minimum.Counts.{submitted, missing_by}
use nodepool.Workers.Minimum.Laws.{create_min_ready-fills}

abbrev labels : List Label
labels = record { name = "small"; min_ready = 2 } ∷ []

-- The state counts the requests that were stored.
abbrev launcher : Services ℕ
launcher = record {
  time = λ s. 1000;
  get_node_request = λ id s. (ok none, s);
  get_node = λ id s. (ok none, s);
  store_node = λ t. (ok tt, t);
  delete_node_request = λ q s. (ok tt, s);
  store_node_request = λ (q, s). (ok tt, (q, s + 1));
  get_ready_nodes_of_types = λ types s. (ok [], s);
  label_image_is_available = λ l s. (ok true, s);
}

create_min_ready-fills_example :
    let (left, t) = (remove_completed_requests launcher ([], 0)).1 in
    let (r, (after, u)) = create_min_ready launcher labels ([], 0) in
    OnOk
      (λ _.
        (ready : List (String × List Node)) × ((launcher.get_ready_nodes_of_types
            (needed_labels labels left)
            t).0
          ≡ ok ready)
        × ((x : String) → submitted x after ≡ submitted x left + missing_by left ready labels x))
      r
create_min_ready-fills_example = create_min_ready-fills launcher labels [] 0 (λ l t. refl)
