-- ===== src/Samples/Handlers.antt =====
-- Handlers on the concrete ZooKeeper.
use nodepool.Prelude.{
  String, true, false, some, [], ◌∷◌, ok, ◌≡◌, refl, arith, elem, all, ◌||◌, ◌==◌, if◌then◌else◌,
  count,
}
use nodepool.Zk.States.{ready, requested, failed}
use nodepool.Zk.Node.{new_node}
use nodepool.Zk.Request.{to_dict, from_dict, new_request}
use nodepool.Zk.Request.Laws.{stored}
use nodepool.Zk.Requests.{get_node_request}
use nodepool.Zk.Paths.{request_path}
use nodepool.Driver.Labels.{labels}
use nodepool.Driver.Handler.Decline.{mark_declined, decline_request}
use nodepool.Driver.Handler.Decline.Outcome.{mark_declined-decides, decline_request-ends}
use nodepool.Driver.Handler.Poll.{poll, finish}
use nodepool.Driver.Handler.Poll.Fulfil.{Fulfilled, poll-fulfils}
use nodepool.Zk.Requests.Types.{store_node_request-types, unlock_node_request-types}
use nodepool.Driver.Handler.{Handler}
use nodepool.Driver.Handler.Kept.{IsLawful}
use nodepool.Samples.{kazoo, services, config, Ensemble}
use nodepool.Samples.Znodes.{node_of, request_of}

-- A handler that accepted a request for two labels and has no node yet.
abbrev pub waiting : Handler
waiting = record {
  request = request_of ("small" ∷ "large" ∷ []);
  nodeset = [];
  done = false;
  paused = false;
  satisfied_types = [];
  failed_nodes = [];
  ready_nodes = [];
}

-- A node request that ZooKeeper stores keeps its types, whatever the client answers.
pub services-IsLawful : IsLawful services
services-IsLawful = record {
  stores = store_node_request-types kazoo "100" "event";
  unlocks = unlock_node_request-types kazoo;
}

-- The same handler when both nodes are ready.
abbrev filled : Handler
filled = record waiting {
  nodeset = node_of "0001" ready 10 ∷ node_of "0002" ready 11 ∷ [];
  satisfied_types =
      record { label = "large"; node_id = some "0002" }
      ∷ record { label = "small"; node_id = some "0001" }
      ∷ [];
}

-- Its request is stored.
abbrev requested_once : Ensemble
requested_once = record {
  znodes = ("/nodepool/requests/100-0001", to_dict waiting.request) ∷ [];
  locks = [];
  clock = 1000;
}

mark_declined-decides_example :
    let (r, (g, t)) = mark_declined config services (waiting, requested_once) in
    let declined = g.request.declined_by in
    (r ≡ ok tt)
    × ((k : String) → elem k declined ≡ (elem k waiting.request.declined_by || ("launcher" == k)))
    × (g.request.state
        ≡ some (
            if all (λ pool. elem pool declined) ("launcher" ∷ "other" ∷ [])
            then failed
            else requested))
    × (record g { request = waiting.request } ≡ waiting)
mark_declined-decides_example = mark_declined-decides config services waiting requested_once

decline_request-ends_example :
    let (r, (g, t)) = decline_request config services (waiting, requested_once) in
    (r ≡ ok tt) × (g.done ≡ true) × (g.paused ≡ false) × (g.nodeset ≡ [])
decline_request-ends_example = decline_request-ends config services waiting requested_once

still_there :
    services.get_node_request "100-0001" requested_once
    ≡ (ok (some (stored waiting.request)), requested_once)
unfolding get_node_request request_path to_dict from_dict new_request
still_there = refl

as_often :
    (l : String) → count l (labels filled.satisfied_types) ≡ count l filled.request.node_types
as_often l = omega arith

poll-fulfils_example :
    (g : Handler) × (poll config services (filled, requested_once)
      ≡ finish config services (g, requested_once))
    × Fulfilled config services filled g
unfolding new_request new_node
poll-fulfils_example =
    poll-fulfils config services filled requested_once requested_once requested_once
      (stored waiting.request) refl refl refl still_there refl (refl, (refl, tt)) (refl, (refl, tt))
      as_often
