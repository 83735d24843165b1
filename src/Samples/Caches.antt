-- ===== src/Samples/Caches.antt =====
-- A cache of requests with one entry, at which the theorems on the tree caches are tried.
use nodepool.Prelude.{
  String, true, ap, some, none, [], ◌∷◌, ◌≡◌, refl, ◌∙◌, ok, raise, no_node, elem, if◌then◌else◌,
  Bool-cases, inl, inr,
}
use nodepool.Zk.Request.{NodeRequest, to_dict}
use nodepool.Zk.Paths.{node_path, request_path, request_root}
use nodepool.Zk.Parse.{Key, parse_node_path, parse_request_path}
use nodepool.Zk.Parse.Laws.{parse_node_path-node_path}
use nodepool.Zk.Cache.{Entry, TreeCache, Fetched, changed, key_eq, get_key, handle_event}
use nodepool.Zk.Cache.Kinds.{request_cache, request_cache-AddsNone}
use nodepool.Zk.Cache.Keys.{key_eq→eq}
use nodepool.Zk.Cache.Laws.{IsCovered, handle_event-IsCovered}
use nodepool.Zk.Cache.Walk.{Tree, branch, nil, cons, walk, seen_paths, initialise}
use nodepool.Zk.Cache.Walk.Fresh.{Outside, initialise-fresh}
use nodepool.Samples.Znodes.{request_of}

abbrev path : String
path = "/nodepool/requests/100-0001"

abbrev cached : TreeCache NodeRequest
cached = record {
  cached_objects = ("100-0001" ∷ [], record { object = request_of ("small" ∷ []); mzxid = 7 }) ∷ [];
  cached_paths = path ∷ [];
}

-- A reader that finds the one request, in a newer version.
abbrev answer : Fetched
answer = ok (some (to_dict (request_of ("small" ∷ []))), 8)

abbrev read : String → Fetched
read p = if elem p (request_root ∷ path ∷ []) then answer else raise no_node

-- The znode of the requests with one child.
abbrev tree : Tree
tree = branch (cons "100-0001" (branch nil) nil)

parse_node_path-node_path_example :
    (parse_node_path (node_path "0000000001") ≡ some ("0000000001" ∷ []))
    × (parse_request_path (request_path "0000000001") ≡ some ("0000000001" ∷ []))
parse_node_path-node_path_example =
    parse_node_path-node_path "0000000001"
      ((refl, (refl, (refl, (refl, (refl, (refl, (refl, (refl, (refl, (refl, tt)))))))))), refl)

parse_sample : (request_cache 1000).parse_path path ≡ some ("100-0001" ∷ [])
unfolding request_cache parse_request_path
parse_sample = refl

cached-IsCovered : IsCovered (request_cache 1000) cached
unfolding get_key
cached-IsCovered k e g = elim (Bool-cases (key_eq ("100-0001" ∷ []) k)) [
  | inl w ↦ (path, refl, parse_sample ∙ ap some (key_eq→eq ("100-0001" ∷ []) k w))
  | inr w ↦ absurd (none-ne-some (rw w at g))
]
  where
    none-ne-some : ¬ (none ≡ some e)
    none-ne-some q = cc

handle_event-IsCovered_example :
    IsCovered (request_cache 1000) (
      handle_event (request_cache 1000) answer (record { type = changed; path = some path }) cached)
handle_event-IsCovered_example =
    handle_event-IsCovered (request_cache 1000) answer (record { type = changed; path = some path })
      cached (request_cache-AddsNone 1000) cached-IsCovered

read-Outside : Outside (request_cache 1000) read (seen_paths (request_cache 1000) (some tree))
unfolding seen_paths walk request_cache
read-Outside p e = rw e refl

initialise-fresh_example :
    ((q : String)
      → elem q (initialise (request_cache 1000) read (some tree) cached).cached_paths ≡ true
      → elem q (seen_paths (request_cache 1000) (some tree)) ≡ true)
    × ((k : Key) (e : Entry NodeRequest)
        → get_key k (initialise (request_cache 1000) read (some tree) cached).cached_objects
          ≡ some e
        → (q : String) × (elem q (seen_paths (request_cache 1000) (some tree)) ≡ true)
          × ((request_cache 1000).parse_path q ≡ some k))
unfolding request_cache
initialise-fresh_example =
    initialise-fresh (request_cache 1000) read (some tree) cached (request_cache-AddsNone 1000)
      read-Outside cached-IsCovered refl
