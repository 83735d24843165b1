-- ===== src/Zk/Cache/Kinds.antt =====
-- The caches of nodes and of requests: NodeCache and RequestCache of zk/zookeeper.py.
use nodepool.Prelude.{
  ℕ, String, Bool, true, false, not, Option, some, none, List, [], ◌∷◌, ◌≡◌, refl, sym, ◌∙◌, subst,
  elem, keep, if◌then◌else◌, ok, raise, ◌==◌, Bool-cases, inl, inr,
}
use nodepool.Zk.Values.{Dict}
use nodepool.Zk.Node.{Node}
use nodepool.Zk.Node
use nodepool.Zk.Request.{NodeRequest}
use nodepool.Zk.Request
use nodepool.Zk.Paths.{node_root, request_root}
use nodepool.Zk.Parse.{Key, parse_node_path, parse_request_path, parse_node_lock_path}
use nodepool.Zk.Cache.{Entry, key_eq, get_key, set_key, Kind}
use nodepool.Zk.Cache.Keys.{key_eq→eq, get_key-set_key}
use nodepool.Zk.Cache.Laws.{AddsNone}

-- `lock_contenders.add(contender)` or `.discard(contender)`
abbrev contend : String → Bool → Node → Node
contend c true n = record n {
  lock_contenders = if elem c n.lock_contenders then n.lock_contenders else c ∷ n.lock_contenders;
}
contend c false n = record n { lock_contenders = keep (λ x. not (x == c)) n.lock_contenders }

abbrev change_entry :
    Key → (Node → Node) → Option (Entry Node) → List (Key × Entry Node) → List (Key × Entry Node)
unfolding set_key
change_entry k f none m = m
change_entry k f (some e) m = set_key k (record e { object = f e.object }) m

contend_at : Option Key → Bool → List (Key × Entry Node) → List (Key × Entry Node)
unfolding change_entry get_key
contend_at (some (node_id ∷ contender ∷ [])) exists m =
    change_entry (node_id ∷ []) (contend contender exists) (get_key (node_id ∷ []) m) m
contend_at _ exists m = m

-- NodeCache.preCacheHook
unfoldable pub node_hook : String → Bool → List (Key × Entry Node) → List (Key × Entry Node)
unfolding contend_at parse_node_lock_path
node_hook path exists m = contend_at (parse_node_lock_path path) exists m

-- NodeCache.objectFromDict and RequestCache.objectFromDict, at a key that parsePath gave.
abbrev first : Key → Option String
first [] = none
first (id ∷ rest) = some id

-- Where updateFromDict raises it may have set some attributes before: `part` is what it leaves then.
unfoldable pub node_cache : (now : ℕ) (part : Dict → Node → Node) → Kind Node
unfolding node_hook parse_node_path Node.from_dict Node.update_from_dict
node_cache now part = record {
  root = node_root;
  parse_path = parse_node_path;
  object_from_dict = λ d k. Node.from_dict now d (first k);
  update_from_dict = λ d n. elim (Node.update_from_dict now d n) [
    | raise e ↦ (raise e, part d n)
    | ok m ↦ (ok tt, m)
  ];
  is_locked = λ n. n.lock;
  pre_cache_hook = node_hook;
}

-- A request's updateFromDict raises before it sets an attribute, or not at all.
unfoldable pub request_cache : (now : ℕ) → Kind NodeRequest
unfolding parse_request_path Request.from_dict Request.update_from_dict
request_cache now = record {
  root = request_root;
  parse_path = parse_request_path;
  object_from_dict = λ d k. Request.from_dict now d (first k);
  update_from_dict =
      λ d r. elim (Request.update_from_dict now d r) [ raise e ↦ (raise e, r) | ok q ↦ (ok tt, q) ];
  is_locked = λ r. r.lock;
  pre_cache_hook = λ path exists m. m;
}

change_entry-none :
    (k j : Key) (f : Node → Node) (o : Option (Entry Node)) (m : List (Key × Entry Node))
    → get_key j m ≡ o
    → get_key k m ≡ none
    → get_key k (change_entry j f o m) ≡ none
unfolding change_entry
change_entry-none k j f none m e h = h
change_entry-none k j f (some x) m e h = elim (Bool-cases (key_eq j k)) [
  | inl w ↦
      absurd (some-ne-none (sym e ∙ subst (λ i. get_key i m ≡ none) (sym (key_eq→eq j k w)) h))
  | inr w ↦ rw (get_key-set_key k j _ m, w) h
]
  where
    some-ne-none : ¬ (some x ≡ none)
    some-ne-none q = cc

contend_at-none :
    (key : Option Key) (b : Bool) (m : List (Key × Entry Node)) (k : Key)
    → get_key k m ≡ none
    → get_key k (contend_at key b m) ≡ none
unfolding contend_at
contend_at-none none b m k h = h
contend_at-none (some []) b m k h = h
contend_at-none (some (n ∷ [])) b m k h = h
contend_at-none (some (n ∷ c ∷ [])) b m k h =
    change_entry-none k (n ∷ []) (contend c b) (get_key (n ∷ []) m) m refl h
contend_at-none (some (n ∷ c ∷ d ∷ rest)) b m k h = h

pub node_cache-AddsNone : (now : ℕ) (part : Dict → Node → Node) → AddsNone (node_cache now part)
unfolding node_cache node_hook
node_cache-AddsNone now part p b m k h = contend_at-none (parse_node_lock_path p) b m k h

pub request_cache-AddsNone : (now : ℕ) → AddsNone (request_cache now)
unfolding request_cache
request_cache-AddsNone now p b m k h = h
