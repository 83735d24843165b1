-- ===== src/Zk/Cache.antt =====
-- The tree caches: NodepoolTreeCache of zk/zookeeper.py, and its subclasses for nodes
-- and requests.
pub mod Keys
pub mod Laws
pub mod Walk
pub mod Kinds
use nodepool.Prelude.{
  ℕ, String, Bool, true, false, not, ◌&&◌, ◌||◌, Option, some, none, List, [], ◌∷◌, ◌++◌, leb, elem,
  keep, if◌then◌else◌, Result, ok, raise, no_node, type_error, Exception, ◌==◌, is_empty,
}
use nodepool.Zk.Values.{Dict}
use nodepool.Zk.Node.{Node}
use nodepool.Zk.Node
use nodepool.Zk.Request.{NodeRequest}
use nodepool.Zk.Request
use nodepool.Zk.Parse.{Key, parse_node_path, parse_request_path, parse_node_lock_path}

pub data EventType : Type 0 where
  nothing created changed deleted child : EventType

-- A session event has no path.
pub record WatchedEvent : Type 0 where
  pub type : EventType
  pub path : Option String

-- An object with the mzxid of its stat.
pub record Entry (O : Type 0) : Type 0 where
  pub object : O
  pub mzxid : ℕ

-- `_cached_objects` and `_cached_paths`.
pub record TreeCache (O : Type 0) : Type 0 where
  pub cached_objects : List (Key × Entry O)
  pub cached_paths : List String

abbrev pub key_eq : Key → Key → Bool
key_eq [] [] = true
key_eq [] (b ∷ bs) = false
key_eq (a ∷ as') [] = false
key_eq (a ∷ as') (b ∷ bs) = a == b && key_eq as' bs

module _ {V : Type 0} where
  unfoldable pub get_key : Key → List (Key × V) → Option V
  get_key k [] = none
  get_key k ((j, v) ∷ m) = if key_eq j k then some v else get_key k m

  unfoldable pub set_key : Key → V → List (Key × V) → List (Key × V)
  set_key k v [] = (k, v) ∷ []
  set_key k v ((j, w) ∷ m) = if key_eq j k then (j, v) ∷ m else (j, w) ∷ set_key k v m

  -- `del m[k]`, where a key that is not there is passed over.
  unfoldable pub delete_key : Key → List (Key × V) → List (Key × V)
  delete_key k [] = []
  delete_key k ((j, v) ∷ m) = if key_eq j k then delete_key k m else (j, v) ∷ delete_key k m

-- What a subclass adds. updateFromDict may raise when the object is changed in part.
pub record Kind (O : Type 0) : Type 0 where
  pub root : String
  pub parse_path : String → Option Key
  pub object_from_dict : Dict → Key → Result O
  pub update_from_dict : Dict → O → Result (Unit {0}) × O
  pub is_locked : O → Bool
  pub pre_cache_hook : (path : String) (exists : Bool) → List (Key × Entry O) → List (Key × Entry O)

-- What get_async answers: the data, none if they are empty, and the mzxid.
abbrev pub Fetched : Type 0
Fetched = Result (Option Dict × ℕ)

module _ {O : Type 0} (c : Kind O) where
  abbrev is_nothing : EventType → Bool
  is_nothing nothing = true
  is_nothing _ = false

  abbrev is_deleted : EventType → Bool
  is_deleted deleted = true
  is_deleted _ = false

  -- An item of the playback queue: the event's type and path, whether data are fetched, and the key.
  pub record Item : Type 0 where
    pub type : EventType
    pub path : String
    pub fetch : Bool
    pub key : Option Key

  abbrev needs_fetch : EventType → Option Key → Bool
  needs_fetch t key =
      if is_deleted t then false else elim key [ some k ↦ true | none ↦ is_nothing t ]

  -- _handleCacheEvent. The root has no object.
  item_of : EventType → String → Item
  item_of t path = record {
    type = t;
    path = path;
    fetch = needs_fetch t (c.parse_path path);
    key = c.parse_path path;
  }

  unfoldable pub handle_cache_event : EventType → Option String → Result (Option Item)
  unfolding item_of
  handle_cache_event t none = if is_nothing t then ok none else raise type_error
  handle_cache_event t (some path) = if path == c.root then ok none else ok (some (item_of t path))

  -- What the event says of the znode's existence, and else what the data say.
  abbrev exists_by : EventType → (found : Bool) → Bool
  exists_by created found = true
  exists_by changed found = true
  exists_by deleted found = false
  exists_by nothing found = found
  exists_by child found = found

  abbrev put_path : String → Bool → List String → List String
  put_path path true paths = if elem path paths then paths else path ∷ paths
  put_path path false paths = keep (λ p. not (p == path)) paths

  abbrev Objects : Type 0
  Objects = List (Key × Entry O)

  -- What updateFromDict left of an object.
  updated : Key → ℕ → Entry O → Objects → Result (Unit {0}) × O → Result (Unit {0}) × Objects
  unfolding set_key
  updated k mzxid old m (raise e, o) = (raise e, set_key k (record old { object = o }) m)
  updated k mzxid old m (ok u, o) = (ok tt, set_key k (record { object = o; mzxid = mzxid }) m)

  -- The in-place update of a cached object, unless the data are older or the object is locked.
  update_entry : Key → Dict → ℕ → Entry O → Objects → Result (Unit {0}) × Objects
  unfolding updated
  update_entry k d mzxid old m =
      if leb mzxid old.mzxid || c.is_locked old.object
      then (ok tt, m)
      else updated k mzxid old m (c.update_from_dict d old.object)

  insert_entry : Key → ℕ → Objects → Result O → Result (Unit {0}) × Objects
  unfolding set_key
  insert_entry k mzxid m (raise e) = (raise e, m)
  insert_entry k mzxid m (ok o) = (ok tt, set_key k (record { object = o; mzxid = mzxid }) m)

  cache_data : Key → Dict → ℕ → Objects → Option (Entry O) → Result (Unit {0}) × Objects
  unfolding update_entry insert_entry
  cache_data k d mzxid m (some old) = update_entry k d mzxid old m
  cache_data k d mzxid m none = insert_entry k mzxid m (c.object_from_dict d k)

  -- The objects behind an event for a key, with data or without.
  cache_object : Option Key → Option (Dict × ℕ) → Objects → Result (Unit {0}) × Objects
  unfolding cache_data get_key delete_key
  cache_object none data' m = (ok tt, m)
  cache_object (some k) none m = (ok tt, delete_key k m)
  cache_object (some k) (some (d, mzxid)) m = cache_data k d mzxid m (get_key k m)

  abbrev with_objects :
      List String → Result (Unit {0}) × List (Key × Entry O) → Result (Unit {0}) × TreeCache O
  with_objects paths (r, objects) = (r, record { cached_objects = objects; cached_paths = paths })

  -- _handlePlayback behind the answer to the fetch.
  unfoldable pub play :
      EventType
      → String
      → Option Key
      → (found : Bool) → Option (Dict × ℕ)
      → TreeCache O
      → Result (Unit {0}) × TreeCache O
  unfolding cache_object
  play t path key found data' s =
      let exists = exists_by t found in
      with_objects (put_path path exists s.cached_paths)
        (cache_object key data' (c.pre_cache_hook path exists s.cached_objects))

  -- _handlePlayback. Without a future nothing was fetched.
  unfoldable pub handle_fetched : Item → Fetched → TreeCache O → Result (Unit {0}) × TreeCache O
  unfolding play
  handle_fetched i (ok (d, mzxid)) s =
      play i.type i.path i.key true (elim d [ none ↦ none | some x ↦ some (x, mzxid) ]) s
  handle_fetched i (raise no_node) s = play i.type i.path i.key false none s
  handle_fetched i (raise e) s = (raise e, s)

  unfoldable pub handle_playback : Item → Fetched → TreeCache O → Result (Unit {0}) × TreeCache O
  unfolding handle_fetched play
  handle_playback i answer s =
      if i.fetch then handle_fetched i answer s else play i.type i.path i.key false none s

  -- An event on its way through the two queues. The workers log an exception and go on.
  play_item : Fetched → TreeCache O → Result (Option Item) → TreeCache O
  unfolding handle_playback
  play_item answer s (raise x) = s
  play_item answer s (ok none) = s
  play_item answer s (ok (some i)) = (handle_playback i answer s).1

  unfoldable pub handle_event : Fetched → WatchedEvent → TreeCache O → TreeCache O
  unfolding handle_cache_event play_item
  handle_event answer e s = play_item answer s (handle_cache_event e.type e.path)
