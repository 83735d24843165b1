-- ===== src/Zk/Cache/Walk.antt =====
-- Initialising a tree cache again: _walkTree of NodepoolTreeCache (zk/zookeeper.py) over
-- a tree of znodes that does not change meanwhile, and the work on its events.
pub mod Fresh
use nodepool.Prelude.{
  String, Bool, true, false, not, Option, some, none, List, [], ◌∷◌, ◌≡◌, ◌≢◌, refl, sym, ◌∙◌,
  subst, ◌⊎◌, elem, keep, if◌then◌else◌, ok, raise, no_node, ◌==◌, eq_iff, arith, inl, inr,
  Bool-cases, false-ne-true,
}
use Prim.Native.String.{◌++◌}
use mathlib.Core.List.{◌++◌ as ◌++ᴸ◌}
use nodepool.Zk.Parse.{Key}
use nodepool.Zk.Cache.{
  nothing, WatchedEvent, Entry, TreeCache, get_key, Kind, Fetched, item_of, needs_fetch, put_path,
  play, handle_fetched, handle_playback, handle_cache_event, play_item, handle_event,
}
use nodepool.Zk.Cache.Keys.{elem-put_path}
use nodepool.Zk.Cache.Laws.{IsCovered, AddsNone, handle_event-IsCovered}

-- The znodes under a path, with the names of the children.
mutual
  pub data Tree : Type 0 where
    branch : Children → Tree

  pub data Children : Type 0 where
    nil : Children
    cons : String → Tree → Children → Children

-- `'/'.join([safe_root, child])`
abbrev child_path : String → String → String
child_path root child = (if root == "/" then "" else root) ++ ("/" ++ child)

-- The paths that _walkTree puts into seen_paths, in its order.
unfoldable mutual
  pub walk : String → Tree → List String
  walk root (branch cs) = root ∷ walk_children root cs

  pub walk_children : String → Children → List String
  walk_children root nil = []
  walk_children root (cons name t cs) = walk (child_path root name) t ++ᴸ walk_children root cs

abbrev pub none_event : String → WatchedEvent
none_event path = record { type = nothing; path = some path }

module _ {O : Type 0} (c : Kind O) where
  -- seen_paths, if the root exists.
  unfoldable pub seen_paths : Option Tree → List String
  unfolding walk
  seen_paths none = []
  seen_paths (some t) = walk c.root t

  -- The paths of the events that _walkTree emits.
  unfoldable pub walk_tree : Option Tree → TreeCache O → List String
  unfolding seen_paths
  walk_tree tree s =
      seen_paths tree ++ᴸ keep (λ path. not (elem path (seen_paths tree))) s.cached_paths

  -- The workers, over the events for these paths.
  unfoldable pub play_all : (String → Fetched) → List String → TreeCache O → TreeCache O
  unfolding handle_event
  play_all read [] s = s
  play_all read (path ∷ paths) s =
      play_all read paths (handle_event c (read path) (none_event path) s)

  unfoldable pub initialise : (String → Fetched) → Option Tree → TreeCache O → TreeCache O
  unfolding walk_tree play_all
  initialise read tree s = play_all read (walk_tree tree s) s
