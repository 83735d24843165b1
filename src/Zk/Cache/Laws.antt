-- ===== src/Zk/Cache/Laws.antt =====
-- What every event keeps in a tree cache.
use nodepool.Prelude.{
  ℕ, String, Bool, true, false, ◌||◌, Option, some, none, List, ◌≡◌, ◌≢◌, refl, sym, ap, ◌∙◌, leb,
  elem, if◌then◌else◌, Result, ok, raise, no_node, ◌==◌, eq_iff, eq_refl, inl, inr, Bool-cases,
  Option-cases, false-ne-true,
}
use nodepool.Zk.Values.{Dict}
use nodepool.Zk.Parse.{Key}
use nodepool.Zk.Cache.{
  EventType, nothing, created, changed, deleted, child, WatchedEvent, Entry, TreeCache, key_eq,
  get_key, set_key, Kind, Fetched, handle_cache_event, needs_fetch, exists_by, put_path, updated,
  cache_data, update_entry, insert_entry, cache_object, play, handle_fetched, handle_playback,
  handle_event, item_of, play_item,
}
use nodepool.Zk.Cache.Keys.{
  key_eq_refl, key_eq→eq, get_key-set_key, get_key-delete_key, elem-put_path,
}

module _ {O : Type 0} (c : Kind O) where
  -- Every cached object has a path among the cached ones.
  abbrev pub IsCovered : TreeCache O → Type 0
  IsCovered s =
      (k : Key) (e : Entry O)
      → get_key k s.cached_objects ≡ some e
      → (p : String) × (elem p s.cached_paths ≡ true) × (c.parse_path p ≡ some k)

  -- The hook of a subclass adds no object.
  abbrev pub AddsNone : Type 0
  AddsNone =
      (p : String) (b : Bool) (m : List (Key × Entry O)) (k : Key)
      → get_key k m ≡ none
      → get_key k (c.pre_cache_hook p b m) ≡ none

  set_key-other :
      (j : Key) (v : Entry O) (m : List (Key × Entry O)) (k : Key)
      → key_eq j k ≡ false
      → get_key k (set_key j v m) ≡ get_key k m
  set_key-other j v m k e = rw (get_key-set_key k j v m, e) refl

  updated-other :
      (j : Key) (x : ℕ) (old : Entry O) (m : List (Key × Entry O)) (r : Result (Unit {0}) × O)
      (k : Key)
      → key_eq j k ≡ false
      → get_key k (updated c j x old m r).1 ≡ get_key k m
  unfolding updated
  updated-other j x old m (raise y, o) k e = set_key-other j _ m k e
  updated-other j x old m (ok u, o) k e = set_key-other j _ m k e

  update_entry-other :
      (j : Key) (d : Dict) (x : ℕ) (old : Entry O) (m : List (Key × Entry O)) (k : Key)
      → key_eq j k ≡ false
      → get_key k (update_entry c j d x old m).1 ≡ get_key k m
  unfolding update_entry
  update_entry-other j d x old m k e =
      elim (Bool-cases (leb x old.mzxid || c.is_locked old.object)) [
        | inl h ↦ rw h refl
        | inr h ↦ rw h (updated-other j x old m (c.update_from_dict d old.object) k e)
      ]

  cache_data-other :
      (j : Key) (d : Dict) (x : ℕ) (m : List (Key × Entry O)) (o : Option (Entry O)) (k : Key)
      → key_eq j k ≡ false
      → get_key k (cache_data c j d x m o).1 ≡ get_key k m
  unfolding cache_data insert_entry
  cache_data-other j d x m (some old) k e = update_entry-other j d x old m k e
  cache_data-other j d x m none k e = go (c.object_from_dict d j)
    where
      go : (r : Result O) → get_key k (insert_entry c j x m r).1 ≡ get_key k m
      go (raise y) = refl
      go (ok o) = set_key-other j _ m k e

  different :
      {p : String} (j : Key) {k : Key}
      → key_eq j k ≡ false
      → c.parse_path p ≡ some j
      → c.parse_path p ≢ some k
  different j {k} w parsed q = false-ne-true (sym w ∙ rw (some-eq (sym parsed ∙ q)) (key_eq_refl k))
    where
      some-eq : some j ≡ some k → j ≡ k
      some-eq e = cc

  -- A path for a key that another path has as well.
  Covering : List String → Key → Type 0
  Covering paths k = (p : String) × (elem p paths ≡ true) × (c.parse_path p ≡ some k)

  keep_cover :
      (p : String) (b : Bool) (paths : List String) (k : Key)
      → c.parse_path p ≢ some k
      → Covering paths k
      → Covering (put_path c p b paths) k
  unfolding Covering
  keep_cover p b paths k n (q, here, parsed) =
      (q, elem-put_path c p q b paths ∙ go (p == q) refl, parsed)
    where
      go : (w : Bool) → p == q ≡ w → (if w then b else elem q paths) ≡ true
      go true e = absurd (n (ap c.parse_path ((eq_iff p q).0 e) ∙ parsed))
      go false e = here

  module _ (t : EventType) (p : String) (found : Bool) (s : TreeCache O) (lawful : AddsNone)
      (h : IsCovered s) where
    hooked : List (Key × Entry O)
    hooked = c.pre_cache_hook p (exists_by c t found) s.cached_objects

    paths : List String
    paths = put_path c p (exists_by c t found) s.cached_paths

    -- A key that was cached before and is not of this path.
    covered_before :
        (k : Key) (e : Entry O)
        → c.parse_path p ≢ some k
        → get_key k hooked ≡ some e
        → Covering paths k
    unfolding hooked paths
    covered_before k e n g = elim (Option-cases (get_key k s.cached_objects)) [
      | inl none' ↦
          absurd (none-ne-some (sym (lawful p (exists_by c t found) s.cached_objects k none') ∙ g))
      | inr (old, was) ↦ keep_cover p (exists_by c t found) s.cached_paths k n (cover old was)
    ]
      where
        none-ne-some : ¬ (none ≡ some e)
        none-ne-some q = cc

        cover : (old : Entry O) → get_key k s.cached_objects ≡ some old → Covering s.cached_paths k
        cover old was = unfold Covering in h k old was

    covered :
        (key : Option Key) (d : Option (Dict × ℕ))
        → c.parse_path p ≡ key
        → (d ≢ none → exists_by c t found ≡ true)
        → (k : Key) (e : Entry O) → get_key k (cache_object c key d hooked).1 ≡ some e
        → Covering paths k
    unfolding cache_object Covering paths
    covered none d parsed exists k e g = covered_before k e (λ q. cc) g
    covered (some j) none parsed exists k e g = elim (Bool-cases (key_eq j k)) [
      | inl w ↦ absurd (none-ne-some (rw (get_key-delete_key k j hooked, w) at g))
      | inr w ↦
          covered_before k e (different j w parsed) (rw (get_key-delete_key k j hooked, w) at g)
    ]
      where
        none-ne-some : ¬ (none ≡ some e)
        none-ne-some q = cc
    covered (some j) (some (x, y)) parsed exists k e g = elim (Bool-cases (key_eq j k)) [
      | inl w ↦ (
        p,
        elem-put_path c p p (exists_by c t found) s.cached_paths
            ∙ rw (eq_refl p) (exists (λ q. cc)),
        parsed ∙ ap some (key_eq→eq j k w),
      )
      | inr w ↦
          covered_before k e (different j w parsed)
            (sym (cache_data-other j x y hooked (get_key j hooked) k w) ∙ g)
    ]

  play-IsCovered :
      (t : EventType) (p : String) (found : Bool) (d : Option (Dict × ℕ)) (s : TreeCache O)
      → AddsNone
      → (d ≢ none → exists_by c t found ≡ true)
      → IsCovered s
      → IsCovered (play c t p (c.parse_path p) found d s).1
  unfolding play hooked paths Covering
  play-IsCovered t p found d s lawful exists h k e g =
      covered t p found s lawful h (c.parse_path p) d refl exists k e g

  -- An event that is fetched is no deletion.
  fetched_exists :
      (t : EventType) (key : Option Key) → needs_fetch c t key ≡ true → exists_by c t true ≡ true
  fetched_exists nothing key h = refl
  fetched_exists created key h = refl
  fetched_exists changed key h = refl
  fetched_exists deleted key h = absurd (false-ne-true h)
  fetched_exists child key h = refl

  handle_fetched-IsCovered :
      (t : EventType) (p : String) (answer : Fetched) (s : TreeCache O)
      → AddsNone
      → needs_fetch c t (c.parse_path p) ≡ true
      → IsCovered s
      → IsCovered (handle_fetched c (item_of c t p) answer s).1
  unfolding handle_fetched item_of
  handle_fetched-IsCovered t p (ok (none, x)) s lawful f h =
      play-IsCovered t p true none s lawful (λ q. absurd (q refl)) h
  handle_fetched-IsCovered t p (ok (some d, x)) s lawful f h =
      play-IsCovered t p true (some (d, x)) s lawful (λ q. fetched_exists t (c.parse_path p) f) h
  handle_fetched-IsCovered t p (raise no_node) s lawful f h =
      play-IsCovered t p false none s lawful (λ q. absurd (q refl)) h
  handle_fetched-IsCovered t p (raise _) s lawful f h = h

  item-IsCovered :
      (t : EventType) (p : String) (answer : Fetched) (s : TreeCache O)
      → AddsNone
      → IsCovered s
      → IsCovered (handle_playback c (item_of c t p) answer s).1
  unfolding handle_playback item_of
  item-IsCovered t p answer s lawful h = elim (Bool-cases (needs_fetch c t (c.parse_path p))) [
    | inl f ↦ rw f (handle_fetched-IsCovered t p answer s lawful f h)
    | inr f ↦ rw f (play-IsCovered t p false none s lawful (λ q. absurd (q refl)) h)
  ]

  event-IsCovered :
      (t : EventType) (path : Option String) (answer : Fetched) (s : TreeCache O)
      → AddsNone
      → IsCovered s
      → IsCovered (play_item c answer s (handle_cache_event c t path))
  unfolding play_item handle_cache_event
  event-IsCovered nothing none answer s lawful h = h
  event-IsCovered created none answer s lawful h = h
  event-IsCovered changed none answer s lawful h = h
  event-IsCovered deleted none answer s lawful h = h
  event-IsCovered child none answer s lawful h = h
  event-IsCovered t (some p) answer s lawful h = elim (Bool-cases (p == c.root)) [
    | inl e ↦ rw e h
    | inr e ↦ rw e (item-IsCovered t p answer s lawful h)
  ]

  -- For a subclass whose hook adds no object: whatever event comes and whatever is fetched for it,
  -- if every cached object has a path among the cached ones, this is so behind the event.
  pub handle_event-IsCovered :
      (answer : Fetched) (e : WatchedEvent) (s : TreeCache O)
      → AddsNone
      → IsCovered s
      → IsCovered (handle_event c answer e s)
  unfolding handle_event
  handle_event-IsCovered answer e s lawful h = event-IsCovered e.type e.path answer s lawful h
