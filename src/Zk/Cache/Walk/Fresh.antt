-- ===== src/Zk/Cache/Walk/Fresh.antt =====
-- What a new initialisation leaves in a tree cache.
use nodepool.Prelude.{
  String, Bool, true, false, not, Option, some, none, List, [], ◌∷◌, ◌≡◌, ◌≢◌, refl, sym, ◌∙◌,
  subst, ◌⊎◌, elem, keep, ok, raise, no_node, ◌==◌, eq_iff, arith, inl, inr, Bool-cases,
  false-ne-true,
}
use mathlib.Core.List.{◌++◌ as ◌++ᴸ◌}
use nodepool.Zk.Parse.{Key}
use nodepool.Zk.Cache.{
  nothing, Entry, TreeCache, get_key, Kind, Fetched, item_of, needs_fetch, put_path, play,
  handle_fetched, handle_playback, handle_cache_event, play_item, handle_event,
}
use nodepool.Zk.Cache.Keys.{elem-put_path}
use nodepool.Zk.Cache.Laws.{IsCovered, AddsNone, handle_event-IsCovered}
use nodepool.Zk.Cache.Walk.{none_event, seen_paths, walk_tree, play_all, initialise, Tree}

module _ {O : Type 0} (c : Kind O) where
  -- What an event of initialisation leaves among the cached paths.
  abbrev Left : String → String → Fetched → TreeCache O → Type 0
  Left p q answer s =
      ((p == q ≡ true) × (answer ≢ raise no_node))
      ⊎ ((p == q ≡ false) × (elem q s.cached_paths ≡ true))

  put-Left :
      (p q : String) (b : Bool) (answer : Fetched) (s : TreeCache O)
      → (b ≡ true → answer ≢ raise no_node)
      → elem q (put_path c p b s.cached_paths) ≡ true
      → Left p q answer s
  put-Left p q b answer s found e = elim (Bool-cases (p == q)) [
    | inl w ↦ inl (w, found (sym (elem-put_path c p q b s.cached_paths ∙ rw w refl) ∙ e))
    | inr w ↦ inr (w, sym (elem-put_path c p q b s.cached_paths ∙ rw w refl) ∙ e)
  ]

  same-Left :
      (p q : String) (answer : Fetched) (s : TreeCache O)
      → answer ≢ raise no_node
      → elem q s.cached_paths ≡ true
      → Left p q answer s
  same-Left p q answer s n e = elim (Bool-cases (p == q)) [
    | inl w ↦ inl (w, n)
    | inr w ↦ inr (w, e)
  ]

  fetched-Left :
      (p q : String) (answer : Fetched) (s : TreeCache O)
      → elem q (handle_fetched c (item_of c nothing p) answer s).1.cached_paths ≡ true
      → Left p q answer s
  unfolding handle_fetched item_of play
  fetched-Left p q (ok (none, x)) s e = put-Left p q true (ok (none, x)) s (λ _ r. cc) e
  fetched-Left p q (ok (some d, x)) s e = put-Left p q true (ok (some d, x)) s (λ _ r. cc) e
  fetched-Left p q (raise no_node) s e =
      put-Left p q false (raise no_node) s (λ f r. absurd (false-ne-true f)) e
  fetched-Left p q (raise x) s e = same-Left p q (raise x) s (λ r. cc) e

  always_fetched : (key : Option Key) → needs_fetch c nothing key ≡ true
  always_fetched none = refl
  always_fetched (some k) = refl

  event_fetched :
      (p : String) (answer : Fetched) (s : TreeCache O)
      → p == c.root ≡ false
      → handle_event c answer (none_event p) s ≡ (handle_fetched c (item_of c nothing p) answer s).1
  unfolding handle_event handle_cache_event play_item handle_playback item_of
  event_fetched p answer s n = rw (n, always_fetched (c.parse_path p)) refl

  event-Left :
      (p q : String) (answer : Fetched) (s : TreeCache O)
      → p == c.root ≡ false
      → elem q (handle_event c answer (none_event p) s).cached_paths ≡ true
      → Left p q answer s
  event-Left p q answer s n e = fetched-Left p q answer s (rw (event_fetched p answer s n) at e)

  -- An event for the root changes nothing.
  event_root :
      (p : String) (answer : Fetched) (s : TreeCache O)
      → p == c.root ≡ true
      → handle_event c answer (none_event p) s ≡ s
  unfolding handle_event handle_cache_event play_item
  event_root p answer s n = rw n refl

  -- What is asked of the reads: a path outside the tree has no znode.
  abbrev pub Outside : (String → Fetched) → List String → Type 0
  Outside read seen = (p : String) → elem p seen ≡ false → read p ≡ raise no_node

  module _ (read : String → Fetched) (seen : List String) (outside : Outside read seen) where
    -- The cached paths are in the tree, or their event is still to come; the root is not cached.
    abbrev OnTheWay : List String → TreeCache O → Type 0
    OnTheWay paths s =
        ((q : String) → elem q s.cached_paths ≡ true → (elem q seen ≡ true) ⊎ (elem q paths ≡ true))
        × (elem c.root s.cached_paths ≡ false)

    read_inside : (p : String) → read p ≢ raise no_node → elem p seen ≡ true
    read_inside p n = elim (Bool-cases (elem p seen)) [
      | inl e ↦ e
      | inr e ↦ absurd (n (outside p e))
    ]

    next_path :
        (p : String) (paths : List String) (s : TreeCache O) (q : String)
        → p == c.root ≡ false
        → OnTheWay (p ∷ paths) s
        → Left p q (read p) s
        → (elem q seen ≡ true) ⊎ (elem q paths ≡ true)
    next_path p paths s q r w (inl (e, n)) =
        inl (subst (λ x. elem x seen ≡ true) ((eq_iff p q).0 e) (read_inside p n))
    next_path p paths s q r w (inr (e, old)) = elim (w.0 q old) [
      | inl i ↦ inl i
      | inr i ↦ inr (rw e at i)
    ]

    later :
        (p q : String) (paths : List String) (s : TreeCache O)
        → p == c.root ≡ true
        → elem c.root s.cached_paths ≡ false
        → elem q s.cached_paths ≡ true
        → elem q (p ∷ paths) ≡ true
        → elem q paths ≡ true
    later p q paths s r n e i = elim (Bool-cases (p == q)) [
      | inl f ↦
          let q_root : q ≡ c.root = sym ((eq_iff p q).0 f) ∙ (eq_iff p c.root).0 r in
          absurd (false-ne-true (sym n ∙ subst (λ x. elem x s.cached_paths ≡ true) q_root e))
      | inr f ↦ rw f at i
    ]

    no_root :
        (p : String) (paths : List String) (s : TreeCache O)
        → p == c.root ≡ false
        → OnTheWay (p ∷ paths) s
        → elem c.root (handle_event c (read p) (none_event p) s).cached_paths ≡ false
    no_root p paths s r w =
        elim (Bool-cases (elem c.root (handle_event c (read p) (none_event p) s).cached_paths)) [
          | inl e ↦ absurd (clash (event-Left p c.root (read p) s r e))
          | inr e ↦ e
        ]
      where
        clash : Left p c.root (read p) s → ⊥
        clash l = elim l [
          | inl (e, n) ↦ false-ne-true (sym r ∙ e)
          | inr (e, old) ↦ false-ne-true (sym w.1 ∙ old)
        ]

    event-OnTheWay :
        (p : String) (paths : List String) (s : TreeCache O)
        → OnTheWay (p ∷ paths) s
        → OnTheWay paths (handle_event c (read p) (none_event p) s)
    event-OnTheWay p paths s w = elim (Bool-cases (p == c.root)) [
      | inl r ↦ rw (event_root p (read p) s r) (
        (λ q e. elim (w.0 q e) [ inl i ↦ inl i | inr i ↦ inr (later p q paths s r w.1 e i) ]),
        w.1,
      )
      | inr r ↦ (
        (λ q e. next_path p paths s q r w (event-Left p q (read p) s r e)),
        no_root p paths s r w,
      )
    ]

    all-OnTheWay :
        (paths : List String) (s : TreeCache O)
        → OnTheWay paths s
        → OnTheWay [] (play_all c read paths s)
    unfolding play_all
    all-OnTheWay [] s w = w
    all-OnTheWay (p ∷ paths) s w = all-OnTheWay paths _ (event-OnTheWay p paths s w)

  play_all-IsCovered :
      (read : String → Fetched) (paths : List String) (s : TreeCache O)
      → AddsNone c
      → IsCovered c s
      → IsCovered c (play_all c read paths s)
  unfolding play_all
  play_all-IsCovered read [] s lawful h = h
  play_all-IsCovered read (p ∷ paths) s lawful h =
      play_all-IsCovered read paths (handle_event c (read p) (none_event p) s) lawful
        (handle_event-IsCovered c (read p) (none_event p) s lawful h)

  keep_other :
      (seen paths : List String) (q : String)
      → elem q paths ≡ true
      → elem q seen ≡ false
      → elem q (keep (λ path. not (elem path seen)) paths) ≡ true
  keep_other seen [] q e n = e
  keep_other seen (p ∷ paths) q e n = ground (arith, eq_iff p q, keep_other seen paths q)

  elem-append_right :
      (q : String) (xs ys : List String) → elem q ys ≡ true → elem q (xs ++ᴸ ys) ≡ true
  elem-append_right q [] ys e = e
  elem-append_right q (x ∷ xs) ys e = ground (arith, elem-append_right q xs ys)

  -- For a subclass whose hook adds no object, and a tree of znodes that does not change, outside of
  -- which reads find no znode: a cache whose objects have a path among the cached ones, the root not
  -- among these, has behind a new initialisation no path and no object but those of znodes of the tree.
  pub initialise-fresh :
      (read : String → Fetched) (tree : Option Tree) (s : TreeCache O)
      → AddsNone c
      → Outside read (seen_paths c tree)
      → IsCovered c s
      → elem c.root s.cached_paths ≡ false
      → ((q : String)
          → elem q (initialise c read tree s).cached_paths ≡ true
          → elem q (seen_paths c tree) ≡ true)
        × ((k : Key) (e : Entry O)
            → get_key k (initialise c read tree s).cached_objects ≡ some e
            → (q : String) × (elem q (seen_paths c tree) ≡ true) × (c.parse_path q ≡ some k))
  unfolding initialise walk_tree
  initialise-fresh read tree s lawful outside h n =
      (inside, (λ k e g. let (q, there, parsed) = covered k e g in (q, inside q there, parsed)))
    where
      start : OnTheWay read (seen_paths c tree) outside (walk_tree c tree s) s
      start = (
        (λ q e. elim (Bool-cases (elem q (seen_paths c tree))) [
          | inl i ↦ inl i
          | inr o ↦ inr (
              elem-append_right q (seen_paths c tree) _
                (keep_other (seen_paths c tree) s.cached_paths q e o))
        ]),
        n,
      )

      inside :
          (q : String)
          → elem q (initialise c read tree s).cached_paths ≡ true
          → elem q (seen_paths c tree) ≡ true
      inside q e =
          elim ((all-OnTheWay read (seen_paths c tree) outside (walk_tree c tree s) s start).0 q
            e) [ inl i ↦ i | inr i ↦ absurd (false-ne-true i) ]

      covered : IsCovered c (initialise c read tree s)
      covered = play_all-IsCovered read (walk_tree c tree s) s lawful h
