-- ===== src/Driver/Handler/Poll/Fulfil.antt =====
-- The branch of a poll on which the request is fulfilled.
use mathlib.Core.List.{Perm, append-nil, append_assoc}
use nodepool.Prelude.{
  String, Bool, true, false, List, [], ◌∷◌, ◌++◌, Option, some, ok, ◌≡◌, refl, sym, ◌∙◌, ap, ◌>>=◌,
  not, is_empty, if◌then◌else◌, inl, inr, All, length, count, for_each, then_ok-OnOk, Result-cases,
  OnOk,
}
use nodepool.Zk.States.{fulfilled, ready, is_state}
use nodepool.Zk.Values.{is_set}
use nodepool.Zk.Paths.{format_id}
use nodepool.Zk.Node.{Node}
use nodepool.Zk.Request.{NodeRequest}
use nodepool.Zk.Request
use nodepool.Driver.Labels.{Recorder, labels, pop}
use nodepool.Driver.Labels.Laws.{pop_all, pop_all-perm, pairs}
use nodepool.Driver.Handler.{Handler, Config, Services, Run}
use nodepool.Driver.Handler.Poll.{assign_one, assign_nodes, sort_nodes, settle, finish, poll}

module _ {S : Type 0} (c : Config) (v : Services S) where
  abbrev given : Handler → List (Option String) → Recorder → Handler
  given h ids left = record h {
    satisfied_types = left;
    request = record (h.request) { nodes = h.request.nodes ++ ids };
  }

  abbrev given_all : Handler → List (Option String) → Recorder → Handler
  given_all h nodes left = record h {
    satisfied_types = left;
    request = record (h.request) { nodes = nodes };
  }

  abbrev Assigns : List String → Handler → S → List (Option String) × Recorder → Type 0
  Assigns ls h s (ids, left) = for_each ls (assign_one c v) (h, s) ≡ (ok tt, (given h ids left, s))

  assign_one-ok :
      (l : String) (h : Handler) (s : S) (id : Option String) (d : Recorder)
      → pop l h.satisfied_types ≡ ok (id, d)
      → assign_one c v l (h, s) ≡ (ok tt, (given h (id ∷ []) d, s))
  unfolding assign_one
  assign_one-ok l h s id d p = rw (p, assign_one) refl

  -- The loop of the code pops the labels as `pop_all` does.
  assign_one-pop_all :
      (ls : List String) (h : Handler) (s : S)
      → OnOk (Assigns ls h s) (pop_all ls h.satisfied_types)
  unfolding pop_all
  assign_one-pop_all [] h s =
      ap (λ ns. (ok tt, (given_all h ns h.satisfied_types, s))) (sym (append-nil h.request.nodes))
  assign_one-pop_all (l ∷ ls) h s = elim (Result-cases (pop l h.satisfied_types)) [
    | inr (e, p) ↦ rw p tt
    | inl ((id, d), p) ↦ rw p (
        then_ok-OnOk (Assigns ls (given h (id ∷ []) d) s) (Assigns (l ∷ ls) h s) (pop_all ls d) _
          (assign_one-pop_all ls (given h (id ∷ []) d) s)
          (λ (ids, left) q.
            rw (assign_one-ok l h s id d p, ◌>>=◌)
              (q
                ∙ ap (λ ns. (ok tt, (given_all h ns left, s)))
                    (append_assoc h.request.nodes (id ∷ []) ids))))
  ]

  -- The ids go to the types in their order, and are those that were recorded for them.
  abbrev pub Fulfilled : Handler → Handler → Type 0
  Fulfilled h g =
      (g.request.state ≡ some fulfilled)
      × (g.satisfied_types ≡ [])
      × (g.nodeset ≡ h.nodeset)
      × ((ids : List (Option String)) × (g.request.nodes ≡ h.request.nodes ++ ids)
          × (length ids ≡ length h.request.node_types)
          × Perm (pairs h.request.node_types ids) h.satisfied_types)

  assign_nodes-fulfils :
      (h : Handler) (s : S)
      → All (λ e. is_set e.node_id ≡ true) h.satisfied_types
      → ((l : String) → count l (labels h.satisfied_types) ≡ count l h.request.node_types)
      → (g : Handler) × (assign_nodes c v (h, s) ≡ (ok tt, (g, s))) × Fulfilled h g
  unfolding assign_nodes Request.set_state Request.is_request_state
  assign_nodes-fulfils h s real counts =
      let (ids, popped, long, same) =
        pop_all-perm h.request.node_types h.satisfied_types real counts in
      let given_out : Assigns h.request.node_types h s (ids, []) =
        rw popped at (assign_one-pop_all h.request.node_types h s) in
      (
        record (given h ids []) {
          request = record ((given h ids []).request) {
            state = some fulfilled;
            state_time = some (v.time s);
          };
        },
        rw (given_out, ◌>>=◌) refl,
        (refl, refl, refl, (ids, refl, long, same)),
      )

  -- Nodes that are all ready are only counted as ready.
  sort_nodes-ready :
      (ns done : List Node) (h : Handler) (s : S)
      → All (λ n. is_state n.state ready ≡ true) ns
      → sort_nodes c v ns done (h, s)
        ≡ (ok done, (record h { ready_nodes = h.ready_nodes ++ ns }, s))
  unfolding sort_nodes
  sort_nodes-ready [] done h s all =
      ap (λ ns. (ok done, (record h { ready_nodes = ns }, s))) (sym (append-nil h.ready_nodes))
  sort_nodes-ready (n ∷ ns) done h s (e, all) = rw e (
      sort_nodes-ready ns done (record h { ready_nodes = h.ready_nodes ++ n ∷ [] }) s all
      ∙ ap (λ rs. (ok done, (record h { ready_nodes = rs }, s)))
          (append_assoc h.ready_nodes (n ∷ []) ns))

  if-false : {A : Type 0} (b : Bool) (x y : A) → b ≡ false → (if b then x else y) ≡ y
  if-false b x y e = rw e refl

  poll-look :
      (h : Handler) (s t : S)
      → h.paused ≡ false
      → h.done ≡ false
      → v.launches_complete s ≡ (ok true, t)
      → poll c v (h, s) ≡ (sort_nodes c v h.nodeset [] >>= settle c v) (h, t)
  unfolding poll
  poll-look h s t running unfinished complete =
      ap (λ (m : Run S Bool). m (h, s))
        (if-false h.paused _ _ running ∙ if-false h.done _ _ unfinished)
      ∙ rw (complete, ◌>>=◌) refl

  settle-fulfils :
      (h : Handler) (t u : S) (q : NodeRequest)
      → v.get_node_request (format_id h.request.id) t ≡ (ok (some q), u)
      → h.failed_nodes ≡ []
      → (g : Handler) → assign_nodes c v (h, u) ≡ (ok tt, (g, u))
      → settle c v [] (h, t) ≡ finish c v (g, u)
  unfolding settle
  settle-fulfils h t u q there no_failure g assigned =
      rw (there, ◌>>=◌)
        (ap (λ (m : Run S Bool). m (h, u))
            (if-false (not (is_empty h.failed_nodes)) _ _ (ap (λ ns. not (is_empty ns)) no_failure))
          ∙ rw (assigned, ◌>>=◌) refl)

  -- A poll behind complete launches, where all nodes are ready, none failed before, the request is
  -- still there, and its types are recorded as often as it asks for them, each with a node: it fulfils
  -- the request and gives it back. Every type gets a node that was recorded for it, in the order of
  -- the types; every recorded node is given once, and none is left.
  pub poll-fulfils :
      (h : Handler) (s t u : S) (q : NodeRequest)
      → h.paused ≡ false
      → h.done ≡ false
      → v.launches_complete s ≡ (ok true, t)
      → v.get_node_request (format_id h.request.id) t ≡ (ok (some q), u)
      → h.failed_nodes ≡ []
      → All (λ n. is_state n.state ready ≡ true) h.nodeset
      → All (λ e. is_set e.node_id ≡ true) h.satisfied_types
      → ((l : String) → count l (labels h.satisfied_types) ≡ count l h.request.node_types)
      → (g : Handler) × (poll c v (h, s) ≡ finish c v (g, u)) × Fulfilled h g
  unfolding poll settle
  poll-fulfils h s t u q running unfinished complete there no_failure all_ready real counts =
      let sorted : Handler = record h { ready_nodes = h.ready_nodes ++ h.nodeset } in
      let (g, assigned, fulfilled_it) = assign_nodes-fulfils sorted u real counts in
      (
        g,
        poll-look h s t running unfinished complete
            ∙ rw (sort_nodes-ready h.nodeset [] h t all_ready, ◌>>=◌)
                (settle-fulfils sorted t u q there no_failure g assigned),
        fulfilled_it,
      )
