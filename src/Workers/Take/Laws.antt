-- ===== src/Workers/Take/Laws.antt =====
-- What the worker has done to a request that it looked at.
use nodepool.Prelude.{
  Bool, true, false, not, ◌&&◌, List, [], ◌∷◌, elem, is_empty, Result, ok, raise, zk_lock, no_node,
  ◌⊎◌, inl, inr, ◌≡◌, refl, Bool-cases, arith,
}
use nodepool.Zk.States.{requested, is_state}
use nodepool.Zk.Request.{NodeRequest}
use nodepool.Driver.Handler.{Handler}
use nodepool.Driver.Handler.Decline.{Reason, declined_reasons}
use nodepool.Driver.Handler.Fill
use nodepool.Driver.Handler.Rules.{Ends}
use nodepool.Workers.Assign.{LauncherPool, consider}
use nodepool.Workers.Take.{
  Pool, Calls, new_handler, add_handler, is_taken_up, has_limits, is_allowed, accepted, decide,
  locked, is_below, may_go_on, with_reasons, tenant_allows, allowed, take,
}

empty-nil : {A : Type 0} (xs : List A) → is_empty xs ≡ true → xs ≡ []
empty-nil [] e = refl
empty-nil (x ∷ xs) e = cc

module _ {S : Type 0} (c : Calls S) (req : NodeRequest) (p : Pool) where
  -- The request was locked, and what it was then; when it was locked no handler was paused and the
  -- limit on the launches was not reached; and its handler was run and is kept.
  pub record Handled (p' : Pool) (t : S) : Type 0 where
    pub before : S
    pub q : NodeRequest
    pub behind : S
    pub h : Handler
    pub is_locked : c.lock_node_request (req, before) ≡ (ok tt, (q, behind))
    pub is_requested : is_state q.state requested ≡ true
    pub not_declined : elem p.worker.launcher_id q.declined_by ≡ false
    pub none_paused : p.paused_handlers ≡ []
    pub below : is_below c p.max_concurrency (c.active_threads before) ≡ true
    pub was_run : Fill.run c.config c.handlers (new_handler q, behind) ≡ (ok tt, (h, t))
    pub kept : p' ≡ add_handler h p

  abbrev pub Taken : Result (Unit {0}) → Pool × S → Type 0
  Taken r (p', t) = (p' ≡ p) ⊎ Handled p' t

  -- What was known when the request was asked to be locked.
  record Open (accepts : Bool) (s : S) : Type 0 where
    none_paused : accepts ≡ true → p.paused_handlers ≡ []
    below : accepts ≡ true → is_below c p.max_concurrency (c.active_threads s) ≡ true

  may_go_on-Open : (accepts : Bool) (s : S) → may_go_on c accepts p s ≡ true → Open accepts s
  unfolding may_go_on
  may_go_on-Open accepts s h = record {
    none_paused = λ e. empty-nil p.paused_handlers (ground (arith, h, e));
    below = λ e. ground (arith, h, e);
  }

  module _ (s : S) (q : NodeRequest) (u : S) (lock : c.lock_node_request (req, s) ≡ (ok tt, (q, u)))
      (state : is_state q.state requested ≡ true)
      (open_to_us : elem p.worker.launcher_id q.declined_by ≡ false) where
    accepted-Taken :
        (o : Result (Unit {0}) × (Handler × S))
        → Open true s
        → Fill.run c.config c.handlers (new_handler q, u) ≡ o
        → Ends Taken (accepted c p o)
    unfolding accepted
    accepted-Taken (raise e, (h, t)) w e' = inl refl
    accepted-Taken (ok x, (h, t)) w e' = inr (record {
      before = s;
      q = q;
      behind = u;
      h = h;
      is_locked = lock;
      is_requested = state;
      not_declined = open_to_us;
      none_paused = w.none_paused refl;
      below = w.below refl;
      was_run = e';
      kept = refl;
    })

    decide-Taken : (accepts : Bool) → Open accepts s → Ends Taken (decide c accepts p q u)
    unfolding decide
    decide-Taken true w = accepted-Taken (Fill.run c.config c.handlers (new_handler q, u)) w refl
    decide-Taken false w = inl refl

  locked-Taken :
      (accepts : Bool) (s : S) (o : Result (Unit {0}) × (NodeRequest × S))
      → Open accepts s
      → c.lock_node_request (req, s) ≡ o
      → Ends Taken (locked c accepts p o)
  unfolding locked
  locked-Taken accepts s (raise zk_lock, (q, u)) w e = inl refl
  locked-Taken accepts s (raise no_node, (q, u)) w e = inl refl
  locked-Taken accepts s (raise _, (q, u)) w e = inl refl
  locked-Taken accepts s (ok x, (q, u)) w e =
      elim (Bool-cases
        (is_state q.state requested && not (elem p.worker.launcher_id q.declined_by))) [
          | inl h ↦ rw h (decide-Taken s q u e (ground (arith, h)) (ground (arith, h)) accepts w)
          | inr h ↦ rw h (inl refl)
        ]

  with_reasons-Taken :
      (o : Result (List Reason) × (Handler × S)) → Ends Taken (with_reasons c req p o)
  unfolding with_reasons
  with_reasons-Taken (raise e, (h, s)) = inl refl
  with_reasons-Taken (ok reasons, (h, s)) = elim (Bool-cases (may_go_on c (is_empty reasons) p s)) [
    | inl go ↦ rw go (
        locked-Taken (is_empty reasons) s (c.lock_node_request (req, s))
          (may_go_on-Open (is_empty reasons) s go) refl)
    | inr stop ↦ rw stop (inl refl)
  ]

  allowed-Taken : (o : Result (Result Bool) × S) → Ends Taken (allowed c req p o)
  unfolding allowed
  allowed-Taken (raise e, s) = inl refl
  allowed-Taken (ok answer, s) = elim (Bool-cases (is_allowed answer)) [
    | inl a ↦ rw a (with_reasons-Taken (declined_reasons c.config c.handlers (new_handler req, s)))
    | inr a ↦ rw a (inl refl)
  ]

  -- Whatever the calls answer: a request that the worker has looked at leaves its handlers and its
  -- label quota as they are; or the worker has locked it, found it still requested and not declined
  -- by this launcher, at a time when no handler was paused and the limit on launches was not reached,
  -- has run a new handler for it, which did not raise, and has added that one handler.
  pub take-Taken : (pools : List LauncherPool) (s : S) → Ends Taken (take c pools req (p, s))
  unfolding take
  take-Taken pools s = elim (Bool-cases (is_taken_up (consider p.worker pools req))) [
    | inl h ↦ rw h (allowed-Taken (tenant_allows c (has_limits p.worker.label_quota) req s))
    | inr h ↦ rw h (inl refl)
  ]
