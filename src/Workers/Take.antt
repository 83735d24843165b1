-- ===== src/Workers/Take.antt =====
-- The rest of _assignHandlers of the class PoolWorker of launcher.py. Its pauses by time are left out.
pub mod Laws
use nodepool.Prelude.{
  ℕ, suc, String, Bool, true, false, not, ◌&&◌, ◌||◌, Option, some, none, List, [], ◌∷◌, ◌++◌, elem,
  keep, lookup, is_empty, ltb, eqb, if◌then◌else◌, M, Result, ok, raise, zk_lock, no_node,
  session_expired, pure, throw, map, get, modify, ◌>>=◌, ◌>>◌, on_right, attempt, ◌==◌, Exception,
}
use nodepool.Prelude.Amount.{Amount, fin, pos, minus}
use nodepool.Zk.States.{requested, is_state}
use nodepool.Zk.Values.{is_set}
use nodepool.Zk.Paths.{format_id}
use nodepool.Zk.Node.{Node}
use nodepool.Zk.Request.{NodeRequest}
use nodepool.Driver.Handler.{Handler, Config, Services}
use nodepool.Driver.Handler.Decline.{Reason, declined_reasons, decline_request}
use nodepool.Driver.Handler.Fill
use nodepool.Driver.Handler.Poll.{poll}
use nodepool.Workers.Assign.{PoolWorker, LauncherPool, Verdict, taken_up, consider}
use nodepool.Workers.Order.{Keyed, sort_requests}
use nodepool.Workers.Tenants.{Tenancy, has_tenant_quota}

-- The handlers are objects: `request_handlers` and `paused_handlers` hold references to them. A
-- negative max_concurrency is none. `component_paused` is component_info.paused, which other pools read.
pub record Pool : Type 0 where
  pub worker : PoolWorker
  pub max_concurrency : Option ℕ
  pub heap : ℕ → Handler
  pub next : ℕ
  pub request_handlers : List ℕ
  pub paused_handlers : List ℕ
  pub component_paused : Bool

-- What the worker calls beside the calls of its handlers. Requests are locked without blocking.
pub record Calls (S : Type 0) : Type 0 where
  pub handlers : Services S
  pub config : Config
  pub tenancy : Tenancy S
  pub running : S → Bool
  pub registered_pools : S → List LauncherPool
  pub label_quota : S → Option (List (String × Amount))
  pub node_request_iterator : M S (List NodeRequest)
  pub lock_node_request : M (NodeRequest × S) (Unit {0})
  pub active_threads : S → ℕ

abbrev pub Run : Type 0 → Type 0 → Type 0
Run S A = M (Pool × S) A

-- NodeRequestHandler.__init__
abbrev pub new_handler : NodeRequest → Handler
new_handler req = record {
  request = req;
  nodeset = [];
  done = false;
  paused = false;
  satisfied_types = [];
  failed_nodes = [];
  ready_nodes = [];
}

-- `with contextlib.suppress(KeyError): label_quota[node_type] -= 1`
unfoldable pub decrease : String → List (String × Amount) → List (String × Amount)
unfolding minus
decrease l [] = []
decrease l ((j, v) ∷ m) = if j == l then (j, minus v (fin (pos 1))) ∷ m else (j, v) ∷ decrease l m

decrease_types : List String → List (String × Amount) → List (String × Amount)
unfolding decrease
decrease_types [] quota = quota
decrease_types (t ∷ types) quota = decrease_types types (decrease t quota)

unfoldable pub decrease_all : List Node → List (String × Amount) → List (String × Amount)
unfolding decrease_types
decrease_all [] quota = quota
decrease_all (n ∷ nodes) quota = decrease_all nodes (decrease_types n.type quota)

abbrev pub set_at : ℕ → Handler → (ℕ → Handler) → ℕ → Handler
set_at r h heap i = if eqb i r then h else heap i

abbrev reduced : List Node → Option (List (String × Amount)) → Option (List (String × Amount))
unfolding decrease_all
reduced nodes none = none
reduced nodes (some quota) = some (decrease_all nodes quota)

-- A handler that was run for a request is kept, and the labels of its nodes are used.
unfoldable pub add_handler : Handler → Pool → Pool
unfolding reduced
add_handler h p = record p {
  worker = record p.worker { label_quota = reduced h.nodeset p.worker.label_quota };
  heap = set_at p.next h p.heap;
  next = suc p.next;
  request_handlers = p.request_handlers ++ p.next ∷ [];
  paused_handlers = if h.paused then p.next ∷ p.paused_handlers else p.paused_handlers;
}

abbrev is_taken_up : Verdict → Bool
is_taken_up taken_up = true
is_taken_up _ = false

abbrev has_limits : Option (List (String × Amount)) → Bool
has_limits none = false
has_limits (some limits) = true

abbrev is_allowed : Result Bool → Bool
is_allowed (ok b) = b
is_allowed (raise e) = false

module _ {S : Type 0} (c : Calls S) where
  -- What running the handler came to.
  accepted : Pool → Result (Unit {0}) × (Handler × S) → Result (Unit {0}) × (Pool × S)
  unfolding add_handler
  accepted p (raise e, (h, t)) = (raise e, (p, t))
  accepted p (ok u, (h, t)) = (ok tt, (add_handler h p, t))

  decide : (accepts : Bool) → Pool → NodeRequest → S → Result (Unit {0}) × (Pool × S)
  unfolding Fill.run decline_request accepted
  decide true p q s = accepted p (Fill.run c.config c.handlers (new_handler q, s))
  decide false p q s =
      let (r, (h, t)) = decline_request c.config c.handlers (new_handler q, s) in (r, (p, t))

  -- The request may have changed before it was locked.
  locked :
      (accepts : Bool)
      → Pool
      → Result (Unit {0}) × (NodeRequest × S)
      → Result (Unit {0}) × (Pool × S)
  unfolding decide
  locked accepts p (raise zk_lock, (q, s)) = (ok tt, (p, s))
  locked accepts p (raise no_node, (q, s)) = (ok tt, (p, s))
  locked accepts p (raise e, (q, s)) = (raise e, (p, s))
  locked accepts p (ok u, (q, s)) =
      if is_state q.state requested && not (elem p.worker.launcher_id q.declined_by)
      then decide accepts p q s
      else let (r, (q', t)) = c.handlers.unlock_node_request (q, s) in (r, (p, t))

  unfoldable pub is_below : Option ℕ → (active : ℕ) → Bool
  is_below none active = true
  is_below (some n) active = not (ltb 0 n) || ltb active n

  -- A request that will be declined is locked in any case.
  unfoldable pub may_go_on : (accepts : Bool) → Pool → S → Bool
  unfolding is_below
  may_go_on accepts p s =
      not accepts || (is_empty p.paused_handlers && is_below p.max_concurrency (c.active_threads s))

  with_reasons :
      NodeRequest → Pool → Result (List Reason) × (Handler × S) → Result (Unit {0}) × (Pool × S)
  unfolding may_go_on locked
  with_reasons req p (raise e, (h, s)) = (raise e, (p, s))
  with_reasons req p (ok reasons, (h, s)) =
      if may_go_on (is_empty reasons) p s
      then locked (is_empty reasons) p (c.lock_node_request (req, s))
      else (ok tt, (p, s))

  -- The check of the tenant's quota, whose exceptions defer the request.
  tenant_allows : (has_quota_support : Bool) → NodeRequest → M S (Result Bool)
  unfolding has_tenant_quota lookup
  tenant_allows support req =
      if is_set req.tenant_name
        && has_limits (lookup (format_id req.tenant_name) c.tenancy.tenant_resource_limits)
        && support
      then attempt (has_tenant_quota c.tenancy req (format_id req.tenant_name))
      else pure (ok true)

  allowed : NodeRequest → Pool → Result (Result Bool) × S → Result (Unit {0}) × (Pool × S)
  unfolding with_reasons declined_reasons
  allowed req p (raise e, s) = (raise e, (p, s))
  allowed req p (ok answer, s) =
      if is_allowed answer
      then with_reasons req p (declined_reasons c.config c.handlers (new_handler req, s))
      else (ok tt, (p, s))

  -- The body of the loop.
  unfoldable pub take : List LauncherPool → NodeRequest → Run S (Unit {0})
  unfolding allowed tenant_allows consider
  take pools req (p, s) =
      if is_taken_up (consider p.worker pools req)
      then allowed req p (tenant_allows (has_limits p.worker.label_quota) req s)
      else (ok tt, (p, s))

  -- A worker that was stopped leaves the loop.
  unfoldable pub take_all : List LauncherPool → List NodeRequest → Run S (Unit {0})
  unfolding take
  take_all pools [] = pure tt
  take_all pools (q ∷ qs) = do
    (p, s) ← get
    if c.running s then (take pools q >> take_all pools qs) else pure tt

  take_sorted : List LauncherPool → Result (List Keyed) → Run S (Unit {0})
  unfolding take_all
  take_sorted pools (raise e) = throw e
  take_sorted pools (ok keyed) = take_all pools (map (λ q. q.request) keyed)

  abbrev is_disabled : Option ℕ → Bool
  is_disabled none = false
  is_disabled (some n) = eqb n 0

  -- _assignHandlers
  unfoldable pub assign_handlers : Run S (Unit {0})
  unfolding take_sorted sort_requests
  assign_handlers = do
    (p, s) ← get
    if is_disabled p.max_concurrency then pure tt else (do
      modify
          (λ (p, s). (record p { worker = record p.worker { label_quota = c.label_quota s } }, s))
      requests ← on_right c.node_request_iterator
      take_all (c.registered_pools s) requests)
