-- ===== src/Workers/Rounds.antt =====
-- The rounds of the handlers that a pool has: _removeCompletedHandlers and _process_paused_handlers of
-- the class PoolWorker of launcher.py.
pub mod Laws
use nodepool.Prelude.{
  ℕ, Bool, true, false, not, ◌&&◌, ◌||◌, List, [], ◌∷◌, keep, eqb, if◌then◌else◌, M, Result, ok,
  raise, session_expired, pure, throw, then_ok, is_empty, ◌>>=◌, ◌>>◌,
}
use nodepool.Driver.Handler.{Handler}
use nodepool.Driver.Handler.Fill
use nodepool.Driver.Handler.Poll.{poll}
use nodepool.Workers.Order.{Priority, priority, priority_le}
use nodepool.Workers.Take.{Pool, Calls, Run, set_at}

-- `r in paused_handlers`
abbrev pub is_in : ℕ → List ℕ → Bool
is_in r [] = false
is_in r (x ∷ xs) = eqb x r || is_in r xs

-- `sorted(self.paused_handlers, key=lambda h: h.request.priority)`: the handlers with their keys, in
-- ascending order. The sort is Python's, which is stable.
insert_by_priority : Priority × ℕ → List (Priority × ℕ) → List (Priority × ℕ)
unfolding priority_le
insert_by_priority a [] = a ∷ []
insert_by_priority a (b ∷ bs) =
    if priority_le a.0 b.0 then a ∷ b ∷ bs else b ∷ insert_by_priority a bs

unfoldable pub sort_by_priority : (ℕ → Handler) → List ℕ → Result (List (Priority × ℕ))
unfolding insert_by_priority priority
sort_by_priority heap [] = ok []
sort_by_priority heap (r ∷ rs) =
    then_ok (priority (heap r).request)
      (λ k. then_ok (sort_by_priority heap rs) (λ keyed. ok (insert_by_priority (k, r) keyed)))

abbrev references : List (Priority × ℕ) → List ℕ
references [] = []
references ((_, r) ∷ keyed) = r ∷ references keyed

module _ {S : Type 0} (c : Calls S) where
  -- What polling a handler came to: whether it stays, and the paused handlers.
  polled : ℕ → Pool → Result Bool × (Handler × S) → Bool × (Pool × S)
  polled r p (ok true, (h, t)) = (false, (record p { heap = set_at r h p.heap }, t))
  polled r p (ok false, (h, t)) = (
    true,
    (
      record p {
        heap = set_at r h p.heap;
        paused_handlers =
            if h.paused && not (is_in r p.paused_handlers)
            then r ∷ p.paused_handlers
            else p.paused_handlers;
      },
      t,
    ),
  )
  polled r p (raise session_expired, (h, t)) = (false, (record p { heap = set_at r h p.heap }, t))
  polled r p (raise e, (h, t)) = (true, (record p { heap = set_at r h p.heap }, t))

  -- The loop of _removeCompletedHandlers; what is left is returned.
  poll_all : List ℕ → Pool × S → List ℕ × (Pool × S)
  unfolding polled poll
  poll_all [] t = ([], t)
  poll_all (r ∷ rs) (p, s) =
      let (stays, u) = polled r p (poll c.config c.handlers (p.heap r, s)) in
      let (active, w) = poll_all rs u in (if stays then r ∷ active else active, w)

  -- _removeCompletedHandlers
  unfoldable pub remove_completed_handlers : Run S (Unit {0})
  unfolding poll_all
  remove_completed_handlers (p, s) =
      let (active, (q, t)) = poll_all p.request_handlers (p, s) in
      (ok tt, (record q { request_handlers = active }, t))

  -- What running a paused handler again came to.
  unfoldable pub run_again :
      ℕ → Pool → Result (Unit {0}) × (Handler × S) → Result (Unit {0}) × (Pool × S)
  run_again r p (raise e, (h, t)) = (raise e, (record p { heap = set_at r h p.heap }, t))
  run_again r p (ok u, (h, t)) = (
    ok tt,
    (
      record p {
        heap = set_at r h p.heap;
        paused_handlers =
            if h.paused then p.paused_handlers else keep (λ x. not (eqb x r)) p.paused_handlers;
      },
      t,
    ),
  )

  -- The loop of _process_paused_handlers.
  unfoldable pub process_paused : List ℕ → Run S (Unit {0})
  unfolding run_again Fill.run
  process_paused [] = pure tt
  process_paused (r ∷ rs) =
      (λ (p, s). run_again r p (Fill.run c.config c.handlers (p.heap r, s))) >> process_paused rs

  -- The component is marked as not paused any more, if no handler is.
  set_unpaused : Run S (Unit {0})
  set_unpaused (p, s) = (
    ok tt,
    (record p { component_paused = not (is_empty p.paused_handlers) && p.component_paused }, s),
  )

  -- The handlers in their order, or the exception of one that has no priority.
  run_sorted : Result (List (Priority × ℕ)) → Run S (Unit {0})
  unfolding process_paused set_unpaused
  run_sorted (raise e) = throw e
  run_sorted (ok keyed) = process_paused (references keyed) >> set_unpaused

  -- _process_paused_handlers. The set of paused handlers is read in the order of the list.
  unfoldable pub process_paused_handlers : Run S (Unit {0})
  unfolding run_sorted sort_by_priority
  process_paused_handlers (p, s) =
      if is_empty p.paused_handlers
      then set_unpaused (p, s)
      else run_sorted (sort_by_priority p.heap p.paused_handlers)
          (record p { component_paused = true }, s)
