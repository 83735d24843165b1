-- ===== src/Driver/Handler/Kept.antt =====
-- What the statements of a handler leave alone: the recorded labels and the types that the request
-- asks for.
use nodepool.Prelude.{
  String, Bool, true, false, List, [], M, Result, ok, raise, ◌≡◌, refl, ◌∙◌, ◌>>=◌, arith,
}
use nodepool.Zk.States.{State}
use nodepool.Zk.Request.{NodeRequest}
use nodepool.Zk.Request
use nodepool.Driver.Labels.{labels}
use nodepool.Driver.Handler.{
  Handler, Config, Services, Run, change, with_request, set_request_state,
}
use nodepool.Driver.Handler.Rules.{Ends, on_right_rule, bind_rule}
use nodepool.Driver.Handler.Decline.{
  insert_new, give_back, release_nodes, unlock_node_set, mark_declined, declined_handler_cleanup,
  decline_request,
}

abbrev pub recorded : Handler → List String
recorded h = labels h.satisfied_types

abbrev pub Kept : Handler → Handler → Type 0
Kept h g = (recorded g ≡ recorded h) × (g.request.node_types ≡ h.request.node_types)

pub Kept-trans : (h g k : Handler) → Kept h g → Kept g k → Kept h k
Kept-trans h g k p q = (q.0 ∙ p.0, q.1 ∙ p.1)

-- An operation on a request leaves the types that it asks for.
abbrev pub KeepsTypes : {S : Type 0} → M (NodeRequest × S) (Unit {0}) → Type 0
KeepsTypes {S} op = (q : NodeRequest) (s : S) → (op (q, s)).1.0.node_types ≡ q.node_types

-- The two operations of the services on a request do.
pub record IsLawful {S : Type 0} (v : Services S) : Type 0 where
  pub stores : KeepsTypes v.store_node_request
  pub unlocks : KeepsTypes v.unlock_node_request

abbrev pub Left : {S A : Type 0} → Handler → Result A → Handler × S → Type 0
Left h r t = Kept h t.0

abbrev pub Keeps : {S A : Type 0} → Run S A → Type 0
Keeps {S} m = (h : Handler) (s : S) → Ends (Left h) (m (h, s))

module _ {S A B : Type 0} where
  pub bind_Keeps :
      (m : Run S A) (f : A → Run S B) → Keeps m → ((a : A) → Keeps (f a)) → Keeps (m >>= f)
  bind_Keeps m f p q h s = go (m (h, s)).0 refl
    where
      go : (r : Result A) → (m (h, s)).0 ≡ r → Kept h ((m >>= f) (h, s)).1.0
      go (ok a) e =
          rw (e, ◌>>=◌)
            (Kept-trans h (m (h, s)).1.0 (f a (m (h, s)).1).1.0 (p h s)
              (q a (m (h, s)).1.0 (m (h, s)).1.1))
      go (raise x) e = rw (e, ◌>>=◌) (p h s)

module _ {S : Type 0} where
  set_request_state-Keeps : (v : Services S) (state : State) → Keeps (set_request_state v state)
  unfolding Request.set_state
  set_request_state-Keeps v state h s = ground arith

module _ {S : Type 0} (c : Config) (v : Services S) where
  unlock_node_set-Keeps : (clear : Bool) → Keeps (unlock_node_set c v clear)
  unfolding unlock_node_set
  unlock_node_set-Keeps clear h s =
      on_right_rule (Left h) (release_nodes c v clear h.nodeset)
        (λ u. change (λ g. record g { nodeset = [] })) h s (λ e t. (refl, refl))
        (λ u t. (refl, refl))

  mark_declined-Keeps : Keeps (mark_declined c v)
  unfolding mark_declined
  mark_declined-Keeps h s = set_request_state-Keeps v _ (record h { request = declining h }) s
    where
      declining : Handler → NodeRequest
      declining g = record (g.request) {
        declined_by = insert_new c.launcher_id g.request.declined_by;
      }

  give_back-Keeps : IsLawful v → Keeps (give_back c v)
  give_back-Keeps lawful =
      bind_Keeps (with_request v.store_node_request) (λ u. with_request v.unlock_node_request)
        (λ g t. (refl, lawful.stores g.request t)) (λ u g t. (refl, lawful.unlocks g.request t))

  pub declined_handler_cleanup-Keeps : IsLawful v → Keeps (declined_handler_cleanup c v)
  unfolding declined_handler_cleanup
  declined_handler_cleanup-Keeps lawful h s =
      bind_rule (Left h) (Left h) (unlock_node_set c v true) _ (h, s)
        (unlock_node_set-Keeps true h s) (λ e u k. k)
        (λ a (g, t) k.
          Kept-trans h g (give_back c v (record g { paused = false }, t)).1.0 k
            (give_back-Keeps lawful (record g { paused = false }) t))

  pub decline_request-Keeps : IsLawful v → Keeps (decline_request c v)
  unfolding decline_request
  decline_request-Keeps lawful =
      bind_Keeps (mark_declined c v) (λ u. declined_handler_cleanup c v) mark_declined-Keeps
        (λ a. declined_handler_cleanup-Keeps lawful)
