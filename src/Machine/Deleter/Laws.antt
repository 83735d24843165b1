-- ===== src/Machine/Deleter/Laws.antt =====
-- What a round of a deleter leaves behind.
use nodepool.Prelude.{
  ◌+◌, Bool, true, false, some, M, Result, ok, raise, not_found, pure, throw, ◌>>=◌, ◌>>◌, attempt,
  ltb, ◌==◌, if◌then◌else◌, ◌≡◌, refl, ◌∙◌, ◌⊎◌, inl, inr, raise-ne-ok, timeout,
}
use nodepool.Zk.States.{deleting}
use nodepool.Zk.Values.{is_set}
use nodepool.Zk.Node.{Node}
use nodepool.Zk.Node
use nodepool.Machine.{Cloud, start}
use nodepool.Driver.Handler.Rules.{Ends, bind_rule, if_rule}
use nodepool.Machine.Deleter.{
  Deleter, delete_timeout, node_exists, on_node, on_machine, set_complete, announce, progress,
  advance_delete, remove, delete_znode, give_up, settle, run_state_machine,
}

-- Nothing but the deletion itself takes the node further than to be deleted.
abbrev Spared : Node → Node → Type 0
Spared n m = (m.state ≡ n.state) ⊎ (m.state ≡ some deleting)

-- Storing and unlocking a node leave its state.
abbrev pub KeepsState : {S : Type 0} → M (Node × S) (Unit {0}) → Type 0
KeepsState {S} op = (n : Node) (s : S) → (op (n, s)).1.0.state ≡ n.state

Spared-via : (n a b : Node) → Spared n a → b.state ≡ a.state → Spared n b
Spared-via n a b (inl p) q = inl (q ∙ p)
Spared-via n a b (inr p) q = inr (q ∙ p)

module _ {S : Type 0} (v : Cloud S) where
  record Spares {A : Type 0} (n : Node) (r : Result A) (t : Deleter × S) : Type 0 where
    spares : Spared n t.0.node

  abbrev AtState : {A : Type 0} → Node → Result A → Deleter × S → Type 0
  AtState n r t = t.0.node.state ≡ n.state

  announce-Spares :
      KeepsState v.store_node
      → (n : Node) (d : Deleter) (s : S) → d.node.state ≡ n.state
      → Ends (Spares n) (announce v (d, s))
  unfolding announce Node.set_state Node.is_node_state
  announce-Spares keeps n d s e = record { spares = inr (keeps _ s) }

  progress-Spares :
      (n : Node) (d : Deleter) (s : S) → Spared n d.node → Ends (Spares n) (progress v (d, s))
  unfolding progress
  progress-Spares n d s e =
      if_rule (Spares n) (is_set d.node.external_id) (on_machine v v.advance >> pure tt)
        (set_complete v) (d, s)
        (λ yes.
          bind_rule (Spares n) (Spares n) (on_machine v v.advance) _ (d, s) (record { spares = e })
            (λ x t h. record { spares = h.spares }) (λ a t h. record { spares = h.spares }))
        (λ no'. record { spares = e })

  advance_delete-Spares :
      KeepsState v.store_node
      → (n : Node) (d : Deleter) (s : S) → d.node.state ≡ n.state
      → Ends (Spares n) (advance_delete v (d, s))
  unfolding advance_delete
  advance_delete-Spares keeps n d s e =
      bind_rule (AtState n) (Spares n)
        (if ltb (d.state_machine.start_time + delete_timeout) (v.time s)
          then throw timeout
          else pure tt)
        _ (d, s)
        (if_rule (AtState n) (ltb (d.state_machine.start_time + delete_timeout) (v.time s))
          (throw timeout) (pure tt) (d, s) (λ yes. e) (λ no'. e))
        (λ x t h. record { spares = inl h })
        (λ a t h.
          bind_rule (Spares n) (Spares n)
            (if d.state_machine.state == start then announce v else pure tt) _ t
            (if_rule (Spares n) (d.state_machine.state == start) (announce v) (pure tt) t
              (λ yes. announce-Spares keeps n t.0 t.1 h) (λ no'. record { spares = inl h }))
            (λ x u k. record { spares = k.spares })
            (λ b u k.
              bind_rule (Spares n) (Spares n) (progress v) _ u (progress-Spares n u.0 u.1 k.spares)
                (λ x w j. record { spares = j.spares }) (λ c w j. record { spares = j.spares })))

  record Final (n : Node) (r : Result Bool) (t : Deleter × S) : Type 0 where
    final : r ≡ ok false → Spared n t.0.node

  went_on : ¬ (ok true ≡ ok false)
  went_on e = cc

  remove-Final :
      (n : Node) (existed : Bool) (d : Deleter) (s : S) → Ends (Final n) (remove v existed (d, s))
  unfolding remove
  remove-Final n existed d s =
      bind_rule (λ r t. Unit {0}) (Final n) (if existed then delete_znode v else pure tt) _ (d, s)
        tt (λ x t h. record { final = λ q. absurd (raise-ne-ok x false q) })
        (λ a t h. record { final = λ q. absurd (went_on q) })

  give_up-Final :
      KeepsState v.unlock_node
      → (n : Node) (existed : Bool) (d : Deleter) (s : S) → Spared n d.node
      → Ends (Final n) (give_up v existed (d, s))
  unfolding give_up
  give_up-Final keeps n existed d s e =
      bind_rule (Spares n) (Final n) (if existed then on_node v v.unlock_node else pure tt) _ (d, s)
        (if_rule (Spares n) existed (on_node v v.unlock_node) (pure tt) (d, s)
          (λ yes. record {
            spares = Spared-via n d.node (v.unlock_node (d.node, s)).1.0 e (keeps d.node s);
          })
          (λ no'. record { spares = e }))
        (λ x t h. record { final = λ q. h.spares }) (λ a t h. record { final = λ q. h.spares })

  settle-Final :
      KeepsState v.unlock_node
      → (n : Node) (existed : Bool) (r : Result Bool) (d : Deleter) (s : S) → Spared n d.node
      → Ends (Final n) (settle v existed r (d, s))
  unfolding settle
  settle-Final keeps n existed (ok true) d s e = remove-Final n existed d s
  settle-Final keeps n existed (ok false) d s e = record { final = λ q. e }
  settle-Final keeps n existed (raise x) d s e =
      elim x as (λ y. Ends (Final n) (settle v existed (raise y) (d, s))) [
        | not_found ↦ remove-Final n existed d s
        | _ ↦ give_up-Final keeps n existed d s e
      ]

  -- If storing and unlocking a node leave its state, then whatever the adapter and ZooKeeper answer, a
  -- round of a deleter that returns None leaves the node in its state, or about to be deleted.
  pub run_state_machine-spares :
      KeepsState v.store_node
      → KeepsState v.unlock_node
      → (d : Deleter) (s : S)
      → let (r, (k, t)) = run_state_machine v (d, s) in
        r ≡ ok false → (k.node.state ≡ d.node.state) ⊎ (k.node.state ≡ some deleting)
  unfolding run_state_machine
  run_state_machine-spares stores unlocks d s =
      (if_rule (Final d.node) d.state_machine.complete (pure true)
        (attempt (advance_delete v) >>= settle v (node_exists d.node)) (d, s)
        (λ yes. record { final = λ q. inl refl })
        (λ no'.
          let tried = advance_delete-Spares stores d.node d s refl in
          settle-Final unlocks d.node (node_exists d.node) (advance_delete v (d, s)).0
            (advance_delete v (d, s)).1.0 (advance_delete v (d, s)).1.1 tried.spares)).final
