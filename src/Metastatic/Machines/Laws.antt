-- ===== src/Metastatic/Machines/Laws.antt =====
-- What a round of the create machine of the metastatic driver comes to.
use nodepool.Prelude.{
  ℕ, String, Bool, true, false, Option, some, none, ◌≡◌, ◌≢◌, refl, sym, ◌∙◌, Result, ok, raise,
  on_right,
}
use nodepool.Zk.Node.{Node}
use nodepool.Driver.Handler.Rules.{Ends, bind_rule}
use nodepool.Metastatic.{Adapter, Store, Provider}
use nodepool.Metastatic.Requests.{check_backing_node_requests}
use nodepool.Metastatic.Allocate.{allocate_backing_node}
use nodepool.Metastatic.Machines.{
  Phase, start, requesting, finished, CreateMachine, MetastaticInstance, new_instance, start_create,
  instance_of, finish_create, await_create, continue_create, rest_create, advance_create,
}

module _ {S : Type 0} (z : Store S) (p : Provider) where
  -- The outcome of a round: an instance for the slot of a machine that is complete; or a wait, and
  -- then the machine is requesting, and its record has neither failed nor got its node; or an
  -- exception.
  abbrev pub Round : Result (Option MetastaticInstance) → CreateMachine × (Adapter × S) → Type 0
  Round (ok (some i)) (c, t) =
      (ref : ℕ) × (c.backing ≡ some (ref, i.slot)) × (c.complete ≡ true) × (c.state ≡ finished)
  Round (ok none) (c, (a, s)) =
      (ref : ℕ) × (slot : ℕ) × (c.backing ≡ some (ref, slot))
      × (c.state ≡ requesting)
      × ((a.heap ref).failed ≡ false)
      × ((a.heap ref).node_id ≡ none)
  Round (raise e) t = Unit

  -- A machine that has the record and the slot, in a phase.
  abbrev Has : ℕ → ℕ → Phase → CreateMachine × (Adapter × S) → Type 0
  Has ref slot phase t = (t.0.backing ≡ some (ref, slot)) × (t.0.state ≡ phase)

  instance_of-Round :
      (ref slot : ℕ) (c : CreateMachine) (backing node : Option Node)
      (t : CreateMachine × (Adapter × S))
      → Has ref slot finished t
      → Ends Round (instance_of z p c slot backing node t)
  unfolding new_instance
  instance_of-Round ref slot c backing none t h = tt
  instance_of-Round ref slot c backing (some n) t h = (ref, h.0, refl, h.1)

  finish_create-Round :
      (ref slot : ℕ) (t : CreateMachine × (Adapter × S))
      → Has ref slot finished t
      → Ends Round (finish_create z p ref slot t)
  unfolding finish_create
  finish_create-Round ref slot t h =
      bind_rule (λ r u. Has ref slot finished u) Round
        (on_right (on_right (z.get_node (t.1.0.heap ref).node_id))) _ t h (λ e u k. tt)
        (λ backing u k.
          bind_rule (λ r w. Has ref slot finished w) Round
            (on_right (on_right (z.get_node (some t.0.node_id)))) _ u k (λ e w l. tt)
            (λ node w l. instance_of-Round ref slot t.0 backing node w l))

  await_create-Round :
      (ref slot : ℕ) (t : CreateMachine × (Adapter × S))
      → Has ref slot requesting t
      → Ends Round (await_create z p ref slot (t.1.0.heap ref).failed (t.1.0.heap ref).node_id t)
  unfolding await_create
  await_create-Round ref slot t h = go (t.1.0.heap ref).failed (t.1.0.heap ref).node_id refl refl
    where
      go :
          (f : Bool) (id : Option String)
          → (t.1.0.heap ref).failed ≡ f
          → (t.1.0.heap ref).node_id ≡ id
          → Ends Round (await_create z p ref slot f id t)
      go true id e k = tt
      go false none e k = (ref, slot, h.0, h.1, e, k)
      go false (some id) e k =
          finish_create-Round ref slot (record (t.0) { state = finished }, t.1) (h.0, refl)

  continue_create-Round :
      (ref slot : ℕ) (phase : Phase) (t : CreateMachine × (Adapter × S))
      → phase ≢ start
      → Has ref slot phase t
      → Ends Round (continue_create z p ref slot phase t)
  unfolding continue_create
  continue_create-Round ref slot start t n h = absurd (n refl)
  continue_create-Round ref slot requesting t n h =
      bind_rule (λ r u. Has ref slot requesting u) Round
        (on_right (check_backing_node_requests z p)) _ t h (λ e u k. tt)
        (λ x u k. await_create-Round ref slot u k)
  continue_create-Round ref slot finished t n h = finish_create-Round ref slot t h

  rest_create-Round :
      (t : CreateMachine × (Adapter × S))
      → t.0.state ≢ start
      → Ends Round (rest_create z p t.0.backing t.0.state t)
  unfolding rest_create
  rest_create-Round t n = go t.0.backing refl
    where
      go : (b : Option (ℕ × ℕ)) → t.0.backing ≡ b → Ends Round (rest_create z p b t.0.state t)
      go none e = tt
      go (some (ref, slot)) e = continue_create-Round ref slot t.0.state t n (e, refl)

  -- Behind the part for START no machine is in that state.
  abbrev Started : Result (Unit {0}) → CreateMachine × (Adapter × S) → Type 0
  Started (raise e) t = Unit
  Started (ok u) t = t.0.state ≢ start

  start_create-Started :
      (phase : Phase) (t : CreateMachine × (Adapter × S))
      → t.0.state ≡ phase
      → Ends Started (start_create z p phase t)
  unfolding start_create
  start_create-Started requesting t e = λ h. requesting-ne (sym e ∙ h)
    where
      requesting-ne : ¬ (requesting ≡ start)
      requesting-ne h = cc
  start_create-Started finished t e = λ h. finished-ne (sym e ∙ h)
    where
      finished-ne : ¬ (finished ≡ start)
      finished-ne h = cc
  start_create-Started start (c, t) e = go (allocate_backing_node z p c.label c.node_id t).0 refl
    where
      after : Adapter × S
      after = (allocate_backing_node z p c.label c.node_id t).1

      next_state :
          (o : Option String)
          → ¬ ((elim o as (λ _. Phase) [ none ↦ requesting | some id ↦ finished ]) ≡ start)
      next_state none h = cc
      next_state (some id) h = cc

      go :
          (r : Result (ℕ × ℕ))
          → (allocate_backing_node z p c.label c.node_id t).0 ≡ r
          → Ends Started (start_create z p start (c, t))
      go (raise x) h = rw (h, start_create) tt
      go (ok x) h = rw (h, start_create) (next_state (after.0.heap x.0).node_id)

  -- Whatever ZooKeeper answers, a round of the create machine of the metastatic driver ends in one of
  -- three ways: it raises; it returns an instance, and then the machine is complete and the instance
  -- is in the slot that was allocated; or it returns None, and then the machine is waiting, and the
  -- record that was allocated has neither failed nor got its node.
  pub advance_create-Round : (t : CreateMachine × (Adapter × S)) → Ends Round (advance_create z p t)
  unfolding advance_create
  advance_create-Round t =
      bind_rule Started Round (start_create z p t.0.state) _ t
        (start_create-Started t.0.state t refl) (λ e u h. tt) (λ x u h. rest_create-Round u h)
