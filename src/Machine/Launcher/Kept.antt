-- ===== src/Machine/Launcher/Kept.antt =====
-- What a step of a launcher leaves alone: the count of its attempts.
use nodepool.Prelude.{
  ℕ, String, Option, some, none, Result, ◌>>=◌, on_right, ◌≡◌, refl, ◌∙◌, inl, inr, Result-cases,
  arith,
}
use nodepool.Zk.States.{State}
use nodepool.Zk.Values.{Value}
use nodepool.Zk.Node.{Node}
use nodepool.Zk.Node
use nodepool.Machine.{Cloud}
use nodepool.Driver.Handler.Rules.{Ends, bind_rule}
use nodepool.Machine.Launcher.{
  Launcher, Pool, Source, cloud_image, diskimage, Step, on_node, set_state, label, find_image,
  create_machine, start_state_machine, set_resources, use_image, image_of, first_type,
}
use nodepool.Machine.Launcher.Delete.{run_delete_state_machine, after_unwind, unwind}

pub record Even {S A : Type 0} (n : ℕ) (r : Result A) (t : Launcher × S) : Type 0 where
  pub even : t.0.attempts ≡ n

module _ {S : Type 0} (p : Pool S) (v : Cloud S) where
  abbrev pub Keeps : {A : Type 0} → Step p v A → Type 0
  Keeps m = (n : ℕ) (l : Launcher) (s : S) → l.attempts ≡ n → Ends (Even n) (m (l, s))

  pub bind-Even :
      {A B : Type 0} (n : ℕ) (m : Step p v A) (f : A → Step p v B) (l : Launcher) (s : S)
      → Ends (Even n) (m (l, s))
      → ((a : A) (k : Launcher) (t : S) → k.attempts ≡ n → Ends (Even n) (f a (k, t)))
      → Ends (Even n) ((m >>= f) (l, s))
  bind-Even n m f l s keeps then_keeps =
      bind_rule (Even n) (Even n) m f (l, s) keeps (λ e t h. record { even = h.even })
        (λ a t h. then_keeps a t.0 t.1 h.even)

  pub set_state-Keeps : (state : State) → Keeps (set_state p v state)
  set_state-Keeps state n l s h = elim (Result-cases (Node.set_state (v.time s) state l.node)) [
    | inl (m, e) ↦ rw (e, set_state) (record { even = h })
    | inr (x, e) ↦ rw (e, set_state) (record { even = h })
  ]

  label-Keeps : (n : Node) → Keeps (label p v n)
  unfolding label
  label-Keeps m n l s h = record { even = ground arith }

  find_image-Keeps : (source : Source) → Keeps (find_image p v source)
  unfolding find_image
  find_image-Keeps (cloud_image i) n l s h = record { even = h }
  find_image-Keeps (diskimage i) n l s h =
      bind-Even n (on_right (p.get_most_recent_image_upload i.name)) _ l s (record { even = h })
        (λ found k t e. record { even = ground arith })

  create_machine-Keeps : (image : Option String) → Keeps (create_machine p v image)
  unfolding create_machine
  create_machine-Keeps image n l s h = record { even = ground arith }

  pub run_delete_state_machine-Keeps : Keeps (run_delete_state_machine p v)
  unfolding run_delete_state_machine unwind after_unwind
  run_delete_state_machine-Keeps n l s h = record { even = ground arith }

  set_resources-Even :
      (needed : Option Value) (l : Launcher) → (set_resources p v needed l).attempts ≡ l.attempts
  set_resources-Even none l = refl
  set_resources-Even (some r) l = refl

  pub start_state_machine-Keeps : Keeps (start_state_machine p v)
  unfolding start_state_machine
  start_state_machine-Keeps n l s h =
      bind-Even n (label p v l.node) _ l s (label-Keeps l.node n l s h) (λ source l1 s1 h1.
        bind-Even n (find_image p v source) _ l1 s1 (find_image-Keeps source n l1 s1 h1)
          (λ found l2 s2 h2.
            bind-Even n (on_right (p.quota_needed_by_label (first_type p v l.node))) _
              (record l2 { node = use_image p v found.1 (image_of p v source) l2.node }) s2
              (record { even = h2 })
              (λ needed l3 s3 h3.
                bind-Even n (on_node p v v.store_node) _ (set_resources p v needed l3) s3
                  (record { even = set_resources-Even needed l3 ∙ h3 })
                  (λ u l4 s4 h4. create_machine-Keeps found.0 n l4 s4 h4))))
