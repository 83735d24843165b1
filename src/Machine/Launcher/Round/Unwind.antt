-- ===== src/Machine/Launcher/Round/Unwind.antt =====
-- A launch that is retried while the instance of the attempt before is still being deleted.
use nodepool.Prelude.{
  ℕ, ◌+◌, String, true, false, Option, some, none, Result, ok, raise, not_found, ◌>>=◌, ◌≡◌, refl,
  ap, ◌∙◌, ltb, arith,
}
use nodepool.Zk.Values.{is_set}
use nodepool.Machine.{Machine, Instance, Cloud}
use nodepool.Machine.Launcher.{Launcher, Pool}
use nodepool.Machine.Launcher.Delete.{run_delete_state_machine, unwind, after_unwind}
use nodepool.Machine.Launcher.Round.{
  return_none, check_timeout, go_on, with_scan, work, note_start, has_started, begin, try_block,
  handle, run_state_machine,
}

module _ {S : Type 0} (p : Pool S) (v : Cloud S) where
  abbrev deleting : Launcher → Machine → Launcher
  deleting l d = record l { delete_state_machine = some d }

  abbrev pub IsFound : Result (Option Instance) → Type 0
  IsFound r = ¬ (r ≡ raise not_found)

  after_unwind-waits :
      (d : Machine) (r : Result (Option Instance)) (l : Launcher) (s : S)
      → IsFound r
      → ((id : Option String) (t : S)
          → (m : Machine) × ((v.get_delete_state_machine id t).0 ≡ ok m))
      → (e : Machine) × (t : S) × (after_unwind p v d r (l, s) ≡ (ok false, (deleting l e, t)))
  unfolding after_unwind
  after_unwind-waits d (ok i) l s found again = (d, s, refl)
  after_unwind-waits d (raise x) l s found again =
      let (m, made) = again d.external_id s in
      let after : S = (v.get_delete_state_machine d.external_id s).1 in
      elim x
          as (λ y.
            IsFound (raise y)
            → (e : Machine) × (t : S) × (after_unwind p v d (raise y) (l, s)
                ≡ (ok false, (deleting l e, t)))) [
                  | not_found ↦ λ f. absurd (f refl)
                  | _ ↦ λ f. (m, after, rw (made, ◌>>=◌) refl)
                ]
        found

  go_on-waits :
      (c d : Machine) (k : Launcher) (s : S) (e : Machine) (t : S)
      → ltb (c.start_time + p.launch_timeout) (v.time s) ≡ false
      → k.delete_state_machine ≡ some d
      → d.complete ≡ false
      → is_set d.external_id ≡ true
      → after_unwind p v (v.advance (d, s)).1.0 (v.advance (d, s)).0 (k, (v.advance (d, s)).1.1)
        ≡ (ok false, (deleting k e, t))
      → go_on p v c (k, s) ≡ (ok return_none, (deleting k e, t))
  unfolding go_on check_timeout run_delete_state_machine unwind
  go_on-waits c d k s e t a b f g waits = simp (a, b, f, g, waits)

  note_start-rest :
      (now : ℕ) (l : Launcher)
      → let k = note_start p v now l in
        (k.state_machine ≡ l.state_machine)
        × (k.nodescan_request ≡ l.nodescan_request)
        × (k.delete_state_machine ≡ l.delete_state_machine)
  note_start-rest now l = ground arith

  has_started-ok :
      (l : Launcher) (s : S) (c : Machine)
      → l.state_machine ≡ some c
      → has_started p v (l, s) ≡ (ok true, (l, s))
  unfolding has_started
  has_started-ok l s c a = simp a

  -- A launch whose delete machine is not through: it has an instance to delete, the timeout is not
  -- reached, and no keys are being scanned. Unless the instance is not found, and as long as the adapter
  -- makes delete machines, the round only goes on deleting: it returns None, it leaves the create
  -- machine, the node and the attempts, and there is still a delete machine.
  pub run_state_machine-waits :
      (l : Launcher) (s : S) (c d : Machine)
      → l.state_machine ≡ some c
      → l.nodescan_request ≡ none
      → l.delete_state_machine ≡ some d
      → d.complete ≡ false
      → is_set d.external_id ≡ true
      → ltb (c.start_time + p.launch_timeout) (v.time s) ≡ false
      → IsFound (v.advance (d, s)).0
      → ((id : Option String) (t : S)
          → (m : Machine) × ((v.get_delete_state_machine id t).0 ≡ ok m))
      → (e : Machine) × (t : S) × (run_state_machine p v (l, s)
          ≡ (ok false, (record (note_start p v (v.time s) l) { delete_state_machine = some e }, t)))
  unfolding run_state_machine try_block begin work with_scan handle
  run_state_machine-waits l s c d a b e f g h i again =
      let k : Launcher = note_start p v (v.time s) l in
      let (machine, scan, delete) = note_start-rest (v.time s) l in
      let (m, t, waits) =
        after_unwind-waits (v.advance (d, s)).1.0 (v.advance (d, s)).0 k (v.advance (d, s)).1.1 i
          again in
      let gone_on = go_on-waits c d k s m t h (delete ∙ e) f g waits in
      let worked : work p v k.state_machine (k, s) ≡ (ok return_none, (deleting k m, t)) =
        ap (λ o. work p v o (k, s)) (machine ∙ a)
        ∙ ap (λ o. with_scan p v c o (k, s)) (scan ∙ b)
        ∙ gone_on in
      (m, t, simp (has_started-ok l s c a, worked))
