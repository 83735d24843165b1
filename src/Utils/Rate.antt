-- ===== src/Utils/Rate.antt =====
-- The class RateLimiter of driver/utils.py. Times are in the smallest unit of the clock.
use nodepool.Prelude.{
  ℕ, zero, suc, ◌+◌, ◌-◌, ◌≤◌, true, Option, some, none, ◌≡◌, refl, leb, if◌then◌else◌, arith,
  Bool-cases, inl, inr, leb→le, le→leb,
}

-- `time.monotonic` and `time.sleep`. A sleep is never shorter than it was asked for, and the clock
-- does not go back.
pub record Clock (S : Type 0) : Type 0 where
  pub monotonic : S → ℕ × S
  pub sleep : ℕ → S → S
  pub now : S → ℕ
  pub reads : (s : S) → now s ≤ (monotonic s).0
  pub goes_on : (s : S) → (monotonic s).0 ≤ now (monotonic s).1
  pub sleeps : (d : ℕ) (s : S) → now s + d ≤ now (sleep d s)

pub record RateLimiter : Type 0 where
  pub delta : ℕ
  pub last_ts : Option ℕ

module _ {S : Type 0} (k : Clock S) where
  -- The loop of _enter, with the delay so far. On fuel; `none` means that the fuel ran out.
  wait : ℕ → (delta last total_delay : ℕ) → S → Option (ℕ × S)
  wait zero delta last total_delay s = none
  wait (suc fuel) delta last total_delay s =
      let (now, t) = k.monotonic s in
      let delay = delta - (now - last) in
      let rest = wait fuel delta last (total_delay + delay) (k.sleep delay t) in
      if leb delta (now - last) then some (total_delay, t) else rest

  abbrev entered : ℕ → Option (ℕ × S) → Option (ℕ × (RateLimiter × S))
  entered delta none = none
  entered delta (some (total_delay, t)) =
      let (ts, u) = k.monotonic t in
      some (total_delay, (record { delta = delta; last_ts = some ts }, u))

  -- _enter: the delay, the limiter and what the clock is in then.
  unfoldable pub enter : ℕ → RateLimiter → S → Option (ℕ × (RateLimiter × S))
  unfolding wait
  enter fuel r s = elim r.last_ts [
    | none ↦ entered r.delta (some (0, s))
    | some last ↦ entered r.delta (wait fuel r.delta last 0 s)
  ]

  -- Two rounds of the loop are enough.
  wait_twice :
      (fuel delta last : ℕ) (s : S)
      → last ≤ k.now s
      → (total : ℕ) × (t : S) × (wait (suc (suc fuel)) delta last 0 s ≡ some (total, t))
        × (last + delta ≤ k.now t)
        × (total ≤ delta)
  unfolding wait
  wait_twice fuel delta last s h = elim (Bool-cases (leb delta (first.0 - last))) [
    | inl e ↦ (
      0,
      first.1,
      rw e refl,
      omega (arith, leb→le delta (first.0 - last) e, k.reads s, k.goes_on s),
      omega arith,
    )
    | inr e ↦ (0 + delay, second.1, rw (e, enough) refl, late, omega arith)
  ]
    where
      first : ℕ × S
      first = k.monotonic s

      delay : ℕ
      delay = delta - (first.0 - last)

      slept : S
      slept = k.sleep delay first.1

      second : ℕ × S
      second = k.monotonic slept

      in_time : last + delta ≤ second.0
      in_time = omega (arith, k.reads s, k.goes_on s, k.sleeps delay first.1, k.reads slept)

      enough : leb delta (second.0 - last) ≡ true
      enough = le→leb delta (second.0 - last) (omega (arith, in_time))

      late : last + delta ≤ k.now second.1
      late = omega (arith, in_time, k.goes_on slept)

  -- With a clock that does not go back and sleeps no shorter than asked, and the last entry in the
  -- past, the loop of _enter ends in two rounds; the new entry is at least delta behind the last,
  -- and the delay was not longer than delta.
  pub enter-delta :
      (fuel : ℕ) (r : RateLimiter) (s : S) (last : ℕ)
      → r.last_ts ≡ some last
      → last ≤ k.now s
      → (total : ℕ) × (ts : ℕ) × (t : S) × (enter (suc (suc fuel)) r s
          ≡ some (total, (record r { last_ts = some ts }, t)))
        × (last + r.delta ≤ ts)
        × (total ≤ r.delta)
  unfolding enter
  enter-delta fuel r s last e h =
      let (total, t, ends, late, short) = wait_twice fuel r.delta last s h in
      (
        total,
        (k.monotonic t).0,
        (k.monotonic t).1,
        rw (e, enter, ends, entered) refl,
        omega (arith, late, k.reads t),
        short,
      )
