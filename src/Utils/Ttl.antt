-- ===== src/Utils/Ttl.antt =====
-- The class LazyExecutorTTLCache of driver/utils.py.
use nodepool.Prelude.{
  ℕ, ◌+◌, ◌<◌, Bool, true, false, Option, some, none, ◌≡◌, refl, ◌⊎◌, inl, inr, M, Result, ok,
  raise, ltb, ltb→lt, if◌then◌else◌, Bool-cases,
}

-- `pending` says that there is an outstanding future.
pub record TtlCache (V : Type 0) : Type 0 where
  pub pending : Bool
  pub last_time : Option ℕ
  pub last_value : Option V

-- What the cache calls: the clock, the executor and the underlying method. A future that is done
-- gives the time of its end and the value, or the exception of the method.
pub record Backend (S V : Type 0) : Type 0 where
  pub monotonic : S → ℕ
  pub poll : M S (Option (Result (ℕ × V)))
  pub submit : M S (Unit {0})
  pub func : M S V

module _ {S V : Type 0} (ttl : ℕ) (b : Backend S V) where
  -- The result of a future that is done, if there is one. It is cleared in any case.
  settle : Option (Result (ℕ × V)) → TtlCache V → Result (TtlCache V) × TtlCache V
  settle none c = (ok c, c)
  settle (some (raise e)) c = (raise e, record c { pending = false })
  settle (some (ok (t, v))) c =
      let d : TtlCache V = record { pending = false; last_time = some t; last_value = some v } in
      (ok d, d)

  resolve : TtlCache V → S → Result (TtlCache V) × (TtlCache V × S)
  unfolding settle
  resolve c s =
      let (r, t) = b.poll s in
      if c.pending
      then elim r [
        | raise e ↦ (raise e, (c, t))
        | ok answer ↦ let (d, after) = settle answer c in (d, (after, t))
      ]
      else (ok c, (c, s))

  submitted : TtlCache V → Result (Unit {0}) × S → Result (Option V) × (TtlCache V × S)
  submitted d (raise e, t) = (raise e, (d, t))
  submitted d (ok u, t) = (ok d.last_value, (record d { pending = true }, t))

  -- A miss with an old value: the value is returned, and an update is on its way.
  refresh : (pending : Bool) → TtlCache V → S → Result (Option V) × (TtlCache V × S)
  unfolding submitted
  refresh true d s = (ok d.last_value, (d, s))
  refresh false d s = submitted d (b.submit s)

  -- The first call of all.
  computed : TtlCache V → Result V × S → Result (Option V) × (TtlCache V × S)
  computed d (raise e, t) = (raise e, (d, t))
  computed d (ok v, t) =
      (ok (some v), (record d { last_value = some v; last_time = some (b.monotonic t) }, t))

  look : (now : ℕ) → Option ℕ → TtlCache V → M (TtlCache V × S) (Option V)
  unfolding refresh computed
  look now none d (c, s) = computed d (b.func s)
  look now (some last) d (c, s) =
      if ltb now (last + ttl) then (ok d.last_value, (d, s)) else refresh d.pending d s

  resolved : (now : ℕ) → Result (TtlCache V) → M (TtlCache V × S) (Option V)
  unfolding look
  resolved now (raise e) t = (raise e, t)
  resolved now (ok d) t = look now d.last_time d t

  -- A call of the decorated method.
  unfoldable pub call : M (TtlCache V × S) (Option V)
  unfolding resolve resolved
  call (c, s) = let (r, t) = resolve c s in resolved (b.monotonic s) r t

  -- A value that was returned is the cached one; it is not older than the ttl, or an update is on
  -- its way, or it was fetched in this call.
  abbrev pub Fresh : (now : ℕ) → Result (Option V) → TtlCache V × S → Type 0
  Fresh now (raise e) t = Unit
  Fresh now (ok v) (c, s) =
      (v ≡ c.last_value)
      × (((last : ℕ) × (c.last_time ≡ some last) × (now < last + ttl))
          ⊎ (c.pending ≡ true)
          ⊎ ((u : S) × (c.last_time ≡ some (b.monotonic u)) × (s ≡ u)))

  submitted-Fresh :
      (now : ℕ) (d : TtlCache V) (o : Result (Unit {0}) × S)
      → Fresh now (submitted d o).0 (submitted d o).1
  unfolding submitted
  submitted-Fresh now d (raise e, t) = tt
  submitted-Fresh now d (ok u, t) = (refl, inr (inl refl))

  refresh-Fresh :
      (now : ℕ) (d : TtlCache V) (s : S)
      → Fresh now (refresh d.pending d s).0 (refresh d.pending d s).1
  unfolding refresh
  refresh-Fresh now d s = go d.pending refl
    where
      go : (p : Bool) → d.pending ≡ p → Fresh now (refresh p d s).0 (refresh p d s).1
      go true e = (refl, inr (inl e))
      go false e = submitted-Fresh now d (b.submit s)

  computed-Fresh :
      (now : ℕ) (d : TtlCache V) (o : Result V × S) → Fresh now (computed d o).0 (computed d o).1
  unfolding computed
  computed-Fresh now d (raise e, t) = tt
  computed-Fresh now d (ok v, t) = (refl, inr (inr (t, refl, refl)))

  look-Fresh :
      (now : ℕ) (d : TtlCache V) (t : TtlCache V × S)
      → Fresh now (look now d.last_time d t).0 (look now d.last_time d t).1
  unfolding look
  look-Fresh now d (c, s) = go d.last_time refl
    where
      go :
          (o : Option ℕ)
          → d.last_time ≡ o
          → Fresh now (look now o d (c, s)).0 (look now o d (c, s)).1
      go none e = computed-Fresh now d (b.func s)
      go (some last) e = elim (Bool-cases (ltb now (last + ttl))) [
        | inl h ↦ rw h (refl, inl (last, e, ltb→lt now (last + ttl) h))
        | inr h ↦ rw h (refresh-Fresh now d s)
      ]

  -- Whatever the executor and the method answer, a call that returns returns the value that is then
  -- cached; and that is younger than the ttl by the time of the call, or an update is on its way, or
  -- the value was fetched at the end of this call.
  pub call-Fresh : (c : TtlCache V) (s : S) → Fresh (b.monotonic s) (call (c, s)).0 (call (c, s)).1
  unfolding call resolved
  call-Fresh c s = go (resolve c s)
    where
      go :
          (o : Result (TtlCache V) × (TtlCache V × S))
          → Fresh
              (b.monotonic s)
              (resolved (b.monotonic s) o.0 o.1).0
              (resolved (b.monotonic s) o.0 o.1).1
      go (raise e, t) = tt
      go (ok d, t) = look-Fresh (b.monotonic s) d t
