-- ===== src/Prelude/Effects.antt =====
-- Python statements that change a state and may raise. What was changed before an exception stays
-- changed.
use mathlib.Core.List.{List, [], ◌∷◌}
use mathlib.Core.Path.{◌≡◌, refl}
use mathlib.Core.Logic.{◌⊎◌, inl, inr}

-- The exceptions that the code tells apart. `other` is any further one.
pub data Exception : Type 0 where
  zk_lock timeout lock_timeout no_node session_expired : Exception
  type_error key_error unbound_local not_found quota keyscan other : Exception

pub data Result (A : Type 0) : Type 0 where
  ok : A → Result A
  raise : Exception → Result A

pub raise-ne-ok : {A : Type 0} (e : Exception) (a : A) → ¬ (raise e ≡ ok a)
raise-ne-ok e a p = cc

pub Result-cases :
    {A : Type 0} (r : Result A) → ((a : A) × (r ≡ ok a)) ⊎ ((e : Exception) × (r ≡ raise e))
Result-cases (ok a) = inl (a, refl)
Result-cases (raise e) = inr (e, refl)

module _ {A B : Type 0} where
  -- The rest of a computation, unless an exception was raised.
  abbrev pub then_ok : Result A → (A → Result B) → Result B
  then_ok (ok a) f = f a
  then_ok (raise e) f = raise e

-- What holds of a result that is no exception.
abbrev pub OnOk {κ} : {A : Type 0} → (A → Type κ) → Result A → Type κ
OnOk P (ok a) = P a
OnOk P (raise e) = Unit

pub then_ok-OnOk :
    {A B : Type 0} (P : A → Type 0) (Q : B → Type 0) (r : Result A) (f : A → Result B)
    → OnOk P r
    → ((a : A) → P a → OnOk Q (f a))
    → OnOk Q (then_ok r f)
then_ok-OnOk P Q (ok a) f p q = q a p
then_ok-OnOk P Q (raise e) f p q = tt

pub OnOk-Unit : {A : Type 0} (r : Result A) → OnOk (λ _. Unit {0}) r
OnOk-Unit (ok a) = tt
OnOk-Unit (raise e) = tt

-- A statement over the state `S`.
abbrev pub M : Type 0 → Type 0 → Type 0
M S A = S → Result A × S

module _ {S : Type 0} where
  abbrev pub get : M S S
  get s = (ok s, s)

  abbrev pub modify : (S → S) → M S (Unit {0})
  modify f s = (ok tt, f s)

module _ {S A : Type 0} where
  abbrev pub pure : A → M S A
  pure a s = (ok a, s)

  abbrev pub throw : Exception → M S A
  throw e s = (raise e, s)

  -- A value that the state determines.
  abbrev pub gets : (S → A) → M S A
  gets f s = (ok (f s), s)

  -- `try: m` with a handler that sees the exception.
  abbrev pub try_except : M S A → (Exception → M S A) → M S A
  try_except m handler s =
      let (r, s') = m s in elim r [ ok a ↦ (ok a, s') | raise e ↦ handler e s' ]

module _ {S A B : Type 0} where
  abbrev pub and_then : Result A → (A → M S B) → M S B
  and_then (ok a) f = f a
  and_then (raise e) f = throw e

  infixl 5 ◌>>=◌ ◌>>◌
  abbrev pub ◌>>=◌ : M S A → (A → M S B) → M S B
  m >>= f = λ s. let (r, s') = m s in and_then r f s'

  abbrev pub ◌>>◌ : M S A → M S B → M S B
  m >> n = m >>= λ _. n

-- A statement on one part of a state of two parts.
module _ {S T A : Type 0} where
  abbrev pub on_right : M S A → M (T × S) A
  on_right m (t, s) = let (r, s') = m s in (r, (t, s'))

-- `for x in xs: body(x)`; an exception leaves the loop.
module _ {S A : Type 0} where
  abbrev pub for_each : List A → (A → M S (Unit {0})) → M S (Unit {0})
  for_each [] body = pure tt
  for_each (x ∷ xs) body = body x >> for_each xs body

module _ {S A : Type 0} where
  -- `try: m` whose outcome the code looks at.
  abbrev pub attempt : M S A → M S (Result A)
  attempt m s = let (r, s') = m s in (ok r, s')

  -- `try: m` / `except Exception: log`.
  abbrev pub suppress : M S A → M S (Unit {0})
  suppress m s = let (r, s') = m s in (ok tt, s')

  abbrev pub or_if_no_node : A → Exception → M S A
  or_if_no_node a no_node = pure a
  or_if_no_node a e = throw e

  -- `try: m` / `except NoNodeError: return a`.
  abbrev pub unless_no_node : M S A → A → M S A
  unless_no_node m a = try_except m (or_if_no_node a)

-- `try: m` / `finally: cleanup`. An exception of the cleanup takes the place of the first.
module _ {S A : Type 0} where
  abbrev pub try_finally : M S A → M S (Unit {0}) → M S A
  try_finally m cleanup s =
      let (r, s') = m s in
      let (c, t) = cleanup s' in elim c [ ok u ↦ (r, t) | raise e ↦ (raise e, t) ]

-- An assignment that may raise, to the object beside the rest of the state.
module _ {S X : Type 0} where
  abbrev pub assign_to : (X → Result X) → M (X × S) (Unit {0})
  assign_to f (x, s) = elim (f x) [ ok y ↦ (ok tt, (y, s)) | raise e ↦ (raise e, (x, s)) ]
