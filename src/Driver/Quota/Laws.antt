-- ===== src/Driver/Quota/Laws.antt =====
-- What adding and subtracting quotas does to each resource.
use mathlib.Core.Option
use nodepool.Prelude.{
  ◌∙◌, ap, String, Bool, true, false, ◌&&◌, ◌||◌, Option, some, none, List, [], ◌∷◌, ◌==◌, ◌≡◌,
  refl, if◌then◌else◌, lookup, insert, elem, eq_iff, arith, inl, inr, Bool-cases, Option-cases,
}
use nodepool.Prelude.Amount.{Amount, minus, is_negative, Fits, minus-Fits}
use nodepool.Driver.Quota.{
  set_all, quota_information, Resources, QuotaInformation, or_default, set_default, set_defaults,
  extend_category, extend, get_amount, get_category, combine_resources, combine, add_subtract,
  subtract, all_non_negative, none_negative, non_negative,
}

-- `quota[c][r]`
unfoldable pub find : String → String → List (String × Resources) → Option Amount
unfolding lookup
find c r q = elim (lookup c q) [ none ↦ none | some m ↦ lookup r m ]

unfoldable pub has : String → Resources → Bool
has r [] = false
has r ((j, v) ∷ m) = j == r || has r m

-- `(c, r)` is a key of the quota.
unfoldable pub has_resource : String → String → List (String × Resources) → Bool
unfolding has
has_resource c r [] = false
has_resource c r ((j, m) ∷ q) = (j == c && has r m) || has_resource c r q

abbrev pub or_else : Option Amount → Bool → Amount → Option Amount
or_else none b v = if b then some v else none
or_else (some w) b v = some w

lookup-set_default :
    (r k : String) (v : Amount) (m : Resources)
    → lookup r (set_default k v m) ≡ or_else (lookup r m) (k == r) v
unfolding lookup set_default
lookup-set_default r k v [] = ground arith
lookup-set_default r k v ((j, w) ∷ m) =
    ground (arith, eq_iff j k, eq_iff j r, eq_iff k r, lookup-set_default r k v m)

or_else-or_else :
    (o : Option Amount) (a b : Bool) (v : Amount)
    → or_else (or_else o a v) b v ≡ or_else o (a || b) v
or_else-or_else none true b v = refl
or_else-or_else none false b v = refl
or_else-or_else (some w) a b v = refl

or_else-false : (o : Option Amount) (v : Amount) → o ≡ or_else o false v
or_else-false none v = refl
or_else-false (some w) v = refl

lookup-set_defaults :
    (r : String) (v : Amount) (other m : Resources)
    → lookup r (set_defaults v other m) ≡ or_else (lookup r m) (has r other) v
unfolding set_defaults has
lookup-set_defaults r v [] m = or_else-false (lookup r m) v
lookup-set_defaults r v ((j, w) ∷ other) m =
    rw (lookup-set_defaults r v other (set_default j v m), lookup-set_default r j v m)
      (or_else-or_else (lookup r m) (j == r) (has r other) v)

find-cons :
    (c r j : String) (m : Resources) (q : List (String × Resources))
    → find c r ((j, m) ∷ q) ≡ (if j == c then lookup r m else find c r q)
unfolding find lookup
find-cons c r j m q = elim (Bool-cases (j == c)) [
  | inl e ↦ rw (e, find) refl
  | inr e ↦ rw (e, find) refl
]

find-extend_category :
    (c r k : String) (v : Amount) (other : Resources) (q : List (String × Resources))
    → find c r (extend_category v k other q) ≡ or_else (find c r q) (k == c && has r other) v
unfolding find extend_category lookup
find-extend_category c r k v other [] =
    rw (find-cons c r k (set_defaults v other []) [], lookup-set_defaults r v other [])
      (elim (Bool-cases (k == c)) [ inl e ↦ rw e refl | inr e ↦ rw e refl ])
find-extend_category c r k v other ((j, m) ∷ q) = ground (
  arith,
  eq_iff j k,
  eq_iff j c,
  eq_iff k c,
  lookup-set_defaults r v other m,
  or_else-false (lookup r m) v,
  or_else-false (find c r q) v,
  find-extend_category c r k v other q,
)

find-extend :
    (c r : String) (v : Amount) (other q : List (String × Resources))
    → find c r (extend v other q) ≡ or_else (find c r q) (has_resource c r other) v
unfolding extend has_resource
find-extend c r v [] q = or_else-false (find c r q) v
find-extend c r v ((k, m) ∷ other) q =
    rw (find-extend c r v other (extend_category v k m q), find-extend_category c r k v m q)
      (or_else-or_else (find c r q) (k == c && has r m) (has_resource c r other) v)

lookup-combine_resources :
    (r : String) (op : Amount → Amount → Amount) (other : Resources) (default : Amount)
    (m : Resources)
    → lookup r (combine_resources op other default m)
      ≡ Option.map (λ v. op v (get_amount r other default)) (lookup r m)
unfolding combine_resources lookup
lookup-combine_resources r op other default [] = refl
lookup-combine_resources r op other default ((j, v) ∷ m) = elim (Bool-cases (j == r)) [
  | inl e ↦ rw (e, (eq_iff j r).0 e) refl
  | inr e ↦ rw e (lookup-combine_resources r op other default m)
]

-- What a quota counts of a resource: its own number, or its default.
abbrev pub amount : String → String → QuotaInformation → Amount
amount c r q = or_default (find c r q.quota) q.default

get_amount-get_category :
    (c r : String) (q : QuotaInformation)
    → get_amount r (get_category c q.quota) q.default ≡ amount c r q
unfolding find
get_amount-get_category c r q = elim (Option-cases (lookup c q.quota)) [
  | inl e ↦ rw (e, get_category, find) refl
  | inr (m, e) ↦ rw (e, get_category, find) refl
]

find-combine :
    (c r : String) (op : Amount → Amount → Amount) (other : QuotaInformation)
    (q : List (String × Resources))
    → find c r (combine op other q) ≡ Option.map (λ v. op v (amount c r other)) (find c r q)
unfolding combine lookup find
find-combine c r op other [] = refl
find-combine c r op other ((j, m) ∷ q) =
    rw
      (
        find-cons c r j m q,
        find-cons c r j (combine_resources op (get_category j other.quota) other.default m)
            (combine op other q),
      )
      (elim (Bool-cases (j == c)) [
        | inl e ↦
            rw
              (
                e,
                (eq_iff j c).0 e,
                lookup-combine_resources r op (get_category c other.quota) other.default m,
                get_amount-get_category c r other,
              )
              refl
        | inr e ↦ rw e (find-combine c r op other q)
      ])

-- Where the operation starts: the first quota's number, or its default for a resource that only the
-- other has.
abbrev pub start : String → String → QuotaInformation → QuotaInformation → Option Amount
start c r q other = or_else (find c r q.quota) (has_resource c r other.quota) q.default

-- Every resource of either quota is combined with what the other counts of it, in both the sum and
-- the difference, and there is no further resource.
pub find-add_subtract :
    (op : Amount → Amount → Amount) (q other : QuotaInformation) (c r : String)
    → find c r (add_subtract op q other).quota
      ≡ Option.map (λ v. op v (amount c r other)) (start c r q other)
unfolding add_subtract
find-add_subtract op q other c r =
    rw
      (
        find-combine c r op other (extend q.default other.quota q.quota),
        find-extend c r q.default other.quota q.quota,
      )
      refl

lookup-all_non_negative :
    (r : String) (m : Resources) (v : Amount)
    → all_non_negative m ≡ true
    → lookup r m ≡ some v
    → is_negative v ≡ false
unfolding all_non_negative lookup
lookup-all_non_negative r [] v h e = cc
lookup-all_non_negative r ((j, w) ∷ m) v h e = ground (arith, lookup-all_non_negative r m v)

find-none_negative :
    (c r : String) (q : List (String × Resources)) (v : Amount)
    → none_negative q ≡ true
    → find c r q ≡ some v
    → is_negative v ≡ false
unfolding none_negative find lookup
find-none_negative c r [] v h e = cc
find-none_negative c r ((j, m) ∷ q) v h e =
    ground (arith, find-cons c r j m q, lookup-all_non_negative r m v, find-none_negative c r q v)

-- If nothing is negative after a subtraction, then what was subtracted fits into the quota, for
-- every resource that either of them names.
pub subtract-Fits :
    (q other : QuotaInformation) (c r : String) {v : Amount}
    → non_negative (subtract q other) ≡ true
    → start c r q other ≡ some v
    → Fits (amount c r other) v
unfolding non_negative subtract
subtract-Fits q other c r {v} h e = minus-Fits v (amount c r other) (
    find-none_negative c r (subtract q other).quota (minus v (amount c r other)) h
      (find-add_subtract minus q other c r ∙ ap (Option.map (λ w. minus w (amount c r other))) e))

some-ne-none : {v : Amount} → ¬ (some v ≡ none)
some-ne-none e = cc

lookup-insert :
    (k j : String) (v : Amount) (m : Resources)
    → j == k ≡ false
    → lookup k (insert j v m) ≡ lookup k m
unfolding lookup insert
lookup-insert k j v [] e = rw e refl
lookup-insert k j v ((i, w) ∷ m) e =
    ground (arith, e, eq_iff i j, eq_iff i k, eq_iff j k, lookup-insert k j v m e)

lookup-set_all :
    (k : String) (extra m : Resources)
    → lookup k extra ≡ none
    → lookup k (set_all extra m) ≡ lookup k m
unfolding set_all lookup
lookup-set_all k [] m e = refl
lookup-set_all k ((j, v) ∷ extra) m e = elim (Bool-cases (j == k)) [
  | inl same ↦ absurd (some-ne-none (rw same at e))
  | inr other ↦ lookup-set_all k extra (insert j v m) (rw other at e) ∙ lookup-insert k j v m other
]

-- A resource that is neither one of the three nor named is no key of a new quota.
pub find-quota_information :
    (cores instances ram : Option Amount) (default : Amount) (extra : Resources) (r : String)
    → lookup r extra ≡ none
    → elem r ("cores" ∷ "instances" ∷ "ram" ∷ []) ≡ false
    → find "compute" r (quota_information cores instances ram default extra).quota ≡ none
unfolding quota_information find lookup
find-quota_information cores instances ram default extra r e f =
    lookup-set_all r extra _ e ∙ ground (arith, f)
