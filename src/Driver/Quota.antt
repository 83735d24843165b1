-- ===== src/Driver/Quota.antt =====
-- The class QuotaInformation of driver/utils.py.
pub mod Laws
use nodepool.Prelude.{
  ℕ, String, Bool, true, false, not, ◌&&◌, ◌||◌, Option, some, none, List, [], ◌∷◌, ◌==◌,
  if◌then◌else◌, lookup, insert, all,
}
use nodepool.Prelude.Amount.{Amount, fin, infinite, pos, plus, minus, is_negative}

abbrev pub Resources : Type 0
Resources = List (String × Amount)

-- `quota` maps a category to its resources.
pub record QuotaInformation : Type 0 where
  pub quota : List (String × Resources)
  pub default : Amount

abbrev or_default : Option Amount → Amount → Amount
or_default none default = default
or_default (some v) default = v

-- The extra keyword arguments overwrite or extend the three fixed ones.
set_all : Resources → Resources → Resources
unfolding insert
set_all [] m = m
set_all ((r, v) ∷ extra) m = set_all extra (insert r v m)

unfoldable pub quota_information :
    (cores instances ram : Option Amount) (default : Amount) → Resources → QuotaInformation
unfolding set_all
quota_information cores instances ram default extra = record {
  quota =
      (
        "compute",
        set_all extra (
            ("cores", or_default cores default)
            ∷ ("instances", or_default instances default)
            ∷ ("ram", or_default ram default)
            ∷ []),
      )
      ∷ [];
  default = default;
}

-- `m.setdefault(k, v)`
set_default : String → Amount → Resources → Resources
set_default k v [] = (k, v) ∷ []
set_default k v ((j, w) ∷ m) = if j == k then (j, w) ∷ m else (j, w) ∷ set_default k v m

set_defaults : Amount → Resources → Resources → Resources
unfolding set_default
set_defaults default [] m = m
set_defaults default ((r, _) ∷ other) m = set_defaults default other (set_default r default m)

-- `self.quota.setdefault(category, {})`, and the defaults of that category's resources.
extend_category :
    Amount → String → Resources → List (String × Resources) → List (String × Resources)
unfolding set_defaults
extend_category default c other [] = (c, set_defaults default other []) ∷ []
extend_category default c other ((j, m) ∷ q) =
    if j == c
    then (j, set_defaults default other m) ∷ q
    else (j, m) ∷ extend_category default c other q

-- The first loop of _add_subtract.
extend : Amount → List (String × Resources) → List (String × Resources) → List (String × Resources)
unfolding extend_category
extend default [] q = q
extend default ((c, other) ∷ rest) q = extend default rest (extend_category default c other q)

abbrev get_amount : String → Resources → Amount → Amount
get_amount r m default = or_default (lookup r m) default

abbrev get_category : String → List (String × Resources) → Resources
get_category c q = elim (lookup c q) [ none ↦ [] | some m ↦ m ]

combine_resources : (Amount → Amount → Amount) → Resources → Amount → Resources → Resources
unfolding lookup
combine_resources op other default [] = []
combine_resources op other default ((r, v) ∷ m) =
    (r, op v (get_amount r other default)) ∷ combine_resources op other default m

-- The second loop.
combine :
    (Amount → Amount → Amount)
    → QuotaInformation
    → List (String × Resources)
    → List (String × Resources)
unfolding combine_resources lookup
combine op other [] = []
combine op other ((c, m) ∷ q) =
    (c, combine_resources op (get_category c other.quota) other.default m) ∷ combine op other q

unfoldable pub add_subtract :
    (Amount → Amount → Amount) → QuotaInformation → QuotaInformation → QuotaInformation
unfolding combine extend
add_subtract op q other = record q {
  quota = combine op other (extend q.default other.quota q.quota);
}

unfoldable pub subtract : QuotaInformation → QuotaInformation → QuotaInformation
unfolding add_subtract minus
subtract = add_subtract minus

unfoldable pub add : QuotaInformation → QuotaInformation → QuotaInformation
unfolding add_subtract plus
add = add_subtract plus

all_non_negative : Resources → Bool
unfolding is_negative
all_non_negative [] = true
all_non_negative ((r, v) ∷ m) = not (is_negative v) && all_non_negative m

none_negative : List (String × Resources) → Bool
unfolding all_non_negative
none_negative [] = true
none_negative ((c, m) ∷ q) = all_non_negative m && none_negative q

unfoldable pub non_negative : QuotaInformation → Bool
unfolding none_negative
non_negative q = none_negative q.quota

unfoldable pub get_resources : QuotaInformation → Resources
unfolding lookup
get_resources q = get_category "compute" q.quota

-- from_resources: the new object's one category becomes the given dictionary.
unfoldable pub from_resources : Resources → QuotaInformation
from_resources resources = record { quota = ("compute", resources) ∷ []; default = fin (pos 0) }
