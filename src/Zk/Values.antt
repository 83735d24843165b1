-- ===== src/Zk/Values.antt =====
-- What an attribute may hold and what ZooKeeper stores for it. `json.dumps` and `json.loads` are
-- inverse on these values, so a stored znode is the dictionary itself.
use Prim.Native.Char.{code}
use nodepool.Prelude.{
  ℕ, zero, suc, ◌+◌, ◌-◌, ◌*◌, String, Bool, true, false, ◌&&◌, not, Option, some, none, List, [],
  ◌∷◌, leb, ◌==◌, if◌then◌else◌, is_empty, lookup, Result, ok, raise, type_error, ◌≡◌, refl,
}

-- `strs` is a list of strings, `ids` one that may hold nulls, `table` a flat dictionary of numbers, and `json` any other document,
-- by its text.
pub data Value : Type 0 where
  null : Value
  bool : Bool → Value
  num : ℕ → Value
  str : String → Value
  strs : List String → Value
  ids : List (Option String) → Value
  table : List (String × ℕ) → Value
  json : String → Value

abbrev pub Dict : Type 0
Dict = List (String × Value)

-- `bool(v)`.
abbrev pub truthy : Value → Bool
truthy null = false
truthy (bool b) = b
truthy (num zero) = false
truthy (num (suc n)) = true
truthy (str s) = not (s == "")
truthy (strs xs) = not (is_empty xs)
truthy (ids xs) = not (is_empty xs)
truthy (table xs) = not (is_empty xs)
truthy (json s) = true

-- `bool(a)` for an attribute that is a string or None.
abbrev pub is_set : Option String → Bool
is_set none = false
is_set (some s) = not (s == "")

-- `a or None` for such an attribute.
abbrev pub or_none : Option String → Option String
or_none a = if is_set a then a else none

-- `a == s` for such an attribute.
abbrev pub is_str : Option String → String → Bool
is_str none s = false
is_str (some t) s = t == s

abbrev pub of_str : Option String → Value
of_str none = null
of_str (some s) = str s

abbrev pub of_num : Option ℕ → Value
of_num none = null
of_num (some n) = num n

abbrev pub to_str : Value → Option String
to_str (str s) = some s
to_str _ = none

abbrev pub to_num : Value → Option ℕ
to_num (num n) = some n
to_num _ = none

abbrev pub to_strs : Value → List String
to_strs (strs xs) = xs
to_strs _ = []

abbrev pub to_ids : Value → List (Option String)
to_ids (ids xs) = xs
to_ids _ = []

abbrev pub to_bool : Value → Bool
to_bool (bool b) = b
to_bool _ = false

-- `d.get(k, default)`; the plain `d.get(k)` has the default None.
unfoldable pub get_or : String → Value → Dict → Value
unfolding lookup
get_or k default d = elim (lookup k d) [ none ↦ default | some v ↦ v ]

-- zookeeper.py, as_list. A tuple does not come out of JSON.
unfoldable pub as_list : Value → List String
as_list (str s) = if s == "" then [] else s ∷ []
as_list (strs xs) = xs
as_list _ = []

-- `int(s)` for a text of decimal digits; any other text is a ValueError, here `none`.
abbrev digits : ℕ → String → Option ℕ
digits acc String.[] = some acc
digits acc (String.◌∷◌ c s) =
    let rest = digits (acc * 10 + (code c - b'0')) s in
    if leb b'0' (code c) && leb (code c) b'9' then rest else none

unfoldable pub parse_int : String → Option ℕ
parse_int String.[] = none
parse_int (String.◌∷◌ c s) = digits 0 (String.◌∷◌ c s)

-- The coercion of hold_expiration: a ValueError gives 0, and a value that `int` does not take at
-- all is a TypeError.
unfoldable pub coerce_expiration : Value → Result (Option ℕ)
unfolding parse_int
coerce_expiration null = ok none
coerce_expiration (num n) = ok (some n)
coerce_expiration (bool b) = ok (some (if b then 1 else 0))
coerce_expiration (str s) = elim (parse_int s) [ none ↦ ok (some 0) | some n ↦ ok (some n) ]
coerce_expiration (strs xs) = raise type_error
coerce_expiration (ids xs) = raise type_error
coerce_expiration (table xs) = raise type_error
coerce_expiration (json s) = raise type_error

pub to_str-of_str : (o : Option String) → to_str (of_str o) ≡ o
to_str-of_str none = refl
to_str-of_str (some s) = refl

pub to_num-of_num : (o : Option ℕ) → to_num (of_num o) ≡ o
to_num-of_num none = refl
to_num-of_num (some n) = refl

pub ruleset value_laws = (to_str-of_str, to_num-of_num)
