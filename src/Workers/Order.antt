-- ===== src/Workers/Order.antt =====
-- The order in which _assignHandlers of launcher.py looks at the requests, by the property priority of
-- the class NodeRequest of zk/zookeeper.py.
use Prim.Native.Char.{code}
use Prim.Native.String.{◌++◌, compare}
use Prim.Native.Nat.{Ordering}
use nodepool.Prelude.{
  ℕ, String, Bool, true, false, not, ◌&&◌, ◌||◌, List, [], ◌∷◌, elem, eqb, ltb, keep, length,
  if◌then◌else◌, Result, ok, raise, other, then_ok, ◌==◌,
}
use nodepool.Zk.Paths.{format_id}
use nodepool.Zk.Request.{NodeRequest}

-- `s.split('-')`
abbrev prepend : String → List String → List String
prepend c [] = c ∷ []
prepend c (part ∷ parts) = (c ++ part) ∷ parts

split_dash : String → List String
split_dash String.[] = "" ∷ []
split_dash (String.◌∷◌ c s) =
    if eqb (code c) b'-' then "" ∷ split_dash s else prepend (String.◌∷◌ c "") (split_dash s)

pub record Priority : Type 0 where
  pub precedence : String
  pub relative_priority : ℕ
  pub sequence : String

abbrev of_parts : ℕ → List String → Result Priority
of_parts relative (precedence ∷ sequence ∷ []) =
    ok (record { precedence = precedence; relative_priority = relative; sequence = sequence })
of_parts relative _ = raise other

-- The property priority; a ValueError if the id has not two parts.
unfoldable pub priority : NodeRequest → Result Priority
unfolding split_dash
priority req = of_parts req.relative_priority (split_dash (format_id req.id))

-- `a <= b` for strings, and for the tuples.
abbrev is_less : String → String → Bool
is_less a b = elim (compare a b) [ Ordering.lt ↦ true | _ ↦ false ]

unfoldable pub priority_le : Priority → Priority → Bool
priority_le a b =
    is_less a.precedence b.precedence
    || (a.precedence == b.precedence
        && (ltb a.relative_priority b.relative_priority
            || (eqb a.relative_priority b.relative_priority
                && not (is_less b.sequence a.sequence))))

-- A request with its sort key. The missing labels are a set.
pub record Keyed : Type 0 where
  pub request : NodeRequest
  pub missing : ℕ
  pub priority : Priority

abbrev distinct : List String → List String
distinct [] = []
distinct (x ∷ xs) = if elem x xs then distinct xs else x ∷ distinct xs

unfoldable pub missing_labels : (pool_labels types : List String) → List String
missing_labels pool_labels types = keep (λ t. not (elem t pool_labels)) (distinct types)

unfoldable pub keyed_le : Keyed → Keyed → Bool
unfolding priority_le
keyed_le a b =
    ltb a.missing b.missing || (eqb a.missing b.missing && priority_le a.priority b.priority)

insert_keyed : Keyed → List Keyed → List Keyed
unfolding keyed_le
insert_keyed a [] = a ∷ []
insert_keyed a (b ∷ bs) = if keyed_le a b then a ∷ b ∷ bs else b ∷ insert_keyed a bs

-- The keys of all requests are computed; one that cannot be raises.
insert_request : List String → NodeRequest → List Keyed → Result (List Keyed)
unfolding insert_keyed missing_labels
insert_request pool_labels req sorted = then_ok (priority req) (λ p. ok (
    insert_keyed
      (record {
        request = req;
        missing = length (missing_labels pool_labels req.node_types);
        priority = p;
      })
      sorted))

-- `sorted(requests, key=_sort_key)`
unfoldable pub sort_requests : List String → List NodeRequest → Result (List Keyed)
unfolding insert_request
sort_requests pool_labels [] = ok []
sort_requests pool_labels (q ∷ qs) =
    then_ok (sort_requests pool_labels qs) (insert_request pool_labels q)
