-- ===== src/Prelude/Counts.antt =====
-- Python's `collections.Counter` over labels: how often a label occurs, and the positive difference.
use Prim.Native.Nat.{ℕ, zero, suc, ◌+◌, ◌-◌}
use Prim.Native.String.{String}
use mathlib.Core.Path.{◌≡◌, refl}
use mathlib.Core.Logic.{inl, inr}
use mathlib.Core.Bool.{false}
use mathlib.Core.List.{List, [], ◌∷◌, ◌++◌}
use native.Mathlib.Omega.{arith}
use text.Mathlib.Text.{◌==◌}
use text.Mathlib.TextEquality.{eq_iff}
use nodepool.Prelude.Tests.{if◌then◌else◌, Bool-cases}
use nodepool.Prelude.Lists.{replicate, elem}

abbrev pub count : String → List String → ℕ
count l [] = 0
count l (x ∷ xs) = (if x == l then 1 else 0) + count l xs

pub count-append : (l : String) (xs ys : List String) → count l (xs ++ ys) ≡ count l xs + count l ys
count-append l [] ys = omega arith
count-append l (x ∷ xs) ys = omega (arith, count-append l xs ys)

count-replicate : (l x : String) (n : ℕ) → count l (replicate n x) ≡ (if x == l then n else 0)
count-replicate l x zero = ground arith
count-replicate l x (suc n) = ground (arith, count-replicate l x n)

-- The keys of a Counter, in the order of their first occurrence after `seen`.
keys : List String → List String → List String
keys seen [] = []
keys seen (x ∷ xs) = if elem x seen then keys seen xs else x ∷ keys (x ∷ seen) xs

spread : (String → ℕ) → List String → List String
spread f [] = []
spread f (x ∷ xs) = replicate (f x) x ++ spread f xs

-- `list((Counter(requested) - Counter(saved)).elements())`
unfoldable pub counter_diff : List String → List String → List String
unfolding keys spread
counter_diff requested saved = spread (λ l. count l requested - count l saved) (keys [] requested)

-- A label that was seen is no key; another is one exactly if it occurs.
count-spread-keys :
    (f : String → ℕ) (l : String) (seen xs : List String)
    → count l (spread f (keys seen xs)) ≡ (if elem l seen then 0 else if elem l xs then f l else 0)
unfolding keys spread
count-spread-keys f l seen [] = ground arith
count-spread-keys f l seen (x ∷ xs) = elim (Bool-cases (elem x seen)) [
  | inl old ↦ rw old (ground (arith, count-spread-keys f l seen xs, eq_iff x l))
  | inr new ↦ rw new (
      ground (
        arith,
        count-append l (replicate (f x) x) (spread f (keys (x ∷ seen) xs)),
        count-replicate l x (f x),
        count-spread-keys f l (x ∷ seen) xs,
        eq_iff x l,
      ))
]

count_absent : (l : String) (xs : List String) → elem l xs ≡ false → count l xs ≡ 0
count_absent l [] h = refl
count_absent l (x ∷ xs) h = ground (arith, count_absent l xs)

-- A label is still needed as often as it is requested more often than it is saved.
pub count-counter_diff :
    (l : String) (requested saved : List String)
    → count l (counter_diff requested saved) ≡ count l requested - count l saved
unfolding counter_diff
count-counter_diff l requested saved = ground (
  arith,
  count-spread-keys (λ k. count k requested - count k saved) l [] requested,
  count_absent l requested,
)
