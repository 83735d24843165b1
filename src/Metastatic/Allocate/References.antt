-- ===== src/Metastatic/Allocate/References.antt =====
-- Lists of references: the ones that differ, and what putting in one more does.
use nodepool.Prelude.{
  ℕ, ◌<◌, String, true, false, some, none, List, [], ◌∷◌, ◌++◌, ◌≡◌, sym, subst, All, eqb, arith,
  inl, inr, Bool-cases, ◌⊎◌, ◌==◌, lookup, lookup,
}
use nodepool.Metastatic.{references}
use nodepool.Metastatic.Requests.{append_reference}

abbrev pub NotIn : ℕ → List ℕ → Type 0
NotIn r rs = All (λ i. eqb i r ≡ false) rs

abbrev pub IsIn : ℕ → List ℕ → Type 0
IsIn r [] = ⊥
IsIn r (x ∷ xs) = (eqb x r ≡ true) ⊎ IsIn r xs

abbrev pub Distinct : List ℕ → Type 0
Distinct [] = Unit
Distinct (r ∷ rs) = NotIn r rs × Distinct rs

-- `ys` is `xs` with `r` put in somewhere.
pub data Inserted (r : ℕ) : List ℕ → List ℕ → Type 0 where
  here : {xs : List ℕ} → Inserted r xs (r ∷ xs)
  there : {x : ℕ} {xs ys : List ℕ} → Inserted r xs ys → Inserted r (x ∷ xs) (x ∷ ys)

pub eqb-eq : (a b : ℕ) → eqb a b ≡ true → a ≡ b
eqb-eq a b h = ground arith

pub eqb_refl : (a : ℕ) → eqb a a ≡ true
eqb_refl a = ground arith

pub eqb-ne_of_lt : (i r : ℕ) → i < r → eqb i r ≡ false
eqb-ne_of_lt i r h = ground arith

pub NotIn-Below : (r : ℕ) (rs : List ℕ) → All (λ i. i < r) rs → NotIn r rs
NotIn-Below r [] h = tt
NotIn-Below r (x ∷ xs) h = (eqb-ne_of_lt x r h.0, NotIn-Below r xs h.1)

pub Distinct-outer : {r : ℕ} {xs ys : List ℕ} → Inserted r xs ys → Distinct ys → Distinct xs
Distinct-outer here d = d.1
Distinct-outer (there {x = x} i) d = (NotIn-outer x i d.0, Distinct-outer i d.1)
  where
    NotIn-outer : (y : ℕ) {s : ℕ} {xs ys : List ℕ} → Inserted s xs ys → NotIn y ys → NotIn y xs
    NotIn-outer y here n = n.1
    NotIn-outer y (there i) n = (n.0, NotIn-outer y i n.1)

pub Below-outer :
    (n : ℕ) {r : ℕ} {xs ys : List ℕ} → Inserted r xs ys → All (λ i. i < n) ys → All (λ i. i < n) xs
Below-outer n here h = h.1
Below-outer n (there i) h = (h.0, Below-outer n i h.1)

IsIn-append : (r : ℕ) (xs ys : List ℕ) → IsIn r xs → IsIn r (xs ++ ys)
IsIn-append r [] ys i = absurd i
IsIn-append r (x ∷ xs) ys (inl e) = inl e
IsIn-append r (x ∷ xs) ys (inr i) = inr (IsIn-append r xs ys i)

IsIn-append_left : (r : ℕ) (xs ys : List ℕ) → IsIn r ys → IsIn r (xs ++ ys)
IsIn-append_left r [] ys i = i
IsIn-append_left r (x ∷ xs) ys i = inr (IsIn-append_left r xs ys i)

pub IsIn-lookup :
    (l : String) (r : ℕ) (rs : List ℕ) (m : List (String × List ℕ))
    → lookup l m ≡ some rs
    → IsIn r rs
    → IsIn r (references m)
unfolding lookup references
IsIn-lookup l r rs [] e i = absurd (none-ne-some e)
  where
    none-ne-some : ¬ (none ≡ some rs)
    none-ne-some e = cc
IsIn-lookup l r rs ((j, xs) ∷ m) e i = elim (Bool-cases (j == l)) [
  | inl h ↦
      IsIn-append r xs (references m) (subst (λ ys. IsIn r ys) (sym (some-eq xs rs (rw h at e))) i)
  | inr h ↦ IsIn-append_left r xs (references m) (IsIn-lookup l r rs m (rw h at e) i)
]
  where
    some-eq : (xs ys : List ℕ) → some xs ≡ some ys → xs ≡ ys
    some-eq xs ys e = cc

pub Distinct-Inserted :
    {r : ℕ} {xs ys : List ℕ} → Inserted r xs ys → Distinct xs → NotIn r xs → Distinct ys
Distinct-Inserted here d n = (n, d)
Distinct-Inserted {r} (there {x = x} i) d n =
    (NotIn-Inserted x i d.0 (ground (arith, n.0)), Distinct-Inserted i d.1 n.1)
  where
    NotIn-Inserted :
        (y : ℕ) {s : ℕ} {xs ys : List ℕ}
        → Inserted s xs ys
        → NotIn y xs
        → eqb s y ≡ false
        → NotIn y ys
    NotIn-Inserted y here n e = (e, n)
    NotIn-Inserted y (there i) n e = (n.0, NotIn-Inserted y i n.1 e)

pub IsIn-Inserted : {r : ℕ} {xs ys : List ℕ} → Inserted r xs ys → IsIn r ys
IsIn-Inserted {r} here = inl (eqb_refl r)
IsIn-Inserted (there i) = inr (IsIn-Inserted i)

pub Below-Inserted :
    {r n : ℕ} {xs ys : List ℕ}
    → Inserted r xs ys
    → All (λ i. i < n) xs
    → r < n
    → All (λ i. i < n) ys
Below-Inserted here h l = (l, h)
Below-Inserted (there i) h l = (h.0, Below-Inserted i h.1 l)

Inserted-snoc : (r : ℕ) (xs ys : List ℕ) → Inserted r (xs ++ ys) ((xs ++ r ∷ []) ++ ys)
Inserted-snoc r [] ys = here
Inserted-snoc r (x ∷ xs) ys = there (Inserted-snoc r xs ys)

pub Inserted-append :
    {r : ℕ} (zs : List ℕ) {xs ys : List ℕ} → Inserted r xs ys → Inserted r (zs ++ xs) (zs ++ ys)
Inserted-append [] i = i
Inserted-append (z ∷ zs) i = there (Inserted-append zs i)

pub references-append_reference :
    (l : String) (r : ℕ) (m : List (String × List ℕ))
    → Inserted r (references m) (references (append_reference l r m))
unfolding references append_reference
references-append_reference l r [] = here
references-append_reference l r ((j, rs) ∷ m) = elim (Bool-cases (j == l)) [
  | inl e ↦ rw e (Inserted-snoc r rs (references m))
  | inr e ↦ rw e (Inserted-append rs (references-append_reference l r m))
]
