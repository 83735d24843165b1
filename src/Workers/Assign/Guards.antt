-- ===== src/Workers/Assign/Guards.antt =====
-- Guards of _assignHandlers of launcher.py on the candidates among the pools, pool by pool.
use nodepool.Prelude.{
  Bool, true, false, not, ◌&&◌, ◌||◌, List, [], ◌∷◌, keep, any, all, is_empty, All, ◌≡◌, refl, sym,
  ◌∙◌, inl, inr, Bool-cases, arith, false-ne-true,
}

module _ {A : Type 0} where
  pub all-All : (p : A → Bool) (xs : List A) → all p xs ≡ true → All (λ x. p x ≡ true) xs
  all-All p [] e = tt
  all-All p (x ∷ xs) e = (ground (arith, e), all-All p xs (ground (arith, e)))

  pub All-all : (p : A → Bool) (xs : List A) → All (λ x. p x ≡ true) xs → all p xs ≡ true
  All-all p [] h = refl
  All-all p (x ∷ xs) (a, h) = ground (arith, a, All-all p xs h)

  pub All-map : (P Q : A → Type 0) (xs : List A) → ((x : A) → P x → Q x) → All P xs → All Q xs
  All-map P Q [] f h = tt
  All-map P Q (x ∷ xs) f (a, h) = (f x a, All-map P Q xs f h)

-- The three guards on the candidates, and what they say of each pool.
module _ {A : Type 0} (other has_labels : Bool) (asked first candidate : A → Bool) where
  pub record Guards (xs : List A) : Type 0 where
    pub provider : other && any asked (keep candidate xs) ≡ false
    pub priority : any first (keep candidate xs) ≡ false
    pub labels : not has_labels && not (is_empty (keep candidate xs)) ≡ false

  abbrev pub Gives : A → Type 0
  Gives x = (has_labels ≡ true) × (first x ≡ false) × (other && asked x ≡ false)

  pub Guards-All : (xs : List A) → Guards xs → All (λ x. candidate x ≡ true → Gives x) xs
  Guards-All [] g = tt
  Guards-All (x ∷ xs) g = elim (Bool-cases (candidate x)) [
    | inl hit ↦
        let a : other && (asked x || any asked (keep candidate xs)) ≡ false =
          rw hit at g.provider in
        let b : first x || any first (keep candidate xs) ≡ false = rw hit at g.priority in
        let d : not has_labels && true ≡ false = rw hit at g.labels in
        (
          λ h. (ground (arith, d), ground (arith, b), ground (arith, a)),
          Guards-All xs (record {
            provider = ground (arith, a);
            priority = ground (arith, b);
            labels = ground (arith, d);
          }),
        )
    | inr miss ↦ (
      λ h. absurd (false-ne-true (sym miss ∙ h)),
      Guards-All xs (record {
        provider = rw miss at g.provider;
        priority = rw miss at g.priority;
        labels = rw miss at g.labels;
      }),
    )
  ]

  pub All-Guards : (xs : List A) → All (λ x. candidate x ≡ true → Gives x) xs → Guards xs
  All-Guards [] h = record { provider = ground arith; priority = refl; labels = ground arith }
  All-Guards (x ∷ xs) (gives, h) = elim (Bool-cases (candidate x)) [
    | inl hit ↦
        let (a, b, d) = gives hit in
        let g = All-Guards xs h in
        record {
          provider = rw hit (ground (arith, d, g.provider));
          priority = rw hit (ground (arith, b, g.priority));
          labels = rw hit (ground (arith, a));
        }
    | inr miss ↦
        let g = All-Guards xs h in
        record {
          provider = rw miss g.provider;
          priority = rw miss g.priority;
          labels = rw miss g.labels;
        }
  ]
