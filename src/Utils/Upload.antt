-- ===== src/Utils/Upload.antt =====
-- The class ImageUploader of driver/utils.py: retry and the segments of _uploadInner.
use nodepool.Prelude.{
  ℕ, zero, suc, ◌+◌, ◌-◌, ◌*◌, ◌≤◌, Bool, false, not, Option, some, none, List, [], ◌∷◌, ◌++◌, ◌≡◌,
  refl, ap, ◌∙◌, leb, ltb, length, All, if◌then◌else◌, M, Result, ok, raise, Exception, arith,
  Bool-cases, inl, inr, ltb→lt, OnOk,
}

-- The class Segment.
pub record Segment : Type 0 where
  pub index : ℕ
  pub offset : ℕ
  pub bytes : List ℕ

-- `image_file.read(n)`, and what is left of the file.
unfoldable pub take : ℕ → List ℕ → List ℕ
take n [] = []
take zero (x ∷ xs) = []
take (suc n) (x ∷ xs) = x ∷ take n xs

unfoldable pub drop : ℕ → List ℕ → List ℕ
drop n [] = []
drop zero (x ∷ xs) = x ∷ xs
drop (suc n) (x ∷ xs) = drop n xs

-- `for index, offset in enumerate(range(0, size, segment_size))` with the reads, from an index and an
-- offset on. On fuel.
segments_from : ℕ → (segment_size size index offset : ℕ) → List ℕ → List Segment
unfolding take drop
segments_from zero n size index offset file = []
segments_from (suc fuel) n size index offset file =
    let rest = segments_from fuel n size (index + 1) (offset + n) (drop n file) in
    if ltb offset size
    then record { index = index; offset = offset; bytes = take n file } ∷ rest
    else []

-- The range has no more numbers than the size, for a segment size of at least one.
unfoldable pub segments : (segment_size size : ℕ) → List ℕ → List Segment
unfolding segments_from
segments n size file = segments_from size n size 0 0 file

abbrev pub joined : List Segment → List ℕ
joined [] = []
joined (s ∷ ss) = s.bytes ++ joined ss

-- A segment stands at its index, and is not longer than the segment size.
abbrev pub Fits : ℕ → Segment → Type 0
Fits n s = (s.offset ≡ s.index * n) × (length s.bytes ≤ n)

take-drop : (n : ℕ) (xs : List ℕ) → take n xs ++ drop n xs ≡ xs
unfolding take drop
take-drop n [] = refl
take-drop zero (x ∷ xs) = refl
take-drop (suc n) (x ∷ xs) = ap (λ ys. x ∷ ys) (take-drop n xs)

length-take : (n : ℕ) (xs : List ℕ) → length (take n xs) ≤ n
unfolding take
length-take n [] = omega arith
length-take zero (x ∷ xs) = omega arith
length-take (suc n) (x ∷ xs) = omega (arith, length-take n xs)

length-drop : (n : ℕ) (xs : List ℕ) → length (drop n xs) ≡ length xs - n
unfolding drop
length-drop n [] = omega arith
length-drop zero (x ∷ xs) = omega arith
length-drop (suc n) (x ∷ xs) = omega (arith, length-drop n xs)

length-zero : (xs : List ℕ) → length xs ≡ 0 → [] ≡ xs
length-zero [] e = refl
length-zero (x ∷ xs) e = absurd (omega (arith, e))

segments_from-joined :
    (fuel n size index offset : ℕ) (file : List ℕ)
    → 1 ≤ n
    → size - offset ≤ fuel
    → length file ≡ size - offset
    → offset ≡ index * n
    → (joined (segments_from fuel n size index offset file) ≡ file)
      × All (Fits n) (segments_from fuel n size index offset file)
unfolding segments_from
segments_from-joined zero n size index offset file p f l e = (length-zero file (omega arith), tt)
segments_from-joined (suc fuel) n size index offset file p f l e =
    elim (Bool-cases (ltb offset size)) [
      | inl h ↦
          let (whole, fit) =
            segments_from-joined fuel n size (index + 1) (offset + n) (drop n file) p
              (omega (arith, ltb→lt offset size h)) (omega (arith, length-drop n file))
              (omega (arith, e)) in
          rw h
            (ap (λ ys. take n file ++ ys) whole ∙ take-drop n file, ((e, length-take n file), fit))
      | inr h ↦ rw h (length-zero file (ground (arith, h, l)), tt)
    ]

-- For a segment size of at least one, and a file of the size that was read off it: the segments in
-- their order are the file, each is at its index times the segment size, and none is longer than that.
pub segments-joined :
    (n : ℕ) (file : List ℕ)
    → 1 ≤ n
    → (joined (segments n (length file) file) ≡ file) × All (Fits n) (segments n (length file) file)
unfolding segments
segments-joined n file p =
    segments_from-joined (length file) n (length file) 0 0 file p (omega arith) (omega arith)
      (omega arith)

abbrev pub error_retries : ℕ
error_retries = 3

module _ {S A : Type 0} (should_retry : Exception → Bool) (sleep : ℕ → S → S) where
  -- What an attempt came to, with the next rounds.
  tried : (x : ℕ) → Result A × S → Result (Option A) × S → Result (Option A) × S
  tried x (ok a, t) again = (ok (some a), t)
  tried x (raise e, t) again =
      if not (should_retry e)
      then (raise e, t)
      else if leb error_retries (x + 1)
      then (raise e, t)
      else again

  -- The rounds of retry from `x` on. Behind the last round None is returned.
  retry_from : (rounds x : ℕ) → M S A → M S (Option A)
  unfolding tried
  retry_from zero x func s = (ok none, s)
  retry_from (suc rounds) x func s =
      tried x (func s) (retry_from rounds (x + 1) func (sleep (2 * x) (func s).1))

  unfoldable pub retry : M S A → M S (Option A)
  unfolding retry_from
  retry = retry_from error_retries 0

  -- The outcome of some rounds, by a count of the calls.
  abbrev Bounded : (S → ℕ) → ℕ → Result (Option A) × S → Type 0
  Bounded calls n o = (calls o.1 ≤ n) × OnOk (λ v. (a : A) × (v ≡ some a)) o.0

  tried-Bounded :
      (calls : S → ℕ) (n x : ℕ) (o : Result A × S) (again : Result (Option A) × S)
      → calls o.1 ≤ n
      → (leb error_retries (x + 1) ≡ false → Bounded calls n again)
      → Bounded calls n (tried x o again)
  unfolding tried
  tried-Bounded calls n x (ok a, t) again h more = (h, (a, refl))
  tried-Bounded calls n x (raise e, t) again h more = elim (Bool-cases (not (should_retry e))) [
    | inl w ↦ rw w (h, tt)
    | inr w ↦ elim (Bool-cases (leb error_retries (x + 1))) [
      | inl l ↦ rw (w, l) (h, tt)
      | inr l ↦ rw (w, l) (more l)
    ]
  ]

  retry_from-Bounded :
      (rounds x : ℕ) (func : M S A) (calls : S → ℕ) (s : S)
      → ((t : S) → calls (func t).1 ≤ calls t + 1)
      → ((d : ℕ) (t : S) → calls (sleep d t) ≡ calls t)
      → rounds + x ≡ error_retries
      → 1 ≤ rounds
      → (n : ℕ) → calls s + rounds ≤ n
      → Bounded calls n (retry_from rounds x func s)
  unfolding retry_from
  retry_from-Bounded zero x func calls s one same e p n b = absurd (omega arith)
  retry_from-Bounded (suc rounds) x func calls s one same e p n b =
      tried-Bounded calls n x (func s) _ (omega (arith, one s)) (λ l.
        retry_from-Bounded rounds (x + 1) func calls (sleep (2 * x) (func s).1) one same
          (omega (arith, e)) (not_last l) n (omega (arith, same (2 * x) (func s).1, one s)))
    where
      not_last : leb error_retries (x + 1) ≡ false → 1 ≤ rounds
      not_last l = ground (arith, l, e)

  -- If a call of the function counts as one and a sleep as none, then retry calls it three times at
  -- most; and if it returns, it returns a value of the function and not None.
  pub retry-Bounded :
      (func : M S A) (calls : S → ℕ) (s : S)
      → ((t : S) → calls (func t).1 ≤ calls t + 1)
      → ((d : ℕ) (t : S) → calls (sleep d t) ≡ calls t)
      → (calls (retry func s).1 ≤ calls s + 3) × OnOk (λ v. (a : A) × (v ≡ some a)) (retry func s).0
  unfolding retry
  retry-Bounded func calls s one same =
      retry_from-Bounded 3 0 func calls s one same refl (omega arith) (calls s + 3) (omega arith)
