-- ===== src/Zk/Cache/Keys.antt =====
-- The dictionary of cached objects by their keys, and the set of cached paths.
use nodepool.Prelude.{
  String, Bool, true, false, not, some, none, List, [], ◌∷◌, ◌≡◌, refl, sym, subst, ◌∙◌, elem, keep,
  if◌then◌else◌, ◌==◌, eq_iff, eq_refl, arith, inl, inr, Bool-cases, false-ne-true,
}
use nodepool.Zk.Parse.{Key}
use nodepool.Zk.Cache.{key_eq, get_key, set_key, delete_key, Kind, put_path}

pub key_eq_refl : (k : Key) → key_eq k k ≡ true
key_eq_refl [] = refl
key_eq_refl (a ∷ k) = rw (eq_refl a) (key_eq_refl k)

pub key_eq→eq : (j k : Key) → key_eq j k ≡ true → j ≡ k
key_eq→eq [] [] h = refl
key_eq→eq [] (b ∷ k) h = cc
key_eq→eq (a ∷ j) [] h = cc
key_eq→eq (a ∷ j) (b ∷ k) h = ground (arith, eq_iff a b, key_eq→eq j k)

key_eq_apart : (i j k : Key) → key_eq i j ≡ false → key_eq i k ≡ true → key_eq j k ≡ false
key_eq_apart i j k e f = elim (Bool-cases (key_eq j k)) [
  | inl g ↦
      absurd (false-ne-true (sym e ∙ subst (λ l. key_eq i l ≡ true) (sym (key_eq→eq j k g)) f))
  | inr g ↦ g
]

module _ {V : Type 0} where
  pub get_key-set_key :
      (k j : Key) (v : V) (m : List (Key × V))
      → get_key k (set_key j v m) ≡ (if key_eq j k then some v else get_key k m)
  unfolding get_key set_key
  get_key-set_key k j v [] = refl
  get_key-set_key k j v ((i, w) ∷ m) = elim (Bool-cases (key_eq i j)) [
    | inl e ↦
        rw (e, key_eq→eq i j e)
          (elim (Bool-cases (key_eq j k)) [ inl x ↦ rw x refl | inr x ↦ rw x refl ])
    | inr e ↦ rw e (elim (Bool-cases (key_eq i k)) [
      | inl f ↦ rw (f, key_eq_apart i j k e f) refl
      | inr f ↦ rw f (get_key-set_key k j v m)
    ])
  ]

  pub get_key-delete_key :
      (k j : Key) (m : List (Key × V))
      → get_key k (delete_key j m) ≡ (if key_eq j k then none else get_key k m)
  unfolding get_key delete_key
  get_key-delete_key k j [] = elim (Bool-cases (key_eq j k)) [
    | inl x ↦ rw x refl
    | inr x ↦ rw x refl
  ]
  get_key-delete_key k j ((i, w) ∷ m) = elim (Bool-cases (key_eq i j)) [
    | inl e ↦
        rw (e, key_eq→eq i j e, get_key-delete_key k j m)
          (elim (Bool-cases (key_eq j k)) [ inl x ↦ rw x refl | inr x ↦ rw x refl ])
    | inr e ↦ rw e (elim (Bool-cases (key_eq i k)) [
      | inl f ↦ rw (f, key_eq_apart i j k e f) refl
      | inr f ↦ rw f (get_key-delete_key k j m)
    ])
  ]

-- A path in the set of paths.
pub elem-put_path :
    {O : Type 0} (c : Kind O) (p q : String) (b : Bool) (paths : List String)
    → elem q (put_path c p b paths) ≡ (if p == q then b else elem q paths)
elem-put_path c p q true paths = ground (arith, eq_iff p q)
elem-put_path c p q false paths = elem-keep paths
  where
    elem-keep :
        (xs : List String)
        → elem q (keep (λ x. not (x == p)) xs) ≡ (if p == q then false else elem q xs)
    elem-keep [] = elim (Bool-cases (p == q)) [ inl e ↦ rw e refl | inr e ↦ rw e refl ]
    elem-keep (x ∷ xs) = ground (arith, eq_iff x p, eq_iff x q, eq_iff p q, elem-keep xs)
