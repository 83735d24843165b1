-- ===== src/Driver/Handler/Rules.antt =====
-- Proof rules for the statements of a handler: what holds behind a call of the services, whatever
-- it answers.
use nodepool.Prelude.{
  List, [], ◌∷◌, for_each, Bool, true, false, M, Result, ok, raise, Exception, ◌≡◌, refl, ◌>>=◌,
  on_right, if◌then◌else◌, attempt,
}
use nodepool.Zk.Node.{Node}
use nodepool.Driver.Handler.{Handler, Run, with_node}

-- `Q` holds of the outcome of `m` at `t`.
abbrev pub Ends : {T A : Type 0} → (Result A → T → Type 0) → Result A × T → Type 0
Ends Q (r, t) = Q r t

module _ {T A B : Type 0} where
  -- The second statement runs where the first ends, unless that raises.
  pub bind_rule :
      (P : Result A → T → Type 0) (Q : Result B → T → Type 0) (m : M T A) (f : A → M T B) (t : T)
      → Ends P (m t)
      → ((e : Exception) (u : T) → P (raise e) u → Q (raise e) u)
      → ((a : A) (u : T) → P (ok a) u → Ends Q (f a u))
      → Ends Q ((m >>= f) t)
  bind_rule P Q m f t p raised returned = go (m t).0 refl p
    where
      go : (r : Result A) → (m t).0 ≡ r → P (m t).0 (m t).1 → Ends Q ((m >>= f) t)
      go (ok a) e h = rw (e, ◌>>=◌) (returned a (m t).1 (rw e at h))
      go (raise x) e h = rw (e, ◌>>=◌) (raised x (m t).1 (rw e at h))

module _ {S A : Type 0} where
  pub if_rule :
      (Q : Result A → S → Type 0) (b : Bool) (x y : M S A) (t : S)
      → (b ≡ true → Ends Q (x t))
      → (b ≡ false → Ends Q (y t))
      → Ends Q ((if b then x else y) t)
  if_rule Q true x y t p q = p refl
  if_rule Q false x y t p q = q refl

-- What a loop keeps.
module _ {T A : Type 0} (P : T → Type 0) where
  pub for_each_rule :
      (xs : List A) (body : A → M T (Unit {0})) (t : T)
      → ((x : A) (u : T) → P u → Ends (λ r w. P w) (body x u))
      → P t
      → Ends (λ r w. P w) (for_each xs body t)
  for_each_rule [] body t keep h = h
  for_each_rule (x ∷ xs) body t keep h =
      bind_rule (λ r w. P w) (λ r w. P w) (body x) _ t (keep x t h) (λ e u k. k)
        (λ y u k. for_each_rule xs body u keep k)

module _ {S B : Type 0} (Q : Result B → Handler × S → Type 0) where
  -- A call on a node: the handler is as before, the node is any.
  pub with_node_rule :
      (op : M (Node × S) (Unit {0})) (n : Node) (f : Node → Run S B) (h : Handler) (s : S)
      → ((e : Exception) (t : S) → Q (raise e) (h, t))
      → ((m : Node) (t : S) → Ends Q (f m (h, t)))
      → Ends Q ((with_node op n >>= f) (h, s))
  with_node_rule op n f h s raised returned = go (op (n, s)).0 refl
    where
      go : (r : Result (Unit {0})) → (op (n, s)).0 ≡ r → Ends Q ((with_node op n >>= f) (h, s))
      go (ok u) e = rw (with_node, e, ◌>>=◌) (returned (op (n, s)).1.0 (op (n, s)).1.1)
      go (raise x) e = rw (with_node, e, ◌>>=◌) (raised x (op (n, s)).1.1)

  -- A call that has nothing of the handler.
  pub on_right_rule :
      {A : Type 0} (m : M S A) (f : A → Run S B) (h : Handler) (s : S)
      → ((e : Exception) (t : S) → Q (raise e) (h, t))
      → ((a : A) (t : S) → Ends Q (f a (h, t)))
      → Ends Q ((on_right m >>= f) (h, s))
  on_right_rule {A} m f h s raised returned = go (m s).0 refl
    where
      go : (r : Result A) → (m s).0 ≡ r → Ends Q ((on_right m >>= f) (h, s))
      go (ok a) e = rw (e, ◌>>=◌) (returned a (m s).1)
      go (raise x) e = rw (e, ◌>>=◌) (raised x (m s).1)

  -- The same where the outcome is looked at.
  pub attempt_node_rule :
      (op : M (Node × S) (Unit {0})) (n : Node) (f : Result Node → Run S B) (h : Handler) (s : S)
      → ((r : Result Node) (t : S) → Ends Q (f r (h, t)))
      → Ends Q ((attempt (with_node op n) >>= f) (h, s))
  attempt_node_rule op n f h s looked = go (op (n, s)).0 refl
    where
      go :
          (r : Result (Unit {0}))
          → (op (n, s)).0 ≡ r
          → Ends Q ((attempt (with_node op n) >>= f) (h, s))
      go (ok u) e = rw (with_node, e, ◌>>=◌) (looked (ok (op (n, s)).1.0) (op (n, s)).1.1)
      go (raise x) e = rw (with_node, e, ◌>>=◌) (looked (raise x) (op (n, s)).1.1)
