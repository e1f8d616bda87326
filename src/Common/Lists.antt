-- ===== src/Common/Lists.antt =====
-- Lists measured by native numbers, `filter` by a Boolean test, and predicates on all elements.
use Prim.Native.Nat.{ℕ, suc, ◌+◌}
use mathlib.Core.Path.{◌≡◌, refl}
use mathlib.Core.Logic.{◌⊎◌, inl, inr}
use mathlib.Core.Bool.{Bool, true, false, cond, ◌||◌, not}
use mathlib.Core.Option.{Option, none, some}
use mathlib.Core.List.{List, [], ◌∷◌, ◌++◌}
use native.Mathlib.Omega.{arith}
use owncloud_sync_client.Common.Equality.{Bool-cases, Eq, contains, ◌==◌}

module _ {ℓ} {A : Type ℓ} where
  abbrev pub length : List A → ℕ
  length [] = 0
  length (x ∷ xs) = suc (length xs)

  abbrev pub is_empty : List A → Bool
  is_empty [] = true
  is_empty (x ∷ xs) = false

  -- `Iterator::filter`, and `Vec::retain` for its result.
  abbrev pub keep : (A → Bool) → List A → List A
  keep p [] = []
  keep p (x ∷ xs) = let rest = keep p xs in cond (p x) (x ∷ rest) rest

  -- `Iterator::find`
  abbrev pub find : (A → Bool) → List A → Option A
  find p [] = none
  find p (x ∷ xs) = let rest = find p xs in cond (p x) (some x) rest

  -- `Iterator::any`
  abbrev pub any : (A → Bool) → List A → Bool
  any p [] = false
  any p (x ∷ xs) = p x || any p xs

  -- `iter_mut().find(p)` with a change of that element in place.
  abbrev pub modify_first : (A → Bool) → (A → A) → List A → List A
  modify_first p f [] = []
  modify_first p f (x ∷ xs) = let rest = modify_first p f xs in cond (p x) (f x ∷ xs) (x ∷ rest)

  -- The number of elements that pass: `filter(..).count()`.
  abbrev pub count : (A → Bool) → List A → ℕ
  count p [] = 0
  count p (x ∷ xs) = let rest = count p xs in cond (p x) (suc rest) rest

  pub length-append : (xs ys : List A) → length (xs ++ ys) ≡ length xs + length ys
  length-append [] ys = omega arith
  length-append (x ∷ xs) ys = omega (arith, length-append xs ys)

  pub length-keep-partition :
      (p : A → Bool) (xs : List A)
      → length (keep p xs) + length (keep (λ x. not (p x)) xs) ≡ length xs
  length-keep-partition p [] = refl
  length-keep-partition p (x ∷ xs) = ground (arith, length-keep-partition p xs)

module _ {ℓ κ} {A : Type ℓ} (P : A → Type κ) where
  abbrev pub All : List A → Type κ
  All [] = Unit
  All (x ∷ xs) = P x × All xs

  pub All-append : (xs ys : List A) → All xs → All ys → All (xs ++ ys)
  All-append [] ys h k = k
  All-append (x ∷ xs) ys (p, h) k = (p, All-append xs ys h k)

module _ {ℓ} {A : Type ℓ} (P : A → Type 0) where
  abbrev pub Any : List A → Type 0
  Any [] = ⊥
  Any (x ∷ xs) = P x ⊎ Any xs

module _ {ℓ} {A : Type ℓ} where
  pub All-map {κ μ} :
      {P : A → Type κ} {Q : A → Type μ} (f : (x : A) → P x → Q x) (xs : List A)
      → All P xs
      → All Q xs
  All-map f [] h = tt
  All-map f (x ∷ xs) h = (f x h.0, All-map f xs h.1)

  pub All-of_keep {κ} :
      (P : A → Type κ) (test : A → Bool) (xs : List A)
      → All P (keep test xs)
      → All (λ (x : A). test x ≡ true → P x) xs
  All-of_keep P test [] h = tt
  All-of_keep P test (x ∷ xs) h = elim (Bool-cases (test x)) [
    | inl e ↦
        let h' : All P (x ∷ keep test xs) = rw e at h in ((λ _. h'.0), All-of_keep P test xs h'.1)
    | inr e ↦
        let h' : All P (keep test xs) = rw e at h in
        ((λ t. absurd (cc (t, e))), All-of_keep P test xs h')
  ]

  pub Any-of_keep :
      (P : A → Type 0) (test : A → Bool) (xs : List A)
      → Any P (keep test xs)
      → Any (λ (x : A). (test x ≡ true) × P x) xs
  Any-of_keep P test [] h = h
  Any-of_keep P test (x ∷ xs) h = elim (Bool-cases (test x)) [
    | inl e ↦
        let h' : P x ⊎ Any P (keep test xs) = rw e at h in
        elim h' [ inl p ↦ inl (e, p) | inr more ↦ inr (Any-of_keep P test xs more) ]
    | inr e ↦ let h' : Any P (keep test xs) = rw e at h in inr (Any-of_keep P test xs h')
  ]

module _ {ℓ} {A : Type ℓ} ⦃e : Eq A⦄ where
  pub contains-append_last :
      (xs : List A) (x y : A) → contains (xs ++ y ∷ []) x ≡ (contains xs x || x == y)
  contains-append_last [] x y = ground arith
  contains-append_last (z ∷ xs) x y = ground (arith, contains-append_last xs x y)

  -- Elements that a filter passes are still in the list after it.
  pub contains-keep :
      (p : A → Bool) (xs : List A) (x : A) → p x ≡ true → contains (keep p xs) x ≡ contains xs x
  contains-keep p [] x h = refl
  contains-keep p (y ∷ xs) x h = ground (arith, contains-keep p xs x h)

module _ {ℓ} {A : Type ℓ} where
  pub count-append : (p : A → Bool) (xs ys : List A) → count p (xs ++ ys) ≡ count p xs + count p ys
  count-append p [] ys = omega arith
  count-append p (x ∷ xs) ys = ground (arith, count-append p xs ys)
