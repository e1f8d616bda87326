-- ===== src/Common/Dict.antt =====
-- Maps as association lists: `HashMap`, and a table with a primary key.
-- Iteration follows the order of insertion here, and is in no fixed order in the code.
use mathlib.Core.Path.{◌≡◌, refl}
use mathlib.Core.Logic.{◌≢◌}
use mathlib.Core.Option.{Option, none, some}
use mathlib.Core.List.{List, [], ◌∷◌}
use native.Mathlib.Omega.{arith}
use owncloud_sync_client.Common.Equality.{Eq, ◌==◌, eq_self, ne_to_test, if◌then◌else◌}

abbrev pub Dict {ℓ κ} : Type ℓ → Type κ → Type (ℓ ⊔ κ)
Dict K V = List (K × V)

abbrev pub keys {ℓ κ} : {K : Type ℓ} {V : Type κ} → Dict K V → List K
keys [] = []
keys ((k, v) ∷ d) = k ∷ keys d

abbrev pub map_some {ℓ κ} : {A : Type ℓ} {B : Type κ} → (A → B) → Option A → Option B
map_some f none = none
map_some f (some v) = some (f v)

module _ {ℓ κ} {K : Type ℓ} {V : Type κ} ⦃e : Eq K⦄ where
  unfoldable pub get : K → Dict K V → Option V
  get k [] = none
  get k ((j, v) ∷ d) = if k == j then some v else get k d

  unfoldable pub insert : K → V → Dict K V → Dict K V
  insert k v [] = (k, v) ∷ []
  insert k v ((j, w) ∷ d) = if k == j then (k, v) ∷ d else (j, w) ∷ insert k v d

  unfoldable pub remove : K → Dict K V → Dict K V
  remove k [] = []
  remove k ((j, w) ∷ d) = let rest = remove k d in if k == j then rest else (j, w) ∷ rest

  -- `get_mut` with an update in place: nothing happens where the key is missing.
  unfoldable pub modify : K → (V → V) → Dict K V → Dict K V
  modify k f [] = []
  modify k f ((j, w) ∷ d) = if k == j then (j, f w) ∷ d else (j, w) ∷ modify k f d

  pub get-nil : (k : K) → get k [] ≡ none
  unfolding get
  get-nil k = refl

  pub get-insert :
      (j k : K) (v : V) (d : Dict K V) → get j (insert k v d) ≡ (if j == k then some v else get j d)
  unfolding get insert
  get-insert j k v [] = ground arith
  get-insert j k v (_ ∷ d) = ground (arith, get-insert j k v d)

  pub get-remove :
      (j k : K) (d : Dict K V) → get j (remove k d) ≡ (if j == k then none else get j d)
  unfolding get remove
  get-remove j k [] = ground arith
  get-remove j k (_ ∷ d) = ground (arith, get-remove j k d)

  pub get-insert_self : (k : K) (v : V) (d : Dict K V) → get k (insert k v d) ≡ some v
  get-insert_self k v d = rw (get-insert, eq_self k)

  pub get-insert_ne : (j k : K) (v : V) (d : Dict K V) → j ≢ k → get j (insert k v d) ≡ get j d
  get-insert_ne j k v d h = rw (get-insert, ne_to_test j k h)

  pub get-remove_ne : (j k : K) (d : Dict K V) → j ≢ k → get j (remove k d) ≡ get j d
  get-remove_ne j k d h = rw (get-remove, ne_to_test j k h)

  -- The last of two insertions at one key counts.
  pub insert-insert : (k : K) (v w : V) (d : Dict K V) → insert k v (insert k w d) ≡ insert k v d
  unfolding insert
  insert-insert k v w [] = ground arith
  insert-insert k v w (_ ∷ d) = ground (arith, insert-insert k v w d)

  pub get-modify :
      (j k : K) (f : V → V) (d : Dict K V)
      → get j (modify k f d) ≡ (if j == k then map_some f (get j d) else get j d)
  unfolding get modify
  get-modify j k f [] = ground arith
  get-modify j k f (_ ∷ d) = ground (arith, get-modify j k f d)

pub ruleset dict_laws = (get-nil, get-insert, get-remove, get-modify)
