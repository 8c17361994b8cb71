-- ===== src/Base/Maps.antt =====
-- `HashMap` and `HashSet` as association lists and lists, newest entry in the place of the old one.
-- The order of iteration is not specified in Rust, and nothing below depends on it.
use mathlib.Core.Path.{◌≡◌, refl}
use mathlib.Core.Bool.{Bool, false, ◌&&◌, ◌||◌, not}
use mathlib.Core.Option.{Option, none, some}
use mathlib.Core.List.{List, [], ◌∷◌}
use native.Mathlib.Omega.{arith}
use flo.Base.Tests.{Eq, ◌==◌, if◌then◌else◌}

abbrev pub Map : Type 0 → Type 0 → Type 0
Map K V = List (K × V)

module _ {K V : Type 0} ⦃e : Eq K⦄ where
  -- `get`
  unfoldable pub lookup : K → Map K V → Option V
  lookup k [] = none
  lookup k ((j, v) ∷ m) = if j == k then some v else lookup k m

  unfoldable pub insert : K → V → Map K V → Map K V
  insert k v [] = (k, v) ∷ []
  insert k v ((j, w) ∷ m) = if j == k then (k, v) ∷ m else (j, w) ∷ insert k v m

  -- `remove`
  unfoldable pub without : K → Map K V → Map K V
  without k [] = []
  without k ((j, w) ∷ m) = let rest = without k m in if j == k then rest else (j, w) ∷ rest

  pub lookup-insert :
      (j k : K) (v : V) (m : Map K V)
      → lookup j (insert k v m) ≡ (if k == j then some v else lookup j m)
  unfolding lookup insert
  lookup-insert j k v [] = refl
  lookup-insert j k v ((i, w) ∷ m) =
      ground (arith, e.same_iff k j, e.same_iff i k, e.same_iff i j, lookup-insert j k v m)

  pub lookup-without :
      (j k : K) (m : Map K V) → lookup j (without k m) ≡ (if k == j then none else lookup j m)
  unfolding lookup without
  lookup-without j k [] = ground arith
  lookup-without j k ((i, w) ∷ m) =
      ground (arith, e.same_iff k j, e.same_iff i k, e.same_iff i j, lookup-without j k m)

pub ruleset map_laws = (lookup-insert, lookup-without)

module _ {A : Type 0} ⦃e : Eq A⦄ where
  -- `contains`
  unfoldable pub member : A → List A → Bool
  member a [] = false
  member a (x ∷ xs) = x == a || member a xs

  -- `insert` of a set
  unfoldable pub add : A → List A → List A
  unfolding member
  add a xs = if member a xs then xs else a ∷ xs

  -- `remove` of a set
  unfoldable pub delete : A → List A → List A
  delete a [] = []
  delete a (x ∷ xs) = let rest = delete a xs in if x == a then rest else x ∷ rest

  pub member-add : (b a : A) (xs : List A) → member b (add a xs) ≡ (a == b || member b xs)
  unfolding add
  member-add b a xs = ground (arith, e.same_iff a b)

  pub member-delete :
      (b a : A) (xs : List A) → member b (delete a xs) ≡ (not (a == b) && member b xs)
  unfolding member delete
  member-delete b a [] = ground arith
  member-delete b a (x ∷ xs) =
      ground (arith, e.same_iff a b, e.same_iff x a, e.same_iff x b, member-delete b a xs)
