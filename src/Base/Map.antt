-- ===== src/Base/Map.antt =====
-- A Go map (and a table with a primary key) as an association list with one entry for each key.
use yim.Base.Tests.{if◌then◌else◌, Eq, ◌=?◌, =?_refl}
use yim.Base.Lists.{length}
use Prim.Native.Nat.{◌+◌, ◌≤◌}
use mathlib.Core.Path.{◌≡◌, refl}
use mathlib.Core.List.{List, [], ◌∷◌}
use mathlib.Core.Bool.{Bool, true, false}
use mathlib.Core.Option.{Option, none, some}
use native.Mathlib.Omega.{arith}

abbrev pub Map {ℓ κ} : Type ℓ → Type κ → Type (ℓ ⊔ κ)
Map K V = List (K × V)

module _ {ℓ κ} {K : Type ℓ} {V : Type κ} ⦃e : Eq K⦄ where
  unfoldable pub lookup : K → Map K V → Option V
  lookup k [] = none
  lookup k ((j, v) ∷ m) = if j =? k then some v else lookup k m

  unfoldable pub insert : K → V → Map K V → Map K V
  insert k v [] = (k, v) ∷ []
  insert k v ((j, w) ∷ m) = if j =? k then (k, v) ∷ m else (j, w) ∷ insert k v m

  unfoldable pub erase : K → Map K V → Map K V
  erase k [] = []
  erase k ((j, v) ∷ m) = if j =? k then erase k m else (j, v) ∷ erase k m

  pub lookup-insert :
      (k j : K) (v : V) (m : Map K V)
      → lookup j (insert k v m) ≡ (if k =? j then some v else lookup j m)
  unfolding lookup insert
  lookup-insert k j v [] = refl
  lookup-insert k j v ((i, w) ∷ m) =
      ground (arith, e.beq_iff k j, e.beq_iff i k, e.beq_iff i j, lookup-insert k j v m)

  pub lookup-erase :
      (k j : K) (m : Map K V) → lookup j (erase k m) ≡ (if k =? j then none else lookup j m)
  unfolding lookup erase
  lookup-erase k j [] = ground arith
  lookup-erase k j ((i, w) ∷ m) =
      ground (arith, e.beq_iff k j, e.beq_iff i k, e.beq_iff i j, lookup-erase k j m)

  pub lookup-insert_self : (k : K) (v : V) (m : Map K V) → lookup k (insert k v m) ≡ some v
  lookup-insert_self k v m = rw (lookup-insert, =?_refl k)

  pub length-insert : (k : K) (v : V) (m : Map K V) → length (insert k v m) ≤ length m + 1
  unfolding insert
  length-insert k v [] = omega arith
  length-insert k v ((j, w) ∷ m) = ground (arith, length-insert k v m)

  -- `INSERT IGNORE`: a row that is there stays.
  unfoldable pub insert_ignore : K → V → Map K V → Map K V
  insert_ignore k v m = elim (lookup k m) [ none ↦ insert k v m | some w ↦ m ]

  -- Whether a row with the key is there.
  unfoldable pub has : K → Map K V → Bool
  has k m = elim (lookup k m) [ none ↦ false | some v ↦ true ]

  pub has-insert :
      (k j : K) (v : V) (m : Map K V) → has j (insert k v m) ≡ (if k =? j then true else has j m)
  unfolding has
  has-insert k j v m = ground (arith, lookup-insert k j v m)

  pub has-erase : (k j : K) (m : Map K V) → has j (erase k m) ≡ (if k =? j then false else has j m)
  unfolding has
  has-erase k j m = ground (arith, lookup-erase k j m)

  pub has-insert_ignore :
      (k j : K) (v : V) (m : Map K V)
      → has j (insert_ignore k v m) ≡ (if k =? j then true else has j m)
  unfolding has insert_ignore
  has-insert_ignore k j v m = ground (arith, e.beq_iff k j, lookup-insert k j v m)
