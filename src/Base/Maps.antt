-- ===== src/Base/Maps.antt =====
-- Ordered maps and sets (`BTreeMap`, `BTreeSet`): association lists in the order of their keys.
pub mod Sorted
use Prim.Native.Nat.{Ordering}
use mathlib.Core.Path.{◌≡◌, refl}
use mathlib.Core.Logic.{◌↔◌}
use mathlib.Core.Bool.{Bool, true, false, not}
use mathlib.Core.Option.{Option, none, some}
use mathlib.Core.List.{List, [], ◌∷◌, map}
use native.Mathlib.Omega.{arith}
use freezeit_cos.Base.Tests.{if◌then◌else◌, is_some}

-- Rust's `Ord`: a comparison that says `eq` of equal values only.
pub record Key {ℓ} (A : Type ℓ) : Type ℓ where
  pub cmp : A → A → Ordering
  pub cmp_iff : (a b : A) → (cmp a b ≡ Ordering.eq) ↔ (a ≡ b)

module _ {ℓ} {A : Type ℓ} ⦃e : Key A⦄ where
  abbrev pub beq : A → A → Bool
  beq a b = elim (e.cmp a b) [ Ordering.eq ↦ true | _ ↦ false ]

  pub beq_iff : (a b : A) → (beq a b ≡ true) ↔ (a ≡ b)
  beq_iff a b = ground (arith, e.cmp_iff a b)

  pub beq_self : (a : A) → beq a a ≡ true
  beq_self a = (beq_iff a a).1 refl

  insert_sorted : A → List A → List A
  insert_sorted a [] = a ∷ []
  insert_sorted a (b ∷ l) =
      let rest = b ∷ insert_sorted a l in elim (e.cmp a b) [ Ordering.gt ↦ rest | _ ↦ a ∷ b ∷ l ]

  -- `slice::sort`
  unfoldable pub sort : List A → List A
  unfolding insert_sorted
  sort [] = []
  sort (a ∷ l) = insert_sorted a (sort l)

abbrev pub Map {ℓ κ} : Type ℓ → Type κ → Type (ℓ ⊔ κ)
Map K V = List (K × V)

abbrev pub Set {ℓ} : Type ℓ → Type ℓ
Set K = Map K (Unit {0})

module _ {ℓ κ} {K : Type ℓ} {V : Type κ} where
  abbrev pub keys : Map K V → List K
  keys = map λ entry. entry.0

  -- `BTreeMap::retain`, by a test on the key
  unfoldable pub retain : (K → Bool) → Map K V → Map K V
  retain p [] = []
  retain p ((j, w) ∷ m) = let rest = retain p m in if p j then (j, w) ∷ rest else rest

module _ {ℓ κ} {K : Type ℓ} {V : Type κ} ⦃e : Key K⦄ where
  unfoldable pub lookup : K → Map K V → Option V
  lookup k [] = none
  lookup k ((j, v) ∷ m) = if beq j k then some v else lookup k m

  unfoldable pub insert : K → V → Map K V → Map K V
  insert k v [] = (k, v) ∷ []
  insert k v ((j, w) ∷ m) =
      let rest = (j, w) ∷ insert k v m in
      elim (e.cmp k j) [
        | Ordering.lt ↦ (k, v) ∷ (j, w) ∷ m
        | Ordering.eq ↦ (k, v) ∷ m
        | Ordering.gt ↦ rest
      ]

  unfoldable pub remove : K → Map K V → Map K V
  unfolding retain
  remove k = retain λ j. not (beq j k)

  abbrev pub contains : K → Map K V → Bool
  contains k m = is_some (lookup k m)

  pub lookup-insert :
      (k j : K) (v : V) (m : Map K V)
      → lookup j (insert k v m) ≡ (if beq k j then some v else lookup j m)
  unfolding lookup insert
  lookup-insert k j v [] = refl
  lookup-insert k j v ((i, w) ∷ m) =
      ground (arith, e.cmp_iff k j, e.cmp_iff k i, e.cmp_iff i j, lookup-insert k j v m)

  pub lookup-retain :
      (p : K → Bool) (j : K) (m : Map K V)
      → lookup j (retain p m) ≡ (if p j then lookup j m else none)
  unfolding lookup retain
  lookup-retain p j [] = ground arith
  lookup-retain p j ((i, w) ∷ m) = ground (arith, e.cmp_iff i j, lookup-retain p j m)

  pub lookup-remove :
      (k j : K) (m : Map K V) → lookup j (remove k m) ≡ (if beq k j then none else lookup j m)
  unfolding remove
  lookup-remove k j m =
      ground (arith, lookup-retain (λ i. not (beq i k)) j m, e.cmp_iff j k, e.cmp_iff k j)

pub ruleset map_laws = (lookup-insert, lookup-retain, lookup-remove, beq_self)
