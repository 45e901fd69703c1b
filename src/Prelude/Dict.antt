-- ===== src/Prelude/Dict.antt =====
-- Go's maps, as association lists: a missing key is `none`, and a write replaces the entry in place.
use mathlib.Core.Path.{◌≡◌, refl}
use mathlib.Core.Logic.{◌≢◌}
use mathlib.Core.Bool.{Bool, true, false}
use mathlib.Core.Option.{Option, none, some}
use mathlib.Core.List.{List, [], ◌∷◌, ◌++◌}
use native.Mathlib.Omega.{arith}
use lowcode_bpmn.Prelude.Tests.{if◌then◌else◌}
use lowcode_bpmn.Prelude.Equality.{Eq, ◌==◌}

abbrev pub Map {ℓ κ} : Type ℓ → Type κ → Type (ℓ ⊔ κ)
Map K V = List (K × V)

module _ {ℓ κ} {K : Type ℓ} {V : Type κ} ⦃e : Eq K⦄ where
  unfoldable pub lookup : K → Map K V → Option V
  lookup key [] = none
  lookup key ((k, held) ∷ rest) = if k == key then some held else lookup key rest

  unfoldable pub insert : K → V → Map K V → Map K V
  insert key v [] = (key, v) ∷ []
  insert key v ((k, held) ∷ rest) =
      if k == key then (key, v) ∷ rest else (k, held) ∷ insert key v rest

  -- A read after a write.
  pub lookup-insert :
      (j k : K) (v : V) (m : Map K V)
      → lookup j (insert k v m) ≡ (if k == j then some v else lookup j m)
  unfolding lookup insert
  lookup-insert j k v [] = refl
  lookup-insert j k v ((i, w) ∷ m) =
      ground (arith, e.same_iff k j, e.same_iff i k, e.same_iff i j, lookup-insert j k v m)

  pub lookup-insert_self : (k : K) (v : V) (m : Map K V) → lookup k (insert k v m) ≡ some v
  lookup-insert_self k v m = ground (arith, lookup-insert k k v m, e.same_iff k k)

  pub lookup-insert_ne :
      (j k : K) (v : V) (m : Map K V) → k ≢ j → lookup j (insert k v m) ≡ lookup j m
  lookup-insert_ne j k v m h = ground (arith, lookup-insert j k v m, e.same_iff k j)

  abbrev pub has_key : K → Map K V → Bool
  has_key k m = elim (lookup k m) [ none ↦ false | some v ↦ true ]

  pub has_key-eq-false : (k : K) (m : Map K V) → has_key k m ≡ false → lookup k m ≡ none
  has_key-eq-false k m h = ground arith

  pub has_key-eq-true : (k : K) (m : Map K V) → has_key k m ≡ true → (v : V) × (lookup k m ≡ some v)
  has_key-eq-true k m h = ground arith

  pub has_key_of_lookup : (k : K) (m : Map K V) {v : V} → lookup k m ≡ some v → has_key k m ≡ true
  has_key_of_lookup k m h = ground arith

-- A map of lists: a missing key reads as the empty list.
module _ {ℓ κ} {K : Type ℓ} {W : Type κ} ⦃e : Eq K⦄ where
  abbrev pub lookup_list : K → Map K (List W) → List W
  lookup_list k m = elim (lookup k m) [ none ↦ [] | some l ↦ l ]

  -- `m[k] = append(m[k], v)`
  unfoldable pub append_at : K → W → Map K (List W) → Map K (List W)
  unfolding lookup insert
  append_at k v m = insert k (lookup_list k m ++ v ∷ []) m

  pub lookup_list-append_at :
      (j k : K) (v : W) (m : Map K (List W))
      → lookup_list j (append_at k v m)
        ≡ (if k == j then lookup_list j m ++ v ∷ [] else lookup_list j m)
  unfolding append_at
  lookup_list-append_at j k v m =
      ground (arith, lookup-insert j k (lookup_list k m ++ v ∷ []) m, e.same_iff k j)
