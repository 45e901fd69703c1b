-- ===== src/Store/Memory/Snapshot/RoundTrip.antt =====
-- internal/store/memory/snapshot.go: what is exported and imported again is the same store, and the operations
-- of a store keep what this rests on.
use lowcode_bpmn.Prelude.{
  string_eq, nat_eq, Bool, true, false, ◌&&◌, not, some, [], ◌∷◌, ◌++◌, ◌==◌, Map, insert, lookup,
  filter, Eq, ◌≡◌, refl, sym, ap, ◌∙◌, arith, and-eq-true, not-eq-true, eq_of_==, ◌||◌,
  if◌then◌else◌,
}
use mathlib.Core.List.{append-nil, append_assoc}
use lowcode_bpmn.Store.Memory.Snapshot.{export, import_onto}

module _ {ℓ κ} {K : Type ℓ} {V : Type κ} ⦃e : Eq K⦄ (key : V → K) where
  abbrev holds_key : K → Map K V → Bool
  holds_key k [] = false
  holds_key k ((j, v) ∷ m) = if j == k then true else holds_key k m

  -- Each record stands under its own key, and each key once.
  abbrev pub is_keyed : Map K V → Bool
  is_keyed [] = true
  is_keyed ((k, v) ∷ m) = key v == k && (not (holds_key k m) && is_keyed m)

  insert_new :
      (k : K) (v : V) (m : Map K V) → holds_key k m ≡ false → insert k v m ≡ m ++ (k, v) ∷ []
  unfolding insert
  insert_new k v [] h = refl
  insert_new k v ((j, u) ∷ m) h = ground (arith, insert_new k v m)

  -- None of the keys of the second map is one of the first.
  abbrev is_apart : Map K V → Map K V → Bool
  is_apart m [] = true
  is_apart m ((k, v) ∷ rest) = not (holds_key k m) && is_apart m rest

  holds_key-append :
      (j k : K) (v : V) (m : Map K V) → holds_key j (m ++ (k, v) ∷ []) ≡ (holds_key j m || k == j)
  holds_key-append j k v [] = ground arith
  holds_key-append j k v ((i, u) ∷ m) = ground (arith, holds_key-append j k v m)

  is_apart-append :
      (k : K) (v : V) (done rest : Map K V)
      → is_apart done rest ≡ true
      → holds_key k rest ≡ false
      → is_apart (done ++ (k, v) ∷ []) rest ≡ true
  is_apart-append k v done [] apart new = refl
  is_apart-append k v done ((j, u) ∷ rest) apart new = ground (
    arith,
    holds_key-append j k v done,
    is_apart-append k v done rest,
    e.same_iff j k,
    e.same_iff k j,
  )

  import-export :
      (done rest : Map K V)
      → is_keyed rest ≡ true
      → is_apart done rest ≡ true
      → import_onto key done (export rest) ≡ done ++ rest
  unfolding import_onto export
  import-export done [] keyed apart = sym (append-nil done)
  import-export done ((k, v) ∷ rest) keyed apart =
      let (named, more) =
        and-eq-true (key v == k) (not (holds_key k rest) && is_keyed rest) keyed in
      let (once, keyed_rest) = and-eq-true (not (holds_key k rest)) (is_keyed rest) more in
      let (new, apart_rest) = and-eq-true (not (holds_key k done)) (is_apart done rest) apart in
      ap (λ i. import_onto key (insert i v done) (export rest)) (eq_of_== (key v) k named)
      ∙ ap (λ m. import_onto key m (export rest)) (insert_new k v done (not-eq-true _ new))
      ∙ import-export (done ++ (k, v) ∷ []) rest keyed_rest
          (is_apart-append k v done rest apart_rest (not-eq-true _ once))
      ∙ append_assoc done ((k, v) ∷ []) rest

  -- The records of a map, put under their keys again, make the same map.
  pub import-export_self : (m : Map K V) → is_keyed m ≡ true → import_onto key [] (export m) ≡ m
  import-export_self m h = import-export [] m h (apart_of_nil m)
    where
      apart_of_nil : (m : Map K V) → is_apart [] m ≡ true
      apart_of_nil [] = refl
      apart_of_nil ((k, v) ∷ m) = apart_of_nil m

  holds_key-insert :
      (j k : K) (v : V) (m : Map K V) → holds_key j (insert k v m) ≡ (holds_key j m || k == j)
  unfolding insert
  holds_key-insert j k v [] = ground arith
  holds_key-insert j k v ((i, u) ∷ m) =
      ground (arith, holds_key-insert j k v m, e.same_iff i k, e.same_iff i j, e.same_iff k j)

  -- A write under the record's own key keeps the map keyed.
  pub insert-is_keyed :
      (k : K) (v : V) (m : Map K V) → key v ≡ k → is_keyed m ≡ true → is_keyed (insert k v m) ≡ true
  unfolding insert
  insert-is_keyed k v [] own h = ground (arith, e.same_iff (key v) k)
  insert-is_keyed k v ((i, u) ∷ m) own h = ground (
    arith,
    e.same_iff (key v) k,
    e.same_iff i k,
    e.same_iff k i,
    e.same_iff (key u) i,
    holds_key-insert i k v m,
    insert-is_keyed k v m own,
  )

  -- What is read stands under its own key.
  pub lookup-key :
      (k : K) (v : V) (m : Map K V) → is_keyed m ≡ true → lookup k m ≡ some v → key v ≡ k
  unfolding lookup
  lookup-key k v [] h found = cc
  lookup-key k v ((i, u) ∷ m) h found =
      ground (arith, e.same_iff (key u) i, e.same_iff i k, lookup-key k v m)

  filter-holds_key :
      (k : K) (p : K × V → Bool) (m : Map K V)
      → holds_key k m ≡ false
      → holds_key k (filter p m) ≡ false
  filter-holds_key k p [] h = refl
  filter-holds_key k p ((i, u) ∷ m) h = ground (arith, filter-holds_key k p m)

  pub filter-is_keyed :
      (p : K × V → Bool) (m : Map K V) → is_keyed m ≡ true → is_keyed (filter p m) ≡ true
  filter-is_keyed p [] h = refl
  filter-is_keyed p ((i, u) ∷ m) h = ground (arith, filter-is_keyed p m, filter-holds_key i p m)

  pub record IsKeyed (m : Map K V) : Type (ℓ ⊔ κ) where
    pub holds : is_keyed m ≡ true

  pub insert-IsKeyed :
      {k : K} {v : V} {m : Map K V} → key v ≡ k → IsKeyed m → IsKeyed (insert k v m)
  insert-IsKeyed {k} {v} {m} own h = record { holds = insert-is_keyed k v m own h.holds }

  pub filter-IsKeyed : (p : K × V → Bool) {m : Map K V} → IsKeyed m → IsKeyed (filter p m)
  filter-IsKeyed p {m} h = record { holds = filter-is_keyed p m h.holds }
