-- ===== src/Definition/Validate/WellFormed.antt =====
-- internal/domain/definition/validate.go: the loop over the elements and the map that it builds.
use lowcode_bpmn.Prelude.{
  ℕ, String, string_eq, true, false, not, none, some, List, [], ◌∷◌, ◌==◌, ◌≡◌, ◌⊎◌, inl, inr, Map,
  lookup, insert, lookup-insert, lookup-insert_self, has_key, Memᴰ, arith, Bool-cases, eq_of_==,
  not-eq-false, has_key-eq-false,
}
use mathlib.Core.List.Memᴰ
use lowcode_bpmn.Text.{is_empty}
use lowcode_bpmn.Definition.Model.{Element}
use lowcode_bpmn.Definition.Rules.{is_supported_kind}
use lowcode_bpmn.Definition.Validate.{check_element, check_elements, kind_rule, count_start}
use lowcode_bpmn.Errors.{ok, >>-eq-ok, reject_if->>-eq-ok}

-- The elements that the loop accepts after those of `ids`.
pub data ElementsOk : Map String Element → List Element → Type 0 where
  nil : {ids : Map String Element} → ElementsOk ids []
  cons :
      {ids : Map String Element} {els : List Element} (el : Element)
      → is_empty el.id ≡ false
      → lookup el.id ids ≡ none
      → is_supported_kind el.kind ≡ true
      → kind_rule el.kind el (insert el.id el ids) ≡ ok tt
      → ElementsOk (insert el.id el ids) els
      → ElementsOk ids (el ∷ els)

abbrev pub add_all : Map String Element → List Element → Map String Element
add_all ids [] = ids
add_all ids (el ∷ els) = add_all (insert el.id el ids) els

abbrev pub count_starts : ℕ → List Element → ℕ
count_starts n [] = n
count_starts n (el ∷ els) = count_starts (count_start el n) els

check_element_lem :
    (ids : Map String Element) (el : Element)
    → check_element ids el ≡ ok tt
    → (is_empty el.id ≡ false)
      × (lookup el.id ids ≡ none)
      × (is_supported_kind el.kind ≡ true)
      × (kind_rule el.kind el (insert el.id el ids) ≡ ok tt)
unfolding check_element
check_element_lem ids el h =
    let (named, h1) = reject_if->>-eq-ok (is_empty el.id) _ _ h in
    let (fresh, h2) = reject_if->>-eq-ok (has_key el.id ids) _ _ h1 in
    let (supported, h3) = reject_if->>-eq-ok (not (is_supported_kind el.kind)) _ _ h2 in
    (named, has_key-eq-false el.id ids fresh, not-eq-false _ supported, h3)

pub check_elements_lem :
    (els : List Element) (ids : Map String Element) (n : ℕ) {out : Map String Element × ℕ}
    → check_elements ids n els ≡ ok out
    → ElementsOk ids els × (out ≡ (add_all ids els, count_starts n els))
unfolding check_elements
check_elements_lem [] ids n h = (ElementsOk.nil, cc)
check_elements_lem (el ∷ els) ids n h =
    let (first, later) = >>-eq-ok _ _ h in
    let (named, fresh, supported, ruled) = check_element_lem ids el first in
    let (rest, e) = check_elements_lem els (insert el.id el ids) (count_start el n) later in
    (ElementsOk.cons el named fresh supported ruled rest, e)

-- The map of the elements holds each of them under its id, and nothing else.
pub mem_of_lookup-add_all :
    (els : List Element) (ids : Map String Element) (k : String) (v : Element)
    → lookup k (add_all ids els) ≡ some v
    → (Memᴰ v els × (v.id ≡ k)) ⊎ (lookup k ids ≡ some v)
mem_of_lookup-add_all [] ids k v h = inr h
mem_of_lookup-add_all (el ∷ els) ids k v h =
    elim (mem_of_lookup-add_all els (insert el.id el ids) k v h) [
      | inl (m, e) ↦ inl (Memᴰ.tail m, e)
      | inr found ↦ inserted k v el ids els found
    ]
  where
    inserted :
        (k : String) (v el : Element) (ids : Map String Element) (els : List Element)
        → lookup k (insert el.id el ids) ≡ some v
        → (Memᴰ v (el ∷ els) × (v.id ≡ k)) ⊎ (lookup k ids ≡ some v)
    inserted k v el ids els found = elim (Bool-cases (el.id == k)) [
      | inl same ↦
          let e : some el ≡ some v = cc (lookup-insert k el.id el ids, same, found) in
          let e' : v ≡ el = cc in inl (Memᴰ.head e', cc (eq_of_== el.id k same))
      | inr other ↦ inr (cc (lookup-insert k el.id el ids, other, found))
    ]

pub lookup-add_all_of_lookup :
    {els : List Element} {ids : Map String Element} (k : String) (v : Element)
    → ElementsOk ids els
    → lookup k ids ≡ some v
    → lookup k (add_all ids els) ≡ some v
lookup-add_all_of_lookup k v ElementsOk.nil h = h
lookup-add_all_of_lookup k v (ElementsOk.cons {ids = ids} el named fresh supported ruled rest) h =
    lookup-add_all_of_lookup k v rest
      (ground (arith, lookup-insert k el.id el ids, string_eq.same_iff el.id k))

pub lookup-add_all_of_mem :
    {els : List Element} {ids : Map String Element} (v : Element)
    → ElementsOk ids els
    → Memᴰ v els
    → lookup v.id (add_all ids els) ≡ some v
lookup-add_all_of_mem v ElementsOk.nil m = absurd (Memᴰ.not-nil m)
lookup-add_all_of_mem v
      (ElementsOk.cons {ids = ids} {els = els} el named fresh supported ruled rest) m =
    elim (Memᴰ.cases_cons m) [
      | inl e ↦ lookup-add_all_of_lookup v.id v rest (rw e (lookup-insert_self el.id el ids))
      | inr m' ↦ lookup-add_all_of_mem v rest m'
    ]
