-- ===== src/Definition/Validate/Sound.antt =====
-- internal/domain/definition/validate.go: `Validate` and a declarative account of a well-formed definition.
use mathlib.Core.List.Memᴰ
use lowcode_bpmn.Prelude.{
  ℕ, String, string_eq, true, false, ◌||◌, not, some, List, [], ◌∷◌, ◌≡◌, ◌≢◌, ◌⊎◌, inl, inr, refl,
  contains, Map, lookup, lookup-insert, lookup-insert_self, has_key, Memᴰ, arith, map, Bool-cases,
  ==_refl, not-eq-false, has_key-eq-true, nat_beq, length, nat_beq_iff, subst, sym, insert,
}
use lowcode_bpmn.Text.{is_empty}
use lowcode_bpmn.Definition.Model.{Element, SequenceFlow, Lane, Collaboration, ProcessDefinition}
use lowcode_bpmn.Definition.Rules.{is_supported_kind, is_start, validate_collaboration}
use lowcode_bpmn.Definition.Validate.Kinds.{IsIn, KindHolds, KindHolds-more, kind_rule-KindHolds}
use lowcode_bpmn.Definition.Validate.Partners.{IsJoined, validate_collaboration-IsJoined}
use lowcode_bpmn.Definition.Validate.{
  check_elements, check_flow, check_flows, check_refs, check_lanes, count_start, validate,
}
use lowcode_bpmn.Definition.Validate.WellFormed.{
  ElementsOk, add_all, count_starts, check_elements_lem, mem_of_lookup-add_all,
  lookup-add_all_of_lookup,
}
use lowcode_bpmn.Errors.{ok, >>-eq-ok, >>=-eq-ok, reject_if->>-eq-ok, reject_if-eq-ok}

abbrev pub Distinct : List String → Type 0
Distinct [] = Unit
Distinct (k ∷ ks) = (contains ks k ≡ false) × Distinct ks

-- An element of the definition has this id.
abbrev pub Names : ProcessDefinition → String → Type 0
Names def id = (el : Element) × Memᴰ el def.elements × (el.id ≡ id)

-- The element of the definition that has this id.
abbrev pub NamedBy : ProcessDefinition → String → Element → Type 0
NamedBy def id el = Memᴰ el def.elements × (el.id ≡ id)

pub record IsWellFormed (def : ProcessDefinition) : Type 0 where
  pub named : is_empty def.id ≡ false
  pub elements_named : (el : Element) → Memᴰ el def.elements → is_empty el.id ≡ false
  pub kinds_supported : (el : Element) → Memᴰ el def.elements → is_supported_kind el.kind ≡ true
  pub kinds_hold : (el : Element) → Memᴰ el def.elements → KindHolds el.kind (NamedBy def) el
  pub elements_distinct : Distinct (map (λ (el : Element). el.id) def.elements)
  pub has_start : (el : Element) × Memᴰ el def.elements × (is_start el.kind ≡ true)
  pub flows_distinct : Distinct (map (λ (f : SequenceFlow). f.id) def.flows)
  pub flow_ends :
      (f : SequenceFlow) → Memᴰ f def.flows → Names def f.source_ref × Names def f.target_ref
  pub lane_refs :
      (l : Lane) (ref : String) → Memᴰ l def.lane_set → Memᴰ ref l.flow_node_refs → Names def ref
  pub joined : (c : Collaboration) → def.collaboration ≡ some c → IsJoined def c

-- What the loop asked of an element holds with the map that it ends with.
ElementsOk-KindHolds :
    {ids : Map String Element} {els : List Element} (v : Element)
    → ElementsOk ids els
    → Memᴰ v els
    → KindHolds v.kind (IsIn (add_all ids els)) v
ElementsOk-KindHolds v ElementsOk.nil m = absurd (Memᴰ.not-nil m)
ElementsOk-KindHolds v (ElementsOk.cons {ids = ids} {els = els} el named fresh supported ruled rest)
      m =
    elim (Memᴰ.cases_cons m) [
      | inl e ↦
          let before = insert el.id el ids in
          let here =
            KindHolds-more el.kind el (IsIn before) (IsIn (add_all before els))
              (λ k x found. lookup-add_all_of_lookup k x rest found)
              (kind_rule-KindHolds el.kind el before refl ruled) in
          subst (λ (x : Element). KindHolds x.kind (IsIn (add_all before els)) x) (sym e) here
      | inr m' ↦ ElementsOk-KindHolds v rest m'
    ]

ElementsOk-named :
    {ids : Map String Element} {els : List Element} (v : Element)
    → ElementsOk ids els
    → Memᴰ v els
    → (is_empty v.id ≡ false) × (is_supported_kind v.kind ≡ true)
ElementsOk-named v ElementsOk.nil m = absurd (Memᴰ.not-nil m)
ElementsOk-named v (ElementsOk.cons el named fresh supported ruled rest) m =
    elim (Memᴰ.cases_cons m) [
      | inl e ↦ (rw e named, rw e supported)
      | inr m' ↦ ElementsOk-named v rest m'
    ]

ElementsOk-fresh :
    {ids : Map String Element} {els : List Element} (k : String) (v : Element)
    → ElementsOk ids els
    → lookup k ids ≡ some v
    → contains (map (λ (el : Element). el.id) els) k ≡ false
ElementsOk-fresh k v ElementsOk.nil h = refl
ElementsOk-fresh k v (ElementsOk.cons {ids = ids} el named fresh supported ruled rest) h =
    ground
      (arith, lookup-insert k el.id el ids, string_eq.same_iff el.id k, ElementsOk-fresh k v rest)

ElementsOk-Distinct :
    {ids : Map String Element} {els : List Element}
    → ElementsOk ids els
    → Distinct (map (λ (el : Element). el.id) els)
ElementsOk-Distinct ElementsOk.nil = tt
ElementsOk-Distinct (ElementsOk.cons {ids = ids} el named fresh supported ruled rest) =
    (ElementsOk-fresh el.id el rest (lookup-insert_self el.id el ids), ElementsOk-Distinct rest)

start_of_count :
    (els : List Element) (n : ℕ)
    → count_starts n els ≢ 0
    → (n ≢ 0) ⊎ ((el : Element) × Memᴰ el els × (is_start el.kind ≡ true))
start_of_count [] n h = inl h
start_of_count (el ∷ els) n h = elim (start_of_count els (count_start el n) h) [
  | inl more ↦ elim (Bool-cases (is_start el.kind)) [
    | inl s ↦ inr (el, Memᴰ.head refl, s)
    | inr other ↦ inl (ground arith)
  ]
  | inr (v, m, s) ↦ inr (v, Memᴰ.tail m, s)
]

abbrev InMap : Map String Element → String → Type 0
InMap ids k = (el : Element) × (lookup k ids ≡ some el)

check_flow_lem :
    (ids : Map String Element) (flow_ids : List String) (f : SequenceFlow)
    → check_flow ids flow_ids f ≡ ok tt
    → (contains flow_ids f.id ≡ false) × InMap ids f.source_ref × InMap ids f.target_ref
unfolding check_flow
check_flow_lem ids flow_ids f h =
    let (_, h1) = reject_if->>-eq-ok (is_empty f.id) _ _ h in
    let (fresh, h2) = reject_if->>-eq-ok (contains flow_ids f.id) _ _ h1 in
    let (_, h3) = reject_if->>-eq-ok (is_empty f.source_ref || is_empty f.target_ref) _ _ h2 in
    let (source, h4) = reject_if->>-eq-ok (not (has_key f.source_ref ids)) _ _ h3 in
    let target = not-eq-false (has_key f.target_ref ids) (reject_if-eq-ok _ _ h4) in
    (
      fresh,
      has_key-eq-true f.source_ref ids (not-eq-false _ source),
      has_key-eq-true f.target_ref ids target,
    )

pub check_flows-ends :
    (ids : Map String Element) (flows : List SequenceFlow) (flow_ids : List String)
    (f : SequenceFlow)
    → check_flows ids flow_ids flows ≡ ok tt
    → Memᴰ f flows
    → InMap ids f.source_ref × InMap ids f.target_ref
unfolding check_flows
check_flows-ends ids [] flow_ids f h m = absurd (Memᴰ.not-nil m)
check_flows-ends ids (g ∷ flows) flow_ids f h m =
    let (first, later) = >>-eq-ok (check_flow ids flow_ids g) _ h in
    elim (Memᴰ.cases_cons m) [
      | inl e ↦
          let (_, source, target) = check_flow_lem ids flow_ids g first in
          (rw e source, rw e target)
      | inr m' ↦ check_flows-ends ids flows (g.id ∷ flow_ids) f later m'
    ]

check_flows-fresh :
    (ids : Map String Element) (flows : List SequenceFlow) (flow_ids : List String) (k : String)
    → check_flows ids flow_ids flows ≡ ok tt
    → contains flow_ids k ≡ true
    → contains (map (λ (f : SequenceFlow). f.id) flows) k ≡ false
unfolding check_flows
check_flows-fresh ids [] flow_ids k h m = refl
check_flows-fresh ids (g ∷ flows) flow_ids k h m =
    let (first, later) = >>-eq-ok (check_flow ids flow_ids g) _ h in
    let (fresh, _, _) = check_flow_lem ids flow_ids g first in
    ground (arith, string_eq.same_iff g.id k, check_flows-fresh ids flows (g.id ∷ flow_ids) k later)

check_flows-Distinct :
    (ids : Map String Element) (flows : List SequenceFlow) (flow_ids : List String)
    → check_flows ids flow_ids flows ≡ ok tt
    → Distinct (map (λ (f : SequenceFlow). f.id) flows)
unfolding check_flows
check_flows-Distinct ids [] flow_ids h = tt
check_flows-Distinct ids (g ∷ flows) flow_ids h =
    let (first, later) = >>-eq-ok (check_flow ids flow_ids g) _ h in
    (
      check_flows-fresh ids flows (g.id ∷ flow_ids) g.id later (rw (==_refl g.id)),
      check_flows-Distinct ids flows (g.id ∷ flow_ids) later,
    )

check_refs-known :
    (ids : Map String Element) (lane : String) (refs : List String) (ref : String)
    → check_refs ids lane refs ≡ ok tt
    → Memᴰ ref refs
    → InMap ids ref
unfolding check_refs
check_refs-known ids lane [] ref h m = absurd (Memᴰ.not-nil m)
check_refs-known ids lane (r ∷ refs) ref h m =
    let (known, later) = reject_if->>-eq-ok (not (has_key r ids)) _ _ h in
    elim (Memᴰ.cases_cons m) [
      | inl e ↦ rw e (has_key-eq-true r ids (not-eq-false _ known))
      | inr m' ↦ check_refs-known ids lane refs ref later m'
    ]

check_lanes-known :
    (ids : Map String Element) (lanes : List Lane) (l : Lane) (ref : String)
    → check_lanes ids lanes ≡ ok tt
    → Memᴰ l lanes
    → Memᴰ ref l.flow_node_refs
    → InMap ids ref
unfolding check_lanes
check_lanes-known ids [] l ref h m r = absurd (Memᴰ.not-nil m)
check_lanes-known ids (lane ∷ lanes) l ref h m r =
    let (_, h1) = reject_if->>-eq-ok (is_empty lane.id) _ _ h in
    let (refs, later) = >>-eq-ok (check_refs ids lane.id lane.flow_node_refs) _ h1 in
    elim (Memᴰ.cases_cons m) [
      | inl e ↦
          check_refs-known ids lane.id lane.flow_node_refs ref refs
            (subst (λ (x : Lane). Memᴰ ref x.flow_node_refs) e r)
      | inr m' ↦ check_lanes-known ids lanes l ref later m' r
    ]

-- The parts of a successful `validate`, the map that its first loop builds among them.
pub record Checks (def : ProcessDefinition) : Type 0 where
  pub id_checked : is_empty def.id ≡ false
  pub elements_checked : ElementsOk [] def.elements
  pub starts_counted : nat_beq (count_starts 0 def.elements) 0 ≡ false
  pub collaboration_checked : validate_collaboration def ≡ ok tt
  pub flows_checked : check_flows (add_all [] def.elements) [] def.flows ≡ ok tt
  pub lanes_checked : check_lanes (add_all [] def.elements) def.lane_set ≡ ok tt

pub validate-Checks : (def : ProcessDefinition) → validate def ≡ ok tt → Checks def
unfolding validate
validate-Checks def h =
    let (named, h1) = reject_if->>-eq-ok (is_empty def.id) _ _ h in
    let (_, h2) = reject_if->>-eq-ok (nat_beq (length def.elements) 0) _ _ h1 in
    let (found, loop, h3) = >>=-eq-ok (check_elements [] 0 def.elements) _ h2 in
    let (good, e) = check_elements_lem def.elements [] 0 loop in
    let (starts, h4) = reject_if->>-eq-ok (nat_beq found.1 0) _ _ h3 in
    let (flows, h5) = >>-eq-ok (check_flows found.0 [] def.flows) _ h4 in
    let (lanes, joined) = >>-eq-ok (check_lanes found.0 def.lane_set) _ h5 in
    record {
      id_checked = named;
      elements_checked = good;
      collaboration_checked = joined;
      starts_counted = subst (λ (x : Map String Element × ℕ). nat_beq x.1 0 ≡ false) e starts;
      flows_checked =
          subst (λ (x : Map String Element × ℕ). check_flows x.0 [] def.flows ≡ ok tt) e flows;
      lanes_checked =
          subst (λ (x : Map String Element × ℕ). check_lanes x.0 def.lane_set ≡ ok tt) e lanes;
    }

Names-of_InMap :
    (def : ProcessDefinition) (k : String) → InMap (add_all [] def.elements) k → Names def k
unfolding lookup
Names-of_InMap def k (el, found) = elim (mem_of_lookup-add_all def.elements [] k el found) [
  | inl (m, e) ↦ (el, m, e)
  | inr h ↦ absurd (cc)
]

NamedBy-of_IsIn :
    (def : ProcessDefinition) (k : String) (el : Element)
    → IsIn (add_all [] def.elements) k el
    → NamedBy def k el
unfolding lookup
NamedBy-of_IsIn def k el found = elim (mem_of_lookup-add_all def.elements [] k el found) [
  | inl named ↦ named
  | inr h ↦ absurd (cc)
]

-- A definition that `validate` accepts is well formed: it and its elements have non-empty ids, no two
-- elements and no two flows share an id, every kind is supported, some element is a start event, every flow's
-- ends and every lane's references are ids of elements of the definition, each element has what its kind
-- asks, its script, service, message, decision or called element, its quota, an event definition with what
-- the type of the event needs, or a host of the definition that may have boundary events, and in a
-- collaboration the pools have ids and the message flows have ids and both ends at pools or elements.
pub validate-IsWellFormed : (def : ProcessDefinition) → validate def ≡ ok tt → IsWellFormed def
validate-IsWellFormed def h =
    let c = validate-Checks def h in
    let ids = add_all [] def.elements in
    let positive : count_starts 0 def.elements ≢ 0 =
      λ z. cc ((nat_beq_iff (count_starts 0 def.elements) 0).1 z, c.starts_counted) in
    record {
      named = c.id_checked;
      elements_named = λ el m. (ElementsOk-named el c.elements_checked m).0;
      kinds_supported = λ el m. (ElementsOk-named el c.elements_checked m).1;
      kinds_hold = λ el m.
          KindHolds-more el.kind el (IsIn ids) (NamedBy def) (NamedBy-of_IsIn def)
            (ElementsOk-KindHolds el c.elements_checked m);
      joined = λ col e. validate_collaboration-IsJoined def col c.collaboration_checked e;
      elements_distinct = ElementsOk-Distinct c.elements_checked;
      has_start = elim (start_of_count def.elements 0 positive) [
        | inl n ↦ absurd (n refl)
        | inr s ↦ s
      ];
      flows_distinct = check_flows-Distinct ids def.flows [] c.flows_checked;
      flow_ends = λ f m.
          let (source, target) = check_flows-ends ids def.flows [] f c.flows_checked m in
          (Names-of_InMap def f.source_ref source, Names-of_InMap def f.target_ref target);
      lane_refs = λ l ref m r.
          Names-of_InMap def ref (check_lanes-known ids def.lane_set l ref c.lanes_checked m r);
    }
