-- ===== src/Definition/Registry/Lookup.antt =====
-- internal/domain/definition/registry.go: the index against the definition.
use lowcode_bpmn.Prelude.{
  String, string_eq, Bool, true, not, some, List, [], ◌∷◌, ◌++◌, ◌==◌, ◌≡◌, ◌↔◌, inl, inr, refl,
  sym, ap, ◌∙◌, if◌then◌else◌, Map, lookup, insert, lookup_list, append_at, has_key,
  has_key_of_lookup, Memᴰ, arith, filter, lookup_list-append_at, Bool-cases, subst,
}
use mathlib.Core.List.{append-nil, append_assoc}
use lowcode_bpmn.Definition.Model.{
  ElementKind, boundary_event, Element, SequenceFlow, Lane, ProcessDefinition,
}
use lowcode_bpmn.Definition.Validate.{validate}
use lowcode_bpmn.Definition.Validate.WellFormed.{
  add_all, mem_of_lookup-add_all, lookup-add_all_of_mem,
}
use lowcode_bpmn.Definition.Validate.Sound.{Checks, validate-Checks, check_flows-ends}
use lowcode_bpmn.Definition.Registry.{
  Registry, empty_registry, index_kind, index_element, index_elements, index_refs, index_lanes,
  index_flow, index_flows, build_registry, element, outgoing_flows, incoming_flows,
}
use lowcode_bpmn.Errors.{ok, >>-eq-ok, reject_if->>-eq-ok}

-- The fields that the loops over elements and lanes leave alone, or fill as stated.
record Indexed (els : List Element) (before after : Registry) : Type 0 where
  elements : after.elements ≡ add_all before.elements els
  outgoing : after.outgoing ≡ before.outgoing
  incoming : after.incoming ≡ before.incoming
  def : after.def ≡ before.def

index_kind-Indexed :
    (k : ElementKind) (el : Element) (r : Registry) → Indexed [] r (index_kind k el r)
unfolding index_kind
index_kind-Indexed boundary_event el r = ground arith
index_kind-Indexed _ el r = record { elements = refl; outgoing = refl; incoming = refl; def = refl }

index_elements-Indexed : (els : List Element) (r : Registry) → Indexed els r (index_elements els r)
unfolding index_elements index_element
index_elements-Indexed [] r = record {
  elements = refl;
  outgoing = refl;
  incoming = refl;
  def = refl;
}
index_elements-Indexed (el ∷ els) r =
    let set = record r { elements = insert el.id el r.elements } in
    let one = index_kind-Indexed el.kind el set in
    let rest = index_elements-Indexed els (index_kind el.kind el set) in
    record {
      elements = rest.elements ∙ ap (λ m. add_all m els) one.elements;
      outgoing = rest.outgoing ∙ one.outgoing;
      incoming = rest.incoming ∙ one.incoming;
      def = rest.def ∙ one.def;
    }

index_refs-Indexed :
    (l : Lane) (refs : List String) (r : Registry) → Indexed [] r (index_refs l refs r)
unfolding index_refs
index_refs-Indexed l [] r = record { elements = refl; outgoing = refl; incoming = refl; def = refl }
index_refs-Indexed l (ref ∷ refs) r =
    let rest =
      index_refs-Indexed l refs (record r { element_lane = insert ref l r.element_lane }) in
    record {
      elements = rest.elements;
      outgoing = rest.outgoing;
      incoming = rest.incoming;
      def = rest.def;
    }

index_lanes-Indexed : (lanes : List Lane) (r : Registry) → Indexed [] r (index_lanes lanes r)
unfolding index_lanes
index_lanes-Indexed [] r = record { elements = refl; outgoing = refl; incoming = refl; def = refl }
index_lanes-Indexed (l ∷ lanes) r =
    let one = index_refs-Indexed l l.flow_node_refs r in
    let rest = index_lanes-Indexed lanes (index_refs l l.flow_node_refs r) in
    record {
      elements = rest.elements ∙ one.elements;
      outgoing = rest.outgoing ∙ one.outgoing;
      incoming = rest.incoming ∙ one.incoming;
      def = rest.def ∙ one.def;
    }

abbrev from_source : String → SequenceFlow → Bool
from_source id f = f.source_ref == id

abbrev to_target : String → SequenceFlow → Bool
to_target id f = f.target_ref == id

record FlowsIndexed (flows : List SequenceFlow) (before after : Registry) : Type 0 where
  elements : after.elements ≡ before.elements
  def : after.def ≡ before.def
  outgoing :
      (id : String)
      → lookup_list id after.outgoing
        ≡ lookup_list id before.outgoing ++ filter (λ (f : SequenceFlow). f.source_ref == id) flows
  incoming :
      (id : String)
      → lookup_list id after.incoming
        ≡ lookup_list id before.incoming ++ filter (λ (f : SequenceFlow). f.target_ref == id) flows

append_at-filter :
    (k id : String) (f : SequenceFlow) (m : Map String (List SequenceFlow))
    (rest : List SequenceFlow)
    → lookup_list id (append_at k f m) ++ rest
      ≡ lookup_list id m ++ (if k == id then f ∷ rest else rest)
append_at-filter k id f m rest = elim (Bool-cases (k == id)) [
  | inl same ↦
      rw (lookup_list-append_at id k f m, same) (append_assoc (lookup_list id m) (f ∷ []) rest)
  | inr other ↦ rw (lookup_list-append_at id k f m, other)
]

index_flows-FlowsIndexed :
    (flows : List SequenceFlow) (r : Registry) {r' : Registry}
    → index_flows flows r ≡ ok r'
    → FlowsIndexed flows r r'
unfolding index_flows index_flow
index_flows-FlowsIndexed [] r {r'} h =
    let e : r' ≡ r = cc in
    rw e (record {
      elements = refl;
      def = refl;
      outgoing = λ id. sym (append-nil _);
      incoming = λ id. sym (append-nil _);
    })
index_flows-FlowsIndexed (f ∷ flows) r h =
    let (_, h1) = reject_if->>-eq-ok (not (has_key f.source_ref r.elements)) _ _ h in
    let (_, h2) = reject_if->>-eq-ok (not (has_key f.target_ref r.elements)) _ _ h1 in
    let rest = index_flows-FlowsIndexed flows (index_flow f r) h2 in
    record {
      elements = rest.elements;
      def = rest.def;
      outgoing = λ id. rest.outgoing id ∙ append_at-filter f.source_ref id f r.outgoing _;
      incoming = λ id. rest.incoming id ∙ append_at-filter f.target_ref id f r.incoming _;
    }

-- What a successful build consists of.
pub record Built (def : ProcessDefinition) (r : Registry) : Type 0 where
  pub checks : Checks def
  pub of_def : r.def ≡ def
  pub by_id : r.elements ≡ add_all [] def.elements
  pub by_source :
      (id : String)
      → lookup_list id r.outgoing ≡ filter (λ (f : SequenceFlow). f.source_ref == id) def.flows
  pub by_target :
      (id : String)
      → lookup_list id r.incoming ≡ filter (λ (f : SequenceFlow). f.target_ref == id) def.flows

pub build_registry-Built :
    (def : ProcessDefinition) (r : Registry) → build_registry def ≡ ok r → Built def r
unfolding build_registry
build_registry-Built def r h =
    let (valid, h1) = >>-eq-ok (validate def) _ h in
    let els = index_elements-Indexed def.elements (empty_registry def) in
    let lanes =
      index_lanes-Indexed def.lane_set (index_elements def.elements (empty_registry def)) in
    let flows = index_flows-FlowsIndexed def.flows _ h1 in
    record {
      checks = validate-Checks def valid;
      of_def = flows.def ∙ lanes.def ∙ els.def;
      by_id = flows.elements ∙ lanes.elements ∙ els.elements;
      by_source = λ id. rw (flows.outgoing id, lanes.outgoing, els.outgoing, lookup);
      by_target = λ id. rw (flows.incoming id, lanes.incoming, els.incoming, lookup);
    }

-- The registry of a definition answers an id with an element exactly if the element is one of the
-- definition's and has that id.
pub element_iff :
    (def : ProcessDefinition) (r : Registry) (id : String) (el : Element)
    → build_registry def ≡ ok r
    → (element r id ≡ some el) ↔ (Memᴰ el def.elements × (el.id ≡ id))
unfolding element lookup
element_iff def r id el h =
    let b = build_registry-Built def r h in
    (
      λ found. elim (mem_of_lookup-add_all def.elements [] id el (rw b.by_id at found)) [
        | inl m ↦ m
        | inr absent ↦ absurd (cc)
      ],
      λ (m, e). rw b.by_id (
          subst (λ k. lookup k (add_all [] def.elements) ≡ some el) e
            (lookup-add_all_of_mem el b.checks.elements_checked m)),
    )

-- The registry's outgoing flows of an id are the definition's flows with that source, and its incoming
-- flows those with that target, each in the order of the definition.
pub flows-eq-filter :
    (def : ProcessDefinition) (r : Registry) (id : String)
    → build_registry def ≡ ok r
    → (outgoing_flows r id ≡ filter (λ (f : SequenceFlow). f.source_ref == id) def.flows)
      × (incoming_flows r id ≡ filter (λ (f : SequenceFlow). f.target_ref == id) def.flows)
unfolding outgoing_flows incoming_flows
flows-eq-filter def r id h =
    let b = build_registry-Built def r h in (b.by_source id, b.by_target id)

index_flows_total :
    (flows : List SequenceFlow) (r : Registry)
    → ((f : SequenceFlow)
        → Memᴰ f flows
        → (has_key f.source_ref r.elements ≡ true) × (has_key f.target_ref r.elements ≡ true))
    → (r' : Registry) × (index_flows flows r ≡ ok r')
unfolding index_flows index_flow
index_flows_total [] r h = (r, refl)
index_flows_total (f ∷ flows) r h =
    let (source, target) = h f (Memᴰ.head refl) in
    let (r', e) = index_flows_total flows (index_flow f r) (λ g m. h g (Memᴰ.tail m)) in
    (r', rw (source, target) e)

-- Once a definition is validated the index is built: the tests of the flows' ends in `BuildRegistry`
-- never fail, so it succeeds exactly on the definitions that `Validate` accepts.
pub build_registry_total :
    (def : ProcessDefinition)
    → (validate def ≡ ok tt) ↔ ((r : Registry) × (build_registry def ≡ ok r))
unfolding build_registry lookup
build_registry_total def = (total, λ (r, h). (>>-eq-ok (validate def) _ h).0)
  where
    total : validate def ≡ ok tt → (r : Registry) × (build_registry def ≡ ok r)
    total valid =
        let c = validate-Checks def valid in
        let base = index_lanes def.lane_set (index_elements def.elements (empty_registry def)) in
        let els = index_elements-Indexed def.elements (empty_registry def) in
        let lanes =
          index_lanes-Indexed def.lane_set (index_elements def.elements (empty_registry def)) in
        let same : base.elements ≡ add_all [] def.elements = lanes.elements ∙ els.elements in
        let known : (k : String) (v : Element)
            → lookup k (add_all [] def.elements) ≡ some v
            → has_key k base.elements ≡ true =
          λ k v e. rw same (has_key_of_lookup k _ e) in
        let (r, e) = index_flows_total def.flows base (λ f m.
          let ((s, hs), (t, ht)) =
            check_flows-ends (add_all [] def.elements) def.flows [] f c.flows_checked m in
          (known f.source_ref s hs, known f.target_ref t ht)) in
        (r, rw valid e)
