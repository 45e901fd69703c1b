-- ===== src/Definition/Registry.antt =====
-- internal/domain/definition/registry.go: the index of a validated definition.
pub mod Lookup
use lowcode_bpmn.Prelude.{
  ltb, String, string_eq, Bool, true, false, ◌||◌, not, Option, none, some, List, [], ◌∷◌, ◌++◌,
  if◌then◌else◌, Map, lookup, insert, has_key, lookup_list, append_at, length,
}
use lowcode_bpmn.Text.{is_empty}
use lowcode_bpmn.Definition.Model.{
  ElementKind, start_event, end_event, boundary_event, parallel_gateway, inclusive_gateway, Element,
  SequenceFlow, Lane, ProcessDefinition,
}
use lowcode_bpmn.Definition.Validate.{validate}
use lowcode_bpmn.Errors.{
  Result, ok, err, ◌>>=◌, ◌>>◌, reject_if, unknown_source_ref, unknown_target_ref,
}

pub record Registry : Type 0 where
  pub def : ProcessDefinition
  pub elements : Map String Element
  pub outgoing : Map String (List SequenceFlow)
  pub incoming : Map String (List SequenceFlow)
  pub start_events : List String
  -- a set: the key of each end event
  pub end_events : Map String (Unit {0})
  pub boundary_by_host : Map String (List Element)
  pub element_lane : Map String Lane

abbrev pub empty_registry : ProcessDefinition → Registry
empty_registry def = record {
  def = def;
  elements = [];
  outgoing = [];
  incoming = [];
  start_events = [];
  end_events = [];
  boundary_by_host = [];
  element_lane = [];
}

-- The switch on the kind, after `r.Elements[el.ID] = el`.
index_kind : ElementKind → Element → Registry → Registry
unfolding append_at insert
index_kind start_event el r = record r { start_events = r.start_events ++ el.id ∷ [] }
index_kind end_event el r = record r { end_events = insert el.id tt r.end_events }
index_kind boundary_event el r =
    if is_empty el.attached_to_ref
    then r
    else record r { boundary_by_host = append_at el.attached_to_ref el r.boundary_by_host }
index_kind _ el r = r

unfoldable pub index_element : Element → Registry → Registry
unfolding index_kind
index_element el r = index_kind el.kind el (record r { elements = insert el.id el r.elements })

unfoldable pub index_elements : List Element → Registry → Registry
unfolding index_element
index_elements [] r = r
index_elements (el ∷ els) r = index_elements els (index_element el r)

index_refs : Lane → List String → Registry → Registry
unfolding insert
index_refs lane [] r = r
index_refs lane (ref ∷ refs) r =
    index_refs lane refs (record r { element_lane = insert ref lane r.element_lane })

unfoldable pub index_lanes : List Lane → Registry → Registry
unfolding index_refs
index_lanes [] r = r
index_lanes (lane ∷ lanes) r = index_lanes lanes (index_refs lane lane.flow_node_refs r)

unfoldable pub index_flow : SequenceFlow → Registry → Registry
unfolding append_at
index_flow flow r = record r {
  outgoing = append_at flow.source_ref flow r.outgoing;
  incoming = append_at flow.target_ref flow r.incoming;
}

unfoldable pub index_flows : List SequenceFlow → Registry → Result Registry
unfolding index_flow lookup
index_flows [] r = ok r
index_flows (flow ∷ flows) r = do
  reject_if (not (has_key flow.source_ref r.elements)) (unknown_source_ref flow.id flow.source_ref)
  reject_if (not (has_key flow.target_ref r.elements)) (unknown_target_ref flow.id flow.target_ref)
  index_flows flows (index_flow flow r)

unfoldable pub build_registry : ProcessDefinition → Result Registry
unfolding validate index_elements index_lanes index_flows
build_registry def = do
  validate def
  index_flows def.flows
      (index_lanes def.lane_set (index_elements def.elements (empty_registry def)))

module _ (r : Registry) where
  unfoldable pub element : String → Option Element
  unfolding lookup
  element id = lookup id r.elements

  unfoldable pub outgoing_flows : String → List SequenceFlow
  unfolding lookup
  outgoing_flows id = lookup_list id r.outgoing

  unfoldable pub incoming_flows : String → List SequenceFlow
  unfolding lookup
  incoming_flows id = lookup_list id r.incoming

  unfoldable pub is_end_event : String → Bool
  unfolding lookup
  is_end_event id = has_key id r.end_events

  abbrev pub joins : ElementKind → Bool
  joins parallel_gateway = true
  joins inclusive_gateway = true
  joins _ = false

  unfoldable pub is_join_gateway : String → Bool
  unfolding lookup
  is_join_gateway id = elim (lookup id r.elements) [
    | none ↦ false
    | some el ↦ if joins el.kind then ltb 1 (length (lookup_list id r.incoming)) else false
  ]

  unfoldable pub boundary_events : String → List Element
  unfolding lookup
  boundary_events host = lookup_list host r.boundary_by_host

  unfoldable pub lane_for_element : String → Option Lane
  unfolding lookup
  lane_for_element id = lookup id r.element_lane
