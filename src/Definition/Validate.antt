-- ===== src/Definition/Validate.antt =====
-- internal/domain/definition/validate.go
pub mod Sound
pub mod Kinds
pub mod Partners
pub mod WellFormed
use lowcode_bpmn.Prelude.{
  ℕ, zero, suc, String, string_eq, Bool, true, false, ◌||◌, not, none, some, List, [], ◌∷◌, ◌==◌,
  nat_beq, if◌then◌else◌, contains, Map, lookup, insert, has_key, length,
}
use lowcode_bpmn.Text.{is_empty}
use lowcode_bpmn.Definition.Model.{
  ElementKind, start_event, user_task, script_task, service_task, send_task, receive_task,
  business_rule_task, Element, SequenceFlow, Lane, ProcessDefinition,
}
use lowcode_bpmn.Definition.Rules.{
  is_supported_kind, is_extension_kind, validate_start_event_event_definition,
  validate_task_element, validate_extension_element, validate_collaboration, is_start,
}
use lowcode_bpmn.Errors.{
  Result, ok, err, ◌>>=◌, ◌>>◌, reject_if, process_id_required, process_has_no_elements,
  element_id_required, duplicate_element_id, unsupported_element_type, no_start_event,
  flow_id_required, duplicate_flow_id, flow_requires_refs, unknown_source_ref, unknown_target_ref,
  lane_id_required, unknown_flow_node_ref,
}

-- The switch on the kind, in the body of the loop over the elements.
unfoldable pub kind_rule : ElementKind → Element → Map String Element → Result (Unit {0})
unfolding validate_task_element
kind_rule start_event el ids = validate_start_event_event_definition el
kind_rule script_task el ids = validate_task_element el
kind_rule service_task el ids = validate_task_element el
kind_rule send_task el ids = validate_task_element el
kind_rule receive_task el ids = validate_task_element el
kind_rule business_rule_task el ids = validate_task_element el
kind_rule user_task el ids = validate_task_element el
kind_rule k el ids = if is_extension_kind k then validate_extension_element el ids else ok tt

-- The body of that loop; `ids` holds the elements before this one.
unfoldable pub check_element : Map String Element → Element → Result (Unit {0})
unfolding lookup insert kind_rule
check_element ids el = do
  reject_if (is_empty el.id) element_id_required
  reject_if (has_key el.id ids) (duplicate_element_id el.id)
  reject_if (not (is_supported_kind el.kind)) (unsupported_element_type el.kind el.id)
  kind_rule el.kind el (insert el.id el ids)

abbrev pub count_start : Element → ℕ → ℕ
count_start el n = if is_start el.kind then suc n else n

-- The loop, with the map of the ids and the number of start events.
unfoldable pub check_elements :
    Map String Element → ℕ → List Element → Result (Map String Element × ℕ)
unfolding check_element insert
check_elements ids n [] = ok (ids, n)
check_elements ids n (el ∷ els) =
    check_element ids el >> check_elements (insert el.id el ids) (count_start el n) els

unfoldable pub check_flow : Map String Element → List String → SequenceFlow → Result (Unit {0})
unfolding lookup
check_flow ids flow_ids flow = do
  reject_if (is_empty flow.id) flow_id_required
  reject_if (contains flow_ids flow.id) (duplicate_flow_id flow.id)
  reject_if (is_empty flow.source_ref || is_empty flow.target_ref) (flow_requires_refs flow.id)
  reject_if (not (has_key flow.source_ref ids)) (unknown_source_ref flow.id flow.source_ref)
  reject_if (not (has_key flow.target_ref ids)) (unknown_target_ref flow.id flow.target_ref)

unfoldable pub check_flows :
    Map String Element → List String → List SequenceFlow → Result (Unit {0})
unfolding check_flow
check_flows ids flow_ids [] = ok tt
check_flows ids flow_ids (flow ∷ flows) =
    check_flow ids flow_ids flow >> check_flows ids (flow.id ∷ flow_ids) flows

check_refs : Map String Element → String → List String → Result (Unit {0})
unfolding lookup
check_refs ids lane [] = ok tt
check_refs ids lane (ref ∷ refs) =
    reject_if (not (has_key ref ids)) (unknown_flow_node_ref lane ref) >> check_refs ids lane refs

unfoldable pub check_lanes : Map String Element → List Lane → Result (Unit {0})
unfolding check_refs
check_lanes ids [] = ok tt
check_lanes ids (lane ∷ lanes) = do
  reject_if (is_empty lane.id) lane_id_required
  check_refs ids lane.id lane.flow_node_refs
  check_lanes ids lanes

unfoldable pub validate : ProcessDefinition → Result (Unit {0})
unfolding check_elements check_flows check_lanes validate_collaboration
validate def = do
  reject_if (is_empty def.id) process_id_required
  reject_if (nat_beq (length def.elements) 0) process_has_no_elements
  found ← check_elements [] 0 def.elements
  reject_if (nat_beq found.1 0) no_start_event
  check_flows found.0 [] def.flows
  check_lanes found.0 def.lane_set
  validate_collaboration def
