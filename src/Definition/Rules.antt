-- ===== src/Definition/Rules.antt =====
-- The rules that each element is checked by: task.go, event.go, extensions.go and collaboration.go of
-- internal/domain/definition.
use lowcode_bpmn.Prelude.{
  String, string_eq, Bool, true, false, ◌&&◌, ◌||◌, not, Option, none, some, List, [], ◌∷◌, map,
  if◌then◌else◌, contains, Map, lookup,
}
use lowcode_bpmn.Text.{is_empty}
use lowcode_bpmn.Definition.Event.{
  EventDefinition, EventDefinitionType, none_event, message, signal, timer, conditional,
  error_event, effective_event_type,
}
use lowcode_bpmn.Definition.Model.{
  ElementKind, start_event, end_event, user_task, script_task, service_task, send_task,
  receive_task, business_rule_task, boundary_event, intermediate_catch_event,
  intermediate_throw_event, event_based_gateway, complex_gateway, call_activity, unknown_kind,
  Element, Pool, MessageFlow, ProcessDefinition,
}
use lowcode_bpmn.Definition.Approval.{validate_user_task_approval}
use lowcode_bpmn.Errors.{
  Result, ok, err, reject_if, ◌>>◌, script_task_requires_script, service_task_requires,
  send_task_requires, receive_task_requires, business_rule_task_requires, requires_event_definition,
  requires_non_none_event, message_event_requires_ref, signal_event_requires_ref,
  timer_event_requires_cycle, conditional_event_requires, error_event_requires_ref,
  unsupported_event_type, boundary_requires_attached_to, boundary_unknown_attached_to,
  boundary_cannot_attach, call_activity_requires_called, unexpected_event_kind, pool_id_required,
  message_flow_id_required, message_flow_requires_refs, message_flow_unknown_source,
  message_flow_unknown_target,
}

unfoldable pub is_supported_kind : ElementKind → Bool
is_supported_kind (unknown_kind k) = false
is_supported_kind _ = true

unfoldable pub is_extension_kind : ElementKind → Bool
is_extension_kind boundary_event = true
is_extension_kind intermediate_catch_event = true
is_extension_kind intermediate_throw_event = true
is_extension_kind event_based_gateway = true
is_extension_kind complex_gateway = true
is_extension_kind call_activity = true
is_extension_kind _ = false

unfoldable pub is_automated_task : ElementKind → Bool
is_automated_task script_task = true
is_automated_task service_task = true
is_automated_task send_task = true
is_automated_task receive_task = true
is_automated_task business_rule_task = true
is_automated_task _ = false

unfoldable pub task_rule : ElementKind → Element → Result (Unit {0})
task_rule script_task el = reject_if (is_empty el.script) (script_task_requires_script el.id)
task_rule service_task el =
    reject_if (is_empty el.service_url && is_empty el.implementation && is_empty el.task_type)
      (service_task_requires el.id)
task_rule send_task el =
    reject_if (is_empty el.message_ref && is_empty el.task_type) (send_task_requires el.id)
task_rule receive_task el =
    reject_if (is_empty el.message_ref && not el.auto_complete) (receive_task_requires el.id)
task_rule business_rule_task el =
    reject_if (is_empty el.decision_ref && is_empty el.script && is_empty el.task_type)
      (business_rule_task_requires el.id)
task_rule user_task el = validate_user_task_approval el
task_rule _ el = ok tt

unfoldable pub validate_task_element : Element → Result (Unit {0})
unfolding task_rule
validate_task_element el = task_rule el.kind el

abbrev pub needs_event : ElementKind → Bool
needs_event boundary_event = true
needs_event intermediate_catch_event = true
needs_event _ = false

unfoldable pub event_rule : EventDefinitionType → Element → EventDefinition → Result (Unit {0})
event_rule none_event el ed =
    reject_if (needs_event el.kind) (requires_non_none_event el.kind el.id)
event_rule message el ed =
    reject_if (is_empty ed.message_ref) (message_event_requires_ref el.kind el.id)
event_rule signal el ed =
    reject_if (is_empty ed.signal_ref) (signal_event_requires_ref el.kind el.id)
event_rule timer el ed =
    reject_if (is_empty ed.timer_cycle) (timer_event_requires_cycle el.kind el.id)
event_rule conditional el ed =
    reject_if (is_empty ed.condition) (conditional_event_requires el.kind el.id)
event_rule error_event el ed =
    reject_if (is_empty ed.error_ref) (error_event_requires_ref el.kind el.id)
event_rule _ el ed = err (unsupported_event_type el.kind el.id)

unfoldable pub validate_event_definition_body : Element → Result (Unit {0})
unfolding event_rule effective_event_type
validate_event_definition_body el = elim el.event_definition [
  | none ↦ ok tt
  | some ed ↦ event_rule (effective_event_type (some ed)) el ed
]

unfoldable pub validate_event_definition : Element → Result (Unit {0})
unfolding validate_event_definition_body
validate_event_definition el = elim el.event_definition [
  | none ↦ reject_if (needs_event el.kind) (requires_event_definition el.kind el.id)
  | some ed ↦ validate_event_definition_body el
]

abbrev pub is_start : ElementKind → Bool
is_start start_event = true
is_start _ = false

-- validateEventDefinitionForElement, at its one caller's kind
unfoldable pub validate_start_event_event_definition : Element → Result (Unit {0})
unfolding validate_event_definition_body
validate_start_event_event_definition el = elim el.event_definition [
  | none ↦ ok tt
  | some ed ↦
      if not (is_start el.kind)
      then err (unexpected_event_kind el.id)
      else validate_event_definition_body el
]

abbrev pub bars_boundary : ElementKind → Bool
bars_boundary boundary_event = true
bars_boundary start_event = true
bars_boundary end_event = true
bars_boundary _ = false

unfoldable pub attached : Element → Option Element → Result (Unit {0})
attached el none = err (boundary_unknown_attached_to el.id el.attached_to_ref)
attached el (some target) =
    if bars_boundary target.kind
    then err (boundary_cannot_attach el.id target.kind)
    else validate_event_definition el

unfoldable pub extension_rule : ElementKind → Element → Map String Element → Result (Unit {0})
unfolding attached validate_event_definition
extension_rule boundary_event el ids =
    if is_empty el.attached_to_ref
    then err (boundary_requires_attached_to el.id)
    else attached el (lookup el.attached_to_ref ids)
extension_rule intermediate_catch_event el ids = validate_event_definition el
extension_rule intermediate_throw_event el ids = elim el.event_definition [
  | none ↦ ok tt
  | some ed ↦ validate_event_definition el
]
extension_rule call_activity el ids =
    reject_if (is_empty el.called_element) (call_activity_requires_called el.id)
extension_rule _ el ids = ok tt

unfoldable pub validate_extension_element : Element → Map String Element → Result (Unit {0})
unfolding extension_rule lookup
validate_extension_element el ids = extension_rule el.kind el ids

unfoldable pub pools_ok : List Pool → Result (Unit {0})
pools_ok [] = ok tt
pools_ok (p ∷ ps) = let rest = pools_ok ps in if is_empty p.id then err pool_id_required else rest

-- refExists
unfoldable pub ref_exists : String → List String → List String → Bool
ref_exists ref pools elements = contains pools ref || contains elements ref

unfoldable pub message_flows_ok : List String → List String → List MessageFlow → Result (Unit {0})
unfolding ref_exists
message_flows_ok pools elements [] = ok tt
message_flows_ok pools elements (mf ∷ mfs) =
    let rest = message_flows_ok pools elements mfs in
    if is_empty mf.id
    then err message_flow_id_required
    else if is_empty mf.source_ref || is_empty mf.target_ref
    then err (message_flow_requires_refs mf.id)
    else if not (ref_exists mf.source_ref pools elements)
    then err (message_flow_unknown_source mf.id mf.source_ref)
    else if not (ref_exists mf.target_ref pools elements)
    then err (message_flow_unknown_target mf.id mf.target_ref)
    else rest

unfoldable pub validate_collaboration : ProcessDefinition → Result (Unit {0})
unfolding pools_ok message_flows_ok
validate_collaboration def = elim def.collaboration [
  | none ↦ ok tt
  | some c ↦ do
    pools_ok c.pools
    message_flows_ok (map (λ (p : Pool). p.id) c.pools) (map (λ (e : Element). e.id) def.elements)
        c.message_flows
]
