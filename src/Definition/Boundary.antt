-- ===== src/Definition/Boundary.antt =====
-- internal/domain/definition/boundary.go and the matches of event.go: which events a message, a signal or a
-- change of the variables sets off.
use lowcode_bpmn.Prelude.{
  String, string_eq, Bool, true, false, not, Option, none, some, ◌==◌, if◌then◌else◌,
}
use lowcode_bpmn.Text.{is_empty}
use lowcode_bpmn.Vars.{Vars, Value, null, str, resolve_path}
use lowcode_bpmn.Definition.Event.{
  EventDefinitionType, message, signal, conditional, effective_event_type,
}
use lowcode_bpmn.Definition.Model.{
  ElementKind, user_task, script_task, receive_task, service_task, send_task, business_rule_task,
  sub_process, call_activity, boundary_event, Element,
}
use lowcode_bpmn.Definition.Rules.{is_start}
use lowcode_bpmn.Definition.Expression.{Numerics, eval_condition}
use lowcode_bpmn.Errors.{Result, ok}

unfoldable pub boundary_cancels_activity : Element → Bool
boundary_cancels_activity el = elim el.cancel_activity [ none ↦ true | some b ↦ b ]

unfoldable pub is_boundary_host_kind : ElementKind → Bool
is_boundary_host_kind user_task = true
is_boundary_host_kind script_task = true
is_boundary_host_kind receive_task = true
is_boundary_host_kind service_task = true
is_boundary_host_kind send_task = true
is_boundary_host_kind business_rule_task = true
is_boundary_host_kind sub_process = true
is_boundary_host_kind call_activity = true
is_boundary_host_kind _ = false

abbrev pub is_boundary : ElementKind → Bool
is_boundary boundary_event = true
is_boundary _ = false

abbrev pub is_message : EventDefinitionType → Bool
is_message message = true
is_message _ = false

abbrev pub is_signal : EventDefinitionType → Bool
is_signal signal = true
is_signal _ = false

abbrev pub is_conditional : EventDefinitionType → Bool
is_conditional conditional = true
is_conditional _ = false

module _ (n : Numerics) where
  unfoldable pub boundary_message_match : Element → String → Vars → Result Bool
  unfolding effective_event_type eval_condition
  boundary_message_match el ref vars = elim el.event_definition [
    | none ↦ ok false
    | some ed ↦
        if not (is_boundary el.kind)
        then ok false
        else if not (is_message (effective_event_type (some ed)))
        then ok false
        else if not (ed.message_ref == ref)
        then ok false
        else eval_condition n ed.condition vars
  ]

  unfoldable pub boundary_signal_match : Element → String → Vars → Result Bool
  unfolding effective_event_type eval_condition
  boundary_signal_match el ref vars = elim el.event_definition [
    | none ↦ ok false
    | some ed ↦
        if not (is_boundary el.kind)
        then ok false
        else if not (is_signal (effective_event_type (some ed)))
        then ok false
        else if not (ed.signal_ref == ref)
        then ok false
        else eval_condition n ed.condition vars
  ]

  unfoldable pub signal_start_match : Element → String → Vars → Result Bool
  unfolding effective_event_type eval_condition
  signal_start_match el ref vars = elim el.event_definition [
    | none ↦ ok false
    | some ed ↦
        if not (is_start el.kind)
        then ok false
        else if not (is_signal (effective_event_type (some ed)))
        then ok false
        else if not (ed.signal_ref == ref)
        then ok false
        else eval_condition n ed.condition vars
  ]

  unfoldable pub conditional_start_match : Element → Vars → Result Bool
  unfolding effective_event_type eval_condition
  conditional_start_match el vars = elim el.event_definition [
    | none ↦ ok false
    | some ed ↦
        if not (is_start el.kind)
        then ok false
        else if not (is_conditional (effective_event_type (some ed)))
        then ok false
        else eval_condition n ed.condition vars
  ]

  unfoldable pub message_start_match : Element → String → Vars → Result Bool
  unfolding effective_event_type eval_condition
  message_start_match el ref vars = elim el.event_definition [
    | none ↦ ok false
    | some ed ↦
        if not (is_start el.kind)
        then ok false
        else if not (is_message (effective_event_type (some ed)))
        then ok false
        else if not (ed.message_ref == ref)
        then ok false
        else eval_condition n ed.condition vars
  ]

  -- The text of the value, as fmt.Sprint prints it.
  abbrev key_text : Option Value → String
  key_text none = ""
  key_text (some null) = ""
  key_text (some (str s)) = s
  key_text (some v) = n.sprint v

  unfoldable pub business_key_from_correlation : Vars → String → String
  unfolding resolve_path
  business_key_from_correlation vars key =
      if is_empty key then "" else key_text (resolve_path vars key)
