-- ===== src/Engine/Tasks.antt =====
-- internal/engine/tasks.go and extension.go: automated tasks, and the elements that wait.
use lowcode_bpmn.Prelude.{
  String, string_eq, true, ◌||◌, not, Option, none, some, [], ◌∷◌, if◌then◌else◌, map,
}
use lowcode_bpmn.Text.{is_empty, trim_space}
use lowcode_bpmn.Vars.{Vars, str, bool, int, strs, event, loop, end, field, put, assign}
use lowcode_bpmn.Definition.Model.{
  ElementKind, service_task, send_task, business_rule_task, kind_name, Element, Lane,
}
use lowcode_bpmn.Definition.Registry.{Registry, boundary_events, lane_for_element}
use lowcode_bpmn.Runtime.{ActivityInstance, ActivityStatus, Message}
use lowcode_bpmn.Errors.{Error, Result, ok, err, unsupported_element_kind}
use lowcode_bpmn.Engine.Approval.{append_unique}
use lowcode_bpmn.Engine.State.{
  World, RunRequest, Exec, M, pure, throw, gets, ◌>>=◌, ◌>>◌, set_active, set_variables, now, touch,
  update_activity, update_instance, run_script, http_do,
}
use lowcode_bpmn.Engine.Flow.{Activate, complete_element}

unfoldable pub attach_boundary_metadata : Registry → String → ActivityInstance → ActivityInstance
unfolding boundary_events put
attach_boundary_metadata reg id act = elim (boundary_events reg id) [
  | [] ↦ act
  | b ∷ bs ↦ record act {
    input = put "boundaryEvents" (strs (map (λ (e : Element). e.id) (b ∷ bs))) act.input;
  }
]

unfoldable pub put_lane : Option Lane → Vars → Vars
unfolding put
put_lane none vars = vars
put_lane (some lane) vars = put "laneName" (str lane.name) (put "laneId" (str lane.id) vars)

abbrev put_text : String → String → Vars → Vars
put_text key text vars = if is_empty text then vars else put key (str text) vars

unfoldable pub extension_activity_input : Registry → Element → Vars
unfolding put put_lane lane_for_element kind_name
extension_activity_input reg el =
    let base = put "kind" (str (kind_name el.kind)) (put "extensionRequired" (bool true) end) in
    let called = put_text "calledElement" el.called_element base in
    let handled = put_text "extensionHandler" el.extension_handler called in
    let evented : Vars = elim el.event_definition [
      | none ↦ handled
      | some ed ↦ put "eventDefinition" (event ed) handled
    ] in
    let looped : Vars = elim el.multi_instance [
      | none ↦ evented
      | some mi ↦ put "multiInstance" (loop mi) evented
    ] in
    put_lane (lane_for_element reg el.id) looped

module _ (w : World) (reg : Registry) where
  abbrev script_request : String → Element → Exec → RunRequest
  script_request id el s = record {
    script = el.script;
    lang = el.script_lang;
    variables = s.inst.variables;
    instance_id = s.inst.id;
    element_id = id;
    tenant_id = s.inst.tenant_id;
    process_key = s.inst.process_key;
  }

  unfoldable pub run_service_task : Element → M Vars
  unfolding put http_do trim_space
  run_service_task el =
      let out = put "taskType" (str el.task_type) end in
      if is_empty el.service_url then pure (put "serviceTask" (str "completed") out) else do
        let upper = w.to_upper (trim_space el.service_method)
        resp ← http_do w (if is_empty upper then "GET" else upper) el.service_url
        pure (put "serviceBody" (str resp.body) (put "serviceStatus" (int resp.status_code) out))

  -- The log line is left out.
  unfoldable pub run_send_task : Element → M Vars
  run_send_task el = pure (
      field "sent" (bool true)
        (field "messageRef" (str el.message_ref) (field "taskType" (str el.task_type) end)))

  unfoldable pub run_element_script : String → Element → M Vars
  unfolding run_script
  run_element_script id el = do req ← gets (script_request id el); run_script w req

  unfoldable pub run_business_rule_task : Element → M Vars
  unfolding run_element_script
  run_business_rule_task el =
      if not (is_empty el.script)
      then run_element_script el.id el
      else pure (
          field "decisionRef" (str el.decision_ref)
            (field "taskType" (str el.task_type) (field "evaluated" (bool true) end)))

  unfoldable pub run_automated_task : ElementKind → Element → M Vars
  unfolding run_service_task run_send_task run_business_rule_task
  run_automated_task service_task el = run_service_task el
  run_automated_task send_task el = run_send_task el
  run_automated_task business_rule_task el = run_business_rule_task el
  run_automated_task kind el = throw (unsupported_element_kind kind)

  -- The activity ends with this status.
  unfoldable pub finish : ActivityInstance → M (Unit {0})
  unfolding now update_activity
  finish act = do
    t ← now w
    update_activity w (record act { status = ActivityStatus.completed; ended_at = some t })

  unfoldable pub fail_activity : Error → ActivityInstance → M (Unit {0})
  unfolding now update_activity
  fail_activity e act = do
    t ← now w
    update_activity w (record act {
      status = ActivityStatus.failed;
      error_msg = Message.of_error e;
      ended_at = some t;
    })

  -- The element joins the active ones of the instance.
  unfoldable pub wait_at : String → M (Unit {0})
  unfolding touch update_instance
  wait_at id = do set_active (λ active. append_unique active id); touch w; update_instance w

  unfoldable pub activate_extension_element : Element → ActivityInstance → M (Unit {0})
  unfolding wait_at update_activity extension_activity_input
  activate_extension_element el act = do
    update_activity w (record act { input = extension_activity_input reg el })
    wait_at el.id

  module _ (activate : Activate) where
    unfoldable pub complete_automated_task : String → ActivityInstance → Result Vars → M (Unit {0})
    unfolding fail_activity touch update_instance finish complete_element assign
    complete_automated_task id act (err e) = do fail_activity e act; throw e
    complete_automated_task id act (ok out) = do
      set_variables (λ vars. assign vars out)
      touch w
      update_instance w
      finish (record act { output = out })
      complete_element w reg activate id

    unfoldable pub activate_receive_task : Element → ActivityInstance → M (Unit {0})
    unfolding finish complete_element attach_boundary_metadata wait_at update_activity
    activate_receive_task el act =
        if el.auto_complete || is_empty el.message_ref
        then finish act >> complete_element w reg activate el.id
        else update_activity w (
            attach_boundary_metadata reg el.id
              (record act { input = field "messageRef" (str el.message_ref) end }))
          >> wait_at el.id
