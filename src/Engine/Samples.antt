-- ===== src/Engine/Samples.antt =====
-- Small processes, and runs of the engine on them.
pub mod Waiting
use lowcode_bpmn.Prelude.{ℤ, ◌+◌, String, true, false, none, List, [], ◌∷◌, ◌≡◌, refl, inl}
use lowcode_bpmn.Vars.{bool, end, field}
use lowcode_bpmn.Definition.Model.{
  ElementKind, start_event, end_event, user_task, script_task, parallel_gateway, Element,
  SequenceFlow, ProcessDefinition,
}
use lowcode_bpmn.Definition.Approval.{validate_user_task_approval}
use lowcode_bpmn.Definition.Expression.{Numerics}
use lowcode_bpmn.Definition.Registry.{Registry, build_registry, empty_registry}
use lowcode_bpmn.Definition.Rules.{
  is_supported_kind, validate_start_event_event_definition, is_extension_kind,
  validate_extension_element,
}
use lowcode_bpmn.Runtime.{ProcessInstance, ProcessInstanceStatus, Message}
use lowcode_bpmn.Store.Memory.{new_store, itoa}
use lowcode_bpmn.Errors.{Result, ok, err}
use lowcode_bpmn.Engine.State.{World, Exec, ◌>>=◌}
use lowcode_bpmn.Engine.Activate.{activate_element}

abbrev pub numerics : Numerics
numerics = record {
  parse_float = λ s. none;
  atoi = λ s. none;
  float_of_int = λ i. 0;
  float_eq = λ a b. true;
  float_le = λ a b. true;
  float_lt = λ a b. false;
  int_eq = λ a b. true;
  sprint = λ v. "";
}

-- The clock starts at 1, and ids are handed out from 100 on. A script answers with one variable.
abbrev pub world : World
world = record {
  numerics = numerics;
  time_now = λ n. n + 1;
  uuid_new = λ n. n + 100;
  run_script = λ n req. inl (field "done" (bool true) end);
  http_do = λ n method url. inl (record { status_code = ℤ.pos 200; body = "" });
  to_upper = λ s. s;
  uuid_text = itoa;
}

abbrev pub node : String → ElementKind → Element
node id kind = record {
  id = id;
  kind = kind;
  name = "";
  description = "";
  assignees = [];
  assignees_variable = "";
  approval_mode = "";
  required_approvals = 0;
  return_to = "";
  on_reject = "";
  scope_id = "";
  entry_ref = "";
  exit_ref = "";
  script = "x";
  script_lang = "";
  task_type = "";
  implementation = "";
  service_url = "";
  service_method = "";
  message_ref = "";
  decision_ref = "";
  auto_complete = false;
  event_definition = none;
  attached_to_ref = "";
  cancel_activity = none;
  called_element = "";
  multi_instance = none;
  lane_ref = "";
  data_input_refs = [];
  data_output_refs = [];
  form_key = "";
  form_url = "";
  extension_handler = "";
  event_sub_process = false;
  properties = end;
}

abbrev pub flow : String → String → String → SequenceFlow
flow id source target = record {
  id = id;
  source_ref = source;
  target_ref = target;
  name = "";
  condition = "";
  is_default = false;
}

abbrev pub process : List Element → List SequenceFlow → ProcessDefinition
process elements flows = record {
  id = "p";
  name = "";
  description = "";
  elements = elements;
  flows = flows;
  lane_set = [];
  data_objects = [];
  data_stores = [];
  collaboration = none;
}

-- start → fork → (early end | approval by ann) → end
abbrev pub early_end : ProcessDefinition
early_end =
    process
      (node "s" start_event
        ∷ node "fork" parallel_gateway
        ∷ node "out" end_event
        ∷ record (node "ask" user_task) { assignees = "ann" ∷ [] }
        ∷ node "e" end_event
        ∷ [])
      (flow "f1" "s" "fork"
        ∷ flow "f2" "fork" "out"
        ∷ flow "f3" "fork" "ask"
        ∷ flow "f4" "ask" "e"
        ∷ [])

-- start → fork → two scripts → join → end
abbrev pub fork_join : ProcessDefinition
fork_join =
    process
      (node "s" start_event
        ∷ node "fork" parallel_gateway
        ∷ node "a" script_task
        ∷ node "b" script_task
        ∷ node "join" parallel_gateway
        ∷ node "e" end_event
        ∷ [])
      (flow "f1" "s" "fork"
        ∷ flow "f2" "fork" "a"
        ∷ flow "f3" "fork" "b"
        ∷ flow "f4" "a" "join"
        ∷ flow "f5" "b" "join"
        ∷ flow "f6" "join" "e"
        ∷ [])

abbrev pub instance_of : ProcessDefinition → ProcessInstance
instance_of def = record {
  id = 7;
  tenant_id = "t";
  process_key = "k";
  process_version = 1;
  business_key = "";
  status = ProcessInstanceStatus.running;
  variables = end;
  active_elements = [];
  error_msg = Message.blank;
  started_at = 1;
  ended_at = none;
  updated_at = 1;
  lock_version = 0;
  definition_snapshot = def;
  internal_state = end;
}

abbrev pub exec_of : ProcessDefinition → Exec
exec_of def = record {
  store = record new_store { process_instances = (7, instance_of def) ∷ [] };
  inst = instance_of def;
  scope_id = "";
  branch_flow_id = "";
  readings = 0;
  uuids = 0;
  calls = 0;
}

abbrev pub registry_or : Result Registry → Registry → Registry
registry_or (ok r) d = r
registry_or (err e) d = d

-- What a run of the code unfolds.
unfoldable pub program : Unit {0}
unfolding build_registry is_supported_kind validate_start_event_event_definition is_extension_kind
    validate_extension_element validate_user_task_approval activate_element ◌>>=◌
program = tt

unfoldable pub early_end_registry : Registry
unfolding program
early_end_registry = registry_or (build_registry early_end) (empty_registry early_end)

unfoldable pub fork_join_registry : Registry
unfolding program
fork_join_registry = registry_or (build_registry fork_join) (empty_registry fork_join)

pub early_end_built : build_registry early_end ≡ ok early_end_registry
unfolding program early_end_registry
early_end_built = refl

pub fork_join_built : build_registry fork_join ≡ ok fork_join_registry
unfolding program fork_join_registry
fork_join_built = refl

pub early_end_run : Result (Unit {0}) × Exec
unfolding program early_end_registry
early_end_run = activate_element world early_end_registry 10 "s" "" (exec_of early_end)

pub fork_join_run : Result (Unit {0}) × Exec
unfolding program fork_join_registry
fork_join_run = activate_element world fork_join_registry 10 "s" "" (exec_of fork_join)

-- Both scripts run and the join fires once.
fork_join_completes :
    (fork_join_run.0 ≡ ok tt)
    × (fork_join_run.1.inst.status ≡ ProcessInstanceStatus.completed)
    × (fork_join_run.1.inst.internal_state ≡ end)
    × (fork_join_run.1.uuids ≡ 12)
unfolding fork_join_run
fork_join_completes = (refl, refl, refl, refl)

-- The early end completes the instance although the approval still waits.
early_end_completes :
    (early_end_run.0 ≡ ok tt)
    × (early_end_run.1.inst.status ≡ ProcessInstanceStatus.completed)
    × (early_end_run.1.inst.active_elements ≡ "ask" ∷ [])
unfolding early_end_run
early_end_completes = (refl, refl, refl)
