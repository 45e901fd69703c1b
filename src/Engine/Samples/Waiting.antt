-- ===== src/Engine/Samples/Waiting.antt =====
-- A process that waits for a user, with a boundary event, and the run that has come to it.
use lowcode_bpmn.Prelude.{none, some, [], ◌∷◌, nat_eq}
use lowcode_bpmn.Vars.{end}
use lowcode_bpmn.Definition.Event.{EventDefinition, message}
use lowcode_bpmn.Definition.Model.{
  start_event, end_event, user_task, boundary_event, receive_task, Element, ProcessDefinition,
}
use lowcode_bpmn.Definition.Registry.{Registry, build_registry, empty_registry}
use lowcode_bpmn.Runtime.{
  ActivityInstance, ActivityStatus, ProcessInstance, DeployedProcess, Outcome, Message,
}
use lowcode_bpmn.Store.Memory.{new_store}
use lowcode_bpmn.Engine.State.{Exec}
use lowcode_bpmn.Engine.Samples.{program, node, flow, process, instance_of, exec_of, registry_or}

abbrev pub message_event : EventDefinition
message_event = record {
  type = message;
  message_ref = "m";
  signal_ref = "";
  correlation_key = "";
  condition = "";
  timer_cycle = "";
  error_ref = "";
}

-- start by message → approval by ann or bob, with an event that a message sets off → end
abbrev pub hosted : ProcessDefinition
hosted =
    process
      (record (node "s" start_event) { event_definition = some message_event }
        ∷ record (node "ask" user_task) { assignees = "ann" ∷ "bob" ∷ [] }
        ∷ record (node "late" boundary_event) {
          attached_to_ref = "ask";
          event_definition = some message_event;
        }
        ∷ record (node "reply" receive_task) { message_ref = "r" }
        ∷ node "e" end_event
        ∷ [])
      (flow "f1" "s" "ask"
        ∷ flow "f2" "ask" "e"
        ∷ flow "f3" "late" "reply"
        ∷ flow "f4" "reply" "e"
        ∷ [])

unfoldable pub hosted_registry : Registry
unfolding program
hosted_registry = registry_or (build_registry hosted) (empty_registry hosted)

abbrev pub late : Element
late = record (node "late" boundary_event) {
  attached_to_ref = "ask";
  event_definition = some message_event;
}

abbrev pub host : ActivityInstance
host = record {
  id = 3;
  process_instance_id = 7;
  element_id = "ask";
  element_kind = user_task;
  status = ActivityStatus.active;
  scope_id = "";
  branch_flow_id = "";
  outcome = Outcome.undecided;
  assignees = "ann" ∷ "bob" ∷ [];
  approval_mode = "any";
  required_approvals = 1;
  pending_assignees = some ("ann" ∷ "bob" ∷ []);
  approval_records = [];
  input = end;
  output = end;
  error_msg = Message.blank;
  started_at = 1;
  ended_at = none;
}

abbrev pub waiting_for_reply : ActivityInstance
waiting_for_reply = record host {
  id = 4;
  element_id = "reply";
  element_kind = receive_task;
  assignees = [];
  pending_assignees = none;
}

abbrev pub hosted_instance : ProcessInstance
hosted_instance = record (instance_of hosted) {
  active_elements = "ask" ∷ [];
  business_key = "order-1";
}

abbrev pub deployed : DeployedProcess
deployed = record {
  tenant_id = "t";
  key = "k";
  version = 1;
  name = "";
  definition = hosted;
  created_at = 1;
  updated_at = 1;
}

abbrev pub hosted_exec : Exec
hosted_exec = record (exec_of hosted) {
  inst = hosted_instance;
  store = record new_store {
    processes = ("t/k/v1", deployed) ∷ [];
    process_instances = (7, hosted_instance) ∷ [];
    activity_instances = (3, host) ∷ (4, waiting_for_reply) ∷ [];
  };
}
