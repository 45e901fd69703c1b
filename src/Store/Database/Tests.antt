-- ===== src/Store/Database/Tests.antt =====
-- The theorems on the rows, with a column that holds the value itself.
use lowcode_bpmn.Prelude.{String, Option, none, some, List, [], ◌∷◌, ◌≡◌, refl, false}
use lowcode_bpmn.Vars.{Vars, end, field, str}
use lowcode_bpmn.Definition.Model.{ProcessDefinition, user_task}
use lowcode_bpmn.Runtime.{
  ProcessInstance, ActivityInstance, ActivityStatus, Outcome, ApprovalRecord, DeployedProcess,
  Message,
}
use lowcode_bpmn.Errors.{Result, ok, err, no_file}
use lowcode_bpmn.Store.Database.{
  Jsons, BpmnProcess, BpmnInstance, BpmnActivity, no_definition, to_json, from_json,
  instance_to_model, instance_from_model, activity_to_model, activity_from_model, process_to_model,
  process_from_model,
}
use lowcode_bpmn.Store.Database.RoundTrip.{
  Stays, instance_from_model-instance_to_model, activity_from_model-activity_to_model,
  process_from_model-process_to_model,
}
use lowcode_bpmn.Engine.Samples.{early_end, instance_of}

data Cell : Type 0 where
  of_vars : Vars → Cell
  of_strings : List String → Cell
  of_pending : Option (List String) → Cell
  of_records : List ApprovalRecord → Cell
  of_definition : ProcessDefinition → Cell

abbrev read_vars : Cell → Vars → Result Vars
read_vars (of_vars v) zero = ok v
read_vars _ zero = err no_file

abbrev read_strings : Cell → List String → Result (List String)
read_strings (of_strings l) zero = ok l
read_strings _ zero = err no_file

abbrev read_pending : Cell → Option (List String) → Result (Option (List String))
read_pending (of_pending l) zero = ok l
read_pending _ zero = err no_file

abbrev read_records : Cell → List ApprovalRecord → Result (List ApprovalRecord)
read_records (of_records l) zero = ok l
read_records _ zero = err no_file

abbrev read_definition : Cell → ProcessDefinition → Result ProcessDefinition
read_definition (of_definition d) zero = ok d
read_definition _ zero = err no_file

abbrev cells : Jsons Cell
cells = record {
  no_json = λ c. false;
  vars = record { marshal = λ v. ok (of_vars v); unmarshal = read_vars };
  strings = record { marshal = λ l. ok (of_strings l); unmarshal = read_strings };
  pending = record { marshal = λ l. ok (of_pending l); unmarshal = read_pending };
  records = record { marshal = λ l. ok (of_records l); unmarshal = read_records };
  definition = record { marshal = λ d. ok (of_definition d); unmarshal = read_definition };
}

vars-Stays : (v : Vars) → Stays cells cells.vars end v
unfolding to_json from_json
vars-Stays v = record { bytes = of_vars v; written = refl; read = refl }

strings-Stays : (l : List String) → Stays cells cells.strings [] l
unfolding to_json from_json
strings-Stays l = record { bytes = of_strings l; written = refl; read = refl }

pending-Stays : (l : Option (List String)) → Stays cells cells.pending none l
unfolding to_json from_json
pending-Stays l = record { bytes = of_pending l; written = refl; read = refl }

records-Stays : (l : List ApprovalRecord) → Stays cells cells.records [] l
unfolding to_json from_json
records-Stays l = record { bytes = of_records l; written = refl; read = refl }

definition-Stays : (d : ProcessDefinition) → Stays cells cells.definition no_definition d
unfolding to_json from_json
definition-Stays d = record { bytes = of_definition d; written = refl; read = refl }

abbrev inst : ProcessInstance
inst = record (instance_of early_end) { variables = field "applicant" (str "ann") end }

instance_from_model-instance_to_model_example :
    (row : BpmnInstance Cell) × (instance_to_model cells inst ≡ ok row)
    × (instance_from_model cells row ≡ ok inst)
instance_from_model-instance_to_model_example =
    instance_from_model-instance_to_model cells inst (vars-Stays inst.variables)
      (vars-Stays inst.internal_state) (strings-Stays inst.active_elements)
      (definition-Stays inst.definition_snapshot)

abbrev act : ActivityInstance
act = record {
  id = 3;
  process_instance_id = 7;
  element_id = "ask";
  element_kind = user_task;
  status = ActivityStatus.active;
  scope_id = "";
  branch_flow_id = "f3";
  outcome = Outcome.undecided;
  assignees = "ann" ∷ "bob" ∷ [];
  approval_mode = "any";
  required_approvals = 1;
  pending_assignees = some ("bob" ∷ []);
  approval_records = [];
  input = end;
  output = end;
  error_msg = Message.blank;
  started_at = 1;
  ended_at = none;
}

activity_from_model-activity_to_model_example :
    (row : BpmnActivity Cell) × (activity_to_model cells act ≡ ok row)
    × (activity_from_model cells row ≡ ok act)
activity_from_model-activity_to_model_example =
    activity_from_model-activity_to_model cells act (strings-Stays act.assignees)
      (vars-Stays act.input) (vars-Stays act.output) (pending-Stays act.pending_assignees)
      (records-Stays act.approval_records)

abbrev deployed : DeployedProcess
deployed = record {
  tenant_id = "acme";
  key = "leave";
  version = 1;
  name = "";
  definition = early_end;
  created_at = 1;
  updated_at = 2;
}

process_from_model-process_to_model_example :
    (row : BpmnProcess Cell) × (process_to_model cells deployed ≡ ok row)
    × (process_from_model cells row ≡ ok (record deployed { name = "leave" }))
process_from_model-process_to_model_example =
    process_from_model-process_to_model cells deployed (definition-Stays deployed.definition)
