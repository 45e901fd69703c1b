-- ===== src/Store/Database.antt =====
-- internal/store/gormstore/convert.go, models.go: the rows of the database. The column types and the JSON library
-- are parameters; a status or a kind, which Go converts to its text and back, stands in the row as it is, and so
-- do the messages of errors.
pub mod RoundTrip
mod Tests
use lowcode_bpmn.Prelude.{ℕ, String, Bool, Option, none, List, [], if◌then◌else◌}
use lowcode_bpmn.Text.{is_empty}
use lowcode_bpmn.Vars.{Vars, end}
use lowcode_bpmn.Definition.Model.{ElementKind, ProcessDefinition}
use lowcode_bpmn.Runtime.{
  ProcessInstance, ProcessInstanceStatus, ActivityInstance, ActivityStatus, Outcome, ApprovalRecord,
  DeployedProcess, Job, JobType, JobStatus, Message, Time, Uuid,
}
use lowcode_bpmn.Errors.{Result, ok, err, ◌>>=◌}

-- json.Marshal at a type, and json.Unmarshal over a value of it.
pub record Json (J A : Type 0) : Type 0 where
  pub marshal : A → Result J
  pub unmarshal : J → A → Result A

pub record Jsons (J : Type 0) : Type 0 where
  pub no_json : J → Bool
  pub vars : Json J Vars
  pub strings : Json J (List String)
  pub pending : Json J (Option (List String))
  pub records : Json J (List ApprovalRecord)
  pub definition : Json J ProcessDefinition

pub record BpmnProcess (J : Type 0) : Type 0 where
  pub tenant_id : String
  pub process_key : String
  pub version : ℕ
  pub name : String
  pub definition : J
  pub created_at : Time
  pub updated_at : Time

pub record BpmnInstance (J : Type 0) : Type 0 where
  pub id : Uuid
  pub tenant_id : String
  pub process_key : String
  pub process_version : ℕ
  pub business_key : String
  pub status : ProcessInstanceStatus
  pub variables : J
  pub internal_state : J
  pub active_elements : J
  pub definition_snapshot : J
  pub lock_version : ℕ
  pub error_message : Message
  pub started_at : Time
  pub ended_at : Option Time
  pub updated_at : Time

pub record BpmnActivity (J : Type 0) : Type 0 where
  pub id : Uuid
  pub process_instance_id : Uuid
  pub element_id : String
  pub element_kind : ElementKind
  pub status : ActivityStatus
  pub scope_id : String
  pub branch_flow_id : String
  pub outcome : Outcome
  pub assignees : J
  pub approval_mode : String
  pub required_approvals : ℕ
  pub pending_assignees : J
  pub approval_records : J
  pub input : J
  pub output : J
  pub error_message : Message
  pub started_at : Time
  pub ended_at : Option Time

pub record BpmnJob (J : Type 0) : Type 0 where
  pub id : Uuid
  pub process_instance_id : Uuid
  pub job_type : JobType
  pub payload : J
  pub status : JobStatus
  pub attempts : ℕ
  pub error_message : Message
  pub created_at : Time
  pub locked_at : Option Time
  pub completed_at : Option Time

-- The zero value of a definition.
abbrev pub no_definition : ProcessDefinition
no_definition = record {
  id = "";
  name = "";
  description = "";
  elements = [];
  flows = [];
  lane_set = [];
  data_objects = [];
  data_stores = [];
  collaboration = none;
}

module _ {J : Type 0} (json : Jsons J) where
  unfoldable pub to_json : {A : Type 0} → Json J A → A → Result J
  to_json format v = format.marshal v

  unfoldable pub from_json : {A : Type 0} → Json J A → J → A → Result A
  from_json format raw zero = if json.no_json raw then ok zero else format.unmarshal raw zero

  unfoldable pub process_from_model : BpmnProcess J → Result DeployedProcess
  unfolding from_json
  process_from_model m = from_json json.definition m.definition no_definition >>= λ def.
      ok (record {
        tenant_id = m.tenant_id;
        key = m.process_key;
        version = m.version;
        name = m.name;
        definition = def;
        created_at = m.created_at;
        updated_at = m.updated_at;
      })

  unfoldable pub process_to_model : DeployedProcess → Result (BpmnProcess J)
  unfolding to_json
  process_to_model p = to_json json.definition p.definition >>= λ def. ok (record {
    tenant_id = p.tenant_id;
    process_key = p.key;
    version = p.version;
    name = if is_empty p.name then p.key else p.name;
    definition = def;
    created_at = p.created_at;
    updated_at = p.updated_at;
  })

  unfoldable pub instance_from_model : BpmnInstance J → Result ProcessInstance
  unfolding from_json
  instance_from_model m = from_json json.vars m.variables end >>= λ variables.
      from_json json.vars m.internal_state end >>= λ internal.
      from_json json.strings m.active_elements [] >>= λ active.
      from_json json.definition m.definition_snapshot no_definition >>= λ def. ok (record {
        id = m.id;
        tenant_id = m.tenant_id;
        process_key = m.process_key;
        process_version = m.process_version;
        business_key = m.business_key;
        status = m.status;
        variables = variables;
        active_elements = active;
        error_msg = m.error_message;
        started_at = m.started_at;
        ended_at = m.ended_at;
        updated_at = m.updated_at;
        lock_version = m.lock_version;
        definition_snapshot = def;
        internal_state = internal;
      })

  unfoldable pub instance_to_model : ProcessInstance → Result (BpmnInstance J)
  unfolding to_json
  instance_to_model inst = to_json json.vars inst.variables >>= λ variables.
      to_json json.vars inst.internal_state >>= λ internal.
      to_json json.strings inst.active_elements >>= λ active.
      to_json json.definition inst.definition_snapshot >>= λ snap. ok (record {
        id = inst.id;
        tenant_id = inst.tenant_id;
        process_key = inst.process_key;
        process_version = inst.process_version;
        business_key = inst.business_key;
        status = inst.status;
        variables = variables;
        internal_state = internal;
        active_elements = active;
        definition_snapshot = snap;
        lock_version = inst.lock_version;
        error_message = inst.error_msg;
        started_at = inst.started_at;
        ended_at = inst.ended_at;
        updated_at = inst.updated_at;
      })

  unfoldable pub activity_from_model : BpmnActivity J → Result ActivityInstance
  unfolding from_json
  activity_from_model m = from_json json.strings m.assignees [] >>= λ assignees.
      from_json json.vars m.input end >>= λ input. from_json json.vars m.output end >>= λ output.
      from_json json.pending m.pending_assignees none >>= λ pending.
      from_json json.records m.approval_records [] >>= λ records. ok (record {
        id = m.id;
        process_instance_id = m.process_instance_id;
        element_id = m.element_id;
        element_kind = m.element_kind;
        status = m.status;
        scope_id = m.scope_id;
        branch_flow_id = m.branch_flow_id;
        outcome = m.outcome;
        assignees = assignees;
        approval_mode = m.approval_mode;
        required_approvals = m.required_approvals;
        pending_assignees = pending;
        approval_records = records;
        input = input;
        output = output;
        error_msg = m.error_message;
        started_at = m.started_at;
        ended_at = m.ended_at;
      })

  unfoldable pub activity_to_model : ActivityInstance → Result (BpmnActivity J)
  unfolding to_json
  activity_to_model act = to_json json.strings act.assignees >>= λ assignees.
      to_json json.vars act.input >>= λ input. to_json json.vars act.output >>= λ output.
      to_json json.pending act.pending_assignees >>= λ pending.
      to_json json.records act.approval_records >>= λ records. ok (record {
        id = act.id;
        process_instance_id = act.process_instance_id;
        element_id = act.element_id;
        element_kind = act.element_kind;
        status = act.status;
        scope_id = act.scope_id;
        branch_flow_id = act.branch_flow_id;
        outcome = act.outcome;
        assignees = assignees;
        approval_mode = act.approval_mode;
        required_approvals = act.required_approvals;
        pending_assignees = pending;
        approval_records = records;
        input = input;
        output = output;
        error_message = act.error_msg;
        started_at = act.started_at;
        ended_at = act.ended_at;
      })

  unfoldable pub job_from_model : BpmnJob J → Result Job
  unfolding from_json
  job_from_model m = from_json json.vars m.payload end >>= λ payload. ok (record {
    id = m.id;
    process_instance_id = m.process_instance_id;
    type = m.job_type;
    payload = payload;
    status = m.status;
    attempts = m.attempts;
    error_msg = m.error_message;
    created_at = m.created_at;
    locked_at = m.locked_at;
    completed_at = m.completed_at;
  })

  unfoldable pub job_to_model : Job → Result (BpmnJob J)
  unfolding to_json
  job_to_model job = to_json json.vars job.payload >>= λ payload. ok (record {
    id = job.id;
    process_instance_id = job.process_instance_id;
    job_type = job.type;
    payload = payload;
    status = job.status;
    attempts = job.attempts;
    error_message = job.error_msg;
    created_at = job.created_at;
    locked_at = job.locked_at;
    completed_at = job.completed_at;
  })
