-- ===== src/Runtime.antt =====
-- internal/domain/runtime: instances, activities, deployments, jobs and requests. An id and a point in
-- time are numbers.
use lowcode_bpmn.Prelude.{ℕ, nat_eq, String, Bool, true, false, not, Option, List, ◌==◌}
use lowcode_bpmn.Vars.{Vars}
use lowcode_bpmn.Definition.Model.{ElementKind, ProcessDefinition}
use lowcode_bpmn.Errors.{Error, Result, reject_if, version_conflict}

abbrev pub Uuid : Type 0
Uuid = ℕ

abbrev pub Time : Type 0
Time = ℕ

pub data ActivityStatus : Type 0 where
  active completed failed cancelled : ActivityStatus

pub data ProcessInstanceStatus : Type 0 where
  pending running completed failed cancelled : ProcessInstanceStatus

-- The text in an `ErrorMsg` field: empty, a given text, or an error's message.
pub data Message : Type 0 where
  blank : Message
  text : String → Message
  of_error : Error → Message

pub data Outcome : Type 0 where
  undecided approve reject cancelled : Outcome

pub record ApprovalRecord : Type 0 where
  pub assignee : String
  pub action : String
  pub comment : String
  pub variables : Vars
  pub at : Time

-- `pending_assignees` tells a nil slice, `none`, from an empty one, as the engine does.
pub record ActivityInstance : Type 0 where
  pub id : Uuid
  pub process_instance_id : Uuid
  pub element_id : String
  pub element_kind : ElementKind
  pub status : ActivityStatus
  pub scope_id : String
  pub branch_flow_id : String
  pub outcome : Outcome
  pub assignees : List String
  pub approval_mode : String
  pub required_approvals : ℕ
  pub pending_assignees : Option (List String)
  pub approval_records : List ApprovalRecord
  pub input : Vars
  pub output : Vars
  pub error_msg : Message
  pub started_at : Time
  pub ended_at : Option Time

pub record ProcessInstance : Type 0 where
  pub id : Uuid
  pub tenant_id : String
  pub process_key : String
  pub process_version : ℕ
  pub business_key : String
  pub status : ProcessInstanceStatus
  pub variables : Vars
  pub active_elements : List String
  pub error_msg : Message
  pub started_at : Time
  pub ended_at : Option Time
  pub updated_at : Time
  pub lock_version : ℕ
  pub definition_snapshot : ProcessDefinition
  pub internal_state : Vars

pub record DeployedProcess : Type 0 where
  pub tenant_id : String
  pub key : String
  pub version : ℕ
  pub name : String
  pub definition : ProcessDefinition
  pub created_at : Time
  pub updated_at : Time

pub data JobType : Type 0 where
  start continue : JobType
  unknown_job : String → JobType

pub data JobStatus : Type 0 where
  pending running done failed : JobStatus

pub record Job : Type 0 where
  pub id : Uuid
  pub process_instance_id : Uuid
  pub type : JobType
  pub payload : Vars
  pub status : JobStatus
  pub attempts : ℕ
  pub error_msg : Message
  pub created_at : Time
  pub locked_at : Option Time
  pub completed_at : Option Time

pub record CompleteTaskRequest : Type 0 where
  pub process_instance_id : Uuid
  pub activity_id : Uuid
  pub assignee : String
  pub action : String
  pub comment : String
  pub variables : Vars
  pub lock_version : ℕ

pub record TerminateRequest : Type 0 where
  pub process_instance_id : Uuid
  pub scope_id : String
  pub reason : String
  pub operator : String
  pub lock_version : ℕ

pub record UpdateAssigneesRequest : Type 0 where
  pub process_instance_id : Uuid
  pub activity_id : Uuid
  pub assignees : List String
  pub pending_assignees : Option (List String)
  pub operator : String
  pub lock_version : ℕ

unfoldable pub is_terminal : ProcessInstanceStatus → Bool
is_terminal ProcessInstanceStatus.completed = true
is_terminal ProcessInstanceStatus.failed = true
is_terminal ProcessInstanceStatus.cancelled = true
is_terminal _ = false

abbrev pub is_running : ProcessInstanceStatus → Bool
is_running ProcessInstanceStatus.running = true
is_running _ = false

abbrev pub is_active : ActivityStatus → Bool
is_active active = true
is_active _ = false

unfoldable pub lock_conflict : (client_version : ℕ) → ProcessInstance → Result (Unit {0})
lock_conflict version inst = reject_if (not (version == inst.lock_version)) version_conflict
