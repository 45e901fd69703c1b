-- ===== src/Store/Database/RoundTrip.antt =====
-- internal/store/gormstore/convert.go: a row is read as it was written.
use lowcode_bpmn.Prelude.{none, [], ◌≡◌, refl, if◌then◌else◌}
use lowcode_bpmn.Vars.{end}
use lowcode_bpmn.Runtime.{ProcessInstance, ActivityInstance, DeployedProcess, Job}
use lowcode_bpmn.Errors.{ok}
use lowcode_bpmn.Text.{is_empty}
use lowcode_bpmn.Store.Database.{
  Json, Jsons, BpmnProcess, BpmnInstance, BpmnActivity, BpmnJob, no_definition, to_json, from_json,
  process_from_model, process_to_model, instance_from_model, instance_to_model, activity_from_model,
  activity_to_model, job_from_model, job_to_model,
}

module _ {J : Type 0} (json : Jsons J) where
  -- JSON keeps the value: it is written as a text that is not empty and that reads as the value.
  pub record Stays {A : Type 0} (format : Json J A) (zero v : A) : Type 0 where
    pub bytes : J
    pub written : to_json json format v ≡ ok bytes
    pub read : from_json json format bytes zero ≡ ok v

  -- An instance of which JSON keeps the variables, the internal state, the active elements and the snapshot is
  -- written as a row, and the row is read as the instance.
  pub instance_from_model-instance_to_model :
      (inst : ProcessInstance)
      → Stays json.vars end inst.variables
      → Stays json.vars end inst.internal_state
      → Stays json.strings [] inst.active_elements
      → Stays json.definition no_definition inst.definition_snapshot
      → (row : BpmnInstance J) × (instance_to_model json inst ≡ ok row)
        × (instance_from_model json row ≡ ok inst)
  unfolding instance_to_model instance_from_model
  instance_from_model-instance_to_model inst v i a d = (
    record {
      id = inst.id;
      tenant_id = inst.tenant_id;
      process_key = inst.process_key;
      process_version = inst.process_version;
      business_key = inst.business_key;
      status = inst.status;
      variables = v.bytes;
      internal_state = i.bytes;
      active_elements = a.bytes;
      definition_snapshot = d.bytes;
      lock_version = inst.lock_version;
      error_message = inst.error_msg;
      started_at = inst.started_at;
      ended_at = inst.ended_at;
      updated_at = inst.updated_at;
    },
    rw (instance_to_model, v.written, i.written, a.written, d.written) refl,
    rw (instance_from_model, v.read, i.read, a.read, d.read) refl,
  )

  -- An activity of which JSON keeps the assignees, the pending assignees, none told from an empty list, the
  -- approval records, the input and the output is written as a row, and the row is read as the activity.
  pub activity_from_model-activity_to_model :
      (act : ActivityInstance)
      → Stays json.strings [] act.assignees
      → Stays json.vars end act.input
      → Stays json.vars end act.output
      → Stays json.pending none act.pending_assignees
      → Stays json.records [] act.approval_records
      → (row : BpmnActivity J) × (activity_to_model json act ≡ ok row)
        × (activity_from_model json row ≡ ok act)
  unfolding activity_to_model activity_from_model
  activity_from_model-activity_to_model act a i o p r = (
    record {
      id = act.id;
      process_instance_id = act.process_instance_id;
      element_id = act.element_id;
      element_kind = act.element_kind;
      status = act.status;
      scope_id = act.scope_id;
      branch_flow_id = act.branch_flow_id;
      outcome = act.outcome;
      assignees = a.bytes;
      approval_mode = act.approval_mode;
      required_approvals = act.required_approvals;
      pending_assignees = p.bytes;
      approval_records = r.bytes;
      input = i.bytes;
      output = o.bytes;
      error_message = act.error_msg;
      started_at = act.started_at;
      ended_at = act.ended_at;
    },
    rw (activity_to_model, a.written, i.written, o.written, p.written, r.written) refl,
    rw (activity_from_model, a.read, i.read, o.read, p.read, r.read) refl,
  )

  -- A version of a process of which JSON keeps the definition is written as a row, and the row is read as the
  -- version, with its key as its name if it has none.
  pub process_from_model-process_to_model :
      (p : DeployedProcess)
      → Stays json.definition no_definition p.definition
      → (row : BpmnProcess J) × (process_to_model json p ≡ ok row)
        × (process_from_model json row
            ≡ ok (record p { name = if is_empty p.name then p.key else p.name }))
  unfolding process_to_model process_from_model
  process_from_model-process_to_model p d = (
    record {
      tenant_id = p.tenant_id;
      process_key = p.key;
      version = p.version;
      name = if is_empty p.name then p.key else p.name;
      definition = d.bytes;
      created_at = p.created_at;
      updated_at = p.updated_at;
    },
    rw (process_to_model, d.written) refl,
    rw (process_from_model, d.read) refl,
  )

  -- A job of which JSON keeps the payload is written as a row, and the row is read as the job.
  pub job_from_model-job_to_model :
      (job : Job)
      → Stays json.vars end job.payload
      → (row : BpmnJob J) × (job_to_model json job ≡ ok row) × (job_from_model json row ≡ ok job)
  unfolding job_to_model job_from_model
  job_from_model-job_to_model job v = (
    record {
      id = job.id;
      process_instance_id = job.process_instance_id;
      job_type = job.type;
      payload = v.bytes;
      status = job.status;
      attempts = job.attempts;
      error_message = job.error_msg;
      created_at = job.created_at;
      locked_at = job.locked_at;
      completed_at = job.completed_at;
    },
    rw (job_to_model, v.written) refl,
    rw (job_from_model, v.read) refl,
  )
