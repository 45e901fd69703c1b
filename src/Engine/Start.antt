-- ===== src/Engine/Start.antt =====
-- internal/engine/engine.go: `StartProcess` and the jobs of the asynchronous engine.
use lowcode_bpmn.Prelude.{
  ℕ, suc, String, string_eq, Bool, not, Option, none, some, List, [], ◌∷◌, if◌then◌else◌,
}
use lowcode_bpmn.Text.{is_empty}
use lowcode_bpmn.Vars.{Vars, Value, str, strs, arr, strings_of, end, get, put}
use lowcode_bpmn.Definition.Registry.{Registry, build_registry}
use lowcode_bpmn.Runtime.{
  ProcessInstance, ProcessInstanceStatus, DeployedProcess, Job, JobType, JobStatus, Message, Uuid,
  Time, is_running,
}
use lowcode_bpmn.Errors.{
  Result, ok, err, reject_if, process_not_found, process_not_running, instance_not_found,
  continue_job_missing_element, unknown_job_type,
}
use lowcode_bpmn.Store.Memory.{
  get_process, get_process_instance, create_process_instance, claim_next_job, complete_job,
  fail_job,
}
use lowcode_bpmn.Engine.State.{
  World, M, ◌>>=◌, ◌>>◌, throw, lift, attempt, gets, done, modify, now, new_uuid, update_instance,
}
use lowcode_bpmn.Engine.Flow.{complete_element}
use lowcode_bpmn.Engine.Activate.{activate_element}
use lowcode_bpmn.Engine.Complete.{
  registry_for_instance, found, load, read_back, or_fail, fail_instance, enqueue,
}

pub record StartProcessRequest : Type 0 where
  pub tenant_id : String
  pub process_key : String
  pub business_key : String
  pub variables : Vars
  pub start_element_ids : List String

abbrev pub new_instance : Uuid → Time → DeployedProcess → String → Vars → ProcessInstance
new_instance id t dp business_key vars = record {
  id = id;
  tenant_id = dp.tenant_id;
  process_key = dp.key;
  process_version = dp.version;
  business_key = business_key;
  status = ProcessInstanceStatus.running;
  variables = vars;
  active_elements = [];
  error_msg = Message.blank;
  started_at = t;
  ended_at = none;
  updated_at = t;
  lock_version = 0;
  definition_snapshot = dp.definition;
  internal_state = end;
}

abbrev or_start_events : List String → List String → List String
or_start_events [] events = events
or_start_events (id ∷ ids) events = id ∷ ids

-- The elements that a start job activates.
unfoldable pub start_ids : Registry → Option Value → List String
unfolding strings_of
start_ids reg (some (strs ids)) = or_start_events ids reg.start_events
start_ids reg (some (arr items)) = or_start_events (strings_of items) reg.start_events
start_ids reg _ = reg.start_events

-- The payload's `element_id`, or the empty text.
abbrev text_of : Option Value → String
text_of (some (str s)) = s
text_of _ = ""

module _ (w : World) where
  unfoldable pub create_instance : ProcessInstance → M (Unit {0})
  unfolding create_process_instance
  create_instance inst s =
      let (inst', store') =
        create_process_instance (w.uuid_new s.uuids) (w.time_now s.readings) inst s.store in
      (
        ok tt,
        record s {
          store = store';
          inst = inst';
          scope_id = "";
          branch_flow_id = "";
          readings = suc s.readings;
          uuids = suc s.uuids;
        },
      )

  abbrev start_job : Uuid → Job
  start_job instance_id = record {
    id = 0;
    process_instance_id = instance_id;
    type = JobType.start;
    payload = end;
    status = JobStatus.pending;
    attempts = 0;
    error_msg = Message.blank;
    created_at = 0;
    locked_at = none;
    completed_at = none;
  }

  unfoldable pub activate_all : Registry → ℕ → List String → M (Unit {0})
  unfolding activate_element
  activate_all reg fuel [] = done
  activate_all reg fuel (id ∷ ids) = activate_element w reg fuel id "" >> activate_all reg fuel ids

  unfoldable pub start_with_definition :
      ℕ → DeployedProcess → String → Vars → List String → M (Option ProcessInstance)
  unfolding build_registry now new_uuid create_instance activate_all fail_instance
      get_process_instance
  start_with_definition fuel dp business_key vars ids = do
    reg ← lift (build_registry dp.definition)
    t ← now w
    id ← new_uuid w
    create_instance (new_instance id t dp business_key vars)
    out ← attempt (activate_all reg fuel (or_start_events ids reg.start_events))
    or_fail w out
    read_back

  abbrev remember_starts : List String → Vars → Vars
  remember_starts [] internal = internal
  remember_starts (id ∷ ids) internal = put "start_element_ids" (strs (id ∷ ids)) internal

  unfoldable pub start_later : DeployedProcess → StartProcessRequest → M (Option ProcessInstance)
  unfolding put now new_uuid create_instance enqueue get_process_instance
  start_later dp req = do
    t ← now w
    id ← new_uuid w
    let inst = new_instance id t dp req.business_key req.variables
    create_instance (record inst {
      status = ProcessInstanceStatus.pending;
      internal_state = remember_starts req.start_element_ids inst.internal_state;
    })
    job ← gets (λ s. start_job s.inst.id)
    enqueue w job
    read_back

  unfoldable pub start_process : Bool → ℕ → StartProcessRequest → M (Option ProcessInstance)
  unfolding get_process start_later start_with_definition
  start_process async fuel req = do
    dp ← gets (λ s. get_process req.tenant_id req.process_key s.store)
    dp' ← lift (found (process_not_found req.tenant_id req.process_key) dp)
    (if async
        then start_later dp' req
        else start_with_definition fuel dp' req.business_key req.variables req.start_element_ids)

  unfoldable pub run_start_job : ℕ → Uuid → M (Unit {0})
  unfolding get_process_instance registry_for_instance update_instance start_ids get activate_all
      fail_instance
  run_start_job fuel id = do
    inst ← gets (λ s. get_process_instance id s.store)
    inst' ← lift (found instance_not_found inst)
    reg ← lift (registry_for_instance inst')
    load (record inst' { status = ProcessInstanceStatus.running })
    update_instance w
    ids ← gets (λ s. start_ids reg (get "start_element_ids" s.inst.internal_state))
    out ← attempt (activate_all reg fuel ids)
    or_fail w out

  unfoldable pub run_continue_job : ℕ → Uuid → String → M (Unit {0})
  unfolding get_process_instance registry_for_instance complete_element activate_element
      fail_instance
  run_continue_job fuel id element_id = do
    inst ← gets (λ s. get_process_instance id s.store)
    inst' ← lift (found instance_not_found inst)
    lift (reject_if (not (is_running inst'.status)) process_not_running)
    reg ← lift (registry_for_instance inst')
    load inst'
    out ← attempt (complete_element w reg (activate_element w reg fuel) element_id)
    or_fail w out

  unfoldable pub run_job : ℕ → JobType → Job → M (Unit {0})
  unfolding run_start_job run_continue_job get
  run_job fuel JobType.start job = run_start_job fuel job.process_instance_id
  run_job fuel JobType.continue job =
      if is_empty (text_of (get "element_id" job.payload))
      then throw continue_job_missing_element
      else run_continue_job fuel job.process_instance_id (text_of (get "element_id" job.payload))
  run_job fuel (JobType.unknown_job type) job = throw (unknown_job_type type)

  unfoldable pub claim : M (Option Job)
  unfolding claim_next_job
  claim s =
      let (job, store') = claim_next_job (w.time_now s.readings) s.store in
      (ok job, record s { store = store'; readings = suc s.readings })

  unfoldable pub end_job : Uuid → Result (Unit {0}) → M (Unit {0})
  unfolding fail_job complete_job now
  end_job id (err e) = do
    modify (λ s. record s { store = fail_job id (Message.of_error e) s.store })
    throw e
  end_job id (ok tt) = do t ← now w; modify (λ s. record s { store = complete_job t id s.store })

  unfoldable pub process_next_job : ℕ → M (Unit {0})
  unfolding claim run_job end_job
  process_next_job fuel = do
    claimed ← claim
    elim claimed [ none ↦ done | some job ↦ attempt (run_job fuel job.type job) >>= end_job job.id ]
