-- ===== src/Engine/Complete.antt =====
-- internal/engine/engine.go and reject.go: `CompleteTask`, `Terminate` and `failInstance`.
pub mod Guarded
use lowcode_bpmn.Prelude.{
  ℕ, suc, ltb, nat_beq, nat_eq, String, string_eq, Bool, true, false, ◌&&◌, not, Option, none, some,
  List, [], ◌∷◌, ◌==◌, length, if◌then◌else◌,
}
use lowcode_bpmn.Text.{is_empty}
use lowcode_bpmn.Vars.{str, end, field, assign}
use lowcode_bpmn.Definition.Approval.{is_user_task}
use lowcode_bpmn.Definition.Model.{Element}
use lowcode_bpmn.Definition.Registry.{Registry, build_registry, element}
use lowcode_bpmn.Runtime.{
  ActivityInstance, ActivityStatus, ProcessInstance, ProcessInstanceStatus, Outcome, Message, Job,
  JobType, JobStatus, Uuid, CompleteTaskRequest, TerminateRequest, is_running, is_active,
}
use lowcode_bpmn.Errors.{
  Error, Result, ok, err, reject_if, instance_not_found, process_not_running, version_conflict,
  activity_not_found, activity_of_other_instance, activity_not_active, not_a_user_task,
  snapshot_missing, element_not_found,
}
use lowcode_bpmn.Errors
use lowcode_bpmn.Store.Memory.{get_process_instance, get_activity_instance, enqueue_job}
use lowcode_bpmn.Engine.Approval.{
  ApprovalStep, apply_approval_step, merge_approval_output, remove_string,
}
use lowcode_bpmn.Engine.State.{
  World, Exec, M, ◌>>=◌, ◌>>◌, throw, lift, attempt, gets, done, modify, modify_inst, set_active,
  set_variables, set_updated, now, touch, update_activity, update_instance,
}
use lowcode_bpmn.Engine.Flow.{complete_element}
use lowcode_bpmn.Engine.Activate.{activate_element}
use lowcode_bpmn.Engine.Reject.{handle_task_reject, cancel_instance, terminate_scope}

unfoldable pub registry_for_instance : ProcessInstance → Result Registry
unfolding build_registry
registry_for_instance inst =
    if is_empty inst.definition_snapshot.id && nat_beq (length inst.definition_snapshot.elements) 0
    then err snapshot_missing
    else build_registry inst.definition_snapshot

abbrev pub found : {A : Type 0} → Error → Option A → Result A
found e none = err e
found e (some a) = ok a

-- The tests of an instance that both requests start with; a version of 0 is none.
unfoldable pub check_instance : ℕ → ProcessInstance → Result (Unit {0})
check_instance version inst =
    Errors.◌>>◌ (reject_if (not (is_running inst.status)) process_not_running)
      (reject_if (ltb 0 version && not (version == inst.lock_version)) version_conflict)

unfoldable pub check_task : Uuid → ActivityInstance → Result (Unit {0})
unfolding is_user_task
check_task instance_id act =
    Errors.◌>>◌
      (reject_if (not (act.process_instance_id == instance_id)) activity_of_other_instance)
      (Errors.◌>>◌ (reject_if (not (is_active act.status)) activity_not_active)
        (reject_if (not (is_user_task act.element_kind)) (not_a_user_task act.element_kind)))

-- A fresh `execState` for the instance.
abbrev pub load : ProcessInstance → M (Unit {0})
load inst = modify (λ s. record s { inst = inst; scope_id = ""; branch_flow_id = "" })

-- `e.store.GetProcessInstance(ctx, inst.ID)`, the result of a request.
abbrev pub read_back : M (Option ProcessInstance)
read_back = gets (λ s. get_process_instance s.inst.id s.store)

module _ (w : World) where
  unfoldable pub fail_instance : Error → M (Unit {0})
  unfolding now update_instance
  fail_instance e = do
    t ← now w
    modify_inst (λ inst. record inst {
      status = ProcessInstanceStatus.failed;
      error_msg = Message.of_error e;
      ended_at = some t;
      updated_at = t;
    })
    ignored ← attempt (update_instance w)
    throw e

  abbrev continue_job : Uuid → String → Job
  continue_job instance_id element_id = record {
    id = 0;
    process_instance_id = instance_id;
    type = JobType.continue;
    payload = field "element_id" (str element_id) end;
    status = JobStatus.pending;
    attempts = 0;
    error_msg = Message.blank;
    created_at = 0;
    locked_at = none;
    completed_at = none;
  }

  unfoldable pub enqueue : Job → M (Unit {0})
  unfolding enqueue_job
  enqueue job s =
      let (job', store') = enqueue_job (w.uuid_new s.uuids) (w.time_now s.readings) job s.store in
      (ok tt, record s { store = store'; readings = suc s.readings; uuids = suc s.uuids })

  abbrev pub or_fail : Result (Unit {0}) → M (Unit {0})
  or_fail (ok tt) = done
  or_fail (err e) = fail_instance e

  module _ (reg : Registry) (fuel : ℕ) where
    -- An approval that closes the task, with the engine's `async` flag.
    unfoldable pub approve_task : Bool → ActivityInstance → M (Unit {0})
    unfolding now update_activity remove_string update_instance enqueue complete_element
        activate_element fail_instance
    approve_task async act = do
      t ← now w
      update_activity w (record act {
        status = ActivityStatus.completed;
        outcome = Outcome.approve;
        ended_at = some t;
        pending_assignees = none;
      })
      (if async
          then set_active (λ active. remove_string active act.element_id)
            >> (update_instance w
                >> (gets (λ s. continue_job s.inst.id act.element_id) >>= enqueue))
          else attempt (complete_element w reg (activate_element w reg fuel) act.element_id)
            >>= or_fail)

    -- What follows the step of the approval.
    unfoldable pub after_step :
        Bool → CompleteTaskRequest → Element → ActivityInstance × ApprovalStep → M (Unit {0})
    unfolding touch update_activity update_instance handle_task_reject activate_element approve_task
        merge_approval_output assign
    after_step async req el out =
        let act : ActivityInstance = record out.0 { output = merge_approval_output out.0 } in
        set_variables (λ vars. assign vars req.variables)
        >> (if not out.1.done
            then touch w >> (update_activity w act >> update_instance w)
            else if out.1.rejected
            then handle_task_reject w reg (activate_element w reg fuel) act el req
            else approve_task async act)

    -- The approval of one activity of the loaded instance.
    unfoldable pub step_task :
        Bool → CompleteTaskRequest → ActivityInstance → M (Option ProcessInstance)
    unfolding element now apply_approval_step after_step get_process_instance
    step_task async req act = do
      el ← lift (found (element_not_found act.element_id) (element reg act.element_id))
      t ← now w
      later ← now w
      out ← lift (apply_approval_step t later act el req)
      after_step async req el out
      read_back

  unfoldable pub complete_task : Bool → ℕ → CompleteTaskRequest → M (Option ProcessInstance)
  unfolding get_process_instance get_activity_instance check_instance check_task
      registry_for_instance step_task
  complete_task async fuel req = do
    inst ← gets (λ s. get_process_instance req.process_instance_id s.store)
    inst' ← lift (found instance_not_found inst)
    lift (check_instance req.lock_version inst')
    act ← gets (λ s. get_activity_instance req.activity_id s.store)
    act' ← lift (found activity_not_found act)
    lift (check_task inst'.id act')
    reg ← lift (registry_for_instance inst')
    load inst'
    step_task reg fuel async req act'

  unfoldable pub terminate_process : TerminateRequest → M (Option ProcessInstance)
  unfolding get_process_instance check_instance registry_for_instance cancel_instance
      terminate_scope
  terminate_process req = do
    inst ← gets (λ s. get_process_instance req.process_instance_id s.store)
    inst' ← lift (found instance_not_found inst)
    lift (check_instance req.lock_version inst')
    reg ← lift (registry_for_instance inst')
    load inst'
    (if is_empty req.scope_id
        then cancel_instance w reg req.reason
        else terminate_scope w reg req.scope_id req.reason)
    read_back
