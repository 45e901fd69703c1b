-- ===== src/Engine/Tests/Requests.antt =====
-- The theorems on requests, on a process that waits.
use lowcode_bpmn.Prelude.{
  String, string_eq, Bool, true, false, Option, none, some, List, [], ◌∷◌, ◌≡◌, refl, Memᴰ, filter,
  nat_eq,
}
use lowcode_bpmn.Vars.{Vars, bool, end, field}
use lowcode_bpmn.Definition.Model.{SequenceFlow}
use lowcode_bpmn.Definition.Expression.{eval_condition}
use lowcode_bpmn.Definition.Registry.{element}
use lowcode_bpmn.Runtime.{
  ProcessInstance, ActivityInstance, UpdateAssigneesRequest, DeployedProcess,
}
use lowcode_bpmn.Errors.{Result, ok, err}
use lowcode_bpmn.Store.Memory.{get_process_instance, get_activity_instance}
use lowcode_bpmn.Engine.State.{Exec}
use lowcode_bpmn.Engine.Activate.{activate_element}
use lowcode_bpmn.Engine.Flow.{complete_element}
use lowcode_bpmn.Engine.Boundary.{fire_boundary_event}
use lowcode_bpmn.Engine.Boundary.Once.{fires_once}
use lowcode_bpmn.Engine.Activity.{
  CompleteActivityRequest, complete_activity, choose_complex, choose_event_based, match_complex,
  complex_ids, complete_element_with_selection,
}
use lowcode_bpmn.Engine.Activity.Guarded.{
  CompletableActivity, complete_activity-CompletableActivity,
}
use lowcode_bpmn.Engine.Activity.Gateways.{
  TakesEvent, choose_event_based-TakesEvent, all_evaluate, has_true_condition,
  match_complex-eq-filter, ids, choose_complex-eq-complex_ids, completed_ids, completions_agree,
}
use lowcode_bpmn.Engine.Reassign.{
  RemoveUserSyncRequest, RemoveUserSyncResult, update_activity_assignees,
  remove_user_from_active_tasks,
}
use lowcode_bpmn.Engine.Reassign.Guarded.{Reassignable, update_activity_assignees-Reassignable}
use lowcode_bpmn.Engine.Reassign.Accounts.{Balanced, remove_user-Balanced}
use lowcode_bpmn.Engine.Deploy.{deploy_process}
use lowcode_bpmn.Engine.Deploy.Readable.{Readable, deploy_process-Readable}
use lowcode_bpmn.Engine.Samples.{
  program, numerics, world, flow, early_end, early_end_registry, node,
}
use lowcode_bpmn.Definition.Model.{start_event}
use lowcode_bpmn.Engine.Samples.Waiting.{
  hosted_registry, hosted_exec, hosted_instance, host, late, deployed,
}

-- Boundary events.
instance_stored : get_process_instance 7 hosted_exec.store ≡ some hosted_instance
unfolding get_process_instance
instance_stored = refl

host_stored : get_activity_instance 3 hosted_exec.store ≡ some host
unfolding get_activity_instance
host_stored = refl

fires_once_example :
    (fire_boundary_event world hosted_registry 5 end 7 3 late
      (fire_boundary_event world hosted_registry 5 end 7 3 late hosted_exec).1).1
    ≡ (fire_boundary_event world hosted_registry 5 end 7 3 late hosted_exec).1
fires_once_example =
    fires_once world hosted_registry 5 end hosted_instance host late hosted_exec instance_stored
      host_stored

-- The event cancels its host and moves on to wait for the reply.
fired : (Bool × Result (Unit {0})) × List String
unfolding fire_boundary_event program hosted_registry
fired =
    let (r, t) = fire_boundary_event world hosted_registry 5 end 7 3 late hosted_exec in
    (out_of r, t.inst.active_elements)
  where
    out_of : Result (Bool × Result (Unit {0})) → Bool × Result (Unit {0})
    out_of (ok o) = o
    out_of (err e) = (false, err e)

fires : fired ≡ ((true, ok tt), "reply" ∷ [])
unfolding fired
fires = refl

-- Completions.
abbrev reply : CompleteActivityRequest
reply = record {
  process_instance_id = 7;
  activity_id = 4;
  assignee = "";
  action = "";
  comment = "";
  variables = end;
  lock_version = 0;
  selected_flow_id = "";
}

abbrev answer_of {ℓ} : {A : Type ℓ} → Result (Option A) → Option A
answer_of (ok o) = o
answer_of (err e) = none

reply_run : Result (Option ProcessInstance) × Exec
unfolding complete_activity program
reply_run = complete_activity world false 5 reply hosted_exec

reply_completes : (complete_activity world false 5 reply hosted_exec).0 ≡ ok (answer_of reply_run.0)
unfolding reply_run
reply_completes = refl

complete_activity-CompletableActivity_example : CompletableActivity reply hosted_exec.store
complete_activity-CompletableActivity_example =
    complete_activity-CompletableActivity world false 5 reply hosted_exec (answer_of reply_run.0)
      reply_completes

-- Gateways.
abbrev vars : Vars
vars = field "go" (bool true) end

abbrev leaving : List SequenceFlow
leaving =
    record (flow "f1" "g" "x") { condition = "stay" }
    ∷ flow "f2" "g" "y"
    ∷ record (flow "f3" "g" "z") { condition = "go" }
    ∷ []

takes_selected : choose_event_based numerics vars "f2" leaving ≡ ok (flow "f2" "g" "y")
unfolding choose_event_based
takes_selected = refl

choose_event_based-TakesEvent_example :
    Memᴰ (flow "f2" "g" "y") leaving × TakesEvent numerics vars "f2" leaving (flow "f2" "g" "y")
choose_event_based-TakesEvent_example =
    choose_event_based-TakesEvent numerics vars "f2" leaving (flow "f2" "g" "y") takes_selected

leaving_evaluate : all_evaluate numerics vars leaving ≡ true
unfolding eval_condition
leaving_evaluate = refl

match_complex-eq-filter_example :
    match_complex numerics vars leaving ≡ ok (filter (has_true_condition numerics vars) leaving)
match_complex-eq-filter_example = match_complex-eq-filter numerics vars leaving leaving_evaluate

matches_third :
    match_complex numerics vars leaving ≡ ok (record (flow "f3" "g" "z") { condition = "go" } ∷ [])
unfolding match_complex
matches_third = refl

choose_complex-eq-complex_ids_example :
    ids numerics vars (choose_complex numerics vars leaving)
    ≡ completed_ids numerics vars (complex_ids numerics vars leaving)
choose_complex-eq-complex_ids_example = choose_complex-eq-complex_ids numerics vars leaving

start_found : element early_end_registry "s" ≡ some (node "s" start_event)
unfolding element early_end_registry program
start_found = refl

completions_agree_example :
    complete_element_with_selection world early_end_registry
      (activate_element world early_end_registry 5)
      "s"
      ""
    ≡ complete_element world early_end_registry (activate_element world early_end_registry 5) "s"
completions_agree_example =
    completions_agree world early_end_registry (activate_element world early_end_registry 5) "s" ""
      (node "s" start_event) start_found refl

-- Assignees.
abbrev reassign : UpdateAssigneesRequest
reassign = record {
  process_instance_id = 7;
  activity_id = 3;
  assignees = "bob" ∷ "cat" ∷ [];
  pending_assignees = none;
  operator = "";
  lock_version = 0;
}

reassign_run : Result (Option ActivityInstance) × Exec
unfolding update_activity_assignees program
reassign_run = update_activity_assignees world reassign hosted_exec

reassign_succeeds :
    (update_activity_assignees world reassign hosted_exec).0 ≡ ok (answer_of reassign_run.0)
unfolding reassign_run
reassign_succeeds = refl

update_activity_assignees-Reassignable_example :
    Reassignable reassign hosted_exec.store (answer_of reassign_run.0)
update_activity_assignees-Reassignable_example =
    update_activity_assignees-Reassignable world reassign hosted_exec (answer_of reassign_run.0)
      reassign_succeeds

abbrev without_ann : RemoveUserSyncRequest
without_ann = record {
  tenant_id = "t";
  user_id = "ann";
  process_keys = [];
  element_ids = [];
  reason = "";
  operator = "";
}

remove_user-Balanced_example :
    (r : RemoveUserSyncResult) × ((remove_user_from_active_tasks world without_ann hosted_exec).0
      ≡ ok r)
    × Balanced r
remove_user-Balanced_example = remove_user-Balanced world without_ann hosted_exec refl

-- A removal that the quota refuses has overwritten the stored assignees in place.
abbrev quota_exec : Exec
quota_exec = record hosted_exec {
  store = record (hosted_exec.store) {
    activity_instances = (3, record host { required_approvals = 2 }) ∷ [];
  };
}

refused : Option ActivityInstance
unfolding remove_user_from_active_tasks get_activity_instance program
refused =
    get_activity_instance 3 (remove_user_from_active_tasks world without_ann quota_exec).1.store

refused_overwrites :
    refused
    ≡ some (record host {
      required_approvals = 2;
      assignees = "bob" ∷ "bob" ∷ [];
      pending_assignees = some ("bob" ∷ "bob" ∷ []);
    })
unfolding refused
refused_overwrites = refl

-- Deployments.
deploy_run : Result DeployedProcess × Exec
unfolding deploy_process program
deploy_run = deploy_process world "t" "k" early_end hosted_exec

abbrev deployment_of : Result DeployedProcess → DeployedProcess
deployment_of (ok dp) = dp
deployment_of (err e) = deployed

deploys : (deploy_process world "t" "k" early_end hosted_exec).0 ≡ ok (deployment_of deploy_run.0)
unfolding deploy_run
deploys = refl

deploy_process-Readable_example :
    Readable "t" "k" early_end hosted_exec
      (deploy_process world "t" "k" early_end hosted_exec).1
      (deployment_of deploy_run.0)
deploy_process-Readable_example =
    deploy_process-Readable world "t" "k" early_end hosted_exec (deployment_of deploy_run.0) deploys
