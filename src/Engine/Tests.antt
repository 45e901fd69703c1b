-- ===== src/Engine/Tests.antt =====
-- The theorems on the engine, on concrete runs.
mod Requests
use lowcode_bpmn.Prelude.{
  ℕ, ◌+◌, ◌≤◌, String, string_eq, true, false, none, List, [], ◌∷◌, ◌≡◌, ◌≢◌, ◌↔◌, ◌==◌, refl,
  contains, lookup, insert, nat_eq, if◌then◌else◌,
}
use lowcode_bpmn.Vars.{Vars, bool, end, field}
use lowcode_bpmn.Definition.Model.{Element, user_task, SequenceFlow}
use lowcode_bpmn.Definition.Approval.{all_of, sequential, parse_approval_mode}
use lowcode_bpmn.Definition.Expression.{eval_condition}
use lowcode_bpmn.Runtime.{ActivityInstance, ActivityStatus, CompleteTaskRequest, Outcome, Message}
use lowcode_bpmn.Errors.{Result, ok, err, out_of_fuel}
use lowcode_bpmn.Engine.Approval.{
  ApprovalStep, apply_approval_step, approval_count, task_required_approvals, prepare_step,
  init_user_task_approval, pending_for_mode, step_mode,
}
use lowcode_bpmn.Engine.Approval.Modes.{
  any_of_quota, IsAccounted, init-IsAccounted, has_approved, all_of_keeps, all_of_complete,
  sequential_passes_on,
}
use lowcode_bpmn.Engine.Approval.Once.{Steps, acts_once}
use lowcode_bpmn.Engine.Flow.{choose_exclusive, try_complete_process}
use lowcode_bpmn.Engine.Flow.Choice.{
  choose_exclusive_lem, first_that_holds, last_fallback, or_else, evaluates,
}
use lowcode_bpmn.Engine.Flow.Completion.{try_complete_process_lem, is_busy, ended}
use lowcode_bpmn.Engine.Activate.{activate_element}
use lowcode_bpmn.Store.Memory.{new_store}
use lowcode_bpmn.Engine.Complete.{complete_task}
use lowcode_bpmn.Engine.Complete.Guarded.{Completable, complete_task-Completable}
use lowcode_bpmn.Engine.State.{Exec}
use lowcode_bpmn.Prelude.{Option}
use lowcode_bpmn.Runtime.{ProcessInstance, ProcessInstanceStatus}
use lowcode_bpmn.Engine.Reject.{cancel_instance, cancelled}
use lowcode_bpmn.Engine.Reject.Cancels.{IsKeyed, cancel_instance-none_active}
use lowcode_bpmn.Store.Memory.{get_activity_instance}
use lowcode_bpmn.Prelude.{some, nat_beq_iff, arith}
use lowcode_bpmn.Runtime.{is_active}
use lowcode_bpmn.Engine.Advances.{Advances, Synced, activate_element-Advances}
use lowcode_bpmn.Engine.Fuel.Rank.{descends, activate_element-terminates}
use lowcode_bpmn.Engine.Samples.{
  program, numerics, world, node, flow, fork_join, fork_join_registry, early_end,
  early_end_registry, exec_of, instance_of,
}

-- Runs.
abbrev rank : String → ℕ
rank id =
    if id == "s"
    then 4
    else if id == "fork"
    then 3
    else if id == "a"
    then 2
    else if id == "b"
    then 2
    else if id == "join"
    then 1
    else 0

fork_join_descends : descends rank fork_join_registry ≡ true
unfolding descends program fork_join_registry
fork_join_descends = refl

activate_element-terminates_example :
    (activate_element world fork_join_registry 5 "s" "" (exec_of fork_join)).0 ≢ err out_of_fuel
activate_element-terminates_example =
    activate_element-terminates world fork_join_registry rank fork_join_descends 5 "s" ""
      (exec_of fork_join) refl

activate_element-Advances_example :
    Advances
      (exec_of fork_join)
      (activate_element world fork_join_registry 5 "s" "" (exec_of fork_join)).1
activate_element-Advances_example =
    activate_element-Advances world fork_join_registry 5 "s" "" (exec_of fork_join)

early_end-Synced : Synced (exec_of early_end)
unfolding Synced lookup
early_end-Synced = (instance_of early_end, refl, refl)

try_complete_process_lem_example :
    try_complete_process world early_end_registry (exec_of early_end) ≡ (
      ok tt,
      (if is_busy (exec_of early_end) then exec_of early_end else record (exec_of early_end) {
        inst = ended world (exec_of early_end);
        store = record ((exec_of early_end).store) {
          process_instances =
              insert 7
                (ended world (exec_of early_end))
                (exec_of early_end).store.process_instances;
        };
        readings = 2;
      }),
    )
try_complete_process_lem_example =
    try_complete_process_lem world early_end_registry (exec_of early_end) early_end-Synced

-- Choices.
abbrev vars : Vars
vars = field "go" (bool true) end

abbrev flows : List SequenceFlow
flows =
    record (flow "f1" "g" "x") { is_default = true }
    ∷ record (flow "f2" "g" "y") { condition = "stay" }
    ∷ record (flow "f3" "g" "z") { condition = "go" }
    ∷ []

flows_evaluate : evaluates numerics vars flows ≡ true
unfolding eval_condition
flows_evaluate = refl

choose_exclusive_lem_example :
    choose_exclusive numerics vars none flows
    ≡ or_else numerics vars
        (first_that_holds numerics vars flows)
        (last_fallback numerics vars flows)
choose_exclusive_lem_example = choose_exclusive_lem numerics vars flows flows_evaluate

chooses_third :
    choose_exclusive numerics vars none flows ≡ ok (record (flow "f3" "g" "z") { condition = "go" })
unfolding choose_exclusive
chooses_third = refl

-- Approvals.
abbrev task : String → Element
task mode = record (node "ask" user_task) { assignees = "ann" ∷ "bob" ∷ []; approval_mode = mode }

abbrev blank_activity : ActivityInstance
blank_activity = record {
  id = 3;
  process_instance_id = 7;
  element_id = "ask";
  element_kind = user_task;
  status = ActivityStatus.active;
  scope_id = "";
  branch_flow_id = "";
  outcome = Outcome.undecided;
  assignees = [];
  approval_mode = "";
  required_approvals = 0;
  pending_assignees = none;
  approval_records = [];
  input = end;
  output = end;
  error_msg = Message.blank;
  started_at = 1;
  ended_at = none;
}

abbrev approval : String → CompleteTaskRequest
approval name = record {
  process_instance_id = 7;
  activity_id = 3;
  assignee = name;
  action = "approve";
  comment = "";
  variables = end;
  lock_version = 0;
}

abbrev out_of : Result (ActivityInstance × ApprovalStep) → ActivityInstance × ApprovalStep
out_of (ok out) = out
out_of (err e) = (blank_activity, record { done = false; rejected = false })

-- What an activity starts with for the element, and after ann, and after bob.
asked : Element → ActivityInstance
unfolding init_user_task_approval
asked el = init_user_task_approval blank_activity el []

after_ann : Element → ActivityInstance × ApprovalStep
unfolding apply_approval_step asked
after_ann el = out_of (apply_approval_step 5 6 (asked el) el (approval "ann"))

after_bob : Element → ActivityInstance × ApprovalStep
unfolding apply_approval_step after_ann
after_bob el = out_of (apply_approval_step 7 8 (after_ann el).0 el (approval "bob"))

-- A step of the task in this mode succeeds.
ann_any :
    apply_approval_step 5 6 (asked (task "any")) (task "any") (approval "ann")
    ≡ ok (after_ann (task "any"))
unfolding after_ann
ann_any = refl

bob_all :
    apply_approval_step 7 8 (after_ann (task "all")).0 (task "all") (approval "bob")
    ≡ ok (after_bob (task "all"))
unfolding after_bob
bob_all = refl

ann_all :
    apply_approval_step 5 6 (asked (task "all")) (task "all") (approval "ann")
    ≡ ok (after_ann (task "all"))
unfolding after_ann
ann_all = refl

ann_first :
    apply_approval_step 5 6 (asked (task "sequential")) (task "sequential") (approval "ann")
    ≡ ok (after_ann (task "sequential"))
unfolding after_ann
ann_first = refl

mode_of : (act : ActivityInstance) → step_mode act (task "all") ≡ all_of
unfolding parse_approval_mode
mode_of act = refl

all_not_sequential : parse_approval_mode "all" ≢ sequential
unfolding parse_approval_mode
all_not_sequential e = cc

asked-IsAccounted : IsAccounted (asked (task "all"))
unfolding asked
asked-IsAccounted = init-IsAccounted blank_activity (task "all") [] all_not_sequential

all_of_keeps_again : IsAccounted (after_ann (task "all")).0
all_of_keeps_again =
    all_of_keeps 5 6 (asked (task "all")) (task "all") (approval "ann") (after_ann (task "all"))
      ann_all refl (mode_of (asked (task "all"))) asked-IsAccounted

bob_closes : (after_bob (task "all")).1.done ≡ true
unfolding after_bob
bob_closes = refl

ann_listed : contains (after_bob (task "all")).0.assignees "ann" ≡ true
unfolding after_bob
ann_listed = refl

any_of_quota_example : ((after_ann (task "any")).1.done ≡ true) ↔ (
    task_required_approvals (prepare_step (asked (task "any")) (task "any"))
    ≤ approval_count (asked (task "any")) + 1)
unfolding parse_approval_mode
any_of_quota_example =
    any_of_quota 5 6 (asked (task "any")) (task "any") (approval "ann") (after_ann (task "any"))
      ann_any refl refl

init-IsAccounted_example : IsAccounted (init_user_task_approval blank_activity (task "all") [])
init-IsAccounted_example = init-IsAccounted blank_activity (task "all") [] all_not_sequential

all_of_keeps_example : IsAccounted (after_ann (task "all")).0
all_of_keeps_example =
    all_of_keeps 5 6 (asked (task "all")) (task "all") (approval "ann") (after_ann (task "all"))
      ann_all refl (mode_of (asked (task "all"))) asked-IsAccounted

all_of_complete_example : has_approved (after_bob (task "all")).0 "ann" ≡ true
all_of_complete_example =
    all_of_complete 7 8 (after_ann (task "all")).0 (task "all") (approval "bob")
      (after_bob (task "all")) bob_all refl (mode_of (after_ann (task "all")).0) all_of_keeps_again
      bob_closes "ann" ann_listed

sequential_passes_on_example :
    ((after_ann (task "sequential")).1.done ≡ false)
    × ((after_ann (task "sequential")).0.pending_assignees
        ≡ pending_for_mode sequential ("bob" ∷ []))
unfolding parse_approval_mode
sequential_passes_on_example =
    sequential_passes_on 5 6 (asked (task "sequential")) (task "sequential") (approval "ann")
      (after_ann (task "sequential")) [] ("bob" ∷ []) ann_first refl refl refl refl

acts_once_example :
    apply_approval_step 9 10 (after_bob (task "all")).0 (task "all") (approval "ann")
    ≢ ok (after_bob (task "all"))
acts_once_example =
    acts_once 5 6 9 10 (asked (task "all")) (after_bob (task "all")).0 (task "all") (approval "ann")
      (approval "ann") (after_ann (task "all")) (after_bob (task "all")) ann_all refl
      (Steps.then 7 8 (approval "bob") (after_bob (task "all")) Steps.none bob_all) refl

-- The assignees come from a variable.
abbrev by_variable : Element
by_variable = record (node "ask" user_task) {
  assignees_variable = "team";
  approval_mode = "sequential";
}

listed : ActivityInstance
unfolding init_user_task_approval
listed = init_user_task_approval blank_activity by_variable ("ann" ∷ "bob" ∷ [])

listed_out : ActivityInstance × ApprovalStep
unfolding apply_approval_step listed
listed_out = out_of (apply_approval_step 5 6 listed by_variable (approval "ann"))

listed_step : apply_approval_step 5 6 listed by_variable (approval "ann") ≡ ok listed_out
unfolding listed_out
listed_step = refl

-- Bob, who is still on the task's list, is not asked.
closed_early : (listed_out.1.done ≡ true) × (listed_out.0.assignees ≡ "ann" ∷ "bob" ∷ [])
unfolding listed_out
closed_early = (refl, refl)

-- A task that waits in a running instance, and its completion.
abbrev waiting_task : ActivityInstance
waiting_task = record blank_activity {
  assignees = "ann" ∷ [];
  approval_mode = "any";
  required_approvals = 1;
}

abbrev waiting : Exec
waiting = record (exec_of early_end) {
  store = record new_store {
    process_instances = (7, record (instance_of early_end) { active_elements = "ask" ∷ [] }) ∷ [];
    activity_instances = (3, waiting_task) ∷ [];
  };
}

task_run : Result (Option ProcessInstance) × Exec
unfolding complete_task program
task_run = complete_task world false 5 (approval "ann") waiting

abbrev answer_of : Result (Option ProcessInstance) → Option ProcessInstance
answer_of (ok o) = o
answer_of (err e) = none

task_completes :
    (complete_task world false 5 (approval "ann") waiting).0 ≡ ok (answer_of task_run.0)
unfolding task_run
task_completes = refl

-- The approval of the only task ends the instance.
task_ends : task_run.1.inst.status ≡ ProcessInstanceStatus.completed
unfolding task_run
task_ends = refl

complete_task-Completable_example : Completable (approval "ann") waiting.store
complete_task-Completable_example =
    complete_task-Completable world false 5 (approval "ann") waiting (answer_of task_run.0)
      task_completes

waiting-IsKeyed : IsKeyed waiting.store.activity_instances
unfolding IsKeyed lookup
waiting-IsKeyed id act h = ground (arith, nat_beq_iff 3 id)

cancels_waiting :
    get_activity_instance 3 (cancel_instance world early_end_registry "stop" waiting).1.store
    ≡ some (cancelled 1 "stop" waiting_task)
unfolding cancel_instance program get_activity_instance
cancels_waiting = refl

cancel_instance-none_active_example : is_active (cancelled 1 "stop" waiting_task).status ≡ false
cancel_instance-none_active_example =
    cancel_instance-none_active world early_end_registry "stop" waiting 3
      (cancelled 1 "stop" waiting_task) waiting-IsKeyed cancels_waiting refl
