-- ===== src/Engine/Activate.antt =====
-- internal/engine/engine.go: `activateElement`, and the recursion through `completeElement`.
use lowcode_bpmn.Prelude.{
  ℕ, zero, suc, String, string_eq, Bool, true, false, none, some, [], if◌then◌else◌,
}
use lowcode_bpmn.Text.{is_empty}
use lowcode_bpmn.Vars.{end}
use lowcode_bpmn.Definition.Model.{
  ElementKind, start_event, end_event, user_task, script_task, service_task, send_task,
  receive_task, business_rule_task, exclusive_gateway, parallel_gateway, inclusive_gateway,
  sub_process, Element,
}
use lowcode_bpmn.Definition.Rules.{is_extension_kind}
use lowcode_bpmn.Definition.Registry.{Registry, element, lane_for_element}
use lowcode_bpmn.Runtime.{ActivityInstance, ActivityStatus, Outcome, Message, Uuid, Time}
use lowcode_bpmn.Errors.{element_not_found, unsupported_element_kind, out_of_fuel}
use lowcode_bpmn.Engine.Approval.{init_user_task_approval}
use lowcode_bpmn.Engine.Assignees.{resolve_task_assignees, stamp_assignee_sync_meta}
use lowcode_bpmn.Engine.State.{
  World, Exec, M, throw, gets, attempt, ◌>>=◌, ◌>>◌, done, set_scope, now, new_uuid,
  create_activity, update_activity,
}
use lowcode_bpmn.Engine.Flow.{Activate, complete_element, try_complete_process}
use lowcode_bpmn.Engine.Tasks.{
  attach_boundary_metadata, put_lane, run_automated_task, run_element_script, finish, wait_at,
  activate_extension_element, complete_automated_task, activate_receive_task,
}

-- scopeForElement
unfoldable pub scope_for_element : Exec → Element → String
scope_for_element s el = if is_empty el.scope_id then s.scope_id else el.scope_id

-- The activity that an activation starts with.
abbrev pub new_activity : Uuid → Time → String → Element → String → Exec → ActivityInstance
new_activity id t element_id el branch s = record {
  id = id;
  process_instance_id = s.inst.id;
  element_id = element_id;
  element_kind = el.kind;
  status = ActivityStatus.active;
  scope_id = scope_for_element s el;
  branch_flow_id = branch;
  outcome = Outcome.undecided;
  assignees = el.assignees;
  approval_mode = "";
  required_approvals = 0;
  pending_assignees = none;
  approval_records = [];
  input = s.inst.variables;
  output = end;
  error_msg = Message.blank;
  started_at = t;
  ended_at = none;
}

abbrev pub is_sub_process : ElementKind → Bool
is_sub_process sub_process = true
is_sub_process _ = false

module _ (w : World) (reg : Registry) where
  -- A user task that waits for its assignees.
  unfoldable pub await_user : String → Element → ActivityInstance → M (Unit {0})
  unfolding resolve_task_assignees init_user_task_approval stamp_assignee_sync_meta
      attach_boundary_metadata put_lane lane_for_element update_activity wait_at
  await_user id el act = do
    resolved ← gets (λ s. resolve_task_assignees el s.inst.variables)
    let asked = init_user_task_approval act el resolved.0
    let stamped = attach_boundary_metadata reg id (stamp_assignee_sync_meta asked resolved.1)
    update_activity w (record stamped { input = put_lane (lane_for_element reg id) stamped.input })
    wait_at w reg id

  module _ (activate : Activate) where
    unfoldable pub automate : String → Element → ActivityInstance → M (Unit {0})
    unfolding run_automated_task complete_automated_task
    automate id el act = do
      out ← attempt (run_automated_task w reg el.kind el)
      complete_automated_task w reg activate id act out

    unfoldable pub pass_through : String → ActivityInstance → M (Unit {0})
    unfolding finish complete_element
    pass_through id act = do finish w reg act; complete_element w reg activate id

    -- The switch on the kind.
    unfoldable pub activate_kind : ElementKind → String → Element → ActivityInstance → M (Unit {0})
    unfolding automate pass_through finish try_complete_process activate_receive_task
        run_element_script complete_automated_task await_user activate_extension_element
        is_extension_kind
    activate_kind start_event id el act = pass_through id act
    activate_kind end_event id el act = do finish w reg act; try_complete_process w reg
    activate_kind service_task id el act = automate id el act
    activate_kind send_task id el act = automate id el act
    activate_kind business_rule_task id el act = automate id el act
    activate_kind receive_task id el act = activate_receive_task w reg activate el act
    activate_kind script_task id el act = do
      out ← attempt (run_element_script w reg id el)
      complete_automated_task w reg activate id act out
    activate_kind user_task id el act =
        if el.auto_complete then pass_through id act else await_user id el act
    activate_kind exclusive_gateway id el act = pass_through id act
    activate_kind parallel_gateway id el act = pass_through id act
    activate_kind inclusive_gateway id el act = pass_through id act
    activate_kind kind id el act =
        if is_extension_kind kind
        then activate_extension_element w reg el act
        else throw (unsupported_element_kind kind)

    unfoldable pub activate_node : String → Element → String → M (Unit {0})
    unfolding now new_uuid create_activity activate_kind scope_for_element
    activate_node id el branch = do
      t ← now w
      new ← new_uuid w
      fresh ← gets (new_activity new t id el branch)
      act ← create_activity w fresh
      activate_kind el.kind id el act

    -- A sub-process has no activity of its own: its entry is activated in its place.
    unfoldable pub activate_sub_process : Element → String → M (Unit {0})
    unfolding scope_for_element
    activate_sub_process el branch = do
      set_scope (λ s. scope_for_element s el)
      if is_empty el.entry_ref then done else activate el.entry_ref branch

    unfoldable pub activate_step : Activate
    unfolding activate_node activate_sub_process element
    activate_step id branch = elim (element reg id) [
      | none ↦ throw (element_not_found id)
      | some el ↦
          if is_sub_process el.kind
          then activate_sub_process el branch
          else activate_node id el branch
    ]

  -- `fuel` bounds how deep activations nest; the code has no bound.
  unfoldable pub activate_element : ℕ → Activate
  unfolding activate_step
  activate_element zero = λ id branch. throw out_of_fuel
  activate_element (suc fuel) = λ id branch. activate_step (activate_element fuel) id branch
