-- ===== src/Engine/Reject.antt =====
-- internal/engine/reject.go: the rejection of a task, and the termination of a scope or an instance.
pub mod Cancels
use lowcode_bpmn.Prelude.{
  nat_eq, String, string_eq, Bool, false, ◌&&◌, ◌||◌, not, none, some, List, [], ◌∷◌, ◌==◌,
  if◌then◌else◌, contains, filter,
}
use lowcode_bpmn.Text.{is_empty, is_one_of}
use lowcode_bpmn.Vars.{Vars, str, bool, put, delete, assign}
use lowcode_bpmn.Definition.Model.{Element}
use lowcode_bpmn.Definition.Registry.{Registry}
use lowcode_bpmn.Definition.Return.{resolve_return_target, scope_element_ids, scope_gateway_ids}
use lowcode_bpmn.Runtime.{
  ProcessInstance, ActivityInstance, ActivityStatus, ProcessInstanceStatus, Outcome, Message, Time,
  CompleteTaskRequest,
}
use lowcode_bpmn.Engine.Approval.{remove_string}
use lowcode_bpmn.Engine.State.{
  World, M, ◌>>=◌, ◌>>◌, done, lift, modify_inst, set_active, set_variables, set_internal,
  set_updated, now, update_activity, update_instance, list_active,
}
use lowcode_bpmn.Engine.Flow.{Activate, join_arrivals_key, try_complete_process}

pub data OnReject : Type 0 where
  go_back terminate : OnReject

unfoldable pub parse_on_reject : String → OnReject
unfolding is_one_of
parse_on_reject raw =
    if is_one_of raw ("terminatescope" ∷ "terminate_scope" ∷ "terminate" ∷ [])
    then terminate
    else go_back

-- What the loops make of an activity.
abbrev pub cancelled : Time → String → ActivityInstance → ActivityInstance
cancelled t reason act = record act {
  status = ActivityStatus.cancelled;
  outcome = Outcome.cancelled;
  ended_at = some t;
  pending_assignees = none;
  error_msg = if is_empty reason then act.error_msg else Message.text reason;
}

delete_arrivals : List String → Vars → Vars
unfolding delete join_arrivals_key
delete_arrivals [] internal = internal
delete_arrivals (gateway ∷ gateways) internal =
    delete_arrivals gateways (delete (join_arrivals_key gateway) internal)

unfoldable pub clear_join_state_in_scope : Registry → String → Vars → Vars
unfolding delete_arrivals scope_gateway_ids
clear_join_state_in_scope reg scope internal =
    if is_empty scope then internal else delete_arrivals (scope_gateway_ids reg scope) internal

abbrev put_reason : String → Vars → Vars
put_reason reason vars = if is_empty reason then vars else put "terminateReason" (str reason) vars

abbrev pub cancelled_instance : Time → String → ProcessInstance → ProcessInstance
cancelled_instance t reason inst = record inst {
  status = ProcessInstanceStatus.cancelled;
  active_elements = [];
  ended_at = some t;
  updated_at = t;
  error_msg = if is_empty reason then inst.error_msg else Message.text reason;
  variables = put_reason reason inst.variables;
}

-- Whether the loop of `cancelBranchPeers` cancels the activity.
abbrev pub is_peer : ActivityInstance → ActivityInstance → Bool
is_peer rejected peer =
    not (peer.id == rejected.id) && peer.branch_flow_id == rejected.branch_flow_id

abbrev pub is_in_scope : Registry → String → ActivityInstance → Bool
is_in_scope reg scope act =
    contains (scope_element_ids reg scope) act.element_id || act.scope_id == scope

module _ (w : World) (reg : Registry) where
  -- The activities are cancelled, and their elements are no longer active.
  unfoldable pub cancel_listed : Time → String → List ActivityInstance → M (Unit {0})
  unfolding update_activity remove_string
  cancel_listed t reason [] = done
  cancel_listed t reason (act ∷ acts) = do
    update_activity w (cancelled t reason act)
    set_active (λ active. remove_string active act.element_id)
    cancel_listed t reason acts

  unfoldable pub cancel_branch_peers : ActivityInstance → M (Unit {0})
  unfolding cancel_listed list_active now
  cancel_branch_peers rejected = if is_empty rejected.branch_flow_id then done else do
    active ← list_active w
    t ← now w
    cancel_listed t "" (filter (is_peer rejected) active)

  unfoldable pub terminate_scope : String → String → M (Unit {0})
  unfolding cancel_listed list_active now clear_join_state_in_scope put update_instance
      try_complete_process scope_element_ids
  terminate_scope scope reason = do
    active ← list_active w
    t ← now w
    cancel_listed t reason (filter (is_in_scope reg scope) active)
    set_internal (clear_join_state_in_scope reg scope)
    set_variables (λ vars. put_reason reason (put "scopeTerminated" (str scope) vars))
    set_updated t
    update_instance w
    try_complete_process w reg

  unfoldable pub update_cancelled : Time → String → List ActivityInstance → M (Unit {0})
  unfolding update_activity
  update_cancelled t reason [] = done
  update_cancelled t reason (act ∷ acts) = do
    update_activity w (cancelled t reason act)
    update_cancelled t reason acts

  unfoldable pub cancel_instance : String → M (Unit {0})
  unfolding update_cancelled list_active now put update_instance
  cancel_instance reason = do
    active ← list_active w
    t ← now w
    update_cancelled t reason active
    modify_inst (cancelled_instance t reason)
    update_instance w

  abbrev pub rejected_scope : ActivityInstance → Element → String
  rejected_scope act el = if is_empty act.scope_id then el.scope_id else act.scope_id

  module _ (activate : Activate) where
    unfoldable pub reject_to : OnReject → Time → ActivityInstance → Element → String → M (Unit {0})
    unfolding cancel_instance terminate_scope cancel_branch_peers resolve_return_target
        clear_join_state_in_scope update_instance
    reject_to terminate t act el comment =
        if is_empty (rejected_scope act el)
        then cancel_instance comment
        else terminate_scope (rejected_scope act el) comment
    reject_to go_back t act el comment = do
      cancel_branch_peers act
      target ← lift (resolve_return_target reg act.element_id el.return_to)
      set_internal (clear_join_state_in_scope reg act.scope_id)
      set_updated t
      update_instance w
      activate target act.branch_flow_id

    unfoldable pub handle_task_reject :
        ActivityInstance → Element → CompleteTaskRequest → M (Unit {0})
    unfolding now put assign update_activity remove_string parse_on_reject reject_to
    handle_task_reject act el req = do
      t ← now w
      let ended : ActivityInstance = record act {
        status = ActivityStatus.completed;
        outcome = Outcome.reject;
        ended_at = some t;
        pending_assignees = none;
      }
      set_variables (λ vars.
          assign (put "approved" (bool false) vars) (put "approved" (bool false) req.variables))
      update_activity w ended
      set_active (λ active. remove_string active act.element_id)
      reject_to (parse_on_reject el.on_reject) t ended el req.comment
