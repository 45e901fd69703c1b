-- ===== src/Engine/Boundary.antt =====
-- internal/engine/boundary.go: events attached to a waiting activity, and the flows that leave them.
pub mod Once
use Prim.Native.String
use lowcode_bpmn.Prelude.{
  ℕ, String, string_eq, nat_eq, Bool, true, false, ◌&&◌, ◌||◌, not, Option, none, some, List, [],
  ◌∷◌, ◌==◌, ◌++◌, if◌then◌else◌,
}
use lowcode_bpmn.Text.{is_empty}
use lowcode_bpmn.Vars.{Vars, bool, str, end, field, get, put, assign}
use lowcode_bpmn.Definition.Model.{Element, SequenceFlow}
use lowcode_bpmn.Definition.Boundary.{
  boundary_cancels_activity, boundary_message_match, is_boundary_host_kind, is_boundary,
}
use lowcode_bpmn.Definition.Registry.{Registry, element, outgoing_flows, boundary_events}
use lowcode_bpmn.Runtime.{
  ActivityInstance, ActivityStatus, ProcessInstance, Outcome, Message, Time, Uuid, is_running,
  is_active,
}
use lowcode_bpmn.Errors.{
  Result, ok, err, reject_if, instance_not_found, process_not_running, firing_instance_not_found,
  host_not_found, boundary_request_incomplete, tenant_mismatch, boundary_not_found, no_active_host,
}
use lowcode_bpmn.Store.Memory.{
  get_process_instance, get_activity_instance, list_active_activities, list_running_instances,
}
use lowcode_bpmn.Engine.Approval.{remove_string}
use lowcode_bpmn.Engine.State.{
  World, Exec, M, ◌>>=◌, ◌>>◌, pure, lift, attempt, gets, collect, done, set_active, set_variables,
  set_internal, set_updated, now, new_uuid, create_activity, update_activity, update_instance,
}
use lowcode_bpmn.Engine.Flow.{Activate, activate_via_flow, try_complete_process}
use lowcode_bpmn.Engine.Activate.{activate_element}
use lowcode_bpmn.Engine.Complete.{found, registry_for_instance, load}

pub record TriggerBoundaryMatch : Type 0 where
  pub process_instance_id : Uuid
  pub process_key : String
  pub host_element_id : String
  pub boundary_element_id : String
  pub cancelled_host : Bool
  pub error : Message

pub record TriggerBoundaryRequest : Type 0 where
  pub tenant_id : String
  pub process_instance_id : Uuid
  pub host_element_id : String
  pub boundary_element_id : String
  pub variables : Vars

abbrev pub boundary_match :
    ProcessInstance → ActivityInstance → Element → Bool → Message → TriggerBoundaryMatch
boundary_match inst host el cancelled error = record {
  process_instance_id = inst.id;
  process_key = inst.process_key;
  host_element_id = host.element_id;
  boundary_element_id = el.id;
  cancelled_host = cancelled;
  error = error;
}

-- The `Error` field of a match.
abbrev pub error_text : Result (Unit {0}) → Message
error_text (ok tt) = Message.blank
error_text (err e) = Message.of_error e

module _ (w : World) where
  unfoldable pub boundary_fired_key : Uuid → String → String
  boundary_fired_key host id =
      Prim.Native.String.◌++◌ "boundary_fired:"
        (Prim.Native.String.◌++◌ (w.uuid_text host) (Prim.Native.String.◌++◌ ":" id))

  -- A missing map reads as an empty one.
  unfoldable pub boundary_already_fired : Vars → Uuid → String → Bool
  unfolding get boundary_fired_key
  boundary_already_fired internal host id = elim (get (boundary_fired_key host id) internal) [
    | none ↦ false
    | some v ↦ true
  ]

  unfoldable pub mark_boundary_fired : Uuid → String → M (Unit {0})
  unfolding put boundary_fired_key
  mark_boundary_fired host id = set_internal (put (boundary_fired_key host id) (bool true))

  -- The completed activity that stands for the event.
  unfoldable pub boundary_activity :
      Uuid → Time → ProcessInstance → ActivityInstance → Element → ActivityInstance
  boundary_activity id t inst host el = record {
    id = id;
    process_instance_id = inst.id;
    element_id = el.id;
    element_kind = el.kind;
    status = ActivityStatus.completed;
    scope_id = host.scope_id;
    branch_flow_id = host.branch_flow_id;
    outcome = Outcome.undecided;
    assignees = [];
    approval_mode = "";
    required_approvals = 0;
    pending_assignees = none;
    approval_records = [];
    input = field "hostElementId" (str host.element_id) (
        field "hostActivityId" (str (w.uuid_text host.id))
          (field "boundaryTriggered" (bool true) end));
    output = end;
    error_msg = Message.blank;
    started_at = t;
    ended_at = some t;
  }

  unfoldable pub cancel_host : Time → ActivityInstance → M (Unit {0})
  unfolding remove_string update_activity
  cancel_host t host = do
    set_active (λ active. remove_string active host.element_id)
    update_activity w (record host {
      status = ActivityStatus.cancelled;
      outcome = Outcome.cancelled;
      ended_at = some t;
    })

  module _ (reg : Registry) where
    unfoldable pub follow_flows : Activate → String → List SequenceFlow → M (Unit {0})
    unfolding activate_via_flow
    follow_flows activate branch [] = done
    follow_flows activate branch (f ∷ flows) =
        activate_via_flow w reg activate f branch >> follow_flows activate branch flows

    unfoldable pub follow_boundary_outgoing : Activate → String → String → M (Unit {0})
    unfolding outgoing_flows try_complete_process follow_flows
    follow_boundary_outgoing activate id branch = elim (outgoing_flows reg id) [
      | [] ↦ try_complete_process w reg
      | f ∷ flows ↦ follow_flows activate branch (f ∷ flows)
    ]

    module _ (fuel : ℕ) (vars : Vars) where
      -- The body of `fireBoundaryEvent` behind its tests, up to the write of the instance.
      unfoldable pub prepare_boundary :
          ProcessInstance → ActivityInstance → Element → (cancels : Bool) → M (Unit {0})
      unfolding mark_boundary_fired assign now new_uuid boundary_activity create_activity
          cancel_host
      prepare_boundary inst host el cancels = do
        load inst
        mark_boundary_fired host.id el.id
        set_variables (λ held. assign held vars)
        t ← now w
        id ← new_uuid w
        act ← gets (λ s. boundary_activity id t s.inst host el)
        created ← create_activity w act
        (if cancels then cancel_host t host else done)
        set_updated t

      unfoldable pub run_boundary : ProcessInstance → ActivityInstance → Element → M (Unit {0})
      unfolding prepare_boundary boundary_cancels_activity update_instance follow_boundary_outgoing
          activate_element
      run_boundary inst host el = do
        prepare_boundary inst host el (boundary_cancels_activity el)
        update_instance w
        follow_boundary_outgoing (activate_element w reg fuel) el.id host.branch_flow_id

      -- Whether the host was cancelled, and the error of the transaction.
      unfoldable pub fire_found :
          Uuid
          → Option ProcessInstance
          → Option ActivityInstance
          → Element
          → M (Bool × Result (Unit {0}))
      unfolding boundary_already_fired run_boundary boundary_cancels_activity
      fire_found id none host el = pure (false, err (firing_instance_not_found id))
      fire_found id (some inst) none el = pure (false, err host_not_found)
      fire_found id (some inst) (some host) el =
          if not (is_active host.status) || boundary_already_fired inst.internal_state host.id el.id
          then pure (false, ok tt)
          else attempt (run_boundary inst host el) >>= λ out.
              pure (boundary_cancels_activity el, out)

      unfoldable pub fire_boundary_event : Uuid → Uuid → Element → M (Bool × Result (Unit {0}))
      unfolding get_process_instance get_activity_instance fire_found
      fire_boundary_event instance_id host_id el = do
        inst ← gets (λ s. get_process_instance instance_id s.store)
        host ← gets (λ s. get_activity_instance host_id s.store)
        fire_found instance_id inst host el

  module _ (fuel : ℕ) (ref : String) (vars : Vars) where
    -- What the message does at one boundary event of a host.
    unfoldable pub try_boundary :
        Registry → ProcessInstance → ActivityInstance → Element → M (List TriggerBoundaryMatch)
    unfolding boundary_message_match fire_boundary_event
    try_boundary reg inst host el = elim (boundary_message_match w.numerics el ref vars) [
      | err e ↦ pure (boundary_match inst host el false (Message.of_error e) ∷ [])
      | ok holds ↦
          if not holds
          then pure []
          else fire_boundary_event reg fuel vars inst.id host.id el >>= λ fired.
              pure (boundary_match inst host el fired.0 (error_text fired.1) ∷ [])
    ]

    -- What it does at one active activity.
    unfoldable pub try_host :
        Registry → ProcessInstance → ActivityInstance → M (List TriggerBoundaryMatch)
    unfolding collect try_boundary boundary_events is_boundary_host_kind
    try_host reg inst host =
        if is_boundary_host_kind host.element_kind
        then collect (try_boundary reg inst host) (boundary_events reg host.element_id)
        else pure []

    unfoldable pub match_boundary_events_on_instance :
        ProcessInstance → M (List TriggerBoundaryMatch)
    unfolding registry_for_instance list_active_activities collect try_host
    match_boundary_events_on_instance inst = do
      reg ← lift (registry_for_instance inst)
      active ← gets (λ s. list_active_activities inst.id s.store)
      collect (try_host reg inst) active

    -- The matches found before an error are not kept beside it.
    unfoldable pub match_boundary_events_on_instances : String → M (List TriggerBoundaryMatch)
    unfolding list_running_instances collect match_boundary_events_on_instance
    match_boundary_events_on_instances tenant =
        gets (λ s. list_running_instances tenant s.store)
        >>= collect match_boundary_events_on_instance

  -- The first active activity that the event is attached to.
  unfoldable pub find_host : String → String → List ActivityInstance → Option ActivityInstance
  find_host wanted attached [] = none
  find_host wanted attached (act ∷ acts) =
      let rest = find_host wanted attached acts in
      if not (is_active act.status)
      then rest
      else if not (is_empty wanted) && not (act.element_id == wanted)
      then rest
      else if act.element_id == attached
      then some act
      else rest

  unfoldable pub trigger_boundary : ℕ → TriggerBoundaryRequest → M TriggerBoundaryMatch
  unfolding get_process_instance registry_for_instance element list_active_activities find_host
      fire_boundary_event
  trigger_boundary fuel req = do
    lift (
        reject_if
          (is_empty req.tenant_id
            || req.process_instance_id == 0
            || is_empty req.boundary_element_id)
          boundary_request_incomplete)
    inst ← gets (λ s. get_process_instance req.process_instance_id s.store)
    inst' ← lift (found instance_not_found inst)
    lift (reject_if (not (inst'.tenant_id == req.tenant_id)) tenant_mismatch)
    lift (reject_if (not (is_running inst'.status)) process_not_running)
    reg ← lift (registry_for_instance inst')
    el ←
        lift
          (found (boundary_not_found req.boundary_element_id) (element reg req.boundary_element_id))
    lift (reject_if (not (is_boundary el.kind)) (boundary_not_found req.boundary_element_id))
    active ← gets (λ s. list_active_activities inst'.id s.store)
    host ← lift (
        found (no_active_host req.boundary_element_id)
          (find_host req.host_element_id el.attached_to_ref active))
    fired ← fire_boundary_event reg fuel req.variables inst'.id host.id el
    lift fired.1
    pure (boundary_match inst' host el fired.0 Message.blank)
