-- ===== src/Engine/Activity.antt =====
-- internal/engine/activity_complete.go: the completion of a waiting activity of any kind, with the
-- gateways that only such a completion leaves. A transaction reads the same store again, so the
-- records read before it are used inside.
pub mod Gateways
pub mod Guarded
use Prim.Native.String.{◌++◌}
use lowcode_bpmn.Prelude.{
  ℕ, leb, String, string_eq, nat_eq, Bool, true, false, not, Option, none, some, List, [], ◌∷◌,
  ◌==◌, length, if◌then◌else◌,
}
use lowcode_bpmn.Text.{is_empty}
use lowcode_bpmn.Vars.{Vars, assign}
use lowcode_bpmn.Definition.Model.{
  ElementKind, user_task, receive_task, call_activity, exclusive_gateway, parallel_gateway,
  inclusive_gateway, event_based_gateway, complex_gateway, Element, SequenceFlow,
}
use lowcode_bpmn.Definition.Registry.{
  Registry, element, outgoing_flows, incoming_flows, is_end_event,
}
use lowcode_bpmn.Definition.Rules.{is_extension_kind}
use lowcode_bpmn.Definition.Expression.{Numerics, eval_condition}
use lowcode_bpmn.Runtime.{
  ActivityInstance, ActivityStatus, ProcessInstance, Uuid, CompleteTaskRequest, is_active,
}
use lowcode_bpmn.Errors.{
  Result, ok, err, reject_if, instance_not_found, activity_not_found, activity_of_other_instance,
  activity_not_active, complete_not_supported, element_not_found, event_based_no_match,
  complex_no_match, selected_flow_not_found, complex_gateway_not_found,
}
use lowcode_bpmn.Errors
use lowcode_bpmn.Store.Memory.{get_process_instance, get_activity_instance}
use lowcode_bpmn.Engine.Approval.{remove_string}
use lowcode_bpmn.Engine.State.{
  World, Exec, M, ◌>>=◌, ◌>>◌, throw, lift, attempt, gets, done, set_active, set_variables, now,
  touch, update_activity, update_instance,
}
use lowcode_bpmn.Engine.Flow.{
  Activate, activate_via_flow, follow_exclusive, follow_all, follow_inclusive, follow_single,
  try_complete_process,
}
use lowcode_bpmn.Engine.Activate.{activate_element}
use lowcode_bpmn.Engine.Complete.{
  found, check_instance, registry_for_instance, load, read_back, or_fail, fail_instance,
  complete_task,
}
use lowcode_bpmn.Engine.Start.{StartProcessRequest, start_process}

pub record CompleteActivityRequest : Type 0 where
  pub process_instance_id : Uuid
  pub activity_id : Uuid
  pub assignee : String
  pub action : String
  pub comment : String
  pub variables : Vars
  pub lock_version : ℕ
  pub selected_flow_id : String

-- What follows the first loop of `followEventBasedGateway` when it took no flow.
abbrev pub only_flow : List SequenceFlow → Result SequenceFlow
only_flow (f ∷ []) = ok f
only_flow _ = err event_based_no_match

abbrev pub event_or_only : List SequenceFlow → Option SequenceFlow → Result SequenceFlow
event_or_only flows none = only_flow flows
event_or_only flows (some f) = ok f

module _ (n : Numerics) (vars : Vars) where
  -- The first loop of `followEventBasedGateway`; an empty condition holds.
  unfoldable pub first_event : List SequenceFlow → Result (Option SequenceFlow)
  unfolding eval_condition
  first_event [] = ok none
  first_event (f ∷ flows) =
      let rest = first_event flows in
      elim (eval_condition n f.condition vars) [
        | err e ↦ err e
        | ok holds ↦ if holds then ok (some f) else rest
      ]

  unfoldable pub select_flow : String → List SequenceFlow → Result SequenceFlow
  select_flow id [] = err (selected_flow_not_found id)
  select_flow id (f ∷ flows) = let rest = select_flow id flows in if f.id == id then ok f else rest

  -- The flow that `followEventBasedGateway` activates.
  unfoldable pub choose_event_based : String → List SequenceFlow → Result SequenceFlow
  unfolding first_event select_flow
  choose_event_based selected flows =
      if is_empty selected
      then Errors.◌>>=◌ (first_event flows) (event_or_only flows)
      else select_flow selected flows

  -- The first loop of `followComplexGateway`.
  unfoldable pub match_complex : List SequenceFlow → Result (List SequenceFlow)
  unfolding eval_condition
  match_complex [] = ok []
  match_complex (f ∷ flows) =
      let rest = match_complex flows in
      if is_empty f.condition then rest else elim (eval_condition n f.condition vars) [
        | err e ↦ err e
        | ok holds ↦
            if holds then Errors.◌>>=◌ rest (λ (l : List SequenceFlow). ok (f ∷ l)) else rest
      ]

  unfoldable pub choose_complex : List SequenceFlow → Result (List SequenceFlow)
  unfolding match_complex
  choose_complex flows = Errors.◌>>=◌ (match_complex flows) (λ (matched : List SequenceFlow).
      elim matched [ [] ↦ err complex_no_match | f ∷ l ↦ ok (f ∷ l) ])

  -- The loop of `EvaluateComplexGateway`.
  unfoldable pub complex_ids : List SequenceFlow → Result (List String)
  unfolding eval_condition
  complex_ids [] = ok []
  complex_ids (f ∷ flows) =
      let rest = complex_ids flows in
      if is_empty f.condition then rest else elim (eval_condition n f.condition vars) [
        | err e ↦ err e
        | ok holds ↦ if holds then Errors.◌>>=◌ rest (λ (l : List String). ok (f.id ∷ l)) else rest
      ]

abbrev is_complex : ElementKind → Bool
is_complex complex_gateway = true
is_complex _ = false

abbrev is_call : ElementKind → Bool
is_call call_activity = true
is_call _ = false

-- The tests of the activity.
unfoldable pub check_activity : Uuid → ActivityInstance → Result (Unit {0})
check_activity instance_id act =
    Errors.◌>>◌
      (reject_if (not (act.process_instance_id == instance_id)) activity_of_other_instance)
      (reject_if (not (is_active act.status)) activity_not_active)

-- `m` on an `execState` of its own: the instance in hand is the caller's again behind it.
unfoldable pub apart : {A : Type 0} → M A → M A
apart m s =
    let (r, t) = m s in
    (r, record t { inst = s.inst; scope_id = s.scope_id; branch_flow_id = s.branch_flow_id })

module _ (w : World) where
  module _ (reg : Registry) (activate : Activate) where
    unfoldable pub follow_event_based : String → List SequenceFlow → M (Unit {0})
    unfolding choose_event_based activate_via_flow
    follow_event_based selected flows = do
      vars ← gets (λ s. s.inst.variables)
      branch ← gets (λ s. s.branch_flow_id)
      f ← lift (choose_event_based w.numerics vars selected flows)
      activate_via_flow w reg activate f branch

    unfoldable pub follow_complex : List SequenceFlow → M (Unit {0})
    unfolding choose_complex follow_all
    follow_complex flows = do
      vars ← gets (λ s. s.inst.variables)
      chosen ← lift (choose_complex w.numerics vars flows)
      follow_all w reg activate chosen

    -- The switch of `completeElementWithSelection`.
    unfoldable pub follow_kind_selected :
        ElementKind → String → String → List SequenceFlow → M (Unit {0})
    unfolding follow_exclusive follow_all follow_inclusive follow_single incoming_flows
        follow_event_based follow_complex
    follow_kind_selected exclusive_gateway id selected flows = follow_exclusive w reg activate flows
    follow_kind_selected parallel_gateway id selected flows = follow_all w reg activate flows
    follow_kind_selected inclusive_gateway id selected flows =
        if leb (length (incoming_flows reg id)) 1
        then follow_inclusive w reg activate flows
        else follow_all w reg activate flows
    follow_kind_selected event_based_gateway id selected flows = follow_event_based selected flows
    follow_kind_selected complex_gateway id selected flows = follow_complex flows
    follow_kind_selected _ id selected flows = follow_single w reg activate id flows

    abbrev pub follow_selected : ElementKind → String → String → List SequenceFlow → M (Unit {0})
    follow_selected kind id selected [] =
        if is_end_event reg id then try_complete_process w reg else done
    follow_selected kind id selected (f ∷ flows) = follow_kind_selected kind id selected (f ∷ flows)

    unfoldable pub complete_element_with_selection : String → String → M (Unit {0})
    unfolding element remove_string touch update_instance follow_kind_selected outgoing_flows
        try_complete_process is_end_event
    complete_element_with_selection id selected = elim (element reg id) [
      | none ↦ throw (element_not_found id)
      | some el ↦ do
        set_active (λ active. remove_string active id)
        touch w
        update_instance w
        follow_selected el.kind id selected (outgoing_flows reg id)
    ]

  -- The business key of the instance that a call activity starts.
  unfoldable pub called_key : ProcessInstance → Element → String
  called_key inst el =
      if is_empty inst.business_key
      then w.uuid_text inst.id ++ ":" ++ el.id
      else inst.business_key ++ ":" ++ el.id

  abbrev pub call_request : ProcessInstance → Element → StartProcessRequest
  call_request inst el = record {
    tenant_id = inst.tenant_id;
    process_key = el.called_element;
    business_key = called_key inst el;
    variables = inst.variables;
    start_element_ids = [];
  }

  unfoldable pub invoke_call_activity : ℕ → Element → M (Unit {0})
  unfolding apart start_process called_key
  invoke_call_activity fuel el = if is_empty el.called_element then done else do
    inst ← gets (λ s. s.inst)
    ignored ← apart (start_process w false fuel (call_request inst el))
    done

  module _ (fuel : ℕ) (inst : ProcessInstance) (act : ActivityInstance) where
    unfoldable pub complete_receive_activity : CompleteActivityRequest → M (Option ProcessInstance)
    unfolding assign now update_activity registry_for_instance complete_element_with_selection
        activate_element fail_instance get_process_instance
    complete_receive_activity req = do
      load inst
      set_variables (λ vars. assign vars req.variables)
      t ← now w
      update_activity w (record act { status = ActivityStatus.completed; ended_at = some t })
      inst' ← gets (λ s. s.inst)
      reg ← lift (registry_for_instance inst')
      out ← attempt (
          complete_element_with_selection reg (activate_element w reg fuel) act.element_id
            req.selected_flow_id)
      or_fail w out
      read_back

    unfoldable pub complete_extension_activity :
        CompleteActivityRequest → M (Option ProcessInstance)
    unfolding assign now update_activity registry_for_instance complete_element_with_selection
        activate_element fail_instance get_process_instance element invoke_call_activity
        remove_string
    complete_extension_activity req = do
      reg ← lift (registry_for_instance inst)
      el ← lift (found (element_not_found act.element_id) (element reg act.element_id))
      load inst
      set_variables (λ vars. assign vars req.variables)
      (if is_call el.kind then invoke_call_activity fuel el else done)
      t ← now w
      update_activity w (record act {
        status = ActivityStatus.completed;
        output = req.variables;
        ended_at = some t;
      })
      set_active (λ active. remove_string active act.element_id)
      out ← attempt (
          complete_element_with_selection reg (activate_element w reg fuel) act.element_id
            req.selected_flow_id)
      or_fail w out
      read_back

  abbrev pub task_request : CompleteActivityRequest → CompleteTaskRequest
  task_request req = record {
    process_instance_id = req.process_instance_id;
    activity_id = req.activity_id;
    assignee = req.assignee;
    action = req.action;
    comment = req.comment;
    variables = req.variables;
    lock_version = req.lock_version;
  }

  -- The switch of `CompleteActivity`.
  unfoldable pub complete_kind :
      ElementKind
      → Bool
      → ℕ
      → ProcessInstance
      → ActivityInstance
      → CompleteActivityRequest
      → M (Option ProcessInstance)
  unfolding complete_task complete_receive_activity complete_extension_activity is_extension_kind
  complete_kind user_task async fuel inst act req = complete_task w async fuel (task_request req)
  complete_kind receive_task async fuel inst act req = complete_receive_activity fuel inst act req
  complete_kind kind async fuel inst act req =
      if is_extension_kind kind
      then complete_extension_activity fuel inst act req
      else throw (complete_not_supported kind)

  unfoldable pub complete_activity : Bool → ℕ → CompleteActivityRequest → M (Option ProcessInstance)
  unfolding get_process_instance get_activity_instance check_instance check_activity complete_kind
  complete_activity async fuel req = do
    inst ← gets (λ s. get_process_instance req.process_instance_id s.store)
    inst' ← lift (found instance_not_found inst)
    lift (check_instance req.lock_version inst')
    act ← gets (λ s. get_activity_instance req.activity_id s.store)
    act' ← lift (found activity_not_found act)
    lift (check_activity inst'.id act')
    complete_kind act'.element_kind async fuel inst' act' req

  unfoldable pub evaluate_complex_gateway : Uuid → String → M (List String)
  unfolding get_process_instance registry_for_instance element complex_ids outgoing_flows
  evaluate_complex_gateway instance_id gateway = do
    inst ← gets (λ s. get_process_instance instance_id s.store)
    inst' ← lift (found instance_not_found inst)
    reg ← lift (registry_for_instance inst')
    el ← lift (found (complex_gateway_not_found gateway) (element reg gateway))
    lift (reject_if (not (is_complex el.kind)) (complex_gateway_not_found gateway))
    lift (complex_ids w.numerics inst'.variables (outgoing_flows reg gateway))
