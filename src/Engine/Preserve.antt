-- ===== src/Engine/Preserve.antt =====
-- internal/engine/engine.go: relations on the states, from the single effects to a whole activation.
use lowcode_bpmn.Prelude.{ℕ, zero, suc, String, List, [], ◌∷◌}
use lowcode_bpmn.Vars.{Vars, Value, put, delete}
use lowcode_bpmn.Definition.Model.{
  ElementKind, start_event, end_event, user_task, script_task, service_task, send_task,
  receive_task, business_rule_task, exclusive_gateway, parallel_gateway, inclusive_gateway, Element,
  SequenceFlow,
}
use lowcode_bpmn.Definition.Registry.{Registry, element, outgoing_flows}
use lowcode_bpmn.Definition.Rules.{is_extension_kind}
use lowcode_bpmn.Errors.{Error, Result, ok, err, unsupported_element_kind}
use lowcode_bpmn.Runtime.{Time, ActivityInstance}
use lowcode_bpmn.Engine.State.{
  World, RunRequest, Exec, now, new_uuid, touch, create_activity, update_activity, update_instance,
  list_active, run_script, http_do, set_updated, set_active, set_variables, set_internal,
  set_completed, set_scope, throw,
}
use lowcode_bpmn.Engine.State.Keeps.{
  IsPreorder, Keeps, Keeps-pure, Keeps-throw, Keeps-lift, Keeps-gets, Keeps-done, Keeps-attempt,
  Keeps-if, Keeps-option, Keeps-bind,
}
use lowcode_bpmn.Engine.Flow.{
  Activate, join_arrivals_key, complete_instance, try_complete_process, arrive, activate_via_flow,
  follow_exclusive, follow_all, follow_inclusive, follow_single, follow_kind, follow_outgoing,
  complete_element,
}
use lowcode_bpmn.Engine.Tasks.{
  run_service_task, run_send_task, run_element_script, run_business_rule_task, run_automated_task,
  finish, fail_activity, wait_at, activate_extension_element, complete_automated_task,
  activate_receive_task,
}
use lowcode_bpmn.Engine.Activate.{
  await_user, automate, pass_through, activate_kind, activate_node, activate_sub_process,
  activate_step, activate_element,
}

pub record Primitives (w : World) (R : Exec → Exec → Type 0) : Type 0 where
  pub order : IsPreorder R
  pub by_now : Keeps R (now w)
  pub by_uuid : Keeps R (new_uuid w)
  pub by_create : (act : ActivityInstance) → Keeps R (create_activity w act)
  pub by_activity : (act : ActivityInstance) → Keeps R (update_activity w act)
  pub by_instance : Keeps R (update_instance w)
  pub by_list : Keeps R (list_active w)
  pub by_script : (req : RunRequest) → Keeps R (run_script w req)
  pub by_http : (method url : String) → Keeps R (http_do w method url)
  pub by_updated : (t : Time) → Keeps R (set_updated t)
  pub by_active : (f : List String → List String) → Keeps R (set_active f)
  pub by_variables : (f : Vars → Vars) → Keeps R (set_variables f)
  pub by_arrival :
      (gateway : String) (v : Value) → Keeps R (set_internal (put (join_arrivals_key gateway) v))
  pub by_clearing : (gateway : String) → Keeps R (set_internal (delete (join_arrivals_key gateway)))
  pub by_completed : (t : Time) → Keeps R (set_completed t)
  pub by_scope : (f : Exec → String) → Keeps R (set_scope f)

module _ {w : World} {R : Exec → Exec → Type 0} (p : Primitives w R) (reg : Registry) where
  open p use {
    order, by_now, by_uuid, by_create, by_activity, by_instance, by_list, by_script, by_http,
    by_updated, by_active, by_variables, by_arrival, by_clearing, by_completed, by_scope,
  }

  pub touch-Keeps : Keeps R (touch w)
  unfolding touch
  touch-Keeps = Keeps-bind order _ _ by_now by_updated

  complete_instance-Keeps : Keeps R (complete_instance w reg)
  unfolding complete_instance
  complete_instance-Keeps =
      Keeps-bind order _ _ by_now (λ t. Keeps-bind order _ _ (by_completed t) (λ _. by_instance))

  pub try_complete_process-Keeps : Keeps R (try_complete_process w reg)
  unfolding try_complete_process
  try_complete_process-Keeps = Keeps-bind order _ _ by_list (λ active.
      Keeps-bind order _ _ (Keeps-gets order _)
        (λ waiting. Keeps-if order _ _ _ (Keeps-done order) complete_instance-Keeps))

  finish-Keeps : (act : ActivityInstance) → Keeps R (finish w reg act)
  unfolding finish
  finish-Keeps act = Keeps-bind order _ _ by_now (λ t. by_activity _)

  wait_at-Keeps : (id : String) → Keeps R (wait_at w reg id)
  unfolding wait_at
  wait_at-Keeps id =
      Keeps-bind order _ _ (by_active _) (λ _. Keeps-bind order _ _ touch-Keeps (λ _. by_instance))

  fail_activity-Keeps : (e : Error) (act : ActivityInstance) → Keeps R (fail_activity w reg e act)
  unfolding fail_activity
  fail_activity-Keeps e act = Keeps-bind order _ _ by_now (λ t. by_activity _)

  run_element_script-Keeps : (id : String) (el : Element) → Keeps R (run_element_script w reg id el)
  unfolding run_element_script
  run_element_script-Keeps id el = Keeps-bind order _ _ (Keeps-gets order _) (λ req. by_script req)

  run_automated_task-Keeps :
      (k : ElementKind) (el : Element) → Keeps R (run_automated_task w reg k el)
  unfolding run_automated_task run_service_task run_send_task run_business_rule_task
  run_automated_task-Keeps service_task el =
      Keeps-if order _ _ _ (Keeps-pure order _)
        (Keeps-bind order _ _ (by_http _ _) (λ resp. Keeps-pure order _))
  run_automated_task-Keeps send_task el = Keeps-pure order _
  run_automated_task-Keeps business_rule_task el =
      Keeps-if order _ _ _ (run_element_script-Keeps el.id el) (Keeps-pure order _)
  run_automated_task-Keeps _ el = Keeps-throw order _

  module _ (activate : Activate) (keeps : (id branch : String) → Keeps R (activate id branch)) where
    arrive-Keeps :
        (target branch : String) (incoming : ℕ) (arrived : List String)
        → Keeps R (arrive w reg activate target branch incoming arrived)
    unfolding arrive
    arrive-Keeps target branch incoming arrived = Keeps-bind order _ _ (by_arrival _ _) (λ _.
        Keeps-if order _ _ _ (Keeps-bind order _ _ touch-Keeps (λ _. by_instance))
          (Keeps-bind order _ _ (by_clearing _) (λ _. keeps target branch)))

    pub activate_via_flow-Keeps :
        (f : SequenceFlow) (branch : String) → Keeps R (activate_via_flow w reg activate f branch)
    unfolding activate_via_flow
    activate_via_flow-Keeps f branch =
        Keeps-if order _ _ _
          (Keeps-bind order _ _ (Keeps-gets order _) (λ arrived. arrive-Keeps _ _ _ arrived))
          (keeps _ _)

    pub follow_all-Keeps : (flows : List SequenceFlow) → Keeps R (follow_all w reg activate flows)
    unfolding follow_all
    follow_all-Keeps [] = Keeps-done order
    follow_all-Keeps (f ∷ flows) = Keeps-bind order _ _ (Keeps-gets order _) (λ branch.
        Keeps-bind order _ _ (activate_via_flow-Keeps f branch) (λ _. follow_all-Keeps flows))

    follow_kind-Keeps :
        (k : ElementKind) (id : String) (flows : List SequenceFlow)
        → Keeps R (follow_kind w reg activate k id flows)
    unfolding follow_kind follow_exclusive follow_inclusive
    follow_kind-Keeps exclusive_gateway id flows =
        Keeps-bind order _ _ (Keeps-gets order _) (λ vars.
          Keeps-bind order _ _ (Keeps-gets order _) (λ branch.
            Keeps-bind order _ _ (Keeps-lift order _) (λ f. activate_via_flow-Keeps f branch)))
    follow_kind-Keeps parallel_gateway id flows = follow_all-Keeps flows
    follow_kind-Keeps inclusive_gateway id flows =
        Keeps-if order _ _ _
          (Keeps-bind order _ _ (Keeps-gets order _)
            (λ vars. Keeps-bind order _ _ (Keeps-lift order _) (λ chosen. follow_all-Keeps chosen)))
          (follow_all-Keeps flows)
    follow_kind-Keeps _ id flows = single flows
      where
        single : (flows : List SequenceFlow) → Keeps R (follow_single w reg activate id flows)
        single [] = Keeps-done order
        single (f ∷ []) =
            Keeps-bind order _ _ (Keeps-gets order _) (λ branch. activate_via_flow-Keeps f branch)
        single (f ∷ g ∷ flows) = Keeps-throw order _

    follow_outgoing-Keeps :
        (k : ElementKind) (id : String) (flows : List SequenceFlow)
        → Keeps R (follow_outgoing w reg activate k id flows)
    follow_outgoing-Keeps k id [] =
        Keeps-if order _ _ _ try_complete_process-Keeps (Keeps-done order)
    follow_outgoing-Keeps k id (f ∷ flows) = follow_kind-Keeps k id (f ∷ flows)

    pub complete_element-Keeps : (id : String) → Keeps R (complete_element w reg activate id)
    unfolding complete_element
    complete_element-Keeps id = Keeps-option order (element reg id) _ _ (Keeps-throw order _) (λ el.
        Keeps-bind order _ _ (by_active _) (λ _. Keeps-bind order _ _ touch-Keeps (λ _.
          Keeps-bind order _ _ by_instance
            (λ _. follow_outgoing-Keeps el.kind id (outgoing_flows reg id)))))

    complete_automated_task-Keeps :
        (id : String) (act : ActivityInstance) (out : Result Vars)
        → Keeps R (complete_automated_task w reg activate id act out)
    unfolding complete_automated_task
    complete_automated_task-Keeps id act (err e) =
        Keeps-bind order _ _ (fail_activity-Keeps e act) (λ _. Keeps-throw order e)
    complete_automated_task-Keeps id act (ok out) = Keeps-bind order _ _ (by_variables _) (λ _.
        Keeps-bind order _ _ touch-Keeps (λ _. Keeps-bind order _ _ by_instance (λ _.
          Keeps-bind order _ _ (finish-Keeps (record act { output = out }))
            (λ _. complete_element-Keeps id))))

    pass_through-Keeps :
        (id : String) (act : ActivityInstance) → Keeps R (pass_through w reg activate id act)
    unfolding pass_through
    pass_through-Keeps id act =
        Keeps-bind order _ _ (finish-Keeps act) (λ _. complete_element-Keeps id)

    activate_receive_task-Keeps :
        (el : Element) (act : ActivityInstance)
        → Keeps R (activate_receive_task w reg activate el act)
    unfolding activate_receive_task
    activate_receive_task-Keeps el act =
        Keeps-if order _ _ _
          (Keeps-bind order _ _ (finish-Keeps act) (λ _. complete_element-Keeps el.id))
          (Keeps-bind order _ _ (by_activity _) (λ _. wait_at-Keeps el.id))

    activate_extension_element-Keeps :
        (el : Element) (act : ActivityInstance) → Keeps R (activate_extension_element w reg el act)
    unfolding activate_extension_element
    activate_extension_element-Keeps el act =
        Keeps-bind order _ _ (by_activity _) (λ _. wait_at-Keeps el.id)

    await_user-Keeps :
        (id : String) (el : Element) (act : ActivityInstance) → Keeps R (await_user w reg id el act)
    unfolding await_user
    await_user-Keeps id el act =
        Keeps-bind order _ _ (Keeps-gets order _)
          (λ resolved. Keeps-bind order _ _ (by_activity _) (λ _. wait_at-Keeps id))

    automate-Keeps :
        (id : String) (el : Element) (act : ActivityInstance)
        → Keeps R (automate w reg activate id el act)
    unfolding automate
    automate-Keeps id el act =
        Keeps-bind order _ _ (Keeps-attempt order _ (run_automated_task-Keeps el.kind el))
          (λ out. complete_automated_task-Keeps id act out)

    activate_kind-Keeps :
        (k : ElementKind) (id : String) (el : Element) (act : ActivityInstance)
        → Keeps R (activate_kind w reg activate k id el act)
    unfolding activate_kind
    activate_kind-Keeps start_event id el act = pass_through-Keeps id act
    activate_kind-Keeps end_event id el act =
        Keeps-bind order _ _ (finish-Keeps act) (λ _. try_complete_process-Keeps)
    activate_kind-Keeps service_task id el act = automate-Keeps id el act
    activate_kind-Keeps send_task id el act = automate-Keeps id el act
    activate_kind-Keeps business_rule_task id el act = automate-Keeps id el act
    activate_kind-Keeps receive_task id el act = activate_receive_task-Keeps el act
    activate_kind-Keeps script_task id el act =
        Keeps-bind order _ _ (Keeps-attempt order _ (run_element_script-Keeps id el))
          (λ out. complete_automated_task-Keeps id act out)
    activate_kind-Keeps user_task id el act =
        Keeps-if order _ _ _ (pass_through-Keeps id act) (await_user-Keeps id el act)
    activate_kind-Keeps exclusive_gateway id el act = pass_through-Keeps id act
    activate_kind-Keeps parallel_gateway id el act = pass_through-Keeps id act
    activate_kind-Keeps inclusive_gateway id el act = pass_through-Keeps id act
    activate_kind-Keeps k id el act =
        Keeps-if order (is_extension_kind k) _ (throw (unsupported_element_kind k))
          (activate_extension_element-Keeps el act) (Keeps-throw order _)

    activate_node-Keeps :
        (id : String) (el : Element) (branch : String)
        → Keeps R (activate_node w reg activate id el branch)
    unfolding activate_node
    activate_node-Keeps id el branch = Keeps-bind order _ _ by_now (λ t.
        Keeps-bind order _ _ by_uuid (λ new. Keeps-bind order _ _ (Keeps-gets order _) (λ fresh.
          Keeps-bind order _ _ (by_create fresh) (λ act. activate_kind-Keeps el.kind id el act))))

    activate_sub_process-Keeps :
        (el : Element) (branch : String) → Keeps R (activate_sub_process w reg activate el branch)
    unfolding activate_sub_process
    activate_sub_process-Keeps el branch =
        Keeps-bind order _ _ (by_scope _)
          (λ _. Keeps-if order _ _ _ (Keeps-done order) (keeps el.entry_ref branch))

    activate_step-Keeps : (id branch : String) → Keeps R (activate_step w reg activate id branch)
    unfolding activate_step
    activate_step-Keeps id branch =
        Keeps-option order (element reg id) _ _ (Keeps-throw order _) (λ el.
          Keeps-if order _ _ _ (activate_sub_process-Keeps el branch)
            (activate_node-Keeps id el branch))

  pub activate_element-Keeps :
      (fuel : ℕ) (id branch : String) → Keeps R (activate_element w reg fuel id branch)
  unfolding activate_element
  activate_element-Keeps zero id branch = Keeps-throw order _
  activate_element-Keeps (suc fuel) id branch =
      activate_step-Keeps (activate_element w reg fuel) (activate_element-Keeps fuel) id branch
