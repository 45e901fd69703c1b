-- ===== src/Engine/Fuel/Effects.antt =====
-- internal/engine/engine.go and tasks.go: the single effects, none of which activates an element.
use lowcode_bpmn.Prelude.{String, List, refl, arith}
use lowcode_bpmn.Vars.{Vars}
use lowcode_bpmn.Definition.Model.{
  ElementKind, service_task, send_task, business_rule_task, Element,
}
use lowcode_bpmn.Definition.Registry.{Registry}
use lowcode_bpmn.Errors.{Error}
use lowcode_bpmn.Runtime.{ActivityInstance}
use lowcode_bpmn.Store.Memory.{update_process_instance}
use lowcode_bpmn.Engine.State.{
  World, RunRequest, ◌>>=◌, ◌>>◌, now, touch, update_activity, update_instance, list_active,
  run_script, http_do, set_updated, set_active, set_internal, set_completed, modify_inst,
}
use lowcode_bpmn.Engine.Fuel.{
  Fueled, Fueled-pure, Fueled-throw, Fueled-gets, Fueled-done, Fueled-if, Fueled-bind,
}
use lowcode_bpmn.Engine.Flow.{complete_instance, try_complete_process}
use lowcode_bpmn.Engine.Tasks.{
  run_service_task, run_send_task, run_element_script, run_business_rule_task, run_automated_task,
  finish, fail_activity, wait_at,
}

module _ (w : World) (reg : Registry) where
  pub update_instance-Fueled : Fueled (update_instance w)
  unfolding update_instance update_process_instance
  update_instance-Fueled = record { at = λ s. ground arith }

  pub touch-Fueled : Fueled (touch w)
  unfolding touch now set_updated modify_inst ◌>>=◌
  touch-Fueled = record { at = λ s. refl }

  pub complete_instance-Fueled : Fueled (complete_instance w reg)
  unfolding complete_instance now set_completed modify_inst
  complete_instance-Fueled =
      Fueled-bind _ _ (record { at = λ s. refl })
        (λ t. Fueled-bind _ _ (record { at = λ s. refl }) (λ _. update_instance-Fueled))

  pub try_complete_process-Fueled : Fueled (try_complete_process w reg)
  unfolding try_complete_process list_active
  try_complete_process-Fueled =
      Fueled-bind _ _ (record { at = λ s. refl })
        (λ active.
          Fueled-bind _ _ (Fueled-gets _)
            (λ waiting. Fueled-if _ _ _ (Fueled-done) (complete_instance-Fueled)))

  pub update_activity-Fueled : (act : ActivityInstance) → Fueled (update_activity w act)
  unfolding update_activity
  update_activity-Fueled act = record { at = λ s. refl }

  pub finish-Fueled : (act : ActivityInstance) → Fueled (finish w reg act)
  unfolding finish now
  finish-Fueled act = Fueled-bind _ _ (record { at = λ s. refl }) (λ t. update_activity-Fueled _)

  pub set_active-Fueled : (f : List String → List String) → Fueled (set_active f)
  unfolding set_active modify_inst
  set_active-Fueled f = record { at = λ s. refl }

  pub set_internal-Fueled : (f : Vars → Vars) → Fueled (set_internal f)
  unfolding set_internal modify_inst
  set_internal-Fueled f = record { at = λ s. refl }

  pub write_instance-Fueled : Fueled (touch w >> update_instance w)
  write_instance-Fueled = Fueled-bind _ _ touch-Fueled (λ _. update_instance-Fueled)

  pub wait_at-Fueled : (id : String) → Fueled (wait_at w reg id)
  unfolding wait_at
  wait_at-Fueled id = Fueled-bind _ _ (set_active-Fueled _) (λ _. write_instance-Fueled)

  pub run_script-Fueled : (req : RunRequest) → Fueled (run_script w req)
  unfolding run_script
  run_script-Fueled req = record { at = λ s. ground arith }

  pub http_do-Fueled : (method url : String) → Fueled (http_do w method url)
  unfolding http_do
  http_do-Fueled method url = record { at = λ s. ground arith }

  -- An automated task returns a result, or an error, of which none says the bound is used up: the
  -- latter is what the activity fails with.
  pub run_element_script-Fueled :
      (id : String) (el : Element) → Fueled (run_element_script w reg id el)
  unfolding run_element_script
  run_element_script-Fueled id el = Fueled-bind _ _ (Fueled-gets _) (λ req. run_script-Fueled req)

  pub run_automated_task-Fueled :
      (k : ElementKind) (el : Element) → Fueled (run_automated_task w reg k el)
  unfolding run_automated_task run_service_task run_send_task run_business_rule_task
  run_automated_task-Fueled service_task el =
      Fueled-if _ _ _ (Fueled-pure _) (Fueled-bind _ _ (http_do-Fueled _ _) (λ resp. Fueled-pure _))
  run_automated_task-Fueled send_task el = Fueled-pure _
  run_automated_task-Fueled business_rule_task el =
      Fueled-if _ _ _ (run_element_script-Fueled el.id el) (Fueled-pure _)
  run_automated_task-Fueled k el = Fueled-throw _ refl

  pub fail_activity-Fueled :
      (e : Error) (act : ActivityInstance) → Fueled (fail_activity w reg e act)
  unfolding fail_activity now
  fail_activity-Fueled e act =
      Fueled-bind _ _ (record { at = λ s. refl }) (λ t. update_activity-Fueled _)
