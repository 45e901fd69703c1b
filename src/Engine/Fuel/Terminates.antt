-- ===== src/Engine/Fuel/Terminates.antt =====
-- internal/engine/engine.go: the fuel that the activation of an element uses.
use lowcode_bpmn.Prelude.{
  ℕ, zero, suc, ltb, String, Bool, true, false, ◌||◌, some, ◌≡◌, refl, sym, subst, Memᴰ, All,
  All-of_Memᴰ, arith, Bool-cases, inl, inr, if◌then◌else◌,
}
use lowcode_bpmn.Text.{is_empty}
use lowcode_bpmn.Vars.{Vars}
use lowcode_bpmn.Definition.Model.{
  ElementKind, start_event, end_event, user_task, script_task, service_task, send_task,
  receive_task, business_rule_task, exclusive_gateway, parallel_gateway, inclusive_gateway, Element,
  SequenceFlow,
}
use lowcode_bpmn.Definition.Registry.{Registry, element, outgoing_flows}
use lowcode_bpmn.Definition.Rules.{is_extension_kind}
use lowcode_bpmn.Errors.{Result, ok, err, unsupported_element_kind}
use lowcode_bpmn.Runtime.{ActivityInstance}
use lowcode_bpmn.Engine.State.{
  World, M, ◌>>=◌, now, new_uuid, create_activity, set_variables, set_scope, throw, attempt, modify,
  modify_inst,
}
use lowcode_bpmn.Engine.Fuel.{
  has_fuel, Fueled, Fueled-throw, Fueled-gets, Fueled-done, Fueled-if, Fueled-option, Fueled-bind,
}
use lowcode_bpmn.Engine.Flow.{Activate}
use lowcode_bpmn.Engine.Tasks.{
  activate_extension_element, complete_automated_task, activate_receive_task,
}
use lowcode_bpmn.Engine.Activate.{
  await_user, automate, pass_through, activate_kind, activate_node, activate_sub_process,
  activate_step, activate_element, is_sub_process,
}
use lowcode_bpmn.Engine.Fuel.Effects.{
  update_instance-Fueled, touch-Fueled, try_complete_process-Fueled, update_activity-Fueled,
  finish-Fueled, wait_at-Fueled, run_element_script-Fueled, run_automated_task-Fueled,
  fail_activity-Fueled,
}
use lowcode_bpmn.Engine.Fuel.Follow.{complete_element-Fueled, Reaches}

-- Whether an activation of the element goes on to the flows that leave it.
unfoldable pub passes : ElementKind → Element → Bool
passes user_task el = el.auto_complete
passes receive_task el = el.auto_complete || is_empty el.message_ref
passes start_event el = true
passes script_task el = true
passes service_task el = true
passes send_task el = true
passes business_rule_task el = true
passes exclusive_gateway el = true
passes parallel_gateway el = true
passes inclusive_gateway el = true
passes _ el = false

ltb_trans : (a b n : ℕ) → ltb a b ≡ true → ltb b (suc n) ≡ true → ltb a n ≡ true
ltb_trans a b n h k = ground arith

-- `rank` counts down along the flows that leave an element that does not wait, and into a sub-process.
pub record Descends (reg : Registry) (rank : String → ℕ) : Type 0 where
  pub named : (id : String) (el : Element) → element reg id ≡ some el → el.id ≡ id
  pub along :
      (id : String) (el : Element) (f : SequenceFlow)
      → element reg id ≡ some el
      → passes el.kind el ≡ true
      → Memᴰ f (outgoing_flows reg id)
      → ltb (rank f.target_ref) (rank id) ≡ true
  pub into :
      (id : String) (el : Element)
      → element reg id ≡ some el
      → is_sub_process el.kind ≡ true
      → is_empty el.entry_ref ≡ false
      → ltb (rank el.entry_ref) (rank id) ≡ true

module _ (w : World) (reg : Registry) where
  module _ (activate : Activate) where
    pass_through-Fueled :
        (id : String) (act : ActivityInstance)
        → All (Reaches w reg activate) (outgoing_flows reg id)
        → Fueled (pass_through w reg activate id act)
    unfolding pass_through
    pass_through-Fueled id act all =
        Fueled-bind _ _ ((finish-Fueled w reg) act)
          (λ _. (complete_element-Fueled w reg activate) id all)

    complete_automated_task-Fueled :
        (id : String) (act : ActivityInstance) (out : Result Vars)
        → has_fuel out ≡ true
        → All (Reaches w reg activate) (outgoing_flows reg id)
        → Fueled (complete_automated_task w reg activate id act out)
    unfolding complete_automated_task set_variables modify_inst
    complete_automated_task-Fueled id act (err e) h all =
        Fueled-bind _ _ ((fail_activity-Fueled w reg) e act) (λ _. Fueled-throw e h)
    complete_automated_task-Fueled id act (ok out) h all =
        Fueled-bind _ _ (record { at = λ s. refl })
          (λ _. Fueled-bind _ _ (touch-Fueled w reg) (λ _.
            Fueled-bind _ _ (update_instance-Fueled w reg) (λ _.
              Fueled-bind _ _ ((finish-Fueled w reg) (record act { output = out }))
                (λ _. (complete_element-Fueled w reg activate) id all))))

    -- What follows an automated task, whose error is a value here.
    attempted-Fueled :
        (m : M Vars) (id : String) (act : ActivityInstance)
        → Fueled m
        → All (Reaches w reg activate) (outgoing_flows reg id)
        → Fueled (attempt m >>= complete_automated_task w reg activate id act)
    unfolding ◌>>=◌
    attempted-Fueled m id act k all = record {
      at = λ s. (complete_automated_task-Fueled id act (m s).0 (k.at s) all).at (m s).1;
    }

    automate-Fueled :
        (id : String) (el : Element) (act : ActivityInstance)
        → All (Reaches w reg activate) (outgoing_flows reg id)
        → Fueled (automate w reg activate id el act)
    unfolding automate
    automate-Fueled id el act all =
        attempted-Fueled _ id act ((run_automated_task-Fueled w reg) el.kind el) all

    activate_receive_task-Fueled :
        (el : Element) (act : ActivityInstance)
        → (passes receive_task el ≡ true → All (Reaches w reg activate) (outgoing_flows reg el.id))
        → Fueled (activate_receive_task w reg activate el act)
    unfolding activate_receive_task passes
    activate_receive_task-Fueled el act all =
        elim (Bool-cases (el.auto_complete || is_empty el.message_ref)) [
          | inl goes_on ↦ rw goes_on (
              Fueled-bind _ _ ((finish-Fueled w reg) act)
                (λ _. (complete_element-Fueled w reg activate) el.id (all goes_on)))
          | inr waits ↦ rw waits (
              Fueled-bind _ _ ((update_activity-Fueled w reg) _)
                (λ _. (wait_at-Fueled w reg) el.id))
        ]

    await_user-Fueled :
        (id : String) (el : Element) (act : ActivityInstance) → Fueled (await_user w reg id el act)
    unfolding await_user
    await_user-Fueled id el act = Fueled-bind _ _ (Fueled-gets _) (λ resolved.
        Fueled-bind _ _ ((update_activity-Fueled w reg) _) (λ _. (wait_at-Fueled w reg) id))

    activate_user_task-Fueled :
        (id : String) (el : Element) (act : ActivityInstance)
        → (el.auto_complete ≡ true → All (Reaches w reg activate) (outgoing_flows reg id))
        → Fueled (activate_kind w reg activate user_task id el act)
    unfolding activate_kind
    activate_user_task-Fueled id el act all = elim (Bool-cases el.auto_complete) [
      | inl goes_on ↦
          subst
            (λ b.
              Fueled (if b then pass_through w reg activate id act else await_user w reg id el act))
            (sym goes_on) (pass_through-Fueled id act (all goes_on))
      | inr waits ↦
          subst
            (λ b.
              Fueled (if b then pass_through w reg activate id act else await_user w reg id el act))
            (sym waits) (await_user-Fueled id el act)
    ]

    activate_extension_element-Fueled :
        (el : Element) (act : ActivityInstance) → Fueled (activate_extension_element w reg el act)
    unfolding activate_extension_element
    activate_extension_element-Fueled el act =
        Fueled-bind _ _ ((update_activity-Fueled w reg) _) (λ _. (wait_at-Fueled w reg) el.id)

    activate_kind-Fueled :
        (k : ElementKind) (id : String) (el : Element) (act : ActivityInstance)
        → el.id ≡ id
        → (passes k el ≡ true → All (Reaches w reg activate) (outgoing_flows reg id))
        → Fueled (activate_kind w reg activate k id el act)
    unfolding activate_kind passes
    activate_kind-Fueled start_event id el act named all = pass_through-Fueled id act (all refl)
    activate_kind-Fueled end_event id el act named all =
        Fueled-bind _ _ ((finish-Fueled w reg) act) (λ _. (try_complete_process-Fueled w reg))
    activate_kind-Fueled service_task id el act named all = automate-Fueled id el act (all refl)
    activate_kind-Fueled send_task id el act named all = automate-Fueled id el act (all refl)
    activate_kind-Fueled business_rule_task id el act named all =
        automate-Fueled id el act (all refl)
    activate_kind-Fueled receive_task id el act named all =
        activate_receive_task-Fueled el act (λ h.
          subst (λ i. All (Reaches w reg activate) (outgoing_flows reg i)) (sym named) (all h))
    activate_kind-Fueled script_task id el act named all =
        attempted-Fueled _ id act ((run_element_script-Fueled w reg) id el) (all refl)
    activate_kind-Fueled user_task id el act named all = activate_user_task-Fueled id el act all
    activate_kind-Fueled exclusive_gateway id el act named all =
        pass_through-Fueled id act (all refl)
    activate_kind-Fueled parallel_gateway id el act named all =
        pass_through-Fueled id act (all refl)
    activate_kind-Fueled inclusive_gateway id el act named all =
        pass_through-Fueled id act (all refl)
    activate_kind-Fueled k id el act named all =
        Fueled-if (is_extension_kind k) _ (throw (unsupported_element_kind k))
          (activate_extension_element-Fueled el act) (Fueled-throw _ refl)

    activate_node-Fueled :
        (id : String) (el : Element) (branch : String)
        → el.id ≡ id
        → (passes el.kind el ≡ true → All (Reaches w reg activate) (outgoing_flows reg id))
        → Fueled (activate_node w reg activate id el branch)
    unfolding activate_node now new_uuid create_activity
    activate_node-Fueled id el branch named all =
        Fueled-bind _ _ (record { at = λ s. refl })
          (λ t.
            Fueled-bind _ _ (record { at = λ s. refl })
              (λ new. Fueled-bind _ _ (Fueled-gets _) (λ fresh.
                Fueled-bind _ _ (record { at = λ s. refl })
                  (λ act. activate_kind-Fueled el.kind id el act named all))))

    activate_sub_process-Fueled :
        (el : Element) (branch : String)
        → (is_empty el.entry_ref ≡ false → Fueled (activate el.entry_ref branch))
        → Fueled (activate_sub_process w reg activate el branch)
    unfolding activate_sub_process set_scope modify
    activate_sub_process-Fueled el branch enters =
        Fueled-bind _ _ (record { at = λ s. refl })
          (λ _. elim (Bool-cases (is_empty el.entry_ref)) [
            | inl e ↦ rw e Fueled-done
            | inr e ↦ rw e (enters e)
          ])

  module _ (rank : String → ℕ) (d : Descends reg rank) where
    activate_step-Fueled :
        (n : ℕ) (activate : Activate)
        → ((id branch : String) → ltb (rank id) n ≡ true → Fueled (activate id branch))
        → (id branch : String) → ltb (rank id) (suc n) ≡ true
        → Fueled (activate_step w reg activate id branch)
    unfolding activate_step
    activate_step-Fueled n activate keeps id branch below =
        Fueled-option (element reg id) _ _ (Fueled-throw _ refl) (λ el found.
          elim (Bool-cases (is_sub_process el.kind)) [
            | inl sub ↦ rw sub (
                activate_sub_process-Fueled activate el branch (λ entry.
                  keeps el.entry_ref branch (ltb_trans _ _ _ (d.into id el found sub entry) below)))
            | inr other ↦ rw other (
                activate_node-Fueled activate id el branch (d.named id el found) (λ goes_on.
                  All-of_Memᴰ _ _ (λ f m branch'.
                    keeps f.target_ref branch'
                      (ltb_trans _ _ _ (d.along id el f found goes_on m) below))))
          ])

    pub activate_element-Fueled :
        (fuel : ℕ) (id branch : String)
        → ltb (rank id) fuel ≡ true
        → Fueled (activate_element w reg fuel id branch)
    unfolding activate_element
    activate_element-Fueled zero id branch below = record { at = λ s. ground arith }
    activate_element-Fueled (suc fuel) id branch below =
        activate_step-Fueled fuel (activate_element w reg fuel) (activate_element-Fueled fuel) id
          branch below
