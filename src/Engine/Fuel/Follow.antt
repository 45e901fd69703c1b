-- ===== src/Engine/Fuel/Follow.antt =====
-- internal/engine/engine.go: from a completed element to the activations behind its flows.
use lowcode_bpmn.Prelude.{String, none, List, [], ◌∷◌, refl, All}
use lowcode_bpmn.Definition.Model.{
  ElementKind, exclusive_gateway, parallel_gateway, inclusive_gateway, SequenceFlow,
}
use lowcode_bpmn.Definition.Registry.{Registry, element, outgoing_flows}
use lowcode_bpmn.Engine.State.{World}
use lowcode_bpmn.Engine.Fuel.{
  Fueled, Fueled-throw, Fueled-gets, Fueled-done, Fueled-if, Fueled-option, Fueled-bind,
  Fueled-lift_bind,
}
use lowcode_bpmn.Engine.Fuel.Choice.{
  choose_exclusive-has_fuel, choose_inclusive-has_fuel, choose_exclusive-All, choose_inclusive-All,
}
use lowcode_bpmn.Engine.Flow.{
  Activate, arrive, activate_via_flow, follow_exclusive, follow_all, follow_inclusive,
  follow_single, follow_kind, follow_outgoing, complete_element,
}
use lowcode_bpmn.Engine.Fuel.Effects.{
  update_instance-Fueled, touch-Fueled, try_complete_process-Fueled, set_active-Fueled,
  set_internal-Fueled, write_instance-Fueled,
}

module _ (w : World) (reg : Registry) where
  module _ (activate : Activate) where
    -- The activation of the flow's target has fuel enough.
    abbrev pub Reaches : SequenceFlow → Type 0
    Reaches f = (branch : String) → Fueled (activate f.target_ref branch)

    pub activate_via_flow-Fueled :
        (f : SequenceFlow) (branch : String)
        → Reaches f
        → Fueled (activate_via_flow w reg activate f branch)
    unfolding activate_via_flow arrive
    activate_via_flow-Fueled f branch reaches =
        Fueled-if _ _ _
          (Fueled-bind _ _ (Fueled-gets _) (λ arrived.
            Fueled-bind _ _ ((set_internal-Fueled w reg) _) (λ _.
              Fueled-if _ _ _ (write_instance-Fueled w reg)
                (Fueled-bind _ _ ((set_internal-Fueled w reg) _) (λ _. reaches _)))))
          (reaches _)

    pub follow_all-Fueled :
        (flows : List SequenceFlow) → All Reaches flows → Fueled (follow_all w reg activate flows)
    unfolding follow_all
    follow_all-Fueled [] all = Fueled-done
    follow_all-Fueled (f ∷ flows) (reaches, all) = Fueled-bind _ _ (Fueled-gets _) (λ branch.
        Fueled-bind _ _ (activate_via_flow-Fueled f branch reaches)
          (λ _. follow_all-Fueled flows all))

    pub follow_single-Fueled :
        (id : String) (flows : List SequenceFlow)
        → All Reaches flows
        → Fueled (follow_single w reg activate id flows)
    unfolding follow_single
    follow_single-Fueled id [] all = Fueled-done
    follow_single-Fueled id (f ∷ []) (reaches, all) =
        Fueled-bind _ _ (Fueled-gets _) (λ branch. activate_via_flow-Fueled f branch reaches)
    follow_single-Fueled id (f ∷ g ∷ flows) all = Fueled-throw _ refl

    pub follow_kind-Fueled :
        (k : ElementKind) (id : String) (flows : List SequenceFlow)
        → All Reaches flows
        → Fueled (follow_kind w reg activate k id flows)
    unfolding follow_kind follow_exclusive follow_inclusive
    follow_kind-Fueled exclusive_gateway id flows all = Fueled-bind _ _ (Fueled-gets _) (λ vars.
        Fueled-bind _ _ (Fueled-gets _) (λ branch.
          Fueled-lift_bind _ _ (choose_exclusive-has_fuel w.numerics vars none flows) (λ f chosen.
            activate_via_flow-Fueled f branch
              (choose_exclusive-All w.numerics vars Reaches none flows tt all chosen))))
    follow_kind-Fueled parallel_gateway id flows all = follow_all-Fueled flows all
    follow_kind-Fueled inclusive_gateway id flows all =
        Fueled-if _ _ _
          (Fueled-bind _ _ (Fueled-gets _) (λ vars.
            Fueled-lift_bind _ _ (choose_inclusive-has_fuel w.numerics vars flows) (λ ms chosen.
              follow_all-Fueled ms
                (choose_inclusive-All w.numerics vars Reaches flows all chosen))))
          (follow_all-Fueled flows all)
    follow_kind-Fueled _ id flows all = follow_single-Fueled id flows all

    pub follow_outgoing-Fueled :
        (k : ElementKind) (id : String) (flows : List SequenceFlow)
        → All Reaches flows
        → Fueled (follow_outgoing w reg activate k id flows)
    follow_outgoing-Fueled k id [] all =
        Fueled-if _ _ _ ((try_complete_process-Fueled w reg)) (Fueled-done)
    follow_outgoing-Fueled k id (f ∷ flows) all = follow_kind-Fueled k id (f ∷ flows) all

    pub complete_element-Fueled :
        (id : String)
        → All Reaches (outgoing_flows reg id)
        → Fueled (complete_element w reg activate id)
    unfolding complete_element
    complete_element-Fueled id all =
        Fueled-option (element reg id) _ _ (Fueled-throw _ refl) (λ el found.
          Fueled-bind _ _ ((set_active-Fueled w reg) _) (λ _.
            Fueled-bind _ _ (touch-Fueled w reg) (λ _.
              Fueled-bind _ _ (update_instance-Fueled w reg)
                (λ _. follow_outgoing-Fueled el.kind id (outgoing_flows reg id) all))))
