-- ===== src/Definition/Tests.antt =====
-- The theorems on definitions, on concrete processes.
use lowcode_bpmn.Prelude.{String, string_eq, some, [], ◌∷◌, ◌≡◌, ◌↔◌, ◌==◌, refl, Memᴰ, filter}
use lowcode_bpmn.Definition.Model.{
  start_event, end_event, user_task, SequenceFlow, ProcessDefinition,
}
use lowcode_bpmn.Definition.Validate.{validate}
use lowcode_bpmn.Definition.Validate.Sound.{IsWellFormed, validate-IsWellFormed}
use lowcode_bpmn.Definition.Registry.{
  Registry, build_registry, empty_registry, element, outgoing_flows, incoming_flows,
}
use lowcode_bpmn.Definition.Registry.Lookup.{element_iff, flows-eq-filter, build_registry_total}
use lowcode_bpmn.Definition.Return.{resolve_return_target, upstream_user_task}
use lowcode_bpmn.Definition.Return.Target.{
  ReturnTarget, resolve_return_target-ReturnTarget, upstream_user_task_total,
}
use lowcode_bpmn.Errors.{ok}
use lowcode_bpmn.Engine.Samples.{
  program, early_end, early_end_registry, early_end_built, node, flow, process, registry_or,
}

early_end_valid : validate early_end ≡ ok tt
unfolding program validate
early_end_valid = refl

validate-IsWellFormed_example : IsWellFormed early_end
validate-IsWellFormed_example = validate-IsWellFormed early_end early_end_valid

element_iff_example :
    (element early_end_registry "out" ≡ some (node "out" end_event))
    ↔ (Memᴰ (node "out" end_event) early_end.elements × ((node "out" end_event).id ≡ "out"))
element_iff_example =
    element_iff early_end early_end_registry "out" (node "out" end_event) early_end_built

flows-eq-filter_example :
    (outgoing_flows early_end_registry "fork"
      ≡ filter (λ (f : SequenceFlow). f.source_ref == "fork") early_end.flows)
    × (incoming_flows early_end_registry "fork"
        ≡ filter (λ (f : SequenceFlow). f.target_ref == "fork") early_end.flows)
flows-eq-filter_example = flows-eq-filter early_end early_end_registry "fork" early_end_built

build_registry_total_example :
    (validate early_end ≡ ok tt) ↔ ((r : Registry) × (build_registry early_end ≡ ok r))
build_registry_total_example = build_registry_total early_end

-- start → first task → second task → end
abbrev two_tasks : ProcessDefinition
two_tasks =
    process
      (node "s" start_event
        ∷ record (node "one" user_task) { assignees = "ann" ∷ [] }
        ∷ record (node "two" user_task) { assignees = "bob" ∷ [] }
        ∷ node "e" end_event
        ∷ [])
      (flow "f1" "s" "one" ∷ flow "f2" "one" "two" ∷ flow "f3" "two" "e" ∷ [])

two_tasks_registry : Registry
unfolding program
two_tasks_registry = registry_or (build_registry two_tasks) (empty_registry two_tasks)

two_tasks_built : build_registry two_tasks ≡ ok two_tasks_registry
unfolding program two_tasks_registry
two_tasks_built = refl

back_to_first : resolve_return_target two_tasks_registry "two" "" ≡ ok "one"
unfolding resolve_return_target two_tasks_registry
back_to_first = refl

resolve_return_target-ReturnTarget_example : ReturnTarget two_tasks_registry "two" "" "one"
resolve_return_target-ReturnTarget_example =
    resolve_return_target-ReturnTarget two_tasks_registry "two" "" "one" back_to_first

upstream_user_task_total_example :
    (id : String) × (upstream_user_task two_tasks_registry "two" ≡ ok id)
upstream_user_task_total_example =
    upstream_user_task_total two_tasks two_tasks_registry "two" two_tasks_built
