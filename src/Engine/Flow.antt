-- ===== src/Engine/Flow.antt =====
-- internal/engine/engine.go: what follows the completion of an element. `activate` is the activation of
-- the next one, which the code calls back into.
pub mod Choice
pub mod Completion
use Prim.Native.String.{◌++◌}
use lowcode_bpmn.Prelude.{
  ℕ, suc, ltb, leb, nat_beq, String, string_eq, Bool, true, false, ◌&&◌, ◌||◌, not, Option, none,
  some, List, [], ◌∷◌, ◌==◌, if◌then◌else◌, contains, length,
}
use lowcode_bpmn.Text.{is_empty}
use lowcode_bpmn.Vars.{Vars, Value, str, strs, arr, Items, nil, cons, get, put, delete}
use lowcode_bpmn.Definition.Model.{
  ElementKind, exclusive_gateway, parallel_gateway, inclusive_gateway, Element, SequenceFlow,
}
use lowcode_bpmn.Definition.Registry.{
  Registry, element, outgoing_flows, incoming_flows, is_end_event, is_join_gateway,
}
use lowcode_bpmn.Definition.Expression.{Numerics, eval_condition}
use lowcode_bpmn.Runtime.{ProcessInstance, ProcessInstanceStatus}
use lowcode_bpmn.Errors.{
  Result, ok, err, element_not_found, multiple_outgoing_flows, exclusive_no_match,
  inclusive_no_match,
}
use lowcode_bpmn.Errors
use lowcode_bpmn.Engine.Approval.{remove_string}
use lowcode_bpmn.Engine.State.{
  World, Exec, M, pure, throw, lift, gets, ◌>>=◌, ◌>>◌, done, set_active, set_internal,
  set_completed, now, touch, update_instance, list_active,
}

abbrev pub Activate : Type 0
Activate = (element_id branch_flow_id : String) → M (Unit {0})

unfoldable pub join_arrivals_key : String → String
join_arrivals_key gateway = "join_arrivals_" ++ gateway

-- `set[s] = struct{}{}`; the order of the keys has no meaning.
unfoldable pub add_to_set : String → List String → List String
add_to_set s set = if contains set s then set else s ∷ set

unfoldable pub set_of_strings : List String → List String
unfolding add_to_set
set_of_strings [] = []
set_of_strings (s ∷ l) = add_to_set s (set_of_strings l)

unfoldable pub set_of_items : Items → List String
unfolding add_to_set
set_of_items nil = []
set_of_items (cons (str s) l) = add_to_set s (set_of_items l)
set_of_items (cons _ l) = set_of_items l

unfoldable pub to_string_set : Option Value → List String
unfolding set_of_strings set_of_items
to_string_set (some (strs l)) = set_of_strings l
to_string_set (some (arr l)) = set_of_items l
to_string_set _ = []

abbrev is_parallel : ElementKind → Bool
is_parallel parallel_gateway = true
is_parallel _ = false

-- The loop of `followExclusive` as the choice of a flow: the last default, where no condition holds.
unfoldable pub choose_exclusive :
    Numerics → Vars → Option SequenceFlow → List SequenceFlow → Result SequenceFlow
unfolding eval_condition
choose_exclusive n vars none [] = err exclusive_no_match
choose_exclusive n vars (some f) [] = ok f
choose_exclusive n vars default (f ∷ flows) =
    let passed_over = choose_exclusive n vars (some f) flows in
    let unmatched = choose_exclusive n vars default flows in
    if f.is_default
    then passed_over
    else if is_empty f.condition
    then passed_over
    else elim (eval_condition n f.condition vars) [
      | err e ↦ err e
      | ok holds ↦ if holds then ok f else unmatched
    ]

-- The first loop of `followInclusive`: the flows whose condition holds, in order, and the last default.
unfoldable pub match_inclusive :
    Numerics
    → Vars
    → Option SequenceFlow
    → List SequenceFlow
    → Result (List SequenceFlow × Option SequenceFlow)
unfolding eval_condition
match_inclusive n vars default [] = ok ([], default)
match_inclusive n vars default (f ∷ flows) =
    let passed_over = match_inclusive n vars (some f) flows in
    let rest = match_inclusive n vars default flows in
    if f.is_default then passed_over else elim (eval_condition n f.condition vars) [
      | err e ↦ err e
      | ok holds ↦
          if holds
          then Errors.◌>>=◌ rest
              (λ (r : List SequenceFlow × Option SequenceFlow). ok (f ∷ r.0, r.1))
          else rest
    ]

-- The flows that `followInclusive` activates.
unfoldable pub choose_inclusive : Numerics → Vars → List SequenceFlow → Result (List SequenceFlow)
unfolding match_inclusive
choose_inclusive n vars flows =
    Errors.◌>>=◌ (match_inclusive n vars none flows)
      (λ (r : List SequenceFlow × Option SequenceFlow). elim r.0 [
        | [] ↦ elim r.1 [ none ↦ err inclusive_no_match | some f ↦ ok (f ∷ []) ]
        | m ∷ ms ↦ ok (m ∷ ms)
      ])

module _ (w : World) (reg : Registry) where
  -- The instance ends as completed.
  unfoldable pub complete_instance : M (Unit {0})
  unfolding now update_instance
  complete_instance = do t ← now w; set_completed t; update_instance w

  unfoldable pub try_complete_process : M (Unit {0})
  unfolding list_active complete_instance
  try_complete_process = do
    active ← list_active w
    waiting ← gets (λ s. s.inst.active_elements)
    if ltb 0 (length active) || ltb 0 (length waiting) then done else complete_instance

  -- `activateViaFlow`'s new branch id: the flow's own behind a parallel fork.
  unfoldable pub branch_of_flow : SequenceFlow → String → String
  unfolding element outgoing_flows
  branch_of_flow flow branch = elim (element reg flow.source_ref) [
    | none ↦ branch
    | some src ↦
        if is_parallel src.kind && ltb 1 (length (outgoing_flows reg flow.source_ref))
        then flow.id
        else branch
  ]

  -- The arrivals at a join, this flow's included.
  unfoldable pub arrivals : SequenceFlow → Vars → List String
  unfolding add_to_set to_string_set join_arrivals_key get
  arrivals flow internal =
      add_to_set flow.id (to_string_set (get (join_arrivals_key flow.target_ref) internal))

  module _ (activate : Activate) where
    -- At a join with these arrivals: wait for the other flows, or clear the arrivals and go on.
    unfoldable pub arrive : String → String → ℕ → List String → M (Unit {0})
    unfolding put delete join_arrivals_key touch update_instance
    arrive target branch incoming arrived = do
      set_internal (put (join_arrivals_key target) (strs arrived))
      if ltb (length arrived) incoming
          then touch w >> update_instance w
          else (set_internal (delete (join_arrivals_key target)) >> activate target branch)

    unfoldable pub activate_via_flow : SequenceFlow → String → M (Unit {0})
    unfolding branch_of_flow arrivals is_join_gateway incoming_flows arrive
    activate_via_flow flow branch =
        let target = flow.target_ref in
        let branch' = branch_of_flow flow branch in
        let incoming = length (incoming_flows reg target) in
        if is_join_gateway reg target && ltb 1 incoming
        then gets (λ s. arrivals flow s.inst.internal_state) >>= arrive target branch' incoming
        else activate target branch'

    unfoldable pub follow_exclusive : List SequenceFlow → M (Unit {0})
    unfolding choose_exclusive activate_via_flow
    follow_exclusive flows = do
      vars ← gets (λ s. s.inst.variables)
      branch ← gets (λ s. s.branch_flow_id)
      f ← lift (choose_exclusive w.numerics vars none flows)
      activate_via_flow f branch

    unfoldable pub follow_all : List SequenceFlow → M (Unit {0})
    unfolding activate_via_flow
    follow_all [] = done
    follow_all (f ∷ flows) = do
      branch ← gets (λ s. s.branch_flow_id)
      activate_via_flow f branch
      follow_all flows

    unfoldable pub follow_inclusive : List SequenceFlow → M (Unit {0})
    unfolding choose_inclusive follow_all
    follow_inclusive flows = do
      vars ← gets (λ s. s.inst.variables)
      chosen ← lift (choose_inclusive w.numerics vars flows)
      follow_all chosen

    -- The default branch of the switch in `completeElement`: at most one flow leaves the element.
    unfoldable pub follow_single : String → List SequenceFlow → M (Unit {0})
    unfolding activate_via_flow
    follow_single id [] = done
    follow_single id (f ∷ []) = do branch ← gets (λ s. s.branch_flow_id); activate_via_flow f branch
    follow_single id (f ∷ g ∷ flows) = throw (multiple_outgoing_flows id)

    unfoldable pub follow_kind : ElementKind → String → List SequenceFlow → M (Unit {0})
    unfolding follow_exclusive follow_inclusive follow_single incoming_flows
    follow_kind exclusive_gateway id flows = follow_exclusive flows
    follow_kind parallel_gateway id flows = follow_all flows
    follow_kind inclusive_gateway id flows =
        if leb (length (incoming_flows reg id)) 1 then follow_inclusive flows else follow_all flows
    follow_kind _ id flows = follow_single id flows

    abbrev pub follow_outgoing : ElementKind → String → List SequenceFlow → M (Unit {0})
    follow_outgoing kind id [] = if is_end_event reg id then try_complete_process else done
    follow_outgoing kind id (f ∷ flows) = follow_kind kind id (f ∷ flows)

    unfoldable pub complete_element : String → M (Unit {0})
    unfolding element remove_string touch update_instance follow_kind outgoing_flows
        try_complete_process is_end_event
    complete_element id = elim (element reg id) [
      | none ↦ throw (element_not_found id)
      | some el ↦ do
        set_active (λ active. remove_string active id)
        touch w
        update_instance w
        follow_outgoing el.kind id (outgoing_flows reg id)
    ]
