-- ===== src/Definition/Return.antt =====
-- internal/domain/definition/return.go: where a rejected task returns to, and the scopes.
pub mod Target
pub mod Search
use lowcode_bpmn.Prelude.{
  ℕ, zero, suc, ltb, String, string_eq, Bool, true, false, ◌&&◌, ◌||◌, not, Option, none, some,
  List, [], ◌∷◌, ◌++◌, ◌==◌, if◌then◌else◌, contains, length,
}
use lowcode_bpmn.Text.{is_empty}
use lowcode_bpmn.Definition.Model.{
  ElementKind, start_event, end_event, user_task, sub_process, parallel_gateway, inclusive_gateway,
  exclusive_gateway, Element, SequenceFlow,
}
use lowcode_bpmn.Definition.Registry.{Registry, element, incoming_flows}
use lowcode_bpmn.Errors.{
  Result, ok, err, ◌>>=◌, return_to_not_found, element_not_found, no_return_target,
  no_return_target_in_scope, out_of_fuel,
}

-- What the search does with the source of a flow: it was seen, it is a user task, the walk stops
-- there, or the walk goes on to its incoming flows.
pub data Visit : Type 0 where
  dup found stop walk : Visit

unfoldable pub classify : ElementKind → ℕ → Visit
classify user_task n = found
classify parallel_gateway n = if ltb 1 n then stop else walk
classify inclusive_gateway n = if ltb 1 n then stop else walk
classify start_event n = stop
classify end_event n = stop
classify _ n = walk

abbrev pub is_sub_process : ElementKind → Bool
is_sub_process sub_process = true
is_sub_process _ = false

scope_ids : String → List Element → List String
scope_ids scope [] = []
scope_ids scope (el ∷ els) =
    let rest = scope_ids scope els in
    if el.id == scope || el.scope_id == scope then el.id ∷ rest else rest

abbrev is_routing_gateway : ElementKind → Bool
is_routing_gateway parallel_gateway = true
is_routing_gateway inclusive_gateway = true
is_routing_gateway exclusive_gateway = true
is_routing_gateway _ = false

gateway_ids : String → List Element → List String
gateway_ids scope [] = []
gateway_ids scope (el ∷ els) =
    let rest = gateway_ids scope els in
    if (el.scope_id == scope || el.id == scope) && is_routing_gateway el.kind
    then el.id ∷ rest
    else rest

module _ (reg : Registry) where
  unfoldable pub visit : List String → String → Visit
  unfolding classify element incoming_flows
  visit seen src = if contains seen src then dup else elim (element reg src) [
    | none ↦ stop
    | some el ↦ classify el.kind (length (incoming_flows reg src))
  ]

  -- The loop over the queue; the empty text means that there is no such task.
  unfoldable pub search_upstream : ℕ → List String → List SequenceFlow → Result String
  unfolding visit
  search_upstream fuel seen [] = ok ""
  search_upstream zero seen (f ∷ queue) = err out_of_fuel
  search_upstream (suc fuel) seen (f ∷ queue) = elim (visit seen f.source_ref) [
    | dup ↦ search_upstream fuel seen queue
    | found ↦ ok f.source_ref
    | stop ↦ search_upstream fuel (f.source_ref ∷ seen) queue
    | walk ↦ search_upstream fuel (f.source_ref ∷ seen) (queue ++ incoming_flows reg f.source_ref)
  ]

  -- Each round takes one flow off the queue, and a flow enters it once: see `Return.Search`.
  unfoldable pub upstream_user_task : String → Result String
  unfolding search_upstream
  upstream_user_task start =
      search_upstream (length reg.def.flows) (start ∷ []) (incoming_flows reg start)

  -- The scope's entry, as the last resort.
  unfoldable pub scope_entry : String → String → List Element → Result String
  unfolding element
  scope_entry from scope [] = err (no_return_target_in_scope from scope)
  scope_entry from scope (el ∷ els) =
      let rest = scope_entry from scope els in
      if is_sub_process el.kind
        && (el.scope_id == scope || el.id == scope)
        && not (is_empty el.entry_ref)
      then elim (element reg el.entry_ref) [
        | none ↦ rest
        | some entry ↦ if el.entry_ref == from then rest else ok el.entry_ref
      ]
      else rest

  unfoldable pub return_by_search : String → Element → String → Result String
  unfolding scope_entry
  return_by_search from from_el target =
      if not (is_empty target)
      then ok target
      else if is_empty from_el.scope_id
      then err (no_return_target from)
      else scope_entry from from_el.scope_id reg.def.elements

  unfoldable pub resolve_return_target : String → String → Result String
  unfolding upstream_user_task return_by_search
  resolve_return_target from explicit =
      if not (is_empty explicit)
      then elim (element reg explicit) [
        | none ↦ err (return_to_not_found explicit)
        | some el ↦ ok explicit
      ]
      else elim (element reg from) [
        | none ↦ err (element_not_found from)
        | some el ↦ upstream_user_task from >>= return_by_search from el
      ]

  unfoldable pub scope_element_ids : String → List String
  unfolding scope_ids
  scope_element_ids scope = if is_empty scope then [] else scope_ids scope reg.def.elements

  unfoldable pub scope_gateway_ids : String → List String
  unfolding gateway_ids
  scope_gateway_ids scope = gateway_ids scope reg.def.elements
