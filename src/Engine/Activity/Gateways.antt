-- ===== src/Engine/Activity/Gateways.antt =====
-- internal/engine/activity_complete.go: the flows that the event-based and the complex gateway take, and
-- the agreement of the two completions of an element.
use lowcode_bpmn.Prelude.{
  String, string_eq, Bool, true, false, ◌&&◌, ◌||◌, not, Option, none, some, List, [], ◌∷◌, ◌==◌,
  ◌≡◌, ◌⊎◌, inl, inr, refl, sym, ap, subst, ◌∙◌, map, filter, Memᴰ, arith, and-eq-true, eq_of_==,
  Bool-cases,
}
use lowcode_bpmn.Text.{is_empty}
use lowcode_bpmn.Vars.{Vars}
use lowcode_bpmn.Definition.Model.{
  ElementKind, event_based_gateway, complex_gateway, Element, SequenceFlow,
}
use lowcode_bpmn.Definition.Registry.{Registry, element, outgoing_flows}
use lowcode_bpmn.Definition.Expression.{Numerics, eval_condition}
use lowcode_bpmn.Errors.{Error, complex_no_match, ◌>>=◌, Result, ok, err, ok-injective, >>=-eq-ok}
use lowcode_bpmn.Engine.State.{World}
use lowcode_bpmn.Engine.Flow.{Activate, complete_element, follow_kind, follow_outgoing}
use lowcode_bpmn.Engine.Flow.Choice.{is_ok, is_ok_true}
use lowcode_bpmn.Engine.Activity.{
  first_event, only_flow, event_or_only, select_flow, choose_event_based, match_complex,
  choose_complex, complex_ids, follow_kind_selected, follow_selected,
  complete_element_with_selection,
}

-- The flow is the one selected, or without a selection one whose condition holds or the only one.
unfoldable pub TakesEvent : Numerics → Vars → String → List SequenceFlow → SequenceFlow → Type 0
TakesEvent n vars selected flows f =
    ((is_empty selected ≡ false) × (f.id ≡ selected))
    ⊎ ((is_empty selected ≡ true)
        × ((eval_condition n f.condition vars ≡ ok true) ⊎ (flows ≡ f ∷ [])))

Result-Bool-cases : (r : Result Bool) → ((e : Error) × (r ≡ err e)) ⊎ (r ≡ ok true) ⊎ (r ≡ ok false)
Result-Bool-cases (err e) = inl (e, refl)
Result-Bool-cases (ok true) = inr (inl refl)
Result-Bool-cases (ok false) = inr (inr refl)

module _ (n : Numerics) (vars : Vars) where
  first_event-holds :
      (flows : List SequenceFlow) (f : SequenceFlow)
      → first_event n vars flows ≡ ok (some f)
      → Memᴰ f flows × (eval_condition n f.condition vars ≡ ok true)
  unfolding first_event
  first_event-holds [] f h = cc
  first_event-holds (g ∷ flows) f h = elim (Result-Bool-cases (eval_condition n g.condition vars)) [
    | inl (e, failed) ↦ ground arith
    | inr (inl holds) ↦ let same : g ≡ f = ground arith in (Memᴰ.head (sym same), ground arith)
    | inr (inr fails) ↦
        let (m, holds) = first_event-holds flows f (ground arith) in (Memᴰ.tail m, holds)
  ]

  select_flow-named :
      (id : String) (flows : List SequenceFlow) (f : SequenceFlow)
      → select_flow n vars id flows ≡ ok f
      → Memᴰ f flows × (f.id ≡ id)
  unfolding select_flow
  select_flow-named id [] f h = cc
  select_flow-named id (g ∷ flows) f h = elim (Bool-cases (g.id == id)) [
    | inl same ↦
        let taken : g ≡ f = ground arith in
        (Memᴰ.head (sym taken), ap (λ (x : SequenceFlow). x.id) (sym taken) ∙ eq_of_== g.id id same)
    | inr other ↦
        let (m, named) = select_flow-named id flows f (ground arith) in (Memᴰ.tail m, named)
  ]

  only_flow-eq-ok :
      (flows : List SequenceFlow) (f : SequenceFlow) → only_flow flows ≡ ok f → flows ≡ f ∷ []
  only_flow-eq-ok [] f h = cc
  only_flow-eq-ok (g ∷ []) f h = ap (λ (x : SequenceFlow). x ∷ []) (ok-injective h)
  only_flow-eq-ok (g ∷ k ∷ flows) f h = cc

  taken_event :
      (first : Option SequenceFlow) (selected : String) (flows : List SequenceFlow)
      (f : SequenceFlow)
      → is_empty selected ≡ true
      → first_event n vars flows ≡ ok first
      → event_or_only flows first ≡ ok f
      → Memᴰ f flows × TakesEvent n vars selected flows f
  unfolding TakesEvent
  taken_event none selected flows f none_given found chosen =
      let only = only_flow-eq-ok flows f chosen in
      (subst (Memᴰ f) (sym only) (Memᴰ.head refl), inr (none_given, inr only))
  taken_event (some g) selected flows f none_given found chosen =
      let (m, holds) =
        first_event-holds flows f (found ∙ ap (λ x. ok (some x)) (ok-injective chosen)) in
      (m, inr (none_given, inl holds))

  -- A flow that the event-based gateway takes is one of those that leave it: with a selection the flow of that
  -- id, and without one a flow whose condition holds or the only flow there is.
  pub choose_event_based-TakesEvent :
      (selected : String) (flows : List SequenceFlow) (f : SequenceFlow)
      → choose_event_based n vars selected flows ≡ ok f
      → Memᴰ f flows × TakesEvent n vars selected flows f
  unfolding choose_event_based TakesEvent
  choose_event_based-TakesEvent selected flows f h = elim (Bool-cases (is_empty selected)) [
    | inl none_given ↦
        let (first, found, chosen) =
          >>=-eq-ok (first_event n vars flows) (event_or_only flows) (ground arith) in
        taken_event first selected flows f none_given found chosen
    | inr given ↦
        let (m, named) = select_flow-named selected flows f (ground arith) in
        (m, inl (given, named))
  ]

  -- The condition of every flow that has one can be evaluated.
  abbrev pub all_evaluate : List SequenceFlow → Bool
  all_evaluate [] = true
  all_evaluate (f ∷ flows) =
      (is_empty f.condition || is_ok (eval_condition n f.condition vars)) && all_evaluate flows

  abbrev pub has_true_condition : SequenceFlow → Bool
  has_true_condition f =
      not (is_empty f.condition) && is_ok_true (eval_condition n f.condition vars)

  -- Where every condition can be evaluated, the complex gateway matches, in their order, the flows that have
  -- a condition which holds.
  pub match_complex-eq-filter :
      (flows : List SequenceFlow)
      → all_evaluate flows ≡ true
      → match_complex n vars flows ≡ ok (filter has_true_condition flows)
  unfolding match_complex
  match_complex-eq-filter [] h = refl
  match_complex-eq-filter (f ∷ flows) h =
      let (_, rest) =
        and-eq-true (is_empty f.condition || is_ok (eval_condition n f.condition vars))
          (all_evaluate flows) h in
      ground (arith, match_complex-eq-filter flows rest)

  abbrev pub ids : Result (List SequenceFlow) → Result (List String)
  ids (ok l) = ok (map (λ (f : SequenceFlow). f.id) l)
  ids (err e) = err e

  -- The loops of the evaluation and of the completion agree.
  complex_ids-eq-match :
      (flows : List SequenceFlow) → complex_ids n vars flows ≡ ids (match_complex n vars flows)
  unfolding complex_ids match_complex
  complex_ids-eq-match [] = refl
  complex_ids-eq-match (f ∷ flows) = ground (arith, complex_ids-eq-match flows)

  -- A completion fails where the evaluation answers with no flow.
  abbrev pub completed_ids : Result (List String) → Result (List String)
  completed_ids (ok []) = err complex_no_match
  completed_ids (ok (id ∷ l)) = ok (id ∷ l)
  completed_ids (err e) = err e

  matched_ids :
      (r : Result (List SequenceFlow))
      → ids (
          r >>= λ (matched : List SequenceFlow). elim matched [
            | [] ↦ err complex_no_match
            | f ∷ l ↦ ok (f ∷ l)
          ])
        ≡ completed_ids (ids r)
  matched_ids (ok []) = refl
  matched_ids (ok (f ∷ l)) = refl
  matched_ids (err e) = refl

  -- On the same variables and flows, a completion of a complex gateway takes the flows of the ids that its
  -- evaluation answers with, in the same order, fails with the same error where a condition cannot be evaluated,
  -- and fails for want of a match exactly where the evaluation answers with no flow.
  pub choose_complex-eq-complex_ids :
      (flows : List SequenceFlow)
      → ids (choose_complex n vars flows) ≡ completed_ids (complex_ids n vars flows)
  unfolding choose_complex
  choose_complex-eq-complex_ids flows =
      matched_ids (match_complex n vars flows) ∙ ap completed_ids (sym (complex_ids-eq-match flows))

abbrev pub has_selection : ElementKind → Bool
has_selection event_based_gateway = true
has_selection complex_gateway = true
has_selection _ = false

module _ (w : World) (reg : Registry) (activate : Activate) where
  follow_kinds_agree :
      (kind : ElementKind) (id selected : String) (flows : List SequenceFlow)
      → has_selection kind ≡ false
      → follow_kind_selected w reg activate kind id selected flows
        ≡ follow_kind w reg activate kind id flows
  unfolding follow_kind_selected follow_kind
  follow_kinds_agree event_based_gateway id selected flows h = cc
  follow_kinds_agree complex_gateway id selected flows h = cc
  follow_kinds_agree _ id selected flows h = refl

  follow_agrees :
      (kind : ElementKind) (id selected : String) (flows : List SequenceFlow)
      → has_selection kind ≡ false
      → follow_selected w reg activate kind id selected flows
        ≡ follow_outgoing w reg activate kind id flows
  follow_agrees kind id selected [] h = refl
  follow_agrees kind id selected (f ∷ flows) h = follow_kinds_agree kind id selected (f ∷ flows) h

  -- The completion with a selected flow is the ordinary completion on every element that is neither an
  -- event-based nor a complex gateway.
  pub completions_agree :
      (id selected : String) (el : Element)
      → element reg id ≡ some el
      → has_selection el.kind ≡ false
      → complete_element_with_selection w reg activate id selected
        ≡ complete_element w reg activate id
  unfolding complete_element_with_selection complete_element
  completions_agree id selected el found h =
      rw
        (
          complete_element_with_selection,
          complete_element,
          found,
          follow_agrees el.kind id selected (outgoing_flows reg id) h,
        )
        refl
