-- ===== src/Engine/Flow/Choice.antt =====
-- internal/engine/engine.go: the loop of `followExclusive` against a description of the flow it picks.
use lowcode_bpmn.Prelude.{
  Bool, true, false, ◌&&◌, ◌||◌, not, Option, none, some, List, [], ◌∷◌, ◌≡◌, refl, ap, ◌∙◌,
  and-eq-true, arith, if◌then◌else◌,
}
use lowcode_bpmn.Text.{is_empty}
use lowcode_bpmn.Vars.{Vars}
use lowcode_bpmn.Definition.Model.{SequenceFlow}
use lowcode_bpmn.Definition.Expression.{Numerics, eval_condition}
use lowcode_bpmn.Errors.{Result, ok, err, exclusive_no_match}
use lowcode_bpmn.Engine.Flow.{choose_exclusive}

-- A flow that is taken when no condition holds: marked as default, or without a condition.
abbrev pub is_fallback : SequenceFlow → Bool
is_fallback f = f.is_default || is_empty f.condition

abbrev pub is_ok_true : Result Bool → Bool
is_ok_true (ok b) = b
is_ok_true (err e) = false

abbrev pub is_ok : Result Bool → Bool
is_ok (ok b) = true
is_ok (err e) = false

module _ (n : Numerics) (vars : Vars) where
  abbrev pub evaluates : List SequenceFlow → Bool
  evaluates [] = true
  evaluates (f ∷ flows) =
      (is_fallback f || is_ok (eval_condition n f.condition vars)) && evaluates flows

  abbrev pub first_that_holds : List SequenceFlow → Option SequenceFlow
  first_that_holds [] = none
  first_that_holds (f ∷ flows) =
      let rest = first_that_holds flows in
      if not (is_fallback f) && is_ok_true (eval_condition n f.condition vars) then some f else rest

  abbrev pub last_fallback : List SequenceFlow → Option SequenceFlow
  last_fallback [] = none
  last_fallback (f ∷ flows) = elim (last_fallback flows) [
    | some g ↦ some g
    | none ↦ if is_fallback f then some f else none
  ]

  abbrev pub or_else : Option SequenceFlow → Option SequenceFlow → Result SequenceFlow
  or_else (some f) d = ok f
  or_else none (some f) = ok f
  or_else none none = err exclusive_no_match

  abbrev later_fallback : Option SequenceFlow → Option SequenceFlow → Option SequenceFlow
  later_fallback (some g) d = some g
  later_fallback none d = d

  choose_from :
      (flows : List SequenceFlow) (d : Option SequenceFlow)
      → evaluates flows ≡ true
      → choose_exclusive n vars d flows
        ≡ or_else (first_that_holds flows) (later_fallback (last_fallback flows) d)
  unfolding choose_exclusive
  choose_from [] none h = refl
  choose_from [] (some f) h = refl
  choose_from (f ∷ flows) d h =
      let rest =
        (and-eq-true (is_fallback f || is_ok (eval_condition n f.condition vars)) (evaluates flows)
          h).1 in
      ground (arith, choose_from flows d rest, choose_from flows (some f) rest)

  -- Where every condition can be evaluated, the exclusive gateway takes the first flow whose condition
  -- holds, else the last one that is marked as default or has no condition, else it fails.
  pub choose_exclusive_lem :
      (flows : List SequenceFlow)
      → evaluates flows ≡ true
      → choose_exclusive n vars none flows ≡ or_else (first_that_holds flows) (last_fallback flows)
  choose_exclusive_lem flows h =
      choose_from flows none h
      ∙ ap (or_else (first_that_holds flows)) (later_none (last_fallback flows))
    where
      later_none : (o : Option SequenceFlow) → later_fallback o none ≡ o
      later_none none = refl
      later_none (some f) = refl
