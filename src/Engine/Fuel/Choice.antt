-- ===== src/Engine/Fuel/Choice.antt =====
-- internal/engine/engine.go: the flows that a gateway chooses, of those offered.
use lowcode_bpmn.Prelude.{
  ◌≡◌, refl, Bool, true, false, Option, none, some, List, [], ◌∷◌, String, All, arith, subst, ◌⊎◌,
  inl, inr, Bool-cases,
}
use lowcode_bpmn.Definition.Model.{SequenceFlow}
use lowcode_bpmn.Vars.{Vars, Value}
use lowcode_bpmn.Definition.Expression.{
  Numerics, Op, eval_ops, compare_op, compare_numeric_op, eval_condition, compare_op,
  compare_numeric_op,
}
use lowcode_bpmn.Errors.{
  Error, Result, ok, err, out_of_fuel, ok-injective, inclusive_no_match, >>=-eq-ok,
}
use lowcode_bpmn.Errors
use lowcode_bpmn.Engine.Flow.{choose_exclusive, match_inclusive, choose_inclusive}
use lowcode_bpmn.Engine.Fuel.{has_fuel}

compare_op-has_fuel :
    (n : Numerics) (op : Op) (left : Option Value) (right : String)
    → has_fuel (compare_op n op left right) ≡ true
unfolding compare_op compare_numeric_op
compare_op-has_fuel n op left right = ground arith

eval_ops-has_fuel :
    (n : Numerics) (ops : List Op) (expr : String) (vars : Vars)
    → has_fuel (eval_ops n ops expr vars) ≡ true
unfolding eval_ops
eval_ops-has_fuel n [] expr vars = refl
eval_ops-has_fuel n (op ∷ ops) expr vars =
    grind (arith, eval_ops-has_fuel n ops expr vars, compare_op-has_fuel)

eval_condition-has_fuel :
    (n : Numerics) (expr : String) (vars : Vars) → has_fuel (eval_condition n expr vars) ≡ true
unfolding eval_condition
eval_condition-has_fuel n expr vars = grind (arith, eval_ops-has_fuel)

pub choose_exclusive-has_fuel :
    (n : Numerics) (vars : Vars) (default : Option SequenceFlow) (flows : List SequenceFlow)
    → has_fuel (choose_exclusive n vars default flows) ≡ true
unfolding choose_exclusive
choose_exclusive-has_fuel n vars none [] = refl
choose_exclusive-has_fuel n vars (some f) [] = refl
choose_exclusive-has_fuel n vars default (f ∷ flows) = ground (
  arith,
  choose_exclusive-has_fuel n vars (some f) flows,
  choose_exclusive-has_fuel n vars default flows,
  eval_condition-has_fuel n f.condition vars,
)

match_inclusive-has_fuel :
    (n : Numerics) (vars : Vars) (default : Option SequenceFlow) (flows : List SequenceFlow)
    → has_fuel (match_inclusive n vars default flows) ≡ true
unfolding match_inclusive
match_inclusive-has_fuel n vars default [] = refl
match_inclusive-has_fuel n vars default (f ∷ flows) = ground (
  arith,
  match_inclusive-has_fuel n vars (some f) flows,
  match_inclusive-has_fuel n vars default flows,
  eval_condition-has_fuel n f.condition vars,
)

pub choose_inclusive-has_fuel :
    (n : Numerics) (vars : Vars) (flows : List SequenceFlow)
    → has_fuel (choose_inclusive n vars flows) ≡ true
unfolding choose_inclusive
choose_inclusive-has_fuel n vars flows = ground (arith, match_inclusive-has_fuel n vars none flows)

-- What holds of every flow holds of the chosen ones.
abbrev pub OrNone : (SequenceFlow → Type 0) → Option SequenceFlow → Type 0
OrNone P none = Unit
OrNone P (some f) = P f

choose_exclusive_from :
    (n : Numerics) (vars : Vars) (default : Option SequenceFlow) (g : SequenceFlow)
    (flows : List SequenceFlow) {f : SequenceFlow}
    → choose_exclusive n vars default (g ∷ flows) ≡ ok f
    → (choose_exclusive n vars (some g) flows ≡ ok f)
      ⊎ ((choose_exclusive n vars default flows ≡ ok f) ⊎ (g ≡ f))
unfolding choose_exclusive
choose_exclusive_from n vars default g flows h = ground arith

match_inclusive_from :
    (n : Numerics) (vars : Vars) (default : Option SequenceFlow) (g : SequenceFlow)
    (flows : List SequenceFlow) {r : List SequenceFlow × Option SequenceFlow}
    → match_inclusive n vars default (g ∷ flows) ≡ ok r
    → (match_inclusive n vars (some g) flows ≡ ok r)
      ⊎ ((match_inclusive n vars default flows ≡ ok r)
          ⊎ ((rest : List SequenceFlow × Option SequenceFlow) × (match_inclusive n vars default
                  flows
                ≡ ok rest)
              × ((g ∷ rest.0, rest.1) ≡ r)))
unfolding match_inclusive
match_inclusive_from n vars default g flows {r} h = elim (Bool-cases g.is_default) [
  | inl d ↦ inl (ground arith)
  | inr d ↦ elim (eval_cases (eval_condition n g.condition vars)) [
    | inl (e, refused) ↦ inl (ground arith)
    | inr (true, chosen) ↦
        let (rest, later, here) =
          >>=-eq-ok (match_inclusive n vars default flows) _ (matched d chosen h) in
        inr (inr (rest, later, ok-injective here))
    | inr (false, skipped) ↦ inr (inl (ground arith))
  ]
]
  where
    eval_cases : (r : Result Bool) → ((e : Error) × (r ≡ err e)) ⊎ ((b : Bool) × (r ≡ ok b))
    eval_cases (ok b) = inr (b, refl)
    eval_cases (err e) = inl (e, refl)

    matched :
        g.is_default ≡ false
        → eval_condition n g.condition vars ≡ ok true
        → match_inclusive n vars default (g ∷ flows) ≡ ok r
        → Errors.◌>>=◌
            (match_inclusive n vars default flows)
            (λ (r : List SequenceFlow × Option SequenceFlow). ok (g ∷ r.0, r.1))
          ≡ ok r
    matched d chosen h = ground arith

pub choose_exclusive-All :
    (n : Numerics) (vars : Vars) (P : SequenceFlow → Type 0) (default : Option SequenceFlow)
    (flows : List SequenceFlow) {f : SequenceFlow}
    → OrNone P default
    → All P flows
    → choose_exclusive n vars default flows ≡ ok f
    → P f
unfolding choose_exclusive
choose_exclusive-All n vars P none [] d a h = cc
choose_exclusive-All n vars P (some g) [] d a h = subst P (ok-injective h) d
choose_exclusive-All n vars P default (g ∷ flows) d (p, a) h =
    elim (choose_exclusive_from n vars default g flows h) [
      | inl passed ↦ choose_exclusive-All n vars P (some g) flows p a passed
      | inr (inl later) ↦ choose_exclusive-All n vars P default flows d a later
      | inr (inr here) ↦ subst P here p
    ]

match_inclusive-All :
    (n : Numerics) (vars : Vars) (P : SequenceFlow → Type 0) (default : Option SequenceFlow)
    (flows : List SequenceFlow) {r : List SequenceFlow × Option SequenceFlow}
    → OrNone P default
    → All P flows
    → match_inclusive n vars default flows ≡ ok r
    → All P r.0 × OrNone P r.1
unfolding match_inclusive
match_inclusive-All n vars P default [] {r} d a h =
    subst (λ (r : List SequenceFlow × Option SequenceFlow). All P r.0 × OrNone P r.1)
      (ok-injective h) (tt, d)
match_inclusive-All n vars P default (g ∷ flows) {r} d (p, a) h =
    elim (match_inclusive_from n vars default g flows h) [
      | inl passed ↦ match_inclusive-All n vars P (some g) flows p a passed
      | inr (inl later) ↦ match_inclusive-All n vars P default flows d a later
      | inr (inr (rest, later, here)) ↦
          let (all, kept) = match_inclusive-All n vars P default flows d a later in
          subst (λ (r : List SequenceFlow × Option SequenceFlow). All P r.0 × OrNone P r.1) here
            ((p, all), kept)
    ]

pub choose_inclusive-All :
    (n : Numerics) (vars : Vars) (P : SequenceFlow → Type 0) (flows : List SequenceFlow)
    {chosen : List SequenceFlow}
    → All P flows
    → choose_inclusive n vars flows ≡ ok chosen
    → All P chosen
unfolding choose_inclusive
choose_inclusive-All n vars P flows {chosen} a h =
    let ((ms, d), found, e) = >>=-eq-ok (match_inclusive n vars none flows) _ h in
    chosen_from ms d (match_inclusive-All n vars P none flows tt a found) e
  where
    chosen_from :
        (ms : List SequenceFlow) (d : Option SequenceFlow)
        → All P ms × OrNone P d
        → elim ms [
          | [] ↦ elim d [ none ↦ err inclusive_no_match | some f ↦ ok (f ∷ []) ]
          | m ∷ ms ↦ ok (m ∷ ms)
        ]
          ≡ ok chosen
        → All P chosen
    chosen_from [] none (all, kept) e = cc
    chosen_from [] (some f) (all, kept) e = subst (All P) (ok-injective e) (kept, tt)
    chosen_from (m ∷ ms) d (all, kept) e = subst (All P) (ok-injective e) all
