-- ===== src/Engine/Fuel.antt =====
-- The bound on nested activations, which internal/engine/engine.go does not have: the actions that do not
-- use it up, one rule for each way to build an action.
pub mod Choice
pub mod Effects
pub mod Follow
pub mod Terminates
pub mod Rank
use lowcode_bpmn.Prelude.{
  ◌≡◌, ◌≢◌, refl, Bool, true, false, Option, none, some, List, [], ◌∷◌, String, All, arith, subst,
  sym, ◌∙◌, ◌⊎◌, inl, inr, Bool-cases, if◌then◌else◌,
}
use lowcode_bpmn.Definition.Model.{SequenceFlow}
use lowcode_bpmn.Vars.{Vars, Value}
use lowcode_bpmn.Definition.Expression.{
  Numerics, Op, eval_ops, compare_op, compare_numeric_op, eval_condition, compare_op,
  compare_numeric_op,
}
use lowcode_bpmn.Errors.{
  Error, Result, ok, err, out_of_fuel, ok-injective, inclusive_no_match, >>=-eq-ok,
}
use lowcode_bpmn.Errors
use lowcode_bpmn.Engine.State.{
  World, RunRequest, Exec, M, pure, throw, lift, attempt, gets, done, ◌>>=◌, update_instance,
  run_script, http_do,
}
use lowcode_bpmn.Engine.Flow.{choose_exclusive, match_inclusive, choose_inclusive}

abbrev pub spared : Error → Bool
spared out_of_fuel = false
spared _ = true

-- Any result but the one that says the bound is used up.
abbrev pub has_fuel {ℓ} : {A : Type ℓ} → Result A → Bool
has_fuel (ok a) = true
has_fuel (err e) = spared e

pub record Fueled {A : Type 0} (m : M A) : Type 0 where
  pub at : (s : Exec) → has_fuel (m s).0 ≡ true

pub has_fuel-eq-true {ℓ} : {A : Type ℓ} (r : Result A) → has_fuel r ≡ true → r ≢ err out_of_fuel
has_fuel-eq-true r h e = ground arith

pub Fueled-pure : {A : Type 0} (a : A) → Fueled (pure a)
unfolding pure
Fueled-pure a = record { at = λ s. refl }

pub Fueled-throw : {A : Type 0} (e : Error) → spared e ≡ true → Fueled (throw {A = A} e)
unfolding throw
Fueled-throw e h = record { at = λ s. h }

pub Fueled-gets : {A : Type 0} (f : Exec → A) → Fueled (gets f)
unfolding gets
Fueled-gets f = record { at = λ s. refl }

pub Fueled-done : Fueled done
unfolding done
Fueled-done = record { at = λ s. refl }

pub Fueled-if :
    {A : Type 0} (b : Bool) (m n : M A) → Fueled m → Fueled n → Fueled (if b then m else n)
Fueled-if true m n km kn = km
Fueled-if false m n km kn = kn

pub Fueled-option :
    {A B : Type 0} (o : Option A) (m : M B) (f : A → M B)
    → Fueled m
    → ((a : A) → o ≡ some a → Fueled (f a))
    → Fueled (elim o [ none ↦ m | some a ↦ f a ])
Fueled-option none m f km kf = km
Fueled-option (some a) m f km kf = kf a refl

pub Fueled-bind :
    {A B : Type 0} (m : M A) (f : A → M B) → Fueled m → ((a : A) → Fueled (f a)) → Fueled (m >>= f)
unfolding ◌>>=◌
Fueled-bind {A} {B} m f km kf = record { at = λ s. after s (m s) (km.at s) }
  where
    after :
        (s : Exec) (out : Result A × Exec)
        → has_fuel out.0 ≡ true
        → has_fuel (lowcode_bpmn.Engine.State.and_then out.0 f out.1).0 ≡ true
    after s (ok a, t) h = (kf a).at t
    after s (err e, t) h = h

pub Fueled-lift_bind :
    {A B : Type 0} (r : Result A) (f : A → M B)
    → has_fuel r ≡ true
    → ((a : A) → r ≡ ok a → Fueled (f a))
    → Fueled (lift r >>= f)
unfolding ◌>>=◌ lift
Fueled-lift_bind (ok a) f h kf = record { at = λ s. (kf a refl).at s }
Fueled-lift_bind (err e) f h kf = record { at = λ s. h }
