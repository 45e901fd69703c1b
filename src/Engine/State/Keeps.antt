-- ===== src/Engine/State/Keeps.antt =====
-- Relations between the state before and after an action, one rule for each way to build an action.
use lowcode_bpmn.Prelude.{Bool, true, false, Option, none, some, if◌then◌else◌}
use lowcode_bpmn.Errors.{Error, Result, ok, err}
use lowcode_bpmn.Engine.State.{Exec, M, pure, throw, lift, attempt, gets, done, ◌>>=◌}

pub record IsPreorder (R : Exec → Exec → Type 0) : Type 0 where
  pub same : (s : Exec) → R s s
  pub chain : (s t u : Exec) → R s t → R t u → R s u

-- Whether `m` returns or fails, it relates the states so.
pub record Keeps (R : Exec → Exec → Type 0) {A : Type 0} (m : M A) : Type 0 where
  pub at : (s : Exec) → R s (m s).1

module _ {R : Exec → Exec → Type 0} (p : IsPreorder R) where
  pub Keeps-pure : {A : Type 0} (a : A) → Keeps R (pure a)
  unfolding pure
  Keeps-pure a = record { at = λ s. p.same s }

  pub Keeps-throw : {A : Type 0} (e : Error) → Keeps R (throw {A = A} e)
  unfolding throw
  Keeps-throw e = record { at = λ s. p.same s }

  pub Keeps-lift : {A : Type 0} (r : Result A) → Keeps R (lift r)
  unfolding lift
  Keeps-lift r = record { at = λ s. p.same s }

  pub Keeps-gets : {A : Type 0} (f : Exec → A) → Keeps R (gets f)
  unfolding gets
  Keeps-gets f = record { at = λ s. p.same s }

  pub Keeps-done : Keeps R done
  unfolding done
  Keeps-done = record { at = λ s. p.same s }

  pub Keeps-attempt : {A : Type 0} (m : M A) → Keeps R m → Keeps R (attempt m)
  unfolding attempt
  Keeps-attempt m k = record { at = λ s. k.at s }

  pub Keeps-if :
      {A : Type 0} (b : Bool) (m n : M A) → Keeps R m → Keeps R n → Keeps R (if b then m else n)
  Keeps-if true m n km kn = km
  Keeps-if false m n km kn = kn

  pub Keeps-option :
      {A B : Type 0} (o : Option A) (m : M B) (f : A → M B)
      → Keeps R m
      → ((a : A) → Keeps R (f a))
      → Keeps R (elim o [ none ↦ m | some a ↦ f a ])
  Keeps-option none m f km kf = km
  Keeps-option (some a) m f km kf = kf a

  pub Keeps-bind :
      {A B : Type 0} (m : M A) (f : A → M B)
      → Keeps R m
      → ((a : A) → Keeps R (f a))
      → Keeps R (m >>= f)
  unfolding ◌>>=◌
  Keeps-bind {A} {B} m f km kf = record { at = λ s. after s (m s) (km.at s) }
    where
      after :
          (s : Exec) (out : Result A × Exec)
          → R s out.1
          → R s (lowcode_bpmn.Engine.State.and_then out.0 f out.1).1
      after s (ok a, t) h = p.chain s t (f a t).1 h ((kf a).at t)
      after s (err e, t) h = h
