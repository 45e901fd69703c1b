-- ===== src/Engine/State.antt =====
-- The state of one run of the engine and the effects that its code has: the `execState` of
-- internal/engine/engine.go, the store behind it, and the world outside.
pub mod Keeps
use lowcode_bpmn.Prelude.{
  ℕ, zero, suc, ◌+◌, ℤ, String, Bool, true, false, Option, none, some, List, [], ◌∷◌, ◌++◌, ◌⊎◌,
  inl, inr,
}
use lowcode_bpmn.Vars.{Vars}
use lowcode_bpmn.Definition.Expression.{Numerics}
use lowcode_bpmn.Runtime.{Uuid, Time, ActivityInstance, ProcessInstance, ProcessInstanceStatus}
use lowcode_bpmn.Errors.{Error, Result, ok, err, external}
use lowcode_bpmn.Store.Memory.{
  Store, create_activity_instance, update_activity_instance, list_active_activities,
  update_process_instance,
}

pub record RunRequest : Type 0 where
  pub script : String
  pub lang : String
  pub variables : Vars
  pub instance_id : Uuid
  pub element_id : String
  pub tenant_id : String
  pub process_key : String

pub record HttpResponse : Type 0 where
  pub status_code : ℤ
  pub body : String

-- What the engine does not implement. The n-th answer of each is a function of n: the clock, uuid.New,
-- the script runner that the engine is constructed with, and Go's HTTP client; the text is that of an error. `to_upper` is
-- strings.ToUpper, `uuid_text` the String method of an id.
pub record World : Type 0 where
  pub numerics : Numerics
  pub time_now : ℕ → Time
  pub uuid_new : ℕ → Uuid
  pub run_script : ℕ → RunRequest → Vars ⊎ String
  pub http_do : ℕ → String → String → HttpResponse ⊎ String
  pub to_upper : String → String
  pub uuid_text : Uuid → String

-- `inst`, `scope_id` and `branch_flow_id` are the `execState`; its registry is a parameter of the code.
-- The counters say how many answers of the world are used up.
pub record Exec : Type 0 where
  pub store : Store
  pub inst : ProcessInstance
  pub scope_id : String
  pub branch_flow_id : String
  pub readings : ℕ
  pub uuids : ℕ
  pub calls : ℕ

-- What was written before an error stays written, as in the memory store.
abbrev pub M : Type 0 → Type 0
M A = Exec → Result A × Exec

module _ {A : Type 0} where
  unfoldable pub pure : A → M A
  pure a s = (ok a, s)

  unfoldable pub throw : Error → M A
  throw e s = (err e, s)

  unfoldable pub lift : Result A → M A
  lift r s = (r, s)

  -- `v, err := m`, with the error handed on as a value.
  unfoldable pub attempt : M A → M (Result A)
  attempt m s = let (r, s') = m s in (ok r, s')

  unfoldable pub gets : (Exec → A) → M A
  gets f s = (ok (f s), s)

unfoldable pub done : M (Unit {0})
done s = (ok tt, s)

unfoldable pub modify : (Exec → Exec) → M (Unit {0})
modify f s = (ok tt, f s)

-- A change of the instance in memory.
unfoldable pub modify_inst : (ProcessInstance → ProcessInstance) → M (Unit {0})
modify_inst f s = (ok tt, record s { inst = f s.inst })

-- The assignments to the fields of the instance.
unfoldable pub set_updated : Time → M (Unit {0})
unfolding modify_inst
set_updated t = modify_inst (λ inst. record inst { updated_at = t })

unfoldable pub set_active : (List String → List String) → M (Unit {0})
unfolding modify_inst
set_active f = modify_inst (λ inst. record inst { active_elements = f inst.active_elements })

unfoldable pub set_variables : (Vars → Vars) → M (Unit {0})
unfolding modify_inst
set_variables f = modify_inst (λ inst. record inst { variables = f inst.variables })

unfoldable pub set_internal : (Vars → Vars) → M (Unit {0})
unfolding modify_inst
set_internal f = modify_inst (λ inst. record inst { internal_state = f inst.internal_state })

unfoldable pub set_completed : Time → M (Unit {0})
unfolding modify_inst
set_completed t = modify_inst (λ inst. record inst {
  status = ProcessInstanceStatus.completed;
  ended_at = some t;
  updated_at = t;
  active_elements = [];
})

unfoldable pub set_scope : (Exec → String) → M (Unit {0})
unfolding modify
set_scope f = modify (λ s. record s { scope_id = f s })

module _ {A B : Type 0} where
  abbrev pub and_then : Result A → (A → M B) → M B
  and_then (ok a) f s = f a s
  and_then (err e) f s = (err e, s)

  -- Opening this opens the operations above too.
  infixl 5 ◌>>=◌
  unfoldable pub ◌>>=◌ : M A → (A → M B) → M B
  unfolding pure throw lift attempt gets done modify modify_inst set_updated set_active
      set_variables set_internal set_completed set_scope
  ◌>>=◌ m f s = let (r, s') = m s in and_then r f s'

infixl 5 ◌>>◌
abbrev pub ◌>>◌ : {B : Type 0} → M (Unit {0}) → M B → M B
m >> n = m >>= λ _. n

-- A loop that appends what its body returns and ends at the first error.
unfoldable pub collect : {A B : Type 0} → (A → M (List B)) → List A → M (List B)
unfolding pure ◌>>=◌
collect f [] = pure []
collect f (a ∷ l) = f a >>= λ first. collect f l >>= λ rest. pure (first ++ rest)

abbrev answer : {A : Type 0} → A ⊎ String → Result A
answer (inl a) = ok a
answer (inr e) = err (external e)

module _ (w : World) where
  unfoldable pub now : M Time
  now s = (ok (w.time_now s.readings), record s { readings = suc s.readings })

  unfoldable pub new_uuid : M Uuid
  new_uuid s = (ok (w.uuid_new s.uuids), record s { uuids = suc s.uuids })

  -- `state.inst.UpdatedAt = time.Now()`
  unfoldable pub touch : M (Unit {0})
  unfolding now
  touch = now >>= set_updated

  -- The store asks for a time and an id of its own, and passes over what it does not need.
  unfoldable pub create_activity : ActivityInstance → M ActivityInstance
  unfolding create_activity_instance
  create_activity act s =
      let (act', store') =
        create_activity_instance (w.uuid_new s.uuids) (w.time_now s.readings) act s.store in
      (ok act', record s { store = store'; readings = suc s.readings; uuids = suc s.uuids })

  unfoldable pub update_activity : ActivityInstance → M (Unit {0})
  unfolding update_activity_instance
  update_activity act s = (ok tt, record s { store = update_activity_instance act s.store })

  unfoldable pub update_instance : M (Unit {0})
  unfolding update_process_instance
  update_instance s = elim (update_process_instance (w.time_now s.readings) s.inst s.store) [
    | err e ↦ (err e, s)
    | ok written ↦
        (ok tt, record s { inst = written.0; store = written.1; readings = suc s.readings })
  ]

  unfoldable pub list_active : M (List ActivityInstance)
  unfolding list_active_activities
  list_active s = (ok (list_active_activities s.inst.id s.store), s)

  unfoldable pub run_script : RunRequest → M Vars
  run_script req s = (answer (w.run_script s.calls req), record s { calls = suc s.calls })

  unfoldable pub http_do : String → String → M HttpResponse
  http_do method url s = (answer (w.http_do s.calls method url), record s { calls = suc s.calls })
