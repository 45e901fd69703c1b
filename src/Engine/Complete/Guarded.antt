-- ===== src/Engine/Complete/Guarded.antt =====
-- internal/engine/engine.go: the tests that `CompleteTask` makes.
use lowcode_bpmn.Prelude.{
  ℕ, ltb, nat_eq, Bool, true, ◌&&◌, not, Option, none, some, ◌==◌, ◌≡◌, ◌⊎◌, refl, ap, not-eq-false,
  eq_of_==, arith, nat_beq_iff,
}
use lowcode_bpmn.Definition.Approval.{is_user_task}
use lowcode_bpmn.Runtime.{
  ActivityInstance, ProcessInstance, Uuid, CompleteTaskRequest, is_running, is_active,
}
use lowcode_bpmn.Errors.{
  Error, Result, ok, err, reject_if->>-eq-ok, reject_if-eq-ok, ok-injective, instance_not_found,
  activity_not_found,
}
use lowcode_bpmn.Store.Memory.{Store, get_process_instance, get_activity_instance}
use lowcode_bpmn.Engine.State.{World, Exec, M, lift, gets, ◌>>=◌}
use lowcode_bpmn.Engine.Complete.{complete_task, check_instance, check_task, found}

-- The instance runs and has the version that the request names, if it names one; the activity is an
-- active user task of it.
pub record Completable (req : CompleteTaskRequest) (st : Store) : Type 0 where
  pub inst : ProcessInstance
  pub inst_stored : get_process_instance req.process_instance_id st ≡ some inst
  pub running : is_running inst.status ≡ true
  pub version : (req.lock_version ≡ 0) ⊎ (req.lock_version ≡ inst.lock_version)
  pub act : ActivityInstance
  pub act_stored : get_activity_instance req.activity_id st ≡ some act
  pub of_instance : act.process_instance_id ≡ inst.id
  pub active : is_active act.status ≡ true
  pub user_task : is_user_task act.element_kind ≡ true

pub found-eq-ok : {A : Type 0} (e : Error) (o : Option A) {a : A} → found e o ≡ ok a → o ≡ some a
found-eq-ok e none h = cc
found-eq-ok e (some b) h = ap some (ok-injective h)

-- A value or an error handed on, before an action that succeeds.
pub lift_bind-eq-ok :
    {A B : Type 0} (r : Result A) (k : A → M B) (s : Exec) {b : B}
    → ((lift r >>= k) s).0 ≡ ok b
    → (a : A) × (r ≡ ok a) × ((k a s).0 ≡ ok b)
unfolding lift ◌>>=◌
lift_bind-eq-ok (ok a) k s h = (a, refl, h)
lift_bind-eq-ok (err e) k s h = cc

pub check_instance-eq-ok :
    (version : ℕ) (inst : ProcessInstance)
    → check_instance version inst ≡ ok tt
    → (is_running inst.status ≡ true) × ((version ≡ 0) ⊎ (version ≡ inst.lock_version))
unfolding check_instance
check_instance-eq-ok version inst h =
    let (runs, h1) = reject_if->>-eq-ok (not (is_running inst.status)) _ _ h in
    let same = reject_if-eq-ok (ltb 0 version && not (version == inst.lock_version)) _ h1 in
    (not-eq-false _ runs, ground (arith, nat_beq_iff version inst.lock_version))

check_task-eq-ok :
    (id : Uuid) (act : ActivityInstance)
    → check_task id act ≡ ok tt
    → (act.process_instance_id ≡ id)
      × (is_active act.status ≡ true)
      × (is_user_task act.element_kind ≡ true)
unfolding check_task
check_task-eq-ok id act h =
    let (own, h1) = reject_if->>-eq-ok (not (act.process_instance_id == id)) _ _ h in
    let (active, h2) = reject_if->>-eq-ok (not (is_active act.status)) _ _ h1 in
    let user = reject_if-eq-ok (not (is_user_task act.element_kind)) _ h2 in
    (
      eq_of_== act.process_instance_id id (not-eq-false _ own),
      not-eq-false _ active,
      not-eq-false _ user,
    )

-- `CompleteTask` succeeds only on a stored instance that runs, with the version that the request names
-- unless it names none, and on a stored activity of that instance that is an active user task.
pub complete_task-Completable :
    (w : World) (async : Bool) (fuel : ℕ) (req : CompleteTaskRequest) (s : Exec)
    (out : Option ProcessInstance)
    → (complete_task w async fuel req s).0 ≡ ok out
    → Completable req s.store
unfolding complete_task gets ◌>>=◌
complete_task-Completable w async fuel req s out h =
    let (inst, found_inst, h1) =
      lift_bind-eq-ok
        (found instance_not_found (get_process_instance req.process_instance_id s.store)) _ s h in
    let (_, checked, h2) = lift_bind-eq-ok (check_instance req.lock_version inst) _ s h1 in
    let (act, found_act, h3) =
      lift_bind-eq-ok (found activity_not_found (get_activity_instance req.activity_id s.store)) _ s
        h2 in
    let (_, task_checked, h4) = lift_bind-eq-ok (check_task inst.id act) _ s h3 in
    let (runs, version) = check_instance-eq-ok req.lock_version inst checked in
    let (own, active, user) = check_task-eq-ok inst.id act task_checked in
    record {
      inst = inst;
      inst_stored = found-eq-ok instance_not_found _ found_inst;
      running = runs;
      version = version;
      act = act;
      act_stored = found-eq-ok activity_not_found _ found_act;
      of_instance = own;
      active = active;
      user_task = user;
    }
