-- ===== src/Engine/Activity/Guarded.antt =====
-- internal/engine/activity_complete.go: the tests that `CompleteActivity` makes.
use lowcode_bpmn.Prelude.{
  ℕ, nat_eq, Bool, true, not, some, ◌==◌, ◌≡◌, ◌⊎◌, refl, not-eq-false, eq_of_==, arith,
}
use lowcode_bpmn.Definition.Model.{ElementKind, user_task, receive_task}
use lowcode_bpmn.Definition.Rules.{is_extension_kind}
use lowcode_bpmn.Runtime.{ActivityInstance, ProcessInstance, Uuid, is_running, is_active}
use lowcode_bpmn.Errors.{
  ok, reject_if->>-eq-ok, reject_if-eq-ok, instance_not_found, activity_not_found,
}
use lowcode_bpmn.Store.Memory.{Store, get_process_instance, get_activity_instance}
use lowcode_bpmn.Engine.State.{World, Exec, throw, gets, ◌>>=◌}
use lowcode_bpmn.Engine.Complete.{check_instance, found}
use lowcode_bpmn.Engine.Complete.Guarded.{found-eq-ok, lift_bind-eq-ok, check_instance-eq-ok}
use lowcode_bpmn.Engine.Activity.{
  CompleteActivityRequest, check_activity, complete_kind, complete_activity,
}
use lowcode_bpmn.Prelude.{Option}

abbrev pub is_completable : ElementKind → Bool
is_completable user_task = true
is_completable receive_task = true
is_completable k = is_extension_kind k

-- The instance runs and has the version that the request names, if it names one; the activity is an
-- active one of it, of a kind that waits.
pub record CompletableActivity (req : CompleteActivityRequest) (st : Store) : Type 0 where
  pub inst : ProcessInstance
  pub inst_stored : get_process_instance req.process_instance_id st ≡ some inst
  pub running : is_running inst.status ≡ true
  pub version : (req.lock_version ≡ 0) ⊎ (req.lock_version ≡ inst.lock_version)
  pub act : ActivityInstance
  pub act_stored : get_activity_instance req.activity_id st ≡ some act
  pub of_instance : act.process_instance_id ≡ inst.id
  pub active : is_active act.status ≡ true
  pub waits : is_completable act.element_kind ≡ true

check_activity-eq-ok :
    (id : Uuid) (act : ActivityInstance)
    → check_activity id act ≡ ok tt
    → (act.process_instance_id ≡ id) × (is_active act.status ≡ true)
unfolding check_activity
check_activity-eq-ok id act h =
    let (own, h1) = reject_if->>-eq-ok (not (act.process_instance_id == id)) _ _ h in
    (
      eq_of_== act.process_instance_id id (not-eq-false _ own),
      not-eq-false _ (reject_if-eq-ok (not (is_active act.status)) _ h1),
    )

module _ (w : World) where
  complete_kind-completable :
      (kind : ElementKind) (async : Bool) (fuel : ℕ) (inst : ProcessInstance)
      (act : ActivityInstance) (req : CompleteActivityRequest) (s : Exec)
      (out : Option ProcessInstance)
      → (complete_kind w kind async fuel inst act req s).0 ≡ ok out
      → is_completable kind ≡ true
  unfolding complete_kind is_extension_kind throw
  complete_kind-completable user_task async fuel inst act req s out h = refl
  complete_kind-completable receive_task async fuel inst act req s out h = refl
  complete_kind-completable _ async fuel inst act req s out h = ground arith

  -- `CompleteActivity` succeeds only on a stored instance that runs, with the version that the request names
  -- unless it names none, and on a stored activity of that instance that is active and of a kind that waits:
  -- a user task, a receive task or an extension element.
  pub complete_activity-CompletableActivity :
      (async : Bool) (fuel : ℕ) (req : CompleteActivityRequest) (s : Exec)
      (out : Option ProcessInstance)
      → (complete_activity w async fuel req s).0 ≡ ok out
      → CompletableActivity req s.store
  unfolding complete_activity gets ◌>>=◌
  complete_activity-CompletableActivity async fuel req s out h =
      let (inst, found_inst, h1) =
        lift_bind-eq-ok
          (found instance_not_found (get_process_instance req.process_instance_id s.store)) _ s h in
      let (_, checked, h2) = lift_bind-eq-ok (check_instance req.lock_version inst) _ s h1 in
      let (act, found_act, h3) =
        lift_bind-eq-ok (found activity_not_found (get_activity_instance req.activity_id s.store)) _
          s h2 in
      let (_, act_checked, h4) = lift_bind-eq-ok (check_activity inst.id act) _ s h3 in
      let (runs, version) = check_instance-eq-ok req.lock_version inst checked in
      let (own, active) = check_activity-eq-ok inst.id act act_checked in
      record {
        inst = inst;
        inst_stored = found-eq-ok instance_not_found _ found_inst;
        running = runs;
        version = version;
        act = act;
        act_stored = found-eq-ok activity_not_found _ found_act;
        of_instance = own;
        active = active;
        waits = complete_kind-completable act.element_kind async fuel inst act req s out h4;
      }
