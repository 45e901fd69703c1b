-- ===== src/Engine/Reassign/Guarded.antt =====
-- internal/engine/assignees.go: the tests that `UpdateActivityAssignees` makes, and what it stores.
use lowcode_bpmn.Prelude.{
  suc, ltb, nat_beq, nat_eq, String, string_eq, Bool, true, false, ◌&&◌, ◌||◌, not, Option, some,
  List, [], ◌∷◌, length, contains, lookup, insert, lookup-insert_self, ◌≡◌, ◌⊎◌, refl, ap, ◌∙◌, sym,
  not-eq-false, arith,
}
use lowcode_bpmn.Definition.Approval.{is_user_task, parse_approval_mode}
use lowcode_bpmn.Runtime.{
  ActivityInstance, ProcessInstance, ApprovalRecord, UpdateAssigneesRequest, is_running, is_active,
}
use lowcode_bpmn.Errors.{
  Result, ok, err, reject_if->>-eq-ok, reject_if-eq-ok, >>-eq-ok, ok-injective, instance_not_found,
  activity_not_found,
}
use lowcode_bpmn.Store.Memory.{
  Store, get_process_instance, get_activity_instance, update_process_instance,
  update_activity_instance,
}
use lowcode_bpmn.Engine.State.{
  World, Exec, M, gets, ◌>>=◌, now, touch, update_activity, update_instance, modify, set_updated,
  modify_inst, and_then,
}
use lowcode_bpmn.Engine.Advances.{update_process_instance-eq-ok}
use lowcode_bpmn.Engine.Complete.{check_instance, found}
use lowcode_bpmn.Engine.Complete.Guarded.{found-eq-ok, lift_bind-eq-ok, check_instance-eq-ok}
use lowcode_bpmn.Engine.Reassign.{
  has_acted, check_removed, check_reassignment, is_any, reassigned, store_reassigned,
  update_activity_assignees,
}

-- No one on the list who has acted is left out of the new one.
unfoldable pub keeps_actors : List ApprovalRecord → List String → List String → Bool
unfolding has_acted
keeps_actors records assignees [] = true
keeps_actors records assignees (a ∷ rest) =
    (contains assignees a || not (has_acted records a)) && keeps_actors records assignees rest

-- The instance runs and has the version that the request names, if it names one; the activity is an active
-- user task; the new list is not empty, keeps all who have acted, and meets the quota of mode any; and
-- the answer is the activity with the new list.
pub record Reassignable (req : UpdateAssigneesRequest) (st : Store) (out : Option ActivityInstance)
    : Type 0 where
  pub inst : ProcessInstance
  pub inst_stored : get_process_instance req.process_instance_id st ≡ some inst
  pub running : is_running inst.status ≡ true
  pub version : (req.lock_version ≡ 0) ⊎ (req.lock_version ≡ inst.lock_version)
  pub act : ActivityInstance
  pub act_stored : get_activity_instance req.activity_id st ≡ some act
  pub active : is_active act.status ≡ true
  pub user_task : is_user_task act.element_kind ≡ true
  pub some_left : nat_beq (length req.assignees) 0 ≡ false
  pub actors_kept : keeps_actors act.approval_records req.assignees act.assignees ≡ true
  pub quota :
      (is_any (parse_approval_mode act.approval_mode)
        && ltb (length req.assignees) act.required_approvals)
      ≡ false
  pub answer : out ≡ some (reassigned req act)

check_removed-eq-ok :
    (records : List ApprovalRecord) (assignees l : List String)
    → check_removed records assignees l ≡ ok tt
    → keeps_actors records assignees l ≡ true
unfolding check_removed keeps_actors
check_removed-eq-ok records assignees [] h = refl
check_removed-eq-ok records assignees (a ∷ l) h =
    ground (arith, check_removed-eq-ok records assignees l)

-- What is read behind an action that succeeds.
gets_behind :
    {A : Type 0} (m : M (Unit {0})) (f : Exec → A) (s : Exec) {a : A}
    → ((m >>= λ _. gets f) s).0 ≡ ok a
    → a ≡ f (m s).1
unfolding gets ◌>>=◌
gets_behind {A} m f s {a} h = after (m s) h
  where
    after :
        (out : Result (Unit {0}) × Exec)
        → (and_then out.0 (λ _. gets f) out.1).0 ≡ ok a
        → a ≡ f out.1
    after (ok tt, t) e = sym (ok-injective e)
    after (err e, t) k = cc

update_instance-activities :
    (w : World) (s : Exec)
    → (update_instance w s).1.store.activity_instances ≡ s.store.activity_instances
unfolding update_instance
update_instance-activities w s =
    after (update_process_instance (w.time_now s.readings) s.inst s.store) refl
  where
    after :
        (r : Result (ProcessInstance × Store))
        → update_process_instance (w.time_now s.readings) s.inst s.store ≡ r
        → (update_instance w s).1.store.activity_instances ≡ s.store.activity_instances
    after (err e) h = rw (update_instance, h) refl
    after (ok new) h =
        let (_, f) = update_process_instance-eq-ok (w.time_now s.readings) s.inst s.store h in
        rw (update_instance, h) (ap (λ (st : Store). st.activity_instances) f)

-- Where the transaction succeeds, the read behind it answers with what was written.
store_reassigned-eq-ok :
    (w : World) (act : ActivityInstance) (inst : ProcessInstance) (s : Exec)
    (out : Option ActivityInstance)
    → (store_reassigned w inst act s).0 ≡ ok out
    → out ≡ some act
unfolding store_reassigned get_activity_instance now touch set_updated modify modify_inst
    update_activity update_activity_instance ◌>>=◌
store_reassigned-eq-ok w act inst s out h =
    let written : Exec = record s {
      inst = record inst { updated_at = w.time_now s.readings };
      scope_id = "";
      branch_flow_id = "";
      readings = suc s.readings;
      store = record (s.store) {
        activity_instances = insert act.id act s.store.activity_instances;
      };
    } in
    gets_behind (update_instance w) (λ t. lookup act.id t.store.activity_instances) written h
    ∙ ap (lookup act.id) (update_instance-activities w written)
    ∙ lookup-insert_self act.id act s.store.activity_instances

check_reassignment-eq-ok :
    (req : UpdateAssigneesRequest) (act : ActivityInstance)
    → check_reassignment req act ≡ ok tt
    → (is_active act.status ≡ true)
      × (is_user_task act.element_kind ≡ true)
      × (nat_beq (length req.assignees) 0 ≡ false)
      × (keeps_actors act.approval_records req.assignees act.assignees ≡ true)
      × ((is_any (parse_approval_mode act.approval_mode)
            && ltb (length req.assignees) act.required_approvals)
          ≡ false)
unfolding check_reassignment
check_reassignment-eq-ok req act h =
    let (active, h1) = reject_if->>-eq-ok (not (is_active act.status)) _ _ h in
    let (user, h2) = reject_if->>-eq-ok (not (is_user_task act.element_kind)) _ _ h1 in
    let (left, h3) = reject_if->>-eq-ok (nat_beq (length req.assignees) 0) _ _ h2 in
    let (kept, h4) =
      >>-eq-ok (check_removed act.approval_records req.assignees act.assignees) _ h3 in
    (
      not-eq-false _ active,
      not-eq-false _ user,
      left,
      check_removed-eq-ok act.approval_records req.assignees act.assignees kept,
      reject_if-eq-ok _ _ h4,
    )

-- `UpdateActivityAssignees` succeeds only on a stored instance that runs, with the version that the request
-- names unless it names none, and on a stored active user task; the new list is not empty, keeps everyone who
-- has acted and, in mode any, is as long as the quota; and the answer is the activity with the new list.
pub update_activity_assignees-Reassignable :
    (w : World) (req : UpdateAssigneesRequest) (s : Exec) (out : Option ActivityInstance)
    → (update_activity_assignees w req s).0 ≡ ok out
    → Reassignable req s.store out
unfolding update_activity_assignees gets ◌>>=◌
update_activity_assignees-Reassignable w req s out h =
    let (inst, found_inst, h1) =
      lift_bind-eq-ok
        (found instance_not_found (get_process_instance req.process_instance_id s.store)) _ s h in
    let (_, checked, h2) = lift_bind-eq-ok (check_instance req.lock_version inst) _ s h1 in
    let (act, found_act, h3) =
      lift_bind-eq-ok (found activity_not_found (get_activity_instance req.activity_id s.store)) _ s
        h2 in
    let (_, allowed, h4) = lift_bind-eq-ok (check_reassignment req act) _ s h3 in
    let (runs, version) = check_instance-eq-ok req.lock_version inst checked in
    let (active, user, left, kept, quota) = check_reassignment-eq-ok req act allowed in
    record {
      inst = inst;
      inst_stored = found-eq-ok instance_not_found _ found_inst;
      running = runs;
      version = version;
      act = act;
      act_stored = found-eq-ok activity_not_found _ found_act;
      active = active;
      user_task = user;
      some_left = left;
      actors_kept = kept;
      quota = quota;
      answer = store_reassigned-eq-ok w (reassigned req act) inst s out h4;
    }
