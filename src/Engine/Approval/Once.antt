-- ===== src/Engine/Approval/Once.antt =====
-- internal/engine/approval.go: repeated steps of one assignee.
use lowcode_bpmn.Prelude.{
  String, string_eq, Bool, true, false, ◌||◌, List, [], ◌∷◌, ◌++◌, ◌==◌, ==_refl, ◌≡◌, ◌≢◌, refl,
  ap, ◌∙◌, any, leb, get_elem?, Option-cases, Bool-cases, inl, inr, arith,
}
use lowcode_bpmn.Text.{is_empty}
use lowcode_bpmn.Definition.Model.{Element}
use lowcode_bpmn.Definition.Approval.{ApprovalMode, any_of, all_of, sequential}
use lowcode_bpmn.Runtime.{ActivityInstance, ApprovalRecord, CompleteTaskRequest, Time}
use lowcode_bpmn.Errors.{ok}
use lowcode_bpmn.Engine.Approval.{
  ApprovalStep, assignee_already_acted, prepare_step, step_mode, step_action, step_record,
  step_index, approve_step, apply_approval_step, approval_count, task_required_approvals,
  append_skipped_for_quota, remove_pending,
}
use lowcode_bpmn.Engine.Approval.Quota.{recorded, apply_approval_step-eq-ok}

any-append :
    {A : Type 0} (p : A → Bool) (xs ys : List A) → any p (xs ++ ys) ≡ (any p xs || any p ys)
any-append p [] ys = refl
any-append p (x ∷ xs) ys = ground (arith, any-append p xs ys)

-- A step records its assignee beside those that have acted before.
recorded-acted :
    (now : Time) (act : ActivityInstance) (el : Element) (req : CompleteTaskRequest) (a : String)
    → assignee_already_acted (recorded now act el req) a
      ≡ (assignee_already_acted act a || (req.assignee == a))
unfolding assignee_already_acted prepare_step
recorded-acted now act el req a = ground (
  arith,
  any-append (λ (r : ApprovalRecord). r.assignee == a) (prepare_step act el).approval_records
      (step_record now req ∷ []),
)

skipped-acted :
    (now : Time) (act : ActivityInstance) (a : String)
    → assignee_already_acted act a ≡ true
    → assignee_already_acted (append_skipped_for_quota now act) a ≡ true
unfolding assignee_already_acted append_skipped_for_quota
skipped-acted now act a h =
    any-append (λ (r : ApprovalRecord). r.assignee == a) act.approval_records _ ∙ rw h refl

approve_step-acted :
    (now : Time) (mode : ApprovalMode) (el : Element) (b : String) (act : ActivityInstance)
    (a : String)
    → assignee_already_acted act a ≡ true
    → assignee_already_acted (approve_step now mode el b act).0 a ≡ true
unfolding approve_step assignee_already_acted
approve_step-acted now any_of el b act a h =
    let act' = record act { pending_assignees = remove_pending act.pending_assignees b } in
    elim (Bool-cases (leb (task_required_approvals act') (approval_count act'))) [
      | inl met ↦ rw (approve_step, met) (skipped-acted now act' a h)
      | inr unmet ↦ rw (approve_step, unmet) h
    ]
approve_step-acted now all_of el b act a h = h
approve_step-acted now sequential el b act a h =
    elim (Option-cases (get_elem? el.assignees (step_index el.assignees act.assignees b))) [
      | inl e ↦ rw (approve_step, e) h
      | inr (next, e) ↦ rw (approve_step, e) h
    ]

prepare_step-acted :
    (act : ActivityInstance) (el : Element) (a : String)
    → assignee_already_acted (prepare_step act el) a ≡ assignee_already_acted act a
unfolding prepare_step assignee_already_acted
prepare_step-acted act el a = refl

-- An accepted step keeps all those that have acted, and adds its own assignee.
step-acted :
    (now later : Time) (act : ActivityInstance) (el : Element) (req : CompleteTaskRequest)
    (out : ActivityInstance × ApprovalStep) (a : String)
    → apply_approval_step now later act el req ≡ ok out
    → (assignee_already_acted act a || (req.assignee == a)) ≡ true
    → assignee_already_acted out.0 a ≡ true
step-acted now later act el req out a h acted =
    let (_, e) = apply_approval_step-eq-ok now later act el req h in
    let recorded_too = recorded-acted now act el req a ∙ acted in
    elim (Bool-cases (step_action req == "reject")) [
      | inl reject ↦ rw (e, reject) recorded_too
      | inr other ↦
          rw (e, other)
            (approve_step-acted later (step_mode act el) el req.assignee (recorded now act el req) a
              recorded_too)
    ]

-- Accepted steps of whichever assignees, one after another.
pub data Steps (el : Element) (act : ActivityInstance) : ActivityInstance → Type 0 where
  none : Steps el act act
  then :
      {mid : ActivityInstance} (now later : Time) (req : CompleteTaskRequest)
      (out : ActivityInstance × ApprovalStep)
      → Steps el act mid
      → apply_approval_step now later mid el req ≡ ok out
      → Steps el act out.0

Steps-acted :
    (el : Element) (a : String) {act last : ActivityInstance}
    → Steps el act last
    → assignee_already_acted act a ≡ true
    → assignee_already_acted last a ≡ true
Steps-acted el a Steps.none h = h
Steps-acted el a (Steps.then {mid = mid} now later req out before accepted) h =
    let acted = Steps-acted el a before h in
    step-acted now later mid el req out a accepted (rw acted refl)

-- Once a step of a named assignee has been accepted, no further step of that assignee is accepted, whatever
-- the mode and the actions are and however many steps of other assignees are accepted in between.
pub acts_once :
    (now later now' later' : Time) (act last : ActivityInstance) (el : Element)
    (req again : CompleteTaskRequest) (out next : ActivityInstance × ApprovalStep)
    → apply_approval_step now later act el req ≡ ok out
    → is_empty req.assignee ≡ false
    → Steps el out.0 last
    → again.assignee ≡ req.assignee
    → apply_approval_step now' later' last el again ≢ ok next
acts_once now later now' later' act last el req again out next h named between same h' =
    let (admitted, _) = apply_approval_step-eq-ok now' later' last el again h' in
    let first = admitted.first_time (ap is_empty same ∙ named) in
    let own : assignee_already_acted out.0 req.assignee ≡ true =
      step-acted now later act el req out req.assignee h (ground (arith, ==_refl req.assignee)) in
    let acted : assignee_already_acted last req.assignee ≡ true =
      Steps-acted el req.assignee between own in
    ground (arith, prepare_step-acted last el again.assignee, ap (assignee_already_acted last) same)
