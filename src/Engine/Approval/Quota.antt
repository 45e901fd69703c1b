-- ===== src/Engine/Approval/Quota.antt =====
-- internal/engine/approval.go: the parts of a step that succeeds.
use lowcode_bpmn.Prelude.{
  sym, ◌<◌, ltb, String, string_eq, true, false, ◌&&◌, not, [], ◌∷◌, ◌++◌, ◌==◌, ◌≡◌, length,
  if◌then◌else◌, arith,
}
use lowcode_bpmn.Text.{is_empty}
use lowcode_bpmn.Definition.Model.{Element}
use lowcode_bpmn.Runtime.{ActivityInstance, CompleteTaskRequest, Time}
use lowcode_bpmn.Errors.{ok, reject_if->>-eq-ok, reject_if-eq-ok, >>-eq-ok, ok-injective}
use lowcode_bpmn.Engine.Approval.{
  ApprovalStep, assignee_can_act, assignee_already_acted, prepare_step, step_mode, step_action,
  step_record, step_guards, approve_step, apply_approval_step,
}

-- The activity as the step records the action on it.
abbrev pub recorded : Time → ActivityInstance → Element → CompleteTaskRequest → ActivityInstance
recorded now act el req = record (prepare_step act el) {
  approval_records = (prepare_step act el).approval_records ++ step_record now req ∷ [];
}

-- What the guards let through.
pub record Admitted (act : ActivityInstance) (assignee action : String) : Type 0 where
  pub known_action : (action == "approve") ≡ false → (action == "reject") ≡ true
  pub signed : 1 < length act.assignees → is_empty assignee ≡ false
  pub may_act : is_empty assignee ≡ false → assignee_can_act act assignee ≡ true
  pub first_time : is_empty assignee ≡ false → assignee_already_acted act assignee ≡ false

pub step_guards-Admitted :
    (act : ActivityInstance) (assignee action : String)
    → step_guards act assignee action ≡ ok tt
    → Admitted act assignee action
unfolding step_guards
step_guards-Admitted act assignee action h =
    let (known, h1) =
      reject_if->>-eq-ok (not (action == "approve") && not (action == "reject")) _ _ h in
    let (signed, h2) =
      reject_if->>-eq-ok (ltb 1 (length act.assignees) && is_empty assignee) _ _ h1 in
    let (may, h3) =
      reject_if->>-eq-ok (not (is_empty assignee) && not (assignee_can_act act assignee)) _ _ h2 in
    let new =
      reject_if-eq-ok (not (is_empty assignee) && assignee_already_acted act assignee) _ h3 in
    record {
      known_action = λ a. ground arith;
      signed = λ a. ground arith;
      may_act = λ a. ground arith;
      first_time = λ a. ground arith;
    }

-- A successful step is an admitted action followed by the switch on action and mode.
pub apply_approval_step-eq-ok :
    (now later : Time) (act : ActivityInstance) (el : Element) (req : CompleteTaskRequest)
    {out : ActivityInstance × ApprovalStep}
    → apply_approval_step now later act el req ≡ ok out
    → Admitted (prepare_step act el) req.assignee (step_action req)
      × (out ≡ (
          if step_action req == "reject"
          then (recorded now act el req, record { done = true; rejected = true })
          else approve_step later (step_mode act el) el req.assignee (recorded now act el req)))
unfolding apply_approval_step
apply_approval_step-eq-ok now later act el req {out} h =
    let (guarded, same) =
      >>-eq-ok (step_guards (prepare_step act el) req.assignee (step_action req)) _ h in
    (
      step_guards-Admitted (prepare_step act el) req.assignee (step_action req) guarded,
      sym (ok-injective same),
    )
