-- ===== src/Engine/Approval.antt =====
-- internal/engine/approval.go: one assignee's action on a user task.
pub mod Modes
pub mod Quota
pub mod Once
use lowcode_bpmn.Prelude.{
  ℕ, zero, suc, leb, ltb, nat_beq, String, string_eq, Bool, true, false, ◌&&◌, ◌||◌, not, Option,
  none, some, List, [], ◌∷◌, ◌++◌, ◌==◌, map, filter, any, contains, length, get_elem?,
  if◌then◌else◌,
}
use lowcode_bpmn.Text.{is_empty}
use lowcode_bpmn.Vars.{Vars, end, assign}
use lowcode_bpmn.Definition.Model.{Element}
use lowcode_bpmn.Definition.Approval.{
  ApprovalMode, any_of, all_of, sequential, parse_approval_mode, mode_name, required_approvals,
}
use lowcode_bpmn.Runtime.{ActivityInstance, ApprovalRecord, CompleteTaskRequest, Time}
use lowcode_bpmn.Errors.{
  Result, ok, err, ◌>>=◌, ◌>>◌, reject_if, invalid_action, assignee_required, assignee_not_pending,
  already_acted,
}

-- `append([]string(nil), xs...)`
abbrev pub copy_slice : List String → Option (List String)
copy_slice [] = none
copy_slice (x ∷ xs) = some (x ∷ xs)

abbrev pub slice_items : Option (List String) → List String
slice_items none = []
slice_items (some xs) = xs

-- removeString
unfoldable pub remove_string : List String → String → List String
remove_string list s = filter (λ v. not (v == s)) list

abbrev pub remove_pending : Option (List String) → String → Option (List String)
remove_pending none s = none
remove_pending (some xs) s = some (remove_string xs s)

abbrev pub append_unique : List String → String → List String
append_unique list s = if contains list s then list else list ++ s ∷ []

unfoldable pub pending_for_mode : ApprovalMode → List String → Option (List String)
pending_for_mode sequential [] = none
pending_for_mode sequential (a ∷ rest) = some (a ∷ [])
pending_for_mode _ assignees = copy_slice assignees

unfoldable pub init_user_task_approval : ActivityInstance → Element → List String → ActivityInstance
unfolding parse_approval_mode mode_name required_approvals pending_for_mode
init_user_task_approval act el given =
    let mode = parse_approval_mode el.approval_mode in
    let assignees = if nat_beq (length given) 0 then el.assignees else given in
    record act {
      approval_mode = mode_name mode;
      assignees = assignees;
      required_approvals = required_approvals el mode;
      pending_assignees = pending_for_mode mode assignees;
    }

unfoldable pub task_pending_assignees : ActivityInstance → List String
task_pending_assignees act = elim act.pending_assignees [
  | none ↦ act.assignees
  | some pending ↦ pending
]

unfoldable pub task_required_approvals : ActivityInstance → ℕ
task_required_approvals act = if ltb 0 act.required_approvals then act.required_approvals else 1

abbrev pub is_approve : ApprovalRecord → Bool
is_approve r = r.action == "approve"

unfoldable pub approval_count : ActivityInstance → ℕ
approval_count act = length (filter is_approve act.approval_records)

unfoldable pub assignee_already_acted : ActivityInstance → String → Bool
assignee_already_acted act assignee =
    any (λ (r : ApprovalRecord). r.assignee == assignee) act.approval_records

unfoldable pub assignee_can_act : ActivityInstance → String → Bool
unfolding task_pending_assignees
assignee_can_act act assignee =
    if is_empty assignee
    then leb (length (task_pending_assignees act)) 1
    else contains (task_pending_assignees act) assignee

unfoldable pub task_visible_to_assignee : ActivityInstance → String → Bool
unfolding assignee_can_act assignee_already_acted
task_visible_to_assignee act assignee =
    if is_empty assignee
    then true
    else assignee_can_act act assignee && not (assignee_already_acted act assignee)

pub record ApprovalStep : Type 0 where
  pub done : Bool
  pub rejected : Bool

unfoldable pub index_of_string : List String → String → Option ℕ
index_of_string [] target = none
index_of_string (v ∷ list) target =
    let rest = index_of_string list target in
    if v == target then some 0 else elim rest [ none ↦ none | some i ↦ some (suc i) ]

unfoldable pub append_skipped_for_quota : Time → ActivityInstance → ActivityInstance
append_skipped_for_quota now act =
    let acted =
      filter (λ a. not (is_empty a))
        (map (λ (r : ApprovalRecord). r.assignee) act.approval_records) in
    let missing = filter (λ a. not (contains acted a)) act.assignees in
    let skipped = λ (a : String).
      let r : ApprovalRecord = record {
        assignee = a;
        action = "skipped";
        comment = "approval quota already met";
        variables = end;
        at = now;
      } in
      r in
    record act { approval_records = act.approval_records ++ map skipped missing }

-- The mode that the step goes by, and the activity with its mode and quota filled in.
abbrev pub step_mode : ActivityInstance → Element → ApprovalMode
step_mode act el =
    if not (is_empty el.approval_mode)
    then parse_approval_mode el.approval_mode
    else if not (is_empty act.approval_mode)
    then parse_approval_mode act.approval_mode
    else parse_approval_mode el.approval_mode

unfoldable pub prepare_step : ActivityInstance → Element → ActivityInstance
unfolding parse_approval_mode mode_name required_approvals
prepare_step act el =
    let mode = step_mode act el in
    let quota =
      if nat_beq act.required_approvals 0
      then required_approvals el mode
      else act.required_approvals in
    record act {
      approval_mode =
          if not (is_empty el.approval_mode)
          then mode_name (parse_approval_mode el.approval_mode)
          else act.approval_mode;
      required_approvals = quota;
    }

-- `idx+1`, where -1 is `none`
abbrev pub next_index : Option ℕ → ℕ
next_index none = 0
next_index (some i) = suc i

-- The position after the assignee's, in the definition's list or else in the activity's.
abbrev pub step_index : List String → List String → String → ℕ
step_index defined listed assignee = elim (index_of_string defined assignee) [
  | none ↦ next_index (index_of_string listed assignee)
  | some i ↦ suc i
]

-- The switch on the mode, after an approval is recorded; `now` stamps the skipped ones.
unfoldable pub approve_step :
    Time → ApprovalMode → Element → String → ActivityInstance → ActivityInstance × ApprovalStep
unfolding remove_string approval_count task_required_approvals append_skipped_for_quota
    index_of_string
approve_step now any_of el assignee act =
    let act' = record act { pending_assignees = remove_pending act.pending_assignees assignee } in
    if leb (task_required_approvals act') (approval_count act')
    then (append_skipped_for_quota now act', record { done = true; rejected = false })
    else (act', record { done = false; rejected = false })
approve_step now all_of el assignee act =
    let pending = remove_pending act.pending_assignees assignee in
    (
      record act { pending_assignees = pending },
      record { done = nat_beq (length (slice_items pending)) 0; rejected = false },
    )
approve_step now sequential el assignee act =
    elim (get_elem? el.assignees (step_index el.assignees act.assignees assignee)) [
      | none ↦ (record act { pending_assignees = none }, record { done = true; rejected = false })
      | some next ↦ (
        record act { pending_assignees = some (next ∷ []) },
        record { done = false; rejected = false },
      )
    ]

-- The tests that come before anything is recorded.
unfoldable pub step_guards : ActivityInstance → String → String → Result (Unit {0})
unfolding assignee_can_act assignee_already_acted
step_guards act assignee action = do
  reject_if (not (action == "approve") && not (action == "reject")) (invalid_action action)
  reject_if (ltb 1 (length act.assignees) && is_empty assignee) assignee_required
  reject_if (not (is_empty assignee) && not (assignee_can_act act assignee))
      (assignee_not_pending assignee)
  reject_if (not (is_empty assignee) && assignee_already_acted act assignee)
      (already_acted assignee)

abbrev pub step_action : CompleteTaskRequest → String
step_action req = if is_empty req.action then "approve" else req.action

abbrev pub step_record : Time → CompleteTaskRequest → ApprovalRecord
step_record now req = record {
  assignee = req.assignee;
  action = step_action req;
  comment = req.comment;
  variables = req.variables;
  at = now;
}

-- `now` and `later` are the two readings of the clock.
unfoldable pub apply_approval_step :
    (now later : Time)
    → ActivityInstance
    → Element
    → CompleteTaskRequest
    → Result (ActivityInstance × ApprovalStep)
unfolding prepare_step step_guards approve_step
apply_approval_step now later act el req = do
  let act' = prepare_step act el
  step_guards act' req.assignee (step_action req)
  let acted = record act' { approval_records = act'.approval_records ++ step_record now req ∷ [] }
  ok (
      if step_action req == "reject"
      then (acted, record { done = true; rejected = true })
      else approve_step later (step_mode act el) el req.assignee acted)

unfoldable pub merge_records : Vars → List ApprovalRecord → Vars
unfolding assign
merge_records out [] = out
merge_records out (r ∷ rs) = merge_records (assign out r.variables) rs

unfoldable pub merge_approval_output : ActivityInstance → Vars
unfolding merge_records
merge_approval_output act = merge_records end act.approval_records
