-- ===== src/Definition/Approval.antt =====
-- internal/domain/definition/approval.go and approval_quota.go.
use lowcode_bpmn.Prelude.{
  ℕ, String, Bool, true, false, ◌&&◌, ◌||◌, not, [], ◌∷◌, if◌then◌else◌, ltb, nat_beq, length,
  arith, ◌≡◌, refl, ◌≤◌,
}
use lowcode_bpmn.Text.{is_one_of}
use lowcode_bpmn.Definition.Model.{ElementKind, user_task, Element}
use lowcode_bpmn.Errors.{
  Result, ok, err, required_approvals_at_least_one, required_approvals_exceeds, sequential_quota,
}

pub data ApprovalMode : Type 0 where
  any_of all_of sequential : ApprovalMode

-- `blank` is the empty text of an activity that has no mode yet; the other modes are the only
-- texts that the engine stores.
unfoldable pub parse_approval_mode : String → ApprovalMode
unfolding is_one_of
parse_approval_mode raw =
    if is_one_of raw ("all" ∷ "counter" ∷ "countersign" ∷ "会签" ∷ [])
    then all_of
    else if is_one_of raw ("sequential" ∷ "sequence" ∷ "ordered" ∷ "顺签" ∷ [])
    then sequential
    else any_of

-- `string(mode)`
unfoldable pub mode_name : ApprovalMode → String
mode_name any_of = "any"
mode_name all_of = "all"
mode_name sequential = "sequential"

unfoldable pub is_user_task : ElementKind → Bool
is_user_task user_task = true
is_user_task _ = false

-- A quota is at least 1 when it is set; a negative one reads as one that is not set.
unfoldable pub required_approvals : Element → ApprovalMode → ℕ
required_approvals el mode =
    if ltb 0 el.required_approvals
    then el.required_approvals
    else elim mode [ all_of ↦ let n = length el.assignees in if ltb 0 n then n else 1 | _ ↦ 1 ]

abbrev pub is_sequential : ApprovalMode → Bool
is_sequential sequential = true
is_sequential _ = false

unfoldable pub validate_user_task_approval : Element → Result (Unit {0})
unfolding parse_approval_mode required_approvals is_user_task
validate_user_task_approval el =
    if not (is_user_task el.kind) || el.auto_complete
    then ok tt
    else let mode = parse_approval_mode el.approval_mode in
      let n = length el.assignees in
      let req = required_approvals el mode in
      if nat_beq n 0
      then ok tt
      else if ltb req 1
      then err (required_approvals_at_least_one el.id)
      else if ltb n req
      then err (required_approvals_exceeds el.id req n)
      else if is_sequential mode && not (nat_beq req 1)
      then err (sequential_quota el.id)
      else ok tt

pub required_approvals_pos : (el : Element) (mode : ApprovalMode) → 1 ≤ required_approvals el mode
unfolding required_approvals
required_approvals_pos el any_of = ground arith
required_approvals_pos el _ = ground arith

pub parse-mode_name : (mode : ApprovalMode) → parse_approval_mode (mode_name mode) ≡ mode
unfolding parse_approval_mode mode_name
parse-mode_name any_of = refl
parse-mode_name _ = refl
