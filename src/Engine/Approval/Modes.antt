-- ===== src/Engine/Approval/Modes.antt =====
-- internal/engine/approval.go: the steps in each of the three modes.
use lowcode_bpmn.Prelude.{
  suc, ◌+◌, ◌≤◌, leb, nat_beq, String, string_eq, Bool, true, false, ◌&&◌, ◌||◌, Option, none, some,
  List, [], ◌∷◌, ◌++◌, ◌==◌, ◌≡◌, ◌≢◌, ◌⊎◌, ◌↔◌, inl, inr, refl, sym, ap, ◌∙◌, filter, any,
  contains, length, get_elem?, arith, nat_beq_iff, leb_iff, subst, filter-append, length-append,
  ==_refl, eq_of_==,
}
use lowcode_bpmn.Definition.Model.{Element}
use lowcode_bpmn.Definition.Approval.{ApprovalMode, any_of, all_of, sequential, parse_approval_mode}
use lowcode_bpmn.Runtime.{ActivityInstance, ApprovalRecord, CompleteTaskRequest, Time}
use lowcode_bpmn.Errors.{ok}
use lowcode_bpmn.Engine.Approval.{
  ApprovalStep, copy_slice, slice_items, remove_string, remove_pending, pending_for_mode,
  init_user_task_approval, prepare_step, step_mode, step_action, step_record, step_index,
  index_of_string, approve_step, apply_approval_step, approval_count, task_required_approvals,
  is_approve,
}
use lowcode_bpmn.Engine.Approval.Quota.{recorded, apply_approval_step-eq-ok}

any-append :
    (p : ApprovalRecord → Bool) (xs ys : List ApprovalRecord)
    → any p (xs ++ ys) ≡ (any p xs || any p ys)
any-append p [] ys = refl
any-append p (x ∷ xs) ys = ground (arith, any-append p xs ys)

approval_count-recorded :
    (now : Time) (act : ActivityInstance) (el : Element) (req : CompleteTaskRequest)
    → (step_action req == "approve") ≡ true
    → approval_count (recorded now act el req) ≡ approval_count act + 1
unfolding approval_count prepare_step
approval_count-recorded now act el req h = ground (
  arith,
  filter-append is_approve act.approval_records (step_record now req ∷ []),
  length-append (filter is_approve act.approval_records) (step_record now req ∷ []),
)

any_of-done :
    (later : Time) (el : Element) (a : String) (act : ActivityInstance)
    → (approve_step later any_of el a act).1.done
      ≡ leb (task_required_approvals act) (approval_count act)
unfolding approve_step
any_of-done later el a act = ground arith

task_required_approvals-recorded :
    (now : Time) (act : ActivityInstance) (el : Element) (req : CompleteTaskRequest)
    → task_required_approvals (recorded now act el req)
      ≡ task_required_approvals (prepare_step act el)
unfolding task_required_approvals
task_required_approvals-recorded now act el req = refl

module _ (now later : Time) (act : ActivityInstance) (el : Element)
    (req : CompleteTaskRequest) where
  approving : (action : String) → (action == "approve") ≡ true → (action == "reject") ≡ false
  approving action h = rw (eq_of_== action "approve" h)

  -- An approval, in terms of the switch on the mode.
  approved_step :
      {out : ActivityInstance × ApprovalStep}
      → apply_approval_step now later act el req ≡ ok out
      → (step_action req == "approve") ≡ true
      → out ≡ approve_step later (step_mode act el) el req.assignee (recorded now act el req)
  approved_step h a =
      let (_, e) = apply_approval_step-eq-ok now later act el req h in
      e ∙ rw (approving (step_action req) a)

  -- In mode `any`, a step that approves closes the task exactly if the approvals, this one counted,
  -- reach the quota of the activity.
  pub any_of_quota :
      (out : ActivityInstance × ApprovalStep)
      → apply_approval_step now later act el req ≡ ok out
      → (step_action req == "approve") ≡ true
      → step_mode act el ≡ any_of
      → (out.1.done ≡ true)
        ↔ (task_required_approvals (prepare_step act el) ≤ approval_count act + 1)
  any_of_quota out h a m =
      let e = approved_step h a in
      let closes : out.1.done
          ≡ leb (task_required_approvals (prepare_step act el)) (approval_count act + 1) =
        rw (
          e,
          m,
          any_of-done,
          task_required_approvals-recorded,
          approval_count-recorded now act el req a,
        ) in
      rw closes (leb_iff _ _)

-- Someone with this name approved.
abbrev pub has_approved : ActivityInstance → String → Bool
has_approved act a =
    any (λ (r : ApprovalRecord). r.assignee == a && is_approve r) act.approval_records

-- Every assignee is still asked, or approved.
abbrev pub IsAccounted : ActivityInstance → Type 0
IsAccounted act =
    (a : String)
    → contains act.assignees a ≡ true
    → (contains (slice_items act.pending_assignees) a ≡ true) ⊎ (has_approved act a ≡ true)

contains-remove_string :
    (xs : List String) (s a : String)
    → contains xs a ≡ true
    → (contains (remove_string xs s) a ≡ true) ⊎ (s ≡ a)
unfolding remove_string
contains-remove_string [] s a h = absurd (cc)
contains-remove_string (x ∷ xs) s a h =
    ground (arith, string_eq.same_iff x a, string_eq.same_iff x s, contains-remove_string xs s a)

contains-remove_pending :
    (p : Option (List String)) (s a : String)
    → contains (slice_items p) a ≡ true
    → (contains (slice_items (remove_pending p s)) a ≡ true) ⊎ (s ≡ a)
contains-remove_pending none s a h = inl h
contains-remove_pending (some xs) s a h = contains-remove_string xs s a h

-- A user task whose element is not in mode `sequential` starts with every assignee pending.
pub init-IsAccounted :
    (act : ActivityInstance) (el : Element) (given : List String)
    → parse_approval_mode el.approval_mode ≢ sequential
    → IsAccounted (init_user_task_approval act el given)
unfolding init_user_task_approval
init-IsAccounted act el given h a m =
    inl (pending_covers (parse_approval_mode el.approval_mode) _ h m)
  where
    copy_covers :
        (xs : List String) → contains xs a ≡ true → contains (slice_items (copy_slice xs)) a ≡ true
    copy_covers [] c = c
    copy_covers (x ∷ xs) c = c

    pending_covers :
        (mode : ApprovalMode) (xs : List String)
        → mode ≢ sequential
        → contains xs a ≡ true
        → contains (slice_items (pending_for_mode mode xs)) a ≡ true
    pending_covers any_of xs n c = copy_covers xs c
    pending_covers all_of xs n c = copy_covers xs c
    pending_covers sequential xs n c = absurd (n refl)

abbrev Closes : ActivityInstance × ApprovalStep → Type 0
Closes o =
    o.1.done ≡ true → (a : String) → contains o.0.assignees a ≡ true → has_approved o.0 a ≡ true

empty_of_length : (xs : List String) → nat_beq (length xs) 0 ≡ true → xs ≡ []
empty_of_length [] h = refl
empty_of_length (x ∷ xs) h = absurd (omega (arith, (nat_beq_iff _ _).0 h))

all_of-Closes :
    (later : Time) (el : Element) (s : String) (act : ActivityInstance)
    → IsAccounted (approve_step later all_of el s act).0
    → Closes (approve_step later all_of el s act)
unfolding approve_step
all_of-Closes later el s act acc d a c =
    let e = empty_of_length (slice_items (remove_pending act.pending_assignees s)) d in
    elim (acc a c) [ inl waiting ↦ absurd (cc) | inr approved ↦ approved ]

abbrev is_nil : List String → Bool
is_nil [] = true
is_nil (x ∷ xs) = false

index_of_string-split :
    (before : List String) (a : String) (after : List String)
    → contains before a ≡ false
    → index_of_string (before ++ a ∷ after) a ≡ some (length before)
unfolding index_of_string
index_of_string-split [] a after h = rw (==_refl a)
index_of_string-split (x ∷ xs) a after h = ground (arith, index_of_string-split xs a after)

get_elem?-split :
    (before : List String) (a : String) (after : List String)
    → get_elem? (before ++ a ∷ after) (suc (length before)) ≡ get_elem? after 0
get_elem?-split [] a [] = refl
get_elem?-split [] a (b ∷ bs) = refl
get_elem?-split (x ∷ xs) a after = get_elem?-split xs a after

next_on_list :
    (defined listed : List String) (a : String) (before after : List String)
    → defined ≡ before ++ a ∷ after
    → contains before a ≡ false
    → get_elem? defined (step_index defined listed a) ≡ get_elem? after 0
next_on_list defined listed a before after split fresh =
    rw (split, index_of_string-split before a after fresh, step_index)
      (get_elem?-split before a after)

sequential_step :
    (later : Time) (el : Element) (a : String) (act : ActivityInstance) (after : List String)
    → get_elem? el.assignees (step_index el.assignees act.assignees a) ≡ get_elem? after 0
    → ((approve_step later sequential el a act).1.done ≡ is_nil after)
      × ((approve_step later sequential el a act).0.pending_assignees
          ≡ pending_for_mode sequential after)
unfolding approve_step pending_for_mode
sequential_step later el a act [] h = (ground arith, ground arith)
sequential_step later el a act (b ∷ rest) h = (ground arith, ground arith)

module _ (now later : Time) (act : ActivityInstance) (el : Element)
    (req : CompleteTaskRequest) where
  all_of-IsAccounted :
      (step_action req == "approve") ≡ true
      → IsAccounted act
      → IsAccounted (approve_step later all_of el req.assignee (recorded now act el req)).0
  unfolding approve_step prepare_step
  all_of-IsAccounted approves acc a m =
      let before =
        any-append (λ (r : ApprovalRecord). r.assignee == a && is_approve r) act.approval_records
          (step_record now req ∷ []) in
      elim (acc a m) [
        | inr done ↦ inr (rw (before, done))
        | inl waiting ↦
            elim (contains-remove_pending act.pending_assignees req.assignee a waiting) [
              | inl still ↦ inl still
              | inr same ↦ inr (ground (arith, before, string_eq.same_iff req.assignee a))
            ]
      ]

  all_mode :
      step_mode act el ≡ all_of
      → approve_step later (step_mode act el) el req.assignee (recorded now act el req)
        ≡ approve_step later all_of el req.assignee (recorded now act el req)
  all_mode m = ap (λ mode. approve_step later mode el req.assignee (recorded now act el req)) m

  -- In mode `all`, a step that approves leaves every assignee either pending or approving, if they were
  -- so before.
  pub all_of_keeps :
      (out : ActivityInstance × ApprovalStep)
      → apply_approval_step now later act el req ≡ ok out
      → (step_action req == "approve") ≡ true
      → step_mode act el ≡ all_of
      → IsAccounted act
      → IsAccounted out.0
  all_of_keeps out h approves m acc =
      let e = approved_step now later act el req h approves ∙ all_mode m in
      subst (λ (o : ActivityInstance × ApprovalStep). IsAccounted o.0) (sym e)
        (all_of-IsAccounted approves acc)

  -- In mode `all`, where every assignee was either pending or approving, a step that approves closes the
  -- task only when each of them has approved.
  pub all_of_complete :
      (out : ActivityInstance × ApprovalStep)
      → apply_approval_step now later act el req ≡ ok out
      → (step_action req == "approve") ≡ true
      → step_mode act el ≡ all_of
      → IsAccounted act
      → out.1.done ≡ true
      → (a : String) → contains out.0.assignees a ≡ true
      → has_approved out.0 a ≡ true
  all_of_complete out h approves m acc =
      let e = approved_step now later act el req h approves ∙ all_mode m in
      subst Closes (sym e) (
        all_of-Closes later el req.assignee (recorded now act el req)
          (all_of-IsAccounted approves acc))

-- In mode `sequential`, an approval by an assignee of the definition's list passes the task on to the
-- next one on that list, and closes it exactly after the last; nobody else is pending.
pub sequential_passes_on :
    (now later : Time) (act : ActivityInstance) (el : Element) (req : CompleteTaskRequest)
    (out : ActivityInstance × ApprovalStep) (before after : List String)
    → apply_approval_step now later act el req ≡ ok out
    → (step_action req == "approve") ≡ true
    → step_mode act el ≡ sequential
    → el.assignees ≡ before ++ req.assignee ∷ after
    → contains before req.assignee ≡ false
    → (out.1.done ≡ is_nil after) × (out.0.pending_assignees ≡ pending_for_mode sequential after)
unfolding prepare_step
sequential_passes_on now later act el req out before after h approves m split fresh =
    let e : out ≡ approve_step later sequential el req.assignee (recorded now act el req) =
      approved_step now later act el req h approves
      ∙ ap (λ mode. approve_step later mode el req.assignee (recorded now act el req)) m in
    rw e (
      sequential_step later el req.assignee (recorded now act el req) after
        (next_on_list el.assignees act.assignees req.assignee before after split fresh))
