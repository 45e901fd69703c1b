-- ===== src/Engine/Reassign.antt =====
-- internal/engine/assignees.go and assignee_sync.go: the change of the assignees of an active user task, and
-- the removal of a user from all of them. A removal filters a slice that it shares with the stored
-- activity, in place, and so leaves that one's slice with the kept names in front.
pub mod Guarded
pub mod Accounts
use lowcode_bpmn.Prelude.{
  ℕ, zero, suc, ltb, nat_beq, String, string_eq, nat_eq, Bool, true, false, ◌&&◌, ◌||◌, not, Option,
  none, some, List, [], ◌∷◌, ◌++◌, ◌==◌, map, length, any, contains, lookup, if◌then◌else◌,
}
use lowcode_bpmn.Text.{is_empty}
use lowcode_bpmn.Definition.Approval.{
  ApprovalMode, any_of, sequential, parse_approval_mode, is_user_task,
}
use lowcode_bpmn.Runtime.{
  ActivityInstance, ProcessInstance, ApprovalRecord, Message, UpdateAssigneesRequest, Uuid,
  is_active,
}
use lowcode_bpmn.Errors.{
  Result, ok, err, reject_if, instance_not_found, activity_not_found, activity_not_active,
  not_a_user_task, assignees_empty, cannot_remove_acted, quota_exceeds_assignees,
  sync_request_incomplete, no_assignees_left, user_already_acted,
}
use lowcode_bpmn.Errors
use lowcode_bpmn.Store.Memory.{
  Store, get_process_instance, get_activity_instance, list_active_user_tasks,
  update_activity_instance,
}
use lowcode_bpmn.Engine.Approval.{
  copy_slice, slice_items, remove_string, pending_for_mode, task_pending_assignees,
}
use lowcode_bpmn.Engine.State.{
  World, Exec, M, ◌>>=◌, ◌>>◌, pure, lift, attempt, gets, modify, touch, update_activity,
  update_instance,
}
use lowcode_bpmn.Engine.Complete.{found, check_instance, load}

abbrev pub is_any : ApprovalMode → Bool
is_any any_of = true
is_any _ = false

-- A named assignee with a record other than a skip: the keys of `acted`.
unfoldable pub has_acted : List ApprovalRecord → String → Bool
has_acted records name =
    any
      (λ (r : ApprovalRecord).
        not (r.action == "skipped") && (not (is_empty r.assignee) && r.assignee == name))
      records

-- The loop over the assignees that the new list may leave out.
unfoldable pub check_removed : List ApprovalRecord → List String → List String → Result (Unit {0})
unfolding has_acted
check_removed records assignees [] = ok tt
check_removed records assignees (a ∷ rest) =
    let later = check_removed records assignees rest in
    if not (contains assignees a) && has_acted records a then err (cannot_remove_acted a) else later

-- The first one pending, if it is among the new assignees.
abbrev keep_position : List String → List String → Option (List String) → Option (List String)
keep_position [] assignees otherwise = otherwise
keep_position (p ∷ pending) assignees otherwise =
    if contains assignees p then some (p ∷ []) else otherwise

unfoldable pub pending_after : ApprovalMode → ActivityInstance → List String → Option (List String)
unfolding pending_for_mode task_pending_assignees
pending_after sequential act assignees =
    keep_position (task_pending_assignees act) assignees (pending_for_mode sequential assignees)
pending_after mode act assignees = pending_for_mode mode assignees

abbrev or_pending : Option (List String) → Option (List String) → Option (List String)
or_pending none computed = computed
or_pending (some given) computed = some given

-- The activity with its new assignees.
unfoldable pub reassigned : UpdateAssigneesRequest → ActivityInstance → ActivityInstance
unfolding pending_after parse_approval_mode
reassigned req act = record act {
  assignees = req.assignees;
  pending_assignees = copy_slice (
      slice_items (
        or_pending req.pending_assignees
          (pending_after (parse_approval_mode act.approval_mode) act req.assignees)));
}

-- The tests of the activity and of the new list.
unfoldable pub check_reassignment : UpdateAssigneesRequest → ActivityInstance → Result (Unit {0})
unfolding is_user_task check_removed parse_approval_mode
check_reassignment req act =
    Errors.◌>>◌ (reject_if (not (is_active act.status)) activity_not_active) (
      Errors.◌>>◌
        (reject_if (not (is_user_task act.element_kind)) (not_a_user_task act.element_kind))
        (Errors.◌>>◌ (reject_if (nat_beq (length req.assignees) 0) assignees_empty) (
          Errors.◌>>◌ (check_removed act.approval_records req.assignees act.assignees) (
            reject_if
              (is_any (parse_approval_mode act.approval_mode)
                && ltb (length req.assignees) act.required_approvals)
              (quota_exceeds_assignees act.required_approvals (length req.assignees))))))

pub record RemoveUserSyncRequest : Type 0 where
  pub tenant_id : String
  pub user_id : String
  pub process_keys : List String
  pub element_ids : List String
  pub reason : String
  pub operator : String

pub record ReplaceAssigneesSyncRequest : Type 0 where
  pub tenant_id : String
  pub process_instance_id : Uuid
  pub activity_id : Uuid
  pub assignees : List String
  pub pending_assignees : Option (List String)
  pub operator : String
  pub reason : String

-- The `syncStatus` constants.
pub data SyncStatus : Type 0 where
  updated skipped_not_member skipped_acted failed : SyncStatus

pub record SyncTaskResult : Type 0 where
  pub activity_id : Uuid
  pub process_instance_id : Uuid
  pub element_id : String
  pub process_key : String
  pub status : SyncStatus
  pub message : Message
  pub assignees : List String

pub record RemoveUserSyncResult : Type 0 where
  pub tenant_id : String
  pub user_id : String
  pub updated : ℕ
  pub skipped : ℕ
  pub failed : ℕ
  pub results : List SyncTaskResult

unfoldable pub matches_sync_scope :
    (process_key : String) → ActivityInstance → List String → List String → Bool
matches_sync_scope process_key act keys elements =
    if ltb 0 (length keys) && not (contains keys process_key)
    then false
    else if ltb 0 (length elements) && not (contains elements act.element_id)
    then false
    else true

unfoldable pub assignee_already_acted_non_skipped : ActivityInstance → String → Bool
assignee_already_acted_non_skipped act name =
    any (λ (r : ApprovalRecord). r.assignee == name && not (r.action == "skipped"))
      act.approval_records

abbrev pub drop : ℕ → List String → List String
drop zero l = l
drop (suc n) [] = []
drop (suc n) (x ∷ l) = drop n l

-- What `removeString` leaves in the slice that it was given.
unfoldable pub removed_in_place : List String → String → List String
unfolding remove_string
removed_in_place l name = let kept = remove_string l name in kept ++ drop (length kept) l

-- The stored activity after the two removals: no slice of its own that is pending reads as the assignees.
unfoldable pub shared_removal : String → ActivityInstance → ActivityInstance
unfolding removed_in_place
shared_removal name act = elim act.pending_assignees [
  | none ↦ record act { assignees = removed_in_place (removed_in_place act.assignees name) name }
  | some pending ↦ record act {
    assignees = removed_in_place act.assignees name;
    pending_assignees = some (removed_in_place pending name);
  }
]

-- `newPending`: without a slice of its own, the assignees that the first removal has left.
unfoldable pub new_pending : String → ActivityInstance → List String
unfolding removed_in_place remove_string
new_pending name act = elim act.pending_assignees [
  | none ↦ remove_string (removed_in_place act.assignees name) name
  | some pending ↦ remove_string pending name
]

-- `newAssignees`, once the pending names are removed too: the same slice as the stored one.
unfoldable pub new_assignees : String → ActivityInstance → List String
unfolding removed_in_place remove_string
new_assignees name act = remove_string act.assignees name

-- A task of `ListActiveUserTasks` with the process key of its instance.
unfoldable pub task_process_key : Store → ActivityInstance → String
unfolding lookup
task_process_key st act = elim (lookup act.process_instance_id st.process_instances) [
  | none ↦ ""
  | some inst ↦ inst.process_key
]

-- `ListActiveUserTasks` for no assignee in particular.
unfoldable pub listed_tasks : String → Store → List (String × ActivityInstance)
unfolding list_active_user_tasks task_process_key
listed_tasks tenant st =
    map (λ (a : ActivityInstance). (task_process_key st a, a)) (list_active_user_tasks tenant "" st)

abbrev pub sync_result :
    String → ActivityInstance → SyncStatus → Message → List String → SyncTaskResult
sync_result key act status message assignees = record {
  activity_id = act.id;
  process_instance_id = act.process_instance_id;
  element_id = act.element_id;
  process_key = key;
  status = status;
  message = message;
  assignees = assignees;
}

-- `result.Results = append(result.Results, …)`
abbrev pub append_result : SyncTaskResult → RemoveUserSyncResult → RemoveUserSyncResult
append_result r out = record out { results = out.results ++ r ∷ [] }

module _ (w : World) where
  -- The transaction, and the read behind it.
  unfoldable pub store_reassigned : ProcessInstance → ActivityInstance → M (Option ActivityInstance)
  unfolding touch update_activity update_instance get_activity_instance
  store_reassigned inst act = do
    load inst
    touch w
    update_activity w act
    update_instance w
    gets (λ s. get_activity_instance act.id s.store)

  unfoldable pub update_activity_assignees : UpdateAssigneesRequest → M (Option ActivityInstance)
  unfolding get_process_instance get_activity_instance check_instance check_reassignment
      store_reassigned reassigned
  update_activity_assignees req = do
    inst ← gets (λ s. get_process_instance req.process_instance_id s.store)
    inst' ← lift (found instance_not_found inst)
    lift (check_instance req.lock_version inst')
    act ← gets (λ s. get_activity_instance req.activity_id s.store)
    act' ← lift (found activity_not_found act)
    lift (check_reassignment req act')
    store_reassigned inst' (reassigned req act')

  unfoldable pub apply_assignee_list :
      Uuid → Uuid → List String → Option (List String) → M (Option ActivityInstance)
  unfolding update_activity_assignees
  apply_assignee_list instance_id activity_id assignees pending =
      update_activity_assignees (record {
        process_instance_id = instance_id;
        activity_id = activity_id;
        assignees = assignees;
        pending_assignees = pending;
        operator = "";
        lock_version = 0;
      })

  unfoldable pub replace_task_assignees_sync :
      ReplaceAssigneesSyncRequest → M (Option ActivityInstance)
  unfolding get_process_instance apply_assignee_list
  replace_task_assignees_sync req = do
    lift (reject_if (is_empty req.tenant_id) sync_request_incomplete)
    inst ← gets (λ s. get_process_instance req.process_instance_id s.store)
    inst' ← lift (found instance_not_found inst)
    lift (reject_if (not (inst'.tenant_id == req.tenant_id)) instance_not_found)
    apply_assignee_list req.process_instance_id req.activity_id req.assignees req.pending_assignees

  -- The end of the body, behind the call of applyAssigneeList.
  unfoldable pub sync_outcome :
      String
      → ActivityInstance
      → Result (Option ActivityInstance)
      → RemoveUserSyncResult
      → RemoveUserSyncResult
  sync_outcome key act (err e) out =
      append_result (sync_result key act failed (Message.of_error e) [])
        (record out { failed = suc out.failed })
  sync_outcome key act (ok none) out =
      append_result (sync_result key act updated Message.blank [])
        (record out { updated = suc out.updated })
  sync_outcome key act (ok (some new)) out =
      append_result (sync_result key new updated Message.blank new.assignees)
        (record out { updated = suc out.updated })

  -- The body of the loop at a user task in scope, with the process key that the list gives it and the result
  -- so far.
  unfoldable pub sync_task :
      RemoveUserSyncRequest
      → String
      → ActivityInstance
      → RemoveUserSyncResult
      → M RemoveUserSyncResult
  unfolding task_pending_assignees assignee_already_acted_non_skipped shared_removal new_pending
      new_assignees parse_approval_mode update_activity_instance apply_assignee_list sync_outcome
  sync_task req key act out =
      if not (contains act.assignees req.user_id)
        && not (contains (task_pending_assignees act) req.user_id)
      then pure (
          append_result (sync_result key act skipped_not_member Message.blank [])
            (record out { skipped = suc out.skipped }))
      else if assignee_already_acted_non_skipped act req.user_id
      then pure (
          append_result (sync_result key act skipped_acted (Message.of_error user_already_acted) [])
            (record out { skipped = suc out.skipped }))
      else modify (λ s. record s {
        store = update_activity_instance (shared_removal req.user_id act) s.store;
      })
        >> (if nat_beq (length (new_assignees req.user_id act)) 0
            then pure (
                append_result (sync_result key act failed (Message.of_error no_assignees_left) [])
                  (record out { failed = suc out.failed }))
            else if is_any (parse_approval_mode act.approval_mode)
                && ltb (length (new_assignees req.user_id act)) act.required_approvals
            then pure (
                append_result
                  (sync_result key act failed
                    (Message.of_error (
                      quota_exceeds_assignees act.required_approvals
                        (length (new_assignees req.user_id act))))
                    [])
                  (record out { failed = suc out.failed }))
            else attempt (
                apply_assignee_list act.process_instance_id act.id (new_assignees req.user_id act)
                  (some (new_pending req.user_id act)))
              >>= λ applied. pure (sync_outcome key act applied out))

  unfoldable pub sync_tasks :
      RemoveUserSyncRequest
      → RemoveUserSyncResult
      → List (String × ActivityInstance)
      → M RemoveUserSyncResult
  unfolding matches_sync_scope sync_task
  sync_tasks req out [] = pure out
  sync_tasks req out ((key, act) ∷ tasks) =
      if not (matches_sync_scope key act req.process_keys req.element_ids)
      then sync_tasks req out tasks
      else sync_task req key act out >>= λ next. sync_tasks req next tasks

  abbrev pub no_results : RemoveUserSyncRequest → RemoveUserSyncResult
  no_results req = record {
    tenant_id = req.tenant_id;
    user_id = req.user_id;
    updated = 0;
    skipped = 0;
    failed = 0;
    results = [];
  }

  unfoldable pub remove_user_from_active_tasks : RemoveUserSyncRequest → M RemoveUserSyncResult
  unfolding listed_tasks sync_tasks
  remove_user_from_active_tasks req = do
    lift (reject_if (is_empty req.tenant_id || is_empty req.user_id) sync_request_incomplete)
    tasks ← gets (λ s. listed_tasks req.tenant_id s.store)
    sync_tasks req (no_results req) tasks
