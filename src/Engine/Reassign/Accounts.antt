-- ===== src/Engine/Reassign/Accounts.antt =====
-- internal/engine/assignee_sync.go: the counters of a removal.
use lowcode_bpmn.Prelude.{
  suc, ◌+◌, ltb, nat_beq, String, string_eq, Bool, true, false, ◌&&◌, ◌||◌, not, List, [], ◌∷◌,
  length, length-append, contains, Option, none, some, ◌≡◌, refl, ap, ◌∙◌, arith, Bool-cases, inl,
  inr, if◌then◌else◌,
}
use lowcode_bpmn.Text.{is_empty}
use lowcode_bpmn.Definition.Approval.{parse_approval_mode}
use lowcode_bpmn.Engine.Approval.{task_pending_assignees}
use lowcode_bpmn.Runtime.{ActivityInstance}
use lowcode_bpmn.Errors.{Result, ok, err}
use lowcode_bpmn.Engine.State.{World, Exec, M, pure, lift, attempt, gets, modify, ◌>>=◌, and_then}
use lowcode_bpmn.Engine.Reassign.{
  RemoveUserSyncRequest, RemoveUserSyncResult, SyncTaskResult, matches_sync_scope, new_assignees,
  assignee_already_acted_non_skipped, is_any, sync_task, sync_tasks, append_result, sync_outcome,
  no_results, listed_tasks, remove_user_from_active_tasks,
}

-- The counters add up to the number of results.
abbrev pub Balanced : RemoveUserSyncResult → Type 0
Balanced out = out.updated + out.skipped + out.failed ≡ length out.results

-- A result is appended where one of the counters has gone up.
append_result-Balanced :
    (r : SyncTaskResult) (out : RemoveUserSyncResult)
    → out.updated + out.skipped + out.failed ≡ suc (length out.results)
    → Balanced (append_result r out)
append_result-Balanced r out b = omega (arith, b, length-append out.results (r ∷ []))

-- The action returns a balanced result on every state.
record Balances (m : M RemoveUserSyncResult) : Type 0 where
  at : (s : Exec) → (r : RemoveUserSyncResult) × ((m s).0 ≡ ok r) × Balanced r

Balances-pure : (r : RemoveUserSyncResult) → Balanced r → Balances (pure r)
unfolding pure
Balances-pure r b = record { at = λ s. (r, refl, b) }

-- An action that returns on every state.
record Total {A : Type 0} (m : M A) : Type 0 where
  at : (s : Exec) → (a : A) × ((m s).0 ≡ ok a)

Total-attempt : {A : Type 0} (m : M A) → Total (attempt m)
unfolding attempt
Total-attempt m = record { at = λ s. ((m s).0, refl) }

Total-modify : (f : Exec → Exec) → Total (modify f)
unfolding modify
Total-modify f = record { at = λ s. (tt, refl) }

Balances-if :
    (b : Bool) (m n : M RemoveUserSyncResult)
    → Balances m
    → Balances n
    → Balances (if b then m else n)
Balances-if true m n tm tn = tm
Balances-if false m n tm tn = tn

bind-result :
    {A B : Type 0} (m : M A) (f : A → M B) (s : Exec) {a : A}
    → (m s).0 ≡ ok a
    → (m >>= f) s ≡ f a (m s).1
unfolding ◌>>=◌
bind-result m f s h = ap (λ r. and_then r f (m s).1) h

Balances-bind :
    {A : Type 0} (m : M A) (f : A → M RemoveUserSyncResult)
    → Total m
    → ((a : A) → Balances (f a))
    → Balances (m >>= f)
Balances-bind m f tm tf = record {
  at = λ s.
      let (a, h) = tm.at s in
      let (r, k, b) = (tf a).at (m s).1 in (r, ap (λ out. out.0) (bind-result m f s h) ∙ k, b);
}

module _ (w : World) (req : RemoveUserSyncRequest) where
  sync_outcome-Balanced :
      (key : String) (act : ActivityInstance) (applied : Result (Option ActivityInstance))
      (out : RemoveUserSyncResult)
      → Balanced out
      → Balanced (sync_outcome w key act applied out)
  unfolding sync_outcome
  sync_outcome-Balanced key act (err e) out b =
      append_result-Balanced _ (record out { failed = suc out.failed }) (omega (arith, b))
  sync_outcome-Balanced key act (ok none) out b =
      append_result-Balanced _ (record out { updated = suc out.updated }) (omega (arith, b))
  sync_outcome-Balanced key act (ok (some new)) out b =
      append_result-Balanced _ (record out { updated = suc out.updated }) (omega (arith, b))

  sync_task-Balances :
      (key : String) (act : ActivityInstance) (out : RemoveUserSyncResult)
      → Balanced out
      → Balances (sync_task w req key act out)
  unfolding sync_task
  sync_task-Balances key act out b =
      let left = length (new_assignees req.user_id act) in
      let skips : (r : SyncTaskResult)
          → Balanced (append_result r (record out { skipped = suc out.skipped })) =
        λ r.
          append_result-Balanced r (record out { skipped = suc out.skipped }) (omega (arith, b)) in
      let fails : (r : SyncTaskResult)
          → Balanced (append_result r (record out { failed = suc out.failed })) =
        λ r. append_result-Balanced r (record out { failed = suc out.failed }) (omega (arith, b)) in
      Balances-if
        (not (contains act.assignees req.user_id)
          && not (contains (task_pending_assignees act) req.user_id))
        _ _ (Balances-pure _ (skips _))
        (Balances-if (assignee_already_acted_non_skipped act req.user_id) _ _
          (Balances-pure _ (skips _))
          (Balances-bind (modify _) _ (Total-modify _) (λ _.
            Balances-if (nat_beq left 0) _ _ (Balances-pure _ (fails _)) (
              Balances-if
                (is_any (parse_approval_mode act.approval_mode) && ltb left act.required_approvals)
                _ _ (Balances-pure _ (fails _))
                (Balances-bind (attempt _) _ (Total-attempt _)
                  (λ applied. Balances-pure _ (sync_outcome-Balanced key act applied out b)))))))

  sync_tasks-Balanced :
      (out : RemoveUserSyncResult) (tasks : List (String × ActivityInstance)) (s : Exec)
      → Balanced out
      → (r : RemoveUserSyncResult) × ((sync_tasks w req out tasks s).0 ≡ ok r) × Balanced r
  unfolding sync_tasks pure
  sync_tasks-Balanced out [] s b = (out, refl, b)
  sync_tasks-Balanced out ((key, act) ∷ tasks) s b =
      elim (Bool-cases (matches_sync_scope key act req.process_keys req.element_ids)) [
        | inr outside ↦ rw outside (sync_tasks-Balanced out tasks s b)
        | inl inside ↦
            let (next, h, kept) = (sync_task-Balances key act out b).at s in
            let (all, k, balanced) =
              sync_tasks-Balanced next tasks (sync_task w req key act out s).1 kept in
            rw inside
              (all, ap (λ o. o.0) (bind-result (sync_task w req key act out) _ s h) ∙ k, balanced)
      ]

  -- Where the request names a tenant and a user, their removal returns a result, whatever happens to the single
  -- tasks, and in it the counts of the tasks updated, skipped and failed add up to the number of tasks reported.
  pub remove_user-Balanced :
      (s : Exec)
      → (is_empty req.tenant_id || is_empty req.user_id) ≡ false
      → (r : RemoveUserSyncResult) × ((remove_user_from_active_tasks w req s).0 ≡ ok r) × Balanced r
  unfolding remove_user_from_active_tasks lift gets ◌>>=◌
  remove_user-Balanced s named =
      let (r, h, balanced) =
        sync_tasks-Balanced (no_results w req) (listed_tasks req.tenant_id s.store) s refl in
      (r, rw (remove_user_from_active_tasks, named) h, balanced)
