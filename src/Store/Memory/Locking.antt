-- ===== src/Store/Memory/Locking.antt =====
-- internal/store/memory/store.go: the optimistic lock and the job queue.
use lowcode_bpmn.Prelude.{
  suc, ltb, leb, nat_eq, nat_beq_iff, true, false, none, some, List, [], ◌∷◌, ◌≡◌, refl, ap, ◌∙◌,
  ◌==◌, if◌then◌else◌, lookup, insert, lookup-insert_self, All, Memᴰ, List-cases, ◌⊎◌, Bool-cases,
  inl, inr, arith,
}
use lowcode_bpmn.Runtime.{Time, ProcessInstance, Job, JobStatus}
use lowcode_bpmn.Errors.{ok, err, version_conflict}
use lowcode_bpmn.Store.Memory.{
  Store, update_process_instance, get_process_instance, pending_jobs, oldest, claim_next_job,
}

update-cases :
    (now : Time) (inst : ProcessInstance) (st : Store) {written : ProcessInstance × Store}
    → update_process_instance now inst st ≡ ok written
    → (written.0 ≡ record inst { updated_at = now; lock_version = suc inst.lock_version })
      × (written.1
          ≡ record st { process_instances = insert inst.id written.0 st.process_instances })
unfolding update_process_instance
update-cases now inst st h = grind arith

pub update-at_version :
    (now : Time) (inst : ProcessInstance) (st : Store) (held : ProcessInstance)
    → lookup inst.id st.process_instances ≡ some held
    → held.lock_version ≡ inst.lock_version
    → update_process_instance now inst st
      ≡ ok (
        record inst { updated_at = now; lock_version = suc inst.lock_version },
        record st {
          process_instances =
              insert inst.id
                (record inst { updated_at = now; lock_version = suc inst.lock_version })
                st.process_instances;
        },
      )
unfolding update_process_instance
update-at_version now inst st held found same =
    rw (update_process_instance, found, (nat_beq_iff held.lock_version inst.lock_version).1 same)
      refl

-- After a write of an instance has succeeded, the store holds what was written, with the version one
-- higher; a second write that still has the first writer's version is refused with a conflict.
pub update-then_stale_conflicts :
    (now later : Time) (inst stale : ProcessInstance) (st : Store)
    {written : ProcessInstance × Store}
    → update_process_instance now inst st ≡ ok written
    → stale.id ≡ inst.id
    → stale.lock_version ≡ inst.lock_version
    → (get_process_instance inst.id written.1 ≡ some written.0)
      × ((written.0.lock_version ≡ suc inst.lock_version)
          × (update_process_instance later stale written.1 ≡ err version_conflict))
unfolding get_process_instance update_process_instance
update-then_stale_conflicts now later inst stale st {written} h same_id same_version =
    let (e, f) = update-cases now inst st h in
    let found =
      ap (λ (t : Store). lookup inst.id t.process_instances) f
      ∙ lookup-insert_self inst.id written.0 st.process_instances in
    let version = ap (λ (i : ProcessInstance). i.lock_version) e in
    (
      found,
      (
        version,
        refused later stale written.1 written.0
            (ap (λ i. lookup i written.1.process_instances) same_id ∙ found) (differs version),
      ),
    )
  where
    refused :
        (later : Time) (stale : ProcessInstance) (st : Store) (held : ProcessInstance)
        → lookup stale.id st.process_instances ≡ some held
        → (held.lock_version == stale.lock_version) ≡ false
        → update_process_instance later stale st ≡ err version_conflict
    refused later stale st held found differs = rw (update_process_instance, found, differs) refl

    differs :
        written.0.lock_version ≡ suc inst.lock_version
        → (written.0.lock_version == stale.lock_version) ≡ false
    differs v = ground (arith, nat_beq_iff written.0.lock_version stale.lock_version)

oldest-least :
    (best : Job) (js : List Job)
    → (leb (oldest best js).created_at best.created_at ≡ true)
      × All (λ (k : Job). leb (oldest best js).created_at k.created_at ≡ true) js
unfolding oldest
oldest-least best [] = (ground arith, tt)
oldest-least best (j ∷ js) =
    let (least, all) = oldest-least (if ltb j.created_at best.created_at then j else best) js in
    (ground arith, (ground arith, all))

oldest-Memᴰ : (best : Job) (js : List Job) → Memᴰ (oldest best js) (best ∷ js)
unfolding oldest
oldest-Memᴰ best [] = Memᴰ.head refl
oldest-Memᴰ best (j ∷ js) = elim (Bool-cases (ltb j.created_at best.created_at)) [
  | inl earlier ↦ rw (oldest, earlier) (Memᴰ.tail (oldest-Memᴰ j js))
  | inr later ↦ rw (oldest, later) (past (oldest-Memᴰ best js))
]
  where
    past : {x : Job} → Memᴰ x (best ∷ js) → Memᴰ x (best ∷ j ∷ js)
    past (Memᴰ.head e) = Memᴰ.head e
    past (Memᴰ.tail m) = Memᴰ.tail (Memᴰ.tail m)

abbrev pub claimed : Time → Job → Job
claimed now job = record job {
  status = JobStatus.running;
  attempts = suc job.attempts;
  locked_at = some now;
}

-- The job that a claim returns is a pending one, as old as any that is pending, and is stored as
-- running, with one attempt more; a claim returns none only if none is pending, and changes nothing then.
pub claim_next_job-oldest :
    (now : Time) (st : Store)
    → ((pending_jobs st ≡ []) × (claim_next_job now st ≡ (none, st)))
      ⊎ ((job : Job) × Memᴰ job (pending_jobs st)
          × All (λ (k : Job). leb job.created_at k.created_at ≡ true) (pending_jobs st)
          × ((claim_next_job now st).0 ≡ some (claimed now job))
          × (lookup job.id (claim_next_job now st).1.jobs ≡ some (claimed now job)))
unfolding claim_next_job
claim_next_job-oldest now st = elim (List-cases (pending_jobs st)) [
  | inl e ↦ inl (e, rw (claim_next_job, e) refl)
  | inr (j, js, e) ↦ inr (
    oldest j js,
    rw e (oldest-Memᴰ j js),
    rw e ((oldest-least j js).0, (oldest-least j js).1),
    rw (claim_next_job, e) refl,
    rw (claim_next_job, e)
        (lookup-insert_self (oldest j js).id (claimed now (oldest j js)) st.jobs),
  )
]
