-- ===== src/Store/Memory/Snapshot/Restores.antt =====
-- internal/store/memory: the stores that the operations of store.go reach, and their snapshots.
use lowcode_bpmn.Prelude.{
  String, string_eq, nat_eq, ◌≡◌, refl, sym, ap, subst, lookup, Map, List-cases, Option-cases, inl,
  inr,
}
use lowcode_bpmn.Runtime.{
  ActivityInstance, ProcessInstance, DeployedProcess, Job, Message, Time, Uuid,
}
use lowcode_bpmn.Errors.{ok}
use lowcode_bpmn.Store.Memory.{
  Store, new_store, insert_process_version, delete_process, create_process_instance,
  update_process_instance, create_activity_instance, update_activity_instance, enqueue_job,
  pending_jobs, claim_next_job, complete_job, fail_job,
}
use lowcode_bpmn.Store.Memory.Snapshot.{snapshot, restore, process_key}
use lowcode_bpmn.Store.Memory.Snapshot.RoundTrip.{
  IsKeyed, import-export_self, insert-IsKeyed, lookup-key, filter-IsKeyed,
}
use lowcode_bpmn.Engine.Advances.{update_process_instance-eq-ok}

-- One rule for each operation that writes.
pub data Step (s : Store) : Store → Type 0 where
  deploys : (t : Time) (p : DeployedProcess) → Step s (insert_process_version t p s).1
  deletes : (tenant key : String) → Step s (delete_process tenant key s)
  starts :
      (new : Uuid) (t : Time) (inst : ProcessInstance)
      → Step s (create_process_instance new t inst s).1
  writes :
      (t : Time) (inst : ProcessInstance) (out : ProcessInstance × Store)
      → update_process_instance t inst s ≡ ok out
      → Step s out.1
  activates :
      (new : Uuid) (t : Time) (act : ActivityInstance)
      → Step s (create_activity_instance new t act s).1
  updates : (act : ActivityInstance) → Step s (update_activity_instance act s)
  enqueues : (new : Uuid) (t : Time) (job : Job) → Step s (enqueue_job new t job s).1
  claims : (t : Time) → Step s (claim_next_job t s).1
  completes : (t : Time) (id : Uuid) → Step s (complete_job t id s)
  fails : (id : Uuid) (msg : Message) → Step s (fail_job id msg s)

-- From the empty store.
pub data Reachable : Store → Type 0 where
  empty : Reachable new_store
  then : {s t : Store} → Reachable s → Step s t → Reachable t

-- Each map of the store holds its records under their own keys.
record Keyed (s : Store) : Type 0 where
  processes : IsKeyed process_key s.processes
  instances : IsKeyed (λ (i : ProcessInstance). i.id) s.process_instances
  activities : IsKeyed (λ (a : ActivityInstance). a.id) s.activity_instances
  jobs : IsKeyed (λ (j : Job). j.id) s.jobs

with_processes :
    {s : Store} {m : Map String DeployedProcess}
    → Keyed s
    → IsKeyed process_key m
    → Keyed (record s { processes = m })
with_processes k h = record {
  processes = h;
  instances = k.instances;
  activities = k.activities;
  jobs = k.jobs;
}

with_instances :
    {s : Store} {m : Map Uuid ProcessInstance}
    → Keyed s
    → IsKeyed (λ (i : ProcessInstance). i.id) m
    → Keyed (record s { process_instances = m })
with_instances k h = record {
  processes = k.processes;
  instances = h;
  activities = k.activities;
  jobs = k.jobs;
}

with_activities :
    {s : Store} {m : Map Uuid ActivityInstance}
    → Keyed s
    → IsKeyed (λ (a : ActivityInstance). a.id) m
    → Keyed (record s { activity_instances = m })
with_activities k h = record {
  processes = k.processes;
  instances = k.instances;
  activities = h;
  jobs = k.jobs;
}

with_jobs :
    {s : Store} {m : Map Uuid Job}
    → Keyed s
    → IsKeyed (λ (j : Job). j.id) m
    → Keyed (record s { jobs = m })
with_jobs k h = record {
  processes = k.processes;
  instances = k.instances;
  activities = k.activities;
  jobs = h;
}

claim_next_job-Keyed : (t : Time) (s : Store) → Keyed s → Keyed (claim_next_job t s).1
unfolding claim_next_job
claim_next_job-Keyed t s k = elim (List-cases (pending_jobs s)) [
  | inl none_pending ↦ rw (claim_next_job, none_pending) k
  | inr (j, js, some_pending) ↦
      rw (claim_next_job, some_pending) (with_jobs k (insert-IsKeyed _ refl k.jobs))
]

complete_job-Keyed : (t : Time) (id : Uuid) (s : Store) → Keyed s → Keyed (complete_job t id s)
unfolding complete_job
complete_job-Keyed t id s k = elim (Option-cases (lookup id s.jobs)) [
  | inl missing ↦ rw (complete_job, missing) k
  | inr (job, found) ↦
      rw (complete_job, found)
        (with_jobs k (
          insert-IsKeyed _ (lookup-key (λ (j : Job). j.id) id job s.jobs k.jobs.holds found)
            k.jobs))
]

fail_job-Keyed : (id : Uuid) (msg : Message) (s : Store) → Keyed s → Keyed (fail_job id msg s)
unfolding fail_job
fail_job-Keyed id msg s k = elim (Option-cases (lookup id s.jobs)) [
  | inl missing ↦ rw (fail_job, missing) k
  | inr (job, found) ↦
      rw (fail_job, found)
        (with_jobs k (
          insert-IsKeyed _ (lookup-key (λ (j : Job). j.id) id job s.jobs k.jobs.holds found)
            k.jobs))
]

Step-Keyed : {s t : Store} → Step s t → Keyed s → Keyed t
unfolding insert_process_version delete_process create_process_instance create_activity_instance
    update_activity_instance enqueue_job
Step-Keyed {s} (Step.deploys t p) k =
    with_processes k
      (insert-IsKeyed process_key {v = (insert_process_version t p s).0} refl k.processes)
Step-Keyed (Step.deletes tenant key) k = with_processes k (filter-IsKeyed _ _ k.processes)
Step-Keyed {s} (Step.starts new t inst) k =
    with_instances k
      (insert-IsKeyed _ {v = (create_process_instance new t inst s).0} refl k.instances)
Step-Keyed {s} (Step.writes t inst out h) k =
    let (e, f) = update_process_instance-eq-ok t inst s h in
    subst Keyed (sym f)
      (with_instances k (insert-IsKeyed _ (ap (λ (i : ProcessInstance). i.id) e) k.instances))
Step-Keyed {s} (Step.activates new t act) k =
    with_activities k
      (insert-IsKeyed _ {v = (create_activity_instance new t act s).0} refl k.activities)
Step-Keyed (Step.updates act) k = with_activities k (insert-IsKeyed _ refl k.activities)
Step-Keyed {s} (Step.enqueues new t job) k =
    with_jobs k (insert-IsKeyed _ {v = (enqueue_job new t job s).0} refl k.jobs)
Step-Keyed {s} (Step.claims t) k = claim_next_job-Keyed t s k
Step-Keyed {s} (Step.completes t id) k = complete_job-Keyed t id s k
Step-Keyed {s} (Step.fails id msg) k = fail_job-Keyed id msg s k

Reachable-Keyed : {s : Store} → Reachable s → Keyed s
Reachable-Keyed empty = record {
  processes = record { holds = refl };
  instances = record { holds = refl };
  activities = record { holds = refl };
  jobs = record { holds = refl };
}
Reachable-Keyed (then reached step) = Step-Keyed step (Reachable-Keyed reached)

-- A store that the operations reach from the empty one is restored as it was from its own snapshot, whatever
-- stood in the store that the snapshot replaces.
pub restore-snapshot : (s replaced : Store) → Reachable s → restore (snapshot s) replaced ≡ s
unfolding restore snapshot
restore-snapshot s replaced reached =
    let k = Reachable-Keyed reached in
    cc (
      import-export_self process_key s.processes k.processes.holds,
      import-export_self (λ (i : ProcessInstance). i.id) s.process_instances k.instances.holds,
      import-export_self (λ (a : ActivityInstance). a.id) s.activity_instances k.activities.holds,
      import-export_self (λ (j : Job). j.id) s.jobs k.jobs.holds,
    )
