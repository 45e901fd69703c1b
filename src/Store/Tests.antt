-- ===== src/Store/Tests.antt =====
-- The theorems on the stores, on concrete stores.
use Prim.Native.String.{◌++◌}
use lowcode_bpmn.Prelude.{
  String, ℕ, suc, none, some, [], ◌∷◌, ◌≡◌, refl, ◌⊎◌, insert, nat_eq, lookup, All, Memᴰ, leb, true,
}
use lowcode_bpmn.Vars.{end}
use lowcode_bpmn.Runtime.{ProcessInstance, DeployedProcess, Job, JobType, JobStatus, Message}
use lowcode_bpmn.Errors.{ok, err, version_conflict}
use lowcode_bpmn.Store.Memory.{
  Store, new_store, create_process_instance, update_process_instance, get_process_instance,
  pending_jobs, claim_next_job, has_prefix,
}
use lowcode_bpmn.Store.Memory.Locking.{update-then_stale_conflicts, claim_next_job-oldest, claimed}
use lowcode_bpmn.Store.Memory.Listing.{list_processes}
use lowcode_bpmn.Store.Memory.Listing.Covers.{list_processes-covers}
use lowcode_bpmn.Store.Memory.Snapshot.{snapshot, restore}
use lowcode_bpmn.Store.Memory.Snapshot.Restores.{Reachable, Step, restore-snapshot}
use lowcode_bpmn.Engine.Samples.{early_end, instance_of}

abbrev inst : ProcessInstance
inst = instance_of early_end

abbrev store : Store
store = record new_store { process_instances = (7, inst) ∷ [] }

abbrev written : ProcessInstance
written = record inst { updated_at = 5; lock_version = 1 }

first_write :
    update_process_instance 5 inst store
    ≡ ok (written, record store { process_instances = insert 7 written store.process_instances })
unfolding update_process_instance
first_write = refl

update-then_stale_conflicts_example :
    (get_process_instance 7
        (record store { process_instances = insert 7 written store.process_instances })
      ≡ some written)
    × ((written.lock_version ≡ suc inst.lock_version)
        × (update_process_instance 6 inst
              (record store { process_instances = insert 7 written store.process_instances })
            ≡ err version_conflict))
update-then_stale_conflicts_example =
    update-then_stale_conflicts 5 6 inst inst store first_write refl refl

abbrev job : ℕ → ℕ → Job
job id t = record {
  id = id;
  process_instance_id = 7;
  type = JobType.start;
  payload = end;
  status = JobStatus.pending;
  attempts = 0;
  error_msg = Message.blank;
  created_at = t;
  locked_at = none;
  completed_at = none;
}

abbrev queue : Store
queue = record new_store { jobs = (1, job 1 30) ∷ (2, job 2 20) ∷ [] }

claim_next_job-oldest_example :
    ((pending_jobs queue ≡ []) × (claim_next_job 9 queue ≡ (none, queue)))
    ⊎ ((j : Job) × Memᴰ j (pending_jobs queue)
        × All (λ (k : Job). leb j.created_at k.created_at ≡ true) (pending_jobs queue)
        × ((claim_next_job 9 queue).0 ≡ some (claimed 9 j))
        × (lookup j.id (claim_next_job 9 queue).1.jobs ≡ some (claimed 9 j)))
claim_next_job-oldest_example = claim_next_job-oldest 9 queue

-- The younger job stands first in the map.
claims_older : (claim_next_job 9 queue).0 ≡ some (claimed 9 (job 2 20))
unfolding claim_next_job
claims_older = refl

-- Snapshots.
reached_store : Store
unfolding create_process_instance
reached_store = (create_process_instance 9 5 inst new_store).1

reached : Reachable reached_store
unfolding reached_store
reached = Reachable.then Reachable.empty (Step.starts 9 5 inst)

restore-snapshot_example : restore (snapshot reached_store) store ≡ reached_store
restore-snapshot_example = restore-snapshot reached_store store reached

-- Lists of processes.
abbrev version : ℕ → DeployedProcess
version n = record {
  tenant_id = "t";
  key = "k";
  version = n;
  name = "";
  definition = early_end;
  created_at = 1;
  updated_at = 1;
}

abbrev versions : Store
versions = record new_store { processes = ("t/k/v2", version 2) ∷ ("t/k/v1", version 1) ∷ [] }

prefixed : has_prefix ("t" ++ "/") "t/k/v1" ≡ true
unfolding has_prefix
prefixed = refl

list_processes-covers_example :
    (q : DeployedProcess) × Memᴰ q (list_processes "t" versions)
    × (q.key ≡ "k")
    × (leb 1 q.version ≡ true)
    × ((j : String) × Memᴰ (j, q) versions.processes × (has_prefix "t/" j ≡ true))
list_processes-covers_example =
    list_processes-covers "t" "t/k/v1" (version 1) versions (Memᴰ.tail (Memᴰ.head refl)) prefixed
