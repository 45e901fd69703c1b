-- ===== src/Store/File/Saves.antt =====
-- internal/store/filestore: the operations that write and succeed, and what they rely on.
use lowcode_bpmn.Prelude.{String, false, some, ◌≡◌}
use lowcode_bpmn.Definition.Expression.{Numerics}
use lowcode_bpmn.Runtime.{
  ProcessInstance, ActivityInstance, DeployedProcess, Job, Message, Time, Uuid,
}
use lowcode_bpmn.Errors.{Result, ok}
use lowcode_bpmn.Store.Memory.{Store}
use lowcode_bpmn.Store.Memory.Snapshot.{snapshot}
use lowcode_bpmn.Store.Memory.Snapshot.Restores.{Reachable}
use lowcode_bpmn.Store.File.{
  Os, Formats, FileStore, save_version, drop_versions, save_new_instance, save_instance,
  save_new_activity, save_activity, save_job, save_claim, save_completion, save_failure,
  in_transaction,
}

module _ {F D : Type 0} (os : Os F D) (formats : Formats D) (n : Numerics) where
  -- A file that was written under another name and renamed is read as it was written.
  pub record IsLawful : Type 0 where
    pub reads :
        (tmp path : String) (d : D) (f : F)
        → (os.write_file tmp d f).0 ≡ ok tt
        → (os.rename tmp path (os.write_file tmp d f).1).0 ≡ ok tt
        → os.read_file path (os.rename tmp path (os.write_file tmp d f).1).1 ≡ ok (some d)

  -- YAML keeps the snapshot of this memory: the text that it is encoded to is not empty and is decoded to it.
  pub record IsDecoded (m : Store) : Type 0 where
    pub decodes : (d : D) → formats.encode (snapshot m) ≡ ok d → formats.decode d ≡ ok (snapshot m)
    pub not_empty : (d : D) → formats.encode (snapshot m) ≡ ok d → formats.no_data d ≡ false

  -- One rule for each operation that writes and gives no error.
  pub data Saves (s : FileStore F) : FileStore F → Type 0 where
    deploys :
        (t : Time) (p out : DeployedProcess)
        → (save_version os formats n t p s).0 ≡ ok out
        → Saves s (save_version os formats n t p s).1
    deletes :
        (tenant key : String)
        → (drop_versions os formats n tenant key s).0 ≡ ok tt
        → Saves s (drop_versions os formats n tenant key s).1
    starts :
        (new : Uuid) (t : Time) (inst out : ProcessInstance)
        → (save_new_instance os formats n new t inst s).0 ≡ ok out
        → Saves s (save_new_instance os formats n new t inst s).1
    writes :
        (t : Time) (inst out : ProcessInstance)
        → (save_instance os formats n t inst s).0 ≡ ok out
        → Saves s (save_instance os formats n t inst s).1
    activates :
        (new : Uuid) (t : Time) (act out : ActivityInstance)
        → (save_new_activity os formats n new t act s).0 ≡ ok out
        → Saves s (save_new_activity os formats n new t act s).1
    updates :
        (act : ActivityInstance)
        → (save_activity os formats n act s).0 ≡ ok tt
        → Saves s (save_activity os formats n act s).1
    enqueues :
        (new : Uuid) (t : Time) (job out : Job)
        → (save_job os formats n new t job s).0 ≡ ok out
        → Saves s (save_job os formats n new t job s).1
    claims :
        (t : Time) (job : Job)
        → (save_claim os formats n t s).0 ≡ ok (some job)
        → Saves s (save_claim os formats n t s).1
    completes :
        (t : Time) (id : Uuid)
        → (save_completion os formats n t id s).0 ≡ ok tt
        → Saves s (save_completion os formats n t id s).1
    fails :
        (id : Uuid) (msg : Message)
        → (save_failure os formats n id msg s).0 ≡ ok tt
        → Saves s (save_failure os formats n id msg s).1
    transacts :
        (body : Store → Result (Unit {0}) × Store)
        → Reachable (body s.mem).1
        → (in_transaction os formats n body s).0 ≡ ok tt
        → Saves s (in_transaction os formats n body s).1
