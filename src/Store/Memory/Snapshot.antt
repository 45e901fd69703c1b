-- ===== src/Store/Memory/Snapshot.antt =====
-- internal/store/memory/snapshot.go: the export of a store and its import. The maps of a store list each key
-- once; `restore` drops what the store held.
pub mod RoundTrip
pub mod Restores
use lowcode_bpmn.Prelude.{
  String, string_eq, nat_eq, List, [], ◌∷◌, map, ◌==◌, Map, insert, lookup, Eq,
}
use lowcode_bpmn.Runtime.{ActivityInstance, ProcessInstance, DeployedProcess, Job, Uuid}
use lowcode_bpmn.Store.Memory.{Store, versioned_process_key}

pub record Snapshot : Type 0 where
  pub processes : List DeployedProcess
  pub process_instances : List ProcessInstance
  pub activity_instances : List ActivityInstance
  pub jobs : List Job

-- The loop that appends a copy of each record of a map.
unfoldable pub export {ℓ κ} : {K : Type ℓ} {V : Type κ} → Map K V → List V
export [] = []
export ((k, v) ∷ m) = v ∷ export m

unfoldable pub snapshot : Store → Snapshot
unfolding export
snapshot s = record {
  processes = export s.processes;
  process_instances = export s.process_instances;
  activity_instances = export s.activity_instances;
  jobs = export s.jobs;
}

module _ {ℓ κ} {K : Type ℓ} {V : Type κ} ⦃e : Eq K⦄ (key : V → K) where
  -- The loop that puts each record under its key.
  unfoldable pub import_onto : Map K V → List V → Map K V
  unfolding insert
  import_onto m [] = m
  import_onto m (v ∷ l) = import_onto (insert (key v) v m) l

abbrev pub process_key : DeployedProcess → String
process_key p = versioned_process_key p.tenant_id p.key p.version

unfoldable pub restore : Snapshot → Store → Store
unfolding import_onto versioned_process_key
restore snap s = record {
  processes = import_onto process_key [] snap.processes;
  process_instances = import_onto (λ (i : ProcessInstance). i.id) [] snap.process_instances;
  activity_instances = import_onto (λ (a : ActivityInstance). a.id) [] snap.activity_instances;
  jobs = import_onto (λ (j : Job). j.id) [] snap.jobs;
}
