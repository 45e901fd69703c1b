-- ===== src/Store/File.antt =====
-- internal/store/filestore: the memory store with its snapshot in a file, and the process definitions as XML
-- beside it (store.go, process_xml.go). The operating system, the YAML library and the library for XML are
-- parameters; a reading operation is that of the memory store. A file name with a negative version, which the
-- store never writes, is passed over.
pub mod Restored
pub mod Saves
pub mod Persist
pub mod Durable
mod Tests
use Prim.Native.String.{◌++◌}
use lowcode_bpmn.Prelude.{
  ℕ, String, string_eq, Bool, true, false, Option, none, some, List, [], ◌∷◌, ◌==◌, ℤ,
  if◌then◌else◌,
}
use lowcode_bpmn.Text.{is_empty, strip_prefix, split}
use lowcode_bpmn.Vars.{end}
use lowcode_bpmn.Definition.Model.{ProcessDefinition}
use lowcode_bpmn.Definition.Expression.{Numerics}
use lowcode_bpmn.Runtime.{
  ProcessInstance, ActivityInstance, DeployedProcess, Job, Message, Time, Uuid,
}
use lowcode_bpmn.Errors.{Error, Result, ok, err, no_file}
use lowcode_bpmn.Codec.{Xml}
use lowcode_bpmn.Codec.Read.{strip_suffix, parse}
use lowcode_bpmn.Codec.Write.{marshal}
use lowcode_bpmn.Store.Memory.{
  Store, new_store, itoa, insert_process_version, delete_process, create_process_instance,
  update_process_instance, create_activity_instance, update_activity_instance, enqueue_job,
  claim_next_job, complete_job, fail_job,
}
use lowcode_bpmn.Store.Memory.Snapshot.{Snapshot, snapshot, restore}

-- The calls of os and path/filepath on files of the type `F` that hold values of the type `D`. A missing file
-- reads as none; the walk lists the paths of the files, relative to its root, and stops at an error.
pub record Os (F D : Type 0) : Type 0 where
  pub mkdir_all : String → F → Result (Unit {0}) × F
  pub write_file : String → D → F → Result (Unit {0}) × F
  pub rename : String → String → F → Result (Unit {0}) × F
  pub remove_all : String → F → Result (Unit {0}) × F
  pub read_file : String → F → Result (Option D)
  pub exists : String → F → Bool
  pub walk_dir : String → F → List (Result String)
  pub join : List String → String

-- yaml.Marshal and yaml.Unmarshal, and encoding/xml.
pub record Formats (D : Type 0) : Type 0 where
  pub no_data : D → Bool
  pub encode : Snapshot → Result D
  pub decode : D → Result Snapshot
  pub xml : Xml D

pub record FileStore (F : Type 0) : Type 0 where
  pub dir : String
  pub file : String
  pub mem : Store
  pub files : F

abbrev pub or_other : String → Option String → String
or_other s none = s
or_other s (some t) = t

abbrev pub last_of : String → List String → String
last_of s [] = s
last_of s (t ∷ l) = last_of t l

-- `if err != nil { return err }`, with what was written before.
abbrev pub unless_failed :
    {F A T : Type 0}
    → Result T
    → FileStore F
    → (T → Result A × FileStore F)
    → Result A × FileStore F
unless_failed (err e) s next = (err e, s)
unless_failed (ok x) s next = next x

module _ {F D : Type 0} (os : Os F D) (formats : Formats D) (n : Numerics) where
  -- os.WriteFile to the temporary path, then os.Rename.
  unfoldable pub replace_file : String → D → F → Result (Unit {0}) × F
  replace_file path bytes f =
      let written = os.write_file (path ++ ".tmp") bytes f in
      elim written.0 [
        | err e ↦ (err e, written.1)
        | ok _ ↦ os.rename (path ++ ".tmp") path written.1
      ]

  unfoldable pub persist_locked : FileStore F → Result (Unit {0}) × FileStore F
  unfolding replace_file snapshot
  persist_locked s = elim (formats.encode (snapshot s.mem)) [
    | err e ↦ (err e, s)
    | ok bytes ↦
        let replaced = replace_file s.file bytes s.files in
        (replaced.0, record s { files = replaced.1 })
  ]

  -- The write of a result in memory, then of the file.
  unfoldable pub stored : {A : Type 0} → A → Store → FileStore F → Result A × FileStore F
  unfolding persist_locked
  stored a mem s =
      let persisted = persist_locked (record s { mem = mem }) in
      elim persisted.0 [ err e ↦ (err e, persisted.1) | ok _ ↦ (ok a, persisted.1) ]

  unfoldable pub processes_root : String → String
  processes_root dir = os.join (dir ∷ "processes" ∷ [])

  unfoldable pub process_version_path : String → String → String → ℕ → String
  unfolding processes_root itoa
  process_version_path dir tenant key version =
      os.join (processes_root dir ∷ tenant ∷ key ∷ ("v" ++ itoa version ++ ".bpmn20.xml") ∷ [])

  -- filepath.Dir of the path of a version.
  unfoldable pub write_process_xml : DeployedProcess → FileStore F → Result (Unit {0}) × FileStore F
  unfolding process_version_path processes_root replace_file marshal
  write_process_xml p s =
      let made = os.mkdir_all (os.join (processes_root s.dir ∷ p.tenant_id ∷ p.key ∷ [])) s.files in
      elim made.0 [
        | err e ↦ (err e, record s { files = made.1 })
        | ok _ ↦ elim (marshal n formats.xml p.definition) [
          | err e ↦ (err e, record s { files = made.1 })
          | ok bytes ↦
              let path = process_version_path s.dir p.tenant_id p.key p.version in
              let replaced = replace_file path bytes made.1 in
              (replaced.0, record s { files = replaced.1 })
        ]
      ]

  unfoldable pub delete_process_xml :
      String → String → FileStore F → Result (Unit {0}) × FileStore F
  unfolding processes_root
  delete_process_xml tenant key s =
      let removed = os.remove_all (os.join (processes_root s.dir ∷ tenant ∷ key ∷ [])) s.files in
      (removed.0, record s { files = removed.1 })

  -- The operations that write, each with what it gives back.
  unfoldable pub save_version :
      Time → DeployedProcess → FileStore F → Result DeployedProcess × FileStore F
  unfolding insert_process_version write_process_xml stored
  save_version now p s =
      let (p', mem) = insert_process_version now p s.mem in
      let written = write_process_xml p' (record s { mem = mem }) in
      unless_failed written.0 written.1 (λ _. stored p' mem written.1)

  unfoldable pub drop_versions : String → String → FileStore F → Result (Unit {0}) × FileStore F
  unfolding delete_process delete_process_xml persist_locked
  drop_versions tenant key s =
      let mem = delete_process tenant key s.mem in
      let removed = delete_process_xml tenant key (record s { mem = mem }) in
      unless_failed removed.0 removed.1 (λ _. stored tt mem removed.1)

  unfoldable pub save_new_instance :
      Uuid → Time → ProcessInstance → FileStore F → Result ProcessInstance × FileStore F
  unfolding create_process_instance stored
  save_new_instance new now inst s =
      let (inst', mem) = create_process_instance new now inst s.mem in stored inst' mem s

  unfoldable pub save_instance :
      Time → ProcessInstance → FileStore F → Result ProcessInstance × FileStore F
  unfolding update_process_instance stored
  save_instance now inst s =
      unless_failed (update_process_instance now inst s.mem) s
        (λ written. stored written.0 written.1 s)

  unfoldable pub save_new_activity :
      Uuid → Time → ActivityInstance → FileStore F → Result ActivityInstance × FileStore F
  unfolding create_activity_instance stored
  save_new_activity new now act s =
      let (act', mem) = create_activity_instance new now act s.mem in stored act' mem s

  unfoldable pub save_activity : ActivityInstance → FileStore F → Result (Unit {0}) × FileStore F
  unfolding update_activity_instance stored
  save_activity act s = stored tt (update_activity_instance act s.mem) s

  unfoldable pub save_job : Uuid → Time → Job → FileStore F → Result Job × FileStore F
  unfolding enqueue_job stored
  save_job new now job s = let (job', mem) = enqueue_job new now job s.mem in stored job' mem s

  -- Nothing is written when no job is pending.
  abbrev pub unless_idle : Option Job → Store → FileStore F → Result (Option Job) × FileStore F
  unless_idle none mem s = (ok none, s)
  unless_idle (some job) mem s = stored (some job) mem s

  unfoldable pub save_claim : Time → FileStore F → Result (Option Job) × FileStore F
  unfolding claim_next_job stored
  save_claim now s = unless_idle (claim_next_job now s.mem).0 (claim_next_job now s.mem).1 s

  unfoldable pub save_completion : Time → Uuid → FileStore F → Result (Unit {0}) × FileStore F
  unfolding complete_job stored
  save_completion now id s = stored tt (complete_job now id s.mem) s

  unfoldable pub save_failure : Uuid → Message → FileStore F → Result (Unit {0}) × FileStore F
  unfolding fail_job stored
  save_failure id msg s = stored tt (fail_job id msg s.mem) s

  -- `WithTx`: what the body wrote to memory stays when it fails.
  unfoldable pub in_transaction :
      (Store → Result (Unit {0}) × Store) → FileStore F → Result (Unit {0}) × FileStore F
  unfolding stored
  in_transaction body s =
      let done = body s.mem in
      unless_failed done.0 (record s { mem = done.1 }) (λ _. stored tt done.1 s)

  -- The version that a file name holds.
  unfoldable pub version_of : String → Option ℕ
  unfolding strip_suffix strip_prefix
  version_of base =
      let stem = or_other base (strip_suffix ".bpmn20.xml" base) in
      elim (n.atoi (or_other stem (strip_prefix "v" stem))) [
        | none ↦ none
        | some v ↦ elim v [ ℤ.pos k ↦ some k | ℤ.negsuc k ↦ none ]
      ]

  abbrev pub loaded_process : String → String → ℕ → ProcessDefinition → DeployedProcess
  loaded_process tenant key version def = record {
    tenant_id = tenant;
    key = key;
    version = version;
    name = def.name;
    definition = def;
    created_at = 0;
    updated_at = 0;
  }

  -- The definition of one file, over what the memory holds.
  unfoldable pub load_definition :
      Time → String → String → String → ℕ → FileStore F → Result (FileStore F)
  unfolding parse insert_process_version
  load_definition now path tenant key version s = elim (os.read_file path s.files) [
    | err e ↦ err e
    | ok none ↦ err no_file
    | ok (some raw) ↦ elim (parse formats.xml raw) [
      | err e ↦ err e
      | ok def ↦
          let (p, mem) = insert_process_version now (loaded_process tenant key version def) s.mem in
          ok (record s { mem = mem })
    ]
  ]

  -- The function that the walk calls at a file.
  unfoldable pub at_file : Time → String → FileStore F → Result (FileStore F)
  unfolding strip_suffix split version_of load_definition processes_root
  at_file now rel s = elim (strip_suffix ".bpmn20.xml" rel) [
    | none ↦ ok s
    | some _ ↦ elim (split b'/' rel) [
      | tenant ∷ (key ∷ (base ∷ more)) ↦ elim (version_of (last_of base more)) [
        | none ↦ ok s
        | some version ↦
            load_definition now (os.join (processes_root s.dir ∷ rel ∷ [])) tenant key version s
      ]
      | _ ↦ ok s
    ]
  ]

  unfoldable pub load_files : Time → List (Result String) → FileStore F → Result (FileStore F)
  unfolding at_file
  load_files now [] s = ok s
  load_files now (err e ∷ l) s = err e
  load_files now (ok rel ∷ l) s = elim (at_file now rel s) [
    | err e ↦ err e
    | ok t ↦ load_files now l t
  ]

  unfoldable pub load_definitions : Time → FileStore F → Result (FileStore F)
  unfolding load_files processes_root
  load_definitions now s =
      let root = processes_root s.dir in
      if os.exists root s.files then load_files now (os.walk_dir root s.files) s else ok s

  unfoldable pub load : Time → FileStore F → Result (FileStore F)
  unfolding load_definitions restore
  load now s = elim (os.read_file s.file s.files) [
    | err e ↦ err e
    | ok none ↦ ok s
    | ok (some bytes) ↦ if formats.no_data bytes then ok s else elim (formats.decode bytes) [
      | err e ↦ err e
      | ok snap ↦ load_definitions now (record s { mem = restore snap s.mem })
    ]
  ]

  unfoldable pub open_store : Time → String → F → Result (FileStore F) × F
  unfolding load
  open_store now given files =
      let dir = if is_empty given then "./data" else given in
      let made = os.mkdir_all dir files in
      elim made.0 [
        | err e ↦ (err e, made.1)
        | ok _ ↦ (
          load now (record {
            dir = dir;
            file = os.join (dir ∷ "state.yaml" ∷ []);
            mem = new_store;
            files = made.1;
          }),
          made.1,
        )
      ]
