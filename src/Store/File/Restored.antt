-- ===== src/Store/File/Restored.antt =====
-- internal/store/filestore/process_xml.go: what reading the XML definitions leaves as it was.
use lowcode_bpmn.Prelude.{
  String, string_eq, some, List, [], ◌∷◌, ◌==◌, ◌≡◌, refl, subst, ◌∙◌, Map, lookup, insert,
  lookup-insert, Bool-cases, Option-cases, inl, inr, arith,
}
use lowcode_bpmn.Text.{split}
use lowcode_bpmn.Codec.Read.{strip_suffix, parse}
use lowcode_bpmn.Definition.Expression.{Numerics}
use lowcode_bpmn.Runtime.{DeployedProcess, Time}
use lowcode_bpmn.Errors.{Result, ok, err, Result-cases, ok-injective}
use lowcode_bpmn.Store.Memory.{insert_process_version}
use lowcode_bpmn.Store.File.{
  Os, Formats, FileStore, loaded_process, load_definition, at_file, load_files, load_definitions,
  version_of, last_of, processes_root,
}

-- The processes may have changed, and each is still there.
pub record Restored {F : Type 0} (r out : FileStore F) : Type 0 where
  pub same_dir : out.dir ≡ r.dir
  pub same_file : out.file ≡ r.file
  pub same_files : out.files ≡ r.files
  pub instances : out.mem.process_instances ≡ r.mem.process_instances
  pub activities : out.mem.activity_instances ≡ r.mem.activity_instances
  pub jobs : out.mem.jobs ≡ r.mem.jobs
  pub versions :
      (k : String) (p : DeployedProcess)
      → lookup k r.mem.processes ≡ some p
      → (q : DeployedProcess) × (lookup k out.mem.processes ≡ some q)

module _ {F D : Type 0} (os : Os F D) (formats : Formats D) (n : Numerics) where
  Restored-self : (r : FileStore F) → Restored r r
  Restored-self r = record {
    same_dir = refl;
    same_file = refl;
    same_files = refl;
    instances = refl;
    activities = refl;
    jobs = refl;
    versions = λ k p h. (p, h);
  }

  Restored-trans : {r mid out : FileStore F} → Restored r mid → Restored mid out → Restored r out
  Restored-trans a b = record {
    same_dir = b.same_dir ∙ a.same_dir;
    same_file = b.same_file ∙ a.same_file;
    same_files = b.same_files ∙ a.same_files;
    instances = b.instances ∙ a.instances;
    activities = b.activities ∙ a.activities;
    jobs = b.jobs ∙ a.jobs;
    versions = λ k p h. let (q, found) = a.versions k p h in b.versions k q found;
  }

  kept_version :
      (j k : String) (q p : DeployedProcess) (m : Map String DeployedProcess)
      → lookup k m ≡ some p
      → (x : DeployedProcess) × (lookup k (insert j q m) ≡ some x)
  kept_version j k q p m h = elim (Bool-cases (j == k)) [
    | inl same ↦ (q, ground (arith, lookup-insert k j q m))
    | inr other ↦ (p, ground (arith, lookup-insert k j q m))
  ]

  inserted-Restored :
      (t : Time) (p : DeployedProcess) (r : FileStore F)
      → Restored r (record r { mem = (insert_process_version t p r.mem).1 })
  unfolding insert_process_version
  inserted-Restored t p r = record {
    same_dir = refl;
    same_file = refl;
    same_files = refl;
    instances = refl;
    activities = refl;
    jobs = refl;
    versions = λ k q h. kept_version _ k _ q r.mem.processes h;
  }

  -- What holds of the result, if there is one.
  abbrev IfOk : (FileStore F → Type 0) → Result (FileStore F) → Type 0
  IfOk P (err e) = Unit
  IfOk P (ok out) = P out

  load_definition-Restored :
      (t : Time) (path tenant key : String) (version : Prim.Native.Nat.ℕ) (r : FileStore F)
      → IfOk (Restored r) (load_definition os formats n t path tenant key version r)
  unfolding load_definition
  load_definition-Restored t path tenant key version r =
      elim (Result-cases (os.read_file path r.files)) [
        | inl (e, failed) ↦ rw (load_definition, failed) tt
        | inr (o, read) ↦ elim (Option-cases o) [
          | inl missing ↦ rw (load_definition, read, missing) tt
          | inr (raw, found) ↦ elim (Result-cases (parse formats.xml raw)) [
            | inl (e, failed) ↦ rw (load_definition, read, found, failed) tt
            | inr (def, parsed) ↦
                rw (load_definition, read, found, parsed)
                  (inserted-Restored t (loaded_process os formats n tenant key version def) r)
          ]
        ]
      ]

  at_path-Restored :
      (t : Time) (rel : String) (r : FileStore F) (parts : List String)
      → (suffix : String) → strip_suffix ".bpmn20.xml" rel ≡ some suffix
      → split b'/' rel ≡ parts
      → IfOk (Restored r) (at_file os formats n t rel r)
  unfolding at_file
  at_path-Restored t rel r [] suffix e h = rw (at_file, e, h) (Restored-self r)
  at_path-Restored t rel r (tenant ∷ []) suffix e h = rw (at_file, e, h) (Restored-self r)
  at_path-Restored t rel r (tenant ∷ key ∷ []) suffix e h = rw (at_file, e, h) (Restored-self r)
  at_path-Restored t rel r (tenant ∷ key ∷ base ∷ more) suffix e h =
      elim (Option-cases (version_of os formats n (last_of base more))) [
        | inl unnumbered ↦ rw (at_file, e, h, unnumbered) (Restored-self r)
        | inr (version, numbered) ↦
            rw (at_file, e, h, numbered) (load_definition-Restored t _ tenant key version r)
      ]

  at_file-Restored :
      (t : Time) (rel : String) (r : FileStore F) → IfOk (Restored r) (at_file os formats n t rel r)
  unfolding at_file
  at_file-Restored t rel r = elim (Option-cases (strip_suffix ".bpmn20.xml" rel)) [
    | inl other ↦ rw (at_file, other) (Restored-self r)
    | inr (suffix, e) ↦ at_path-Restored t rel r (split b'/' rel) suffix e refl
  ]

  load_files-Restored :
      (t : Time) (files : List (Result String)) (r out : FileStore F)
      → load_files os formats n t files r ≡ ok out
      → Restored r out
  unfolding load_files
  load_files-Restored t [] r out h = subst (Restored r) (ok-injective h) (Restored-self r)
  load_files-Restored t (err e ∷ files) r out h = cc
  load_files-Restored t (ok rel ∷ files) r out h =
      elim (Result-cases (at_file os formats n t rel r)) [
        | inl (e, failed) ↦ ground arith
        | inr (mid, read) ↦
            let later : load_files os formats n t files mid ≡ ok out = ground arith in
            Restored-trans (subst (IfOk (Restored r)) read (at_file-Restored t rel r))
              (load_files-Restored t files mid out later)
      ]

  pub load_definitions-Restored :
      (t : Time) (r out : FileStore F) → load_definitions os formats n t r ≡ ok out → Restored r out
  unfolding load_definitions
  load_definitions-Restored t r out h =
      let root = processes_root os formats n r.dir in
      elim (Bool-cases (os.exists root r.files)) [
        | inl there ↦ load_files-Restored t (os.walk_dir root r.files) r out (ground arith)
        | inr absent ↦
            let same : r ≡ out = ok-injective (ground arith) in
            subst (Restored r) same (Restored-self r)
      ]
