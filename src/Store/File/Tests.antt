-- ===== src/Store/File/Tests.antt =====
-- The theorem on the file store, with files that are an association list of their paths.
use Prim.Native.String.{◌++◌}
use lowcode_bpmn.Prelude.{
  String, string_eq, ◌==◌, Bool, true, false, not, filter, Option, none, some, List, [], ◌∷◌, Map,
  lookup, insert, ◌≡◌, refl, ℤ, if◌then◌else◌,
}
use lowcode_bpmn.Text.{strip_prefix}
use lowcode_bpmn.Definition.Expression.{Numerics}
use lowcode_bpmn.Runtime.{DeployedProcess}
use lowcode_bpmn.Errors.{Result, ok, err, no_file}
use lowcode_bpmn.Codec.{XmlDefinitions}
use lowcode_bpmn.Codec.RoundTrip.Carried.{erased}
use lowcode_bpmn.Store.Memory.{new_store, get_process, insert_process_version}
use lowcode_bpmn.Store.Memory.Snapshot.{Snapshot}
use lowcode_bpmn.Store.File.{
  Os, Formats, FileStore, replace_file, persist_locked, stored, write_process_xml, save_version,
  load, load_definitions,
}
use lowcode_bpmn.Store.File.Restored.{Restored}
use lowcode_bpmn.Store.File.Saves.{Saves}
use lowcode_bpmn.Engine.Samples.{program, early_end, numerics}

-- The texts of a snapshot and of a definition; neither is read as the other.
data Content : Type 0 where
  yaml : Snapshot → Content
  xml : XmlDefinitions → Content

abbrev Files : Type 0
Files = Map String Content

abbrev slashed : List String → String
slashed [] = ""
slashed (s ∷ []) = s
slashed (s ∷ t ∷ l) = s ++ "/" ++ slashed (t ∷ l)

abbrev moved : String → Option Content → Files → Result (Unit {0}) × Files
moved to none f = (err no_file, f)
moved to (some c) f = (ok tt, insert to c f)

abbrev below : String → Files → List (Result String)
below root [] = []
below root ((k, c) ∷ f) = elim (strip_prefix (root ++ "/") k) [
  | none ↦ below root f
  | some rel ↦ ok rel ∷ below root f
]

abbrev is_some : List (Result String) → Bool
is_some [] = false
is_some (x ∷ l) = true

abbrev disk : Os Files Content
disk = record {
  mkdir_all = λ path f. (ok tt, f);
  write_file = λ path d f. (ok tt, insert path d f);
  rename = λ from to f.
      moved to (lookup from f) (filter (λ (e : String × Content). not (e.0 == from)) f);
  remove_all = λ path f. (ok tt, f);
  read_file = λ path f. ok (lookup path f);
  exists = λ path f. is_some (below path f);
  walk_dir = below;
  join = slashed;
}

abbrev read_yaml : Content → Result Snapshot
read_yaml (yaml s) = ok s
read_yaml (xml root) = err no_file

abbrev read_xml : Content → Result XmlDefinitions
read_xml (yaml s) = err no_file
read_xml (xml root) = ok (erased root)

abbrev formats : Formats Content
formats = record {
  no_data = λ d. false;
  encode = λ s. ok (yaml s);
  decode = read_yaml;
  xml = record { encode = λ root. ok (xml root); decode = read_xml };
}

abbrev numbers : Numerics
numbers = record numerics { atoi = λ s. if s == "1" then some (ℤ.pos 1) else none }

abbrev fresh : FileStore Files
fresh = record { dir = "data"; file = "data/state.yaml"; mem = new_store; files = [] }

abbrev deployed : DeployedProcess
deployed = record {
  tenant_id = "acme";
  key = "leave";
  version = 0;
  name = "Leave request";
  definition = early_end;
  created_at = 0;
  updated_at = 0;
}

saved : Result DeployedProcess × FileStore Files
unfolding save_version insert_process_version write_process_xml stored persist_locked replace_file
    program
saved = save_version disk formats numbers 1 deployed fresh

abbrev or_deployed : Result DeployedProcess → DeployedProcess
or_deployed (ok p) = p
or_deployed (err e) = deployed

abbrev after : FileStore Files
after = (save_version disk formats numbers 1 deployed fresh).1

name_of : Result (FileStore Files) → String
unfolding get_process
name_of (err e) = "failed"
name_of (ok s) = elim (get_process "acme" "leave" s.mem) [ none ↦ "none" | some p ↦ p.name ]

-- The store that is opened again has the process, without the name that it was deployed with.
reopened : name_of (load disk formats numbers 9 (record saved.1 { mem = new_store })) ≡ ""
unfolding name_of saved load load_definitions
reopened = refl
