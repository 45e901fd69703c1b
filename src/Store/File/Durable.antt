-- ===== src/Store/File/Durable.antt =====
-- internal/store/filestore: a store that is opened again after a write.
use lowcode_bpmn.Prelude.{◌≡◌}
use lowcode_bpmn.Definition.Expression.{Numerics}
use lowcode_bpmn.Runtime.{Time}
use lowcode_bpmn.Store.Memory.{Store}
use lowcode_bpmn.Store.File.Restored.{Restored}
use lowcode_bpmn.Store.File.{Os, Formats, FileStore, load, load_definitions}
use lowcode_bpmn.Store.File.Saves.{IsLawful, IsDecoded, Saves}

module _ {F D : Type 0} (os : Os F D) (formats : Formats D) (n : Numerics)
    (lawful : IsLawful os formats n) where
  -- Opened again, with whatever the memory holds before.
  abbrev Reloads : FileStore F → Type 0
  Reloads r =
      (mem : Store) (t : Time)
      → IsDecoded os formats n r.mem
      → load os formats n t (record r { mem = mem }) ≡ load_definitions os formats n t r
