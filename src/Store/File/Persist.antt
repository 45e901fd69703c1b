-- ===== src/Store/File/Persist.antt =====
-- internal/store/filestore/store.go: what persistLocked leaves in the state file is what load reads.
use Prim.Native.String.{◌++◌}
use lowcode_bpmn.Prelude.{String, false, some, ◌≡◌, refl, sym, ap, ◌∙◌, subst, inl, inr}
use lowcode_bpmn.Definition.Expression.{Numerics}
use lowcode_bpmn.Runtime.{Time}
use lowcode_bpmn.Errors.{Error, Result, ok, err, Result-cases}
use lowcode_bpmn.Store.Memory.{Store}
use lowcode_bpmn.Store.Memory.Snapshot.{Snapshot, snapshot, restore}
use lowcode_bpmn.Store.Memory.Snapshot.Restores.{Reachable, restore-snapshot}
use lowcode_bpmn.Store.File.{
  Os, Formats, FileStore, replace_file, persist_locked, stored, load, load_definitions,
}
use lowcode_bpmn.Store.File.Saves.{IsLawful, IsDecoded}

module _ {F D : Type 0} (os : Os F D) (formats : Formats D) (n : Numerics)
    (lawful : IsLawful os formats n) where
  replace_file_failed :
      (path : String) (d : D) (f : F) (e : Error)
      → (os.write_file (path ++ ".tmp") d f).0 ≡ err e
      → (replace_file os formats n path d f).0 ≡ err e
  unfolding replace_file
  replace_file_failed path d f e failed = rw (replace_file, failed) refl

  renamed :
      (path : String) (d : D) (f : F) (done : Unit {0})
      → (os.write_file (path ++ ".tmp") d f).0 ≡ ok done
      → replace_file os formats n path d f
        ≡ os.rename (path ++ ".tmp") path (os.write_file (path ++ ".tmp") d f).1
  unfolding replace_file
  renamed path d f done written = rw (replace_file, written) refl

  -- The file holds what was put in it.
  replace_file-read :
      (path : String) (d : D) (f : F)
      → (replace_file os formats n path d f).0 ≡ ok tt
      → os.read_file path (replace_file os formats n path d f).1 ≡ ok (some d)
  unfolding replace_file
  replace_file-read path d f h = elim (Result-cases (os.write_file (path ++ ".tmp") d f).0) [
    | inl (e, failed) ↦ cc (replace_file_failed path d f e failed, h)
    | inr (done, written) ↦
        let same = renamed path d f done written in
        ap (λ (r : Result (Unit {0}) × F). os.read_file path r.1) same
        ∙ lawful.reads (path ++ ".tmp") path d f written
            (ap (λ (r : Result (Unit {0}) × F). r.0) (sym same) ∙ h)
  ]

  -- What persist_locked does when the snapshot is encoded, and when it is not.
  encoded :
      (s : FileStore F) (d : D)
      → formats.encode (snapshot s.mem) ≡ ok d
      → persist_locked os formats n s ≡ (
        (replace_file os formats n s.file d s.files).0,
        record s { files = (replace_file os formats n s.file d s.files).1 },
      )
  unfolding persist_locked
  encoded s d h = rw (persist_locked, h) refl

  not_encoded :
      (s : FileStore F) (e : Error)
      → formats.encode (snapshot s.mem) ≡ err e
      → (persist_locked os formats n s).0 ≡ err e
  unfolding persist_locked
  not_encoded s e h = rw (persist_locked, h) refl

  loaded :
      (s : FileStore F) (snap : Snapshot) (d : D) (t : Time)
      → os.read_file s.file s.files ≡ ok (some d)
      → formats.no_data d ≡ false
      → formats.decode d ≡ ok snap
      → load os formats n t s
        ≡ load_definitions os formats n t (record s { mem = restore snap s.mem })
  unfolding load
  loaded s snap d t read some_data decoded = rw (load, read, some_data, decoded) refl

  persist_locked-load :
      (s : FileStore F) (mem : Store) (t : Time)
      → Reachable s.mem
      → (persist_locked os formats n s).0 ≡ ok tt
      → IsDecoded os formats n s.mem
      → load os formats n t (record (persist_locked os formats n s).1 { mem = mem })
        ≡ load_definitions os formats n t (persist_locked os formats n s).1
  persist_locked-load s mem t reached h decoded =
      elim (Result-cases (formats.encode (snapshot s.mem))) [
        | inl (e, failed) ↦ cc (not_encoded s e failed, h)
        | inr (d, written) ↦
            let same = encoded s d written in
            let replaced = replace_file os formats n s.file d s.files in
            let read =
              replace_file-read s.file d s.files
                (ap (λ (r : Result (Unit {0}) × FileStore F). r.0) (sym same) ∙ h) in
            let back =
              loaded (record s { files = replaced.1; mem = mem }) (snapshot s.mem) d t read
                (decoded.not_empty d written) (decoded.decodes d written)
              ∙ ap
                  (λ (m : Store).
                    load_definitions os formats n t (record s { files = replaced.1; mem = m }))
                  (restore-snapshot s.mem mem reached) in
            subst
              (λ (r : Result (Unit {0}) × FileStore F).
                load os formats n t (record r.1 { mem = mem })
                ≡ load_definitions os formats n t r.1)
              (sym same) back
      ]

  persist_locked-mem : (s : FileStore F) → (persist_locked os formats n s).1.mem ≡ s.mem
  unfolding persist_locked
  persist_locked-mem s = elim (Result-cases (formats.encode (snapshot s.mem))) [
    | inl (e, failed) ↦ rw (persist_locked, failed) refl
    | inr (d, written) ↦ rw (persist_locked, written) refl
  ]

  stored-persists :
      {A : Type 0} (a : A) (m : Store) (s : FileStore F)
      → (stored os formats n a m s).1 ≡ (persist_locked os formats n (record s { mem = m })).1
  unfolding stored
  stored-persists a m s =
      elim (Result-cases (persist_locked os formats n (record s { mem = m })).0) [
        | inl (e, failed) ↦ rw (stored, failed) refl
        | inr (done, written) ↦ rw (stored, written) refl
      ]

  stored-eq-ok :
      {A : Type 0} (a b : A) (m : Store) (s : FileStore F)
      → (stored os formats n a m s).0 ≡ ok b
      → (persist_locked os formats n (record s { mem = m })).0 ≡ ok tt
  unfolding stored
  stored-eq-ok a b m s h =
      elim (Result-cases (persist_locked os formats n (record s { mem = m })).0) [
        | inl (e, failed) ↦ cc (not_stored a m s e failed, h)
        | inr (done, written) ↦ written
      ]
    where
      not_stored :
          {B : Type 0} (x : B) (k : Store) (r : FileStore F) (e : Error)
          → (persist_locked os formats n (record r { mem = k })).0 ≡ err e
          → (stored os formats n x k r).0 ≡ err e
      not_stored x k r e failed = rw (stored, failed) refl

  pub stored-load :
      {A : Type 0} (a b : A) (m : Store) (s : FileStore F) (mem : Store) (t : Time)
      → Reachable m
      → (stored os formats n a m s).0 ≡ ok b
      → IsDecoded os formats n (stored os formats n a m s).1.mem
      → load os formats n t (record (stored os formats n a m s).1 { mem = mem })
        ≡ load_definitions os formats n t (stored os formats n a m s).1
  stored-load a b m s mem t reached h decoded =
      let here = record s { mem = m } in
      let same = stored-persists a m s in
      let kept = ap (λ (r : FileStore F). r.mem) same ∙ persist_locked-mem here in
      subst
        (λ (r : FileStore F).
          load os formats n t (record r { mem = mem }) ≡ load_definitions os formats n t r)
        (sym same)
        (persist_locked-load here mem t reached (stored-eq-ok a b m s h)
          (subst (IsDecoded os formats n) kept decoded))
