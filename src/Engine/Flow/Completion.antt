-- ===== src/Engine/Flow/Completion.antt =====
-- internal/engine/engine.go: when `tryCompleteProcess` ends an instance.
use lowcode_bpmn.Prelude.{
  ltb, Bool, true, false, ◌||◌, [], length, suc, ap, Bool-cases, inl, inr, insert, ◌∙◌, nat_eq, ◌≡◌,
  refl, some, if◌then◌else◌,
}
use lowcode_bpmn.Definition.Registry.{Registry}
use lowcode_bpmn.Errors.{Result, ok, err}
use lowcode_bpmn.Runtime.{ProcessInstance, ProcessInstanceStatus}
use lowcode_bpmn.Store.Memory.Locking.{update-at_version}
use lowcode_bpmn.Store.Memory.{Store, list_active_activities}
use lowcode_bpmn.Engine.State.{
  World, Exec, M, gets, ◌>>=◌, done, set_completed, modify_inst, now, update_instance, list_active,
}
use lowcode_bpmn.Engine.Advances.{Synced}
use lowcode_bpmn.Engine.Flow.{try_complete_process, complete_instance}

-- An activity of the instance in the store is active, or an element of it waits.
abbrev pub is_busy : Exec → Bool
is_busy s =
    ltb 0 (length (list_active_activities s.inst.id s.store))
    || ltb 0 (length s.inst.active_elements)

if_apply :
    {A : Type 0} (b : Bool) (m n : M A) (s : Exec)
    → (if b then m else n) s ≡ (if b then m s else n s)
if_apply true m n s = refl
if_apply false m n s = refl

-- The instance as it is stored when it completes.
abbrev pub ended : World → Exec → ProcessInstance
ended w s = record (s.inst) {
  status = ProcessInstanceStatus.completed;
  ended_at = some (w.time_now s.readings);
  updated_at = w.time_now (suc s.readings);
  active_elements = [];
  lock_version = suc s.inst.lock_version;
}

module _ (w : World) (reg : Registry) where
  complete_instance_lem :
      (s : Exec)
      → Synced s
      → complete_instance w reg s ≡ (
        ok tt,
        record s {
          inst = ended w s;
          store = record (s.store) {
            process_instances = insert s.inst.id (ended w s) s.store.process_instances;
          };
          readings = suc (suc s.readings);
        },
      )
  unfolding complete_instance now set_completed modify_inst update_instance Synced ◌>>=◌
  complete_instance_lem s (held, found, version) = ap (stored s) (
      update-at_version (w.time_now (suc s.readings))
        (record (s.inst) {
          status = ProcessInstanceStatus.completed;
          ended_at = some (w.time_now s.readings);
          updated_at = w.time_now s.readings;
          active_elements = [];
        })
        s.store held found version)
    where
      stored : Exec → Result (ProcessInstance × Store) → Result (Unit {0}) × Exec
      stored s r = elim r [
        | err e ↦ (
          err e,
          record s {
            inst = record (s.inst) {
              status = ProcessInstanceStatus.completed;
              ended_at = some (w.time_now s.readings);
              updated_at = w.time_now s.readings;
              active_elements = [];
            };
            readings = suc s.readings;
          },
        )
        | ok written ↦ (
          ok tt,
          record s { inst = written.0; store = written.1; readings = suc (suc s.readings) },
        )
      ]

  -- With the version that the store holds, `tryCompleteProcess` always succeeds. While an activity of the
  -- instance is active or an element of it waits, it changes nothing; otherwise the instance has ended as
  -- completed at the time read, no element waits, and the store holds it so, one version further, all
  -- else as before.
  pub try_complete_process_lem :
      (s : Exec)
      → Synced s
      → try_complete_process w reg s ≡ (
        ok tt,
        (if is_busy s then s else record s {
          inst = ended w s;
          store = record (s.store) {
            process_instances = insert s.inst.id (ended w s) s.store.process_instances;
          };
          readings = suc (suc s.readings);
        }),
      )
  unfolding try_complete_process list_active gets done ◌>>=◌
  try_complete_process_lem s synced = elim (Bool-cases (is_busy s)) [
    | inl busy ↦ if_apply (is_busy s) done (complete_instance w reg) s ∙ rw busy refl
    | inr idle ↦
        if_apply (is_busy s) done (complete_instance w reg) s
        ∙ rw idle (complete_instance_lem s synced)
  ]
