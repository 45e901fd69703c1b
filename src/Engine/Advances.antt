-- ===== src/Engine/Advances.antt =====
-- internal/engine/engine.go: a run of the engine and the instance and store that it leaves.
use lowcode_bpmn.Prelude.{
  ℕ, suc, leb, nat_eq, String, true, some, ◌≡◌, ◌≢◌, refl, sym, ap, ◌∙◌, arith, ◌⊎◌, inl, inr,
  lookup, insert, lookup-insert_self, lookup-insert_ne,
}
use lowcode_bpmn.Definition.Registry.{Registry}
use lowcode_bpmn.Errors.{Result, ok, err}
use lowcode_bpmn.Runtime.{Time, Uuid, ProcessInstance, ProcessInstanceStatus}
use lowcode_bpmn.Store.Memory.{
  Store, update_process_instance, update_activity_instance, create_activity_instance,
}
use lowcode_bpmn.Engine.State.{
  World, Exec, now, new_uuid, create_activity, update_activity, update_instance, list_active,
  run_script, http_do, set_updated, set_active, set_variables, set_internal, set_completed,
  set_scope, modify_inst, modify,
}
use lowcode_bpmn.Engine.State.Keeps.{IsPreorder, Keeps}
use lowcode_bpmn.Engine.Preserve.{Primitives, activate_element-Keeps}
use lowcode_bpmn.Engine.Activate.{activate_element}

-- The status stays, or the instance completes.
unfoldable pub StaysOrCompletes : ProcessInstanceStatus → ProcessInstanceStatus → Type 0
StaysOrCompletes before after = (after ≡ before) ⊎ (after ≡ ProcessInstanceStatus.completed)

-- The store holds the version of the instance that the run has in hand.
unfoldable pub Synced : Exec → Type 0
Synced s =
    (inst : ProcessInstance) × (lookup s.inst.id s.store.process_instances ≡ some inst)
    × (inst.lock_version ≡ s.inst.lock_version)

pub record Advances (s t : Exec) : Type 0 where
  pub same_id : t.inst.id ≡ s.inst.id
  pub same_tenant : t.inst.tenant_id ≡ s.inst.tenant_id
  pub same_key : t.inst.process_key ≡ s.inst.process_key
  pub same_snapshot : t.inst.definition_snapshot ≡ s.inst.definition_snapshot
  pub status : StaysOrCompletes s.inst.status t.inst.status
  pub version : leb s.inst.lock_version t.inst.lock_version ≡ true
  pub others :
      (id : Uuid)
      → id ≢ s.inst.id
      → lookup id t.store.process_instances ≡ lookup id s.store.process_instances
  pub same_processes : t.store.processes ≡ s.store.processes
  pub same_jobs : t.store.jobs ≡ s.store.jobs
  pub synced : Synced s → Synced t

leb_refl : (n : ℕ) → leb n n ≡ true
leb_refl n = ground arith

stays_trans :
    (a b c : ProcessInstanceStatus)
    → StaysOrCompletes a b
    → StaysOrCompletes b c
    → StaysOrCompletes a c
unfolding StaysOrCompletes
stays_trans a b c (inl h) (inl k) = inl (cc)
stays_trans a b c (inr h) (inl k) = inr (cc)
stays_trans a b c g (inr k) = inr k

Advances-refl : (s : Exec) → Advances s s
unfolding StaysOrCompletes
Advances-refl s = record {
  same_id = refl;
  same_tenant = refl;
  same_key = refl;
  same_snapshot = refl;
  status = inl refl;
  version = leb_refl s.inst.lock_version;
  others = λ id h. refl;
  same_processes = refl;
  same_jobs = refl;
  synced = λ h. h;
}

Advances-trans : (s t u : Exec) → Advances s t → Advances t u → Advances s u
Advances-trans s t u a b = record {
  same_id = cc (a.same_id, b.same_id);
  same_tenant = cc (a.same_tenant, b.same_tenant);
  same_key = cc (a.same_key, b.same_key);
  same_snapshot = cc (a.same_snapshot, b.same_snapshot);
  status = stays_trans _ _ _ a.status b.status;
  version = let av = a.version in let bv = b.version in ground arith;
  others = λ id h. (b.others id (λ e. h (cc (e, a.same_id)))) ∙ (a.others id h);
  same_processes = cc (a.same_processes, b.same_processes);
  same_jobs = cc (a.same_jobs, b.same_jobs);
  synced = λ h. b.synced (a.synced h);
}

Advances-order : IsPreorder Advances
Advances-order = record { same = Advances-refl; chain = Advances-trans }

-- A step that leaves the instance's identity and all maps but that of the activities alone.
quiet :
    (s t : Exec)
    → t.inst.id ≡ s.inst.id
    → t.inst.tenant_id ≡ s.inst.tenant_id
    → t.inst.process_key ≡ s.inst.process_key
    → t.inst.definition_snapshot ≡ s.inst.definition_snapshot
    → StaysOrCompletes s.inst.status t.inst.status
    → t.inst.lock_version ≡ s.inst.lock_version
    → t.store.process_instances ≡ s.store.process_instances
    → t.store.processes ≡ s.store.processes
    → t.store.jobs ≡ s.store.jobs
    → Advances s t
unfolding Synced
quiet s t id tenant key snapshot status version instances processes jobs = record {
  same_id = id;
  same_tenant = tenant;
  same_key = key;
  same_snapshot = snapshot;
  status = status;
  version = ground arith;
  others = λ k h. ap (lookup k) instances;
  same_processes = processes;
  same_jobs = jobs;
  synced = λ (inst, found, same). (inst, cc (found, id, instances), cc (same, version));
}

pub update_process_instance-eq-ok :
    (now : Time) (inst : ProcessInstance) (st : Store) {written : ProcessInstance × Store}
    → update_process_instance now inst st ≡ ok written
    → (written.0 ≡ record inst { updated_at = now; lock_version = suc inst.lock_version })
      × (written.1
          ≡ record st { process_instances = insert inst.id written.0 st.process_instances })
unfolding update_process_instance
update_process_instance-eq-ok now inst st h = grind arith

module _ (w : World) where
  written-Advances :
      (s : Exec) (now : Time) (written : ProcessInstance × Store)
      → (written.0 ≡ record (s.inst) { updated_at = now; lock_version = suc s.inst.lock_version })
      → (written.1 ≡ record (s.store) {
        process_instances = insert s.inst.id written.0 s.store.process_instances;
      })
      → Advances s (record s { inst = written.0; store = written.1; readings = suc s.readings })
  unfolding StaysOrCompletes Synced
  written-Advances s now written e f = record {
    same_id = ap (λ (i : ProcessInstance). i.id) e;
    same_tenant = ap (λ (i : ProcessInstance). i.tenant_id) e;
    same_key = ap (λ (i : ProcessInstance). i.process_key) e;
    same_snapshot = ap (λ (i : ProcessInstance). i.definition_snapshot) e;
    status = inl (ap (λ (i : ProcessInstance). i.status) e);
    version = let v = ap (λ (i : ProcessInstance). i.lock_version) e in ground arith;
    others = λ id h.
        ap (λ (st : Store). lookup id st.process_instances) f
        ∙ lookup-insert_ne id s.inst.id written.0 s.store.process_instances (λ k. h (sym k));
    same_processes = ap (λ (st : Store). st.processes) f;
    same_jobs = ap (λ (st : Store). st.jobs) f;
    synced = λ h. (
      written.0,
      ap (λ (st : Store). lookup written.0.id st.process_instances) f
          ∙ ap (λ id. lookup id (insert s.inst.id written.0 s.store.process_instances))
              (ap (λ (i : ProcessInstance). i.id) e)
          ∙ lookup-insert_self s.inst.id written.0 s.store.process_instances,
      refl,
    );
  }

  update_instance-Advances : Keeps Advances (update_instance w)
  unfolding update_instance
  update_instance-Advances = record {
    at = λ s. after s (update_process_instance (w.time_now s.readings) s.inst s.store) refl;
  }
    where
      after :
          (s : Exec) (r : Result (ProcessInstance × Store))
          → update_process_instance (w.time_now s.readings) s.inst s.store ≡ r
          → Advances s (update_instance w s).1
      after s (err e) h = rw (h, update_instance) (Advances-refl s)
      after s (ok written) h =
          let (e, f) = update_process_instance-eq-ok (w.time_now s.readings) s.inst s.store h in
          rw (h, update_instance) (written-Advances s (w.time_now s.readings) written e f)

  Advances-Primitives : Primitives w Advances
  unfolding StaysOrCompletes now new_uuid create_activity create_activity_instance update_activity
      update_activity_instance list_active run_script http_do set_updated set_active set_variables
      set_internal set_completed set_scope modify modify_inst
  Advances-Primitives = record {
    order = Advances-order;
    by_now = record { at = λ s. quiet s _ refl refl refl refl (inl refl) refl refl refl refl };
    by_uuid = record { at = λ s. quiet s _ refl refl refl refl (inl refl) refl refl refl refl };
    by_create =
        λ act. record { at = λ s. quiet s _ refl refl refl refl (inl refl) refl refl refl refl };
    by_activity =
        λ act. record { at = λ s. quiet s _ refl refl refl refl (inl refl) refl refl refl refl };
    by_instance = update_instance-Advances;
    by_list = record { at = λ s. Advances-refl s };
    by_script =
        λ req. record { at = λ s. quiet s _ refl refl refl refl (inl refl) refl refl refl refl };
    by_http = λ method url. record {
      at = λ s. quiet s _ refl refl refl refl (inl refl) refl refl refl refl;
    };
    by_updated =
        λ t. record { at = λ s. quiet s _ refl refl refl refl (inl refl) refl refl refl refl };
    by_active =
        λ f. record { at = λ s. quiet s _ refl refl refl refl (inl refl) refl refl refl refl };
    by_variables =
        λ f. record { at = λ s. quiet s _ refl refl refl refl (inl refl) refl refl refl refl };
    by_arrival = λ gateway v. record {
      at = λ s. quiet s _ refl refl refl refl (inl refl) refl refl refl refl;
    };
    by_clearing = λ gateway. record {
      at = λ s. quiet s _ refl refl refl refl (inl refl) refl refl refl refl;
    };
    by_completed =
        λ t. record { at = λ s. quiet s _ refl refl refl refl (inr refl) refl refl refl refl };
    by_scope =
        λ f. record { at = λ s. quiet s _ refl refl refl refl (inl refl) refl refl refl refl };
  }

  -- An activation, whatever it returns and however deep it nests, keeps the instance's id, tenant,
  -- process key and definition, never lowers its version, changes its status only to completed, writes
  -- no other instance, no deployment and no job, and leaves the store's copy at the version of the
  -- instance in hand if it was there before.
  pub activate_element-Advances :
      (reg : Registry) (fuel : ℕ) (id branch : String) (s : Exec)
      → Advances s (activate_element w reg fuel id branch s).1
  activate_element-Advances reg fuel id branch s =
      (activate_element-Keeps Advances-Primitives reg fuel id branch).at s
