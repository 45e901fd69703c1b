-- ===== src/Engine/Deploy/Readable.antt =====
-- internal/engine/engine.go: a deployment is what is read next.
use lowcode_bpmn.Prelude.{
  suc, ◌+◌, String, string_eq, false, ◌||◌, some, ◌≡◌, refl, ap, ◌∙◌, sym, subst,
}
use lowcode_bpmn.Text.{is_empty}
use lowcode_bpmn.Definition.Model.{ProcessDefinition}
use lowcode_bpmn.Definition.Registry.{Registry, build_registry}
use lowcode_bpmn.Runtime.{DeployedProcess}
use lowcode_bpmn.Errors.{
  Result, ok, reject_if, reject_if-eq-ok, ok-injective, tenant_and_key_required,
}
use lowcode_bpmn.Store.Memory.{
  Store, get_process, latest_version, process_prefix, insert_process_version,
}
use lowcode_bpmn.Store.Memory.Latest.{insert-then_get}
use lowcode_bpmn.Engine.State.{World, Exec, ◌>>=◌, now, lift}
use lowcode_bpmn.Engine.Complete.Guarded.{lift_bind-eq-ok}
use lowcode_bpmn.Engine.Deploy.{deploy_process, insert_deployment, new_deployment}

-- The deployment is of the definition, which has an index, under the names given, at the version above the
-- latest, and is what the store answers with.
pub record Readable (tenant key : String) (def : ProcessDefinition) (before after : Exec)
    (dp : DeployedProcess) : Type 0 where
  pub named : (is_empty tenant || is_empty key) ≡ false
  pub index : Registry
  pub indexed : build_registry def ≡ ok index
  pub definition : dp.definition ≡ def
  pub version : dp.version ≡ latest_version (process_prefix tenant key) before.store.processes 0 + 1
  pub read : get_process tenant key after.store ≡ some dp

module _ (w : World) (tenant key : String) (def : ProcessDefinition) (s : Exec) where
  abbrev inserted : DeployedProcess × Store
  inserted =
      insert_process_version (w.time_now (suc s.readings))
        (new_deployment (w.time_now s.readings) tenant key def) s.store

  deploys :
      (reg : Registry)
      → (is_empty tenant || is_empty key) ≡ false
      → build_registry def ≡ ok reg
      → deploy_process w tenant key def s
        ≡ (ok inserted.0, record s { store = inserted.1; readings = suc (suc s.readings) })
  unfolding deploy_process insert_deployment lift now ◌>>=◌
  deploys reg named built = rw (deploy_process, named, built) refl

  deployed :
      (reg : Registry) (dp : DeployedProcess)
      → (is_empty tenant || is_empty key) ≡ false
      → build_registry def ≡ ok reg
      → inserted.0 ≡ dp
      → Readable tenant key def s
          (record s { store = inserted.1; readings = suc (suc s.readings) })
          dp
  unfolding insert_process_version
  deployed reg dp named built same = record {
    named = named;
    index = reg;
    indexed = built;
    definition = ap (λ (p : DeployedProcess). p.definition) (sym same);
    version = ap (λ (p : DeployedProcess). p.version) (sym same);
    read =
        insert-then_get (w.time_now (suc s.readings))
          (new_deployment (w.time_now s.readings) tenant key def) s.store
        ∙ ap some same;
  }

  -- What `DeployProcess` returns was deployed under a tenant and a key that are not empty and from a
  -- definition that can be indexed; it holds that definition at the version above the latest one, and the
  -- next read of the process answers with it.
  pub deploy_process-Readable :
      (dp : DeployedProcess)
      → (deploy_process w tenant key def s).0 ≡ ok dp
      → Readable tenant key def s (deploy_process w tenant key def s).1 dp
  unfolding deploy_process ◌>>=◌
  deploy_process-Readable dp h =
      let (_, checked, h1) =
        lift_bind-eq-ok (reject_if (is_empty tenant || is_empty key) tenant_and_key_required) _ s
          h in
      let named = reject_if-eq-ok (is_empty tenant || is_empty key) _ checked in
      let (reg, built, h2) = lift_bind-eq-ok (build_registry def) _ s h1 in
      let ran = deploys reg named built in
      subst (λ (out : Result DeployedProcess × Exec). Readable tenant key def s out.1 dp) (sym ran)
        (deployed reg dp named built
          (ok-injective (ap (λ (out : Result DeployedProcess × Exec). out.0) (sym ran) ∙ h)))
