-- ===== src/Engine/Deploy.antt =====
-- internal/engine/engine.go: deployments, and the requests that only read the store.
pub mod Readable
use lowcode_bpmn.Prelude.{String, ◌||◌, Option, none, List, []}
use lowcode_bpmn.Text.{is_empty}
use lowcode_bpmn.Vars.{Vars}
use lowcode_bpmn.Definition.Model.{ProcessDefinition}
use lowcode_bpmn.Definition.Registry.{build_registry}
use lowcode_bpmn.Runtime.{ActivityInstance, ProcessInstance, DeployedProcess, Time, Uuid}
use lowcode_bpmn.Errors.{ok, reject_if, tenant_and_key_required}
use lowcode_bpmn.Store.Memory.{
  insert_process_version, delete_process, get_process, get_process_instance,
  list_activities_by_process, list_active_user_tasks,
}
use lowcode_bpmn.Store.Memory.Listing.{list_processes}
use lowcode_bpmn.Engine.State.{World, M, ◌>>=◌, ◌>>◌, lift, gets, modify, now}
use lowcode_bpmn.Engine.Start.{start_with_definition}
use lowcode_bpmn.Prelude.{ℕ, suc}

abbrev pub new_deployment : Time → String → String → ProcessDefinition → DeployedProcess
new_deployment t tenant key def = record {
  tenant_id = tenant;
  key = key;
  version = 0;
  name = def.name;
  definition = def;
  created_at = t;
  updated_at = t;
}

module _ (w : World) where
  unfoldable pub insert_deployment : DeployedProcess → M DeployedProcess
  unfolding insert_process_version
  insert_deployment dp s =
      let (dp', store') = insert_process_version (w.time_now s.readings) dp s.store in
      (ok dp', record s { store = store'; readings = suc s.readings })

  unfoldable pub deploy_process : String → String → ProcessDefinition → M DeployedProcess
  unfolding build_registry now insert_deployment
  deploy_process tenant key def = do
    lift (reject_if (is_empty tenant || is_empty key) tenant_and_key_required)
    reg ← lift (build_registry def)
    t ← now w
    insert_deployment (new_deployment t tenant key def)

  unfoldable pub start_process_with_definition :
      ℕ → (tenant key business_key : String) → ProcessDefinition → Vars → M (Option ProcessInstance)
  unfolding start_with_definition
  start_process_with_definition fuel tenant key business_key def vars =
      start_with_definition w fuel
        (record (new_deployment 0 tenant key def) { version = 1; name = "" }) business_key vars []

unfoldable pub remove_process : String → String → M (Unit {0})
unfolding delete_process modify
remove_process tenant key = modify (λ s. record s { store = delete_process tenant key s.store })

unfoldable pub deployed_processes : String → M (List DeployedProcess)
unfolding list_processes gets
deployed_processes tenant = gets (λ s. list_processes tenant s.store)

unfoldable pub deployed_process : String → String → M (Option DeployedProcess)
unfolding get_process gets
deployed_process tenant key = gets (λ s. get_process tenant key s.store)

unfoldable pub process_instance : Uuid → M (Option ProcessInstance)
unfolding get_process_instance gets
process_instance id = gets (λ s. get_process_instance id s.store)

unfoldable pub list_activities : Uuid → M (List ActivityInstance)
unfolding list_activities_by_process gets
list_activities id = gets (λ s. list_activities_by_process id s.store)

unfoldable pub list_user_tasks : String → String → M (List ActivityInstance)
unfolding list_active_user_tasks gets
list_user_tasks tenant assignee = gets (λ s. list_active_user_tasks tenant assignee s.store)
