-- ===== src/Store/Memory/Listing.antt =====
-- internal/store/memory/store.go: the latest version of every process of a tenant.
pub mod Covers
use Prim.Native.String.{◌++◌}
use lowcode_bpmn.Prelude.{
  String, string_eq, Bool, true, false, ◌&&◌, List, [], ◌∷◌, map, if◌then◌else◌, Map, lookup,
  insert,
}
use lowcode_bpmn.Runtime.{DeployedProcess}
use lowcode_bpmn.Store.Memory.{Store, has_prefix, newer}

unfoldable pub latest_by_key :
    String → Map String DeployedProcess → Map String DeployedProcess → Map String DeployedProcess
unfolding has_prefix newer lookup insert
latest_by_key prefix [] latest = latest
latest_by_key prefix ((k, p) ∷ m) latest =
    latest_by_key prefix m (
      if has_prefix prefix k && newer (lookup p.key latest) p
      then insert p.key p latest
      else latest)

unfoldable pub list_processes : String → Store → List DeployedProcess
unfolding latest_by_key
list_processes tenant s =
    map (λ (e : String × DeployedProcess). e.1) (latest_by_key (tenant ++ "/") s.processes [])
