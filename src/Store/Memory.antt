-- ===== src/Store/Memory.antt =====
-- internal/store/memory/store.go. The four maps behind the lock; `WithTx` runs its body on the store
-- itself. `now` and `new` are what time.Now and uuid.New answer; the zero time and the nil id are 0.
-- A stored record is a copy, and so is what a read returns.
pub mod Locking
pub mod Listing
pub mod Latest
pub mod Snapshot
use lowcode_bpmn.Prelude.{
  ℕ, zero, suc, ◌+◌, ltb, nat_beq, nat_eq, String, string_eq, Bool, true, false, ◌&&◌, ◌||◌, not,
  Option, none, some, List, [], ◌∷◌, ◌==◌, ◌≡◌, refl, if◌then◌else◌, Map, lookup, insert, filter,
  map,
}
use Prim.Native.Nat.{◌/◌, ◌%◌}
use Prim.Native.String.{◌++◌}
use lowcode_bpmn.Text.{is_empty, strip_prefix}
use lowcode_bpmn.Definition.Model.{ElementKind, user_task}
use lowcode_bpmn.Definition.Approval.{is_user_task}
use lowcode_bpmn.Runtime
use lowcode_bpmn.Runtime.{
  Uuid, Time, ActivityInstance, ProcessInstance, DeployedProcess, Job, Message, JobStatus,
  is_running, is_active,
}
use lowcode_bpmn.Errors.{Result, ok, err, version_conflict}
use lowcode_bpmn.Engine.Approval.{task_visible_to_assignee}

pub record Store : Type 0 where
  pub processes : Map String DeployedProcess
  pub process_instances : Map Uuid ProcessInstance
  pub activity_instances : Map Uuid ActivityInstance
  pub jobs : Map Uuid Job

abbrev pub new_store : Store
new_store = record { processes = []; process_instances = []; activity_instances = []; jobs = [] }

digit : ℕ → String
digit n =
    if n == 0
    then "0"
    else if n == 1
    then "1"
    else if n == 2
    then "2"
    else if n == 3
    then "3"
    else if n == 4
    then "4"
    else if n == 5
    then "5"
    else if n == 6
    then "6"
    else if n == 7
    then "7"
    else if n == 8
    then "8"
    else "9"

-- The loop of `itoa`: `n` rounds are enough, since each divides by ten.
itoa_loop : ℕ → ℕ → String → String
unfolding digit
itoa_loop zero n buf = buf
itoa_loop (suc rounds) n buf =
    let rest = itoa_loop rounds (n / 10) (digit (n % 10) ++ buf) in if n == 0 then buf else rest

unfoldable pub itoa : ℕ → String
unfolding itoa_loop
itoa n = if n == 0 then "0" else itoa_loop n n ""

unfoldable pub process_prefix : String → String → String
process_prefix tenant key = tenant ++ "/" ++ key ++ "/v"

unfoldable pub versioned_process_key : String → String → ℕ → String
unfolding itoa
versioned_process_key tenant key version = tenant ++ "/" ++ key ++ "/v" ++ itoa version

-- `len(k) >= len(prefix) && k[:len(prefix)] == prefix`
unfoldable pub has_prefix : String → String → Bool
unfolding strip_prefix
has_prefix prefix k = elim (strip_prefix prefix k) [ none ↦ false | some rest ↦ true ]

unfoldable pub latest_version : String → Map String DeployedProcess → ℕ → ℕ
unfolding has_prefix
latest_version prefix [] max = max
latest_version prefix ((k, p) ∷ m) max =
    latest_version prefix m (if has_prefix prefix k && ltb max p.version then p.version else max)

unfoldable pub newer : Option DeployedProcess → DeployedProcess → Bool
newer none p = true
newer (some latest) p = ltb latest.version p.version

unfoldable pub latest_process :
    String → Map String DeployedProcess → Option DeployedProcess → Option DeployedProcess
unfolding has_prefix newer
latest_process prefix [] latest = latest
latest_process prefix ((k, p) ∷ m) latest =
    latest_process prefix m (if has_prefix prefix k && newer latest p then some p else latest)

-- The record that is stored, and the version that the caller's record then holds.
unfoldable pub insert_process_version : Time → DeployedProcess → Store → DeployedProcess × Store
unfolding latest_version insert versioned_process_key process_prefix
insert_process_version now p s =
    let version =
      if p.version == 0
      then latest_version (process_prefix p.tenant_id p.key) s.processes 0 + 1
      else p.version in
    let p' : DeployedProcess = record p {
      version = version;
      created_at = if p.created_at == 0 then now else p.created_at;
      updated_at = now;
    } in
    (
      p',
      record s {
        processes = insert (versioned_process_key p.tenant_id p.key version) p' s.processes;
      },
    )

unfoldable pub delete_process : String → String → Store → Store
unfolding has_prefix process_prefix
delete_process tenant key s = record s {
  processes =
      filter (λ (e : String × DeployedProcess). not (has_prefix (process_prefix tenant key) e.0))
        s.processes;
}

unfoldable pub get_process : String → String → Store → Option DeployedProcess
unfolding latest_process process_prefix
get_process tenant key s = latest_process (process_prefix tenant key) s.processes none

unfoldable pub get_process_version : String → String → ℕ → Store → Option DeployedProcess
unfolding lookup versioned_process_key
get_process_version tenant key version s =
    lookup (versioned_process_key tenant key version) s.processes

unfoldable pub create_process_instance :
    Uuid → Time → ProcessInstance → Store → ProcessInstance × Store
unfolding insert
create_process_instance new now inst s =
    let inst' : ProcessInstance = record inst {
      id = if inst.id == 0 then new else inst.id;
      started_at = if inst.started_at == 0 then now else inst.started_at;
      updated_at = now;
    } in
    (inst', record s { process_instances = insert inst'.id inst' s.process_instances })

-- The optimistic lock: the write is refused unless the version is the stored one, and raises it.
unfoldable pub update_process_instance :
    Time → ProcessInstance → Store → Result (ProcessInstance × Store)
unfolding lookup insert
update_process_instance now inst s = elim (lookup inst.id s.process_instances) [
  | none ↦ err version_conflict
  | some existing ↦
      if not (existing.lock_version == inst.lock_version)
      then err version_conflict
      else let inst' : ProcessInstance = record inst {
        updated_at = now;
        lock_version = suc inst.lock_version;
      } in
        ok (inst', record s { process_instances = insert inst.id inst' s.process_instances })
]

unfoldable pub get_process_instance : Uuid → Store → Option ProcessInstance
unfolding lookup
get_process_instance id s = lookup id s.process_instances

unfoldable pub values {ℓ} : {V : Type ℓ} → Map Uuid V → List V
values [] = []
values ((k, v) ∷ m) = v ∷ values m

-- FindRunningInstanceByBusinessKey; of several matches the code returns any.
unfoldable pub find_running_instance : String → String → String → Store → Option ProcessInstance
unfolding values
find_running_instance tenant process business s =
    if is_empty business
    then none
    else elim (filter
        (λ (i : ProcessInstance).
          i.tenant_id == tenant
          && i.process_key == process
          && i.business_key == business
          && is_running i.status)
        (values s.process_instances)) [ [] ↦ none | i ∷ _ ↦ some i ]

unfoldable pub list_running_instances : String → Store → List ProcessInstance
unfolding values
list_running_instances tenant s =
    filter (λ (i : ProcessInstance). i.tenant_id == tenant && is_running i.status)
      (values s.process_instances)

unfoldable pub create_activity_instance :
    Uuid → Time → ActivityInstance → Store → ActivityInstance × Store
unfolding insert
create_activity_instance new now act s =
    let act' : ActivityInstance = record act {
      id = if act.id == 0 then new else act.id;
      started_at = if act.started_at == 0 then now else act.started_at;
    } in
    (act', record s { activity_instances = insert act'.id act' s.activity_instances })

unfoldable pub update_activity_instance : ActivityInstance → Store → Store
unfolding insert
update_activity_instance act s = record s {
  activity_instances = insert act.id act s.activity_instances;
}

unfoldable pub get_activity_instance : Uuid → Store → Option ActivityInstance
unfolding lookup
get_activity_instance id s = lookup id s.activity_instances

unfoldable pub list_activities_by_process : Uuid → Store → List ActivityInstance
unfolding values
list_activities_by_process inst s =
    filter (λ (a : ActivityInstance). a.process_instance_id == inst) (values s.activity_instances)

unfoldable pub list_active_activities : Uuid → Store → List ActivityInstance
unfolding values
list_active_activities inst s =
    filter (λ (a : ActivityInstance). a.process_instance_id == inst && is_active a.status)
      (values s.activity_instances)

-- Whether the loop of `ListActiveUserTasks` keeps an activity, and for which instance.
abbrev inbox_owner : String → Store → ActivityInstance → Bool
inbox_owner tenant s act = elim (lookup act.process_instance_id s.process_instances) [
  | none ↦ false
  | some inst ↦ inst.tenant_id == tenant
]

unfoldable pub list_active_user_tasks : String → String → Store → List ActivityInstance
unfolding values lookup task_visible_to_assignee is_user_task
list_active_user_tasks tenant assignee s =
    filter
      (λ (a : ActivityInstance).
        is_active a.status
        && is_user_task a.element_kind
        && inbox_owner tenant s a
        && (is_empty assignee || task_visible_to_assignee a assignee))
      (values s.activity_instances)

unfoldable pub enqueue_job : Uuid → Time → Job → Store → Job × Store
unfolding insert
enqueue_job new now job s =
    let job' : Job = record job {
      id = if job.id == 0 then new else job.id;
      created_at = if job.created_at == 0 then now else job.created_at;
      status = JobStatus.pending;
    } in
    (job', record s { jobs = insert job'.id job' s.jobs })

abbrev pub is_pending : JobStatus → Bool
is_pending JobStatus.pending = true
is_pending _ = false

-- The first of the list after the sort by `CreatedAt`; of equal times the sort may take any.
unfoldable pub oldest : Job → List Job → Job
oldest best [] = best
oldest best (j ∷ js) = oldest (if ltb j.created_at best.created_at then j else best) js

unfoldable pub pending_jobs : Store → List Job
unfolding values
pending_jobs s = filter (λ (j : Job). is_pending j.status) (values s.jobs)

unfoldable pub claim_next_job : Time → Store → Option Job × Store
unfolding pending_jobs oldest insert
claim_next_job now s = elim (pending_jobs s) [
  | [] ↦ (none, s)
  | j ∷ js ↦
      let first = oldest j js in
      let job : Job = record first {
        status = JobStatus.running;
        attempts = suc first.attempts;
        locked_at = some now;
      } in
      (some job, record s { jobs = insert job.id job s.jobs })
]

unfoldable pub complete_job : Time → Uuid → Store → Store
unfolding lookup insert
complete_job now id s = elim (lookup id s.jobs) [
  | none ↦ s
  | some job ↦
      let done : Job = record job { status = JobStatus.done; completed_at = some now } in
      record s { jobs = insert id done s.jobs }
]

unfoldable pub fail_job : Uuid → Message → Store → Store
unfolding lookup insert
fail_job id msg s = elim (lookup id s.jobs) [
  | none ↦ s
  | some job ↦
      let failed : Job = record job { status = JobStatus.failed; error_msg = msg } in
      record s { jobs = insert id failed s.jobs }
]

itoa_runs : itoa 1230 ≡ "1230"
unfolding itoa
itoa_runs = refl
