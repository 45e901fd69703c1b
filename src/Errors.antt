-- ===== src/Errors.antt =====
-- The errors that the modelled code returns, one constructor for each message, with what it prints.
use lowcode_bpmn.Prelude.{◌⊎◌, inl, inr, ℕ, String, Bool, true, false, ◌≡◌, refl}
use lowcode_bpmn.Definition.Model.{ElementKind}

pub data Error : Type 0 where
  -- internal/domain/definition
  process_id_required process_has_no_elements element_id_required : Error
  duplicate_element_id : String → Error
  unsupported_element_type : ElementKind → String → Error
  no_start_event flow_id_required : Error
  duplicate_flow_id flow_requires_refs : String → Error
  unknown_source_ref unknown_target_ref : String → String → Error
  lane_id_required : Error
  unknown_flow_node_ref : String → String → Error
  pool_id_required message_flow_id_required : Error
  message_flow_requires_refs : String → Error
  message_flow_unknown_source message_flow_unknown_target : String → String → Error
  script_task_requires_script service_task_requires send_task_requires : String → Error
  receive_task_requires business_rule_task_requires : String → Error
  required_approvals_at_least_one : String → Error
  required_approvals_exceeds : String → ℕ → ℕ → Error
  sequential_quota : String → Error
  requires_event_definition requires_non_none_event : ElementKind → String → Error
  message_event_requires_ref signal_event_requires_ref : ElementKind → String → Error
  timer_event_requires_cycle conditional_event_requires : ElementKind → String → Error
  error_event_requires_ref unsupported_event_type : ElementKind → String → Error
  boundary_requires_attached_to : String → Error
  boundary_unknown_attached_to : String → String → Error
  boundary_cannot_attach : String → ElementKind → Error
  call_activity_requires_called : String → Error
  unexpected_event_kind : String → Error
  numeric_comparison : String → Error
  return_to_not_found element_not_found no_return_target : String → Error
  no_return_target_in_scope : String → String → Error
  -- internal/engine and the stores
  version_conflict : Error
  process_not_found : String → String → Error
  tenant_and_key_required snapshot_missing instance_not_found activity_not_found : Error
  activity_of_other_instance process_not_running activity_not_active : Error
  not_a_user_task unsupported_element_kind complete_not_supported : ElementKind → Error
  invalid_action assignee_not_pending already_acted : String → Error
  assignee_required : Error
  continue_job_missing_element : Error
  unknown_job_type : String → Error
  multiple_outgoing_flows : String → Error
  exclusive_no_match inclusive_no_match : Error
  assignees_empty : Error
  cannot_remove_acted : String → Error
  quota_exceeds_assignees : ℕ → ℕ → Error
  event_based_no_match complex_no_match : Error
  selected_flow_not_found complex_gateway_not_found : String → Error
  firing_instance_not_found : ℕ → Error
  host_not_found boundary_request_incomplete tenant_mismatch : Error
  boundary_not_found no_active_host : String → Error
  no_file no_process_element xml_process_id_required : Error
  trigger_request_incomplete partner_not_deployed : Error
  sync_request_incomplete no_assignees_left user_already_acted : Error
  -- what a script runner or an HTTP client reports
  external : String → Error
  -- the model's own: the bound on the number of nested activations is used up
  out_of_fuel : Error

pub data Result {ℓ} (T : Type ℓ) : Type ℓ where
  err : Error → Result T
  ok : T → Result T

-- `if test { return err }`
abbrev pub reject_if : Bool → Error → Result (Unit {0})
reject_if false e = ok tt
reject_if true e = err e

pub reject_if-eq-ok : (test : Bool) (e : Error) → reject_if test e ≡ ok tt → test ≡ false
reject_if-eq-ok false e h = refl
reject_if-eq-ok true e h = cc

pub ok-injective {ℓ} : {T : Type ℓ} {x y : T} → ok x ≡ ok y → x ≡ y
ok-injective h = cc

-- The chain of calls that each return on an error.
infixl 5 ◌>>=◌
abbrev pub ◌>>=◌ {ℓ κ} : {T : Type ℓ} {U : Type κ} → Result T → (T → Result U) → Result U
err e >>= next = err e
ok x >>= next = next x

infixl 5 ◌>>◌
abbrev pub ◌>>◌ {ℓ} : {U : Type ℓ} → Result (Unit {0}) → Result U → Result U
first >> next = first >>= λ _. next

pub >>=-eq-ok {ℓ κ} :
    {T : Type ℓ} {U : Type κ} (first : Result T) (next : T → Result U) {y : U}
    → (first >>= next) ≡ ok y
    → (x : T) × (first ≡ ok x) × (next x ≡ ok y)
>>=-eq-ok (err e) next h = cc
>>=-eq-ok (ok x) next h = (x, refl, h)

pub >>-eq-ok {ℓ} :
    {U : Type ℓ} (first : Result (Unit {0})) (next : Result U) {y : U}
    → (first >> next) ≡ ok y
    → (first ≡ ok tt) × (next ≡ ok y)
>>-eq-ok (err e) next h = cc
>>-eq-ok (ok tt) next h = (refl, h)

pub reject_if->>-eq-ok {ℓ} :
    {U : Type ℓ} (test : Bool) (e : Error) (next : Result U) {y : U}
    → (reject_if test e >> next) ≡ ok y
    → (test ≡ false) × (next ≡ ok y)
reject_if->>-eq-ok false e next h = (refl, h)
reject_if->>-eq-ok true e next h = cc

pub Result-cases {ℓ} :
    {T : Type ℓ} (r : Result T) → ((e : Error) × (r ≡ err e)) ⊎ ((x : T) × (r ≡ ok x))
Result-cases (err e) = inl (e, refl)
Result-cases (ok x) = inr (x, refl)
