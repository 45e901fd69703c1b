-- ===== src/Engine/Trigger.antt =====
-- internal/engine/trigger.go, trigger_signal.go and collaboration_trigger.go: the processes that a message, a
-- signal or the variables start. What is found before an error is not kept beside it.
use lowcode_bpmn.Prelude.{
  ℕ, String, string_eq, Bool, true, false, ◌||◌, not, Option, none, some, List, [], ◌∷◌, ◌++◌, ◌==◌,
  if◌then◌else◌,
}
use lowcode_bpmn.Text.{is_empty}
use lowcode_bpmn.Vars.{Vars}
use lowcode_bpmn.Definition.Event.{EventDefinition}
use lowcode_bpmn.Definition.Model.{Element, Pool, MessageFlow, Collaboration}
use lowcode_bpmn.Definition.Rules.{is_start}
use lowcode_bpmn.Definition.Boundary.{
  message_start_match, signal_start_match, conditional_start_match, business_key_from_correlation,
}
use lowcode_bpmn.Runtime.{ProcessInstance, DeployedProcess, Message, Uuid}
use lowcode_bpmn.Errors.{
  Result, ok, err, reject_if, trigger_request_incomplete, partner_not_deployed,
}
use lowcode_bpmn.Store.Memory.{find_running_instance}
use lowcode_bpmn.Store.Memory.Listing.{list_processes}
use lowcode_bpmn.Engine.State.{World, M, ◌>>=◌, ◌>>◌, pure, lift, attempt, gets, collect}
use lowcode_bpmn.Engine.Start.{start_process}
use lowcode_bpmn.Engine.Boundary.{TriggerBoundaryMatch, match_boundary_events_on_instances}

pub record TriggerMessageRequest : Type 0 where
  pub tenant_id : String
  pub message_ref : String
  pub variables : Vars
  pub business_key : String

pub record TriggerSignalRequest : Type 0 where
  pub tenant_id : String
  pub signal_ref : String
  pub variables : Vars
  pub business_key : String

pub record TriggerConditionalRequest : Type 0 where
  pub tenant_id : String
  pub variables : Vars
  pub business_key : String

-- No `instance_id` is the empty text.
pub record TriggerMessageMatch : Type 0 where
  pub process_key : String
  pub start_element_id : String
  pub instance_id : Option Uuid
  pub skipped : Bool
  pub skip_reason : String
  pub error : Message

pub record TriggerMessageResult : Type 0 where
  pub message_ref : String
  pub matches : List TriggerMessageMatch
  pub boundary_matches : List TriggerBoundaryMatch

abbrev pub plain_match : String → String → Option Uuid → Message → TriggerMessageMatch
plain_match key id instance error = record {
  process_key = key;
  start_element_id = id;
  instance_id = instance;
  skipped = false;
  skip_reason = "";
  error = error;
}

abbrev pub skipped_match : String → String → Uuid → TriggerMessageMatch
skipped_match key id instance = record {
  process_key = key;
  start_element_id = id;
  instance_id = some instance;
  skipped = true;
  skip_reason = "idempotent_duplicate";
  error = Message.blank;
}

abbrev pub started_match : String → String → Result (Option ProcessInstance) → TriggerMessageMatch
started_match key id (err e) = plain_match key id none (Message.of_error e)
started_match key id (ok none) = plain_match key id none Message.blank
started_match key id (ok (some inst)) = plain_match key id (some inst.id) Message.blank

abbrev correlation_key : Option EventDefinition → String
correlation_key none = ""
correlation_key (some ed) = ed.correlation_key

-- `poolByID[id]`: of pools with one id the last.
unfoldable pub pool_by_id : String → List Pool → Option Pool
pool_by_id id [] = none
pool_by_id id (p ∷ pools) = elim (pool_by_id id pools) [
  | some q ↦ some q
  | none ↦ if p.id == id then some p else none
]

unfoldable pub process_by_key : String → List DeployedProcess → Option DeployedProcess
process_by_key key [] = none
process_by_key key (p ∷ processes) =
    let rest = process_by_key key processes in if p.key == key then some p else rest

module _ (w : World) (async : Bool) (fuel : ℕ) where
  -- `StartProcess` at one start event, and the match that tells of it.
  unfoldable pub start_at :
      (tenant key business_key : String) → Vars → String → M TriggerMessageMatch
  unfolding start_process
  start_at tenant key business_key vars id = do
    out ← attempt (
        start_process w async fuel (record {
          tenant_id = tenant;
          process_key = key;
          business_key = business_key;
          variables = vars;
          start_element_ids = id ∷ [];
        }))
    pure (started_match key id out)

  -- The body of the loops over the elements: `start` where the element is a start event that matches.
  unfoldable pub at_start_event :
      String
      → (Element → Result Bool)
      → (Element → M TriggerMessageMatch)
      → Element
      → M (List TriggerMessageMatch)
  at_start_event key matches start el =
      if not (is_start el.kind) then pure [] else elim (matches el) [
        | err e ↦ pure (plain_match key el.id none (Message.of_error e) ∷ [])
        | ok fires ↦ if not fires then pure [] else start el >>= λ m. pure (m ∷ [])
      ]

  unfoldable pub message_key : TriggerMessageRequest → Element → String
  unfolding business_key_from_correlation
  message_key req el =
      if is_empty req.business_key
      then business_key_from_correlation w.numerics req.variables
          (correlation_key el.event_definition)
      else req.business_key

  -- A start, unless there is a running instance.
  unfoldable pub unless_running :
      TriggerMessageRequest
      → DeployedProcess
      → Element
      → (key : String) → Option ProcessInstance
      → M TriggerMessageMatch
  unfolding start_at
  unless_running req dp el key (some inst) = pure (skipped_match dp.key el.id inst.id)
  unless_running req dp el key none = start_at req.tenant_id dp.key key req.variables el.id

  unfoldable pub start_keyed :
      TriggerMessageRequest → DeployedProcess → Element → (key : String) → M TriggerMessageMatch
  unfolding find_running_instance start_at unless_running
  start_keyed req dp el key =
      if is_empty key
      then start_at req.tenant_id dp.key key req.variables el.id
      else gets (λ s. find_running_instance req.tenant_id dp.key key s.store)
        >>= unless_running req dp el key

  unfoldable pub start_message :
      TriggerMessageRequest → DeployedProcess → Element → M TriggerMessageMatch
  unfolding message_key start_keyed
  start_message req dp el = start_keyed req dp el (message_key req el)

  unfoldable pub message_starts :
      TriggerMessageRequest → List DeployedProcess → M (List TriggerMessageMatch)
  unfolding collect at_start_event message_start_match start_message
  message_starts req processes =
      collect
        (λ (dp : DeployedProcess).
          collect
            (at_start_event dp.key
              (λ el. message_start_match w.numerics el req.message_ref req.variables)
              (start_message req dp))
            dp.definition.elements)
        processes

  -- The starts at one partner process of a message flow.
  unfoldable pub start_partner :
      String → String → Vars → String → Option DeployedProcess → M (List TriggerMessageMatch)
  unfolding collect at_start_event message_start_match start_at business_key_from_correlation
  start_partner tenant ref vars key none =
      pure (plain_match key "" none (Message.of_error partner_not_deployed) ∷ [])
  start_partner tenant ref vars key (some partner) =
      collect
        (at_start_event key (λ el. message_start_match w.numerics el ref vars)
          (λ el.
            start_at tenant key
              (business_key_from_correlation w.numerics vars (correlation_key el.event_definition))
              vars el.id))
        partner.definition.elements

  unfoldable pub at_message_flow :
      String
      → String
      → Vars
      → List DeployedProcess
      → List Pool
      → MessageFlow
      → M (List TriggerMessageMatch)
  unfolding pool_by_id process_by_key start_partner
  at_message_flow tenant ref vars processes pools mf =
      if not (mf.message_ref == ref) then pure [] else elim (pool_by_id mf.target_ref pools) [
        | none ↦ pure []
        | some pool ↦
            if is_empty pool.process_ref
            then pure []
            else start_partner tenant ref vars pool.process_ref
                (process_by_key pool.process_ref processes)
      ]

  unfoldable pub at_collaboration :
      String
      → String
      → Vars
      → List DeployedProcess
      → Option Collaboration
      → M (List TriggerMessageMatch)
  unfolding collect at_message_flow
  at_collaboration tenant ref vars processes none = pure []
  at_collaboration tenant ref vars processes (some c) =
      collect (at_message_flow tenant ref vars processes c.pools) c.message_flows

  unfoldable pub match_collaboration_message_flows :
      String → String → Vars → M (List TriggerMessageMatch)
  unfolding list_processes collect at_collaboration
  match_collaboration_message_flows tenant ref vars = do
    processes ← gets (λ s. list_processes tenant s.store)
    collect
        (λ (dp : DeployedProcess).
          at_collaboration tenant ref vars processes dp.definition.collaboration)
        processes

  unfoldable pub trigger_message : TriggerMessageRequest → M TriggerMessageResult
  unfolding list_processes message_starts match_boundary_events_on_instances
      match_collaboration_message_flows
  trigger_message req = do
    lift (reject_if (is_empty req.tenant_id || is_empty req.message_ref) trigger_request_incomplete)
    processes ← gets (λ s. list_processes req.tenant_id s.store)
    starts ← message_starts req processes
    boundary ← match_boundary_events_on_instances w fuel req.message_ref req.variables req.tenant_id
    partners ← match_collaboration_message_flows req.tenant_id req.message_ref req.variables
    pure (record {
      message_ref = req.message_ref;
      matches = starts ++ partners;
      boundary_matches = boundary;
    })

  -- The loops of the triggers that do not look for a running instance.
  unfoldable pub start_matching :
      String
      → String
      → Vars
      → (Element → Result Bool)
      → List DeployedProcess
      → M (List TriggerMessageMatch)
  unfolding collect at_start_event start_at
  start_matching tenant business_key vars matches processes =
      collect
        (λ (dp : DeployedProcess).
          collect
            (at_start_event dp.key matches (λ el. start_at tenant dp.key business_key vars el.id))
            dp.definition.elements)
        processes

  unfoldable pub trigger_signal : TriggerSignalRequest → M TriggerMessageResult
  unfolding list_processes start_matching signal_start_match
  trigger_signal req = do
    lift (reject_if (is_empty req.tenant_id || is_empty req.signal_ref) trigger_request_incomplete)
    processes ← gets (λ s. list_processes req.tenant_id s.store)
    starts ←
        start_matching req.tenant_id req.business_key req.variables
          (λ el. signal_start_match w.numerics el req.signal_ref req.variables) processes
    pure (record { message_ref = req.signal_ref; matches = starts; boundary_matches = [] })

  unfoldable pub trigger_conditional : TriggerConditionalRequest → M TriggerMessageResult
  unfolding list_processes start_matching conditional_start_match
  trigger_conditional req = do
    lift (reject_if (is_empty req.tenant_id) trigger_request_incomplete)
    processes ← gets (λ s. list_processes req.tenant_id s.store)
    starts ←
        start_matching req.tenant_id req.business_key req.variables
          (λ el. conditional_start_match w.numerics el req.variables) processes
    pure (record { message_ref = "conditional"; matches = starts; boundary_matches = [] })
