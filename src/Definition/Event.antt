-- ===== src/Definition/Event.antt =====
-- The records of internal/domain/definition/event.go and model.go that no variable stands in.
use lowcode_bpmn.Prelude.{String, Bool, Option, none, some}

-- EventDefinitionType; `blank` is the empty text.
pub data EventDefinitionType : Type 0 where
  blank none_event message signal timer conditional error_event : EventDefinitionType
  unknown_event : String → EventDefinitionType

pub record EventDefinition : Type 0 where
  pub type : EventDefinitionType
  pub message_ref : String
  pub signal_ref : String
  pub correlation_key : String
  pub condition : String
  pub timer_cycle : String
  pub error_ref : String

pub record MultiInstanceLoopCharacteristics : Type 0 where
  pub is_sequential : Bool
  pub collection : String
  pub element_variable : String

-- The empty type reads as `none`, and so does a missing definition.
unfoldable pub effective_event_type : Option EventDefinition → EventDefinitionType
effective_event_type none = none_event
effective_event_type (some e) = elim e.type [ blank ↦ none_event | t ↦ t ]
