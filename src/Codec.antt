-- ===== src/Codec.antt =====
-- internal/bpmnxml/codec.go: the XML structures of a process definition. Names stand without their namespace,
-- and the encoder and decoder of encoding/xml are parameters.
pub mod Read
pub mod Write
pub mod RoundTrip
pub mod Extensions
pub mod Events
mod Tests
use lowcode_bpmn.Errors.{Result}
use lowcode_bpmn.Prelude.{String, Bool, Option, List}

pub record XmlParticipant : Type 0 where
  pub id : String
  pub name : String
  pub process_ref : String

pub record XmlMessageFlowEl : Type 0 where
  pub id : String
  pub name : String
  pub source_ref : String
  pub target_ref : String
  pub message_ref : String

pub record XmlCollaboration : Type 0 where
  pub id : String
  pub participants : List XmlParticipant
  pub message_flows : List XmlMessageFlowEl

pub record XmlLane : Type 0 where
  pub id : String
  pub name : String
  pub flow_node_refs : List String

pub record XmlLaneSet : Type 0 where
  pub id : String
  pub lanes : List XmlLane

pub record XmlNamedRef : Type 0 where
  pub id : String
  pub name : String

pub record XmlMultiInstance : Type 0 where
  pub is_sequential : Bool
  pub collection : String
  pub element_variable : String

pub record XmlTimerEventDef : Type 0 where
  pub time_cycle : String
  pub time_date : String

-- The condition, with its inner XML.
pub record XmlConditionalDef : Type 0 where
  pub condition : Option String

pub record XmlScript : Type 0 where
  pub format : String
  pub body : String

pub record XmlProperty : Type 0 where
  pub name : String
  pub value : String

-- The fields with the prefix `lc_` are those of the extension namespace.
pub record XmlExtensionElements : Type 0 where
  pub task_type : String
  pub assignees : String
  pub assignees_var : String
  pub approval_mode : String
  pub script_lang : String
  pub auto_complete : Option Bool
  pub implementation : String
  pub service_url : String
  pub service_method : String
  pub message_ref : String
  pub decision_ref : String
  pub correlation_key : String
  pub return_to : String
  pub on_reject : String
  pub scope_id : String
  pub entry_ref : String
  pub exit_ref : String
  pub form_key : String
  pub form_url : String
  pub extension_handler : String
  pub properties : List XmlProperty
  pub lc_task_type : String
  pub lc_assignees : String
  pub lc_implementation : String
  pub lc_service_url : String
  pub lc_service_method : String
  pub lc_message_ref : String
  pub lc_decision_ref : String
  pub lc_correlation_key : String

-- The definitions of message, signal and error events are the reference that they hold, and a condition
-- expression is its inner XML.
pub record XmlFlowElement : Type 0 where
  pub local : String
  pub id : String
  pub name : String
  pub source_ref : String
  pub target_ref : String
  pub attached_to_ref : String
  pub cancel_activity : Option Bool
  pub called_element : String
  pub message_event_def : Option String
  pub signal_event_def : Option String
  pub timer_event_def : Option XmlTimerEventDef
  pub conditional_def : Option XmlConditionalDef
  pub error_event_def : Option String
  pub multi_instance : Option XmlMultiInstance
  pub condition_expr : Option String
  pub default : Option String
  pub extension_elements : Option XmlExtensionElements
  pub script : Option XmlScript

pub record XmlProcess : Type 0 where
  pub id : String
  pub name : String
  pub executable : Bool
  pub lane_sets : List XmlLaneSet
  pub data_objects : List XmlNamedRef
  pub data_stores : List XmlNamedRef
  pub flow_elements : List XmlFlowElement

pub record XmlDefinitions : Type 0 where
  pub collaborations : List XmlCollaboration
  pub processes : List XmlProcess

-- The encoder, with its header, and the decoder of encoding/xml on texts of the type `D`.
pub record Xml (D : Type 0) : Type 0 where
  pub encode : XmlDefinitions → Result D
  pub decode : D → Result XmlDefinitions
