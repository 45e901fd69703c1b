-- ===== src/Definition/Model.antt =====
-- internal/domain/definition/model.go. A kind is its text in the source; `unknown_kind` is any other.
use lowcode_bpmn.Prelude.{ℕ, String, Bool, Option, List}
use lowcode_bpmn.Definition.Event.{EventDefinition, MultiInstanceLoopCharacteristics}
use lowcode_bpmn.Vars.{Vars}

pub data ElementKind : Type 0 where
  start_event end_event user_task script_task service_task send_task receive_task : ElementKind
  business_rule_task exclusive_gateway parallel_gateway inclusive_gateway sub_process : ElementKind
  boundary_event intermediate_catch_event intermediate_throw_event : ElementKind
  event_based_gateway complex_gateway call_activity : ElementKind
  unknown_kind : String → ElementKind

unfoldable pub kind_name : ElementKind → String
kind_name start_event = "startEvent"
kind_name end_event = "endEvent"
kind_name user_task = "userTask"
kind_name script_task = "scriptTask"
kind_name service_task = "serviceTask"
kind_name send_task = "sendTask"
kind_name receive_task = "receiveTask"
kind_name business_rule_task = "businessRuleTask"
kind_name exclusive_gateway = "exclusiveGateway"
kind_name parallel_gateway = "parallelGateway"
kind_name inclusive_gateway = "inclusiveGateway"
kind_name sub_process = "subProcess"
kind_name boundary_event = "boundaryEvent"
kind_name intermediate_catch_event = "intermediateCatchEvent"
kind_name intermediate_throw_event = "intermediateThrowEvent"
kind_name event_based_gateway = "eventBasedGateway"
kind_name complex_gateway = "complexGateway"
kind_name call_activity = "callActivity"
kind_name (unknown_kind k) = k

pub record Lane : Type 0 where
  pub id : String
  pub name : String
  pub flow_node_refs : List String

pub record DataObject : Type 0 where
  pub id : String
  pub name : String

pub record DataStore : Type 0 where
  pub id : String
  pub name : String

pub record Pool : Type 0 where
  pub id : String
  pub name : String
  pub process_ref : String

pub record MessageFlow : Type 0 where
  pub id : String
  pub name : String
  pub source_ref : String
  pub target_ref : String
  pub message_ref : String

pub record Collaboration : Type 0 where
  pub pools : List Pool
  pub message_flows : List MessageFlow

pub record Element : Type 0 where
  pub id : String
  pub kind : ElementKind
  pub name : String
  pub description : String
  pub assignees : List String
  pub assignees_variable : String
  pub approval_mode : String
  pub required_approvals : ℕ
  pub return_to : String
  pub on_reject : String
  pub scope_id : String
  pub entry_ref : String
  pub exit_ref : String
  pub script : String
  pub script_lang : String
  pub task_type : String
  pub implementation : String
  pub service_url : String
  pub service_method : String
  pub message_ref : String
  pub decision_ref : String
  pub auto_complete : Bool
  pub event_definition : Option EventDefinition
  pub attached_to_ref : String
  pub cancel_activity : Option Bool
  pub called_element : String
  pub multi_instance : Option MultiInstanceLoopCharacteristics
  pub lane_ref : String
  pub data_input_refs : List String
  pub data_output_refs : List String
  pub form_key : String
  pub form_url : String
  pub extension_handler : String
  pub event_sub_process : Bool
  pub properties : Vars

pub record SequenceFlow : Type 0 where
  pub id : String
  pub source_ref : String
  pub target_ref : String
  pub name : String
  pub condition : String
  pub is_default : Bool

pub record ProcessDefinition : Type 0 where
  pub id : String
  pub name : String
  pub description : String
  pub elements : List Element
  pub flows : List SequenceFlow
  pub lane_set : List Lane
  pub data_objects : List DataObject
  pub data_stores : List DataStore
  pub collaboration : Option Collaboration
