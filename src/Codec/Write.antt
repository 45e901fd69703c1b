-- ===== src/Codec/Write.antt =====
-- internal/bpmnxml/codec.go: from the process definition to the XML structures.
use Prim.Native.String
use lowcode_bpmn.Prelude.{
  ltb, String, Bool, true, false, ◌&&◌, not, Option, none, some, List, [], ◌∷◌, ◌++◌, map, length,
  nat_beq, if◌then◌else◌,
}
use lowcode_bpmn.Text.{is_empty}
use lowcode_bpmn.Vars.{Vars, Value, str, end, field}
use lowcode_bpmn.Definition.Event.{
  EventDefinition, EventDefinitionType, message, signal, timer, conditional, error_event,
  effective_event_type, MultiInstanceLoopCharacteristics,
}
use lowcode_bpmn.Definition.Model.{
  kind_name, Element, SequenceFlow, Lane, DataObject, DataStore, Pool, MessageFlow, Collaboration,
  ProcessDefinition,
}
use lowcode_bpmn.Definition.Expression.{Numerics}
use lowcode_bpmn.Errors.{Result}
use lowcode_bpmn.Codec.{
  XmlParticipant, XmlMessageFlowEl, XmlCollaboration, XmlLane, XmlLaneSet, XmlNamedRef,
  XmlMultiInstance, XmlProperty, XmlExtensionElements, XmlFlowElement, XmlProcess, XmlDefinitions,
  Xml,
}
use lowcode_bpmn.Codec.Read.{first_non_empty, needs_event_def_xml}

-- strings.Join(list, ",")
unfoldable pub join_csv : List String → String
join_csv [] = ""
join_csv (s ∷ []) = s
join_csv (s ∷ t ∷ l) = Prim.Native.String.◌++◌ s (Prim.Native.String.◌++◌ "," (join_csv (t ∷ l)))

abbrev pub no_extensions : XmlExtensionElements
no_extensions = record {
  task_type = "";
  assignees = "";
  assignees_var = "";
  approval_mode = "";
  script_lang = "";
  auto_complete = none;
  implementation = "";
  service_url = "";
  service_method = "";
  message_ref = "";
  decision_ref = "";
  correlation_key = "";
  return_to = "";
  on_reject = "";
  scope_id = "";
  entry_ref = "";
  exit_ref = "";
  form_key = "";
  form_url = "";
  extension_handler = "";
  properties = [];
  lc_task_type = "";
  lc_assignees = "";
  lc_implementation = "";
  lc_service_url = "";
  lc_service_method = "";
  lc_message_ref = "";
  lc_decision_ref = "";
  lc_correlation_key = "";
}

abbrev pub is_end : Vars → Bool
is_end end = true
is_end (field k v m) = false

-- The fields that make no extension element necessary; the service method is not among them.
unfoldable pub is_plain : Element → Bool
is_plain el =
    is_empty el.task_type
    && is_empty el.implementation
    && is_empty el.service_url
    && is_empty el.message_ref
    && is_empty el.decision_ref
    && nat_beq (length el.assignees) 0
    && is_empty el.assignees_variable
    && is_empty el.approval_mode
    && not el.auto_complete
    && is_empty el.return_to
    && is_empty el.on_reject
    && is_empty el.scope_id
    && is_empty el.entry_ref
    && is_empty el.exit_ref
    && is_empty el.script_lang
    && is_empty el.form_key
    && is_empty el.form_url
    && is_empty el.extension_handler
    && is_end el.properties

abbrev pub write_object : DataObject → XmlNamedRef
write_object d = record { id = d.id; name = d.name }

abbrev pub write_store : DataStore → XmlNamedRef
write_store d = record { id = d.id; name = d.name }

module _ (n : Numerics) where
  -- fmt.Sprint
  abbrev pub printed : Value → String
  printed (str s) = s
  printed v = n.sprint v

  unfoldable pub xml_properties : Vars → List XmlProperty
  xml_properties end = []
  xml_properties (field k v m) = record { name = k; value = printed v } ∷ xml_properties m

  unfoldable pub extensions_from_element : Element → Option XmlExtensionElements
  unfolding is_plain join_csv xml_properties
  extensions_from_element el =
      if is_plain el
      then none
      else some (record no_extensions {
        task_type = el.task_type;
        implementation = el.implementation;
        service_url = el.service_url;
        service_method = el.service_method;
        message_ref = el.message_ref;
        decision_ref = el.decision_ref;
        script_lang = el.script_lang;
        assignees_var = el.assignees_variable;
        approval_mode = el.approval_mode;
        return_to = el.return_to;
        on_reject = el.on_reject;
        scope_id = el.scope_id;
        entry_ref = el.entry_ref;
        exit_ref = el.exit_ref;
        form_key = el.form_key;
        form_url = el.form_url;
        extension_handler = el.extension_handler;
        auto_complete = if el.auto_complete then some true else none;
        assignees = if ltb 0 (length el.assignees) then join_csv el.assignees else "";
        properties = xml_properties el.properties;
      })

  abbrev pub attach_type : EventDefinitionType → EventDefinition → XmlFlowElement → XmlFlowElement
  attach_type message ed fe = record fe { message_event_def = some ed.message_ref }
  attach_type signal ed fe = record fe { signal_event_def = some ed.signal_ref }
  attach_type timer ed fe = record fe {
    timer_event_def = some (record { time_cycle = ed.timer_cycle; time_date = "" });
  }
  attach_type conditional ed fe = record fe {
    conditional_def = some (record { condition = some ed.condition });
  }
  attach_type error_event ed fe = record fe { error_event_def = some ed.error_ref }
  attach_type _ ed fe = fe

  abbrev pub with_correlation : String → Option XmlExtensionElements → Option XmlExtensionElements
  with_correlation key none =
      if is_empty key then none else some (record no_extensions { correlation_key = key })
  with_correlation key (some ext) =
      if is_empty key then some ext else some (record ext { correlation_key = key })

  unfoldable pub attach_event_def : EventDefinition → XmlFlowElement → XmlFlowElement
  unfolding effective_event_type
  attach_event_def ed fe =
      let fe' = attach_type (effective_event_type (some ed)) ed fe in
      record fe' { extension_elements = with_correlation ed.correlation_key fe'.extension_elements }

  abbrev pub blank_xml : String → String → String → XmlFlowElement
  blank_xml local id name = record {
    local = local;
    id = id;
    name = name;
    source_ref = "";
    target_ref = "";
    attached_to_ref = "";
    cancel_activity = none;
    called_element = "";
    message_event_def = none;
    signal_event_def = none;
    timer_event_def = none;
    conditional_def = none;
    error_event_def = none;
    multi_instance = none;
    condition_expr = none;
    default = none;
    extension_elements = none;
    script = none;
  }

  unfoldable pub multi_instance_to_xml : MultiInstanceLoopCharacteristics → XmlMultiInstance
  multi_instance_to_xml m = record {
    is_sequential = m.is_sequential;
    collection = m.collection;
    element_variable = m.element_variable;
  }

  abbrev pub attach_event : Bool → Option EventDefinition → XmlFlowElement → XmlFlowElement
  attach_event true (some ed) fe = attach_event_def ed fe
  attach_event _ _ fe = fe

  abbrev pub write_multi : Option MultiInstanceLoopCharacteristics → Option XmlMultiInstance
  write_multi none = none
  write_multi (some m) = some (multi_instance_to_xml m)

  -- The element without its event.
  unfoldable pub plain_xml : Element → XmlFlowElement
  unfolding kind_name multi_instance_to_xml extensions_from_element
  plain_xml el = record (blank_xml (kind_name el.kind) el.id el.name) {
    attached_to_ref = el.attached_to_ref;
    cancel_activity = el.cancel_activity;
    called_element = el.called_element;
    multi_instance = write_multi el.multi_instance;
    script =
        if is_empty el.script
        then none
        else some (record { format = el.script_lang; body = el.script });
    extension_elements = extensions_from_element el;
  }

  unfoldable pub element_to_xml : Element → XmlFlowElement
  unfolding plain_xml needs_event_def_xml attach_event_def
  element_to_xml el = attach_event (needs_event_def_xml el.kind) el.event_definition (plain_xml el)

  unfoldable pub flow_to_xml : SequenceFlow → XmlFlowElement
  flow_to_xml f = record (blank_xml "sequenceFlow" f.id f.name) {
    source_ref = f.source_ref;
    target_ref = f.target_ref;
    condition_expr = if is_empty f.condition then none else some f.condition;
    default = if f.is_default then some "" else none;
  }

  abbrev pub lane_to_xml : Lane → XmlLane
  lane_to_xml l = record { id = l.id; name = l.name; flow_node_refs = l.flow_node_refs }

  abbrev pub lane_sets_to_xml : List Lane → List XmlLaneSet
  lane_sets_to_xml [] = []
  lane_sets_to_xml (l ∷ lanes) = record { id = ""; lanes = map lane_to_xml (l ∷ lanes) } ∷ []

  unfoldable pub build_xml_process : ProcessDefinition → XmlProcess
  unfolding element_to_xml flow_to_xml
  build_xml_process def = record {
    id = def.id;
    name = def.name;
    executable = true;
    lane_sets = lane_sets_to_xml def.lane_set;
    data_objects = map write_object def.data_objects;
    data_stores = map write_store def.data_stores;
    flow_elements = map element_to_xml def.elements ++ map flow_to_xml def.flows;
  }

  abbrev pub participant_to_xml : String → Pool → XmlParticipant
  participant_to_xml process p = record {
    id = p.id;
    name = p.name;
    process_ref = first_non_empty p.process_ref process;
  }

  abbrev pub message_flow_to_xml : MessageFlow → XmlMessageFlowEl
  message_flow_to_xml mf = record {
    id = mf.id;
    name = mf.name;
    source_ref = mf.source_ref;
    target_ref = mf.target_ref;
    message_ref = mf.message_ref;
  }

  unfoldable pub build_xml_collaboration : Collaboration → String → XmlCollaboration
  unfolding first_non_empty
  build_xml_collaboration c process = record {
    id = "";
    participants = map (participant_to_xml process) c.pools;
    message_flows = map message_flow_to_xml c.message_flows;
  }

  abbrev pub collaborations_to_xml : Option Collaboration → String → List XmlCollaboration
  collaborations_to_xml none process = []
  collaborations_to_xml (some c) process = build_xml_collaboration c process ∷ []

  -- `Marshal` before the encoder.
  unfoldable pub definitions_of_process : ProcessDefinition → XmlDefinitions
  unfolding build_xml_process build_xml_collaboration
  definitions_of_process def = record {
    collaborations = collaborations_to_xml def.collaboration def.id;
    processes = build_xml_process def ∷ [];
  }

  unfoldable pub marshal : {D : Type 0} → Xml D → ProcessDefinition → Result D
  unfolding definitions_of_process
  marshal xml def = xml.encode (definitions_of_process def)
