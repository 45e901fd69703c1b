-- ===== src/Codec/Read.antt =====
-- internal/bpmnxml/codec.go: from the XML structures to the process definition.
use lowcode_bpmn.Prelude.{
  ltb, String, string_eq, Bool, true, false, ◌||◌, not, Option, none, some, List, [], ◌∷◌, ◌++◌,
  ◌==◌, map, filter, any, length, if◌then◌else◌,
}
use lowcode_bpmn.Text.{is_empty, trim_space, strip_prefix, split}
use lowcode_bpmn.Vars.{Vars, str, end, put}
use lowcode_bpmn.Definition.Event.{
  EventDefinition, EventDefinitionType, none_event, message, signal, timer, conditional,
  error_event, MultiInstanceLoopCharacteristics,
}
use lowcode_bpmn.Definition.Model
use lowcode_bpmn.Definition.Model.{
  ElementKind, Element, SequenceFlow, Lane, DataObject, DataStore, Pool, MessageFlow, Collaboration,
  ProcessDefinition, start_event, boundary_event, intermediate_catch_event,
  intermediate_throw_event,
}
use lowcode_bpmn.Errors.{Result, ok, err, ◌>>=◌, no_process_element, xml_process_id_required}
use lowcode_bpmn.Codec.{
  XmlParticipant, XmlMessageFlowEl, XmlCollaboration, XmlLane, XmlLaneSet, XmlNamedRef,
  XmlMultiInstance, XmlTimerEventDef, XmlConditionalDef, XmlScript, XmlProperty,
  XmlExtensionElements, XmlFlowElement, XmlProcess, XmlDefinitions, Xml,
}

unfoldable pub first_non_empty : String → String → String
first_non_empty a b = if is_empty a then b else a

abbrev push_char : Prim.Native.Char.Char → Option String → Option String
push_char c none = none
push_char c (some s) = some (String.◌∷◌ c s)

-- The text before the suffix, if the text ends with it.
unfoldable pub strip_suffix : String → String → Option String
strip_suffix suffix String.[] = if suffix == "" then some "" else none
strip_suffix suffix (String.◌∷◌ c s) =
    let rest = strip_suffix suffix s in
    if String.◌∷◌ c s == suffix then some "" else push_char c rest

abbrev or_text : String → Option String → String
or_text s none = s
or_text s (some t) = t

-- The body of `stripCDATA` behind the trimming.
unfoldable pub strip_section : String → String
unfolding strip_prefix strip_suffix
strip_section t = elim (strip_prefix "<![CDATA[" t) [
  | none ↦ t
  | some r ↦ elim (strip_suffix "]]>" t) [ none ↦ t | some _ ↦ or_text r (strip_suffix "]]>" r) ]
]

unfoldable pub strip_cdata : String → String
unfolding trim_space strip_section
strip_cdata s = strip_section (trim_space s)

unfoldable pub condition_body : Option String → String
unfolding trim_space strip_cdata
condition_body none = ""
condition_body (some body) = trim_space (strip_cdata body)

unfoldable pub split_csv : String → List String
unfolding split trim_space
split_csv s = filter (λ p. not (is_empty p)) (map trim_space (split b',' s))

unfoldable pub properties_value : String → List XmlProperty → String
properties_value name [] = ""
properties_value name (p ∷ ps) =
    let rest = properties_value name ps in if p.name == name then p.value else rest

unfoldable pub xml_local_to_kind : String → Option ElementKind
xml_local_to_kind local =
    if local == "startEvent"
    then some start_event
    else if local == "endEvent"
    then some Model.end_event
    else if local == "userTask"
    then some Model.user_task
    else if local == "scriptTask"
    then some Model.script_task
    else if local == "serviceTask"
    then some Model.service_task
    else if local == "sendTask"
    then some Model.send_task
    else if local == "receiveTask"
    then some Model.receive_task
    else if local == "businessRuleTask"
    then some Model.business_rule_task
    else if local == "exclusiveGateway"
    then some Model.exclusive_gateway
    else if local == "parallelGateway"
    then some Model.parallel_gateway
    else if local == "inclusiveGateway"
    then some Model.inclusive_gateway
    else if local == "subProcess"
    then some Model.sub_process
    else if local == "boundaryEvent"
    then some boundary_event
    else if local == "intermediateCatchEvent"
    then some intermediate_catch_event
    else if local == "intermediateThrowEvent"
    then some intermediate_throw_event
    else if local == "eventBasedGateway"
    then some Model.event_based_gateway
    else if local == "complexGateway"
    then some Model.complex_gateway
    else if local == "callActivity"
    then some Model.call_activity
    else none

-- The kinds that carry an event definition.
unfoldable pub needs_event_def_xml : ElementKind → Bool
needs_event_def_xml start_event = true
needs_event_def_xml boundary_event = true
needs_event_def_xml intermediate_catch_event = true
needs_event_def_xml intermediate_throw_event = true
needs_event_def_xml _ = false

abbrev pub event_of : EventDefinitionType → EventDefinition
event_of type = record {
  type = type;
  message_ref = "";
  signal_ref = "";
  correlation_key = "";
  condition = "";
  timer_cycle = "";
  error_ref = "";
}

unfoldable pub timer_text : XmlTimerEventDef → String
unfolding trim_space
timer_text t =
    if not (is_empty t.time_cycle) then trim_space t.time_cycle else trim_space t.time_date

-- The switch of `mapEventDef`: the first definition that the element has.
unfoldable pub map_event_type : XmlFlowElement → EventDefinition
unfolding timer_text condition_body trim_space
map_event_type fe = elim fe.message_event_def [
  | some ref ↦ record (event_of message) { message_ref = ref }
  | none ↦ elim fe.signal_event_def [
    | some ref ↦ record (event_of signal) { signal_ref = ref }
    | none ↦ elim fe.timer_event_def [
      | some t ↦ record (event_of timer) { timer_cycle = timer_text t }
      | none ↦ elim (condition_of fe.conditional_def) [
        | some body ↦ record (event_of conditional) {
          condition = trim_space (condition_body (some body));
        }
        | none ↦ elim fe.error_event_def [
          | some ref ↦ record (event_of error_event) { error_ref = ref }
          | none ↦ event_of none_event
        ]
      ]
    ]
  ]
]
  where
    condition_of : Option XmlConditionalDef → Option String
    condition_of none = none
    condition_of (some d) = d.condition

-- What the extensions add to it; the correlation key that the message case reads is read again here.
unfoldable pub map_event_def : XmlFlowElement → EventDefinition
unfolding map_event_type first_non_empty properties_value trim_space
map_event_def fe =
    let ed = map_event_type fe in
    elim fe.extension_elements [
      | none ↦ ed
      | some ext ↦ record ed {
        correlation_key = first_non_empty ext.correlation_key ext.lc_correlation_key;
        condition =
            if is_empty ed.condition
            then trim_space (properties_value "condition" ext.properties)
            else ed.condition;
      }
    ]

unfoldable pub put_properties : Vars → List XmlProperty → Vars
unfolding put
put_properties vars [] = vars
put_properties vars (p ∷ ps) = put_properties (put p.name (str p.value) vars) ps

unfoldable pub apply_extensions : XmlExtensionElements → Element → Element
unfolding first_non_empty split_csv put_properties
apply_extensions ext el =
    let assignees = first_non_empty ext.assignees ext.lc_assignees in
    record el {
      task_type = first_non_empty ext.task_type ext.lc_task_type;
      implementation = first_non_empty ext.implementation ext.lc_implementation;
      service_url = first_non_empty ext.service_url ext.lc_service_url;
      service_method = first_non_empty ext.service_method ext.lc_service_method;
      message_ref = first_non_empty ext.message_ref ext.lc_message_ref;
      decision_ref = first_non_empty ext.decision_ref ext.lc_decision_ref;
      script_lang = first_non_empty ext.script_lang el.script_lang;
      return_to = ext.return_to;
      on_reject = ext.on_reject;
      scope_id = ext.scope_id;
      entry_ref = ext.entry_ref;
      exit_ref = ext.exit_ref;
      auto_complete = elim ext.auto_complete [ none ↦ el.auto_complete | some b ↦ b ];
      assignees = if is_empty assignees then el.assignees else split_csv assignees;
      assignees_variable = ext.assignees_var;
      approval_mode = ext.approval_mode;
      form_key = ext.form_key;
      form_url = ext.form_url;
      extension_handler = ext.extension_handler;
      properties = put_properties el.properties ext.properties;
    }

abbrev pub blank_element : String → ElementKind → String → Element
blank_element id kind name = record {
  id = id;
  kind = kind;
  name = name;
  description = "";
  assignees = [];
  assignees_variable = "";
  approval_mode = "";
  required_approvals = 0;
  return_to = "";
  on_reject = "";
  scope_id = "";
  entry_ref = "";
  exit_ref = "";
  script = "";
  script_lang = "";
  task_type = "";
  implementation = "";
  service_url = "";
  service_method = "";
  message_ref = "";
  decision_ref = "";
  auto_complete = false;
  event_definition = none;
  attached_to_ref = "";
  cancel_activity = none;
  called_element = "";
  multi_instance = none;
  lane_ref = "";
  data_input_refs = [];
  data_output_refs = [];
  form_key = "";
  form_url = "";
  extension_handler = "";
  event_sub_process = false;
  properties = end;
}

unfoldable pub map_multi_instance : XmlMultiInstance → MultiInstanceLoopCharacteristics
map_multi_instance m = record {
  is_sequential = m.is_sequential;
  collection = m.collection;
  element_variable = m.element_variable;
}

abbrev pub read_multi : Option XmlMultiInstance → Option MultiInstanceLoopCharacteristics
read_multi none = none
read_multi (some m) = some (map_multi_instance m)

unfoldable pub apply_script : Option XmlScript → Element → Element
unfolding trim_space
apply_script none el = el
apply_script (some s) el = record el {
  script = trim_space s.body;
  script_lang = if is_empty s.format then "javascript" else s.format;
}

abbrev pub with_extensions : Option XmlExtensionElements → Element → Element
with_extensions none el = el
with_extensions (some ext) el = apply_extensions ext el

unfoldable pub map_element : ElementKind → XmlFlowElement → Element
unfolding map_multi_instance apply_script apply_extensions needs_event_def_xml map_event_def
map_element kind fe =
    let base : Element = record (blank_element fe.id kind fe.name) {
      attached_to_ref = fe.attached_to_ref;
      cancel_activity = fe.cancel_activity;
      called_element = fe.called_element;
      multi_instance = read_multi fe.multi_instance;
    } in
    record (with_extensions fe.extension_elements (apply_script fe.script base)) {
      event_definition = if needs_event_def_xml kind then some (map_event_def fe) else none;
    }

unfoldable pub map_flow : XmlFlowElement → SequenceFlow
unfolding condition_body trim_space
map_flow fe = record {
  id = fe.id;
  name = fe.name;
  source_ref = fe.source_ref;
  target_ref = fe.target_ref;
  condition = trim_space (condition_body fe.condition_expr);
  is_default = elim fe.default [ none ↦ false | some d ↦ true ];
}

-- The loop over the flow elements; what is neither a flow nor of a known kind is passed over.
unfoldable pub map_flow_elements : List XmlFlowElement → List Element × List SequenceFlow
unfolding map_flow map_element xml_local_to_kind
map_flow_elements [] = ([], [])
map_flow_elements (fe ∷ fes) =
    let rest = map_flow_elements fes in
    if fe.local == "sequenceFlow"
    then (rest.0, map_flow fe ∷ rest.1)
    else elim (xml_local_to_kind fe.local) [
      | none ↦ rest
      | some kind ↦ (map_element kind fe ∷ rest.0, rest.1)
    ]

abbrev pub map_lane : XmlLane → Lane
map_lane l = record { id = l.id; name = l.name; flow_node_refs = l.flow_node_refs }

unfoldable pub map_lanes : List XmlLaneSet → List Lane
map_lanes [] = []
map_lanes (ls ∷ sets) = map map_lane ls.lanes ++ map_lanes sets

abbrev pub read_object : XmlNamedRef → DataObject
read_object d = record { id = d.id; name = d.name }

abbrev pub read_store : XmlNamedRef → DataStore
read_store d = record { id = d.id; name = d.name }

unfoldable pub map_process : XmlProcess → Result ProcessDefinition
unfolding map_lanes map_flow_elements
map_process p =
    if is_empty p.id
    then err xml_process_id_required
    else ok (record {
      id = p.id;
      name = p.name;
      description = "";
      elements = (map_flow_elements p.flow_elements).0;
      flows = (map_flow_elements p.flow_elements).1;
      lane_set = map_lanes p.lane_sets;
      data_objects = map read_object p.data_objects;
      data_stores = map read_store p.data_stores;
      collaboration = none;
    })

abbrev pub map_pool : XmlParticipant → Pool
map_pool p = record { id = p.id; name = p.name; process_ref = p.process_ref }

abbrev pub map_message_flow : XmlMessageFlowEl → MessageFlow
map_message_flow mf = record {
  id = mf.id;
  name = mf.name;
  source_ref = mf.source_ref;
  target_ref = mf.target_ref;
  message_ref = mf.message_ref;
}

unfoldable pub is_relevant : String → XmlCollaboration → Bool
is_relevant process c =
    ltb 0 (length c.message_flows)
    || any (λ (p : XmlParticipant). is_empty p.process_ref || p.process_ref == process)
        c.participants

-- The first collaboration that is relevant for the process.
unfoldable pub map_collaboration_for_process : List XmlCollaboration → String → Option Collaboration
unfolding is_relevant
map_collaboration_for_process [] process = none
map_collaboration_for_process (c ∷ cs) process =
    let rest = map_collaboration_for_process cs process in
    if not (is_relevant process c)
    then rest
    else some (record {
      pools = map map_pool c.participants;
      message_flows = map map_message_flow c.message_flows;
    })

abbrev pub with_collaboration : Option Collaboration → ProcessDefinition → ProcessDefinition
with_collaboration none def = def
with_collaboration (some c) def = record def { collaboration = some c }

abbrev pub finish : Option Collaboration → Result ProcessDefinition → Result ProcessDefinition
finish c (err e) = err e
finish c (ok def) = ok (with_collaboration c def)

-- `Parse` behind the decoder.
unfoldable pub process_of_definitions : XmlDefinitions → Result ProcessDefinition
unfolding map_process map_collaboration_for_process
process_of_definitions root = elim root.processes [
  | [] ↦ err no_process_element
  | p ∷ ps ↦ finish (map_collaboration_for_process root.collaborations p.id) (map_process p)
]

unfoldable pub parse : {D : Type 0} → Xml D → D → Result ProcessDefinition
unfolding process_of_definitions
parse xml raw = xml.decode raw >>= process_of_definitions
