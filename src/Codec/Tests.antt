-- ===== src/Codec/Tests.antt =====
-- The theorems on the codec, on a concrete definition and a library that blanks the fields with a twin.
use lowcode_bpmn.Prelude.{some, [], ◌∷◌, ◌≡◌, refl}
use lowcode_bpmn.Definition.Model.{
  Element, ProcessDefinition, start_event, intermediate_catch_event, end_event, user_task,
  service_task,
}
use lowcode_bpmn.Definition.Event.{EventDefinition, timer}
use lowcode_bpmn.Codec.Events.{Shows, map_element-Shows}
use lowcode_bpmn.Text.{trim_space, strip_prefix}
use lowcode_bpmn.Errors.{ok}
use lowcode_bpmn.Codec.{XmlDefinitions, XmlFlowElement, Xml}
use lowcode_bpmn.Codec.Read.{parse, map_element}
use lowcode_bpmn.Codec.Write.{
  attach_event_def, marshal, definitions_of_process, element_to_xml, plain_xml,
  extensions_from_element, build_xml_process,
}
use lowcode_bpmn.Codec.RoundTrip.Carried.{Carries, erased, erased_element}
use lowcode_bpmn.Codec.RoundTrip.{Kept, parse-marshal}
use lowcode_bpmn.Engine.Samples.{node, flow, process, numerics}

abbrev call : Element
call = record (node "call" service_task) {
  service_url = "http://localhost/approve";
  service_method = "POST";
  on_reject = "ask";
}

abbrev def : ProcessDefinition
def =
    record (process
      (node "s" start_event
        ∷ record (node "ask" user_task) {
          assignees = "ann" ∷ [];
          approval_mode = "all";
          scope_id = "review";
        }
        ∷ call
        ∷ node "e" end_event
        ∷ [])
      (flow "f1" "s" "ask"
        ∷ record (flow "f2" "ask" "call") { condition = "amount >= 10" }
        ∷ flow "f3" "call" "e"
        ∷ [])) {
          id = "leave";
          lane_set = record { id = "hr"; name = "HR"; flow_node_refs = "ask" ∷ [] } ∷ [];
          data_objects = record { id = "d1"; name = "form" } ∷ [];
          collaboration = some (record {
            pools = record { id = "p1"; name = "Staff"; process_ref = "leave" } ∷ [];
            message_flows = [];
          });
        }

abbrev library : Xml XmlDefinitions
library = record { encode = ok; decode = λ root. ok (erased root) }

carried : Carries library (definitions_of_process numerics def)
unfolding definitions_of_process build_xml_process element_to_xml plain_xml extensions_from_element
carried = record {
  written = definitions_of_process numerics def;
  writes = refl;
  back = erased (definitions_of_process numerics def);
  reads = refl;
  same = refl;
}

parse-marshal_example :
    (marshal numerics library def ≡ ok carried.written)
    × ((out : ProcessDefinition) × (parse library carried.written ≡ ok out) × Kept def out)
unfolding strip_prefix trim_space
parse-marshal_example =
    parse-marshal numerics def library refl (refl, (refl, (refl, (refl, tt))))
      (refl, (refl, (refl, tt))) refl carried

abbrev blanked : XmlFlowElement
blanked = erased_element (element_to_xml numerics call)

abbrev due : EventDefinition
due = record {
  type = timer;
  message_ref = "";
  signal_ref = "";
  correlation_key = "order.id";
  condition = "";
  timer_cycle = "R/PT1H";
  error_ref = "";
}

abbrev reminder : Element
reminder = record (node "remind" intermediate_catch_event) {
  event_definition = some due;
  form_key = "f";
}

abbrev read_reminder : XmlFlowElement
read_reminder = erased_element (element_to_xml numerics reminder)

map_element-Shows_example :
    (got : EventDefinition) × ((map_element intermediate_catch_event read_reminder).event_definition
      ≡ some got)
    × Shows timer "R/PT1H" got
unfolding trim_space element_to_xml plain_xml extensions_from_element attach_event_def
map_element-Shows_example =
    map_element-Shows numerics reminder due read_reminder refl refl refl refl
