-- ===== src/Codec/RoundTrip.antt =====
-- internal/bpmnxml/codec.go: what is written is read again.
pub mod Flows
pub mod Elements
pub mod Collaborations
pub mod Carried
use lowcode_bpmn.Prelude.{
  ltb, String, string_eq, Bool, true, false, ◌&&◌, ◌||◌, not, Option, none, some, List, [], ◌∷◌,
  ◌++◌, ◌==◌, map, any, All, length, ◌≡◌, refl, sym, ap, ◌∙◌, arith, Bool-cases, Option-cases, inl,
  inr, and-eq-true, not-eq-true, eq_of_==,
}
use mathlib.Core.List.{append-nil}
use lowcode_bpmn.Text.{is_empty, trim_space, strip_prefix}
use lowcode_bpmn.Definition.Event.{
  EventDefinition, EventDefinitionType, blank, none_event, message, signal, timer, conditional,
  error_event, unknown_event, effective_event_type, MultiInstanceLoopCharacteristics,
}
use lowcode_bpmn.Definition.Model
use lowcode_bpmn.Definition.Model.{
  ElementKind, kind_name, Element, SequenceFlow, Lane, DataObject, DataStore, Pool, MessageFlow,
  Collaboration, ProcessDefinition,
}
use lowcode_bpmn.Definition.Expression.{Numerics}
use lowcode_bpmn.Errors.{Result, ok, ◌>>=◌}
use lowcode_bpmn.Codec.{Xml, XmlFlowElement, XmlExtensionElements, XmlScript, XmlParticipant}
use lowcode_bpmn.Codec.Read.{
  first_non_empty, strip_section, strip_cdata, condition_body, read_multi, xml_local_to_kind,
  needs_event_def_xml, blank_element, apply_script, apply_extensions, with_extensions,
  map_multi_instance, map_element, map_flow, map_flow_elements, map_lanes, map_lane, map_process,
  map_pool, map_message_flow, is_relevant, map_collaboration_for_process, read_object, read_store,
  with_collaboration, finish, process_of_definitions, parse,
}
use lowcode_bpmn.Codec.Write.{
  multi_instance_to_xml, write_multi, plain_xml, attach_type, attach_event, attach_event_def,
  element_to_xml, flow_to_xml, lane_to_xml, lane_sets_to_xml, build_xml_process, participant_to_xml,
  message_flow_to_xml, build_xml_collaboration, collaborations_to_xml, write_object, write_store,
  definitions_of_process, marshal,
}
use lowcode_bpmn.Codec.RoundTrip.Flows.{reads_plain}
use lowcode_bpmn.Codec.RoundTrip.Elements.{seen, is_known, flows_read, elements_read}
use lowcode_bpmn.Codec.RoundTrip.Carried.{Carries, view, view-same, view-eq-ok}
use lowcode_bpmn.Codec.RoundTrip.Collaborations.{is_kept, collaboration_read}

module _ (n : Numerics) where
  each_lane : (lanes : List Lane) → map map_lane (map (lane_to_xml n) lanes) ≡ lanes
  each_lane [] = refl
  each_lane (l ∷ lanes) = ap (λ (rest : List Lane). l ∷ rest) (each_lane lanes)

  lanes_read : (lanes : List Lane) → map_lanes (lane_sets_to_xml n lanes) ≡ lanes
  unfolding map_lanes
  lanes_read [] = refl
  lanes_read (l ∷ lanes) = append-nil _ ∙ each_lane (l ∷ lanes)

-- What is written and read again is the same, its elements as far as `seen` shows them.
pub record Kept (def out : ProcessDefinition) : Type 0 where
  pub same_id : out.id ≡ def.id
  pub same_name : out.name ≡ def.name
  pub nodes : map seen out.elements ≡ map seen def.elements
  pub flows : out.flows ≡ def.flows
  pub lane_set : out.lane_set ≡ def.lane_set
  pub data_objects : out.data_objects ≡ def.data_objects
  pub data_stores : out.data_stores ≡ def.data_stores
  pub collaboration : out.collaboration ≡ def.collaboration

module _ (n : Numerics) (def : ProcessDefinition) where
  read_back : ProcessDefinition
  read_back = record {
    id = def.id;
    name = def.name;
    description = "";
    elements = (map_flow_elements (build_xml_process n def).flow_elements).0;
    flows = (map_flow_elements (build_xml_process n def).flow_elements).1;
    lane_set = map_lanes (lane_sets_to_xml n def.lane_set);
    data_objects = map read_object (map write_object def.data_objects);
    data_stores = map read_store (map write_store def.data_stores);
    collaboration = none;
  }

  objects_read : (l : List DataObject) → map read_object (map write_object l) ≡ l
  objects_read [] = refl
  objects_read (d ∷ l) = ap (λ (rest : List DataObject). d ∷ rest) (objects_read l)

  stores_read : (l : List DataStore) → map read_store (map write_store l) ≡ l
  stores_read [] = refl
  stores_read (d ∷ l) = ap (λ (rest : List DataStore). d ∷ rest) (stores_read l)

  -- The structures of the elements and flows, read again.
  nodes_and_flows :
      All (λ (el : Element). is_known el.kind ≡ true) def.elements
      → All (λ (f : SequenceFlow). reads_plain f.condition ≡ true) def.flows
      → (map seen read_back.elements ≡ map seen def.elements) × (read_back.flows ≡ def.flows)
  unfolding read_back build_xml_process
  nodes_and_flows known plain =
      let (nodes, flows) = elements_read n def.elements (map (flow_to_xml n) def.flows) known in
      let read = flows_read n def.flows plain in
      (
        nodes
            ∙ ap (λ (r : List Element × List SequenceFlow). map seen def.elements ++ map seen r.0)
                read
            ∙ append-nil (map seen def.elements),
        flows ∙ ap (λ (r : List Element × List SequenceFlow). r.1) read,
      )

  Kept-with :
      (c : Option Collaboration)
      → (map seen read_back.elements ≡ map seen def.elements) × (read_back.flows ≡ def.flows)
      → c ≡ def.collaboration
      → Kept def (with_collaboration c read_back)
  unfolding read_back
  Kept-with none (nodes, flows) same = record {
    same_id = refl;
    same_name = refl;
    nodes = nodes;
    flows = flows;
    lane_set = lanes_read n def.lane_set;
    data_objects = objects_read def.data_objects;
    data_stores = stores_read def.data_stores;
    collaboration = same;
  }
  Kept-with (some c) (nodes, flows) same = record {
    same_id = refl;
    same_name = refl;
    nodes = nodes;
    flows = flows;
    lane_set = lanes_read n def.lane_set;
    data_objects = objects_read def.data_objects;
    data_stores = stores_read def.data_stores;
    collaboration = same;
  }

  process_read : is_empty def.id ≡ false → map_process (build_xml_process n def) ≡ ok read_back
  unfolding map_process build_xml_process read_back
  process_read named = rw (map_process, named) refl

  finished :
      (back : Result ProcessDefinition)
      → map_process (build_xml_process n def) ≡ back
      → process_of_definitions (definitions_of_process n def)
        ≡ finish
            (map_collaboration_for_process
              (collaborations_to_xml n def.collaboration def.id)
              def.id)
            back
  unfolding process_of_definitions definitions_of_process
  finished back h = rw (process_of_definitions, h) refl

  read_structure :
      is_empty def.id ≡ false
      → is_kept n def.id def.collaboration ≡ true
      → process_of_definitions (definitions_of_process n def)
        ≡ ok (with_collaboration def.collaboration read_back)
  read_structure named kept =
      finished (ok read_back) (process_read named)
      ∙ ap (λ (d : Option Collaboration). ok (with_collaboration d read_back))
          (collaboration_read n def.id def.collaboration kept)

  Kept-view :
      (mid out : ProcessDefinition)
      → record out { elements = map seen out.elements }
        ≡ record mid { elements = map seen mid.elements }
      → Kept def mid
      → Kept def out
  Kept-view mid out e k = record {
    same_id = ap (λ (d : ProcessDefinition). d.id) e ∙ k.same_id;
    same_name = ap (λ (d : ProcessDefinition). d.name) e ∙ k.same_name;
    nodes = ap (λ (d : ProcessDefinition). d.elements) e ∙ k.nodes;
    flows = ap (λ (d : ProcessDefinition). d.flows) e ∙ k.flows;
    lane_set = ap (λ (d : ProcessDefinition). d.lane_set) e ∙ k.lane_set;
    data_objects = ap (λ (d : ProcessDefinition). d.data_objects) e ∙ k.data_objects;
    data_stores = ap (λ (d : ProcessDefinition). d.data_stores) e ∙ k.data_stores;
    collaboration = ap (λ (d : ProcessDefinition). d.collaboration) e ∙ k.collaboration;
  }

  -- A definition with an id, whose elements are of known kinds, whose conditions are trimmed and start no CDATA
  -- section, and whose collaboration is its own with a process for every pool, and whose structure the library
  -- for XML carries, but for the extension fields that share a name with another, is marshalled without an error,
  -- and the text is parsed as a definition with the same id, name, flows, lanes, data and collaboration, and with
  -- the same elements in order, each with its id, kind, name, host, called element, loop, variable of assignees,
  -- approval mode, return and rejection targets, scope and its ends, automatic completion, form and handler.
  pub parse-marshal :
      {D : Type 0} (xml : Xml D)
      → is_empty def.id ≡ false
      → All (λ (el : Element). is_known el.kind ≡ true) def.elements
      → All (λ (f : SequenceFlow). reads_plain f.condition ≡ true) def.flows
      → is_kept n def.id def.collaboration ≡ true
      → (carried : Carries xml (definitions_of_process n def))
      → (marshal n xml def ≡ ok carried.written)
        × ((out : ProcessDefinition) × (parse xml carried.written ≡ ok out) × Kept def out)
  unfolding parse marshal
  parse-marshal xml named known plain kept carried =
      let mid = with_collaboration def.collaboration read_back in
      let (out, read, e) = view-eq-ok (process_of_definitions carried.back) mid (
        view-same carried.back (definitions_of_process n def) carried.same
        ∙ ap view (read_structure named kept)) in
      (
        carried.writes,
        (
          out,
          ap (λ r. r >>= process_of_definitions) carried.reads ∙ read,
          Kept-view mid out e (Kept-with def.collaboration (nodes_and_flows known plain) refl),
        ),
      )
