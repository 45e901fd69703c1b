-- ===== src/Codec/RoundTrip/Elements.antt =====
-- internal/bpmnxml/codec.go: the elements that are written and read again.
use lowcode_bpmn.Prelude.{
  string_eq, Bool, true, false, Option, none, some, List, [], ◌∷◌, ◌++◌, ◌==◌, map, All, ◌≡◌, refl,
  ap, ◌∙◌,
}
use lowcode_bpmn.Definition.Event.{
  EventDefinition, EventDefinitionType, blank, none_event, message, signal, timer, conditional,
  error_event, unknown_event, effective_event_type, MultiInstanceLoopCharacteristics,
}
use lowcode_bpmn.Definition.Model
use lowcode_bpmn.Definition.Model.{
  ElementKind, kind_name, Element, SequenceFlow, Lane, DataObject, DataStore, Pool, MessageFlow,
  Collaboration, ProcessDefinition,
}
use lowcode_bpmn.Definition.Expression.{Numerics}
use lowcode_bpmn.Codec.{XmlFlowElement, XmlExtensionElements, XmlScript}
use lowcode_bpmn.Codec.Read.{
  read_multi, xml_local_to_kind, needs_event_def_xml, blank_element, apply_script, apply_extensions,
  with_extensions, map_multi_instance, map_element, map_flow_elements,
}
use lowcode_bpmn.Codec.Write.{
  multi_instance_to_xml, write_multi, plain_xml, attach_type, attach_event, attach_event_def,
  element_to_xml, flow_to_xml,
}
use lowcode_bpmn.Codec.Extensions.{
  extension_fields, read_fields, extension_fields-map_element, read_fields-element_to_xml,
}
use lowcode_bpmn.Codec.RoundTrip.Flows.{reads_plain, map_flow-flow_to_xml}

-- What an element keeps whatever its extensions are.
abbrev pub skeleton : Element → Element
skeleton el = record (blank_element el.id el.kind el.name) {
  attached_to_ref = el.attached_to_ref;
  cancel_activity = el.cancel_activity;
  called_element = el.called_element;
  multi_instance = el.multi_instance;
}

abbrev pub xml_skeleton : ElementKind → XmlFlowElement → Element
xml_skeleton kind fe = record (blank_element fe.id kind fe.name) {
  attached_to_ref = fe.attached_to_ref;
  cancel_activity = fe.cancel_activity;
  called_element = fe.called_element;
  multi_instance = read_multi fe.multi_instance;
}

skeleton-with_extensions :
    (ext : Option XmlExtensionElements) (el : Element)
    → skeleton (with_extensions ext el) ≡ skeleton el
unfolding apply_extensions
skeleton-with_extensions none el = refl
skeleton-with_extensions (some ext) el = refl

skeleton-apply_script :
    (s : Option XmlScript) (el : Element) → skeleton (apply_script s el) ≡ skeleton el
unfolding apply_script
skeleton-apply_script none el = refl
skeleton-apply_script (some s) el = refl

skeleton-map_element :
    (kind : ElementKind) (fe : XmlFlowElement)
    → skeleton (map_element kind fe) ≡ xml_skeleton kind fe
unfolding map_element
skeleton-map_element kind fe =
    skeleton-with_extensions fe.extension_elements _ ∙ skeleton-apply_script fe.script _

abbrev pub combine : Element → Element → Element
combine a b = record a {
  assignees_variable = b.assignees_variable;
  approval_mode = b.approval_mode;
  return_to = b.return_to;
  on_reject = b.on_reject;
  scope_id = b.scope_id;
  entry_ref = b.entry_ref;
  exit_ref = b.exit_ref;
  auto_complete = b.auto_complete;
  form_key = b.form_key;
  form_url = b.form_url;
  extension_handler = b.extension_handler;
}

-- What an element keeps: its skeleton, and the extension fields with a name of their own.
abbrev pub seen : Element → Element
seen el = combine (skeleton el) (extension_fields el)

pub seen-map_element :
    (kind : ElementKind) (fe : XmlFlowElement)
    → seen (map_element kind fe)
      ≡ combine (xml_skeleton kind fe) (read_fields fe.extension_elements)
seen-map_element kind fe =
    ap (λ (x : Element). combine x (extension_fields (map_element kind fe)))
      (skeleton-map_element kind fe)
    ∙ ap (λ (x : Element). combine (xml_skeleton kind fe) x) (extension_fields-map_element kind fe)

-- The event of an element changes neither its name nor its skeleton.
attach_event-same :
    (n : Numerics) (b : Bool) (ed : Option EventDefinition) (kind : ElementKind)
    (fe : XmlFlowElement)
    → ((attach_event n b ed fe).local ≡ fe.local)
      × (xml_skeleton kind (attach_event n b ed fe) ≡ xml_skeleton kind fe)
unfolding attach_event_def
attach_event-same n false ed kind fe = (refl, refl)
attach_event-same n true none kind fe = (refl, refl)
attach_event-same n true (some ed) kind fe = of_type (effective_event_type (some ed))
  where
    of_type :
        (t : EventDefinitionType)
        → ((attach_type n t ed fe).local ≡ fe.local)
          × (xml_skeleton kind (attach_type n t ed fe) ≡ xml_skeleton kind fe)
    of_type blank = (refl, refl)
    of_type none_event = (refl, refl)
    of_type message = (refl, refl)
    of_type signal = (refl, refl)
    of_type timer = (refl, refl)
    of_type conditional = (refl, refl)
    of_type error_event = (refl, refl)
    of_type (unknown_event t) = (refl, refl)

multi_read :
    (n : Numerics) (m : Option MultiInstanceLoopCharacteristics) → read_multi (write_multi n m) ≡ m
unfolding map_multi_instance multi_instance_to_xml
multi_read n none = refl
multi_read n (some m) = refl

element_to_xml-same :
    (n : Numerics) (el : Element)
    → ((element_to_xml n el).local ≡ kind_name el.kind)
      × (xml_skeleton el.kind (element_to_xml n el) ≡ skeleton el)
unfolding element_to_xml plain_xml
element_to_xml-same n el =
    let (same_name, same) =
      attach_event-same n (needs_event_def_xml el.kind) el.event_definition el.kind
        (plain_xml n el) in
    (
      same_name,
      same ∙ ap (λ m. record (skeleton el) { multi_instance = m }) (multi_read n el.multi_instance),
    )

abbrev pub is_known : ElementKind → Bool
is_known (Model.unknown_kind k) = false
is_known _ = true

kind-read :
    (k : ElementKind)
    → is_known k ≡ true
    → ((kind_name k == "sequenceFlow") ≡ false) × (xml_local_to_kind (kind_name k) ≡ some k)
unfolding kind_name xml_local_to_kind
kind-read (Model.unknown_kind k) h = cc
kind-read _ h = (refl, refl)

-- The step of the loop at an element of a known kind.
map_flow_elements-element :
    (kind : ElementKind) (fe : XmlFlowElement) (fes : List XmlFlowElement)
    → (fe.local == "sequenceFlow") ≡ false
    → xml_local_to_kind fe.local ≡ some kind
    → map_flow_elements (fe ∷ fes)
      ≡ (map_element kind fe ∷ (map_flow_elements fes).0, (map_flow_elements fes).1)
unfolding map_flow_elements
map_flow_elements-element kind fe fes other read = rw (map_flow_elements, other, read) refl

module _ (n : Numerics) where
  named_flow : (f : SequenceFlow) → ((flow_to_xml n f).local == "sequenceFlow") ≡ true
  unfolding flow_to_xml
  named_flow f = refl

  pub flows_read :
      (flows : List SequenceFlow)
      → All (λ (f : SequenceFlow). reads_plain f.condition ≡ true) flows
      → map_flow_elements (map (flow_to_xml n) flows) ≡ ([], flows)
  unfolding map_flow_elements
  flows_read [] all = refl
  flows_read (f ∷ flows) (plain, all) = rw (named_flow f) (
      ap
        (λ (g : SequenceFlow). (
          (map_flow_elements (map (flow_to_xml n) flows)).0,
          g ∷ (map_flow_elements (map (flow_to_xml n) flows)).1,
        ))
        (map_flow-flow_to_xml n f plain)
      ∙ ap (λ (r : List Element × List SequenceFlow). (r.0, f ∷ r.1)) (flows_read flows all))

  -- The elements in front of the flows.
  pub elements_read :
      (els : List Element) (fes : List XmlFlowElement)
      → All (λ (el : Element). is_known el.kind ≡ true) els
      → (map seen (map_flow_elements (map (element_to_xml n) els ++ fes)).0
          ≡ map seen els ++ map seen (map_flow_elements fes).0)
        × ((map_flow_elements (map (element_to_xml n) els ++ fes)).1 ≡ (map_flow_elements fes).1)
  unfolding map_flow_elements
  elements_read [] fes all = (refl, refl)
  elements_read (el ∷ els) fes (known, all) =
      let (nodes, flows) = elements_read els fes all in
      let (other, read) = kind-read el.kind known in
      let (named, same) = element_to_xml-same n el in
      let fe = element_to_xml n el in
      let step =
        map_flow_elements-element el.kind fe (map (element_to_xml n) els ++ fes)
          (ap (λ name. name == "sequenceFlow") named ∙ other) (ap xml_local_to_kind named ∙ read) in
      let node =
        seen-map_element el.kind fe
        ∙ ap (λ (x : Element). combine x (read_fields fe.extension_elements)) same
        ∙ ap (λ (x : Element). combine (skeleton el) x) (read_fields-element_to_xml n el) in
      (
        ap (λ (r : List Element × List SequenceFlow). map seen r.0) step
            ∙ ap
                (λ (x : Element).
                  x ∷ map seen (map_flow_elements (map (element_to_xml n) els ++ fes)).0)
                node
            ∙ ap (λ (l : List Element). seen el ∷ l) nodes,
        ap (λ (r : List Element × List SequenceFlow). r.1) step ∙ flows,
      )
