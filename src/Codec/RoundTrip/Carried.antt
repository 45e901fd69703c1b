-- ===== src/Codec/RoundTrip/Carried.antt =====
-- internal/bpmnxml/codec.go: what the encoder and the decoder of encoding/xml do to the structures.
use lowcode_bpmn.Prelude.{
  string_eq, Option, none, some, List, [], ◌∷◌, ◌==◌, map, ◌≡◌, refl, sym, ap, ◌∙◌, Bool-cases,
  Option-cases, inl, inr,
}
use lowcode_bpmn.Text.{is_empty}
use lowcode_bpmn.Definition.Model.{
  ElementKind, Element, SequenceFlow, Collaboration, ProcessDefinition,
}
use lowcode_bpmn.Errors.{Result, ok, err}
use lowcode_bpmn.Codec.{XmlFlowElement, XmlProcess, XmlCollaboration, XmlDefinitions, Xml}
use lowcode_bpmn.Codec.Read.{
  xml_local_to_kind, map_element, map_flow, map_flow_elements, map_process, finish,
  map_collaboration_for_process, process_of_definitions,
}
use lowcode_bpmn.Codec.Extensions.{untwinned, read_fields-untwinned}
use lowcode_bpmn.Codec.RoundTrip.Elements.{seen, combine, xml_skeleton, seen-map_element}

abbrev pub erased_element : XmlFlowElement → XmlFlowElement
erased_element fe = record fe { extension_elements = untwinned fe.extension_elements }

abbrev pub erased_process : XmlProcess → XmlProcess
erased_process p = record p { flow_elements = map erased_element p.flow_elements }

-- The structures without the extension fields that share a name with another.
abbrev pub erased : XmlDefinitions → XmlDefinitions
erased root = record root { processes = map erased_process root.processes }

-- The library writes the structure as a text that it reads as the same structure, but for those fields. It does
-- not where a condition, which is written as it stands, is no well-formed XML.
pub record Carries {D : Type 0} (xml : Xml D) (root : XmlDefinitions) : Type 0 where
  pub written : D
  pub writes : xml.encode root ≡ ok written
  pub back : XmlDefinitions
  pub reads : xml.decode written ≡ ok back
  pub same : erased back ≡ erased root

-- What a definition keeps.
abbrev pub view : Result ProcessDefinition → Result ProcessDefinition
view (err e) = err e
view (ok def) = ok (record def { elements = map seen def.elements })

seen-erased :
    (kind : ElementKind) (fe : XmlFlowElement)
    → seen (map_element kind (erased_element fe)) ≡ seen (map_element kind fe)
seen-erased kind fe =
    seen-map_element kind (erased_element fe)
    ∙ ap (λ (x : Element). combine (xml_skeleton kind fe) x)
        (read_fields-untwinned fe.extension_elements)
    ∙ sym (seen-map_element kind fe)

elements-erased :
    (fes : List XmlFlowElement)
    → (map seen (map_flow_elements (map erased_element fes)).0 ≡ map seen (map_flow_elements fes).0)
      × ((map_flow_elements (map erased_element fes)).1 ≡ (map_flow_elements fes).1)
unfolding map_flow_elements map_flow
elements-erased [] = (refl, refl)
elements-erased (fe ∷ fes) =
    let (nodes, flows) = elements-erased fes in
    elim (Bool-cases (fe.local == "sequenceFlow")) [
      | inl flow ↦ rw flow (nodes, ap (λ (l : List SequenceFlow). map_flow fe ∷ l) flows)
      | inr other ↦ elim (Option-cases (xml_local_to_kind fe.local)) [
        | inl unknown ↦ rw (other, unknown) (nodes, flows)
        | inr (kind, known) ↦
            rw (other, known)
              (
                ap (λ (x : Element). x ∷ map seen (map_flow_elements (map erased_element fes)).0)
                      (seen-erased kind fe)
                    ∙ ap (λ (l : List Element). seen (map_element kind fe) ∷ l) nodes,
                flows,
              )
      ]
    ]

process-erased : (p : XmlProcess) → view (map_process (erased_process p)) ≡ view (map_process p)
unfolding map_process
process-erased p =
    let (nodes, flows) = elements-erased p.flow_elements in
    elim (Bool-cases (is_empty p.id)) [
      | inl unnamed ↦ rw unnamed refl
      | inr named ↦ rw named (cc (nodes, flows))
    ]

finish-view :
    (c : Option Collaboration) (a b : Result ProcessDefinition)
    → view a ≡ view b
    → view (finish c a) ≡ view (finish c b)
finish-view c (err e) (err e') h = h
finish-view c (err e) (ok b) h = cc
finish-view c (ok a) (err e) h = cc
finish-view none (ok a) (ok b) h = h
finish-view (some c) (ok a) (ok b) h = ap (with c) h
  where
    with : Collaboration → Result ProcessDefinition → Result ProcessDefinition
    with col (err e) = err e
    with col (ok def) = ok (record def { collaboration = some col })

definitions-erased :
    (collaborations : List XmlCollaboration) (processes : List XmlProcess)
    → view (
        process_of_definitions
          (record { collaborations = collaborations; processes = map erased_process processes }))
      ≡ view (
          process_of_definitions
            (record { collaborations = collaborations; processes = processes }))
unfolding process_of_definitions
definitions-erased collaborations [] = refl
definitions-erased collaborations (p ∷ ps) =
    finish-view (map_collaboration_for_process collaborations p.id) _ _ (process-erased p)

-- What is read from two structures is seen to be the same where the structures are the same once erased.
pub view-same :
    (back root : XmlDefinitions)
    → erased back ≡ erased root
    → view (process_of_definitions back) ≡ view (process_of_definitions root)
view-same back root same =
    sym (definitions-erased back.collaborations back.processes)
    ∙ ap (λ (d : XmlDefinitions). view (process_of_definitions d)) same
    ∙ definitions-erased root.collaborations root.processes

pub view-eq-ok :
    (r : Result ProcessDefinition) (def : ProcessDefinition)
    → view r ≡ view (ok def)
    → (out : ProcessDefinition) × (r ≡ ok out)
      × (record out { elements = map seen out.elements }
          ≡ record def { elements = map seen def.elements })
view-eq-ok (err e) def h = cc
view-eq-ok (ok out) def h = (out, refl, cc)
