-- ===== src/Codec/Extensions.antt =====
-- internal/bpmnxml/codec.go: the extension elements that are written are read again.
use lowcode_bpmn.Prelude.{
  length, nat_beq, String, string_eq, Bool, true, false, ◌&&◌, not, Option, none, some, ◌≡◌, refl,
  sym, ap, ◌∙◌, Bool-cases, inl, inr, and-eq-true, not-eq-true, eq_of_==, if◌then◌else◌,
}
use lowcode_bpmn.Text.{is_empty}
use lowcode_bpmn.Definition.Event.{
  EventDefinition, EventDefinitionType, blank, none_event, message, signal, timer, conditional,
  error_event, unknown_event, effective_event_type,
}
use lowcode_bpmn.Definition.Model.{ElementKind, Element, user_task}
use lowcode_bpmn.Definition.Expression.{Numerics}
use lowcode_bpmn.Codec.{XmlFlowElement, XmlExtensionElements, XmlScript}
use lowcode_bpmn.Codec.Read.{
  first_non_empty, blank_element, apply_script, apply_extensions, with_extensions, map_element,
  needs_event_def_xml,
}
use lowcode_bpmn.Codec.Write.{
  is_plain, is_end, extensions_from_element, plain_xml, attach_type, attach_event, attach_event_def,
  with_correlation, element_to_xml,
}

-- The fields of the extension elements that hold one text or one mark.
abbrev pub extension_fields : Element → Element
extension_fields el = record (blank_element "" user_task "") {
  assignees_variable = el.assignees_variable;
  approval_mode = el.approval_mode;
  return_to = el.return_to;
  on_reject = el.on_reject;
  scope_id = el.scope_id;
  entry_ref = el.entry_ref;
  exit_ref = el.exit_ref;
  auto_complete = el.auto_complete;
  form_key = el.form_key;
  form_url = el.form_url;
  extension_handler = el.extension_handler;
}

abbrev pub read_fields : Option XmlExtensionElements → Element
read_fields none = blank_element "" user_task ""
read_fields (some ext) = record (blank_element "" user_task "") {
  assignees_variable = ext.assignees_var;
  approval_mode = ext.approval_mode;
  return_to = ext.return_to;
  on_reject = ext.on_reject;
  scope_id = ext.scope_id;
  entry_ref = ext.entry_ref;
  exit_ref = ext.exit_ref;
  auto_complete = elim ext.auto_complete [ none ↦ false | some b ↦ b ];
  form_key = ext.form_key;
  form_url = ext.form_url;
  extension_handler = ext.extension_handler;
}

fields-apply_extensions :
    (ext : XmlExtensionElements) (el : Element)
    → el.auto_complete ≡ false
    → extension_fields (apply_extensions ext el) ≡ read_fields (some ext)
unfolding apply_extensions
fields-apply_extensions ext el unset =
    ap (λ (b : Bool). extension_fields (apply_extensions ext (record el { auto_complete = b })))
      unset

fields-read :
    (o : Option XmlExtensionElements) (s : Option XmlScript) (el : Element)
    → extension_fields el ≡ blank_element "" user_task ""
    → extension_fields (with_extensions o (apply_script s el)) ≡ read_fields o
unfolding apply_script
fields-read none none el h = h
fields-read none (some s) el h = h
fields-read (some ext) none el h =
    fields-apply_extensions ext el (ap (λ (x : Element). x.auto_complete) h)
fields-read (some ext) (some s) el h =
    fields-apply_extensions ext (apply_script (some s) el) (ap (λ (x : Element). x.auto_complete) h)

pub extension_fields-map_element :
    (kind : ElementKind) (fe : XmlFlowElement)
    → extension_fields (map_element kind fe) ≡ read_fields fe.extension_elements
unfolding map_element
extension_fields-map_element kind fe = fields-read fe.extension_elements fe.script _ refl

-- The extensions without the fields that share a name with one of the extension namespace: an empty element that
-- is written for the latter may be read into the former.
abbrev pub untwinned : Option XmlExtensionElements → Option XmlExtensionElements
untwinned none = none
untwinned (some ext) = some (record ext {
  task_type = "";
  assignees = "";
  implementation = "";
  service_url = "";
  service_method = "";
  message_ref = "";
  decision_ref = "";
  correlation_key = "";
  lc_task_type = "";
  lc_assignees = "";
  lc_implementation = "";
  lc_service_url = "";
  lc_service_method = "";
  lc_message_ref = "";
  lc_decision_ref = "";
  lc_correlation_key = "";
})

pub read_fields-untwinned :
    (o : Option XmlExtensionElements) → read_fields (untwinned o) ≡ read_fields o
read_fields-untwinned none = refl
read_fields-untwinned (some ext) = refl

module _ (n : Numerics) where
  -- A correlation key among the extensions changes none of the fields.
  with_correlation-fields :
      (key : String) (o : Option XmlExtensionElements)
      → read_fields (with_correlation n key o) ≡ read_fields o
  unfolding first_non_empty
  with_correlation-fields key none = elim (Bool-cases (is_empty key)) [
    | inl empty ↦ rw empty refl
    | inr given ↦ rw given refl
  ]
  with_correlation-fields key (some ext) = elim (Bool-cases (is_empty key)) [
    | inl empty ↦ rw empty refl
    | inr given ↦ rw given refl
  ]

  attach_type-extensions :
      (t : EventDefinitionType) (ed : EventDefinition) (fe : XmlFlowElement)
      → (attach_type n t ed fe).extension_elements ≡ fe.extension_elements
  attach_type-extensions blank ed fe = refl
  attach_type-extensions none_event ed fe = refl
  attach_type-extensions message ed fe = refl
  attach_type-extensions signal ed fe = refl
  attach_type-extensions timer ed fe = refl
  attach_type-extensions conditional ed fe = refl
  attach_type-extensions error_event ed fe = refl
  attach_type-extensions (unknown_event t) ed fe = refl

  attach_event-fields :
      (b : Bool) (o : Option EventDefinition) (fe : XmlFlowElement)
      → read_fields (attach_event n b o fe).extension_elements ≡ read_fields fe.extension_elements
  unfolding attach_event_def
  attach_event-fields false o fe = refl
  attach_event-fields true none fe = refl
  attach_event-fields true (some ed) fe =
      with_correlation-fields ed.correlation_key _
      ∙ ap read_fields (attach_type-extensions (effective_event_type (some ed)) ed fe)

  plain-fields :
      (el : Element) → is_plain el ≡ true → extension_fields el ≡ blank_element "" user_task ""
  unfolding is_plain
  plain-fields el h =
      let base =
        is_empty el.task_type
        && is_empty el.implementation
        && is_empty el.service_url
        && is_empty el.message_ref
        && is_empty el.decision_ref
        && nat_beq (length el.assignees) 0 in
      let (r18, t18) = and-eq-true _ (is_end el.properties) h in
      let (r17, t17) = and-eq-true _ (is_empty el.extension_handler) r18 in
      let (r16, t16) = and-eq-true _ (is_empty el.form_url) r17 in
      let (r15, t15) = and-eq-true _ (is_empty el.form_key) r16 in
      let (r14, t14) = and-eq-true _ (is_empty el.script_lang) r15 in
      let (r13, t13) = and-eq-true _ (is_empty el.exit_ref) r14 in
      let (r12, t12) = and-eq-true _ (is_empty el.entry_ref) r13 in
      let (r11, t11) = and-eq-true _ (is_empty el.scope_id) r12 in
      let (r10, t10) = and-eq-true _ (is_empty el.on_reject) r11 in
      let (r9, t9) = and-eq-true _ (is_empty el.return_to) r10 in
      let (r8, t8) = and-eq-true _ (not el.auto_complete) r9 in
      let (r7, t7) = and-eq-true _ (is_empty el.approval_mode) r8 in
      let (r6, t6) = and-eq-true base (is_empty el.assignees_variable) r7 in
      rw
        (
          eq_of_== el.assignees_variable "" t6,
          eq_of_== el.approval_mode "" t7,
          not-eq-true el.auto_complete t8,
          eq_of_== el.return_to "" t9,
          eq_of_== el.on_reject "" t10,
          eq_of_== el.scope_id "" t11,
          eq_of_== el.entry_ref "" t12,
          eq_of_== el.exit_ref "" t13,
          eq_of_== el.form_key "" t15,
          eq_of_== el.form_url "" t16,
          eq_of_== el.extension_handler "" t17,
        )
        refl

  auto_complete-read :
      (b : Bool)
      → (elim (if b then some true else none) as (λ (o : Option Bool). Bool) [
        | none ↦ false
        | some c ↦ c
      ])
        ≡ b
  auto_complete-read b = elim (Bool-cases b) [ inl e ↦ rw e refl | inr e ↦ rw e refl ]

  written-fields :
      (el : Element)
      → is_plain el ≡ false
      → read_fields (extensions_from_element n el) ≡ extension_fields el
  unfolding extensions_from_element
  written-fields el h =
      rw (extensions_from_element, h)
        (ap (λ (b : Bool). record (extension_fields el) { auto_complete = b })
          (auto_complete-read el.auto_complete))

  unwritten-fields :
      (el : Element)
      → is_plain el ≡ true
      → read_fields (extensions_from_element n el) ≡ blank_element "" user_task ""
  unfolding extensions_from_element
  unwritten-fields el h = rw (extensions_from_element, h) refl

  fields_kept : (el : Element) → read_fields (extensions_from_element n el) ≡ extension_fields el
  fields_kept el = elim (Bool-cases (is_plain el)) [
    | inl plain ↦ unwritten-fields el plain ∙ sym (plain-fields el plain)
    | inr extended ↦ written-fields el extended
  ]

  pub read_fields-element_to_xml :
      (el : Element) → read_fields (element_to_xml n el).extension_elements ≡ extension_fields el
  unfolding element_to_xml plain_xml
  read_fields-element_to_xml el =
      attach_event-fields (needs_event_def_xml el.kind) el.event_definition (plain_xml n el)
      ∙ fields_kept el
