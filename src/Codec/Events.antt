-- ===== src/Codec/Events.antt =====
-- internal/bpmnxml/codec.go: the event definitions that are written and read again.
use lowcode_bpmn.Prelude.{
  String, string_eq, Bool, true, false, ◌&&◌, not, Option, some, ◌==◌, ◌≡◌, refl, sym, ap, subst,
  ◌∙◌, Option-cases, inl, inr, and-eq-true, not-eq-true, eq_of_==,
}
use lowcode_bpmn.Text.{is_empty, trim_space}
use lowcode_bpmn.Definition.Event.{
  EventDefinition, EventDefinitionType, blank, none_event, message, signal, timer, conditional,
  error_event, unknown_event, effective_event_type,
}
use lowcode_bpmn.Definition.Model.{ElementKind, Element}
use lowcode_bpmn.Definition.Expression.{Numerics}
use lowcode_bpmn.Codec.{XmlFlowElement}
use lowcode_bpmn.Codec.Read.{
  map_element, map_event_def, map_event_type, timer_text, needs_event_def_xml,
}
use lowcode_bpmn.Codec.Write.{
  plain_xml, attach_type, attach_event, attach_event_def, element_to_xml,
}
use lowcode_bpmn.Codec.RoundTrip.Flows.{reads_plain, condition_body-plain}
use lowcode_bpmn.Codec.RoundTrip.Carried.{erased_element}

-- The reference, the time or the condition of the event, by its type.
abbrev pub main_text : EventDefinitionType → EventDefinition → String
main_text message ed = ed.message_ref
main_text signal ed = ed.signal_ref
main_text timer ed = ed.timer_cycle
main_text conditional ed = ed.condition
main_text error_event ed = ed.error_ref
main_text _ ed = ""

-- The type is known, and a time or a condition is given and reads as it stands.
abbrev pub reads_event : EventDefinitionType → EventDefinition → Bool
reads_event timer ed = not (is_empty ed.timer_cycle) && trim_space ed.timer_cycle == ed.timer_cycle
reads_event conditional ed = not (is_empty ed.condition) && reads_plain ed.condition
reads_event blank ed = false
reads_event (unknown_event t) ed = false
reads_event _ ed = true

-- The event is of the type and has the text.
pub record Shows (t : EventDefinitionType) (text : String) (got : EventDefinition) : Type 0 where
  pub same_type : got.type ≡ t
  pub same_text : main_text t got ≡ text

timer_text-plain :
    (n : Numerics) (ed : EventDefinition) (fe : XmlFlowElement)
    → reads_event timer ed ≡ true
    → timer_text (record { time_cycle = ed.timer_cycle; time_date = "" }) ≡ ed.timer_cycle
unfolding timer_text
timer_text-plain n ed fe h =
    let (given, trimmed) = and-eq-true (not (is_empty ed.timer_cycle)) _ h in
    rw (not-eq-true _ given) (eq_of_== (trim_space ed.timer_cycle) ed.timer_cycle trimmed)

module _ (n : Numerics) where
  attached-Shows :
      (t : EventDefinitionType) (ed : EventDefinition) (el : Element)
      → reads_event t ed ≡ true
      → Shows t (main_text t ed) (map_event_type (attach_type n t ed (plain_xml n el)))
  unfolding map_event_type plain_xml
  attached-Shows message ed el h = record { same_type = refl; same_text = refl }
  attached-Shows signal ed el h = record { same_type = refl; same_text = refl }
  attached-Shows error_event ed el h = record { same_type = refl; same_text = refl }
  attached-Shows none_event ed el h = record { same_type = refl; same_text = refl }
  attached-Shows timer ed el h = record {
    same_type = refl;
    same_text = timer_text-plain n ed (plain_xml n el) h;
  }
  attached-Shows conditional ed el h = record {
    same_type = refl;
    same_text = condition_body-plain ed.condition (and-eq-true (not (is_empty ed.condition)) _ h).1;
  }
  attached-Shows blank ed el h = cc
  attached-Shows (unknown_event t) ed el h = cc

  written-Shows :
      (el : Element) (ed : EventDefinition)
      → el.event_definition ≡ some ed
      → needs_event_def_xml el.kind ≡ true
      → reads_event (effective_event_type (some ed)) ed ≡ true
      → Shows
          (effective_event_type (some ed))
          (main_text (effective_event_type (some ed)) ed)
          (map_event_type (element_to_xml n el))
  unfolding element_to_xml attach_event_def map_event_type
  written-Shows el ed given needs reads =
      subst
        (λ (o : Option EventDefinition).
          Shows (effective_event_type (some ed)) (main_text (effective_event_type (some ed)) ed)
            (map_event_type (attach_event n (needs_event_def_xml el.kind) o (plain_xml n el))))
        (sym given)
        (subst
          (λ (b : Bool).
            Shows (effective_event_type (some ed)) (main_text (effective_event_type (some ed)) ed)
              (map_event_type (attach_event n b (some ed) (plain_xml n el))))
          (sym needs) (attached-Shows (effective_event_type (some ed)) ed el reads))

added-Shows :
    (t : EventDefinitionType) (text : String) (ed : EventDefinition) (key condition : String)
    → (t ≡ conditional → condition ≡ ed.condition)
    → Shows t text ed
    → Shows t text (record ed { correlation_key = key; condition = condition })
added-Shows conditional text ed key condition same s = record {
  same_type = s.same_type;
  same_text = same refl ∙ s.same_text;
}
added-Shows blank text ed key condition same s = record {
  same_type = s.same_type;
  same_text = s.same_text;
}
added-Shows none_event text ed key condition same s = record {
  same_type = s.same_type;
  same_text = s.same_text;
}
added-Shows message text ed key condition same s = record {
  same_type = s.same_type;
  same_text = s.same_text;
}
added-Shows signal text ed key condition same s = record {
  same_type = s.same_type;
  same_text = s.same_text;
}
added-Shows timer text ed key condition same s = record {
  same_type = s.same_type;
  same_text = s.same_text;
}
added-Shows error_event text ed key condition same s = record {
  same_type = s.same_type;
  same_text = s.same_text;
}
added-Shows (unknown_event u) text ed key condition same s = record {
  same_type = s.same_type;
  same_text = s.same_text;
}

-- The extensions change neither the type nor a text that is given.
extended-Shows :
    (t : EventDefinitionType) (text : String) (fe : XmlFlowElement)
    → (t ≡ conditional → is_empty text ≡ false)
    → Shows t text (map_event_type fe)
    → Shows t text (map_event_def fe)
unfolding map_event_def
extended-Shows t text fe given shown = elim (Option-cases fe.extension_elements) [
  | inl none_given ↦ rw (map_event_def, none_given) shown
  | inr (ext, found) ↦
      rw (map_event_def, found)
        (added-Shows t text (map_event_type fe) _ _
          (λ e.
            let same : (map_event_type fe).condition ≡ text =
              subst (λ x. main_text x (map_event_type fe) ≡ text) e shown.same_text in
            let kept : is_empty (map_event_type fe).condition ≡ false =
              ap is_empty same ∙ given e in
            rw kept refl)
          shown)
]

event-map_element :
    (kind : ElementKind) (fe : XmlFlowElement)
    → needs_event_def_xml kind ≡ true
    → (map_element kind fe).event_definition ≡ some (map_event_def fe)
unfolding map_element
event-map_element kind fe needs = rw needs refl

conditional-given :
    (t : EventDefinitionType) (ed : EventDefinition)
    → reads_event t ed ≡ true
    → t ≡ conditional
    → is_empty (main_text t ed) ≡ false
conditional-given t ed h e =
    let reads = subst (λ x. reads_event x ed ≡ true) e h in
    let (given, plain) = and-eq-true (not (is_empty ed.condition)) _ reads in
    subst (λ x. is_empty (main_text x ed) ≡ false) (sym e) (not-eq-true _ given)

-- The event definition of an element of a kind that carries one, of a known type, with its time trimmed and its
-- condition trimmed and no start of a CDATA section, is read with its type and with the reference, the time or
-- the condition that its type goes by, from every structure that is the written one but for the extension fields
-- which share a name with another.
pub map_element-Shows :
    (n : Numerics) (el : Element) (ed : EventDefinition) (fe : XmlFlowElement)
    → el.event_definition ≡ some ed
    → needs_event_def_xml el.kind ≡ true
    → reads_event (effective_event_type (some ed)) ed ≡ true
    → erased_element fe ≡ erased_element (element_to_xml n el)
    → (got : EventDefinition) × ((map_element el.kind fe).event_definition ≡ some got)
      × Shows (effective_event_type (some ed)) (main_text (effective_event_type (some ed)) ed) got
unfolding map_event_type
map_element-Shows n el ed fe given needs reads same =
    let t = effective_event_type (some ed) in
    let read : map_event_type fe ≡ map_event_type (element_to_xml n el) = ap map_event_type same in
    (
      map_event_def fe,
      event-map_element el.kind fe needs,
      extended-Shows t (main_text t ed) fe (conditional-given t ed reads)
          (subst (Shows t (main_text t ed)) (sym read) (written-Shows n el ed given needs reads)),
    )
