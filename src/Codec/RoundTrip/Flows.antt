-- ===== src/Codec/RoundTrip/Flows.antt =====
-- internal/bpmnxml/codec.go: the sequence flows that are written and read again.
use lowcode_bpmn.Prelude.{
  String, string_eq, Bool, true, false, ◌&&◌, none, some, ◌==◌, ◌≡◌, refl, sym, ap, ◌∙◌, arith,
  Bool-cases, Option-cases, inl, inr, and-eq-true, eq_of_==,
}
use lowcode_bpmn.Text.{is_empty, trim_space, strip_prefix}
use lowcode_bpmn.Definition.Model.{SequenceFlow}
use lowcode_bpmn.Definition.Expression.{Numerics}
use lowcode_bpmn.Codec.Read.{strip_section, strip_cdata, condition_body, map_flow}
use lowcode_bpmn.Codec.Write.{flow_to_xml}

abbrev has_no_cdata : String → Bool
has_no_cdata s = elim (strip_prefix "<![CDATA[" s) [ none ↦ true | some r ↦ false ]

-- A condition that reads as it stands: trimmed, and not the start of a CDATA section.
abbrev pub reads_plain : String → Bool
reads_plain s = trim_space s == s && has_no_cdata s

strip_section-at : (s : String) → strip_prefix "<![CDATA[" s ≡ none → strip_section s ≡ s
unfolding strip_section
strip_section-at s h = rw (strip_section, h) refl

strip_section-plain : (s : String) → has_no_cdata s ≡ true → strip_section s ≡ s
strip_section-plain s h = elim (Option-cases (strip_prefix "<![CDATA[" s)) [
  | inl plain ↦ strip_section-at s plain
  | inr (r, found) ↦ ground arith
]

pub condition_body-plain :
    (s : String) → reads_plain s ≡ true → trim_space (condition_body (some s)) ≡ s
unfolding condition_body strip_cdata
condition_body-plain s h =
    let (trimmed, no_cdata) = and-eq-true (trim_space s == s) _ h in
    let same = eq_of_== (trim_space s) s trimmed in
    let section = ap strip_section same ∙ strip_section-plain s no_cdata in
    ap (λ t. trim_space (trim_space t)) section ∙ ap trim_space same ∙ same

pub map_flow-flow_to_xml :
    (n : Numerics) (f : SequenceFlow)
    → reads_plain f.condition ≡ true
    → map_flow (flow_to_xml n f) ≡ f
unfolding map_flow flow_to_xml
map_flow-flow_to_xml n f h =
    let condition : (map_flow (flow_to_xml n f)).condition ≡ f.condition =
      elim (Bool-cases (is_empty f.condition)) [
        | inl none_given ↦ rw (none_given) (sym (eq_of_== f.condition "" none_given))
        | inr given ↦ rw (given) (condition_body-plain f.condition h)
      ] in
    let default : (map_flow (flow_to_xml n f)).is_default ≡ f.is_default =
      elim (Bool-cases f.is_default) [ inl e ↦ rw e refl | inr e ↦ rw e refl ] in
    cc (condition, default)
