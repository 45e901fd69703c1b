-- ===== src/Codec/RoundTrip/Collaborations.antt =====
-- internal/bpmnxml/codec.go: the collaboration that is written and read again.
use lowcode_bpmn.Prelude.{
  ltb, String, string_eq, Bool, true, false, ◌&&◌, ◌||◌, not, Option, none, some, List, [], ◌∷◌,
  ◌==◌, map, any, length, ◌≡◌, refl, ap, arith, and-eq-true, not-eq-true,
}
use lowcode_bpmn.Text.{is_empty}
use lowcode_bpmn.Definition.Model.{Pool, MessageFlow, Collaboration}
use lowcode_bpmn.Definition.Expression.{Numerics}
use lowcode_bpmn.Codec.{XmlParticipant}
use lowcode_bpmn.Codec.Read.{
  first_non_empty, map_pool, map_message_flow, is_relevant, map_collaboration_for_process,
}
use lowcode_bpmn.Codec.Write.{
  participant_to_xml, message_flow_to_xml, build_xml_collaboration, collaborations_to_xml,
}

module _ (n : Numerics) where
  -- Every pool names a process, and the collaboration is one of the process.
  abbrev pub is_kept : String → Option Collaboration → Bool
  is_kept process none = true
  is_kept process (some c) =
      not (any (λ (p : Pool). is_empty p.process_ref) c.pools)
      && (ltb 0 (length c.message_flows) || any (λ (p : Pool). p.process_ref == process) c.pools)

  pools_read :
      (process : String) (pools : List Pool)
      → any (λ (p : Pool). is_empty p.process_ref) pools ≡ false
      → map map_pool (map (participant_to_xml n process) pools) ≡ pools
  unfolding first_non_empty
  pools_read process [] h = refl
  pools_read process (p ∷ pools) h =
      let named : is_empty p.process_ref ≡ false = ground arith in
      let rest : any (λ (q : Pool). is_empty q.process_ref) pools ≡ false = ground arith in
      rw named (ap (λ (l : List Pool). p ∷ l) (pools_read process pools rest))

  message_flows_read :
      (flows : List MessageFlow) → map map_message_flow (map (message_flow_to_xml n) flows) ≡ flows
  message_flows_read [] = refl
  message_flows_read (f ∷ flows) = ap (λ (l : List MessageFlow). f ∷ l) (message_flows_read flows)

  any_read :
      (process : String) (pools : List Pool)
      → any (λ (p : Pool). is_empty p.process_ref) pools ≡ false
      → any (λ (p : Pool). p.process_ref == process) pools ≡ true
      → any
          (λ (p : XmlParticipant). is_empty p.process_ref || p.process_ref == process)
          (map (participant_to_xml n process) pools)
        ≡ true
  unfolding first_non_empty
  any_read process [] h k = cc
  any_read process (p ∷ pools) h k = ground (arith, any_read process pools)

  some_left :
      (flows : List MessageFlow)
      → ltb 0 (length (map (message_flow_to_xml n) flows)) ≡ ltb 0 (length flows)
  some_left [] = refl
  some_left (f ∷ flows) = ground arith

  is_relevant-kept :
      (process : String) (c : Collaboration)
      → is_kept process (some c) ≡ true
      → is_relevant process (build_xml_collaboration n c process) ≡ true
  unfolding is_relevant build_xml_collaboration
  is_relevant-kept process c h = ground (arith, some_left c.message_flows, any_read process c.pools)

  map_none : (process : String) → map_collaboration_for_process [] process ≡ none
  unfolding map_collaboration_for_process
  map_none process = refl

  map_relevant :
      (process : String) (c : Collaboration)
      → is_relevant process (build_xml_collaboration n c process) ≡ true
      → any (λ (p : Pool). is_empty p.process_ref) c.pools ≡ false
      → map_collaboration_for_process (build_xml_collaboration n c process ∷ []) process ≡ some c
  unfolding map_collaboration_for_process build_xml_collaboration
  map_relevant process c relevant named =
      let pools = pools_read process c.pools named in
      let flows = message_flows_read c.message_flows in
      rw (map_collaboration_for_process, relevant) (cc (pools, flows))

  pub collaboration_read :
      (process : String) (c : Option Collaboration)
      → is_kept process c ≡ true
      → map_collaboration_for_process (collaborations_to_xml n c process) process ≡ c
  collaboration_read process none h = map_none process
  collaboration_read process (some c) h =
      let (named, related) =
        and-eq-true (not (any (λ (p : Pool). is_empty p.process_ref) c.pools)) _ h in
      map_relevant process c (is_relevant-kept process c h) (not-eq-true _ named)
