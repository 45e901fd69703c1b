-- ===== src/Definition/Validate/Partners.antt =====
-- internal/domain/definition/collaboration.go: what `Validate` asks of a collaboration.
use lowcode_bpmn.Prelude.{
  String, string_eq, Bool, true, false, List, [], ◌∷◌, ◌≡◌, some, arith, map, Memᴰ, Bool-cases, inl,
  inr,
}
use mathlib.Core.List.Memᴰ
use lowcode_bpmn.Text.{is_empty}
use lowcode_bpmn.Definition.Model.{Element, Pool, MessageFlow, Collaboration, ProcessDefinition}
use lowcode_bpmn.Definition.Rules.{ref_exists, pools_ok, message_flows_ok, validate_collaboration}
use lowcode_bpmn.Errors.{ok, >>-eq-ok}

-- The id is that of a pool or of an element.
abbrev pub is_partner : ProcessDefinition → Collaboration → String → Bool
is_partner def c id =
    ref_exists id (map (λ (p : Pool). p.id) c.pools) (map (λ (e : Element). e.id) def.elements)

pub record IsJoined (def : ProcessDefinition) (c : Collaboration) : Type 0 where
  pub pools_named : (p : Pool) → Memᴰ p c.pools → is_empty p.id ≡ false
  pub message_flow_ends :
      (mf : MessageFlow)
      → Memᴰ mf c.message_flows
      → (is_empty mf.id ≡ false)
        × (is_partner def c mf.source_ref ≡ true)
        × (is_partner def c mf.target_ref ≡ true)

pools_ok-named :
    (pools : List Pool) (p : Pool) → pools_ok pools ≡ ok tt → Memᴰ p pools → is_empty p.id ≡ false
unfolding pools_ok
pools_ok-named [] p h m = absurd (Memᴰ.not-nil m)
pools_ok-named (q ∷ pools) p h m = elim (Bool-cases (is_empty q.id)) [
  | inl unnamed ↦ ground arith
  | inr named ↦ elim (Memᴰ.cases_cons m) [
    | inl e ↦ rw e named
    | inr m' ↦ pools_ok-named pools p (ground arith) m'
  ]
]

message_flows_ok-ends :
    (pools elements : List String) (flows : List MessageFlow) (mf : MessageFlow)
    → message_flows_ok pools elements flows ≡ ok tt
    → Memᴰ mf flows
    → (is_empty mf.id ≡ false)
      × (ref_exists mf.source_ref pools elements ≡ true)
      × (ref_exists mf.target_ref pools elements ≡ true)
unfolding message_flows_ok
message_flows_ok-ends pools elements [] mf h m = absurd (Memᴰ.not-nil m)
message_flows_ok-ends pools elements (g ∷ flows) mf h m = elim (Memᴰ.cases_cons m) [
  | inl e ↦
      let named : is_empty g.id ≡ false = ground arith in
      let source : ref_exists g.source_ref pools elements ≡ true = ground arith in
      let target : ref_exists g.target_ref pools elements ≡ true = ground arith in
      (rw e named, rw e source, rw e target)
  | inr m' ↦ message_flows_ok-ends pools elements flows mf (ground arith) m'
]

pub validate_collaboration-IsJoined :
    (def : ProcessDefinition) (c : Collaboration)
    → validate_collaboration def ≡ ok tt
    → def.collaboration ≡ some c
    → IsJoined def c
unfolding validate_collaboration
validate_collaboration-IsJoined def c h e =
    let (pools, flows) = >>-eq-ok (pools_ok c.pools) _ (rw e at h) in
    record {
      pools_named = λ p m. pools_ok-named c.pools p pools m;
      message_flow_ends = λ mf m. message_flows_ok-ends _ _ c.message_flows mf flows m;
    }
