-- ===== src/Definition/Validate/Kinds.antt =====
-- internal/domain/definition: what the rules for the kinds of element ask, as predicates.
use lowcode_bpmn.Prelude.{
  String, string_eq, true, false, ◌&&◌, ◌||◌, not, none, some, ◌≡◌, sym, ap, subst, ◌∙◌, leb,
  nat_beq, length, Map, lookup, arith, Option-cases, Bool-cases, inl, inr,
}
use lowcode_bpmn.Text.{is_empty}
use lowcode_bpmn.Definition.Event.{
  EventDefinition, EventDefinitionType, blank, none_event, message, signal, timer, conditional,
  error_event, unknown_event, effective_event_type,
}
use lowcode_bpmn.Definition.Model.{
  ElementKind, start_event, user_task, script_task, service_task, send_task, receive_task,
  business_rule_task, boundary_event, intermediate_catch_event, intermediate_throw_event,
  call_activity, Element,
}
use lowcode_bpmn.Definition.Approval.{
  parse_approval_mode, required_approvals, is_sequential, is_user_task, validate_user_task_approval,
}
use lowcode_bpmn.Definition.Rules.{
  is_extension_kind, needs_event, bars_boundary, task_rule, event_rule, attached, extension_rule,
  validate_event_definition_body, validate_event_definition, validate_start_event_event_definition,
  validate_task_element, validate_extension_element,
}
use lowcode_bpmn.Definition.Validate.{kind_rule}
use lowcode_bpmn.Errors.{ok, reject_if-eq-ok}

-- An event definition has what its type needs.
abbrev pub EventHolds : EventDefinitionType → Element → EventDefinition → Type 0
EventHolds none_event el ed = needs_event el.kind ≡ false
EventHolds message el ed = is_empty ed.message_ref ≡ false
EventHolds signal el ed = is_empty ed.signal_ref ≡ false
EventHolds timer el ed = is_empty ed.timer_cycle ≡ false
EventHolds conditional el ed = is_empty ed.condition ≡ false
EventHolds error_event el ed = is_empty ed.error_ref ≡ false
EventHolds _ el ed = true ≡ false

-- The event definition of the element, if it has one.
pub record HasEvent (el : Element) : Type 0 where
  pub given :
      (ed : EventDefinition)
      → el.event_definition ≡ some ed
      → EventHolds (effective_event_type (some ed)) el ed

-- The quota of a user task with a list of assignees is within the list, and one in sequential mode.
pub record HasQuota (el : Element) : Type 0 where
  pub within :
      (el.auto_complete
        || nat_beq (length el.assignees) 0
        || leb (required_approvals el (parse_approval_mode el.approval_mode)) (length el.assignees))
      ≡ true
  pub single :
      (el.auto_complete
        || nat_beq (length el.assignees) 0
        || not (is_sequential (parse_approval_mode el.approval_mode))
        || nat_beq (required_approvals el (parse_approval_mode el.approval_mode)) 1)
      ≡ true

-- The id leads to the element in the map.
abbrev pub IsIn : Map String Element → String → Element → Type 0
IsIn ids k v = lookup k ids ≡ some v

-- The host of a boundary event.
pub record HasHost (Known : String → Element → Type 0) (el : Element) : Type 0 where
  pub host : Element
  pub found : Known el.attached_to_ref host
  pub can_host : bars_boundary host.kind ≡ false

-- What the kind of an element asks, where `Known` tells which id is that of which element.
abbrev pub KindHolds : ElementKind → (String → Element → Type 0) → Element → Type 0
KindHolds start_event Known el = HasEvent el
KindHolds user_task Known el = HasQuota el
KindHolds script_task Known el = is_empty el.script ≡ false
KindHolds service_task Known el =
    (is_empty el.service_url && is_empty el.implementation && is_empty el.task_type) ≡ false
KindHolds send_task Known el = (is_empty el.message_ref && is_empty el.task_type) ≡ false
KindHolds receive_task Known el = (is_empty el.message_ref && not el.auto_complete) ≡ false
KindHolds business_rule_task Known el =
    (is_empty el.decision_ref && is_empty el.script && is_empty el.task_type) ≡ false
KindHolds boundary_event Known el =
    HasHost Known el × HasEvent el × ((ed : EventDefinition) × (el.event_definition ≡ some ed))
KindHolds intermediate_catch_event Known el =
    HasEvent el × ((ed : EventDefinition) × (el.event_definition ≡ some ed))
KindHolds intermediate_throw_event Known el = HasEvent el
KindHolds call_activity Known el = is_empty el.called_element ≡ false
KindHolds _ Known el = Unit

event_rule-EventHolds :
    (t : EventDefinitionType) (el : Element) (ed : EventDefinition)
    → event_rule t el ed ≡ ok tt
    → EventHolds t el ed
unfolding event_rule
event_rule-EventHolds blank el ed h = cc
event_rule-EventHolds none_event el ed h = reject_if-eq-ok _ _ h
event_rule-EventHolds message el ed h = reject_if-eq-ok _ _ h
event_rule-EventHolds signal el ed h = reject_if-eq-ok _ _ h
event_rule-EventHolds timer el ed h = reject_if-eq-ok _ _ h
event_rule-EventHolds conditional el ed h = reject_if-eq-ok _ _ h
event_rule-EventHolds error_event el ed h = reject_if-eq-ok _ _ h
event_rule-EventHolds (unknown_event t) el ed h = cc

body-HasEvent : (el : Element) → validate_event_definition_body el ≡ ok tt → HasEvent el
unfolding validate_event_definition_body
body-HasEvent el h = record {
  given = λ ed e.
      let ruled : event_rule (effective_event_type (some ed)) el ed ≡ ok tt = ground arith in
      event_rule-EventHolds _ el ed ruled;
}

no_event-HasEvent : (el : Element) → el.event_definition ≡ none → HasEvent el
no_event-HasEvent el e = record { given = λ ed e'. absurd (cc (e, e')) }

definition-HasEvent : (el : Element) → validate_event_definition el ≡ ok tt → HasEvent el
unfolding validate_event_definition
definition-HasEvent el h = elim (Option-cases el.event_definition) [
  | inl e ↦ no_event-HasEvent el e
  | inr (ed, e) ↦ body-HasEvent el (ground arith)
]

definition-given :
    (el : Element)
    → validate_event_definition el ≡ ok tt
    → needs_event el.kind ≡ true
    → (ed : EventDefinition) × (el.event_definition ≡ some ed)
unfolding validate_event_definition
definition-given el h needs = elim (Option-cases el.event_definition) [
  | inl e ↦ absurd (cc (reject_if-eq-ok _ _ (rw e at h), needs))
  | inr found ↦ found
]

start-HasEvent :
    (el : Element)
    → validate_start_event_event_definition el ≡ ok tt
    → el.kind ≡ start_event
    → HasEvent el
unfolding validate_start_event_event_definition
start-HasEvent el h k = elim (Option-cases el.event_definition) [
  | inl e ↦ no_event-HasEvent el e
  | inr (ed, e) ↦ body-HasEvent el (ground arith)
]

approval-HasQuota :
    (el : Element) → validate_user_task_approval el ≡ ok tt → el.kind ≡ user_task → HasQuota el
unfolding validate_user_task_approval is_user_task
approval-HasQuota el h k = record { within = ground arith; single = ground arith }

attached-HasHost :
    (el : Element) (ids : Map String Element)
    → attached el (lookup el.attached_to_ref ids) ≡ ok tt
    → HasHost (IsIn ids) el × (validate_event_definition el ≡ ok tt)
unfolding attached
attached-HasHost el ids h = elim (Option-cases (lookup el.attached_to_ref ids)) [
  | inl missing ↦ absurd (cc (ap (attached el) (sym missing) ∙ h))
  | inr (host, found) ↦ elim (Bool-cases (bars_boundary host.kind)) [
    | inl bars ↦ ground arith
    | inr can ↦ (record { host = host; found = found; can_host = can }, ground arith)
  ]
]

task_rule-at :
    (kind : ElementKind) (el : Element)
    → el.kind ≡ kind
    → validate_task_element el ≡ ok tt
    → task_rule kind el ≡ ok tt
unfolding validate_task_element
task_rule-at kind el e h = subst (λ (k : ElementKind). task_rule k el ≡ ok tt) e h

extension_rule-at :
    (kind : ElementKind) (el : Element) (ids : Map String Element)
    → el.kind ≡ kind
    → validate_extension_element el ids ≡ ok tt
    → extension_rule kind el ids ≡ ok tt
unfolding validate_extension_element
extension_rule-at kind el ids e h = subst (λ (k : ElementKind). extension_rule k el ids ≡ ok tt) e h

boundary-KindHolds :
    (el : Element) (ids : Map String Element)
    → el.kind ≡ boundary_event
    → extension_rule boundary_event el ids ≡ ok tt
    → KindHolds boundary_event (IsIn ids) el
unfolding extension_rule
boundary-KindHolds el ids e h =
    let hosted : attached el (lookup el.attached_to_ref ids) ≡ ok tt = ground arith in
    let (host, event) = attached-HasHost el ids hosted in
    (host, definition-HasEvent el event, definition-given el event (ap needs_event e))

throw-HasEvent :
    (el : Element) (ids : Map String Element)
    → extension_rule intermediate_throw_event el ids ≡ ok tt
    → HasEvent el
unfolding extension_rule
throw-HasEvent el ids h = elim (Option-cases el.event_definition) [
  | inl e ↦ no_event-HasEvent el e
  | inr (ed, e) ↦ definition-HasEvent el (ground arith)
]

-- An element that the switch on the kinds accepts has what its kind asks.
pub kind_rule-KindHolds :
    (kind : ElementKind) (el : Element) (ids : Map String Element)
    → el.kind ≡ kind
    → kind_rule kind el ids ≡ ok tt
    → KindHolds kind (IsIn ids) el
unfolding kind_rule task_rule extension_rule is_extension_kind
kind_rule-KindHolds start_event el ids e h = start-HasEvent el h e
kind_rule-KindHolds user_task el ids e h = approval-HasQuota el (task_rule-at user_task el e h) e
kind_rule-KindHolds script_task el ids e h = reject_if-eq-ok _ _ (task_rule-at script_task el e h)
kind_rule-KindHolds service_task el ids e h = reject_if-eq-ok _ _ (task_rule-at service_task el e h)
kind_rule-KindHolds send_task el ids e h = reject_if-eq-ok _ _ (task_rule-at send_task el e h)
kind_rule-KindHolds receive_task el ids e h = reject_if-eq-ok _ _ (task_rule-at receive_task el e h)
kind_rule-KindHolds business_rule_task el ids e h =
    reject_if-eq-ok _ _ (task_rule-at business_rule_task el e h)
kind_rule-KindHolds boundary_event el ids e h =
    boundary-KindHolds el ids e (extension_rule-at boundary_event el ids e h)
kind_rule-KindHolds intermediate_catch_event el ids e h =
    let event = extension_rule-at intermediate_catch_event el ids e h in
    (definition-HasEvent el event, definition-given el event (ap needs_event e))
kind_rule-KindHolds intermediate_throw_event el ids e h =
    throw-HasEvent el ids (extension_rule-at intermediate_throw_event el ids e h)
kind_rule-KindHolds call_activity el ids e h =
    reject_if-eq-ok _ _ (extension_rule-at call_activity el ids e h)
kind_rule-KindHolds _ el ids e h = tt

-- More may be known.
pub KindHolds-more :
    (kind : ElementKind) (el : Element) (Known More : String → Element → Type 0)
    → ((k : String) (v : Element) → Known k v → More k v)
    → KindHolds kind Known el
    → KindHolds kind More el
KindHolds-more boundary_event el Known More f (host, event, given) = (
  record {
    host = host.host;
    found = f el.attached_to_ref host.host host.found;
    can_host = host.can_host;
  },
  event,
  given,
)
KindHolds-more start_event el Known More f h = h
KindHolds-more user_task el Known More f h = h
KindHolds-more script_task el Known More f h = h
KindHolds-more service_task el Known More f h = h
KindHolds-more send_task el Known More f h = h
KindHolds-more receive_task el Known More f h = h
KindHolds-more business_rule_task el Known More f h = h
KindHolds-more intermediate_catch_event el Known More f h = h
KindHolds-more intermediate_throw_event el Known More f h = h
KindHolds-more call_activity el Known More f h = h
KindHolds-more _ el Known More f h = tt
