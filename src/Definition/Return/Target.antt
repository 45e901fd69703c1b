-- ===== src/Definition/Return/Target.antt =====
-- internal/domain/definition/return.go: the targets of `ResolveReturnTarget`.
use lowcode_bpmn.Prelude.{
  String, string_eq, Bool, true, false, not, ◌&&◌, ◌||◌, some, List, [], ◌∷◌, ◌==◌, ◌≡◌, inl, inr,
  refl, Memᴰ, arith, length, Option-cases, Bool-cases, eq_of_==, and-eq-true, subst, ap, sym,
}
use lowcode_bpmn.Text.{is_empty}
use lowcode_bpmn.Definition.Model.{Element, SequenceFlow, ProcessDefinition}
use lowcode_bpmn.Definition.Registry.{Registry, build_registry, element, incoming_flows}
use lowcode_bpmn.Definition.Registry.Lookup.{build_registry-Built, flows-eq-filter}
use lowcode_bpmn.Definition.Return.{
  is_sub_process, upstream_user_task, scope_entry, return_by_search, resolve_return_target,
}
use lowcode_bpmn.Definition.Return.Search.{
  IsUpstreamUserTask, first, search_upstream_total, search_upstream_sound, unmet-cons, unmet-nil,
}
use lowcode_bpmn.Errors.{ok, >>=-eq-ok, ok-injective}

-- The entry of a sub-process that stands for the scope of `from`.
pub record IsScopeEntry (reg : Registry) (from : String) (scope : String) (els : List Element)
    (id : String) : Type 0 where
  pub sub : Element
  pub listed : Memᴰ sub els
  pub is_sub : is_sub_process sub.kind ≡ true
  pub marks : (sub.scope_id == scope || sub.id == scope) ≡ true
  pub entry : sub.entry_ref ≡ id
  pub target : Element
  pub target_at : element reg id ≡ some target
  pub elsewhere : (id == from) ≡ false

-- The three ways to a return target.
pub data ReturnTarget (reg : Registry) (from explicit id : String) : Type 0 where
  explicit_target :
      (el : Element)
      → is_empty explicit ≡ false
      → id ≡ explicit
      → element reg id ≡ some el
      → ReturnTarget reg from explicit id
  previous_task :
      is_empty explicit ≡ true → IsUpstreamUserTask reg from id → ReturnTarget reg from explicit id
  scope_start :
      (el : Element)
      → is_empty explicit ≡ true
      → upstream_user_task reg from ≡ ok ""
      → element reg from ≡ some el
      → IsScopeEntry reg from el.scope_id reg.def.elements id
      → ReturnTarget reg from explicit id

module _ (reg : Registry) (from scope : String) where
  IsScopeEntry-later :
      (el : Element) (els : List Element) {id : String}
      → IsScopeEntry reg from scope els id
      → IsScopeEntry reg from scope (el ∷ els) id
  IsScopeEntry-later el els s = record {
    sub = s.sub;
    listed = Memᴰ.tail s.listed;
    is_sub = s.is_sub;
    marks = s.marks;
    entry = s.entry;
    target = s.target;
    target_at = s.target_at;
    elsewhere = s.elsewhere;
  }

  abbrev enters : Element → Bool
  enters el =
      is_sub_process el.kind
      && (el.scope_id == scope || el.id == scope)
      && not (is_empty el.entry_ref)

  scope_entry_sound :
      (els : List Element) {id : String}
      → scope_entry reg from scope els ≡ ok id
      → IsScopeEntry reg from scope els id
  unfolding scope_entry
  scope_entry_sound [] h = absurd (cc)
  scope_entry_sound (el ∷ els) {id} h =
      let later = λ (r : scope_entry reg from scope els ≡ ok id).
        IsScopeEntry-later el els (scope_entry_sound els r) in
      elim (Bool-cases (enters el)) [
        | inr skipped ↦ later (rw (skipped, scope_entry) at h)
        | inl hit ↦
            let (first_two, _) = and-eq-true _ (not (is_empty el.entry_ref)) hit in
            let (sub, marks) = and-eq-true (is_sub_process el.kind) _ first_two in
            elim (Option-cases (element reg el.entry_ref)) [
              | inl absent ↦ later (rw (hit, absent) at h)
              | inr (target, at_entry) ↦ elim (Bool-cases (el.entry_ref == from)) [
                | inl same ↦ later (rw (hit, at_entry, same) at h)
                | inr other ↦
                    let e : el.entry_ref ≡ id = ok-injective (rw (hit, at_entry, other) at h) in
                    record {
                      sub = el;
                      listed = Memᴰ.head refl;
                      is_sub = sub;
                      marks = marks;
                      entry = e;
                      target = target;
                      target_at = subst (λ k. element reg k ≡ some target) e at_entry;
                      elsewhere = subst (λ k. (k == from) ≡ false) e other;
                    }
              ]
            ]
      ]

-- A successful `ResolveReturnTarget` answers with an element of the registry: the explicit one if the
-- task names one; else a user task upstream of the rejected one; else, if the search found none, the
-- entry of a sub-process that stands for the task's scope, which is not the task itself.
pub resolve_return_target-ReturnTarget :
    (reg : Registry) (from explicit id : String)
    → resolve_return_target reg from explicit ≡ ok id
    → ReturnTarget reg from explicit id
unfolding resolve_return_target return_by_search upstream_user_task
resolve_return_target-ReturnTarget reg from explicit id h = elim (Bool-cases (is_empty explicit)) [
  | inr given ↦ elim (Option-cases (element reg explicit)) [
    | inl absent ↦ absurd (ground arith)
    | inr (el, found) ↦
        let e : explicit ≡ id = ground arith in
        ReturnTarget.explicit_target el given (sym e) (rw (← e) found)
  ]
  | inl missing ↦ elim (Option-cases (element reg from)) [
    | inl absent ↦ absurd (ground arith)
    | inr (el, found) ↦
        let (up, searched, chosen) =
          >>=-eq-ok (upstream_user_task reg from) (return_by_search reg from el)
            (rw (missing, found) at h) in
        elim (Bool-cases (is_empty up)) [
          | inr some_task ↦
              let e : up ≡ id = ground arith in
              ReturnTarget.previous_task missing (
                subst (IsUpstreamUserTask reg from) e
                  (search_upstream_sound reg from _ _ _ (λ f m. first m) searched some_task))
          | inl no_task ↦
              let e : up ≡ "" = eq_of_== up "" no_task in
              elim (Bool-cases (is_empty el.scope_id)) [
                | inl unscoped ↦ absurd (ground arith)
                | inr scoped ↦
                    ReturnTarget.scope_start el missing (rw e at searched) found
                      (scope_entry_sound reg from el.scope_id reg.def.elements (ground arith))
              ]
        ]
  ]
]

-- In the registry of a definition the upstream search always ends: the number of the definition's flows
-- bounds its rounds.
pub upstream_user_task_total :
    (def : ProcessDefinition) (reg : Registry) (start : String)
    → build_registry def ≡ ok reg
    → (id : String) × (upstream_user_task reg start ≡ ok id)
unfolding upstream_user_task
upstream_user_task_total def reg start h =
    let b = build_registry-Built def reg h in
    let by_target = λ (id : String). (flows-eq-filter def reg id h).1 in
    search_upstream_total reg def.flows by_target (length reg.def.flows) (start ∷ [])
      (incoming_flows reg start)
      (omega (
        arith,
        unmet-cons [] start def.flows refl,
        ap (length {A = SequenceFlow}) (by_target start),
        unmet-nil def.flows,
        ap (λ (d : ProcessDefinition). length d.flows) b.of_def,
      ))
