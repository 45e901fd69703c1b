-- ===== src/Definition/Return/Search.antt =====
-- internal/domain/definition/return.go: the search of `upstreamUserTask`.
use mathlib.Core.List.Memᴰ
use lowcode_bpmn.Prelude.{
  ℕ, zero, suc, ◌+◌, ◌≤◌, String, string_eq, false, not, some, List, [], ◌∷◌, ◌++◌, ◌==◌, ◌≡◌, ◌≢◌,
  ◌⊎◌, inl, inr, refl, contains, Memᴰ, arith, filter, length, length-append, Option-cases,
  Bool-cases, ==_refl, ap, subst,
}
use lowcode_bpmn.Text.{is_empty}
use lowcode_bpmn.Definition.Model.{ElementKind, user_task, parallel_gateway, Element, SequenceFlow}
use lowcode_bpmn.Definition.Registry.{Registry, element, incoming_flows}
use lowcode_bpmn.Definition.Return.{Visit, dup, found, stop, walk, classify, visit, search_upstream}
use lowcode_bpmn.Errors.{ok, ok-injective}

abbrev pub into : String → List SequenceFlow → List SequenceFlow
into id flows = filter (λ (f : SequenceFlow). f.target_ref == id) flows

-- The flows into elements that the walk has not met yet: only these can still enter the queue.
abbrev pub unmet : List String → List SequenceFlow → List SequenceFlow
unmet seen flows = filter (λ (f : SequenceFlow). not (contains seen f.target_ref)) flows

pub unmet-cons :
    (seen : List String) (src : String) (flows : List SequenceFlow)
    → contains seen src ≡ false
    → length (unmet (src ∷ seen) flows) + length (into src flows) ≡ length (unmet seen flows)
unmet-cons seen src [] h = refl
unmet-cons seen src (f ∷ flows) h = ground (
  arith,
  string_eq.same_iff f.target_ref src,
  string_eq.same_iff src f.target_ref,
  unmet-cons seen src flows h,
)

pub unmet-nil : (flows : List SequenceFlow) → length (unmet [] flows) ≡ length flows
unmet-nil [] = refl
unmet-nil (f ∷ flows) = ap suc (unmet-nil flows)

Visit-cases : (v : Visit) → (v ≡ dup) ⊎ ((v ≡ found) ⊎ ((v ≡ stop) ⊎ (v ≡ walk)))
Visit-cases dup = inl refl
Visit-cases found = inr (inl refl)
Visit-cases stop = inr (inr (inl refl))
Visit-cases walk = inr (inr (inr refl))

module _ (reg : Registry) where
  visit_fresh :
      (seen : List String) (src : String) → visit reg seen src ≢ dup → contains seen src ≡ false
  unfolding visit
  visit_fresh seen src h = elim (Bool-cases (contains seen src)) [
    | inl met ↦ absurd (h (rw met))
    | inr new ↦ new
  ]

  pub search_upstream_total :
      (flows : List SequenceFlow)
      → ((id : String) → incoming_flows reg id ≡ into id flows)
      → (fuel : ℕ) (seen : List String) (queue : List SequenceFlow)
      → length queue + length (unmet seen flows) ≤ fuel
      → (id : String) × (search_upstream reg fuel seen queue ≡ ok id)
  unfolding search_upstream
  search_upstream_total flows by_target fuel seen [] h = ("", refl)
  search_upstream_total flows by_target zero seen (f ∷ queue) h = absurd (omega arith)
  search_upstream_total flows by_target (suc fuel) seen (f ∷ queue) h =
      let src = f.source_ref in
      elim (Visit-cases (visit reg seen src)) [
        | inl e ↦
            let (id, r) = search_upstream_total flows by_target fuel seen queue (omega arith) in
            (id, rw (e, search_upstream) r)
        | inr (inl e) ↦ (src, rw (e, search_upstream))
        | inr (inr (inl e)) ↦
            let new = visit_fresh seen src (λ d. cc) in
            let (id, r) =
              search_upstream_total flows by_target fuel (src ∷ seen) queue
                (omega (arith, unmet-cons seen src flows new)) in
            (id, rw (e, search_upstream) r)
        | inr (inr (inr e)) ↦
            let new = visit_fresh seen src (λ d. cc) in
            let (id, r) =
              search_upstream_total flows by_target fuel (src ∷ seen)
                (queue ++ incoming_flows reg src)
                (omega (
                  arith,
                  unmet-cons seen src flows new,
                  length-append queue (incoming_flows reg src),
                  ap (length {A = SequenceFlow}) (by_target src),
                )) in
            (id, rw (e, search_upstream) r)
      ]

-- The walks against the flows from `start`, through elements at which the search goes on.
pub data Upstream (reg : Registry) (start : String) : String → Type 0 where
  first : {f : SequenceFlow} → Memᴰ f (incoming_flows reg start) → Upstream reg start f.source_ref
  further :
      {u : String} {f : SequenceFlow} (el : Element)
      → Upstream reg start u
      → element reg u ≡ some el
      → classify el.kind (length (incoming_flows reg u)) ≡ walk
      → Memᴰ f (incoming_flows reg u)
      → Upstream reg start f.source_ref

-- The source of a flow is upstream, by a flow whose end the caller names.
abbrev pub Sources : Registry → String → List SequenceFlow → Type 0
Sources reg start queue = (f : SequenceFlow) → Memᴰ f queue → Upstream reg start f.source_ref

-- A user task that the search may stop at.
pub record IsUpstreamUserTask (reg : Registry) (start : String) (id : String) : Type 0 where
  pub task : Element
  pub found_at : element reg id ≡ some task
  pub is_user : task.kind ≡ user_task
  pub upstream : Upstream reg start id

classify-found : (k : ElementKind) (n : ℕ) → classify k n ≡ found → k ≡ user_task
unfolding classify
classify-found user_task n h = refl
classify-found parallel_gateway n h = ground arith
classify-found _ n h = ground arith

module _ (reg : Registry) where
  visit-found :
      (seen : List String) (src : String)
      → visit reg seen src ≡ found
      → (el : Element) × (element reg src ≡ some el) × (el.kind ≡ user_task)
  unfolding visit
  visit-found seen src h = elim (Option-cases (element reg src)) [
    | inl e ↦ absurd (ground arith)
    | inr (el, e) ↦ (el, e, classify-found el.kind (length (incoming_flows reg src)) (ground arith))
  ]

  visit-walk :
      (seen : List String) (src : String)
      → visit reg seen src ≡ walk
      → (el : Element) × (element reg src ≡ some el)
        × (classify el.kind (length (incoming_flows reg src)) ≡ walk)
  unfolding visit
  visit-walk seen src h = elim (Option-cases (element reg src)) [
    | inl e ↦ absurd (ground arith)
    | inr (el, e) ↦ (el, e, ground arith)
  ]

  pub search_upstream_sound :
      (start : String) (fuel : ℕ) (seen : List String) (queue : List SequenceFlow) {id : String}
      → Sources reg start queue
      → search_upstream reg fuel seen queue ≡ ok id
      → is_empty id ≡ false
      → IsUpstreamUserTask reg start id
  unfolding search_upstream
  search_upstream_sound start fuel seen [] {id} s h ne = absurd (cc (==_refl id))
  search_upstream_sound start zero seen (f ∷ queue) s h ne = absurd (cc)
  search_upstream_sound start (suc fuel) seen (f ∷ queue) {id} s h ne =
      let src = f.source_ref in
      let later : Sources reg start queue = λ g m. s g (Memᴰ.tail m) in
      elim (Visit-cases (visit reg seen src)) [
        | inl e ↦
            search_upstream_sound start fuel seen queue later (rw (e, search_upstream) at h) ne
        | inr (inl e) ↦
            let same : src ≡ id = ok-injective (rw (e, search_upstream) at h) in
            let (el, at_src, user) = visit-found seen src e in
            subst (IsUpstreamUserTask reg start) same (record {
              task = el;
              found_at = at_src;
              is_user = user;
              upstream = s f (Memᴰ.head refl);
            })
        | inr (inr (inl e)) ↦
            search_upstream_sound start fuel (src ∷ seen) queue later (rw (e, search_upstream) at h)
              ne
        | inr (inr (inr e)) ↦
            let (el, at_src, goes_on) = visit-walk seen src e in
            search_upstream_sound start fuel (src ∷ seen) (queue ++ incoming_flows reg src)
              (λ g m. elim (Memᴰ.append_cases queue m) [
                | inl old ↦ later g old
                | inr new ↦ further el (s f (Memᴰ.head refl)) at_src goes_on new
              ])
              (rw (e, search_upstream) at h) ne
      ]
