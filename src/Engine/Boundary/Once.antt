-- ===== src/Engine/Boundary/Once.antt =====
-- internal/engine/boundary.go: an event fires at most once for an activity.
use Prim.Native.Char.{code}
use Prim.Native.String.{◌++◌}
use lowcode_bpmn.Prelude.{
  ℕ, suc, String, string_eq, Bool, true, false, ◌||◌, not, Option, none, some, ◌==◌, ◌≡◌, ◌≢◌, refl,
  sym, ap, subst, ◌∙◌, arith, lookup, insert, nat_eq, lookup-insert, lookup-insert_self,
  ==_false_of_ne, eq_of_==, nat_beq_iff, Bool-cases, Map, inl, inr, List, [], ◌∷◌,
}
use lowcode_bpmn.Text.{is_empty}
use text.Mathlib.TextLemmas.{cons-append}
use lowcode_bpmn.Vars.{Vars, Value, bool, get, put, delete, get-put, get-delete, get-put_self}
use lowcode_bpmn.Runtime.{Uuid, Time, ActivityInstance, ProcessInstance, is_active}
use lowcode_bpmn.Errors.{Result, ok, err}
use lowcode_bpmn.Store.Memory.{
  Store, get_process_instance, get_activity_instance, update_process_instance,
  update_activity_instance, create_activity_instance,
}
use lowcode_bpmn.Engine.Advances.{update_process_instance-eq-ok}
use lowcode_bpmn.Engine.Preserve.{
  Primitives, activate_element-Keeps, activate_via_flow-Keeps, try_complete_process-Keeps,
}
use lowcode_bpmn.Engine.State.{
  World, Exec, now, new_uuid, create_activity, update_activity, update_instance, list_active,
  run_script, http_do, set_updated, set_active, set_variables, set_internal, set_completed,
  set_scope, modify_inst, modify, attempt, gets, pure, M, ◌>>=◌, ◌>>◌,
}
use lowcode_bpmn.Engine.State.Keeps.{IsPreorder, Keeps, Keeps-done, Keeps-bind}
use lowcode_bpmn.Engine.Flow.{Activate, try_complete_process, join_arrivals_key}
use lowcode_bpmn.Definition.Model.{Element, SequenceFlow}
use lowcode_bpmn.Engine.Activate.{activate_element}
use lowcode_bpmn.Definition.Boundary.{boundary_cancels_activity}
use lowcode_bpmn.Definition.Registry.{Registry, outgoing_flows}
use lowcode_bpmn.Engine.Boundary.{
  boundary_fired_key, prepare_boundary, run_boundary, fire_found, fire_boundary_event,
  follow_boundary_outgoing, follow_flows, boundary_already_fired,
}

abbrev first_code : String → ℕ
first_code String.[] = 0
first_code (String.◌∷◌ c s) = code c

first_code-append : (s t : String) → is_empty s ≡ false → first_code (s ++ t) ≡ first_code s
first_code-append String.[] t h = cc
first_code-append (String.◌∷◌ c s) t h = ap first_code (cons-append c s t)

keys_differ :
    (w : World) (host : Uuid) (id gateway : String)
    → boundary_fired_key w host id ≢ join_arrivals_key gateway
unfolding boundary_fired_key join_arrivals_key
keys_differ w host id gateway h =
    let fired = first_code-append "boundary_fired:" (w.uuid_text host ++ (":" ++ id)) refl in
    let joined = first_code-append "join_arrivals_" gateway refl in
    let same : 98 ≡ 106 = sym fired ∙ ap first_code h ∙ joined in omega (arith, same)

lookup-insert_at :
    (j k : Uuid) (v : ProcessInstance) (m : Map Uuid ProcessInstance)
    → j ≡ k
    → lookup k (insert j v m) ≡ some v
lookup-insert_at j k v m h = ap (λ i. lookup i (insert j v m)) (sym h) ∙ lookup-insert_self j v m

bind-at :
    {A B : Type 0} (m : M A) (f : A → M B) (s : Exec) {a : A}
    → (m s).0 ≡ ok a
    → (m >>= f) s ≡ f a (m s).1
unfolding ◌>>=◌
bind-at m f s h = ap (λ r. lowcode_bpmn.Engine.State.and_then r f (m s).1) h

update-eq-ok :
    (t : Time) (inst stored : ProcessInstance) (st : Store)
    → lookup inst.id st.process_instances ≡ some stored
    → inst.lock_version ≡ stored.lock_version
    → update_process_instance t inst st
      ≡ ok (
        record inst { updated_at = t; lock_version = suc inst.lock_version },
        record st {
          process_instances =
              insert inst.id
                (record inst { updated_at = t; lock_version = suc inst.lock_version })
                st.process_instances;
        },
      )
unfolding update_process_instance
update-eq-ok t inst stored st found same =
    ground (arith, nat_beq_iff stored.lock_version inst.lock_version)

or_true : (b : Bool) → (b || true) ≡ true
or_true true = refl
or_true false = refl

-- The instance `id` is in hand and stored, both with an entry under `key`, and what is stored as the
-- activity `host` has that id.
record Marked (key : String) (id host : Uuid) (s : Exec) : Type 0 where
  held : (v : Value) × (get key s.inst.internal_state ≡ some v)
  in_hand : s.inst.id ≡ id
  stored :
      (inst : ProcessInstance) × (v : Value) × (lookup id s.store.process_instances ≡ some inst)
      × (get key inst.internal_state ≡ some v)
  keyed : (a : ActivityInstance) → lookup host s.store.activity_instances ≡ some a → a.id ≡ host

module _ (key : String) (id host : Uuid) where
  -- The mark, once made, stays.
  Stays : Exec → Exec → Type 0
  Stays s t = Marked key id host s → Marked key id host t

  Stays-order : IsPreorder Stays
  unfolding Stays
  Stays-order = record { same = λ s m. m; chain = λ s t u f g m. g (f m) }

  -- A step that writes no instance and keeps the entries of the one in hand.
  quietly :
      (s t : Exec)
      → t.inst.id ≡ s.inst.id
      → get key t.inst.internal_state ≡ get key s.inst.internal_state
      → t.store.process_instances ≡ s.store.process_instances
      → t.store.activity_instances ≡ s.store.activity_instances
      → Stays s t
  unfolding Stays
  quietly s t same_id same_entry same_instances same_activities m = record {
    held = (m.held.0, same_entry ∙ m.held.1);
    in_hand = same_id ∙ m.in_hand;
    stored = (m.stored.0, m.stored.1, ap (lookup id) same_instances ∙ m.stored.2, m.stored.3);
    keyed = λ a found. m.keyed a (ap (lookup host) (sym same_activities) ∙ found);
  }

  insert_keyed :
      (act : ActivityInstance) (m : Map Uuid ActivityInstance)
      → ((a : ActivityInstance) → lookup host m ≡ some a → a.id ≡ host)
      → (a : ActivityInstance) → lookup host (insert act.id act m) ≡ some a
      → a.id ≡ host
  insert_keyed act m keyed a found = elim (Bool-cases (act.id == host)) [
    | inl same ↦
        let taken : act ≡ a = ground (arith, lookup-insert host act.id act m) in
        ap (λ (x : ActivityInstance). x.id) (sym taken) ∙ eq_of_== act.id host same
    | inr other ↦ keyed a (ground (arith, lookup-insert host act.id act m))
  ]

  write_activity :
      (s : Exec) (act : ActivityInstance) (t : Exec)
      → t.inst ≡ s.inst
      → t.store.process_instances ≡ s.store.process_instances
      → t.store.activity_instances ≡ insert act.id act s.store.activity_instances
      → Stays s t
  unfolding Stays
  write_activity s act t same_inst same_instances written m = record {
    held = (m.held.0, ap (λ (i : ProcessInstance). get key i.internal_state) same_inst ∙ m.held.1);
    in_hand = ap (λ (i : ProcessInstance). i.id) same_inst ∙ m.in_hand;
    stored = (m.stored.0, m.stored.1, ap (lookup id) same_instances ∙ m.stored.2, m.stored.3);
    keyed = λ a found.
        insert_keyed act s.store.activity_instances m.keyed a
          (ap (lookup host) (sym written) ∙ found);
  }

module _ (w : World) (fired host : Uuid) (el_id : String) (id : Uuid) where
  abbrev fired_key : String
  fired_key = boundary_fired_key w fired el_id

  write_instance :
      (s : Exec) (t : Time) (written : ProcessInstance × Store)
      → (written.0 ≡ record (s.inst) { updated_at = t; lock_version = suc s.inst.lock_version })
      → (written.1 ≡ record (s.store) {
        process_instances = insert s.inst.id written.0 s.store.process_instances;
      })
      → Stays fired_key id host s
          (record s { inst = written.0; store = written.1; readings = suc s.readings })
  unfolding Stays
  write_instance s t written e f m =
      let entry = ap (λ (i : ProcessInstance). get fired_key i.internal_state) e in
      record {
        held = (m.held.0, entry ∙ m.held.1);
        in_hand = ap (λ (i : ProcessInstance). i.id) e ∙ m.in_hand;
        stored = (
          written.0,
          m.held.0,
          ap (λ (st : Store). lookup id st.process_instances) f
              ∙ ap (λ k. lookup k (insert s.inst.id written.0 s.store.process_instances))
                  (sym m.in_hand)
              ∙ lookup-insert_self s.inst.id written.0 s.store.process_instances,
          entry ∙ m.held.1,
        );
        keyed = λ a found.
            m.keyed a (ap (λ (st : Store). lookup host st.activity_instances) (sym f) ∙ found);
      }

  update_instance-Stays : Keeps (Stays fired_key id host) (update_instance w)
  unfolding update_instance
  update_instance-Stays = record {
    at = λ s. after s (update_process_instance (w.time_now s.readings) s.inst s.store) refl;
  }
    where
      after :
          (s : Exec) (r : Result (ProcessInstance × Store))
          → update_process_instance (w.time_now s.readings) s.inst s.store ≡ r
          → Stays fired_key id host s (update_instance w s).1
      after s (err e) h = rw (h, update_instance) ((Stays-order fired_key id host).same s)
      after s (ok written) h =
          let (e, f) = update_process_instance-eq-ok (w.time_now s.readings) s.inst s.store h in
          rw (h, update_instance) (write_instance s (w.time_now s.readings) written e f)

  Stays-Primitives : Primitives w (Stays fired_key id host)
  unfolding now new_uuid create_activity create_activity_instance update_activity
      update_activity_instance list_active run_script http_do set_updated set_active set_variables
      set_internal set_completed set_scope modify modify_inst
  Stays-Primitives = record {
    order = Stays-order fired_key id host;
    by_now = record { at = λ s. quiet s _ refl refl refl refl };
    by_uuid = record { at = λ s. quiet s _ refl refl refl refl };
    by_create = λ act. record { at = λ s. write_activity fired_key id host s _ _ refl refl refl };
    by_activity =
        λ act. record { at = λ s. write_activity fired_key id host s act _ refl refl refl };
    by_instance = update_instance-Stays;
    by_list = record { at = λ s. quiet s _ refl refl refl refl };
    by_script = λ req. record { at = λ s. quiet s _ refl refl refl refl };
    by_http = λ method url. record { at = λ s. quiet s _ refl refl refl refl };
    by_updated = λ t. record { at = λ s. quiet s _ refl refl refl refl };
    by_active = λ f. record { at = λ s. quiet s _ refl refl refl refl };
    by_variables = λ f. record { at = λ s. quiet s _ refl refl refl refl };
    by_arrival = λ gateway v. record {
      at = λ s. quiet s _ refl (other_entry gateway v s.inst.internal_state) refl refl;
    };
    by_clearing = λ gateway. record {
      at = λ s. quiet s _ refl (cleared_entry gateway s.inst.internal_state) refl refl;
    };
    by_completed = λ t. record { at = λ s. quiet s _ refl refl refl refl };
    by_scope = λ f. record { at = λ s. quiet s _ refl refl refl refl };
  }
    where
      quiet :
          (s t : Exec)
          → t.inst.id ≡ s.inst.id
          → get fired_key t.inst.internal_state ≡ get fired_key s.inst.internal_state
          → t.store.process_instances ≡ s.store.process_instances
          → t.store.activity_instances ≡ s.store.activity_instances
          → Stays fired_key id host s t
      quiet s t a b c d = quietly fired_key id host s t a b c d

      apart : (gateway : String) → (join_arrivals_key gateway == fired_key) ≡ false
      apart gateway =
          ==_false_of_ne (join_arrivals_key gateway) fired_key
            (λ e. keys_differ w fired el_id gateway (sym e))

      other_entry :
          (gateway : String) (v : Value) (m : Vars)
          → get fired_key (put (join_arrivals_key gateway) v m) ≡ get fired_key m
      other_entry gateway v m =
          get-put fired_key (join_arrivals_key gateway) v m ∙ rw (apart gateway) refl

      cleared_entry :
          (gateway : String) (m : Vars)
          → get fired_key (delete (join_arrivals_key gateway) m) ≡ get fired_key m
      cleared_entry gateway m =
          get-delete fired_key (join_arrivals_key gateway) m ∙ rw (apart gateway) refl

module _ {w : World} {R : Exec → Exec → Type 0} (p : Primitives w R) (reg : Registry)
    (activate : Activate) (keeps : (id branch : String) → Keeps R (activate id branch)) where
  follow_flows-Keeps :
      (branch : String) (flows : List SequenceFlow)
      → Keeps R (follow_flows w reg activate branch flows)
  unfolding follow_flows
  follow_flows-Keeps branch [] = Keeps-done p.order
  follow_flows-Keeps branch (f ∷ flows) =
      Keeps-bind p.order _ _ (activate_via_flow-Keeps p reg activate keeps f branch)
        (λ _. follow_flows-Keeps branch flows)

  follow_boundary_outgoing-Keeps :
      (id branch : String) → Keeps R (follow_boundary_outgoing w reg activate id branch)
  unfolding follow_boundary_outgoing
  follow_boundary_outgoing-Keeps id branch = at_flows (outgoing_flows reg id)
    where
      at_flows :
          (flows : List SequenceFlow)
          → Keeps R (elim flows [
            | [] ↦ try_complete_process w reg
            | f ∷ rest ↦ follow_flows w reg activate branch (f ∷ rest)
          ])
      at_flows [] = try_complete_process-Keeps p reg
      at_flows (f ∷ rest) = follow_flows-Keeps branch (f ∷ rest)

module _ (w : World) (reg : Registry) (fuel : ℕ) (vars : Vars) (inst : ProcessInstance)
    (host : ActivityInstance) (el : Element) where
  KeyedAt : Uuid → Exec → Type 0
  KeyedAt at s = (a : ActivityInstance) → lookup at s.store.activity_instances ≡ some a → a.id ≡ at

  -- What the preparation of a firing leaves.
  record Prepared (s : Exec) (out : Result (Unit {0}) × Exec) : Type 0 where
    result : out.0 ≡ ok tt
    internal :
        out.1.inst.internal_state
        ≡ put (boundary_fired_key w host.id el.id) (bool true) inst.internal_state
    same_id : out.1.inst.id ≡ inst.id
    same_version : out.1.inst.lock_version ≡ inst.lock_version
    same_instances : out.1.store.process_instances ≡ s.store.process_instances
    keyed : KeyedAt host.id s → KeyedAt host.id out.1

  prepare_lem :
      (s : Exec) (cancels : Bool)
      → Prepared s (prepare_boundary w reg fuel vars inst host el cancels s)
  unfolding prepare_boundary KeyedAt ◌>>=◌
  prepare_lem s true = record {
    result = refl;
    internal = refl;
    same_id = refl;
    same_version = refl;
    same_instances = refl;
    keyed = λ k. insert_keyed "" 0 host.id _ _ (insert_keyed "" 0 host.id _ _ k);
  }
  prepare_lem s false = record {
    result = refl;
    internal = refl;
    same_id = refl;
    same_version = refl;
    same_instances = refl;
    keyed = λ k. insert_keyed "" 0 host.id _ _ k;
  }

  abbrev key : String
  key = boundary_fired_key w host.id el.id

  -- The write of the prepared instance succeeds and stores the mark.
  update_after :
      (t : Exec)
      → get key t.inst.internal_state ≡ some (bool true)
      → t.inst.id ≡ inst.id
      → t.inst.lock_version ≡ inst.lock_version
      → lookup inst.id t.store.process_instances ≡ some inst
      → KeyedAt host.id t
      → ((update_instance w t).0 ≡ ok tt) × Marked key inst.id host.id (update_instance w t).1
  unfolding KeyedAt update_instance
  update_after t entry same_id same_version found keyed =
      rw
        (
          update_instance,
          update-eq-ok (w.time_now t.readings) t.inst inst t.store
              (ap (λ i. lookup i t.store.process_instances) same_id ∙ found) same_version,
        )
        (
          refl,
          record {
            held = (bool true, entry);
            in_hand = same_id;
            stored = (
              _,
              bool true,
              lookup-insert_at t.inst.id inst.id _ t.store.process_instances same_id,
              entry,
            );
            keyed = keyed;
          },
        )

  run_marks :
      (s : Exec)
      → lookup inst.id s.store.process_instances ≡ some inst
      → KeyedAt host.id s
      → Marked key inst.id host.id (run_boundary w reg fuel vars inst host el s).1
  unfolding run_boundary Stays
  run_marks s found keyed =
      let cancels = boundary_cancels_activity el in
      let prepared = prepare_lem s cancels in
      let t = (prepare_boundary w reg fuel vars inst host el cancels s).1 in
      let (wrote, marked) =
        update_after t
          (ap (get key) prepared.internal ∙ get-put_self key (bool true) inst.internal_state)
          prepared.same_id prepared.same_version
          (ap (lookup inst.id) prepared.same_instances ∙ found) (prepared.keyed keyed) in
      let follow =
        follow_boundary_outgoing w reg (activate_element w reg fuel) el.id host.branch_flow_id in
      subst (λ (out : Result (Unit {0}) × Exec). Marked key inst.id host.id out.1)
        (sym (
          bind-at (prepare_boundary w reg fuel vars inst host el cancels)
            (λ _. update_instance w >> follow) s prepared.result
          ∙ bind-at (update_instance w) (λ _. follow) t wrote))
        ((follow_boundary_outgoing-Keeps (Stays-Primitives w host.id host.id el.id inst.id) reg
            (activate_element w reg fuel)
            (activate_element-Keeps (Stays-Primitives w host.id host.id el.id inst.id) reg fuel)
            el.id host.branch_flow_id).at
          (update_instance w t).1 marked)

  already_fired :
      (internal : Vars) (at : Uuid) (id : String) {v : Value}
      → get (boundary_fired_key w at id) internal ≡ some v
      → boundary_already_fired w internal at id ≡ true
  unfolding boundary_already_fired
  already_fired internal at id found = rw (boundary_already_fired, found) refl

  fire_found-no_host :
      (i : ProcessInstance) (t : Exec)
      → (fire_found w reg fuel vars inst.id (some i) none el t).1 ≡ t
  unfolding fire_found pure
  fire_found-no_host i t = refl

  -- A firing that finds its mark does nothing.
  fire_found-fired :
      (i : ProcessInstance) (a : ActivityInstance) (t : Exec)
      → boundary_fired_key w a.id el.id ≡ key
      → (v : Value) → get key i.internal_state ≡ some v
      → (fire_found w reg fuel vars inst.id (some i) (some a) el t).1 ≡ t
  unfolding fire_found pure
  fire_found-fired i a t same v found =
      let fired =
        already_fired i.internal_state a.id el.id (ap (λ k. get k i.internal_state) same ∙ found) in
      rw (fired, or_true (not (is_active a.status))) refl

  fire_again :
      (t : Exec)
      → Marked key inst.id host.id t
      → (fire_boundary_event w reg fuel vars inst.id host.id el t).1 ≡ t
  unfolding fire_boundary_event get_process_instance get_activity_instance ◌>>=◌
  fire_again t m = rw m.stored.2 (at_host (lookup host.id t.store.activity_instances) m.keyed)
    where
      at_host :
          (o : Option ActivityInstance)
          → ((a : ActivityInstance) → o ≡ some a → a.id ≡ host.id)
          → (fire_found w reg fuel vars inst.id (some m.stored.0) o el t).1 ≡ t
      at_host none k = fire_found-no_host m.stored.0 t
      at_host (some a) k =
          fire_found-fired m.stored.0 a t (ap (λ i. boundary_fired_key w i el.id) (k a refl))
            m.stored.1 m.stored.3

some_inj : {A : Type 0} {a b : A} → some a ≡ some b → a ≡ b
some_inj h = cc

module _ (w : World) (reg : Registry) (fuel : ℕ) (vars : Vars) (inst : ProcessInstance)
    (host : ActivityInstance) (el : Element) (s : Exec)
    (stored : get_process_instance inst.id s.store ≡ some inst)
    (found : get_activity_instance host.id s.store ≡ some host) where
  fire_idle :
      (not (is_active host.status) || boundary_already_fired w inst.internal_state host.id el.id)
        ≡ true
      → (fire_boundary_event w reg fuel vars inst.id host.id el s).1 ≡ s
  unfolding fire_boundary_event fire_found pure gets ◌>>=◌
  fire_idle idle = rw (stored, found, idle) refl

  fire_runs :
      (not (is_active host.status) || boundary_already_fired w inst.internal_state host.id el.id)
        ≡ false
      → (fire_boundary_event w reg fuel vars inst.id host.id el s).1
        ≡ (run_boundary w reg fuel vars inst host el s).1
  unfolding fire_boundary_event fire_found pure gets attempt ◌>>=◌
  fire_runs fires = rw (stored, found, fires) refl

-- Firing a boundary event a second time on the same activity of a stored instance changes nothing, whatever
-- the first firing did and returned.
pub fires_once :
    (w : World) (reg : Registry) (fuel : ℕ) (vars : Vars) (inst : ProcessInstance)
    (host : ActivityInstance) (el : Element) (s : Exec)
    → get_process_instance inst.id s.store ≡ some inst
    → get_activity_instance host.id s.store ≡ some host
    → (fire_boundary_event w reg fuel vars inst.id host.id el
        (fire_boundary_event w reg fuel vars inst.id host.id el s).1).1
      ≡ (fire_boundary_event w reg fuel vars inst.id host.id el s).1
unfolding get_process_instance get_activity_instance KeyedAt
fires_once w reg fuel vars inst host el s stored found =
    elim (Bool-cases
      (not (is_active host.status) || boundary_already_fired w inst.internal_state host.id el.id)) [
        | inl idle ↦
            let same = fire_idle w reg fuel vars inst host el s stored found idle in
            ap (λ t. (fire_boundary_event w reg fuel vars inst.id host.id el t).1) same
        | inr fires ↦
            let ran = fire_runs w reg fuel vars inst host el s stored found fires in
            fire_again w reg fuel vars inst host el _ (
              subst (Marked (boundary_fired_key w host.id el.id) inst.id host.id) (sym ran) (
                run_marks w reg fuel vars inst host el s stored
                  (λ a h. ap (λ (x : ActivityInstance). x.id) (some_inj (sym h ∙ found)))))
      ]
