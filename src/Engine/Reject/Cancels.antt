-- ===== src/Engine/Reject/Cancels.antt =====
-- internal/engine/reject.go: the activities of an instance that is cancelled.
use lowcode_bpmn.Prelude.{
  suc, nat_eq, String, Bool, true, false, ◌&&◌, some, List, [], ◌∷◌, ◌==◌, ◌≡◌, ◌≢◌, ◌⊎◌, inl, inr,
  refl, sym, ap, ◌∙◌, subst, Memᴰ, filter, Map, lookup, insert, lookup-insert_self,
  lookup-insert_ne, Bool-cases, nat_beq_iff, ==_refl, eq_of_==, arith,
}
use lowcode_bpmn.Definition.Registry.{Registry}
use lowcode_bpmn.Errors.{ok}
use lowcode_bpmn.Runtime.{ActivityInstance, Uuid, Time, is_active}
use lowcode_bpmn.Store.Memory.{
  get_activity_instance, list_active_activities, update_activity_instance, update_process_instance,
  values,
}
use lowcode_bpmn.Engine.State.{
  World, Exec, ◌>>=◌, done, now, list_active, modify_inst, update_activity, update_instance,
}
use lowcode_bpmn.Engine.Reject.{cancel_instance, update_cancelled, cancelled, cancelled_instance}

-- Each activity is stored under its own id.
unfoldable pub IsKeyed : Map Uuid ActivityInstance → Type 0
IsKeyed m = (id : Uuid) (act : ActivityInstance) → lookup id m ≡ some act → act.id ≡ id

abbrev cancel_in :
    Time → String → List ActivityInstance → Map Uuid ActivityInstance → Map Uuid ActivityInstance
cancel_in t reason [] m = m
cancel_in t reason (act ∷ acts) m =
    cancel_in t reason acts (insert act.id (cancelled t reason act) m)

-- The store after the loop answers an id with a cancelled activity of the list, or else as before.
cancel_in-lookup :
    (t : Time) (reason : String) (acts : List ActivityInstance) (m : Map Uuid ActivityInstance)
    (id : Uuid)
    → ((act : ActivityInstance) × (lookup id (cancel_in t reason acts m)
          ≡ some (cancelled t reason act)))
      ⊎ ((lookup id (cancel_in t reason acts m) ≡ lookup id m)
          × ((act : ActivityInstance) → Memᴰ act acts → act.id ≢ id))
cancel_in-lookup t reason [] m id = inr (refl, λ act m. elim m [ ])
cancel_in-lookup t reason (a ∷ acts) m id =
    elim (cancel_in-lookup t reason acts (insert a.id (cancelled t reason a) m) id) [
      | inl later ↦ inl later
      | inr (same, others) ↦ elim (Bool-cases (a.id == id)) [
        | inl e ↦ inl (
          a,
          same
              ∙ subst
                  (λ k.
                    lookup k (insert a.id (cancelled t reason a) m) ≡ some (cancelled t reason a))
                  (eq_of_== a.id id e) (lookup-insert_self a.id (cancelled t reason a) m),
        )
        | inr n ↦
            let ne : a.id ≢ id = λ e. ground (arith, ==_refl id, e) in
            inr (
              same ∙ lookup-insert_ne id a.id (cancelled t reason a) m ne,
              not_here a acts id ne others,
            )
      ]
    ]
  where
    not_here :
        (a : ActivityInstance) (acts : List ActivityInstance) (id : Uuid)
        → a.id ≢ id
        → ((act : ActivityInstance) → Memᴰ act acts → act.id ≢ id)
        → (act : ActivityInstance) → Memᴰ act (a ∷ acts)
        → act.id ≢ id
    not_here a acts id ne others act (Memᴰ.head e) =
        λ k. ne (ap (λ (x : ActivityInstance). x.id) (sym e) ∙ k)
    not_here a acts id ne others act (Memᴰ.tail m) = others act m

mem-filter :
    {A : Type 0} (p : A → Bool) (xs : List A) (x : A)
    → Memᴰ x xs
    → p x ≡ true
    → Memᴰ x (filter p xs)
mem-filter p [] x m h = elim m [ ]
mem-filter p (y ∷ ys) x (Memᴰ.head e) h =
    let here : p y ≡ true = subst (λ z. p z ≡ true) e h in rw here (Memᴰ.head e)
mem-filter p (y ∷ ys) x (Memᴰ.tail m) h = elim (Bool-cases (p y)) [
  | inl k ↦ rw k (Memᴰ.tail (mem-filter p ys x m h))
  | inr k ↦ rw k (mem-filter p ys x m h)
]

mem-values :
    (m : Map Uuid ActivityInstance) (id : Uuid) (act : ActivityInstance)
    → lookup id m ≡ some act
    → Memᴰ act (values m)
unfolding lookup values
mem-values [] id act h = cc
mem-values ((k, v) ∷ m) id act h = elim (Bool-cases (k == id)) [
  | inl e ↦ Memᴰ.head (ground arith)
  | inr n ↦ Memᴰ.tail (mem-values m id act (ground arith))
]

update_cancelled_lem :
    (w : World) (reg : Registry) (t : Time) (reason : String) (acts : List ActivityInstance)
    (s : Exec)
    → update_cancelled w reg t reason acts s ≡ (
      ok tt,
      record s {
        store = record (s.store) {
          activity_instances = cancel_in t reason acts s.store.activity_instances;
        };
      },
    )
unfolding update_cancelled done ◌>>=◌ update_activity update_activity_instance
update_cancelled_lem w reg t reason [] s = refl
update_cancelled_lem w reg t reason (a ∷ acts) s =
    update_cancelled_lem w reg t reason acts (record s {
      store = record (s.store) {
        activity_instances = insert a.id (cancelled t reason a) s.store.activity_instances;
      };
    })

update_instance-activities :
    (w : World) (s : Exec)
    → (update_instance w s).1.store.activity_instances ≡ s.store.activity_instances
unfolding update_instance update_process_instance
update_instance-activities w s = ground arith

-- The cancellation of an instance, whether its last write succeeds or not, as the loop on the activities.
cancel_instance-activities :
    (w : World) (reg : Registry) (reason : String) (s : Exec)
    → (cancel_instance w reg reason s).1.store.activity_instances
      ≡ cancel_in
          (w.time_now s.readings)
          reason
          (list_active_activities s.inst.id s.store)
          s.store.activity_instances
unfolding cancel_instance list_active now modify_inst ◌>>=◌
cancel_instance-activities w reg reason s =
    rw
      (update_cancelled_lem w reg (w.time_now s.readings) reason
        (list_active_activities s.inst.id s.store))
      (update_instance-activities w (record s {
        inst = cancelled_instance (w.time_now s.readings) reason s.inst;
        store = record (s.store) {
          activity_instances =
              cancel_in (w.time_now s.readings) reason (list_active_activities s.inst.id s.store)
                s.store.activity_instances;
        };
        readings = suc s.readings;
      }))

-- If each activity is stored under its own id, then after `cancelInstance`, whether its last write
-- succeeds or not, no stored activity of the instance is active.
pub cancel_instance-none_active :
    (w : World) (reg : Registry) (reason : String) (s : Exec) (id : Uuid) (act : ActivityInstance)
    → IsKeyed s.store.activity_instances
    → get_activity_instance id (cancel_instance w reg reason s).1.store ≡ some act
    → act.process_instance_id ≡ s.inst.id
    → is_active act.status ≡ false
unfolding get_activity_instance list_active_activities IsKeyed
cancel_instance-none_active w reg reason s id act keyed stored own =
    let t = w.time_now s.readings in
    let acts = list_active_activities s.inst.id s.store in
    let m = s.store.activity_instances in
    let after : lookup id (cancel_in t reason acts m) ≡ some act =
      ap (lookup id) (sym (cancel_instance-activities w reg reason s)) ∙ stored in
    elim (cancel_in-lookup t reason acts m id) [
      | inl (a, e) ↦ ground arith
      | inr (same, others) ↦ elim (Bool-cases (is_active act.status)) [
        | inr n ↦ n
        | inl y ↦ absurd (
            others act
              (mem-filter
                (λ (a : ActivityInstance). a.process_instance_id == s.inst.id && is_active a.status)
                (values m) act (mem-values m id act (sym same ∙ after))
                (ground (arith, nat_beq_iff act.process_instance_id s.inst.id)))
              (keyed id act (sym same ∙ after)))
      ]
    ]
