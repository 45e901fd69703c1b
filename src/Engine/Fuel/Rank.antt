-- ===== src/Engine/Fuel/Rank.antt =====
-- internal/engine/engine.go: a check that a process has no loop without a waiting element, run on the
-- registry of the process, and the fuel that is then enough.
use lowcode_bpmn.Prelude.{
  ℕ, ltb, String, string_eq, Bool, true, false, ◌&&◌, ◌||◌, not, some, List, [], ◌∷◌, ◌≡◌, ◌≢◌,
  Memᴰ, ◌==◌, eq_of_==, and-eq-true, Map, lookup, arith, Bool-cases, inl, inr, sym, subst,
}
use lowcode_bpmn.Text.{is_empty}
use lowcode_bpmn.Definition.Model.{Element, SequenceFlow}
use lowcode_bpmn.Definition.Registry.{Registry, element, outgoing_flows}
use lowcode_bpmn.Errors.{err, out_of_fuel}
use lowcode_bpmn.Engine.State.{World, Exec}
use lowcode_bpmn.Engine.Activate.{activate_element, is_sub_process}
use lowcode_bpmn.Engine.Fuel.{has_fuel-eq-true}
use lowcode_bpmn.Engine.Fuel.Terminates.{passes, Descends, activate_element-Fueled}

module _ (rank : String → ℕ) where
  abbrev pub all_below : ℕ → List SequenceFlow → Bool
  all_below n [] = true
  all_below n (f ∷ flows) = ltb (rank f.target_ref) n && all_below n flows

  all_below-Memᴰ :
      (n : ℕ) (flows : List SequenceFlow) (f : SequenceFlow)
      → all_below n flows ≡ true
      → Memᴰ f flows
      → ltb (rank f.target_ref) n ≡ true
  all_below-Memᴰ n [] f h m = elim m [ ]
  all_below-Memᴰ n (g ∷ flows) f h (Memᴰ.head e) =
      subst (λ (x : SequenceFlow). ltb (rank x.target_ref) n ≡ true) (sym e) (and-eq-true _ _ h).0
  all_below-Memᴰ n (g ∷ flows) f h (Memᴰ.tail m) = all_below-Memᴰ n flows f (and-eq-true _ _ h).1 m

  module _ (reg : Registry) where
    -- The element's key is its id, and the rank goes down along the flows that it goes on to.
    unfoldable pub descends_at : String → Element → Bool
    unfolding passes outgoing_flows
    descends_at id el =
        (el.id == id)
        && ((not (passes el.kind el) || all_below (rank id) (outgoing_flows reg id))
            && (not (is_sub_process el.kind)
                || (is_empty el.entry_ref || ltb (rank el.entry_ref) (rank id))))

    unfoldable pub descends_all : Map String Element → Bool
    unfolding descends_at
    descends_all [] = true
    descends_all ((id, el) ∷ m) = descends_at id el && descends_all m

    descends_all-lookup :
        (m : Map String Element) (id : String) (el : Element)
        → descends_all m ≡ true
        → lookup id m ≡ some el
        → descends_at id el ≡ true
    unfolding descends_all lookup
    descends_all-lookup [] id el h found = cc
    descends_all-lookup ((j, e) ∷ m) id el h found = elim (Bool-cases (j == id)) [
      | inl same ↦
          ground (arith, eq_of_== j id same, and-eq-true (descends_at j e) (descends_all m) h)
      | inr other ↦
          descends_all-lookup m id el (and-eq-true (descends_at j e) (descends_all m) h).1
            (ground arith)
    ]

    unfoldable pub descends : Bool
    unfolding descends_all
    descends = descends_all reg.elements

    descends-Descends : descends ≡ true → Descends reg rank
    unfolding descends descends_at element
    descends-Descends h = record {
      named = λ id el found. eq_of_== el.id id (at_key id el found).0;
      along = λ id el f found goes_on m.
          all_below-Memᴰ (rank id) (outgoing_flows reg id) f ((at_key id el found).1 goes_on) m;
      into = λ id el found sub entry. (at_key_into id el found sub entry);
    }
      where
        at_key :
            (id : String) (el : Element)
            → lookup id reg.elements ≡ some el
            → ((el.id == id) ≡ true)
              × (passes el.kind el ≡ true → all_below (rank id) (outgoing_flows reg id) ≡ true)
        at_key id el found =
            let at_id = descends_all-lookup reg.elements id el h found in
            (ground arith, λ goes_on. ground arith)

        at_key_into :
            (id : String) (el : Element)
            → lookup id reg.elements ≡ some el
            → is_sub_process el.kind ≡ true
            → is_empty el.entry_ref ≡ false
            → ltb (rank el.entry_ref) (rank id) ≡ true
        at_key_into id el found sub entry =
            let at_id = descends_all-lookup reg.elements id el h found in ground arith

-- Where the rank of the elements goes down along every flow that is followed without waiting, an
-- activation with more fuel than the element's rank never runs out of it, whatever the world answers.
pub activate_element-terminates :
    (w : World) (reg : Registry) (rank : String → ℕ)
    → descends rank reg ≡ true
    → (fuel : ℕ) (id branch : String) (s : Exec) → ltb (rank id) fuel ≡ true
    → (activate_element w reg fuel id branch s).0 ≢ err out_of_fuel
activate_element-terminates w reg rank h fuel id branch s below =
    has_fuel-eq-true _ (
      (activate_element-Fueled w reg rank (descends-Descends rank reg h) fuel id branch below).at s)
