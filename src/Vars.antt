-- ===== src/Vars.antt =====
-- pkg/vars/vars.go: process variables, that is, JSON-like values, and paths into them.
use lowcode_bpmn.Prelude.{
  ℕ, ℤ, String, Bool, Option, none, some, List, [], ◌∷◌, ◌==◌, if◌then◌else◌, ◌≡◌, refl, arith,
  string_eq, ==_refl,
}
use lowcode_bpmn.Text.{trim_space, split, is_empty}
use lowcode_bpmn.Definition.Event.{EventDefinition, MultiInstanceLoopCharacteristics}

-- `any`. A float is its 64 bits. `event` and `loop` are the two records that the engine puts into the
-- input of an activity.
mutual
  pub data Value : Type 0 where
    null : Value
    bool : Bool → Value
    str : String → Value
    int : ℤ → Value
    int64 : ℤ → Value
    float : ℕ → Value
    strs : List String → Value
    arr : Items → Value
    obj : Fields → Value
    event : EventDefinition → Value
    loop : MultiInstanceLoopCharacteristics → Value

  pub data Items : Type 0 where
    nil : Items
    cons : Value → Items → Items

  pub data Fields : Type 0 where
    end : Fields
    field : String → Value → Fields → Fields

-- `map[string]any`
abbrev pub Vars : Type 0
Vars = Fields

unfoldable pub get : String → Vars → Option Value
get k end = none
get k (field j v m) = if j == k then some v else get k m

unfoldable pub put : String → Value → Vars → Vars
put k v end = field k v end
put k v (field j w m) = if j == k then field k v m else field j w (put k v m)

unfoldable pub delete : String → Vars → Vars
delete k end = end
delete k (field j w m) = let rest = delete k m in if j == k then rest else field j w rest

-- `for k, v := range out { vars[k] = v }`
unfoldable pub assign : Vars → Vars → Vars
unfolding put
assign vars end = vars
assign vars (field k v out) = assign (put k v vars) out

pub get-put :
    (j k : String) (v : Value) (m : Vars) → get j (put k v m) ≡ (if k == j then some v else get j m)
unfolding get put
get-put j k v end = refl
get-put j k v (field i w m) =
    ground (
      arith,
      string_eq.same_iff k j,
      string_eq.same_iff i k,
      string_eq.same_iff i j,
      get-put j k v m,
    )

pub get-put_self : (k : String) (v : Value) (m : Vars) → get k (put k v m) ≡ some v
get-put_self k v m = ground (arith, get-put k k v m, ==_refl k)

pub get-delete : (j k : String) (m : Vars) → get j (delete k m) ≡ (if k == j then none else get j m)
unfolding get delete
get-delete j k end = ground arith
get-delete j k (field i w m) = ground (
  arith,
  string_eq.same_iff k j,
  string_eq.same_iff i k,
  string_eq.same_iff i j,
  get-delete j k m,
)

-- One step of the walk over the segments.
abbrev pub child : Value → String → Option Value
child (obj m) seg = get seg m
child _ seg = none

unfoldable pub walk : Value → List String → Option Value
walk cur [] = some cur
walk cur (seg ∷ segs) =
    if is_empty seg then none else elim (child cur seg) [ none ↦ none | some v ↦ walk v segs ]

unfoldable pub resolve_path : Vars → String → Option Value
unfolding trim_space split walk get
resolve_path vars path =
    let trimmed = trim_space path in
    if is_empty trimmed then none else walk (obj vars) (split b'.' trimmed)

unfoldable pub strings_of : Items → List String
strings_of nil = []
strings_of (cons (str s) xs) = let rest = strings_of xs in if is_empty s then rest else s ∷ rest
strings_of (cons _ xs) = strings_of xs

-- ToStringSlice; a nil slice and an empty one are both `[]`.
unfoldable pub to_string_slice : Value → List String
unfolding strings_of
to_string_slice (strs t) = t
to_string_slice (arr t) = strings_of t
to_string_slice (str t) = if is_empty t then [] else t ∷ []
to_string_slice _ = []

abbrev order_vars : Vars
order_vars = field "order" (obj (field "amount" (str "12") end)) end

resolves : resolve_path order_vars " order.amount " ≡ some (str "12")
unfolding resolve_path
resolves = refl
