-- ===== src/Definition/Expression.antt =====
-- internal/domain/definition/expression.go: conditions over the process variables.
use lowcode_bpmn.Prelude.{
  ℕ, ℤ, String, string_eq, Bool, true, false, ◌&&◌, not, Option, none, some, List, [], ◌∷◌, ◌==◌,
  if◌then◌else◌,
}
use lowcode_bpmn.Text.{is_empty, trim_space, trim_quotes, split_first, parse_bool}
use lowcode_bpmn.Vars.{Value, null, bool, str, int, int64, float, Vars, resolve_path}
use lowcode_bpmn.Errors.{Result, ok, err, numeric_comparison}

-- What the code takes from Go's `strconv` and `fmt` on numbers; a float is its 64 bits.
pub record Numerics : Type 0 where
  pub parse_float : String → Option ℕ
  pub atoi : String → Option ℤ
  pub float_of_int : ℤ → ℕ
  pub float_eq : ℕ → ℕ → Bool
  pub float_le : ℕ → ℕ → Bool
  pub float_lt : ℕ → ℕ → Bool
  pub int_eq : ℤ → ℤ → Bool
  pub sprint : Value → String

pub data Op : Type 0 where
  ge le ne eq gt lt : Op

abbrev op_text : Op → String
op_text ge = ">="
op_text le = "<="
op_text ne = "!="
op_text eq = "=="
op_text gt = ">"
op_text lt = "<"

module _ (n : Numerics) where
  unfoldable pub to_float : Value → Option ℕ
  to_float (float f) = some f
  to_float (int i) = some (n.float_of_int i)
  to_float (int64 i) = some (n.float_of_int i)
  to_float (str s) = n.parse_float s
  to_float _ = none

  abbrev holds : Op → ℕ → ℕ → Result Bool
  holds ge l r = ok (n.float_le r l)
  holds gt l r = ok (n.float_lt r l)
  holds le l r = ok (n.float_le l r)
  holds lt l r = ok (n.float_lt l r)
  holds op l r = err (numeric_comparison (op_text op))

  unfoldable pub compare_numeric_op : Value → String → Op → Result Bool
  unfolding to_float
  compare_numeric_op left right op = elim (to_float left) [
    | none ↦ err (numeric_comparison (op_text op))
    | some l ↦ elim (n.parse_float right) [
      | none ↦ err (numeric_comparison (op_text op))
      | some r ↦ holds op l r
    ]
  ]

  abbrev bool_eq : Bool → Bool → Bool
  bool_eq true b = b
  bool_eq false b = not b

  unfoldable pub compare_values : Value → String → Bool
  unfolding parse_bool
  compare_values (str s) right = s == right
  compare_values (bool b) right = elim (parse_bool right) [
    | none ↦ n.sprint (bool b) == right
    | some rb ↦ bool_eq b rb
  ]
  compare_values (float f) right = elim (n.parse_float right) [
    | none ↦ n.sprint (float f) == right
    | some r ↦ n.float_eq f r
  ]
  compare_values (int i) right = elim (n.atoi right) [
    | none ↦ n.sprint (int i) == right
    | some r ↦ n.int_eq i r
  ]
  compare_values v right = n.sprint v == right

  abbrev missing : Op → Bool
  missing ne = true
  missing _ = false

  unfoldable pub compare_op : Op → Option Value → String → Result Bool
  unfolding compare_values compare_numeric_op
  compare_op op none right = ok (missing op)
  compare_op eq (some v) right = ok (compare_values v right)
  compare_op ne (some v) right = ok (not (compare_values v right))
  compare_op op (some v) right = compare_numeric_op v right op

  -- A bare field name: the switch on the value.
  unfoldable pub truthy : Option Value → Bool
  truthy none = false
  truthy (some (bool b)) = b
  truthy (some (str s)) = not (is_empty s) && not (s == "false") && not (s == "0")
  truthy (some (float f)) = not (n.float_eq f 0)
  truthy (some (int i)) = not (n.int_eq i (ℤ.pos 0))
  truthy (some null) = false
  truthy (some _) = true

  -- The loop over the operators: the first one that the text contains splits it.
  unfoldable pub eval_ops : List Op → String → Vars → Result Bool
  unfolding split_first trim_space trim_quotes resolve_path compare_op truthy
  eval_ops [] expr vars = ok (truthy (resolve_path vars expr))
  eval_ops (op ∷ ops) expr vars =
      let rest = eval_ops ops expr vars in
      elim (split_first (op_text op) expr) [
        | none ↦ rest
        | some parts ↦
            compare_op op (resolve_path vars (trim_space parts.0))
              (trim_quotes (trim_space parts.1))
      ]

  unfoldable pub eval_condition : String → Vars → Result Bool
  unfolding eval_ops
  eval_condition expr vars =
      let trimmed = trim_space expr in
      if is_empty trimmed then ok true else eval_ops (ge ∷ le ∷ ne ∷ eq ∷ gt ∷ lt ∷ []) trimmed vars
