-- ===== src/Text.antt =====
-- What the source uses of Go's `strings` and `strconv`. A text is its list of characters.
use Prim.Native.Char.{code}
use lowcode_bpmn.Prelude.{
  ℕ, ◌+◌, String, Bool, true, false, ◌&&◌, ◌||◌, Option, none, some, List, [], ◌∷◌, ◌==◌, map, leb,
  if◌then◌else◌, ◌≡◌, refl, any, nat_eq, string_eq,
}

abbrev pub is_empty : String → Bool
is_empty s = s == ""

-- unicode.IsSpace
unfoldable pub is_space : ℕ → Bool
is_space c =
    (leb 9 c && leb c 13)
    || c == 32
    || c == 0x85
    || c == 0xa0
    || c == 0x1680
    || (leb 0x2000 c && leb c 0x200a)
    || c == 0x2028
    || c == 0x2029
    || c == 0x202f
    || c == 0x205f
    || c == 0x3000

module _ (p : ℕ → Bool) where
  unfoldable pub trim_left : String → String
  trim_left String.[] = String.[]
  trim_left (String.◌∷◌ c s) = let rest = trim_left s in if p (code c) then rest else String.◌∷◌ c s

  unfoldable pub trim_right : String → String
  trim_right String.[] = String.[]
  trim_right (String.◌∷◌ c s) =
      let rest = trim_right s in
      if p (code c) && is_empty rest then String.[] else String.◌∷◌ c rest

-- strings.TrimSpace
unfoldable pub trim_space : String → String
unfolding trim_left trim_right is_space
trim_space s = trim_right is_space (trim_left is_space s)

-- strings.Trim(s, "\"'")
unfoldable pub trim_quotes : String → String
unfolding trim_left trim_right
trim_quotes s = let quote = λ (c : ℕ). c == 34 || c == 39 in trim_right quote (trim_left quote s)

unfoldable pub strip_prefix : String → String → Option String
strip_prefix String.[] s = some s
strip_prefix (String.◌∷◌ c p) String.[] = none
strip_prefix (String.◌∷◌ c p) (String.◌∷◌ d s) =
    let rest = strip_prefix p s in if code c == code d then rest else none

abbrev push_left : Prim.Native.Char.Char → Option (String × String) → Option (String × String)
push_left c none = none
push_left c (some (l, r)) = some (String.◌∷◌ c l, r)

-- strings.Contains and strings.SplitN(s, sep, 2): the texts before and after the first `sep`.
unfoldable pub split_first : String → String → Option (String × String)
unfolding strip_prefix
split_first sep String.[] = elim (strip_prefix sep String.[]) [
  | none ↦ none
  | some r ↦ some (String.[], r)
]
split_first sep (String.◌∷◌ c s) =
    let later = split_first sep s in
    elim (strip_prefix sep (String.◌∷◌ c s)) [
      | none ↦ push_left c later
      | some r ↦ some (String.[], r)
    ]

abbrev push_segment : Prim.Native.Char.Char → List String → List String
push_segment c [] = String.◌∷◌ c String.[] ∷ []
push_segment c (t ∷ ts) = String.◌∷◌ c t ∷ ts

-- strings.Split(s, sep) for a separator of one character
unfoldable pub split : ℕ → String → List String
split sep String.[] = String.[] ∷ []
split sep (String.◌∷◌ c s) =
    let rest = split sep s in if code c == sep then String.[] ∷ rest else push_segment c rest

abbrev pub codes : String → List ℕ
codes String.[] = []
codes (String.◌∷◌ c s) = code c ∷ codes s

-- unicode.ToLower, as far as its result can be an ASCII letter: the text is only compared with words
-- in ASCII and in characters that have no case.
unfoldable pub to_lower : ℕ → ℕ
to_lower c =
    if leb b'A' c && leb c b'Z'
    then c + 32
    else if c == 0x130
    then b'i'
    else if c == 0x212a
    then b'k'
    else c

abbrev pub codes_beq : List ℕ → List ℕ → Bool
codes_beq [] [] = true
codes_beq (x ∷ xs) (y ∷ ys) = x == y && codes_beq xs ys
codes_beq _ _ = false

-- `strings.ToLower(strings.TrimSpace(raw))` is one of `words`.
unfoldable pub is_one_of : String → List String → Bool
unfolding trim_space to_lower
is_one_of raw words = any (λ w. codes_beq (map to_lower (codes (trim_space raw))) (codes w)) words

-- strconv.ParseBool
unfoldable pub parse_bool : String → Option Bool
parse_bool s =
    if any (λ w. w == s) ("1" ∷ "t" ∷ "T" ∷ "true" ∷ "TRUE" ∷ "True" ∷ [])
    then some true
    else if any (λ w. w == s) ("0" ∷ "f" ∷ "F" ∷ "false" ∷ "FALSE" ∷ "False" ∷ [])
    then some false
    else none

split_dots : split 46 "item.kk" ≡ "item" ∷ "kk" ∷ []
unfolding split
split_dots = refl

split_at_op : split_first ">=" "a >= 3" ≡ some ("a ", " 3")
unfolding split_first
split_at_op = refl

trims : trim_space " x y  " ≡ "x y"
unfolding trim_space
trims = refl

lowers : is_one_of " ANY " ("any" ∷ []) ≡ true
unfolding is_one_of
lowers = refl
