-- ===== src/Regex.antt =====
-- What rules/matcher.go uses of Go's package `regexp`: expressions made of plain bytes and of the
-- group that `parsePath` writes, and the leftmost match that a backtracking search finds first.
use go_etcd_rules.Base.{
  ℕ, zero, suc, Bool, ◌||◌, not, List, [], ◌∷◌, Option, none, some, Text, codes, has_prefix, drop,
  length, ◌==◌, ◌++◌, if◌then◌else◌,
}

-- `group` is the capture of one or more bytes other than '/' and ':'.
pub data Item : Type 0 where
  byte : ℕ → Item
  group : Item

abbrev pub Regex : Type 0
Regex = List Item

abbrev pub group_text : Text
group_text = codes "([^\\/:]+)"

-- The bytes that are operators in a regular expression.
unfoldable pub is_meta : ℕ → Bool
is_meta c =
    (c == b'.' || c == b'*' || c == b'+' || c == b'?')
    || (c == b'(' || c == b')' || c == b'[' || c == b']')
    || (c == b'{' || c == b'}' || c == b'|' || c == b'^')
    || (c == b'$' || c == 92)

abbrev pub cons_item : Item → Option Regex → Option Regex
cons_item i none = none
cons_item i (some r) = some (i ∷ r)

-- One round reads the group or one plain byte. `none` is an expression outside this subset.
unfoldable pub compile_from : ℕ → Text → Option Regex
compile_from f [] = some []
compile_from zero (c ∷ s) = none
compile_from (suc f) (c ∷ s) =
    let after_group = compile_from f (drop 8 s) in
    let after_byte = compile_from f s in
    if has_prefix group_text (c ∷ s)
    then cons_item group after_group
    else if is_meta c
    then none
    else cons_item (byte c) after_byte

unfoldable pub compile : Text → Option Regex
unfolding compile_from is_meta has_prefix
compile s = compile_from (length s) s

unfoldable pub in_class : ℕ → Bool
in_class c = not (c == b'/' || c == b':')

-- The text that was matched, and the captures in order.
abbrev pub Found : Type 0
Found = Text × List Text

abbrev pub eat_byte : ℕ → Option Found → Option Found
eat_byte c none = none
eat_byte c (some (m, caps)) = some (c ∷ m, caps)

-- The longest run of the class is tried first, and a shorter one where the rest does not match.
unfoldable pub greedy : (Text → Option Found) → Text → Option (Text × Text × List Text)
unfolding in_class
greedy k [] = none
greedy k (d ∷ s) =
    let longer = greedy k s in
    let here : Option (Text × Text × List Text) = elim (k s) [
      | none ↦ none
      | some (m, caps) ↦ some (d ∷ [], m, caps)
    ] in
    let tried : Option (Text × Text × List Text) = elim longer [
      | none ↦ here
      | some (run, m, caps) ↦ some (d ∷ run, m, caps)
    ] in
    if in_class d then tried else none

abbrev pub close_group : Option (Text × Text × List Text) → Option Found
close_group none = none
close_group (some (run, m, caps)) = some (run ++ m, run ∷ caps)

unfoldable pub match_items : Regex → Text → Option Found
unfolding greedy
match_items [] s = some ([], [])
match_items (byte c ∷ r) [] = none
match_items (byte c ∷ r) (d ∷ s) = if c == d then eat_byte c (match_items r s) else none
match_items (group ∷ r) s = close_group (greedy (match_items r) s)

-- `FindStringSubmatch`: the whole match, then the captures, at the first place that matches.
unfoldable pub find_string_submatch : Regex → Text → Option (List Text)
unfolding match_items
find_string_submatch r [] = elim (match_items r []) [
  | none ↦ none
  | some (m, caps) ↦ some (m ∷ caps)
]
find_string_submatch r (c ∷ s) =
    let later = find_string_submatch r s in
    elim (match_items r (c ∷ s)) [ none ↦ later | some (m, caps) ↦ some (m ∷ caps) ]
