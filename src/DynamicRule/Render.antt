-- ===== src/DynamicRule/Render.antt =====
-- rules/dynamic_rule.go: the text of a rule, and its layout on several lines.
use go_etcd_rules.Base.{
  ℕ, zero, suc, ◌+◌, ◌*◌, [], ◌∷◌, ◌++◌, Option, none, some, map_some, Text, codes, ◌==◌, true,
  false, Bool, not, ◌&&◌, ltb, if◌then◌else◌,
}
use go_etcd_rules.DynamicRule.{
  DynamicRule, DynamicRules, leaf, and_dynamic, or_dynamic, not_dynamic, empty, more,
}

abbrev pub space : ℕ
space = 32

abbrev pub newline : ℕ
newline = 10

abbrev pub open_paren : ℕ
open_paren = 40

abbrev pub close_paren : ℕ
close_paren = 41

-- The methods `String`, with `delimitedString`: the loop writes a delimiter before each nested rule but
-- the first.
unfoldable mutual
  pub to_string : DynamicRule → Text
  to_string (leaf krp) = krp.rep
  to_string (and_dynamic rules patterns prefixes) = delimited_string (codes "AND") rules
  to_string (or_dynamic rules patterns prefixes) = delimited_string (codes "OR") rules
  to_string (not_dynamic rule) = codes "NOT (" ++ to_string rule ++ close_paren ∷ []

  pub delimited_string : Text → DynamicRules → Text
  delimited_string del empty = open_paren ∷ close_paren ∷ []
  delimited_string del (more rule rules) =
      open_paren ∷ (to_string rule ++ (later_strings del rules ++ close_paren ∷ []))

  pub later_strings : Text → DynamicRules → Text
  later_strings del empty = []
  later_strings del (more rule rules) =
      space ∷ (del ++ space ∷ (to_string rule ++ later_strings del rules))

-- UTF-8, as the language decodes it: how many bytes follow the first byte of a rune, and the least and
-- the greatest that the second may be.
unfoldable pub bytes_after : ℕ → Option ℕ
bytes_after c =
    if ltb c 128
    then some 0
    else (if ltb c 194
        then none
        else (if ltb c 224
            then some 1
            else (if ltb c 240 then some 2 else (if ltb c 245 then some 3 else none))))

abbrev pub least_second : ℕ → ℕ
least_second c = if c == 224 then 160 else (if c == 240 then 144 else 128)

abbrev pub greatest_second : ℕ → ℕ
greatest_second c = if c == 237 then 159 else (if c == 244 then 143 else 191)

-- The bytes that follow are there and in their range.
unfoldable pub continues : ℕ → ℕ → ℕ → Text → Bool
continues zero least greatest cs = true
continues (suc n) least greatest [] = false
continues (suc n) least greatest (c ∷ cs) =
    not (ltb c least) && not (ltb greatest c) && continues n 128 191 cs

abbrev pub complete_tail : ℕ → Option ℕ → Text → Option ℕ
complete_tail c none cs = none
complete_tail c (some n) cs =
    if continues n (least_second c) (greatest_second c) cs then some n else none

-- The bytes that follow a first byte in its rune; none where the text is not UTF-8 there.
unfoldable pub rune_tail : ℕ → Text → Option ℕ
unfolding bytes_after continues
rune_tail c cs = complete_tail c (bytes_after c) cs

-- What `string(char)` gives for the runes of a text, as a range over it yields them, where the first
-- `pending` bytes belong to a rune that is underway: the same bytes, with U+FFFD for each byte that is
-- not UTF-8.
unfoldable pub of_runes : ℕ → Text → Text
unfolding rune_tail
of_runes pending [] = []
of_runes (suc pending) (c ∷ cs) = c ∷ of_runes pending cs
of_runes zero (c ∷ cs) =
    let bad = of_runes zero cs in
    elim (rune_tail c cs) [ none ↦ 239 ∷ 191 ∷ 189 ∷ bad | some n ↦ c ∷ of_runes n cs ]

-- `strings.Repeat` of a space.
abbrev pub spaces : ℕ → Text
spaces zero = []
spaces (suc n) = space ∷ spaces n

-- The indentation that `indent` stands for, on a new line.
abbrev pub line : ℕ → Text
line indent = newline ∷ spaces (indent * 4)

abbrev pub outdented : (ℕ → Option Text) → ℕ → Option Text
outdented f zero = none
outdented f (suc indent) = map_some (λ rest. line indent ++ close_paren ∷ rest) (f indent)

-- The body of the loop of `FormatRuleString`, at an indentation, over the bytes that `string(char)` gives
-- for each rune; the parentheses are runes of one byte, which stand in no other rune. `none` is the panic
-- of `strings.Repeat` with a negative count.
unfoldable pub format_from : Text → ℕ → Option Text
format_from [] indent = some []
format_from (c ∷ cs) indent = elim (c == close_paren) [
  | true ↦ outdented (format_from cs) indent
  | false ↦ elim (c == open_paren) [
    | true ↦
        map_some (λ rest. open_paren ∷ (line (indent + 1) ++ rest)) (format_from cs (indent + 1))
    | false ↦ map_some (λ rest. c ∷ rest) (format_from cs indent)
  ]
]

unfoldable pub format_rule_string : Text → Option Text
unfolding format_from of_runes
format_rule_string text = format_from (of_runes 0 text) 0
