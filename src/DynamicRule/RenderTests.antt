-- ===== src/DynamicRule/RenderTests.antt =====
-- rules/dynamic_rule.go: the layout of the rule of the repository's test of it.
use go_etcd_rules.Base.{◌≡◌, refl, [], ◌∷◌, ◌++◌, some, Option, Bool, false, Text, codes, none}
use go_etcd_rules.DynamicRule.{
  compare_literal_factory, DynamicRule, leaf, new_and_rule, new_or_rule, more, empty,
}
use go_etcd_rules.DynamicRule.Render.{
  newline, to_string, delimited_string, later_strings, format_from, format_rule_string, of_runes,
  rune_tail, bytes_after, continues,
}
use go_etcd_rules.DynamicRule.Utf8.{is_utf8}
use go_etcd_rules.DynamicRule.Unformat.{unformat}
use go_etcd_rules.DynamicRule.Rendering.{by_check, format_rule_string-to_string}

abbrev never : Option Text → Bool
never value = false

abbrev a_leaf : Text → DynamicRule
a_leaf rep = leaf (record {
  factory = compare_literal_factory never;
  matchers = [];
  patterns = [];
  prefixes = [];
  attributes = [];
  rep = rep;
})

abbrev a_rule : DynamicRule
a_rule = new_and_rule (
    more (a_leaf (codes "/a = 1"))
      (more (new_or_rule (more (a_leaf (codes "/b")) (more (a_leaf (codes "/c")) empty))) empty))

text_of_rule : to_string a_rule ≡ codes "(/a = 1 AND (/b OR /c))"
unfolding to_string delimited_string later_strings new_and_rule new_or_rule
text_of_rule = refl

layout_of_test :
    format_rule_string (codes "((/a AND /b) OR (/c))")
    ≡ some (
        codes "("
        ++ newline ∷ codes "    ("
        ++ newline ∷ codes "        /a AND /b"
        ++ newline ∷ codes "    ) OR ("
        ++ newline ∷ codes "        /c"
        ++ newline ∷ codes "    )"
        ++ newline ∷ codes ")")
unfolding format_rule_string format_from of_runes rune_tail bytes_after continues
layout_of_test = refl

-- A parenthesis that closes nothing makes the layout panic.
layout_panics : format_rule_string (codes "/a = \")\"") ≡ none
unfolding format_rule_string format_from of_runes rune_tail bytes_after continues
layout_panics = refl

-- A byte that is not UTF-8 becomes U+FFFD, and a rune of two bytes stays.
layout_of_bytes :
    format_rule_string (255 ∷ 195 ∷ 169 ∷ []) ≡ some (239 ∷ 191 ∷ 189 ∷ 195 ∷ 169 ∷ [])
unfolding format_rule_string format_from of_runes rune_tail bytes_after continues
layout_of_bytes = refl

format_rule_string-to_string_example :
    (out : Text) × (format_rule_string (to_string a_rule) ≡ some out)
    × (unformat out 0 0 ≡ to_string a_rule)
unfolding new_and_rule new_or_rule is_utf8 rune_tail bytes_after continues
format_rule_string-to_string_example = format_rule_string-to_string a_rule (
  by_check (codes "/a = 1") refl refl refl,
  ((by_check (codes "/b") refl refl refl, (by_check (codes "/c") refl refl refl, tt)), tt),
)
