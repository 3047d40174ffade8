-- ===== src/DynamicRule/Tests.antt =====
-- rules/dynamic_rule.go: the theorems at the rule that "/jobs/:id/a" is set and "/jobs/:id/b" is not.
use go_etcd_rules.DynamicRule.Expand.{ValueMap, expand}
use go_etcd_rules.DynamicRule.Expansion.{HasFixedValues, IsExpanded, expand-IsExpanded}
use go_etcd_rules.Base.{
  ℕ, List, ◌<◌, All, length, keys, arith, Bool, true, false, ◌≡◌, ◌↔◌, refl, [], ◌∷◌, Option, none,
  some, Text, codes, text_eq, In, Map, lookup, insert, cut, split,
}
use go_etcd_rules.Regex.{find_string_submatch}
use go_etcd_rules.Matcher.{
  Attributes, key_match, map_attributes, nesting, find_attribute, format_path,
  format_with_attributes, match,
}
use go_etcd_rules.Matcher.Segments.{segments}
use go_etcd_rules.Matcher.Fields.{matcher_of, index_fields, items}
use go_etcd_rules.StaticRule.{
  StaticRule, compare_literal, and_rule, not_rule, nil, cons, satisfiable,
}
use go_etcd_rules.DynamicRule.{
  compare_literal_factory, new_rule, DynamicRule, LeafRule, leaf, new_and_rule, new_not_rule, empty,
  more, make_static_rule, static_rule_from_attributes, make_leaf, format_keys,
}
use go_etcd_rules.DynamicRule.Scope.{HasForm}
use go_etcd_rules.DynamicRule.Essential.{
  value_at, get_leaf_representations, evaluate, get_essential_representations,
}
use go_etcd_rules.DynamicRule.Essential.Exact.{get_essential_representations_iff}

abbrev is_set : Option Text → Bool
is_set none = false
is_set (some value) = true

abbrev leaf_of : Text → DynamicRule
leaf_of pattern = leaf (record {
  factory = compare_literal_factory is_set;
  matchers = matcher_of pattern ∷ [];
  patterns = pattern ∷ [];
  prefixes = codes "/jobs/" ∷ [];
  attributes = [];
  rep = pattern;
})

abbrev a_pattern : Text
a_pattern = codes "/j/:id/a"

abbrev b_pattern : Text
b_pattern = codes "/j/:id/b"

abbrev a_without_b : DynamicRule
a_without_b =
    new_and_rule (more (leaf_of a_pattern) (more (new_not_rule (leaf_of b_pattern)) empty))

get_essential_representations_iff_example :
    In a_pattern (get_essential_representations a_without_b) ↔ (
      In a_pattern (get_leaf_representations a_without_b)
      × ((values : Map Bool)
          → evaluate a_without_b values ≡ true
          → value_at values a_pattern ≡ true))
get_essential_representations_iff_example = get_essential_representations_iff a_without_b a_pattern

abbrev job : Attributes
job = map_attributes ((codes "id", codes "7") ∷ [])

abbrev from_job : StaticRule
from_job = and_rule (
    cons (compare_literal job (codes "/j/7/a") is_set)
      (cons (not_rule (compare_literal job (codes "/j/7/b") is_set)) nil))

from_job_made : static_rule_from_attributes a_without_b job ≡ some from_job
unfolding static_rule_from_attributes new_and_rule new_not_rule new_rule find_attribute lookup
    text_eq cut format_path
from_job_made = refl

a_without_b-HasForm : HasForm a_without_b
unfolding new_and_rule new_not_rule
a_without_b-HasForm = (tt, (tt, tt))

-- The attributes that the key "/j/7/a" binds.
abbrev bound : Attributes
bound = nesting [] (key_match (codes "/j/7/a" ∷ codes "7" ∷ []) ((codes "id", 1) ∷ []))

abbrev from_key : StaticRule
from_key = and_rule (
    cons (compare_literal bound (codes "/j/7/a") is_set)
      (cons (not_rule (compare_literal bound (codes "/j/7/b") is_set)) nil))

from_key_made :
    make_static_rule a_without_b (codes "/j/7/a") (some (codes "1")) ≡ some (from_key, bound)
unfolding make_static_rule static_rule_from_attributes new_and_rule new_not_rule new_rule
    find_attribute lookup text_eq cut match find_string_submatch segments split index_fields items
    insert make_leaf satisfiable format_keys format_with_attributes
from_key_made = refl

abbrev ids : ValueMap
ids = (codes "id", codes "7" ∷ codes "8" ∷ []) ∷ []

first_byte : {c d : ℕ} {w u : Text} → c ∷ w ≡ d ∷ u → c ≡ d
first_byte e = cc

ids-HasFixedValues : HasFixedValues ids
ids-HasFixedValues = (
  (
    ((refl, tt), λ name e. absurd (omega (arith, first_byte e))),
    (((refl, tt), λ name e. absurd (omega (arith, first_byte e))), tt),
  ),
  tt,
)

abbrev leaf_rule : LeafRule
leaf_rule = record {
  factory = compare_literal_factory is_set;
  matchers = matcher_of a_pattern ∷ [];
  patterns = a_pattern ∷ [];
  prefixes = codes "/j/" ∷ [];
  attributes = [];
  rep = a_pattern;
}

enough : length (keys ids) < 2
enough = omega arith

expand-IsExpanded_example :
    (rules : List DynamicRule) × (expanded : Bool) × (expand 2 (leaf leaf_rule) ids
      ≡ some (rules, expanded))
    × All (IsExpanded ids) rules
expand-IsExpanded_example = expand-IsExpanded ids leaf_rule 2 ids-HasFixedValues enough
