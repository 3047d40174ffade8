-- ===== src/RuleManager/Tests.antt =====
-- rules/rule_manager.go: the theorems at a manager with one rule, and at three prefixes.
use go_etcd_rules.Base.{
  ℕ, refl, inl, Bool, true, false, List, [], ◌∷◌, Option, none, some, Text, codes, text_eq, In, cut,
  split, lookup, insert, nat_lookup, count,
}
use go_etcd_rules.Regex.{find_string_submatch}
use go_etcd_rules.Matcher.{
  Attributes, key_match, nesting, find_attribute, match, format_with_attributes,
}
use go_etcd_rules.Matcher.Segments.{segments}
use go_etcd_rules.Matcher.Fields.{matcher_of, index_fields, items}
use go_etcd_rules.StaticRule.{StaticRule, compare_literal, q_satisfiable}
use go_etcd_rules.DynamicRule.{
  compare_literal_factory, new_rule, DynamicRule, leaf, make_static_rule, make_leaf, format_keys,
}
use go_etcd_rules.RuleManager.{reduce_prefixes, RuleManager, new_rule_manager, get_static_rules}
use go_etcd_rules.RuleManager.Prefixes.{
  IsCovered, IsReduced, reduce_prefixes-IsCovered, reduce_prefixes-IsReduced,
}

abbrev three_prefixes : List Text
three_prefixes = codes "/jobs/old" ∷ codes "/jobs" ∷ codes "/users" ∷ []

reduce_prefixes-IsReduced_example : IsReduced (reduce_prefixes three_prefixes)
reduce_prefixes-IsReduced_example = reduce_prefixes-IsReduced three_prefixes

reduce_prefixes-IsCovered_example :
    ((p : Text) → In p three_prefixes → IsCovered p (reduce_prefixes three_prefixes))
    × ((q : Text) → In q (reduce_prefixes three_prefixes) → In q three_prefixes)
reduce_prefixes-IsCovered_example = reduce_prefixes-IsCovered three_prefixes

abbrev is_set : Option Text → Bool
is_set none = false
is_set (some value) = true

abbrev a_pattern : Text
a_pattern = codes "/j/:id/a"

abbrev a_rule : DynamicRule
a_rule = leaf (record {
  factory = compare_literal_factory is_set;
  matchers = matcher_of a_pattern ∷ [];
  patterns = a_pattern ∷ [];
  prefixes = codes "/j/" ∷ [];
  attributes = [];
  rep = a_pattern;
})

-- The manager that `addRule` makes of an empty one.
abbrev one_rule : RuleManager
one_rule = record (new_rule_manager [] true) {
  rules_by_slash_count = (3, (1, (a_rule, 0)) ∷ []) ∷ [];
  rules = a_rule ∷ [];
  prefixes = codes "/j/" ∷ [];
  current_index = 1;
}

abbrev a_key : Text
a_key = codes "/j/7/a"

abbrev bound : Attributes
bound = nesting [] (key_match (a_key ∷ codes "7" ∷ []) ((codes "id", 1) ∷ []))

abbrev found : StaticRule × ℕ
found = (compare_literal bound a_key is_set, 0)

found-In : In found (get_static_rules a_key (some (codes "1")) one_rule)
unfolding get_static_rules new_rule_manager make_static_rule new_rule find_attribute lookup text_eq
    cut match find_string_submatch segments split index_fields items insert make_leaf q_satisfiable
    format_keys format_with_attributes nat_lookup count
found-In = inl refl
