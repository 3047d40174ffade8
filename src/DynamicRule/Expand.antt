-- ===== src/DynamicRule/Expand.antt =====
-- rules/dynamic_rule.go: `Expand`, which fixes the attributes that a map gives values for.
use go_etcd_rules.Base.{
  ℕ, zero, suc, Bool, true, false, ◌||◌, List, [], ◌∷◌, ◌++◌, map, Option, none, some, Text, codes,
  Result, ok, err, if◌then◌else◌, Map, lookup, keys, has_prefix, drop, length,
}
use go_etcd_rules.Matcher.{slash, map_attributes, format_with_attributes, parse_path}
use go_etcd_rules.DynamicRule.{
  LeafRule, DynamicRule, DynamicRules, leaf, and_dynamic, or_dynamic, not_dynamic, empty, more,
  unique_from, new_dynamic_rule, new_and_rule, new_or_rule, new_not_rule,
}

-- `strings.Replace` with no limit, of a text that is not empty; a round for each byte.
unfoldable pub replace_from : ℕ → Text → Text → Text → Text
replace_from zero old new s = s
replace_from (suc f) old new [] = []
replace_from (suc f) old new (c ∷ s) =
    let after_match = new ++ replace_from f old new (drop (length old) (c ∷ s)) in
    let after_byte = c ∷ replace_from f old new s in
    if has_prefix old (c ∷ s) then after_match else after_byte

unfoldable pub replace_all : Text → Text → Text → Text
unfolding replace_from
replace_all old new s = replace_from (length s) old new s

abbrev pub ValueMap : Type 0
ValueMap = Map (List Text)

-- The rules and whether any was expanded. `none` is a panic, or fuel that has run out.
abbrev pub Expanded : Type 0
Expanded = Option (List DynamicRule × Bool)

-- The parameters of some patterns, as the keys of a map.
unfoldable pub params_from : List Text → Map Bool → Map Bool
params_from [] params = params
params_from (pattern ∷ rest) params =
    params_from rest (unique_from (keys (parse_path pattern).fields) params)

-- The first parameter that has values, as in the loop with `break`.
unfoldable pub first_param : List Text → ValueMap → Option (Text × List Text)
first_param [] value_map = none
first_param (param ∷ params) value_map = elim (lookup param value_map) [
  | some values ↦ some (param, values)
  | none ↦ first_param params value_map
]

abbrev pub add_expanded : Expanded → Option (List DynamicRule) → Option (List DynamicRule)
add_expanded none later = none
add_expanded (some (rules, expanded)) none = none
add_expanded (some (rules, expanded)) (some later) = some (rules ++ later)

-- The rule with one parameter fixed.
unfoldable pub fix_param : LeafRule → Text → Text → Result DynamicRule
unfolding replace_all
fix_param krp param value =
    new_dynamic_rule krp.factory
      (map (λ p. format_with_attributes p (map_attributes ((param, value) ∷ []))) krp.patterns)
      (replace_all (codes "/:" ++ (param ++ slash ∷ [])) (slash ∷ (value ++ slash ∷ [])) krp.rep)
      (krp.attributes ++ (param, value) ∷ [])

module _ (again : DynamicRule → ValueMap → Expanded) where
  -- The loop over the values of a parameter; a pattern that does not compile is dropped.
  unfoldable pub expand_values : LeafRule → Text → List Text → ValueMap → Option (List DynamicRule)
  unfolding fix_param
  expand_values krp param [] value_map = some []
  expand_values krp param (value ∷ values) value_map =
      let later = expand_values krp param values value_map in
      elim (fix_param krp param value) [
        | err e ↦ later
        | ok rule ↦ add_expanded (again rule value_map) later
      ]

  abbrev pub expanded_all : Option (List DynamicRule) → Expanded
  expanded_all none = none
  expanded_all (some rules) = some (rules, true)

  unfoldable pub expand_leaf : LeafRule → ValueMap → Expanded
  unfolding expand_values params_from first_param
  expand_leaf krp value_map = elim (first_param (keys (params_from krp.patterns [])) value_map) [
    | none ↦ some (leaf krp ∷ [], false)
    | some (param, values) ↦ expanded_all (expand_values krp param values value_map)
  ]

  -- The nested rules with one value of one key: the first rule that each gives, and whether any was
  -- expanded.
  unfoldable pub expand_nested : DynamicRules → ValueMap → Option (DynamicRules × Bool)
  expand_nested empty attr = some (empty, false)
  expand_nested (more nested rules) attr =
      let later = expand_nested rules attr in
      elim (again nested attr) [
        | none ↦ none
        | some ([], got) ↦ none
        | some (first ∷ others, got) ↦ elim later [
          | none ↦ none
          | some (rest, rest_got) ↦ some (more first rest, got || rest_got)
        ]
      ]

  -- The loop over the values of one key.
  unfoldable pub expand_key :
      (DynamicRules → DynamicRule)
      → DynamicRules
      → Text
      → List Text
      → Option (List DynamicRule × Bool)
  unfolding expand_nested
  expand_key constructor rules key [] = some ([], false)
  expand_key constructor rules key (value ∷ values) =
      let later = expand_key constructor rules key values in
      elim (expand_nested rules ((key, value ∷ []) ∷ [])) [
        | none ↦ none
        | some (nested, got) ↦ elim later [
          | none ↦ none
          | some (new_rules, later_got) ↦ some (constructor nested ∷ new_rules, got || later_got)
        ]
      ]

  unfoldable pub expand_again : List DynamicRule → ValueMap → Option (List DynamicRule)
  expand_again [] value_map = some []
  expand_again (rule ∷ rules) value_map =
      add_expanded (again rule value_map) (expand_again rules value_map)

  -- The loop over the keys, which ends with the first that expands a nested rule.
  unfoldable pub expand_keys :
      (DynamicRules → DynamicRule) → DynamicRule → DynamicRules → ValueMap → ValueMap → Expanded
  unfolding expand_key expand_again
  expand_keys constructor dr rules value_map [] = some (dr ∷ [], false)
  expand_keys constructor dr rules value_map ((key, values) ∷ rest) =
      let later = expand_keys constructor dr rules value_map rest in
      elim (expand_key constructor rules key values) [
        | none ↦ none
        | some (new_rules, got) ↦
            if got then expanded_all (expand_again new_rules value_map) else later
      ]

-- The nested rule of a negation; `newNotRule` is given one rule.
abbrev pub not_of : DynamicRules → DynamicRule
not_of empty = not_dynamic (new_and_rule empty)
not_of (more rule rules) = new_not_rule rule

-- One level of fuel for each call of `Expand` below another.
unfoldable pub expand : ℕ → DynamicRule → ValueMap → Expanded
unfolding expand_leaf expand_keys new_and_rule new_or_rule new_not_rule
expand zero rule value_map = none
expand (suc f) (leaf krp) value_map = expand_leaf (expand f) krp value_map
expand (suc f) (and_dynamic rules patterns prefixes) value_map =
    expand_keys (expand f) new_and_rule (and_dynamic rules patterns prefixes) rules value_map
      value_map
expand (suc f) (or_dynamic rules patterns prefixes) value_map =
    expand_keys (expand f) new_or_rule (or_dynamic rules patterns prefixes) rules value_map
      value_map
expand (suc f) (not_dynamic rule) value_map =
    expand_keys (expand f) not_of (not_dynamic rule) (more rule empty) value_map value_map
