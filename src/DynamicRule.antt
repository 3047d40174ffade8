-- ===== src/DynamicRule.antt =====
-- rules/dynamic_rule.go: rules on key patterns, how a key turns them into rules on fixed keys, and
-- the constructors of rules.
pub mod Scope
mod Fixing
mod Expansion
pub mod Render
mod Unformat
mod Rendering
mod Utf8
mod RenderTests
pub mod Expand
mod Tests
pub mod Essential
use go_etcd_rules.Base.{
  ℕ, Bool, true, false, not, ◌&&◌, ◌||◌, List, [], ◌∷◌, ◌++◌, map, Option, none, some, Text, codes,
  Result, ok, err, comparator_nil, not_triggered, Error, if◌then◌else◌, Map, lookup, insert, keys,
  has_prefix, store, text_eq, map_some, drop,
}
use go_etcd_rules.Matcher.{
  KeyMatcher, new_regex_key_matcher, match, get_prefix, format_path, format_with_attributes,
  Attributes, nesting, find_attribute, Output,
}
use go_etcd_rules.StaticRule.{
  StaticRule, StaticRules, compare_literal, equals, and_rule, or_rule, not_rule, nil, cons,
  satisfiable, satisfied, ReadApi, new_equals_comparator,
}

-- compareLiteralRuleFactory, with its comparator, and equalsRuleFactory.
pub data RuleFactory : Type 0 where
  compare_literal_factory : (Option Text → Bool) → RuleFactory
  equals_factory : RuleFactory

-- `newRule`. `keys[0]` of no keys would panic; the constructor gives a literal rule one pattern.
unfoldable pub new_rule : RuleFactory → List Text → Attributes → StaticRule
new_rule (compare_literal_factory comparator) [] attr = compare_literal attr [] comparator
new_rule (compare_literal_factory comparator) (key ∷ keys) attr =
    compare_literal attr key comparator
new_rule equals_factory keys attr = equals attr keys

-- The struct dynamicRule.
pub record LeafRule : Type 0 where
  pub factory : RuleFactory
  pub matchers : List KeyMatcher
  pub patterns : List Text
  pub prefixes : List Text
  pub attributes : List (Text × Text)
  pub rep : Text

-- A compound rule keeps the patterns and prefixes of its nested rules; a negation has one nested
-- rule and asks that one for them.
mutual
  pub data DynamicRule : Type 0 where
    leaf : LeafRule → DynamicRule
    and_dynamic or_dynamic : DynamicRules → List Text → List Text → DynamicRule
    not_dynamic : DynamicRule → DynamicRule

  pub data DynamicRules : Type 0 where
    empty : DynamicRules
    more : DynamicRule → DynamicRules → DynamicRules

-- A set of strings keeps the first occurrence of each.
unfoldable pub unique_from : List Text → Map Bool → Map Bool
unique_from [] unique = unique
unique_from (value ∷ rest) unique = unique_from rest (insert value true unique)

unfoldable pub remove_duplicates : List Text → List Text
unfolding unique_from
remove_duplicates values = keys (unique_from values [])

abbrev pub cons_matcher : Result KeyMatcher → Result (List KeyMatcher) → Result (List KeyMatcher)
cons_matcher (err e) rest = err e
cons_matcher (ok m) (err e) = err e
cons_matcher (ok m) (ok ms) = ok (m ∷ ms)

-- The loop of `newDynamicRule`: the first pattern that does not compile ends it.
unfoldable pub new_matchers : List Text → Result (List KeyMatcher)
new_matchers [] = ok []
new_matchers (pattern ∷ rest) = cons_matcher (new_regex_key_matcher pattern) (new_matchers rest)

unfoldable pub new_dynamic_rule :
    RuleFactory → List Text → Text → List (Text × Text) → Result DynamicRule
new_dynamic_rule factory patterns rep attributes = elim (new_matchers patterns) [
  | err e ↦ err e
  | ok matchers ↦ ok (
      leaf (record {
        factory = factory;
        matchers = matchers;
        patterns = patterns;
        prefixes = map get_prefix matchers;
        attributes = attributes;
        rep = rep;
      }))
]

unfoldable mutual
  pub get_patterns : DynamicRule → List Text
  get_patterns (leaf krp) = krp.patterns
  get_patterns (and_dynamic rules patterns prefixes) = patterns
  get_patterns (or_dynamic rules patterns prefixes) = patterns
  get_patterns (not_dynamic rule) = get_patterns rule

  pub all_patterns : DynamicRules → List Text
  all_patterns empty = []
  all_patterns (more rule rules) = get_patterns rule ++ all_patterns rules

unfoldable mutual
  pub get_prefixes : DynamicRule → List Text
  get_prefixes (leaf krp) = krp.prefixes
  get_prefixes (and_dynamic rules patterns prefixes) = prefixes
  get_prefixes (or_dynamic rules patterns prefixes) = prefixes
  get_prefixes (not_dynamic rule) = get_prefixes rule

  pub all_prefixes : DynamicRules → List Text
  all_prefixes empty = []
  all_prefixes (more rule rules) = get_prefixes rule ++ all_prefixes rules

unfoldable pub new_and_rule : DynamicRules → DynamicRule
new_and_rule rules =
    and_dynamic rules (remove_duplicates (all_patterns rules))
      (remove_duplicates (all_prefixes rules))

unfoldable pub new_or_rule : DynamicRules → DynamicRule
new_or_rule rules =
    or_dynamic rules (remove_duplicates (all_patterns rules))
      (remove_duplicates (all_prefixes rules))

unfoldable pub new_not_rule : DynamicRule → DynamicRule
new_not_rule rule = not_dynamic rule

-- A static rule and the attributes that made it.
abbrev pub Made : Type 0
Made = StaticRule × Attributes

-- The first matcher that matches, as in the loop with `break`.
unfoldable pub first_match : List KeyMatcher → Text → Option Attributes
first_match [] key = none
first_match (matcher ∷ rest) key = elim (match matcher key) [
  | some m ↦ some m
  | none ↦ first_match rest key
]

unfoldable pub format_keys : List KeyMatcher → Attributes → List Text
format_keys [] m = []
format_keys (matcher ∷ rest) m = format_with_attributes matcher.pattern m ∷ format_keys rest m

abbrev pub cons_key : Output → Option (List Text) → Option (List Text)
cons_key (key, false) rest = none
cons_key (key, true) rest = map_some (λ ks. key ∷ ks) rest

-- As in `staticRuleFromAttributes`, a name without an attribute ends the loop.
unfoldable pub keys_from_attributes : List KeyMatcher → Attributes → Option (List Text)
keys_from_attributes [] attr = some []
keys_from_attributes (matcher ∷ rest) attr =
    cons_key (format_path matcher.pattern attr) (keys_from_attributes rest attr)

abbrev pub made_by : LeafRule → Attributes → Made
made_by krp m =
    let attr = nesting krp.attributes m in
    (new_rule krp.factory (format_keys krp.matchers m) attr, attr)

unfoldable pub make_leaf : LeafRule → Text → Option Made
unfolding first_match
make_leaf krp key = map_some (made_by krp) (first_match krp.matchers key)

abbrev pub cons_rule : Option StaticRule → Option StaticRules → Option StaticRules
cons_rule none rest = none
cons_rule (some rule) none = none
cons_rule (some rule) (some rules) = some (cons rule rules)

unfoldable mutual
  unfolding keys_from_attributes

  pub static_rule_from_attributes : DynamicRule → Attributes → Option StaticRule
  static_rule_from_attributes (leaf krp) attr =
      map_some (λ ks. new_rule krp.factory ks attr) (keys_from_attributes krp.matchers attr)
  static_rule_from_attributes (and_dynamic rules patterns prefixes) attr =
      map_some and_rule (static_rules_from_attributes rules attr)
  static_rule_from_attributes (or_dynamic rules patterns prefixes) attr =
      map_some or_rule (static_rules_from_attributes rules attr)
  static_rule_from_attributes (not_dynamic rule) attr =
      map_some not_rule (static_rule_from_attributes rule attr)

  pub static_rules_from_attributes : DynamicRules → Attributes → Option StaticRules
  static_rules_from_attributes empty attr = some nil
  static_rules_from_attributes (more rule rules) attr =
      cons_rule (static_rule_from_attributes rule attr) (static_rules_from_attributes rules attr)

-- One round of the loop of `compoundDynamicRule.makeStaticRule`.
abbrev pub valid_attr : Option Made → Text → Option Text → Option Attributes → Option Attributes
valid_attr none key value later = later
valid_attr (some (rule, attr)) key value later =
    if satisfiable rule key value then some attr else later

abbrev pub compound_rule : Option Attributes → (Attributes → Option StaticRule) → Option Made
compound_rule none from_attributes = none
compound_rule (some attr) from_attributes = map_some (λ rule. (rule, attr)) (from_attributes attr)

abbrev pub negate_made : Made → Made
negate_made (nested, attr) = (not_rule nested, attr)

unfoldable mutual
  pub make_static_rule : DynamicRule → Text → Option Text → Option Made
  make_static_rule (leaf krp) key value = make_leaf krp key
  make_static_rule (and_dynamic rules patterns prefixes) key value =
      compound_rule (valid_attributes rules key value)
        (λ attr. map_some and_rule (static_rules_from_attributes rules attr))
  make_static_rule (or_dynamic rules patterns prefixes) key value =
      compound_rule (valid_attributes rules key value)
        (λ attr. map_some or_rule (static_rules_from_attributes rules attr))
  make_static_rule (not_dynamic rule) key value =
      map_some negate_made (make_static_rule rule key value)

  pub valid_attributes : DynamicRules → Text → Option Text → Option Attributes
  valid_attributes empty key value = none
  valid_attributes (more rule rules) key value =
      valid_attr (make_static_rule rule key value) key value (valid_attributes rules key value)

-- `RuleSatisfied`, and `get` of `mapReadAPI`, for which one value stands for an error.
abbrev pub error_value : Text
error_value = codes "<ERROR>"

unfoldable pub map_get : Map Text → ReadApi
map_get values key = elim (lookup key values) [
  | none ↦ ok none
  | some value ↦ if text_eq value error_value then err (store 0) else ok (some value)
]

unfoldable pub rule_satisfied : DynamicRule → Text → Option Text → Map Text → Result Bool
unfolding map_get
rule_satisfied rule trigger_key trigger_value kvs =
    elim (make_static_rule rule trigger_key trigger_value) [
      | none ↦ err not_triggered
      | some (rule, attr) ↦ satisfied rule (map_get kvs)
    ]

-- `fmt.Sprintf` of a template with one verb "%s".
unfoldable pub sprintf : Text → Text → Text
sprintf [] arg = []
sprintf (c ∷ template) arg =
    if has_prefix (codes "%s") (c ∷ template)
    then arg ++ drop 1 template
    else c ∷ sprintf template arg

unfoldable pub new_compare_literal_rule :
    Text → Option (Option Text → Bool) → Text → Result DynamicRule
new_compare_literal_rule pattern none render_template = err comparator_nil
new_compare_literal_rule pattern (some comparator) render_template =
    new_dynamic_rule (compare_literal_factory comparator) (pattern ∷ [])
      (sprintf render_template pattern) []

abbrev pub quoted : Option Text → Text
quoted none = codes "<nil>"
quoted (some value) = b'"' ∷ (value ++ b'"' ∷ [])

unfoldable pub new_equals_literal_rule : Text → Option Text → Result DynamicRule
new_equals_literal_rule pattern value =
    new_compare_literal_rule pattern (some (new_equals_comparator value))
      (codes "%s = " ++ quoted value)

unfoldable pub join : Text → List Text → Text
join sep [] = []
join sep (w ∷ []) = w
join sep (w ∷ v ∷ ws) = w ++ (sep ++ join sep (v ∷ ws))

unfoldable pub new_equals_rule : List Text → Result DynamicRule
new_equals_rule patterns = new_dynamic_rule equals_factory patterns (join (codes " = ") patterns) []
