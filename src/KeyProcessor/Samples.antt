-- ===== src/KeyProcessor/Samples.antt =====
-- rules/key_processor.go: a processor with one rule.
use go_etcd_rules.Base.{
  ℕ, ◌≡◌, refl, Bool, true, false, [], ◌∷◌, Option, none, some, Text, codes, text_eq, cut, split,
  lookup, insert, nat_lookup, count, ok,
}
use go_etcd_rules.Regex.{find_string_submatch}
use go_etcd_rules.Matcher.{
  Attributes, key_match, nesting, find_attribute, match, format_with_attributes,
}
use go_etcd_rules.Matcher.Segments.{segments}
use go_etcd_rules.Matcher.Fields.{matcher_of, index_fields, items}
use go_etcd_rules.StaticRule.{StaticRule, ReadApi, compare_literal, satisfiable}
use go_etcd_rules.StaticRule.Evaluation.{Store, holds}
use go_etcd_rules.DynamicRule.{
  compare_literal_factory, new_rule, DynamicRule, leaf, make_static_rule, make_leaf, format_keys,
}
use go_etcd_rules.RuleManager.{new_rule_manager, get_static_rules}
use go_etcd_rules.KeyProcessor.{KeyProcessor, Work, work_of}

abbrev pub is_set : Option Text → Bool
is_set none = false
is_set (some value) = true

abbrev pub a_pattern : Text
a_pattern = codes "/j/:id/a"

abbrev pub a_rule : DynamicRule
a_rule = leaf (record {
  factory = compare_literal_factory is_set;
  matchers = matcher_of a_pattern ∷ [];
  patterns = a_pattern ∷ [];
  prefixes = codes "/j/" ∷ [];
  attributes = [];
  rep = a_pattern;
})

-- Callbacks are numbers here, and so are providers.
abbrev pub processor : KeyProcessor ℕ ℕ
processor = record {
  context_providers = (0, 5) ∷ [];
  lock_key_patterns = (0, codes "/lock/:id") ∷ [];
  rule_ids = (0, codes "first") ∷ [];
  rm = record (new_rule_manager [] false) {
    rules_by_slash_count = (3, (1, (a_rule, 0)) ∷ []) ∷ [];
    rules = a_rule ∷ [];
    prefixes = codes "/j/" ∷ [];
    current_index = 1;
  };
  callbacks = (0, 8) ∷ [];
}

abbrev pub a_key : Text
a_key = codes "/j/7/a"

abbrev pub all_set : Store
all_set key = some (codes "1")

abbrev pub all_set_api : ReadApi
all_set_api key = ok (some (codes "1"))

abbrev pub bound : Attributes
bound = nesting [] (key_match (a_key ∷ codes "7" ∷ []) ((codes "id", 1) ∷ []))

abbrev pub found : StaticRule
found = compare_literal bound a_key is_set

abbrev pub item : Work ℕ ℕ
item = work_of processor 0 found (codes "/lock/:id") [] (codes "first") bound

pub rules_found : get_static_rules a_key (some (codes "1")) processor.rm ≡ (found, 0) ∷ []
unfolding get_static_rules new_rule_manager make_static_rule new_rule find_attribute lookup text_eq
    cut match find_string_submatch segments split index_fields items insert make_leaf format_keys
    format_with_attributes nat_lookup count satisfiable
rules_found = refl

pub found_holds : holds found all_set ≡ true
unfolding holds
found_holds = refl
