-- ===== src/Engine/PollingTests.antt =====
-- rules/engine.go: the theorems on pollings at one name space.
use go_etcd_rules.Base.{
  ◌≡◌, refl, false, [], ◌∷◌, Option, none, some, Text, codes, text_eq, Map, cut, split, lookup,
  insert, ok, sym, ap, ◌∙◌, Error, All, has_prefix, has_suffix, lookup-insert_hit, text_eq_refl,
}
use go_etcd_rules.Regex.{is_meta}
use go_etcd_rules.Matcher.{
  Attributes, map_attributes, get_prefix, find_attribute, format_path, format_with_attributes,
}
use go_etcd_rules.Matcher.Segments.{segments}
use go_etcd_rules.Matcher.Fields.{matcher_of, IsPlain, new_regex_key_matcher_lem}
use go_etcd_rules.StaticRule.{
  StaticRule, compare_literal, and_rule, nil, cons, new_equals_comparator,
}
use go_etcd_rules.StaticRule.Evaluation.{holds}
use go_etcd_rules.DynamicRule.{
  sprintf, cons_matcher, new_equals_literal_rule, new_compare_literal_rule, new_dynamic_rule,
  new_matchers, new_rule, DynamicRule, leaf, more, empty, new_and_rule, compare_literal_factory,
  static_rule_from_attributes,
}
use go_etcd_rules.KeyProcessor.Samples.{is_set, a_rule, a_key}
use go_etcd_rules.Engine.{namespace_of, ttl_path_pattern, polling_rule, Leases, do_rule}
use go_etcd_rules.Engine.Polling.{PutsValue, do_rule-polling_rule}

abbrev name_space : Text
name_space = codes "/p/:id"

abbrev ttl_pattern : Text
ttl_pattern = codes "/p/:id/ttl"

abbrev ttl_rule : DynamicRule
ttl_rule = leaf (record {
  factory = compare_literal_factory (new_equals_comparator none);
  matchers = matcher_of ttl_pattern ∷ [];
  patterns = ttl_pattern ∷ [];
  prefixes = get_prefix (matcher_of ttl_pattern) ∷ [];
  attributes = [];
  rep = codes "/p/:id/ttl = <nil>";
})

abbrev poll : DynamicRule
poll = new_and_rule (more a_rule (more ttl_rule empty))

ttl-IsPlain : All IsPlain (segments ttl_pattern)
unfolding segments split is_meta
ttl-IsPlain = ((refl, tt), (tt, ((refl, (refl, (refl, tt))), tt)))

matchers_made : new_matchers (ttl_pattern ∷ []) ≡ ok (matcher_of ttl_pattern ∷ [])
unfolding new_matchers
matchers_made =
    ap (λ m. cons_matcher m (new_matchers [])) (new_regex_key_matcher_lem ttl_pattern ttl-IsPlain)

ttl_rule_made : new_equals_literal_rule ttl_pattern none ≡ ok ttl_rule
unfolding new_equals_literal_rule new_compare_literal_rule new_dynamic_rule sprintf has_prefix
ttl_rule_made =
    rw (new_equals_literal_rule, new_compare_literal_rule, new_dynamic_rule, matchers_made) refl

ttl_pattern_is : ttl_path_pattern name_space ≡ ttl_pattern
unfolding ttl_path_pattern namespace_of has_suffix
ttl_pattern_is = refl

poll_made : polling_rule name_space a_rule ≡ ok poll
unfolding polling_rule
poll_made = rw (polling_rule, ttl_pattern_is, ttl_rule_made) refl

abbrev job : Attributes
job = map_attributes ((codes "id", codes "7") ∷ [])

abbrev from_job : StaticRule
from_job = and_rule (
    cons (compare_literal job a_key is_set)
      (cons (compare_literal job (codes "/p/7/ttl") (new_equals_comparator none)) nil))

from_job_made : static_rule_from_attributes poll job ≡ some from_job
unfolding static_rule_from_attributes new_and_rule new_rule find_attribute lookup text_eq cut
    format_path
from_job_made = refl

-- Every lease is granted, and the world is the table of keys.
abbrev leases : Leases (Map Text)
leases = record {
  grant = λ ttl t. (ok 1, t);
  put = λ key value lease t. (none, insert key value t);
}

puts : PutsValue leases (λ t key. lookup key t)
puts key value lease s s' e =
    ap (λ (r : Option Error × Map Text). lookup key r.1) (sym e)
    ∙ lookup-insert_hit key key value s (text_eq_refl key)

do_rule-polling_rule_example :
    holds from_job
      (λ key. lookup key (do_rule leases (λ attr t. t) 30 (ttl_path_pattern name_space) job []))
    ≡ false
do_rule-polling_rule_example =
    do_rule-polling_rule leases (λ t key. lookup key t) (λ attr t. t) name_space a_rule poll job
      from_job 30 1 [] [] (insert (format_with_attributes (ttl_path_pattern name_space) job) [] [])
      puts poll_made from_job_made refl refl
