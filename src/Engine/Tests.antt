-- ===== src/Engine/Tests.antt =====
-- rules/engine.go: the theorems at an engine with one rule.
use go_etcd_rules.Base.{
  All, arith, inr, ℕ, ◌≡◌, refl, inl, Bool, true, false, List, [], ◌∷◌, none, some, Text, codes,
  text_eq, In, Map, cut, split, lookup, insert, nat_lookup, nat_insert, count, ok, ltb, has_prefix,
}
use go_etcd_rules.Regex.{find_string_submatch}
use go_etcd_rules.Matcher.{
  Attributes, map_attributes, get_prefix, find_attribute, match, format_with_attributes,
}
use go_etcd_rules.Matcher.Segments.{segments, render}
use go_etcd_rules.Matcher.Fields.{matcher_of, index_fields, items}
use go_etcd_rules.StaticRule.{get_keys, get_attributes, satisfied, satisfiable}
use go_etcd_rules.StaticRule.Evaluation.{Serves}
use go_etcd_rules.DynamicRule.{
  DynamicRule, get_patterns, make_static_rule, new_rule, make_leaf, format_keys,
}
use go_etcd_rules.RuleManager
use go_etcd_rules.RuleManager.{
  matcher_prefixes, rule_prefixes, leaf_prefixes, new_rule_manager, get_static_rules, file_rule,
  rules_at,
}
use go_etcd_rules.KeyProcessor.{
  Work, keys_of, dispatch_work, rule_id_of, process_key, set_callback, set_lock_key_pattern,
  set_context_provider, set_rule_id,
}
use go_etcd_rules.KeyProcessor.Samples.{
  a_pattern, a_rule, a_key, all_set, all_set_api, found, item, found_holds,
}
use go_etcd_rules.Options.{
  Floats, make_engine_options, EngineOptions, RuleOption, rule_id, make_rule_options,
}
use go_etcd_rules.Lock.{RuleLocker}
use go_etcd_rules.Etcd.Samples.{table_kv}
use go_etcd_rules.Engine.Dispatch.{process_key-Built}
use go_etcd_rules.DynamicRule.Scope.{HasLeaves}
use go_etcd_rules.Pipeline.{
  KeyTask, Pipeline, Reach, here, next, submit_task, submit, waiting, replicate, new_pipeline,
}
use go_etcd_rules.Engine.Draining.{engine_drains}
use go_etcd_rules.Engine.Keys.{IsCanonical, matchers_of, run-watched_key}
use go_etcd_rules.Engine.Run.{run}
use go_etcd_rules.Engine.Coverage.{Built, fresh, watched, run-watched}
use go_etcd_rules.Engine.{Engine, new_v3_engine, file_in_manager, register, add_rule}

abbrev hundredths : Floats ℕ
hundredths = record { zero_float = 0; one_float = 100; ltb_float = ltb; sync_jitter_percent = 10 }

-- The provider of contexts is the number 5.
abbrev opts : EngineOptions ℕ ℕ Bool
opts = make_engine_options hundredths 5 true []

abbrev new_engine : Engine ℕ ℕ Bool ℕ
new_engine = new_v3_engine opts

abbrev options : List (RuleOption ℕ)
options = rule_id (codes "first") ∷ []

abbrev with_rule : Engine ℕ ℕ Bool ℕ
with_rule =
    register 0 (codes "/lock/:id") 8 (make_rule_options options)
      (file_in_manager 0 a_rule new_engine)

rule_added : add_rule 0 a_rule (codes "/lock/:id") 8 options new_engine ≡ some with_rule
unfolding add_rule make_rule_options rule_id text_eq new_v3_engine new_rule_manager
rule_added = refl

rules_found : get_static_rules a_key (some (codes "1")) with_rule.key_proc.rm ≡ (found, 0) ∷ []
unfolding get_static_rules new_rule_manager make_static_rule new_rule find_attribute lookup text_eq
    cut match find_string_submatch segments split index_fields items insert make_leaf format_keys
    format_with_attributes nat_lookup count satisfiable new_v3_engine register file_in_manager
    set_callback set_lock_key_pattern set_context_provider set_rule_id RuleManager.add_rule rules_at
    file_rule nat_insert make_engine_options get_patterns
rules_found = refl

served :
    Serves all_set_api all_set
      (keys_of (get_static_rules a_key (some (codes "1")) with_rule.key_proc.rm))
unfolding keys_of get_keys
served = rw rules_found (refl, tt)

item_sent :
    process_key with_rule.key_proc (λ keys. ok all_set_api) a_key (some (codes "1")) []
    ≡ some (item ∷ [])
unfolding process_key satisfied get_attributes rule_id_of dispatch_work nat_lookup register
    file_in_manager set_callback set_lock_key_pattern set_context_provider set_rule_id nat_insert
    new_v3_engine make_engine_options make_rule_options rule_id
item_sent = rw (process_key, rules_found) refl

is_found : In (found, 0) (get_static_rules a_key (some (codes "1")) with_rule.key_proc.rm)
is_found = rw rules_found (inl refl)

with_rule-Built : Built with_rule
with_rule-Built = Built.added (fresh opts) 0 a_rule (codes "/lock/:id") 8 options rule_added

process_key-Built_example :
    (w : Work ℕ ℕ) × In w (item ∷ []) × (w.rule ≡ found) × (w.rule_index ≡ 0)
process_key-Built_example =
    process_key-Built with_rule all_set_api all_set [] (λ keys. ok all_set_api) a_key
      (some (codes "1")) (item ∷ []) found 0 with_rule-Built refl served item_sent is_found
      found_holds

-- A lock that is always free.
abbrev map_free : RuleLocker (Map Text)
map_free = record { lock = λ key s. (ok (λ s'. (none, s')), s) }

rule_prefix : In (codes "/j/") (rule_prefixes with_rule.rule_mgr.constraints a_rule)
unfolding rule_prefixes leaf_prefixes matcher_prefixes cut get_prefix lookup new_v3_engine
    new_rule_manager register file_in_manager RuleManager.add_rule make_engine_options
rule_prefix = inl refl

below : has_prefix (codes "/j/") a_key ≡ true
unfolding has_prefix
below = refl

rule_there : In a_rule with_rule.rule_mgr.rules
unfolding register file_in_manager RuleManager.add_rule new_v3_engine new_rule_manager
rule_there = inl refl

run-watched_example :
    (q : Text) × In q (watched table_kv map_free (λ s. (false, s)) (λ key value s. s) with_rule)
    × (has_prefix q a_key ≡ true)
    × In q (run with_rule table_kv map_free (λ s. (false, s)) (λ key value s. s)).crawler.prefixes
    × ((other : Text)
        → In other (watched table_kv map_free (λ s. (false, s)) (λ key value s. s) with_rule)
        → has_prefix other a_key ≡ true
        → other ≡ q)
run-watched_example =
    run-watched table_kv map_free (λ s. (false, s)) (λ key value s. s) with_rule a_rule
      (codes "/j/") a_key with_rule-Built rule_there rule_prefix below

a_pattern-IsCanonical : IsCanonical a_pattern
unfolding render segments split
a_pattern-IsCanonical = refl

unconstrained : with_rule.rule_mgr.constraints ≡ []
unfolding register file_in_manager RuleManager.add_rule new_v3_engine new_rule_manager
    make_engine_options
unconstrained = refl

a_matcher : In (matcher_of a_pattern) (matchers_of a_rule)
unfolding matchers_of
a_matcher = inl refl

abbrev job : Attributes
job = map_attributes ((codes "id", codes "7") ∷ [])

run-watched_key_example :
    (q : Text) × In q (watched table_kv map_free (λ s. (false, s)) (λ key value s. s) with_rule)
    × (has_prefix q (format_with_attributes a_pattern job) ≡ true)
    × In q (run with_rule table_kv map_free (λ s. (false, s)) (λ key value s. s)).crawler.prefixes
    × ((other : Text)
        → In other (watched table_kv map_free (λ s. (false, s)) (λ key value s. s) with_rule)
        → has_prefix other (format_with_attributes a_pattern job) ≡ true
        → other ≡ q)
run-watched_key_example =
    run-watched_key table_kv map_free (λ s. (false, s)) (λ key value s. s) with_rule a_rule
      (matcher_of a_pattern) job with_rule-Built unconstrained rule_there a_matcher
      a_pattern-IsCanonical

only_leaves : (rule : DynamicRule) → In rule with_rule.rule_mgr.rules → HasLeaves rule
unfolding register file_in_manager RuleManager.add_rule new_v3_engine new_rule_manager
only_leaves rule (inl same) = rw same tt
only_leaves rule (inr none_else) = absurd none_else

abbrev at_start : Pipeline ℕ ℕ (Map Text)
at_start = new_pipeline with_rule.options.key_proc_concurrency with_rule.options.concurrency []

abbrev one_key : KeyTask
one_key = record { key = a_key; value = none; metadata = [] }

abbrev given : Pipeline ℕ ℕ (Map Text)
given = submit one_key at_start

given-Reach :
    Reach with_rule.key_proc table_kv with_rule.options.key_proc_buffer
      with_rule.options.rule_work_buffer at_start given
unfolding new_pipeline register file_in_manager new_v3_engine make_engine_options
given-Reach = next {u = given} here (submit_task one_key (omega arith) refl)

engine_drains_example :
    (u : Pipeline ℕ ℕ (Map Text)) × Reach with_rule.key_proc table_kv
      with_rule.options.key_proc_buffer with_rule.options.rule_work_buffer given u
    × (u.taken ≡ given.submitted)
    × (u.submitted ≡ given.submitted)
    × (u.dropped ≡ given.dropped)
    × All (λ (l : List (Work ℕ ℕ)). l ≡ []) u.key_workers
    × (u.work_channel ≡ [])
unfolding new_pipeline register file_in_manager new_v3_engine make_engine_options
engine_drains_example =
    engine_drains table_kv with_rule [] with_rule-Built only_leaves given given-Reach []
      (replicate 4 []) refl [] (replicate 4 (record { told = false; slot = waiting })) waiting refl
