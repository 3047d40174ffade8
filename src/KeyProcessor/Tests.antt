-- ===== src/KeyProcessor/Tests.antt =====
-- rules/key_processor.go: the theorems at a processor with one rule.
use go_etcd_rules.Base.{◌≡◌, refl, [], ◌∷◌, some, codes, text_eq, lookup, insert, nat_lookup, count}
use go_etcd_rules.StaticRule.{get_keys, get_attributes, satisfied}
use go_etcd_rules.RuleManager.{rules_at}
use go_etcd_rules.KeyProcessor.{keys_of, dispatch_work, rule_id_of, process_key}
use go_etcd_rules.DynamicRule.{unique_from}
use go_etcd_rules.Etcd.{get_cached_api, unique_keys, cache_get, put_responses, put_all}
use go_etcd_rules.Etcd.Samples.{table_kv, one_pair}
use go_etcd_rules.Matcher.{slash}
use go_etcd_rules.KeyProcessor.Returns.{AllHaveLeaves}
use go_etcd_rules.KeyProcessor.Snapshot.{reads_at}
use go_etcd_rules.KeyProcessor.Samples.{processor, a_key, item, rules_found}

sent_at :
    process_key processor (reads_at table_kv one_pair) a_key (some (codes "1")) []
    ≡ some (item ∷ [])
unfolding process_key satisfied get_attributes rule_id_of dispatch_work nat_lookup keys_of get_keys
    get_cached_api unique_keys unique_from lookup insert text_eq cache_get put_responses put_all
sent_at = rw (process_key, rules_found) refl

filed-AllHaveLeaves : AllHaveLeaves (rules_at (count slash a_key) processor.rm.rules_by_slash_count)
unfolding rules_at count nat_lookup
filed-AllHaveLeaves = (tt, tt)
