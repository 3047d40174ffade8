-- ===== src/Engine/Dispatch.antt =====
-- rules/engine.go with rules/key_processor.go: no rule of an engine is left out when a key is processed.
use go_etcd_rules.Base.{ℕ, ◌≡◌, List, Option, some, Text, Result, ok, Map, In, true}
use go_etcd_rules.StaticRule.{StaticRule, ReadApi}
use go_etcd_rules.StaticRule.Evaluation.{Store, holds, Serves}
use go_etcd_rules.RuleManager.{get_static_rules}
use go_etcd_rules.KeyProcessor.{Work, keys_of, process_key}
use go_etcd_rules.Engine.{Engine}
use go_etcd_rules.Engine.Registration.{
  IsRegistered, new_v3_engine-IsRegistered, add_rule-IsRegistered, process_key-IsRegistered,
}
use go_etcd_rules.Engine.Coverage.{Built, fresh, added}

module _ {F Provider Metrics Callback : Type 0} where
  pub Built-IsRegistered : (e : Engine F Provider Metrics Callback) → Built e → IsRegistered e
  Built-IsRegistered _ (fresh opts) = new_v3_engine-IsRegistered opts
  Built-IsRegistered e' (added {e} b pointer rule lock_pattern callback options h) =
      add_rule-IsRegistered pointer rule lock_pattern callback options e e' (Built-IsRegistered e b)
        h

  -- In an engine that rules were added to, `processKey` sends every rule found for the key that holds in
  -- the store, where the cached reads are the store's: none is without a lock key pattern.
  pub process_key-Built :
      (e : Engine F Provider Metrics Callback) (api : ReadApi) (store : Store) (metadata : Map Text)
      (get_cached_api : List Text → Result ReadApi) (key : Text) (value : Option Text)
      (works : List (Work Callback Provider)) (rule : StaticRule) (index : ℕ)
      → Built e
      → get_cached_api (keys_of (get_static_rules key value e.key_proc.rm)) ≡ ok api
      → Serves api store (keys_of (get_static_rules key value e.key_proc.rm))
      → process_key e.key_proc get_cached_api key value metadata ≡ some works
      → In (rule, index) (get_static_rules key value e.key_proc.rm)
      → holds rule store ≡ true
      → (w : Work Callback Provider) × In w works × (w.rule ≡ rule) × (w.rule_index ≡ index)
  process_key-Built e api store metadata get_cached_api key value works rule index b =
      process_key-IsRegistered e api store metadata get_cached_api key value works rule index
        (Built-IsRegistered e b)
