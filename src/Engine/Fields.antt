-- ===== src/Engine/Fields.antt =====
-- rules/engine.go: the lock time of a rule, and the wrappers of the etcd client.
use go_etcd_rules.Base.{
  ℕ, ◌≡◌, ◌∙◌, refl, sym, ap, Bool, true, false, List, Option, none, some, Text, nat_lookup,
  nat_lookup-insert, ◌==◌, ltb, if◌then◌else◌,
}
use go_etcd_rules.DynamicRule.{DynamicRule}
use go_etcd_rules.Options.{RuleOption, make_rule_options}
use go_etcd_rules.RuleManager
use go_etcd_rules.Engine.{Engine, add_rule, register, file_in_manager}
use go_etcd_rules.Engine.Registration.{add_rule_inv}

-- The wrappers of v3Engine; a wrapper is a function of the caller's.
pub record Wrappers (Kv Watch : Type 0) : Type 0 where
  pub kv_wrapper : Kv → Kv
  pub watcher_wrapper : Watch → Watch

-- `newV3Engine` puts the wrappers that change nothing, `defaultWrapKV` and `defaultWrapWatcher`.
unfoldable pub default_wrappers : {Kv Watch : Type 0} → Wrappers Kv Watch
default_wrappers = record { kv_wrapper = λ kv. kv; watcher_wrapper = λ w. w }

unfoldable pub set_kv_wrapper :
    {Kv Watch : Type 0} → (Kv → Kv) → Wrappers Kv Watch → Wrappers Kv Watch
set_kv_wrapper wrapper e = record e { kv_wrapper = wrapper }

unfoldable pub set_watcher_wrapper :
    {Kv Watch : Type 0} → (Watch → Watch) → Wrappers Kv Watch → Wrappers Kv Watch
set_watcher_wrapper wrapper e = record e { watcher_wrapper = wrapper }

-- A missing entry reads as zero.
abbrev pub ttl_or_zero : Option ℕ → ℕ
ttl_or_zero none = 0
ttl_or_zero (some ttl) = ttl

ttl_or_zero-if :
    (b : Bool) (ttl : ℕ) (o : Option ℕ)
    → ttl_or_zero (if b then some ttl else o) ≡ (if b then ttl else ttl_or_zero o)
ttl_or_zero-if true ttl o = refl
ttl_or_zero-if false ttl o = refl

module _ {F Provider Metrics Callback : Type 0} where
  unfoldable pub get_lock_ttl_for_rule : ℕ → Engine F Provider Metrics Callback → ℕ
  get_lock_ttl_for_rule index e = ttl_or_zero (nat_lookup index e.rule_lock_ttls)

  registered_ttl :
      (e : Engine F Provider Metrics Callback) (index pointer j : ℕ) (rule : DynamicRule)
      (lock_pattern : Text) (callback : Callback) (options : List (RuleOption Provider))
      → get_lock_ttl_for_rule j (
          register index lock_pattern callback
            (make_rule_options options)
            (file_in_manager pointer rule e))
        ≡ (if index == j
            then (if ltb 0 (make_rule_options options).lock_timeout
                then (make_rule_options options).lock_timeout
                else e.options.lock_timeout)
            else get_lock_ttl_for_rule j e)
  unfolding get_lock_ttl_for_rule register file_in_manager RuleManager.add_rule
  registered_ttl e index pointer j rule lock_pattern callback options =
      ap ttl_or_zero (nat_lookup-insert index j _ e.rule_lock_ttls)
      ∙ ttl_or_zero-if (index == j) _ (nat_lookup j e.rule_lock_ttls)

  -- After `addRule`, the lock time of the new rule is the one of its options, if they give one, and the
  -- engine's otherwise; the lock times of the rules before it stay.
  get_lock_ttl_for_rule-add_rule :
      (pointer j : ℕ) (rule : DynamicRule) (lock_pattern : Text) (callback : Callback)
      (options : List (RuleOption Provider)) (e e' : Engine F Provider Metrics Callback)
      → add_rule pointer rule lock_pattern callback options e ≡ some e'
      → get_lock_ttl_for_rule j e' ≡ (
          if e.rule_mgr.current_index == j
          then (if ltb 0 (make_rule_options options).lock_timeout
              then (make_rule_options options).lock_timeout
              else e.options.lock_timeout)
          else get_lock_ttl_for_rule j e)
  get_lock_ttl_for_rule-add_rule pointer j rule lock_pattern callback options e e' h =
      ap (get_lock_ttl_for_rule j)
        (sym (add_rule_inv pointer rule lock_pattern callback options e h))
      ∙ registered_ttl e e.rule_mgr.current_index pointer j rule lock_pattern callback options
