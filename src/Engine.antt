-- ===== src/Engine.antt =====
-- rules/engine.go: rules and pollings are added to an engine. Rules are known by a number in place of
-- their pointer, as in the rule manager.
mod Registration
mod Polling
mod Run
mod Coverage
mod Keys
mod Dispatch
mod Draining
mod Fields
mod Locking
mod Tests
mod PollingTests
mod LockingTests
use go_etcd_rules.Base.{
  ℕ, ◌+◌, Bool, true, false, not, List, [], ◌∷◌, ◌++◌, Option, none, some, Text, codes, text_eq,
  ltb, if◌then◌else◌, Result, ok, err, Error, Map, NatMap, nat_insert, has_suffix, ◌==◌,
}
use go_etcd_rules.Matcher.{Attributes, format_with_attributes}
use go_etcd_rules.DynamicRule.{DynamicRule, empty, more, new_and_rule, new_equals_literal_rule}
use go_etcd_rules.DynamicRule.Expand.{Expanded, expand}
use go_etcd_rules.RuleManager.{RuleManager, RuleSet, new_rule_manager}
use go_etcd_rules.RuleManager
use go_etcd_rules.Lock.{RuleLocker, Unlock, map_locker, nested_locker, CoolOff, cool_off_locker}
use go_etcd_rules.KeyProcessor.{
  KeyProcessor, set_callback, set_lock_key_pattern, set_context_provider, set_rule_id,
}
use go_etcd_rules.Options.{
  EngineOptions, RuleOption, RuleOptions, default_rule_id, make_rule_options, rule_id,
}

-- The fields of baseEngine and v3Engine that its methods change or read here. The key processor has
-- a copy of the rule manager, which shares the map of rules with the engine's.
pub record Engine (F Provider Metrics Callback : Type 0) : Type 0 where
  pub options : EngineOptions F Provider Metrics
  pub rule_lock_ttls : NatMap ℕ
  pub rule_mgr : RuleManager
  pub key_proc : KeyProcessor Callback Provider

abbrev pub provider_of : {Provider : Type 0} → Option Provider → Provider → Provider
provider_of none default_provider = default_provider
provider_of (some cp) default_provider = cp

module _ {F Provider Metrics Callback : Type 0} where
  -- `newV3Engine`: no rule yet, and one map of rules for both copies of the manager.
  unfoldable pub new_v3_engine :
      EngineOptions F Provider Metrics → Engine F Provider Metrics Callback
  unfolding new_rule_manager
  new_v3_engine opts =
      let rule_mgr = new_rule_manager opts.constraints opts.enhanced_rule_filter in
      record {
        options = opts;
        rule_lock_ttls = [];
        rule_mgr = rule_mgr;
        key_proc = record {
          context_providers = [];
          lock_key_patterns = [];
          rule_ids = [];
          rm = rule_mgr;
          callbacks = [];
        };
      }

  -- `e.ruleMgr.addRule`, seen through the shared map by the key processor too.
  unfoldable pub file_in_manager :
      ℕ → DynamicRule → Engine F Provider Metrics Callback → Engine F Provider Metrics Callback
  unfolding RuleManager.add_rule
  file_in_manager pointer rule e =
      let rm = (RuleManager.add_rule pointer rule e.rule_mgr).0 in
      record e {
        rule_mgr = rm;
        key_proc = record e.key_proc {
          rm = record e.key_proc.rm { rules_by_slash_count = rm.rules_by_slash_count };
        };
      }

  -- The entries that `addRule` makes for a rule's index.
  unfoldable pub register :
      ℕ
      → Text
      → Callback
      → RuleOptions Provider
      → Engine F Provider Metrics Callback
      → Engine F Provider Metrics Callback
  unfolding set_callback set_lock_key_pattern set_context_provider set_rule_id
  register index lock_pattern callback opts e = record e {
    rule_lock_ttls =
        nat_insert index
          (if ltb 0 opts.lock_timeout then opts.lock_timeout else e.options.lock_timeout)
          e.rule_lock_ttls;
    key_proc = set_rule_id index opts.rule_id (
        set_context_provider index (provider_of opts.context_provider e.options.context_provider)
          (set_lock_key_pattern index lock_pattern (set_callback index callback e.key_proc)));
  }

  -- `addRule`. It panics where no rule ID is given, which is `none`.
  unfoldable pub add_rule :
      ℕ
      → DynamicRule
      → Text
      → Callback
      → List (RuleOption Provider)
      → Engine F Provider Metrics Callback
      → Option (Engine F Provider Metrics Callback)
  unfolding file_in_manager register make_rule_options
  add_rule pointer rule lock_pattern callback options e =
      let opts = make_rule_options options in
      if text_eq opts.rule_id default_rule_id
      then none
      else some (
          register e.rule_mgr.current_index lock_pattern callback opts
            (file_in_manager pointer rule e))

module _ {F Provider Metrics Callback : Type 0} where
  -- The loop of `addRuleWithIface` over the expanded rules; `pointers` are theirs.
  unfoldable pub add_rules :
      (ℕ → ℕ)
      → List DynamicRule
      → Text
      → Callback
      → List (RuleOption Provider)
      → Engine F Provider Metrics Callback
      → Option (Engine F Provider Metrics Callback)
  unfolding add_rule
  add_rules pointers [] lock_pattern callback options e = some e
  add_rules pointers (rule ∷ rules) lock_pattern callback options e =
      elim (add_rule (pointers e.rule_mgr.current_index) rule lock_pattern callback options e) [
        | none ↦ none
        | some e' ↦ add_rules pointers rules lock_pattern callback options e'
      ]

  abbrev pub add_expanded_rules :
      (ℕ → ℕ)
      → Expanded
      → Text
      → Callback
      → List (RuleOption Provider)
      → Engine F Provider Metrics Callback
      → Option (Engine F Provider Metrics Callback)
  add_expanded_rules pointers none lock_pattern callback options e = none
  add_expanded_rules pointers (some (rules, expanded)) lock_pattern callback options e =
      add_rules pointers rules lock_pattern callback options e

  -- `addRuleWithIface`, behind `AddRule`; the fuel is for `Expand`.
  unfoldable pub add_rule_with_iface :
      ℕ
      → (ℕ → ℕ)
      → DynamicRule
      → Text
      → Callback
      → List (RuleOption Provider)
      → Engine F Provider Metrics Callback
      → Option (Engine F Provider Metrics Callback)
  unfolding add_rules
  add_rule_with_iface fuel pointers rule lock_pattern callback options e =
      let alone = add_rules pointers (rule ∷ []) lock_pattern callback options e in
      elim e.options.key_expansion [
        | none ↦ alone
        | some [] ↦ alone
        | some (pair ∷ pairs) ↦
            add_expanded_rules pointers (expand fuel rule (pair ∷ pairs)) lock_pattern callback
              options e
      ]

-- The polling of a name space.
unfoldable pub namespace_of : Text → Text
namespace_of namespace_pattern =
    if has_suffix (codes "/") namespace_pattern
    then namespace_pattern
    else namespace_pattern ++ codes "/"

unfoldable pub ttl_path_pattern : Text → Text
unfolding namespace_of
ttl_path_pattern namespace_pattern = namespace_of namespace_pattern ++ codes "ttl"

unfoldable pub polling_rule : Text → DynamicRule → Result DynamicRule
unfolding ttl_path_pattern
polling_rule namespace_pattern preconditions =
    elim (new_equals_literal_rule (ttl_path_pattern namespace_pattern) none) [
      | err e ↦ err e
      | ok ttl_rule ↦ ok (new_and_rule (more preconditions (more ttl_rule empty)))
    ]

module _ {F Provider Metrics Callback : Type 0} where
  -- `AddPolling`, with the callback that `doRule` wraps. An error of the pattern is returned and adds
  -- nothing; the inner option is a panic.
  unfoldable pub add_polling :
      ℕ
      → (ℕ → ℕ)
      → Text
      → DynamicRule
      → Callback
      → Engine F Provider Metrics Callback
      → Result (Option (Engine F Provider Metrics Callback))
  unfolding polling_rule add_rule_with_iface
  add_polling fuel pointers namespace_pattern preconditions callback e =
      let namespace = namespace_of namespace_pattern in
      elim (polling_rule namespace_pattern preconditions) [
        | err x ↦ err x
        | ok rule ↦ ok (
            add_rule_with_iface fuel pointers rule
              (codes "/rule_locks" ++ (namespace ++ codes "lock")) callback (rule_id namespace ∷ [])
              e)
      ]

-- The client's part of a polling: granting a lease, and putting a key with a lease.
pub record Leases (S : Type 0) : Type 0 where
  pub grant : ℕ → S → Result ℕ × S
  pub put : Text → Text → ℕ → S → Option Error × S

abbrev pub put_with : {S : Type 0} → Leases S → Text → Result ℕ × S → S
put_with leases path (err e, s) = s
put_with leases path (ok lease, s) = (leases.put path [] lease s).1

-- `doRule` of v3CallbackWrapper: the caller's callback, then the key with the lease. Errors are only
-- logged.
unfoldable pub do_rule :
    {S : Type 0} → Leases S → (Attributes → S → S) → ℕ → Text → Attributes → S → S
do_rule leases callback ttl ttl_path attr s =
    put_with leases (format_with_attributes ttl_path attr) (leases.grant ttl (callback attr s))

-- The lockers that `newV3Engine` puts together. A locker that is not made leaves its part of the
-- state alone.
module _ {S T : Type 0} where
  abbrev pub unlock_inner : Unlock T → Unlock (S × T)
  unlock_inner unlock (s, t) = let (e, t') = unlock t in (e, (s, t'))

  abbrev pub lock_inner : S → Result (Unlock T) × T → Result (Unlock (S × T)) × (S × T)
  lock_inner s (err e, t) = (err e, (s, t))
  lock_inner s (ok unlock, t) = (ok (unlock_inner unlock), (s, t))

  unfoldable pub only_inner : RuleLocker T → RuleLocker (S × T)
  only_inner inner = record { lock = λ key st. lock_inner st.0 (inner.lock key st.1) }

module _ {T : Type 0} where
  unfoldable pub base_locker : Bool → RuleLocker T → RuleLocker (Map Bool × T)
  unfolding only_inner map_locker nested_locker
  base_locker dont_share etcd_locker =
      if dont_share then only_inner etcd_locker else nested_locker map_locker etcd_locker

  unfoldable pub final_locker : Bool → ℕ → RuleLocker T → RuleLocker (CoolOff × (Map Bool × T))
  unfolding only_inner base_locker cool_off_locker nested_locker
  final_locker dont_share cool_off etcd_locker =
      let base = base_locker dont_share etcd_locker in
      if cool_off == 0 then only_inner base else nested_locker (cool_off_locker cool_off) base
