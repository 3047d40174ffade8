-- ===== src/KeyProcessor.antt =====
-- rules/key_processor.go: a key that changed is matched with the rules, and the rules that are
-- satisfied are sent to the workers.
pub mod Dispatch
pub mod Snapshot
pub mod Returns
mod Sampler
pub mod Samples
mod Tests
use go_etcd_rules.Base.{
  ℕ, Bool, true, false, ◌||◌, List, [], ◌∷◌, ◌++◌, map, map_some, Option, none, some, Text, Result,
  ok, err, Map, NatMap, nat_lookup, nat_insert, if◌then◌else◌,
}
use go_etcd_rules.Matcher.{Attributes, format_with_attributes}
use go_etcd_rules.StaticRule.{StaticRule, ReadApi, satisfied, get_keys, get_attributes}
use go_etcd_rules.RuleManager.{RuleManager, get_static_rules}

-- Callbacks and providers of contexts are the caller's functions.
module _ (Callback Provider : Type 0) where
  pub record KeyProcessor : Type 0 where
    pub context_providers : NatMap Provider
    pub lock_key_patterns : NatMap Text
    pub rule_ids : NatMap Text
    pub rm : RuleManager
    pub callbacks : NatMap Callback

  -- v3RuleWork with its task.
  pub record Work : Type 0 where
    pub rule_id : Text
    pub rule : StaticRule
    pub rule_index : ℕ
    pub attr : Attributes
    pub metadata : Map Text
    pub rule_task_callback : Option Callback
    pub lock_key : Text
    pub key_pattern : Text
    pub context_provider : Option Provider

-- `satisfied, _ :=`, whose value beside an error is false.
abbrev pub truth : Result Bool → Bool
truth (err e) = false
truth (ok b) = b

-- The keys of all the rules, which `getCachedAPI` reads at once.
unfoldable pub keys_of : List (StaticRule × ℕ) → List Text
keys_of [] = []
keys_of ((rule, index) ∷ rules) = get_keys rule ++ keys_of rules

-- The loop of `isWork`.
unfoldable pub any_work : List (StaticRule × ℕ) → ReadApi → Bool
any_work [] api = false
any_work ((rule, index) ∷ rules) api =
    let later = any_work rules api in if truth (satisfied rule api) then true else later

module _ {Callback Provider : Type 0} where
  unfoldable pub set_lock_key_pattern :
      ℕ → Text → KeyProcessor Callback Provider → KeyProcessor Callback Provider
  set_lock_key_pattern index pattern kp = record kp {
    lock_key_patterns = nat_insert index pattern kp.lock_key_patterns;
  }

  unfoldable pub set_rule_id :
      ℕ → Text → KeyProcessor Callback Provider → KeyProcessor Callback Provider
  set_rule_id index rule_id kp = record kp { rule_ids = nat_insert index rule_id kp.rule_ids }

  unfoldable pub set_context_provider :
      ℕ → Provider → KeyProcessor Callback Provider → KeyProcessor Callback Provider
  set_context_provider index cp kp = record kp {
    context_providers = nat_insert index cp kp.context_providers;
  }

  unfoldable pub set_callback :
      ℕ → Callback → KeyProcessor Callback Provider → KeyProcessor Callback Provider
  set_callback index callback kp = record kp { callbacks = nat_insert index callback kp.callbacks }

  -- The item of `dispatchWork`, with the attributes of the rule.
  abbrev pub work_of :
      KeyProcessor Callback Provider
      → ℕ
      → StaticRule
      → Text
      → Map Text
      → Text
      → Attributes
      → Work Callback Provider
  work_of kp index rule key_pattern metadata rule_id attr = record {
    rule_id = rule_id;
    rule = rule;
    rule_index = index;
    attr = attr;
    metadata = metadata;
    rule_task_callback = nat_lookup index kp.callbacks;
    lock_key = format_with_attributes key_pattern attr;
    key_pattern = key_pattern;
    context_provider = nat_lookup index kp.context_providers;
  }

  -- `dispatchWork`: what it sends. `none` is the panic of `getAttributes`.
  unfoldable pub dispatch_work :
      KeyProcessor Callback Provider
      → ℕ
      → StaticRule
      → Text
      → Map Text
      → Text
      → Option (Work Callback Provider)
  dispatch_work kp index rule key_pattern metadata rule_id =
      map_some (work_of kp index rule key_pattern metadata rule_id) (get_attributes rule)

  -- An index without an ID reads as the empty text.
  unfoldable pub rule_id_of : KeyProcessor Callback Provider → ℕ → Text
  rule_id_of kp index = elim (nat_lookup index kp.rule_ids) [ none ↦ [] | some rule_id ↦ rule_id ]

  abbrev pub send :
      Option (Work Callback Provider)
      → Option (List (Work Callback Provider))
      → Option (List (Work Callback Provider))
  send none later = none
  send (some work) none = none
  send (some work) (some works) = some (work ∷ works)

  -- The loop of `processKey`: what is sent, in order. A rule without a key pattern is skipped.
  unfoldable pub process_rules :
      KeyProcessor Callback Provider
      → ReadApi
      → Map Text
      → List (StaticRule × ℕ)
      → Option (List (Work Callback Provider))
  process_rules kp api metadata [] = some []
  process_rules kp api metadata ((rule, index) ∷ rules) =
      let later = process_rules kp api metadata rules in
      let sent : Option (List (Work Callback Provider)) =
        elim (nat_lookup index kp.lock_key_patterns) [
          | none ↦ later
          | some key_pattern ↦
              send (dispatch_work kp index rule key_pattern metadata (rule_id_of kp index)) later
        ] in
      if truth (satisfied rule api) then sent else later

  -- `processKey`; an error of `getCachedAPI` ends it.
  unfoldable pub process_key :
      KeyProcessor Callback Provider
      → (List Text → Result ReadApi)
      → Text
      → Option Text
      → Map Text
      → Option (List (Work Callback Provider))
  unfolding process_rules keys_of
  process_key kp get_cached_api key value metadata =
      let rules = get_static_rules key value kp.rm in
      elim (get_cached_api (keys_of rules)) [
        | err e ↦ some []
        | ok api ↦ process_rules kp api metadata rules
      ]

  -- The calls of `timesEvaluated` in `processKey`.
  unfoldable pub times_evaluated :
      KeyProcessor Callback Provider → (List Text → Result ReadApi) → Text → Option Text → List Text
  unfolding rule_id_of keys_of
  times_evaluated kp get_cached_api key value =
      let rules = get_static_rules key value kp.rm in
      elim (get_cached_api (keys_of rules)) [
        | err e ↦ []
        | ok api ↦ map (λ (p : StaticRule × ℕ). rule_id_of kp p.1) rules
      ]

  unfoldable pub is_work : KeyProcessor Callback Provider → Text → Option Text → ReadApi → Bool
  unfolding any_work
  is_work kp key value api = any_work (get_static_rules key value kp.rm) api
