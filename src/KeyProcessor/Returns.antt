-- ===== src/KeyProcessor/Returns.antt =====
-- rules/key_processor.go: `processKey` does not panic.
use go_etcd_rules.Base.{
  ℕ, ◌≡◌, refl, sym, subst, inl, inr, Bool, List, [], ◌∷◌, Option, none, some, Text, Result, Map,
  nat_lookup, count, All, Bool-cases, Option-cases, Result-cases,
}
use go_etcd_rules.Matcher.{Attributes, slash}
use go_etcd_rules.StaticRule.{StaticRule, ReadApi, satisfied, get_attributes}
use go_etcd_rules.DynamicRule.{DynamicRule, make_static_rule}
use go_etcd_rules.DynamicRule.Scope.{HasLeaves, make_static_rule-get_attributes}
use go_etcd_rules.RuleManager.{
  RuleSet, rules_at, concerns, keep_concerned, made_rule, static_rules_of, get_static_rules,
}
use go_etcd_rules.KeyProcessor.{
  KeyProcessor, Work, truth, work_of, dispatch_work, rule_id_of, process_rules, keys_of,
  process_key,
}

-- No compound rule among the rules is without nested rules.
abbrev pub AllHaveLeaves : RuleSet → Type 0
AllHaveLeaves rules = All (λ (entry : ℕ × (DynamicRule × ℕ)). HasLeaves entry.1.0) rules

abbrev HasAttributes : StaticRule × ℕ → Type 0
HasAttributes p = (attr : Attributes) × (get_attributes p.0 ≡ some attr)

keep_concerned-HasAttributes :
    (enhanced : Bool) (key : Text) (value : Option Text) (made : StaticRule) (index : ℕ)
    (rest : List (StaticRule × ℕ))
    → HasAttributes (made, index)
    → All HasAttributes rest
    → All HasAttributes (keep_concerned enhanced key value (some made) index rest)
keep_concerned-HasAttributes enhanced key value made index rest a h =
    elim (Bool-cases (concerns enhanced made key value)) [
      | inl kept ↦ rw kept (a, h)
      | inr dropped ↦ rw dropped h
    ]

static_rules_of-HasAttributes :
    (enhanced : Bool) (key : Text) (value : Option Text) (rules : RuleSet)
    → AllHaveLeaves rules
    → All HasAttributes (static_rules_of enhanced key value rules)
unfolding static_rules_of
static_rules_of-HasAttributes enhanced key value [] h = tt
static_rules_of-HasAttributes enhanced key value ((pointer, (rule, index)) ∷ rest) h =
    let others = static_rules_of enhanced key value rest in
    let later = static_rules_of-HasAttributes enhanced key value rest h.1 in
    elim (Option-cases (make_static_rule rule key value)) [
      | inl unmade ↦
          let no_rule : made_rule rule key value ≡ none = rw (made_rule, unmade) refl in
          subst
            (λ (o : Option StaticRule).
              All HasAttributes (keep_concerned enhanced key value o index others))
            (sym no_rule) later
      | inr ((made, attr), is) ↦
          let a_rule : made_rule rule key value ≡ some made = rw (made_rule, is) refl in
          subst
            (λ (o : Option StaticRule).
              All HasAttributes (keep_concerned enhanced key value o index others))
            (sym a_rule)
            (keep_concerned-HasAttributes enhanced key value made index others
              (attr, make_static_rule-get_attributes rule key value made attr h.0 is) later)
    ]

module _ {Callback Provider : Type 0} (kp : KeyProcessor Callback Provider)
    (metadata : Map Text) where
  process_rules-returns :
      (api : ReadApi) (rules : List (StaticRule × ℕ))
      → All HasAttributes rules
      → (works : List (Work Callback Provider)) × (process_rules kp api metadata rules ≡ some works)
  unfolding process_rules dispatch_work
  process_rules-returns api [] h = ([], refl)
  process_rules-returns api ((rule, index) ∷ rules) h =
      let (works, later) = process_rules-returns api rules h.1 in
      let (attr, has) = h.0 in
      elim (Bool-cases (truth (satisfied rule api))) [
        | inr idle ↦ (works, rw (process_rules, idle) later)
        | inl due ↦ elim (Option-cases (nat_lookup index kp.lock_key_patterns)) [
          | inl absent ↦ (works, rw (process_rules, due, absent) later)
          | inr (pattern, found) ↦ (
            work_of kp index rule pattern metadata (rule_id_of kp index) attr ∷ works,
            rw (process_rules, due, found, dispatch_work, has, later) refl,
          )
        ]
      ]

  -- Where no compound rule that is filed for the key is without nested rules, `processKey` returns,
  -- whatever the reads give or fail with: no rule that it sends is without attributes.
  pub process_key-returns :
      (get_cached_api : List Text → Result ReadApi) (key : Text) (value : Option Text)
      → AllHaveLeaves (rules_at (count slash key) kp.rm.rules_by_slash_count)
      → (works : List (Work Callback Provider)) × (process_key kp get_cached_api key value metadata
          ≡ some works)
  unfolding process_key get_static_rules
  process_key-returns get_cached_api key value h =
      let rules = get_static_rules key value kp.rm in
      elim (Result-cases (get_cached_api (keys_of rules))) [
        | inl (x, failed) ↦ ([], rw (process_key, failed) refl)
        | inr (api, answered) ↦
            let (works, returned) =
              process_rules-returns api rules
                (static_rules_of-HasAttributes kp.rm.enhanced_rule_filter key value _ h) in
            (works, rw (process_key, answered) returned)
      ]
