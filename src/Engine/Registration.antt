-- ===== src/Engine/Registration.antt =====
-- rules/engine.go: every rule that the key processor can find has the entries that `addRule` makes.
use go_etcd_rules.Base.{
  ℕ, ◌+◌, ◌<◌, ◌≡◌, refl, sym, ap, ◌∙◌, ◌⊎◌, inl, inr, Bool, true, List, [], ◌∷◌, Option, none,
  some, Text, text_eq, Result, ok, Map, NatMap, nat_lookup, nat_insert, nat_lookup-insert, count,
  In, ◌==◌, ==_iff, ==_refl, if◌then◌else◌, Bool-cases, arith,
}
use go_etcd_rules.Matcher.{slash}
use go_etcd_rules.StaticRule.{StaticRule, ReadApi}
use go_etcd_rules.StaticRule.Evaluation.{Store, holds, Serves}
use go_etcd_rules.DynamicRule.{DynamicRule, get_patterns}
use go_etcd_rules.RuleManager.{
  RuleSet, rules_or_empty, rules_at, file_rule, keep_concerned, made_rule, concerns,
  static_rules_of, get_static_rules,
}
use go_etcd_rules.KeyProcessor.{Work, keys_of, process_key}
use go_etcd_rules.KeyProcessor.Dispatch.{process_key_complete}
use go_etcd_rules.Options.{EngineOptions, RuleOption, default_rule_id, make_rule_options}
use go_etcd_rules.Engine.{Engine, new_v3_engine, file_in_manager, register, add_rule}

-- A number that a map has an entry for.
abbrev pub HasEntry : {V : Type 0} → ℕ → NatMap V → Type 0
HasEntry {V} i m = (v : V) × (nat_lookup i m ≡ some v)

HasEntry-insert :
    {V : Type 0} (k i : ℕ) (v : V) (m : NatMap V)
    → (k ≡ i) ⊎ HasEntry i m
    → HasEntry i (nat_insert k v m)
HasEntry-insert k i v m (inl e) = (v, nat_lookup-insert k i v m ∙ rw (e, ==_refl i))
HasEntry-insert k i v m (inr (w, old)) = elim (Bool-cases (k == i)) [
  | inl same ↦ (v, nat_lookup-insert k i v m ∙ rw same)
  | inr other ↦ (w, nat_lookup-insert k i v m ∙ rw other old)
]

In-nat_insert :
    {V : Type 0} (k : ℕ) (v : V) (m : NatMap V) (x : ℕ × V)
    → In x (nat_insert k v m)
    → (x ≡ (k, v)) ⊎ In x m
unfolding nat_insert
In-nat_insert k v [] x (inl e) = inl e
In-nat_insert k v [] x (inr i) = absurd i
In-nat_insert k v ((j, w) ∷ m) x i = elim (Bool-cases (j == k)) [
  | inl same ↦ elim (rw same at i) [ inl e ↦ inl e | inr h ↦ inr (inr h) ]
  | inr other ↦ elim (rw other at i) [
    | inl e ↦ inr (inl e)
    | inr h ↦ elim (In-nat_insert k v m x h) [ inl e ↦ inl e | inr h' ↦ inr (inr h') ]
  ]
]

rules_at-insert :
    (n k : ℕ) (filed : RuleSet) (m : NatMap RuleSet)
    → rules_at n (nat_insert k filed m) ≡ (if k == n then filed else rules_at n m)
unfolding rules_at
rules_at-insert n k filed m = ap rules_or_empty (nat_lookup-insert k n filed m) ∙ ground arith

-- What is filed is the new entry or was filed before.
pub In-file_rule :
    (pointer : ℕ) (rule : DynamicRule) (index : ℕ) (patterns : List Text) (m : NatMap RuleSet)
    (n : ℕ) (x : ℕ × (DynamicRule × ℕ))
    → In x (rules_at n (file_rule pointer rule index patterns m))
    → (x ≡ (pointer, (rule, index))) ⊎ In x (rules_at n m)
unfolding file_rule
In-file_rule pointer rule index [] m n x i = inr i
In-file_rule pointer rule index (p ∷ ps) m n x i =
    let k = count slash p in
    let filed = nat_insert pointer (rule, index) (rules_at k m) in
    elim (In-file_rule pointer rule index ps (nat_insert k filed m) n x i) [
      | inl e ↦ inl e
      | inr j ↦ elim (Bool-cases (k == n)) [
        | inr other ↦ inr (rw (rules_at-insert n k filed m, other) at j)
        | inl same ↦
            let in_filed : In x filed = rw (rules_at-insert n k filed m, same) at j in
            elim (In-nat_insert pointer (rule, index) (rules_at k m) x in_filed) [
              | inl e ↦ inl e
              | inr old ↦ inr (rw ((==_iff k n).0 same) at old)
            ]
      ]
    ]

-- A rule that is found was filed at the key's number of slashes, with its index.
kept_inv :
    (enhanced : Bool) (key : Text) (value : Option Text) (o : Option StaticRule) (index : ℕ)
    (rest : List (StaticRule × ℕ)) (p : StaticRule × ℕ)
    → In p (keep_concerned enhanced key value o index rest)
    → (p.1 ≡ index) ⊎ In p rest
kept_inv enhanced key value none index rest p i = inr i
kept_inv enhanced key value (some rule) index rest p i =
    elim (Bool-cases (concerns enhanced rule key value)) [
      | inr no_concern ↦ inr (rw no_concern at i)
      | inl concern ↦ elim (rw concern at i) [
        | inl e ↦ inl (ap (λ (q : StaticRule × ℕ). q.1) e)
        | inr j ↦ inr j
      ]
    ]

static_rules_of-filed :
    (enhanced : Bool) (key : Text) (value : Option Text) (rules : RuleSet) (p : StaticRule × ℕ)
    → In p (static_rules_of enhanced key value rules)
    → (pointer : ℕ) × (rule : DynamicRule) × In (pointer, (rule, p.1)) rules
unfolding static_rules_of
static_rules_of-filed enhanced key value [] p i = absurd i
static_rules_of-filed enhanced key value ((pointer, (rule, index)) ∷ rest) p i =
    elim (kept_inv enhanced key value (made_rule rule key value) index _ p i) [
      | inl e ↦ (pointer, rule, inl (ap (λ (n : ℕ). (pointer, (rule, n))) e))
      | inr j ↦
          let (pointer', rule', old) = static_rules_of-filed enhanced key value rest p j in
          (pointer', rule', inr old)
    ]

-- An index below the next one is the one given out, or was given out before.
split_index : (i n : ℕ) → i < n + 1 → (n ≡ i) ⊎ (i < n)
split_index i n h = elim (Bool-cases (n == i)) [
  | inl same ↦ inl ((==_iff n i).0 same)
  | inr other ↦ inr (ground arith)
]

kept_entry :
    {V : Type 0} (n : ℕ) (v : V) (m : NatMap V)
    → ((i : ℕ) → i < n → HasEntry i m)
    → (i : ℕ) → i < n + 1
    → HasEntry i (nat_insert n v m)
kept_entry n v m old i h =
    HasEntry-insert n i v m (elim (split_index i n h) [ inl e ↦ inl e | inr lt ↦ inr (old i lt) ])

module _ {F Provider Metrics Callback : Type 0} where
  -- The key processor sees the engine's rules; every index that was given out has a lock key pattern, a
  -- callback, a provider, an ID and a lock time; every rule that is filed has such an index.
  pub record IsRegistered (e : Engine F Provider Metrics Callback) : Type 0 where
    pub shared : e.key_proc.rm.rules_by_slash_count ≡ e.rule_mgr.rules_by_slash_count
    pub has_pattern :
        (i : ℕ) → i < e.rule_mgr.current_index → HasEntry i e.key_proc.lock_key_patterns
    pub has_callback : (i : ℕ) → i < e.rule_mgr.current_index → HasEntry i e.key_proc.callbacks
    pub has_provider :
        (i : ℕ) → i < e.rule_mgr.current_index → HasEntry i e.key_proc.context_providers
    pub has_id : (i : ℕ) → i < e.rule_mgr.current_index → HasEntry i e.key_proc.rule_ids
    pub has_ttl : (i : ℕ) → i < e.rule_mgr.current_index → HasEntry i e.rule_lock_ttls
    pub known :
        (n pointer i : ℕ) (rule : DynamicRule)
        → In (pointer, (rule, i)) (rules_at n e.rule_mgr.rules_by_slash_count)
        → i < e.rule_mgr.current_index

  pub new_v3_engine-IsRegistered :
      (opts : EngineOptions F Provider Metrics)
      → IsRegistered (new_v3_engine {Callback = Callback} opts)
  unfolding new_v3_engine rules_at nat_lookup
  new_v3_engine-IsRegistered opts = record {
    shared = refl;
    has_pattern = λ i h. absurd (omega arith);
    has_callback = λ i h. absurd (omega arith);
    has_provider = λ i h. absurd (omega arith);
    has_id = λ i h. absurd (omega arith);
    has_ttl = λ i h. absurd (omega arith);
    known = λ n pointer i rule j. absurd j;
  }

  pub add_rule_inv :
      (pointer : ℕ) (rule : DynamicRule) (lock_pattern : Text) (callback : Callback)
      (options : List (RuleOption Provider)) (e : Engine F Provider Metrics Callback)
      {e' : Engine F Provider Metrics Callback}
      → add_rule pointer rule lock_pattern callback options e ≡ some e'
      → register e.rule_mgr.current_index lock_pattern callback
          (make_rule_options options)
          (file_in_manager pointer rule e)
        ≡ e'
  unfolding add_rule
  add_rule_inv pointer rule lock_pattern callback options e h =
      elim (Bool-cases (text_eq (make_rule_options options).rule_id default_rule_id)) [
        | inl missing ↦ absurd (ground arith)
        | inr given ↦ ground arith
      ]

  -- `addRule` keeps every rule that the key processor can find registered, and registers the new one.
  pub add_rule-IsRegistered :
      (pointer : ℕ) (rule : DynamicRule) (lock_pattern : Text) (callback : Callback)
      (options : List (RuleOption Provider)) (e e' : Engine F Provider Metrics Callback)
      → IsRegistered e
      → add_rule pointer rule lock_pattern callback options e ≡ some e'
      → IsRegistered e'
  unfolding add_rule
  add_rule-IsRegistered pointer rule lock_pattern callback options e e' r h =
      let n = e.rule_mgr.current_index in
      rw (sym (add_rule_inv pointer rule lock_pattern callback options e h)) (record {
        shared = refl;
        has_pattern = kept_entry n lock_pattern e.key_proc.lock_key_patterns r.has_pattern;
        has_callback = kept_entry n callback e.key_proc.callbacks r.has_callback;
        has_provider = kept_entry n _ e.key_proc.context_providers r.has_provider;
        has_id = kept_entry n _ e.key_proc.rule_ids r.has_id;
        has_ttl = kept_entry n _ e.rule_lock_ttls r.has_ttl;
        known = λ k p i rule' j.
            elim (In-file_rule pointer rule n (get_patterns rule) e.rule_mgr.rules_by_slash_count k
              (p, (rule', i)) j) [
                | inl x ↦
                    let same : i ≡ n = ap (λ (q : ℕ × (DynamicRule × ℕ)). q.1.1) x in omega arith
                | inr old ↦ let lt = r.known k p i rule' old in omega arith
              ];
      })

  -- In an engine whose rules are registered, `processKey` sends every rule found for the key that holds
  -- in the store, where the cached reads are the store's: none is without a lock key pattern.
  pub process_key-IsRegistered :
      (e : Engine F Provider Metrics Callback) (api : ReadApi) (store : Store) (metadata : Map Text)
      (get_cached_api : List Text → Result ReadApi) (key : Text) (value : Option Text)
      (works : List (Work Callback Provider)) (rule : StaticRule) (index : ℕ)
      → IsRegistered e
      → get_cached_api (keys_of (get_static_rules key value e.key_proc.rm)) ≡ ok api
      → Serves api store (keys_of (get_static_rules key value e.key_proc.rm))
      → process_key e.key_proc get_cached_api key value metadata ≡ some works
      → In (rule, index) (get_static_rules key value e.key_proc.rm)
      → holds rule store ≡ true
      → (w : Work Callback Provider) × In w works × (w.rule ≡ rule) × (w.rule_index ≡ index)
  unfolding get_static_rules
  process_key-IsRegistered e api store metadata get_cached_api key value works rule index r a h p i
        t =
      let (pointer, dynamic, filed) =
        static_rules_of-filed e.key_proc.rm.enhanced_rule_filter key value
          (rules_at (count slash key) e.key_proc.rm.rules_by_slash_count) (rule, index) i in
      let (pattern, found) =
        r.has_pattern index
          (r.known (count slash key) pointer index dynamic (rw (r.shared) at filed)) in
      process_key_complete e.key_proc api store metadata get_cached_api key value works rule index
        pattern a h p i t found
