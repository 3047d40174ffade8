-- ===== src/Engine/Coverage.antt =====
-- rules/engine.go: which watcher sees a key of a rule.
use go_etcd_rules.Base.{
  ℕ, ◌≡◌, refl, sym, ap, ◌⊎◌, inl, inr, Bool, true, List, [], ◌∷◌, ◌++◌, map, Option, none, some,
  Text, In, In-append_cases, has_prefix, Option-cases, arith,
}
use go_etcd_rules.DynamicRule.{DynamicRule, remove_duplicates}
use go_etcd_rules.DynamicRule.Expand.{ValueMap, Expanded, expand}
use go_etcd_rules.RuleManager
use go_etcd_rules.RuleManager.{rule_prefixes, reduce_prefixes}
use go_etcd_rules.RuleManager.Prefixes.{IsCovered, IsReduced, reduce_prefixes-IsReduced}
use go_etcd_rules.RuleManager.Combined.{add_rule-IsCovered}
use go_etcd_rules.Lock.{RuleLocker}
use go_etcd_rules.Etcd.{EtcdKv}
use go_etcd_rules.Options.{EngineOptions, RuleOption, make_rule_options}
use go_etcd_rules.Engine.{
  Engine, new_v3_engine, add_rule, add_rules, add_rule_with_iface, add_expanded_rules, register,
  file_in_manager,
}
use go_etcd_rules.Engine.Registration.{add_rule_inv}
use go_etcd_rules.Engine.Run.{make_watchers, new_int_crawler, run}

-- Of two prefixes of a text one begins with the other.
prefixes_compare :
    (p q s : Text)
    → has_prefix p s ≡ true
    → has_prefix q s ≡ true
    → (has_prefix p q ≡ true) ⊎ (has_prefix q p ≡ true)
unfolding has_prefix
prefixes_compare [] q s h h' = inl refl
prefixes_compare (c ∷ p) [] s h h' = inr refl
prefixes_compare (c ∷ p) (d ∷ q) [] h h' = cc
prefixes_compare (c ∷ p) (d ∷ q) (x ∷ s) h h' = ground (arith, prefixes_compare p q s)

IsReduced-unique :
    (out : List Text) (p q s : Text)
    → IsReduced out
    → In p out
    → In q out
    → has_prefix p s ≡ true
    → has_prefix q s ≡ true
    → p ≡ q
IsReduced-unique out p q s r i j h h' = elim (prefixes_compare p q s h h') [
  | inl below ↦ r p q i j below
  | inr above ↦ sym (r q p j i above)
]

has_prefix_trans :
    (p q s : Text) → has_prefix p q ≡ true → has_prefix q s ≡ true → has_prefix p s ≡ true
unfolding has_prefix
has_prefix_trans [] q s h h' = refl
has_prefix_trans (c ∷ p) [] s h h' = cc
has_prefix_trans (c ∷ p) (d ∷ q) [] h h' = cc
has_prefix_trans (c ∷ p) (d ∷ q) (x ∷ s) h h' = ground (arith, has_prefix_trans p q s)

expansion_cases :
    (o : Option ValueMap)
    → ((o ≡ none) ⊎ (o ≡ some []))
      ⊎ ((pair : Text × List Text) × (pairs : ValueMap) × (o ≡ some (pair ∷ pairs)))
expansion_cases none = inl (inl refl)
expansion_cases (some []) = inl (inr refl)
expansion_cases (some (pair ∷ pairs)) = inr (pair, pairs, refl)

make_watchers-prefix : (ps : List Text) → map (λ w. w.prefix) (make_watchers ps) ≡ ps
unfolding make_watchers
make_watchers-prefix [] = refl
make_watchers-prefix (p ∷ ps) = ap (λ l. p ∷ l) (make_watchers-prefix ps)

module _ {F Provider Metrics Callback : Type 0} where
  -- The engines that `addRule` makes from a new one.
  pub data Built : Engine F Provider Metrics Callback → Type 0 where
    fresh : (opts : EngineOptions F Provider Metrics) → Built (new_v3_engine opts)
    added :
        {e e' : Engine F Provider Metrics Callback}
        → Built e
        → (pointer : ℕ) (rule : DynamicRule) (lock_pattern : Text) (callback : Callback)
          (options : List (RuleOption Provider))
        → add_rule pointer rule lock_pattern callback options e ≡ some e'
        → Built e'

  add_rules-Built :
      (pointers : ℕ → ℕ) (rules : List DynamicRule) (lock_pattern : Text) (callback : Callback)
      (options : List (RuleOption Provider)) (e e' : Engine F Provider Metrics Callback)
      → Built e
      → add_rules pointers rules lock_pattern callback options e ≡ some e'
      → Built e'
  unfolding add_rules
  add_rules-Built pointers [] lock_pattern callback options e e' b h =
      let same : e ≡ e' = ground arith in rw (sym same) b
  add_rules-Built pointers (rule ∷ rules) lock_pattern callback options e e' b h =
      elim (Option-cases
        (add_rule (pointers e.rule_mgr.current_index) rule lock_pattern callback options e)) [
          | inl panics ↦ absurd (ground arith)
          | inr (e1, one) ↦
              add_rules-Built pointers rules lock_pattern callback options e1 e'
                (added b (pointers e.rule_mgr.current_index) rule lock_pattern callback options one)
                (rw (add_rules, one) at h)
        ]

  expanded-Built :
      (pointers : ℕ → ℕ) (x : Expanded) (lock_pattern : Text) (callback : Callback)
      (options : List (RuleOption Provider)) (e e' : Engine F Provider Metrics Callback)
      → Built e
      → add_expanded_rules pointers x lock_pattern callback options e ≡ some e'
      → Built e'
  expanded-Built pointers none lock_pattern callback options e e' b h = cc
  expanded-Built pointers (some (rules, expanded)) lock_pattern callback options e e' b h =
      add_rules-Built pointers rules lock_pattern callback options e e' b h

  -- `AddRule`, whether it expands the rule or not, makes such an engine too.
  add_rule_with_iface-Built :
      (fuel : ℕ) (pointers : ℕ → ℕ) (rule : DynamicRule) (lock_pattern : Text) (callback : Callback)
      (options : List (RuleOption Provider)) (e e' : Engine F Provider Metrics Callback)
      → Built e
      → add_rule_with_iface fuel pointers rule lock_pattern callback options e ≡ some e'
      → Built e'
  unfolding add_rule_with_iface
  add_rule_with_iface-Built fuel pointers rule lock_pattern callback options e e' b h =
      let alone : add_rules pointers (rule ∷ []) lock_pattern callback options e ≡ some e'
          → Built e' =
        add_rules-Built pointers (rule ∷ []) lock_pattern callback options e e' b in
      elim (expansion_cases e.options.key_expansion) [
        | inl (inl absent) ↦ alone (rw (add_rule_with_iface, absent) at h)
        | inl (inr void) ↦ alone (rw (add_rule_with_iface, void) at h)
        | inr (pair, pairs, given) ↦
            expanded-Built pointers (expand fuel rule (pair ∷ pairs)) lock_pattern callback options
              e e' b (rw (add_rule_with_iface, given) at h)
      ]

  record IsWatched (e : Engine F Provider Metrics Callback) : Type 0 where
    reduced : IsReduced e.rule_mgr.prefixes
    covers :
        (rule : DynamicRule) (p : Text)
        → In rule e.rule_mgr.rules
        → In p (rule_prefixes e.rule_mgr.constraints rule)
        → IsCovered p e.rule_mgr.prefixes

  add_rule-IsWatched :
      (e : Engine F Provider Metrics Callback) (pointer : ℕ) (rule : DynamicRule)
      (lock_pattern : Text) (callback : Callback) (options : List (RuleOption Provider))
      → IsWatched e
      → IsWatched (
          register e.rule_mgr.current_index lock_pattern callback
            (make_rule_options options)
            (file_in_manager pointer rule e))
  unfolding register file_in_manager RuleManager.add_rule
  add_rule-IsWatched e pointer rule lock_pattern callback options w =
      let covered = λ (p : Text). (add_rule-IsCovered pointer rule e.rule_mgr p).0 in
      record {
        reduced =
            reduce_prefixes-IsReduced (
              remove_duplicates (e.rule_mgr.prefixes ++ rule_prefixes e.rule_mgr.constraints rule));
        covers = λ other p i j. elim (In-append_cases other e.rule_mgr.rules (rule ∷ []) i) [
          | inl old ↦
              let (q, k, h) = w.covers other p old j in
              let (q', k', h') = covered q (inl k) in (q', k', has_prefix_trans q' q p h' h)
          | inr (inl same) ↦ covered p (inr (rw same at j))
          | inr (inr none_else) ↦ absurd none_else
        ];
      }

  Built-IsWatched : (e : Engine F Provider Metrics Callback) → Built e → IsWatched e
  unfolding new_v3_engine
  Built-IsWatched _ (fresh opts) = record {
    reduced = λ p q i j h. absurd i;
    covers = λ rule p i j. absurd i;
  }
  Built-IsWatched e' (added {e} b pointer rule lock_pattern callback options h) =
      rw (sym (add_rule_inv pointer rule lock_pattern callback options e h))
        (add_rule-IsWatched e pointer rule lock_pattern callback options (Built-IsWatched e b))

  module _ {S : Type 0} (kv : EtcdKv S) (locker : RuleLocker S) (is_stopping : S → Bool × S)
      (process_key : Text → Option Text → S → S) (e : Engine F Provider Metrics Callback) where
    abbrev pub watched : List Text
    watched = map (λ w. w.prefix) (run e kv locker is_stopping process_key).watchers

    watched-is : watched ≡ e.rule_mgr.prefixes
    unfolding run
    watched-is = make_watchers-prefix e.rule_mgr.prefixes

    -- In an engine that rules were added to, a key below a prefix of one of the rules is below the prefix
    -- of one watcher and of no other, and the crawler reads below that prefix too.
    pub run-watched :
        (rule : DynamicRule) (p key : Text)
        → Built e
        → In rule e.rule_mgr.rules
        → In p (rule_prefixes e.rule_mgr.constraints rule)
        → has_prefix p key ≡ true
        → (q : Text) × In q watched
          × (has_prefix q key ≡ true)
          × In q (run e kv locker is_stopping process_key).crawler.prefixes
          × ((other : Text) → In other watched → has_prefix other key ≡ true → other ≡ q)
    unfolding run new_int_crawler
    run-watched rule p key b i j below =
        let w = Built-IsWatched e b in
        let (q, k, h) = w.covers rule p i j in
        let above = has_prefix_trans q p key h below in
        (
          q,
          rw watched-is k,
          above,
          k,
          λ other o under.
              IsReduced-unique e.rule_mgr.prefixes other q key w.reduced (rw watched-is at o) k
                under above,
        )
