-- ===== src/Engine/Polling.antt =====
-- rules/engine.go: the rule of a polling, before and after its callback.
use go_etcd_rules.Base.{
  ℕ, ◌≡◌, refl, sym, ap, ◌∙◌, inl, inr, Bool, true, false, ◌&&◌, List, [], ◌∷◌, Option, none, some,
  Text, Result, ok, Error, map_some, map_some_inv, Option-cases, Result-cases, arith,
}
use go_etcd_rules.Regex.{compile}
use go_etcd_rules.Matcher.{
  Attributes, format_with_attributes, format_path, Output, KeyMatcher, get_prefix,
  new_regex_key_matcher, parse_path,
}
use go_etcd_rules.StaticRule.{StaticRule, StaticRules, and_rule, nil, cons, new_equals_comparator}
use go_etcd_rules.StaticRule.Evaluation.{Store, holds}
use go_etcd_rules.DynamicRule.{
  DynamicRule, empty, more, leaf, LeafRule, compare_literal_factory, new_matchers, new_dynamic_rule,
  new_compare_literal_rule, new_equals_literal_rule, new_and_rule, new_rule, cons_rule, cons_key,
  keys_from_attributes, static_rule_from_attributes,
}
use go_etcd_rules.DynamicRule.Scope.{cons_rule_inv}
use go_etcd_rules.Engine.{ttl_path_pattern, polling_rule, Leases, put_with, do_rule}

abbrev pub is_none : Option Text → Bool
is_none none = true
is_none (some v) = false

key_matcher-pattern : (p : Text) {m : KeyMatcher} → new_regex_key_matcher p ≡ ok m → m.pattern ≡ p
unfolding new_regex_key_matcher
key_matcher-pattern p e = elim (Option-cases (compile (parse_path p).regex)) [
  | inl stuck ↦ absurd (ground arith)
  | inr (r, found) ↦ ground arith
]

one_key : (out : Output) {ks : List Text} → cons_key out (some []) ≡ some ks → ks ≡ out.0 ∷ []
one_key (k, false) e = cc
one_key (k, true) e = ground arith

module _ (comparator : Option Text → Bool) (p rep : Text) where
  abbrev literal_leaf : KeyMatcher → LeafRule
  literal_leaf m = record {
    factory = compare_literal_factory comparator;
    matchers = m ∷ [];
    patterns = p ∷ [];
    prefixes = get_prefix m ∷ [];
    attributes = [];
    rep = rep;
  }

  literal_inv :
      {rule : DynamicRule}
      → new_dynamic_rule (compare_literal_factory comparator) (p ∷ []) rep [] ≡ ok rule
      → (m : KeyMatcher) × (m.pattern ≡ p) × (rule ≡ leaf (literal_leaf m))
  unfolding new_dynamic_rule new_matchers
  literal_inv e = elim (Result-cases (new_regex_key_matcher p)) [
    | inl (x, failed) ↦ absurd (ground arith)
    | inr (m, made) ↦ (m, key_matcher-pattern p made, ground arith)
  ]

  -- A rule on one pattern, made from attributes, tests the value of the pattern formatted with them.
  literal-holds :
      (m : KeyMatcher) (attr : Attributes) (store : Store) {made : StaticRule}
      → m.pattern ≡ p
      → static_rule_from_attributes (leaf (literal_leaf m)) attr ≡ some made
      → holds made store ≡ comparator (store (format_with_attributes p attr))
  unfolding static_rule_from_attributes new_rule holds format_with_attributes
  literal-holds m attr store is e =
      let (ks, found, same) = map_some_inv _ (keys_from_attributes (m ∷ []) attr) e in
      let one = one_key (format_path m.pattern attr) found in rw (same, one, is)

nil_inv : {rules : StaticRules} → some nil ≡ some rules → nil ≡ rules
nil_inv e = ground arith

null_holds : (o : Option Text) → new_equals_comparator none o ≡ is_none o
unfolding new_equals_comparator
null_holds none = refl
null_holds (some v) = refl

ttl_rule-holds :
    (p : Text) (rule : DynamicRule) (attr : Attributes) (made : StaticRule) (store : Store)
    → new_equals_literal_rule p none ≡ ok rule
    → static_rule_from_attributes rule attr ≡ some made
    → holds made store ≡ is_none (store (format_with_attributes p attr))
unfolding new_equals_literal_rule new_compare_literal_rule
ttl_rule-holds p rule attr made store is e =
    let (m, on, same) = literal_inv (new_equals_comparator none) p _ is in
    literal-holds (new_equals_comparator none) p _ m attr store on (rw same at e) ∙ null_holds _

pair-holds :
    (a b : StaticRule) (store : Store)
    → holds (and_rule (cons a (cons b nil))) store ≡ (holds a store && holds b store)
unfolding holds
pair-holds a b store = ground arith

and_false : (b : Bool) → b && false ≡ false
and_false b = ground arith

-- Made from attributes, the rule of a polling holds exactly where its preconditions hold and the key
-- of its time to live has no value.
polling_rule-holds :
    (namespace_pattern : Text) (preconditions rule : DynamicRule) (attr : Attributes)
    (made : StaticRule)
    → polling_rule namespace_pattern preconditions ≡ ok rule
    → static_rule_from_attributes rule attr ≡ some made
    → (first : StaticRule) × (static_rule_from_attributes preconditions attr ≡ some first)
      × ((store : Store)
          → holds made store
            ≡ holds first store
              && is_none (store (format_with_attributes (ttl_path_pattern namespace_pattern) attr)))
unfolding polling_rule new_and_rule static_rule_from_attributes holds
polling_rule-holds namespace_pattern preconditions rule attr made is e =
    let ttl = ttl_path_pattern namespace_pattern in
    elim (Result-cases (new_equals_literal_rule ttl none)) [
      | inl (x, failed) ↦ absurd (ground arith)
      | inr (ttl_rule, made_ttl) ↦
          let rule_is : new_and_rule (more preconditions (more ttl_rule empty)) ≡ rule =
            ground arith in
          let e' : map_some and_rule (
                cons_rule (static_rule_from_attributes preconditions attr)
                  (cons_rule (static_rule_from_attributes ttl_rule attr) (some nil)))
              ≡ some made =
            rw (sym rule_is) at e in
          let (nested, built, same) = map_some_inv and_rule _ e' in
          let (first, others, pre_made, rest_made, nested_is) = cons_rule_inv _ _ built in
          let (second, none_left, ttl_made, nil_made, others_is) = cons_rule_inv _ _ rest_made in
          let made_is : made ≡ and_rule (cons first (cons second nil)) =
            same
            ∙ ap and_rule (
                nested_is
                ∙ ap (cons first) (others_is ∙ ap (cons second) (sym (nil_inv nil_made)))) in
          (
            first,
            pre_made,
            λ store.
                ap (λ (r : StaticRule). holds r store) made_is
                ∙ pair-holds first second store
                ∙ ap (λ b. holds first store && b)
                    (ttl_rule-holds ttl ttl_rule attr second store made_ttl ttl_made),
          )
    ]

-- What etcd documents: a put that reports no error sets the value.
abbrev pub PutsValue : {S : Type 0} → Leases S → (S → Store) → Type 0
PutsValue {S} leases contents =
    (key value : Text) (lease : ℕ) (s s' : S)
    → leases.put key value lease s ≡ (none, s')
    → contents s' key ≡ some value

put_with-some :
    {S : Type 0} (leases : Leases S) (contents : S → Store) (path : Text) (lease : ℕ) (s1 s2 : S)
    (granted : Result ℕ × S)
    → PutsValue leases contents
    → granted ≡ (ok lease, s1)
    → leases.put path [] lease s1 ≡ (none, s2)
    → contents (put_with leases path granted) path ≡ some []
put_with-some {S} leases contents path lease s1 s2 granted puts g p =
    rw g (ap (λ (r : Option Error × S). contents r.1 path) p ∙ puts path [] lease s1 s2 p)

-- Once the callback of a polling has run, and the lease was granted and the key put without an error,
-- the rule of the polling does not hold, whatever its preconditions.
pub do_rule-polling_rule :
    {S : Type 0} (leases : Leases S) (contents : S → Store) (callback : Attributes → S → S)
    (namespace_pattern : Text) (preconditions rule : DynamicRule) (attr : Attributes)
    (made : StaticRule) (ttl lease : ℕ) (s s1 s2 : S)
    → PutsValue leases contents
    → polling_rule namespace_pattern preconditions ≡ ok rule
    → static_rule_from_attributes rule attr ≡ some made
    → leases.grant ttl (callback attr s) ≡ (ok lease, s1)
    → leases.put (format_with_attributes (ttl_path_pattern namespace_pattern) attr) [] lease s1
      ≡ (none, s2)
    → holds made
        (contents (do_rule leases callback ttl (ttl_path_pattern namespace_pattern) attr s))
      ≡ false
unfolding do_rule
do_rule-polling_rule leases contents callback namespace_pattern preconditions rule attr made ttl
      lease s s1 s2 puts is e g p =
    let path = format_with_attributes (ttl_path_pattern namespace_pattern) attr in
    let (first, pre_made, law) =
      polling_rule-holds namespace_pattern preconditions rule attr made is e in
    let set = put_with-some leases contents path lease s1 s2 _ puts g p in
    law _ ∙ rw set (and_false _)
