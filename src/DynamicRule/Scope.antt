-- ===== src/DynamicRule/Scope.antt =====
-- rules/dynamic_rule.go: the keys and the attributes of the static rules that a key gives rise to.
use go_etcd_rules.Base.{
  true, false, ◌≡◌, ◌≢◌, refl, sym, ap, ap₂, ◌∙◌, List, [], ◌∷◌, ◌++◌, map, Option, none, some,
  Text, arith, All, All-append, map_some, map_some_inv,
}
use go_etcd_rules.Matcher.{KeyMatcher, Attributes, Output, format_path, format_with_attributes}
use go_etcd_rules.StaticRule.{
  StaticRule, StaticRules, and_rule, or_rule, not_rule, nil, cons, get_keys, all_keys,
  get_attributes, first_attributes,
}
use go_etcd_rules.DynamicRule.{
  RuleFactory, compare_literal_factory, equals_factory, new_rule, DynamicRule, DynamicRules, leaf,
  and_dynamic, or_dynamic, not_dynamic, empty, more, Made, make_leaf, keys_from_attributes,
  static_rule_from_attributes, static_rules_from_attributes, cons_rule, made_by, negate_made,
  cons_key, compound_rule, make_static_rule, valid_attributes,
}

-- No compound rule is without nested rules.
abbrev mutual
  pub HasLeaves : DynamicRule → Type 0
  HasLeaves (leaf krp) = Unit
  HasLeaves (and_dynamic rules patterns prefixes) = (rules ≢ empty) × AllHaveLeaves rules
  HasLeaves (or_dynamic rules patterns prefixes) = (rules ≢ empty) × AllHaveLeaves rules
  HasLeaves (not_dynamic rule) = HasLeaves rule

  pub AllHaveLeaves : DynamicRules → Type 0
  AllHaveLeaves empty = Unit
  AllHaveLeaves (more rule rules) = HasLeaves rule × AllHaveLeaves rules

get_attributes-new_rule :
    (factory : RuleFactory) (ks : List Text) (attr : Attributes)
    → get_attributes (new_rule factory ks attr) ≡ some attr
unfolding get_attributes new_rule
get_attributes-new_rule (compare_literal_factory comparator) [] attr = refl
get_attributes-new_rule (compare_literal_factory comparator) (k ∷ ks) attr = refl
get_attributes-new_rule equals_factory ks attr = refl

-- Inversion of the step that builds the rules of a compound rule.
pub cons_rule_inv :
    (o : Option StaticRule) (os : Option StaticRules) {rules : StaticRules}
    → cons_rule o os ≡ some rules
    → (first : StaticRule) × (rest : StaticRules) × (o ≡ some first)
      × (os ≡ some rest)
      × (rules ≡ cons first rest)
cons_rule_inv none os e = cc
cons_rule_inv (some first) none e = cc
cons_rule_inv (some first) (some rest) e = (first, rest, refl, refl, ground arith)

mutual
  unfolding static_rule_from_attributes get_attributes

  from_attributes :
      (rule : DynamicRule) (attr : Attributes) {made : StaticRule}
      → HasLeaves rule
      → static_rule_from_attributes rule attr ≡ some made
      → get_attributes made ≡ some attr
  from_attributes (leaf krp) attr h e =
      let (ks, found, same) = map_some_inv _ (keys_from_attributes krp.matchers attr) e in
      rw same (get_attributes-new_rule krp.factory ks attr)
  from_attributes (and_dynamic rules patterns prefixes) attr h e =
      let (nested, made_nested, same) = map_some_inv and_rule _ e in
      rw same (first_from_attributes rules attr h.0 h.1 made_nested)
  from_attributes (or_dynamic rules patterns prefixes) attr h e =
      let (nested, made_nested, same) = map_some_inv or_rule _ e in
      rw same (first_from_attributes rules attr h.0 h.1 made_nested)
  from_attributes (not_dynamic rule) attr h e =
      let (nested, made_nested, same) = map_some_inv not_rule _ e in
      rw same (from_attributes rule attr h made_nested)

  first_from_attributes :
      (rules : DynamicRules) (attr : Attributes) {made : StaticRules}
      → rules ≢ empty
      → AllHaveLeaves rules
      → static_rules_from_attributes rules attr ≡ some made
      → first_attributes made ≡ some attr
  first_from_attributes empty attr ne h e = absurd (ne refl)
  first_from_attributes (more rule rules) attr ne h e =
      let (first, rest, made_first, made_rest, same) = cons_rule_inv _ _ e in
      rw same (from_attributes rule attr h.0 made_first)

from_compound :
    (f : StaticRules → StaticRule) (rules : DynamicRules) (o : Option Attributes) {made : Made}
    → ((nested : StaticRules) → get_attributes (f nested) ≡ first_attributes nested)
    → rules ≢ empty
    → AllHaveLeaves rules
    → compound_rule o (λ a. map_some f (static_rules_from_attributes rules a)) ≡ some made
    → get_attributes made.0 ≡ some made.1
from_compound f rules none law ne h e = cc
from_compound f rules (some a) law ne h e =
    let (rule, found, same) = map_some_inv _ _ e in
    let (nested, found', same') = map_some_inv f _ found in
    rw (same, same') (law nested ∙ first_from_attributes rules a ne h found')

made_attributes :
    (rule : DynamicRule) (key : Text) (value : Option Text) {made : Made}
    → HasLeaves rule
    → make_static_rule rule key value ≡ some made
    → get_attributes made.0 ≡ some made.1
unfolding make_static_rule make_leaf get_attributes
made_attributes (leaf krp) key value h e =
    let (m, found, same) = map_some_inv (made_by krp) _ e in
    rw same (get_attributes-new_rule krp.factory _ _)
made_attributes (and_dynamic rules patterns prefixes) key value h e =
    from_compound and_rule rules (valid_attributes rules key value) (λ nested. refl) h.0 h.1 e
made_attributes (or_dynamic rules patterns prefixes) key value h e =
    from_compound or_rule rules (valid_attributes rules key value) (λ nested. refl) h.0 h.1 e
made_attributes (not_dynamic rule) key value h e =
    let (nested, found, same) = map_some_inv negate_made _ e in
    rw same (made_attributes rule key value h found)

-- The static rule that a key gives rise to carries the attributes that were found with it, where
-- no compound rule is without nested rules: `getAttributes` then never indexes an empty list.
pub make_static_rule-get_attributes :
    (rule : DynamicRule) (key : Text) (value : Option Text) (made : StaticRule) (attr : Attributes)
    → HasLeaves rule
    → make_static_rule rule key value ≡ some (made, attr)
    → get_attributes made ≡ some attr
make_static_rule-get_attributes rule key value made attr h e =
    made_attributes rule key value {made = (made, attr)} h e

-- A literal rule has one pattern, as its constructors give it.
abbrev IsFormed : RuleFactory → List KeyMatcher → Type 0
IsFormed (compare_literal_factory comparator) [] = ⊥
IsFormed (compare_literal_factory comparator) (m ∷ []) = Unit
IsFormed (compare_literal_factory comparator) (m ∷ m' ∷ ms) = ⊥
IsFormed equals_factory ms = Unit

abbrev mutual
  pub HasForm : DynamicRule → Type 0
  HasForm (leaf krp) = IsFormed krp.factory krp.matchers
  HasForm (and_dynamic rules patterns prefixes) = AllHaveForm rules
  HasForm (or_dynamic rules patterns prefixes) = AllHaveForm rules
  HasForm (not_dynamic rule) = HasForm rule

  pub AllHaveForm : DynamicRules → Type 0
  AllHaveForm empty = Unit
  AllHaveForm (more rule rules) = HasForm rule × AllHaveForm rules

-- The patterns of the leaves of a rule, in order.
abbrev mutual
  pub leaf_patterns : DynamicRule → List Text
  leaf_patterns (leaf krp) = map (λ m. m.pattern) krp.matchers
  leaf_patterns (and_dynamic rules patterns prefixes) = all_leaf_patterns rules
  leaf_patterns (or_dynamic rules patterns prefixes) = all_leaf_patterns rules
  leaf_patterns (not_dynamic rule) = leaf_patterns rule

  pub all_leaf_patterns : DynamicRules → List Text
  all_leaf_patterns empty = []
  all_leaf_patterns (more rule rules) = leaf_patterns rule ++ all_leaf_patterns rules

cons_key_inv :
    (out : Output) (rest : Option (List Text)) {ks : List Text}
    → cons_key out rest ≡ some ks
    → (ks' : List Text) × (rest ≡ some ks') × (ks ≡ out.0 ∷ ks') × (out.1 ≡ true)
cons_key_inv (key, false) rest e = cc
cons_key_inv (key, true) rest e =
    let (ks', found, same) = map_some_inv (λ ks. key ∷ ks) rest e in (ks', found, same, refl)

-- Some keys are some patterns formatted with attributes that bind every name in them.
abbrev pub AreFormatted : Attributes → List Text → List Text → Type 0
AreFormatted attr patterns ks =
    (ks ≡ map (λ p. format_with_attributes p attr) patterns)
    × All (λ p. (format_path p attr).1 ≡ true) patterns

module _ (attr : Attributes) where
  keys_from_attributes_lem :
      (ms : List KeyMatcher) {ks : List Text}
      → keys_from_attributes ms attr ≡ some ks
      → AreFormatted attr (map (λ m. m.pattern) ms) ks
  unfolding keys_from_attributes format_with_attributes
  keys_from_attributes_lem [] e = (ground arith, tt)
  keys_from_attributes_lem (m ∷ ms) e =
      let (ks', rest, same, bound) = cons_key_inv (format_path m.pattern attr) _ e in
      let (later, all_bound) = keys_from_attributes_lem ms rest in
      (same ∙ ap (λ l. (format_path m.pattern attr).0 ∷ l) later, (bound, all_bound))

  map-append_text : (f : Text → Text) (xs ys : List Text) → map f (xs ++ ys) ≡ map f xs ++ map f ys
  map-append_text f [] ys = refl
  map-append_text f (x ∷ xs) ys = ap (λ l. f x ∷ l) (map-append_text f xs ys)

  AreFormatted-append :
      (ps qs ks ls : List Text)
      → AreFormatted attr ps ks
      → AreFormatted attr qs ls
      → AreFormatted attr (ps ++ qs) (ks ++ ls)
  AreFormatted-append ps qs ks ls (same, bound) (same', bound') =
      (ap₂ ◌++◌ same same' ∙ sym (map-append_text _ ps qs), All-append _ ps qs bound bound')

  get_keys-new_rule :
      (factory : RuleFactory) (ms : List KeyMatcher) (ks : List Text)
      → IsFormed factory ms
      → AreFormatted attr (map (λ m. m.pattern) ms) ks
      → AreFormatted attr (map (λ m. m.pattern) ms) (get_keys (new_rule factory ks attr))
  unfolding get_keys new_rule
  get_keys-new_rule (compare_literal_factory comparator) [] ks w f = absurd w
  get_keys-new_rule (compare_literal_factory comparator) (m ∷ []) [] w f = absurd (cc (f.0))
  get_keys-new_rule (compare_literal_factory comparator) (m ∷ []) (k ∷ []) w f = f
  get_keys-new_rule (compare_literal_factory comparator) (m ∷ []) (k ∷ k' ∷ ks) w f =
      absurd (cc (f.0))
  get_keys-new_rule (compare_literal_factory comparator) (m ∷ m' ∷ ms) ks w f = absurd w
  get_keys-new_rule equals_factory ms ks w f = f

nil_inv : {rules : StaticRules} → some nil ≡ some rules → rules ≡ nil
nil_inv e = ground arith

mutual
  unfolding static_rule_from_attributes get_keys

  formatted_rule :
      (rule : DynamicRule) (attr : Attributes) {made : StaticRule}
      → HasForm rule
      → static_rule_from_attributes rule attr ≡ some made
      → AreFormatted attr (leaf_patterns rule) (get_keys made)
  formatted_rule (leaf krp) attr h e =
      let (ks, found, same) = map_some_inv _ (keys_from_attributes krp.matchers attr) e in
      rw same (
        get_keys-new_rule attr krp.factory krp.matchers ks h
          (keys_from_attributes_lem attr krp.matchers found))
  formatted_rule (and_dynamic rules patterns prefixes) attr h e =
      let (nested, found, same) = map_some_inv and_rule _ e in
      rw same (formatted_rules rules attr h found)
  formatted_rule (or_dynamic rules patterns prefixes) attr h e =
      let (nested, found, same) = map_some_inv or_rule _ e in
      rw same (formatted_rules rules attr h found)
  formatted_rule (not_dynamic rule) attr h e =
      let (nested, found, same) = map_some_inv not_rule _ e in
      rw same (formatted_rule rule attr h found)

  formatted_rules :
      (rules : DynamicRules) (attr : Attributes) {made : StaticRules}
      → AllHaveForm rules
      → static_rules_from_attributes rules attr ≡ some made
      → AreFormatted attr (all_leaf_patterns rules) (all_keys made)
  formatted_rules empty attr h e = rw (nil_inv e) (refl, tt)
  formatted_rules (more rule rules) attr h e =
      let (first, rest, found, found', same) = cons_rule_inv _ _ e in
      rw same (
        AreFormatted-append attr (leaf_patterns rule) (all_leaf_patterns rules) (get_keys first)
          (all_keys rest) (formatted_rule rule attr h.0 found)
          (formatted_rules rules attr h.1 found'))

-- The static rule that attributes make has as keys the patterns of its leaves, formatted with the
-- attributes, and the attributes bind every name in them.
pub static_rule_from_attributes-AreFormatted :
    (rule : DynamicRule) (attr : Attributes) (made : StaticRule)
    → HasForm rule
    → static_rule_from_attributes rule attr ≡ some made
    → AreFormatted attr (leaf_patterns rule) (get_keys made)
static_rule_from_attributes-AreFormatted rule attr made h e = formatted_rule rule attr h e
