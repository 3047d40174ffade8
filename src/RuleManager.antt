-- ===== src/RuleManager.antt =====
-- rules/rule_manager.go, rules/constraint.go and the constraints of rules/matcher.go: the rules of
-- an engine by the number of slashes in their patterns, and the prefixes to watch.
pub mod Sorting
pub mod Prefixes
pub mod Lookup
pub mod Combined
mod Tests
use go_etcd_rules.Base.{
  ℕ, zero, suc, ◌+◌, Bool, true, false, ◌||◌, List, [], ◌∷◌, ◌++◌, map, Option, none, some, Text,
  ltb, if◌then◌else◌, count, cut, has_prefix, length, get_elem?, set, Map, lookup, NatMap,
  nat_lookup, nat_insert,
}
use go_etcd_rules.Matcher.{slash, colon, KeyMatcher, get_prefix}
use go_etcd_rules.StaticRule.{StaticRule, QuadState, q_true, q_maybe, satisfiable, q_satisfiable}
use go_etcd_rules.DynamicRule.{
  DynamicRule, DynamicRules, leaf, and_dynamic, or_dynamic, not_dynamic, empty, more, get_patterns,
  make_static_rule, remove_duplicates,
}

-- A rune is the text that `string(char)` makes of it.
pub record Constraint : Type 0 where
  pub prefix : Text
  pub chars : List (List Text)

-- The inner loop of `buildPrefixesFromConstraint`, which appends what each character gives.
unfoldable pub each_char : List Text → (Text → List Text) → List Text
each_char [] build = []
each_char (char ∷ rest) build = build char ++ each_char rest build

-- `buildPrefixesFromConstraint`, by the sets of characters that are left. With no set at all
-- `chars[0]` would panic.
unfoldable pub build_prefixes : Text → List (List Text) → List Text
unfolding each_char
build_prefixes base [] = []
build_prefixes base (my_chars ∷ []) = each_char my_chars (λ char. (base ++ char) ∷ [])
build_prefixes base (my_chars ∷ more_chars ∷ rest) =
    each_char my_chars (λ char. build_prefixes (base ++ char) (more_chars ∷ rest))

unfoldable pub matcher_prefixes : Map Constraint → KeyMatcher → List Text
matcher_prefixes constraints rkm =
    let (before, after, found) = cut colon rkm.pattern in
    let constrained : List Text = elim (lookup (cut slash after).0 constraints) [
      | none ↦ get_prefix rkm ∷ []
      | some constr ↦ build_prefixes (before ++ constr.prefix) constr.chars
    ] in
    if found then constrained else get_prefix rkm ∷ []

unfoldable pub leaf_prefixes : Map Constraint → List KeyMatcher → List Text
leaf_prefixes constraints [] = []
leaf_prefixes constraints (km ∷ rest) =
    matcher_prefixes constraints km ++ leaf_prefixes constraints rest

-- `getPrefixesWithConstraints`
unfoldable mutual
  unfolding leaf_prefixes matcher_prefixes

  pub rule_prefixes : Map Constraint → DynamicRule → List Text
  rule_prefixes constraints (leaf krp) = leaf_prefixes constraints krp.matchers
  rule_prefixes constraints (and_dynamic rules patterns prefixes) =
      nested_prefixes constraints rules
  rule_prefixes constraints (or_dynamic rules patterns prefixes) = nested_prefixes constraints rules
  rule_prefixes constraints (not_dynamic rule) = rule_prefixes constraints rule

  pub nested_prefixes : Map Constraint → DynamicRules → List Text
  nested_prefixes constraints empty = []
  nested_prefixes constraints (more rule rules) =
      rule_prefixes constraints rule ++ nested_prefixes constraints rules

-- A read in range.
abbrev pub read : Option Text → Text
read none = []
read (some x) = x

unfoldable pub at : List Text → ℕ → Text
at out j = read (get_elem? out j)

-- The inner loop of `sortPrefixesByLength`, where `j + 1` places are left to look at.
unfoldable pub shift : List Text → Text → ℕ → List Text
shift out x zero = set out 0 x
shift out x (suc j) =
    let further = shift (set out (suc j) (at out j)) x j in
    if ltb (length x) (length (at out j)) then further else set out (suc j) x

-- The outer loop, with the rounds that are left.
unfoldable pub sort_rounds : ℕ → ℕ → List Text → List Text
unfolding shift at
sort_rounds zero i out = out
sort_rounds (suc n) i out = sort_rounds n (i + 1) (shift out (at out i) i)

unfoldable pub sort_prefixes_by_length : List Text → List Text
unfolding sort_rounds
sort_prefixes_by_length prefixes = elim prefixes [
  | [] ↦ []
  | p ∷ ps ↦ sort_rounds (length ps) 1 (p ∷ ps)
]

-- The inner loop of `reducePrefixes`: whether some prefix in `out` is a prefix of this one.
unfoldable pub has_shorter : Text → List Text → Bool
has_shorter prefix [] = false
has_shorter prefix (added_prefix ∷ out) = has_prefix added_prefix prefix || has_shorter prefix out

-- The loop of `reducePrefixes` over the sorted prefixes; `out` is a set.
unfoldable pub reduce_from : List Text → List Text → List Text
unfolding has_shorter
reduce_from [] out = out
reduce_from (prefix ∷ sorted) out =
    reduce_from sorted (if has_shorter prefix out then out else prefix ∷ out)

unfoldable pub reduce_prefixes : List Text → List Text
unfolding reduce_from sort_prefixes_by_length
reduce_prefixes prefixes = reduce_from (sort_prefixes_by_length prefixes) []

-- A rule is known by its pointer, the first number; the second is its index.
abbrev pub RuleSet : Type 0
RuleSet = NatMap (DynamicRule × ℕ)

pub record RuleManager : Type 0 where
  pub constraints : Map Constraint
  pub current_index : ℕ
  pub rules_by_slash_count : NatMap RuleSet
  pub prefixes : List Text
  pub rules : List DynamicRule
  pub enhanced_rule_filter : Bool

unfoldable pub new_rule_manager : Map Constraint → Bool → RuleManager
new_rule_manager constraints enhanced = record {
  constraints = constraints;
  current_index = 0;
  rules_by_slash_count = [];
  prefixes = [];
  rules = [];
  enhanced_rule_filter = enhanced;
}

abbrev pub rules_or_empty : Option RuleSet → RuleSet
rules_or_empty none = []
rules_or_empty (some rules) = rules

unfoldable pub rules_at : ℕ → NatMap RuleSet → RuleSet
rules_at n m = rules_or_empty (nat_lookup n m)

-- The loop of `addRule` over the patterns.
unfoldable pub file_rule : ℕ → DynamicRule → ℕ → List Text → NatMap RuleSet → NatMap RuleSet
file_rule pointer rule index [] m = m
file_rule pointer rule index (pattern ∷ rest) m =
    let n = count slash pattern in
    file_rule pointer rule index rest
      (nat_insert n (nat_insert pointer (rule, index) (rules_at n m)) m)

-- The new manager, and the index of the rule.
unfoldable pub add_rule : ℕ → DynamicRule → RuleManager → RuleManager × ℕ
unfolding file_rule reduce_prefixes rules_at
add_rule pointer rule rm = (
  record rm {
    rules = rm.rules ++ rule ∷ [];
    rules_by_slash_count =
        file_rule pointer rule rm.current_index (get_patterns rule) rm.rules_by_slash_count;
    prefixes =
        reduce_prefixes (remove_duplicates (rm.prefixes ++ rule_prefixes rm.constraints rule));
    current_index = rm.current_index + 1;
  },
  rm.current_index,
)

unfoldable pub passes : QuadState → Bool
passes q_true = true
passes q_maybe = true
passes _ = false

-- The two filters of `getStaticRules`.
unfoldable pub concerns : Bool → StaticRule → Text → Option Text → Bool
unfolding passes
concerns true rule key value = passes (q_satisfiable rule key value)
concerns false rule key value = satisfiable rule key value

abbrev pub keep_concerned :
    Bool
    → Text
    → Option Text
    → Option StaticRule
    → ℕ
    → List (StaticRule × ℕ)
    → List (StaticRule × ℕ)
keep_concerned enhanced key value none index rest = rest
keep_concerned enhanced key value (some rule) index rest =
    if concerns enhanced rule key value then (rule, index) ∷ rest else rest

abbrev pub made_rule : DynamicRule → Text → Option Text → Option StaticRule
made_rule rule key value = elim (make_static_rule rule key value) [
  | none ↦ none
  | some (made, attr) ↦ some made
]

unfoldable pub static_rules_of : Bool → Text → Option Text → RuleSet → List (StaticRule × ℕ)
unfolding concerns
static_rules_of enhanced key value [] = []
static_rules_of enhanced key value ((pointer, (rule, index)) ∷ rest) =
    keep_concerned enhanced key value (made_rule rule key value) index
      (static_rules_of enhanced key value rest)

unfoldable pub get_static_rules : Text → Option Text → RuleManager → List (StaticRule × ℕ)
unfolding static_rules_of rules_at
get_static_rules key value rm =
    static_rules_of rm.enhanced_rule_filter key value
      (rules_at (count slash key) rm.rules_by_slash_count)

-- The loop of `combineRuleData`.
unfoldable pub crawl_guides : List DynamicRule → (DynamicRule → List Text) → List Text
crawl_guides [] source = []
crawl_guides (rule ∷ rules) source = source rule ++ crawl_guides rules source

unfoldable pub combine_rule_data : List DynamicRule → (DynamicRule → List Text) → List Text
unfolding crawl_guides
combine_rule_data rules source = remove_duplicates (crawl_guides rules source)
