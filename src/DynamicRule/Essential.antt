-- ===== src/DynamicRule/Essential.antt =====
-- rules/dynamic_rule.go: the leaf rules without which a rule cannot be true, found by evaluating
-- the rule under every assignment of truth values to its leaves, and the patterns worth crawling.
pub mod Assignments
pub mod Exact
use go_etcd_rules.Base.{
  Bool, true, false, not, ◌&&◌, ◌||◌, List, [], ◌∷◌, ◌++◌, Option, none, some, Text, codes, text_eq,
  if◌then◌else◌, Map, lookup, insert, delete, keys, has_suffix,
}
use go_etcd_rules.DynamicRule.{
  DynamicRule, DynamicRules, leaf, and_dynamic, or_dynamic, not_dynamic, empty, more,
  remove_duplicates, get_patterns,
}

-- `values[rep]`, where a missing key reads as false.
unfoldable pub value_at : Map Bool → Text → Bool
value_at values rep = elim (lookup rep values) [ none ↦ false | some b ↦ b ]

unfoldable mutual
  pub get_leaf_representations : DynamicRule → List Text
  get_leaf_representations (leaf krp) = krp.rep ∷ []
  get_leaf_representations (and_dynamic rules patterns prefixes) =
      remove_duplicates (nested_representations rules)
  get_leaf_representations (or_dynamic rules patterns prefixes) =
      remove_duplicates (nested_representations rules)
  get_leaf_representations (not_dynamic rule) = remove_duplicates (get_leaf_representations rule)

  pub nested_representations : DynamicRules → List Text
  nested_representations empty = []
  nested_representations (more rule rules) =
      get_leaf_representations rule ++ nested_representations rules

-- The loops of `evaluate` run with the result so far.
unfoldable mutual
  pub evaluate : DynamicRule → Map Bool → Bool
  evaluate (leaf krp) values = value_at values krp.rep
  evaluate (and_dynamic rules patterns prefixes) values = evaluate_and rules values true
  evaluate (or_dynamic rules patterns prefixes) values = evaluate_or rules values false
  evaluate (not_dynamic rule) values = not (evaluate rule values)

  pub evaluate_and : DynamicRules → Map Bool → Bool → Bool
  evaluate_and empty values result = result
  evaluate_and (more rule rules) values result =
      evaluate_and rules values (result && evaluate rule values)

  pub evaluate_or : DynamicRules → Map Bool → Bool → Bool
  evaluate_or empty values result = result
  evaluate_or (more rule rules) values result =
      evaluate_or rules values (result || evaluate rule values)

-- `processBooleanMap`: the maps that it hands to `proc`, in order.
unfoldable pub process_boolean_map : List Text → Map Bool → Bool → List (Map Bool)
process_boolean_map [] parent value = []
process_boolean_map (key ∷ []) parent value = insert key value parent ∷ []
process_boolean_map (key ∷ key' ∷ rest) parent value =
    let child = insert key value parent in
    process_boolean_map (key' ∷ rest) child false ++ process_boolean_map (key' ∷ rest) child true

-- The inner loop of `proc`: leaves that are false in a satisfying assignment are not essential.
unfoldable pub clear_false : List Text → Map Bool → Map Bool → Map Bool
clear_false [] values must = must
clear_false (rep ∷ reps) values must =
    clear_false reps values (if value_at values rep then must else insert rep false must)

unfoldable pub process : DynamicRule → List Text → List (Map Bool) → Map Bool → Map Bool
unfolding clear_false
process rule reps [] must = must
process rule reps (values ∷ rest) must =
    process rule reps rest (if evaluate rule values then clear_false reps values must else must)

unfoldable pub all_true : List Text → Map Bool → Map Bool
all_true [] must = must
all_true (rep ∷ reps) must = all_true reps (insert rep true must)

unfoldable pub keep_true : Map Bool → List Text → List Text
keep_true must [] = []
keep_true must (rep ∷ reps) =
    let rest = keep_true must reps in if value_at must rep then rep ∷ rest else rest

-- Both values of the first key, as the loop over `[]bool{false, true}` has them.
unfoldable pub assignments : List Text → List (Map Bool)
unfolding process_boolean_map
assignments reps = process_boolean_map reps [] false ++ process_boolean_map reps [] true

unfoldable pub get_essential_representations : DynamicRule → List Text
unfolding process all_true keep_true assignments
get_essential_representations rule =
    let reps = get_leaf_representations rule in
    keep_true (process rule reps (assignments reps) (all_true reps [])) reps

-- `getLeafRepresentationPatternMap`
unfoldable pub add_patterns : Map (List Text) → Map (List Text) → Map (List Text)
add_patterns [] out = out
add_patterns ((k, v) ∷ rest) out =
    add_patterns rest
      (insert k ((elim (lookup k out) [ none ↦ [] | some patterns ↦ patterns ]) ++ v) out)

abbrev dedupe_all : Map (List Text) → Map (List Text)
dedupe_all [] = []
dedupe_all ((k, v) ∷ rest) = (k, remove_duplicates v) ∷ dedupe_all rest

unfoldable mutual
  pub leaf_pattern_map : DynamicRule → Map (List Text)
  leaf_pattern_map (leaf krp) = (krp.rep, krp.patterns) ∷ []
  leaf_pattern_map (and_dynamic rules patterns prefixes) = dedupe_all (nested_pattern_map rules [])
  leaf_pattern_map (or_dynamic rules patterns prefixes) = dedupe_all (nested_pattern_map rules [])
  leaf_pattern_map (not_dynamic rule) = dedupe_all (add_patterns (leaf_pattern_map rule) [])

  pub nested_pattern_map : DynamicRules → Map (List Text) → Map (List Text)
  nested_pattern_map empty out = out
  nested_pattern_map (more rule rules) out =
      nested_pattern_map rules (add_patterns (leaf_pattern_map rule) out)

unfoldable pub delete_all : List Text → Map Bool → Map Bool
delete_all [] patterns = patterns
delete_all (pattern ∷ rest) patterns = delete_all rest (delete pattern patterns)

-- The loop of `getCrawlerPatterns` over the essential leaves.
unfoldable pub drop_nil : List Text → Map (List Text) → Map Bool → Map Bool
unfolding delete_all
drop_nil [] mappings patterns = patterns
drop_nil (rep ∷ reps) mappings patterns =
    let mapped : List Text = elim (lookup rep mappings) [ none ↦ [] | some ps ↦ ps ] in
    drop_nil reps mappings
      (if has_suffix (codes "<nil>") rep then delete_all mapped patterns else patterns)

unfoldable pub get_crawler_patterns : DynamicRule → List Text
unfolding drop_nil all_true
get_crawler_patterns rule = keys (
    drop_nil (get_essential_representations rule) (leaf_pattern_map rule)
      (all_true (get_patterns rule) []))
