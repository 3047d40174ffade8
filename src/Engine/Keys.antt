-- ===== src/Engine/Keys.antt =====
-- rules/engine.go: the keys that the patterns of a rule stand for are watched.
use go_etcd_rules.Base.{
  ◌≡◌, refl, ap, ◌∙◌, inl, inr, Bool, true, List, [], ◌∷◌, ◌++◌, Option, none, Text, lookup, cut,
  has_prefix, Bool-cases, In, In-append_left, In-append_right, In-append_cases, arith,
}
use go_etcd_rules.Matcher.{
  colon, Attributes, KeyMatcher, get_prefix, find_attribute, format_with_attributes,
}
use go_etcd_rules.Matcher.Segments.{Segment, literal, param, segments, render, format_path_lem}
use go_etcd_rules.DynamicRule.{
  DynamicRule, DynamicRules, leaf, and_dynamic, or_dynamic, not_dynamic, empty, more,
}
use go_etcd_rules.RuleManager.{matcher_prefixes, leaf_prefixes, rule_prefixes, nested_prefixes}
use go_etcd_rules.Lock.{RuleLocker}
use go_etcd_rules.Etcd.{EtcdKv}
use go_etcd_rules.Engine.{Engine}
use go_etcd_rules.Engine.Run.{run}
use go_etcd_rules.Engine.Coverage.{Built, watched, run-watched}

cut-has_prefix :
    (w t s : Text)
    → has_prefix (cut colon t).0 s ≡ true
    → has_prefix (cut colon (w ++ t)).0 (w ++ s) ≡ true
unfolding cut has_prefix
cut-has_prefix [] t s h = h
cut-has_prefix (c ∷ w) t s h = ground (arith, cut-has_prefix w t s h)

-- The part of a path before its first colon is kept, whatever the names after it become.
render-has_prefix :
    (f : Text → Option Text) (segs : List Segment)
    → has_prefix (cut colon (render (λ name. none) segs)).0 (render f segs) ≡ true
unfolding cut has_prefix render
render-has_prefix f [] = refl
render-has_prefix f (literal w ∷ segs) = cut-has_prefix w _ _ (render-has_prefix f segs)
render-has_prefix f (param name ∷ segs) = refl

-- A pattern that begins with a slash, ends with none and has no two slashes in a row.
abbrev pub IsCanonical : Text → Type 0
IsCanonical pattern = pattern ≡ render (λ name. none) (segments pattern)

get_prefix-has_prefix :
    (m : KeyMatcher) (attr : Attributes)
    → IsCanonical m.pattern
    → has_prefix (get_prefix m) (format_with_attributes m.pattern attr) ≡ true
unfolding get_prefix format_with_attributes
get_prefix-has_prefix m attr canonical =
    let segs = segments m.pattern in
    ap (λ w. has_prefix (cut colon w).0 (format_with_attributes m.pattern attr)) canonical
    ∙ ap (λ (r : Text × Bool). has_prefix (cut colon (render (λ name. none) segs)).0 r.0)
        (format_path_lem m.pattern attr)
    ∙ render-has_prefix (find_attribute attr) segs

-- The matchers of the leaves of a rule.
unfoldable mutual
  pub matchers_of : DynamicRule → List KeyMatcher
  matchers_of (leaf krp) = krp.matchers
  matchers_of (and_dynamic rules patterns prefixes) = all_matchers rules
  matchers_of (or_dynamic rules patterns prefixes) = all_matchers rules
  matchers_of (not_dynamic rule) = matchers_of rule

  pub all_matchers : DynamicRules → List KeyMatcher
  all_matchers empty = []
  all_matchers (more rule rules) = matchers_of rule ++ all_matchers rules

In-leaf_prefixes :
    (m : KeyMatcher) (ms : List KeyMatcher) → In m ms → In (get_prefix m) (leaf_prefixes [] ms)
unfolding leaf_prefixes matcher_prefixes lookup
In-leaf_prefixes m [] i = absurd i
In-leaf_prefixes m (km ∷ ms) (inl e) =
    In-append_left (get_prefix m) (matcher_prefixes [] km) (leaf_prefixes [] ms) (own km m e)
  where
    own : (km m : KeyMatcher) → m ≡ km → In (get_prefix m) (matcher_prefixes [] km)
    own km m e = elim (Bool-cases (cut colon km.pattern).2) [
      | inl named ↦ rw (e, named) (inl refl)
      | inr fixed ↦ rw (e, fixed) (inl refl)
    ]
In-leaf_prefixes m (km ∷ ms) (inr i) =
    In-append_right (get_prefix m) (matcher_prefixes [] km) (leaf_prefixes [] ms)
      (In-leaf_prefixes m ms i)

mutual
  unfolding rule_prefixes nested_prefixes matchers_of all_matchers

  In-rule_prefixes :
      (m : KeyMatcher) (rule : DynamicRule)
      → In m (matchers_of rule)
      → In (get_prefix m) (rule_prefixes [] rule)
  In-rule_prefixes m (leaf krp) i = In-leaf_prefixes m krp.matchers i
  In-rule_prefixes m (and_dynamic rules patterns prefixes) i = In-nested_prefixes m rules i
  In-rule_prefixes m (or_dynamic rules patterns prefixes) i = In-nested_prefixes m rules i
  In-rule_prefixes m (not_dynamic rule) i = In-rule_prefixes m rule i

  In-nested_prefixes :
      (m : KeyMatcher) (rules : DynamicRules)
      → In m (all_matchers rules)
      → In (get_prefix m) (nested_prefixes [] rules)
  In-nested_prefixes m empty i = absurd i
  In-nested_prefixes m (more rule rules) i =
      elim (In-append_cases m (matchers_of rule) (all_matchers rules) i) [
        | inl here ↦
            In-append_left (get_prefix m) (rule_prefixes [] rule) (nested_prefixes [] rules)
              (In-rule_prefixes m rule here)
        | inr later ↦
            In-append_right (get_prefix m) (rule_prefixes [] rule) (nested_prefixes [] rules)
              (In-nested_prefixes m rules later)
      ]

module _ {F Provider Metrics Callback S : Type 0} (kv : EtcdKv S) (locker : RuleLocker S)
    (is_stopping : S → Bool × S) (process_key : Text → Option Text → S → S)
    (e : Engine F Provider Metrics Callback) where
  -- In an engine without constraints that rules were added to, whatever the attributes, the key that
  -- they give for a pattern of any leaf of one of the rules is below the prefix of one watcher and of
  -- no other, and the crawler reads below that prefix too, where the pattern begins with a slash, ends
  -- with none and has no two in a row.
  pub run-watched_key :
      (rule : DynamicRule) (m : KeyMatcher) (attr : Attributes)
      → Built e
      → e.rule_mgr.constraints ≡ []
      → In rule e.rule_mgr.rules
      → In m (matchers_of rule)
      → IsCanonical m.pattern
      → (q : Text) × In q (watched kv locker is_stopping process_key e)
        × (has_prefix q (format_with_attributes m.pattern attr) ≡ true)
        × In q (run e kv locker is_stopping process_key).crawler.prefixes
        × ((other : Text)
            → In other (watched kv locker is_stopping process_key e)
            → has_prefix other (format_with_attributes m.pattern attr) ≡ true
            → other ≡ q)
  run-watched_key rule m attr b unconstrained i j canonical =
      run-watched kv locker is_stopping process_key e rule (get_prefix m)
        (format_with_attributes m.pattern attr) b i (rw unconstrained (In-rule_prefixes m rule j))
        (get_prefix-has_prefix m attr canonical)
