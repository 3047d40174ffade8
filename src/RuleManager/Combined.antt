-- ===== src/RuleManager/Combined.antt =====
-- rules/rule_manager.go: `combineRuleData`, and the prefixes that `addRule` leaves to be watched.
use go_etcd_rules.Base.{
  ℕ, ◌↔◌, ◌⊎◌, refl, sym, inl, inr, List, [], ◌∷◌, ◌++◌, Text, In, In-append_left, In-append_right,
  In-append_cases,
}
use go_etcd_rules.DynamicRule.{DynamicRule, remove_duplicates}
use go_etcd_rules.DynamicRule.Essential.Assignments.{In-remove_duplicates, In-unique_from_inv}
use go_etcd_rules.RuleManager.{
  RuleManager, add_rule, rule_prefixes, crawl_guides, combine_rule_data,
}
use go_etcd_rules.RuleManager.Prefixes.{IsCovered, reduce_prefixes-IsCovered}

In-remove_duplicates_inv : (x : Text) (xs : List Text) → In x (remove_duplicates xs) → In x xs
unfolding remove_duplicates
In-remove_duplicates_inv x xs i = elim (In-unique_from_inv x xs [] i) [
  | inl j ↦ j
  | inr j ↦ absurd j
]

abbrev pub Source : List DynamicRule → (DynamicRule → List Text) → Text → Type 0
Source rules source x = (rule : DynamicRule) × In rule rules × In x (source rule)

crawl_guides_sound :
    (rules : List DynamicRule) (source : DynamicRule → List Text) (x : Text)
    → In x (crawl_guides rules source)
    → Source rules source x
unfolding crawl_guides
crawl_guides_sound [] source x i = absurd i
crawl_guides_sound (rule ∷ rules) source x i =
    elim (In-append_cases x (source rule) (crawl_guides rules source) i) [
      | inl j ↦ (rule, inl refl, j)
      | inr j ↦ let (r, n, k) = crawl_guides_sound rules source x j in (r, inr n, k)
    ]

crawl_guides_complete :
    (rules : List DynamicRule) (source : DynamicRule → List Text) (x : Text) (r : DynamicRule)
    → In r rules
    → In x (source r)
    → In x (crawl_guides rules source)
unfolding crawl_guides
crawl_guides_complete [] source x r i j = absurd i
crawl_guides_complete (rule ∷ rules) source x r (inl e) j =
    In-append_left x (source rule) (crawl_guides rules source) (rw (sym e) j)
crawl_guides_complete (rule ∷ rules) source x r (inr i) j =
    In-append_right x (source rule) (crawl_guides rules source)
      (crawl_guides_complete rules source x r i j)

-- `combineRuleData` collects what the source gives for some rule, and nothing else.
pub combine_rule_data_iff :
    (rules : List DynamicRule) (source : DynamicRule → List Text) (x : Text)
    → In x (combine_rule_data rules source) ↔ Source rules source x
unfolding combine_rule_data
combine_rule_data_iff rules source x = (
  λ i. crawl_guides_sound rules source x (In-remove_duplicates_inv x (crawl_guides rules source) i),
  λ (r, i, j).
      In-remove_duplicates x (crawl_guides rules source)
        (crawl_guides_complete rules source x r i j),
)

-- After `addRule`, every prefix that was watched and every prefix of the new rule begins with a
-- watched prefix, and each watched prefix is one of these.
pub add_rule-IsCovered :
    (pointer : ℕ) (rule : DynamicRule) (rm : RuleManager) (p : Text)
    → ((In p rm.prefixes ⊎ In p (rule_prefixes rm.constraints rule))
        → IsCovered p (add_rule pointer rule rm).0.prefixes)
      × (In p (add_rule pointer rule rm).0.prefixes
          → In p rm.prefixes ⊎ In p (rule_prefixes rm.constraints rule))
unfolding add_rule
add_rule-IsCovered pointer rule rm p =
    let both = rm.prefixes ++ rule_prefixes rm.constraints rule in
    let (covers, among) = reduce_prefixes-IsCovered (remove_duplicates both) in
    (
      λ h. covers p (
          In-remove_duplicates p both (elim h [
            | inl i ↦ In-append_left p rm.prefixes (rule_prefixes rm.constraints rule) i
            | inr i ↦ In-append_right p rm.prefixes (rule_prefixes rm.constraints rule) i
          ])),
      λ i.
          In-append_cases p rm.prefixes (rule_prefixes rm.constraints rule)
            (In-remove_duplicates_inv p both (among p i)),
    )
