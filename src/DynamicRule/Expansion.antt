-- ===== src/DynamicRule/Expansion.antt =====
-- rules/dynamic_rule.go: what `Expand` makes of a rule on patterns, and that it ends.
use go_etcd_rules.Base.{
  ℕ, zero, suc, ◌<◌, ◌≤◌, ◌≡◌, ◌≢◌, refl, sym, ◌∙◌, inl, inr, Bool, true, false, List, [], ◌∷◌,
  ◌++◌, map, none, some, Text, text_eq, text_eq_iff, text_eq_refl, if◌then◌else◌, ok, lookup, keys,
  length, In, All, All-append, Bool-cases, Option-cases, Result-cases, arith,
}
use go_etcd_rules.Matcher.{get_prefix, format_with_attributes}
use go_etcd_rules.Matcher.Segments.{segments}
use go_etcd_rules.Matcher.Search.{params}
use go_etcd_rules.DynamicRule.{
  LeafRule, RuleFactory, DynamicRule, leaf, and_dynamic, or_dynamic, not_dynamic, new_dynamic_rule,
  new_matchers,
}
use go_etcd_rules.DynamicRule.Fixing.{
  IsFixed, fixing, format_with_attributes-params, params_from-HasParam, first_param_inv,
}
use go_etcd_rules.DynamicRule.Expand.{
  ValueMap, params_from, first_param, fix_param, expand_values, expand_leaf, expand,
}

new_dynamic_rule_inv :
    (factory : RuleFactory) (patterns : List Text) (rep : Text) (attributes : List (Text × Text))
    {rule : DynamicRule}
    → new_dynamic_rule factory patterns rep attributes ≡ ok rule
    → (k : LeafRule) × (rule ≡ leaf k) × (k.patterns ≡ patterns)
unfolding new_dynamic_rule
new_dynamic_rule_inv factory patterns rep attributes e =
    elim (Result-cases (new_matchers patterns)) [
      | inl (x, failed) ↦ absurd (ground arith)
      | inr (ms, made) ↦ (
        record {
          factory = factory;
          matchers = ms;
          patterns = patterns;
          prefixes = map get_prefix ms;
          attributes = attributes;
          rep = rep;
        },
        ground arith,
        refl,
      )
    ]

fix_param_inv :
    (krp : LeafRule) (x v : Text) {rule : DynamicRule}
    → fix_param krp x v ≡ ok rule
    → (k : LeafRule) × (rule ≡ leaf k)
      × (k.patterns ≡ map (λ p. format_with_attributes p (fixing x v)) krp.patterns)
unfolding fix_param
fix_param_inv krp x v e = new_dynamic_rule_inv krp.factory _ _ _ e

remove : Text → List Text → List Text
remove x [] = []
remove x (y ∷ ys) = let rest = remove x ys in if text_eq x y then rest else y ∷ rest

In-remove : (x y : Text) (ys : List Text) → In y ys → y ≢ x → In y (remove x ys)
unfolding remove
In-remove x y [] i different = absurd i
In-remove x y (z ∷ ys) i different = elim (Bool-cases (text_eq x z)) [
  | inl same ↦ elim i [
    | inl e ↦ absurd (different (e ∙ sym ((text_eq_iff x z).0 same)))
    | inr j ↦ rw same (In-remove x y ys j different)
  ]
  | inr other ↦ elim i [
    | inl e ↦ rw other (inl e)
    | inr j ↦ rw other (inr (In-remove x y ys j different))
  ]
]

remove-le : (x : Text) (ys : List Text) → length (remove x ys) ≤ length ys
unfolding remove
remove-le x [] = omega arith
remove-le x (y ∷ ys) = ground (arith, remove-le x ys)

remove-lt : (x : Text) (ys : List Text) → In x ys → length (remove x ys) < length ys
unfolding remove
remove-lt x [] i = absurd i
remove-lt x (y ∷ ys) (inl e) = rw (sym e, text_eq_refl x) (omega (arith, remove-le x ys))
remove-lt x (y ∷ ys) (inr i) = ground (arith, remove-lt x ys i, remove-le x ys)

-- Every value of the map can stand in a path.
abbrev pub HasFixedValues : ValueMap → Type 0
HasFixedValues vm = All (λ (pair : Text × List Text). All IsFixed pair.1) vm

HasFixedValues-at :
    (vm : ValueMap) (x : Text) (vs : List Text)
    → HasFixedValues vm
    → lookup x vm ≡ some vs
    → All IsFixed vs
unfolding lookup
HasFixedValues-at [] x vs h e = cc
HasFixedValues-at ((j, us) ∷ vm) x vs h e = elim (Bool-cases (text_eq j x)) [
  | inl same ↦
      let is : some us ≡ some vs = rw (lookup, same) at e in
      let values : us ≡ vs = cc is in rw (sym values) (h.0)
  | inr other ↦ HasFixedValues-at vm x vs h.1 (rw (lookup, other) at e)
]

-- No parameter of the rule's patterns has values in the map.
abbrev pub IsExpanded : ValueMap → DynamicRule → Type 0
IsExpanded vm (leaf k) = first_param (keys (params_from k.patterns [])) vm ≡ none
IsExpanded vm (and_dynamic rules patterns prefixes) = ⊥
IsExpanded vm (or_dynamic rules patterns prefixes) = ⊥
IsExpanded vm (not_dynamic rule) = ⊥

In-map_inv :
    (f : Text → Text) (y : Text) (xs : List Text)
    → In y (map f xs)
    → (x : Text) × In x xs × (y ≡ f x)
In-map_inv f y [] i = absurd i
In-map_inv f y (x ∷ xs) (inl e) = (x, inl refl, e)
In-map_inv f y (x ∷ xs) (inr i) = let (z, j, e) = In-map_inv f y xs i in (z, inr j, e)

module _ (vm : ValueMap) where
  -- The parameters of the patterns that have values are among some names.
  abbrev Left : List Text → List Text → Type 0
  Left ks patterns =
      (p y : Text) (vs : List Text)
      → In p patterns
      → In y (params (segments p))
      → lookup y vm ≡ some vs
      → In y ks

  Left-fixing :
      (ks patterns : List Text) (x v : Text)
      → IsFixed v
      → Left ks patterns
      → Left (remove x ks) (map (λ p. format_with_attributes p (fixing x v)) patterns)
  Left-fixing ks patterns x v hv left p y vs i j has =
      let (q, k, e) = In-map_inv (λ p. format_with_attributes p (fixing x v)) p patterns i in
      let (old, different) = format_with_attributes-params x v q y hv (rw e at j) in
      In-remove x y ks (left q y vs k old has) different

  -- `Expand` returns, with rules that are all expanded.
  Expands : ℕ → DynamicRule → Type 0
  Expands f rule =
      (rules : List DynamicRule) × (expanded : Bool) × (expand f rule vm ≡ some (rules, expanded))
      × All (IsExpanded vm) rules

  expand_values-IsExpanded :
      (f : ℕ) (krp : LeafRule) (x : Text) (vs : List Text)
      → ((v : Text) (rule : DynamicRule) → In v vs → fix_param krp x v ≡ ok rule → Expands f rule)
      → (rules : List DynamicRule) × (expand_values (expand f) krp x vs vm ≡ some rules)
        × All (IsExpanded vm) rules
  unfolding expand_values Expands
  expand_values-IsExpanded f krp x [] each = ([], refl, tt)
  expand_values-IsExpanded f krp x (v ∷ vs) each =
      let (later, others, h) =
        expand_values-IsExpanded f krp x vs (λ w rule i e. each w rule (inr i) e) in
      elim (Result-cases (fix_param krp x v)) [
        | inl (failure, failed) ↦ (later, rw (expand_values, failed) others, h)
        | inr (rule, made) ↦
            let (rules, expanded, returns, h') = each v rule (inl refl) made in
            (
              rules ++ later,
              rw (expand_values, made, returns, others) refl,
              All-append (IsExpanded vm) rules later h' h,
            )
      ]

  In-value-IsFixed : (v : Text) (vs : List Text) → All IsFixed vs → In v vs → IsFixed v
  In-value-IsFixed v [] h i = absurd i
  In-value-IsFixed v (w ∷ vs) h (inl e) = rw e (h.0)
  In-value-IsFixed v (w ∷ vs) h (inr i) = In-value-IsFixed v vs h.1 i

  expand-Expands :
      (f : ℕ) (krp : LeafRule) (ks : List Text)
      → HasFixedValues vm
      → Left ks krp.patterns
      → length ks < f
      → Expands f (leaf krp)
  unfolding expand expand_leaf Expands
  expand-Expands zero krp ks fixed left lt = absurd (omega (arith, lt))
  expand-Expands (suc f) krp ks fixed left lt =
      elim (Option-cases (first_param (keys (params_from krp.patterns [])) vm)) [
        | inl done ↦ (leaf krp ∷ [], false, rw (expand, expand_leaf, done) refl, (done, tt))
        | inr ((x, vs), found) ↦
            let (there, has) = first_param_inv _ vm x vs found in
            let in_ks : In x ks = elim (params_from-HasParam krp.patterns [] x there) [
              | inl (p, i, j) ↦ left p x vs i j has
              | inr none_else ↦ absurd none_else
            ] in
            let (rules, returns, h) = expand_values-IsExpanded f krp x vs (λ v rule i made.
              let (k, is, patterns) = fix_param_inv krp x v made in
              let hv = In-value-IsFixed v vs (HasFixedValues-at vm x vs fixed has) i in
              let still : Left (remove x ks) k.patterns =
                rw patterns (Left-fixing ks krp.patterns x v hv left) in
              rw is (
                expand-Expands f k (remove x ks) fixed still
                  (omega (arith, remove-lt x ks in_ks, lt)))) in
            (rules, true, rw (expand, expand_leaf, found, returns) refl, h)
      ]

In-keys : (k : Text) (m : ValueMap) (vs : List Text) → lookup k m ≡ some vs → In k (keys m)
unfolding lookup
In-keys k [] vs e = cc
In-keys k ((j, w) ∷ m) vs e = elim (Bool-cases (text_eq j k)) [
  | inl same ↦ inl (sym ((text_eq_iff j k).0 same))
  | inr other ↦ inr (In-keys k m vs (rw (lookup, other) at e))
]

-- Where every value can stand in a path, and the fuel is more than the number of the map's keys,
-- `Expand` of a rule on patterns returns, and no parameter with values is left in any of its rules.
pub expand-IsExpanded :
    (vm : ValueMap) (krp : LeafRule) (f : ℕ)
    → HasFixedValues vm
    → length (keys vm) < f
    → (rules : List DynamicRule) × (expanded : Bool) × (expand f (leaf krp) vm
        ≡ some (rules, expanded))
      × All (IsExpanded vm) rules
unfolding Expands
expand-IsExpanded vm krp f fixed enough =
    expand-Expands vm f krp (keys vm) fixed (λ p y vs i j has. In-keys y vm vs has) enough
