-- ===== src/RuleManager/Lookup.antt =====
-- rules/rule_manager.go: what `getStaticRules` returns, and where `addRule` files a rule.
use go_etcd_rules.Base.{
  ℕ, ◌+◌, ◌≡◌, ◌⊎◌, refl, sym, ap, ◌∙◌, inl, inr, Bool, true, false, List, [], ◌∷◌, Option, none,
  some, Text, arith, ◌==◌, ==_iff, if◌then◌else◌, Bool-cases, count, In, NatMap, nat_lookup,
  nat_insert, nat_lookup-insert,
}
use go_etcd_rules.Matcher.{slash}
use go_etcd_rules.StaticRule.{StaticRule, QuadState, satisfiable, q_satisfiable, get_keys}
use go_etcd_rules.StaticRule.Filters.{
  HasKeys, satisfiable_iff, satisfiable-key_match_rule, concerned, concerned-q_satisfiable,
}
use go_etcd_rules.DynamicRule.{DynamicRule, get_patterns}
use go_etcd_rules.RuleManager.{
  RuleSet, RuleManager, rules_or_empty, rules_at, file_rule, add_rule, passes, concerns,
  keep_concerned, made_rule, static_rules_of, get_static_rules,
}

passes-concerned : (st : QuadState) → passes st ≡ true → concerned st ≡ true
unfolding passes
passes-concerned st h = ground arith

concerns-satisfiable :
    (enhanced : Bool) (rule : StaticRule) (key : Text) (value : Option Text)
    → concerns enhanced rule key value ≡ true
    → satisfiable rule key value ≡ true
unfolding concerns
concerns-satisfiable false rule key value h = h
concerns-satisfiable true rule key value h =
    satisfiable-key_match_rule rule key value
    ∙ sym (concerned-q_satisfiable rule key value)
    ∙ passes-concerned (q_satisfiable rule key value) h

module _ (key : Text) (value : Option Text) where
  basic :
      (rule : StaticRule) → satisfiable rule key value ≡ true → concerns false rule key value ≡ true
  unfolding concerns
  basic rule h = h

module _ (key : Text) (value : Option Text) (p : StaticRule × ℕ) where
  keep_inv :
      (enhanced : Bool) (o : Option StaticRule) (index : ℕ) (rest : List (StaticRule × ℕ))
      → In p (keep_concerned enhanced key value o index rest)
      → (In p rest)
        ⊎ ((rule : StaticRule) × (o ≡ some rule)
            × (p ≡ (rule, index))
            × (concerns enhanced rule key value ≡ true))
  keep_inv enhanced none index rest h = inl h
  keep_inv enhanced (some rule) index rest h =
      elim (Bool-cases (concerns enhanced rule key value)) [
        | inr drop ↦ inl (rw drop at h)
        | inl keep ↦ elim (kept keep) [ inl e ↦ inr (rule, refl, e, keep) | inr k ↦ inl k ]
      ]
    where
      kept : concerns enhanced rule key value ≡ true → (p ≡ (rule, index)) ⊎ In p rest
      kept keep = rw keep at h

  static_rules_of-concerns :
      (enhanced : Bool) (rules : RuleSet)
      → In p (static_rules_of enhanced key value rules)
      → concerns enhanced p.0 key value ≡ true
  unfolding static_rules_of
  static_rules_of-concerns enhanced [] h = absurd h
  static_rules_of-concerns enhanced ((pointer, (rule, index)) ∷ rest) h =
      elim (keep_inv enhanced (made_rule rule key value) index _ h) [
        | inl k ↦ static_rules_of-concerns enhanced rest k
        | inr (made, found, same, keep) ↦ rw same keep
      ]

  keep_all :
      (o : Option StaticRule) (index : ℕ) (rest rest' : List (StaticRule × ℕ))
      → (In p rest → In p rest')
      → In p (keep_concerned true key value o index rest)
      → In p (keep_concerned false key value o index rest')
  keep_all none index rest rest' ih h = ih h
  keep_all (some rule) index rest rest' ih h = elim (Bool-cases (concerns false rule key value)) [
    | inl keep ↦ elim (keep_inv true (some rule) index rest h) [
      | inl k ↦ rw keep (inr (ih k))
      | inr (made, found, same, _) ↦ rw keep (inl (same ∙ ap (λ r. (r, index)) (some_made found)))
    ]
    | inr drop ↦ elim (keep_inv true (some rule) index rest h) [
      | inl k ↦ rw drop (ih k)
      | inr (made, found, same, pass) ↦
          let sat = concerns-satisfiable true made key value pass in
          let sat' : concerns false rule key value ≡ true =
            basic key value rule (rw (some_made found) at sat) in
          absurd (ground arith)
    ]
  ]
    where
      some_made : {made : StaticRule} → some rule ≡ some made → made ≡ rule
      some_made e = ground arith

  static_rules_of_all :
      (rules : RuleSet)
      → In p (static_rules_of true key value rules)
      → In p (static_rules_of false key value rules)
  unfolding static_rules_of
  static_rules_of_all [] h = h
  static_rules_of_all ((pointer, (rule, index)) ∷ rest) h =
      keep_all (made_rule rule key value) index _ _ (static_rules_of_all rest) h

-- Under either filter, a rule is returned for a key only if the key is one of the rule's own keys.
pub get_static_rules-In_keys :
    (rm : RuleManager) (key : Text) (value : Option Text) (rule : StaticRule) (index : ℕ)
    → HasKeys rule
    → In (rule, index) (get_static_rules key value rm)
    → In key (get_keys rule)
unfolding get_static_rules
get_static_rules-In_keys rm key value rule index h i =
    let pass =
      static_rules_of-concerns key value (rule, index) rm.enhanced_rule_filter
        (rules_at (count slash key) rm.rules_by_slash_count) i in
    (satisfiable_iff rule key value h).0
      (concerns-satisfiable rm.enhanced_rule_filter rule key value pass)

-- The enhanced filter returns only rules that the basic filter returns too.
pub get_static_rules_enhanced :
    (rm : RuleManager) (key : Text) (value : Option Text) (p : StaticRule × ℕ)
    → In p (get_static_rules key value (record rm { enhanced_rule_filter = true }))
    → In p (get_static_rules key value (record rm { enhanced_rule_filter = false }))
unfolding get_static_rules
get_static_rules_enhanced rm key value p i =
    static_rules_of_all key value p (rules_at (count slash key) rm.rules_by_slash_count) i

-- Whether some pattern has a given number of slashes.
abbrev pub has_count : ℕ → List Text → Bool
has_count n [] = false
has_count n (pattern ∷ rest) = if count slash pattern == n then true else has_count n rest

nat_lookup_at :
    (n k pointer : ℕ) (rules : RuleSet) (m : NatMap RuleSet)
    → nat_lookup pointer (rules_at n (nat_insert k rules m))
      ≡ (if k == n then nat_lookup pointer rules else nat_lookup pointer (rules_at n m))
unfolding rules_at
nat_lookup_at n k pointer rules m =
    ap (λ o. nat_lookup pointer (rules_or_empty o)) (nat_lookup-insert k n rules m)
    ∙ elim (Bool-cases (k == n)) [ inl same ↦ rw same | inr other ↦ rw other ]

pick :
    {A : Type 0} (b c d : Bool) (x y z : A) {o : A}
    → o ≡ (if c then (if d then x else y) else z)
    → (c ≡ true → y ≡ z)
    → (if b then (if d then x else o) else o)
      ≡ (if (if c then true else b) then (if d then x else z) else z)
pick true true true x y z e h = refl
pick true true false x y z e h = e ∙ h refl
pick true false true x y z e h = refl
pick true false false x y z e h = e
pick false true true x y z e h = e
pick false true false x y z e h = e ∙ h refl
pick false false d x y z e h = e

module _ (pointer : ℕ) (rule : DynamicRule) (index : ℕ) where
  filed_cases :
      (m : NatMap RuleSet) (b : Bool) (n k q : ℕ) {o : Option (DynamicRule × ℕ)}
      → o ≡ (
          if k == n
          then (if pointer == q then some (rule, index) else nat_lookup q (rules_at k m))
          else nat_lookup q (rules_at n m))
      → (if b then (if pointer == q then some (rule, index) else o) else o) ≡ (
          if (if k == n then true else b)
          then (if pointer == q then some (rule, index) else nat_lookup q (rules_at n m))
          else nat_lookup q (rules_at n m))
  filed_cases m b n k q e =
      pick b (k == n) (pointer == q) _ _ _ e
        (λ same. ap (λ i. nat_lookup q (rules_at i m)) ((==_iff k n).0 same))

  file_rule_lem :
      (patterns : List Text) (m : NatMap RuleSet) (n q : ℕ)
      → nat_lookup q (rules_at n (file_rule pointer rule index patterns m)) ≡ (
          if has_count n patterns
          then (if pointer == q then some (rule, index) else nat_lookup q (rules_at n m))
          else nat_lookup q (rules_at n m))
  unfolding file_rule
  file_rule_lem [] m n q = refl
  file_rule_lem (p ∷ ps) m n q =
      let k = count slash p in
      let filed = nat_insert pointer (rule, index) (rules_at k m) in
      file_rule_lem ps (nat_insert k filed m) n q
      ∙ filed_cases m (has_count n ps) n k q (
          nat_lookup_at n k q filed m
          ∙ ap (λ o. if k == n then o else nat_lookup q (rules_at n m))
              (nat_lookup-insert pointer q (rule, index) (rules_at k m)))

-- After `addRule`, a rule stands with its index at the slash count of each of its patterns, and no
-- other pointer's entry has changed; the index returned is the counter, which grows by one.
add_rule_lem :
    (pointer : ℕ) (rule : DynamicRule) (rm : RuleManager) (n q : ℕ)
    → ((add_rule pointer rule rm).1 ≡ rm.current_index)
      × ((add_rule pointer rule rm).0.current_index ≡ rm.current_index + 1)
      × (nat_lookup q (rules_at n (add_rule pointer rule rm).0.rules_by_slash_count) ≡ (
          if has_count n (get_patterns rule)
          then (if pointer == q
              then some (rule, rm.current_index)
              else nat_lookup q (rules_at n rm.rules_by_slash_count))
          else nat_lookup q (rules_at n rm.rules_by_slash_count)))
unfolding add_rule
add_rule_lem pointer rule rm n q = (
  refl,
  refl,
  file_rule_lem pointer rule rm.current_index (get_patterns rule) rm.rules_by_slash_count n q,
)
