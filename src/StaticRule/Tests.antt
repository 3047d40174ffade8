-- ===== src/StaticRule/Tests.antt =====
-- rules/static_rule.go: the theorems at the rule that "/a" is set and "/b" is not.
use go_etcd_rules.Base.{
  ◌∙◌, ap, not, sym, Bool, true, false, ◌≡◌, ◌≢◌, refl, inl, inr, sym, ◌∙◌, ◌||◌, text_eq_iff,
  Bool-cases, [], Option, none, some, Text, codes, text_eq, ok, if◌then◌else◌,
}
use go_etcd_rules.Matcher.{Attributes, map_attributes}
use go_etcd_rules.StaticRule.{
  StaticRule, compare_literal, and_rule, not_rule, nil, cons, ReadApi, satisfied, key_match,
  get_keys, q_satisfiable,
}
use go_etcd_rules.StaticRule.Evaluation.{Store, holds, satisfied-holds}
use go_etcd_rules.StaticRule.ReadOnce.{IsReadOnce, speaks_for, q_satisfiable_complete}
use go_etcd_rules.StaticRule.Missed.{exactly_one, exactly_one_missed}

abbrev a_key : Text
a_key = codes "/a"

abbrev b_key : Text
b_key = codes "/b"

abbrev is_set : Option Text → Bool
is_set none = false
is_set (some value) = true

abbrev no_attributes : Attributes
no_attributes = map_attributes []

abbrev a_without_b : StaticRule
a_without_b = and_rule (
    cons (compare_literal no_attributes a_key is_set)
      (cons (not_rule (compare_literal no_attributes b_key is_set)) nil))

abbrev only_a : Store
only_a key = if text_eq key a_key then some (codes "1") else none

abbrev only_a_api : ReadApi
only_a_api key = ok (only_a key)

satisfied-holds_example : satisfied a_without_b only_a_api ≡ ok (holds a_without_b only_a)
unfolding get_keys
satisfied-holds_example = satisfied-holds a_without_b only_a_api only_a (refl, (refl, tt))

a_not_b : text_eq a_key b_key ≡ false
unfolding text_eq
a_not_b = refl

a_key≢b_key : a_key ≢ b_key
a_key≢b_key e = let same = (text_eq_iff a_key b_key).1 e in cc (sym same ∙ a_not_b)

b_other : (k : Text) → text_eq a_key k ≡ true → text_eq b_key k || false ≡ false
b_other k h = elim (Bool-cases (text_eq b_key k)) [
  | inl e ↦ absurd (a_key≢b_key ((text_eq_iff a_key k).0 h ∙ sym ((text_eq_iff b_key k).0 e)))
  | inr e ↦ rw e
]

a_without_b-IsReadOnce : IsReadOnce a_without_b
unfolding key_match
a_without_b-IsReadOnce = (λ e. cc, (tt, b_other, (tt, (λ k h. refl), tt)))

a_without_b-holds : holds a_without_b only_a ≡ true
unfolding holds text_eq
a_without_b-holds = refl

q_satisfiable_complete_example :
    (k : Text) × (speaks_for true (q_satisfiable a_without_b k (only_a k)) ≡ true)
q_satisfiable_complete_example =
    q_satisfiable_complete a_without_b only_a a_without_b-IsReadOnce a_without_b-holds

is_set_a : is_set (only_a a_key) ≡ true
unfolding text_eq
is_set_a = refl

is_set_b : is_set (only_a b_key) ≡ false
unfolding text_eq
is_set_b = refl

exactly_one_missed_example :
    (holds (exactly_one no_attributes a_key b_key is_set is_set) only_a ≡ true)
    × ((k : Text)
        → speaks_for true
            (q_satisfiable (exactly_one no_attributes a_key b_key is_set is_set) k (only_a k))
          ≡ false)
exactly_one_missed_example =
    exactly_one_missed no_attributes a_key b_key is_set is_set only_a a_key≢b_key
      (is_set_a ∙ ap not (sym is_set_b))
