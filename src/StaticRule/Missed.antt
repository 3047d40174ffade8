-- ===== src/StaticRule/Missed.antt =====
-- rules/static_rule.go: the enhanced filter and the rule that exactly one of two
-- comparisons is true.
use go_etcd_rules.Base.{
  Bool, true, false, not, Bool-cases, inl, inr, ◌≡◌, ◌≢◌, Option, Text, text_eq_iff, arith,
}
use go_etcd_rules.Matcher.{Attributes}
use go_etcd_rules.StaticRule.{
  StaticRule, compare_literal, and_rule, or_rule, not_rule, nil, cons, q_satisfiable,
}
use go_etcd_rules.StaticRule.Evaluation.{Store, holds}
use go_etcd_rules.StaticRule.ReadOnce.{speaks_for}

module _ (attr : Attributes) (a b : Text) (is_a is_b : Option Text → Bool) where
  -- Exactly one of two comparisons is true: (A OR B) AND (NOT A OR NOT B).
  abbrev pub exactly_one : StaticRule
  exactly_one =
      let left = compare_literal attr a is_a in
      let right = compare_literal attr b is_b in
      and_rule (
        cons (or_rule (cons left (cons right nil)))
          (cons (or_rule (cons (not_rule left) (cons (not_rule right) nil))) nil))

-- On distinct keys, every store in which one of the two comparisons is true and the other is not
-- satisfies the rule that exactly one is true, and with the values of such a store the enhanced filter
-- passes the rule at no key.
pub exactly_one_missed :
    (attr : Attributes) (a b : Text) (is_a is_b : Option Text → Bool) (store : Store)
    → a ≢ b
    → is_a (store a) ≡ not (is_b (store b))
    → (holds (exactly_one attr a b is_a is_b) store ≡ true)
      × ((k : Text)
          → speaks_for true (q_satisfiable (exactly_one attr a b is_a is_b) k (store k)) ≡ false)
unfolding holds q_satisfiable
exactly_one_missed attr a b is_a is_b store ne differ = elim (Bool-cases (is_b (store b))) [
  | inl b_true ↦
      let a_false : is_a (store a) ≡ false = rw b_true at differ in
      (rw (a_false, b_true), λ k. ground (arith, text_eq_iff k a, text_eq_iff k b))
  | inr b_false ↦
      let a_true : is_a (store a) ≡ true = rw b_false at differ in
      (rw (a_true, b_false), λ k. ground (arith, text_eq_iff k a, text_eq_iff k b))
]
