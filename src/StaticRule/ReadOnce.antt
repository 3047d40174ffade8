-- ===== src/StaticRule/ReadOnce.antt =====
-- rules/static_rule.go: rules in which no key stands in two nested rules, and the enhanced filter.
use go_etcd_rules.Base.{
  Bool, true, false, not, ◌&&◌, ◌||◌, ◌≡◌, ◌≢◌, refl, sym, ap, ◌∙◌, inl, inr, List, [], ◌∷◌, Option,
  Text, text_eq_refl, Bool-cases, arith,
}
use go_etcd_rules.StaticRule.{
  QuadState, q_true, q_false, q_maybe, q_none, StaticRule, StaticRules, compare_literal, equals,
  and_rule, or_rule, not_rule, nil, cons, equals_key_match, key_match, any_key_match, Flags, raise,
  and_state, or_state, not_state, no_flags, q_satisfiable, collect,
}
use go_etcd_rules.StaticRule.Evaluation.{Store, holds, all_hold, any_holds}
use go_etcd_rules.StaticRule.Filters.{concerned, concerned-q_satisfiable, raised, raised-collect}

-- Every compound rule has nested rules, no two of which have a key in common, and every equality rule has
-- keys.
abbrev mutual
  pub IsReadOnce : StaticRule → Type 0
  IsReadOnce (compare_literal attr key comparator) = Unit
  IsReadOnce (equals attr keys) = keys ≢ []
  IsReadOnce (and_rule rules) = (rules ≢ nil) × AreSeparate rules
  IsReadOnce (or_rule rules) = (rules ≢ nil) × AreSeparate rules
  IsReadOnce (not_rule rule) = IsReadOnce rule

  pub AreSeparate : StaticRules → Type 0
  AreSeparate nil = Unit
  AreSeparate (cons rule rules) =
      IsReadOnce rule
      × ((k : Text) → key_match rule k ≡ true → any_key_match rules k ≡ false)
      × AreSeparate rules

-- The states that speak for a rule being true, or for its being false.
abbrev pub speaks_for : Bool → QuadState → Bool
speaks_for b q_maybe = true
speaks_for b q_none = false
speaks_for true q_true = true
speaks_for true q_false = false
speaks_for false q_true = false
speaks_for false q_false = true

speaks_for-not :
    (b : Bool) (st : QuadState) → speaks_for b st ≡ true → speaks_for (not b) (not_state st) ≡ true
unfolding not_state
speaks_for-not b st h = ground arith

concerned_of : (b : Bool) (st : QuadState) → speaks_for b st ≡ true → concerned st ≡ true
concerned_of b st h = ground arith

raised_of : (b : Bool) (st : QuadState) → speaks_for b st ≡ true → raised (raise st no_flags) ≡ true
unfolding raise
raised_of b st h = ground arith

and_state-raise : (st : QuadState) → and_state (raise st no_flags) ≡ st
unfolding and_state raise
and_state-raise st = ground arith

or_state-raise : (st : QuadState) → or_state (raise st no_flags) ≡ st
unfolding or_state raise
or_state-raise st = ground arith

raise-none : (st : QuadState) (flags : Flags) → concerned st ≡ false → raise st flags ≡ flags
unfolding raise
raise-none st flags h = ground arith

or_false_left : (a b : Bool) → a || b ≡ false → a ≡ false
or_false_left a b h = ground arith

or_false_right : (a b : Bool) → a || b ≡ false → b ≡ false
or_false_right a b h = ground arith

-- Rules that a key does not concern raise no flag.
collect-quiet :
    (rules : StaticRules) (k : Text) (value : Option Text) (flags : Flags)
    → any_key_match rules k ≡ false
    → collect rules k value flags ≡ flags
unfolding q_satisfiable key_match
collect-quiet nil k value flags h = refl
collect-quiet (cons rule rules) k value flags h =
    collect-quiet rules k value (raise (q_satisfiable rule k value) flags) (or_false_right _ _ h)
    ∙ raise-none _ flags (concerned-q_satisfiable rule k value ∙ or_false_left _ _ h)

-- A key at which the nested rules together are in the state of one of them.
record IsSpokenFor (b : Bool) (rules : StaticRules) (store : Store) : Type 0 where
  key : Text
  state : QuadState
  speaks : speaks_for b state ≡ true
  alone : collect rules key (store key) no_flags ≡ raise state no_flags

module _ (rule : StaticRule) (rules : StaticRules) (store : Store) where
  abbrev AreApart : Type 0
  AreApart = (k : Text) → key_match rule k ≡ true → any_key_match rules k ≡ false

  first_speaks :
      (b : Bool) (k : Text)
      → AreApart
      → speaks_for b (q_satisfiable rule k (store k)) ≡ true
      → IsSpokenFor b (cons rule rules) store
  unfolding q_satisfiable
  first_speaks b k apart h =
      let st = q_satisfiable rule k (store k) in
      let matched : key_match rule k ≡ true =
        sym (concerned-q_satisfiable rule k (store k)) ∙ concerned_of b st h in
      record {
        key = k;
        state = st;
        speaks = h;
        alone = collect-quiet rules k (store k) (raise st no_flags) (apart k matched);
      }

  later_speaks :
      (b : Bool) → AreApart → IsSpokenFor b rules store → IsSpokenFor b (cons rule rules) store
  unfolding q_satisfiable
  later_speaks b apart s =
      let k = s.key in
      let matched : any_key_match rules k ≡ true =
        sym (raised-collect rules k (store k) no_flags)
        ∙ ap raised s.alone
        ∙ raised_of b s.state s.speaks in
      let quiet : key_match rule k ≡ false = elim (Bool-cases (key_match rule k)) [
        | inl both ↦ absurd (ground (arith, apart k both))
        | inr e ↦ e
      ] in
      record {
        key = k;
        state = s.state;
        speaks = s.speaks;
        alone =
            ap (collect rules k (store k))
              (raise-none _ no_flags (concerned-q_satisfiable rule k (store k) ∙ quiet))
            ∙ s.alone;
      }

IsSpokenFor-of :
    {b b' : Bool} (rules : StaticRules) (store : Store)
    → b ≡ b'
    → IsSpokenFor b' rules store
    → IsSpokenFor b rules store
IsSpokenFor-of rules store e s = record {
  key = s.key;
  state = s.state;
  speaks = rw e s.speaks;
  alone = s.alone;
}

and_true_left : (a b : Bool) → a ≡ true → a && b ≡ b
and_true_left a b h = ground arith

and_false_left : (a b : Bool) → a ≡ false → a && b ≡ a
and_false_left a b h = ground arith

or_true_first : (a b : Bool) → a ≡ true → a || b ≡ a
or_true_first a b h = ground arith

or_false_first : (a b : Bool) → a ≡ false → a || b ≡ b
or_false_first a b h = ground arith

and_true_right : (a : Bool) → a && true ≡ a
and_true_right a = ground arith

or_false_last : (a : Bool) → a || false ≡ a
or_false_last a = ground arith

equals_key_match-head : (k : Text) (ks : List Text) → equals_key_match (k ∷ ks) k ≡ true
unfolding equals_key_match
equals_key_match-head k ks = ground (arith, text_eq_refl k)

mutual
  unfolding holds q_satisfiable

  speaks :
      (rule : StaticRule) (store : Store)
      → IsReadOnce rule
      → (k : Text) × (speaks_for (holds rule store) (q_satisfiable rule k (store k)) ≡ true)
  speaks (compare_literal attr key comparator) store h = (key, ground (arith, text_eq_refl key))
  speaks (equals attr []) store h = absurd (h refl)
  speaks (equals attr (key ∷ keys)) store h = (key, rw (equals_key_match-head key keys))
  speaks (and_rule rules) store h =
      let s = all_speak rules store h.0 h.1 in
      (s.key, rw (s.alone, and_state-raise s.state) s.speaks)
  speaks (or_rule rules) store h =
      let s = any_speaks rules store h.0 h.1 in
      (s.key, rw (s.alone, or_state-raise s.state) s.speaks)
  speaks (not_rule rule) store h = let (k, e) = speaks rule store h in (k, speaks_for-not _ _ e)

  all_speak :
      (rules : StaticRules) (store : Store)
      → rules ≢ nil
      → AreSeparate rules
      → IsSpokenFor (all_hold rules store) rules store
  all_speak nil store ne h = absurd (ne refl)
  all_speak (cons rule nil) store ne h =
      let (k, e) = speaks rule store h.0 in
      first_speaks rule nil store _ k h.1 (rw (and_true_right (holds rule store)) e)
  all_speak (cons rule (cons rule' rules)) store ne h = elim (Bool-cases (holds rule store)) [
    | inl true_here ↦
        IsSpokenFor-of (cons rule (cons rule' rules)) store (and_true_left _ _ true_here) (
          later_speaks rule (cons rule' rules) store _ h.1
            (all_speak (cons rule' rules) store (λ e. cc) h.2))
    | inr false_here ↦
        let (k, e) = speaks rule store h.0 in
        IsSpokenFor-of (cons rule (cons rule' rules)) store (and_false_left _ _ false_here)
          (first_speaks rule (cons rule' rules) store _ k h.1 e)
  ]

  any_speaks :
      (rules : StaticRules) (store : Store)
      → rules ≢ nil
      → AreSeparate rules
      → IsSpokenFor (any_holds rules store) rules store
  any_speaks nil store ne h = absurd (ne refl)
  any_speaks (cons rule nil) store ne h =
      let (k, e) = speaks rule store h.0 in
      first_speaks rule nil store _ k h.1 (rw (or_false_last (holds rule store)) e)
  any_speaks (cons rule (cons rule' rules)) store ne h = elim (Bool-cases (holds rule store)) [
    | inr false_here ↦
        IsSpokenFor-of (cons rule (cons rule' rules)) store (or_false_first _ _ false_here) (
          later_speaks rule (cons rule' rules) store _ h.1
            (any_speaks (cons rule' rules) store (λ e. cc) h.2))
    | inl true_here ↦
        let (k, e) = speaks rule store h.0 in
        IsSpokenFor-of (cons rule (cons rule' rules)) store (or_true_first _ _ true_here)
          (first_speaks rule (cons rule' rules) store _ k h.1 e)
  ]

-- A rule in which no compound rule has two nested rules with a key in common, every compound rule has a
-- nested rule and every equality rule has a key: where a store satisfies it, the enhanced filter passes
-- it at some key with the value that the store has there.
pub q_satisfiable_complete :
    (rule : StaticRule) (store : Store)
    → IsReadOnce rule
    → holds rule store ≡ true
    → (k : Text) × (speaks_for true (q_satisfiable rule k (store k)) ≡ true)
q_satisfiable_complete rule store h e = let (k, s) = speaks rule store h in (k, rw e at s)
