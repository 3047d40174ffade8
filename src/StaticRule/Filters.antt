-- ===== src/StaticRule/Filters.antt =====
-- rules/static_rule.go: `keyMatch`, `satisfiable` and `qSatisfiable` against the keys of a rule.
use go_etcd_rules.Base.{
  Bool, true, false, ◌||◌, ◌≡◌, ◌≢◌, ◌↔◌, ◌⊎◌, refl, sym, ap, ap₂, ◌∙◌, inl, inr, List, [], ◌∷◌,
  Option, Text, text_eq, text_eq_iff, text_eq_refl, In, In-append_left, In-append_right,
  In-append_cases, Bool-cases, arith,
}
use go_etcd_rules.StaticRule.{
  QuadState, q_none, StaticRule, StaticRules, compare_literal, equals, and_rule, or_rule, not_rule,
  nil, cons, contains, equals_key_match, key_match, any_key_match, satisfiable, any_satisfiable,
  get_keys, all_keys, Flags, raise, and_state, or_state, not_state, no_flags, q_satisfiable,
  collect,
}

text_eq_comm : (s t : Text) → text_eq s t ≡ text_eq t s
text_eq_comm s t = ground (arith, text_eq_iff s t, text_eq_iff t s)

mutual
  unfolding satisfiable key_match

  pub satisfiable-key_match_rule :
      (rule : StaticRule) (k : Text) (value : Option Text)
      → satisfiable rule k value ≡ key_match rule k
  satisfiable-key_match_rule (compare_literal attr key comparator) k value = text_eq_comm k key
  satisfiable-key_match_rule (equals attr keys) k value = refl
  satisfiable-key_match_rule (and_rule rules) k value = any_satisfiable-key_match rules k value
  satisfiable-key_match_rule (or_rule rules) k value = any_satisfiable-key_match rules k value
  satisfiable-key_match_rule (not_rule rule) k value = refl

  any_satisfiable-key_match :
      (rules : StaticRules) (k : Text) (value : Option Text)
      → any_satisfiable rules k value ≡ any_key_match rules k
  any_satisfiable-key_match nil k value = refl
  any_satisfiable-key_match (cons rule rules) k value =
      ap₂ ◌||◌ (satisfiable-key_match_rule rule k value) (any_satisfiable-key_match rules k value)

-- A key concerns a rule where its state is not `qNone`.
abbrev pub concerned : QuadState → Bool
concerned q_none = false
concerned _ = true

abbrev pub raised : Flags → Bool
raised flags = flags.any_true || (flags.any_maybe || flags.any_false)

concerned-and_state : (flags : Flags) → concerned (and_state flags) ≡ raised flags
unfolding and_state
concerned-and_state flags = ground arith

concerned-or_state : (flags : Flags) → concerned (or_state flags) ≡ raised flags
unfolding or_state
concerned-or_state flags = ground arith

concerned-not_state : (state : QuadState) → concerned (not_state state) ≡ concerned state
unfolding not_state
concerned-not_state state = ground arith

raised-raise :
    (state : QuadState) (flags : Flags)
    → raised (raise state flags) ≡ raised flags || concerned state
unfolding raise
raised-raise state flags = ground arith

or_regroup : (a b c d : Bool) → a ≡ c || d → (a || b) ≡ c || (d || b)
or_regroup a b c d e = ground arith

or_false : (b : Bool) → b ≡ b || false
or_false b = ground arith

mutual
  unfolding key_match q_satisfiable

  pub concerned-q_satisfiable :
      (rule : StaticRule) (k : Text) (value : Option Text)
      → concerned (q_satisfiable rule k value) ≡ key_match rule k
  concerned-q_satisfiable (compare_literal attr key comparator) k value =
      ground (arith, text_eq_comm k key)
  concerned-q_satisfiable (equals attr keys) k value = ground arith
  concerned-q_satisfiable (and_rule rules) k value =
      concerned-and_state (collect rules k value no_flags) ∙ raised-collect rules k value no_flags
  concerned-q_satisfiable (or_rule rules) k value =
      concerned-or_state (collect rules k value no_flags) ∙ raised-collect rules k value no_flags
  concerned-q_satisfiable (not_rule rule) k value =
      concerned-not_state (q_satisfiable rule k value) ∙ concerned-q_satisfiable rule k value

  pub raised-collect :
      (rules : StaticRules) (k : Text) (value : Option Text) (flags : Flags)
      → raised (collect rules k value flags) ≡ raised flags || any_key_match rules k
  raised-collect nil k value flags = or_false (raised flags)
  raised-collect (cons rule rules) k value flags =
      raised-collect rules k value (raise (q_satisfiable rule k value) flags)
      ∙ or_regroup _ (any_key_match rules k) (raised flags) (key_match rule k) (
          raised-raise (q_satisfiable rule k value) flags
          ∙ ap (λ b. raised flags || b) (concerned-q_satisfiable rule k value))

-- No `equalsRule` of the rule is without keys.
abbrev mutual
  pub HasKeys : StaticRule → Type 0
  HasKeys (compare_literal attr key comparator) = Unit
  HasKeys (equals attr keys) = keys ≢ []
  HasKeys (and_rule rules) = AllHaveKeys rules
  HasKeys (or_rule rules) = AllHaveKeys rules
  HasKeys (not_rule rule) = HasKeys rule

  pub AllHaveKeys : StaticRules → Type 0
  AllHaveKeys nil = Unit
  AllHaveKeys (cons rule rules) = HasKeys rule × AllHaveKeys rules

contains_sound : (k : Text) (ks : List Text) → contains k ks ≡ true → In k ks
unfolding contains
contains_sound k [] e = cc
contains_sound k (x ∷ xs) e = elim (Bool-cases (text_eq k x)) [
  | inl same ↦ inl ((text_eq_iff k x).0 same)
  | inr other ↦ inr (contains_sound k xs (ground arith))
]

contains_complete : (k : Text) (ks : List Text) → In k ks → contains k ks ≡ true
unfolding contains
contains_complete k [] h = absurd h
contains_complete k (x ∷ xs) (inl e) = ground (arith, text_eq_iff k x)
contains_complete k (x ∷ xs) (inr h) = ground (arith, contains_complete k xs h)

or_true : (a b : Bool) → a || b ≡ true → (a ≡ true) ⊎ (b ≡ true)
or_true a b e = ground arith

or_true_left : (a b : Bool) → a ≡ true → a || b ≡ true
or_true_left a b e = ground arith

or_true_right : (a b : Bool) → b ≡ true → a || b ≡ true
or_true_right a b e = ground arith

equals_sound :
    (keys : List Text) (k : Text) → keys ≢ [] → equals_key_match keys k ≡ true → In k keys
unfolding equals_key_match
equals_sound [] k h e = absurd (h refl)
equals_sound (x ∷ xs) k h e = contains_sound k (x ∷ xs) e

equals_complete : (keys : List Text) (k : Text) → In k keys → equals_key_match keys k ≡ true
unfolding equals_key_match
equals_complete [] k h = refl
equals_complete (x ∷ xs) k h = contains_complete k (x ∷ xs) h

mutual
  unfolding key_match get_keys

  key_match_sound :
      (rule : StaticRule) (k : Text) → HasKeys rule → key_match rule k ≡ true → In k (get_keys rule)
  key_match_sound (compare_literal attr key comparator) k h e = inl (sym ((text_eq_iff key k).0 e))
  key_match_sound (equals attr keys) k h e = equals_sound keys k h e
  key_match_sound (and_rule rules) k h e = any_key_match_sound rules k h e
  key_match_sound (or_rule rules) k h e = any_key_match_sound rules k h e
  key_match_sound (not_rule rule) k h e = key_match_sound rule k h e

  any_key_match_sound :
      (rules : StaticRules) (k : Text)
      → AllHaveKeys rules
      → any_key_match rules k ≡ true
      → In k (all_keys rules)
  any_key_match_sound nil k h e = cc
  any_key_match_sound (cons rule rules) k h e =
      elim (or_true (key_match rule k) (any_key_match rules k) e) [
        | inl here ↦
            In-append_left k (get_keys rule) (all_keys rules) (key_match_sound rule k h.0 here)
        | inr later ↦
            In-append_right k (get_keys rule) (all_keys rules)
              (any_key_match_sound rules k h.1 later)
      ]

mutual
  unfolding key_match get_keys

  key_match_complete :
      (rule : StaticRule) (k : Text) → In k (get_keys rule) → key_match rule k ≡ true
  key_match_complete (compare_literal attr key comparator) k (inl e) = rw e (text_eq_refl key)
  key_match_complete (compare_literal attr key comparator) k (inr h) = absurd h
  key_match_complete (equals attr keys) k h = equals_complete keys k h
  key_match_complete (and_rule rules) k h = any_key_match_complete rules k h
  key_match_complete (or_rule rules) k h = any_key_match_complete rules k h
  key_match_complete (not_rule rule) k h = key_match_complete rule k h

  any_key_match_complete :
      (rules : StaticRules) (k : Text) → In k (all_keys rules) → any_key_match rules k ≡ true
  any_key_match_complete nil k h = absurd h
  any_key_match_complete (cons rule rules) k h =
      elim (In-append_cases k (get_keys rule) (all_keys rules) h) [
        | inl here ↦ or_true_left _ _ (key_match_complete rule k here)
        | inr later ↦ or_true_right _ _ (any_key_match_complete rules k later)
      ]

-- The basic filter passes a rule exactly on the rule's keys, whatever the value.
pub satisfiable_iff :
    (rule : StaticRule) (k : Text) (value : Option Text)
    → HasKeys rule
    → (satisfiable rule k value ≡ true) ↔ In k (get_keys rule)
satisfiable_iff rule k value h =
    rw (satisfiable-key_match_rule rule k value)
      (key_match_sound rule k h, key_match_complete rule k)

pub none_of : (state : QuadState) → concerned state ≡ false → state ≡ q_none
none_of state e = ground arith

-- The enhanced filter says that a key has no impact exactly on the keys that are not the rule's.
pub q_satisfiable-none_iff :
    (rule : StaticRule) (k : Text) (value : Option Text)
    → HasKeys rule
    → (q_satisfiable rule k value ≡ q_none) ↔ (¬ In k (get_keys rule))
q_satisfiable-none_iff rule k value h = (
  λ e i.
      let matched : key_match rule k ≡ true = key_match_complete rule k i in
      let quiet = concerned-q_satisfiable rule k value in absurd (ground arith),
  λ n. elim (Bool-cases (key_match rule k)) [
    | inl e ↦ absurd (n (key_match_sound rule k h e))
    | inr e ↦ none_of _ (concerned-q_satisfiable rule k value ∙ e)
  ],
)
