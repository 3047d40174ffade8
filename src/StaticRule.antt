-- ===== src/StaticRule.antt =====
-- rules/static_rule.go: rules on fixed keys, their evaluation against a store and the filters that
-- tell whether a key and its value concern a rule.
pub mod Evaluation
pub mod Filters
pub mod ReadOnce
pub mod Missed
mod Tests
use go_etcd_rules.Base.{
  ℕ, Bool, true, false, not, ◌||◌, List, [], ◌∷◌, ◌++◌, Option, none, some, Text, text_eq, Result,
  ok, err, Error, if◌then◌else◌,
}
use go_etcd_rules.Matcher.{Attributes}

pub data QuadState : Type 0 where
  q_true q_false q_maybe q_none : QuadState

-- The implementations of `staticRule`. The strings that String() renders are for logs only.
mutual
  pub data StaticRule : Type 0 where
    -- compareLiteralRule: attributes, key and comparator.
    compare_literal : Attributes → Text → (Option Text → Bool) → StaticRule
    -- equalsRule: attributes and keys.
    equals : Attributes → List Text → StaticRule
    and_rule or_rule : StaticRules → StaticRule
    not_rule : StaticRule → StaticRule

  pub data StaticRules : Type 0 where
    nil : StaticRules
    cons : StaticRule → StaticRules → StaticRules

-- `get` of `readAPI`: a nil pointer is `none`.
abbrev pub ReadApi : Type 0
ReadApi = Text → Result (Option Text)

-- `newEqualsComparator`
unfoldable pub new_equals_comparator : Option Text → Option Text → Bool
new_equals_comparator none none = true
new_equals_comparator none (some compared) = false
new_equals_comparator (some value) none = false
new_equals_comparator (some value) (some compared) = text_eq compared value

unfoldable pub contains : Text → List Text → Bool
contains key [] = false
contains key (rule_key ∷ rest) = text_eq key rule_key || contains key rest

-- `keyMatch` of `equalsRule`: a rule with no keys matches every key.
unfoldable pub equals_key_match : List Text → Text → Bool
unfolding contains
equals_key_match [] key = true
equals_key_match (k ∷ ks) key = contains key (k ∷ ks)

-- Two pointers are both nil, or both set and to equal strings.
unfoldable pub same_value : Option Text → Option Text → Bool
same_value none none = true
same_value none (some value) = false
same_value (some ref) none = false
same_value (some ref) (some value) = text_eq ref value

abbrev pub next_value : Option Text → Result (Option Text) → Result Bool → Result Bool
next_value ref (err e) others = err e
next_value ref (ok value) others = if same_value ref value then others else ok false

-- The loop of `satisfied` of `equalsRule`, after the first key.
unfoldable pub equal_to : Option Text → List Text → ReadApi → Result Bool
equal_to ref [] api = ok true
equal_to ref (key ∷ rest) api = next_value ref (api key) (equal_to ref rest api)

abbrev pub first_value : List Text → ReadApi → Result (Option Text) → Result Bool
first_value rest api (err e) = err e
first_value rest api (ok ref) = equal_to ref rest api

unfoldable pub equals_satisfied : List Text → ReadApi → Result Bool
equals_satisfied [] api = ok true
equals_satisfied (key ∷ rest) api = first_value rest api (api key)

abbrev pub compare_value : (Option Text → Bool) → Result (Option Text) → Result Bool
compare_value comparator (err e) = err e
compare_value comparator (ok value) = ok (comparator value)

abbrev pub negate : Result Bool → Result Bool
negate (err e) = err e
negate (ok satisfied) = ok (not satisfied)

-- One round of the loops of `andStaticRule` and `orStaticRule`: an error, an early answer, or the
-- rounds that follow.
abbrev pub and_then : Result Bool → Result Bool → Result Bool
and_then (err e) rest = err e
and_then (ok false) rest = ok false
and_then (ok true) rest = rest

abbrev pub or_else : Result Bool → Result Bool → Result Bool
or_else (err e) rest = err e
or_else (ok true) rest = ok true
or_else (ok false) rest = rest

unfoldable mutual
  pub satisfied : StaticRule → ReadApi → Result Bool
  satisfied (compare_literal attr key comparator) api = compare_value comparator (api key)
  satisfied (equals attr keys) api = equals_satisfied keys api
  satisfied (and_rule rules) api = all_satisfied rules api
  satisfied (or_rule rules) api = any_satisfied rules api
  satisfied (not_rule rule) api = negate (satisfied rule api)

  pub all_satisfied : StaticRules → ReadApi → Result Bool
  all_satisfied nil api = ok true
  all_satisfied (cons rule rules) api = and_then (satisfied rule api) (all_satisfied rules api)

  pub any_satisfied : StaticRules → ReadApi → Result Bool
  any_satisfied nil api = ok false
  any_satisfied (cons rule rules) api = or_else (satisfied rule api) (any_satisfied rules api)

unfoldable mutual
  pub key_match : StaticRule → Text → Bool
  key_match (compare_literal attr key comparator) k = text_eq key k
  key_match (equals attr keys) k = equals_key_match keys k
  key_match (and_rule rules) k = any_key_match rules k
  key_match (or_rule rules) k = any_key_match rules k
  key_match (not_rule rule) k = key_match rule k

  pub any_key_match : StaticRules → Text → Bool
  any_key_match nil k = false
  any_key_match (cons rule rules) k = key_match rule k || any_key_match rules k

unfoldable mutual
  pub satisfiable : StaticRule → Text → Option Text → Bool
  satisfiable (compare_literal attr key comparator) k value = text_eq k key
  satisfiable (equals attr keys) k value = equals_key_match keys k
  satisfiable (and_rule rules) k value = any_satisfiable rules k value
  satisfiable (or_rule rules) k value = any_satisfiable rules k value
  satisfiable (not_rule rule) k value = key_match rule k

  pub any_satisfiable : StaticRules → Text → Option Text → Bool
  any_satisfiable nil k value = false
  any_satisfiable (cons rule rules) k value =
      satisfiable rule k value || any_satisfiable rules k value

unfoldable mutual
  pub get_keys : StaticRule → List Text
  get_keys (compare_literal attr key comparator) = key ∷ []
  get_keys (equals attr keys) = keys
  get_keys (and_rule rules) = all_keys rules
  get_keys (or_rule rules) = all_keys rules
  get_keys (not_rule rule) = get_keys rule

  pub all_keys : StaticRules → List Text
  all_keys nil = []
  all_keys (cons rule rules) = get_keys rule ++ all_keys rules

-- `anyTrue`, `anyMaybe` and `anyFalse` of the loops of `qSatisfiable`.
pub record Flags : Type 0 where
  pub any_true : Bool
  pub any_maybe : Bool
  pub any_false : Bool

unfoldable pub raise : QuadState → Flags → Flags
raise q_true flags = record flags { any_true = true }
raise q_false flags = record flags { any_false = true }
raise q_maybe flags = record flags { any_maybe = true }
raise q_none flags = flags

unfoldable pub and_state : Flags → QuadState
and_state flags =
    if flags.any_false
    then q_false
    else if flags.any_true
    then q_true
    else if flags.any_maybe
    then q_maybe
    else q_none

unfoldable pub or_state : Flags → QuadState
or_state flags =
    if flags.any_true
    then q_true
    else if flags.any_maybe
    then q_maybe
    else if flags.any_false
    then q_false
    else q_none

unfoldable pub not_state : QuadState → QuadState
not_state q_maybe = q_maybe
not_state q_true = q_false
not_state q_false = q_true
not_state q_none = q_none

abbrev pub no_flags : Flags
no_flags = record { any_true = false; any_maybe = false; any_false = false }

unfoldable mutual
  unfolding raise and_state or_state not_state

  pub q_satisfiable : StaticRule → Text → Option Text → QuadState
  q_satisfiable (compare_literal attr key comparator) k value =
      if text_eq k key then (if comparator value then q_true else q_false) else q_none
  q_satisfiable (equals attr keys) k value = if equals_key_match keys k then q_maybe else q_none
  q_satisfiable (and_rule rules) k value = and_state (collect rules k value no_flags)
  q_satisfiable (or_rule rules) k value = or_state (collect rules k value no_flags)
  q_satisfiable (not_rule rule) k value = not_state (q_satisfiable rule k value)

  pub collect : StaticRules → Text → Option Text → Flags → Flags
  collect nil k value flags = flags
  collect (cons rule rules) k value flags =
      collect rules k value (raise (q_satisfiable rule k value) flags)

-- `getAttributes`. A compound rule with no nested rule would panic, which is `none`.
unfoldable mutual
  pub get_attributes : StaticRule → Option Attributes
  get_attributes (compare_literal attr key comparator) = some attr
  get_attributes (equals attr keys) = some attr
  get_attributes (and_rule rules) = first_attributes rules
  get_attributes (or_rule rules) = first_attributes rules
  get_attributes (not_rule rule) = get_attributes rule

  pub first_attributes : StaticRules → Option Attributes
  first_attributes nil = none
  first_attributes (cons rule rules) = get_attributes rule
