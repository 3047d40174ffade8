-- ===== src/StaticRule/Evaluation.antt =====
-- rules/static_rule.go: `satisfied` against the truth of a rule in a store, and the keys it reads.
use go_etcd_rules.Base.{
  All-append_left, All-append_right, Bool, true, false, not, ◌&&◌, ◌||◌, ◌≡◌, refl, ap, ap₂, ◌∙◌,
  List, [], ◌∷◌, Option, Text, Result, ok, err, All, arith,
}
use go_etcd_rules.StaticRule.{
  StaticRule, StaticRules, compare_literal, equals, and_rule, or_rule, not_rule, nil, cons, ReadApi,
  same_value, next_value, first_value, equal_to, equals_satisfied, satisfied, all_satisfied,
  any_satisfied, get_keys, all_keys, negate, and_then, or_else,
}

-- The contents of etcd: a missing key has no value.
abbrev pub Store : Type 0
Store = Text → Option Text

abbrev pub all_same : Option Text → List Text → Store → Bool
all_same ref [] store = true
all_same ref (key ∷ rest) store = same_value ref (store key) && all_same ref rest store

abbrev pub all_equal : List Text → Store → Bool
all_equal [] store = true
all_equal (key ∷ rest) store = all_same (store key) rest store

-- The truth of a rule in a store, as a formula of propositional logic.
unfoldable mutual
  pub holds : StaticRule → Store → Bool
  holds (compare_literal attr key comparator) store = comparator (store key)
  holds (equals attr keys) store = all_equal keys store
  holds (and_rule rules) store = all_hold rules store
  holds (or_rule rules) store = any_holds rules store
  holds (not_rule rule) store = not (holds rule store)

  pub all_hold : StaticRules → Store → Bool
  all_hold nil store = true
  all_hold (cons rule rules) store = holds rule store && all_hold rules store

  pub any_holds : StaticRules → Store → Bool
  any_holds nil store = false
  any_holds (cons rule rules) store = holds rule store || any_holds rules store

-- Reading some keys gives the store's values, without an error.
abbrev pub Serves : ReadApi → Store → List Text → Type 0
Serves api store keys = All (λ k. api k ≡ ok (store k)) keys

module _ (api : ReadApi) (store : Store) where
  next_value-ok :
      (ref value : Option Text) (b : Bool)
      → next_value ref (ok value) (ok b) ≡ ok (same_value ref value && b)
  next_value-ok ref value b = ground arith

  equal_to-holds :
      (ref : Option Text) (keys : List Text)
      → Serves api store keys
      → equal_to ref keys api ≡ ok (all_same ref keys store)
  unfolding equal_to
  equal_to-holds ref [] h = refl
  equal_to-holds ref (key ∷ rest) h =
      rw (h.0, equal_to-holds ref rest h.1)
        (next_value-ok ref (store key) (all_same ref rest store))

  equals-holds :
      (keys : List Text)
      → Serves api store keys
      → equals_satisfied keys api ≡ ok (all_equal keys store)
  unfolding equals_satisfied
  equals-holds [] h = refl
  equals-holds (key ∷ rest) h = rw h.0 (equal_to-holds (store key) rest h.1)

  and_then-ok : (a b : Bool) → and_then (ok a) (ok b) ≡ ok (a && b)
  and_then-ok true b = refl
  and_then-ok false b = refl

  or_else-ok : (a b : Bool) → or_else (ok a) (ok b) ≡ ok (a || b)
  or_else-ok true b = refl
  or_else-ok false b = refl

mutual
  unfolding satisfied holds get_keys

  satisfied-holds_rule :
      (rule : StaticRule) (api : ReadApi) (store : Store)
      → Serves api store (get_keys rule)
      → satisfied rule api ≡ ok (holds rule store)
  satisfied-holds_rule (compare_literal attr key comparator) api store h = rw h.0
  satisfied-holds_rule (equals attr keys) api store h = equals-holds api store keys h
  satisfied-holds_rule (and_rule rules) api store h = all_satisfied-holds rules api store h
  satisfied-holds_rule (or_rule rules) api store h = any_satisfied-holds rules api store h
  satisfied-holds_rule (not_rule rule) api store h =
      ap negate (satisfied-holds_rule rule api store h)

  all_satisfied-holds :
      (rules : StaticRules) (api : ReadApi) (store : Store)
      → Serves api store (all_keys rules)
      → all_satisfied rules api ≡ ok (all_hold rules store)
  all_satisfied-holds nil api store h = refl
  all_satisfied-holds (cons rule rules) api store h =
      rw
        (
          satisfied-holds_rule rule api store
              (All-append_left _ (get_keys rule) (all_keys rules) h),
          all_satisfied-holds rules api store
              (All-append_right _ (get_keys rule) (all_keys rules) h),
        )
        (and_then-ok api store (holds rule store) (all_hold rules store))

  any_satisfied-holds :
      (rules : StaticRules) (api : ReadApi) (store : Store)
      → Serves api store (all_keys rules)
      → any_satisfied rules api ≡ ok (any_holds rules store)
  any_satisfied-holds nil api store h = refl
  any_satisfied-holds (cons rule rules) api store h =
      rw
        (
          satisfied-holds_rule rule api store
              (All-append_left _ (get_keys rule) (all_keys rules) h),
          any_satisfied-holds rules api store
              (All-append_right _ (get_keys rule) (all_keys rules) h),
        )
        (or_else-ok api store (holds rule store) (any_holds rules store))

-- Where the rule's keys are read without an error, `satisfied` returns the rule's truth in the
-- store: early returns lose nothing, and no key outside `getKeys` is needed.
pub satisfied-holds :
    (rule : StaticRule) (api : ReadApi) (store : Store)
    → Serves api store (get_keys rule)
    → satisfied rule api ≡ ok (holds rule store)
satisfied-holds rule api store h = satisfied-holds_rule rule api store h

-- Two ways to read that agree on some keys, in their errors too.
abbrev pub Agree : ReadApi → ReadApi → List Text → Type 0
Agree api api' keys = All (λ k. api k ≡ api' k) keys

equal_to-Agree :
    (api api' : ReadApi) (ref : Option Text) (keys : List Text)
    → Agree api api' keys
    → equal_to ref keys api ≡ equal_to ref keys api'
unfolding equal_to
equal_to-Agree api api' ref [] h = refl
equal_to-Agree api api' ref (key ∷ rest) h =
    ap₂ (next_value ref) h.0 (equal_to-Agree api api' ref rest h.1)

first_value-Agree :
    (api api' : ReadApi) (r : Result (Option Text)) (rest : List Text)
    → Agree api api' rest
    → first_value rest api r ≡ first_value rest api' r
first_value-Agree api api' (err e) rest h = refl
first_value-Agree api api' (ok ref) rest h = equal_to-Agree api api' ref rest h

equals-Agree :
    (api api' : ReadApi) (keys : List Text)
    → Agree api api' keys
    → equals_satisfied keys api ≡ equals_satisfied keys api'
unfolding equals_satisfied
equals-Agree api api' [] h = refl
equals-Agree api api' (key ∷ rest) h =
    ap (first_value rest api) h.0 ∙ first_value-Agree api api' (api' key) rest h.1

mutual
  unfolding satisfied get_keys

  satisfied-Agree_rule :
      (rule : StaticRule) (api api' : ReadApi)
      → Agree api api' (get_keys rule)
      → satisfied rule api ≡ satisfied rule api'
  satisfied-Agree_rule (compare_literal attr key comparator) api api' h = rw h.0
  satisfied-Agree_rule (equals attr keys) api api' h = equals-Agree api api' keys h
  satisfied-Agree_rule (and_rule rules) api api' h = all_satisfied-Agree rules api api' h
  satisfied-Agree_rule (or_rule rules) api api' h = any_satisfied-Agree rules api api' h
  satisfied-Agree_rule (not_rule rule) api api' h = ap negate (satisfied-Agree_rule rule api api' h)

  all_satisfied-Agree :
      (rules : StaticRules) (api api' : ReadApi)
      → Agree api api' (all_keys rules)
      → all_satisfied rules api ≡ all_satisfied rules api'
  all_satisfied-Agree nil api api' h = refl
  all_satisfied-Agree (cons rule rules) api api' h =
      ap₂ and_then
        (satisfied-Agree_rule rule api api' (All-append_left _ (get_keys rule) (all_keys rules) h))
        (all_satisfied-Agree rules api api' (All-append_right _ (get_keys rule) (all_keys rules) h))

  any_satisfied-Agree :
      (rules : StaticRules) (api api' : ReadApi)
      → Agree api api' (all_keys rules)
      → any_satisfied rules api ≡ any_satisfied rules api'
  any_satisfied-Agree nil api api' h = refl
  any_satisfied-Agree (cons rule rules) api api' h =
      ap₂ or_else
        (satisfied-Agree_rule rule api api' (All-append_left _ (get_keys rule) (all_keys rules) h))
        (any_satisfied-Agree rules api api' (All-append_right _ (get_keys rule) (all_keys rules) h))

-- `satisfied` reads no key outside `getKeys`: two stores that answer alike on those keys, errors
-- included, give the same result.
pub satisfied-Agree :
    (rule : StaticRule) (api api' : ReadApi)
    → Agree api api' (get_keys rule)
    → satisfied rule api ≡ satisfied rule api'
satisfied-Agree rule api api' h = satisfied-Agree_rule rule api api' h
