-- ===== src/DynamicRule/Essential/Assignments.antt =====
-- rules/dynamic_rule.go: the assignments of `processBooleanMap`, and `evaluate` under them.
use go_etcd_rules.Base.{
  Bool, true, false, not, ◌&&◌, ◌||◌, ◌≡◌, refl, ap, ap₂, ◌∙◌, ◌⊎◌, inl, inr, List, [], ◌∷◌, ◌++◌,
  Text, text_eq, text_eq_iff, text_eq_refl, arith, if◌then◌else◌, Bool-cases, All, In,
  In-keys-insert, In-append_left, In-append_right, Map, insert, lookup-insert, keys,
}
use go_etcd_rules.DynamicRule.{
  DynamicRule, DynamicRules, leaf, and_dynamic, or_dynamic, not_dynamic, empty, more,
  remove_duplicates, unique_from,
}
use go_etcd_rules.DynamicRule.Essential.{
  value_at, get_leaf_representations, nested_representations, evaluate, evaluate_and, evaluate_or,
  process_boolean_map, assignments,
}

pub value_at-insert :
    (k j : Text) (b : Bool) (m : Map Bool)
    → value_at (insert k b m) j ≡ (if text_eq k j then b else value_at m j)
unfolding value_at
value_at-insert k j b m = ground (arith, lookup-insert k j b m)

-- A map in a list that agrees with an assignment on some keys and wherever another map does.
record IsReached (v : Text → Bool) (ks : List Text) (parent : Map Bool) (ms : List (Map Bool))
    : Type 0 where
  reached : Map Bool
  member : In reached ms
  agrees : All (λ k. value_at reached k ≡ v k) ks
  keeps : (k : Text) → value_at parent k ≡ v k → value_at reached k ≡ v k

insert-keeps :
    (v : Text → Bool) (key k : Text) (parent : Map Bool)
    → value_at parent k ≡ v k
    → value_at (insert key (v key) parent) k ≡ v k
insert-keeps v key k parent h = elim (Bool-cases (text_eq key k)) [
  | inl same ↦ value_at-insert key k (v key) parent ∙ rw (same, (text_eq_iff key k).0 same)
  | inr other ↦ value_at-insert key k (v key) parent ∙ rw other h
]

insert-agrees :
    (v : Text → Bool) (key : Text) (parent : Map Bool)
    → value_at (insert key (v key) parent) key ≡ v key
insert-agrees v key parent = value_at-insert key key (v key) parent ∙ rw (text_eq_refl key)

either :
    (b : Bool) (v : Text → Bool) (ks : List Text) (parent : Map Bool) (f : Bool → List (Map Bool))
    → IsReached v ks parent (f b)
    → IsReached v ks parent (f false ++ f true)
either false v ks parent f r = record {
  reached = r.reached;
  member = In-append_left r.reached (f false) (f true) r.member;
  agrees = r.agrees;
  keeps = r.keeps;
}
either true v ks parent f r = record {
  reached = r.reached;
  member = In-append_right r.reached (f false) (f true) r.member;
  agrees = r.agrees;
  keeps = r.keeps;
}

process_boolean_map-IsReached :
    (v : Text → Bool) (key : Text) (ks : List Text) (parent : Map Bool)
    → IsReached v (key ∷ ks) parent (process_boolean_map (key ∷ ks) parent (v key))
unfolding process_boolean_map
process_boolean_map-IsReached v key [] parent = record {
  reached = insert key (v key) parent;
  member = inl refl;
  agrees = (insert-agrees v key parent, tt);
  keeps = λ k h. insert-keeps v key k parent h;
}
process_boolean_map-IsReached v key (key' ∷ ks) parent =
    let child = insert key (v key) parent in
    let r = process_boolean_map-IsReached v key' ks child in
    either (v key') v (key ∷ key' ∷ ks) parent (λ b. process_boolean_map (key' ∷ ks) child b)
      (record {
        reached = r.reached;
        member = r.member;
        agrees = (r.keeps key (insert-agrees v key parent), r.agrees);
        keeps = λ k h. r.keeps k (insert-keeps v key k parent h);
      })

-- Every assignment of truth values is reached, on the keys that the enumeration is about.
pub assignments_complete :
    (v : Text → Bool) (key : Text) (ks : List Text)
    → (m : Map Bool) × In m (assignments (key ∷ ks)) × All (λ k. value_at m k ≡ v k) (key ∷ ks)
unfolding assignments
assignments_complete v key ks =
    let r =
      either (v key) v (key ∷ ks) [] (λ b. process_boolean_map (key ∷ ks) [] b)
        (process_boolean_map-IsReached v key ks []) in
    (r.reached, r.member, r.agrees)

In-keys-kept :
    (x k : Text) (b : Bool) (m : Map Bool) → (x ≡ k) ⊎ In x (keys m) → In x (keys (insert k b m))
unfolding insert
In-keys-kept x k b [] (inl e) = inl e
In-keys-kept x k b [] (inr h) = absurd h
In-keys-kept x k b ((j, w) ∷ m) (inl e) = elim (Bool-cases (text_eq j k)) [
  | inl same ↦ rw same (inl e)
  | inr other ↦ rw other (inr (In-keys-kept x k b m (inl e)))
]
In-keys-kept x k b ((j, w) ∷ m) (inr (inl e)) = elim (Bool-cases (text_eq j k)) [
  | inl same ↦ rw same (inl (e ∙ (text_eq_iff j k).0 same))
  | inr other ↦ rw other (inl e)
]
In-keys-kept x k b ((j, w) ∷ m) (inr (inr h)) = elim (Bool-cases (text_eq j k)) [
  | inl same ↦ rw same (inr h)
  | inr other ↦ rw other (inr (In-keys-kept x k b m (inr h)))
]

In-unique_from :
    (x : Text) (xs : List Text) (m : Map Bool)
    → In x xs ⊎ In x (keys m)
    → In x (keys (unique_from xs m))
unfolding unique_from
In-unique_from x [] m (inl h) = absurd h
In-unique_from x [] m (inr h) = h
In-unique_from x (y ∷ ys) m (inl (inl e)) =
    In-unique_from x ys (insert y true m) (inr (In-keys-kept x y true m (inl e)))
In-unique_from x (y ∷ ys) m (inl (inr h)) = In-unique_from x ys (insert y true m) (inl h)
In-unique_from x (y ∷ ys) m (inr h) =
    In-unique_from x ys (insert y true m) (inr (In-keys-kept x y true m (inr h)))

pub In-unique_from_inv :
    (x : Text) (xs : List Text) (m : Map Bool)
    → In x (keys (unique_from xs m))
    → In x xs ⊎ In x (keys m)
unfolding unique_from
In-unique_from_inv x [] m i = inr i
In-unique_from_inv x (y ∷ xs) m i = elim (In-unique_from_inv x xs (insert y true m) i) [
  | inl j ↦ inl (inr j)
  | inr j ↦ elim (In-keys-insert x y true m j) [ inl e ↦ inl (inl e) | inr old ↦ inr old ]
]

pub In-remove_duplicates : (x : Text) (xs : List Text) → In x xs → In x (remove_duplicates xs)
unfolding remove_duplicates
In-remove_duplicates x xs h = In-unique_from x xs [] (inl h)

-- Two assignments that agree on some leaves.
abbrev pub SameOn : Map Bool → Map Bool → List Text → Type 0
SameOn values values' reps = (rep : Text) → In rep reps → value_at values rep ≡ value_at values' rep

module _ (values values' : Map Bool) where
  SameOn-unique :
      (reps : List Text)
      → SameOn values values' (remove_duplicates reps)
      → SameOn values values' reps
  SameOn-unique reps h rep i = h rep (In-remove_duplicates rep reps i)

mutual
  unfolding get_leaf_representations evaluate

  evaluate-SameOn_rule :
      (rule : DynamicRule) (values values' : Map Bool)
      → SameOn values values' (get_leaf_representations rule)
      → evaluate rule values ≡ evaluate rule values'
  evaluate-SameOn_rule (leaf krp) values values' h = h krp.rep (inl refl)
  evaluate-SameOn_rule (and_dynamic rules patterns prefixes) values values' h =
      evaluate_and-SameOn rules values values' true true refl
        (SameOn-unique values values' (nested_representations rules) h)
  evaluate-SameOn_rule (or_dynamic rules patterns prefixes) values values' h =
      evaluate_or-SameOn rules values values' false false refl
        (SameOn-unique values values' (nested_representations rules) h)
  evaluate-SameOn_rule (not_dynamic rule) values values' h = ap not (
      evaluate-SameOn_rule rule values values'
        (SameOn-unique values values' (get_leaf_representations rule) h))

  evaluate_and-SameOn :
      (rules : DynamicRules) (values values' : Map Bool) (b b' : Bool)
      → b ≡ b'
      → SameOn values values' (nested_representations rules)
      → evaluate_and rules values b ≡ evaluate_and rules values' b'
  evaluate_and-SameOn empty values values' b b' e h = e
  evaluate_and-SameOn (more rule rules) values values' b b' e h =
      evaluate_and-SameOn rules values values' _ _
        (ap₂ ◌&&◌ e (
          evaluate-SameOn_rule rule values values'
            (λ rep i. h rep (In-append_left rep _ (nested_representations rules) i))))
        (λ rep i. h rep (In-append_right rep (get_leaf_representations rule) _ i))

  evaluate_or-SameOn :
      (rules : DynamicRules) (values values' : Map Bool) (b b' : Bool)
      → b ≡ b'
      → SameOn values values' (nested_representations rules)
      → evaluate_or rules values b ≡ evaluate_or rules values' b'
  evaluate_or-SameOn empty values values' b b' e h = e
  evaluate_or-SameOn (more rule rules) values values' b b' e h =
      evaluate_or-SameOn rules values values' _ _
        (ap₂ ◌||◌ e (
          evaluate-SameOn_rule rule values values'
            (λ rep i. h rep (In-append_left rep _ (nested_representations rules) i))))
        (λ rep i. h rep (In-append_right rep (get_leaf_representations rule) _ i))

pub evaluate-SameOn :
    (rule : DynamicRule) (values values' : Map Bool)
    → SameOn values values' (get_leaf_representations rule)
    → evaluate rule values ≡ evaluate rule values'
evaluate-SameOn rule values values' h = evaluate-SameOn_rule rule values values' h
