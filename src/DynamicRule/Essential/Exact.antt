-- ===== src/DynamicRule/Essential/Exact.antt =====
-- rules/dynamic_rule.go: what `getEssentialRepresentations` finds.
use go_etcd_rules.Base.{
  Bool, true, false, ◌≡◌, ◌↔◌, sym, ◌∙◌, ◌⊎◌, inl, inr, List, [], ◌∷◌, Text, text_eq, text_eq_iff,
  text_eq_refl, arith, if◌then◌else◌, Bool-cases, All, In, Map, insert,
}
use go_etcd_rules.DynamicRule.{DynamicRule}
use go_etcd_rules.DynamicRule.Essential.{
  value_at, get_leaf_representations, evaluate, clear_false, process, all_true, keep_true,
  assignments, get_essential_representations,
}
use go_etcd_rules.DynamicRule.Essential.Assignments.{
  value_at-insert, assignments_complete, SameOn, evaluate-SameOn,
}

insert-false :
    (k j : Text) (m : Map Bool) → value_at (insert k false m) j ≡ true → value_at m j ≡ true
insert-false k j m h = ground (arith, value_at-insert k j false m)

module _ (values : Map Bool) (rep : Text) where
  abbrev step : Text → Map Bool → Map Bool
  step r must = if value_at values r then must else insert r false must

  step_old :
      (r : Text) (must : Map Bool) → value_at (step r must) rep ≡ true → value_at must rep ≡ true
  step_old r must h = elim (Bool-cases (value_at values r)) [
    | inl is_true ↦ ground arith
    | inr is_false ↦ insert-false r rep must (rw is_false at h)
  ]

  clear_false_old :
      (reps : List Text) (must : Map Bool)
      → value_at (clear_false reps values must) rep ≡ true
      → value_at must rep ≡ true
  unfolding clear_false
  clear_false_old [] must h = h
  clear_false_old (r ∷ reps) must h = step_old r must (clear_false_old reps (step r must) h)

  step_here : (must : Map Bool) → value_at (step rep must) rep ≡ true → value_at values rep ≡ true
  step_here must h = elim (Bool-cases (value_at values rep)) [
    | inl is_true ↦ is_true
    | inr is_false ↦
        let cleared : value_at (insert rep false must) rep ≡ true = rw is_false at h in
        absurd (ground (arith, value_at-insert rep rep false must, text_eq_refl rep))
  ]

  clear_false-true :
      (reps : List Text) (must : Map Bool)
      → In rep reps
      → value_at (clear_false reps values must) rep ≡ true
      → value_at values rep ≡ true
  unfolding clear_false
  clear_false-true [] must i h = absurd i
  clear_false-true (r ∷ reps) must (inl e) h =
      let kept = clear_false_old reps (step r must) h in step_here must (rw (← e) at kept)
  clear_false-true (r ∷ reps) must (inr i) h = clear_false-true reps (step r must) i h

  step_keeps :
      (r : Text) (must : Map Bool)
      → value_at must rep ≡ true
      → value_at values rep ≡ true
      → value_at (step r must) rep ≡ true
  step_keeps r must h v = elim (Bool-cases (value_at values r)) [
    | inl is_true ↦ rw is_true h
    | inr is_false ↦ elim (Bool-cases (text_eq r rep)) [
      | inl same ↦
          let e : r ≡ rep = (text_eq_iff r rep).0 same in
          let f : value_at values rep ≡ false = rw e at is_false in absurd (ground arith)
      | inr other ↦ rw is_false (value_at-insert r rep false must ∙ rw other h)
    ]
  ]

  clear_false_keeps :
      (reps : List Text) (must : Map Bool)
      → value_at must rep ≡ true
      → value_at values rep ≡ true
      → value_at (clear_false reps values must) rep ≡ true
  unfolding clear_false
  clear_false_keeps [] must h v = h
  clear_false_keeps (r ∷ reps) must h v =
      clear_false_keeps reps (step r must) (step_keeps r must h v) v

module _ (rule : DynamicRule) (reps : List Text) (rep : Text) where
  abbrev Forces : Map Bool → Type 0
  Forces values = evaluate rule values ≡ true → value_at values rep ≡ true

  abbrev marked : Map Bool → Map Bool → Map Bool
  marked values must = if evaluate rule values then clear_false reps values must else must

  marked_old :
      (values must : Map Bool) → value_at (marked values must) rep ≡ true → value_at must rep ≡ true
  marked_old values must h = elim (Bool-cases (evaluate rule values)) [
    | inl sat ↦ clear_false_old values rep reps must (rw sat at h)
    | inr unsat ↦ rw unsat at h
  ]

  process_old :
      (ms : List (Map Bool)) (must : Map Bool)
      → value_at (process rule reps ms must) rep ≡ true
      → value_at must rep ≡ true
  unfolding process
  process_old [] must h = h
  process_old (values ∷ ms) must h = marked_old values must (process_old ms (marked values must) h)

  process_sound :
      (ms : List (Map Bool)) (must m : Map Bool)
      → In rep reps
      → value_at (process rule reps ms must) rep ≡ true
      → In m ms
      → Forces m
  unfolding process
  process_sound [] must m i h (k) = absurd k
  process_sound (values ∷ ms) must m i h (inl e) = λ sat.
      let kept : value_at (marked values must) rep ≡ true = process_old ms (marked values must) h in
      let sat' : evaluate rule values ≡ true = rw e at sat in
      rw e (clear_false-true values rep reps must i (rw sat' at kept))
  process_sound (values ∷ ms) must m i h (inr k) = process_sound ms (marked values must) m i h k

  process_complete :
      (ms : List (Map Bool)) (must : Map Bool)
      → value_at must rep ≡ true
      → ((m : Map Bool) → Forces m)
      → value_at (process rule reps ms must) rep ≡ true
  unfolding process
  process_complete [] must h f = h
  process_complete (values ∷ ms) must h f = elim (Bool-cases (evaluate rule values)) [
    | inl sat ↦
        process_complete ms (marked values must)
          (rw sat (clear_false_keeps values rep reps must h (f values sat))) f
    | inr unsat ↦ process_complete ms (marked values must) (rw unsat h) f
  ]

all_true_old :
    (reps : List Text) (must : Map Bool) (rep : Text)
    → value_at must rep ≡ true
    → value_at (all_true reps must) rep ≡ true
unfolding all_true
all_true_old [] must rep h = h
all_true_old (r ∷ reps) must rep h =
    all_true_old reps (insert r true must) rep (ground (arith, value_at-insert r rep true must))

all_true_lem :
    (reps : List Text) (must : Map Bool) (rep : Text)
    → In rep reps
    → value_at (all_true reps must) rep ≡ true
unfolding all_true
all_true_lem [] must rep i = absurd i
all_true_lem (r ∷ reps) must rep (inl e) =
    all_true_old reps (insert r true must) rep
      (rw e (value_at-insert r r true must ∙ rw (text_eq_refl r)))
all_true_lem (r ∷ reps) must rep (inr i) = all_true_lem reps (insert r true must) rep i

keep_true_sound :
    (must : Map Bool) (reps : List Text) (rep : Text)
    → In rep (keep_true must reps)
    → In rep reps × (value_at must rep ≡ true)
unfolding keep_true
keep_true_sound must [] rep h = absurd h
keep_true_sound must (r ∷ reps) rep h = elim (Bool-cases (value_at must r)) [
  | inr drop ↦
      let later = keep_true_sound must reps rep (rw (drop, keep_true) at h) in
      (inr later.0, later.1)
  | inl keep ↦ elim (kept_inv keep) [
    | inl e ↦ (inl e, rw e keep)
    | inr i ↦ let later = keep_true_sound must reps rep i in (inr later.0, later.1)
  ]
]
  where
    kept_inv : value_at must r ≡ true → (rep ≡ r) ⊎ In rep (keep_true must reps)
    kept_inv keep = rw keep at h

keep_true_complete :
    (must : Map Bool) (reps : List Text) (rep : Text)
    → In rep reps
    → value_at must rep ≡ true
    → In rep (keep_true must reps)
unfolding keep_true
keep_true_complete must [] rep i h = absurd i
keep_true_complete must (r ∷ reps) rep (inl e) h =
    let here : value_at must r ≡ true = rw e at h in rw here (inl e)
keep_true_complete must (r ∷ reps) rep (inr i) h = elim (Bool-cases (value_at must r)) [
  | inl keep ↦ rw keep (inr (keep_true_complete must reps rep i h))
  | inr drop ↦ rw drop (keep_true_complete must reps rep i h)
]

All_at : (P : Text → Type 0) (xs : List Text) (x : Text) → All P xs → In x xs → P x
All_at P [] x h i = absurd i
All_at P (y ∷ ys) x h (inl e) = rw e h.0
All_at P (y ∷ ys) x h (inr i) = All_at P ys x h.1 i

-- Some assignment that was tried agrees with any given one on the leaves.
reached_on :
    (reps : List Text) (rep : Text) (values : Map Bool)
    → In rep reps
    → (m : Map Bool) × In m (assignments reps) × SameOn m values reps
reached_on [] rep values i = absurd i
reached_on (r ∷ reps) rep values i =
    let (m, tried, agrees) = assignments_complete (value_at values) r reps in
    (m, tried, λ k j. All_at (λ k. value_at m k ≡ value_at values k) (r ∷ reps) k agrees j)

-- A leaf is essential exactly if it is a leaf of the rule and is true in every assignment of truth
-- values that makes the rule true.
pub get_essential_representations_iff :
    (rule : DynamicRule) (rep : Text)
    → In rep (get_essential_representations rule) ↔ (
        In rep (get_leaf_representations rule)
        × ((values : Map Bool) → evaluate rule values ≡ true → value_at values rep ≡ true))
unfolding get_essential_representations
get_essential_representations_iff rule rep =
    let reps = get_leaf_representations rule in
    let tried = assignments reps in
    let must = all_true reps [] in
    (
      λ h.
          let (i, kept) = keep_true_sound (process rule reps tried must) reps rep h in
          (
            i,
            λ values sat.
                let (m, in_tried, same) = reached_on reps rep values i in
                sym (same rep i)
                ∙ process_sound rule reps rep tried must m i kept in_tried
                    (evaluate-SameOn rule m values same ∙ sat),
          ),
      λ h.
          keep_true_complete (process rule reps tried must) reps rep h.0
            (process_complete rule reps rep tried must (all_true_lem reps [] rep h.0) h.1),
    )
