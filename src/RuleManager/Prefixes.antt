-- ===== src/RuleManager/Prefixes.antt =====
-- rules/rule_manager.go: what `reducePrefixes` keeps.
use go_etcd_rules.Base.{
  ◌≤◌, ◌≡◌, ◌⊎◌, refl, sym, ◌∙◌, inl, inr, true, false, List, [], ◌∷◌, Text, arith, if◌then◌else◌,
  Bool-cases, length, In, has_prefix,
}
use go_etcd_rules.RuleManager.{has_shorter, reduce_from, sort_prefixes_by_length, reduce_prefixes}
use go_etcd_rules.RuleManager.Sorting.{In-sort, IsRising, sort-IsRising}

has_prefix_refl : (p : Text) → has_prefix p p ≡ true
unfolding has_prefix
has_prefix_refl [] = refl
has_prefix_refl (c ∷ p) = ground (arith, has_prefix_refl p)

-- A prefix that is no shorter than the text is the text.
has_prefix-le : (p s : Text) → has_prefix p s ≡ true → length s ≤ length p → s ≡ p
unfolding has_prefix
has_prefix-le [] [] h le = refl
has_prefix-le [] (d ∷ s) h le = absurd (omega arith)
has_prefix-le (c ∷ p) [] h le = cc
has_prefix-le (c ∷ p) (d ∷ s) h le = ground (arith, has_prefix-le p s)

has_shorter_sound :
    (p : Text) (out : List Text)
    → has_shorter p out ≡ true
    → (q : Text) × In q out × (has_prefix q p ≡ true)
unfolding has_shorter
has_shorter_sound p [] h = cc
has_shorter_sound p (a ∷ out) h = elim (Bool-cases (has_prefix a p)) [
  | inl here ↦ (a, inl refl, here)
  | inr other ↦ let (q, i, e) = has_shorter_sound p out (ground arith) in (q, inr i, e)
]

has_shorter_complete :
    (p q : Text) (out : List Text) → In q out → has_prefix q p ≡ true → has_shorter p out ≡ true
unfolding has_shorter
has_shorter_complete p q [] i h = absurd i
has_shorter_complete p q (a ∷ out) (inl e) h =
    let here : has_prefix a p ≡ true = rw e at h in rw here
has_shorter_complete p q (a ∷ out) (inr i) h = ground (arith, has_shorter_complete p q out i h)

abbrev next : Text → List Text → List Text
next p out = if has_shorter p out then out else p ∷ out

In-next : (p q : Text) (out : List Text) → In q out → In q (next p out)
In-next p q out i = elim (Bool-cases (has_shorter p out)) [
  | inl skip ↦ rw skip i
  | inr add ↦ rw add (inr i)
]

reduce_from_keeps : (ps out : List Text) (q : Text) → In q out → In q (reduce_from ps out)
unfolding reduce_from
reduce_from_keeps [] out q i = i
reduce_from_keeps (p ∷ ps) out q i = reduce_from_keeps ps (next p out) q (In-next p q out i)

-- A prefix in the result that begins the given one.
abbrev pub IsCovered : Text → List Text → Type 0
IsCovered p out = (q : Text) × In q out × (has_prefix q p ≡ true)

IsCovered-next : (p : Text) (out : List Text) → IsCovered p (next p out)
IsCovered-next p out = elim (Bool-cases (has_shorter p out)) [
  | inl skip ↦ rw skip (has_shorter_sound p out skip)
  | inr add ↦ rw add (p, inl refl, has_prefix_refl p)
]

reduce_from_covers : (ps out : List Text) (p : Text) → In p ps → IsCovered p (reduce_from ps out)
unfolding reduce_from
reduce_from_covers [] out p i = absurd i
reduce_from_covers (a ∷ ps) out p (inl e) =
    let (q, i, h) = IsCovered-next a out in (q, reduce_from_keeps ps (next a out) q i, rw e h)
reduce_from_covers (a ∷ ps) out p (inr i) = reduce_from_covers ps (next a out) p i

reduce_from_subset :
    (ps out : List Text) (q : Text) → In q (reduce_from ps out) → In q ps ⊎ In q out
unfolding reduce_from
reduce_from_subset [] out q i = inr i
reduce_from_subset (p ∷ ps) out q i = elim (reduce_from_subset ps (next p out) q i) [
  | inl j ↦ inl (inr j)
  | inr j ↦ elim (Bool-cases (has_shorter p out)) [
    | inl skip ↦ inr (rw skip at j)
    | inr add ↦ elim (added add j) [ inl e ↦ inl (inl e) | inr k ↦ inr k ]
  ]
]
  where
    added : has_shorter p out ≡ false → In q (next p out) → (q ≡ p) ⊎ In q out
    added add j = rw add at j

-- Watching the reduced prefixes covers every prefix: each begins with a reduced one, and the
-- reduced ones are among the given ones.
pub reduce_prefixes-IsCovered :
    (prefixes : List Text)
    → ((p : Text) → In p prefixes → IsCovered p (reduce_prefixes prefixes))
      × ((q : Text) → In q (reduce_prefixes prefixes) → In q prefixes)
unfolding reduce_prefixes
reduce_prefixes-IsCovered prefixes = (
  λ p i. reduce_from_covers (sort_prefixes_by_length prefixes) [] p ((In-sort p prefixes).1 i),
  λ q i. elim (reduce_from_subset (sort_prefixes_by_length prefixes) [] q i) [
    | inl j ↦ (In-sort q prefixes).0 j
    | inr j ↦ absurd j
  ],
)

-- No text begins with another one of the list, unless they are equal.
abbrev pub IsReduced : List Text → Type 0
IsReduced out = (p q : Text) → In p out → In q out → has_prefix p q ≡ true → p ≡ q

abbrev IsBelow : List Text → List Text → Type 0
IsBelow out ps = (p q : Text) → In p out → In q ps → length p ≤ length q

IsReduced-next :
    (p : Text) (out : List Text)
    → ((q : Text) → In q out → length q ≤ length p)
    → IsReduced out
    → IsReduced (next p out)
IsReduced-next p out below r = elim (Bool-cases (has_shorter p out)) [
  | inl skip ↦ rw skip r
  | inr add ↦ rw add (λ a b i j h. added add a b i j h)
]
  where
    added :
        has_shorter p out ≡ false
        → (a b : Text) → In a (p ∷ out)
        → In b (p ∷ out)
        → has_prefix a b ≡ true
        → a ≡ b
    added add a b (inl e) (inl e') h = e ∙ sym e'
    added add a b (inl e) (inr j) h =
        let le = below b j in
        let le' : length b ≤ length a = rw e le in sym (has_prefix-le a b h le')
    added add a b (inr i) (inl e') h =
        let here : has_prefix a p ≡ true = rw e' at h in
        absurd (ground (arith, has_shorter_complete p a out i here))
    added add a b (inr i) (inr j) h = r a b i j h

reduce_from-IsReduced :
    (ps out : List Text)
    → IsRising ps
    → IsBelow out ps
    → IsReduced out
    → IsReduced (reduce_from ps out)
unfolding reduce_from
reduce_from-IsReduced [] out rising below r = r
reduce_from-IsReduced (p ∷ ps) out rising below r =
    reduce_from-IsReduced ps (next p out) rising.1 (λ a b i j. below_next a b i j)
      (IsReduced-next p out (λ q i. below q p i (inl refl)) r)
  where
    below_next : (a b : Text) → In a (next p out) → In b ps → length a ≤ length b
    below_next a b i j = elim (Bool-cases (has_shorter p out)) [
      | inl skip ↦ below a b (rw skip at i) (inr j)
      | inr add ↦ elim (added add) [ inl e ↦ rw e (rising.0 b j) | inr k ↦ below a b k (inr j) ]
    ]
      where
        added : has_shorter p out ≡ false → (a ≡ p) ⊎ In a out
        added add = rw add at i

-- No reduced prefix begins with another reduced prefix.
pub reduce_prefixes-IsReduced : (prefixes : List Text) → IsReduced (reduce_prefixes prefixes)
unfolding reduce_prefixes
reduce_prefixes-IsReduced prefixes =
    reduce_from-IsReduced (sort_prefixes_by_length prefixes) [] (sort-IsRising prefixes)
      (λ p q i j. absurd i) (λ p q i j h. absurd i)
