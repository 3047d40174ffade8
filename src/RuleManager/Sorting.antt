-- ===== src/RuleManager/Sorting.antt =====
-- rules/rule_manager.go: `sortPrefixesByLength`.
use go_etcd_rules.Base.{
  ℕ, suc, ◌+◌, ◌≤◌, ◌≡◌, ◌↔◌, ◌⊎◌, refl, ap, ◌∙◌, inl, inr, List, [], ◌∷◌, Text, arith, ltb, ltb→lt,
  if◌then◌else◌, Bool-cases, length, get_elem?, set, In,
}
use go_etcd_rules.RuleManager.{read, at, shift, sort_rounds, sort_prefixes_by_length}

-- The sorted part of the array, last element first, and the rest.
abbrev rewind : List Text → List Text → List Text
rewind [] ys = ys
rewind (x ∷ rp) ys = rewind rp (x ∷ ys)

at-rewind :
    (rp ys : List Text) (i k : ℕ) → i ≡ length rp + k → get_elem? (rewind rp ys) i ≡ get_elem? ys k
at-rewind [] ys i k e = let same : i ≡ k = omega arith in rw same
at-rewind (x ∷ rp) ys i k e = at-rewind rp (x ∷ ys) i (suc k) (omega arith)

set-rewind :
    (rp ys : List Text) (i k : ℕ) (v : Text)
    → i ≡ length rp + k
    → set (rewind rp ys) i v ≡ rewind rp (set ys k v)
set-rewind [] ys i k v e = let same : i ≡ k = omega arith in rw same
set-rewind (x ∷ rp) ys i k v e = set-rewind rp (x ∷ ys) i (suc k) v (omega arith)

at-head : (rp : List Text) {x : Text} (ys : List Text) → at (rewind rp (x ∷ ys)) (length rp) ≡ x
unfolding at
at-head rp {x} ys = ap read (at-rewind rp (x ∷ ys) (length rp) 0 (omega arith))

abbrev ins : Text → List Text → List Text
ins x [] = x ∷ []
ins x (l ∷ rp) =
    let further = l ∷ ins x rp in if ltb (length x) (length l) then further else x ∷ l ∷ rp

-- What the inner loop leaves: the new text in its place among the sorted ones.
shift-rewind :
    (rp ys : List Text) (x h : Text)
    → shift (rewind rp (h ∷ ys)) x (length rp) ≡ rewind (ins x rp) ys
unfolding shift
shift-rewind [] ys x h = refl
shift-rewind (l ∷ rp) ys x h =
    let here = at-head rp {x = l} (h ∷ ys) in
    let put = λ (v : Text). set-rewind rp (l ∷ h ∷ ys) (suc (length rp)) 1 v (omega arith) in
    elim (Bool-cases (ltb (length x) (length l))) [
      | inl lt ↦ rw (here, put l, lt) (shift-rewind rp (l ∷ ys) x l)
      | inr ge ↦ rw (here, put x, ge)
    ]

length-ins : (x : Text) (rp : List Text) → length (ins x rp) ≡ suc (length rp)
length-ins x [] = refl
length-ins x (l ∷ rp) = ground (arith, length-ins x rp)

abbrev inserted : List Text → List Text → List Text
inserted rp [] = rp
inserted rp (x ∷ xs) = inserted (ins x rp) xs

sort_rounds-rewind :
    (rp todo : List Text) (i : ℕ)
    → i ≡ length rp
    → sort_rounds (length todo) i (rewind rp todo) ≡ rewind (inserted rp todo) []
unfolding sort_rounds
sort_rounds-rewind rp [] i e = refl
sort_rounds-rewind rp (x ∷ todo) i e =
    let sorted : shift (rewind rp (x ∷ todo)) (at (rewind rp (x ∷ todo)) i) i
        ≡ rewind (ins x rp) todo =
      rw (e, at-head rp {x = x} todo) (shift-rewind rp todo x x) in
    ap (sort_rounds (length todo) (i + 1)) sorted
    ∙ sort_rounds-rewind (ins x rp) todo (i + 1) (omega (arith, length-ins x rp))

sort_lem :
    (prefixes : List Text) → sort_prefixes_by_length prefixes ≡ rewind (inserted [] prefixes) []
unfolding sort_prefixes_by_length
sort_lem [] = refl
sort_lem (p ∷ ps) = sort_rounds-rewind (p ∷ []) ps 1 (omega arith)

In-rewind : (x : Text) (rp ys : List Text) → In x (rewind rp ys) ↔ (In x rp ⊎ In x ys)
In-rewind x [] ys = (λ h. inr h, λ h. elim h [ inl k ↦ absurd k | inr k ↦ k ])
In-rewind x (y ∷ rp) ys =
    let (to, from) = In-rewind x rp (y ∷ ys) in
    (
      λ h. elim (to h) [ inl k ↦ inl (inr k) | inr (inl e) ↦ inl (inl e) | inr (inr k) ↦ inr k ],
      λ h. elim h [
        | inl (inl e) ↦ from (inr (inl e))
        | inl (inr k) ↦ from (inl k)
        | inr k ↦ from (inr (inr k))
      ],
    )

In-ins : (x y : Text) (rp : List Text) → In x (ins y rp) ↔ ((x ≡ y) ⊎ In x rp)
In-ins x y [] = (λ h. h, λ h. h)
In-ins x y (l ∷ rp) =
    let (to, from) = In-ins x y rp in
    elim (Bool-cases (ltb (length y) (length l))) [
      | inr ge ↦ rw ge (λ h. h, λ h. h)
      | inl lt ↦ rw lt (
        λ h. elim h [
          | inl e ↦ inr (inl e)
          | inr k ↦ elim (to k) [ inl e ↦ inl e | inr j ↦ inr (inr j) ]
        ],
        λ h. elim h [
          | inl e ↦ inr (from (inl e))
          | inr (inl e) ↦ inl e
          | inr (inr j) ↦ inr (from (inr j))
        ],
      )
    ]

In-inserted : (x : Text) (rp xs : List Text) → In x (inserted rp xs) ↔ (In x rp ⊎ In x xs)
In-inserted x rp [] = (λ h. inl h, λ h. elim h [ inl k ↦ k | inr k ↦ absurd k ])
In-inserted x rp (y ∷ ys) =
    let (to, from) = In-inserted x (ins y rp) ys in
    let (to', from') = In-ins x y rp in
    (
      λ h. elim (to h) [
        | inl k ↦ elim (to' k) [ inl e ↦ inr (inl e) | inr j ↦ inl j ]
        | inr k ↦ inr (inr k)
      ],
      λ h. elim h [
        | inl k ↦ from (inl (from' (inr k)))
        | inr (inl e) ↦ from (inl (from' (inl e)))
        | inr (inr k) ↦ from (inr k)
      ],
    )

-- Sorting keeps the texts.
pub In-sort :
    (x : Text) (prefixes : List Text) → In x (sort_prefixes_by_length prefixes) ↔ In x prefixes
In-sort x prefixes =
    let (to, from) = In-rewind x (inserted [] prefixes) [] in
    let (to', from') = In-inserted x [] prefixes in
    rw (sort_lem prefixes) (
      λ h. elim (to h) [ inl k ↦ elim (to' k) [ inl j ↦ absurd j | inr j ↦ j ] | inr k ↦ absurd k ],
      λ h. from (inl (from' (inr h))),
    )

abbrev pub IsRising : List Text → Type 0
IsRising [] = Unit
IsRising (x ∷ xs) = ((y : Text) → In y xs → length x ≤ length y) × IsRising xs

abbrev IsFalling : List Text → Type 0
IsFalling [] = Unit
IsFalling (x ∷ xs) = ((y : Text) → In y xs → length y ≤ length x) × IsFalling xs

IsFalling-ins : (x : Text) (rp : List Text) → IsFalling rp → IsFalling (ins x rp)
IsFalling-ins x [] h = (λ y k. absurd k, tt)
IsFalling-ins x (l ∷ rp) h = elim (Bool-cases (ltb (length x) (length l))) [
  | inl lt ↦ rw lt (
    λ y k. elim ((In-ins y x rp).0 k) [
      | inl e ↦ rw e (omega (arith, ltb→lt (length x) (length l) lt))
      | inr j ↦ h.0 y j
    ],
    IsFalling-ins x rp h.1,
  )
  | inr ge ↦ rw ge (
    λ y k. elim k [ inl e ↦ rw e (ground arith) | inr j ↦ let below = h.0 y j in ground arith ],
    h,
  )
]

IsFalling-inserted : (rp xs : List Text) → IsFalling rp → IsFalling (inserted rp xs)
IsFalling-inserted rp [] h = h
IsFalling-inserted rp (x ∷ xs) h = IsFalling-inserted (ins x rp) xs (IsFalling-ins x rp h)

IsRising-rewind :
    (rp ys : List Text)
    → IsFalling rp
    → IsRising ys
    → ((x y : Text) → In x rp → In y ys → length x ≤ length y)
    → IsRising (rewind rp ys)
IsRising-rewind [] ys f r h = r
IsRising-rewind (x ∷ rp) ys f r h =
    IsRising-rewind rp (x ∷ ys) f.1 (λ y k. h x y (inl refl) k, r)
      (λ a b i j. elim j [ inl e ↦ rw e (f.0 a i) | inr k ↦ h a b (inr i) k ])

-- The sorted list goes from the shortest text to the longest.
pub sort-IsRising : (prefixes : List Text) → IsRising (sort_prefixes_by_length prefixes)
sort-IsRising prefixes = rw (sort_lem prefixes) (
    IsRising-rewind (inserted [] prefixes) [] (IsFalling-inserted [] prefixes tt) tt
      (λ x y i j. absurd j))
