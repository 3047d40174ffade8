-- ===== src/DynamicRule/Fixing.antt =====
-- rules/dynamic_rule.go: the parameters of patterns, and of a pattern in which one was fixed.
use go_etcd_rules.Base.{
  ℕ, ◌+◌, ◌≡◌, ◌≢◌, refl, sym, ap, ◌∙◌, ◌⊎◌, inl, inr, Bool, true, false, List, [], ◌∷◌, ◌++◌,
  Option, none, some, Text, text_eq, text_eq_iff, ◌==◌, ==_iff, ==_refl, if◌then◌else◌, split,
  prepend, Map, lookup, keys, insert, In, In-keys-insert, All, Bool-cases, Option-cases,
}
use go_etcd_rules.Matcher.{
  slash, colon, Attributes, map_attributes, find_attribute, format_with_attributes, parse_path,
}
use go_etcd_rules.Matcher.Segments.{
  Segment, literal, param, classify, segments, shown, render, format_path_lem,
}
use go_etcd_rules.Matcher.Fields.{index_fields, parse_path_lem}
use go_etcd_rules.Matcher.Search.{params}
use go_etcd_rules.DynamicRule.Essential.Assignments.{In-unique_from_inv}
use go_etcd_rules.DynamicRule.Expand.{ValueMap, params_from, first_param}

abbrev pub NoSlash : Text → Type 0
NoSlash w = All (λ c. (c == slash) ≡ false) w

-- A value that can stand in a path: it has no slash and does not begin with a colon.
abbrev pub IsFixed : Text → Type 0
IsFixed v = NoSlash v × ((name : Text) → v ≢ colon ∷ name)

split-append :
    (w t : Text) (ws : List Text)
    → NoSlash w
    → split slash t ≡ [] ∷ ws
    → split slash (w ++ t) ≡ w ∷ ws
unfolding split
split-append [] t ws h e = e
split-append (c ∷ w) t ws h e = rw (h.0, split-append w t ws h.1 e) refl

prepend-NoSlash :
    (c : ℕ) (ws : List Text) → (c == slash) ≡ false → All NoSlash ws → All NoSlash (prepend c ws)
prepend-NoSlash c [] keep h = ((keep, tt), tt)
prepend-NoSlash c (w ∷ ws) keep h = ((keep, h.0), h.1)

split-NoSlash : (s : Text) → All NoSlash (split slash s)
unfolding split
split-NoSlash [] = (tt, tt)
split-NoSlash (c ∷ s) = elim (Bool-cases (c == slash)) [
  | inl cut ↦ rw cut (tt, split-NoSlash s)
  | inr keep ↦ rw keep (prepend-NoSlash c (split slash s) keep (split-NoSlash s))
]

-- What the segments of a pattern are like.
abbrev IsWhole : Segment → Type 0
IsWhole (literal w) = IsFixed w
IsWhole (param name) = NoSlash name

not_colon : (c : ℕ) (w name : Text) → (c == colon) ≡ false → c ∷ w ≢ colon ∷ name
not_colon c w name text e =
    let same : c ≡ colon = cc e in
    let yes : (c == colon) ≡ true = rw same (==_refl colon) in cc (sym text ∙ yes)

classify-IsWhole : (ws : List Text) → All NoSlash ws → All IsWhole (classify ws)
classify-IsWhole [] h = tt
classify-IsWhole ([] ∷ ws) h = classify-IsWhole ws h.1
classify-IsWhole ((c ∷ w) ∷ ws) h = elim (Bool-cases (c == colon)) [
  | inl name ↦ rw name (h.0.1, classify-IsWhole ws h.1)
  | inr text ↦ rw text ((h.0, λ name e. not_colon c w name text e), classify-IsWhole ws h.1)
]

In-params_piece : (x : Text) (ws : List Text) → In x (params (classify ws)) → In (colon ∷ x) ws
In-params_piece x [] i = absurd i
In-params_piece x ([] ∷ ws) i = inr (In-params_piece x ws i)
In-params_piece x ((c ∷ w) ∷ ws) i = elim (Bool-cases (c == colon)) [
  | inl name ↦ elim (rw name at i) [
    | inl e ↦ let first : colon ≡ c = sym ((==_iff c colon).0 name) in inl (rw (first, e) refl)
    | inr j ↦ inr (In-params_piece x ws j)
  ]
  | inr text ↦ inr (In-params_piece x ws (rw text at i))
]

module _ (f : Text → Option Text) where
  abbrev pieces : List Segment → List Text
  pieces [] = []
  pieces (literal w ∷ segs) = w ∷ pieces segs
  pieces (param name ∷ segs) = shown name (f name) ∷ pieces segs

  split-render :
      (segs : List Segment)
      → All NoSlash (pieces segs)
      → split slash (render f segs) ≡ [] ∷ pieces segs
  unfolding split render
  split-render [] h = refl
  split-render (literal w ∷ segs) h =
      ap (λ l. [] ∷ l) (split-append w (render f segs) (pieces segs) h.0 (split-render segs h.1))
  split-render (param name ∷ segs) h =
      ap (λ l. [] ∷ l)
        (split-append (shown name (f name)) (render f segs) (pieces segs) h.0
          (split-render segs h.1))

module _ (x v : Text) where
  abbrev pub fixing : Attributes
  fixing = map_attributes ((x, v) ∷ [])

  fixing-is : (n : Text) → find_attribute fixing n ≡ (if text_eq x n then some v else none)
  unfolding find_attribute lookup
  fixing-is n = refl

  pieces-NoSlash :
      (segs : List Segment)
      → IsFixed v
      → All IsWhole segs
      → All NoSlash (pieces (find_attribute fixing) segs)
  pieces-NoSlash [] hv h = tt
  pieces-NoSlash (literal w ∷ segs) hv h = (h.0.0, pieces-NoSlash segs hv h.1)
  pieces-NoSlash (param n ∷ segs) hv h = elim (Bool-cases (text_eq x n)) [
    | inl same ↦ (rw (fixing-is n, same) (hv.0), pieces-NoSlash segs hv h.1)
    | inr other ↦ (rw (fixing-is n, other) ((refl, h.0)), pieces-NoSlash segs hv h.1)
  ]

  In-pieces :
      (segs : List Segment) (y : Text)
      → IsFixed v
      → All IsWhole segs
      → In (colon ∷ y) (pieces (find_attribute fixing) segs)
      → In y (params segs) × (y ≢ x)
  In-pieces [] y hv h i = absurd i
  In-pieces (literal w ∷ segs) y hv h (inl e) = absurd (h.0.1 y (sym e))
  In-pieces (literal w ∷ segs) y hv h (inr i) = In-pieces segs y hv h.1 i
  In-pieces (param n ∷ segs) y hv h (inl e) = elim (Bool-cases (text_eq x n)) [
    | inl same ↦ absurd (hv.1 y (sym (rw (fixing-is n, same) at e)))
    | inr other ↦
        let is : y ≡ n = cc (rw (fixing-is n, other) at e) in
        (inl is, λ at. absurd (cc (sym other ∙ (text_eq_iff x n).1 (sym at ∙ is))))
  ]
  In-pieces (param n ∷ segs) y hv h (inr i) =
      let (j, different) = In-pieces segs y hv h.1 i in (inr j, different)

  -- Where one parameter is fixed by a value that can stand in a path, the parameters that are left are
  -- others of the pattern.
  pub format_with_attributes-params :
      (pattern y : Text)
      → IsFixed v
      → In y (params (segments (format_with_attributes pattern fixing)))
      → In y (params (segments pattern)) × (y ≢ x)
  unfolding format_with_attributes segments
  format_with_attributes-params pattern y hv i =
      let segs = segments pattern in
      let whole = classify-IsWhole (split slash pattern) (split-NoSlash pattern) in
      let rendered = ap (λ (r : Text × Bool). r.0) (format_path_lem pattern fixing) in
      let cut = split-render (find_attribute fixing) segs (pieces-NoSlash segs hv whole) in
      In-pieces segs y hv whole
        (In-params_piece y (pieces (find_attribute fixing) segs) (rw (rendered, cut) at i))

In-keys_index_fields :
    (segs : List Segment) (i : ℕ) (fields : Map ℕ) (x : Text)
    → In x (keys (index_fields segs i fields))
    → In x (params segs) ⊎ In x (keys fields)
unfolding index_fields
In-keys_index_fields [] i fields x h = inr h
In-keys_index_fields (literal w ∷ segs) i fields x h = In-keys_index_fields segs i fields x h
In-keys_index_fields (param n ∷ segs) i fields x h =
    elim (In-keys_index_fields segs (i + 1) (insert n i fields) x h) [
      | inl later ↦ inl (inr later)
      | inr j ↦ elim (In-keys-insert x n i fields j) [ inl e ↦ inl (inl e) | inr old ↦ inr old ]
    ]

-- A pattern of some that has a parameter.
abbrev pub HasParam : List Text → Text → Type 0
HasParam patterns x = (p : Text) × In p patterns × In x (params (segments p))

parse_path-params : (p x : Text) → In x (keys (parse_path p).fields) → In x (params (segments p))
parse_path-params p x i =
    let same = ap (λ (r : Map ℕ × Text). r.0) (parse_path_lem p) in
    elim (In-keys_index_fields (segments p) 1 [] x (rw same at i)) [ inl j ↦ j | inr j ↦ absurd j ]

pub params_from-HasParam :
    (patterns : List Text) (found : Map Bool) (x : Text)
    → In x (keys (params_from patterns found))
    → HasParam patterns x ⊎ In x (keys found)
unfolding params_from
params_from-HasParam [] found x i = inr i
params_from-HasParam (p ∷ rest) found x i = elim (params_from-HasParam rest _ x i) [
  | inl (q, j, k) ↦ inl (q, inr j, k)
  | inr j ↦ elim (In-unique_from_inv x (keys (parse_path p).fields) found j) [
    | inl here ↦ inl (p, inl refl, parse_path-params p x here)
    | inr old ↦ inr old
  ]
]

pub first_param_inv :
    (ps : List Text) (vm : ValueMap) (x : Text) (vs : List Text)
    → first_param ps vm ≡ some (x, vs)
    → In x ps × (lookup x vm ≡ some vs)
unfolding first_param
first_param_inv [] vm x vs e = cc
first_param_inv (p ∷ ps) vm x vs e = elim (Option-cases (lookup p vm)) [
  | inl absent ↦
      let (i, found) = first_param_inv ps vm x vs (rw (first_param, absent) at e) in (inr i, found)
  | inr (us, found) ↦
      let same : some (p, us) ≡ some (x, vs) = rw (first_param, found) at e in
      let name : x ≡ p = cc same in
      let values : us ≡ vs = cc same in (inl name, rw (name, found, values) refl)
]
