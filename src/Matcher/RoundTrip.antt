-- ===== src/Matcher/RoundTrip.antt =====
-- rules/matcher.go: matching a formatted key, and formatting with a match.
use go_etcd_rules.Base.{
  ℕ, zero, suc, ◌≡◌, ◌≢◌, refl, sym, ap, subst, ◌∙◌, inl, inr, Bool, true, List, [], ◌∷◌, ◌++◌, map,
  Option, none, some, Text, arith, length, get_elem?, In, All, lookup, ok, Option-cases,
}
use go_etcd_rules.Regex.{in_class, find_string_submatch}
use go_etcd_rules.Matcher.{
  Attributes, key_match, find_attribute, format_path, format_with_attributes, KeyMatcher,
  new_regex_key_matcher, match,
}
use go_etcd_rules.Matcher.Segments.{
  Segment, literal, param, segments, shown, render, is_bound, format_path_lem,
}
use go_etcd_rules.Matcher.Fields.{
  index_fields, items, IsPlain, matcher_of, new_regex_key_matcher_lem,
}
use go_etcd_rules.Matcher.Search.{
  params, values, IsValue, match_items-render, find_string_submatch_at_start,
}
use go_etcd_rules.Matcher.Inversion.{IsFound, find_string_submatch_inv}
use go_etcd_rules.Matcher.Names.{index_fields-Position, index_fields-total}

get_elem?-map :
    (f : Text → Text) (xs : List Text) (k : ℕ) {x : Text}
    → get_elem? xs k ≡ some x
    → get_elem? (map f xs) k ≡ some (f x)
get_elem?-map f [] k e = cc
get_elem?-map f (x ∷ xs) zero e = ground arith
get_elem?-map f (x ∷ xs) (suc k) e = get_elem?-map f xs k e

no_index : (name : Text) (j : ℕ) → lookup {V = ℕ} name [] ≢ some j
unfolding lookup
no_index name j = λ e. cc

-- A name's capture, in a list that has each parameter's value in order.
capture_lem :
    (f : Text → Option Text) (segs : List Segment) (whole name : Text)
    → In name (params segs)
    → find_attribute (key_match (whole ∷ values f segs) (index_fields segs 1 [])) name
      ≡ some (shown name (f name))
unfolding find_attribute
capture_lem f segs whole name h =
    let (j, indexed) = index_fields-total segs 1 [] name (inl h) in
    elim (index_fields-Position segs 1 [] name j indexed) [
      | inl old ↦ absurd (no_index name j old)
      | inr (k, at, found) ↦
          let at' : j ≡ suc k = omega arith in
          rw (indexed, at', find_attribute)
            (get_elem?-map (λ n. shown n (f n)) (params segs) k found)
    ]

shown-IsValue : (name : Text) (o : Option Text) → IsValue (shown name o) → some (shown name o) ≡ o
unfolding in_class
shown-IsValue name none h = ground arith
shown-IsValue name (some v) h = refl

IsValue-at :
    (f : Text → Option Text) (ps : List Text) (name : Text)
    → All IsValue (map (λ n. shown n (f n)) ps)
    → In name ps
    → IsValue (shown name (f name))
IsValue-at f [] name h i = absurd i
IsValue-at f (p ∷ ps) name h (inl e) = rw e h.0
IsValue-at f (p ∷ ps) name h (inr i) = IsValue-at f ps name h.1 i

match-render :
    (f : Text → Option Text) (pattern : Text)
    → All IsValue (values f (segments pattern))
    → match (matcher_of pattern) (render f (segments pattern))
      ≡ some (
          key_match
            (render f (segments pattern) ∷ values f (segments pattern))
            (index_fields (segments pattern) 1 []))
unfolding match
match-render f pattern h = rw (
  find_string_submatch_at_start (items (segments pattern)) _ _ _
      (match_items-render f (segments pattern) h),
  match,
)

ok_inj : {a b : KeyMatcher} → ok a ≡ ok b → a ≡ b
ok_inj e = cc

matcher_is :
    (pattern : Text) {rkm : KeyMatcher}
    → All IsPlain (segments pattern)
    → new_regex_key_matcher pattern ≡ ok rkm
    → rkm ≡ matcher_of pattern
matcher_is pattern plain e = ok_inj (sym e ∙ new_regex_key_matcher_lem pattern plain)

-- A pattern whose fixed text has no operators, formatted with attributes that are non-empty texts
-- without slash or colon, is matched by its own matcher, which finds the same attributes again.
pub match-format_with_attributes :
    (pattern : Text) (m : Attributes) (rkm : KeyMatcher)
    → All IsPlain (segments pattern)
    → All IsValue (values (find_attribute m) (segments pattern))
    → new_regex_key_matcher pattern ≡ ok rkm
    → (a : Attributes) × (match rkm (format_with_attributes pattern m) ≡ some a)
      × ((name : Text)
          → In name (params (segments pattern))
          → find_attribute a name ≡ find_attribute m name)
unfolding format_with_attributes
match-format_with_attributes pattern m rkm plain valid e =
    let f = find_attribute m in
    let segs = segments pattern in
    (
      key_match (render f segs ∷ values f segs) (index_fields segs 1 []),
      rw (matcher_is pattern plain e, ap (λ (o : Text × Bool). o.0) (format_path_lem pattern m))
          (match-render f pattern valid),
      λ name h.
          capture_lem f segs (render f segs) name h
          ∙ shown-IsValue name (f name) (IsValue-at f (params segs) name valid h),
    )

abbrev pub IsDistinct : List Text → Type 0
IsDistinct [] = Unit
IsDistinct (x ∷ xs) = (¬ In x xs) × IsDistinct xs

In-at : (xs : List Text) (k : ℕ) {x : Text} → get_elem? xs k ≡ some x → In x xs
In-at [] k e = cc
In-at (y ∷ xs) zero e = inl (ground arith)
In-at (y ∷ xs) (suc k) e = inr (In-at xs k e)

-- In a list of distinct names each name has one position.
position_unique :
    (xs : List Text) (j k : ℕ) {x : Text}
    → IsDistinct xs
    → get_elem? xs j ≡ some x
    → get_elem? xs k ≡ some x
    → j ≡ k
position_unique [] j k d p q = cc
position_unique (y ∷ xs) zero zero d p q = refl
position_unique (y ∷ xs) zero (suc k) d p q =
    let same : some y ≡ get_elem? xs k = p ∙ sym q in absurd (d.0 (In-at xs k (sym same)))
position_unique (y ∷ xs) (suc j) zero d p q =
    let same : some y ≡ get_elem? xs j = q ∙ sym p in absurd (d.0 (In-at xs j (sym same)))
position_unique (y ∷ xs) (suc j) (suc k) d p q = ap suc (position_unique xs j k d.1 p q)

-- Values that agree with the captures at each position are the captures.
map_is :
    (g : Text → Option Text) (ps caps : List Text)
    → length caps ≡ length ps
    → ((k : ℕ) (name : Text) → get_elem? ps k ≡ some name → g name ≡ get_elem? caps k)
    → map (λ n. shown n (g n)) ps ≡ caps
map_is g [] [] same h = refl
map_is g [] (c ∷ caps) same h = absurd (omega arith)
map_is g (p ∷ ps) [] same h = absurd (omega arith)
map_is g (p ∷ ps) (c ∷ caps) same h =
    let head = h 0 p refl in
    rw (head, map_is g ps caps (omega arith) (λ k name e. h (suc k) name e))

find_attribute_at :
    (segs : List Segment) (m name : Text) (caps : List Text) (k : ℕ)
    → IsDistinct (params segs)
    → get_elem? (params segs) k ≡ some name
    → find_attribute (key_match (m ∷ caps) (index_fields segs 1 [])) name ≡ get_elem? caps k
unfolding find_attribute
find_attribute_at segs m name caps k d e =
    let (j, indexed) = index_fields-total segs 1 [] name (inl (In-at (params segs) k e)) in
    elim (index_fields-Position segs 1 [] name j indexed) [
      | inl old ↦ absurd (no_index name j old)
      | inr (k', at, found) ↦
          let same = position_unique (params segs) k' k d found e in
          let at' : j ≡ suc k = omega arith in rw (indexed, at', find_attribute)
    ]

is_bound_lem :
    (f : Text → Option Text) (segs : List Segment)
    → All IsValue (values f segs)
    → is_bound f segs ≡ true
unfolding is_bound in_class
is_bound_lem f [] h = refl
is_bound_lem f (literal w ∷ segs) h = is_bound_lem f segs h
is_bound_lem f (param name ∷ segs) h = elim (Option-cases (f name)) [
  | inl unbound ↦ ground (arith, h.0)
  | inr (v, bound) ↦ rw bound (is_bound_lem f segs h.1)
]

-- What a match stands for: the pattern formatted with the attributes found is a part of the key,
-- every name has an attribute, and each is a non-empty text without slash or colon.
pub record IsMatched (pattern key : Text) (a : Attributes) : Type 0 where
  pub before : Text
  pub after : Text
  pub place : key ≡ before ++ (format_with_attributes pattern a ++ after)
  pub all_found : (format_path pattern a).1 ≡ true
  pub valid : All IsValue (values (find_attribute a) (segments pattern))

IsMatched-of :
    (pattern key m : Text) (caps : List Text)
    → IsDistinct (params (segments pattern))
    → IsFound (segments pattern) key m caps
    → IsMatched pattern key (key_match (m ∷ caps) (index_fields (segments pattern) 1 []))
unfolding format_with_attributes
IsMatched-of pattern key m caps d found =
    let segs = segments pattern in
    let a = key_match (m ∷ caps) (index_fields segs 1 []) in
    let same : values (find_attribute a) segs ≡ caps =
      map_is (find_attribute a) (params segs) caps found.counted
        (λ k name e. find_attribute_at segs m name caps k d e) in
    let valid : All IsValue (values (find_attribute a) segs) = rw same found.valid in
    let formatted = format_path_lem pattern a in
    record {
      before = found.before;
      after = found.after;
      place =
          found.place
          ∙ ap (λ t. found.before ++ (t ++ found.after))
              (found.text (find_attribute a) same ∙ sym (ap (λ (o : Text × Bool). o.0) formatted));
      all_found =
          ap (λ (o : Text × Bool). o.1) formatted ∙ is_bound_lem (find_attribute a) segs valid;
      valid = valid;
    }

match_inv :
    (rkm : KeyMatcher) (key : Text) {a : Attributes}
    → match rkm key ≡ some a
    → (results : List Text) × (find_string_submatch rkm.regex key ≡ some results)
      × (a ≡ key_match results rkm.field_map)
unfolding match
match_inv rkm key e = elim (Option-cases (find_string_submatch rkm.regex key)) [
  | inl stuck ↦ absurd (ground arith)
  | inr (results, found) ↦ (results, found, ground arith)
]

-- Whatever key a pattern with distinct names matches, formatting the pattern with the match gives
-- back the part of the key that was matched.
pub match-IsMatched :
    (pattern key : Text) (rkm : KeyMatcher) (a : Attributes)
    → All IsPlain (segments pattern)
    → IsDistinct (params (segments pattern))
    → new_regex_key_matcher pattern ≡ ok rkm
    → match rkm key ≡ some a
    → IsMatched pattern key a
match-IsMatched pattern key rkm a plain d e matched =
    let (results, found, made) =
      match_inv (matcher_of pattern) key
        (subst (λ r. match r key ≡ some a) (matcher_is pattern plain e) matched) in
    let (m, caps, same, f) = find_string_submatch_inv (segments pattern) key found in
    rw (made, same) (IsMatched-of pattern key m caps d f)
