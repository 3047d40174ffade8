-- ===== src/Matcher/Segments.antt =====
-- rules/matcher.go: a pattern read as a list of segments, and `formatPath` against it.
use go_etcd_rules.Base.{
  ℕ, zero, suc, ◌+◌, ◌<◌, ◌≡◌, refl, ◌∙◌, inl, inr, Bool, true, false, ◌&&◌, List, [], ◌∷◌, ◌++◌,
  append-nil, append_assoc, Option, none, some, Text, arith, split, cut, split-cut, cut-lt, length,
  ◌==◌, if◌then◌else◌, ==_iff, Bool-cases, Option-cases,
}
use go_etcd_rules.Matcher.{
  slash, colon, Attributes, find_attribute, Output, format_segment, format_loop, format_path,
}

pub data Segment : Type 0 where
  literal param : Text → Segment

abbrev pub add_segment : Text → List Segment → List Segment
add_segment [] segs = segs
add_segment (c ∷ w) segs = if c == colon then param w ∷ segs else literal (c ∷ w) ∷ segs

abbrev pub classify : List Text → List Segment
classify [] = []
classify (w ∷ ws) = add_segment w (classify ws)

-- The segments of a pattern: the pieces between slashes that are not empty.
unfoldable pub segments : Text → List Segment
segments pattern = classify (split slash pattern)

-- What a name becomes in a formatted path.
abbrev pub shown : Text → Option Text → Text
shown name none = colon ∷ name
shown name (some v) = v

abbrev pub is_some {ℓ} : {A : Type ℓ} → Option A → Bool
is_some none = false
is_some (some v) = true

module _ (f : Text → Option Text) where
  unfoldable pub render : List Segment → Text
  render [] = []
  render (literal w ∷ segs) = (slash ∷ w) ++ render segs
  render (param name ∷ segs) = (slash ∷ shown name (f name)) ++ render segs

  unfoldable pub is_bound : List Segment → Bool
  is_bound [] = true
  is_bound (literal w ∷ segs) = is_bound segs
  is_bound (param name ∷ segs) = is_some (f name) && is_bound segs

abbrev format_all : Attributes → List Text → Output → Output
format_all m [] out = out
format_all m (w ∷ ws) out = format_all m ws (format_segment m w out)

-- With a round for each byte and one more, the loop visits every piece between slashes.
format_loop_lem :
    (f : ℕ) (m : Attributes) (pattern : Text) (out : Output)
    → length pattern < f
    → format_loop f m pattern out ≡ format_all m (split slash pattern) out
unfolding format_loop
format_loop_lem zero m pattern out h = elim h [ ]
format_loop_lem (suc f) m pattern out h = elim (Bool-cases (cut slash pattern).2) [
  | inl more ↦
      rw (split-cut slash pattern, more)
        (format_loop_lem f m (cut slash pattern).1 (format_segment m (cut slash pattern).0 out)
          (omega (arith, cut-lt slash pattern more)))
  | inr last ↦ rw (split-cut slash pattern, last)
]

module _ (m : Attributes) where
  abbrev shows : List Segment → Output → Output
  shows segs (sb, b) = (sb ++ render (find_attribute m) segs, b && is_bound (find_attribute m) segs)

  format_segment_lem :
      (w : Text) (segs : List Segment) (out : Output)
      → shows segs (format_segment m w out) ≡ shows (add_segment w segs) out
  unfolding format_segment render is_bound
  format_segment_lem [] segs out = refl
  format_segment_lem (c ∷ w) segs (sb, b) = elim (Bool-cases (c == colon)) [
    | inl e ↦ elim (Option-cases (find_attribute m w)) [
      | inl unbound ↦
          rw (e, unbound, (==_iff c colon).0 e)
            (ground (arith, append_assoc sb (slash ∷ colon ∷ w) (render (find_attribute m) segs)))
      | inr (v, found) ↦ rw (e, found) (simp append_assoc)
    ]
    | inr e ↦
        rw e (ground (arith, append_assoc sb (slash ∷ c ∷ w) (render (find_attribute m) segs)))
  ]

  format_all_lem : (ws : List Text) (out : Output) → format_all m ws out ≡ shows (classify ws) out
  unfolding render is_bound
  format_all_lem [] (sb, b) = ground (arith, append-nil sb)
  format_all_lem (w ∷ ws) out =
      format_all_lem ws (format_segment m w out) ∙ format_segment_lem w (classify ws) out

-- Formatting replaces each segment that names an attribute by its value, drops empty segments, and
-- reports whether every name had a value; the loop's rounds suffice for every pattern.
pub format_path_lem :
    (pattern : Text) (m : Attributes)
    → format_path pattern m ≡ (
      render (find_attribute m) (segments pattern),
      is_bound (find_attribute m) (segments pattern),
    )
unfolding format_path segments
format_path_lem pattern m =
    format_loop_lem (length pattern + 1) m pattern ([], true) (omega arith)
    ∙ format_all_lem m (split slash pattern) ([], true)
