-- ===== src/Matcher/Fields.antt =====
-- rules/matcher.go: `parsePath` against the segments of a pattern, and the expression it writes.
use go_etcd_rules.Base.{
  ℕ, zero, suc, ◌+◌, ◌≤◌, ◌≡◌, refl, ap, ◌∙◌, inl, inr, false, List, [], ◌∷◌, ◌++◌, map, append-nil,
  append_assoc, some, Text, arith, split, length, ◌==◌, Bool-cases, Map, insert, ok, has_prefix,
  All,
}
use go_etcd_rules.Regex.{byte, group, Regex, group_text, is_meta, compile_from, compile}
use go_etcd_rules.Matcher.{
  slash, colon, Parse, parse_segment, parse_segments, parse_path, KeyMatcher, key_matcher,
  new_regex_key_matcher,
}
use go_etcd_rules.Matcher.Segments.{Segment, literal, param, add_segment, classify, segments}

-- The capture of each name: of a name that occurs twice, the last one.
unfoldable pub index_fields : List Segment → ℕ → Map ℕ → Map ℕ
index_fields [] i fields = fields
index_fields (literal w ∷ segs) i fields = index_fields segs i fields
index_fields (param name ∷ segs) i fields = index_fields segs (i + 1) (insert name i fields)

unfoldable pub regex_text : List Segment → Text
regex_text [] = []
regex_text (literal w ∷ segs) = (slash ∷ w) ++ regex_text segs
regex_text (param name ∷ segs) = (slash ∷ group_text) ++ regex_text segs

unfoldable pub items : List Segment → Regex
items [] = []
items (literal w ∷ segs) = (byte slash ∷ map byte w) ++ items segs
items (param name ∷ segs) = byte slash ∷ group ∷ items segs

-- What the loop leaves in the fields and in the expression.
abbrev reads : List Segment → Parse → Map ℕ × Text
reads segs p = (index_fields segs p.field_index p.fields, p.regex ++ regex_text segs)

parse_segment_lem :
    (w : Text) (segs : List Segment) (p : Parse)
    → reads segs (parse_segment w p) ≡ reads (add_segment w segs) p
unfolding parse_segment index_fields regex_text
parse_segment_lem [] segs p = refl
parse_segment_lem (c ∷ w) segs p = elim (Bool-cases (c == colon)) [
  | inl e ↦ rw e (simp append_assoc)
  | inr e ↦ rw e (simp append_assoc)
]

abbrev pub result : Parse → Map ℕ × Text
result p = (p.fields, p.regex)

parse_segments_lem :
    (ws : List Text) (p : Parse) → result (parse_segments ws p) ≡ reads (classify ws) p
unfolding parse_segments index_fields regex_text
parse_segments_lem [] p = simp append-nil
parse_segments_lem (w ∷ ws) p =
    parse_segments_lem ws (parse_segment w p) ∙ parse_segment_lem w (classify ws) p

pub parse_path_lem :
    (pattern : Text)
    → result (parse_path pattern)
      ≡ (index_fields (segments pattern) 1 [], regex_text (segments pattern))
unfolding parse_path segments
parse_path_lem pattern = parse_segments_lem (split slash pattern) _

abbrev pub IsPlainByte : ℕ → Type 0
IsPlainByte c = is_meta c ≡ false

-- A segment whose fixed text holds no operator of regular expressions.
abbrev pub IsPlain : Segment → Type 0
IsPlain (literal w) = All IsPlainByte w
IsPlain (param name) = Unit

-- The rest compiles with any fuel that is at least its length.
abbrev Compiles : Text → Regex → Type 0
Compiles s r = (f : ℕ) → length s ≤ f → compile_from f s ≡ some r

not_group : (c : ℕ) (s : Text) → IsPlainByte c → has_prefix group_text (c ∷ s) ≡ false
unfolding has_prefix is_meta
not_group c s plain = ground arith

Compiles-byte :
    (c : ℕ) (s : Text) (r : Regex) → IsPlainByte c → Compiles s r → Compiles (c ∷ s) (byte c ∷ r)
unfolding compile_from
Compiles-byte c s r plain k zero h = absurd (omega arith)
Compiles-byte c s r plain k (suc f) h = rw (not_group c s plain, plain, k f (omega arith))

Compiles-bytes :
    (w s : Text) (r : Regex)
    → All IsPlainByte w
    → Compiles s r
    → Compiles (w ++ s) (map byte w ++ r)
Compiles-bytes [] s r plain k = k
Compiles-bytes (c ∷ w) s r plain k =
    Compiles-byte c (w ++ s) (map byte w ++ r) plain.0 (Compiles-bytes w s r plain.1 k)

Compiles-group : (s : Text) (r : Regex) → Compiles s r → Compiles (group_text ++ s) (group ∷ r)
unfolding compile_from has_prefix
Compiles-group s r k zero h = absurd (omega arith)
Compiles-group s r k (suc f) h = rw (k f (omega arith))

compile_from-nil : (f : ℕ) → compile_from f [] ≡ some []
unfolding compile_from
compile_from-nil f = refl

Compiles-regex_text :
    (segs : List Segment) → All IsPlain segs → Compiles (regex_text segs) (items segs)
unfolding regex_text items is_meta compile_from
Compiles-regex_text [] plain = λ f h. compile_from-nil f
Compiles-regex_text (literal w ∷ segs) plain =
    Compiles-bytes (slash ∷ w) (regex_text segs) (items segs) (refl, plain.0)
      (Compiles-regex_text segs plain.1)
Compiles-regex_text (param name ∷ segs) plain =
    Compiles-byte slash (group_text ++ regex_text segs) (group ∷ items segs) refl
      (Compiles-group (regex_text segs) (items segs) (Compiles-regex_text segs plain.1))

compile-regex_text :
    (segs : List Segment) → All IsPlain segs → compile (regex_text segs) ≡ some (items segs)
unfolding compile
compile-regex_text segs plain =
    Compiles-regex_text segs plain (length (regex_text segs)) (omega arith)

-- The matcher of a pattern.
abbrev pub matcher_of : Text → KeyMatcher
matcher_of pattern = record {
  regex = items (segments pattern);
  field_map = index_fields (segments pattern) 1 [];
  pattern = pattern;
}

-- A pattern whose fixed text has no operators always compiles, to the segments' bytes and groups.
pub new_regex_key_matcher_lem :
    (pattern : Text)
    → All IsPlain (segments pattern)
    → new_regex_key_matcher pattern ≡ ok (matcher_of pattern)
unfolding new_regex_key_matcher
new_regex_key_matcher_lem pattern plain =
    ap (λ (r : Map ℕ × Text). key_matcher pattern r.0 (compile r.1)) (parse_path_lem pattern)
    ∙ ap (key_matcher pattern (index_fields (segments pattern) 1 []))
        (compile-regex_text (segments pattern) plain)
