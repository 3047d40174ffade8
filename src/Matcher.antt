-- ===== src/Matcher.antt =====
-- rules/matcher.go and the attributes of rules/task.go and rules/dynamic_rule.go: key patterns, the
-- attributes that a match binds, and the formatting of a pattern with attributes.
pub mod Segments
pub mod Fields
pub mod Search
pub mod Inversion
pub mod Names
pub mod RoundTrip
mod Tests
use go_etcd_rules.Base.{
  ℕ, zero, suc, ◌+◌, ◌-◌, Bool, true, false, List, [], ◌∷◌, ◌++◌, map, Option, none, some, Text,
  codes, split, cut, length, get_elem?, Map, lookup, insert, keys, Result, ok, err, Error,
  regexp_failed, ◌==◌, if◌then◌else◌,
}
use go_etcd_rules.Regex.{Regex, compile, find_string_submatch}

abbrev pub slash : ℕ
slash = b'/'

abbrev pub colon : ℕ
colon = b':'

-- The three implementations of `extendedAttributes`.
pub data Attributes : Type 0 where
  -- regexKeyMatch: the match and its captures, and the capture that each name has.
  key_match : List Text → Map ℕ → Attributes
  -- nestingAttributes: fixed attributes before those of another.
  nesting : List (Text × Text) → Attributes → Attributes
  -- mapAttributes
  map_attributes : Map Text → Attributes

-- `FindAttribute`. An index out of range would panic, which is `none`.
unfoldable pub find_attribute : Attributes → Text → Option Text
find_attribute (key_match match_strings field_map) name = elim (lookup name field_map) [
  | none ↦ none
  | some index ↦ get_elem? match_strings index
]
find_attribute (nesting attrs nested) name = elim (lookup name attrs) [
  | some value ↦ some value
  | none ↦ find_attribute nested name
]
find_attribute (map_attributes values) name = lookup name values

unfoldable pub names : Attributes → List Text
names (key_match match_strings field_map) = keys field_map
names (nesting attrs nested) = keys attrs ++ names nested
names (map_attributes values) = keys values

-- The builder's text, and `allFound`.
abbrev pub Output : Type 0
Output = Text × Bool

-- The `switch` of the loop of `formatPath`.
unfoldable pub format_segment : Attributes → Text → Output → Output
format_segment m [] out = out
format_segment m (c ∷ name) (sb, all_found) =
    if c == colon
    then (elim (find_attribute m name) [
      | some attr ↦ (sb ++ (slash ∷ attr), all_found)
      | none ↦ (sb ++ (slash ∷ c ∷ name), false)
    ])
    else (sb ++ (slash ∷ c ∷ name), all_found)

-- The loop of `formatPath`, on fuel.
unfoldable pub format_loop : ℕ → Attributes → Text → Output → Output
unfolding format_segment
format_loop zero m pattern out = out
format_loop (suc f) m pattern out =
    let (segment, rest, found) = cut slash pattern in
    let out' = format_segment m segment out in
    let again = format_loop f m rest out' in if found then again else out'

unfoldable pub format_path : Text → Attributes → Output
unfolding format_loop
format_path pattern m = format_loop (length pattern + 1) m pattern ([], true)

unfoldable pub format_with_attributes : Text → Attributes → Text
unfolding format_path
format_with_attributes pattern m = (format_path pattern m).0

-- The variables of the loop of `parsePath`: the fields, the next index and the expression.
pub record Parse : Type 0 where
  pub fields : Map ℕ
  pub field_index : ℕ
  pub regex : Text

unfoldable pub parse_segment : Text → Parse → Parse
parse_segment [] p = p
parse_segment (c ∷ name) p =
    if c == colon
    then record p {
      fields = insert name p.field_index p.fields;
      field_index = p.field_index + 1;
      regex = p.regex ++ (slash ∷ codes "([^\\/:]+)");
    }
    else record p { regex = p.regex ++ (slash ∷ c ∷ name) }

unfoldable pub parse_segments : List Text → Parse → Parse
unfolding parse_segment
parse_segments [] p = p
parse_segments (path ∷ paths) p = parse_segments paths (parse_segment path p)

unfoldable pub parse_path : Text → Parse
unfolding parse_segments
parse_path pattern =
    parse_segments (split slash pattern) (record { fields = []; field_index = 1; regex = [] })

-- regexKeyMatcher
pub record KeyMatcher : Type 0 where
  pub regex : Regex
  pub field_map : Map ℕ
  pub pattern : Text

abbrev pub key_matcher : Text → Map ℕ → Option Regex → Result KeyMatcher
key_matcher pattern fields none = err regexp_failed
key_matcher pattern fields (some r) =
    ok (record { regex = r; field_map = fields; pattern = pattern })

unfoldable pub new_regex_key_matcher : Text → Result KeyMatcher
new_regex_key_matcher pattern =
    let parsed = parse_path pattern in key_matcher pattern parsed.fields (compile parsed.regex)

-- `match`, with `newKeyMatch`.
unfoldable pub match : KeyMatcher → Text → Option Attributes
match rkm path = elim (find_string_submatch rkm.regex path) [
  | none ↦ none
  | some results ↦ some (key_match results rkm.field_map)
]

-- `getPrefix`: the pattern up to its first colon.
unfoldable pub get_prefix : KeyMatcher → Text
get_prefix rkm = (cut colon rkm.pattern).0
