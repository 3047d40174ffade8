-- ===== src/Matcher/Inversion.antt =====
-- rules/matcher.go: what the search of a pattern's expression finds in any text.
use go_etcd_rules.Base.{
  suc, ◌≡◌, refl, sym, ap, ap₂, ◌∙◌, inl, inr, List, [], ◌∷◌, ◌++◌, map, Option, some, Text, arith,
  length, ◌==◌, Bool-cases, Option-cases, All, append_assoc,
}
use go_etcd_rules.Regex.{
  byte, group, Regex, Found, in_class, greedy, match_items, find_string_submatch,
}
use go_etcd_rules.Matcher.{slash}
use go_etcd_rules.Matcher.Segments.{Segment, literal, param, shown, render}
use go_etcd_rules.Matcher.Fields.{items}
use go_etcd_rules.Matcher.Search.{params, values, InClass, IsValue}

IsValue-All : (v : Text) → IsValue v → All InClass v
IsValue-All [] h = absurd h
IsValue-All (c ∷ v) h = h

module _ (k : Text → Option Found) where
  -- A run of the class, and a match of what follows it.
  record IsRun (s run m : Text) (caps : List Text) : Type 0 where
    rest : Text
    whole : s ≡ run ++ rest
    valid : IsValue run
    follows : k rest ≡ some (m, caps)

  greedy_inv :
      (s : Text) {run m : Text} {caps : List Text}
      → greedy k s ≡ some (run, m, caps)
      → IsRun s run m caps
  unfolding greedy
  greedy_inv [] e = cc
  greedy_inv (d ∷ s) {run} {m} {caps} e = elim (Bool-cases (in_class d)) [
    | inr other ↦ absurd (ground arith)
    | inl hd ↦ elim (Option-cases (greedy k s)) [
      | inl stuck ↦ elim (Option-cases (k s)) [
        | inl none_here ↦ absurd (ground arith)
        | inr ((m', caps'), found) ↦
            let same : run ≡ d ∷ [] = ground arith in
            record { rest = s; whole = rw same; valid = rw same (hd, tt); follows = ground arith }
      ]
      | inr ((run', m', caps'), longer) ↦
          let more = greedy_inv s longer in
          let same : run ≡ d ∷ run' = ground arith in
          record {
            rest = more.rest;
            whole = rw same (ap (◌∷◌ d) more.whole);
            valid = rw same (hd, IsValue-All run' more.valid);
            follows = more.follows ∙ (ground arith);
          }
    ]
  ]

-- A match of fixed bytes, and of what follows them.
record IsBytes (w : Text) (r : Regex) (s m : Text) (caps : List Text) : Type 0 where
  rest : Text
  more : Text
  whole : s ≡ w ++ rest
  text : m ≡ w ++ more
  follows : match_items r rest ≡ some (more, caps)

match_items-IsBytes_inv :
    (w : Text) (r : Regex) (s : Text) {m : Text} {caps : List Text}
    → match_items (map byte w ++ r) s ≡ some (m, caps)
    → IsBytes w r s m caps
unfolding match_items
match_items-IsBytes_inv [] r s {m} e = record {
  rest = s;
  more = m;
  whole = refl;
  text = refl;
  follows = e;
}
match_items-IsBytes_inv (c ∷ w) r [] e = cc
match_items-IsBytes_inv (c ∷ w) r (d ∷ s) {m} {caps} e = elim (Bool-cases (c == d)) [
  | inr other ↦ absurd (ground arith)
  | inl same ↦ elim (Option-cases (match_items (map byte w ++ r) s)) [
    | inl stuck ↦ absurd (ground arith)
    | inr ((m', caps'), found) ↦
        let b = match_items-IsBytes_inv w r s found in
        let cap : caps' ≡ caps = ground arith in
        record {
          rest = b.rest;
          more = b.more;
          whole = ground (arith, b.whole);
          text = ground (arith, b.text);
          follows = rw (← cap) b.follows;
        }
  ]
]

match_items-nil_inv :
    (s : Text) {m : Text} {caps : List Text}
    → match_items [] s ≡ some (m, caps)
    → (m ≡ []) × (caps ≡ [])
unfolding match_items
match_items-nil_inv s e = ground arith

record IsGroup (r : Regex) (s m : Text) (caps : List Text) : Type 0 where
  run : Text
  more : Text
  others : List Text
  run_of : IsRun (match_items r) s run more others
  text : m ≡ run ++ more
  captured : caps ≡ run ∷ others

match_items-group_inv :
    (r : Regex) (s : Text) {m : Text} {caps : List Text}
    → match_items (group ∷ r) s ≡ some (m, caps)
    → IsGroup r s m caps
unfolding match_items
match_items-group_inv r s e = elim (Option-cases (greedy (match_items r) s)) [
  | inl stuck ↦ absurd (ground arith)
  | inr ((run', m', caps'), found) ↦ record {
    run = run';
    more = m';
    others = caps';
    run_of = greedy_inv (match_items r) s found;
    text = ground arith;
    captured = ground arith;
  }
]

-- What a match consists of: values that the groups can take, and the path formatted with them.
pub record IsMatch (segs : List Segment) (s m : Text) (caps : List Text) : Type 0 where
  pub rest : Text
  pub whole : s ≡ m ++ rest
  pub text : (f : Text → Option Text) → values f segs ≡ caps → m ≡ render f segs
  pub valid : All IsValue caps
  pub counted : length caps ≡ length (params segs)

pub match_items_inv :
    (segs : List Segment) (s : Text) {m : Text} {caps : List Text}
    → match_items (items segs) s ≡ some (m, caps)
    → IsMatch segs s m caps
unfolding items render
match_items_inv [] s {m} {caps} e =
    let (no_text, no_caps) = match_items-nil_inv s e in
    record {
      rest = s;
      whole = rw no_text;
      text = λ f same. no_text;
      valid = rw no_caps tt;
      counted = rw no_caps;
    }
match_items_inv (literal w ∷ segs) s {m} {caps} e =
    let b = match_items-IsBytes_inv (slash ∷ w) (items segs) s e in
    let i = match_items_inv segs b.rest b.follows in
    record {
      rest = i.rest;
      whole = b.whole ∙ rw (i.whole, b.text) (sym (append_assoc (slash ∷ w) b.more i.rest));
      text = λ f same. b.text ∙ ap (λ t. (slash ∷ w) ++ t) (i.text f same);
      valid = i.valid;
      counted = i.counted;
    }
match_items_inv (param name ∷ segs) s {m} {caps} e =
    let b = match_items-IsBytes_inv (slash ∷ []) (group ∷ items segs) s e in
    let g = match_items-group_inv (items segs) b.rest b.follows in
    let i = match_items_inv segs g.run_of.rest g.run_of.follows in
    record {
      rest = i.rest;
      whole =
          b.whole
          ∙ rw (g.run_of.whole, i.whole, b.text, g.text)
              (sym (append_assoc (slash ∷ g.run) g.more i.rest));
      text = λ f same.
          let head : shown name (f name) ≡ g.run = cc (same, g.captured) in
          let tail : values f segs ≡ g.others = cc (same, g.captured) in
          b.text ∙ ap (◌∷◌ slash) (g.text ∙ ap₂ ◌++◌ (sym head) (i.text f tail));
      valid = rw g.captured (g.run_of.valid, i.valid);
      counted = rw g.captured (ap suc i.counted);
    }

-- The first place that matches, and what is matched there.
pub record IsFound (segs : List Segment) (path m : Text) (caps : List Text) : Type 0 where
  pub before : Text
  pub after : Text
  pub place : path ≡ before ++ (m ++ after)
  pub text : (f : Text → Option Text) → values f segs ≡ caps → m ≡ render f segs
  pub valid : All IsValue caps
  pub counted : length caps ≡ length (params segs)

here :
    (segs : List Segment) (path : Text) {m : Text} {caps : List Text}
    → match_items (items segs) path ≡ some (m, caps)
    → IsFound segs path m caps
here segs path e =
    let i = match_items_inv segs path e in
    record {
      before = [];
      after = i.rest;
      place = i.whole;
      text = i.text;
      valid = i.valid;
      counted = i.counted;
    }

pub find_string_submatch_inv :
    (segs : List Segment) (path : Text) {results : List Text}
    → find_string_submatch (items segs) path ≡ some results
    → (m : Text) × (caps : List Text) × (results ≡ m ∷ caps) × IsFound segs path m caps
unfolding find_string_submatch
find_string_submatch_inv segs [] {results} e = elim (Option-cases (match_items (items segs) [])) [
  | inl stuck ↦ absurd (ground arith)
  | inr ((m, caps), found) ↦ (m, caps, ground arith, here segs [] found)
]
find_string_submatch_inv segs (c ∷ s) {results} e =
    elim (Option-cases (match_items (items segs) (c ∷ s))) [
      | inr ((m, caps), found) ↦ (m, caps, ground arith, here segs (c ∷ s) found)
      | inl stuck ↦
          let (m, caps, same, f) = find_string_submatch_inv segs s (ground arith) in
          (
            m,
            caps,
            same,
            record {
              before = c ∷ f.before;
              after = f.after;
              place = ap (◌∷◌ c) f.place;
              text = f.text;
              valid = f.valid;
              counted = f.counted;
            },
          )
    ]
