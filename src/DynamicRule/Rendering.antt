-- ===== src/DynamicRule/Rendering.antt =====
-- rules/dynamic_rule.go: the layout of a rule's text returns, and only adds lines and indentation.
use go_etcd_rules.Base.{
  ℕ, zero, suc, ◌+◌, ◌≡◌, ◌≢◌, refl, sym, subst, ap, ◌∙◌, inl, inr, Bool, true, not, ◌&&◌, [], ◌∷◌,
  ◌++◌, append_assoc, Option, none, some, Text, codes, ◌==◌, if◌then◌else◌, Bool-cases,
  Option-cases, All, All-append, arith,
}
use go_etcd_rules.DynamicRule.{
  DynamicRule, DynamicRules, leaf, and_dynamic, or_dynamic, not_dynamic, empty, more,
}
use go_etcd_rules.DynamicRule.Render.{
  space, newline, open_paren, close_paren, to_string, delimited_string, later_strings, line,
  format_from, format_rule_string, rune_tail, bytes_after, continues,
}
use go_etcd_rules.DynamicRule.Utf8.{is_utf8, is_utf8-append, of_runes-is_utf8}
use go_etcd_rules.DynamicRule.Unformat.{unformat, format_from-unformat}

-- The parentheses that are open after a text, where as many as `depth` were open before it; none where
-- one is closed that is not open.
abbrev pub down : ℕ → Option ℕ
down zero = none
down (suc depth) = some depth

abbrev pub depth_at : ℕ → ℕ → Option ℕ
depth_at c depth =
    if c == close_paren
    then down depth
    else (if c == open_paren then some (depth + 1) else some depth)

abbrev pub depth_after : Text → ℕ → Option ℕ
depth_after [] depth = some depth
depth_after (c ∷ cs) depth = elim (depth_at c depth) [
  | none ↦ none
  | some next ↦ depth_after cs next
]

abbrev pub is_one_line : Text → Bool
is_one_line [] = true
is_one_line (c ∷ cs) = not (c == newline) && is_one_line cs

pub is_one_line_sound : (s : Text) → is_one_line s ≡ true → All (λ c. c ≢ newline) s
is_one_line_sound [] e = tt
is_one_line_sound (c ∷ cs) e = elim (Bool-cases (c == newline)) [
  | inl new ↦ absurd (cc (rw (is_one_line, new) at e))
  | inr other ↦ (ground arith, is_one_line_sound cs (rw (is_one_line, other) at e))
]

-- A text in UTF-8 that closes what it opens, on one line.
pub record IsBalanced (text : Text) : Type 0 where
  pub in_utf8 : is_utf8 0 text ≡ true
  pub closes : depth_after text 0 ≡ some 0
  pub one_line : All (λ c. c ≢ newline) text

abbrev mutual
  pub AllReps : (Text → Type 0) → DynamicRule → Type 0
  AllReps P (leaf krp) = P krp.rep
  AllReps P (and_dynamic rules patterns prefixes) = AllNestedReps P rules
  AllReps P (or_dynamic rules patterns prefixes) = AllNestedReps P rules
  AllReps P (not_dynamic rule) = AllReps P rule

  pub AllNestedReps : (Text → Type 0) → DynamicRules → Type 0
  AllNestedReps P empty = Unit
  AllNestedReps P (more rule rules) = AllReps P rule × AllNestedReps P rules

depth_after_inv :
    (c : ℕ) (cs : Text) (depth : ℕ) {after : ℕ}
    → depth_after (c ∷ cs) depth ≡ some after
    → (next : ℕ) × (depth_at c depth ≡ some next) × (depth_after cs next ≡ some after)
depth_after_inv c cs depth e = elim (Option-cases (depth_at c depth)) [
  | inl stuck ↦ absurd (cc (rw (depth_after, stuck) at e))
  | inr (next, is) ↦ (next, is, rw (depth_after, is) at e)
]

depth_after-append :
    (xs ys : Text) (depth : ℕ) {after : ℕ}
    → depth_after xs depth ≡ some after
    → depth_after (xs ++ ys) depth ≡ depth_after ys after
depth_after-append [] ys depth {after} e = let same : depth ≡ after = ground arith in rw same refl
depth_after-append (x ∷ xs) ys depth e =
    let (next, is, rest) = depth_after_inv x xs depth e in
    rw (depth_after, is) (depth_after-append xs ys next rest)

down-deeper : (depth k : ℕ) {next : ℕ} → down depth ≡ some next → down (depth + k) ≡ some (next + k)
down-deeper zero k e = cc
down-deeper (suc depth) k {next} e =
    let same : depth ≡ next = ground arith in
    let front : suc depth + k ≡ suc (depth + k) = omega arith in
    subst (λ (m : ℕ). down m ≡ some (next + k)) (sym front) (rw same refl)

down_inv : (depth : ℕ) {next : ℕ} → down depth ≡ some next → depth ≡ suc next
down_inv zero e = cc
down_inv (suc depth) e = ground arith

depth_at-deeper :
    (c depth k : ℕ) {next : ℕ}
    → depth_at c depth ≡ some next
    → depth_at c (depth + k) ≡ some (next + k)
depth_at-deeper c depth k {next} e = elim (Bool-cases (c == close_paren)) [
  | inl closes ↦ rw closes (down-deeper depth k (rw closes at e))
  | inr stays ↦ elim (Bool-cases (c == open_paren)) [
    | inl opens ↦
        let same : depth + 1 ≡ next = ground arith in
        let sum : depth + k + 1 ≡ next + k = omega (arith, same) in rw (stays, opens) (ap some sum)
    | inr other ↦ let same : depth ≡ next = ground arith in rw (stays, other) (rw same refl)
  ]
]

depth_after-deeper :
    (xs : Text) (depth k : ℕ) {after : ℕ}
    → depth_after xs depth ≡ some after
    → depth_after xs (depth + k) ≡ some (after + k)
depth_after-deeper [] depth k e = ground arith
depth_after-deeper (x ∷ xs) depth k e =
    let (next, is, rest) = depth_after_inv x xs depth e in
    rw (depth_after, depth_at-deeper x depth k is) (depth_after-deeper xs next k rest)

format_from-returns :
    (s : Text) (depth : ℕ) {after : ℕ}
    → depth_after s depth ≡ some after
    → (out : Text) × (format_from s depth ≡ some out)
unfolding format_from
format_from-returns [] depth e = ([], refl)
format_from-returns (c ∷ cs) depth e =
    let (next, is, rest) = depth_after_inv c cs depth e in
    let (out, made) = format_from-returns cs next rest in
    elim (Bool-cases (c == close_paren)) [
      | inl closes ↦
          let deeper : depth ≡ suc next = down_inv depth (rw closes at is) in
          (line next ++ close_paren ∷ out, rw (format_from, closes, deeper, made) refl)
      | inr stays ↦ elim (Bool-cases (c == open_paren)) [
        | inl opens ↦
            let same : depth + 1 ≡ next = ground arith in
            (
              open_paren ∷ (line (depth + 1) ++ out),
              rw (format_from, stays, opens, same, made) refl,
            )
        | inr other ↦
            let same : depth ≡ next = ground arith in
            (c ∷ out, rw (format_from, stays, other, same, made) refl)
      ]
    ]

space-is_utf8 : is_utf8 0 (space ∷ []) ≡ true
unfolding is_utf8 rune_tail bytes_after continues
space-is_utf8 = refl

open_paren-is_utf8 : is_utf8 0 (open_paren ∷ []) ≡ true
unfolding is_utf8 rune_tail bytes_after continues
open_paren-is_utf8 = refl

close_paren-is_utf8 : is_utf8 0 (close_paren ∷ []) ≡ true
unfolding is_utf8 rune_tail bytes_after continues
close_paren-is_utf8 = refl

not-is_utf8 : is_utf8 0 (codes "NOT ") ≡ true
unfolding is_utf8 rune_tail bytes_after continues
not-is_utf8 = refl

nothing-IsBalanced : IsBalanced []
unfolding is_utf8
nothing-IsBalanced = record { in_utf8 = refl; closes = refl; one_line = tt }

-- A text that a computation shows to be so.
pub by_check :
    (text : Text)
    → is_utf8 0 text ≡ true
    → depth_after text 0 ≡ some 0
    → is_one_line text ≡ true
    → IsBalanced text
by_check text u c l = record { in_utf8 = u; closes = c; one_line = is_one_line_sound text l }

and-IsBalanced : IsBalanced (codes "AND")
unfolding is_utf8 rune_tail bytes_after continues
and-IsBalanced = by_check (codes "AND") refl refl refl

or-IsBalanced : IsBalanced (codes "OR")
unfolding is_utf8 rune_tail bytes_after continues
or-IsBalanced = by_check (codes "OR") refl refl refl

IsBalanced-append : (xs ys : Text) → IsBalanced xs → IsBalanced ys → IsBalanced (xs ++ ys)
IsBalanced-append xs ys h k = record {
  in_utf8 = is_utf8-append 0 xs ys h.in_utf8 k.in_utf8;
  closes = depth_after-append xs ys 0 h.closes ∙ k.closes;
  one_line = All-append _ xs ys h.one_line k.one_line;
}

IsBalanced-space : (xs : Text) → IsBalanced xs → IsBalanced (space ∷ xs)
IsBalanced-space xs h = record {
  in_utf8 = is_utf8-append 0 (space ∷ []) xs space-is_utf8 h.in_utf8;
  closes = h.closes;
  one_line = (λ e. omega (arith, e), h.one_line);
}

IsBalanced-parens : (xs : Text) → IsBalanced xs → IsBalanced (open_paren ∷ (xs ++ close_paren ∷ []))
IsBalanced-parens xs h = record {
  in_utf8 =
      is_utf8-append 0 (open_paren ∷ []) (xs ++ close_paren ∷ []) open_paren-is_utf8
        (is_utf8-append 0 xs (close_paren ∷ []) h.in_utf8 close_paren-is_utf8);
  closes = depth_after-append xs (close_paren ∷ []) 1 (depth_after-deeper xs 0 1 h.closes);
  one_line = (
    λ e. omega (arith, e),
    All-append _ xs (close_paren ∷ []) h.one_line (is_one_line_sound (close_paren ∷ []) refl),
  );
}

mutual
  unfolding to_string delimited_string later_strings

  to_string-IsBalanced :
      (rule : DynamicRule) → AllReps IsBalanced rule → IsBalanced (to_string rule)
  to_string-IsBalanced (leaf krp) h = h
  to_string-IsBalanced (and_dynamic rules patterns prefixes) h =
      delimited_string-IsBalanced (codes "AND") rules and-IsBalanced h
  to_string-IsBalanced (or_dynamic rules patterns prefixes) h =
      delimited_string-IsBalanced (codes "OR") rules or-IsBalanced h
  to_string-IsBalanced (not_dynamic rule) h =
      let nested = IsBalanced-parens (to_string rule) (to_string-IsBalanced rule h) in
      record {
        in_utf8 =
            is_utf8-append 0 (codes "NOT ") (open_paren ∷ (to_string rule ++ close_paren ∷ []))
              not-is_utf8 nested.in_utf8;
        closes = nested.closes;
        one_line =
            All-append (λ (c : ℕ). c ≢ newline) (codes "NOT ")
              (open_paren ∷ (to_string rule ++ close_paren ∷ []))
              (is_one_line_sound (codes "NOT ") refl) nested.one_line;
      }

  delimited_string-IsBalanced :
      (del : Text) (rules : DynamicRules)
      → IsBalanced del
      → AllNestedReps IsBalanced rules
      → IsBalanced (delimited_string del rules)
  delimited_string-IsBalanced del empty d h = IsBalanced-parens [] nothing-IsBalanced
  delimited_string-IsBalanced del (more rule rules) d h =
      let body =
        IsBalanced-append (to_string rule) (later_strings del rules) (to_string-IsBalanced rule h.0)
          (later_strings-IsBalanced del rules d h.1) in
      subst (λ (x : Text). IsBalanced (open_paren ∷ x))
        (append_assoc (to_string rule) (later_strings del rules) (close_paren ∷ []))
        (IsBalanced-parens (to_string rule ++ later_strings del rules) body)

  later_strings-IsBalanced :
      (del : Text) (rules : DynamicRules)
      → IsBalanced del
      → AllNestedReps IsBalanced rules
      → IsBalanced (later_strings del rules)
  later_strings-IsBalanced del empty d h = nothing-IsBalanced
  later_strings-IsBalanced del (more rule rules) d h = IsBalanced-space _ (
      IsBalanced-append del _ d (
        IsBalanced-space _ (
          IsBalanced-append (to_string rule) (later_strings del rules)
            (to_string-IsBalanced rule h.0) (later_strings-IsBalanced del rules d h.1))))

-- Where the text of each leaf is UTF-8, closes the parentheses that it opens and stands on one line, the
-- layout of the rule's text does not panic, and with its lines and indentation taken away it is that
-- text.
pub format_rule_string-to_string :
    (rule : DynamicRule)
    → AllReps IsBalanced rule
    → (out : Text) × (format_rule_string (to_string rule) ≡ some out)
      × (unformat out 0 0 ≡ to_string rule)
unfolding format_rule_string
format_rule_string-to_string rule h =
    let balanced = to_string-IsBalanced rule h in
    let runes = of_runes-is_utf8 0 (to_string rule) balanced.in_utf8 in
    let (out, made) = format_from-returns (to_string rule) 0 balanced.closes in
    (
      out,
      ap (λ text. format_from text 0) runes ∙ made,
      format_from-unformat (to_string rule) 0 out balanced.one_line made,
    )
