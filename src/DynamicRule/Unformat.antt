-- ===== src/DynamicRule/Unformat.antt =====
-- rules/dynamic_rule.go: the layout of a text taken away again.
use go_etcd_rules.Base.{
  ℕ, zero, suc, ◌+◌, ◌-◌, ◌*◌, ◌≡◌, ◌≢◌, refl, sym, subst, ap, ◌∙◌, inl, inr, true, false, [], ◌∷◌,
  ◌++◌, Option, some, map_some_inv, Text, ◌==◌, Bool-cases, All, arith,
}
use go_etcd_rules.DynamicRule.Render.{
  newline, open_paren, close_paren, spaces, line, outdented, format_from,
}

-- The layout taken away again: a parenthesis that opens is followed by a new line and its indentation,
-- and a new line elsewhere by the indentation of a parenthesis that closes. `skip` characters are
-- dropped first.
abbrev pub unformat : Text → ℕ → ℕ → Text
unformat [] depth skip = []
unformat (c ∷ cs) depth (suc skip) = unformat cs depth skip
unformat (c ∷ cs) depth zero = elim (c == open_paren) [
  | true ↦ open_paren ∷ unformat cs (depth + 1) (suc ((depth + 1) * 4))
  | false ↦ elim (c == newline) [
    | true ↦ unformat cs (depth - 1) ((depth - 1) * 4)
    | false ↦ c ∷ unformat cs depth 0
  ]
]

unformat-spaces :
    (n : ℕ) (s : Text) (depth : ℕ) → unformat (spaces n ++ s) depth n ≡ unformat s depth 0
unformat-spaces zero s depth = refl
unformat-spaces (suc n) s depth = unformat-spaces n s depth

outdented_inv :
    (f : ℕ → Option Text) (indent : ℕ) {out : Text}
    → outdented f indent ≡ some out
    → (n : ℕ) × (rest : Text) × (indent ≡ n + 1)
      × (f n ≡ some rest)
      × (out ≡ line n ++ close_paren ∷ rest)
outdented_inv f zero e = cc
outdented_inv f (suc n) e =
    let (rest, is, same) = map_some_inv _ (f n) e in (n, rest, omega arith, is, same)

unformat-close :
    (n : ℕ) (rest : Text)
    → unformat (line n ++ close_paren ∷ rest) (n + 1) 0 ≡ close_paren ∷ unformat rest n 0
unformat-close n rest =
    let down : n + 1 - 1 ≡ n = omega arith in
    subst
      (λ (m : ℕ).
        unformat (spaces (n * 4) ++ close_paren ∷ rest) m (m * 4) ≡ close_paren ∷ unformat rest n 0)
      (sym down) (unformat-spaces (n * 4) (close_paren ∷ rest) n)

unformat-open :
    (n : ℕ) (rest : Text)
    → unformat (open_paren ∷ (line (n + 1) ++ rest)) n 0 ≡ open_paren ∷ unformat rest (n + 1) 0
unformat-open n rest = ap (λ l. open_paren ∷ l) (unformat-spaces ((n + 1) * 4) rest (n + 1))

unformat-other :
    (n c : ℕ) (rest : Text)
    → (c == open_paren) ≡ false
    → c ≢ newline
    → unformat (c ∷ rest) n 0 ≡ c ∷ unformat rest n 0
unformat-other n c rest o l =
    let n_line : (c == newline) ≡ false = ground (arith, l) in rw (unformat, o, n_line) refl

pub format_from-unformat :
    (s : Text) (indent : ℕ) (out : Text)
    → All (λ c. c ≢ newline) s
    → format_from s indent ≡ some out
    → unformat out indent 0 ≡ s
unfolding format_from
format_from-unformat [] indent out l e = let same : out ≡ [] = ground arith in rw same refl
format_from-unformat (c ∷ cs) indent out l e = elim (Bool-cases (c == close_paren)) [
  | inl closes ↦
      let (n, rest, deeper, is, same) =
        outdented_inv (format_from cs) indent (rw (format_from, closes) at e) in
      let ih = format_from-unformat cs n rest l.1 is in
      let is_paren : c ≡ close_paren = ground arith in
      rw (same, deeper, is_paren) (unformat-close n rest ∙ ap (λ x. close_paren ∷ x) ih)
  | inr stays ↦ elim (Bool-cases (c == open_paren)) [
    | inl opens ↦
        let (rest, is, same) =
          map_some_inv _ (format_from cs (indent + 1)) (rw (format_from, stays, opens) at e) in
        let ih = format_from-unformat cs (indent + 1) rest l.1 is in
        let is_paren : c ≡ open_paren = ground arith in
        rw (same, is_paren) (unformat-open indent rest ∙ ap (λ x. open_paren ∷ x) ih)
    | inr other ↦
        let (rest, is, same) =
          map_some_inv _ (format_from cs indent) (rw (format_from, stays, other) at e) in
        let ih = format_from-unformat cs indent rest l.1 is in
        rw same (unformat-other indent c rest other l.0 ∙ ap (λ x. c ∷ x) ih)
  ]
]
