-- ===== src/DynamicRule/Utf8.antt =====
-- rules/dynamic_rule.go: a range over a text in UTF-8 gives the text.
use go_etcd_rules.Base.{
  ℕ, zero, suc, ◌≡◌, refl, ap, inl, inr, Bool, true, false, [], ◌∷◌, ◌++◌, Option, none, some, Text,
  Bool-cases, Option-cases, arith,
}
use go_etcd_rules.DynamicRule.Render.{
  bytes_after, continues, complete_tail, least_second, greatest_second, rune_tail, of_runes,
}

-- A text is UTF-8 where its first `pending` bytes belong to a rune that is underway.
unfoldable pub is_utf8 : ℕ → Text → Bool
is_utf8 zero [] = true
is_utf8 (suc pending) [] = false
is_utf8 (suc pending) (c ∷ cs) = is_utf8 pending cs
is_utf8 zero (c ∷ cs) = elim (rune_tail c cs) [ none ↦ false | some n ↦ is_utf8 n cs ]

pub of_runes-is_utf8 :
    (pending : ℕ) (text : Text) → is_utf8 pending text ≡ true → of_runes pending text ≡ text
unfolding of_runes is_utf8
of_runes-is_utf8 zero [] h = refl
of_runes-is_utf8 (suc pending) [] h = refl
of_runes-is_utf8 (suc pending) (c ∷ cs) h = ap (λ l. c ∷ l) (of_runes-is_utf8 pending cs h)
of_runes-is_utf8 zero (c ∷ cs) h = elim (Option-cases (rune_tail c cs)) [
  | inl bad ↦ absurd (cc (rw (is_utf8, bad) at h))
  | inr (n, is) ↦
      rw (of_runes, is) (ap (λ l. c ∷ l) (of_runes-is_utf8 n cs (rw (is_utf8, is) at h)))
]

continues-append :
    (n least greatest : ℕ) (xs ys : Text)
    → continues n least greatest xs ≡ true
    → continues n least greatest (xs ++ ys) ≡ true
unfolding continues
continues-append zero least greatest xs ys h = refl
continues-append (suc n) least greatest [] ys h = cc
continues-append (suc n) least greatest (x ∷ xs) ys h =
    ground (arith, continues-append n 128 191 xs ys)

complete_tail-append :
    (c : ℕ) (o : Option ℕ) (xs ys : Text) {n : ℕ}
    → complete_tail c o xs ≡ some n
    → complete_tail c o (xs ++ ys) ≡ some n
complete_tail-append c none xs ys h = cc
complete_tail-append c (some k) xs ys {n} h =
    elim (Bool-cases (continues k (least_second c) (greatest_second c) xs)) [
      | inl all ↦
          let longer = continues-append k (least_second c) (greatest_second c) xs ys all in
          let same : some k ≡ some n = rw all at h in rw longer same
      | inr short ↦ absurd (cc (rw short at h))
    ]

rune_tail-append :
    (c : ℕ) (xs ys : Text) {n : ℕ} → rune_tail c xs ≡ some n → rune_tail c (xs ++ ys) ≡ some n
unfolding rune_tail
rune_tail-append c xs ys h = complete_tail-append c (bytes_after c) xs ys h

pub is_utf8-append :
    (pending : ℕ) (xs ys : Text)
    → is_utf8 pending xs ≡ true
    → is_utf8 zero ys ≡ true
    → is_utf8 pending (xs ++ ys) ≡ true
unfolding is_utf8
is_utf8-append zero [] ys h k = k
is_utf8-append (suc pending) [] ys h k = cc
is_utf8-append (suc pending) (x ∷ xs) ys h k = is_utf8-append pending xs ys h k
is_utf8-append zero (x ∷ xs) ys h k = elim (Option-cases (rune_tail x xs)) [
  | inl bad ↦ absurd (cc (rw (is_utf8, bad) at h))
  | inr (n, is) ↦
      let longer = rune_tail-append x xs ys is in
      rw (is_utf8, longer) (is_utf8-append n xs ys (rw (is_utf8, is) at h) k)
]
