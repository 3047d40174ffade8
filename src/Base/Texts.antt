-- ===== src/Base/Texts.antt =====
-- Go strings as lists of bytes, and what the program uses of the package `strings`.
use Prim.Native.Nat.{ℕ, ◌+◌, ◌<◌}
use Prim.Native.Char.{code}
use Prim.Native.String.{String}
use mathlib.Core.Path.{◌≡◌, refl}
use mathlib.Core.Logic.{◌↔◌, inl, inr}
use mathlib.Core.Bool.{Bool, true, false, ◌&&◌, ◌||◌}
use mathlib.Core.List.{List, [], ◌∷◌}
use native.Mathlib.Omega.{arith}
use go_etcd_rules.Base.Tests.{Bool-cases, ◌==◌, ==_refl, if◌then◌else◌}
use go_etcd_rules.Base.Lists.{length}

abbrev pub Text : Type 0
Text = List ℕ

-- A text literal.
abbrev pub codes : String → Text
codes String.[] = []
codes (String.◌∷◌ c s) = code c ∷ codes s

unfoldable pub text_eq : Text → Text → Bool
text_eq [] [] = true
text_eq (c ∷ s) (d ∷ t) = (c == d) && text_eq s t
text_eq _ _ = false

pub text_eq_sound : (s t : Text) → text_eq s t ≡ true → s ≡ t
unfolding text_eq
text_eq_sound [] [] h = refl
text_eq_sound [] (d ∷ t) h = cc
text_eq_sound (c ∷ s) [] h = cc
text_eq_sound (c ∷ s) (d ∷ t) h = ground (arith, text_eq_sound s t)

pub text_eq_refl : (s : Text) → text_eq s s ≡ true
unfolding text_eq
text_eq_refl [] = refl
text_eq_refl (c ∷ s) = rw (==_refl c) (text_eq_refl s)

pub text_eq_iff : (s t : Text) → (text_eq s t ≡ true) ↔ (s ≡ t)
text_eq_iff s t = (text_eq_sound s t, λ e. rw e (text_eq_refl t))

-- strings.HasPrefix(s, p), with the prefix first.
unfoldable pub has_prefix : Text → Text → Bool
has_prefix [] s = true
has_prefix (c ∷ p) [] = false
has_prefix (c ∷ p) (d ∷ s) = (c == d) && has_prefix p s

-- strings.Count(s, sep) for a separator of one byte.
unfoldable pub count : ℕ → Text → ℕ
count sep [] = 0
count sep (c ∷ s) = (if c == sep then 1 else 0) + count sep s

abbrev pub prepend : ℕ → List Text → List Text
prepend c [] = (c ∷ []) ∷ []
prepend c (w ∷ ws) = (c ∷ w) ∷ ws

-- strings.Split(s, sep) for a separator of one byte.
unfoldable pub split : ℕ → Text → List Text
split sep [] = [] ∷ []
split sep (c ∷ s) = let rest = split sep s in if c == sep then [] ∷ rest else prepend c rest

abbrev keep_byte : ℕ → Text × Text × Bool → Text × Text × Bool
keep_byte c (before, after, found) = (c ∷ before, after, found)

-- strings.Cut(s, sep) for a separator of one byte.
unfoldable pub cut : ℕ → Text → Text × Text × Bool
cut sep [] = ([], [], false)
cut sep (c ∷ s) = if c == sep then ([], s, true) else keep_byte c (cut sep s)

-- The pieces of a text are the part before the first separator and the pieces of what follows.
pub split-cut :
    (sep : ℕ) (s : Text)
    → split sep s
      ≡ (if (cut sep s).2 then (cut sep s).0 ∷ split sep (cut sep s).1 else (cut sep s).0 ∷ [])
unfolding split cut
split-cut sep [] = refl
split-cut sep (c ∷ s) = elim (Bool-cases (c == sep)) [
  | inl e ↦ rw e
  | inr e ↦ rw (e, split-cut sep s) (ground arith)
]

-- What follows the separator is shorter.
pub cut-lt : (sep : ℕ) (s : Text) → (cut sep s).2 ≡ true → length (cut sep s).1 < length s
unfolding cut
cut-lt sep [] h = cc
cut-lt sep (c ∷ s) h = ground (arith, cut-lt sep s)

-- strings.HasSuffix(s, p), with the suffix first.
unfoldable pub has_suffix : Text → Text → Bool
unfolding text_eq
has_suffix p [] = text_eq p []
has_suffix p (c ∷ s) = text_eq p (c ∷ s) || has_suffix p s
