-- ===== src/Base/Maps.antt =====
-- Go maps with string keys as association lists. Go visits a map in no fixed order; a list has the
-- order in which the keys were inserted, and the theorems hold for every list.
use mathlib.Core.Path.{◌≡◌, refl, ◌∙◌}
use mathlib.Core.Bool.{true, false}
use mathlib.Core.List.{List, [], ◌∷◌}
use mathlib.Core.Option.{Option, none, some}
use native.Mathlib.Omega.{arith}
use mathlib.Core.Logic.{◌⊎◌, inl, inr}
use go_etcd_rules.Base.Tests.{if◌then◌else◌, Bool-cases}
use go_etcd_rules.Base.Lists.{In}
use go_etcd_rules.Base.Texts.{Text, text_eq, text_eq_iff, text_eq_refl}

abbrev pub Map : Type 0 → Type 0
Map V = List (Text × V)

module _ {V : Type 0} where
  unfoldable pub lookup : Text → Map V → Option V
  lookup k [] = none
  lookup k ((j, v) ∷ m) = if text_eq j k then some v else lookup k m

  unfoldable pub insert : Text → V → Map V → Map V
  insert k v [] = (k, v) ∷ []
  insert k v ((j, w) ∷ m) = if text_eq j k then (k, v) ∷ m else (j, w) ∷ insert k v m

  unfoldable pub delete : Text → Map V → Map V
  delete k [] = []
  delete k ((j, w) ∷ m) = let rest = delete k m in if text_eq j k then rest else (j, w) ∷ rest

  pub lookup-insert :
      (k j : Text) (v : V) (m : Map V)
      → lookup j (insert k v m) ≡ (if text_eq k j then some v else lookup j m)
  unfolding lookup insert
  lookup-insert k j v [] = refl
  lookup-insert k j v ((i, w) ∷ m) = ground (
    arith,
    text_eq_iff k j,
    text_eq_iff i k,
    text_eq_iff i j,
    text_eq_refl j,
    lookup-insert k j v m,
  )

  pub lookup-delete :
      (k j : Text) (m : Map V) → lookup j (delete k m) ≡ (if text_eq k j then none else lookup j m)
  unfolding lookup delete
  lookup-delete k j [] = ground arith
  lookup-delete k j ((i, w) ∷ m) =
      ground (arith, text_eq_iff k j, text_eq_iff i k, text_eq_iff i j, lookup-delete k j m)

  abbrev pub keys : Map V → List Text
  keys [] = []
  keys ((k, v) ∷ m) = k ∷ keys m

module _ {V : Type 0} where
  pub lookup-insert_hit :
      (k j : Text) (v : V) (m : Map V) → text_eq k j ≡ true → lookup j (insert k v m) ≡ some v
  lookup-insert_hit k j v m h = lookup-insert k j v m ∙ rw h

  pub lookup-insert_miss :
      (k j : Text) (v : V) (m : Map V) → text_eq k j ≡ false → lookup j (insert k v m) ≡ lookup j m
  lookup-insert_miss k j v m h = lookup-insert k j v m ∙ rw h

-- A key of a map after an insertion is the new one, or was there.
pub In-keys-insert :
    {V : Type 0} (x k : Text) (v : V) (m : Map V)
    → In x (keys (insert k v m))
    → (x ≡ k) ⊎ In x (keys m)
unfolding insert
In-keys-insert x k v [] (inl e) = inl e
In-keys-insert x k v [] (inr i) = absurd i
In-keys-insert x k v ((j, w) ∷ m) i = elim (Bool-cases (text_eq j k)) [
  | inl same ↦ elim (rw same at i) [ inl e ↦ inl e | inr h ↦ inr (inr h) ]
  | inr other ↦ elim (rw other at i) [
    | inl e ↦ inr (inl e)
    | inr h ↦ elim (In-keys-insert x k v m h) [ inl e ↦ inl e | inr h' ↦ inr (inr h') ]
  ]
]
