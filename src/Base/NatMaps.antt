-- ===== src/Base/NatMaps.antt =====
-- Go maps with integer keys as association lists.
use Prim.Native.Nat.{ℕ}
use mathlib.Core.Path.{◌≡◌, refl}
use mathlib.Core.List.{List, [], ◌∷◌}
use mathlib.Core.Option.{Option, none, some}
use native.Mathlib.Omega.{arith}
use go_etcd_rules.Base.Tests.{if◌then◌else◌, ◌==◌}

abbrev pub NatMap : Type 0 → Type 0
NatMap V = List (ℕ × V)

module _ {V : Type 0} where
  unfoldable pub nat_lookup : ℕ → NatMap V → Option V
  nat_lookup k [] = none
  nat_lookup k ((j, v) ∷ m) = if j == k then some v else nat_lookup k m

  unfoldable pub nat_insert : ℕ → V → NatMap V → NatMap V
  nat_insert k v [] = (k, v) ∷ []
  nat_insert k v ((j, w) ∷ m) = if j == k then (k, v) ∷ m else (j, w) ∷ nat_insert k v m

  pub nat_lookup-insert :
      (k j : ℕ) (v : V) (m : NatMap V)
      → nat_lookup j (nat_insert k v m) ≡ (if k == j then some v else nat_lookup j m)
  unfolding nat_lookup nat_insert
  nat_lookup-insert k j v [] = refl
  nat_lookup-insert k j v ((i, w) ∷ m) = ground (arith, nat_lookup-insert k j v m)
