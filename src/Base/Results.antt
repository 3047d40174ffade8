-- ===== src/Base/Results.antt =====
-- Go's pair of a value and an error, and the errors of the program.
use Prim.Native.Nat.{ℕ}
use mathlib.Core.Path.{◌≡◌, refl}
use mathlib.Core.Logic.{◌⊎◌, inl, inr}

-- `store` is an error of the etcd client, `lock_failed` one of a locker behind the code.
pub data Error : Type 0 where
  regexp_failed comparator_nil not_triggered locked_locally cooling_off mutex_nil : Error
  watcher_closing channel_closed no_events : Error
  store lock_failed : ℕ → Error

-- `err e` is a non-nil error; the value beside it is then never read.
pub data Result {ℓ} (A : Type ℓ) : Type ℓ where
  ok : A → Result A
  err : Error → Result A

pub Result-cases :
    {A : Type 0} (r : Result A) → ((x : Error) × (r ≡ err x)) ⊎ ((a : A) × (r ≡ ok a))
Result-cases (err x) = inl (x, refl)
Result-cases (ok a) = inr (a, refl)
