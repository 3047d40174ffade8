-- ===== src/Pipeline/Counting.antt =====
-- Weights of the items that are under way in the pipeline.
use go_etcd_rules.Base.{ℕ, ◌+◌, zero, suc, ◌≡◌, refl, List, [], ◌∷◌, ◌++◌, arith}
use go_etcd_rules.Pipeline.{Slot, waiting, ended, received, doing, PoolWorker, replicate}

module _ {A : Type 0} (f : A → ℕ) where
  abbrev pub sum_by : List A → ℕ
  sum_by [] = 0
  sum_by (x ∷ xs) = f x + sum_by xs

  pub sum_by-append : (xs ys : List A) → sum_by (xs ++ ys) ≡ sum_by xs + sum_by ys
  sum_by-append [] ys = omega arith
  sum_by-append (x ∷ xs) ys = omega (arith, sum_by-append xs ys)

  pub sum_by-replicate : (n : ℕ) (a : A) → f a ≡ 0 → sum_by (replicate n a) ≡ 0
  sum_by-replicate zero a h = refl
  sum_by-replicate (suc n) a h = omega (arith, h, sum_by-replicate n a h)

  -- An item that a worker has received and neither dropped nor started.
  abbrev pub slot_weight : Slot A → ℕ
  slot_weight waiting = 0
  slot_weight ended = 0
  slot_weight (received w) = f w
  slot_weight (doing w) = 0

  abbrev pub in_hand : PoolWorker A → ℕ
  in_hand worker = slot_weight worker.slot
