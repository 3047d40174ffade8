-- ===== src/Watcher/Order.antt =====
-- rules/watcher.go: the calls of `processKey` that a watcher makes.
use go_etcd_rules.Base.{ℕ, zero, suc, Bool, true, false, List, [], ◌∷◌, ◌++◌, Option, Text}
use go_etcd_rules.Watcher.{Next}
use go_etcd_rules.Watcher.Loop.{submitted}

-- The rounds before the loop sees that it is to stop.
abbrev pub rounds : List Bool → ℕ
rounds [] = 0
rounds (true ∷ stopping) = 0
rounds (false ∷ stopping) = suc (rounds stopping)

-- The calls for the first results.
abbrev pub all_submitted : ℕ → List Next → List (Text × Option Text)
all_submitted zero results = []
all_submitted (suc n) [] = []
all_submitted (suc n) (r ∷ results) = submitted r ++ all_submitted n results
