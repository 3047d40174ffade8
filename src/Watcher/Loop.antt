-- ===== src/Watcher/Loop.antt =====
-- rules/watcher.go: the loop that hands what the key watcher delivers to the key processor. Pauses are
-- left out.
use go_etcd_rules.Base.{Bool, true, false, List, [], ◌∷◌, ◌++◌, Option, none, some, Text}
use go_etcd_rules.Watcher.{Input, KeyWatcher, Next, changed, failed, next}

-- The key and the value with which `processKey` is called for a result of `next`, if it is.
abbrev pub submitted : Next → List (Text × Option Text)
submitted (failed e) = []
submitted (changed key value) = (key, value) ∷ []

-- `singleRun`; `none` where `next` waits.
unfoldable pub single_run :
    KeyWatcher → List Input → Option (List (Text × Option Text) × KeyWatcher × List Input)
unfolding next
single_run kw inputs = elim (next kw inputs) [
  | none ↦ none
  | some (r, kw', inputs') ↦ some (submitted r, kw', inputs')
]

-- `run`, by what its loop reads from the stopping flag, round by round: the calls of `processKey`.
unfoldable pub run : List Bool → KeyWatcher → List Input → List (Text × Option Text)
unfolding single_run
run [] kw inputs = []
run (true ∷ stopping) kw inputs = []
run (false ∷ stopping) kw inputs = elim (single_run kw inputs) [
  | none ↦ []
  | some (keys, kw', inputs') ↦ keys ++ run stopping kw' inputs'
]
