-- ===== src/Watcher/Tests.antt =====
-- rules/watcher.go: the theorems at a response of two events and a lost channel, and at a
-- watcher that is at a key when it is stopped.
use go_etcd_rules.Base.{◌≢◌, refl, ◌≡◌, true, false, List, [], ◌∷◌, none, codes}
use go_etcd_rules.Watcher.{WatchEvent, Input, response, channel_gone}
use go_etcd_rules.Watcher.Stopping.{
  at_test, at_select, at_key, gone, not_called, at_send, StopState, end_key, leave, StopReach, here,
  next,
}
use go_etcd_rules.Watcher.Cancel.{stop_stuck}

abbrev put_then_deleted : List WatchEvent
put_then_deleted =
    record { key = codes "/a"; value = codes "1"; is_delete = false }
    ∷ record { key = codes "/a"; value = []; is_delete = true }
    ∷ []

abbrev inputs : List Input
inputs = response none put_then_deleted ∷ channel_gone ∷ []

abbrev at_a_key : StopState
at_a_key = record { place = at_key; stop_place = not_called; stopping = false; events = 0 }

abbrev told : StopState
told = record at_a_key { stop_place = at_send; stopping = true }

abbrev left : StopState
left = record told { place = gone }

told-left : StopReach told left
told-left =
    next {u = left} (next {u = record told { place = at_test }} here (end_key refl refl))
      (leave refl refl refl)

stop_stuck_example : (left.stop_place ≡ at_send) × (left.place ≢ at_select)
stop_stuck_example = stop_stuck at_a_key told left refl (λ e. cc e) refl told-left
