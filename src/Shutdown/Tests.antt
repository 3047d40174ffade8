-- ===== src/Shutdown/Tests.antt =====
-- rules/worker.go and rules/engine.go: the theorems at a worker that is at work.
use go_etcd_rules.Base.{◌↔◌, ◌+◌, ◌≤◌, ◌≡◌, ◌≢◌, refl, true}
use go_etcd_rules.Shutdown.{
  testing, selecting, received, working, first_send, finished, System, move, go_on, receive_work,
  start_work, end_work, Reach, here, next, start, call_stop,
}
use go_etcd_rules.Shutdown.Finishing.{CanFinish, IsDoomed}
use go_etcd_rules.Shutdown.Returning.{can_finish_iff}
use go_etcd_rules.Shutdown.Bounds.{Reach-stopping}
use go_etcd_rules.Shutdown.Blocking.{stop_blocks}

abbrev at_work : System
at_work = record (move working (move received (move selecting start))) { started = 1 }

start-at_work : Reach start at_work
start-at_work =
    next
      (next {u = move received (move selecting start)}
        (next {u = move selecting start} here (go_on refl refl refl)) (receive_work refl refl))
      (start_work refl refl refl)

abbrev told : System
told = record at_work { stopper = first_send; stopping = true }

told-ends : Reach told (move testing told)
told-ends = next here (end_work refl refl)

Reach-stopping_example :
    ((move testing told).started ≡ told.started) × ((move testing told).steps ≤ told.steps + 3)
Reach-stopping_example = Reach-stopping told (move testing told) told-ends refl

stop_blocks_example :
    (t : System) × Reach at_work t × ((u : System) → Reach t u → u.stopper ≢ finished)
stop_blocks_example = stop_blocks at_work refl refl refl

can_finish_iff_example : CanFinish told ↔ ¬ IsDoomed told
can_finish_iff_example = can_finish_iff told (next {u = told} start-at_work (call_stop refl refl))
