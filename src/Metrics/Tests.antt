-- ===== src/Metrics/Tests.antt =====
-- metrics/prometheus.go: the theorem at an unlock error, which is counted and not exported.
use go_etcd_rules.Base.{◌≢◌, ◌↔◌, codes, In}
use go_etcd_rules.Metrics.{
  unlock_error_count, registered, update_of, Call, inc_unlock_error_metric_call,
}
use go_etcd_rules.Metrics.Labels.{IsLabelled, update_of-IsLabelled}

abbrev failed_unlock : Call
failed_unlock =
    inc_unlock_error_metric_call (codes "etcd") (codes "worker_lock") (codes "/lock/:id")

update_of-IsLabelled_example :
    IsLabelled failed_unlock
    × (In (update_of failed_unlock).metric registered
        ↔ ((update_of failed_unlock).metric ≢ unlock_error_count))
update_of-IsLabelled_example = update_of-IsLabelled failed_unlock
