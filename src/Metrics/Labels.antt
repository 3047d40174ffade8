-- ===== src/Metrics/Labels.antt =====
-- metrics/prometheus.go: a call hands each value over under the label that it is for, and which metrics
-- are exported.
use go_etcd_rules.Base.{
  ◌≡◌, ◌≢◌, ◌↔◌, refl, inl, inr, List, [], ◌∷◌, length, Option, none, some, Text, codes, Map,
  lookup, text_eq, In,
}
use go_etcd_rules.Metrics.{
  Metric, lock_count, unlock_error_count, satisfied_then_not, evaluations, worker_queue_wait,
  work_buffer_wait_time, callback_wait_time, key_process_buffer_cap, watcher_errors,
  crawler_query_time, crawler_eval_time, crawler_values, worker_count, labels_of, registered,
  Update, Call, update_of, inc_lock_metric_call, inc_unlock_error_metric_call,
  inc_satisfied_then_not_call, times_evaluated_call, worker_queue_wait_time_call,
  work_buffer_wait_time_of_call, callback_wait_time_of_call, key_process_buffer_cap_of_call,
  inc_watcher_err_metric_call, crawler_query_time_of_call, crawler_eval_time_of_call,
  crawler_values_count_call, workers_count_call,
}

-- The label values by the names of the labels.
abbrev pub zip : List Text → List Text → Map Text
zip [] values = []
zip (label ∷ labels) [] = []
zip (label ∷ labels) (value ∷ values) = (label, value) ∷ zip labels values

abbrev pub labelled : Update → Map Text
labelled u = zip (labels_of u.metric) u.values

-- The arguments of a call by what they are.
abbrev pub method_of : Call → Option Text
method_of (inc_lock_metric_call locker method_name pattern lock_succeeded) = some method_name
method_of (inc_unlock_error_metric_call locker method_name pattern) = some method_name
method_of (inc_satisfied_then_not_call method_name pattern phase_name) = some method_name
method_of (times_evaluated_call method_name rule_id count) = some method_name
method_of (worker_queue_wait_time_call method_name elapsed) = some method_name
method_of (work_buffer_wait_time_of_call method_name pattern elapsed) = some method_name
method_of (callback_wait_time_of_call pattern rule_id source elapsed) = none
method_of (key_process_buffer_cap_of_call count) = none
method_of (inc_watcher_err_metric_call error_text prefix) = none
method_of (crawler_query_time_of_call name elapsed) = none
method_of (crawler_eval_time_of_call name elapsed) = none
method_of (crawler_values_count_call name count) = none
method_of (workers_count_call count) = none

abbrev pub pattern_of : Call → Option Text
pattern_of (inc_lock_metric_call locker method_name pattern lock_succeeded) = some pattern
pattern_of (inc_unlock_error_metric_call locker method_name pattern) = some pattern
pattern_of (inc_satisfied_then_not_call method_name pattern phase_name) = some pattern
pattern_of (times_evaluated_call method_name rule_id count) = none
pattern_of (worker_queue_wait_time_call method_name elapsed) = none
pattern_of (work_buffer_wait_time_of_call method_name pattern elapsed) = some pattern
pattern_of (callback_wait_time_of_call pattern rule_id source elapsed) = some pattern
pattern_of (key_process_buffer_cap_of_call count) = none
pattern_of (inc_watcher_err_metric_call error_text prefix) = none
pattern_of (crawler_query_time_of_call name elapsed) = none
pattern_of (crawler_eval_time_of_call name elapsed) = none
pattern_of (crawler_values_count_call name count) = none
pattern_of (workers_count_call count) = none

abbrev pub rule_of : Call → Option Text
rule_of (inc_lock_metric_call locker method_name pattern lock_succeeded) = none
rule_of (inc_unlock_error_metric_call locker method_name pattern) = none
rule_of (inc_satisfied_then_not_call method_name pattern phase_name) = none
rule_of (times_evaluated_call method_name rule_id count) = some rule_id
rule_of (worker_queue_wait_time_call method_name elapsed) = none
rule_of (work_buffer_wait_time_of_call method_name pattern elapsed) = none
rule_of (callback_wait_time_of_call pattern rule_id source elapsed) = some rule_id
rule_of (key_process_buffer_cap_of_call count) = none
rule_of (inc_watcher_err_metric_call error_text prefix) = none
rule_of (crawler_query_time_of_call name elapsed) = none
rule_of (crawler_eval_time_of_call name elapsed) = none
rule_of (crawler_values_count_call name count) = none
rule_of (workers_count_call count) = none

abbrev pub locker_of : Call → Option Text
locker_of (inc_lock_metric_call locker method_name pattern lock_succeeded) = some locker
locker_of (inc_unlock_error_metric_call locker method_name pattern) = some locker
locker_of (inc_satisfied_then_not_call method_name pattern phase_name) = none
locker_of (times_evaluated_call method_name rule_id count) = none
locker_of (worker_queue_wait_time_call method_name elapsed) = none
locker_of (work_buffer_wait_time_of_call method_name pattern elapsed) = none
locker_of (callback_wait_time_of_call pattern rule_id source elapsed) = none
locker_of (key_process_buffer_cap_of_call count) = none
locker_of (inc_watcher_err_metric_call error_text prefix) = none
locker_of (crawler_query_time_of_call name elapsed) = none
locker_of (crawler_eval_time_of_call name elapsed) = none
locker_of (crawler_values_count_call name count) = none
locker_of (workers_count_call count) = none

-- What a call hands over: as many values as its metric has labels, and the method, the pattern, the rule
-- and the locker under their labels, if it has them.
pub record IsLabelled (call : Call) : Type 0 where
  pub complete : length (update_of call).values ≡ length (labels_of (update_of call).metric)
  pub method : lookup (codes "method") (labelled (update_of call)) ≡ method_of call
  pub pattern : lookup (codes "pattern") (labelled (update_of call)) ≡ pattern_of call
  pub rule : lookup (codes "rule") (labelled (update_of call)) ≡ rule_of call
  pub locker : lookup (codes "locker") (labelled (update_of call)) ≡ locker_of call

call-IsLabelled : (call : Call) → IsLabelled call
unfolding update_of labels_of lookup text_eq
call-IsLabelled (inc_lock_metric_call locker method_name pattern lock_succeeded) = record {
  complete = refl;
  method = refl;
  pattern = refl;
  rule = refl;
  locker = refl;
}
call-IsLabelled (inc_unlock_error_metric_call locker method_name pattern) = record {
  complete = refl;
  method = refl;
  pattern = refl;
  rule = refl;
  locker = refl;
}
call-IsLabelled (inc_satisfied_then_not_call method_name pattern phase_name) = record {
  complete = refl;
  method = refl;
  pattern = refl;
  rule = refl;
  locker = refl;
}
call-IsLabelled (times_evaluated_call method_name rule_id count) = record {
  complete = refl;
  method = refl;
  pattern = refl;
  rule = refl;
  locker = refl;
}
call-IsLabelled (worker_queue_wait_time_call method_name elapsed) = record {
  complete = refl;
  method = refl;
  pattern = refl;
  rule = refl;
  locker = refl;
}
call-IsLabelled (work_buffer_wait_time_of_call method_name pattern elapsed) = record {
  complete = refl;
  method = refl;
  pattern = refl;
  rule = refl;
  locker = refl;
}
call-IsLabelled (callback_wait_time_of_call pattern rule_id source elapsed) = record {
  complete = refl;
  method = refl;
  pattern = refl;
  rule = refl;
  locker = refl;
}
call-IsLabelled (key_process_buffer_cap_of_call count) = record {
  complete = refl;
  method = refl;
  pattern = refl;
  rule = refl;
  locker = refl;
}
call-IsLabelled (inc_watcher_err_metric_call error_text prefix) = record {
  complete = refl;
  method = refl;
  pattern = refl;
  rule = refl;
  locker = refl;
}
call-IsLabelled (crawler_query_time_of_call name elapsed) = record {
  complete = refl;
  method = refl;
  pattern = refl;
  rule = refl;
  locker = refl;
}
call-IsLabelled (crawler_eval_time_of_call name elapsed) = record {
  complete = refl;
  method = refl;
  pattern = refl;
  rule = refl;
  locker = refl;
}
call-IsLabelled (crawler_values_count_call name count) = record {
  complete = refl;
  method = refl;
  pattern = refl;
  rule = refl;
  locker = refl;
}
call-IsLabelled (workers_count_call count) = record {
  complete = refl;
  method = refl;
  pattern = refl;
  rule = refl;
  locker = refl;
}

not_registered : In unlock_error_count registered → unlock_error_count ≢ unlock_error_count
unfolding registered
not_registered (inl e) = cc e
not_registered (inr (inl e)) = cc e
not_registered (inr (inr (inl e))) = cc e
not_registered (inr (inr (inr (inl e)))) = cc e
not_registered (inr (inr (inr (inr (inl e))))) = cc e
not_registered (inr (inr (inr (inr (inr (inl e)))))) = cc e
not_registered (inr (inr (inr (inr (inr (inr (inl e))))))) = cc e
not_registered (inr (inr (inr (inr (inr (inr (inr (inl e)))))))) = cc e
not_registered (inr (inr (inr (inr (inr (inr (inr (inr (inl e))))))))) = cc e
not_registered (inr (inr (inr (inr (inr (inr (inr (inr (inr (inl e)))))))))) = cc e
not_registered (inr (inr (inr (inr (inr (inr (inr (inr (inr (inr (inl e))))))))))) = cc e
not_registered (inr (inr (inr (inr (inr (inr (inr (inr (inr (inr (inr (inl e)))))))))))) = cc e
not_registered (inr (inr (inr (inr (inr (inr (inr (inr (inr (inr (inr (inr nowhere)))))))))))) =
    absurd nowhere

registered_or_not : (metric : Metric) → In metric registered ↔ (metric ≢ unlock_error_count)
unfolding registered
registered_or_not lock_count = (λ i e. cc e, λ h. inl refl)
registered_or_not unlock_error_count = (not_registered, λ h. absurd (h refl))
registered_or_not satisfied_then_not = (λ i e. cc e, λ h. inr (inl refl))
registered_or_not evaluations = (λ i e. cc e, λ h. inr (inr (inl refl)))
registered_or_not worker_queue_wait = (λ i e. cc e, λ h. inr (inr (inr (inl refl))))
registered_or_not work_buffer_wait_time = (λ i e. cc e, λ h. inr (inr (inr (inr (inl refl)))))
registered_or_not callback_wait_time = (λ i e. cc e, λ h. inr (inr (inr (inr (inr (inl refl))))))
registered_or_not key_process_buffer_cap =
    (λ i e. cc e, λ h. inr (inr (inr (inr (inr (inr (inl refl)))))))
registered_or_not watcher_errors =
    (λ i e. cc e, λ h. inr (inr (inr (inr (inr (inr (inr (inl refl))))))))
registered_or_not crawler_query_time =
    (λ i e. cc e, λ h. inr (inr (inr (inr (inr (inr (inr (inr (inl refl)))))))))
registered_or_not crawler_eval_time =
    (λ i e. cc e, λ h. inr (inr (inr (inr (inr (inr (inr (inr (inr (inl refl))))))))))
registered_or_not crawler_values =
    (λ i e. cc e, λ h. inr (inr (inr (inr (inr (inr (inr (inr (inr (inr (inl refl)))))))))))
registered_or_not worker_count =
    (λ i e. cc e, λ h. inr (inr (inr (inr (inr (inr (inr (inr (inr (inr (inr (inl refl))))))))))))

-- Each call of a function of the metrics hands over as many label values as its metric has labels, with
-- the method, the pattern, the rule and the locker under their labels; its metric is exported exactly if
-- it is not the count of unlock errors.
pub update_of-IsLabelled :
    (call : Call)
    → IsLabelled call
      × (In (update_of call).metric registered ↔ ((update_of call).metric ≢ unlock_error_count))
update_of-IsLabelled call = (call-IsLabelled call, registered_or_not (update_of call).metric)
