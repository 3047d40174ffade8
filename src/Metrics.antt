-- ===== src/Metrics.antt =====
-- metrics/prometheus.go: the metrics of the engine, and the functions that update them. The metrics
-- themselves are the library's: a call is modelled by what it hands over.
mod Labels
mod Context
mod Tests
use go_etcd_rules.Base.{ℕ, ◌/◌, Bool, true, false, List, [], ◌∷◌, Text, codes}

-- The variables of the file, without their common prefix.
pub data Metric : Type 0 where
  lock_count unlock_error_count satisfied_then_not evaluations worker_queue_wait
        work_buffer_wait_time callback_wait_time key_process_buffer_cap watcher_errors
        crawler_query_time crawler_eval_time crawler_values worker_count :
      Metric

-- The names of its labels that each metric is made with; a gauge that is no vector has none.
unfoldable pub labels_of : Metric → List Text
labels_of lock_count = codes "locker" ∷ codes "method" ∷ codes "pattern" ∷ codes "success" ∷ []
labels_of unlock_error_count = codes "locker" ∷ codes "method" ∷ codes "pattern" ∷ []
labels_of satisfied_then_not = codes "method" ∷ codes "pattern" ∷ codes "phase" ∷ []
labels_of evaluations = codes "method" ∷ codes "rule" ∷ []
labels_of worker_queue_wait = codes "method" ∷ []
labels_of work_buffer_wait_time = codes "method" ∷ codes "pattern" ∷ []
labels_of callback_wait_time = codes "pattern" ∷ codes "rule" ∷ codes "source" ∷ []
labels_of key_process_buffer_cap = []
labels_of watcher_errors = codes "error" ∷ codes "prefix" ∷ []
labels_of crawler_query_time = codes "name" ∷ []
labels_of crawler_eval_time = codes "name" ∷ []
labels_of crawler_values = codes "name" ∷ []
labels_of worker_count = []

-- `init`: what is registered, and so exported.
unfoldable pub registered : List Metric
registered =
    lock_count ∷ satisfied_then_not ∷ evaluations ∷ worker_queue_wait ∷ work_buffer_wait_time
    ∷ callback_wait_time ∷ key_process_buffer_cap ∷ watcher_errors ∷ crawler_query_time
    ∷ crawler_eval_time ∷ crawler_values ∷ worker_count ∷ []

-- What is done to the child of a metric with some label values: durations are observed in milliseconds,
-- rounded down, or in seconds, for which the nanoseconds are kept here.
pub data Change : Type 0 where
  inc : Change
  set_to observe_ms observe_seconds : ℕ → Change

pub record Update : Type 0 where
  pub metric : Metric
  pub values : List Text
  pub change : Change

-- `strconv.FormatBool`.
abbrev pub format_bool : Bool → Text
format_bool true = codes "true"
format_bool false = codes "false"

abbrev pub in_ms : ℕ → ℕ
in_ms nanoseconds = nanoseconds / 1000000

-- The functions. In place of a start time they take the nanoseconds since then.
abbrev pub inc_lock_metric : Text → Text → Text → Bool → Update
inc_lock_metric locker method_name pattern lock_succeeded = record {
  metric = lock_count;
  values = locker ∷ method_name ∷ pattern ∷ format_bool lock_succeeded ∷ [];
  change = inc;
}

abbrev pub inc_unlock_error_metric : Text → Text → Text → Update
inc_unlock_error_metric locker method_name pattern = record {
  metric = unlock_error_count;
  values = locker ∷ method_name ∷ pattern ∷ [];
  change = inc;
}

abbrev pub inc_satisfied_then_not : Text → Text → Text → Update
inc_satisfied_then_not method_name pattern phase_name = record {
  metric = satisfied_then_not;
  values = method_name ∷ pattern ∷ phase_name ∷ [];
  change = inc;
}

abbrev pub times_evaluated : Text → Text → ℕ → Update
times_evaluated method_name rule_id count = record {
  metric = evaluations;
  values = method_name ∷ rule_id ∷ [];
  change = set_to count;
}

abbrev pub worker_queue_wait_time : Text → ℕ → Update
worker_queue_wait_time method_name elapsed = record {
  metric = worker_queue_wait;
  values = method_name ∷ [];
  change = observe_ms (in_ms elapsed);
}

abbrev pub work_buffer_wait_time_of : Text → Text → ℕ → Update
work_buffer_wait_time_of method_name pattern elapsed = record {
  metric = work_buffer_wait_time;
  values = method_name ∷ pattern ∷ [];
  change = observe_ms (in_ms elapsed);
}

abbrev pub callback_wait_time_of : Text → Text → Text → ℕ → Update
callback_wait_time_of pattern rule_id source elapsed = record {
  metric = callback_wait_time;
  values = pattern ∷ rule_id ∷ source ∷ [];
  change = observe_ms (in_ms elapsed);
}

abbrev pub key_process_buffer_cap_of : ℕ → Update
key_process_buffer_cap_of count = record {
  metric = key_process_buffer_cap;
  values = [];
  change = set_to count;
}

abbrev pub inc_watcher_err_metric : Text → Text → Update
inc_watcher_err_metric error_text prefix = record {
  metric = watcher_errors;
  values = error_text ∷ prefix ∷ [];
  change = inc;
}

abbrev pub crawler_query_time_of : Text → ℕ → Update
crawler_query_time_of name elapsed = record {
  metric = crawler_query_time;
  values = name ∷ [];
  change = observe_seconds elapsed;
}

abbrev pub crawler_eval_time_of : Text → ℕ → Update
crawler_eval_time_of name elapsed = record {
  metric = crawler_eval_time;
  values = name ∷ [];
  change = observe_seconds elapsed;
}

abbrev pub crawler_values_count : Text → ℕ → Update
crawler_values_count name count = record {
  metric = crawler_values;
  values = name ∷ [];
  change = set_to count;
}

abbrev pub workers_count : ℕ → Update
workers_count count = record { metric = worker_count; values = []; change = set_to count }

-- A call of one of the functions.
pub data Call : Type 0 where
  inc_lock_metric_call : Text → Text → Text → Bool → Call
  inc_unlock_error_metric_call : Text → Text → Text → Call
  inc_satisfied_then_not_call : Text → Text → Text → Call
  times_evaluated_call : Text → Text → ℕ → Call
  worker_queue_wait_time_call : Text → ℕ → Call
  work_buffer_wait_time_of_call : Text → Text → ℕ → Call
  callback_wait_time_of_call : Text → Text → Text → ℕ → Call
  key_process_buffer_cap_of_call : ℕ → Call
  inc_watcher_err_metric_call : Text → Text → Call
  crawler_query_time_of_call : Text → ℕ → Call
  crawler_eval_time_of_call : Text → ℕ → Call
  crawler_values_count_call : Text → ℕ → Call
  workers_count_call : ℕ → Call

unfoldable pub update_of : Call → Update
update_of (inc_lock_metric_call locker method_name pattern lock_succeeded) =
    inc_lock_metric locker method_name pattern lock_succeeded
update_of (inc_unlock_error_metric_call locker method_name pattern) =
    inc_unlock_error_metric locker method_name pattern
update_of (inc_satisfied_then_not_call method_name pattern phase_name) =
    inc_satisfied_then_not method_name pattern phase_name
update_of (times_evaluated_call method_name rule_id count) =
    times_evaluated method_name rule_id count
update_of (worker_queue_wait_time_call method_name elapsed) =
    worker_queue_wait_time method_name elapsed
update_of (work_buffer_wait_time_of_call method_name pattern elapsed) =
    work_buffer_wait_time_of method_name pattern elapsed
update_of (callback_wait_time_of_call pattern rule_id source elapsed) =
    callback_wait_time_of pattern rule_id source elapsed
update_of (key_process_buffer_cap_of_call count) = key_process_buffer_cap_of count
update_of (inc_watcher_err_metric_call error_text prefix) = inc_watcher_err_metric error_text prefix
update_of (crawler_query_time_of_call name elapsed) = crawler_query_time_of name elapsed
update_of (crawler_eval_time_of_call name elapsed) = crawler_eval_time_of name elapsed
update_of (crawler_values_count_call name count) = crawler_values_count name count
update_of (workers_count_call count) = workers_count count
