-- ===== src/Options.antt =====
-- rules/options.go and internal/jitter/duration.go: the options of an engine and of a rule. An option
-- changes the options made so far; the last one that sets a field wins.
mod Laws
use go_etcd_rules.Base.{
  ℕ, ◌*◌, ◌%◌, ◌^◌, Bool, true, false, List, [], ◌∷◌, Option, none, some, Text, codes, Map, insert,
  ◌==◌, if◌then◌else◌,
}
use go_etcd_rules.RuleManager.{Constraint}

-- Floating-point numbers, of which the code compares and keeps some.
pub record Floats (F : Type 0) : Type 0 where
  pub zero_float : F
  pub one_float : F
  pub ltb_float : F → F → Bool
  pub sync_jitter_percent : F

module _ {F : Type 0} (fl : Floats F) where
  unfoldable pub clamp_percent : F → F
  clamp_percent f =
      if fl.ltb_float f fl.zero_float
      then fl.zero_float
      else if fl.ltb_float fl.one_float f
      then fl.one_float
      else f

-- A duration is the bit pattern of its nanoseconds in 64 bits.
pub record DurationGenerator (F : Type 0) : Type 0 where
  pub base : ℕ
  pub jitter_percent : F

abbrev pub nanoseconds : ℕ → ℕ → ℕ
nanoseconds n unit = (n * unit) % 2 ^ 64

abbrev pub millisecond : ℕ
millisecond = 1000000

abbrev pub second : ℕ
second = 1000000000

-- A provider of contexts and a collector of metrics are the caller's functions. A nil map is `none`.
pub record EngineOptions (F Provider Metrics : Type 0) : Type 0 where
  pub concurrency : ℕ
  pub crawler_ttl : ℕ
  pub sync_get_timeout : ℕ
  pub watch_timeout : ℕ
  pub key_proc_concurrency : ℕ
  pub key_proc_buffer : ℕ
  pub sync_interval : DurationGenerator F
  pub sync_delay : DurationGenerator F
  pub constraints : Map Constraint
  pub context_provider : Provider
  pub key_expansion : Option (Map (List Text))
  pub lock_timeout : ℕ
  pub lock_acquisition_timeout : ℕ
  pub crawl_mutex : Option Text
  pub rule_work_buffer : ℕ
  pub enhanced_rule_filter : Bool
  pub metrics : Metrics
  pub lock_cool_off : ℕ
  pub dont_use_shared_lock_session : Bool
  pub use_try_lock : Bool
  pub watch_delay : DurationGenerator F

module _ {F : Type 0} (fl : Floats F) where
  unfoldable pub new_duration_generator : ℕ → F → DurationGenerator F
  unfolding clamp_percent
  new_duration_generator base jitter_percent = record {
    base = base;
    jitter_percent = clamp_percent fl jitter_percent;
  }

-- The loop of `KeyExpansion` over the additional pairings.
unfoldable pub merge_expansion : Map (List Text) → Map (List Text) → Map (List Text)
merge_expansion [] old = old
merge_expansion ((k, v) ∷ rest) old = merge_expansion rest (insert k v old)

abbrev pub combine_expansion : Map (List Text) → Option (Map (List Text)) → Map (List Text)
combine_expansion added none = added
combine_expansion added (some old) = merge_expansion added old

abbrev pub EngineOption : Type 0 → Type 0 → Type 0 → Type 0
EngineOption F Provider Metrics =
    EngineOptions F Provider Metrics → EngineOptions F Provider Metrics

module _ {F Provider Metrics : Type 0} where
  unfoldable pub key_processor_concurrency : ℕ → EngineOption F Provider Metrics
  key_processor_concurrency n o = record o { key_proc_concurrency = n }

  unfoldable pub key_processor_buffer : ℕ → EngineOption F Provider Metrics
  key_processor_buffer n o = record o { key_proc_buffer = n }

  unfoldable pub engine_lock_timeout : ℕ → EngineOption F Provider Metrics
  engine_lock_timeout n o = record o { lock_timeout = n }

  unfoldable pub engine_lock_acquisition_timeout : ℕ → EngineOption F Provider Metrics
  engine_lock_acquisition_timeout n o = record o { lock_acquisition_timeout = n }

  unfoldable pub engine_concurrency : ℕ → EngineOption F Provider Metrics
  engine_concurrency n o = record o { concurrency = n }

  unfoldable pub engine_watch_timeout : ℕ → EngineOption F Provider Metrics
  engine_watch_timeout n o = record o { watch_timeout = n }

  unfoldable pub key_expansion : Map (List Text) → EngineOption F Provider Metrics
  unfolding merge_expansion
  key_expansion added o = record o {
    key_expansion = some (combine_expansion added o.key_expansion);
  }

  unfoldable pub key_constraint : Text → Text → List (List Text) → EngineOption F Provider Metrics
  key_constraint attribute prefix chars o =
      let constr : Constraint = record { prefix = prefix; chars = chars } in
      record o { constraints = insert attribute constr o.constraints }

  unfoldable pub engine_use_try_lock : EngineOption F Provider Metrics
  engine_use_try_lock o = record o { use_try_lock = true }

  unfoldable pub engine_use_shared_lock_session : EngineOption F Provider Metrics
  engine_use_shared_lock_session o = o

  unfoldable pub engine_dont_share_lock_session : EngineOption F Provider Metrics
  engine_dont_share_lock_session o = record o { dont_use_shared_lock_session = true }

  unfoldable pub engine_lock_cool_off : ℕ → EngineOption F Provider Metrics
  engine_lock_cool_off timeout o = record o { lock_cool_off = timeout }

  unfoldable pub engine_sync_interval : Floats F → ℕ → EngineOption F Provider Metrics
  unfolding new_duration_generator
  engine_sync_interval fl interval o = record o {
    sync_interval = new_duration_generator fl (nanoseconds interval second) fl.sync_jitter_percent;
  }

  -- Of zero it panics, which is `none`.
  unfoldable pub engine_sync_delay : Floats F → ℕ → Option (EngineOption F Provider Metrics)
  unfolding new_duration_generator
  engine_sync_delay fl delay =
      if delay == 0
      then none
      else some (λ o. record o {
        sync_delay =
            new_duration_generator fl (nanoseconds delay millisecond) fl.sync_jitter_percent;
      })

  unfoldable pub engine_context_provider : Provider → EngineOption F Provider Metrics
  engine_context_provider cp o = record o { context_provider = cp }

  unfoldable pub engine_metrics_collector : Metrics → EngineOption F Provider Metrics
  engine_metrics_collector m o = record o { metrics = m }

  unfoldable pub engine_crawl_mutex : Text → ℕ → EngineOption F Provider Metrics
  engine_crawl_mutex mutex mutex_ttl o = record o {
    crawl_mutex = some mutex;
    crawler_ttl = mutex_ttl;
  }

  unfoldable pub engine_rule_work_buffer : ℕ → EngineOption F Provider Metrics
  engine_rule_work_buffer buffer o = record o { rule_work_buffer = buffer }

  unfoldable pub engine_enhanced_rule_filter : Bool → EngineOption F Provider Metrics
  engine_enhanced_rule_filter enhanced o = record o { enhanced_rule_filter = enhanced }

  unfoldable pub engine_watch_process_delay : Floats F → ℕ → F → EngineOption F Provider Metrics
  unfolding new_duration_generator
  engine_watch_process_delay fl base jitter_percent o = record o {
    watch_delay = new_duration_generator fl base jitter_percent;
  }

  -- `GetEngineOptions`, of the two fields of a configuration file that may be set.
  unfoldable pub get_engine_options :
      Option ℕ → Option Bool → List (EngineOption F Provider Metrics)
  unfolding engine_concurrency engine_enhanced_rule_filter
  get_engine_options none none = []
  get_engine_options none (some enhanced) = engine_enhanced_rule_filter enhanced ∷ []
  get_engine_options (some workers) none = engine_concurrency workers ∷ []
  get_engine_options (some workers) (some enhanced) =
      engine_concurrency workers ∷ engine_enhanced_rule_filter enhanced ∷ []

  unfoldable pub apply_options :
      List (EngineOption F Provider Metrics)
      → EngineOptions F Provider Metrics
      → EngineOptions F Provider Metrics
  apply_options [] opts = opts
  apply_options (opt ∷ options) opts = apply_options options (opt opts)

  -- The defaults; the zero value of a generator has no delay.
  unfoldable pub default_engine_options :
      Floats F → Provider → Metrics → EngineOptions F Provider Metrics
  unfolding new_duration_generator
  default_engine_options fl default_context_provider default_metrics = record {
    concurrency = 5;
    crawler_ttl = 0;
    sync_get_timeout = 0;
    watch_timeout = 0;
    key_proc_concurrency = 5;
    key_proc_buffer = 1000;
    sync_interval = new_duration_generator fl (nanoseconds 300 second) fl.sync_jitter_percent;
    sync_delay = new_duration_generator fl (nanoseconds 2 millisecond) fl.sync_jitter_percent;
    constraints = [];
    context_provider = default_context_provider;
    key_expansion = none;
    lock_timeout = 30;
    lock_acquisition_timeout = 5;
    crawl_mutex = none;
    rule_work_buffer = 0;
    enhanced_rule_filter = false;
    metrics = default_metrics;
    lock_cool_off = 0;
    dont_use_shared_lock_session = false;
    use_try_lock = false;
    watch_delay = record { base = 0; jitter_percent = fl.zero_float };
  }

  unfoldable pub make_engine_options :
      Floats F
      → Provider
      → Metrics
      → List (EngineOption F Provider Metrics)
      → EngineOptions F Provider Metrics
  unfolding apply_options default_engine_options
  make_engine_options fl default_context_provider default_metrics options =
      apply_options options (default_engine_options fl default_context_provider default_metrics)

-- The options of a rule; a nil provider is `none`.
pub record RuleOptions (Provider : Type 0) : Type 0 where
  pub lock_timeout : ℕ
  pub context_provider : Option Provider
  pub rule_id : Text

abbrev pub default_rule_id : Text
default_rule_id = codes "NO_ID_SET"

abbrev pub RuleOption : Type 0 → Type 0
RuleOption Provider = RuleOptions Provider → RuleOptions Provider

module _ {Provider : Type 0} where
  unfoldable pub rule_lock_timeout : ℕ → RuleOption Provider
  rule_lock_timeout lock_timeout o = record o { lock_timeout = lock_timeout }

  unfoldable pub rule_context_provider : Provider → RuleOption Provider
  rule_context_provider cp o = record o { context_provider = some cp }

  unfoldable pub rule_id : Text → RuleOption Provider
  rule_id id o = record o { rule_id = id }

  unfoldable pub apply_rule_options :
      List (RuleOption Provider) → RuleOptions Provider → RuleOptions Provider
  apply_rule_options [] opts = opts
  apply_rule_options (opt ∷ options) opts = apply_rule_options options (opt opts)

  unfoldable pub make_rule_options : List (RuleOption Provider) → RuleOptions Provider
  unfolding apply_rule_options
  make_rule_options options =
      apply_rule_options options
        (record { lock_timeout = 0; context_provider = none; rule_id = default_rule_id })
