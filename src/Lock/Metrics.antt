-- ===== src/Lock/Metrics.antt =====
-- rules/lock/metrics.go and rules/lock/options.go: a locker that reports its attempts.
use go_etcd_rules.Base.{Bool, true, false, List, [], ◌∷◌, none, some, Text, codes, Result, ok, err}
use go_etcd_rules.Lock.{RuleLocker, Unlock}

-- The struct options, with the two options that set its fields.
pub record LockOptions : Type 0 where
  pub pattern : Text
  pub method : Text

abbrev pub LockOption : Type 0
LockOption = LockOptions → LockOptions

unfoldable pub pattern_for_lock : Text → LockOption
pattern_for_lock pattern lo = record lo { pattern = pattern }

unfoldable pub method_for_lock : Text → LockOption
method_for_lock method lo = record lo { method = method }

unfoldable pub apply_lock_options : List LockOption → LockOptions → LockOptions
apply_lock_options [] os = os
apply_lock_options (opt ∷ opts) os = apply_lock_options opts (opt os)

unfoldable pub build_options : List LockOption → LockOptions
unfolding apply_lock_options
build_options opts =
    apply_lock_options opts (record { pattern = codes "unknown"; method = codes "unknown" })

module _ {S : Type 0} where
  abbrev pub succeeded : Result (Unlock S) × S → Bool
  succeeded (ok unlock, s) = true
  succeeded (err e, s) = false

  -- `Lock` of metricLocker. `observe` is what the report of an attempt does to the world. The lock that
  -- it returns is the decorated locker's own.
  unfoldable pub with_metrics :
      (Text → Text → Bool → S → S) → List LockOption → RuleLocker S → RuleLocker S
  unfolding build_options
  with_metrics observe options locker = record {
    lock = λ key s.
        let opts = build_options options in
        let (result, s') = locker.lock key s in
        (result, observe opts.method opts.pattern (succeeded (result, s')) s');
  }

  -- `Unlock` of metricLocker.
  unfoldable pub metric_unlock : (Text → Text → S → S) → List LockOption → Unlock S → Unlock S
  unfolding build_options
  metric_unlock observe_error options unlock s =
      let (e, s') = unlock s in
      let opts = build_options options in
      (e, elim e [ none ↦ s' | some x ↦ observe_error opts.method opts.pattern s' ])
