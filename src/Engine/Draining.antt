-- ===== src/Engine/Draining.antt =====
-- rules/engine.go with the pipeline: an engine that rules were added to works off its keys.
use go_etcd_rules.Base.{
  ℕ, ◌≡◌, ◌∷◌, ◌++◌, sym, subst, ap, nat_lookup, inl, inr, false, List, [], In, In-append_left,
  In-append_right, All, All-of, Text, count,
}
use go_etcd_rules.Matcher.{slash}
use go_etcd_rules.DynamicRule.{DynamicRule, get_patterns}
use go_etcd_rules.DynamicRule.Scope.{HasLeaves}
use go_etcd_rules.RuleManager
use go_etcd_rules.RuleManager.{rules_at}
use go_etcd_rules.Etcd.{EtcdKv}
use go_etcd_rules.KeyProcessor.{Work}
use go_etcd_rules.KeyProcessor.Returns.{AllHaveLeaves}
use go_etcd_rules.Pipeline.{Slot, PoolWorker, Pipeline, Reach, new_pipeline}
use go_etcd_rules.Pipeline.Progress.{Reach-drains}
use go_etcd_rules.Options.{RuleOption, make_rule_options}
use go_etcd_rules.Engine.{Engine, new_v3_engine, register, file_in_manager}
use go_etcd_rules.Engine.Registration.{In-file_rule, add_rule_inv}
use go_etcd_rules.Engine.Coverage.{Built, fresh, added}
use go_etcd_rules.Engine.Dispatch.{Built-IsRegistered}

module _ {F Provider Metrics Callback : Type 0} where
  abbrev AreFiled : Engine F Provider Metrics Callback → Type 0
  AreFiled e =
      (n pointer index : ℕ) (rule : DynamicRule)
      → In (pointer, (rule, index)) (rules_at n e.rule_mgr.rules_by_slash_count)
      → In rule e.rule_mgr.rules

  register-AreFiled :
      (e : Engine F Provider Metrics Callback) (pointer : ℕ) (rule : DynamicRule)
      (lock_pattern : Text) (callback : Callback) (options : List (RuleOption Provider))
      → AreFiled e
      → AreFiled (
          register e.rule_mgr.current_index lock_pattern callback
            (make_rule_options options)
            (file_in_manager pointer rule e))
  unfolding register file_in_manager RuleManager.add_rule
  register-AreFiled e pointer rule lock_pattern callback options f n p index other i =
      elim (In-file_rule pointer rule e.rule_mgr.current_index (get_patterns rule)
        e.rule_mgr.rules_by_slash_count n (p, (other, index)) i) [
          | inl new ↦
              let same : other ≡ rule = ap (λ (x : ℕ × (DynamicRule × ℕ)). x.1.0) new in
              In-append_right other e.rule_mgr.rules (rule ∷ []) (inl same)
          | inr old ↦ In-append_left other e.rule_mgr.rules (rule ∷ []) (f n p index other old)
        ]

  -- Every rule that is filed was added.
  Built-AreFiled : (e : Engine F Provider Metrics Callback) → Built e → AreFiled e
  unfolding new_v3_engine rules_at nat_lookup
  Built-AreFiled _ (fresh opts) = λ n pointer index rule i. absurd i
  Built-AreFiled e' (added {e} b p other lock_pattern callback options h) =
      subst AreFiled (add_rule_inv p other lock_pattern callback options e h)
        (register-AreFiled e p other lock_pattern callback options (Built-AreFiled e b))

  Built-AllHaveLeaves :
      (e : Engine F Provider Metrics Callback)
      → Built e
      → ((rule : DynamicRule) → In rule e.rule_mgr.rules → HasLeaves rule)
      → (key : Text) → AllHaveLeaves (rules_at (count slash key) e.key_proc.rm.rules_by_slash_count)
  Built-AllHaveLeaves e b leaves key =
      let r = Built-IsRegistered e b in
      let n = count slash key in
      let filed = Built-AreFiled e b n in
      let all : AllHaveLeaves (rules_at n e.rule_mgr.rules_by_slash_count) =
        All-of (λ (entry : ℕ × (DynamicRule × ℕ)). HasLeaves entry.1.0) _
          (λ (pointer, (rule, index)) i. leaves rule (filed pointer index rule i)) in
      subst (λ m. AllHaveLeaves (rules_at n m)) (sym r.shared) all

  -- In an engine that rules were added to, none of which is without nested rules where it is compound,
  -- with the engine's own buffers and numbers of key workers and workers: every run with a key worker and
  -- a worker that was not told to stop can go on, without anything more being submitted or dropped, until
  -- every task that was submitted has been taken, no key worker has anything to send and the channel of
  -- work is empty.
  pub engine_drains :
      {S : Type 0} (kv : EtcdKv S) (e : Engine F Provider Metrics Callback) (now : S)
      → Built e
      → ((rule : DynamicRule) → In rule e.rule_mgr.rules → HasLeaves rule)
      → (t : Pipeline Callback Provider S)
      → Reach e.key_proc kv e.options.key_proc_buffer e.options.rule_work_buffer
          (new_pipeline e.options.key_proc_concurrency e.options.concurrency now)
          t
      → (works : List (Work Callback Provider)) (others : List (List (Work Callback Provider)))
      → t.key_workers ≡ works ∷ others
      → (first last : List (PoolWorker (Work Callback Provider)))
        (slot : Slot (Work Callback Provider))
      → t.workers ≡ first ++ record { told = false; slot = slot } ∷ last
      → (u : Pipeline Callback Provider S) × Reach e.key_proc kv e.options.key_proc_buffer
          e.options.rule_work_buffer t u
        × (u.taken ≡ t.submitted)
        × (u.submitted ≡ t.submitted)
        × (u.dropped ≡ t.dropped)
        × All (λ (l : List (Work Callback Provider)). l ≡ []) u.key_workers
        × (u.work_channel ≡ [])
  engine_drains kv e now b leaves =
      Reach-drains e.key_proc kv e.options.key_proc_buffer e.options.rule_work_buffer
        e.options.key_proc_concurrency e.options.concurrency now (Built-AllHaveLeaves e b leaves)
