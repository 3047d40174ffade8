-- ===== src/Pipeline/Tests.antt =====
-- rules/key_processor.go and rules/worker.go: the theorems at a pipeline with one rule.
use go_etcd_rules.Base.{
  Bool, true, ok, none, codes, lookup, insert, text_eq, ℕ, ◌+◌, ◌≡◌, ◌==◌, Bool-cases, refl, inl,
  inr, false, List, [], ◌∷◌, In, All, Text, Map, nat_lookup, count,
}
use go_etcd_rules.RuleManager.{get_static_rules, rules_at}
use go_etcd_rules.Etcd.Samples.{table, table_kv, table_kv-ReadsAtOnce, one_pair}
use go_etcd_rules.KeyProcessor.{Work}
use go_etcd_rules.Lock.{RuleLocker}
use go_etcd_rules.Matcher.{Attributes, slash}
use go_etcd_rules.StaticRule.{get_keys, satisfied}
use go_etcd_rules.DynamicRule.{unique_from}
use go_etcd_rules.Etcd.{get_cached_api, unique_keys, cache_get, put_responses, put_all}
use go_etcd_rules.Worker.{called, check, do_work, new_v3_worker}
use go_etcd_rules.Worker.Single.{single_run}
use go_etcd_rules.Pipeline.Called.{IsCalled, single_run-IsCalled}
use go_etcd_rules.KeyProcessor.Dispatch.{IsDue}
use go_etcd_rules.KeyProcessor.Samples.{processor, item}
use go_etcd_rules.KeyProcessor.Returns.{AllHaveLeaves}
use go_etcd_rules.Pipeline.{KeyTask, Pipeline, Reach, new_pipeline, received}
use go_etcd_rules.Pipeline.Counting.{sum_by}
use go_etcd_rules.Pipeline.Conserved.{to_send, in_hands, Reach-IsConserved}
use go_etcd_rules.Pipeline.Due.{Reach-IsDue}
use go_etcd_rules.Pipeline.Progress.{Reach-drains}
use go_etcd_rules.Pipeline.Samples.{handed, at_item, handed-Reach, at_item-Reach}

Reach-IsDue_example :
    (task : KeyTask) × (state : Map Text) × In task at_item.submitted
    × In state (at_item.now ∷ at_item.moments)
    × IsDue processor (table state) (get_static_rules task.key task.value processor.rm) item
unfolding new_pipeline
Reach-IsDue_example =
    Reach-IsDue processor table_kv 1 0 table 1 1 one_pair table_kv-ReadsAtOnce at_item item
      at_item-Reach (inl refl)

Reach-IsConserved_example :
    sum_by (λ (w : Work ℕ ℕ). 1) handed.produced
    ≡ to_send (λ (w : Work ℕ ℕ). 1) handed
      + sum_by (λ (w : Work ℕ ℕ). 1) handed.work_channel
      + in_hands (λ (w : Work ℕ ℕ). 1) handed
      + sum_by (λ (w : Work ℕ ℕ). 1) handed.dropped
      + sum_by (λ (w : Work ℕ ℕ). 1) handed.started
Reach-IsConserved_example =
    Reach-IsConserved (λ (w : Work ℕ ℕ). 1) processor table_kv 1 0 1 1 one_pair handed handed-Reach

filed_at-AllHaveLeaves : (n : ℕ) → AllHaveLeaves (rules_at n processor.rm.rules_by_slash_count)
unfolding rules_at nat_lookup
filed_at-AllHaveLeaves n = elim (Bool-cases (3 == n)) [
  | inl three ↦ rw three (tt, tt)
  | inr other ↦ rw other tt
]

Reach-drains_example :
    (u : Pipeline ℕ ℕ (Map Text)) × Reach processor table_kv 1 0 handed u
    × (u.taken ≡ handed.submitted)
    × (u.submitted ≡ handed.submitted)
    × (u.dropped ≡ handed.dropped)
    × All (λ (l : List (Work ℕ ℕ)). l ≡ []) u.key_workers
    × (u.work_channel ≡ [])
Reach-drains_example =
    Reach-drains processor table_kv 1 0 1 1 one_pair
      (λ key. filed_at-AllHaveLeaves (count slash key)) handed handed-Reach [] [] refl [] []
      (received item) refl

abbrev free_locker : RuleLocker (Map Text)
free_locker = record { lock = λ key s. (ok (λ s'. (none, s')), s) }

abbrev never_stopping : Map Text → Bool × Map Text
never_stopping s = (false, s)

abbrev performed : ℕ → Attributes → Map Text → Map Text → Bool × Map Text
performed callback attr metadata s = (true, s)

abbrev returned : Bool × Map Text
returned = (true, one_pair)

is_called :
    In
      (called one_pair returned)
      (single_run table_kv free_locker never_stopping performed false
        (codes "worker0")
        item
        one_pair).0
unfolding single_run do_work check get_keys new_v3_worker get_cached_api unique_keys unique_from
    lookup insert text_eq cache_get put_responses put_all satisfied nat_lookup
is_called = inr (inl refl)

single_run-IsCalled_example :
    IsCalled processor table_kv table free_locker never_stopping performed false at_item.submitted
      item
      (codes "worker0")
      one_pair
      returned
unfolding new_pipeline
single_run-IsCalled_example =
    single_run-IsCalled processor table_kv table free_locker never_stopping performed false 1 0 1 1
      one_pair table_kv-ReadsAtOnce at_item item at_item-Reach (inl refl) (codes "worker0") one_pair
      one_pair returned is_called
