-- ===== src/Pipeline/Samples.antt =====
-- rules/key_processor.go and rules/worker.go: a pipeline with one rule, one key worker and one worker.
-- The channel of keys has room for one, that of work has none.
use go_etcd_rules.Base.{
  Text, Map, ℕ, ◌≡◌, refl, false, [], ◌∷◌, some, codes, text_eq, lookup, insert, nat_lookup, arith,
}
use go_etcd_rules.StaticRule.{get_keys, get_attributes, satisfied}
use go_etcd_rules.KeyProcessor.{keys_of, dispatch_work, rule_id_of, process_key}
use go_etcd_rules.DynamicRule.{unique_from}
use go_etcd_rules.Etcd.{get_cached_api, unique_keys, cache_get, put_responses, put_all}
use go_etcd_rules.Etcd.Samples.{table_kv, one_pair}
use go_etcd_rules.KeyProcessor.Samples.{processor, a_key, item, rules_found}
use go_etcd_rules.Pipeline.{
  KeyTask, Pipeline, doing, evaluate, submit, take, send, receive, move, Reach, here, next,
  submit_task, take_task, hand_work, start_work, new_pipeline,
}

abbrev pub a_task : KeyTask
a_task = record { key = a_key; value = some (codes "1"); metadata = [] }

pub evaluated : evaluate processor table_kv one_pair a_task ≡ some (item ∷ [])
unfolding process_key satisfied get_attributes rule_id_of dispatch_work nat_lookup keys_of get_keys
    get_cached_api unique_keys unique_from lookup insert text_eq cache_get put_responses put_all
evaluated = rw (process_key, rules_found) refl

abbrev pub at_start : Pipeline ℕ ℕ (Map Text)
at_start = new_pipeline 1 1 one_pair

abbrev pub given : Pipeline ℕ ℕ (Map Text)
given = submit a_task at_start

abbrev pub evaluating : Pipeline ℕ ℕ (Map Text)
evaluating = take a_task [] [] [] (item ∷ []) given

abbrev pub handed : Pipeline ℕ ℕ (Map Text)
handed = receive item [] [] [] false (send [] [] item [] evaluating)

-- The worker is at the item.
abbrev pub at_item : Pipeline ℕ ℕ (Map Text)
at_item = record (move [] [] (record { told = false; slot = doing item }) handed) {
  started = item ∷ [];
}

pub handed-Reach : Reach processor table_kv 1 0 at_start handed
unfolding new_pipeline
handed-Reach =
    next
      (next {u = evaluating} (next {u = given} here (submit_task a_task (omega arith) refl))
        (take_task a_task [] [] [] (item ∷ []) refl refl evaluated refl))
      (hand_work [] [] item [] false [] [] refl refl refl refl)

pub at_item-Reach : Reach processor table_kv 1 0 at_start at_item
unfolding new_pipeline
at_item-Reach = next {u = at_item} handed-Reach (start_work item [] [] refl refl)
