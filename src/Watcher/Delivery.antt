-- ===== src/Watcher/Delivery.antt =====
-- rules/etcd.go: what calls of `next` deliver.
use go_etcd_rules.Base.{
  ◌≡◌, refl, ap, ◌∙◌, ◌⊎◌, inl, inr, List, [], ◌∷◌, ◌++◌, map, none, some, channel_closed,
  no_events, arith,
}
use go_etcd_rules.Watcher.{
  WatchEvent, Input, stop_requested, channel_gone, response, KeyWatcher, Next, failed, reset, watch,
  change_of, closing, select, next_from, next,
}

-- What an input is worth: an error, or each of its events as a change.
abbrev pub results_of : Input → List Next
results_of (stop_requested close_error) = failed (closing close_error) ∷ []
results_of channel_gone = failed channel_closed ∷ []
results_of (response (some e) events) = failed e ∷ []
results_of (response none []) = failed no_events ∷ []
results_of (response none (event ∷ events)) = map change_of (event ∷ events)

abbrev pub all_results : List Input → List Next
all_results [] = []
all_results (input ∷ inputs) = results_of input ++ all_results inputs

-- The changes of the events at hand, and what the inputs are worth.
abbrev pub expected : List WatchEvent → List Input → List Next
expected events inputs = map change_of events ++ all_results inputs

-- One call: it waits where nothing is left to deliver, and else delivers the first result and leaves
-- the others.
pub record Delivers (kw : KeyWatcher) (inputs : List Input) : Type 0 where
  pub result : Next
  pub left : KeyWatcher
  pub inputs_left : List Input
  pub called : next kw inputs ≡ some (result, left, inputs_left)
  pub shortened : expected kw.events inputs ≡ result ∷ expected left.events inputs_left

watch-events : (kw : KeyWatcher) → (watch kw).events ≡ kw.events
unfolding watch
watch-events kw = ground arith

next-is :
    (kw : KeyWatcher) (events : List WatchEvent) (inputs : List Input)
    → kw.events ≡ events
    → next kw inputs ≡ next_from (watch kw) events inputs
unfolding next
next-is kw events inputs e = ap (λ es. next_from (watch kw) es inputs) e

select-results_of :
    (kw : KeyWatcher) (input : Input)
    → kw.events ≡ []
    → results_of input ≡ (select kw input).0 ∷ map change_of (select kw input).1.events
unfolding reset
select-results_of kw (stop_requested close_error) none_left = rw none_left
select-results_of kw channel_gone none_left = rw none_left
select-results_of kw (response (some e) events) none_left = rw none_left
select-results_of kw (response none []) none_left = rw none_left
select-results_of kw (response none (event ∷ events)) none_left = refl

pub next-Delivers :
    (kw : KeyWatcher) (events : List WatchEvent) (inputs : List Input)
    → kw.events ≡ events
    → ((next kw inputs ≡ none) × (expected events inputs ≡ [])) ⊎ Delivers kw inputs
next-Delivers kw [] [] at = inl (next-is kw [] [] at, refl)
next-Delivers kw [] (input ∷ inputs) at = inr (record {
  result = (select (watch kw) input).0;
  left = (select (watch kw) input).1;
  inputs_left = inputs;
  called = next-is kw [] (input ∷ inputs) at;
  shortened =
      let one = select-results_of (watch kw) input (watch-events kw ∙ at) in
      ap (λ es. expected es (input ∷ inputs)) at ∙ ap (λ rs. rs ++ all_results inputs) one;
})
next-Delivers kw (event ∷ events) inputs at = inr (record {
  result = change_of event;
  left = record (watch kw) { events = events };
  inputs_left = inputs;
  called = next-is kw (event ∷ events) inputs at;
  shortened = rw at;
})
