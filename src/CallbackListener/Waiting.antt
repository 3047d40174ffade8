-- ===== src/CallbackListener/Waiting.antt =====
-- rules/callback_listener.go: when `WaitForCallback` returns.
use go_etcd_rules.Base.{
  ◌≡◌, ◌↔◌, ap, inl, inr, true, false, List, [], ◌∷◌, ◌++◌, some, Text, Map, All, Bool-cases, arith,
}
use go_etcd_rules.CallbackListener.{CallbackEvent, is_awaited, wait_for_callback}

module _ (rule_id : Text) (attributes : Map Text) where
  -- The first awaited event among some, with what comes before and after it.
  pub record IsFirst (events after : List CallbackEvent) : Type 0 where
    pub before : List CallbackEvent
    pub event : CallbackEvent
    pub place : events ≡ before ++ event ∷ after
    pub awaited : is_awaited rule_id attributes event ≡ true
    pub skipped : All (λ e. is_awaited rule_id attributes e ≡ false) before

  wait_sound :
      (events after : List CallbackEvent)
      → wait_for_callback events rule_id attributes ≡ some after
      → IsFirst events after
  unfolding wait_for_callback
  wait_sound [] after e = cc
  wait_sound (event ∷ events) after e = elim (Bool-cases (is_awaited rule_id attributes event)) [
    | inl hit ↦
        let same : events ≡ after = ground arith in
        record {
          before = [];
          event = event;
          place = ap (λ l. event ∷ l) same;
          awaited = hit;
          skipped = tt;
        }
    | inr miss ↦
        let later = wait_sound events after (rw (wait_for_callback, miss) at e) in
        record {
          before = event ∷ later.before;
          event = later.event;
          place = ap (λ l. event ∷ l) later.place;
          awaited = later.awaited;
          skipped = (miss, later.skipped);
        }
  ]

  wait_complete :
      (before : List CallbackEvent) (event : CallbackEvent) (after : List CallbackEvent)
      → is_awaited rule_id attributes event ≡ true
      → All (λ e. is_awaited rule_id attributes e ≡ false) before
      → wait_for_callback (before ++ event ∷ after) rule_id attributes ≡ some after
  unfolding wait_for_callback
  wait_complete [] event after hit none_before = rw hit
  wait_complete (b ∷ before) event after hit none_before =
      rw (wait_for_callback, none_before.0) (wait_complete before event after hit none_before.1)

-- `WaitForCallback` returns without an error exactly if an awaited event comes, and has then taken the
-- events up to the first one from the channel, and no others.
wait_for_callback_iff :
    (rule_id : Text) (attributes : Map Text) (events after : List CallbackEvent)
    → (wait_for_callback events rule_id attributes ≡ some after)
      ↔ IsFirst rule_id attributes events after
wait_for_callback_iff rule_id attributes events after = (
  wait_sound rule_id attributes events after,
  λ f. rw (f.place) (wait_complete rule_id attributes f.before f.event after f.awaited f.skipped),
)
