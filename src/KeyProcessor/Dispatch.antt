-- ===== src/KeyProcessor/Dispatch.antt =====
-- rules/key_processor.go: what `processKey` sends, and what `isWork` answers.
use go_etcd_rules.Base.{
  All-append_left, All-append_right, ℕ, ◌≡◌, ◌↔◌, refl, sym, ap, ◌∙◌, inl, inr, true, false, List,
  [], ◌∷◌, Option, none, some, Text, Result, ok, Map, nat_lookup, map_some_inv, Bool-cases,
  Option-cases, In, arith,
}
use go_etcd_rules.Matcher.{format_with_attributes}
use go_etcd_rules.StaticRule.{StaticRule, ReadApi, satisfied, get_keys, get_attributes}
use go_etcd_rules.StaticRule.Evaluation.{Store, holds, Serves, satisfied-holds}
use go_etcd_rules.RuleManager.{get_static_rules}
use go_etcd_rules.KeyProcessor.{
  KeyProcessor, Work, truth, keys_of, any_work, work_of, dispatch_work, rule_id_of, send,
  process_rules, process_key, is_work,
}

truth-holds :
    (rule : StaticRule) (api : ReadApi) (store : Store)
    → Serves api store (get_keys rule)
    → truth (satisfied rule api) ≡ holds rule store
truth-holds rule api store h = ap truth (satisfied-holds rule api store h)

module _ {Callback Provider : Type 0} where
  -- What a work item that is sent stands for: a rule that was found and holds, with the lock key
  -- that its attributes give, and the callback that was set for it.
  pub record IsDue (kp : KeyProcessor Callback Provider) (store : Store)
      (rules : List (StaticRule × ℕ)) (w : Work Callback Provider) : Type 0 where
    pub found : In (w.rule, w.rule_index) rules
    pub true_now : holds w.rule store ≡ true
    pub has_pattern : nat_lookup w.rule_index kp.lock_key_patterns ≡ some w.key_pattern
    pub has_attributes : get_attributes w.rule ≡ some w.attr
    pub locks : w.lock_key ≡ format_with_attributes w.key_pattern w.attr
    pub calls : w.rule_task_callback ≡ nat_lookup w.rule_index kp.callbacks

  IsDue-later :
      (kp : KeyProcessor Callback Provider) (store : Store) (p : StaticRule × ℕ)
      (rules : List (StaticRule × ℕ)) (w : Work Callback Provider)
      → IsDue kp store rules w
      → IsDue kp store (p ∷ rules) w
  IsDue-later kp store p rules w d = record {
    found = inr d.found;
    true_now = d.true_now;
    has_pattern = d.has_pattern;
    has_attributes = d.has_attributes;
    locks = d.locks;
    calls = d.calls;
  }

  send_inv :
      (o : Option (Work Callback Provider)) (later : Option (List (Work Callback Provider)))
      {works : List (Work Callback Provider)}
      → send o later ≡ some works
      → (work : Work Callback Provider) × (rest : List (Work Callback Provider)) × (o ≡ some work)
        × (later ≡ some rest)
        × (works ≡ work ∷ rest)
  send_inv none later e = cc
  send_inv (some work) none e = cc
  send_inv (some work) (some rest) e = (work, rest, refl, refl, ground arith)

  dispatched :
      (kp : KeyProcessor Callback Provider) (store : Store) (index : ℕ) (rule : StaticRule)
      (key_pattern : Text) (metadata : Map Text) (rule_id : Text) (rules : List (StaticRule × ℕ))
      {w : Work Callback Provider}
      → holds rule store ≡ true
      → nat_lookup index kp.lock_key_patterns ≡ some key_pattern
      → dispatch_work kp index rule key_pattern metadata rule_id ≡ some w
      → IsDue kp store ((rule, index) ∷ rules) w
  unfolding dispatch_work
  dispatched kp store index rule key_pattern metadata rule_id rules h l e =
      let (attr, has, same) =
        map_some_inv (work_of kp index rule key_pattern metadata rule_id) (get_attributes rule) e in
      rw same (record {
        found = inl refl;
        true_now = h;
        has_pattern = l;
        has_attributes = has;
        locks = refl;
        calls = refl;
      })

module _ {Callback Provider : Type 0} (kp : KeyProcessor Callback Provider) (api : ReadApi)
    (store : Store) (metadata : Map Text) where
  sent_sound :
      (rules : List (StaticRule × ℕ)) (works : List (Work Callback Provider))
      (w : Work Callback Provider)
      → Serves api store (keys_of rules)
      → process_rules kp api metadata rules ≡ some works
      → In w works
      → IsDue kp store rules w
  unfolding process_rules keys_of
  sent_sound [] works w h e i = let same : works ≡ [] = ground arith in absurd (rw same at i)
  sent_sound ((rule, index) ∷ rules) works w h e i =
      let here = truth-holds rule api store (All-append_left _ (get_keys rule) (keys_of rules) h) in
      let more = All-append_right _ (get_keys rule) (keys_of rules) h in
      let skipped = λ (e' : process_rules kp api metadata rules ≡ some works).
        IsDue-later kp store (rule, index) rules w (sent_sound rules works w more e' i) in
      elim (Bool-cases (truth (satisfied rule api))) [
        | inr unsatisfied ↦ skipped (rw unsatisfied at e)
        | inl holds_here ↦ elim (Option-cases (nat_lookup index kp.lock_key_patterns)) [
          | inl no_pattern ↦ skipped (rw (holds_here, no_pattern) at e)
          | inr (key_pattern, has_pattern) ↦
              let (work, rest, made, later, same) =
                send_inv _ _ (rw (holds_here, has_pattern) at e) in
              let due =
                dispatched kp store index rule key_pattern metadata (rule_id_of kp index) rules
                  (sym here ∙ holds_here) has_pattern made in
              elim (rw same at i) [
                | inl this ↦ rw this due
                | inr j ↦
                    IsDue-later kp store (rule, index) rules w
                      (sent_sound rules rest w more later j)
              ]
        ]
      ]

  sent_complete :
      (rules : List (StaticRule × ℕ)) (works : List (Work Callback Provider)) (rule : StaticRule)
      (index : ℕ) (key_pattern : Text)
      → Serves api store (keys_of rules)
      → process_rules kp api metadata rules ≡ some works
      → In (rule, index) rules
      → holds rule store ≡ true
      → nat_lookup index kp.lock_key_patterns ≡ some key_pattern
      → (w : Work Callback Provider) × In w works × (w.rule ≡ rule) × (w.rule_index ≡ index)
  unfolding process_rules keys_of dispatch_work
  sent_complete [] works rule index key_pattern h e i t l = absurd i
  sent_complete ((rule', index') ∷ rules) works rule index key_pattern h e (inl this) t l =
      let same_rule : rule' ≡ rule = sym (ap (λ (p : StaticRule × ℕ). p.0) this) in
      let same_index : index' ≡ index = sym (ap (λ (p : StaticRule × ℕ). p.1) this) in
      let here =
        truth-holds rule' api store (All-append_left _ (get_keys rule') (keys_of rules) h) in
      let t' : truth (satisfied rule' api) ≡ true = here ∙ (rw same_rule t) in
      let l' : nat_lookup index' kp.lock_key_patterns ≡ some key_pattern = rw same_index l in
      let (work, rest, made, later, same) = send_inv _ _ (rw (t', l') at e) in
      let (attr, has, is_item) =
        map_some_inv (work_of kp index' rule' key_pattern metadata (rule_id_of kp index'))
          (get_attributes rule') made in
      (
        work,
        rw same (inl refl),
        ap (λ (w : Work Callback Provider). w.rule) is_item ∙ same_rule,
        ap (λ (w : Work Callback Provider). w.rule_index) is_item ∙ same_index,
      )
  sent_complete ((rule', index') ∷ rules) works rule index key_pattern h e (inr j) t l =
      let more = All-append_right _ (get_keys rule') (keys_of rules) h in
      let skipped = λ (e' : process_rules kp api metadata rules ≡ some works).
        sent_complete rules works rule index key_pattern more e' j t l in
      elim (Bool-cases (truth (satisfied rule' api))) [
        | inr unsatisfied ↦ skipped (rw unsatisfied at e)
        | inl holds_here ↦ elim (Option-cases (nat_lookup index' kp.lock_key_patterns)) [
          | inl no_pattern ↦ skipped (rw (holds_here, no_pattern) at e)
          | inr (pattern', has_pattern) ↦
              let (work, rest, made, later, same) =
                send_inv _ _ (rw (holds_here, has_pattern) at e) in
              let (w, i', r, n) =
                sent_complete rules rest rule index key_pattern more later j t l in
              (w, rw same (inr i'), r, n)
        ]
      ]

  -- Where the cached reads are the store's, every item that `processKey` sends is due.
  pub process_key-IsDue :
      (get_cached_api : List Text → Result ReadApi) (key : Text) (value : Option Text)
      (works : List (Work Callback Provider)) (w : Work Callback Provider)
      → get_cached_api (keys_of (get_static_rules key value kp.rm)) ≡ ok api
      → Serves api store (keys_of (get_static_rules key value kp.rm))
      → process_key kp get_cached_api key value metadata ≡ some works
      → In w works
      → IsDue kp store (get_static_rules key value kp.rm) w
  unfolding process_key
  process_key-IsDue get_cached_api key value works w a h e i =
      sent_sound (get_static_rules key value kp.rm) works w h (rw (process_key, a) at e) i

  -- Where the cached reads are the store's, each rule found for the key that holds and has a lock key
  -- pattern is sent.
  pub process_key_complete :
      (get_cached_api : List Text → Result ReadApi) (key : Text) (value : Option Text)
      (works : List (Work Callback Provider)) (rule : StaticRule) (index : ℕ) (key_pattern : Text)
      → get_cached_api (keys_of (get_static_rules key value kp.rm)) ≡ ok api
      → Serves api store (keys_of (get_static_rules key value kp.rm))
      → process_key kp get_cached_api key value metadata ≡ some works
      → In (rule, index) (get_static_rules key value kp.rm)
      → holds rule store ≡ true
      → nat_lookup index kp.lock_key_patterns ≡ some key_pattern
      → (w : Work Callback Provider) × In w works × (w.rule ≡ rule) × (w.rule_index ≡ index)
  unfolding process_key
  process_key_complete get_cached_api key value works rule index key_pattern a h e i t l =
      sent_complete (get_static_rules key value kp.rm) works rule index key_pattern h
        (rw (process_key, a) at e) i t l

  later_holds :
      (rule : StaticRule) (index : ℕ) (rules : List (StaticRule × ℕ))
      → holds rule store ≡ false
      → (r : StaticRule) × (n : ℕ) × In (r, n) ((rule, index) ∷ rules) × (holds r store ≡ true)
      → (r : StaticRule) × (n : ℕ) × In (r, n) rules × (holds r store ≡ true)
  later_holds rule index rules f (r, n, inl this, t) =
      let t' : holds rule store ≡ true =
        ap (λ (p : StaticRule × ℕ). holds p.0 store) (sym this) ∙ t in
      absurd (cc (sym t' ∙ f))
  later_holds rule index rules f (r, n, inr j, t) = (r, n, j, t)

  any_work_iff :
      (rules : List (StaticRule × ℕ))
      → Serves api store (keys_of rules)
      → (any_work rules api ≡ true)
        ↔ ((rule : StaticRule) × (index : ℕ) × In (rule, index) rules × (holds rule store ≡ true))
  unfolding any_work keys_of
  any_work_iff [] h = (λ e. cc, λ d. absurd d.2)
  any_work_iff ((rule, index) ∷ rules) h =
      let here = truth-holds rule api store (All-append_left _ (get_keys rule) (keys_of rules) h) in
      let rest = any_work_iff rules (All-append_right _ (get_keys rule) (keys_of rules) h) in
      elim (Bool-cases (truth (satisfied rule api))) [
        | inl t ↦ (λ e. (rule, index, inl refl, sym here ∙ t), λ d. rw t)
        | inr f ↦ (
          λ e. let (r, n, i, t) = rest.0 (rw f at e) in (r, n, inr i, t),
          λ d. rw f (rest.1 (later_holds rule index rules (sym here ∙ f) d)),
        )
      ]

  -- Where the reads are the store's, `isWork` tells whether some rule found for the key holds.
  pub is_work_iff :
      (key : Text) (value : Option Text)
      → Serves api store (keys_of (get_static_rules key value kp.rm))
      → (is_work kp key value api ≡ true) ↔ (
          (rule : StaticRule) × (index : ℕ) × In (rule, index) (get_static_rules key value kp.rm)
          × (holds rule store ≡ true))
  unfolding is_work
  is_work_iff key value h = any_work_iff (get_static_rules key value kp.rm) h
