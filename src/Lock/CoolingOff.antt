-- ===== src/Lock/CoolingOff.antt =====
-- rules/lock/cooloff_lock.go: which attempts a history of attempts makes the locker refuse.
use go_etcd_rules.Base.{
  ℕ, ◌+◌, ◌≤◌, ◌≡◌, ◌↔◌, refl, sym, ap, ◌∙◌, inl, inr, true, List, [], ◌∷◌, Option, none, some,
  Text, text_eq, text_eq_iff, text_eq_sound, err, cooling_off, ltb, if◌then◌else◌, Bool-cases, Map,
  lookup, insert, ltb→lt, lookup-insert, arith,
}
use go_etcd_rules.Lock.{remove_expired, cool_off_result, cool_off_locker}

-- Attempts for keys at times, latest first, with the locks that they leave.
abbrev pub locks_after : ℕ → List (Text × ℕ) → Map ℕ
locks_after duration [] = []
locks_after duration ((key, time) ∷ older) =
    ((cool_off_locker duration).lock key
      (record { locks = locks_after duration older; now = time })).1.locks

-- The time of the last attempt for a key.
abbrev pub last_attempt : Text → List (Text × ℕ) → Option ℕ
last_attempt key [] = none
last_attempt key ((k, time) ∷ older) = if text_eq k key then some time else last_attempt key older

-- No attempt is later than `now`, nor than those that came after it.
abbrev pub IsTimed : ℕ → List (Text × ℕ) → Type 0
IsTimed now [] = Unit
IsTimed now ((key, time) ∷ older) = (time ≤ now) × IsTimed time older

abbrev live : ℕ → Option ℕ → Option ℕ
live now none = none
live now (some until) = if ltb until now then none else some until

live-live : (now later : ℕ) (o : Option ℕ) → now ≤ later → live later (live now o) ≡ live later o
live-live now later none h = refl
live-live now later (some until) h = elim (Bool-cases (ltb until now)) [
  | inl gone ↦ let gone' : ltb until later ≡ true = ground arith in rw (gone, gone') refl
  | inr stays ↦ rw stays refl
]

-- A map has one entry for a key.
abbrev IsDistinct : Map ℕ → Type 0
IsDistinct [] = Unit
IsDistinct ((key, until) ∷ rest) = (lookup key rest ≡ none) × IsDistinct rest

lookup-remove_expired :
    (now : ℕ) (key : Text) (m : Map ℕ)
    → IsDistinct m
    → lookup key (remove_expired now m) ≡ live now (lookup key m)
unfolding lookup remove_expired
lookup-remove_expired now key [] d = refl
lookup-remove_expired now key ((k, until) ∷ rest) (alone, d) =
    let later = lookup-remove_expired now key rest d in
    elim (Bool-cases (ltb until now)) [
      | inl gone ↦ elim (Bool-cases (text_eq k key)) [
        | inl same ↦
            let none_else : lookup key rest ≡ none = rw (text_eq_sound k key same) at alone in
            rw (gone, same, gone) (later ∙ ap (live now) none_else)
        | inr other ↦ rw (gone, other) later
      ]
      | inr stays ↦ elim (Bool-cases (text_eq k key)) [
        | inl same ↦ rw (stays, same, stays) refl
        | inr other ↦ rw (stays, other) later
      ]
    ]

IsDistinct-remove_expired : (now : ℕ) (m : Map ℕ) → IsDistinct m → IsDistinct (remove_expired now m)
unfolding remove_expired
IsDistinct-remove_expired now [] d = tt
IsDistinct-remove_expired now ((k, until) ∷ rest) (alone, d) =
    let distinct = IsDistinct-remove_expired now rest d in
    elim (Bool-cases (ltb until now)) [
      | inl gone ↦ rw gone distinct
      | inr stays ↦ rw stays (lookup-remove_expired now k rest d ∙ ap (live now) alone, distinct)
    ]

IsDistinct-insert :
    (key : Text) (until : ℕ) (m : Map ℕ) → IsDistinct m → IsDistinct (insert key until m)
unfolding insert lookup
IsDistinct-insert key until [] d = (refl, tt)
IsDistinct-insert key until ((k, u) ∷ rest) (alone, d) = elim (Bool-cases (text_eq k key)) [
  | inl same ↦ rw same (rw (text_eq_sound k key same) at alone, d)
  | inr other ↦
      let kept : lookup k (insert key until rest) ≡ none =
        lookup-insert key k until rest ∙ ground (arith, text_eq_iff key k, text_eq_iff k key) in
      rw other (kept, IsDistinct-insert key until rest d)
]

module _ (duration : ℕ) where
  abbrev ends : Option ℕ → Option ℕ
  ends none = none
  ends (some time) = some (time + duration)

  locks_after-IsDistinct : (h : List (Text × ℕ)) → IsDistinct (locks_after duration h)
  unfolding cool_off_locker
  locks_after-IsDistinct [] = tt
  locks_after-IsDistinct ((key, time) ∷ older) =
      IsDistinct-insert key (time + duration) _
        (IsDistinct-remove_expired time (locks_after duration older) (locks_after-IsDistinct older))

  lookup-locks_after :
      (h : List (Text × ℕ)) (now : ℕ) (key : Text)
      → IsTimed now h
      → lookup key (remove_expired now (locks_after duration h))
        ≡ live now (ends (last_attempt key h))
  unfolding cool_off_locker lookup remove_expired
  lookup-locks_after [] now key timed = refl
  lookup-locks_after ((k, time) ∷ older) now key (early, timed) =
      let kept = remove_expired time (locks_after duration older) in
      let there = lookup-locks_after older time key timed in
      lookup-remove_expired now key (insert k (time + duration) kept)
        (locks_after-IsDistinct ((k, time) ∷ older))
      ∙ ap (live now) (lookup-insert k key (time + duration) kept)
      ∙ elim (Bool-cases (text_eq k key)) [
        | inl same ↦ rw same refl
        | inr other ↦
            rw other
              (ap (live now) there ∙ live-live time now (ends (last_attempt key older)) early)
      ]

  refused_iff :
      (now : ℕ) (o : Option ℕ)
      → (cool_off_result (live now (ends o)) ≡ err cooling_off)
        ↔ ((time : ℕ) × (o ≡ some time) × (now ≤ time + duration))
  refused_iff now none = (λ e. cc, λ (time, e, le). cc)
  refused_iff now (some time) = elim (Bool-cases (ltb (time + duration) now)) [
    | inl gone ↦ (
      λ e. absurd (cc (rw gone at e)),
      λ (t, e, le).
          let same : time ≡ t = ground arith in
          let here : now ≤ time + duration = rw (sym same) at le in
          absurd (omega (arith, ltb→lt (time + duration) now gone, here)),
    )
    | inr stays ↦ (λ e. (time, refl, ground arith), λ x. rw stays refl)
  ]

  -- After any attempts, each at a time no earlier than the one before, an attempt for a key at a time no
  -- earlier than theirs is refused exactly if there was an attempt for the key, granted or refused, and
  -- no more than the period has passed since the last of them.
  pub cool_off_locker_refuses_iff :
      (h : List (Text × ℕ)) (now : ℕ) (key : Text)
      → IsTimed now h
      → (((cool_off_locker duration).lock key
            (record { locks = locks_after duration h; now = now })).0
          ≡ err cooling_off)
        ↔ ((time : ℕ) × (last_attempt key h ≡ some time) × (now ≤ time + duration))
  unfolding cool_off_locker
  cool_off_locker_refuses_iff h now key timed =
      rw (lookup-locks_after h now key timed) (refused_iff now (last_attempt key h))
