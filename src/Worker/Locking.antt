-- ===== src/Worker/Locking.antt =====
-- rules/worker.go: the callback, the lock and the second check.
use go_etcd_rules.Base.{
  ◌≡◌, refl, sym, ap₂, ◌≢◌, Error, ◌⊎◌, inl, inr, Bool, true, false, List, [], ◌∷◌, ◌++◌, Text,
  Result, ok, err, All, In, In-append_cases, if◌then◌else◌,
}
use go_etcd_rules.StaticRule.{StaticRule}
use go_etcd_rules.Lock.{Unlock}
use go_etcd_rules.Worker.{
  Event, locked, called, told_listener, unlocked, BaseWorker, check, call_unless, call_if,
  with_lock, lock_unless, lock_if, do_work,
}

module _ {S : Type 0} (bw : BaseWorker S) (rule : StaticRule) where
  -- The run from the lock to the callback: the lock was granted, the rule was then satisfied once
  -- more and the worker was not stopping.
  pub record IsGuarded (lock_key : Text) (start : S) (outcome : Bool × S) : Type 0 where
    pub before : S
    pub after_lock : S
    pub after_check : S
    pub unlock : Unlock S
    pub granted : bw.locker.lock lock_key before ≡ (ok unlock, after_lock)
    pub satisfied_again : check bw rule after_lock ≡ (ok true, after_check)
    pub not_stopping : bw.is_stopping after_check ≡ (false, start)
    pub ran : outcome ≡ bw.callback start

  no_call_after :
      (b : Bool) (start : S) (outcome : Bool × S)
      → ¬ In (called start outcome) (if b then told_listener ∷ [] else [])
  no_call_after true start outcome (inl e) = cc
  no_call_after true start outcome (inr i) = i
  no_call_after false start outcome i = i

  called_inv :
      (start s : S) (outcome : Bool × S) (stop : Bool)
      → In (called start outcome) (call_unless bw rule (stop, s)).0
      → (stop ≡ false) × (start ≡ s) × (outcome ≡ bw.callback start)
  called_inv start s outcome true i = absurd i
  called_inv start s outcome false (inl e) =
      let same : start ≡ s = cc e in
      let came : outcome ≡ bw.callback s = cc e in (refl, same, rw same came)
  called_inv start s outcome false (inr i) = absurd (no_call_after _ start outcome i)

  -- A call found in the events after the lock.
  call_if_inv :
      (start : S) (outcome : Bool × S) (checked : Result Bool × S)
      → In (called start outcome) (call_if bw rule checked).0
      → (checked ≡ (ok true, checked.1))
        × (bw.is_stopping checked.1 ≡ (false, start))
        × (outcome ≡ bw.callback start)
  call_if_inv start outcome (err e, s) i = absurd i
  call_if_inv start outcome (ok false, s) i = absurd i
  call_if_inv start outcome (ok true, s) i =
      let (st, same, came) = called_inv start (bw.is_stopping s).1 outcome (bw.is_stopping s).0 i in
      (refl, ap₂ (λ a b. (a, b)) st (sym same), came)

  no_call_unlocked : (start : S) (outcome : Bool × S) → ¬ In (called start outcome) (unlocked ∷ [])
  no_call_unlocked start outcome (inl e) = cc
  no_call_unlocked start outcome (inr i) = i

  with_lock_inv :
      (lock_key : Text) (start before : S) (outcome : Bool × S) (r : Result (Unlock S) × S)
      → bw.locker.lock lock_key before ≡ r
      → In (called start outcome) (with_lock bw rule r).0
      → IsGuarded lock_key start outcome
  with_lock_inv lock_key start before outcome (err e, s) granted i = absurd i
  with_lock_inv lock_key start before outcome (ok unlock, s) granted (inl e) = absurd (cc e)
  with_lock_inv lock_key start before outcome (ok unlock, s) granted (inr i) =
      elim (In-append_cases (called start outcome) (call_if bw rule (check bw rule s)).0
        (unlocked ∷ []) i) [
          | inr j ↦ absurd (no_call_unlocked start outcome j)
          | inl j ↦
              let (sat, going, came) = call_if_inv start outcome (check bw rule s) j in
              record {
                before = before;
                after_lock = s;
                after_check = (check bw rule s).1;
                unlock = unlock;
                granted = granted;
                satisfied_again = sat;
                not_stopping = going;
                ran = came;
              }
        ]

  lock_unless_inv :
      (lock_key : Text) (start : S) (outcome : Bool × S) (stopping : Bool × S)
      → In (called start outcome) (lock_unless bw rule lock_key stopping).0
      → IsGuarded lock_key start outcome
  lock_unless_inv lock_key start outcome (true, s) i = absurd i
  lock_unless_inv lock_key start outcome (false, s) i =
      with_lock_inv lock_key start s outcome (bw.locker.lock lock_key s) refl i

  lock_if_inv :
      (lock_key : Text) (start : S) (outcome : Bool × S) (checked : Result Bool × S)
      → In (called start outcome) (lock_if bw rule lock_key checked).0
      → IsGuarded lock_key start outcome
  lock_if_inv lock_key start outcome (err e, s) i = absurd i
  lock_if_inv lock_key start outcome (ok false, s) i = absurd i
  lock_if_inv lock_key start outcome (ok true, s) i =
      lock_unless_inv lock_key start outcome (bw.is_stopping s) i

  -- The callback is called only where the lock was granted, the rule was satisfied in a check after
  -- that, and the worker was then not stopping; what the call comes to is what the worker's callback
  -- does.
  pub do_work-IsGuarded :
      (lock_key : Text) (s start : S) (outcome : Bool × S)
      → In (called start outcome) (do_work bw rule lock_key s).0
      → IsGuarded lock_key start outcome
  unfolding do_work
  do_work-IsGuarded lock_key s start outcome i =
      lock_if_inv lock_key start outcome (check bw rule s) i

  abbrev pub IsInside : Event S → Type 0
  IsInside locked = ⊥
  IsInside (called s outcome) = Unit
  IsInside told_listener = Unit
  IsInside unlocked = ⊥

  -- A run that was granted the lock: it does what the second check and the look after it say, and
  -- leaves the world as the lock's own unlock makes it of the world that came of that.
  pub record IsHeld (lock_key : Text) (before : S) (r : List (Event S) × S) : Type 0 where
    pub after_lock : S
    pub unlock : Unlock S
    pub granted : bw.locker.lock lock_key before ≡ (ok unlock, after_lock)
    pub middle : List (Event S)
    pub last : S
    pub inside : call_if bw rule (check bw rule after_lock) ≡ (middle, last)
    pub events : r.0 ≡ locked ∷ (middle ++ unlocked ∷ [])
    pub neither : All IsInside middle
    pub freed : r.1 ≡ (unlock last).1

  -- What comes of an attempt at the lock, of a look at the stopping flag before it, and of a run. On each
  -- path that does not take the lock nothing is done, and the world is as the last access left it.
  abbrev pub IsLocked : Text → S → List (Event S) × S → Type 0
  IsLocked lock_key before r =
      ((r.0 ≡ []) × (e : Error) × (bw.locker.lock lock_key before ≡ (err e, r.1)))
      ⊎ IsHeld lock_key before r

  abbrev pub IsLooked : Text → S → List (Event S) × S → Type 0
  IsLooked lock_key s r =
      ((r.0 ≡ []) × (bw.is_stopping s ≡ (true, r.1)))
      ⊎ ((before : S) × (bw.is_stopping s ≡ (false, before)) × IsLocked lock_key before r)

  abbrev pub IsBracketed : Text → S → List (Event S) × S → Type 0
  IsBracketed lock_key s r =
      ((r.0 ≡ []) × ((check bw rule s).0 ≢ ok true) × (r.1 ≡ (check bw rule s).1))
      ⊎ ((after : S) × (check bw rule s ≡ (ok true, after)) × IsLooked lock_key after r)
