-- ===== src/Lock/Laws.antt =====
-- rules/lock: what each locker does to its state, and what it promises.
use go_etcd_rules.Base.{
  ℕ, zero, suc, ◌+◌, ◌<◌, ◌≡◌, ◌≢◌, ◌∙◌, inl, inr, Bool, true, false, not, ◌&&◌, Option, none, Text,
  text_eq, text_eq_iff, Result, ok, err, Error, arith, if◌then◌else◌, Option-cases, Map, insert,
  delete, lookup-insert, lookup-delete,
}
use go_etcd_rules.Lock.{
  Unlock, RuleLocker, is_locked, toggle, toggle_unlock, toggle_lock, map_locker, nested_locker,
  lock_own, lock_nested, unlock_loop,
}

is_locked-insert :
    (key j : Text) (b : Bool) (m : Map Bool)
    → is_locked (insert key b m) j ≡ (if text_eq key j then b else is_locked m j)
unfolding is_locked
is_locked-insert key j b m = ground (arith, lookup-insert key j b m)

is_locked-delete :
    (key j : Text) (m : Map Bool)
    → is_locked (delete key m) j ≡ (if text_eq key j then false else is_locked m j)
unfolding is_locked
is_locked-delete key j m = ground (arith, lookup-delete key j m)

-- `toggle` fails exactly if it is asked to lock a locked key; the key is then as it was asked to be,
-- and no other key changes.
pub toggle_lem :
    (key j : Text) (lock : Bool) (m : Map Bool)
    → ((toggle key lock m).0 ≡ not (lock && is_locked m key))
      × (is_locked (toggle key lock m).1 j ≡ (if text_eq key j then lock else is_locked m j))
unfolding toggle
toggle_lem key j lock m =
    ground (arith, is_locked-insert key j true m, is_locked-delete key j m, text_eq_iff key j)

-- Unlocking frees the key and no other.
pub released :
    (key j : Text) (m : Map Bool)
    → is_locked (toggle_unlock key m).1 j ≡ (if text_eq key j then false else is_locked m j)
unfolding toggle_unlock
released key j m = (toggle_lem key j false m).1

module _ {T : Type 0} (key j : Text) (m : Map Bool) where
  -- The cases of an attempt, by what `toggle` and the nested locker answered.
  failed_cases :
      (b : Bool) (m' : Map Bool) (inner : RuleLocker T) (t : T) {e : Error}
      → b ≡ not (is_locked m key)
      → is_locked m' j ≡ (if text_eq key j then true else is_locked m j)
      → (lock_own inner key t (toggle_lock key (b, m'))).0 ≡ err e
      → is_locked (lock_own inner key t (toggle_lock key (b, m'))).1.0 j ≡ is_locked m j
  failed_cases false m' inner t hb hm h = ground (arith, text_eq_iff key j)
  failed_cases true m' inner t hb hm h = undone m' (inner.lock key t) hb hm h
    where
      undone :
          (m' : Map Bool) (r : Result (Unlock T) × T) {e : Error}
          → true ≡ not (is_locked m key)
          → is_locked m' j ≡ (if text_eq key j then true else is_locked m j)
          → (lock_nested (toggle_unlock key) r m').0 ≡ err e
          → is_locked (lock_nested (toggle_unlock key) r m').1.0 j ≡ is_locked m j
      undone m' (err e', t') hb hm h = released key j m' ∙ ground (arith, text_eq_iff key j)
      undone m' (ok u, t') hb hm h = cc

  succeeded_cases :
      (b : Bool) (m' : Map Bool) (inner : RuleLocker T) (t : T) {u : Unlock (Map Bool × T)}
      → b ≡ not (is_locked m key)
      → is_locked m' j ≡ (if text_eq key j then true else is_locked m j)
      → (lock_own inner key t (toggle_lock key (b, m'))).0 ≡ ok u
      → (is_locked m key ≡ false)
        × (is_locked (lock_own inner key t (toggle_lock key (b, m'))).1.0 j
            ≡ (if text_eq key j then true else is_locked m j))
  succeeded_cases false m' inner t hb hm h = cc
  succeeded_cases true m' inner t hb hm h = kept m' (inner.lock key t) hb hm h
    where
      kept :
          (m' : Map Bool) (r : Result (Unlock T) × T) {u : Unlock (Map Bool × T)}
          → true ≡ not (is_locked m key)
          → is_locked m' j ≡ (if text_eq key j then true else is_locked m j)
          → (lock_nested (toggle_unlock key) r m').0 ≡ ok u
          → (is_locked m key ≡ false)
            × (is_locked (lock_nested (toggle_unlock key) r m').1.0 j
                ≡ (if text_eq key j then true else is_locked m j))
      kept m' (err e', t') hb hm h = cc
      kept m' (ok u, t') hb hm h = (ground arith, hm)

-- Where the outer locker is the local one, an attempt that fails leaves every local lock as it was,
-- whichever of the two lockers refused.
nested_locker_failed :
    {T : Type 0} (inner : RuleLocker T) (key j : Text) (m : Map Bool) (t : T) (e : Error)
    → ((nested_locker map_locker inner).lock key (m, t)).0 ≡ err e
    → is_locked ((nested_locker map_locker inner).lock key (m, t)).1.0 j ≡ is_locked m j
unfolding nested_locker map_locker
nested_locker_failed inner key j m t e h =
    let (answer, after) = toggle_lem key j true m in
    failed_cases key j m (toggle key true m).0 (toggle key true m).1 inner t answer after h

-- An attempt that succeeds found the key free, leaves it locked and no other local lock changed.
pub nested_locker_succeeded :
    {T : Type 0} (inner : RuleLocker T) (key j : Text) (m : Map Bool) (t : T)
    (u : Unlock (Map Bool × T))
    → ((nested_locker map_locker inner).lock key (m, t)).0 ≡ ok u
    → (is_locked m key ≡ false)
      × (is_locked ((nested_locker map_locker inner).lock key (m, t)).1.0 j
          ≡ (if text_eq key j then true else is_locked m j))
unfolding nested_locker map_locker
nested_locker_succeeded inner key j m t u h =
    let (answer, after) = toggle_lem key j true m in
    succeeded_cases key j m (toggle key true m).0 (toggle key true m).1 inner t answer after h

-- Attempts at unlocking that are counted.
abbrev pub counted : (ℕ → Option Error) → ℕ → Option Error × ℕ
counted outcomes c = (outcomes c, suc c)

-- The loop of `Unlock` makes as many attempts as are needed for one to succeed, and no more; the
-- retries before it leave no error.
pub unlock_loop_stops :
    (outcomes : ℕ → Option Error) (n k c : ℕ) (last : Option Error)
    → k < n
    → ((i : ℕ) → i < k → outcomes (c + i) ≢ none)
    → outcomes (c + k) ≡ none
    → unlock_loop (counted outcomes) n last c ≡ (none, suc (c + k))
unfolding unlock_loop
unlock_loop_stops outcomes zero k c last lt before here = elim lt [ ]
unlock_loop_stops outcomes (suc n) zero c last lt before here =
    let c0 : c + 0 ≡ c = omega arith in let now : outcomes c ≡ none = rw c0 at here in rw (now, c0)
unlock_loop_stops outcomes (suc n) (suc k) c last lt before here =
    let c0 : c + 0 ≡ c = omega arith in
    let shift = λ (i : ℕ). let e : c + suc i ≡ suc c + i = omega arith in e in
    elim (Option-cases (outcomes c)) [
      | inl now ↦ absurd (before 0 (omega arith) (rw c0 now))
      | inr (e, failed) ↦
          rw (failed, shift k)
            (unlock_loop_stops outcomes n k (suc c) (outcomes c) (omega arith)
              (λ i lt' z. before (suc i) (omega arith) (rw (shift i) z)) (rw (shift k) at here))
    ]
