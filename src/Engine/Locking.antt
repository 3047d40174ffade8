-- ===== src/Engine/Locking.antt =====
-- rules/engine.go: workers that take turns with the locker that `newV3Engine` puts together.
use go_etcd_rules.Base.{
  ℕ, ◌≤◌, ◌≡◌, Bool, false, [], Text, Map, ◌==◌, Bool-cases, inl, inr, Result, err, ok,
}
use go_etcd_rules.Lock.{RuleLocker, Unlock, CoolOff, is_locked, map_locker, cool_off_locker}
use go_etcd_rules.Lock.Exclusion.{IsExclusive, Answers, Holders, LockReach, holders_of, one_holder}
use go_etcd_rules.Lock.Exclusive.{
  map_held, map_locker-IsExclusive, nested_outer-IsExclusive, nested_inner-IsExclusive,
}
use go_etcd_rules.Engine.{final_locker, base_locker, only_inner, lock_inner}

module _ {S T : Type 0} (held : Text → T → Bool) where
  lock_inner-Answers :
      (key : Text) (s : S) (t : T) (r : Result (Unlock T) × T)
      → Answers held key t r
      → Answers (λ k st. held k st.1) key (s, t) (lock_inner s r)
  lock_inner-Answers key s t (ok unlock, t') (free, taken, frees) =
      (free, taken, λ st j. frees st.1 j)
  lock_inner-Answers key s t (err e, t') same = same

module _ {T : Type 0} (etcd_locker : RuleLocker T) where
  abbrev pub engine_held : Text → CoolOff × (Map Bool × T) → Bool
  engine_held key st = is_locked st.1.0 key

  base_locker-IsExclusive :
      IsExclusive (λ key st. is_locked st.0 key) (base_locker false etcd_locker)
  unfolding base_locker
  base_locker-IsExclusive =
      nested_outer-IsExclusive map_held map_locker etcd_locker map_locker-IsExclusive

  final_locker-IsExclusive :
      (cool_off : ℕ) → IsExclusive engine_held (final_locker false cool_off etcd_locker)
  unfolding final_locker only_inner
  final_locker-IsExclusive cool_off key st = elim (Bool-cases (cool_off == 0)) [
    | inl none_set ↦ rw none_set (
        lock_inner-Answers (λ k s. is_locked s.0 k) key st.0 st.1
          ((base_locker false etcd_locker).lock key st.1) (base_locker-IsExclusive key st.1))
    | inr set ↦ rw set (
        nested_inner-IsExclusive (λ k s. is_locked s.0 k) (cool_off_locker cool_off)
          (base_locker false etcd_locker) base_locker-IsExclusive key st)
  ]

  -- Where workers share the local locks and none is taken at first, at most one worker at a time
  -- holds the lock of a key, in whatever order attempts, unlockings and changes of the rest of the
  -- world follow each other; an attempt is one step. This is so for every cool-off period and
  -- whatever the etcd locker answers.
  pub engine_one_holder :
      (cool_off : ℕ) (world : CoolOff × (Map Bool × T)) {t : Holders (CoolOff × (Map Bool × T))}
      → LockReach
          (final_locker false cool_off etcd_locker)
          engine_held
          (record { world = world; holders = [] })
          t
      → ((key : Text) → is_locked world.1.0 key ≡ false)
      → (key : Text) → holders_of key t.holders ≤ 1
  engine_one_holder cool_off =
      one_holder (final_locker false cool_off etcd_locker) engine_held
        (final_locker-IsExclusive cool_off)

-- At most one worker at a time has the local lock of a key, whether it holds the nested lock too or
-- still tries to take it, in whatever order the steps of the workers follow each other, where no
-- local lock is taken at first.
pub local_one_holder :
    (world : Map Bool) {t : Holders (Map Bool)}
    → LockReach map_locker map_held (record { world = world; holders = [] }) t
    → ((key : Text) → is_locked world key ≡ false)
    → (key : Text) → holders_of key t.holders ≤ 1
local_one_holder = one_holder map_locker map_held map_locker-IsExclusive
