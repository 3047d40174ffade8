-- ===== src/Lock.antt =====
-- rules/lock: the lockers. A locker works on a state, and a lock that it hands out is what its
-- Unlock does to that state.
mod Laws
mod Unlocking
pub mod CoolingOff
mod Sessions
pub mod Exclusion
pub mod Exclusive
pub mod Metrics
mod Tests
use go_etcd_rules.Base.{
  ℕ, zero, suc, ◌+◌, ◌<◌, Bool, true, false, not, ◌&&◌, List, [], ◌∷◌, Option, none, some, Text,
  Result, ok, err, Error, locked_locally, cooling_off, mutex_nil, ltb, if◌then◌else◌, Map, lookup,
  insert, delete,
}

-- `none` is a nil error.
abbrev pub Unlock : Type 0 → Type 0
Unlock S = S → Option Error × S

-- The interface RuleLocker.
pub record RuleLocker (S : Type 0) : Type 0 where
  pub lock : Text → S → Result (Unlock S) × S

-- map_locker.go: `ml.m[key]`, and `toggle`, whose mutex makes it one step.
unfoldable pub is_locked : Map Bool → Text → Bool
is_locked m key = elim (lookup key m) [ none ↦ false | some b ↦ b ]

unfoldable pub toggle : Text → Bool → Map Bool → Bool × Map Bool
toggle key lock m =
    if is_locked m key
    then (not lock, if lock then m else delete key m)
    else (true, if lock then insert key true m else m)

-- `Unlock` of toggleLock, which drops the result of `toggle`.
unfoldable pub toggle_unlock : Text → Unlock (Map Bool)
toggle_unlock key m = (none, (toggle key false m).1)

abbrev pub toggle_lock : Text → Bool × Map Bool → Result (Unlock (Map Bool)) × Map Bool
toggle_lock key (false, m) = (err locked_locally, m)
toggle_lock key (true, m) = (ok (toggle_unlock key), m)

unfoldable pub map_locker : RuleLocker (Map Bool)
unfolding toggle toggle_unlock is_locked
map_locker = record { lock = λ key m. toggle_lock key (toggle key true m) }

-- nested_lock.go, over the states of both lockers.
module _ {S T : Type 0} where
  -- `Unlock` of nestedLock: the nested lock first; its error takes precedence.
  unfoldable pub nested_unlock : Unlock S → Unlock T → Unlock (S × T)
  nested_unlock own nested (s, t) =
      let (nested_error, t') = nested t in
      let (own_error, s') = own s in
      (elim nested_error [ none ↦ own_error | some e ↦ some e ], (s', t'))

  -- The second half of `Lock`, with the own lock at hand.
  abbrev pub lock_nested : Unlock S → Result (Unlock T) × T → S → Result (Unlock (S × T)) × (S × T)
  lock_nested own (err e, t) s = (err e, ((own s).1, t))
  lock_nested own (ok nested, t) s = (ok (nested_unlock own nested), (s, t))

  abbrev pub lock_own :
      RuleLocker T → Text → T → Result (Unlock S) × S → Result (Unlock (S × T)) × (S × T)
  lock_own inner key t (err e, s) = (err e, (s, t))
  lock_own inner key t (ok own, s) = lock_nested own (inner.lock key t) s

  unfoldable pub nested_locker : RuleLocker S → RuleLocker T → RuleLocker (S × T)
  unfolding nested_unlock
  nested_locker outer inner = record {
    lock = λ key st. lock_own inner key st.1 (outer.lock key st.0);
  }

-- cooloff_lock.go: when each key's period ends, and the time that the clock shows.
pub record CoolOff : Type 0 where
  pub locks : Map ℕ
  pub now : ℕ

-- The loops that collect and delete the expired keys: those whose period ends before now.
unfoldable pub remove_expired : ℕ → Map ℕ → Map ℕ
remove_expired now [] = []
remove_expired now ((key, until) ∷ rest) =
    let others = remove_expired now rest in if ltb until now then others else (key, until) ∷ others

abbrev pub cool_off_result : Option ℕ → Result (Unlock CoolOff)
cool_off_result none = ok (λ s. (none, s))
cool_off_result (some until) = err cooling_off

unfoldable pub cool_off_locker : ℕ → RuleLocker CoolOff
unfolding remove_expired
cool_off_locker duration = record {
  lock = λ key s.
      let live = remove_expired s.now s.locks in
      (
        cool_off_result (lookup key live),
        record { locks = insert key (s.now + duration) live; now = s.now },
      );
}

-- lock.go. The etcd client's session and mutex are parameters: opening a session, locking a key
-- in it, trying to, unlocking, and closing the session.
pub record EtcdClient (S Session : Type 0) : Type 0 where
  pub new_session : S → Result Session × S
  pub lock_mutex : Session → Text → S → Option Error × S
  pub try_lock_mutex : Session → Text → S → Option Error × S
  pub unlock_mutex : Session → Text → S → Option Error × S
  pub close_session : Session → S → Option Error × S
  -- Whether an error's text contains "lease not found".
  pub lease_not_found : Error → Bool

abbrev pub unlock_max_retries : ℕ
unlock_max_retries = 5

module _ {S : Type 0} (attempt : S → Option Error × S) where
  -- The loop of `Unlock`: it ends with the first attempt that succeeds.
  unfoldable pub unlock_loop : ℕ → Option Error → S → Option Error × S
  unlock_loop zero last s = (last, s)
  unlock_loop (suc n) last s =
      let (e, s') = attempt s in
      let again = unlock_loop n e s' in elim e [ none ↦ (none, s') | some e' ↦ again ]

-- The struct v3Lock; a mutex is a session and a key.
pub record V3Lock (Session : Type 0) : Type 0 where
  pub mutex : Option (Session × Text)
  pub session : Option Session

module _ {S Session : Type 0} (client : EtcdClient S Session) where
  abbrev pub ignore_lost_lease : Option Error → Option Error
  ignore_lost_lease none = none
  ignore_lost_lease (some e) = if client.lease_not_found e then none else some e

  -- The end of `Unlock`: the session is closed also where unlocking failed, whose error is kept.
  unfoldable pub close_after : Option Session → Option Error → S → Option Error × S
  close_after none e s = (e, s)
  close_after (some session) e s =
      let (close_error, s') = client.close_session session s in
      (elim e [ none ↦ ignore_lost_lease close_error | some e' ↦ some e' ], s')

  unfoldable pub unlock_mutex_of : Option (Session × Text) → Option Session → Unlock S
  unfolding close_after
  unlock_mutex_of none session s = (some mutex_nil, s)
  unlock_mutex_of (some (m, key)) session s =
      let (e, s') = unlock_loop (client.unlock_mutex m key) unlock_max_retries none s in
      close_after session e s'

  unfoldable pub v3_unlock : V3Lock Session → Unlock S
  unfolding unlock_mutex_of
  v3_unlock l = unlock_mutex_of l.mutex l.session

  abbrev pub v3_locked : Bool → Session → Text → Option Error × S → Result (Unlock S) × S
  v3_locked close_session session key (some e, s) = (err e, s)
  v3_locked close_session session key (none, s) = (
    ok (
        v3_unlock (record {
          mutex = some (session, key);
          session = if close_session then some session else none;
        })),
    s,
  )

  abbrev pub v3_lock_in : Bool → Bool → Text → Result Session × S → Result (Unlock S) × S
  v3_lock_in close_session use_try_lock key (err e, s) = (err e, s)
  v3_lock_in close_session use_try_lock key (ok session, s) = v3_locked close_session session key (
      if use_try_lock then client.try_lock_mutex session key s else client.lock_mutex session key s)

  -- `lockWithTimeout`, behind `Lock`.
  unfoldable pub session_locker : Bool → Bool → RuleLocker S
  unfolding v3_unlock
  session_locker close_session use_try_lock = record {
    lock = λ key s. v3_lock_in close_session use_try_lock key (client.new_session s);
  }
