-- ===== src/Lock/Tests.antt =====
-- rules/lock: the theorems at small tables of locks.
use go_etcd_rules.Base.{
  ◌≤◌, arith, Text, cooling_off, List, Result, ap, inl, In, sym, ℕ, zero, suc, ltb, ◌↔◌, ◌+◌, ◌≡◌,
  refl, Bool, true, false, [], ◌∷◌, Option, none, some, codes, text_eq, ok, err, Error,
  locked_locally, mutex_nil, if◌then◌else◌, Map, lookup, insert, delete,
}
use go_etcd_rules.Lock.{
  Unlock, map_locker, nested_unlock, toggle_unlock, nested_locker, EtcdClient, v3_unlock,
  session_locker, cool_off_locker,
}
use go_etcd_rules.Lock.CoolingOff.{locks_after, last_attempt, cool_off_locker_refuses_iff}
use go_etcd_rules.Lock.Sessions.{KeepsOpen, session_locker-opened}
use go_etcd_rules.Lock.Unlocking.{after, IsLast, closed, IsClean, v3_unlock_lem}

abbrev a_locked : Map Bool
a_locked = (codes "a", true) ∷ []

-- The inner locker has "b" locked, so that the attempt for "b" fails there.
b_refused :
    ((nested_locker map_locker map_locker).lock (codes "b") (a_locked, (codes "b", true) ∷ [])).0
    ≡ err locked_locally
unfolding nested_locker map_locker insert lookup delete text_eq
b_refused = refl

abbrev b_unlock : Unlock (Map Bool × Map Bool)
b_unlock = nested_unlock (toggle_unlock (codes "b")) (toggle_unlock (codes "b"))

b_granted : ((nested_locker map_locker map_locker).lock (codes "b") (a_locked, [])).0 ≡ ok b_unlock
unfolding nested_locker map_locker insert lookup delete text_eq
b_granted = refl

-- Two attempts fail before one succeeds.
abbrev third_time : ℕ → Option Error
third_time zero = some mutex_nil
third_time (suc zero) = some mutex_nil
third_time (suc (suc n)) = none

-- A client for which the first two attempts to unlock fail; the state counts the attempts.
abbrev slow_client : EtcdClient ℕ ℕ
slow_client = record {
  new_session = λ s. (ok 0, s);
  lock_mutex = λ session key s. (none, s);
  try_lock_mutex = λ session key s. (none, s);
  unlock_mutex = λ session key s. ((if ltb s 2 then some (Error.store s) else none), s + 1);
  close_session = λ session s. (none, s);
  lease_not_found = λ e. false;
}

v3_unlock_lem_example :
    (n : ℕ) × IsLast (slow_client.unlock_mutex 0 (codes "a")) 5 n 0
    × ((v3_unlock slow_client (record { mutex = some (0, codes "a"); session = some 0 }) 0).1
        ≡ closed slow_client (some 0) (after (slow_client.unlock_mutex 0 (codes "a")) (suc n) 0))
    × (((v3_unlock slow_client (record { mutex = some (0, codes "a"); session = some 0 }) 0).0
          ≡ none)
        ↔ (((slow_client.unlock_mutex 0
                (codes "a")
                (after (slow_client.unlock_mutex 0 (codes "a")) n 0)).0
              ≡ none)
            × IsClean slow_client
                (some 0)
                (after (slow_client.unlock_mutex 0 (codes "a")) (suc n) 0)))
v3_unlock_lem_example = v3_unlock_lem slow_client 0 (codes "a") (some 0) 0

-- A client whose state has the open sessions, and for which another has the lock.
abbrev refusing_client : EtcdClient (List ℕ) ℕ
refusing_client = record {
  new_session = λ s. (ok 7, 7 ∷ s);
  lock_mutex = λ session key s. (some (Error.lock_failed 0), s);
  try_lock_mutex = λ session key s. (some (Error.lock_failed 0), s);
  unlock_mutex = λ session key s. (none, s);
  close_session = λ session s. (none, []);
  lease_not_found = λ e. false;
}

refusing_client-KeepsOpen : KeepsOpen refusing_client (λ s. s)
refusing_client-KeepsOpen = record {
  made = λ s s' session e.
      let world : 7 ∷ s ≡ s' = ap (λ (r : Result ℕ × List ℕ). r.1) e in
      let number : ok 7 ≡ ok session = ap (λ (r : Result ℕ × List ℕ). r.0) e in
      let same : session ≡ 7 = cc number in rw (sym world) (inl same);
  kept_by_lock = λ s m session key i. i;
  kept_by_try_lock = λ s m session key i. i;
}

session_locker-opened_example :
    In 7 ((session_locker refusing_client true true).lock (codes "a") []).1
session_locker-opened_example =
    session_locker-opened refusing_client (λ s. s) true true (codes "a") [] (7 ∷ []) 7
      refusing_client-KeepsOpen refl

-- Attempts for "b" and then for "a".
abbrev attempts : List (Text × ℕ)
attempts = (codes "a", 10) ∷ (codes "b", 4) ∷ []

cool_off_locker_refuses_iff_example :
    (((cool_off_locker 5).lock (codes "b") (record { locks = locks_after 5 attempts; now = 12 })).0
      ≡ err cooling_off)
    ↔ ((time : ℕ) × (last_attempt (codes "b") attempts ≡ some time) × (12 ≤ time + 5))
cool_off_locker_refuses_iff_example =
    cool_off_locker_refuses_iff 5 attempts 12 (codes "b") (omega arith, (omega arith, tt))
