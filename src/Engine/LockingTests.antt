-- ===== src/Engine/LockingTests.antt =====
-- rules/engine.go: two workers that take turns with the lock of one key.
use go_etcd_rules.Base.{
  ◌≤◌, refl, Bool, true, false, [], ◌∷◌, Text, codes, text_eq, Map, lookup, insert, delete,
  locked_locally, none,
}
use go_etcd_rules.Lock.{
  RuleLocker, Unlock, CoolOff, is_locked, map_locker, toggle_unlock, nested_unlock,
}
use go_etcd_rules.Lock.Exclusion.{
  Holders, LockReach, holders_of, here, next, granted, refused, released,
}
use go_etcd_rules.Lock.Exclusive.{map_held}
use go_etcd_rules.Engine.{final_locker}
use go_etcd_rules.Engine.Locking.{engine_held, engine_one_holder, local_one_holder}

abbrev a : Text
a = codes "a"

abbrev taken : Map Bool
taken = (a, true) ∷ []

-- The first worker takes the lock, the second is refused, the first unlocks, the second takes it.
abbrev local_taken : Holders (Map Bool)
local_taken = record { world = taken; holders = (a, toggle_unlock a) ∷ [] }

abbrev local_free : Holders (Map Bool)
local_free = record { world = []; holders = [] }

local-Reach : LockReach map_locker map_held local_free local_taken
unfolding map_locker lookup insert delete text_eq
local-Reach =
    next {u = local_taken}
      (next {u = local_free}
        (next {u = local_taken}
          (next {u = local_taken} here (granted a (toggle_unlock a) taken refl refl))
          (refused a locked_locally taken refl refl))
        (released a (toggle_unlock a) [] [] refl refl))
      (granted a (toggle_unlock a) taken refl refl)

local_one_holder_example : holders_of a local_taken.holders ≤ 1
unfolding is_locked lookup
local_one_holder_example = local_one_holder [] local-Reach (λ key. refl) a

abbrev etcd : RuleLocker (Map Bool)
etcd = map_locker

abbrev free_world : CoolOff × (Map Bool × Map Bool)
free_world = (record { locks = []; now = 7 }, ([], []))

abbrev taken_world : CoolOff × (Map Bool × Map Bool)
taken_world = (record { locks = (a, 12) ∷ []; now = 7 }, (taken, taken))

abbrev cooling_world : CoolOff × (Map Bool × Map Bool)
cooling_world = (record { locks = (a, 12) ∷ []; now = 7 }, ([], []))

abbrev engine_unlock : Unlock (CoolOff × (Map Bool × Map Bool))
engine_unlock = nested_unlock (λ s. (none, s)) (nested_unlock (toggle_unlock a) (toggle_unlock a))

abbrev engine_taken : Holders (CoolOff × (Map Bool × Map Bool))
engine_taken = record { world = taken_world; holders = (a, engine_unlock) ∷ [] }

abbrev engine_free : Holders (CoolOff × (Map Bool × Map Bool))
engine_free = record { world = free_world; holders = [] }

abbrev engine_cooling : Holders (CoolOff × (Map Bool × Map Bool))
engine_cooling = record { world = cooling_world; holders = [] }

engine-Reach : LockReach (final_locker false 5 etcd) (engine_held etcd) engine_free engine_cooling
unfolding final_locker map_locker lookup insert delete text_eq nested_unlock
engine-Reach =
    next {u = engine_cooling}
      (next {u = engine_taken} here (granted a engine_unlock taken_world refl refl))
      (released a engine_unlock [] [] refl refl)

engine_one_holder_example : holders_of a engine_cooling.holders ≤ 1
unfolding is_locked lookup
engine_one_holder_example = engine_one_holder etcd 5 free_world engine-Reach (λ key. refl) a
