-- ===== src/SessionManager/Tests.antt =====
-- concurrency/session_manager.go: the theorem after one call.
use go_etcd_rules.Base.{◌≡◌, refl, [], ◌∷◌, none, some, In, ℕ, Option, Error, ok}
use go_etcd_rules.SessionManager.{
  SessionManager, start, get_session, clear_session, Reach, here, next, get,
}
use go_etcd_rules.SessionManager.Singleton.{watched_for, clear_session-IsKept}

abbrev with_one : SessionManager
with_one = (get_session none start).1

reached : Reach with_one
reached = next here (get none refl)

clear_session-IsKept_example :
    (with_one.watched ≡ watched_for with_one.session)
    × ((created : Option Error) (n : ℕ)
        → (get_session created with_one).0 ≡ ok n
        → ((get_session created with_one).1.session ≡ some n)
          × ((get_session created with_one).1.watched ≡ n ∷ []))
    × ((n : ℕ)
        → In n with_one.watched
        → (with_one.session ≡ some n)
          × ((clear_session n with_one).session ≡ none)
          × ((clear_session n with_one).watched ≡ []))
clear_session-IsKept_example = clear_session-IsKept with_one reached
