-- ===== src/SessionManager/Singleton.antt =====
-- concurrency/session_manager.go: the session and the goroutines that wait for an end.
use go_etcd_rules.Base.{
  ℕ, ◌≡◌, refl, sym, ap, ◌∙◌, inl, inr, List, [], ◌∷◌, Option, none, some, ok, Error, In, ==_refl,
}
use go_etcd_rules.SessionManager.{
  SessionManager, session_from, get_session, without, clear_session, Step, get, clear, Reach, here,
  next,
}

abbrev pub watched_for : Option ℕ → List ℕ
watched_for none = []
watched_for (some n) = n ∷ []

-- Exactly the session that is kept is watched.
abbrev IsSingle : SessionManager → Type 0
IsSingle sm = sm.watched ≡ watched_for sm.session

session_from-IsSingle :
    (o : Option ℕ) (created : Option Error) (sm : SessionManager)
    → sm.session ≡ o
    → IsSingle sm
    → IsSingle (session_from o created sm).1
session_from-IsSingle (some n) created sm e s = s
session_from-IsSingle none (some x) sm e s = s
session_from-IsSingle none none sm e s = ap (λ l. sm.made ∷ l) (s ∙ ap watched_for e)

without_only : (n m : ℕ) → n ≡ m → without n (m ∷ []) ≡ []
unfolding without
without_only n m e = rw (sym e, ==_refl n) refl

clear_session-IsSingle :
    (o : Option ℕ) (n : ℕ) (sm : SessionManager)
    → sm.session ≡ o
    → IsSingle sm
    → In n sm.watched
    → (o ≡ some n) × IsSingle (clear_session n sm)
unfolding clear_session
clear_session-IsSingle none n sm e s i = absurd (rw (s ∙ ap watched_for e) at i)
clear_session-IsSingle (some m) n sm e s i = elim (rw (s ∙ ap watched_for e) at i) [
  | inl same ↦ (ap some (sym same), ap (without n) (s ∙ ap watched_for e) ∙ without_only n m same)
  | inr none_else ↦ absurd none_else
]

Step-IsSingle : (sm sm' : SessionManager) → Step sm sm' → IsSingle sm → IsSingle sm'
unfolding get_session
Step-IsSingle sm sm' (get created e) s = rw e (session_from-IsSingle sm.session created sm refl s)
Step-IsSingle sm sm' (clear n i e) s = rw e (clear_session-IsSingle sm.session n sm refl s i).1

Reach-IsSingle : (sm : SessionManager) → Reach sm → IsSingle sm
Reach-IsSingle sm here = refl
Reach-IsSingle sm (next r step) = Step-IsSingle _ sm step (Reach-IsSingle _ r)

session_from-IsKept :
    (o : Option ℕ) (created : Option Error) (sm : SessionManager) (n : ℕ)
    → sm.session ≡ o
    → (session_from o created sm).0 ≡ ok n
    → (session_from o created sm).1.session ≡ some n
session_from-IsKept (some m) created sm n e r = e ∙ ap some (cc r)
session_from-IsKept none (some x) sm n e r = cc
session_from-IsKept none none sm n e r = ap some (cc r)

-- In every run from the start, the goroutines that wait for the end of a session are one for the session
-- that is kept, and none where none is kept; a call that gives a session out keeps it, with its one
-- goroutine; and the end of a session is the end of the one that is kept, after which no session is kept
-- and no goroutine is left. So a session's end never drops a later session.
pub clear_session-IsKept :
    (sm : SessionManager)
    → Reach sm
    → (sm.watched ≡ watched_for sm.session)
      × ((created : Option Error) (n : ℕ)
          → (get_session created sm).0 ≡ ok n
          → ((get_session created sm).1.session ≡ some n)
            × ((get_session created sm).1.watched ≡ n ∷ []))
      × ((n : ℕ)
          → In n sm.watched
          → (sm.session ≡ some n)
            × ((clear_session n sm).session ≡ none)
            × ((clear_session n sm).watched ≡ []))
unfolding clear_session get_session
clear_session-IsKept sm r =
    let s = Reach-IsSingle sm r in
    (
      s,
      λ created n given.
          let kept = session_from-IsKept sm.session created sm n refl given in
          (kept, session_from-IsSingle sm.session created sm refl s ∙ ap watched_for kept),
      λ n i.
          let (kept, cleared) = clear_session-IsSingle sm.session n sm refl s i in
          (kept, refl, cleared),
    )
