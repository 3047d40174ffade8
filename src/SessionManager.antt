-- ===== src/SessionManager.antt =====
-- concurrency/session_manager.go: one session for all, replaced when it has ended. Sessions are
-- numbered as they are made.
mod Singleton
mod Tests
use go_etcd_rules.Base.{
  ℕ, ◌+◌, ◌≡◌, List, [], ◌∷◌, Option, none, some, Result, ok, err, Error, In, ◌==◌, if◌then◌else◌,
}

-- The session, and the sessions whose end a goroutine is waiting for.
pub record SessionManager : Type 0 where
  pub session : Option ℕ
  pub made : ℕ
  pub watched : List ℕ

abbrev pub start : SessionManager
start = record { session = none; made = 0; watched = [] }

-- `GetSession`, whose mutex makes it one step. `created` is the error of making a session, if one has
-- to be made.
abbrev pub session_from : Option ℕ → Option Error → SessionManager → Result ℕ × SessionManager
session_from (some n) created sm = (ok n, sm)
session_from none (some e) sm = (err e, sm)
session_from none none sm = (
  ok sm.made,
  record { session = some sm.made; made = sm.made + 1; watched = sm.made ∷ sm.watched },
)

unfoldable pub get_session : Option Error → SessionManager → Result ℕ × SessionManager
get_session created sm = session_from sm.session created sm

-- The goroutine of one session, after its end.
unfoldable pub without : ℕ → List ℕ → List ℕ
without n [] = []
without n (m ∷ ms) = let others = m ∷ without n ms in if n == m then ms else others

unfoldable pub clear_session : ℕ → SessionManager → SessionManager
unfolding without
clear_session n sm = record sm { session = none; watched = without n sm.watched }

-- A call of `GetSession`, or a session's end.
pub data Step (sm sm' : SessionManager) : Type 0 where
  get : (created : Option Error) → sm' ≡ (get_session created sm).1 → Step sm sm'
  clear : (n : ℕ) → In n sm.watched → sm' ≡ clear_session n sm → Step sm sm'

pub data Reach : SessionManager → Type 0 where
  here : Reach start
  next : {sm sm' : SessionManager} → Reach sm → Step sm sm' → Reach sm'
