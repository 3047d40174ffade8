-- ===== src/Lock/Sessions.antt =====
-- rules/lock/lock.go: the session of an attempt that fails.
use go_etcd_rules.Base.{
  ◌≡◌, refl, Bool, true, false, List, Option, none, some, Text, ok, Error, In, if◌then◌else◌,
}
use go_etcd_rules.Lock.{EtcdClient, v3_locked, session_locker}

module _ {S Session : Type 0} (client : EtcdClient S Session) where
  -- What the client documents: a session that was made is open, and an attempt to lock closes none.
  pub record KeepsOpen (opened : S → List Session) : Type 0 where
    pub made :
        (s s' : S) (session : Session)
        → client.new_session s ≡ (ok session, s')
        → In session (opened s')
    pub kept_by_lock :
        (s : S) (m session : Session) (key : Text)
        → In session (opened s)
        → In session (opened (client.lock_mutex m key s).1)
    pub kept_by_try_lock :
        (s : S) (m session : Session) (key : Text)
        → In session (opened s)
        → In session (opened (client.try_lock_mutex m key s).1)

  v3_locked-world :
      (close_session : Bool) (session : Session) (key : Text) (r : Option Error × S)
      → (v3_locked client close_session session key r).1 ≡ r.1
  v3_locked-world close_session session key (none, s) = refl
  v3_locked-world close_session session key (some e, s) = refl

  attempt-kept :
      (opened : S → List Session) (use_try_lock : Bool) (session : Session) (key : Text) (s : S)
      → KeepsOpen opened
      → In session (opened s)
      → In session (
          opened
            (if use_try_lock
              then client.try_lock_mutex session key s
              else client.lock_mutex session key s).1)
  attempt-kept opened true session key s keeps i = keeps.kept_by_try_lock s session session key i
  attempt-kept opened false session key s keeps i = keeps.kept_by_lock s session session key i

  -- Whether the attempt at the lock succeeds or fails, the session that was made for it is open
  -- afterwards, also where each attempt makes a session of its own that is closed with the lock.
  pub session_locker-opened :
      (opened : S → List Session) (close_session use_try_lock : Bool) (key : Text) (s s' : S)
      (session : Session)
      → KeepsOpen opened
      → client.new_session s ≡ (ok session, s')
      → In session (opened ((session_locker client close_session use_try_lock).lock key s).1)
  unfolding session_locker
  session_locker-opened opened close_session use_try_lock key s s' session keeps new =
      rw (session_locker, new)
        (rw
          (v3_locked-world close_session session key (
            if use_try_lock
            then client.try_lock_mutex session key s'
            else client.lock_mutex session key s'))
          (attempt-kept opened use_try_lock session key s' keeps (keeps.made s s' session new)))
