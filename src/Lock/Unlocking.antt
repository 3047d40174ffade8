-- ===== src/Lock/Unlocking.antt =====
-- rules/lock/lock.go: `Unlock` of an etcd lock.
use go_etcd_rules.Base.{
  ℕ, zero, suc, ◌+◌, ◌<◌, ◌≡◌, ◌≢◌, ◌↔◌, refl, sym, ap, ◌∙◌, ◌⊎◌, inl, inr, true, Option, none,
  some, Text, Error, Option-cases, Bool-cases, arith,
}
use go_etcd_rules.Lock.{
  EtcdClient, unlock_loop, ignore_lost_lease, close_after, unlock_mutex_of, v3_unlock,
}

module _ {S : Type 0} (attempt : S → Option Error × S) where
  -- The world after a number of attempts.
  unfoldable pub after : ℕ → S → S
  after zero s = s
  after (suc n) s = after n (attempt s).1

  -- The attempt with this number is the last: none before it succeeded, and it did, or no more are
  -- allowed.
  pub record IsLast (allowed n : ℕ) (s : S) : Type 0 where
    pub in_time : n < allowed
    pub failed_before : (j : ℕ) → j < n → (attempt (after j s)).0 ≢ none
    pub ended : ((attempt (after n s)).0 ≡ none) ⊎ (allowed ≡ n + 1)

  after-suc : (n : ℕ) (s : S) → after (suc n) s ≡ (attempt (after n s)).1
  unfolding after
  after-suc zero s = refl
  after-suc (suc n) s = after-suc n (attempt s).1

  first-IsLast :
      (allowed : ℕ) (s : S) → ((attempt s).0 ≡ none) ⊎ (allowed ≡ 0) → IsLast (suc allowed) 0 s
  unfolding after
  first-IsLast allowed s h = record {
    in_time = omega arith;
    failed_before = λ j lt. absurd (omega (arith, lt));
    ended = elim h [ inl done ↦ inl done | inr out ↦ inr (ap suc out) ];
  }

  next-IsLast :
      (allowed n : ℕ) (e : Error) (s : S)
      → (attempt s).0 ≡ some e
      → IsLast allowed n (attempt s).1
      → IsLast (suc allowed) (suc n) s
  unfolding after
  next-IsLast allowed n e s failed l = record {
    in_time = omega (arith, l.in_time);
    failed_before = fails;
    ended = elim l.ended [ inl done ↦ inl done | inr out ↦ inr (omega (arith, out)) ];
  }
    where
      fails : (j : ℕ) → j < suc n → (attempt (after j s)).0 ≢ none
      fails zero lt = λ x. cc (sym failed ∙ x)
      fails (suc j) lt = l.failed_before j (omega (arith, lt))

  -- The loop returns what the last attempt gave.
  unlock_loop-IsLast :
      (allowed : ℕ) (last : Option Error) (s : S)
      → (n : ℕ) × IsLast (suc allowed) n s
        × (unlock_loop attempt (suc allowed) last s ≡ attempt (after n s))
  unfolding unlock_loop after
  unlock_loop-IsLast zero last s = elim (Option-cases (attempt s).0) [
    | inl done ↦ (0, first-IsLast 0 s (inl done), rw (unlock_loop, done) refl)
    | inr (e, failed) ↦ (
      0,
      first-IsLast 0 s (inr refl),
      rw (unlock_loop, failed) (ap (λ o. (o, (attempt s).1)) failed),
    )
  ]
  unlock_loop-IsLast (suc allowed) last s = elim (Option-cases (attempt s).0) [
    | inl done ↦ (0, first-IsLast (suc allowed) s (inl done), rw (unlock_loop, done) refl)
    | inr (e, failed) ↦
        let (n, l, same) = unlock_loop-IsLast allowed (some e) (attempt s).1 in
        (suc n, next-IsLast (suc allowed) n e s failed l, rw (unlock_loop, failed) same)
  ]

module _ {S Session : Type 0} (client : EtcdClient S Session) where
  -- A session is closed, or there is none to close.
  abbrev pub closed : Option Session → S → S
  closed none s = s
  closed (some session) s = (client.close_session session s).1

  -- There is no session to close, or closing it gives no error but that its lease is gone.
  abbrev pub IsClean : Option Session → S → Type 0
  IsClean none s = Unit
  IsClean (some session) s =
      (e : Error) → (client.close_session session s).0 ≡ some e → client.lease_not_found e ≡ true

  ignore_lost_lease_iff :
      (o : Option Error)
      → (ignore_lost_lease client o ≡ none)
        ↔ ((e : Error) → o ≡ some e → client.lease_not_found e ≡ true)
  ignore_lost_lease_iff none = (λ h e x. cc x, λ h. refl)
  ignore_lost_lease_iff (some e) = elim (Bool-cases (client.lease_not_found e)) [
    | inl lost ↦ (λ h e' x. cc x, λ h. rw lost refl)
    | inr kept ↦ (λ h. absurd (cc (sym (rw kept at h))), λ h. absurd (cc (sym kept ∙ h e refl)))
  ]

  close_after-closed :
      (session : Option Session) (o : Option Error) (s : S)
      → (close_after client session o s).1 ≡ closed session s
  unfolding close_after
  close_after-closed none o s = refl
  close_after-closed (some session) o s = refl

  close_after-none_iff :
      (session : Option Session) (o : Option Error) (s : S)
      → ((close_after client session o s).0 ≡ none) ↔ ((o ≡ none) × IsClean session s)
  unfolding close_after
  close_after-none_iff none o s = (λ h. (h, tt), λ h. h.0)
  close_after-none_iff (some session) none s =
      let (is_lost, lost_is) = ignore_lost_lease_iff (client.close_session session s).0 in
      (λ h. (refl, is_lost h), λ h. lost_is h.1)
  close_after-none_iff (some session) (some e) s = (λ h. absurd (cc h), λ h. absurd (cc (h.0)))

  -- `Unlock` makes attempts up to the first that succeeds, or five; it then closes the session, also
  -- where no attempt succeeded. It reports no error exactly if the last attempt succeeded and the
  -- session is closed without an error, or its lease was gone.
  pub v3_unlock_lem :
      (m : Session) (key : Text) (session : Option Session) (s : S)
      → (n : ℕ) × IsLast (client.unlock_mutex m key) 5 n s
        × ((v3_unlock client (record { mutex = some (m, key); session = session }) s).1
            ≡ closed session (after (client.unlock_mutex m key) (suc n) s))
        × (((v3_unlock client (record { mutex = some (m, key); session = session }) s).0 ≡ none) ↔ (
            ((client.unlock_mutex m key (after (client.unlock_mutex m key) n s)).0 ≡ none)
            × IsClean session (after (client.unlock_mutex m key) (suc n) s)))
  unfolding v3_unlock unlock_mutex_of close_after after
  v3_unlock_lem m key session s =
      let attempt = client.unlock_mutex m key in
      let (n, last, same) = unlock_loop-IsLast attempt 4 none s in
      let state = after-suc attempt n s in
      (
        n,
        last,
        rw (same) (close_after-closed session _ _ ∙ ap (closed session) (sym state)),
        rw (same, state) (close_after-none_iff session _ _),
      )
