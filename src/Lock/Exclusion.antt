-- ===== src/Lock/Exclusion.antt =====
-- rules/lock: what it takes that a lock excludes others, and workers that take turns with one locker.
use go_etcd_rules.Base.{
  ℕ, ◌+◌, ◌≤◌, ◌≡◌, refl, sym, ap, ◌∙◌, Bool, true, false, List, [], ◌∷◌, ◌++◌, Text, text_eq,
  Result, ok, err, Error, if◌then◌else◌, subst, text_eq_sound, All, All-append, All-append_left,
  All-append_right, arith,
}
use go_etcd_rules.Lock.{RuleLocker, Unlock}

module _ {S : Type 0} (held : Text → S → Bool) where
  -- An operation that frees a key and no other.
  abbrev pub Frees : Text → Unlock S → Type 0
  Frees key unlock =
      (s : S) (j : Text) → held j (unlock s).1 ≡ (if text_eq key j then false else held j s)

  -- What is granted was free and is held then, until the unlock that is handed out frees it; what is
  -- refused changes nothing.
  abbrev pub Answers : Text → S → Result (Unlock S) × S → Type 0
  Answers key s (ok unlock, s') =
      (held key s ≡ false)
      × ((j : Text) → held j s' ≡ (if text_eq key j then true else held j s))
      × Frees key unlock
  Answers key s (err e, s') = (j : Text) → held j s' ≡ held j s

  -- A locker that excludes.
  abbrev pub IsExclusive : RuleLocker S → Type 0
  IsExclusive locker = (key : Text) (s : S) → Answers key s (locker.lock key s)

-- Those who hold a lock, each with its key and its unlock, in a world.
pub record Holders (S : Type 0) : Type 0 where
  pub world : S
  pub holders : List (Text × Unlock S)

module _ {S : Type 0} (locker : RuleLocker S) (held : Text → S → Bool) where
  pub data LockStep (s t : Holders S) : Type 0 where
    granted :
        (key : Text) (unlock : Unlock S) (world : S)
        → locker.lock key s.world ≡ (ok unlock, world)
        → t ≡ record { world = world; holders = (key, unlock) ∷ s.holders }
        → LockStep s t
    refused :
        (key : Text) (e : Error) (world : S)
        → locker.lock key s.world ≡ (err e, world)
        → t ≡ record { world = world; holders = s.holders }
        → LockStep s t
    released :
        (key : Text) (unlock : Unlock S) (before after : List (Text × Unlock S))
        → s.holders ≡ before ++ (key, unlock) ∷ after
        → t ≡ record { world = (unlock s.world).1; holders = before ++ after }
        → LockStep s t
    -- The world moves on, but for what this locker holds.
    moved :
        (world : S)
        → ((j : Text) → held j world ≡ held j s.world)
        → t ≡ record { world = world; holders = s.holders }
        → LockStep s t

  pub data LockReach (s : Holders S) : Holders S → Type 0 where
    here : LockReach s s
    next : {t u : Holders S} → LockReach s t → LockStep t u → LockReach s u

abbrev pub one_if : Bool → ℕ
one_if true = 1
one_if false = 0

module _ {S : Type 0} where
  -- How many hold the lock of a key.
  abbrev pub holders_of : Text → List (Text × Unlock S) → ℕ
  holders_of key [] = 0
  holders_of key ((j, unlock) ∷ rest) = one_if (text_eq j key) + holders_of key rest

  holders_of-append :
      (key : Text) (xs ys : List (Text × Unlock S))
      → holders_of key (xs ++ ys) ≡ holders_of key xs + holders_of key ys
  holders_of-append key [] ys = omega arith
  holders_of-append key ((j, unlock) ∷ xs) ys = omega (arith, holders_of-append key xs ys)

one_if_bound : (b : Bool) (n : ℕ) → n ≡ one_if b → n ≤ 1
one_if_bound true n e = omega (arith, e)
one_if_bound false n e = omega (arith, e)

-- One more holder of a key that was free.
one_more :
    (same was : Bool) (n : ℕ)
    → (same ≡ true → was ≡ false)
    → n ≡ one_if was
    → one_if same + n ≡ one_if (if same then true else was)
one_more true true n free e = let z : true ≡ false = free refl in cc
one_more true false n free e = omega (arith, e)
one_more false was n free e = omega (arith, e)

-- One holder less.
one_less :
    (same was : Bool) (n m : ℕ)
    → n + (one_if same + m) ≡ one_if was
    → n + m ≡ one_if (if same then false else was)
one_less true true n m e = omega (arith, e)
one_less true false n m e = omega (arith, e)
one_less false was n m e = omega (arith, e)

module _ {S : Type 0} (locker : RuleLocker S) (held : Text → S → Bool)
    (exclusive : IsExclusive held locker) where
  abbrev FreesOwn : Text × Unlock S → Type 0
  FreesOwn h = Frees held h.0 h.1

  abbrev Counted : Holders S → Type 0
  Counted s =
      All FreesOwn s.holders × ((key : Text) → holders_of key s.holders ≡ one_if (held key s.world))

  Step-Counted : (s t : Holders S) → LockStep locker held s t → Counted s → Counted t
  Step-Counted s t (granted key unlock world l e) (frees, counts) =
      let (free, taken, unlocks) = subst (Answers held key s.world) l (exclusive key s.world) in
      rw e (
        (unlocks, frees),
        λ j.
            one_more (text_eq key j) (held j s.world) (holders_of j s.holders)
              (λ same. ap (λ k. held k s.world) (sym (text_eq_sound key j same)) ∙ free) (counts j)
            ∙ ap one_if (sym (taken j)),
      )
  Step-Counted s t (refused key x world l e) (frees, counts) = rw e (
    frees,
    λ j. counts j ∙ ap one_if (sym (subst (Answers held key s.world) l (exclusive key s.world) j)),
  )
  Step-Counted s t (released key unlock before after h e) (frees, counts) =
      let own : All FreesOwn (before ++ (key, unlock) ∷ after) = rw h at frees in
      let rest = All-append_right FreesOwn before ((key, unlock) ∷ after) own in
      rw e (
        All-append FreesOwn before after
            (All-append_left FreesOwn before ((key, unlock) ∷ after) own) rest.1,
        λ j.
            holders_of-append j before after
            ∙ one_less (text_eq key j) (held j s.world) (holders_of j before) (holders_of j after) (
                sym (holders_of-append j before ((key, unlock) ∷ after))
                ∙ ap (holders_of j) (sym h)
                ∙ counts j)
            ∙ ap one_if (sym (rest.0 s.world j)),
      )
  Step-Counted s t (moved world same e) (frees, counts) =
      rw e (frees, λ j. counts j ∙ ap one_if (sym (same j)))

  Reach-Counted :
      (s : Holders S) {t : Holders S} → LockReach locker held s t → Counted s → Counted t
  Reach-Counted s here c = c
  Reach-Counted s {t = u} (next {t = t} r x) c = Step-Counted t u x (Reach-Counted s r c)

  -- Where nothing is held at first, nobody or one holds the lock of a key, whoever took turns.
  pub one_holder :
      (world : S) {t : Holders S}
      → LockReach locker held (record { world = world; holders = [] }) t
      → ((key : Text) → held key world ≡ false)
      → (key : Text) → holders_of key t.holders ≤ 1
  one_holder world {t} r free key =
      let counted =
        Reach-Counted (record { world = world; holders = [] }) r
          (tt, λ k. ap one_if (sym (free k))) in
      one_if_bound (held key t.world) (holders_of key t.holders) (counted.1 key)
