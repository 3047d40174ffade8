-- ===== src/Lock/Exclusive.antt =====
-- rules/lock: the lockers that exclude, and the ways of putting lockers together that keep it.
use go_etcd_rules.Base.{
  ◌≡◌, refl, sym, ap, ◌∙◌, Bool, true, false, not, Text, text_eq, text_eq_sound, text_eq_iff,
  Result, ok, err, if◌then◌else◌, Bool-cases, inl, inr, arith, Map,
}
use go_etcd_rules.Lock.{
  RuleLocker, Unlock, is_locked, toggle, toggle_lock, map_locker, nested_locker, nested_unlock,
  lock_own, lock_nested,
}
use go_etcd_rules.Lock.Laws.{toggle_lem, released}
use go_etcd_rules.Lock.Exclusion.{IsExclusive, Answers}

abbrev pub map_held : Text → Map Bool → Bool
map_held key m = is_locked m key

toggle-Answers :
    (key : Text) (m : Map Bool) (b : Bool) (m' : Map Bool)
    → b ≡ not (is_locked m key)
    → ((j : Text) → is_locked m' j ≡ (if text_eq key j then true else is_locked m j))
    → Answers map_held key m (toggle_lock key (b, m'))
toggle-Answers key m true m' hb hm = (ground arith, hm, λ s j. released key j s)
toggle-Answers key m false m' hb hm = λ j. let put = hm j in ground (arith, text_eq_iff key j)

pub map_locker-IsExclusive : IsExclusive map_held map_locker
unfolding map_locker
map_locker-IsExclusive key m =
    toggle-Answers key m (toggle key true m).0 (toggle key true m).1 (toggle_lem key key true m).0
      (λ j. (toggle_lem key j true m).1)

-- What was free, was taken and is freed.
freed :
    (key j : Text) (was now : Bool)
    → (text_eq key j ≡ true → was ≡ false)
    → now ≡ (if text_eq key j then true else was)
    → (if text_eq key j then false else now) ≡ was
freed key j was now free taken = elim (Bool-cases (text_eq key j)) [
  | inl same ↦ rw same (sym (free same))
  | inr other ↦ ground arith
]

module _ {S T : Type 0} (held : Text → S → Bool) (outer : RuleLocker S) (inner : RuleLocker T)
    (exclusive : IsExclusive held outer) where
  abbrev pub outer_held : Text → S × T → Bool
  outer_held key st = held key st.0

  nested-Answers :
      (key : Text) (s s' : S) (t : T) (own : Unlock S) (r : Result (Unlock T) × T)
      → Answers held key s (ok own, s')
      → Answers outer_held key (s, t) (lock_nested own r s')
  unfolding nested_unlock
  nested-Answers key s s' t own (ok nested, t') (free, taken, frees) =
      (free, taken, λ st j. frees st.0 j)
  nested-Answers key s s' t own (err e, t') (free, taken, frees) = λ j.
      frees s' j
      ∙ freed key j (held j s) (held j s')
          (λ same. ap (λ k. held k s) (sym (text_eq_sound key j same)) ∙ free) (taken j)

  own-Answers :
      (key : Text) (s : S) (t : T) (r : Result (Unlock S) × S)
      → Answers held key s r
      → Answers outer_held key (s, t) (lock_own inner key t r)
  own-Answers key s t (err e, s') a = a
  own-Answers key s t (ok own, s') a = nested-Answers key s s' t own (inner.lock key t) a

  pub nested_outer-IsExclusive : IsExclusive outer_held (nested_locker outer inner)
  unfolding nested_locker
  nested_outer-IsExclusive key st =
      own-Answers key st.0 st.1 (outer.lock key st.0) (exclusive key st.0)

module _ {S T : Type 0} (held : Text → T → Bool) (outer : RuleLocker S) (inner : RuleLocker T)
    (exclusive : IsExclusive held inner) where
  abbrev pub inner_held : Text → S × T → Bool
  inner_held key st = held key st.1

  nested_of :
      (key : Text) (s s' : S) (t : T) (own : Unlock S) (r : Result (Unlock T) × T)
      → Answers held key t r
      → Answers inner_held key (s, t) (lock_nested own r s')
  unfolding nested_unlock
  nested_of key s s' t own (ok nested, t') (free, taken, frees) =
      (free, taken, λ st j. frees st.1 j)
  nested_of key s s' t own (err e, t') same = same

  own_of :
      (key : Text) (s : S) (t : T) (r : Result (Unlock S) × S)
      → Answers inner_held key (s, t) (lock_own inner key t r)
  own_of key s t (err e, s') = λ j. refl
  own_of key s t (ok own, s') = nested_of key s s' t own (inner.lock key t) (exclusive key t)

  pub nested_inner-IsExclusive : IsExclusive inner_held (nested_locker outer inner)
  unfolding nested_locker
  nested_inner-IsExclusive key st = own_of key st.0 st.1 (outer.lock key st.0)
