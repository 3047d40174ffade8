-- ===== src/KeyProcessor/Sampler.antt =====
-- rules/key_processor.go: `bufferCapacitySampler`, which reports the room of the channel of keys.
use go_etcd_rules.Base.{
  ℕ, ◌-◌, ◌≡◌, inl, inr, Bool, true, false, ◌&&◌, not, List, [], ◌∷◌, Option, none, some, ◌==◌,
  Bool-cases, arith,
}

-- A round of the sampler, which waits a minute: what the channel holds, and the hour of the day.
pub record Sample : Type 0 where
  pub held : ℕ
  pub hour : ℕ

-- `lastNotified` is -1 at first, which is `none`.
abbrev pub is_hour : Option ℕ → ℕ → Bool
is_hour none hour = false
is_hour (some last) hour = last == hour

-- The hours in which the sampler warns. Whether less than a twentieth of the capacity is left is asked in
-- floating-point numbers, which stay a parameter.
unfoldable pub buffer_capacity_sampler : (ℕ → ℕ → Bool) → ℕ → Option ℕ → List Sample → List ℕ
buffer_capacity_sampler is_near capacity last_notified [] = []
buffer_capacity_sampler is_near capacity last_notified (sample ∷ samples) =
    elim (is_near (capacity - sample.held) capacity && not (is_hour last_notified sample.hour)) [
      | true ↦ sample.hour ∷ buffer_capacity_sampler is_near capacity (some sample.hour) samples
      | false ↦ buffer_capacity_sampler is_near capacity last_notified samples
    ]

-- Each of some hours differs from the one before it, and the first from the last warning before.
abbrev pub IsChanging : Option ℕ → List ℕ → Type 0
IsChanging last [] = Unit
IsChanging last (hour ∷ hours) = (is_hour last hour ≡ false) × IsChanging (some hour) hours

-- There is at most one warning in a row for an hour of the day.
buffer_capacity_sampler-IsChanging :
    (is_near : ℕ → ℕ → Bool) (capacity : ℕ) (last_notified : Option ℕ) (samples : List Sample)
    → IsChanging last_notified (buffer_capacity_sampler is_near capacity last_notified samples)
unfolding buffer_capacity_sampler
buffer_capacity_sampler-IsChanging is_near capacity last [] = tt
buffer_capacity_sampler-IsChanging is_near capacity last (sample ∷ samples) =
    elim (Bool-cases
      (is_near (capacity - sample.held) capacity && not (is_hour last sample.hour))) [
        | inl warns ↦
            let other : is_hour last sample.hour ≡ false = ground (arith, warns) in
            rw (buffer_capacity_sampler, warns)
              (
                other,
                buffer_capacity_sampler-IsChanging is_near capacity (some sample.hour) samples,
              )
        | inr quiet ↦
            rw (buffer_capacity_sampler, quiet)
              (buffer_capacity_sampler-IsChanging is_near capacity last samples)
      ]
