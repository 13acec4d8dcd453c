-- ===== src/Scheduler/Wake.antt =====
-- The loop of src/scheduler/scheduler.cpp that wakes a worker for a stealable task.
use m3bp.Prelude.{
  ℕ, zero, suc, ◌+◌, ◌-◌, ◌%◌, ◌<◌, ◌≡◌, ◌⊎◌, refl, ap, Bool, true, false, List, [], ◌∷◌, arith,
  get_or, set, length, if◌then◌else◌, Bool-cases, inl, inr,
}
use m3bp.Scheduler.Synchronizer.{notify, wake_one}
use m3bp.Scheduler.Stealing.{turn}

-- How many workers sleep.
pub sleepers : List Bool → ℕ
sleepers [] = 0
sleepers (f ∷ flags) = (if f then 1 else 0) + sleepers flags

sleepers-set :
    (i : ℕ) (flags : List Bool)
    → get_or flags i false ≡ true
    → sleepers (set flags i false) + 1 ≡ sleepers flags
unfolding sleepers
sleepers-set i [] h = ground arith
sleepers-set zero (f ∷ flags) h = ground arith
sleepers-set (suc i) (f ∷ flags) h = ground (arith, sleepers-set i flags h)

set-awake : (i : ℕ) (flags : List Bool) → get_or flags i false ≡ false → set flags i false ≡ flags
set-awake i [] h = refl
set-awake zero (f ∷ flags) h = ground arith
set-awake (suc i) (f ∷ flags) h = ground (arith, set-awake i flags h)

sleepers-zero :
    (flags : List Bool)
    → ((t : ℕ) → t < length flags → get_or flags t false ≡ false)
    → sleepers flags ≡ 0
unfolding sleepers
sleepers-zero [] h = refl
sleepers-zero (f ∷ flags) h =
    ground (arith, h 0, sleepers-zero flags (λ t k. h (suc t) (omega arith)))

wake_one-asleep :
    (left i w n : ℕ) (flags : List Bool)
    → get_or flags ((w + i) % n) false ≡ true
    → wake_one (suc left) i w n flags ≡ set flags ((w + i) % n) false
unfolding wake_one notify
wake_one-asleep left i w n flags h = rw (h, wake_one) refl

wake_one-awake :
    (left i w n : ℕ) (flags : List Bool)
    → get_or flags ((w + i) % n) false ≡ false
    → wake_one (suc left) i w n flags ≡ wake_one left (i + 1) w n flags
unfolding wake_one notify
wake_one-awake left i w n flags h =
    rw (h, wake_one) (ap (wake_one left (i + 1) w n) (set-awake ((w + i) % n) flags h))

-- Some worker in the rounds that are left is woken, or none of them sleeps and nothing changes.
wake_one_cases :
    (left i w n : ℕ) (flags : List Bool)
    → (sleepers (wake_one left i w n flags) + 1 ≡ sleepers flags)
      ⊎ (wake_one left i w n flags ≡ flags)
        × ((j : ℕ) → j < left → get_or flags ((w + (i + j)) % n) false ≡ false)
unfolding wake_one
wake_one_cases zero i w n flags = inr (refl, λ j h. elim h [ ])
wake_one_cases (suc left) i w n flags = elim (Bool-cases (get_or flags ((w + i) % n) false)) [
  | inl asleep ↦
      inl (rw (wake_one-asleep left i w n flags asleep) (sleepers-set ((w + i) % n) flags asleep))
  | inr awake ↦
      rw (wake_one-awake left i w n flags awake) (elim (wake_one_cases left (i + 1) w n flags) [
        | inl woken ↦ inl woken
        | inr (same, none_sleeps) ↦ inr (
          same,
          elim [
            | zero ↦ λ h. let now : i + 0 ≡ i = omega arith in rw now awake
            | suc j ↦ λ h.
                let later : i + suc j ≡ i + 1 + j = omega arith in
                rw later (none_sleeps j (omega arith))
          ],
        )
      ])
]

-- Exactly one worker is woken if any sleeps, wherever the search starts; else nothing changes.
pub wake_one_lem :
    (w : ℕ) (flags : List Bool)
    → w < length flags
    → sleepers (wake_one (length flags) 0 w (length flags) flags) ≡ sleepers flags - 1
wake_one_lem w flags h = elim (wake_one_cases (length flags) 0 w (length flags) flags) [
  | inl woken ↦ omega (arith, woken)
  | inr (same, awake) ↦
      let none_sleep : sleepers flags ≡ 0 = sleepers-zero flags (λ t k.
        let (j, in_range, at) = turn w t (length flags) h k in
        let start : 0 + j ≡ j = omega arith in rw (start, at) at (awake j in_range)) in
      rw same (omega (arith, none_sleep))
]
