-- ===== src/Scheduler/Synchronizer.antt =====
-- src/scheduler/scheduler_synchronizer.hpp: one flag for each worker, set while it sleeps or is
-- about to. The condition variable is seen through the flag: a blocked `wait` returns once the
-- flag is false. The list holds the flags of all workers, in order.
use m3bp.Prelude.{
  ℕ, zero, suc, ◌+◌, ◌%◌, Bool, true, false, List, [], ◌∷◌, map, get_or, set, length, ◌≡◌, refl, ap,
}

abbrev pub set_is_sleeping : ℕ → List Bool → List Bool
set_is_sleeping worker flags = set flags worker true

abbrev pub reset_is_sleeping : ℕ → List Bool → List Bool
reset_is_sleeping worker flags = set flags worker false

-- `notify` clears the flag and says whether it was set.
unfoldable pub notify : ℕ → List Bool → Bool × List Bool
notify worker flags = (get_or flags worker false, set flags worker false)

unfoldable pub notify_all : List Bool → List Bool
notify_all = map (λ _. false)

-- The loop that wakes one sleeping worker, starting at `w`, with `left` of its rounds to go.
unfoldable pub wake_one : (left i w worker_count : ℕ) → List Bool → List Bool
unfolding notify
wake_one zero i w worker_count flags = flags
wake_one (suc left) i w worker_count flags =
    let (woken, flags') = notify ((w + i) % worker_count) flags in
    elim woken [ true ↦ flags' | false ↦ wake_one left (i + 1) w worker_count flags' ]

pub length-notify_all : (flags : List Bool) → length (notify_all flags) ≡ length flags
unfolding notify_all
length-notify_all [] = refl
length-notify_all (f ∷ flags) = ap suc (length-notify_all flags)
