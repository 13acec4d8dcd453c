-- ===== src/Scheduler/Locality.antt =====
-- src/scheduler/locality.hpp and locality_option.hpp: where a worker stands, and where a task
-- wants to run.
use m3bp.Prelude.{ℕ, Bool, true, not, ◌==◌, max_id}

pub record Locality : Type 0 where
  pub self_thread_id : ℕ
  pub self_node_id : ℕ

-- `UNSPECIFIED_ID` is the largest identifier.
pub record LocalityOption : Type 0 where
  pub recommended_worker : ℕ
  pub is_stealable : Bool

abbrev pub any_worker : LocalityOption
any_worker = record { recommended_worker = max_id; is_stealable = true }

abbrev pub has_recommendation : LocalityOption → Bool
has_recommendation option = not (option.recommended_worker == max_id)
