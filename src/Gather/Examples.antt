-- ===== src/Gather/Examples.antt =====
-- Two buffers, of which one does not start at the first byte of its data.
use m3bp.Prelude.{ℕ, ◌+◌, ◌<◌, ◌≡◌, refl, some, [], ◌∷◌, arith, ◌==◌, if◌then◌else◌}
use m3bp.Memory.Manager.{null_reference}
use m3bp.Memory.Records.{ValueBuffer, IsValues, records}
use m3bp.Gather.Task.{GatherTask, run_gather}
use m3bp.Gather.Run.{IsGatherable, run_gather_lem}

-- The records 7 8 and 9.
abbrev shifted : ValueBuffer
shifted = record {
  record_count = 2;
  values_offsets = record { size = 4; at = λ k. if k == 0 then 2 else if k == 1 then 4 else 5 };
  values_data = record { size = 6; at = λ k. k + 5 };
}

-- The empty record and 1 2.
abbrev plain : ValueBuffer
plain = record {
  record_count = 2;
  values_offsets = record { size = 3; at = λ k. if k == 2 then 2 else 0 };
  values_data = record { size = 2; at = λ k. k + 1 };
}

both-IsGatherable : IsGatherable (shifted ∷ plain ∷ [])
both-IsGatherable = record {
  values = (
    record {
      room = omega arith;
      ordered = λ i h. ground arith;
      within = omega arith;
      small = omega arith;
    },
    (
      record {
        room = omega arith;
        ordered = λ i h. ground arith;
        within = omega arith;
        small = omega arith;
      },
      tt,
    ),
  );
  counts = omega arith;
  sizes = omega arith;
}

abbrev two_inputs : GatherTask
two_inputs = record {
  task_id = 3;
  entry_task = 0;
  barrier_task = 0;
  terminal_task = 0;
  inputs = null_reference ∷ null_reference ∷ [];
}

-- What the memory held before shows nowhere.
abbrev junk : ℕ → ℕ
junk _ = 99

run_gather_lem_example :
    (dst : ValueBuffer) × (run_gather junk junk (shifted ∷ plain ∷ []) two_inputs
      ≡ some (dst, record two_inputs { inputs = [] }))
    × (records dst ≡ (7 ∷ 8 ∷ []) ∷ (9 ∷ []) ∷ [] ∷ (1 ∷ 2 ∷ []) ∷ [])
    × (0 < 2 → IsValues dst)
unfolding records
run_gather_lem_example =
    run_gather_lem junk junk (shifted ∷ plain ∷ []) two_inputs both-IsGatherable refl
