-- ===== src/Gather/Append.antt =====
-- What src/tasks/gather/gather_logical_task.cpp leaves in a buffer when it appends another one. The
-- offsets are `z` before and `z'` after, the data `d` and `d'`, and `src` and `e` in the source.
use m3bp.Prelude.{
  ℕ, zero, suc, ◌+◌, ◌-◌, ◌<◌, ◌≤◌, ◌≡◌, ap, ◌∙◌, true, ◌++◌, ltb, leb, ◌&&◌, if◌then◌else◌, arith,
  dec_lt,
}
use m3bp.Memory.Arrays.{slice-cong}
use m3bp.Memory.Records.{records_from, records_from-cong, records_from-append, ascending}

module _ (z z' src d d' e : ℕ → ℕ) (cd cs bytes : ℕ)
    (offsets : (k : ℕ)
      → z' k ≡ (if leb (cd + 1) k && leb k (cd + cs) then bytes + (src (k - cd) - src 0) else z k))
    (copied : (k : ℕ)
      → d' k ≡ (
          if leb bytes k && ltb k (bytes + (src cs - src 0)) then e (src 0 + (k - bytes)) else d k))
    (used : z cd ≡ bytes) (ordered : (i : ℕ) → i < cd → z i ≤ z (i + 1))
    (source_ordered : (i : ℕ) → i < cs → src i ≤ src (i + 1)) where
  z'_old : (j : ℕ) → j ≤ cd → z' j ≡ z j
  z'_old j h = ground (arith, offsets j)

  z'_new : (j : ℕ) → j ≤ cs → z' (cd + j) ≡ bytes + (src j - src 0)
  z'_new zero h = grind (arith, offsets (cd + 0), used)
  z'_new (suc j) h = grind (arith, offsets (cd + suc j))

  between : (j : ℕ) → j < cs → (src 0 ≤ src j) × (src j ≤ src (j + 1)) × (src (j + 1) ≤ src cs)
  between j h =
      let low : src 0 ≤ src (0 + j) = ascending src cs 0 j source_ordered (omega arith) in
      let high : src (j + 1) ≤ src (j + 1 + (cs - (j + 1))) =
        ascending src cs (j + 1) (cs - (j + 1)) source_ordered (omega arith) in
      (grind arith, source_ordered j h, grind arith)

  below : (j : ℕ) → j < cd → z (j + 1) ≤ bytes
  below j h =
      let high : z (j + 1) ≤ z (j + 1 + (cd - (j + 1))) =
        ascending z cd (j + 1) (cd - (j + 1)) ordered (omega arith) in
      grind arith

  old_records : records_from z' d' 0 cd ≡ records_from z d 0 cd
  old_records = records_from-cong z' d' z d 0 0 cd (λ j h.
      let a = 0 + j in
      let limit : z (a + 1) ≤ bytes = grind (arith, below j h) in
      let same : z' a ≡ z a = z'_old a (omega arith) in
      let same' : z' (a + 1) ≡ z (a + 1) = z'_old (a + 1) (omega arith) in
      rw (same, same')
        (slice-cong d' d (z a) (z a) (z (a + 1) - z a)
          (λ t less. ground (arith, copied (z a + t)))))

  new_bytes :
      (j t : ℕ)
      → j < cs
      → t < src (j + 1) - src j
      → d' (bytes + (src j - src 0) + t) ≡ e (src j + t)
  new_bytes j t h less =
      let (low, step, high) = between j h in
      let k = bytes + (src j - src 0) + t in
      let there : src 0 + (k - bytes) ≡ src j + t = omega arith in
      let lower : leb bytes k ≡ true = ground arith in
      let upper : ltb k (bytes + (src cs - src 0)) ≡ true = ground arith in
      copied k ∙ rw (lower, upper) (ap e there)

  new_records : records_from z' d' cd cs ≡ records_from src e 0 cs
  new_records = records_from-cong z' d' src e cd 0 cs (λ j h.
      let (low, step, high) = between j h in
      let start : z' (cd + j) ≡ bytes + (src j - src 0) = z'_new j (omega arith) in
      let size : z' (cd + j + 1) - z' (cd + j) ≡ src (j + 1) - src j =
        grind (arith, z'_new j (omega arith), z'_new (j + 1) (omega arith)) in
      let here : src (0 + j) ≡ src j = grind arith in
      let there : src (0 + j + 1) ≡ src (j + 1) = grind arith in
      rw (size, start, there, here)
        (slice-cong d' e (bytes + (src j - src 0)) (src j) (src (j + 1) - src j)
          (λ t less. new_bytes j t h less)))

  joined_records : records_from z' d' 0 (cd + cs) ≡ records_from z d 0 cd ++ records_from src e 0 cs
  joined_records =
      let split : records_from z' d' 0 (cd + cs)
          ≡ records_from z' d' 0 cd ++ records_from z' d' (0 + cd) cs =
        records_from-append z' d' 0 cd cs in
      grind (arith, split, old_records, new_records)

  joined_used : z' (cd + cs) ≡ bytes + (src cs - src 0)
  joined_used = z'_new cs (omega arith)

  joined_ordered : (i : ℕ) → i < cd + cs → z' i ≤ z' (i + 1)
  joined_ordered i h = elim (dec_lt i cd) [
    | yes low ↦ omega (arith, z'_old i (omega arith), z'_old (i + 1) (omega arith), ordered i low)
    | no high ↦
        let j = i - cd in
        let here : cd + j ≡ i = omega arith in
        grind (
          arith,
          z'_new j (omega arith),
          z'_new (j + 1) (omega arith),
          source_ordered j (omega arith),
          between j (omega arith),
        )
  ]

  pub joined_lem :
      (z' (cd + cs) ≡ bytes + (src cs - src 0))
      × ((i : ℕ) → i < cd + cs → z' i ≤ z' (i + 1))
      × (records_from z' d' 0 (cd + cs) ≡ records_from z d 0 cd ++ records_from src e 0 cs)
  joined_lem = (joined_used, joined_ordered, joined_records)
