-- ===== src/Scheduler/Rounds.antt =====
-- The loops over the threads in src/scheduler/locality_manager.cpp.
use native.Mathlib.Nat.{mod-lt, mod-eq_of_lt, mod_self, mod-add-mod}
use m3bp.Prelude.{
  ℕ, zero, suc, ◌+◌, ◌-◌, ◌%◌, ◌<◌, ◌≡◌, ◌≢◌, refl, sym, ap, subst, ◌∙◌, Bool, true, false, none,
  some, List, ◌==◌, ltb, if◌then◌else◌, length, get_elem?, set, arith, length-set, Bool-cases,
  Option-cases, inl, inr,
}
use m3bp.Scheduler.LocalityManager.{
  Assigned, next_compact, compact_loop, next_scatter, use_unit, scatter_loop,
}
use m3bp.Scheduler.Stealing.{turn}
use m3bp.Scheduler.Mapping.{
  elim_true, elim_false, below_there, next_compact_lem, next_scatter_lem, total, total_found,
  total-set, IsAssigned, assign_lem,
}

-- From any node, full or not.
next_compact_found :
    (fuel j node t c : ℕ) (pu : List ℕ)
    → length pu < fuel
    → node < length pu
    → t < length pu
    → get_elem? pu t ≡ some c
    → 0 < c
    → (r : ℕ × ℕ) × (next_compact fuel j node pu ≡ some r) × (r.1 < length pu)
unfolding next_compact
next_compact_found zero j node t c pu enough h low e pos = elim enough [ ]
next_compact_found (suc fuel) j node t c pu enough h low e pos =
    elim (Option-cases (get_elem? pu node)) [
      | inl gone ↦ absurd (below_there pu node h gone)
      | inr (units, f) ↦
          let next = (node + 1) % length pu in
          let next_low = mod-lt (node + 1) {m = length pu} (omega arith) in
          let (k, in_turn, at) = turn next t (length pu) next_low low in
          let (r, g, below) =
            next_compact_lem fuel next k c pu next_low (omega arith) (rw at e) pos in
          elim (Bool-cases (j == units)) [
            | inl full ↦ (
              r,
              rw f (elim_true (j == units) (next_compact fuel 0 next pu) (some (j, node)) full ∙ g),
              below,
            )
            | inr free ↦ (
              (j, node),
              rw f (elim_false (j == units) (next_compact fuel 0 next pu) (some (j, node)) free),
              h,
            )
          ]
    ]

pub compact_loop_lem :
    (left i j node t c : ℕ) (pu : List ℕ) (a : Assigned)
    → node < length pu
    → t < length pu
    → get_elem? pu t ≡ some c
    → 0 < c
    → IsAssigned (length pu) i a
    → (a' : Assigned) × (compact_loop left i j node pu a ≡ some a')
      × IsAssigned (length pu) (i + left) a'
unfolding compact_loop
compact_loop_lem zero i j node t c pu a h low e pos ok =
    let same : i + 0 ≡ i = omega arith in (a, refl, rw same ok)
compact_loop_lem (suc left) i j node t c pu a h low e pos ok =
    let (r, f, below) =
      next_compact_found (length pu + 1) j node t c pu (omega arith) h low e pos in
    let (a₁, g, ok₁) = assign_lem (length pu) i r.1 a below ok in
    let (a₂, k, ok₂) = compact_loop_lem left (i + 1) (r.0 + 1) r.1 t c pu a₁ below low e pos ok₁ in
    let same : i + 1 + left ≡ i + suc left = omega arith in
    (a₂, rw (f, g) k, subst (λ n. IsAssigned (length pu) n a₂) same ok₂)

-- The threads placed since the units were last handed out anew have taken one each.
mod-step : (i n : ℕ) → 0 < n → (i + 1) % n ≢ 0 → (i + 1) % n ≡ i % n + 1
mod-step i n pos h = elim (Bool-cases (ltb (i % n + 1) n)) [
  | inl below ↦ sym (mod-add-mod i n 1) ∙ mod-eq_of_lt (ground arith)
  | inr end ↦
      let last : i % n + 1 ≡ n = ground (arith, mod-lt i pos) in
      absurd (h (sym (mod-add-mod i n 1) ∙ ap (λ x. x % n) last ∙ mod_self n))
]

if_case {ℓ κ} :
    {A : Type ℓ} (P : A → Type κ) (b : Bool) (x y : A)
    → (b ≡ true → P x)
    → (b ≡ false → P y)
    → P (if b then x else y)
if_case P true x y f g = f refl
if_case P false x y f g = g refl

-- One unit of a node with units left is taken.
take_unit :
    (node : ℕ) (units : List ℕ)
    → node < length units
    → 0 < total units
    → (at : ℕ) × (left : List ℕ) × (next_scatter (length units + 1) node units ≡ some at)
      × (at < length units)
      × (use_unit at units ≡ some left)
      × (length left ≡ length units)
      × (total left + 1 ≡ total units)
take_unit node units h pos =
    let (t, c, low, e, some_left) = total_found units pos in
    let (k, in_turn, at) = turn node t (length units) h low in
    let (found, n, f, below, g, some_here) =
      next_scatter_lem (length units + 1) node k c units h (omega arith) (rw at e) some_left in
    (
      found,
      set units found (n - 1),
      f,
      below,
      rw g refl,
      length-set units found (n - 1),
      total-set units found n g some_here,
    )

pub scatter_loop_lem :
    (left i node : ℕ) (pu remains : List ℕ) (a : Assigned)
    → node < length pu
    → length remains ≡ length pu
    → 0 < total pu
    → (i % total pu ≢ 0 → total remains + i % total pu ≡ total pu)
    → IsAssigned (length pu) i a
    → (a' : Assigned) × (scatter_loop (total pu) left i node pu remains a ≡ some a')
      × IsAssigned (length pu) (i + left) a'
unfolding scatter_loop
scatter_loop_lem zero i node pu remains a h size pos inv ok =
    let same : i + 0 ≡ i = omega arith in (a, refl, rw same ok)
scatter_loop_lem (suc left) i node pu remains a h size pos inv ok =
    let anew = i % total pu == 0 in
    let units = if anew then pu else remains in
    let from = if anew then 0 else node in
    let units_size : length units ≡ length pu =
      if_case (λ (l : List ℕ). length l ≡ length pu) anew pu remains (λ _. refl) (λ _. size) in
    let from_low : from < length pu =
      if_case (λ n. n < length pu) anew 0 node (λ _. omega arith) (λ _. h) in
    let units_total : total units + i % total pu ≡ total pu =
      if_case (λ (l : List ℕ). total l + i % total pu ≡ total pu) anew pu remains
        (λ e. ground arith) (λ e. inv (ground arith)) in
    let (at, rest, f, below, u, rest_size, rest_total) =
      take_unit from units (omega (arith, units_size, from_low))
        (omega (arith, units_total, mod-lt i pos)) in
    let (a₁, g, ok₁) = assign_lem (length pu) i at a (omega (arith, below, units_size)) ok in
    let (a₂, k, ok₂) =
      scatter_loop_lem left (i + 1) ((at + 1) % length pu) pu rest a₁
        (mod-lt (at + 1) (omega arith)) (rest_size ∙ units_size) pos
        (λ ne. omega (arith, mod-step i (total pu) pos ne, units_total, rest_total)) ok₁ in
    let same : i + 1 + left ≡ i + suc left = omega arith in
    let more : (total pu == 0) ≡ false = ground arith in
    (
      a₂,
      elim_false (total pu == 0) none _ more ∙ rw (f, g, u) k,
      subst (λ n. IsAssigned (length pu) n a₂) same ok₂,
    )
