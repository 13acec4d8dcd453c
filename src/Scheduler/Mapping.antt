-- ===== src/Scheduler/Mapping.antt =====
-- The searches of src/scheduler/locality_manager.cpp for a node with room come to an end, and a
-- thread is put on the node found.
use native.Mathlib.Nat.{mod-lt, mod-eq_of_lt, mod-add-mod}
use m3bp.Prelude.{
  ℕ, zero, suc, ◌+◌, ◌-◌, ◌%◌, ◌<◌, ◌≡◌, refl, ap, ◌∙◌, Bool, true, false, none, some, List, [],
  ◌∷◌, ◌++◌, ◌==◌, length, get_elem?, set, arith, length-append, Bool-cases, Option-cases, inl, inr,
}
use m3bp.Scheduler.Operations.{push_queue}
use m3bp.Scheduler.LocalityManager.{
  Assigned, assign, next_compact, next_scatter, accumulate, total_pu_count,
}

pub elim_true {ℓ} :
    {A : Type ℓ} (b : Bool) (x y : A) → b ≡ true → elim b [ true ↦ x | false ↦ y ] ≡ x
elim_true true x y e = refl
elim_true false x y e = absurd (ground arith)

pub elim_false {ℓ} :
    {A : Type ℓ} (b : Bool) (x y : A) → b ≡ false → elim b [ true ↦ x | false ↦ y ] ≡ y
elim_false true x y e = absurd (ground arith)
elim_false false x y e = refl

pub below_there {ℓ} : {A : Type ℓ} (l : List A) (i : ℕ) → i < length l → get_elem? l i ≡ none → ⊥
below_there [] i h e = elim h [ ]
below_there (x ∷ l) zero h e = ground arith
below_there (x ∷ l) (suc i) h e = below_there l i (omega arith) e

-- From an empty node, the search finds one with units within the turn that it needs.
pub next_compact_lem :
    (fuel node k c : ℕ) (pu : List ℕ)
    → node < length pu
    → k < fuel
    → get_elem? pu ((node + k) % length pu) ≡ some c
    → 0 < c
    → (r : ℕ × ℕ) × (next_compact fuel 0 node pu ≡ some r) × (r.1 < length pu)
unfolding next_compact
next_compact_lem zero node k c pu h low e pos = elim low [ ]
next_compact_lem (suc fuel) node zero c pu h low e pos =
    let none_more : node + 0 ≡ node = omega arith in
    let at : (node + 0) % length pu ≡ node = ap (λ x. x % length pu) none_more ∙ mod-eq_of_lt h in
    let f : get_elem? pu node ≡ some c = rw at at e in ((0, node), rw f (ground arith), h)
next_compact_lem (suc fuel) node (suc k) c pu h low e pos =
    elim (Option-cases (get_elem? pu node)) [
      | inl gone ↦ absurd (below_there pu node h gone)
      | inr (units, f) ↦
          let next = (node + 1) % length pu in
          let there : (next + k) % length pu ≡ (node + suc k) % length pu =
            mod-add-mod (node + 1) (length pu) k ∙ ap (λ x. x % length pu) (omega arith) in
          let (r, g, low') =
            next_compact_lem fuel next k c pu (mod-lt (node + 1) (omega arith)) (omega arith)
              (rw there e) pos in
          elim (Bool-cases (0 == units)) [
            | inl full ↦ (
              r,
              rw f (elim_true (0 == units) (next_compact fuel 0 next pu) (some (0, node)) full ∙ g),
              low',
            )
            | inr free ↦ (
              (0, node),
              rw f (elim_false (0 == units) (next_compact fuel 0 next pu) (some (0, node)) free),
              h,
            )
          ]
    ]

pub next_scatter_lem :
    (fuel node k c : ℕ) (remains : List ℕ)
    → node < length remains
    → k < fuel
    → get_elem? remains ((node + k) % length remains) ≡ some c
    → 0 < c
    → (at units : ℕ) × (next_scatter fuel node remains ≡ some at)
      × (at < length remains)
      × (get_elem? remains at ≡ some units)
      × (0 < units)
unfolding next_scatter
next_scatter_lem zero node k c remains h low e pos = elim low [ ]
next_scatter_lem (suc fuel) node zero c remains h low e pos =
    let none_more : node + 0 ≡ node = omega arith in
    let at : (node + 0) % length remains ≡ node =
      ap (λ x. x % length remains) none_more ∙ mod-eq_of_lt h in
    let f : get_elem? remains node ≡ some c = rw at at e in
    (node, c, rw f (ground arith), h, f, pos)
next_scatter_lem (suc fuel) node (suc k) c remains h low e pos =
    elim (Option-cases (get_elem? remains node)) [
      | inl gone ↦ absurd (below_there remains node h gone)
      | inr (units, f) ↦
          let next = (node + 1) % length remains in
          let there : (next + k) % length remains ≡ (node + suc k) % length remains =
            mod-add-mod (node + 1) (length remains) k
            ∙ ap (λ x. x % length remains) (omega arith) in
          let (at, units', g, below, has, some_left) =
            next_scatter_lem fuel next k c remains (mod-lt (node + 1) (omega arith)) (omega arith)
              (rw there e) pos in
          elim (Bool-cases (units == 0)) [
            | inl full ↦ (
              at,
              units',
              rw f (elim_true (units == 0) (next_scatter fuel next remains) (some node) full ∙ g),
              below,
              has,
              some_left,
            )
            | inr free ↦ (
              node,
              units,
              rw f (elim_false (units == 0) (next_scatter fuel next remains) (some node) free),
              h,
              f,
              ground arith,
            )
          ]
    ]

abbrev pub total : List ℕ → ℕ
total [] = 0
total (n ∷ ns) = n + total ns

accumulate_lem :
    (sum : ℕ) (l : List ℕ) → sum + total l < 2147483648 → accumulate sum l ≡ sum + total l
accumulate_lem sum [] small = omega arith
accumulate_lem sum (n ∷ l) small =
    let fits : (sum + n) % 4294967296 ≡ sum + n = omega arith in
    rw fits (accumulate_lem (sum + n) l (omega arith) ∙ omega arith)

-- The number of processing units, if an `int` holds it.
pub total_pu_count_lem : (l : List ℕ) → total l < 2147483648 → total_pu_count l ≡ total l
unfolding total_pu_count
total_pu_count_lem l small = ground (arith, accumulate_lem 0 l (omega arith))

pub total_found :
    (l : List ℕ) → 0 < total l → (t c : ℕ) × (t < length l) × (get_elem? l t ≡ some c) × (0 < c)
total_found [] h = elim h [ ]
total_found (zero ∷ l) h =
    let (t, c, below, e, pos) = total_found l (omega arith) in (suc t, c, omega arith, e, pos)
total_found (suc n ∷ l) h = (0, suc n, omega arith, refl, omega arith)

pub total-set :
    (l : List ℕ) (i c : ℕ) → get_elem? l i ≡ some c → 0 < c → total (set l i (c - 1)) + 1 ≡ total l
total-set [] i c e pos = absurd (ground arith)
total-set (n ∷ l) zero c e pos = ground arith
total-set (n ∷ l) (suc i) c e pos = omega (arith, total-set l i c e pos)

length-push_queue :
    (i x : ℕ) (qs : List (List ℕ))
    → i < length qs
    → (rs : List (List ℕ)) × (push_queue i x qs ≡ some rs) × (length rs ≡ length qs)
unfolding push_queue
length-push_queue i x [] h = elim h [ ]
length-push_queue zero x (q ∷ qs) h = (_, refl, refl)
length-push_queue (suc i) x (q ∷ qs) h =
    let (rs, e, s) = length-push_queue i x qs (omega arith) in (q ∷ rs, rw e refl, ap suc s)

-- Each thread so far is on one of `n` nodes.
abbrev pub AllBelow : ℕ → List ℕ → Type 0
AllBelow n [] = Unit
AllBelow n (x ∷ xs) = (x < n) × AllBelow n xs

pub AllBelow-snoc : (n x : ℕ) (xs : List ℕ) → x < n → AllBelow n xs → AllBelow n (xs ++ x ∷ [])
AllBelow-snoc n x [] h k = (h, tt)
AllBelow-snoc n x (y ∷ ys) h k = (k.0, AllBelow-snoc n x ys h k.1)

pub record IsAssigned (n threads : ℕ) (a : Assigned) : Type 0 where
  pub nodes : AllBelow n a.threads
  pub all : length a.threads ≡ threads
  pub shaped : length a.workers ≡ n

pub assign_lem :
    (n threads node : ℕ) (a : Assigned)
    → node < n
    → IsAssigned n threads a
    → (a' : Assigned) × (assign node threads a ≡ some a') × IsAssigned n (threads + 1) a'
unfolding assign
assign_lem n threads node a h ok =
    let (ws, e, s) = length-push_queue node threads a.workers (omega (arith, ok.shaped)) in
    (
      record { threads = a.threads ++ node ∷ []; workers = ws },
      rw e refl,
      record {
        nodes = AllBelow-snoc n node a.threads h ok.nodes;
        all = omega (arith, length-append a.threads (node ∷ []), ok.all);
        shaped = s ∙ ok.shaped;
      },
    )
