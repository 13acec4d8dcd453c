-- ===== src/Prelude/Table.antt =====
-- `std::unordered_map` with numbers for keys, as an association list.
use Prim.Native.Nat.{ℕ}
use mathlib.Core.Path.{◌≡◌, refl}
use mathlib.Core.List.{List, [], ◌∷◌}
use mathlib.Core.Option.{Option, none, some}
use native.Mathlib.Omega.{arith}
use m3bp.Prelude.Tests.{◌==◌, if◌then◌else◌}

module _ {ℓ} {V : Type ℓ} where
  unfoldable pub find : ℕ → List (ℕ × V) → Option V
  find k [] = none
  find k ((j, v) ∷ m) = if j == k then some v else find k m

  -- A write through the iterator that `find` returned; on a missing key it changes nothing.
  unfoldable pub put : ℕ → V → List (ℕ × V) → List (ℕ × V)
  put k v [] = []
  put k v ((j, w) ∷ m) = if j == k then (j, v) ∷ m else (j, w) ∷ put k v m

  unfoldable pub erase : ℕ → List (ℕ × V) → List (ℕ × V)
  erase k [] = []
  erase k ((j, w) ∷ m) = if j == k then m else (j, w) ∷ erase k m

  -- `emplace` keeps an entry that is there.
  unfoldable pub emplace : ℕ → V → List (ℕ × V) → List (ℕ × V)
  emplace k v m = elim (find k m) [ none ↦ (k, v) ∷ m | some _ ↦ m ]

  -- No key stands twice.
  abbrev pub Distinct : List (ℕ × V) → Type ℓ
  Distinct [] = Unit
  Distinct ((k, v) ∷ m) = (find k m ≡ none) × Distinct m

  pub emplace-none :
      (k : ℕ) (v : V) (m : List (ℕ × V)) → find k m ≡ none → emplace k v m ≡ (k, v) ∷ m
  unfolding emplace
  emplace-none k v m e = rw (e, emplace) refl

  pub find-cons :
      (k j : ℕ) (v : V) (m : List (ℕ × V))
      → find k ((j, v) ∷ m) ≡ (if j == k then some v else find k m)
  unfolding find
  find-cons k j v m = refl

  pub find-put :
      (k j : ℕ) (v w : V) (m : List (ℕ × V))
      → find k m ≡ some w
      → find j (put k v m) ≡ (if k == j then some v else find j m)
  unfolding find put
  find-put k j v w [] h = ground arith
  find-put k j v w ((i, u) ∷ m) h = ground (arith, find-put k j v w m)

  pub find-put-none :
      (k j : ℕ) (v : V) (m : List (ℕ × V)) → find j m ≡ none → find j (put k v m) ≡ none
  unfolding find put
  find-put-none k j v [] h = refl
  find-put-none k j v ((i, u) ∷ m) h = ground (arith, find-put-none k j v m)

  pub find-erase-none : (k j : ℕ) (m : List (ℕ × V)) → find j m ≡ none → find j (erase k m) ≡ none
  unfolding find erase
  find-erase-none k j [] h = refl
  find-erase-none k j ((i, u) ∷ m) h = ground (arith, find-erase-none k j m)

  pub find-erase :
      (k j : ℕ) (m : List (ℕ × V))
      → Distinct m
      → find j (erase k m) ≡ (if k == j then none else find j m)
  unfolding find erase
  find-erase k j [] d = ground arith
  find-erase k j ((i, u) ∷ m) d = ground (arith, find-erase k j m d.1)

  pub put-Distinct : (k : ℕ) (v : V) (m : List (ℕ × V)) → Distinct m → Distinct (put k v m)
  unfolding put
  put-Distinct k v [] d = tt
  put-Distinct k v ((i, u) ∷ m) d = ground (arith, find-put-none k i v m, put-Distinct k v m d.1)

  pub erase-Distinct : (k : ℕ) (m : List (ℕ × V)) → Distinct m → Distinct (erase k m)
  unfolding erase
  erase-Distinct k [] d = tt
  erase-Distinct k ((i, u) ∷ m) d = ground (arith, find-erase-none k i m, erase-Distinct k m d.1)

pub find-nil {ℓ} : (V : Type ℓ) (k : ℕ) → find {V = V} k [] ≡ none
unfolding find
find-nil V k = refl
