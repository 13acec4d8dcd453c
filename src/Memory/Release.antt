-- ===== src/Memory/Release.antt =====
-- The destructors of src/memory/memory_reference.cpp, one after the other, and the release in
-- src/memory/memory_manager.cpp that they end in.
use m3bp.Prelude.{
  ℕ, ◌+◌, ◌<◌, ◌≤◌, ◌≡◌, refl, Option, some, List, [], ◌∷◌, ◌>>=◌, arith, word, length, count,
  count-nil, count-cons,
}
use m3bp.Memory.Manager.{MemoryManager, reference_to, destroy_locked, destroy_reference}
use m3bp.Memory.Lifetime.{Inv-nothing}
use m3bp.Memory.Locking.{RefInv, destroy_locked-Inv, destroy_reference-Inv}

-- A reference that is alive, by its object: a plain one or one that locks.
pub data Held : Type 0 where
  plain locked : ℕ → Held

abbrev pub plain_ones : List Held → List ℕ
plain_ones [] = []
plain_ones (plain a ∷ held) = a ∷ plain_ones held
plain_ones (locked a ∷ held) = plain_ones held

abbrev pub locked_ones : List Held → List ℕ
locked_ones [] = []
locked_ones (plain a ∷ held) = locked_ones held
locked_ones (locked a ∷ held) = a ∷ locked_ones held

abbrev pub destroy_one : Held → MemoryManager → Option MemoryManager
destroy_one (plain a) m = destroy_reference (reference_to a) m
destroy_one (locked a) m = destroy_locked (some a) m

-- The destructors of all references, in the order of the list.
unfoldable pub destroy_all : List Held → MemoryManager → Option MemoryManager
destroy_all [] m = some m
destroy_all (h ∷ held) m = do m' ← destroy_one h m; destroy_all held m'

count-locked_ones : (a : ℕ) (held : List Held) → count a (locked_ones held) ≤ length held
count-locked_ones a [] = omega (arith, count-nil a)
count-locked_ones a (plain b ∷ held) = omega (arith, count-locked_ones a held)
count-locked_ones a (locked b ∷ held) =
    ground (arith, count-locked_ones a held, count-cons a b (locked_ones held))

-- Under the counts of references, with fewer than 2 ^ 64 of them, destroying all references, plain
-- and locked in whatever order, meets no failed assert, and after it no object lives, none is
-- managed and the memory usage is 0.
pub no_leak :
    (held : List Held) (m : MemoryManager)
    → RefInv (plain_ones held) (locked_ones held) m
    → length held < word
    → (m' : MemoryManager) × (destroy_all held m ≡ some m')
      × (m'.objects ≡ [])
      × (m'.managed_objects ≡ [])
      × (m'.total_memory_usage ≡ 0)
unfolding destroy_all
no_leak [] m inv few =
    let (gone, unmanaged, unused) =
      Inv-nothing (λ a. count a [] + count a []) (λ a. count a []) m inv
        (λ a. omega (arith, count-nil a)) in
    (m, refl, gone, unmanaged, unused)
no_leak (plain a ∷ held) m inv few =
    let (m₁, e, inv₁) = destroy_reference-Inv (plain_ones held) (locked_ones held) a m inv in
    let (m₂, e', gone, unmanaged, unused) = no_leak held m₁ inv₁ (omega arith) in
    (m₂, rw e e', gone, unmanaged, unused)
no_leak (locked a ∷ held) m inv few =
    let (m₁, e, inv₁) =
      destroy_locked-Inv (plain_ones held) (locked_ones held) a m inv
        (omega (arith, count-locked_ones a held)) in
    let (m₂, e', gone, unmanaged, unused) = no_leak held m₁ inv₁ (omega arith) in
    (m₂, rw e e', gone, unmanaged, unused)
