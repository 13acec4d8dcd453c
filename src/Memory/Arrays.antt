-- ===== src/Memory/Arrays.antt =====
-- Arrays in a buffer of src/memory/serialized_buffer.cpp (src/common/array_ref.hpp), of bytes or of
-- words. `none` is an access out of range.
use m3bp.Prelude.{
  ℕ, zero, suc, ◌+◌, ◌-◌, ◌<◌, ◌≤◌, ◌≡◌, refl, Option, none, some, List, [], ◌∷◌, ltb, leb, ◌==◌,
  ◌&&◌, if◌then◌else◌, arith,
}

pub record Array : Type 0 where
  pub size : ℕ
  pub at : ℕ → ℕ

abbrev pub read : Array → ℕ → Option ℕ
read a i = if ltb i a.size then some (a.at i) else none

abbrev pub write : ℕ → ℕ → Array → Option Array
write i value a =
    if ltb i a.size then some (record a { at = λ k. if i == k then value else a.at k }) else none

-- `memcpy(dst + at, src + from, n)`, for arrays that do not overlap.
unfoldable pub copy : (at : ℕ) → Array → (from n : ℕ) → Array → Option Array
copy at src from n dst =
    if leb (from + n) src.size && leb (at + n) dst.size
    then some (record dst {
      at = λ k. if leb at k && ltb k (at + n) then src.at (from + (k - at)) else dst.at k;
    })
    else none

-- The `n` bytes from `from` on.
abbrev pub slice : (ℕ → ℕ) → (from n : ℕ) → List ℕ
slice f from zero = []
slice f from (suc n) = f from ∷ slice f (from + 1) n

pub slice-cong :
    (f g : ℕ → ℕ) (a b n : ℕ)
    → ((j : ℕ) → j < n → f (a + j) ≡ g (b + j))
    → slice f a n ≡ slice g b n
slice-cong f g a b zero h = refl
slice-cong f g a b (suc n) h =
    let head : f a ≡ g b = grind (arith, h 0 (omega arith)) in
    let tail : slice f (a + 1) n ≡ slice g (b + 1) n =
      slice-cong f g (a + 1) (b + 1) n (λ j k. grind (arith, h (suc j) (omega arith))) in
    cc

pub copy_lem :
    (at from n : ℕ) (src dst : Array)
    → from + n ≤ src.size
    → at + n ≤ dst.size
    → (dst' : Array) × (copy at src from n dst ≡ some dst')
      × (dst'.size ≡ dst.size)
      × ((k : ℕ)
          → dst'.at k ≡ (if leb at k && ltb k (at + n) then src.at (from + (k - at)) else dst.at k))
unfolding copy
copy_lem at from n src dst h g = (_, ground arith, refl, λ k. refl)

pub read_lem : (a : Array) (i : ℕ) → i < a.size → read a i ≡ some (a.at i)
read_lem a i h = ground arith

pub write_lem :
    (i value : ℕ) (a : Array)
    → i < a.size
    → write i value a ≡ some (record a { at = λ k. if i == k then value else a.at k })
write_lem i value a h = ground arith
