-- ===== src/Memory/Bytes.antt =====
-- Words of 8 bytes in an array of bytes, the lowest byte first (a little-endian machine), as
-- src/tasks/shuffle reads and writes them through a pointer to size_type.
use m3bp.Prelude.{
  ℕ, zero, suc, ◌+◌, ◌*◌, ◌/◌, ◌%◌, ◌<◌, ◌≤◌, ◌≡◌, refl, ap, subst, ◌∙◌, ◌^◌, ◌⊎◌, inl, inr, true,
  Option, none, some, List, [], ◌∷◌, ◌++◌, length, leb, ◌==◌, if◌then◌else◌, arith, word,
}
use native.Mathlib.Nat.{pow-suc}
use m3bp.Memory.Arrays.{Array, slice}

-- The bytes of a word.
abbrev pub word_bytes : (n value : ℕ) → List ℕ
word_bytes zero value = []
word_bytes (suc n) value = value % 256 ∷ word_bytes n (value / 256)

-- The array from `p` on starts with these bytes.
abbrev pub Holds : (ℕ → ℕ) → ℕ → List ℕ → Type 0
Holds f p [] = Unit
Holds f p (b ∷ bytes) = (f p ≡ b) × Holds f (p + 1) bytes

-- Bytes put into an array.
abbrev pub put_bytes : ℕ → List ℕ → (ℕ → ℕ) → ℕ → ℕ
put_bytes p [] f = f
put_bytes p (b ∷ bytes) f = put_bytes (p + 1) bytes (λ k. if p == k then b else f k)

unfoldable pub write_word : (at value : ℕ) → Array → Option Array
write_word at value a =
    if leb (at + 8) a.size
    then some (record a { at = put_bytes at (word_bytes 8 value) a.at })
    else none

abbrev pub word_at : (n : ℕ) → (ℕ → ℕ) → ℕ → ℕ
word_at zero f p = 0
word_at (suc n) f p = f p + 256 * word_at n f (p + 1)

unfoldable pub read_word : Array → ℕ → Option ℕ
read_word a at = if leb (at + 8) a.size then some (word_at 8 a.at at) else none

pub word_at-Holds :
    (n : ℕ) (f : ℕ → ℕ) (p value : ℕ)
    → value < 256 ^ n
    → Holds f p (word_bytes n value)
    → word_at n f p ≡ value
word_at-Holds zero f p value small h = omega arith
word_at-Holds (suc n) f p value small h =
    let rest : word_at n f (p + 1) ≡ value / 256 =
      word_at-Holds n f (p + 1) (value / 256) (omega (arith, pow-suc 256 n)) h.1 in
    omega (arith, h.0)

-- Bytes that are not written stay.
pub put_bytes_outside :
    (p : ℕ) (bytes : List ℕ) (f : ℕ → ℕ) (k : ℕ)
    → (k < p) ⊎ (p + length bytes ≤ k)
    → put_bytes p bytes f k ≡ f k
put_bytes_outside p [] f k h = refl
put_bytes_outside p (b ∷ bytes) f k h =
    put_bytes_outside (p + 1) bytes (λ j. if p == j then b else f j) k
      (elim h [ inl a ↦ inl (omega arith) | inr a ↦ inr (omega arith) ])
    ∙ elim h [ inl a ↦ ground arith | inr a ↦ ground arith ]

pub put_bytes-Holds : (p : ℕ) (bytes : List ℕ) (f : ℕ → ℕ) → Holds (put_bytes p bytes f) p bytes
put_bytes-Holds p [] f = tt
put_bytes-Holds p (b ∷ bytes) f = (
  put_bytes_outside (p + 1) bytes (λ j. if p == j then b else f j) p (inl (omega arith))
      ∙ ground arith,
  put_bytes-Holds (p + 1) bytes (λ j. if p == j then b else f j),
)

pub Holds-same :
    (f g : ℕ → ℕ) (p : ℕ) (bytes : List ℕ)
    → ((k : ℕ) → p ≤ k → k < p + length bytes → f k ≡ g k)
    → Holds g p bytes
    → Holds f p bytes
Holds-same f g p [] same h = tt
Holds-same f g p (b ∷ bytes) same h = (
  same p (omega arith) (omega arith) ∙ h.0,
  Holds-same f g (p + 1) bytes (λ k low high. same k (omega arith) (omega arith)) h.1,
)

pub Holds-append :
    (f : ℕ → ℕ) (p : ℕ) (xs ys : List ℕ)
    → Holds f p xs
    → Holds f (p + length xs) ys
    → Holds f p (xs ++ ys)
Holds-append f p [] ys h g = subst (λ (q : ℕ). Holds f q ys) (omega arith) g
Holds-append f p (x ∷ xs) ys h g =
    (h.0, Holds-append f (p + 1) xs ys h.1 (subst (λ (q : ℕ). Holds f q ys) (omega arith) g))

pub Holds-split :
    (f : ℕ → ℕ) (p : ℕ) (xs ys : List ℕ)
    → Holds f p (xs ++ ys)
    → Holds f p xs × Holds f (p + length xs) ys
Holds-split f p [] ys h = (tt, subst (λ (q : ℕ). Holds f q ys) (omega arith) h)
Holds-split f p (x ∷ xs) ys h =
    let (rest, tail) = Holds-split f (p + 1) xs ys h.1 in
    ((h.0, rest), subst (λ (q : ℕ). Holds f q ys) (omega arith) tail)

pub length-slice : (f : ℕ → ℕ) (a n : ℕ) → length (slice f a n) ≡ n
length-slice f a zero = refl
length-slice f a (suc n) = ap suc (length-slice f (a + 1) n)

pub Holds-slice :
    (f g : ℕ → ℕ) (p a n : ℕ) → ((j : ℕ) → j < n → f (p + j) ≡ g (a + j)) → Holds f p (slice g a n)
Holds-slice f g p a zero h = tt
Holds-slice f g p a (suc n) h = (
  grind (arith, h 0 (omega arith)),
  Holds-slice f g (p + 1) (a + 1) n (λ j less. grind (arith, h (suc j) (omega arith))),
)

pub slice-Holds : (f : ℕ → ℕ) (p : ℕ) (xs : List ℕ) → Holds f p xs → slice f p (length xs) ≡ xs
slice-Holds f p [] h = refl
slice-Holds f p (x ∷ xs) h =
    let head : f p ≡ x = h.0 in
    let tail : slice f (p + 1) (length xs) ≡ xs = slice-Holds f (p + 1) xs h.1 in cc

pub write_word_lem :
    (at value : ℕ) (a : Array)
    → at + 8 ≤ a.size
    → write_word at value a ≡ some (record a { at = put_bytes at (word_bytes 8 value) a.at })
unfolding write_word
write_word_lem at value a h = ground arith

pub read_word_lem :
    (a : Array) (at value : ℕ)
    → at + 8 ≤ a.size
    → value < word
    → Holds a.at at (word_bytes 8 value)
    → read_word a at ≡ some value
unfolding read_word
read_word_lem a at value h small held =
    let fits : leb (at + 8) a.size ≡ true = ground arith in
    rw fits (ap some (word_at-Holds 8 a.at at value small held))

pub slice_at :
    (f g : ℕ → ℕ) (p a n : ℕ) → Holds f p (slice g a n) → (j : ℕ) → j < n → f (p + j) ≡ g (a + j)
slice_at f g p a zero h j less = absurd (omega arith)
slice_at f g p a (suc n) h zero less = let head : f p ≡ g a = h.0 in grind arith
slice_at f g p a (suc n) h (suc j) less =
    let rest : f (p + 1 + j) ≡ g (a + 1 + j) = slice_at f g (p + 1) (a + 1) n h.1 j (omega arith) in
    grind arith
