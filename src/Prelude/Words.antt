-- ===== src/Prelude/Words.antt =====
-- Arithmetic of `std::size_t`, and the masks that round to a power of two.
use Prim.Native.Nat.{
  ℕ, zero, suc, ◌+◌, ◌-◌, ◌*◌, ◌/◌, ◌%◌, ◌^◌, ◌≤◌, ◌<◌, min, bit_and, digits, bit_and-bitwise,
  bit_xor, bit_xor-bitwise, differ,
}
use mathlib.Core.Path.{◌≡◌, refl, ◌∙◌, sym}
use native.Mathlib.Omega.{arith}
use native.Mathlib.Nat.{pow-suc}
use m3bp.Prelude.Tests.{word}

infixl 65 ◌+w◌ ◌-w◌
infixl 70 ◌*w◌
-- Sums, differences and products of `std::size_t`.
abbrev pub ◌+w◌ : ℕ → ℕ → ℕ
a +w b = (a + b) % word

abbrev pub ◌-w◌ : ℕ → ℕ → ℕ
a -w b = (a + (word - b)) % word

abbrev pub ◌*w◌ : ℕ → ℕ → ℕ
a *w b = (a * b) % word

-- The digits of a conjunction do not depend on the bound that they are computed with.
conj : ℕ → ℕ → ℕ → ℕ
conj fuel a b = digits (λ _. zero) min fuel a b

conj-fuel : (f g a b : ℕ) → a ≤ f → a ≤ g → conj f a b ≡ conj g a b
unfolding conj
conj-fuel f g zero b h k = zeros f ∙ sym (zeros g)
  where
    zeros : (f : ℕ) → digits (λ _. zero) min f zero b ≡ zero
    zeros zero = refl
    zeros (suc f) = refl
conj-fuel zero g (suc a) b h k = absurd (omega arith)
conj-fuel (suc f) zero (suc a) b h k = absurd (omega arith)
conj-fuel (suc f) (suc g) (suc a) b h k =
    omega (arith, conj-fuel f g (suc a / 2) (b / 2) (omega arith) (omega arith))

-- One binary digit at a time.
pub bit_and-halves : (a b : ℕ) → bit_and a b ≡ 2 * bit_and (a / 2) (b / 2) + min (a % 2) (b % 2)
unfolding conj
bit_and-halves zero b = omega (arith, bit_and-bitwise 0 b, bit_and-bitwise 0 (b / 2))
bit_and-halves (suc a) b = omega (
  arith,
  bit_and-bitwise (suc a) b,
  bit_and-bitwise (suc a / 2) (b / 2),
  conj-fuel a (suc a / 2) (suc a / 2) (b / 2) (omega arith) (omega arith),
)

-- A mask of `k` ones keeps a number that it covers.
pub bit_and-ones : (k a m : ℕ) → m + 1 ≡ 2 ^ k → a ≤ m → bit_and a m ≡ a
bit_and-ones zero a m e h =
    let x : a ≡ 0 = omega arith in let y : m ≡ 0 = omega arith in rw (x, y) refl
bit_and-ones (suc k) a m e h = omega (
  arith,
  pow-suc 2 k,
  bit_and-halves a m,
  bit_and-ones k (a / 2) (m / 2) (omega (arith, pow-suc 2 k)) (omega arith),
)

-- The masks of `align_ceil`: a power of two less one, complemented.
pub bit_and-mask16 : (x : ℕ) → x < word → bit_and x (word - 16) ≡ x - x % 16
bit_and-mask16 x h = omega (
  arith,
  bit_and-halves x (word - 16),
  bit_and-halves (x / 2) ((word - 16) / 2),
  bit_and-halves (x / 2 / 2) ((word - 16) / 2 / 2),
  bit_and-halves (x / 2 / 2 / 2) ((word - 16) / 2 / 2 / 2),
  bit_and-ones 60 (x / 2 / 2 / 2 / 2) ((word - 16) / 2 / 2 / 2 / 2) refl (omega arith),
)

pub bit_and-mask8 : (x : ℕ) → x < word → bit_and x (word - 8) ≡ x - x % 8
bit_and-mask8 x h = omega (
  arith,
  bit_and-halves x (word - 8),
  bit_and-halves (x / 2) ((word - 8) / 2),
  bit_and-halves (x / 2 / 2) ((word - 8) / 2 / 2),
  bit_and-ones 61 (x / 2 / 2 / 2) ((word - 8) / 2 / 2 / 2) refl (omega arith),
)

-- Digit by digit, with digits below 2, a number of `k` binary digits comes out.
digits-lt :
    (f : ℕ → ℕ → ℕ)
    → ((x y : ℕ) → x < 2 → y < 2 → f x y < 2)
    → (n k a b : ℕ) → a < 2 ^ k
    → b < 2 ^ k
    → digits (λ b. b) f n a b < 2 ^ k
digits-lt f small zero k a b h g = g
digits-lt f small (suc n) k zero b h g = g
digits-lt f small (suc n) zero (suc a) b h g = absurd (omega arith)
digits-lt f small (suc n) (suc k) (suc a) b h g = omega (
  arith,
  pow-suc 2 k,
  digits-lt f small n k (suc a / 2) (b / 2) (omega (arith, pow-suc 2 k))
      (omega (arith, pow-suc 2 k)),
  small (suc a % 2) (b % 2) (omega arith) (omega arith),
)

differ-lt : (x y : ℕ) → x < 2 → y < 2 → differ x y < 2
differ-lt zero y h g = g
differ-lt (suc x) zero h g = h
differ-lt (suc x) (suc y) h g = differ-lt x y (omega arith) (omega arith)

pub bit_xor-lt : (k a b : ℕ) → a < 2 ^ k → b < 2 ^ k → bit_xor a b < 2 ^ k
bit_xor-lt k a b h g = rw (bit_xor-bitwise a b) (digits-lt differ differ-lt a k a b h g)
