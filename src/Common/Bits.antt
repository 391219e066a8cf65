-- ===== src/Common/Bits.antt =====
-- Single bits of a flag word, read off by division: the masks of `MessageFlag` in
-- liblhcluster/include/lhcluster/lhcluster/cluster.h are applied with `&` and `~`.
use Prim.Native.Nat.{
  ℕ, zero, suc, ◌+◌, ◌-◌, ◌*◌, ◌/◌, ◌%◌, ◌^◌, ◌≤◌, min, bit_and, digits, bit_and-bitwise,
}
use mathlib.Core.Path.{◌≡◌, refl}
use native.Mathlib.Omega.{arith}

-- `x & y`, with at most `steps` binary digits of `x` read
abbrev common_digits : (steps x y : ℕ) → ℕ
common_digits steps x y = digits (λ _. zero) min steps x y

-- Any two counts that reach the number give the same.
enough_steps : (x y p q : ℕ) → x ≤ p → x ≤ q → common_digits p x y ≡ common_digits q x y
enough_steps zero y zero zero h k = refl
enough_steps zero y (suc p) zero h k = refl
enough_steps zero y zero (suc q) h k = refl
enough_steps zero y (suc p) (suc q) h k = refl
enough_steps (suc x) y zero q h k = absurd (omega arith)
enough_steps (suc x) y (suc p) zero h k = absurd (omega arith)
enough_steps (suc x) y (suc p) (suc q) h k =
    let half : suc x / 2 ≤ x = omega arith in
    omega (arith, enough_steps (suc x / 2) (y / 2) p q (omega arith) (omega arith))

-- The lowest digit, and the digits above it.
pub bit_and-halves : (x y : ℕ) → bit_and x y ≡ min (x % 2) (y % 2) + bit_and (x / 2) (y / 2) * 2
bit_and-halves zero y = omega (arith, bit_and-bitwise zero y, bit_and-bitwise zero (y / 2))
bit_and-halves (suc x) y =
    let half = suc x / 2 in
    let tail = enough_steps half (y / 2) x half (omega arith) (omega arith) in
    omega (arith, tail, bit_and-bitwise half (y / 2), bit_and-bitwise (suc x) y)

no_bits : (steps x : ℕ) → x ≤ steps → bit_and x 0 ≡ 0
no_bits steps zero h = bit_and-bitwise 0 0
no_bits zero (suc x) h = absurd (omega arith)
no_bits (suc steps) (suc x) h =
    omega (arith, no_bits steps (suc x / 2) (omega arith), bit_and-halves (suc x) 0)

-- The masks of the two receipts, and of both.
pub bit_and_two : (x : ℕ) → bit_and x 2 ≡ x / 2 % 2 * 2
bit_and_two x = omega (
  arith,
  bit_and-halves x 2,
  bit_and-halves (x / 2) 1,
  no_bits (x / 2 / 2) (x / 2 / 2) (omega arith),
)

pub bit_and_four : (x : ℕ) → bit_and x 4 ≡ x / 4 % 2 * 4
bit_and_four x = omega (arith, bit_and-halves x 4, bit_and_two (x / 2))

pub bit_and_six : (x : ℕ) → bit_and x 6 ≡ x / 2 % 2 * 2 + x / 4 % 2 * 4
bit_and_six x = omega (
  arith,
  bit_and-halves x 6,
  bit_and-halves (x / 2) 3,
  bit_and-halves (x / 2 / 2) 1,
  no_bits (x / 2 / 2 / 2) (x / 2 / 2 / 2) (omega arith),
)

-- One bit cleared: it is gone, and the other one stays.
pub bit_and-not_two :
    (x : ℕ)
    → (bit_and x (2 ^ 64 - 1 - 2) / 2 % 2 ≡ 0) × (bit_and x (2 ^ 64 - 1 - 2) / 4 % 2 ≡ x / 4 % 2)
bit_and-not_two x =
    let a = bit_and-halves x (2 ^ 64 - 1 - 2) in
    let b = bit_and-halves (x / 2) ((2 ^ 64 - 1 - 2) / 2) in
    let c = bit_and-halves (x / 2 / 2) ((2 ^ 64 - 1 - 2) / 2 / 2) in
    (omega (arith, a, b), omega (arith, a, b, c))

pub bit_and-not_four :
    (x : ℕ)
    → (bit_and x (2 ^ 64 - 1 - 4) / 4 % 2 ≡ 0) × (bit_and x (2 ^ 64 - 1 - 4) / 2 % 2 ≡ x / 2 % 2)
bit_and-not_four x =
    let a = bit_and-halves x (2 ^ 64 - 1 - 4) in
    let b = bit_and-halves (x / 2) ((2 ^ 64 - 1 - 4) / 2) in
    let c = bit_and-halves (x / 2 / 2) ((2 ^ 64 - 1 - 4) / 2 / 2) in
    (omega (arith, a, b, c), omega (arith, a, b))
