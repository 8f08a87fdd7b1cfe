-- ===== src/Bits.antt =====
-- C's `&` and `|` on unsigned words: the laws that the masks of page table entries rest on.
-- The operations are the native ones, with masks such as `~PTE_W` written as numbers.
mod Step
pub use Step.{zero-bit_or, zero-bit_and}
use Step.{bit_or_step, bit_and_step}
use tp2_ronaldo_joaopedro.Common.{
  ℕ, zero, suc, ◌+◌, ◌-◌, ◌*◌, ◌/◌, ◌%◌, ◌^◌, ◌≤◌, ◌<◌, min, max, bit_and, bit_or, ◌≡◌, refl, ap,
  arith,
}

-- Each law goes from `x / 2` to `x`; the first argument of the worker bounds `x`.
with_zero : (n x : ℕ) → x ≤ n → (bit_or x 0 ≡ x) × (bit_and x 0 ≡ 0)
with_zero zero zero h = (refl, refl)
with_zero (suc n) zero h = (refl, refl)
with_zero zero (suc x) h = absurd (omega arith)
with_zero (suc n) (suc x) h =
    let half = with_zero n (suc x / 2) (omega arith) in
    omega (arith, bit_or_step (suc x) 0, bit_and_step (suc x) 0)

pub bit_or-zero : (x : ℕ) → bit_or x 0 ≡ x
bit_or-zero x = (with_zero x x (omega arith)).0

pub bit_and-zero : (x : ℕ) → bit_and x 0 ≡ 0
bit_and-zero x = (with_zero x x (omega arith)).1

-- The digits of a result, lowest apart from the rest.
pub half-bit_and : (a b : ℕ) → bit_and a b / 2 ≡ bit_and (a / 2) (b / 2)
half-bit_and a b = omega (arith, bit_and_step a b)

pub half-bit_or : (a b : ℕ) → bit_or a b / 2 ≡ bit_or (a / 2) (b / 2)
half-bit_or a b = omega (arith, bit_or_step a b)

pub digit-bit_and : (a b : ℕ) → bit_and a b % 2 ≡ min (a % 2) (b % 2)
digit-bit_and a b = omega (arith, bit_and_step a b)

pub digit-bit_or : (a b : ℕ) → bit_or a b % 2 ≡ max (a % 2) (b % 2)
digit-bit_or a b = omega (arith, bit_or_step a b)

-- Numbers with the same lowest digit and the same rest are equal.
same_digits : (x y : ℕ) → x / 2 ≡ y / 2 → x % 2 ≡ y % 2 → x ≡ y
same_digits x y h d = omega arith

and_regroup : (n a b c : ℕ) → a ≤ n → bit_and (bit_and a b) c ≡ bit_and a (bit_and b c)
and_regroup n zero b c h = rw (zero-bit_and b, zero-bit_and c, zero-bit_and (bit_and b c))
and_regroup zero (suc a) b c h = absurd (omega arith)
and_regroup (suc n) (suc a) b c h =
    same_digits _ _
      (rw
        (
          half-bit_and (bit_and (suc a) b) c,
          half-bit_and (suc a) b,
          half-bit_and (suc a) (bit_and b c),
          half-bit_and b c,
        )
        (and_regroup n (suc a / 2) (b / 2) (c / 2) (omega arith)))
      (omega (
        arith,
        digit-bit_and (bit_and (suc a) b) c,
        digit-bit_and (suc a) b,
        digit-bit_and (suc a) (bit_and b c),
        digit-bit_and b c,
      ))

-- Masks compose: `(a & b) & c` is `a & (b & c)`.
pub bit_and_assoc : (a b c : ℕ) → bit_and (bit_and a b) c ≡ bit_and a (bit_and b c)
bit_and_assoc a b c = and_regroup a a b c (omega arith)

and_over_or :
    (n a b c : ℕ) → a + b ≤ n → bit_and (bit_or a b) c ≡ bit_or (bit_and a c) (bit_and b c)
and_over_or n zero b c h = rw (zero-bit_or b, zero-bit_and c, zero-bit_or (bit_and b c))
and_over_or zero (suc a) b c h = absurd (omega arith)
and_over_or (suc n) (suc a) b c h =
    same_digits _ _
      (rw
        (
          half-bit_and (bit_or (suc a) b) c,
          half-bit_or (suc a) b,
          half-bit_or (bit_and (suc a) c) (bit_and b c),
          half-bit_and (suc a) c,
          half-bit_and b c,
        )
        (and_over_or n (suc a / 2) (b / 2) (c / 2) (omega arith)))
      (omega (
        arith,
        digit-bit_and (bit_or (suc a) b) c,
        digit-bit_or (suc a) b,
        digit-bit_or (bit_and (suc a) c) (bit_and b c),
        digit-bit_and (suc a) c,
        digit-bit_and b c,
      ))

-- A mask of a union is the union of the masks.
pub bit_and-bit_or : (a b c : ℕ) → bit_and (bit_or a b) c ≡ bit_or (bit_and a c) (bit_and b c)
bit_and-bit_or a b c = and_over_or (a + b) a b c (omega arith)

and_le_right : (n a b : ℕ) → a ≤ n → bit_and a b ≤ b
and_le_right n zero b h = omega (arith, zero-bit_and b)
and_le_right zero (suc a) b h = absurd (omega arith)
and_le_right (suc n) (suc a) b h =
    omega (arith, bit_and_step (suc a) b, and_le_right n (suc a / 2) (b / 2) (omega arith))

pub bit_and-le : (a b : ℕ) → bit_and a b ≤ b
bit_and-le a b = and_le_right a a b (omega arith)

or_bounds : (n a b : ℕ) → a ≤ n → (a ≤ bit_or a b) × (b ≤ bit_or a b)
or_bounds n zero b h = omega (arith, zero-bit_or b)
or_bounds zero (suc a) b h = absurd (omega arith)
or_bounds (suc n) (suc a) b h =
    omega (arith, bit_or_step (suc a) b, or_bounds n (suc a / 2) (b / 2) (omega arith))

-- A union holds both of its parts.
pub le-bit_or : (a b : ℕ) → (a ≤ bit_or a b) × (b ≤ bit_or a b)
le-bit_or a b = or_bounds a a b (omega arith)

pub low_zeros : (a m : ℕ) → bit_and a (m * 2) ≡ bit_and (a / 2) m * 2
low_zeros a m =
    let e : m * 2 / 2 ≡ m = omega arith in
    omega (arith, bit_and_step a (m * 2), ap (bit_and (a / 2)) e)

low_ones : (a m : ℕ) → bit_and a (m * 2 + 1) ≡ bit_and (a / 2) m * 2 + a % 2
low_ones a m =
    let e : (m * 2 + 1) / 2 ≡ m = omega arith in
    omega (arith, bit_and_step a (m * 2 + 1), ap (bit_and (a / 2)) e)

-- Masks of ten, twelve and twenty ones, and the page mask, as arithmetic.
ones_five : (a : ℕ) → bit_and a 0x1f ≡ a % 2 ^ 5
ones_five a = omega (
  arith,
  low_ones a 0xf,
  low_ones (a / 2) 0x7,
  low_ones (a / 2 / 2) 0x3,
  low_ones (a / 2 / 2 / 2) 0x1,
  low_ones (a / 2 / 2 / 2 / 2) 0,
  bit_and-zero (a / 2 / 2 / 2 / 2 / 2),
)

-- Five more ones above a mask.
ones_more : (a m : ℕ) → bit_and a (m * 32 + 31) ≡ bit_and (a / 32) m * 32 + a % 32
ones_more a m =
    let e1 : m * 32 + 31 ≡ (m * 16 + 15) * 2 + 1 = omega arith in
    let e2 : m * 16 + 15 ≡ (m * 8 + 7) * 2 + 1 = omega arith in
    let e3 : m * 8 + 7 ≡ (m * 4 + 3) * 2 + 1 = omega arith in
    let e4 : m * 4 + 3 ≡ (m * 2 + 1) * 2 + 1 = omega arith in
    let half5 : a / 2 / 2 / 2 / 2 / 2 ≡ a / 32 = omega arith in
    omega (
      arith,
      ap (bit_and a) e1,
      ap (bit_and (a / 2)) e2,
      ap (bit_and (a / 2 / 2)) e3,
      ap (bit_and (a / 2 / 2 / 2)) e4,
      ap (λ t. bit_and t m) half5,
      low_ones a (m * 16 + 15),
      low_ones (a / 2) (m * 8 + 7),
      low_ones (a / 2 / 2) (m * 4 + 3),
      low_ones (a / 2 / 2 / 2) (m * 2 + 1),
      low_ones (a / 2 / 2 / 2 / 2) m,
    )

-- `a & 0x3ff` and `a & 0xfff`.
pub bit_and_ten : (a : ℕ) → bit_and a 0x3ff ≡ a % 2 ^ 10
bit_and_ten a = omega (arith, ones_more a 31, ones_five (a / 32))

pub bit_and_low : (a : ℕ) → bit_and a 0xfff ≡ a % 4096
bit_and_low a = omega (arith, low_ones a 0x7ff, low_ones (a / 2) 0x3ff, bit_and_ten (a / 2 / 2))

bit_and_twenty : (a : ℕ) → bit_and a 0xfffff ≡ a % 2 ^ 20
bit_and_twenty a =
    omega (arith, ones_more a 0x7fff, ones_more (a / 32) 0x3ff, bit_and_ten (a / 32 / 32))

-- Four zeros below a mask.
zeros_more : (a m : ℕ) → bit_and a (m * 16) ≡ bit_and (a / 16) m * 16
zeros_more a m =
    let e1 : m * 16 ≡ m * 8 * 2 = omega arith in
    let e2 : m * 8 ≡ m * 4 * 2 = omega arith in
    let e3 : m * 4 ≡ m * 2 * 2 = omega arith in
    let half4 : a / 2 / 2 / 2 / 2 ≡ a / 16 = omega arith in
    omega (
      arith,
      ap (bit_and a) e1,
      ap (bit_and (a / 2)) e2,
      ap (bit_and (a / 2 / 2)) e3,
      ap (λ t. bit_and t m) half4,
      low_zeros a (m * 8),
      low_zeros (a / 2) (m * 4),
      low_zeros (a / 2 / 2) (m * 2),
      low_zeros (a / 2 / 2 / 2) m,
    )

-- `a & 0xfffff000`
pub bit_and_page : (a : ℕ) → bit_and a 0xfffff000 ≡ a / 4096 % 2 ^ 20 * 4096
bit_and_page a = omega (
  arith,
  zeros_more a 0xfffff00,
  zeros_more (a / 16) 0xfffff0,
  zeros_more (a / 16 / 16) 0xfffff,
  bit_and_twenty (a / 16 / 16 / 16),
)
