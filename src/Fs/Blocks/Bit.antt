-- ===== src/Fs/Blocks/Bit.antt =====
-- Single bits of a word: tested by `x & (1 << k)`, set by `x | (1 << k)` and cleared in a byte by
-- `x & ~(1 << k)`.
use tp2_ronaldo_joaopedro.Common.{
  ℕ, zero, suc, ◌-◌, ◌*◌, ◌/◌, ◌%◌, ◌^◌, ◌<◌, ◌≤◌, min, max, bit_and, bit_or, ◌≡◌, refl, ap, sym,
  ◌∙◌, arith, ◌==◌, if◌then◌else◌, Bool-cases, inl, inr,
}
use tp2_ronaldo_joaopedro.Bits.{
  half-bit_and, half-bit_or, digit-bit_and, digit-bit_or, bit_and-zero, low_zeros,
}

-- Bit `k` of `x`.
abbrev pub bit : ℕ → ℕ → ℕ
bit x zero = x % 2
bit x (suc k) = bit (x / 2) k

pub bit-lt : (x k : ℕ) → bit x k < 2
bit-lt x zero = omega arith
bit-lt x (suc k) = bit-lt (x / 2) k

pub bit-bit_and : (a b k : ℕ) → bit (bit_and a b) k ≡ min (bit a k) (bit b k)
bit-bit_and a b zero = digit-bit_and a b
bit-bit_and a b (suc k) = ap (λ t. bit t k) (half-bit_and a b) ∙ bit-bit_and (a / 2) (b / 2) k

pub bit-bit_or : (a b k : ℕ) → bit (bit_or a b) k ≡ max (bit a k) (bit b k)
bit-bit_or a b zero = digit-bit_or a b
bit-bit_or a b (suc k) = ap (λ t. bit t k) (half-bit_or a b) ∙ bit-bit_or (a / 2) (b / 2) k

pub power_pos : (k : ℕ) → 0 < 2 ^ k
power_pos zero = omega arith
power_pos (suc k) = omega (arith, power_pos k)

bit-zero : (k : ℕ) → bit 0 k ≡ 0
bit-zero zero = refl
bit-zero (suc k) = bit-zero k

bit-power : (j k : ℕ) → bit (2 ^ j) k ≡ (if j == k then 1 else 0)
bit-power zero zero = refl
bit-power zero (suc k) = ground (arith, bit-zero k)
bit-power (suc j) zero = ground arith
bit-power (suc j) (suc k) =
    let e : 2 ^ suc j / 2 ≡ 2 ^ j = omega arith in
    ap (λ t. bit t k) e ∙ ground (arith, bit-power j k)

bit-ones : (n k : ℕ) → k < n → bit (2 ^ n - 1) k ≡ 1
bit-ones zero k h = absurd (omega arith)
bit-ones (suc n) zero h = omega (arith, power_pos n)
bit-ones (suc n) (suc k) h =
    let e : (2 ^ suc n - 1) / 2 ≡ 2 ^ n - 1 = omega (arith, power_pos n) in
    ap (λ t. bit t k) e ∙ bit-ones n k (omega arith)

low_digit : (x : ℕ) → bit_and x 1 ≡ x % 2
low_digit x = omega (arith, half-bit_and x 1, digit-bit_and x 1, bit_and-zero (x / 2))

-- `x & (1 << k)` is 0 just if the bit is.
pub bit_and-power : (x k : ℕ) → bit_and x (2 ^ k) ≡ bit x k * 2 ^ k
bit_and-power x zero = let e = low_digit x in omega (arith, e)
bit_and-power x (suc k) =
    let e : 2 ^ suc k ≡ 2 ^ k * 2 = omega arith in
    let twice : bit (x / 2) k * (2 ^ k * 2) ≡ bit (x / 2) k * 2 ^ k * 2 = omega arith in
    ap (bit_and x) e
    ∙ low_zeros x (2 ^ k)
    ∙ ap (λ t. t * 2) (bit_and-power (x / 2) k)
    ∙ sym twice
    ∙ ap (λ t. bit (x / 2) k * t) (sym e)

pub unset_iff : (x k : ℕ) → (bit_and x (2 ^ k) == 0) ≡ (bit x k == 0)
unset_iff x k = elim (Bool-cases (bit x k == 0)) [
  | inl unset ↦
      let z : bit x k ≡ 0 = ground (arith, unset) in
      let none_set : bit_and x (2 ^ k) ≡ 0 * 2 ^ k = bit_and-power x k ∙ ap (λ t. t * 2 ^ k) z in
      rw unset (ground (arith, none_set))
  | inr set ↦
      let one : bit x k ≡ 1 = ground (arith, set, bit-lt x k) in
      let some_set : bit_and x (2 ^ k) ≡ 1 * 2 ^ k = bit_and-power x k ∙ ap (λ t. t * 2 ^ k) one in
      rw set (ground (arith, some_set, power_pos k))
]

pub bit-set : (x j k : ℕ) → bit (bit_or x (2 ^ j)) k ≡ (if j == k then 1 else bit x k)
bit-set x j k = ground (arith, bit-bit_or x (2 ^ j) k, bit-power j k, bit-lt x k)

power-le : (j n : ℕ) → j < n → 2 ^ j * 2 ≤ 2 ^ n
power-le j zero h = absurd (omega arith)
power-le zero (suc n) h = omega (arith, power_pos n)
power-le (suc j) (suc n) h = omega (arith, power-le j n (omega arith))

bit-mask : (n j k : ℕ) → j < n → k < n → bit (2 ^ n - 1 - 2 ^ j) k ≡ (if j == k then 0 else 1)
bit-mask zero j k p q = absurd (omega arith)
bit-mask (suc n) zero zero p q = omega (arith, power_pos n)
bit-mask (suc n) zero (suc k) p q =
    let e : (2 ^ suc n - 1 - 1) / 2 ≡ 2 ^ n - 1 = omega (arith, power_pos n) in
    let ones : bit ((2 ^ suc n - 1 - 1) / 2) k ≡ 1 =
      ap (λ t. bit t k) e ∙ bit-ones n k (omega arith) in
    ground (arith, ones)
bit-mask (suc n) (suc j) zero p q =
    ground (arith, power_pos n, power_pos j, power-le j n (omega arith))
bit-mask (suc n) (suc j) (suc k) p q =
    let e : (2 ^ suc n - 1 - 2 ^ suc j) / 2 ≡ 2 ^ n - 1 - 2 ^ j = omega (arith, power_pos n) in
    ap (λ t. bit t k) e ∙ ground (arith, bit-mask n j k (omega arith) (omega arith))

pub bit-cleared :
    (x j k : ℕ) → j < 8 → k < 8 → bit (bit_and x (255 - 2 ^ j)) k ≡ (if j == k then 0 else bit x k)
bit-cleared x j k p q =
    ground (arith, bit-bit_and x (255 - 2 ^ j) k, bit-mask 8 j k p q, bit-lt x k)
