-- ===== src/Bits/Step.antt =====
-- `&` and `|` one binary digit at a time, from the definitions that the native operations stand for.
use Prim.Native.Nat.{digits, bit_and-bitwise, bit_or-bitwise}
use tp2_ronaldo_joaopedro.Common.{
  ℕ, zero, suc, ◌+◌, ◌*◌, ◌/◌, ◌%◌, ◌≤◌, min, max, bit_and, bit_or, ◌≡◌, refl, ap, arith,
}

-- Both operations run the same digit loop, with fuel: any fuel of at least `x` serves.
module _ (rest : ℕ → ℕ) (digit : ℕ → ℕ → ℕ) where
  enough : (n m x y : ℕ) → x ≤ n → x ≤ m → digits rest digit n x y ≡ digits rest digit m x y
  enough zero zero x y p q = refl
  enough zero (suc m) zero y p q = refl
  enough (suc n) zero zero y p q = refl
  enough (suc n) (suc m) zero y p q = refl
  enough zero (suc m) (suc x) y p q = absurd (omega arith)
  enough (suc n) zero (suc x) y p q = absurd (omega arith)
  enough (suc n) (suc m) (suc x) y p q =
      ap (λ t. t * 2 + digit (suc x % 2) (y % 2))
        (enough n m (suc x / 2) (y / 2) (omega arith) (omega arith))

pub zero-bit_and : (y : ℕ) → bit_and 0 y ≡ 0
zero-bit_and y = bit_and-bitwise 0 y

pub zero-bit_or : (y : ℕ) → bit_or 0 y ≡ y
zero-bit_or y = bit_or-bitwise 0 y

pub bit_and_step : (x y : ℕ) → bit_and x y ≡ bit_and (x / 2) (y / 2) * 2 + min (x % 2) (y % 2)
bit_and_step zero y = omega (arith, zero-bit_and y, zero-bit_and (y / 2))
bit_and_step (suc x) y =
    let half : ℕ = suc x / 2 in
    omega (
      arith,
      bit_and-bitwise (suc x) y,
      bit_and-bitwise half (y / 2),
      enough (λ _. zero) min x half half (y / 2) (omega arith) (omega arith),
    )

pub bit_or_step : (x y : ℕ) → bit_or x y ≡ bit_or (x / 2) (y / 2) * 2 + max (x % 2) (y % 2)
bit_or_step zero y = omega (arith, zero-bit_or y, zero-bit_or (y / 2))
bit_or_step (suc x) y =
    let half : ℕ = suc x / 2 in
    omega (
      arith,
      bit_or-bitwise (suc x) y,
      bit_or-bitwise half (y / 2),
      enough (λ c. c) max x half half (y / 2) (omega arith) (omega arith),
    )
