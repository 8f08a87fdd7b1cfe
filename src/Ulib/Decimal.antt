-- ===== src/Ulib/Decimal.antt =====
-- xv6/printf.c and ulib.c: `printint` and `atoi` on decimal numbers.
use tp2_ronaldo_joaopedro.Common.{
  ℕ, zero, suc, ◌+◌, ◌-◌, ◌*◌, ◌/◌, ◌%◌, ◌^◌, ◌<◌, ◌≤◌, true, false, ◌&&◌, some, List, [], ◌∷◌,
  length, All, ◌≡◌, refl, ap, ◌∙◌, inl, inr, arith, ◌==◌, leb, Bool-cases,
}
use tp2_ronaldo_joaopedro.Machine.{add32, sub32}
use tp2_ronaldo_joaopedro.Ulib.{
  is_digit, atoi_from, atoi, digit, digits_from, print_backwards, printint,
}

-- The number that digits stand for, lowest first.
abbrev value : List ℕ → ℕ
value [] = 0
value (c ∷ cs) = c - 48 + 10 * value cs

abbrev Digits : List ℕ → Type 0
Digits = All (λ c. is_digit c ≡ true)

-- The digits of a number below a power of ten.
digits_from-value :
    (k fuel x : ℕ)
    → x < 10 ^ suc k
    → k < fuel
    → (ds : List ℕ) × (digits_from fuel x 10 ≡ some ds)
      × Digits ds
      × (value ds ≡ x)
      × (length ds ≤ suc k)
unfolding digits_from
digits_from-value k zero x h f = absurd (omega arith)
digits_from-value k (suc fuel) x h f = elim (Bool-cases (x / 10 == 0)) [
  | inl last ↦
      let small : x < 10 = ground (arith, last) in
      (digit (x % 10) ∷ [], rw last refl, (ground arith, tt), ground (arith, small), omega arith)
  | inr more ↦
      let (j, e) = below k (ground (arith, more)) h in
      let (ds, is, plain, v, len) =
        digits_from-value j fuel (x / 10) (omega (arith, e, h, ap (λ t. 10 ^ suc t) e))
          (omega (arith, e, f)) in
      (
        digit (x % 10) ∷ ds,
        rw (more, is) refl,
        (ground arith, plain),
        next x (value ds) v,
        omega (arith, len, e),
      )
]
  where
    below : (k : ℕ) → 0 < x / 10 → x < 10 ^ suc k → (j : ℕ) × (k ≡ suc j)
    below zero p q = absurd (omega (arith, p, q))
    below (suc j) p q = (j, refl)

    next : (x v : ℕ) → v ≡ x / 10 → digit (x % 10) - 48 + 10 * v ≡ x
    next x v e = ground (arith, e)

-- Digits read from the end give their value, as long as it fits an `int`.
atoi_from-backwards :
    (ds tail : List ℕ)
    → Digits ds
    → value ds < 2 ^ 31
    → atoi_from 0 (print_backwards ds tail) ≡ atoi_from (value ds) tail
unfolding atoi_from print_backwards
atoi_from-backwards [] tail d h = refl
atoi_from-backwards (c ∷ cs) tail (is, d) h =
    let step : sub32 (add32 (value cs * 10 % 2 ^ 32) c) 48 ≡ c - 48 + 10 * value cs =
      ground (arith, is, h) in
    atoi_from-backwards cs (c ∷ tail) d (omega (arith, h)) ∙ rw is (ap (λ n. atoi_from n tail) step)

atoi_from-nil : (n : ℕ) → atoi_from n [] ≡ n
unfolding atoi_from
atoi_from-nil n = refl

length-print_backwards :
    (ds tail : List ℕ) → length (print_backwards ds tail) ≡ length ds + length tail
unfolding print_backwards
length-print_backwards [] tail = omega arith
length-print_backwards (c ∷ cs) tail = omega (arith, length-print_backwards cs (c ∷ tail))

-- printint in base ten, of a number that is no negative `int`, ends and prints at most ten bytes, so
-- that they fit its buffer of sixteen; atoi of them is the number again.
pub atoi-printint :
    (x : ℕ)
    → x < 2 ^ 31
    → (s : List ℕ) × (printint x 10 true ≡ some s) × (length s ≤ 10) × (atoi s ≡ x)
unfolding printint atoi
atoi-printint x h =
    let (ds, is, plain, v, len) = digits_from-value 9 33 x (omega (arith, h)) (omega arith) in
    let plus : (true && leb (2 ^ 31) x) ≡ false = ground (arith, h) in
    (
      print_backwards ds [],
      rw (plus, is) refl,
      omega (arith, length-print_backwards ds [], len),
      atoi_from-backwards ds [] plain (omega (arith, v, h)) ∙ atoi_from-nil (value ds) ∙ v,
    )
