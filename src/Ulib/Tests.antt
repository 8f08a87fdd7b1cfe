-- ===== src/Ulib/Tests.antt =====
-- The user library on small strings.
use tp2_ronaldo_joaopedro.Common.{ℕ, ◌≤◌, true, some, List, [], ◌∷◌, length, ◌≡◌, refl, arith}
use tp2_ronaldo_joaopedro.Ulib.{
  strcmp, gets, gets_from, atoi, printint, digits_from, print_backwards,
}
use tp2_ronaldo_joaopedro.Ulib.Decimal.{atoi-printint}

atoi-printint_example :
    (s : List ℕ) × (printint 2026 10 true ≡ some s) × (length s ≤ 10) × (atoi s ≡ 2026)
atoi-printint_example = atoi-printint 2026 (omega arith)

minus_one_printed : printint 0xffffffff 10 true ≡ some (b'-' ∷ b'1' ∷ [])
unfolding printint digits_from print_backwards
minus_one_printed = refl

hexadecimal : printint 0xbeef 16 true ≡ some (b'B' ∷ b'E' ∷ b'E' ∷ b'F' ∷ [])
unfolding printint digits_from print_backwards
hexadecimal = refl

prefix_is_less : strcmp (b'a' ∷ []) (b'a' ∷ b'b' ∷ []) ≡ 0xffffff9e
unfolding strcmp
prefix_is_less = refl

one_line : gets 100 (b'l' ∷ b's' ∷ b'\n' ∷ b'x' ∷ []) ≡ (b'l' ∷ b's' ∷ b'\n' ∷ [], b'x' ∷ [])
unfolding gets gets_from
one_line = refl
